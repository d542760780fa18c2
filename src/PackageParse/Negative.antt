-- ===== src/PackageParse/Negative.antt =====
-- Decode and the loop of Parse of PackageParse.hpp on a header with a negative length.
use linux_advance.Base.{
  ℕ, zero, suc, ◌-◌, ◌<◌, ◌≡◌, refl, ◌∙◌, false, some, [], ◌∷◌, ◌++◌, is_empty, length, arith,
}
use linux_advance.Base.Monad.{ok, fault, no_fuel}
use linux_advance.Base.Int.{pos, negsuc, to_int, npos}
use linux_advance.Base.Text.{Text, substr}
use linux_advance.Base.Text.Find.{substr_head, substr_tail}
use linux_advance.Base.Text.Decimal.{stoi}
use linux_advance.Protocol.Messages.{Request}
use linux_advance.Protocol.Frame.{sep, decode, decode_at}
use linux_advance.Protocol.Frame.Partial.{decode_found}
use linux_advance.Protocol.Json.{Json}
use linux_advance.PackageParse.{answer_package, parse_loop}
use linux_advance.PackageParse.Stream.{parse_step}

-- "-6\r\n" and what follows it
abbrev pub negative_frame : Text → Text
negative_frame t = (45 ∷ (54 ∷ [])) ++ (sep ++ t)

stoi_minus_six : stoi (45 ∷ (54 ∷ [])) ≡ some (negsuc 5)
unfolding stoi
stoi_minus_six = refl

tail_message : (t : Text) → length t < npos - 6 → substr (negative_frame t) 4 (npos - 5) ≡ some t
tail_message t h = substr_tail (45 ∷ (54 ∷ (13 ∷ (10 ∷ [])))) t 4 (npos - 5) refl (omega arith)

header_text : (t : Text) → substr (negative_frame t) 0 2 ≡ some (45 ∷ (54 ∷ []))
header_text t = substr_head (45 ∷ (54 ∷ [])) (sep ++ t)

decode_negative_at :
    (t : Text)
    → length t < npos - 6
    → decode_at (negative_frame t) (pos 2) ≡ some (t, negative_frame t)
unfolding decode_at to_int
decode_negative_at t h =
    rw (header_text t) (rw stoi_minus_six (rw (tail_message t h) (ground arith)))

-- On a buffer that begins with the header -6, Decode returns all that follows as a message and takes
-- nothing off the buffer.
pub decode_negative :
    (t : Text) → length t < npos - 6 → decode (negative_frame t) ≡ some (t, negative_frame t)
decode_negative t h =
    decode_found (45 ∷ (54 ∷ [])) t (omega arith) (omega arith) ∙ decode_negative_at t h

-- On a buffer of the header -6 and a text that is not empty, is shorter than 2^64 - 7 and is answered,
-- whatever request the request object held, the loop of Parse never ends: no fuel is enough.
pub parse_loop-negative :
    (j : Json) (t a : Text) (fuel : ℕ) (req : Request) (out : Text)
    → length t < npos - 6
    → is_empty t ≡ false
    → ((r : Request) → (r' : Request) × (answer_package j r t ≡ ok (r', a)))
    → parse_loop j fuel req (negative_frame t) out ≡ fault no_fuel
unfolding parse_loop
parse_loop-negative j t a zero req out h full ans = refl
parse_loop-negative j t a (suc fuel) req out h full ans =
    let (r', e) = ans req in
    parse_step j req (negative_frame t) out t (negative_frame t) fuel (decode_negative t h) full
    ∙ rw e (parse_loop-negative j t a fuel r' (out ++ a) h full ans)
