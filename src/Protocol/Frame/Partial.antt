-- ===== src/Protocol/Frame/Partial.antt =====
-- Decode of a whole frame, and of one that has not arrived whole.
use linux_advance.Base.{
  ℕ, suc, ◌+◌, ◌-◌, ◌%◌, ◌^◌, ◌≤◌, ◌<◌, ◌≡◌, ◌≢◌, refl, ◌∙◌, none, some, [], ◌∷◌, ◌++◌, arith, ltb,
  if◌then◌else◌, length, take, drop, length-append, take-append, drop_append_add, take_append_add,
  take_append_le, length-take_le, append_assoc, Bool-cases, inl, inr, subst, All-take,
}
use linux_advance.Base.Int.{pos, to_int, to_int-small}
use linux_advance.Base.Text.{Text, find, find?, substr}
use linux_advance.Base.Text.Find.{Lacks, find?-append, find?_lacking, find?_cut, All-Lacks}
use linux_advance.Base.Text.Decimal.{
  stoi, to_string, int_to_string, IsDigit, to_string-All, length-to_string_pos, stoi-to_string,
}
use linux_advance.Protocol.Frame.{sep, encode, decode, decode_at}

pub IsDigit-ne-cr : (c : ℕ) → IsDigit c → c ≢ 13
IsDigit-ne-cr c h = omega arith

pub to_string-Lacks : (n : ℕ) → Lacks 13 (to_string n)
to_string-Lacks n = All-Lacks 13 IsDigit (to_string n) IsDigit-ne-cr (to_string-All n)

-- Where no separator stands, Decode waits for more.
pub decode_waits : (b : Text) → find? sep b ≡ none → decode b ≡ some ([], b)
unfolding decode find to_int
decode_waits b h = rw h

pub decode_found :
    (s t : Text)
    → Lacks 13 s
    → length s < 2 ^ 31
    → decode (s ++ (sep ++ t)) ≡ decode_at (s ++ (sep ++ t)) (pos (length s))
unfolding decode find
decode_found s t h l =
    rw (find?-append 13 (10 ∷ []) s t h, to_int-small (length s) l) (ground arith)

total_small :
    (l n : ℕ) → l + n + 4 < 2 ^ 31 → to_int ((l + 2 + 2 + n) % 2 ^ 64) ≡ pos (l + 2 + 2 + n)
unfolding to_int
total_small l n h = ground arith

-- The steps behind a header `s` that announces `n` bytes.
decode_at_lem :
    (s t : Text) (n : ℕ)
    → 0 < length s
    → stoi s ≡ some (pos n)
    → length s + n + 4 < 2 ^ 31
    → decode_at (s ++ (sep ++ t)) (pos (length s))
      ≡ some (if ltb (length t) (n + 2) then ([], s ++ (sep ++ t)) else (take n t, drop (n + 2) t))
unfolding decode_at substr
decode_at_lem [] t n l e h = absurd (omega arith)
decode_at_lem (c ∷ s) t n l e h = ground (
  arith,
  take-append (c ∷ s) (sep ++ t),
  total_small (length (c ∷ s)) n h,
  length-append s (sep ++ t),
  drop_append_add (c ∷ s) (sep ++ t) 2 ((length (c ∷ s) + 2) % 2 ^ 64) (omega arith),
  drop_append_add (c ∷ s) (sep ++ t) (suc (suc (n + 2))) (length (c ∷ s) + 2 + 2 + n) (omega arith),
)

-- A header is a whole frame's if the payload and the closing separator follow.
pub decode_frame :
    (n : ℕ) (t : Text)
    → length (to_string n) + n + 4 < 2 ^ 31
    → decode (to_string n ++ (sep ++ t))
      ≡ some (
          if ltb (length t) (n + 2)
          then ([], to_string n ++ (sep ++ t))
          else (take n t, drop (n + 2) t))
decode_frame n t h =
    decode_found (to_string n) t (to_string-Lacks n) (omega arith)
    ∙ decode_at_lem (to_string n) t n (length-to_string_pos n) (stoi-to_string n (omega arith)) h

-- The payload of a frame fits where its length and the two separators do not pass an int.
abbrev pub Fits : Text → Type 0
Fits m = length (to_string (length m)) + length m + 4 < 2 ^ 31

pub encode_lem : (m : Text) → Fits m → encode m ≡ to_string (length m) ++ (sep ++ (m ++ sep))
unfolding encode int_to_string
encode_lem m h = rw (to_int-small (length m) (omega arith))

decode_payload :
    (m r : Text)
    → Fits m
    → decode (to_string (length m) ++ (sep ++ (m ++ (sep ++ r)))) ≡ some (m, r)
decode_payload m r h =
    decode_frame (length m) (m ++ (sep ++ r)) h
    ∙ ground (
      arith,
      length-append m (sep ++ r),
      take-append m (sep ++ r),
      drop_append_add m (sep ++ r) 2 (length m + 2) refl,
    )

frame_append : (s m r : Text) → (s ++ (sep ++ (m ++ sep))) ++ r ≡ s ++ (sep ++ (m ++ (sep ++ r)))
frame_append s m r = simp append_assoc

-- Decode takes the first frame off the buffer, whatever follows it, and returns its payload, if the
-- frame's length stays below 2^31.
pub decode-encode : (m rest : Text) → Fits m → decode (encode m ++ rest) ≡ some (m, rest)
decode-encode m rest h =
    rw (encode_lem m h, frame_append (to_string (length m)) m rest) (decode_payload m rest h)

Waits : Text → Type 0
Waits b = decode b ≡ some ([], b)

stays_in_header :
    (s t : Text) (k : ℕ) → Lacks 13 s → k ≤ length s + 1 → Waits (take k (s ++ (sep ++ t)))
unfolding Waits
stays_in_header s t k h l = elim (Bool-cases (ltb k (length s + 1))) [
  | inl short ↦
      rw (take_append_le s (sep ++ t) k (ground arith))
        (decode_waits (take k s) (find?_lacking 13 (10 ∷ []) (take k s) (All-take _ k s h)))
  | inr cut ↦
      rw (take_append_add s (sep ++ t) 1 k (ground arith))
        (decode_waits (s ++ 13 ∷ []) (find?_cut 13 10 [] s h))
]

stays_in_payload :
    (n : ℕ) (t : Text) (k : ℕ)
    → length (to_string n) + n + 4 < 2 ^ 31
    → k < n + 2
    → Waits (take (length (to_string n) + suc (suc k)) (to_string n ++ (sep ++ t)))
unfolding Waits
stays_in_payload n t k h l =
    rw (take_append_add (to_string n) (sep ++ t) (suc (suc k)) _ refl)
      (decode_frame n (take k t) h ∙ ground (arith, length-take_le k t))

stays_in_frame :
    (n : ℕ) (t : Text) (k : ℕ)
    → length (to_string n) + n + 4 < 2 ^ 31
    → k < length (to_string n) + n + 4
    → Waits (take k (to_string n ++ (sep ++ t)))
stays_in_frame n t k h l = elim (Bool-cases (ltb k (length (to_string n) + 2))) [
  | inl header ↦ stays_in_header (to_string n) t k (to_string-Lacks n) (ground arith)
  | inr payload ↦
      subst (λ j. Waits (take j (to_string n ++ (sep ++ t)))) (ground arith)
        (stays_in_payload n t (k - (length (to_string n) + 2)) h (ground arith))
]

pub length-encode :
    (m : Text) → Fits m → length (encode m) ≡ length (to_string (length m)) + length m + 4
length-encode m h =
    rw encode_lem
      (omega (arith, length-append (to_string (length m)) (sep ++ (m ++ sep)), length-append m sep))

-- A frame of a length below 2^31 of which only the first `k` bytes have arrived, fewer than all, is
-- left in the buffer, and no message comes out of it.
pub decode-encode_cut :
    (m : Text) (k : ℕ)
    → Fits m
    → k < length (encode m)
    → decode (take k (encode m)) ≡ some ([], take k (encode m))
unfolding Waits
decode-encode_cut m k h l =
    rw (encode_lem m h)
      (stays_in_frame (length m) (m ++ sep) k h (omega (arith, length-encode m h)))
