-- ===== src/PackageParse/Stream.antt =====
-- The loop of Parse of PackageParse.hpp over streams of frames, and where a stream can be cut.
use linux_advance.Base.{
  ℕ, zero, suc, ◌<◌, ◌≤◌, ◌≡◌, refl, sym, ap, ◌∙◌, subst, false, some, List, [], ◌∷◌, ◌++◌,
  is_empty, length, take, drop, arith, All, append_assoc, append-nil, ltb, Bool-cases, inl, inr,
  take_append_le, take-append,
}
use linux_advance.Base.Monad.{Result, ok, fault, ◌>>=◌}
use linux_advance.Base.Text.{Text}
use linux_advance.Base.Text.Find.{find?_lacking}
use linux_advance.Protocol.Messages.{Request}
use linux_advance.Protocol.Frame.{encode, decode}
use linux_advance.Protocol.Frame.Partial.{Fits, decode_waits, decode-encode, decode-encode_cut}
use linux_advance.Protocol.Json.{Json}
use linux_advance.PackageParse.{answer_package, parse_loop}

-- The bytes of a sequence of payloads, each in its frame.
unfoldable pub frames : List Text → Text
frames [] = []
frames (p ∷ ps) = encode p ++ frames ps

-- A payload that a frame can carry and that Decode does not take for "nothing there yet".
abbrev pub IsPayload : Text → Type 0
IsPayload p = Fits p × (is_empty p ≡ false)

module _ (j : Json) where
  -- The answers to a sequence of payloads, one after the other.
  unfoldable pub answer_all : Request → List Text → Result Text
  answer_all req [] = ok []
  answer_all req (p ∷ ps) = do
    answered ← answer_package j req p
    rest ← answer_all answered.0 ps
    ok (answered.1 ++ rest)

  abbrev pub finish : Text → Text → Result Text → Result (Text × Text)
  finish tail out answers = answers >>= λ a. ok (tail, out ++ a)

  finish_cons :
      (tail out a : Text) (r : Result Text)
      → finish tail (out ++ a) r ≡ finish tail out (r >>= λ rest. ok (a ++ rest))
  finish_cons tail out a (ok t) = ap (λ (u : Text). ok (tail, u)) (append_assoc out a t)
  finish_cons tail out a (fault f) = refl

  after_answer :
      (m : Result (Request × Text)) (f : Request → Text → Result (Text × Text))
      (g : Request → Result Text) (tail out : Text)
      → ((r : Request) (a : Text) → f r (out ++ a) ≡ finish tail (out ++ a) (g r))
      → (m >>= λ a. f a.0 (out ++ a.1))
        ≡ finish tail out (m >>= λ a. g a.0 >>= λ rest. ok (a.1 ++ rest))
  after_answer (ok (r, a)) f g tail out h = h r a ∙ finish_cons tail out a (g r)
  after_answer (fault e) f g tail out h = refl

  pub parse_step :
      (req : Request) (b out m rest : Text) (fuel : ℕ)
      → decode b ≡ some (m, rest)
      → is_empty m ≡ false
      → parse_loop j (suc fuel) req b out
        ≡ (answer_package j req m >>= λ a. parse_loop j fuel a.0 rest (out ++ a.1))
  unfolding parse_loop
  parse_step req b out m rest fuel e full = ground (arith, e, full)

  -- From a buffer of whole frames and a tail in which Decode finds no frame, with more fuel than there
  -- are frames, the loop of Parse appends the answers to all frames, in order, and leaves the tail; a
  -- fault of one answer is the loop's.
  pub parse_loop-frames :
      (ps : List Text) (tail out : Text) (req : Request) (fuel : ℕ)
      → All IsPayload ps
      → decode tail ≡ some ([], tail)
      → length ps < fuel
      → parse_loop j fuel req (frames ps ++ tail) out ≡ finish tail out (answer_all req ps)
  unfolding parse_loop frames answer_all
  parse_loop-frames ps tail out req zero h w f = absurd (omega arith)
  parse_loop-frames [] tail out req (suc fuel) h w f =
      rw w (ap (λ (u : Text). ok (tail, u)) (sym (append-nil out)))
  parse_loop-frames (p ∷ ps) tail out req (suc fuel) ((fits, full), h) w f =
      ap (λ b. parse_loop j (suc fuel) req b out) (append_assoc (encode p) (frames ps) tail)
      ∙ (parse_step req (encode p ++ (frames ps ++ tail)) out p (frames ps ++ tail) fuel
            (decode-encode p (frames ps ++ tail) fits) full
          ∙ after_answer (answer_package j req p) (λ r o. parse_loop j fuel r (frames ps ++ tail) o)
              (λ r. answer_all r ps) tail out
              (λ r a. parse_loop-frames ps tail (out ++ a) r fuel h w (omega arith)))

-- What the bytes `b` that have come say of the stream: whole frames `qs`, a tail that waits for more,
-- and frames that the rest `r` completes.
pub record Cut (ps : List Text) (b r : Text) : Type 0 where
  pub whole : List Text
  pub rest : List Text
  pub tail : Text
  pub payloads : ps ≡ whole ++ rest
  pub arrived : b ≡ frames whole ++ tail
  pub left : tail ++ r ≡ frames rest
  pub waits : decode tail ≡ some ([], tail)

take_of_append : (b r e t : Text) → b ++ r ≡ e ++ t → length b ≤ length e → b ≡ take (length b) e
take_of_append b r e t h l =
    sym (take-append b r) ∙ (ap (take (length b)) h ∙ take_append_le e t (length b) l)

drop_of_append :
    (b r e t : Text)
    → b ++ r ≡ e ++ t
    → length e ≤ length b
    → (b ≡ e ++ drop (length e) b) × (drop (length e) b ++ r ≡ t)
drop_of_append b r [] t h l = (refl, h)
drop_of_append [] r (x ∷ e) t h l = absurd (omega arith)
drop_of_append (y ∷ b) r (x ∷ e) t h l = ground (arith, drop_of_append b r e t (cc) (omega arith))

pub decode-nil : decode [] ≡ some ([], [])
decode-nil = decode_waits [] (find?_lacking 13 (10 ∷ []) [] tt)

append_eq_nil : (b r : Text) → b ++ r ≡ [] → (b ≡ []) × (r ≡ [])
append_eq_nil [] r h = (refl, h)
append_eq_nil (x ∷ b) r h = cc

Cut-cons :
    (p : Text) (ps : List Text) (b c r : Text) → b ≡ encode p ++ c → Cut ps c r → Cut (p ∷ ps) b r
unfolding frames
Cut-cons p ps b c r e u = record {
  whole = p ∷ u.whole;
  rest = u.rest;
  tail = u.tail;
  payloads = ap (λ l. p ∷ l) u.payloads;
  arrived = rw e (rw append_assoc (ap (◌++◌ (encode p)) u.arrived));
  left = u.left;
  waits = u.waits;
}

-- Wherever a stream of frames is cut, it is cut so.
pub frames-Cut : (ps : List Text) (b r : Text) → All IsPayload ps → b ++ r ≡ frames ps → Cut ps b r
unfolding frames
frames-Cut [] b r h e = record {
  whole = [];
  rest = [];
  tail = [];
  payloads = refl;
  arrived = (append_eq_nil b r e).0;
  left = (append_eq_nil b r e).1;
  waits = decode-nil;
}
frames-Cut (p ∷ ps) b r ((fits, full), h) e =
    elim (Bool-cases (ltb (length b) (length (encode p)))) [
      | inl short ↦
          let b_lem : b ≡ take (length b) (encode p) =
            take_of_append b r (encode p) (frames ps) e (ground arith) in
          record {
            whole = [];
            rest = p ∷ ps;
            tail = b;
            payloads = refl;
            arrived = refl;
            left = e;
            waits =
                subst (λ t. decode t ≡ some ([], t)) (sym b_lem)
                  (decode-encode_cut p (length b) fits (ground arith));
          }
      | inr long ↦
          let (b_lem, rest) = drop_of_append b r (encode p) (frames ps) e (ground arith) in
          Cut-cons p ps b (drop (length (encode p)) b) r b_lem
            (frames-Cut ps (drop (length (encode p)) b) r h rest)
    ]
