-- ===== src/Base/Text/Find.antt =====
-- Where the searches find what they look for, and what they find there.
use linux_advance.Base.{
  ℕ, suc, ◌≤◌, ◌≡◌, ◌≢◌, refl, ap, true, Option, none, some, [], ◌∷◌, ◌++◌, arith, take, drop,
  length, All, Bool-cases, subst, inl, inr, take-append, drop-append, length-append, le→ltb, ◌∙◌,
  take_of_length_le,
}
use linux_advance.Base.Text.{Text, starts_with, find?, rfind?, substr, add_one, text_eq, c_str}

-- The byte `b` is not in the text.
abbrev pub Lacks : ℕ → Text → Type 0
Lacks b = All (λ c. c ≢ b)

pub starts_with-append : (p s : Text) → starts_with p (p ++ s) ≡ true
unfolding starts_with
starts_with-append [] s = refl
starts_with-append (x ∷ p) s = ground (arith, starts_with-append p s)

-- A text that starts with `p` is `p` and the rest.
pub starts_with_sound : (p s : Text) → starts_with p s ≡ true → s ≡ p ++ drop (length p) s
unfolding starts_with
starts_with_sound [] s h = refl
starts_with_sound (x ∷ p) [] h = cc
starts_with_sound (x ∷ p) (y ∷ s) h = ground (arith, starts_with_sound p s)

-- Where the first byte of `p` does not occur, `p` is found right behind.
pub find?-append :
    (b : ℕ) (p s r : Text) → Lacks b s → find? (b ∷ p) (s ++ b ∷ (p ++ r)) ≡ some (length s)
unfolding find? starts_with
find?-append b p [] r h = ground (arith, starts_with-append p r)
find?-append b p (x ∷ s) r (hx, h) = ground (arith, find?-append b p s r h)

pub find?_lacking : (b : ℕ) (p s : Text) → Lacks b s → find? (b ∷ p) s ≡ none
unfolding find? starts_with
find?_lacking b p [] h = refl
find?_lacking b p (x ∷ s) (hx, h) = ground (arith, find?_lacking b p s h)

-- A found position splits the text.
abbrev pub Splits : Text → Text → ℕ → Type 0
Splits p s n = (pre : Text) × (post : Text) × (s ≡ pre ++ (p ++ post)) × (length pre ≡ n)

Splits-cons : (p s : Text) (n : ℕ) (x : ℕ) → Splits p s n → Splits p (x ∷ s) (suc n)
Splits-cons p s n x (pre, post, e, l) = (x ∷ pre, post, ap (λ t. x ∷ t) e, ap suc l)

find?_later :
    (x : ℕ) (p s : Text) (n : ℕ) (o : Option ℕ)
    → ((m : ℕ) → o ≡ some m → Splits p s m)
    → add_one o ≡ some n
    → Splits p (x ∷ s) n
find?_later x p s n none ih h = cc
find?_later x p s n (some m) ih h =
    subst (Splits p (x ∷ s)) (ground arith) (Splits-cons p s m x (ih m refl))

pub find?_sound : (p s : Text) (n : ℕ) → find? p s ≡ some n → Splits p s n
unfolding find? starts_with
find?_sound p [] n h = elim (Bool-cases (starts_with p [])) [
  | inl here ↦ ([], drop (length p) [], starts_with_sound p [] here, ground arith)
  | inr nowhere ↦ ground arith
]
find?_sound p (x ∷ s) n h = elim (Bool-cases (starts_with p (x ∷ s))) [
  | inl here ↦ ([], drop (length p) (x ∷ s), starts_with_sound p (x ∷ s) here, ground arith)
  | inr later ↦ find?_later x p s n (find? p s) (λ m e. find?_sound p s m e) (ground arith)
]

find?_at_start : (p s : Text) → starts_with p s ≡ true → find? p s ≢ none
unfolding find?
find?_at_start p [] h = ground arith
find?_at_start p (x ∷ s) h = ground arith

-- A text that stands somewhere is found.
pub find?-ne-none : (pre p post : Text) → find? p (pre ++ (p ++ post)) ≢ none
unfolding find?
find?-ne-none [] p post = find?_at_start p (p ++ post) (starts_with-append p post)
find?-ne-none (x ∷ pre) p post = ground (arith, find?-ne-none pre p post)

pub text_eq_refl : (s : Text) → text_eq s s ≡ true
unfolding text_eq
text_eq_refl [] = refl
text_eq_refl (x ∷ s) = ground (arith, text_eq_refl s)

pub text_eq→eq : (s t : Text) → text_eq s t ≡ true → s ≡ t
unfolding text_eq
text_eq→eq [] [] h = refl
text_eq→eq [] (y ∷ t) h = cc
text_eq→eq (x ∷ s) [] h = cc
text_eq→eq (x ∷ s) (y ∷ t) h = ground (arith, text_eq→eq s t)

pub c_str_lacking : (s : Text) → Lacks 0 s → c_str s ≡ s
unfolding c_str
c_str_lacking [] h = refl
c_str_lacking (x ∷ s) (hx, h) = ground (arith, c_str_lacking s h)

pub All-Lacks : (b : ℕ) (P : ℕ → Type 0) (s : Text) → ((c : ℕ) → P c → c ≢ b) → All P s → Lacks b s
All-Lacks b P [] f h = tt
All-Lacks b P (x ∷ s) f (hx, h) = (f x hx, All-Lacks b P s f h)

-- Where only the first byte of `p` is there yet, `p` is not found.
pub find?_cut : (b c : ℕ) (p s : Text) → Lacks b s → find? (b ∷ (c ∷ p)) (s ++ b ∷ []) ≡ none
unfolding find? starts_with
find?_cut b c p [] h = ground arith
find?_cut b c p (x ∷ s) (hx, h) = ground (arith, find?_cut b c p s h)

rfind?_lacking : (b : ℕ) (s : Text) → Lacks b s → rfind? (b ∷ []) s ≡ none
unfolding rfind? starts_with
rfind?_lacking b [] h = refl
rfind?_lacking b (x ∷ s) (hx, h) = ground (arith, rfind?_lacking b s h)

-- The last occurrence of a byte is the one behind which it does not occur.
pub rfind?-append :
    (b : ℕ) (s t : Text) → Lacks b t → rfind? (b ∷ []) (s ++ b ∷ t) ≡ some (length s)
unfolding rfind? starts_with
rfind?-append b [] t h = ground (arith, rfind?_lacking b t h)
rfind?-append b (x ∷ s) t h = ground (arith, rfind?-append b s t h)

pub substr_ok :
    (s : Text) (start count : ℕ)
    → start ≤ length s
    → substr s start count ≡ some (take count (drop start s))
unfolding substr
substr_ok s start count h = rw (le→ltb (length s) start h)

-- The text before a position, and the text from a position on.
pub substr_head : (s r : Text) → substr (s ++ r) 0 (length s) ≡ some s
substr_head s r =
    substr_ok (s ++ r) 0 (length s) (omega arith) ∙ ap (λ (t : Text). some t) (take-append s r)

pub substr_tail :
    (s r : Text) (start count : ℕ)
    → start ≡ length s
    → length r ≤ count
    → substr (s ++ r) start count ≡ some r
substr_tail s r start count e h = rw e (
    substr_ok (s ++ r) (length s) count (omega (arith, length-append s r))
    ∙ rw (drop-append s r) (ap (λ (t : Text). some t) (take_of_length_le count r h)))
