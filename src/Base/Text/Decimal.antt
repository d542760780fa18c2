-- ===== src/Base/Text/Decimal.antt =====
-- std::to_string and std::stoi.
use linux_advance.Base.{
  ℕ, zero, suc, ◌+◌, ◌-◌, ◌*◌, ◌/◌, ◌%◌, ◌^◌, ◌≤◌, ◌<◌, ◌≡◌, refl, ap, ◌∙◌, Bool, true, ◌&&◌, ◌||◌,
  Option, none, some, List, [], ◌∷◌, ◌++◌, arith, ltb, leb, ◌==◌, if◌then◌else◌, All, Bool-cases,
  inl, inr, length,
}
use linux_advance.Base.Monad.Maybe.{◌>>=◌}
use linux_advance.Base.Int.{ℤ, pos, negsuc, fits_int, neg_of, checked}

abbrev Text : Type 0
Text = List ℕ

-- The decimal digits of `n` before `acc`; `suc n` is fuel enough, since each round divides by ten.
unfoldable pub digits : ℕ → ℕ → Text → Text
digits zero n acc = acc
digits (suc f) n acc =
    let more = digits f (n / 10) ((48 + n % 10) ∷ acc) in if ltb n 10 then (48 + n) ∷ acc else more

-- std::to_string of an unsigned value
unfoldable pub to_string : ℕ → Text
unfolding digits
to_string n = digits (suc n) n []

-- std::to_string of an int
unfoldable pub int_to_string : ℤ → Text
unfolding to_string
int_to_string (pos n) = to_string n
int_to_string (negsuc n) = b'-' ∷ to_string (suc n)

unfoldable pub is_digit : ℕ → Bool
is_digit c = leb 48 c && leb c 57

unfoldable pub is_space : ℕ → Bool
is_space c = c == 32 || (leb 9 c && leb c 13)

-- The value of the longest run of digits, behind the value `n`.
unfoldable pub scan : ℕ → Text → ℕ
unfolding is_digit
scan n [] = n
scan n (c ∷ s) = if is_digit c then scan (n * 10 + (c - 48)) s else n

-- At least one digit must stand there: std::invalid_argument.
unfoldable pub magnitude : Text → Option ℕ
unfolding scan is_digit
magnitude [] = none
magnitude (c ∷ s) = if is_digit c then some (scan 0 (c ∷ s)) else none

unfoldable pub signed : Text → Option ℤ
unfolding magnitude
signed [] = none
signed (c ∷ s) =
    if c == b'-'
    then (do n ← magnitude s; some (neg_of n))
    else if c == b'+'
    then (do n ← magnitude s; some (pos n))
    else do n ← magnitude (c ∷ s); some (pos n)

unfoldable pub skip_space : Text → Text
unfolding is_space
skip_space [] = []
skip_space (c ∷ s) = if is_space c then skip_space s else c ∷ s

-- std::stoi: `none` is an exception, std::invalid_argument or std::out_of_range.
unfoldable pub stoi : Text → Option ℤ
unfolding skip_space signed
stoi s = do n ← signed (skip_space s); checked n

abbrev pub IsDigit : ℕ → Type 0
IsDigit c = (48 ≤ c) × (c ≤ 57)

digits-append : (f n : ℕ) (acc r : Text) → digits f n acc ++ r ≡ digits f n (acc ++ r)
unfolding digits
digits-append zero n acc r = refl
digits-append (suc f) n acc r = ground (arith, digits-append f (n / 10) ((48 + n % 10) ∷ acc) r)

scan-digits : (f n : ℕ) (acc : Text) → n < f → scan 0 (digits f n acc) ≡ scan n acc
unfolding digits scan
scan-digits zero n acc h = absurd (omega arith)
scan-digits (suc f) n acc h = elim (Bool-cases (ltb n 10)) [
  | inl small ↦ ground arith
  | inr large ↦ ground (arith, scan-digits f (n / 10) ((48 + n % 10) ∷ acc))
]

digits-All : (f n : ℕ) (acc : Text) → All IsDigit acc → All IsDigit (digits f n acc)
unfolding digits
digits-All zero n acc h = h
digits-All (suc f) n acc h = elim (Bool-cases (ltb n 10)) [
  | inl small ↦ ground arith
  | inr large ↦
      ground (arith, digits-All f (n / 10) ((48 + n % 10) ∷ acc) ((omega arith, omega arith), h))
]

pub to_string-All : (n : ℕ) → All IsDigit (to_string n)
unfolding to_string
to_string-All n = digits-All (suc n) n [] tt

digits-ne-nil : (f n : ℕ) (acc : Text) → 0 < length acc → 0 < length (digits f n acc)
unfolding digits
digits-ne-nil zero n acc h = h
digits-ne-nil (suc f) n acc h = elim (Bool-cases (ltb n 10)) [
  | inl small ↦ ground arith
  | inr large ↦ ground (arith, digits-ne-nil f (n / 10) ((48 + n % 10) ∷ acc))
]

pub length-to_string_pos : (n : ℕ) → 0 < length (to_string n)
unfolding to_string digits
length-to_string_pos n = ground (arith, digits-ne-nil n (n / 10) ((48 + n % 10) ∷ []))

pub scan-to_string : (n : ℕ) → scan 0 (to_string n) ≡ n
unfolding to_string scan
scan-to_string n = ground (arith, scan-digits (suc n) n [])

-- Reading digits skips no space and finds no sign.
signed_digits :
    (s : Text) → All IsDigit s → 0 < length s → signed (skip_space s) ≡ some (pos (scan 0 s))
unfolding signed skip_space
signed_digits [] h l = absurd (omega arith)
signed_digits (c ∷ s) (hc, h) l = ground arith

stoi_digits :
    (s : Text) → All IsDigit s → 0 < length s → scan 0 s < 2 ^ 31 → stoi s ≡ some (pos (scan 0 s))
unfolding stoi
stoi_digits s h l b = rw (signed_digits s h l) (ground arith)

-- An int that is not negative is read back from its decimal print.
pub stoi-to_string : (n : ℕ) → n < 2 ^ 31 → stoi (to_string n) ≡ some (pos n)
stoi-to_string n h =
    stoi_digits (to_string n) (to_string-All n) (length-to_string_pos n) (rw scan-to_string h)
    ∙ ap (λ (m : ℕ). some (pos m)) (scan-to_string n)

signed_minus :
    (s : Text)
    → All IsDigit s
    → 0 < length s
    → signed (skip_space (b'-' ∷ s)) ≡ some (neg_of (scan 0 s))
unfolding signed skip_space
signed_minus [] h l = absurd (omega arith)
signed_minus (c ∷ s) (hc, h) l = ground arith

-- So is a negative one.
pub stoi-minus : (n : ℕ) → n < 2 ^ 31 → stoi (b'-' ∷ to_string (suc n)) ≡ some (negsuc n)
unfolding stoi
stoi-minus n h =
    rw
      (
        signed_minus (to_string (suc n)) (to_string-All (suc n)) (length-to_string_pos (suc n)),
        scan-to_string,
      )
      (ground arith)

-- Every int is read back from its decimal print.
pub stoi-int_to_string : (a : ℤ) → fits_int a ≡ true → stoi (int_to_string a) ≡ some a
unfolding int_to_string
stoi-int_to_string (pos n) h = stoi-to_string n (ground arith)
stoi-int_to_string (negsuc n) h = stoi-minus n (ground arith)
