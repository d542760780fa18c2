-- ===== src/Calculate/Division.antt =====
-- What the operators compute, and where C++ leaves the result undefined.
use linux_advance.Base.{
  ℕ, zero, suc, ◌↔◌, ◌-◌, ◌/◌, ◌^◌, ◌<◌, ◌≤◌, ◌≡◌, true, false, Option, none, some, arith,
  Bool-cases, inl, inr,
}
use linux_advance.Base.Int.{ℤ, pos, negsuc, ◌+ℤ◌, ◌*ℤ◌, tdiv, tmod, is_zero, fits_int, abs}
use linux_advance.Protocol.Messages.{Request, Response}
use linux_advance.Calculate.{execute, answer}

abbrev pub calc : ℤ → ℕ → ℤ → Option Response
calc x oper y = execute (record { x = x; y = y; oper = oper })

-- Division law of tdiv and tmod.
tdiv-tmod : (x y : ℤ) → is_zero y ≡ false → tdiv x y *ℤ y +ℤ tmod x y ≡ x
tdiv-tmod (pos a) (pos b) h = grind arith
tdiv-tmod (pos a) (negsuc b) h = grind arith
tdiv-tmod (negsuc a) (pos b) h = grind arith
tdiv-tmod (negsuc a) (negsuc b) h = grind arith

-- |tmod x y| < |y|
tmod_bound : (x y : ℤ) → is_zero y ≡ false → abs (tmod x y) < abs y
tmod_bound (pos a) (pos b) h = ground arith
tmod_bound (pos a) (negsuc b) h = ground arith
tmod_bound (negsuc a) (pos b) h = ground arith
tmod_bound (negsuc a) (negsuc b) h = ground arith

answer_result :
    (req : Request) (a : ℤ) (q : Response)
    → answer req a ≡ some q
    → (q.result ≡ a) × (q.flag ≡ pos 0) × (fits_int a ≡ true)
answer_result req a q e = elim (Bool-cases (fits_int a)) [
  | inl fits ↦ ground arith
  | inr over ↦ ground arith
]

execute_div :
    (x y : ℤ) (q : Response) → is_zero y ≡ false → calc x b'/' y ≡ some q → q.result ≡ tdiv x y
unfolding execute
execute_div x y q h e = (answer_result _ (tdiv x y) q (rw h at e)).0

execute_mod :
    (x y : ℤ) (q : Response) → is_zero y ≡ false → calc x b'%' y ≡ some q → q.result ≡ tmod x y
unfolding execute
execute_mod x y q h e = elim (Bool-cases (fits_int (tdiv x y))) [
  | inl fits ↦ (answer_result _ (tmod x y) q (rw (h, fits) at e)).0
  | inr over ↦ absurd (cc (rw (h, over) at e))
]

-- For a divisor that is not zero, where '/' and '%' are both answered, the answers fit together:
-- quotient times divisor plus remainder is the dividend, and the remainder is smaller than the divisor.
pub execute_division_law :
    (x y : ℤ) (q r : Response)
    → is_zero y ≡ false
    → calc x b'/' y ≡ some q
    → calc x b'%' y ≡ some r
    → (q.result *ℤ y +ℤ r.result ≡ x) × (abs r.result < abs y)
execute_division_law x y q r h eq er =
    rw (execute_div x y q h eq, execute_mod x y r h er) (tdiv-tmod x y h, tmod_bound x y h)

abbrev pub int_min : ℤ
int_min = negsuc (2 ^ 31 - 1)

div_self_le : (a b : ℕ) → a / b ≤ a
div_self_le a b = grind arith

div_large : (a b : ℕ) → 0 < b → 2 ^ 31 ≤ a / b → a ≤ 2 ^ 31 → (a ≡ 2 ^ 31) × (b ≡ 1)
div_large a zero h l f = absurd (omega arith)
div_large a (suc zero) h l f = (omega arith, omega arith)
div_large a (suc (suc b)) h l f = absurd (grind arith)

quotient_fits :
    (x y : ℤ) → fits_int x ≡ true → fits_int (tdiv x y) ≡ false → (x ≡ int_min) × (y ≡ negsuc 0)
quotient_fits (pos a) (pos b) hx h = ground (arith, div_self_le a b)
quotient_fits (pos a) (negsuc b) hx h = ground (arith, div_self_le a (suc b))
quotient_fits (negsuc a) (pos b) hx h = ground (arith, div_self_le (suc a) b)
quotient_fits (negsuc a) (negsuc b) hx h = ground (arith, div_large (suc a) (suc b))

min_overflows : (x y : ℤ) → fits_int (tdiv x y) ≡ true → x ≡ int_min → y ≡ negsuc 0 → ⊥
min_overflows (pos a) y h ex ey = cc
min_overflows (negsuc a) (pos b) h ex ey = cc
min_overflows (negsuc a) (negsuc b) h ex ey = ground arith

-- '/' on a dividend within an int is undefined behaviour if and only if the dividend is the smallest
-- int and the divisor is -1.
pub execute-eq-none_iff :
    (x y : ℤ) → fits_int x ≡ true → (calc x b'/' y ≡ none) ↔ ((x ≡ int_min) × (y ≡ negsuc 0))
unfolding execute
execute-eq-none_iff x y hx = elim (Bool-cases (is_zero y)) [
  | inl z ↦ ground arith
  | inr nz ↦ elim (Bool-cases (fits_int (tdiv x y))) [
    | inl fits ↦
        ((λ e. absurd (cc (rw (nz, fits) at e))), λ e. absurd (min_overflows x y fits e.0 e.1))
    | inr over ↦ (λ _. quotient_fits x y hx over, λ _. rw (nz, over))
  ]
]
