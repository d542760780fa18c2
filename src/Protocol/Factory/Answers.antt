-- ===== src/Protocol/Factory/Answers.antt =====
-- The requests that CalFactory makes, and what Execute answers to them.
use Prim.Native.Nat.{bit_and, bit_and-bitwise, digits, min}
use linux_advance.Base.{
  ℕ, zero, suc, ◌+◌, ◌*◌, ◌/◌, ◌%◌, ◌≤◌, ◌<◌, ◌≡◌, refl, sym, ap, ◌∙◌, subst, Bool, true, false,
  ◌&&◌, Option, none, some, ltb, ◌==◌, if◌then◌else◌, arith,
}
use linux_advance.Base.Int.{ℤ, pos, negsuc}
use linux_advance.Protocol.Messages.{Request, Response}
use linux_advance.Protocol.Factory.{product, char_at, opers}
use linux_advance.Calculate.{execute}

-- The recursion behind the native operation: no digit of 0, one of 1, two of 3, and those of 6.
abbrev common : ℕ → ℕ → ℕ → ℕ
common = digits (λ b. zero) min

common_none : (k a : ℕ) → common k a 0 ≡ 0
common_none zero a = refl
common_none (suc k) zero = refl
common_none (suc k) (suc a) = omega (arith, common_none k (suc a / 2))

common_one : (k a : ℕ) → a ≤ k → common k a 1 ≡ a % 2
common_one zero zero h = refl
common_one zero (suc a) h = absurd (omega arith)
common_one (suc k) zero h = refl
common_one (suc k) (suc a) h = omega (arith, common_none k (suc a / 2))

common_three : (k a : ℕ) → a ≤ k → common k a 3 ≡ a % 4
common_three zero zero h = refl
common_three zero (suc a) h = absurd (omega arith)
common_three (suc k) zero h = refl
common_three (suc k) (suc a) h = omega (arith, common_one k (suc a / 2) (omega arith))

common_six : (k a : ℕ) → a ≤ k → common k a 6 ≡ a / 2 % 4 * 2
common_six zero zero h = refl
common_six zero (suc a) h = absurd (omega arith)
common_six (suc k) zero h = refl
common_six (suc k) (suc a) h = omega (arith, common_three k (suc a / 2) (omega arith))

-- `& 6` keeps the digits of weight 2 and 4.
bit_and-six : (a : ℕ) → bit_and a 6 ≡ a / 2 % 4 * 2
bit_and-six a = bit_and-bitwise a 6 ∙ common_six a a (omega arith)

-- A property of the numbers below a bound, checked for each of them.
every : ℕ → (ℕ → Bool) → Bool
every zero p = true
every (suc n) p = let rest = every n p in if p n then rest else false

every-at : (n : ℕ) (p : ℕ → Bool) (i : ℕ) → every n p ≡ true → i < n → p i ≡ true
unfolding every
every-at zero p i h l = absurd (omega arith)
every-at (suc n) p i h l = ground (arith, every-at n p i)

abbrev made : ℕ → ℕ → ℕ → Request
made x y o = record { x = pos (x * 2); y = pos (y + 5); oper = char_at opers o }

-- The flag of the answer: 0 for the operators that Execute knows, 3 for the other two.
abbrev pub flag_for : ℕ → ℕ
flag_for o = if ltb o 5 then 0 else 3

abbrev is_pos : ℕ → ℤ → Bool
is_pos n (pos m) = n == m
is_pos n (negsuc m) = false

abbrev has_flag : ℕ → Option Response → Bool
has_flag f none = false
has_flag f (some r) = is_pos f r.flag

is_pos_sound : (n : ℕ) (a : ℤ) → is_pos n a ≡ true → a ≡ pos n
is_pos_sound n (pos m) h = ground arith
is_pos_sound n (negsuc m) h = cc

has_flag_sound :
    (f : ℕ) (o : Option Response)
    → has_flag f o ≡ true
    → (r : Response) × (o ≡ some r) × (r.flag ≡ pos f)
has_flag_sound f none h = cc
has_flag_sound f (some r) h = (r, refl, is_pos_sound f r.flag h)

answered : ℕ → ℕ → ℕ → Bool
answered x y o = has_flag (flag_for o) (execute (made x y o))

table : every 4 (λ x. every 10 (λ y. every 7 (answered x y))) ≡ true
unfolding every answered execute linux_advance.Base.Text.Decimal.int_to_string
table = refl

-- Whatever rand() gives to CalFactory, Execute answers the request that Product makes, without
-- undefined behaviour; its first operand is 0, 2, 4 or 6, and the flag is 0 for the first five
-- operators of `opers` and 3 for the other two.
pub execute-product :
    (first second third : ℕ) (req : Request)
    → (k : ℕ) × (r : Response) × (k < 4)
      × ((product first second third req).x ≡ pos (k * 2))
      × (execute (product first second third req) ≡ some r)
      × (r.flag ≡ pos (flag_for (third % 7)))
unfolding product answered
execute-product first second third req =
    let k = first / 2 % 4 in
    let x : pos (bit_and first 6) ≡ pos (k * 2) = ap pos (bit_and-six first) in
    let rows = every-at 4 (λ x. every 10 (λ y. every 7 (answered x y))) k table (omega arith) in
    let columns = every-at 10 (λ y. every 7 (answered k y)) (second % 10) rows (omega arith) in
    let cell = every-at 7 (answered k (second % 10)) (third % 7) columns (omega arith) in
    let (r, e, f) = has_flag_sound (flag_for (third % 7)) _ cell in
    (
      k,
      r,
      omega arith,
      x,
      ap
            (λ a.
              execute
                (record { x = a; y = pos (second % 10 + 5); oper = char_at opers (third % 7) }))
            x
          ∙ e,
      f,
    )
