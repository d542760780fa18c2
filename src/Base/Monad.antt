-- ===== src/Base/Monad.antt =====
-- Chains of steps that may fail. A `Result` tells an exception that is thrown from behaviour that
-- C++ leaves undefined, from a call that blocks because the environment has nothing for it, from a
-- loop whose fuel ran out, and from the exit of the process. Module Maybe has the chains of steps with one
-- way to fail.
pub mod Maybe
use mathlib.Core.Path.{◌≡◌, refl, subst}
use mathlib.Core.Bool.{Bool, true, false}
use linux_advance.Base.Tests.{if◌then◌else◌}
use mathlib.Core.Logic.{◌⊎◌, inl, inr}
use mathlib.Core.Option.{Option, none, some}

pub data Fault : Type 0 where
  thrown undefined blocked no_fuel exited : Fault

pub data Result {ℓ} (A : Type ℓ) : Type ℓ where
  ok : A → Result A
  fault : Fault → Result A

abbrev pub or_fault {ℓ} : {A : Type ℓ} → Fault → Option A → Result A
or_fault f none = fault f
or_fault f (some a) = ok a

pub Result-cases {ℓ} :
    {A : Type ℓ} (m : Result A) → ((f : Fault) × (m ≡ fault f)) ⊎ ((a : A) × (m ≡ ok a))
Result-cases (ok a) = inr (a, refl)
Result-cases (fault f) = inl (f, refl)

abbrev pub is_ok {ℓ} : {A : Type ℓ} → Result A → Bool
is_ok (ok a) = true
is_ok (fault f) = false

infixl 5 ◌>>=◌
abbrev pub ◌>>=◌ {ℓ κ} : {A : Type ℓ} {B : Type κ} → Result A → (A → Result B) → Result B
ok a >>= f = f a
fault e >>= f = fault e

-- What a run that ends gives: nothing is said of a fault.
abbrev pub OnOk {ℓ κ} : {A : Type ℓ} → (A → Type κ) → Result A → Type κ
OnOk P (ok a) = P a
OnOk P (fault f) = Unit

module _ {ℓ κ μ} {A : Type ℓ} {B : Type κ} where
  pub OnOk-bind :
      (Q : B → Type μ) (m : Result A) (f : A → Result B)
      → ((a : A) → m ≡ ok a → OnOk Q (f a))
      → OnOk Q (m >>= f)
  OnOk-bind Q (ok a) f h = h a refl
  OnOk-bind Q (fault e) f h = tt

pub OnOk-map {ℓ κ μ} :
    {A : Type ℓ} (P : A → Type κ) (Q : A → Type μ) (m : Result A)
    → ((a : A) → P a → Q a)
    → OnOk P m
    → OnOk Q m
OnOk-map P Q (ok a) f h = f a h
OnOk-map P Q (fault e) f h = tt

pub OnOk-at {ℓ κ} : {A : Type ℓ} (P : A → Type κ) (m : Result A) (a : A) → OnOk P m → m ≡ ok a → P a
OnOk-at P (ok b) a h e = subst P (ok_injective e) h
  where
    ok_injective : ok b ≡ ok a → b ≡ a
    ok_injective e' = cc
OnOk-at P (fault f) a h e = absurd (cc)

pub is_ok-bind {ℓ κ} :
    {A : Type ℓ} {B : Type κ} (m : Result A) (f : A → B) → is_ok (m >>= λ a. ok (f a)) ≡ is_ok m
is_ok-bind (ok a) f = refl
is_ok-bind (fault e) f = refl

-- A run that ends, with what it gives.
abbrev pub Goes {ℓ κ} : {A : Type ℓ} → (A → Type κ) → Result A → Type (ℓ ⊔ κ)
Goes {A = A} P m = (a : A) × (m ≡ ok a) × P a

pub Goes-bind {ℓ κ μ ν} :
    {A : Type ℓ} {B : Type κ} (P : A → Type μ) (Q : B → Type ν) (m : Result A) (f : A → Result B)
    → Goes P m
    → ((a : A) → P a → Goes Q (f a))
    → Goes Q (m >>= f)
Goes-bind P Q m f (a, e, p) h = rw e (h a p)

pub Goes-if {ℓ κ} :
    {A : Type ℓ} (P : A → Type κ) (b : Bool) (x y : Result A)
    → Goes P x
    → Goes P y
    → Goes P (if b then x else y)
Goes-if P true x y hx hy = hx
Goes-if P false x y hx hy = hy

pub ok-bind {ℓ} :
    {A B : Type ℓ} (m : Result A) (f : A → B) (b : B)
    → (m >>= λ a. ok (f a)) ≡ ok b
    → (a : A) × (m ≡ ok a) × (b ≡ f a)
ok-bind (ok a) f b e = (a, refl, cc)
ok-bind (fault x) f b e = absurd (cc)

pub bind-ok {ℓ} :
    {A B : Type ℓ} (m : Result A) (f : A → Result B) (b : B)
    → (m >>= f) ≡ ok b
    → (a : A) × (m ≡ ok a) × (f a ≡ ok b)
bind-ok (ok a) f b e = (a, refl, e)
bind-ok (fault x) f b e = absurd (cc)
