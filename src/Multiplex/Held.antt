-- ===== src/Multiplex/Held.antt =====
-- Where the descriptors of a server are: in its table, closed, or still to be accepted.
use linux_advance.Base.{
  ℕ, zero, suc, ◌+◌, ◌≡◌, refl, Bool, true, Option, none, some, List, [], ◌∷◌, arith, ◌==◌,
  get_elem?, set, if◌then◌else◌, Bool-cases, inl, inr, subst, replicate,
}
use linux_advance.Multiplex.Echo.{Call, opened, close, sent, ctl_add, ctl_del}
use linux_advance.Multiplex.Slots.{bump, first_free}

-- 1 for the descriptor `d`.
unfoldable pub one_if : ℕ → ℕ → ℕ
one_if d fd = if fd == d then 1 else 0

abbrev pub one_of : ℕ → Option ℕ → ℕ
one_of d none = 0
one_of d (some fd) = one_if d fd

abbrev pub is_closed : ℕ → Call → ℕ
is_closed d (close fd) = one_if d fd
is_closed d (opened fd) = 0
is_closed d (ctl_add fd) = 0
is_closed d (ctl_del fd) = 0
is_closed d (sent fd b) = 0

-- How often `d` has been closed.
unfoldable pub closings : ℕ → List Call → ℕ
closings d [] = 0
closings d (c ∷ cs) = is_closed d c + closings d cs

-- How often `d` is still to be accepted.
unfoldable pub arrivals : ℕ → List (Option ℕ) → ℕ
arrivals d [] = 0
arrivals d (o ∷ os) = one_of d o + arrivals d os

-- A table of places, of which each holds a descriptor or none.
module _ {A : Type 0} (fd_of : A → Option ℕ) where
  -- How often `d` stands in the table.
  unfoldable pub held : ℕ → List A → ℕ
  held d [] = 0
  held d (x ∷ xs) = one_of d (fd_of x) + held d xs

  pub held-set :
      (d : ℕ) (xs : List A) (i : ℕ) (x p : A)
      → get_elem? xs i ≡ some x
      → held d (set xs i p) + one_of d (fd_of x) ≡ held d xs + one_of d (fd_of p)
  unfolding held
  held-set d [] i x p h = absurd (cc)
  held-set d (y ∷ ys) zero x p h = let same : y ≡ x = cc in rw same (omega arith)
  held-set d (y ∷ ys) (suc i) x p h = let ih = held-set d ys i x p h in omega arith

  pub held-replicate : (d n : ℕ) (x : A) → fd_of x ≡ none → held d (replicate n x) ≡ 0
  unfolding held
  held-replicate d zero x h = refl
  held-replicate d (suc n) x h = let ih = held-replicate d n x h in rw h (omega arith)

  -- Place `i` is there and holds no descriptor.
  abbrev pub IsEmptyAt : List A → ℕ → Type 0
  IsEmptyAt xs i = (x : A) × (get_elem? xs i ≡ some x) × (fd_of x ≡ none)

  module _ (free : A → Bool) (free_lem : (x : A) → free x ≡ true → fd_of x ≡ none) where
    pub bump-IsEmptyAt :
        (y : A) (ys : List A) (o : Option ℕ) (i : ℕ)
        → bump o ≡ some i
        → ((k : ℕ) → o ≡ some k → IsEmptyAt ys k)
        → IsEmptyAt (y ∷ ys) i
    bump-IsEmptyAt y ys none i h found = absurd (cc)
    bump-IsEmptyAt y ys (some k) i h found =
        let (x, there, nothing) = found k refl in
        let same : suc k ≡ i = cc in
        (x, subst (λ n. get_elem? (y ∷ ys) n ≡ some x) same there, nothing)

    pub first_free-IsEmptyAt : (xs : List A) (i : ℕ) → first_free free xs ≡ some i → IsEmptyAt xs i
    unfolding first_free
    first_free-IsEmptyAt [] i h = absurd (cc)
    first_free-IsEmptyAt (y ∷ ys) i h = elim (Bool-cases (free y)) [
      | inl is ↦
          let same : 0 ≡ i = ground (arith, rw is at h) in
          (y, subst (λ n. get_elem? (y ∷ ys) n ≡ some y) same refl, free_lem y is)
      | inr taken ↦
          bump-IsEmptyAt y ys (first_free free ys) i (rw taken at h)
            (λ k e. first_free-IsEmptyAt ys k e)
    ]
