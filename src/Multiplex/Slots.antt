-- ===== src/Multiplex/Slots.antt =====
-- Arrays of descriptors whose free places hold a default: the first free place.
use linux_advance.Base.{ℕ, suc, Bool, Option, none, some, List, [], ◌∷◌, if◌then◌else◌}

abbrev pub bump : Option ℕ → Option ℕ
bump none = none
bump (some n) = some (suc n)

module _ {ℓ} {A : Type ℓ} where
  -- for (; pos < N; pos++) if (free(array[pos])) break;
  unfoldable pub first_free : (A → Bool) → List A → Option ℕ
  first_free free [] = none
  first_free free (x ∷ xs) = if free x then some 0 else bump (first_free free xs)
