-- ===== src/Base/Map.antt =====
-- std::unordered_map with keys that are numbers, as an association list in the order of insertion.
use linux_advance.Base.{
  ℕ, ◌≡◌, Bool, true, false, Option, none, some, List, [], ◌∷◌, arith, ◌==◌, if◌then◌else◌,
}

abbrev pub Map {ℓ} : Type ℓ → Type ℓ
Map V = List (ℕ × V)

abbrev pub is_some {ℓ} : {A : Type ℓ} → Option A → Bool
is_some none = false
is_some (some a) = true

module _ {ℓ} {V : Type ℓ} where
  unfoldable pub lookup : ℕ → Map V → Option V
  lookup k [] = none
  lookup k ((j, v) ∷ m) = if j == k then some v else lookup k m

  -- m.insert({k, v}): an entry that is there stays.
  unfoldable pub insert : ℕ → V → Map V → Map V
  insert k v [] = (k, v) ∷ []
  insert k v ((j, w) ∷ m) = if j == k then (j, w) ∷ m else (j, w) ∷ insert k v m

  -- A write to the entry of `k`, if there is one.
  unfoldable pub update : ℕ → V → Map V → Map V
  update k v [] = []
  update k v ((j, w) ∷ m) = if j == k then (j, v) ∷ m else (j, w) ∷ update k v m

  -- m.erase(k)
  unfoldable pub remove : ℕ → Map V → Map V
  remove k [] = []
  remove k ((j, v) ∷ m) = let rest = remove k m in if j == k then rest else (j, v) ∷ rest

  abbrev pub or_else : Option V → V → Option V
  or_else none v = some v
  or_else (some w) v = some w

  abbrev pub replace : Option V → V → Option V
  replace none v = none
  replace (some w) v = some v

  pub lookup-insert :
      (k i : ℕ) (v : V) (m : Map V)
      → lookup i (insert k v m) ≡ (if k == i then or_else (lookup k m) v else lookup i m)
  unfolding lookup insert
  lookup-insert k i v [] = ground arith
  lookup-insert k i v ((j, w) ∷ m) = ground (arith, lookup-insert k i v m)

  pub lookup-update :
      (k i : ℕ) (v : V) (m : Map V)
      → lookup i (update k v m) ≡ (if k == i then replace (lookup k m) v else lookup i m)
  unfolding lookup update
  lookup-update k i v [] = ground arith
  lookup-update k i v ((j, w) ∷ m) = ground (arith, lookup-update k i v m)

  pub lookup-remove :
      (k i : ℕ) (m : Map V) → lookup i (remove k m) ≡ (if k == i then none else lookup i m)
  unfolding lookup remove
  lookup-remove k i [] = ground arith
  lookup-remove k i ((j, w) ∷ m) = ground (arith, lookup-remove k i m)

pub ruleset map_laws = (lookup-insert, lookup-update, lookup-remove)

-- A write to an entry that is there.
pub lookup-update_self {ℓ} :
    {V : Type ℓ} (k : ℕ) (v w : V) (m : Map V)
    → lookup k m ≡ some w
    → lookup k (update k v m) ≡ some v
lookup-update_self k v w m h = rw lookup-update (ground (arith, h))

pub lookup-remove_self {ℓ} : {V : Type ℓ} (k : ℕ) (m : Map V) → lookup k (remove k m) ≡ none
lookup-remove_self k m = rw lookup-remove (ground arith)
