-- ===== src/Base/TextMap.antt =====
-- std::unordered_map with keys that are texts.
use linux_advance.Base.{
  ◌≡◌, refl, true, false, Option, none, some, List, [], ◌∷◌, arith, if◌then◌else◌, Bool-cases, inl,
  inr, ◌⊎◌, subst,
}
use linux_advance.Base.Text.{Text, text_eq}
use linux_advance.Base.Text.Find.{text_eq_refl, text_eq→eq}

abbrev pub TextMap {ℓ} : Type ℓ → Type ℓ
TextMap V = List (Text × V)

module _ {ℓ} {V : Type ℓ} where
  -- m.find(k)
  unfoldable pub lookup : Text → TextMap V → Option V
  lookup k [] = none
  lookup k ((j, v) ∷ m) = if text_eq j k then some v else lookup k m

  -- m[k] = v
  unfoldable pub assign : Text → V → TextMap V → TextMap V
  assign k v [] = (k, v) ∷ []
  assign k v ((j, w) ∷ m) = if text_eq j k then (j, v) ∷ m else (j, w) ∷ assign k v m

  -- m.insert({k, v}): an entry that is there stays.
  unfoldable pub insert : Text → V → TextMap V → TextMap V
  insert k v [] = (k, v) ∷ []
  insert k v ((j, w) ∷ m) = if text_eq j k then (j, w) ∷ m else (j, w) ∷ insert k v m

  abbrev pub value_or : Option V → V → V
  value_or none d = d
  value_or (some v) d = v

  -- m[k] read: a missing key is inserted with the default value `d`.
  unfoldable pub index : Text → V → TextMap V → V × TextMap V
  unfolding insert lookup
  index k d m = (value_or (lookup k m) d, insert k d m)

  pub lookup-assign_self : (k : Text) (v : V) (m : TextMap V) → lookup k (assign k v m) ≡ some v
  unfolding lookup assign
  lookup-assign_self k v [] = rw (text_eq_refl k)
  lookup-assign_self k v ((j, w) ∷ m) = elim (Bool-cases (text_eq j k)) [
    | inl same ↦ rw same (ground (arith, same))
    | inr other ↦ rw other (ground (arith, other, lookup-assign_self k v m))
  ]

  pub lookup-insert :
      (k i : Text) (v : V) (m : TextMap V)
      → lookup i (insert k v m)
        ≡ (if text_eq k i then some (value_or (lookup i m) v) else lookup i m)
  unfolding lookup insert
  lookup-insert k i v [] = refl
  lookup-insert k i v ((j, w) ∷ m) = elim (Bool-cases (text_eq j k)) [
    | inl same ↦ rw (text_eq→eq j k same) (same_key (text_eq_refl k))
    | inr other ↦ rw other (other_key other (Bool-cases (text_eq k i)) (lookup-insert k i v m))
  ]
    where
      same_key :
          text_eq k k ≡ true
          → lookup i (if text_eq k k then (k, w) ∷ m else (k, w) ∷ insert k v m) ≡ (
              if text_eq k i
              then some (value_or (lookup i ((k, w) ∷ m)) v)
              else lookup i ((k, w) ∷ m))
      same_key e = rw e (ground arith)

      other_key :
          text_eq j k ≡ false
          → (text_eq k i ≡ true) ⊎ (text_eq k i ≡ false)
          → lookup i (insert k v m)
            ≡ (if text_eq k i then some (value_or (lookup i m) v) else lookup i m)
          → lookup i ((j, w) ∷ insert k v m) ≡ (
              if text_eq k i
              then some (value_or (lookup i ((j, w) ∷ m)) v)
              else lookup i ((j, w) ∷ m))
      other_key e (inl hit) ih =
          let miss : text_eq j i ≡ false =
            subst (λ t. text_eq j t ≡ false) (text_eq→eq k i hit) e in
          ground (arith, ih, hit, miss)
      other_key e (inr miss) ih = ground (arith, ih, miss)

  pub lookup-assign :
      (k i : Text) (v : V) (m : TextMap V)
      → lookup i (assign k v m) ≡ (if text_eq k i then some v else lookup i m)
  unfolding lookup assign
  lookup-assign k i v [] = refl
  lookup-assign k i v ((j, w) ∷ m) = elim (Bool-cases (text_eq j k)) [
    | inl same ↦ rw (text_eq→eq j k same) (rw (text_eq_refl k) (ground arith))
    | inr other ↦ rw other (other_key other (Bool-cases (text_eq k i)) (lookup-assign k i v m))
  ]
    where
      other_key :
          text_eq j k ≡ false
          → (text_eq k i ≡ true) ⊎ (text_eq k i ≡ false)
          → lookup i (assign k v m) ≡ (if text_eq k i then some v else lookup i m)
          → lookup i ((j, w) ∷ assign k v m)
            ≡ (if text_eq k i then some v else lookup i ((j, w) ∷ m))
      other_key e (inl hit) ih =
          let miss : text_eq j i ≡ false =
            subst (λ t. text_eq j t ≡ false) (text_eq→eq k i hit) e in
          ground (arith, ih, hit, miss)
      other_key e (inr miss) ih = ground (arith, ih, miss)
