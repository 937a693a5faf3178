-- ===== src/Std/Map.antt =====
-- `HashMap`, `FxHashMap` and `DashMap`: association lists, searched from the front.
use farsight.Prelude.{
  ◌≤◌, ◌<◌, length, ◌≡◌, refl, sym, ◌∙◌, ◌⊎◌, inl, inr, Bool-cases, Bool, true, false, List, [],
  ◌∷◌, Option, none, some, arith, if◌then◌else◌,
}
use farsight.Std.Eq.{Eq, ◌==◌, ==_refl}

module _ {ℓ κ} {K : Type ℓ} {V : Type κ} ⦃e : Eq K⦄ where
  unfoldable pub lookup : K → List (K × V) → Option V
  lookup key [] = none
  lookup key (entry ∷ rest) = if entry.0 == key then some entry.1 else lookup key rest

  -- `insert` overwrites the entry of a key that is there.
  unfoldable pub insert : K → V → List (K × V) → List (K × V)
  insert key value [] = (key, value) ∷ []
  insert key value (entry ∷ rest) =
      if entry.0 == key then (key, value) ∷ rest else entry ∷ insert key value rest

  unfoldable pub remove : K → List (K × V) → List (K × V)
  remove key [] = []
  remove key (entry ∷ rest) = if entry.0 == key then remove key rest else entry ∷ remove key rest

  unfoldable pub contains_key : K → List (K × V) → Bool
  unfolding lookup
  contains_key key m = elim (lookup key m) [ none ↦ false | some _ ↦ true ]

  pub lookup-insert :
      (key other : K) (value : V) (m : List (K × V))
      → lookup other (insert key value m) ≡ (if key == other then some value else lookup other m)
  unfolding lookup insert
  lookup-insert key other value [] = refl
  lookup-insert key other value (entry ∷ rest) = ground (
    arith,
    e.equal_iff entry.0 key,
    e.equal_iff entry.0 other,
    e.equal_iff key other,
    lookup-insert key other value rest,
  )

  pub lookup-remove :
      (key other : K) (m : List (K × V))
      → lookup other (remove key m) ≡ (if key == other then none else lookup other m)
  unfolding lookup remove
  lookup-remove key other [] = ground arith
  lookup-remove key other (entry ∷ rest) = ground (
    arith,
    e.equal_iff entry.0 key,
    e.equal_iff entry.0 other,
    e.equal_iff key other,
    lookup-remove key other rest,
  )

  pub length-remove-le : (k : K) (m : List (K × V)) → length (remove k m) ≤ length m
  unfolding remove
  length-remove-le k [] = omega arith
  length-remove-le k ((j, w) ∷ m) = ground (arith, length-remove-le k m)

  pub length-remove-lt :
      (k : K) (m : List (K × V)) (v : V) → lookup k m ≡ some v → length (remove k m) < length m
  unfolding remove lookup
  length-remove-lt k [] v h = cc
  length-remove-lt k ((j, w) ∷ m) v h = ground (arith, length-remove-le k m, length-remove-lt k m v)

  -- Where a value found after an insertion or a removal comes from.
  pub insert_origin :
      (key other : K) (value w : V) (m : List (K × V))
      → lookup other (insert key value m) ≡ some w
      → ((key ≡ other) × (value ≡ w)) ⊎ (lookup other m ≡ some w)
  insert_origin key other value w m found =
      let at = sym (lookup-insert key other value m) ∙ found in
      elim (Bool-cases (key == other)) [
        | inl same ↦ inl ((e.equal_iff key other).0 same, ground (arith, at, same))
        | inr apart ↦ inr (ground (arith, at, apart))
      ]

  pub remove_origin :
      (key other : K) (w : V) (m : List (K × V))
      → lookup other (remove key m) ≡ some w
      → (lookup other m ≡ some w) × ((key == other) ≡ false)
  remove_origin key other w m found =
      let at = sym (lookup-remove key other m) ∙ found in
      elim (Bool-cases (key == other)) [
        | inl same ↦ absurd (ground (arith, at, same))
        | inr apart ↦ (ground (arith, at, apart), apart)
      ]

  pub lookup-remove_self : (key : K) (m : List (K × V)) → lookup key (remove key m) ≡ none
  lookup-remove_self key m = rw (lookup-remove key key m, ==_refl key) refl

  pub lookup-insert_self :
      (key : K) (v : V) (m : List (K × V)) → lookup key (insert key v m) ≡ some v
  lookup-insert_self key v m = rw (lookup-insert key key v m, ==_refl key) refl
