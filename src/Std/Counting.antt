-- ===== src/Std/Counting.antt =====
-- The number of entries of an association list in which no key occurs twice.
use farsight.Prelude.{
  ℕ, suc, ◌+◌, ◌≡◌, refl, subst, ◌∙◌, inl, inr, false, List, [], ◌∷◌, none, some, ◌==◌, length,
  arith, Bool-cases,
}
use farsight.Std.Eq.{nat_eq}
use farsight.Std.Map.{lookup, insert, remove, lookup-insert, lookup-remove}

module _ {V : Type 0} where
  -- No key occurs twice.
  unfoldable pub Unique : List (ℕ × V) → Type 0
  Unique [] = Unit {0}
  Unique (e ∷ m) = (lookup e.0 m ≡ none) × Unique m

  -- How many entries a key has, when none occurs twice.
  unfoldable pub present : ℕ → List (ℕ × V) → ℕ
  present key m = elim (lookup key m) [ none ↦ 0 | some v ↦ 1 ]

  pub length-insert :
      (key : ℕ) (v : V) (m : List (ℕ × V))
      → length (insert key v m) + present key m ≡ suc (length m)
  unfolding insert present lookup
  length-insert key v [] = omega arith
  length-insert key v (e ∷ m) = ground (arith, length-insert key v m)

  pub length-remove_absent :
      (key : ℕ) (m : List (ℕ × V)) → lookup key m ≡ none → length (remove key m) ≡ length m
  unfolding remove lookup
  length-remove_absent key [] h = refl
  length-remove_absent key (e ∷ m) h = ground (arith, length-remove_absent key m)

  pub length-remove :
      (key : ℕ) (m : List (ℕ × V)) → Unique m → length (remove key m) + present key m ≡ length m
  unfolding remove present lookup Unique
  length-remove key [] u = omega arith
  length-remove key (e ∷ m) u =
      ground (arith, length-remove key m, length-remove_absent key m, nat_eq.equal_iff e.0 key)

  pub absent_insert :
      (key other : ℕ) (v : V) (m : List (ℕ × V))
      → (other == key) ≡ false
      → lookup other m ≡ none
      → lookup other (insert key v m) ≡ none
  absent_insert key other v m apart h = lookup-insert key other v m ∙ ground (arith, apart, h)

  pub absent_remove :
      (key other : ℕ) (m : List (ℕ × V))
      → lookup other m ≡ none
      → lookup other (remove key m) ≡ none
  absent_remove key other m h = lookup-remove key other m ∙ ground (arith, h)

  pub insert-Unique : (key : ℕ) (v : V) (m : List (ℕ × V)) → Unique m → Unique (insert key v m)
  unfolding insert Unique lookup
  insert-Unique key v [] u = (refl, tt)
  insert-Unique key v (e ∷ m) u = elim (Bool-cases (e.0 == key)) [
    | inl same ↦ rw (same, insert) (subst (λ k. lookup k m ≡ none) (ground (arith, same)) u.0, u.1)
    | inr apart ↦
        rw (apart, insert) (absent_insert key e.0 v m apart u.0, insert-Unique key v m u.1)
  ]

  pub remove-Unique : (key : ℕ) (m : List (ℕ × V)) → Unique m → Unique (remove key m)
  unfolding remove Unique
  remove-Unique key [] u = tt
  remove-Unique key (e ∷ m) u = elim (Bool-cases (e.0 == key)) [
    | inl same ↦ rw (same, remove) (remove-Unique key m u.1)
    | inr apart ↦ rw (apart, remove) (absent_remove key e.0 m u.0, remove-Unique key m u.1)
  ]

module _ {V : Type 0} where
  pub present-some :
      (key : ℕ) (v : V) (m : List (ℕ × V)) → lookup key m ≡ some v → present key m ≡ 1
  unfolding present
  present-some key v m e = rw (e, present) refl

  pub present-none : (key : ℕ) (m : List (ℕ × V)) → lookup key m ≡ none → present key m ≡ 0
  unfolding present
  present-none key m e = rw (e, present) refl
