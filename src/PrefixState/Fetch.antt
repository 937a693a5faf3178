-- ===== src/PrefixState/Fetch.antt =====
-- `fetch_unscanned` finds an unscanned offset whenever there is one, whatever the generator draws.
use farsight.Prelude.{
  ℕ, zero, suc, ◌+◌, ◌≤◌, ◌<◌, ◌≡◌, refl, inl, inr, true, false, Option, none, some, ◌==◌, arith,
  Bool-cases, Option-cases, subst, ℕ_discrete,
}
use farsight.External.{Rng}
use farsight.PrefixState.{PrefixState, is_unscanned, find_unscanned, fetch_loop, fetch_unscanned}
use farsight.PrefixState.Invariant.{IsValid, count_below-none, count_below-some}

-- What is found among the offsets from `lo` to below `hi`.
abbrev pub Finds : PrefixState → ℕ → ℕ → Option ℕ → Type 0
Finds s lo hi none = (j : ℕ) → lo ≤ j → j < hi → is_unscanned s j ≡ false
Finds s lo hi (some o) = (lo ≤ o) × (o < hi) × (is_unscanned s o ≡ true)

Finds-next :
    (s : PrefixState) (lo hi : ℕ) (r : Option ℕ)
    → is_unscanned s lo ≡ false
    → Finds s (lo + 1) hi r
    → Finds s lo hi r
Finds-next s lo hi none used h =
    λ j le lt. elim (ℕ_discrete lo j) [ yes e ↦ rw (← e) used | no ne ↦ h j (omega arith) lt ]
Finds-next s lo hi (some o) used h = (omega arith, h.1, h.2)

find_unscanned-Finds :
    (n : ℕ) (s : PrefixState) (lo hi : ℕ) → lo + n ≡ hi → Finds s lo hi (find_unscanned n s lo)
unfolding find_unscanned
find_unscanned-Finds zero s lo hi e = λ j le lt. absurd (omega arith)
find_unscanned-Finds (suc n) s lo hi e = elim (Bool-cases (is_unscanned s lo)) [
  | inl free ↦ rw free (omega arith, omega arith, free)
  | inr used ↦
      rw used (Finds-next s lo hi _ used (find_unscanned-Finds n s (lo + 1) hi (omega arith)))
]

-- The result of a fetch, by `remaining`.
abbrev pub Fetched : PrefixState → Option ℕ → Type 0
Fetched s none = s.remaining ≡ 0
Fetched s (some o) = (0 < s.remaining) × (o < 256) × (is_unscanned s o ≡ true)

Finds-Fetched : (s : PrefixState) (r : Option ℕ) → IsValid s → Finds s 0 256 r → Fetched s r
Finds-Fetched s none v h =
    omega (arith, v.counted, count_below-none 256 (is_unscanned s) (λ j lt. h j (omega arith) lt))
Finds-Fetched s (some o) v h =
    (omega (arith, v.counted, count_below-some 256 (is_unscanned s) o h.1 h.2), h.1, h.2)

module _ (rng : Rng) where
  open rng use {State, random_range, random_range_within}

  fetch_loop-Finds : (n : ℕ) (s : PrefixState) (g : State) → Finds s 0 256 (fetch_loop rng n s g).0
  unfolding fetch_loop
  fetch_loop-Finds zero s g = find_unscanned-Finds 256 s 0 256 refl
  fetch_loop-Finds (suc n) s g =
      let candidate = (random_range 0 255 g).0 in
      elim (Bool-cases (is_unscanned s candidate)) [
        | inl free ↦
            rw free (omega arith, omega (arith, random_range_within 0 255 g (omega arith)), free)
        | inr used ↦ rw used (fetch_loop-Finds n s (random_range 0 255 g).1)
      ]

  -- On a valid state `fetch_unscanned` returns no offset exactly when `remaining` is 0, and
  -- otherwise an unscanned one below 256, for every generator.
  pub fetch_unscanned-Fetched :
      (s : PrefixState) (g : State) → IsValid s → Fetched s (fetch_unscanned rng s g).0
  unfolding fetch_unscanned
  fetch_unscanned-Fetched s g v = elim (Bool-cases (s.remaining == 0)) [
    | inl full ↦ rw full (ground arith)
    | inr room ↦ rw room (Finds-Fetched s _ v (fetch_loop-Finds 50 s g))
  ]

  -- With room there is always a result.
  pub fetch_unscanned-some :
      (s : PrefixState) (g : State)
      → IsValid s
      → (s.remaining == 0) ≡ false
      → (offset : ℕ) × ((fetch_unscanned rng s g).0 ≡ some offset)
  fetch_unscanned-some s g v room = elim (Option-cases (fetch_unscanned rng s g).0) [
    | inl nothing ↦
        let full : s.remaining ≡ 0 = subst (Fetched s) nothing (fetch_unscanned-Fetched s g v) in
        absurd (ground (arith, full, room))
    | inr found ↦ found
  ]
