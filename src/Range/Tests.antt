-- ===== src/Range/Tests.antt =====
-- Runs of the range code, and its theorems at concrete ranges.
use farsight.Prelude.{ℕ, ◌<◌, ◌≡◌, refl, true, not, ◌&&◌, List, [], ◌∷◌, some, arith}
use farsight.Range.{
  RangeInclusive, exclude_loop, exclude, compile, address, panicked, search_loop, index,
}
use farsight.Range.Spec.{covers, Ascending}
use farsight.Range.Exclude.{exclude-covers}
use farsight.Range.Index.{index-enumerates}

abbrev range : ℕ → ℕ → RangeInclusive
range a b = record { start = a; last = b }

abbrev scanned : List RangeInclusive
scanned = range 0 20 ∷ range 30 40 ∷ range 50 50 ∷ []

abbrev excluded : List RangeInclusive
excluded = range 5 8 ∷ range 6 7 ∷ range 18 33 ∷ range 50 60 ∷ []

exclude_runs : exclude scanned excluded ≡ some (range 0 4 ∷ range 9 17 ∷ range 34 40 ∷ [])
unfolding exclude exclude_loop
exclude_runs = refl

exclude-covers_example :
    (kept : List RangeInclusive) × (exclude scanned excluded ≡ some kept)
    × Ascending 0 kept
    × ((x : ℕ) → covers kept x ≡ covers scanned x && not (covers excluded x))
exclude-covers_example = exclude-covers scanned excluded (omega arith) (omega arith)

index_runs : (index (compile scanned) 21 ≡ address 30) × (index (compile scanned) 33 ≡ panicked)
unfolding index compile search_loop
index_runs = (refl, refl)

index-enumerates_example :
    let c = compile scanned in
    ((i : ℕ) → i < c.count → (a : ℕ) × (index c i ≡ address a) × (covers scanned a ≡ true))
    × ((a : ℕ) → covers scanned a ≡ true → (i : ℕ) × (i < c.count) × (index c i ≡ address a))
    × ((i j a : ℕ)
        → i < c.count
        → j < c.count
        → index c i ≡ address a
        → index c j ≡ address a
        → i ≡ j)
index-enumerates_example = index-enumerates scanned (omega arith)
