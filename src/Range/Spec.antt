-- ===== src/Range/Spec.antt =====
-- What a list of ranges stands for: the set of the addresses that it covers, and the two orders in
-- which the program keeps such lists.
use farsight.Prelude.{
  ℕ, ◌+◌, ◌≤◌, ◌<◌, ◌≡◌, refl, Bool, false, ◌&&◌, ◌||◌, leb, List, [], ◌∷◌, arith,
}
use farsight.Range.{RangeInclusive}

abbrev pub in_range : ℕ → RangeInclusive → Bool
in_range x r = leb r.start x && leb x r.last

abbrev pub covers : List RangeInclusive → ℕ → Bool
covers [] x = false
covers (r ∷ rs) x = in_range x r || covers rs x

-- Disjoint ranges in ascending order, none of them empty, all from `lo` on: the form of the ranges
-- to scan.
abbrev pub Ascending : ℕ → List RangeInclusive → Type 0
Ascending lo [] = Unit {0}
Ascending lo (r ∷ rs) = (lo ≤ r.start) × (r.start ≤ r.last) × Ascending (r.last + 1) rs

-- Ranges sorted by their starts, none of them empty: the form in which `exclude::parse` leaves the
-- excluded ranges, which may overlap.
abbrev pub ByStart : ℕ → List RangeInclusive → Type 0
ByStart lo [] = Unit {0}
ByStart lo (r ∷ rs) = (lo ≤ r.start) × (r.start ≤ r.last) × ByStart r.start rs

pub Ascending-below :
    {lo : ℕ} (rs : List RangeInclusive) (x : ℕ) → Ascending lo rs → x < lo → covers rs x ≡ false
Ascending-below [] x h lt = refl
Ascending-below (r ∷ rs) x h lt = ground (arith, Ascending-below {lo = r.last + 1} rs x)

pub ByStart-below :
    {lo : ℕ} (rs : List RangeInclusive) (x : ℕ) → ByStart lo rs → x < lo → covers rs x ≡ false
ByStart-below [] x h lt = refl
ByStart-below (r ∷ rs) x h lt = ground (arith, ByStart-below {lo = r.start} rs x)

pub Ascending-weaken :
    {lo hi : ℕ} (rs : List RangeInclusive) → lo ≤ hi → Ascending hi rs → Ascending lo rs
Ascending-weaken [] le h = tt
Ascending-weaken (r ∷ rs) le h = (omega arith, h.1, h.2)
