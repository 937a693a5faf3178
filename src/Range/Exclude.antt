-- ===== src/Range/Exclude.antt =====
-- `Ranges::exclude` computes the difference of the two sets, and its loop ends.
use farsight.Prelude.{
  ℕ, zero, suc, ◌+◌, ◌*◌, ◌≤◌, ◌<◌, ◌≡◌, refl, inl, inr, Bool, not, ◌&&◌, ◌||◌, ltb, List, [], ◌∷◌,
  Option, none, some, length, arith, Bool-cases, if◌then◌else◌,
}
use farsight.Range.{RangeInclusive, match_next, push_range, exclude_loop, exclude}
use farsight.Range.Spec.{
  in_range, covers, Ascending, ByStart, Ascending-below, ByStart-below, Ascending-weaken,
}

-- The loop ended, with ranges in ascending order from `lo` on that cover what `want` says.
abbrev pub Yields : ℕ → (ℕ → Bool) → Option (List RangeInclusive) → Type 0
Yields lo want none = ⊥
Yields lo want (some rs) = Ascending lo rs × ((x : ℕ) → covers rs x ≡ want x)

push_range-Yields :
    {lo : ℕ} (hi : ℕ) (want rest : ℕ → Bool) (r : RangeInclusive) (o : Option (List RangeInclusive))
    → lo ≤ r.start
    → r.start ≤ r.last
    → r.last < hi
    → ((x : ℕ) → want x ≡ in_range x r || rest x)
    → Yields hi rest o
    → Yields lo want (push_range r o)
push_range-Yields hi want rest r none h1 h2 h3 e y = y
push_range-Yields hi want rest r (some rs) h1 h2 h3 e y =
    ((h1, h2, Ascending-weaken rs (omega arith) y.0), λ x. ground (arith, y.1 x, e x))

Yields-weaken :
    {lo hi : ℕ} (want rest : ℕ → Bool) (o : Option (List RangeInclusive))
    → lo ≤ hi
    → ((x : ℕ) → want x ≡ rest x)
    → Yields hi rest o
    → Yields lo want o
Yields-weaken want rest none h e y = y
Yields-weaken want rest (some rs) h e y =
    (Ascending-weaken rs h y.0, λ x. ground (arith, y.1 x, e x))

abbrev difference : List RangeInclusive → List RangeInclusive → ℕ → Bool
difference scans excls x = covers scans x && not (covers excls x)

-- How many rounds are left: a scan range counts once, an excluded range twice, less one after a cut.
abbrev rounds : RangeInclusive → List RangeInclusive → RangeInclusive → List RangeInclusive → ℕ
rounds scan scans excl excls =
    length scans + 2 * length excls + (if ltb excl.last scan.start then 2 else 3)

-- What the loop does on `f` rounds.
abbrev LoopYields : ℕ → Type 0
LoopYields f =
    (scan : RangeInclusive) (scans : List RangeInclusive) (excl : RangeInclusive)
    (excls : List RangeInclusive)
    → rounds scan scans excl excls ≤ f
    → scan.start ≤ scan.last
    → Ascending (scan.last + 1) scans
    → excl.start ≤ excl.last
    → ByStart excl.start excls
    → Yields scan.start (difference (scan ∷ scans) (excl ∷ excls))
        (exclude_loop f scan scans excl excls)

next_scan-Yields :
    (f : ℕ) (excl : RangeInclusive) (excls : List RangeInclusive) (lo : ℕ)
    (scans : List RangeInclusive)
    → LoopYields f
    → length scans + 2 * length excls + 2 ≤ f
    → Ascending lo scans
    → excl.start ≤ excl.last
    → ByStart excl.start excls
    → Yields lo
        (difference scans (excl ∷ excls))
        (match_next scans (some []) (λ s rest. exclude_loop f s rest excl excls))
next_scan-Yields f excl excls lo [] ih m asc he be = (tt, λ x. refl)
next_scan-Yields f excl excls lo (s ∷ rest) ih m asc he be =
    Yields-weaken _ _ _ asc.0 (λ x. refl) (ih s rest excl excls (ground arith) asc.1 asc.2 he be)

-- Past the excluded range in hand, it removes nothing from the scan ranges that are left.
next_excl-Yields :
    (f : ℕ) (scan : RangeInclusive) (scans : List RangeInclusive) (excl : RangeInclusive)
    (excls : List RangeInclusive)
    → LoopYields f
    → length scans + 2 * length excls + 1 ≤ f
    → scan.start ≤ scan.last
    → Ascending (scan.last + 1) scans
    → excl.last < scan.start
    → ByStart excl.start excls
    → Yields scan.start
        (difference (scan ∷ scans) (excl ∷ excls))
        (match_next excls (some (scan ∷ scans)) (λ e rest. exclude_loop f scan scans e rest))
next_excl-Yields f scan scans excl [] ih m hs asc past be =
    ((omega arith, hs, asc), λ x. ground (arith, Ascending-below {lo = scan.last + 1} scans x))
next_excl-Yields f scan scans excl (e ∷ rest) ih m hs asc past be =
    Yields-weaken _ (difference (scan ∷ scans) (e ∷ rest)) _ (omega arith)
      (λ x. ground (arith, Ascending-below {lo = scan.last + 1} scans x))
      (ih scan scans e rest (ground arith) hs asc be.1 be.2)

exclude_loop-Yields : (f : ℕ) → LoopYields f
unfolding exclude_loop
exclude_loop-Yields zero scan scans excl excls m hs asc he be = absurd (ground arith)
exclude_loop-Yields (suc f) scan scans excl excls m hs asc he be =
    let ih = exclude_loop-Yields f in
    let next_scan = λ (le : scan.start ≤ excl.last).
      next_scan-Yields f excl excls (scan.last + 1) scans ih (ground arith) asc he be in
    let above = λ (le : scan.start ≤ excl.last) (lt : excl.last < scan.last).
      ih (record scan { start = excl.last + 1 }) scans excl excls (ground arith) (omega arith) asc
        he be in
    elim (Bool-cases (ltb scan.last excl.start)) [
      | inl e1 ↦ rw e1 (
          push_range-Yields (scan.last + 1) _ (difference scans (excl ∷ excls)) scan _ (omega arith)
            hs (omega arith) (λ x. ground (arith, ByStart-below {lo = excl.start} excls x))
            (next_scan (ground arith)))
      | inr e1 ↦ rw e1 (elim (Bool-cases (ltb excl.last scan.start)) [
        | inl e2 ↦
            rw e2
              (next_excl-Yields f scan scans excl excls ih (ground arith) hs asc (ground arith) be)
        | inr e2 ↦ rw e2 (elim (Bool-cases (ltb scan.start excl.start)) [
          | inl e3 ↦ rw e3 (elim (Bool-cases (ltb excl.last scan.last)) [
            | inl e4 ↦ rw e4 (
                push_range-Yields (excl.last + 1) _
                  (difference ((record scan { start = excl.last + 1 }) ∷ scans) (excl ∷ excls)) _ _
                  (omega arith) (ground arith) (ground arith)
                  (λ x. ground (
                    arith,
                    ByStart-below {lo = excl.start} excls x,
                    Ascending-below {lo = scan.last + 1} scans x,
                  ))
                  (above (ground arith) (ground arith)))
            | inr e4 ↦ rw e4 (
                push_range-Yields (scan.last + 1) _ (difference scans (excl ∷ excls)) _ _
                  (omega arith) (ground arith) (ground arith)
                  (λ x. ground (arith, ByStart-below {lo = excl.start} excls x))
                  (next_scan (ground arith)))
          ])
          | inr e3 ↦ rw e3 (elim (Bool-cases (ltb excl.last scan.last)) [
            | inl e4 ↦ rw e4 (
                Yields-weaken _
                  (difference ((record scan { start = excl.last + 1 }) ∷ scans) (excl ∷ excls)) _
                  (ground arith) (λ x. ground (arith, Ascending-below {lo = scan.last + 1} scans x))
                  (above (ground arith) (ground arith)))
            | inr e4 ↦ rw e4 (
                Yields-weaken {hi = scan.last + 1} _ (difference scans (excl ∷ excls)) _
                  (ground arith) (λ x. ground (arith, Ascending-below {lo = scan.last + 1} scans x))
                  (next_scan (ground arith)))
          ])
        ])
      ])
    ]

-- Given ranges to scan that are disjoint and ascending, and excluded ranges that are sorted by their
-- starts and may overlap, none of either empty, `exclude` ends and leaves ranges that are again
-- disjoint, ascending and non-empty. An address lies in one of them exactly when it lies in a range
-- to scan and in no excluded range.
pub exclude-covers :
    (scans excls : List RangeInclusive)
    → Ascending 0 scans
    → ByStart 0 excls
    → (kept : List RangeInclusive) × (exclude scans excls ≡ some kept)
      × Ascending 0 kept
      × ((x : ℕ) → covers kept x ≡ covers scans x && not (covers excls x))
unfolding exclude
exclude-covers scans [] asc be = (scans, refl, asc, λ x. ground arith)
exclude-covers [] (e ∷ es) asc be = ([], refl, tt, λ x. refl)
exclude-covers (s ∷ ss) (e ∷ es) asc be =
    found _ (exclude_loop-Yields _ s ss e es (ground arith) asc.1 asc.2 be.1 be.2)
  where
    found :
        (o : Option (List RangeInclusive))
        → Yields s.start (difference (s ∷ ss) (e ∷ es)) o
        → (kept : List RangeInclusive) × (o ≡ some kept)
          × Ascending 0 kept
          × ((x : ℕ) → covers kept x ≡ covers (s ∷ ss) x && not (covers (e ∷ es) x))
    found none y = absurd y
    found (some kept) y = (kept, refl, Ascending-weaken kept (omega arith) y.0, y.1)
