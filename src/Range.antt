-- ===== src/Range.antt =====
-- farsight/src/net/range.rs: inclusive address ranges, the removal of the excluded ranges, the
-- compiled form with running counts, and the lookup of an index by binary search.
pub mod Spec
pub mod Exclude
pub mod Index
mod Tests
use farsight.Prelude.{
  ℕ, zero, suc, ◌+◌, ◌-◌, ◌*◌, ◌/◌, Bool, true, false, ◌&&◌, ltb, leb, if◌then◌else◌, List, [], ◌∷◌,
  ◌++◌, Option, none, some, length, get_elem?,
}

-- `RangeInclusive<Ipv4Addr>`; an address is its 32 bits as a number (`to_bits`).
pub record RangeInclusive : Type 0 where
  pub start : ℕ
  pub last : ℕ

-- `self.inner.push(range)`, in front of what the later rounds of the loop push.
abbrev pub push_range : RangeInclusive → Option (List RangeInclusive) → Option (List RangeInclusive)
push_range r none = none
push_range r (some rs) = some (r ∷ rs)

-- `match iter.next()`, with a value for `None` and a continuation for `Some`.
abbrev pub match_next {ℓ} :
    {A : Type ℓ} → List RangeInclusive → A → (RangeInclusive → List RangeInclusive → A) → A
match_next [] d g = d
match_next (r ∷ rest) d g = g r rest

-- The loop of `Ranges::exclude`, with the ranges pushed to `self.inner` as the result. `scan` and
-- `excl` are the two ranges in hand; `scans` and `excls` are what the iterators have left. The
-- branch that leaves the loop extends the result by `scans`. `none`: the fuel ran out.
pub exclude_loop :
    ℕ
    → RangeInclusive
    → List RangeInclusive
    → RangeInclusive
    → List RangeInclusive
    → Option (List RangeInclusive)
exclude_loop zero scan scans excl excls = none
exclude_loop (suc f) scan scans excl excls =
    let next_scan = match_next scans (some []) (λ s rest. exclude_loop f s rest excl excls) in
    let next_excl =
      match_next excls (some (scan ∷ scans)) (λ e rest. exclude_loop f scan scans e rest) in
    let below : RangeInclusive = record { start = scan.start; last = excl.start - 1 } in
    let above : Option (List RangeInclusive) =
      exclude_loop f (record scan { start = excl.last + 1 }) scans excl excls in
    if ltb scan.last excl.start
    then push_range scan next_scan
    else if ltb excl.last scan.start
    then next_excl
    else if ltb scan.start excl.start && ltb excl.last scan.last
    then push_range below above
    else if ltb scan.start excl.start
    then push_range below next_scan
    else if ltb excl.last scan.last
    then above
    else next_scan

-- `Ranges::exclude`. With no range to exclude nothing changes. Each round takes a scan range or an
-- excluded range, or it cuts the scan range so that the next round does: hence the fuel.
pub exclude : List RangeInclusive → List RangeInclusive → Option (List RangeInclusive)
exclude scans [] = some scans
exclude [] (e ∷ es) = some []
exclude (s ∷ ss) (e ∷ es) = exclude_loop (suc (length ss + 2 * length es + 2)) s ss e es

-- An entry of `CompiledRanges`: a range with its `CompilationInfo`.
pub record CompiledRange : Type 0 where
  pub start : ℕ
  pub last : ℕ
  pub index : ℕ
  pub count : ℕ

pub record CompiledRanges : Type 0 where
  pub inner : List CompiledRange
  pub count : ℕ

-- The loop of `compile`, with the running `index`: the entries, and `index` behind the last one.
unfoldable pub compile_loop : ℕ → List RangeInclusive → List CompiledRange × ℕ
compile_loop index [] = ([], index)
compile_loop index (r ∷ rs) =
    let n = r.last - r.start + 1 in
    let (entries, total) = compile_loop (index + n) rs in
    (record { start = r.start; last = r.last; index = index; count = n } ∷ entries, total)

-- `Ranges::compile`
unfoldable pub compile : List RangeInclusive → CompiledRanges
unfolding compile_loop
compile rs = let (entries, total) = compile_loop 0 rs in record { inner = entries; count = total }

-- How `CompiledRanges::index` ends: with an address, by the panic behind its loop, or, as it must
-- not, by `get_unchecked` outside the entries or with no fuel left.
pub data Lookup : Type 0 where
  address : ℕ → Lookup
  panicked unchecked no_fuel : Lookup

-- The binary search of `CompiledRanges::index` between `start` and `end`.
unfoldable pub search_loop : ℕ → List CompiledRange → ℕ → ℕ → ℕ → Lookup
search_loop zero inner index start end = no_fuel
search_loop (suc f) inner index start end =
    let mid = (start + end) / 2 in
    let right = search_loop f inner index (mid + 1) end in
    let left = search_loop f inner index start mid in
    if ltb start end
    then elim (get_elem? inner mid) [
      | none ↦ unchecked
      | some r ↦
          if leb (r.index + r.count) index
          then right
          else if ltb index r.index
          then left
          else address (r.start + (index - r.index))
    ]
    else panicked

-- `CompiledRanges::index`. Each round shortens the interval.
unfoldable pub index : CompiledRanges → ℕ → Lookup
index ranges i = search_loop (suc (length ranges.inner)) ranges.inner i 0 (length ranges.inner)
