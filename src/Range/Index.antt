-- ===== src/Range/Index.antt =====
-- `CompiledRanges::index` numbers the addresses of the ranges: it is total below the count, and it
-- meets every address once.
use farsight.Prelude.{
  ℕ, zero, suc, ◌+◌, ◌-◌, ◌/◌, ◌≤◌, ◌<◌, ◌≡◌, refl, inl, inr, ◌⊎◌, ltb, leb, if◌then◌else◌, List,
  [], ◌∷◌, Option, none, some, length, get_elem?, arith, false, Bool-cases, Option-cases, dec_lt,
  sym, ap, ◌∙◌, lt→ltb, get_elem?-ne-none, true,
}
use farsight.Range.{
  RangeInclusive, CompiledRange, compile_loop, compile, address, search_loop, index,
}
use farsight.Range.Spec.{in_range, covers, Ascending, Ascending-below}

abbrev pub size : RangeInclusive → ℕ
size r = r.last - r.start + 1

-- How many addresses the ranges hold.
abbrev pub total : List RangeInclusive → ℕ
total [] = 0
total (r ∷ rs) = size r + total rs

-- The address with number `i`, counting through the ranges in their order.
abbrev pub nth_address : List RangeInclusive → ℕ → Option ℕ
nth_address [] i = none
nth_address (r ∷ rs) i = if ltb i (size r) then some (r.start + i) else nth_address rs (i - size r)

-- The entry at place `m` holds the number `i`.
abbrev Holds : List CompiledRange → ℕ → ℕ → CompiledRange → Type 0
Holds es i m e = (get_elem? es m ≡ some e) × (e.index ≤ i) × (i < e.index + e.count)

entries : ℕ → List RangeInclusive → List CompiledRange
unfolding compile_loop
entries base rs = (compile_loop base rs).0

compile_loop-total :
    (base : ℕ) (rs : List RangeInclusive) → (compile_loop base rs).1 ≡ base + total rs
unfolding compile_loop
compile_loop-total base [] = omega arith
compile_loop-total base (r ∷ rs) = omega (arith, compile_loop-total (base + size r) rs)

pub compile-count : (rs : List RangeInclusive) → (compile rs).count ≡ total rs
unfolding compile
compile-count rs = omega (arith, compile_loop-total 0 rs)

entries-index-ge :
    (base : ℕ) (rs : List RangeInclusive) (m : ℕ) (e : CompiledRange)
    → get_elem? (entries base rs) m ≡ some e
    → base ≤ e.index
unfolding entries
entries-index-ge base [] m e h = cc
entries-index-ge base (r ∷ rs) zero e h = ground arith
entries-index-ge base (r ∷ rs) (suc m) e h =
    ground (arith, entries-index-ge (base + size r) rs m e h)

entries_mono :
    (base : ℕ) (rs : List RangeInclusive) (m k : ℕ) (e e' : CompiledRange)
    → get_elem? (entries base rs) m ≡ some e
    → get_elem? (entries base rs) k ≡ some e'
    → m < k
    → e.index + e.count ≤ e'.index
unfolding entries
entries_mono base [] m k e e' h h' lt = cc
entries_mono base (r ∷ rs) m zero e e' h h' lt = absurd (omega arith)
entries_mono base (r ∷ rs) zero (suc k) e e' h h' lt =
    ground (arith, entries-index-ge (base + size r) rs k e' h')
entries_mono base (r ∷ rs) (suc m) (suc k) e e' h h' lt =
    entries_mono (base + size r) rs m k e e' h h' (omega arith)

locate :
    (base : ℕ) (rs : List RangeInclusive) (i : ℕ)
    → base ≤ i
    → i < base + total rs
    → (m : ℕ) × (e : CompiledRange) × (m < length (entries base rs)) × Holds (entries base rs) i m e
unfolding entries
locate base [] i le lt = absurd (omega arith)
locate base (r ∷ rs) i le lt = elim (Bool-cases (ltb i (base + size r))) [
  | inl here ↦ (0, _, omega arith, (refl, omega arith, ground arith))
  | inr there ↦
      let (m, e, lm, h) = locate (base + size r) rs i (ground arith) (omega arith) in
      (suc m, e, omega arith, h)
]

Holds-address :
    (base : ℕ) (rs : List RangeInclusive) (i m : ℕ) (e : CompiledRange)
    → Holds (entries base rs) i m e
    → nth_address rs (i - base) ≡ some (e.start + (i - e.index))
unfolding entries
Holds-address base [] i m e h = cc
Holds-address base (r ∷ rs) i zero e h = ground arith
Holds-address base (r ∷ rs) i (suc m) e h =
    let past : ltb (i - base) (size r) ≡ false =
      ground (arith, entries-index-ge (base + size r) rs m e h.0) in
    let rest : i - base - size r ≡ i - (base + size r) = omega arith in
    rw (past, rest) (Holds-address (base + size r) rs i m e h)

-- Two places of the list are one, or their entries hold disjoint numbers in the order of the places.
entries-order :
    (rs : List RangeInclusive) (m k : ℕ) (e e' : CompiledRange)
    → get_elem? (entries 0 rs) m ≡ some e
    → get_elem? (entries 0 rs) k ≡ some e'
    → ((m < k) × (e.index + e.count ≤ e'.index))
      ⊎ ((k < m) × (e'.index + e'.count ≤ e.index))
      ⊎ ((m ≡ k) × (e.index ≡ e'.index) × (e.count ≡ e'.count))
entries-order rs m k e e' h h' = elim (dec_lt m k) [
  | yes lt ↦ inl (lt, entries_mono 0 rs m k e e' h h' lt)
  | no nlt ↦ elim (dec_lt k m) [
    | yes lt ↦ inr (inl (lt, entries_mono 0 rs k m e' e h' h lt))
    | no ngt ↦
        let same : m ≡ k = omega arith in
        let same_entry : some e ≡ some e' = sym h ∙ ap (get_elem? (entries 0 rs)) same ∙ h' in
        inr (inr (same, cc, cc))
  ]
]

-- The search finds the entry that holds `i`, wherever between its ends that entry lies.
search_loop-finds :
    (rs : List RangeInclusive) (i m : ℕ) (e : CompiledRange) (f start end : ℕ)
    → Holds (entries 0 rs) i m e
    → m < length (entries 0 rs)
    → start ≤ m
    → m < end
    → end ≤ length (entries 0 rs)
    → end - start < f
    → search_loop f (entries 0 rs) i start end ≡ address (e.start + (i - e.index))
unfolding search_loop
search_loop-finds rs i m e zero start end h lm le lt top fuel = absurd (omega arith)
search_loop-finds rs i m e (suc f) start end h lm le lt top fuel =
    elim (Option-cases (get_elem? (entries 0 rs) mid)) [
      | inl out ↦ absurd (get_elem?-ne-none (entries 0 rs) mid (omega arith) out)
      | inr (e', at) ↦
          rw (lt→ltb start end (omega arith), at)
            (elim (Bool-cases (leb (e'.index + e'.count) i)) [
              | inl over ↦ rw over (
                  search_loop-finds rs i m e f (mid + 1) end h lm
                    (ground (arith, entries-order rs m mid e e' h.0 at)) lt top (omega arith))
              | inr not_over ↦ rw not_over (elim (Bool-cases (ltb i e'.index)) [
                | inl under ↦ rw under (
                    search_loop-finds rs i m e f start mid h lm le
                      (ground (arith, entries-order rs m mid e e' h.0 at)) (omega arith)
                      (omega arith))
                | inr not_under ↦ rw not_under (
                    cc (
                      Holds-address 0 rs i mid e' (at, ground arith, ground arith),
                      Holds-address 0 rs i m e h,
                    ))
              ])
            ])
    ]
  where
    mid : ℕ
    mid = (start + end) / 2

-- Below the count, `index` returns the address with that number.
index-nth_address :
    (rs : List RangeInclusive) (i : ℕ)
    → i < (compile rs).count
    → (a : ℕ) × (index (compile rs) i ≡ address a) × (nth_address rs i ≡ some a)
unfolding index compile entries
index-nth_address rs i lt =
    let (m, e, lm, h) = locate 0 rs i (omega arith) (omega (arith, compile_loop-total 0 rs)) in
    (
      e.start + (i - e.index),
      search_loop-finds rs i m e (suc (length (entries 0 rs))) 0 (length (entries 0 rs)) h lm
          (omega arith) lm (omega arith) (omega arith),
      let same : i ≡ i - 0 = omega arith in ap (nth_address rs) same ∙ Holds-address 0 rs i m e h,
    )

covers-nth_address :
    (rs : List RangeInclusive) (lo i a : ℕ)
    → Ascending lo rs
    → nth_address rs i ≡ some a
    → covers rs a ≡ true
covers-nth_address [] lo i a asc h = cc
covers-nth_address (r ∷ rs) lo i a asc h =
    ground (arith, covers-nth_address rs (r.last + 1) (i - size r) a asc.2)

nth_address-covers :
    (rs : List RangeInclusive) (lo a : ℕ)
    → Ascending lo rs
    → covers rs a ≡ true
    → (i : ℕ) × (i < total rs) × (nth_address rs i ≡ some a)
nth_address-covers [] lo a asc h = cc
nth_address-covers (r ∷ rs) lo a asc h = elim (Bool-cases (in_range a r)) [
  | inl here ↦ (a - r.start, ground arith, ground arith)
  | inr there ↦
      let (i, lt, e) = nth_address-covers rs (r.last + 1) a asc.2 (ground arith) in
      let past : ltb (size r + i) (size r) ≡ false = ground arith in
      let rest : size r + i - size r ≡ i = omega arith in
      (size r + i, omega arith, rw (past, rest) e)
]

nth_address-injective :
    (rs : List RangeInclusive) (lo i j a : ℕ)
    → Ascending lo rs
    → nth_address rs i ≡ some a
    → nth_address rs j ≡ some a
    → i ≡ j
nth_address-injective [] lo i j a asc h k = cc
nth_address-injective (r ∷ rs) lo i j a asc h k = ground (
  arith,
  nth_address-injective rs (r.last + 1) (i - size r) (j - size r) a asc.2,
  covers-nth_address rs (r.last + 1) (i - size r) a asc.2,
  covers-nth_address rs (r.last + 1) (j - size r) a asc.2,
  Ascending-below {lo = r.last + 1} rs a asc.2,
)

-- For disjoint ascending ranges, none of them empty, `index` of the compiled ranges is a bijection
-- from the numbers below `count` to the addresses in the ranges: at such a number it returns an
-- address in a range and does not panic, every address in a range is returned at such a number, and
-- at no two of them.
pub index-enumerates :
    (rs : List RangeInclusive)
    → Ascending 0 rs
    → let c = compile rs in
      ((i : ℕ) → i < c.count → (a : ℕ) × (index c i ≡ address a) × (covers rs a ≡ true))
      × ((a : ℕ) → covers rs a ≡ true → (i : ℕ) × (i < c.count) × (index c i ≡ address a))
      × ((i j a : ℕ)
          → i < c.count
          → j < c.count
          → index c i ≡ address a
          → index c j ≡ address a
          → i ≡ j)
index-enumerates rs asc = (forth, back, once)
  where
    forth :
        (i : ℕ)
        → i < (compile rs).count
        → (a : ℕ) × (index (compile rs) i ≡ address a) × (covers rs a ≡ true)
    forth i lt =
        let (a, e, n) = index-nth_address rs i lt in (a, e, covers-nth_address rs 0 i a asc n)

    back :
        (a : ℕ)
        → covers rs a ≡ true
        → (i : ℕ) × (i < (compile rs).count) × (index (compile rs) i ≡ address a)
    back a h =
        let (i, lt, n) = nth_address-covers rs 0 a asc h in
        let lt' : i < (compile rs).count = rw (compile-count rs) lt in
        let (b, e, n') = index-nth_address rs i lt' in (i, lt', cc)

    once :
        (i j a : ℕ)
        → i < (compile rs).count
        → j < (compile rs).count
        → index (compile rs) i ≡ address a
        → index (compile rs) j ≡ address a
        → i ≡ j
    once i j a lti ltj hi hj =
        let (b, e, n) = index-nth_address rs i lti in
        let (c, f, k) = index-nth_address rs j ltj in nth_address-injective rs 0 i j a asc (cc) (cc)
