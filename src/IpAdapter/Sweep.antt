-- ===== src/IpAdapter/Sweep.antt =====
-- `next` goes through the permuted ranges, past the addresses that are scanned already.
use farsight.Prelude.{
  ℕ, zero, suc, ◌+◌, ◌-◌, ◌*◌, ◌/◌, ◌%◌, ◌≤◌, ◌<◌, ◌≡◌, refl, ap, subst, sym, ◌∙◌, inl, inr, Bool,
  true, false, not, ℕ_discrete, none, some, leb, ltb, if◌then◌else◌, arith, Bool-cases,
  Option-cases,
}
use farsight.Std.Eq.{LinearOrder, nat_eq}
use farsight.Std.Map.{insert}
use farsight.External.{Rng, FloatOps}
use farsight.Range.{CompiledRanges, address, index}
use farsight.LazyHeap.{LazyHeap, query, update}
use farsight.LazyHeap.Top.{update-query}
use farsight.LazyHeap.Invariant
use farsight.PrefixState.{PrefixState, mark_scanned, is_unscanned}
use farsight.PrefixState
use farsight.PrefixState.Invariant.{mark_scanned_lem}
use farsight.IpAdapter.{PmapIpAdapter, entry, Pick, found, exhausted, sweep_at, next_loop, next}
use farsight.IpAdapter.Scanned.{scanned, entry-IsValid, insert-Valid, scanned-at, scanned-mark}
use farsight.IpAdapter.Fresh.{IsValid, Draws, Draws-trans, mark-Draws}

module _ {F : Type 0} ⦃o : LinearOrder (F × ℕ)⦄ where
  queued-IsValid :
      (b : Bool) (h : LazyHeap F ℕ) (k : ℕ) (score : F)
      → Invariant.IsValid h
      → Invariant.IsValid
          (if b then elim (query h k) [ none ↦ update h k score | some _ ↦ h ] else h)
  queued-IsValid true h k score v = elim (Option-cases (query h k)) [
    | inl absent ↦ rw absent (update-query h k score v).0
    | inr (p, there) ↦ rw there v
  ]
  queued-IsValid false h k score v = v

  -- The adapter with `addr` marked and the heap `h`.
  abbrev mark_addr : PmapIpAdapter F → ℕ → LazyHeap F ℕ → PmapIpAdapter F
  mark_addr a addr h = record a {
    actives =
        insert (addr / 256) (mark_scanned (entry a.actives (addr / 256)) (addr % 256)).0 a.actives;
    heap = h;
  }

  mark_addr-Draws :
      (a : PmapIpAdapter F) (addr : ℕ) (h : LazyHeap F ℕ)
      → IsValid a
      → Invariant.IsValid h
      → is_unscanned (entry a.actives (addr / 256)) (addr % 256) ≡ true
      → IsValid (mark_addr a addr h) × Draws a (mark_addr a addr h) (found addr)
  mark_addr-Draws a addr h v vh free =
      let r = mark-Draws a (addr / 256) (addr % 256) h v vh (omega arith) free in
      let e : addr / 256 * 256 + addr % 256 ≡ addr = omega arith in
      (r.0, subst (λ n. Draws a (mark_addr a addr h) (found n)) e r.1)

  scanned_of_used :
      (a : PmapIpAdapter F) (addr : ℕ)
      → is_unscanned (entry a.actives (addr / 256)) (addr % 256) ≡ false
      → scanned a.actives addr ≡ true
  scanned_of_used a addr used =
      let e : addr / 256 * 256 + addr % 256 ≡ addr = omega arith in
      ap (scanned a.actives) (sym e)
      ∙ scanned-at a.actives (addr / 256) (addr % 256) (omega arith)
      ∙ ap not used

  -- Marking an address that is scanned changes no address.
  remark-unchanged :
      (a : PmapIpAdapter F) (addr x : ℕ)
      → IsValid a
      → is_unscanned (entry a.actives (addr / 256)) (addr % 256) ≡ false
      → scanned
          (insert
            (addr / 256)
            (mark_scanned (entry a.actives (addr / 256)) (addr % 256)).0
            a.actives)
          x
        ≡ scanned a.actives x
  remark-unchanged a addr x v used =
      let e : addr / 256 * 256 + addr % 256 ≡ addr = omega arith in
      let old = scanned_of_used a addr used in
      elim (ℕ_discrete x addr) [
        | yes at ↦ ground (
          arith,
          scanned-mark a.actives (addr / 256) (addr % 256) x v.actives (omega arith),
          old,
          ap (scanned a.actives) at,
        )
        | no off ↦
            ground
              (arith, scanned-mark a.actives (addr / 256) (addr % 256) x v.actives (omega arith))
      ]

module _ {F : Type 0} ⦃o : LinearOrder (F × ℕ)⦄ (floats : FloatOps F) (rng : Rng)
    (shuffle : ℕ → ℕ) where
  -- The permuted index always has an address.
  abbrev pub Serves : CompiledRanges → Type 0
  Serves ranges =
      (i : ℕ) → i < ranges.count → (addr : ℕ) × (index ranges (shuffle i) ≡ address addr)

  -- Every address before the place `i` of the sweep is scanned.
  abbrev pub Swept : PmapIpAdapter F → ℕ → Type 0
  Swept a i =
      (j addr : ℕ)
      → j < i
      → index a.ranges (shuffle j) ≡ address addr
      → scanned a.actives addr ≡ true

  -- The outcome of the loop of `next`, from the adapter `a` at the place `i`.
  pub record Sweeps (a : PmapIpAdapter F) (i : ℕ) (r : PmapIpAdapter F × ℕ × Pick) : Type 0 where
    pub valid : IsValid r.0
    pub draws : Draws a r.0 r.2
    pub same_ranges : r.0.ranges ≡ a.ranges
    pub swept : Swept a i → Swept r.0 r.1
    pub at_end : r.2 ≡ exhausted → a.ranges.count ≤ r.1

  sweep_at-Sweeps :
      (again : PmapIpAdapter F → ℕ → PmapIpAdapter F × ℕ × Pick) (a : PmapIpAdapter F) (i addr : ℕ)
      → IsValid a
      → index a.ranges (shuffle i) ≡ address addr
      → ((b : PmapIpAdapter F)
          → IsValid b
          → b.ranges ≡ a.ranges
          → Sweeps b (i + 1) (again b (i + 1)))
      → Sweeps a i (sweep_at floats rng shuffle again a i addr)
  unfolding sweep_at
  sweep_at-Sweeps again a i addr v at ih = elim (Bool-cases (is_unscanned state offset)) [
    | inl free ↦
        let fresh : marked.1 ≡ false = result ∙ ap not free in
        let r =
          mark_addr-Draws a addr _ v
            (queued-IsValid (ltb 0 marked.0.remaining) a.heap (addr / 256) _ v.heap) free in
        rw fresh (record {
          valid = r.0;
          draws = r.1;
          same_ranges = refl;
          swept = λ before j x lt e. elim (ℕ_discrete j i) [
            | yes now ↦
                let same : x ≡ addr = cc (ap (λ n. index a.ranges (shuffle n)) now) in
                ground (arith, r.1.1 x)
            | no earlier ↦ ground (arith, r.1.1 x, before j x (omega arith) e)
          ];
          at_end = λ e. cc;
        })
    | inr used ↦
        let seen : marked.1 ≡ true = result ∙ ap not used in
        let a' = record a { actives = insert (addr / 256) marked.0 a.actives } in
        let r =
          ih a'
            (record {
              heap = v.heap;
              actives =
                  insert-Valid a.actives (addr / 256) _ v.actives
                    (mark_scanned_lem state offset w (omega arith)).3;
            })
            refl in
        let same = λ (x : ℕ). remark-unchanged a addr x v used in
        rw seen (record {
          valid = r.valid;
          draws = Draws-trans a a' (again a' (i + 1)).0 (again a' (i + 1)).2 same r.draws;
          same_ranges = r.same_ranges;
          swept = λ before. r.swept (λ j x lt e. elim (ℕ_discrete j i) [
            | yes now ↦
                let here : x ≡ addr = cc (ap (λ n. index a.ranges (shuffle n)) now) in
                same x ∙ ap (scanned a.actives) here ∙ scanned_of_used a addr used
            | no earlier ↦ same x ∙ before j x (omega arith) e
          ]);
          at_end = r.at_end;
        })
  ]
    where
      state : PrefixState
      state = entry a.actives (addr / 256)

      offset : ℕ
      offset = addr % 256

      marked : PrefixState × Bool
      marked = mark_scanned state offset

      w : PrefixState.Invariant.IsValid state
      w = entry-IsValid a.actives (addr / 256) v.actives

      result : marked.1 ≡ not (is_unscanned state offset)
      result = (mark_scanned_lem state offset w (omega arith)).0

  next_loop-Sweeps :
      (f : ℕ) (a : PmapIpAdapter F) (i : ℕ)
      → IsValid a
      → Serves a.ranges
      → a.ranges.count - i < f
      → Sweeps a i (next_loop floats rng shuffle f a i)
  unfolding next_loop
  next_loop-Sweeps zero a i v serves lt = absurd (omega arith)
  next_loop-Sweeps (suc f) a i v serves lt = elim (Bool-cases (leb a.ranges.count i)) [
    | inl done ↦ rw done (record {
      valid = v;
      draws = λ x. refl;
      same_ranges = refl;
      swept = λ before. before;
      at_end = λ e. ground arith;
    })
    | inr more ↦
        let (addr, at) = serves i (ground arith) in
        rw (more, at)
          (sweep_at-Sweeps (next_loop floats rng shuffle f) a i addr v at (λ b vb e.
            next_loop-Sweeps f b (i + 1) vb (subst Serves (sym e) serves) (ground arith)))
  ]

  pub next-Sweeps :
      (a : PmapIpAdapter F) (i : ℕ)
      → IsValid a
      → Serves a.ranges
      → Sweeps a i (next floats rng shuffle a i)
  unfolding next
  next-Sweeps a i v serves = next_loop-Sweeps (suc (a.ranges.count - i)) a i v serves (omega arith)
