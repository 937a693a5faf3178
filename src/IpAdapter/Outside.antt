-- ===== src/IpAdapter/Outside.antt =====
-- What a session draws once the sweep is at its end: `try_pick` looks at no range.
use farsight.Prelude.{
  ℕ, ◌+◌, ◌*◌, ◌≤◌, ◌≡◌, inl, inr, refl, ap, ◌∙◌, true, false, List, ◌∷◌, some, leb, ◌==◌, arith,
  Bool-cases, Distinct, subst,
}
use farsight.Std.Eq.{LinearOrder, nat_eq}
use farsight.External.{Rng, FloatOps}
use farsight.Range.{RangeInclusive, CompiledRanges, compile}
use farsight.Range.Spec.{covers, Ascending}
use farsight.LazyHeap.{top}
use farsight.PrefixState.Fetch.{fetch_unscanned-some}
use farsight.IpAdapter.{
  PmapIpAdapter, entry, found, exhausted, try_pick, try_pick_loop, pick_in_prefix, next, next_loop,
  or_pick, or_next, next_or_pick, next_address,
}
use farsight.IpAdapter.Scanned.{entry-IsValid}
use farsight.IpAdapter.Fresh.{IsValid}
use farsight.IpAdapter.Session.{Permutes}
use farsight.IpAdapter.Draws.{
  Event, Drawing, draw, record_draw, step, run, start, Serves-compile, start-IsValid, step-IsValid,
  run-IsValid, run-draws_all,
}

module _ {F : Type 0} ⦃o : LinearOrder (F × ℕ)⦄ (floats : FloatOps F) (rng : Rng)
    (shuffle : ℕ → ℕ) where
  open rng use {State, at_least_epsilon}

  -- A prefix with room on top of the heap gives an address.
  try_pick_finds :
      (a : PmapIpAdapter F) (k : ℕ) (g : State)
      → IsValid a
      → (top a.heap).1 ≡ some k
      → ((entry a.actives k).remaining == 0) ≡ false
      → (addr : ℕ) × ((try_pick floats rng a g).2 ≡ found addr)
  unfolding try_pick
  try_pick_finds a k g v at_top room =
      let (offset, some_offset) =
        fetch_unscanned-some rng (entry a.actives k) g (entry-IsValid a.actives k v.actives) room in
      (
        k * 256 + offset,
        rw (at_top, try_pick_loop)
            (rw (room, pick_in_prefix) (rw (some_offset, pick_in_prefix) refl)),
      )

  next_at_end :
      (a : PmapIpAdapter F) (i : ℕ)
      → a.ranges.count ≤ i
      → next floats rng shuffle a i ≡ (a, i, exhausted)
  unfolding next next_loop
  next_at_end a i end = let done : leb a.ranges.count i ≡ true = ground (arith, end) in rw done refl

  -- At the end of the sweep a call of `next_address` comes down to `try_pick`.
  next_address_picks :
      (a : PmapIpAdapter F) (i addr : ℕ) (g : State)
      → a.ranges.count ≤ i
      → (try_pick floats rng a (at_least_epsilon g).1).2 ≡ found addr
      → (next_address floats rng shuffle a i g).3 ≡ found addr
  unfolding next_address next_or_pick or_pick
  next_address_picks a i addr g end picked = elim (Bool-cases (at_least_epsilon g).0) [
    | inl exploit ↦ rw exploit (rw (picked, or_next) refl)
    | inr explore ↦ rw explore (
        ap (λ n. (or_pick floats rng shuffle n.0 n.1 (at_least_epsilon g).1 n.2).3)
          (next_at_end a i end)
        ∙ picked)
  ]

  step_finds :
      (s : Drawing floats rng shuffle) (addr : ℕ)
      → (next_address floats rng shuffle s.adapter s.place s.generator).3 ≡ found addr
      → (step floats rng shuffle s draw).drawn ≡ addr ∷ s.drawn
  unfolding step
  step_finds s addr e = ap (λ p. record_draw floats rng shuffle p s.drawn) e

  -- Let the ranges be disjoint, ascending and non-empty, and let `shuffle` permute the numbers below
  -- their count. Let the sweep of a session, behind any draws and hits, be at its end, and let the
  -- prefix on top of the heap have an unscanned address. Then the next draw returns an address, and
  -- one that lies in no range to scan.
  pub run-draws_outside :
      (rs : List RangeInclusive) (graph : List (ℕ × ℕ)) (g : State) (es : List Event) (k : ℕ)
      → Ascending 0 rs
      → Permutes (compile rs).count shuffle
      → let s = run floats rng shuffle (start floats rng shuffle rs graph g) es in
        (compile rs).count ≤ s.place
        → (top s.adapter.heap).1 ≡ some k
        → ((entry s.adapter.actives k).remaining == 0) ≡ false
        → (addr : ℕ) × ((step floats rng shuffle s draw).drawn ≡ addr ∷ s.drawn)
          × (covers rs addr ≡ false)
  run-draws_outside rs graph g es k asc p end at_top room =
      let s = run floats rng shuffle (start floats rng shuffle rs graph g) es in
      let serves = Serves-compile floats rng shuffle rs asc p in
      let v =
        run-IsValid floats rng shuffle rs es (start floats rng shuffle rs graph g) serves
          (start-IsValid floats rng shuffle rs graph g) in
      let counted : s.adapter.ranges.count ≤ s.place =
        omega (arith, end, ap (λ (c : CompiledRanges). c.count) v.ranges) in
      let (addr, picked) =
        try_pick_finds s.adapter k (at_least_epsilon s.generator).1 v.adapter at_top room in
      let drawn : (step floats rng shuffle s draw).drawn ≡ addr ∷ s.drawn =
        step_finds s addr (next_address_picks s.adapter s.place addr s.generator counted picked) in
      let distinct : Distinct (addr ∷ s.drawn) =
        subst Distinct drawn (step-IsValid floats rng shuffle rs s draw serves v).distinct in
      (
        addr,
        drawn,
        elim (Bool-cases (covers rs addr)) [
          | inr outside ↦ outside
          | inl c ↦
              let seen = run-draws_all floats rng shuffle rs graph g es addr asc p end c in
              absurd (ground (arith, distinct.0, seen))
        ],
      )
