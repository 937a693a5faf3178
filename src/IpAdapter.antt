-- ===== src/IpAdapter.antt =====
-- farsight/src/controller/strategy/ip/pmap.rs, `PmapIpAdapter`: which address to probe next. A sweep
-- through a permutation of the ranges takes turns with picks from the /24 that scores best; both
-- mark what they return in one bitmap for each /24.
pub mod Scanned
pub mod Fresh
pub mod Sweep
pub mod Session
pub mod Draws
pub mod Outside
mod Tests
use farsight.Prelude.{
  ℕ, zero, suc, ◌+◌, ◌-◌, ◌*◌, ◌/◌, ◌%◌, Bool, true, false, not, ◌&&◌, List, [], ◌∷◌, Option, none,
  some, ltb, leb, ◌==◌, if◌then◌else◌, length, unwrap_or,
}
use farsight.Std.Eq.{LinearOrder, nat_eq}
use farsight.Std.Map.{lookup, insert}
use farsight.External.{Rng, FloatOps}
use farsight.Range.{CompiledRanges, Lookup, address, index}
use farsight.LazyHeap.{LazyHeap, query, top, pop, update}
use farsight.PrefixState.{PrefixState, new, mark_scanned, fetch_unscanned}

pub record PmapIpAdapter (F : Type 0) : Type 0 where
  pub ranges : CompiledRanges
  -- `PrefixGraph`: the hits of each /24 in the database.
  pub graph : List (ℕ × ℕ)
  pub heap : LazyHeap F ℕ
  pub actives : List (ℕ × PrefixState)

-- `PrefixGraph::historical_score`
pub historical_score : List (ℕ × ℕ) → ℕ → ℕ
historical_score graph prefix_id = unwrap_or (lookup prefix_id graph) 0

-- `actives.entry(prefix_id).or_insert_with(PrefixState::new)`
pub entry : List (ℕ × PrefixState) → ℕ → PrefixState
entry actives prefix_id = unwrap_or (lookup prefix_id actives) new

-- How a call ends: with an address, with none, or, as it must not, by the panic of
-- `CompiledRanges::index` or with no fuel left.
pub data Pick : Type 0 where
  found : ℕ → Pick
  exhausted fault no_fuel : Pick

module _ {F : Type 0} ⦃o : LinearOrder (F × ℕ)⦄ (floats : FloatOps F) (rng : Rng) where
  open floats use {from_u64, add}
  open rng use {State, at_least_epsilon}

  -- One round of the loop of `try_pick` at the prefix on top of the heap; `again` is the next round.
  pub pick_in_prefix :
      (PmapIpAdapter F → State → PmapIpAdapter F × State × Pick)
      → PmapIpAdapter F
      → ℕ
      → State
      → PmapIpAdapter F × State × Pick
  pick_in_prefix again a prefix_id g =
      let state = entry a.actives prefix_id in
      let dropped = record a { actives = insert prefix_id state a.actives; heap = pop a.heap } in
      if state.remaining == 0
      then again dropped g
      else let (offset?, g') = fetch_unscanned rng state g in
        elim offset? [
          | none ↦ again dropped g'
          | some offset ↦
              let state' = (mark_scanned state offset).0 in
              (
                record a {
                  actives = insert prefix_id state' a.actives;
                  heap = if state'.remaining == 0 then pop a.heap else a.heap;
                },
                g',
                found (prefix_id * 256 + offset),
              )
        ]

  -- The loop of `try_pick`. The address is `prefix_id << 8 | offset` for an offset below 256.
  pub try_pick_loop : ℕ → PmapIpAdapter F → State → PmapIpAdapter F × State × Pick
  unfolding pick_in_prefix
  try_pick_loop zero a g = (a, g, no_fuel)
  try_pick_loop (suc f) a g =
      let (heap, front) = top a.heap in
      elim front [
        | none ↦ (record a { heap = heap }, g, exhausted)
        | some prefix_id ↦ pick_in_prefix (try_pick_loop f) (record a { heap = heap }) prefix_id g
      ]

  -- `try_pick`: each round but the last takes a prefix from the heap.
  pub try_pick : PmapIpAdapter F → State → PmapIpAdapter F × State × Pick
  unfolding try_pick_loop
  try_pick a g = try_pick_loop (suc (length a.heap.values)) a g

  module _ (shuffle : ℕ → ℕ) where
    -- A round of the loop of `next` below the count, at the address that the shuffled index has.
    pub sweep_at :
        (PmapIpAdapter F → ℕ → PmapIpAdapter F × ℕ × Pick)
        → PmapIpAdapter F
        → ℕ
        → ℕ
        → PmapIpAdapter F × ℕ × Pick
    sweep_at again a i addr =
        let prefix_id = addr / 256 in
        let (state, seen) = mark_scanned (entry a.actives prefix_id) (addr % 256) in
        let a' = record a { actives = insert prefix_id state a.actives } in
        let queued : LazyHeap F ℕ = elim (query a.heap prefix_id) [
          | none ↦ update a.heap prefix_id (from_u64 (historical_score a.graph prefix_id))
          | some _ ↦ a.heap
        ] in
        if seen then again a' (i + 1) else (
          record a' { heap = if ltb 0 state.remaining then queued else a.heap },
          i + 1,
          found addr,
        )

    -- The loop of `next`; `index` is passed on.
    pub next_loop : ℕ → PmapIpAdapter F → ℕ → PmapIpAdapter F × ℕ × Pick
    unfolding sweep_at
    next_loop zero a i = (a, i, no_fuel)
    next_loop (suc f) a i =
        if leb a.ranges.count i then (a, i, exhausted) else elim (index a.ranges (shuffle i)) [
          | address addr ↦ sweep_at (next_loop f) a i addr
          | _ ↦ (a, i + 1, fault)
        ]

    pub next : PmapIpAdapter F → ℕ → PmapIpAdapter F × ℕ × Pick
    unfolding next_loop
    next a i = next_loop (suc (a.ranges.count - i)) a i

    -- `.or_else(|| self.try_pick(rng))` on the outcome of `next`.
    pub or_pick : PmapIpAdapter F → ℕ → State → Pick → PmapIpAdapter F × ℕ × State × Pick
    or_pick a i g exhausted = let (a', g', p) = try_pick a g in (a', i, g', p)
    or_pick a i g p = (a, i, g, p)

    pub next_or_pick : PmapIpAdapter F → ℕ → State → PmapIpAdapter F × ℕ × State × Pick
    unfolding or_pick
    next_or_pick a i g = let (a', i', p) = next a i in or_pick a' i' g p

    -- `if let value @ Some(_) = self.try_pick(rng) { return value }`, and what follows it.
    pub or_next : PmapIpAdapter F → ℕ → State → Pick → PmapIpAdapter F × ℕ × State × Pick
    unfolding next_or_pick
    or_next a i g exhausted = next_or_pick a i g
    or_next a i g p = (a, i, g, p)

    -- `next_address`
    pub next_address : PmapIpAdapter F → ℕ → State → PmapIpAdapter F × ℕ × State × Pick
    unfolding or_next
    next_address a i g =
        let (exploit, g1) = at_least_epsilon g in
        let (a', g2, p) = try_pick a g1 in
        if exploit then or_next a' i g2 p else next_or_pick a i g1

  -- `on_result`
  pub on_result : PmapIpAdapter F → ℕ → PmapIpAdapter F
  on_result a addr =
      let prefix_id = addr / 256 in
      let has_room : Bool = elim (lookup prefix_id a.actives) [
        | none ↦ true
        | some s ↦ ltb 0 s.remaining
      ] in
      let current =
        unwrap_or (query a.heap prefix_id) (from_u64 (historical_score a.graph prefix_id)) in
      if has_room then record a { heap = update a.heap prefix_id (add current (from_u64 1)) } else a
