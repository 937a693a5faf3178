-- ===== src/PortAdapter.antt =====
-- farsight/src/controller/strategy/port/pmap.rs and strategy/pmap/graph/banner.rs: which port of an
-- address to probe next, with one state for each address in flight out of a fixed pool.
pub mod Pool
pub mod NextPort
pub mod Untried
mod Tests
use farsight.Prelude.{
  ℕ, zero, suc, ◌+◌, ◌-◌, ◌%◌, ◌^◌, Bool, true, false, not, ◌&&◌, ◌||◌, List, [], ◌∷◌, ◌++◌, Option,
  none, some, ltb, leb, ◌==◌, if◌then◌else◌, length, get_elem?, mem, unwrap_or,
}
use farsight.Std.Eq.{LinearOrder, nat_eq}
use farsight.Std.Map.{lookup, insert, remove}
use farsight.External.{Rng, FloatOps}
use farsight.LazyHeap.{LazyHeap, empty, query, top, pop, update}

-- `PortGraph`, with the `HashMap`s as lists of their entries.
pub record PortGraph : Type 0 where
  pub singles : List (ℕ × ℕ)
  pub doubles : List (ℕ × List (ℕ × ℕ))
  pub total : ℕ
  pub recommendations : List ℕ
  pub threshold : ℕ

pub recommend_at : PortGraph → ℕ → Option ℕ
recommend_at graph index = get_elem? graph.recommendations index

pub open_count : PortGraph → ℕ → ℕ
open_count graph port = unwrap_or (lookup port graph.singles) 0

pub record State (F : Type 0) : Type 0 where
  pub tried_ports : List ℕ
  pub heap : LazyHeap F ℕ
  pub recommendation_index : ℕ
  pub budget_remaining : ℕ
  pub seen_responses : List (ℕ × ℕ)

-- `PortRange`
pub data PortRange : Type 0 where
  single : ℕ → PortRange
  range : ℕ → ℕ → PortRange

-- `PmapPortAdapter`, how many states the guards of the generators hold, and the
-- capacity of the queue of free states, `max_in_flight`.
pub record PmapPortAdapter (F : Type 0) : Type 0 where
  pub states : List (ℕ × State F)
  pub allocated_states : List (State F)
  pub held : ℕ
  pub capacity : ℕ
  pub graph : PortGraph
  pub budget_per_address : ℕ
  pub source_port : PortRange

-- How `explore` ends; `unlucky`: with no draw left.
pub data Explored : Type 0 where
  port_found : ℕ → Explored
  all_tried unlucky : Explored

-- How a call of `on_result` ends: with a template of source port, address and port, with none, or,
-- as it must not, by the panic of `push(state).unwrap()`, or with no draw left for `explore`.
pub data Next : Type 0 where
  template : ℕ → ℕ → ℕ → Next
  no_template panicked no_fuel : Next

module _ {F : Type 0} ⦃o : LinearOrder (F × ℕ)⦄ (floats : FloatOps F) (rng : Rng) where
  open floats use {from_u64, div, gt}
  open rng use {State as Gen, random_range, at_least_epsilon}

  pub base_prob : PortGraph → ℕ → F
  unfolding open_count
  base_prob graph port = div (from_u64 (open_count graph port)) (from_u64 graph.total)

  -- `State::clear`
  unfoldable pub clear : State F → ℕ → ℕ → State F
  clear st index budget = record {
    tried_ports = [];
    heap = empty;
    recommendation_index = index;
    budget_remaining = budget;
    seen_responses = [];
  }

  pub prob : State F → PortGraph → ℕ → F
  prob st graph port = unwrap_or (query st.heap port) (base_prob graph port)

  -- The `while let` loop of `next_port`, with the index as its result. Each round moves the index
  -- towards the end of the recommendations.
  unfoldable pub skip_tried : ℕ → State F → PortGraph → ℕ → ℕ
  skip_tried zero st graph index = index
  skip_tried (suc f) st graph index = elim (recommend_at graph index) [
    | none ↦ index
    | some port ↦
        let rest = skip_tried f st graph (index + 1) in
        if mem port st.tried_ports then rest else index
  ]

  -- The second loop of `next_port`. Each round takes a port from the heap.
  unfoldable pub drop_tried : ℕ → List ℕ → LazyHeap F ℕ → LazyHeap F ℕ
  drop_tried zero tried h = h
  drop_tried (suc f) tried h =
      let (h', front) = top h in
      elim front [
        | none ↦ h'
        | some port ↦ let rest = drop_tried f tried (pop h') in if mem port tried then rest else h'
      ]

  -- The choice of `next_port` between the heap and the list.
  unfoldable pub choose : State F → PortGraph → Option ℕ → Option ℕ → Option ℕ
  choose st graph (some a) (some b) =
      if gt (prob st graph a) (prob st graph b) then some a else some b
  choose st graph (some a) none = some a
  choose st graph none b = b

  unfoldable pub next_port : State F → PortGraph → State F × Option ℕ
  next_port st graph =
      let index = skip_tried (length graph.recommendations) st graph st.recommendation_index in
      let h = drop_tried (suc (length st.heap.values)) st.tried_ports st.heap in
      let (h', from_heap) = top h in
      let st' = record st { recommendation_index = index; heap = h' } in
      (st', choose st' graph from_heap (recommend_at graph index))

  -- The `for` loop of `record_hit`.
  unfoldable pub raise : State F → PortGraph → ℕ → List (ℕ × ℕ) → State F
  raise st graph base_count [] = st
  raise st graph base_count ((other_port, count) ∷ rest) =
      let conditional_prob = div (from_u64 count) (from_u64 base_count) in
      let st' : State F =
        if gt conditional_prob (prob st graph other_port)
        then record st { heap = update st.heap other_port conditional_prob }
        else st in
      raise st' graph base_count rest

  unfoldable pub record_empty : State F → ℕ → State F
  record_empty st port = record st {
    tried_ports = if mem port st.tried_ports then st.tried_ports else port ∷ st.tried_ports;
  }

  -- `true`: the address gives the same banner at too many ports. The counts are `u8`.
  unfoldable pub record_hit : State F → PortGraph → ℕ → ℕ → State F × Bool
  record_hit st graph port hash =
      let count = (unwrap_or (lookup hash st.seen_responses) 0 + 1) % 2 ^ 8 in
      let st' = record (record_empty st port) {
        seen_responses = insert hash count st.seen_responses;
      } in
      let raised : State F = elim (lookup port graph.doubles) [
        | none ↦ st'
        | some co_occurring ↦
            if open_count graph port == 0
            then st'
            else raise st' graph (open_count graph port) co_occurring
      ] in
      if leb graph.threshold count then (st', true) else (raised, false)

  -- The loop of `explore`, with `n` draws at most.
  unfoldable pub explore_loop : ℕ → List ℕ → Gen → Explored × Gen
  explore_loop zero tried g = (unlucky, g)
  explore_loop (suc n) tried g =
      let (candidate, g') = random_range 1 65535 g in
      let rest = explore_loop n tried g' in
      if mem candidate tried then rest else (port_found candidate, g')

  unfoldable pub explore : ℕ → List ℕ → Gen → Explored × Gen
  explore n tried g = if leb 65535 (length tried) then (all_tried, g) else explore_loop n tried g

  unfoldable pub sample : PortRange → Gen → ℕ × Gen
  sample (single port) g = (port, g)
  sample (range start end) g = random_range start end g

  -- `allocated_states.push(state)`, which fails when the queue is full.
  unfoldable pub push_state : PmapPortAdapter F → State F → Option (PmapPortAdapter F)
  push_state a st =
      if ltb (length a.allocated_states) a.capacity
      then some (record a { allocated_states = a.allocated_states ++ st ∷ [] })
      else none

  unfoldable pub remove_state : PmapPortAdapter F → ℕ → Option (PmapPortAdapter F)
  remove_state a addr = elim (lookup addr a.states) [
    | none ↦ some a
    | some st ↦ push_state (record a { states = remove addr a.states }) st
  ]

  -- `PmapPortGenerator::guard`: the adapter with the state in the guard's hands.
  unfoldable pub pop_state :
      PmapPortAdapter F → List (State F) → Option (PmapPortAdapter F × State F)
  pop_state a [] = none
  pop_state a (st ∷ rest) = some (record a { allocated_states = rest; held = a.held + 1 }, st)

  unfoldable pub guard : PmapPortAdapter F → Option (PmapPortAdapter F × State F)
  guard a = pop_state a a.allocated_states

  -- The map's part of `generate`: the state goes to the address, and one that was there is freed.
  unfoldable pub insert_state : PmapPortAdapter F → ℕ → State F → Option (PmapPortAdapter F)
  insert_state a addr st =
      let a' = record a { states = insert addr st a.states; held = a.held - 1 } in
      elim (lookup addr a.states) [ none ↦ some a' | some old ↦ push_state a' old ]

  -- The port of `generate`.
  unfoldable pub first_port : PortGraph → Bool → Gen → ℕ × Gen
  first_port graph exploit g =
      let (random, g') = random_range 1 65535 g in
      let explored : ℕ × Gen = (random, g') in
      if exploit
      then elim (recommend_at graph 0) [ none ↦ explored | some port ↦ (port, g) ]
      else explored

  unfoldable pub generate :
      PmapPortAdapter F → State F → ℕ → Gen → Option (PmapPortAdapter F × Gen × Next)
  generate a st addr g =
      let (exploit, g1) = at_least_epsilon g in
      let (port, g2) = first_port a.graph exploit g1 in
      let (source_port, g3) = sample a.source_port g2 in
      elim (insert_state a addr (clear st (if exploit then 1 else 0) a.budget_per_address)) [
        | none ↦ none
        | some a' ↦ some (a', g3, template source_port addr port)
      ]

  -- `self.remove_state(&addr)` and `return None`.
  unfoldable pub abandon : PmapPortAdapter F → ℕ → Gen → PmapPortAdapter F × Gen × Next
  abandon a addr g = elim (remove_state a addr) [
    | none ↦ (a, g, panicked)
    | some a' ↦ (a', g, no_template)
  ]

  -- The end of `on_result`, with what is left of the state in the map.
  unfoldable pub answer : PmapPortAdapter F → ℕ → Explored × Gen → PmapPortAdapter F × Gen × Next
  answer a addr (port_found port, g) =
      let (source_port, g') = sample a.source_port g in (a, g', template source_port addr port)
  answer a addr (all_tried, g) = abandon a addr g
  answer a addr (unlucky, g) = (a, g, no_fuel)

  -- `on_result` once the budget is paid: the next port is drawn, or chosen and else drawn.
  unfoldable pub continue :
      ℕ → PmapPortAdapter F → ℕ → State F → Gen → PmapPortAdapter F × Gen × Next
  continue draws a addr st g =
      let (exploit, g1) = at_least_epsilon g in
      let (st', chosen) = next_port st a.graph in
      let stored : State F → PmapPortAdapter F =
        λ x. record a { states = insert addr x a.states } in
      if exploit
      then elim chosen [
        | some port ↦ answer (stored st') addr (port_found port, g1)
        | none ↦ answer (stored st') addr (explore draws st'.tried_ports g1)
      ]
      else answer (stored st) addr (explore draws st.tried_ports g1)

  -- `on_result`, for an address in flight and a port that was not tried, from the state and the
  -- honeypot flag of `record_hit` or `record_empty`.
  unfoldable pub pay :
      ℕ → PmapPortAdapter F → ℕ → State F × Bool → Gen → PmapPortAdapter F × Gen × Next
  pay draws a addr (st, honeypot) g =
      let budget = st.budget_remaining - 1 in
      let st' = record st { budget_remaining = budget } in
      let stored : State F → PmapPortAdapter F =
        λ x. record a { states = insert addr x a.states } in
      if honeypot
      then abandon (stored st) addr g
      else if budget == 0
      then abandon (stored st') addr g
      else continue draws a addr st' g

  -- `record_hit` or `record_empty`, by the result.
  unfoldable pub recorded : State F → PortGraph → ℕ → Option ℕ → State F × Bool
  recorded st graph port none = (record_empty st port, false)
  recorded st graph port (some hash) = record_hit st graph port hash

  unfoldable pub on_result :
      ℕ → PmapPortAdapter F → ℕ → ℕ → Option ℕ → Gen → PmapPortAdapter F × Gen × Next
  on_result draws a addr port result g = elim (lookup addr a.states) [
    | none ↦ (a, g, no_template)
    | some st ↦
        if mem port st.tried_ports
        then (a, g, no_template)
        else pay draws a addr (recorded st a.graph port result) g
  ]

  -- `expire` for the entry in hand, over the entries that are stolen one by one; `none`: the panic.
  unfoldable pub expire :
      ℕ → ℕ → PmapPortAdapter F → List (ℕ × ℕ) → Option (PmapPortAdapter F × List (ℕ × ℕ))
  expire zero now a entries = some (a, entries)
  expire (suc n) now a [] = some (a, [])
  expire (suc n) now a ((expires_at, key) ∷ rest) =
      if ltb now expires_at
      then some (a, (expires_at, key) ∷ rest)
      else elim (remove_state a key) [ none ↦ none | some a' ↦ expire n now a' rest ]
