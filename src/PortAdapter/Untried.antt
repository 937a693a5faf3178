-- ===== src/PortAdapter/Untried.antt =====
-- The next port of an address was not tried before.
use farsight.Prelude.{
  ℕ, zero, suc, ◌+◌, ◌-◌, ◌≡◌, refl, ap, subst, sym, ◌∙◌, inl, inr, Bool, false, List, [], ◌∷◌,
  Option, none, some, leb, ◌==◌, length, mem, unwrap_or, ◌||◌, ◌%◌, ◌^◌, arith, Bool-cases,
  Option-cases, if_elim,
}
use farsight.Std.Eq.{LinearOrder, nat_eq}
use farsight.Std.Map.{lookup, insert}
use farsight.External.{Rng, FloatOps}
use farsight.LazyHeap.{update}
use farsight.LazyHeap.Invariant
use farsight.LazyHeap.Invariant.{update-IsValid}
use farsight.PortAdapter.{
  PortGraph, State, PmapPortAdapter, Next, template, no_template, panicked, no_fuel, Explored,
  port_found, all_tried, unlucky, open_count, next_port, explore_loop, explore, prob, answer,
  abandon, remove_state, continue, pay, on_result, recorded, record_empty, record_hit, raise,
}
use farsight.PortAdapter.NextPort.{Untried, next_port-Untried}

module _ {F : Type 0} ⦃o : LinearOrder (F × ℕ)⦄ (floats : FloatOps F) (rng : Rng) where
  open rng use {State as Gen, random_range, at_least_epsilon}

  -- What `explore` may find.
  Explores : List ℕ → Explored → Type 0
  Explores tried (port_found port) = mem port tried ≡ false
  Explores tried _ = Unit {0}

  explore_loop-Explores :
      (n : ℕ) (tried : List ℕ) (g : Gen) → Explores tried (explore_loop floats rng n tried g).0
  unfolding explore_loop Explores
  explore_loop-Explores zero tried g = tt
  explore_loop-Explores (suc n) tried g =
      let candidate = (random_range 1 65535 g).0 in
      elim (Bool-cases (mem candidate tried)) [
        | inl old ↦
            rw (old, explore_loop) (explore_loop-Explores n tried (random_range 1 65535 g).1)
        | inr new ↦ rw (new, explore_loop) new
      ]

  explore-Explores :
      (n : ℕ) (tried : List ℕ) (g : Gen) → Explores tried (explore floats rng n tried g).0
  unfolding explore Explores
  explore-Explores n tried g = elim (Bool-cases (leb 65535 (length tried))) [
    | inl full ↦ rw (full, explore) tt
    | inr room ↦ rw (room, explore) (explore_loop-Explores n tried g)
  ]

  -- A result of `on_result` with a template is for a port that is not among the tried ones.
  pub New : List ℕ → PmapPortAdapter F × Gen × Next → Type 0
  New tried (a, g, template source_port addr port) = mem port tried ≡ false
  New tried (a, g, no_template) = Unit {0}
  New tried (a, g, panicked) = Unit {0}
  New tried (a, g, no_fuel) = Unit {0}

  New-same :
      (tried other : List ℕ) (r : PmapPortAdapter F × Gen × Next)
      → ((q : ℕ) → mem q tried ≡ mem q other)
      → New tried r
      → New other r
  unfolding New
  New-same tried other (a, g, template source_port addr port) same h = sym (same port) ∙ h
  New-same tried other (a, g, no_template) same h = tt
  New-same tried other (a, g, panicked) same h = tt
  New-same tried other (a, g, no_fuel) same h = tt

  nothing_New : (a : PmapPortAdapter F) (g : Gen) (tried : List ℕ) → New tried (a, g, no_template)
  unfolding New
  nothing_New a g tried = tt

  abandon-New :
      (a : PmapPortAdapter F) (addr : ℕ) (tried : List ℕ) (g : Gen)
      → New tried (abandon floats rng a addr g)
  unfolding abandon New
  abandon-New a addr tried g = elim (Option-cases (remove_state floats rng a addr)) [
    | inl panics ↦ rw (panics, abandon) tt
    | inr (a', e) ↦ rw (e, abandon) tt
  ]

  answer-New :
      (a : PmapPortAdapter F) (addr : ℕ) (tried : List ℕ) (x : Explored) (g : Gen)
      → Explores tried x
      → New tried (answer floats rng a addr (x, g))
  unfolding answer New Explores
  answer-New a addr tried (port_found port) g h = h
  answer-New a addr tried all_tried g h = abandon-New a addr tried g
  answer-New a addr tried unlucky g h = tt

  explored_port :
      (tried : List ℕ) (port : ℕ) → mem port tried ≡ false → Explores tried (port_found port)
  unfolding Explores
  explored_port tried port h = h

  next_port-tried :
      (st : State F) (graph : PortGraph)
      → (next_port floats rng st graph).0.tried_ports ≡ st.tried_ports
  unfolding next_port
  next_port-tried st graph = refl

  continue-New :
      (draws : ℕ) (a : PmapPortAdapter F) (addr : ℕ) (st : State F) (g : Gen)
      → Invariant.IsValid st.heap
      → New st.tried_ports (continue floats rng draws a addr st g)
  unfolding continue
  continue-New draws a addr st g v =
      let g1 = (at_least_epsilon g).1 in
      let st' = (next_port floats rng st a.graph).0 in
      let chosen = next_port-Untried floats rng st a.graph v in
      elim (Bool-cases (at_least_epsilon g).0) [
        | inr explores ↦
            rw (explores, continue)
              (let x = explore floats rng draws st.tried_ports g1 in
                answer-New (record a { states = insert addr st a.states }) addr st.tried_ports x.0
                  x.1 (explore-Explores draws st.tried_ports g1))
        | inl exploits ↦ elim (Option-cases (next_port floats rng st a.graph).1) [
          | inl nothing ↦
              rw (exploits, nothing, continue)
                (let x = explore floats rng draws st'.tried_ports g1 in
                  answer-New (record a { states = insert addr st' a.states }) addr st.tried_ports
                    x.0 x.1
                    (subst (λ t. Explores t x.0) (next_port-tried st a.graph)
                      (explore-Explores draws st'.tried_ports g1)))
          | inr (port, e) ↦
              rw (exploits, e, continue)
                (answer-New (record a { states = insert addr st' a.states }) addr st.tried_ports
                  (port_found port) g1
                  (explored_port st.tried_ports port (subst (Untried st.tried_ports) e chosen)))
        ]
      ]

  pay-New :
      (draws : ℕ) (a : PmapPortAdapter F) (addr : ℕ) (x : State F × Bool) (g : Gen)
      → Invariant.IsValid x.0.heap
      → New x.0.tried_ports (pay floats rng draws a addr x g)
  unfolding pay
  pay-New draws a addr (st, honeypot) g v =
      let budget = st.budget_remaining - 1 in
      let st' : State F = record st { budget_remaining = budget } in
      if_elim (New st.tried_ports) honeypot _ _
        (abandon-New (record a { states = insert addr st a.states }) addr st.tried_ports g)
        (if_elim (New st.tried_ports) (budget == 0) _ _
          (abandon-New (record a { states = insert addr st' a.states }) addr st.tried_ports g)
          (continue-New draws a addr st' g v))

  raise-IsValid :
      (st : State F) (graph : PortGraph) (base_count : ℕ) (co : List (ℕ × ℕ))
      → Invariant.IsValid st.heap
      → Invariant.IsValid (raise floats rng st graph base_count co).heap
        × ((raise floats rng st graph base_count co).tried_ports ≡ st.tried_ports)
  unfolding raise
  raise-IsValid st graph base_count [] v = (v, refl)
  raise-IsValid st graph base_count ((other, count) ∷ rest) v =
      let p = floats.div (floats.from_u64 count) (floats.from_u64 base_count) in
      elim (Bool-cases (floats.gt p (prob floats rng st graph other))) [
        | inl above ↦
            rw (above, raise)
              (raise-IsValid (record st { heap = update st.heap other p }) graph base_count rest
                (update-IsValid st.heap other p v))
        | inr below ↦ rw (below, raise) (raise-IsValid st graph base_count rest v)
      ]

  record_hit-IsValid :
      (st : State F) (graph : PortGraph) (port hash : ℕ)
      → Invariant.IsValid st.heap
      → Invariant.IsValid (record_hit floats rng st graph port hash).0.heap
        × ((record_hit floats rng st graph port hash).0.tried_ports
            ≡ (record_empty floats rng st port).tried_ports)
  unfolding record_hit record_empty
  record_hit-IsValid st graph port hash v =
      let count = (unwrap_or (lookup hash st.seen_responses) 0 + 1) % 2 ^ 8 in
      let st' : State F = record (record_empty floats rng st port) {
        seen_responses = insert hash count st.seen_responses;
      } in
      let Good : State F → Type 0 =
        λ x. Invariant.IsValid x.heap × (x.tried_ports ≡ st'.tried_ports) in
      if_elim (λ (x : State F × Bool). Good x.0) (leb graph.threshold count) _ _ (v, refl)
        (elim (Option-cases (lookup port graph.doubles)) [
          | inl none_known ↦ rw none_known (v, refl)
          | inr (co, e) ↦ rw e (
              if_elim Good (open_count graph port == 0) _ _ (v, refl)
                (raise-IsValid st' graph (open_count graph port) co v))
        ])

  recorded-IsValid :
      (st : State F) (graph : PortGraph) (port : ℕ) (result : Option ℕ)
      → Invariant.IsValid st.heap
      → Invariant.IsValid (recorded floats rng st graph port result).0.heap
        × ((recorded floats rng st graph port result).0.tried_ports
            ≡ (record_empty floats rng st port).tried_ports)
  unfolding recorded record_empty
  recorded-IsValid st graph port none v = (v, refl)
  recorded-IsValid st graph port (some hash) v = record_hit-IsValid st graph port hash v

  record_empty-mem :
      (st : State F) (port q : ℕ)
      → mem q (record_empty floats rng st port).tried_ports ≡ (q == port || mem q st.tried_ports)
  unfolding record_empty
  record_empty-mem st port q = elim (Bool-cases (mem port st.tried_ports)) [
    | inl old ↦ rw old (elim (Bool-cases (q == port)) [
      | inl same ↦
          let at : q ≡ port = ground (arith, same) in
          subst (λ x. mem x st.tried_ports ≡ (x == port || mem x st.tried_ports)) (sym at)
            (rw old (ground arith))
      | inr other ↦ rw other refl
    ])
    | inr new ↦ rw new refl
  ]

  -- Let an address be in flight with a valid heap. If `on_result` answers with a template, its port
  -- is not the one that the result is for, and none of those tried before.
  pub on_result-New :
      (draws : ℕ) (a : PmapPortAdapter F) (addr port : ℕ) (result : Option ℕ) (g : Gen)
      (st : State F)
      → lookup addr a.states ≡ some st
      → Invariant.IsValid st.heap
      → New (port ∷ st.tried_ports) (on_result floats rng draws a addr port result g)
  unfolding on_result
  on_result-New draws a addr port result g st there v =
      let r = recorded floats rng st a.graph port result in
      let ok = recorded-IsValid st a.graph port result v in
      rw (there, on_result)
        (if_elim (New (port ∷ st.tried_ports)) (mem port st.tried_ports) _ _
          (nothing_New a g (port ∷ st.tried_ports))
          (New-same r.0.tried_ports (port ∷ st.tried_ports) _
            (λ q. ap (mem q) ok.1 ∙ record_empty-mem st port q) (pay-New draws a addr r g ok.0)))
