-- ===== src/PortAdapter/Pool.antt =====
-- No state of the pool is lost or made: what the map holds, what is free and what the guards hold
-- add up to the capacity, so that a state that is given back always has room.
use farsight.Prelude.{
  ℕ, zero, suc, ◌+◌, ◌-◌, ◌<◌, ◌≡◌, refl, ap, subst, inl, inr, Bool, true, List, [], ◌∷◌, Option,
  none, some, ltb, ◌==◌, if◌then◌else◌, length, mem, arith, Bool-cases, Option-cases, if_elim,
  length-append,
}
use farsight.Std.Eq.{LinearOrder, nat_eq}
use farsight.Std.Map.{lookup, insert, remove}
use farsight.Std.Counting.{
  Unique, length-insert, length-remove, insert-Unique, remove-Unique, present-some, present-none,
}
use farsight.External.{Rng, FloatOps}
use farsight.PortAdapter.{
  State, PmapPortAdapter, Next, template, no_template, panicked, no_fuel, Explored, port_found,
  all_tried, unlucky, push_state, remove_state, pop_state, guard, insert_state, generate, abandon,
  answer, continue, pay, on_result, expire, explore, next_port, recorded, clear,
}

module _ {F : Type 0} ⦃o : LinearOrder (F × ℕ)⦄ (floats : FloatOps F) (rng : Rng) where
  open rng use {State as Gen, random_range, at_least_epsilon}

  -- The states add up; `handed` counts those that are in nobody's book during a call.
  pub record Adds (handed : ℕ) (a : PmapPortAdapter F) : Type 0 where
    pub unique : Unique a.states
    pub sum : length a.states + length a.allocated_states + a.held + handed ≡ a.capacity

  -- No panic, and the adapter after the call adds up.
  Fine : ℕ → Option (PmapPortAdapter F) → Type 0
  Fine handed none = ⊥
  Fine handed (some a) = Adds handed a

  push_state-Fine :
      (a : PmapPortAdapter F) (st : State F) → Adds 1 a → Fine 0 (push_state floats rng a st)
  unfolding push_state Fine
  push_state-Fine a st h =
      let room : ltb (length a.allocated_states) a.capacity ≡ true = ground (arith, h.sum) in
      rw room (record {
        unique = h.unique;
        sum = omega (arith, h.sum, length-append a.allocated_states (st ∷ []));
      })

  keep : (a : PmapPortAdapter F) → Adds 0 a → Fine 0 (some a)
  unfolding Fine
  keep a h = h

  remove_state-Fine :
      (a : PmapPortAdapter F) (addr : ℕ) → Adds 0 a → Fine 0 (remove_state floats rng a addr)
  unfolding remove_state
  remove_state-Fine a addr h = elim (Option-cases (lookup addr a.states)) [
    | inl gone ↦ rw (gone, remove_state) (keep a h)
    | inr (st, there) ↦
        rw (there, remove_state)
          (push_state-Fine (record a { states = remove addr a.states }) st
            (record {
              unique = remove-Unique addr a.states h.unique;
              sum = omega (
                arith,
                h.sum,
                length-remove addr a.states h.unique,
                present-some addr st a.states there,
              );
            }))
  ]

  -- Storing a state for an address in flight.
  store-Adds :
      (a : PmapPortAdapter F) (addr : ℕ) (st x : State F)
      → lookup addr a.states ≡ some st
      → Adds 0 a
      → Adds 0 (record a { states = insert addr x a.states })
  store-Adds a addr st x there h = record {
    unique = insert-Unique addr x a.states h.unique;
    sum = omega (arith, h.sum, length-insert addr x a.states, present-some addr st a.states there);
  }

  insert_state-Fine :
      (a : PmapPortAdapter F) (addr : ℕ) (st : State F)
      → Adds 0 a
      → 0 < a.held
      → Fine 0 (insert_state floats rng a addr st)
  unfolding insert_state Fine
  insert_state-Fine a addr st h guarded = elim (Option-cases (lookup addr a.states)) [
    | inl fresh ↦
        rw (fresh, insert_state)
          (record {
            unique = insert-Unique addr st a.states h.unique;
            sum =
                omega
                  (arith, h.sum, length-insert addr st a.states, present-none addr a.states fresh);
          })
    | inr (old, there) ↦
        rw (there, insert_state)
          (push_state-Fine (record a { states = insert addr st a.states; held = a.held - 1 }) old
            (record {
              unique = insert-Unique addr st a.states h.unique;
              sum = omega (
                arith,
                h.sum,
                length-insert addr st a.states,
                present-some addr old a.states there,
              );
            }))
  ]

  -- How `on_result` may end: not by the panic, and with an adapter that adds up.
  pub Ends : PmapPortAdapter F × Gen × Next → Type 0
  Ends (a, g, panicked) = ⊥
  Ends (a, g, template source_port addr port) = Adds 0 a
  Ends (a, g, no_template) = Adds 0 a
  Ends (a, g, no_fuel) = Adds 0 a

  abandon-Ends :
      (a : PmapPortAdapter F) (addr : ℕ) (g : Gen) → Adds 0 a → Ends (abandon floats rng a addr g)
  unfolding abandon Ends Fine
  abandon-Ends a addr g h = elim (Option-cases (remove_state floats rng a addr)) [
    | inl panics ↦ absurd (subst (Fine 0) panics (remove_state-Fine a addr h))
    | inr (a', e) ↦ rw (e, abandon) (subst (Fine 0) e (remove_state-Fine a addr h))
  ]

  answer-Ends :
      (a : PmapPortAdapter F) (addr : ℕ) (x : Explored) (g : Gen)
      → Adds 0 a
      → Ends (answer floats rng a addr (x, g))
  unfolding answer Ends
  answer-Ends a addr (port_found port) g h = h
  answer-Ends a addr all_tried g h = abandon-Ends a addr g h
  answer-Ends a addr unlucky g h = h

  continue-Ends :
      (draws : ℕ) (a : PmapPortAdapter F) (addr : ℕ) (old st : State F) (g : Gen)
      → lookup addr a.states ≡ some old
      → Adds 0 a
      → Ends (continue floats rng draws a addr st g)
  unfolding continue
  continue-Ends draws a addr old st g there h =
      let g1 = (at_least_epsilon g).1 in
      let st' = (next_port floats rng st a.graph).0 in
      let kept : Adds 0 (record a { states = insert addr st' a.states }) =
        store-Adds a addr old st' there h in
      let explored = explore floats rng draws st'.tried_ports g1 in
      elim (Bool-cases (at_least_epsilon g).0) [
        | inr explores ↦
            rw (explores, continue)
              (let e = explore floats rng draws st.tried_ports g1 in
                answer-Ends (record a { states = insert addr st a.states }) addr e.0 e.1
                  (store-Adds a addr old st there h))
        | inl exploits ↦ elim (Option-cases (next_port floats rng st a.graph).1) [
          | inl nothing ↦
              rw (exploits, nothing, continue)
                (answer-Ends (record a { states = insert addr st' a.states }) addr explored.0
                  explored.1 kept)
          | inr (port, e) ↦
              rw (exploits, e, continue)
                (answer-Ends (record a { states = insert addr st' a.states }) addr (port_found port)
                  g1 kept)
        ]
      ]

  pay-Ends :
      (draws : ℕ) (a : PmapPortAdapter F) (addr : ℕ) (old : State F) (x : State F × Bool) (g : Gen)
      → lookup addr a.states ≡ some old
      → Adds 0 a
      → Ends (pay floats rng draws a addr x g)
  unfolding pay
  pay-Ends draws a addr old (st, honeypot) g there h =
      let budget = st.budget_remaining - 1 in
      let st' : State F = record st { budget_remaining = budget } in
      if_elim Ends honeypot _ _
        (abandon-Ends (record a { states = insert addr st a.states }) addr g
          (store-Adds a addr old st there h))
        (if_elim Ends (budget == 0) _ _
          (abandon-Ends (record a { states = insert addr st' a.states }) addr g
            (store-Adds a addr old st' there h))
          (continue-Ends draws a addr old st' g there h))

  -- Let the states in the map, the free ones and those of the guards add up to the capacity, with no
  -- address twice in the map. Then, whatever the result, `on_result` does not panic, and they add up
  -- behind it.
  pub on_result-Ends :
      (draws : ℕ) (a : PmapPortAdapter F) (addr port : ℕ) (result : Option ℕ) (g : Gen)
      → Adds 0 a
      → Ends (on_result floats rng draws a addr port result g)
  unfolding on_result Ends
  on_result-Ends draws a addr port result g h = elim (Option-cases (lookup addr a.states)) [
    | inl unknown ↦ rw (unknown, on_result) h
    | inr (st, there) ↦
        rw (there, on_result)
          (if_elim Ends (mem port st.tried_ports) (a, g, no_template)
            (pay floats rng draws a addr (recorded floats rng st a.graph port result) g) h
            (pay-Ends draws a addr st (recorded floats rng st a.graph port result) g there h))
  ]

  -- What `generate` leaves, or `⊥` for a panic.
  pub Generated : Option (PmapPortAdapter F × Gen × Next) → Type 0
  Generated none = ⊥
  Generated (some (a, g, t)) = Adds 0 a

  generate-Generated :
      (a : PmapPortAdapter F) (st : State F) (addr : ℕ) (g : Gen)
      → Adds 0 a
      → 0 < a.held
      → Generated (generate floats rng a st addr g)
  unfolding generate Generated Fine
  generate-Generated a st addr g h guarded =
      let exploit = (at_least_epsilon g).0 in
      let cleared = clear floats rng st (if exploit then 1 else 0) a.budget_per_address in
      let fine = insert_state-Fine a addr cleared h guarded in
      elim (Option-cases (insert_state floats rng a addr cleared)) [
        | inl panics ↦ absurd (subst (Fine 0) panics fine)
        | inr (a', e) ↦ rw (e, generate) (subst (Fine 0) e fine)
      ]

  Guarded : Option (PmapPortAdapter F × State F) → Type 0
  Guarded none = Unit {0}
  Guarded (some (b, st)) = Adds 0 b × (0 < b.held)

  pop_state-Guarded :
      (a : PmapPortAdapter F) (free : List (State F))
      → Adds 0 a
      → a.allocated_states ≡ free
      → Guarded (pop_state floats rng a free)
  unfolding pop_state Guarded
  pop_state-Guarded a [] h e = tt
  pop_state-Guarded a (st ∷ rest) h e =
      (record { unique = h.unique; sum = omega (arith, h.sum, ap length e) }, omega arith)

  guard-Adds :
      (a b : PmapPortAdapter F) (st : State F)
      → Adds 0 a
      → guard floats rng a ≡ some (b, st)
      → Adds 0 b × (0 < b.held)
  unfolding guard Guarded
  guard-Adds a b st h taken = subst Guarded taken (pop_state-Guarded a a.allocated_states h refl)

  -- Let the states add up to the capacity, with no address twice in the map. When a guard gets a
  -- state from the pool and generates with it, whether the address is in flight or not, nothing
  -- panics, and they add up behind it.
  pub guard-generate-Generated :
      (a b : PmapPortAdapter F) (st : State F) (addr : ℕ) (g : Gen)
      → Adds 0 a
      → guard floats rng a ≡ some (b, st)
      → Generated (generate floats rng b st addr g)
  guard-generate-Generated a b st addr g h taken =
      let (h', held) = guard-Adds a b st h taken in generate-Generated b st addr g h' held

  -- What `expire` leaves, or `⊥` for a panic.
  pub Expired : Option (PmapPortAdapter F × List (ℕ × ℕ)) → Type 0
  Expired none = ⊥
  Expired (some (a, entries)) = Adds 0 a

  -- Let the states add up to the capacity, with no address twice in the map. Then `expire` does not
  -- panic, whatever entries it finds, and they add up behind it.
  pub expire-Expired :
      (n now : ℕ) (a : PmapPortAdapter F) (entries : List (ℕ × ℕ))
      → Adds 0 a
      → Expired (expire floats rng n now a entries)
  unfolding expire Expired Fine
  expire-Expired zero now a entries h = h
  expire-Expired (suc n) now a [] h = h
  expire-Expired (suc n) now a ((t, key) ∷ rest) h = elim (Bool-cases (ltb now t)) [
    | inl later ↦ rw (later, expire) h
    | inr due ↦ elim (Option-cases (remove_state floats rng a key)) [
      | inl panics ↦ absurd (subst (Fine 0) panics (remove_state-Fine a key h))
      | inr (a', e) ↦
          rw (due, e, expire)
            (expire-Expired n now a' rest (subst (Fine 0) e (remove_state-Fine a key h)))
    ]
  ]
