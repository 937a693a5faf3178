-- ===== src/IpAdapter/Fresh.antt =====
-- What a call of `next_address` may return: an address that was not scanned before.
use farsight.Prelude.{
  ℕ, zero, suc, ◌+◌, ◌*◌, ◌<◌, ◌≡◌, refl, ap, subst, inl, inr, Bool, true, false, ◌||◌, some, ◌==◌,
  if◌then◌else◌, arith, Bool-cases, Option-cases, length,
}
use farsight.Std.Eq.{LinearOrder, nat_eq}
use farsight.Std.Map.{insert}
use farsight.External.{Rng, FloatOps}
use farsight.LazyHeap.{LazyHeap, top, pop}
use farsight.LazyHeap.Top.{length-pop-top, top-IsGreatest, pop-removes_top}
use farsight.LazyHeap.Invariant
use farsight.PrefixState.{PrefixState, mark_scanned, is_unscanned, fetch_unscanned}
use farsight.PrefixState.Invariant.{mark_scanned_lem}
use farsight.PrefixState.Fetch.{Fetched, fetch_unscanned-Fetched}
use farsight.IpAdapter.{
  PmapIpAdapter, entry, Pick, found, exhausted, fault, no_fuel, pick_in_prefix, try_pick_loop,
  try_pick,
}
use farsight.IpAdapter.Scanned.{
  scanned, entry-IsValid, insert-Valid, scanned-at, scanned-insert-entry, scanned-mark,
}
use farsight.IpAdapter.Scanned

module _ {F : Type 0} ⦃o : LinearOrder (F × ℕ)⦄ where
  pub record IsValid (a : PmapIpAdapter F) : Type 0 where
    pub heap : Invariant.IsValid a.heap
    pub actives : Scanned.Valid a.actives

  -- What a call that ends in `p` has done to the adapter: an address that it returns was unscanned
  -- and is now scanned, and it scans no other. A fault or a lack of fuel is not allowed.
  abbrev pub Draws : PmapIpAdapter F → PmapIpAdapter F → Pick → Type 0
  Draws a a' (found addr) =
      (scanned a.actives addr ≡ false)
      × ((x : ℕ) → scanned a'.actives x ≡ (scanned a.actives x || x == addr))
  Draws a a' exhausted = (x : ℕ) → scanned a'.actives x ≡ scanned a.actives x
  Draws a a' fault = ⊥
  Draws a a' no_fuel = ⊥

  pub Draws-trans :
      (a b c : PmapIpAdapter F) (p : Pick)
      → ((x : ℕ) → scanned b.actives x ≡ scanned a.actives x)
      → Draws b c p
      → Draws a c p
  Draws-trans a b c (found addr) e d =
      (ground (arith, d.0, e addr), λ x. ground (arith, d.1 x, e x))
  Draws-trans a b c exhausted e d = λ x. ground (arith, d x, e x)
  Draws-trans a b c fault e d = d
  Draws-trans a b c no_fuel e d = d

  -- Marking an unscanned offset of a /24, whatever becomes of the heap.
  pub mark-Draws :
      (a : PmapIpAdapter F) (k j : ℕ) (h : LazyHeap F ℕ)
      → IsValid a
      → Invariant.IsValid h
      → j < 256
      → is_unscanned (entry a.actives k) j ≡ true
      → let a' = record a {
        actives = insert k (mark_scanned (entry a.actives k) j).0 a.actives;
        heap = h;
      } in
        IsValid a' × Draws a a' (found (k * 256 + j)) × (a'.ranges ≡ a.ranges)
  mark-Draws a k j h v vh lt free = (
    record {
      heap = vh;
      actives =
          insert-Valid a.actives k _ v.actives
            (mark_scanned_lem (entry a.actives k) j (entry-IsValid a.actives k v.actives) lt).3;
    },
    (ground (arith, scanned-at a.actives k j lt), λ x. scanned-mark a.actives k j x v.actives lt),
    refl,
  )

  -- Reading the entry of a /24 and dropping the top of the heap.
  drop-IsValid :
      (a : PmapIpAdapter F) (k : ℕ)
      → IsValid a
      → IsValid (record a { actives = insert k (entry a.actives k) a.actives; heap = pop a.heap })
  drop-IsValid a k v = record {
    heap = (pop-removes_top a.heap v.heap).0;
    actives = insert-Valid a.actives k _ v.actives (entry-IsValid a.actives k v.actives);
  }

  pop_if-IsValid :
      (b : Bool) (h : LazyHeap F ℕ)
      → Invariant.IsValid h
      → Invariant.IsValid (if b then pop h else h)
  pop_if-IsValid true h v = (pop-removes_top h v).0
  pop_if-IsValid false h v = v

module _ {F : Type 0} ⦃o : LinearOrder (F × ℕ)⦄ (floats : FloatOps F) (rng : Rng) where
  open rng use {State, at_least_epsilon}

  -- The outcome of a loop of `try_pick`, from the adapter `a`.
  abbrev pub Picks : PmapIpAdapter F → PmapIpAdapter F × State × Pick → Type 0
  Picks a r = IsValid r.0 × Draws a r.0 r.2 × (r.0.ranges ≡ a.ranges)

  pick_in_prefix-Picks :
      (again : PmapIpAdapter F → State → PmapIpAdapter F × State × Pick) (a : PmapIpAdapter F)
      (k : ℕ) (g : State)
      → IsValid a
      → ((b : PmapIpAdapter F) (g : State) → IsValid b → b.heap ≡ pop a.heap → Picks b (again b g))
      → Picks a (pick_in_prefix floats rng again a k g)
  unfolding pick_in_prefix
  pick_in_prefix-Picks again a k g v ih = elim (Bool-cases (state.remaining == 0)) [
    | inl full ↦ rw full (dropped g)
    | inr room ↦ rw room (elim (Option-cases (fetch_unscanned rng state g).0) [
      | inl nothing ↦ rw nothing (dropped (fetch_unscanned rng state g).1)
      | inr (offset, some_offset) ↦
          let free : Fetched state (some offset) =
            subst (Fetched state) some_offset
              (fetch_unscanned-Fetched rng state g (entry-IsValid a.actives k v.actives)) in
          rw some_offset (
            mark-Draws a k offset _ v
              (pop_if-IsValid ((mark_scanned state offset).0.remaining == 0) a.heap v.heap) free.1
              free.2)
    ])
  ]
    where
      state : PrefixState
      state = entry a.actives k

      a' : PmapIpAdapter F
      a' = record a { actives = insert k state a.actives; heap = pop a.heap }

      dropped : (g : State) → Picks a (again a' g)
      dropped g =
          let r = ih a' g (drop-IsValid a k v) refl in
          (
            r.0,
            Draws-trans a a' (again a' g).0 (again a' g).2 (λ x. scanned-insert-entry a.actives k x)
                r.1,
            r.2,
          )

  try_pick_loop-Picks :
      (f : ℕ) (a : PmapIpAdapter F) (g : State)
      → IsValid a
      → length a.heap.values < f
      → Picks a (try_pick_loop floats rng f a g)
  unfolding try_pick_loop
  try_pick_loop-Picks zero a g v lt = absurd (omega arith)
  try_pick_loop-Picks (suc f) a g v lt = elim (Option-cases (top a.heap).1) [
    | inl no_prefix ↦ rw (no_prefix, try_pick_loop) (topped, λ x. refl, refl)
    | inr (k, at_top) ↦
        rw (at_top, try_pick_loop)
          (pick_in_prefix-Picks (try_pick_loop floats rng f) (record a { heap = (top a.heap).0 }) k
            g topped
            (λ b g vb e. try_pick_loop-Picks f b g vb (
              omega (
                arith,
                length-pop-top a.heap k v.heap at_top,
                ap (λ (h : LazyHeap F ℕ). length h.values) e,
              ))))
  ]
    where
      topped : IsValid (record a { heap = (top a.heap).0 })
      topped = record { heap = (top-IsGreatest a.heap v.heap).2; actives = v.actives }

  pub try_pick-Picks :
      (a : PmapIpAdapter F) (g : State) → IsValid a → Picks a (try_pick floats rng a g)
  unfolding try_pick
  try_pick-Picks a g v = try_pick_loop-Picks (suc (length a.heap.values)) a g v (omega arith)
