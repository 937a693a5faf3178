-- ===== src/IpAdapter/Session.antt =====
-- A session's draws: calls of `next_address` with hits reported between them, from a new adapter.
use farsight.Prelude.{
  ℕ, ◌≤◌, ◌<◌, ◌≡◌, refl, ap, subst, sym, ◌∙◌, inl, inr, false, List, [], arith, Bool-cases,
}
use farsight.Std.Eq.{LinearOrder, nat_eq}
use farsight.Std.Map.{lookup}
use farsight.External.{Rng, FloatOps}
use farsight.Range.{CompiledRanges, index}
use farsight.LazyHeap.{empty}
use farsight.LazyHeap.Invariant.{empty-IsValid}
use farsight.IpAdapter.{
  PmapIpAdapter, Pick, found, exhausted, fault, no_fuel, try_pick, or_pick, next_or_pick, or_next,
  next_address,
}
use farsight.IpAdapter.Scanned.{scanned}
use farsight.IpAdapter.Fresh.{IsValid, Draws, Draws-trans, Picks, try_pick-Picks}
use farsight.IpAdapter.Sweep.{Serves, Swept, Sweeps, next-Sweeps}

-- `PmapIpAdapter::new`, with the graph that the database yields.
module _ {F : Type 0} where
  unfoldable pub new_adapter : CompiledRanges → List (ℕ × ℕ) → PmapIpAdapter F
  new_adapter ranges graph = record { ranges = ranges; graph = graph; heap = empty; actives = [] }

-- A new adapter is valid and has scanned nothing.
pub new_adapter_lem :
    {F : Type 0} ⦃o : LinearOrder (F × ℕ)⦄ (ranges : CompiledRanges) (graph : List (ℕ × ℕ))
    → IsValid {F = F} (new_adapter ranges graph)
      × ((x : ℕ) → scanned (new_adapter {F = F} ranges graph).actives x ≡ false)
      × ((new_adapter {F = F} ranges graph).ranges ≡ ranges)
unfolding new_adapter lookup
new_adapter_lem ranges graph =
    (record { heap = empty-IsValid; actives = λ k s e. cc }, λ x. refl, refl)

-- What the program relies on in `PerfectRng::new(range, …).shuffle`: it permutes the numbers below
-- the range.
pub record Permutes (n : ℕ) (shuffle : ℕ → ℕ) : Type 0 where
  pub within : (i : ℕ) → i < n → shuffle i < n
  pub onto : (j : ℕ) → j < n → (i : ℕ) × (i < n) × (shuffle i ≡ j)

module _ {F : Type 0} ⦃o : LinearOrder (F × ℕ)⦄ (floats : FloatOps F) (rng : Rng)
    (shuffle : ℕ → ℕ) where
  open rng use {State, at_least_epsilon}

  -- The outcome of `next_address`, from the adapter `a` at the place `i`.
  abbrev pub Steps : PmapIpAdapter F → ℕ → PmapIpAdapter F × ℕ × State × Pick → Type 0
  Steps a i r = Sweeps floats rng shuffle a i (r.0, r.1, r.3)

  Swept-mono :
      (a b : PmapIpAdapter F) (i : ℕ) (p : Pick)
      → Draws a b p
      → b.ranges ≡ a.ranges
      → Swept floats rng shuffle a i
      → Swept floats rng shuffle b i
  Swept-mono a b i (found addr) d e before j x lt at =
      ground (arith, d.1 x, before j x lt (ap (λ r. index r (shuffle j)) (sym e) ∙ at))
  Swept-mono a b i exhausted d e before j x lt at =
      d x ∙ before j x lt (ap (λ r. index r (shuffle j)) (sym e) ∙ at)
  Swept-mono a b i fault d e before j x lt at = absurd d
  Swept-mono a b i no_fuel d e before j x lt at = absurd d

  -- A pick leaves the sweep where it is.
  Picks-Sweeps :
      (a : PmapIpAdapter F) (i : ℕ) (r : PmapIpAdapter F × State × Pick)
      → Picks floats rng a r
      → (r.2 ≡ exhausted → a.ranges.count ≤ i)
      → Steps a i (r.0, i, r.1, r.2)
  Picks-Sweeps a i r p end = record {
    valid = p.0;
    draws = p.1;
    same_ranges = p.2;
    swept = Swept-mono a r.0 i r.2 p.1 p.2;
    at_end = end;
  }

  Steps-trans :
      (a b : PmapIpAdapter F) (i j : ℕ) (r : PmapIpAdapter F × ℕ × State × Pick)
      → Draws a b exhausted
      → b.ranges ≡ a.ranges
      → (Swept floats rng shuffle a i → Swept floats rng shuffle b j)
      → Steps b j r
      → Steps a i r
  Steps-trans a b i j r d e s t = record {
    valid = t.valid;
    draws = Draws-trans a b r.0 r.3 d t.draws;
    same_ranges = t.same_ranges ∙ e;
    swept = λ before. t.swept (s before);
    at_end = λ end. omega (arith, t.at_end end, ap (λ (c : CompiledRanges). c.count) e);
  }

  or_pick-Steps :
      (a b : PmapIpAdapter F) (i j : ℕ) (g : State) (p : Pick)
      → Sweeps floats rng shuffle a i (b, j, p)
      → Steps a i (or_pick floats rng shuffle b j g p)
  unfolding or_pick
  or_pick-Steps a b i j g exhausted s =
      let r = try_pick floats rng b g in
      Steps-trans a b i j (r.0, j, r.1, r.2) s.draws s.same_ranges s.swept
        (Picks-Sweeps b j r (try_pick-Picks floats rng b g s.valid)
          (λ e. omega (arith, s.at_end refl, ap (λ (c : CompiledRanges). c.count) s.same_ranges)))
  or_pick-Steps a b i j g (found addr) s = s
  or_pick-Steps a b i j g fault s = s
  or_pick-Steps a b i j g no_fuel s = s

  next_or_pick-Steps :
      (a : PmapIpAdapter F) (i : ℕ) (g : State)
      → IsValid a
      → Serves floats rng shuffle a.ranges
      → Steps a i (next_or_pick floats rng shuffle a i g)
  unfolding next_or_pick
  next_or_pick-Steps a i g v serves =
      or_pick-Steps a _ i _ g _ (next-Sweeps floats rng shuffle a i v serves)

  or_next-Steps :
      (a b : PmapIpAdapter F) (i : ℕ) (g g' : State) (p : Pick)
      → Picks floats rng a (b, g', p)
      → Serves floats rng shuffle a.ranges
      → Steps a i (or_next floats rng shuffle b i g p)
  unfolding or_next
  or_next-Steps a b i g g' exhausted s serves =
      Steps-trans a b i i (next_or_pick floats rng shuffle b i g) s.1 s.2
        (Swept-mono a b i exhausted s.1 s.2)
        (next_or_pick-Steps b i g s.0 (subst (Serves floats rng shuffle) (sym s.2) serves))
  or_next-Steps a b i g g' (found addr) s serves = Picks-Sweeps a i (b, g', found addr) s (λ e. cc)
  or_next-Steps a b i g g' fault s serves = absurd s.1
  or_next-Steps a b i g g' no_fuel s serves = absurd s.1

  -- From any valid adapter, with a shuffled index that always has an address, `next_address` ends
  -- without a fault. An address that it returns was not scanned before; it is scanned then, and the
  -- call scans no other address. It keeps the adapter valid and every address before the place of
  -- the sweep scanned, and it returns none only with the sweep at its end.
  pub next_address-Steps :
      (a : PmapIpAdapter F) (i : ℕ) (g : State)
      → IsValid a
      → Serves floats rng shuffle a.ranges
      → Steps a i (next_address floats rng shuffle a i g)
  unfolding next_address
  next_address-Steps a i g v serves = elim (Bool-cases (at_least_epsilon g).0) [
    | inl exploit ↦
        let g1 = (at_least_epsilon g).1 in
        let r = try_pick floats rng a g1 in
        rw exploit (or_next-Steps a r.0 i r.1 r.1 r.2 (try_pick-Picks floats rng a g1 v) serves)
    | inr explore ↦ rw explore (next_or_pick-Steps a i (at_least_epsilon g).1 v serves)
  ]
