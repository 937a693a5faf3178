-- ===== src/IpAdapter/Draws.antt =====
-- A session's draws: calls of `next_address`, as the feeder makes them, with the hits that the
-- responders report between them, from a new adapter.
use farsight.Prelude.{
  ℕ, ◌/◌, ◌≤◌, ◌≡◌, refl, ap, subst, sym, ap₂, ◌∙◌, true, List, [], ◌∷◌, arith, if_elim, mem,
  Distinct,
}
use farsight.Std.Eq.{LinearOrder, nat_eq}
use farsight.External.{Rng, FloatOps}
use farsight.Range.{RangeInclusive, CompiledRanges, compile, address, index}
use farsight.Range.Spec.{covers, Ascending}
use farsight.Range.Index.{index-enumerates}
use farsight.LazyHeap.Top.{update-query}
use farsight.IpAdapter.{
  PmapIpAdapter, Pick, found, exhausted, fault, no_fuel, next_address, on_result,
}
use farsight.IpAdapter.Scanned.{scanned}
use farsight.IpAdapter.Fresh.{IsValid}
use farsight.IpAdapter.Sweep.{Serves, Swept}
use farsight.IpAdapter.Session.{new_adapter, new_adapter_lem, Permutes, Steps, next_address-Steps}

-- The feeder asks for an address, or a responder reports a hit at one.
pub data Event : Type 0 where
  draw : Event
  hit : ℕ → Event

module _ {F : Type 0} ⦃o : LinearOrder (F × ℕ)⦄ (floats : FloatOps F) (rng : Rng)
    (shuffle : ℕ → ℕ) where
  open rng use {State, random_range}

  -- The adapter, the place of the sweep, the generator, and the addresses returned so far.
  pub record Drawing : Type 0 where
    pub adapter : PmapIpAdapter F
    pub place : ℕ
    pub generator : State
    pub drawn : List ℕ

  abbrev pub record_draw : Pick → List ℕ → List ℕ
  record_draw (found addr) drawn = addr ∷ drawn
  record_draw _ drawn = drawn

  unfoldable pub step : Drawing → Event → Drawing
  step s draw =
      let (a, i, g, p) = next_address floats rng shuffle s.adapter s.place s.generator in
      record { adapter = a; place = i; generator = g; drawn = record_draw p s.drawn }
  step s (hit addr) = record s { adapter = on_result floats rng s.adapter addr }

  unfoldable pub run : Drawing → List Event → Drawing
  run s [] = s
  run s (e ∷ es) = run (step s e) es

  unfoldable pub start : List RangeInclusive → List (ℕ × ℕ) → State → Drawing
  start rs graph g = record {
    adapter = new_adapter (compile rs) graph;
    place = 0;
    generator = g;
    drawn = [];
  }

  pub record IsValidDrawing (rs : List RangeInclusive) (s : Drawing) : Type 0 where
    pub adapter : IsValid s.adapter
    pub ranges : s.adapter.ranges ≡ compile rs
    pub swept : Swept floats rng shuffle s.adapter s.place
    pub agree : (x : ℕ) → scanned s.adapter.actives x ≡ mem x s.drawn
    pub distinct : Distinct s.drawn

  pub Serves-compile :
      (rs : List RangeInclusive)
      → Ascending 0 rs
      → Permutes (compile rs).count shuffle
      → Serves floats rng shuffle (compile rs)
  Serves-compile rs asc p i lt =
      let (a, e, c) = (index-enumerates rs asc).0 (shuffle i) (p.within i lt) in (a, e)

  drawn-IsValid :
      (rs : List RangeInclusive) (s : Drawing) (a : PmapIpAdapter F) (i : ℕ) (g : State) (p : Pick)
      → IsValidDrawing rs s
      → Steps floats rng shuffle s.adapter s.place (a, i, g, p)
      → IsValidDrawing rs
          (record { adapter = a; place = i; generator = g; drawn = record_draw p s.drawn })
  drawn-IsValid rs s a i g (found addr) v t = record {
    adapter = t.valid;
    ranges = t.same_ranges ∙ v.ranges;
    swept = t.swept v.swept;
    agree = λ x. ground (arith, t.draws.1 x, v.agree x);
    distinct = (ground (arith, t.draws.0, v.agree addr), v.distinct);
  }
  drawn-IsValid rs s a i g exhausted v t = record {
    adapter = t.valid;
    ranges = t.same_ranges ∙ v.ranges;
    swept = t.swept v.swept;
    agree = λ x. t.draws x ∙ v.agree x;
    distinct = v.distinct;
  }
  drawn-IsValid rs s a i g fault v t = absurd t.draws
  drawn-IsValid rs s a i g no_fuel v t = absurd t.draws

  -- A hit changes the heap alone.
  on_result-keeps :
      (a : PmapIpAdapter F) (addr : ℕ)
      → IsValid a
      → let b = on_result floats rng a addr in
        IsValid b × (b.ranges ≡ a.ranges) × (b.actives ≡ a.actives)
  unfolding on_result
  on_result-keeps a addr v =
      if_elim (λ b. IsValid b × (b.ranges ≡ a.ranges) × (b.actives ≡ a.actives)) _ _ a
        (
          record { heap = (update-query a.heap (addr / 256) _ v.heap).0; actives = v.actives },
          refl,
          refl,
        )
        (v, refl, refl)

  pub step-IsValid :
      (rs : List RangeInclusive) (s : Drawing) (e : Event)
      → Serves floats rng shuffle (compile rs)
      → IsValidDrawing rs s
      → IsValidDrawing rs (step s e)
  unfolding step
  step-IsValid rs s draw serves v =
      let r = next_address floats rng shuffle s.adapter s.place s.generator in
      drawn-IsValid rs s r.0 r.1 r.2 r.3 v (
        next_address-Steps floats rng shuffle s.adapter s.place s.generator v.adapter
          (subst (Serves floats rng shuffle) (sym v.ranges) serves))
  step-IsValid rs s (hit addr) serves v =
      let k = on_result-keeps s.adapter addr v.adapter in
      let same = λ (x : ℕ). ap (λ m. scanned m x) k.2 in
      record {
        adapter = k.0;
        ranges = k.1 ∙ v.ranges;
        swept = λ j x lt e.
            same x
            ∙ v.swept j x lt (ap (λ (r : CompiledRanges). index r (shuffle j)) (sym k.1) ∙ e);
        agree = λ x. same x ∙ v.agree x;
        distinct = v.distinct;
      }

  pub run-IsValid :
      (rs : List RangeInclusive) (es : List Event) (s : Drawing)
      → Serves floats rng shuffle (compile rs)
      → IsValidDrawing rs s
      → IsValidDrawing rs (run s es)
  unfolding run
  run-IsValid rs [] s serves v = v
  run-IsValid rs (e ∷ es) s serves v =
      run-IsValid rs es (step s e) serves (step-IsValid rs s e serves v)

  pub start-IsValid :
      (rs : List RangeInclusive) (graph : List (ℕ × ℕ)) (g : State)
      → IsValidDrawing rs (start rs graph g)
  unfolding start
  start-IsValid rs graph g =
      let n = new_adapter_lem {F = F} (compile rs) graph in
      record {
        adapter = n.0;
        ranges = n.2;
        swept = λ j x lt e. absurd (omega arith);
        agree = n.1;
        distinct = tt;
      }

  -- Let the ranges be disjoint, ascending and non-empty, and let `shuffle` permute the numbers below
  -- their count. Whatever draws and hits a session makes, no address is drawn twice.
  pub run-draws_each_once :
      (rs : List RangeInclusive) (graph : List (ℕ × ℕ)) (g : State) (es : List Event)
      → Ascending 0 rs
      → Permutes (compile rs).count shuffle
      → Distinct (run (start rs graph g) es).drawn
  run-draws_each_once rs graph g es asc p =
      (run-IsValid rs es (start rs graph g) (Serves-compile rs asc p)
        (start-IsValid rs graph g)).distinct

  -- Let the ranges be disjoint, ascending and non-empty, and let `shuffle` permute the numbers below
  -- their count. Once the sweep of a session, behind any draws and hits, is at its end, every address
  -- in the ranges has been drawn.
  pub run-draws_all :
      (rs : List RangeInclusive) (graph : List (ℕ × ℕ)) (g : State) (es : List Event) (x : ℕ)
      → Ascending 0 rs
      → Permutes (compile rs).count shuffle
      → (compile rs).count ≤ (run (start rs graph g) es).place
      → covers rs x ≡ true
      → mem x (run (start rs graph g) es).drawn ≡ true
  run-draws_all rs graph g es x asc p end c =
      let s = run (start rs graph g) es in
      let v =
        run-IsValid rs es (start rs graph g) (Serves-compile rs asc p) (start-IsValid rs graph g) in
      let (i, lt, at) = (index-enumerates rs asc).1 x c in
      let (j, ltj, e) = p.onto i lt in
      let at' : index s.adapter.ranges (shuffle j) ≡ address x = ap₂ index v.ranges e ∙ at in
      sym (v.agree x) ∙ v.swept j x (omega (arith, end)) at'
