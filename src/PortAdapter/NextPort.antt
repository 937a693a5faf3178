-- ===== src/PortAdapter/NextPort.antt =====
-- The port that `next_port` chooses was not tried before.
use farsight.Prelude.{
  ℕ, zero, suc, ◌+◌, ◌≤◌, ◌<◌, ◌≡◌, refl, subst, sym, ◌∙◌, inl, inr, false, List, [], ◌∷◌, Option,
  none, some, length, get_elem?, mem, arith, Bool-cases, Option-cases, if_elim,
}
use farsight.Std.Eq.{LinearOrder, nat_eq}
use farsight.External.{Rng, FloatOps}
use farsight.LazyHeap.{LazyHeap, top, pop}
use farsight.LazyHeap.Invariant
use farsight.LazyHeap.Invariant.{update-IsValid}
use farsight.LazyHeap.Top.{top_again, length-pop-top, top-IsGreatest, pop-removes_top}
use farsight.PortAdapter.{
  PortGraph, State, recommend_at, skip_tried, drop_tried, choose, next_port, prob,
}

-- A port that is chosen, if one is, is not among the tried ones.
abbrev pub Untried : List ℕ → Option ℕ → Type 0
Untried tried none = Unit {0}
Untried tried (some port) = mem port tried ≡ false

get_elem?-beyond : (xs : List ℕ) (i : ℕ) → length xs ≤ i → get_elem? xs i ≡ none
get_elem?-beyond [] i h = refl
get_elem?-beyond (x ∷ xs) zero h = absurd (omega arith)
get_elem?-beyond (x ∷ xs) (suc i) h = get_elem?-beyond xs i (omega arith)

recommend_at-beyond :
    (graph : PortGraph) (i : ℕ) → length graph.recommendations ≤ i → recommend_at graph i ≡ none
unfolding recommend_at
recommend_at-beyond graph i h = get_elem?-beyond graph.recommendations i h

module _ {F : Type 0} ⦃o : LinearOrder (F × ℕ)⦄ (floats : FloatOps F) (rng : Rng) where
  open rng use {State as Gen, random_range, at_least_epsilon}

  skip-Untried :
      (f : ℕ) (st : State F) (graph : PortGraph) (i : ℕ)
      → length graph.recommendations ≤ f + i
      → Untried st.tried_ports (recommend_at graph (skip_tried floats rng f st graph i))
  unfolding skip_tried
  skip-Untried zero st graph i h =
      subst (Untried st.tried_ports) (sym (recommend_at-beyond graph i (omega arith))) tt
  skip-Untried (suc f) st graph i h = elim (Option-cases (recommend_at graph i)) [
    | inl end ↦ rw (end, skip_tried) (subst (Untried st.tried_ports) (sym end) tt)
    | inr (port, here) ↦ elim (Bool-cases (mem port st.tried_ports)) [
      | inl tried ↦ rw (here, tried, skip_tried) (skip-Untried f st graph (i + 1) (omega arith))
      | inr new ↦ rw (here, new, skip_tried) (subst (Untried st.tried_ports) (sym here) new)
    ]
  ]

  drop-Untried :
      (f : ℕ) (tried : List ℕ) (h : LazyHeap F ℕ)
      → Invariant.IsValid h
      → length h.values < f
      → Untried tried (top (drop_tried floats rng f tried h)).1
  unfolding drop_tried
  drop-Untried zero tried h v le = absurd (omega arith)
  drop-Untried (suc f) tried h v le =
      let settled = (top-IsGreatest h v).2 in
      elim (Option-cases (top h).1) [
        | inl empty ↦ rw (empty, drop_tried) (subst (Untried tried) (sym (top_again h ∙ empty)) tt)
        | inr (port, first) ↦ elim (Bool-cases (mem port tried)) [
          | inl old ↦
              rw (first, old, drop_tried)
                (drop-Untried f tried (pop (top h).0) (pop-removes_top (top h).0 settled).0
                  (omega (arith, length-pop-top h port v first)))
          | inr new ↦
              rw (first, new, drop_tried) (subst (Untried tried) (sym (top_again h ∙ first)) new)
        ]
      ]

  choose-Untried :
      (st : State F) (graph : PortGraph) (tried : List ℕ) (a b : Option ℕ)
      → Untried tried a
      → Untried tried b
      → Untried tried (choose floats rng st graph a b)
  unfolding choose
  choose-Untried st graph tried (some a) (some b) ha hb =
      if_elim (Untried tried) (floats.gt (prob floats rng st graph a) (prob floats rng st graph b))
        (some a) (some b) ha hb
  choose-Untried st graph tried (some a) none ha hb = ha
  choose-Untried st graph tried none b ha hb = hb

  -- With a valid heap both loops of `next_port` end, and the port that it chooses, if it chooses
  -- one, was not tried before.
  pub next_port-Untried :
      (st : State F) (graph : PortGraph)
      → Invariant.IsValid st.heap
      → Untried st.tried_ports (next_port floats rng st graph).1
  unfolding next_port
  next_port-Untried st graph v =
      choose-Untried _ graph st.tried_ports _ _
        (drop-Untried (suc (length st.heap.values)) st.tried_ports st.heap v (omega arith))
        (skip-Untried (length graph.recommendations) st graph st.recommendation_index (omega arith))
