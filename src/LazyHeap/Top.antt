-- ===== src/LazyHeap/Top.antt =====
-- A `LazyHeap` behaves as the map of its values: `top` is the key of the greatest entry, and `pop`
-- takes out that key.
use farsight.Prelude.{
  ap, ◌∙◌, length, subst, ◌+◌, ◌<◌, ◌≤◌, ◌≡◌, refl, inl, inr, true, false, List, [], ◌∷◌, Option,
  none, some, arith, if◌then◌else◌, Option-cases,
}
use farsight.Std.Eq.{Eq, LinearOrder, ◌==◌}
use farsight.Std.Map.{lookup, remove, lookup-insert, lookup-remove, length-remove-lt}
use farsight.Std.BinaryHeap.{same, Below, Descending, count, Below-Descending, Below-leq}
use farsight.LazyHeap.{LazyHeap, query, cancel, settle, peek_key, top, pop, pop_settled, update}
use farsight.LazyHeap.Invariant.{IsValid, held, settle-IsValid, update-IsValid}

module _ {ℓ} {P K : Type ℓ} ⦃e : Eq K⦄ ⦃o : LinearOrder (P × K)⦄ where
  abbrev HeadsDiffer : List (P × K) → List (P × K) → Type 0
  HeadsDiffer [] s = Unit {0}
  HeadsDiffer (c ∷ cs) [] = Unit {0}
  HeadsDiffer (c ∷ cs) (s ∷ ss) = same c s ≡ false

  cancel-HeadsDiffer : (c s : List (P × K)) → HeadsDiffer (cancel c s).0 (cancel c s).1
  unfolding cancel
  cancel-HeadsDiffer [] s = tt
  cancel-HeadsDiffer (c ∷ cs) [] = tt
  cancel-HeadsDiffer (c ∷ cs) (s ∷ ss) = ground (arith, cancel-HeadsDiffer cs ss)

  same_refl : (x : P × K) → same x x ≡ true
  same_refl x = ground (arith, o.leq_total x x)

  count_head : (x : P × K) (h : List (P × K)) → 0 < count x (x ∷ h)
  unfolding count
  count_head x h = ground (arith, same_refl x)

  leq_head :
      (x c : P × K) (cs : List (P × K)) → Below c cs → 0 < count x (c ∷ cs) → o.leq x c ≡ true
  unfolding count
  leq_head x c cs b n = ground (arith, Below-leq x c cs b)

  -- With the heads apart, the head of `current` is no stale entry.
  head-not_stale :
      (c : P × K) (cs s : List (P × K))
      → Below c cs
      → Descending s
      → HeadsDiffer (c ∷ cs) s
      → ((x : P × K) → count x s ≤ count x (c ∷ cs))
      → count c s ≡ 0
  unfolding count
  head-not_stale c cs [] b d apart within = refl
  head-not_stale c cs (s ∷ ss) b d apart within =
      ground (arith, within s, leq_head s c cs b, leq_head c s ss d, count_head s ss)

  held-lookup :
      (values : List (K × P)) (p : P) (k : K) → 0 < held values (p, k) → lookup k values ≡ some p
  held-lookup values p k h = elim (Option-cases (lookup k values)) [
    | inl absent ↦ ground arith
    | inr (q, there) ↦ ground (arith, o.leq_antisymm (p, k) (q, k))
  ]

  lookup-held :
      (values : List (K × P)) (p : P) (k : K) → lookup k values ≡ some p → held values (p, k) ≡ 1
  lookup-held values p k h = ground (arith, same_refl (p, k))

  -- What a map with these values has for its greatest key: none if it is empty, and otherwise a key
  -- whose entry no other entry exceeds.
  abbrev pub IsGreatest : List (K × P) → Option K → Type ℓ
  IsGreatest values none = (j : K) → lookup j values ≡ none
  IsGreatest values (some k) =
      (p : P) × (lookup k values ≡ some p)
      × ((j : K) (q : P) → lookup j values ≡ some q → o.leq (q, j) (p, k) ≡ true)

  abbrev Balanced : List (K × P) → List (P × K) → List (P × K) → Type ℓ
  Balanced values c s = (x : P × K) → count x c ≡ count x s + held values x

  head-lookup :
      (values : List (K × P)) (p : P) (k : K) (cs s : List (P × K))
      → Below (p, k) cs
      → Descending s
      → HeadsDiffer ((p, k) ∷ cs) s
      → Balanced values ((p, k) ∷ cs) s
      → lookup k values ≡ some p
  head-lookup values p k cs s dc ds apart b = held-lookup values p k (
      omega (
        arith,
        head-not_stale (p, k) cs s dc ds apart (λ x. omega (arith, b x)),
        count_head (p, k) cs,
        b (p, k),
      ))

  peek-IsGreatest :
      (values : List (K × P)) (c s : List (P × K))
      → Descending c
      → Descending s
      → HeadsDiffer c s
      → Balanced values c s
      → IsGreatest values (peek_key c)
  unfolding count
  peek-IsGreatest values [] s dc ds apart b = λ j. elim (Option-cases (lookup j values)) [
    | inl absent ↦ absent
    | inr (q, there) ↦ absurd (omega (arith, b (q, j), lookup-held values q j there))
  ]
  peek-IsGreatest values ((p, k) ∷ cs) s dc ds apart b = (
    p,
    head-lookup values p k cs s dc ds apart b,
    λ j q there.
        leq_head (q, j) (p, k) cs dc (omega (arith, b (q, j), lookup-held values q j there)),
  )

  -- From any valid heap, `top` returns no key exactly for the empty map, and otherwise a key of the
  -- map whose value, with ties decided by the keys, no other entry exceeds. It leaves the map as it
  -- was and the heap valid.
  pub top-IsGreatest :
      (h : LazyHeap P K)
      → IsValid h
      → IsGreatest h.values (top h).1 × ((top h).0.values ≡ h.values) × IsValid (top h).0
  unfolding top
  top-IsGreatest h v =
      let w = settle-IsValid h v in
      (
        peek-IsGreatest h.values (cancel h.current h.stale).0 (cancel h.current h.stale).1
            w.current_heap w.stale_heap (cancel-HeadsDiffer h.current h.stale) w.balance,
        refl,
        w,
      )

  remove-balance :
      (values : List (K × P)) (p : P) (k : K) (c s : List (P × K))
      → lookup k values ≡ some p
      → Balanced values ((p, k) ∷ c) s
      → Balanced (remove k values) c s
  unfolding count
  remove-balance values p k c s there b x =
      ground (arith, b x, lookup-remove k x.1 values, e.equal_iff k x.1, o.leq_antisymm x (p, k))

  pop_settled-IsValid :
      (h : LazyHeap P K) (c : List (P × K))
      → Descending c
      → Descending h.stale
      → HeadsDiffer c h.stale
      → Balanced h.values c h.stale
      → IsValid (pop_settled (record h { current = c }) c)
  pop_settled-IsValid h [] dc ds apart b = record {
    current_heap = dc;
    stale_heap = ds;
    balance = b;
  }
  pop_settled-IsValid h ((p, k) ∷ cs) dc ds apart b = record {
    current_heap = Below-Descending (p, k) cs dc;
    stale_heap = ds;
    balance =
        remove-balance h.values p k cs h.stale (head-lookup h.values p k cs h.stale dc ds apart b)
          b;
  }

  pop_settled-lookup :
      (h : LazyHeap P K) (c : List (P × K)) (j : K)
      → lookup j (pop_settled (record h { current = c }) c).values ≡ elim (peek_key c) [
        | none ↦ lookup j h.values
        | some k ↦ if k == j then none else lookup j h.values
      ]
  pop_settled-lookup h [] j = refl
  pop_settled-lookup h ((p, k) ∷ cs) j = lookup-remove k j h.values

  -- From any valid heap, `pop` removes the key that `top` returns and leaves every other key with
  -- its value; on the empty map it changes no key. The heap stays valid.
  pub pop-removes_top :
      (h : LazyHeap P K)
      → IsValid h
      → IsValid (pop h)
        × ((j : K)
            → query (pop h) j
              ≡ elim (top h).1 [ none ↦ query h j | some k ↦ if k == j then none else query h j ])
  unfolding pop top query
  pop-removes_top h v =
      let w = settle-IsValid h v in
      (
        pop_settled-IsValid (settle h) (settle h).current w.current_heap w.stale_heap
            (cancel-HeadsDiffer h.current h.stale) w.balance,
        λ j. pop_settled-lookup (settle h) (settle h).current j,
      )

  -- `update` of a valid heap gives the key its new value, leaves every other key with its own, and
  -- keeps the heap valid.
  pub update-query :
      (h : LazyHeap P K) (key : K) (value : P)
      → IsValid h
      → IsValid (update h key value)
        × ((j : K) → query (update h key value) j ≡ (if key == j then some value else query h j))
  unfolding query update
  update-query h key value v =
      (update-IsValid h key value v, λ j. lookup-insert key j value h.values)

  cancel_again : (c s : List (P × K)) → HeadsDiffer c s → cancel c s ≡ (c, s)
  unfolding cancel
  cancel_again [] s h = refl
  cancel_again (c ∷ cs) [] h = refl
  cancel_again (c ∷ cs) (s ∷ ss) h = rw h

  pop-values :
      (h : LazyHeap P K) (c : List (P × K)) (k : K)
      → peek_key c ≡ some k
      → (pop_settled h c).values ≡ remove k h.values
  pop-values h [] k e = cc
  pop-values h ((p, j) ∷ c) k e = ground arith

  -- Taking out the top key leaves fewer entries.
  pub length-pop-top :
      (h : LazyHeap P K) (k : K)
      → IsValid h
      → (top h).1 ≡ some k
      → length (pop (top h).0).values < length h.values
  unfolding top pop settle
  length-pop-top h k v e =
      let c = (cancel h.current h.stale).0 in
      let s = (cancel h.current h.stale).1 in
      let again : settle (settle h) ≡ settle h =
        ap (λ (p : List (P × K) × List (P × K)). record h { current = p.0; stale = p.1 })
          (cancel_again c s (cancel-HeadsDiffer h.current h.stale)) in
      let greatest : IsGreatest h.values (some k) =
        subst (IsGreatest h.values) e (top-IsGreatest h v).0 in
      let same : (pop (settle h)).values ≡ remove k h.values =
        ap (λ (t : LazyHeap P K). (pop_settled t t.current).values) again
        ∙ pop-values (settle h) c k e in
      omega (arith, ap length same, length-remove-lt k h.values greatest.0 greatest.1)

  -- The top key stays when it is looked at again.
  pub top_again : (h : LazyHeap P K) → (top (top h).0).1 ≡ (top h).1
  unfolding top settle
  top_again h =
      ap (λ (p : List (P × K) × List (P × K)). peek_key p.0)
        (cancel_again (cancel h.current h.stale).0 (cancel h.current h.stale).1
          (cancel-HeadsDiffer h.current h.stale))
