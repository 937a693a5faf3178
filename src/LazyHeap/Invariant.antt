-- ===== src/LazyHeap/Invariant.antt =====
-- What ties the three parts of a `LazyHeap` together, and that every method keeps it.
use farsight.Prelude.{
  ℕ, ◌+◌, ◌≡◌, refl, inl, inr, List, [], ◌∷◌, none, some, arith, if◌then◌else◌, Option-cases,
}
use farsight.Std.Eq.{Eq, LinearOrder}
use farsight.Std.Map.{lookup, lookup-insert}
use farsight.Std.BinaryHeap.{same, Descending, count, Below-Descending, push-Descending, count-push}
use farsight.LazyHeap.{LazyHeap, empty, cancel, settle, update}

module _ {ℓ} {P K : Type ℓ} ⦃e : Eq K⦄ ⦃o : LinearOrder (P × K)⦄ where
  -- Whether the map holds just this entry, as a number.
  abbrev pub held : List (K × P) → P × K → ℕ
  held values x = elim (lookup x.1 values) [ none ↦ 0 | some p ↦ if same x (p, x.1) then 1 else 0 ]

  -- Both heaps are heaps, and `current` holds the entries of the map and those of `stale`, each as
  -- often as these two together.
  pub record IsValid (h : LazyHeap P K) : Type ℓ where
    pub current_heap : Descending h.current
    pub stale_heap : Descending h.stale
    pub balance : (x : P × K) → count x h.current ≡ count x h.stale + held h.values x

  pub empty-IsValid : IsValid empty
  unfolding empty count lookup
  empty-IsValid = record { current_heap = tt; stale_heap = tt; balance = λ x. refl }

  update-balance :
      (h : LazyHeap P K) (key : K) (value : P) (x : P × K)
      → count x h.current ≡ count x h.stale + held h.values x
      → count x (update h key value).current
        ≡ count x (update h key value).stale + held (update h key value).values x
  unfolding update
  update-balance h key value x b = elim (Option-cases (lookup key h.values)) [
    | inl fresh ↦ ground (
      arith,
      count-push x (value, key) h.current,
      lookup-insert key x.1 value h.values,
      e.equal_iff key x.1,
      o.leq_antisymm x (value, key),
    )
    | inr (old, there) ↦ ground (
      arith,
      count-push x (value, key) h.current,
      count-push x (old, key) h.stale,
      lookup-insert key x.1 value h.values,
      e.equal_iff key x.1,
      o.leq_antisymm x (value, key),
      o.leq_antisymm x (old, key),
    )
  ]

  pub update-IsValid :
      (h : LazyHeap P K) (key : K) (value : P) → IsValid h → IsValid (update h key value)
  unfolding update
  update-IsValid h key value v = record {
    current_heap = push-Descending (value, key) h.current v.current_heap;
    stale_heap = elim (Option-cases (lookup key h.values)) [
      | inl fresh ↦ rw (fresh, Descending) v.stale_heap
      | inr (old, there) ↦ rw (there, Descending) (push-Descending (old, key) h.stale v.stale_heap)
    ];
    balance = λ x. update-balance h key value x (v.balance x);
  }

  cancel-heaps :
      (c s : List (P × K))
      → Descending c
      → Descending s
      → Descending (cancel c s).0 × Descending (cancel c s).1
  unfolding cancel
  cancel-heaps [] s dc ds = (tt, ds)
  cancel-heaps (c ∷ cs) [] dc ds = (dc, tt)
  cancel-heaps (c ∷ cs) (s ∷ ss) dc ds =
      ground (arith, cancel-heaps cs ss (Below-Descending c cs dc) (Below-Descending s ss ds))

  -- Cancelling takes every entry from both heaps equally often.
  cancel-count :
      (x : P × K) (c s : List (P × K))
      → count x (cancel c s).0 + count x s ≡ count x c + count x (cancel c s).1
  unfolding cancel count
  cancel-count x [] s = omega arith
  cancel-count x (c ∷ cs) [] = omega arith
  cancel-count x (c ∷ cs) (s ∷ ss) = ground (arith, cancel-count x cs ss, o.leq_antisymm c s)

  pub settle-IsValid : (h : LazyHeap P K) → IsValid h → IsValid (settle h)
  unfolding settle
  settle-IsValid h v = record {
    current_heap = (cancel-heaps h.current h.stale v.current_heap v.stale_heap).0;
    stale_heap = (cancel-heaps h.current h.stale v.current_heap v.stale_heap).1;
    balance = λ x. omega (arith, cancel-count x h.current h.stale, v.balance x);
  }
