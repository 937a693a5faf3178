-- ===== src/LazyHeap.antt =====
-- farsight/src/controller/strategy/pmap/heap.rs, `LazyHeap`: a priority map over two binary heaps.
-- An overwritten value stays in `current` and is cancelled by an equal entry of `stale`.
pub mod Invariant
pub mod Top
mod Tests
use farsight.Prelude.{Bool, true, false, List, [], ◌∷◌, Option, none, some, if◌then◌else◌}
use farsight.Std.Eq.{Eq, LinearOrder}
use farsight.Std.Map.{lookup, insert, remove}
use farsight.Std.BinaryHeap.{push, same}

-- `P` stands for `f64`, which `OrderedFloat` puts in a total order.
pub record LazyHeap {ℓ} (P K : Type ℓ) : Type ℓ where
  pub values : List (K × P)
  pub current : List (P × K)
  pub stale : List (P × K)

module _ {ℓ} {P K : Type ℓ} where
  -- `BinaryHeap::peek` with the key of the entry.
  abbrev pub peek_key : List (P × K) → Option K
  peek_key [] = none
  peek_key ((p, k) ∷ h) = some k

  -- `LazyHeap::clear`, and `Default`.
  unfoldable pub empty : LazyHeap P K
  empty = record { values = []; current = []; stale = [] }

module _ {ℓ} {P K : Type ℓ} ⦃e : Eq K⦄ where
  unfoldable pub query : LazyHeap P K → K → Option P
  query h k = lookup k h.values

module _ {ℓ} {P K : Type ℓ} ⦃e : Eq K⦄ ⦃o : LinearOrder (P × K)⦄ where
  -- The loop of `_top`: it cancels equal heads of `current` and `stale`.
  unfoldable pub cancel : List (P × K) → List (P × K) → List (P × K) × List (P × K)
  cancel [] stale = ([], stale)
  cancel (c ∷ current) [] = (c ∷ current, [])
  cancel (c ∷ current) (s ∷ stale) =
      if same c s then cancel current stale else (c ∷ current, s ∷ stale)

  unfoldable pub settle : LazyHeap P K → LazyHeap P K
  unfolding cancel
  settle h =
      let (current, stale) = cancel h.current h.stale in
      record h { current = current; stale = stale }

  -- The methods return the heap and their result.
  unfoldable pub top : LazyHeap P K → LazyHeap P K × Option K
  unfolding settle
  top h = let h' = settle h in (h', peek_key h'.current)

  abbrev pub pop_settled : LazyHeap P K → List (P × K) → LazyHeap P K
  pop_settled h [] = h
  pop_settled h ((p, k) ∷ rest) = record h { values = remove k h.values; current = rest }

  unfoldable pub pop : LazyHeap P K → LazyHeap P K
  unfolding settle
  pop h = let h' = settle h in pop_settled h' h'.current

  unfoldable pub update : LazyHeap P K → K → P → LazyHeap P K
  update h key value = record {
    values = insert key value h.values;
    current = push (value, key) h.current;
    stale = elim (lookup key h.values) [ none ↦ h.stale | some old ↦ push (old, key) h.stale ];
  }
