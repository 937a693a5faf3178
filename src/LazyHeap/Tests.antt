-- ===== src/LazyHeap/Tests.antt =====
-- Runs of the lazy heap, and its theorems at a heap with a stale entry.
use farsight.Prelude.{ℕ, ◌≡◌, refl, none, some, if◌then◌else◌}
use farsight.Std.Eq.{nat_eq, nat_pair_order, ◌==◌}
use farsight.Std.BinaryHeap.{push}
use farsight.Std.Map.{lookup, insert, remove}
use farsight.LazyHeap.{LazyHeap, empty, query, top, pop, update}
use farsight.LazyHeap.Invariant.{IsValid, empty-IsValid, update-IsValid}
use farsight.LazyHeap.Top.{IsGreatest, top-IsGreatest, pop-removes_top}

-- Port 80 at 9, then 443 at 5, then 80 lowered to 2.
built : LazyHeap ℕ ℕ
built = update (update (update empty 80 9) 443 5) 80 2

built-IsValid : IsValid built
unfolding built
built-IsValid = update-IsValid _ 80 2 (update-IsValid _ 443 5 (update-IsValid _ 80 9 empty-IsValid))

top_runs : (top built).1 ≡ some 443
unfolding built top update empty push lookup insert
top_runs = refl

pop_runs : (top (pop built)).1 ≡ some 80
unfolding built top pop update empty push lookup insert remove
pop_runs = refl

top-IsGreatest_example :
    IsGreatest built.values (top built).1
    × ((top built).0.values ≡ built.values)
    × IsValid (top built).0
top-IsGreatest_example = top-IsGreatest built built-IsValid

pop-removes_top_example :
    IsValid (pop built)
    × ((j : ℕ)
        → query (pop built) j ≡ elim (top built).1 [
          | none ↦ query built j
          | some k ↦ if k == j then none else query built j
        ])
pop-removes_top_example = pop-removes_top built built-IsValid
