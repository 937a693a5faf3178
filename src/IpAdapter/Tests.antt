-- ===== src/IpAdapter/Tests.antt =====
-- Runs of the address adapter, and its theorems at a small session.
use farsight.Prelude.{ℕ, ◌-◌, ◌≡◌, refl, true, false, List, [], ◌∷◌, arith, mem, Distinct}
use farsight.Std.Eq.{nat_eq, nat_pair_order}
use farsight.Std.Map.{lookup, insert, remove}
use farsight.Std.BinaryHeap.{push}
use farsight.External.{list_rng, nat_floats}
use farsight.Range.{RangeInclusive, compile, compile_loop, index, search_loop}
use farsight.Range.Spec.{covers, Ascending}
use farsight.Range.Index.{index-enumerates}
use farsight.LazyHeap.{empty, query, top, pop, update, settle, cancel}
use farsight.PrefixState.{
  new, is_unscanned, mark_scanned, fetch_unscanned, fetch_loop, find_unscanned,
}
use farsight.IpAdapter.{
  entry, historical_score, pick_in_prefix, sweep_at, next_loop, or_pick, or_next, try_pick_loop,
  try_pick, next, next_address, on_result,
}
use farsight.IpAdapter.Session.{new_adapter, new_adapter_lem, Permutes, Steps, next_address-Steps}
use farsight.IpAdapter.Draws.{
  Event, draw, hit, Drawing, step, run, start, run-draws_each_once, run-draws_all,
}
use farsight.IpAdapter.Outside.{run-draws_outside}

-- Three addresses, in one /24.
abbrev small : List RangeInclusive
small = record { start = 0; last = 2 } ∷ []

abbrev backwards : ℕ → ℕ
backwards i = 2 - i

backwards-Permutes : Permutes (compile small).count backwards
unfolding compile compile_loop
backwards-Permutes = record {
  within = λ i lt. omega arith;
  onto = λ j lt. (2 - j, omega arith, omega arith);
}

-- A generator whose draws are all 0 explores, so the sweep runs; from 1 on a draw exploits.
session : List ℕ → List Event → Drawing nat_floats list_rng backwards
session g = run nat_floats list_rng backwards (start nat_floats list_rng backwards small [] g)

abbrev three_draws : List Event
three_draws = draw ∷ hit 2 ∷ draw ∷ draw ∷ []

-- The fourth draw finds the sweep at its end and returns 0.0.0.3, which is in no range.
sweep_runs :
    ((session [] three_draws).drawn ≡ 0 ∷ 1 ∷ 2 ∷ [])
    × ((session [] (draw ∷ three_draws)).drawn ≡ 3 ∷ 0 ∷ 1 ∷ 2 ∷ [])
unfolding session run step start next_address next next_loop compile index search_loop compile_loop
    sweep_at or_pick or_next try_pick try_pick_loop pick_in_prefix mark_scanned entry query update
    on_result historical_score new_adapter lookup insert push remove new top settle cancel pop
    is_unscanned fetch_unscanned fetch_loop find_unscanned empty
sweep_runs = (refl, refl)

small-Ascending : Ascending 0 small
small-Ascending = omega arith

next_address-Steps_example :
    let a = new_adapter {F = ℕ} (compile small) [] in
    Steps nat_floats list_rng backwards a 0 (next_address nat_floats list_rng backwards a 0 [])
unfolding new_adapter
next_address-Steps_example =
    next_address-Steps nat_floats list_rng backwards (new_adapter (compile small) []) 0 []
      (new_adapter_lem (compile small) []).0
      (λ i lt.
        let (a, e, c) =
          (index-enumerates small small-Ascending).0 (backwards i)
            (backwards-Permutes.within i lt) in
        (a, e))

run-draws_each_once_example : Distinct (session [] three_draws).drawn
unfolding session
run-draws_each_once_example =
    run-draws_each_once nat_floats list_rng backwards small [] [] three_draws small-Ascending
      backwards-Permutes

run-draws_all_example : mem 1 (session [] three_draws).drawn ≡ true
unfolding session run step start next_address next next_loop compile index search_loop compile_loop
    sweep_at or_pick or_next try_pick try_pick_loop pick_in_prefix mark_scanned entry query update
    on_result historical_score new_adapter lookup insert push remove new top settle cancel pop
    is_unscanned fetch_unscanned fetch_loop find_unscanned empty
run-draws_all_example =
    run-draws_all nat_floats list_rng backwards small [] [] three_draws 1 small-Ascending
      backwards-Permutes (omega arith) refl

-- The sweep is at its end, and the /24 of the ranges is on top of the heap.
run-draws_outside_example :
    let s = session [] three_draws in
    (addr : ℕ) × ((step nat_floats list_rng backwards s draw).drawn ≡ addr ∷ s.drawn)
    × (covers small addr ≡ false)
unfolding session run step start next_address next next_loop compile index search_loop compile_loop
    sweep_at or_pick or_next try_pick try_pick_loop pick_in_prefix mark_scanned entry query update
    on_result historical_score new_adapter lookup insert push remove new top settle cancel pop
    is_unscanned fetch_unscanned fetch_loop find_unscanned empty
run-draws_outside_example =
    run-draws_outside nat_floats list_rng backwards small [] [] three_draws 0 small-Ascending
      backwards-Permutes (omega arith) refl refl
