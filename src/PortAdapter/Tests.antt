-- ===== src/PortAdapter/Tests.antt =====
-- A run of the port strategy, and its theorems at a small adapter.
use farsight.Prelude.{ℕ, ◌≡◌, refl, [], ◌∷◌, none, some}
use farsight.Std.Eq.{nat_eq, nat_pair_order}
use farsight.Std.Map.{lookup, insert}
use farsight.Std.Counting.{Unique}
use farsight.External.{list_rng, nat_floats}
use farsight.LazyHeap.{empty}
use farsight.PortAdapter.{
  State, single, PmapPortAdapter, template, recorded, record_empty, pay, continue, answer, sample,
  explore, explore_loop, next_port, on_result, guard, pop_state, generate, expire,
}
use farsight.LazyHeap.Invariant.{empty-IsValid}
use farsight.PortAdapter.Untried.{New, on_result-New}
use farsight.PortAdapter.Pool.{
  Adds, Ends, Generated, Expired, on_result-Ends, guard-generate-Generated, expire-Expired,
}

abbrev fresh : State ℕ
fresh = record {
  tried_ports = [];
  heap = empty;
  recommendation_index = 0;
  budget_remaining = 1;
  seen_responses = [];
}

-- One address in flight, one state free, out of two.
abbrev adapter : PmapPortAdapter ℕ
adapter = record {
  states = (7, fresh) ∷ [];
  allocated_states = fresh ∷ [];
  held = 0;
  capacity = 2;
  graph = record {
    singles = [];
    doubles = [];
    total = 1;
    recommendations = 80 ∷ [];
    threshold = 3;
  };
  budget_per_address = 5;
  source_port = single 4000;
}

adapter-Adds : Adds nat_floats list_rng 0 adapter
unfolding Unique lookup
adapter-Adds = record { unique = (refl, tt); sum = refl }

on_result-Ends_example :
    Ends nat_floats list_rng (on_result nat_floats list_rng 9 adapter 7 80 none [])
on_result-Ends_example = on_result-Ends nat_floats list_rng 9 adapter 7 80 none [] adapter-Adds

guard-generate-Generated_example :
    Generated nat_floats list_rng
      (generate nat_floats list_rng (record adapter { allocated_states = []; held = 1 }) fresh 7 [])
unfolding guard pop_state
guard-generate-Generated_example =
    guard-generate-Generated nat_floats list_rng adapter
      (record adapter { allocated_states = []; held = 1 }) fresh 7 [] adapter-Adds refl

expire-Expired_example :
    Expired nat_floats list_rng (expire nat_floats list_rng 4 9 adapter ((3, 7) ∷ (8, 6) ∷ []))
expire-Expired_example =
    expire-Expired nat_floats list_rng 4 9 adapter ((3, 7) ∷ (8, 6) ∷ []) adapter-Adds

-- With budget left, the answer to an empty port 80 is a template for a drawn port.
abbrev paid : PmapPortAdapter ℕ
paid = record adapter { states = (7, record fresh { budget_remaining = 3 }) ∷ [] }

paid_there : lookup 7 paid.states ≡ some (record fresh { budget_remaining = 3 })
unfolding lookup
paid_there = refl

on_result-New_example :
    New nat_floats list_rng
      (80 ∷ [])
      (on_result nat_floats list_rng 9 paid 7 80 none (0 ∷ 80 ∷ 443 ∷ []))
on_result-New_example =
    on_result-New nat_floats list_rng 9 paid 7 80 none (0 ∷ 80 ∷ 443 ∷ [])
      (record fresh { budget_remaining = 3 }) paid_there empty-IsValid

on_result_runs :
    (on_result nat_floats list_rng 9 paid 7 80 none (0 ∷ 80 ∷ 443 ∷ [])).2 ≡ template 4000 7 443
unfolding on_result recorded record_empty pay continue answer sample explore explore_loop next_port
    lookup insert
on_result_runs = refl
