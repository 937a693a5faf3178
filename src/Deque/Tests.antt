-- ===== src/Deque/Tests.antt =====
-- Runs of the queue, and its theorems at concrete sequences of steps.
use farsight.Prelude.{
  ℕ, ◌-◌, ◌≡◌, ◌≤◌, refl, List, [], ◌∷◌, ◌++◌, some, map, take, length, replicate, get_elem?, arith,
}
use farsight.Deque.{Deque, new, push, read, make_room, split_range, copy_tasks, copy_seg, alloc}
use farsight.Deque.Push.{Holds, new-Holds, push-Holds}
use farsight.Deque.Overwrite.{push_overwrites_oldest}
use farsight.Deque.Stealer.{
  Event, push_event, steal_event, one, batch, run, start, step, advance, load, batch_size, copy_out,
  claim, cells_list, pushed,
}
use farsight.Deque.Order.{run-steals_in_order}

-- Two stealers begin at the same place; the second of them loses the race, and begins again.
abbrev race : List (Event ℕ)
race =
    push_event (7 ∷ 8 ∷ 9 ∷ [])
    ∷ steal_event 0 (batch 10)
    ∷ steal_event 1 one
    ∷ steal_event 0 one
    ∷ steal_event 1 one
    ∷ steal_event 0 one
    ∷ steal_event 1 one
    ∷ steal_event 0 one
    ∷ push_event (5 ∷ [])
    ∷ steal_event 1 one
    ∷ steal_event 1 one
    ∷ []

race_runs : (run start race).taken ≡ some 7 ∷ some 8 ∷ []
unfolding run start step advance load batch_size copy_out claim cells_list push make_room new alloc
    split_range copy_tasks copy_seg
race_runs = refl

run-steals_in_order_example :
    ((run start race).taken ≡ map some (take (run start race).deque.consumed (pushed race)))
    × ((run start race).deque.consumed ≤ length (pushed race))
unfolding run start step advance load batch_size copy_out claim cells_list push make_room new alloc
    split_range copy_tasks copy_seg
run-steals_in_order_example = run-steals_in_order race (omega arith)

-- Sixty tasks are in a buffer of 64 cells.
nearly_full : Deque ℕ
nearly_full = push new (replicate 60 0)

nearly_full-Holds : Holds (replicate 60 0) nearly_full
unfolding nearly_full new make_room alloc
nearly_full-Holds = (push-Holds [] new (replicate 60 0) new-Holds (omega arith)).0

push-Holds_example :
    Holds (replicate 60 0 ++ 1 ∷ 2 ∷ []) (push nearly_full (1 ∷ 2 ∷ []))
    × ((push nearly_full (1 ∷ 2 ∷ [])).consumed ≡ nearly_full.consumed)
unfolding nearly_full push new make_room alloc
push-Holds_example =
    push-Holds (replicate 60 0) nearly_full (1 ∷ 2 ∷ []) nearly_full-Holds (omega arith)

push_overwrites_oldest_example :
    read (push nearly_full (replicate 8 1)).buffer nearly_full.consumed
    ≡ get_elem?
        (replicate 8 1)
        ((make_room nearly_full).buffer.cap - (nearly_full.produced - nearly_full.consumed))
unfolding nearly_full push new make_room alloc
push_overwrites_oldest_example =
    push_overwrites_oldest (replicate 60 0) nearly_full (replicate 8 1) nearly_full-Holds
      (omega arith) (omega arith)
