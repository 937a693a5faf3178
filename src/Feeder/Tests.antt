-- ===== src/Feeder/Tests.antt =====
-- Ticks of a feeder over addresses that count down to none.
use farsight.Prelude.{
  ℕ, zero, suc, ◌+◌, ◌≡◌, refl, true, List, [], ◌∷◌, ◌++◌, Option, none, some, arith,
}
use farsight.Feeder.{Strategies, Feeder, tick, feed_loop, feed_guarded, feed, finish}
use farsight.Feeder.Batches.{Batched, tick-Batched}

-- The addresses left, and what the queue was given.
abbrev next_down : ℕ × List ℕ → Option ℕ × (ℕ × List ℕ)
next_down (zero, pushed) = (none, (0, pushed))
next_down (suc n, pushed) = (some n, (n, pushed))

abbrev counting : Strategies
counting = record {
  World = ℕ × List ℕ;
  Probe = ℕ;
  guard = λ w. (true, w);
  next_address = next_down;
  generate = λ addr w. (addr + 100, w);
  batch = λ probes entries w. (w.0, w.1 ++ probes);
}

abbrev fresh : ℕ → Feeder counting
fresh n = record {
  world = (n, []);
  start = 0;
  duration = 50;
  timeout = 9;
  batch_size = 2;
  result_batch = [];
  expiries_batch = [];
}

two_pushed : (tick counting 1 (fresh 3)).1.world ≡ (1, 102 ∷ 101 ∷ [])
unfolding tick feed_loop feed_guarded feed finish
two_pushed = refl

-- With the addresses at their end, the probe of this tick is not pushed.
last_dropped :
    ((tick counting 1 (fresh 1)).0 ≡ true)
    × ((tick counting 1 (fresh 1)).1.result_batch ≡ 100 ∷ [])
    × ((tick counting 1 (fresh 1)).1.world ≡ (0, []))
unfolding tick feed_loop feed_guarded feed finish
last_dropped = (refl, refl, refl)

tick-Batched_example : Batched counting 10 2 (tick counting 1 (fresh 3)).1
tick-Batched_example = tick-Batched counting 1 (fresh 3) (omega arith)
