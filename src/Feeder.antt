-- ===== src/Feeder.antt =====
-- farsight/src/controller/feeder.rs: the batches of probes for the queue. The strategies and the queue
-- are the traits `PortGenerator`, `PortGenerationGuard`, `IpAdapter` and `PortBatcher`.
pub mod Batches
mod Tests
use farsight.Prelude.{
  ℕ, zero, suc, ◌+◌, ◌-◌, ◌≤◌, Bool, true, false, List, [], ◌∷◌, ◌++◌, Option, none, some, leb,
  if◌then◌else◌,
}

-- `guard`, `next_address`, `generate` and `batch`, with the states of the strategies, the generator and
-- the queue in one. A probe is what `generate` returns for an address.
pub record Strategies : Type 1 where
  pub World : Type 0
  pub Probe : Type 0
  pub guard : World → Bool × World
  pub next_address : World → Option ℕ × World
  pub generate : ℕ → World → Probe × World
  pub batch : List Probe → List (ℕ × ℕ) → World → World

module _ (s : Strategies) where
  open s use {World, Probe, guard, next_address, generate, batch}

  pub record Feeder : Type 0 where
    pub world : World
    pub start : ℕ
    pub duration : ℕ
    pub timeout : ℕ
    pub batch_size : ℕ
    pub result_batch : List Probe
    pub expiries_batch : List (ℕ × ℕ)

  -- One round of the loop of `tick`, behind a guard: whether the addresses are at their end.
  unfoldable pub feed : ℕ → Feeder → Option ℕ × World → Bool × Feeder
  feed timeout f (none, w) = (true, record f { world = w })
  feed timeout f (some addr, w) =
      let (result, w1) = generate addr w in
      (
        false,
        record f {
          world = w1;
          result_batch = f.result_batch ++ result ∷ [];
          expiries_batch = f.expiries_batch ++ (timeout, addr) ∷ [];
        },
      )

  unfoldable pub feed_guarded : ℕ → Feeder → Bool × World → Bool × Feeder
  feed_guarded timeout f (false, w) = (false, record f { world = w })
  feed_guarded timeout f (true, w) = feed timeout (record f { world = w }) (next_address w)

  -- The loop of `tick` with `n` rounds left: it ends early when the addresses do.
  unfoldable pub feed_loop : ℕ → ℕ → Feeder → Bool × Feeder
  unfolding feed_guarded feed
  feed_loop zero timeout f = (false, f)
  feed_loop (suc n) timeout f =
      let (ended, f1) = feed_guarded timeout f (guard f.world) in
      let rest = feed_loop n timeout f1 in if ended then (true, f1) else rest

  -- The end of `tick`: the batch goes to the queue, unless the addresses have ended.
  unfoldable pub finish : Bool × Feeder → Bool × Feeder
  finish (true, f) = (true, f)
  finish (false, f) = (false, record f { world = batch f.result_batch f.expiries_batch f.world })

  -- `tick`, at a time.
  unfoldable pub tick : ℕ → Feeder → Bool × Feeder
  unfolding feed_loop finish
  tick now f =
      let cleared : Feeder = record f { result_batch = []; expiries_batch = [] } in
      if leb f.duration (now - f.start)
      then (true, f)
      else finish (feed_loop f.batch_size (now + f.timeout) cleared)
