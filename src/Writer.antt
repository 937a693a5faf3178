-- ===== src/Writer.antt =====
-- farsight/src/controller/session.rs: the loop of `spawn_printer_and_database`, which collects the hits
-- and writes them to the database in batches. The printer and the expiry of ports run beside it.
pub mod Written
mod Tests
use farsight.Prelude.{
  ℕ, zero, suc, ◌+◌, ◌-◌, Bool, true, false, not, ◌&&◌, ◌||◌, List, [], ◌∷◌, ◌++◌, Option, none,
  some, leb, ◌==◌, length, if◌then◌else◌,
}

-- What ends the wait of a round: a hit, with those that `try_recv` gets behind it; or the interval.
pub data Wake (S : Type 0) : Type 0 where
  received : S → List S → Wake S
  housekeeping : Wake S

-- `writes` are the batches given to `write_many`, the last of them perhaps still in `write_task`.
pub record Writer (S : Type 0) : Type 0 where
  pub batch : List S
  pub last_flush : ℕ
  pub write_task : Option (List S)
  pub writes : List (List S)

module _ {S : Type 0} where
  -- `batch.push`
  unfoldable pub collect : Writer S → Wake S → Writer S
  collect w (received scanling more) = record w { batch = w.batch ++ scanling ∷ more }
  collect w housekeeping = w

  -- `write_task.take()`, awaited: the batch is written.
  unfoldable pub join : Option (List S) → Writer S → Writer S
  join none w = w
  join (some batch) w = record w { write_task = none; writes = w.writes ++ batch ∷ [] }

  -- The flush of a round at the time `now`, behind its test.
  unfoldable pub spawn_write : ℕ → Writer S → Writer S
  spawn_write now w = record (join w.write_task w) {
    batch = [];
    write_task = some w.batch;
    last_flush = now;
  }

  unfoldable pub flush : ℕ → ℕ → ℕ → Writer S → Writer S
  flush flush_interval flush_capacity now w =
      if leb flush_capacity (length w.batch)
        || (not (length w.batch == 0) && leb flush_interval (now - w.last_flush))
      then spawn_write now w
      else w

  -- The rounds until the queue is closed, each with its time.
  unfoldable pub run : ℕ → ℕ → List (ℕ × Wake S) → Writer S → Writer S
  run flush_interval flush_capacity [] w = w
  run flush_interval flush_capacity ((now, wake) ∷ rest) w =
      run flush_interval flush_capacity rest
        (flush flush_interval flush_capacity now (collect w wake))

  -- What comes behind the loop: the last batch.
  unfoldable pub write_last : Writer S → Writer S
  write_last w =
      if length w.batch == 0 then w else record w { batch = []; writes = w.writes ++ w.batch ∷ [] }

  -- `spawn_printer_and_database`, from the time that it is started at.
  unfoldable pub spawn_database : ℕ → ℕ → ℕ → List (ℕ × Wake S) → Writer S
  spawn_database flush_interval flush_capacity now rounds =
      let start : Writer S = record {
        batch = [];
        last_flush = now;
        write_task = none;
        writes = [];
      } in
      let w = run flush_interval flush_capacity rounds start in write_last (join w.write_task w)
