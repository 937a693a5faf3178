-- ===== src/Writer/Tests.antt =====
-- Three hits in two rounds; the first round fills the batch.
use farsight.Prelude.{ℕ, ◌≡◌, refl, List, [], ◌∷◌, none, arith}
use farsight.Writer.{
  Wake, received, housekeeping, spawn_database, run, flush, collect, join, spawn_write, write_last,
}
use farsight.Writer.Written.{hits, concat, AllFilled, spawn_database-writes_all}

abbrev rounds : List (ℕ × Wake ℕ)
rounds = (1, received 7 (8 ∷ [])) ∷ (2, housekeeping) ∷ (3, received 9 []) ∷ []

two_batches : (spawn_database 100 2 0 rounds).writes ≡ (7 ∷ 8 ∷ []) ∷ (9 ∷ []) ∷ []
unfolding spawn_database run flush collect join spawn_write write_last
two_batches = refl

spawn_database-writes_all_example :
    (concat (spawn_database 100 2 0 rounds).writes ≡ hits rounds)
    × AllFilled (spawn_database 100 2 0 rounds).writes
    × ((spawn_database 100 2 0 rounds).batch ≡ [])
    × ((spawn_database 100 2 0 rounds).write_task ≡ none)
spawn_database-writes_all_example = spawn_database-writes_all 100 2 0 rounds (omega arith)
