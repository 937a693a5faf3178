-- ===== src/PrefixState/Tests.antt =====
-- Runs of the prefix bitmap, and its theorems at concrete states.
use farsight.Prelude.{◌≡◌, refl, [], ◌∷◌, some, arith}
use farsight.External.{list_rng}
use farsight.PrefixState.{PrefixState, new, is_unscanned, mark_scanned, fetch_unscanned}
use farsight.PrefixState.Invariant.{IsValid, new-IsValid, mark_scanned-IsValid}
use farsight.PrefixState.Fetch.{Fetched, fetch_unscanned-Fetched}

marked : PrefixState
marked = (mark_scanned new 9).0

marked-IsValid : IsValid marked
unfolding marked
marked-IsValid = mark_scanned-IsValid new 9 new-IsValid (omega arith)

fetch_runs : (fetch_unscanned list_rng marked (9 ∷ 9 ∷ 77 ∷ [])).0 ≡ some 77
unfolding marked mark_scanned new fetch_unscanned is_unscanned
fetch_runs = refl

fetch_unscanned-Fetched_example : Fetched marked (fetch_unscanned list_rng marked (9 ∷ [])).0
fetch_unscanned-Fetched_example = fetch_unscanned-Fetched list_rng marked (9 ∷ []) marked-IsValid
