-- ===== src/External.antt =====
-- The crates that the program calls, as interfaces: what it uses of them, and what it relies on.
use farsight.Prelude.{◌+◌, ℕ, ◌≤◌, Bool, List, [], ◌∷◌, arith, leb, ltb, ◌/◌, if◌then◌else◌}
use farsight.Std.Eq.{nat_pair_order}

-- `rand::Rng`, with its state passed on. `random_range` is over both ends.
pub record Rng : Type 1 where
  pub State : Type 0
  pub random_range : ℕ → ℕ → State → ℕ × State
  pub random_range_within :
      (lo hi : ℕ) (g : State)
      → lo ≤ hi
      → (lo ≤ (random_range lo hi g).0) × ((random_range lo hi g).0 ≤ hi)
  -- `rng.random_range(0f64..=1f64) >= epsilon`, for the program's one `epsilon` at each call.
  pub at_least_epsilon : State → Bool × State

-- A generator that reads its draws from a list; 0 is brought up to the range when none is left.
abbrev pub next_draw : List ℕ → ℕ × List ℕ
next_draw [] = (0, [])
next_draw (x ∷ xs) = (x, xs)

abbrev pub clamp : ℕ → ℕ → ℕ → ℕ
clamp lo hi x = if leb lo x then (if leb x hi then x else hi) else lo

pub clamp_within : (lo hi x : ℕ) → lo ≤ hi → (lo ≤ clamp lo hi x) × (clamp lo hi x ≤ hi)
clamp_within lo hi x h = ground arith

abbrev pub list_rng : Rng
list_rng = record {
  State = List ℕ;
  random_range = λ lo hi g. (clamp lo hi (next_draw g).0, (next_draw g).1);
  random_range_within = λ lo hi g h. clamp_within lo hi (next_draw g).0 h;
  at_least_epsilon = λ g. (leb 1 (next_draw g).0, (next_draw g).1);
}

-- `f64` as far as the scores and probabilities need it.
pub record FloatOps (F : Type 0) : Type 0 where
  -- `n as f64`
  pub from_u64 : ℕ → F
  pub add : F → F → F
  pub div : F → F → F
  -- `a > b`
  pub gt : F → F → Bool

-- Natural numbers in the place of floats, for runs.
abbrev pub nat_floats : FloatOps ℕ
nat_floats = record { from_u64 = λ n. n; add = ◌+◌; div = ◌/◌; gt = λ a b. ltb b a }
