-- ===== src/Deque/Stealer.antt =====
-- farsight/src/controller/deque/stealer.rs, `steal` and `steal_batch`, as four steps each: the
-- load of `consumed`, the load of `produced`, the copy from the buffer, and the compare-and-swap. Any steps of the
-- worker and of other stealers may come between.
use farsight.Prelude.{
  ℕ, zero, suc, ◌+◌, ◌-◌, ◌/◌, ◌&&◌, List, [], ◌∷◌, ◌++◌, Option, none, ltb, ◌==◌, if◌then◌else◌,
  min,
}
use farsight.Deque.{Buffer, Deque, slot, read, copy_seg, new, push}

-- `steal`, or `steal_batch` into a vector of some capacity.
pub data Call : Type 0 where
  one : Call
  batch : ℕ → Call

-- How far a stealer is: between calls; with `f`; with `f` and the size of the batch; or with these,
-- the buffer that it read and what it copied.
pub data Phase (T : Type 0) : Type 0 where
  idle : Phase T
  began : Call → ℕ → Phase T
  loaded : Call → ℕ → ℕ → Phase T
  copied : ℕ → ℕ → ℕ → (ℕ → Option T) → Phase T

pub data Steal (T : Type 0) : Type 0 where
  empty retry : Steal T
  success : List (Option T) → Steal T

unfoldable pub batch_size : Call → ℕ → ℕ
batch_size one len = min len 1
batch_size (batch capacity) len = min ((len + 1) / 2) capacity

module _ {T : Type 0} where
  -- The load of `produced`, with `consumed` loaded as `f`.
  unfoldable pub load : Deque T → Call → ℕ → Phase T
  unfolding batch_size
  load d call f =
      let n = batch_size call (d.produced - f) in if n == 0 then idle else loaded call f n

  -- What the stealer has in its hands before it claims it: `read(f)`, or the segments in `dest`.
  unfoldable pub copy_out : Buffer T → Call → ℕ → ℕ → ℕ → Option T
  unfolding copy_seg
  copy_out buffer one f n = λ x. read buffer f
  copy_out buffer (batch capacity) f n =
      let i = slot buffer.cap f in
      let dest : ℕ → Option T = λ x. none in
      if ltb buffer.cap (i + n)
      then (let l1 = buffer.cap - i in
          copy_seg buffer.cells (copy_seg buffer.cells dest i 0 l1) 0 l1 (n - l1))
      else copy_seg buffer.cells dest i 0 n

  -- The vector of the first `n` cells from `start` on, after `set_len`.
  unfoldable pub cells_list : (ℕ → Option T) → ℕ → ℕ → List (Option T)
  cells_list cells start zero = []
  cells_list cells start (suc n) = cells start ∷ cells_list cells (start + 1) n

  unfoldable pub claim : Deque T → ℕ → ℕ → ℕ → (ℕ → Option T) → Deque T × Steal T
  unfolding cells_list
  claim d f n identity dest =
      if d.buffer.identity == identity && d.consumed == f
      then (record d { consumed = f + n }, success (cells_list dest 0 n))
      else (d, retry)

-- The queue with its stealers, and all that they have stolen, in the order of their claims.
pub record System (T : Type 0) : Type 0 where
  pub deque : Deque T
  pub phases : ℕ → Phase T
  pub taken : List (Option T)

pub data Event (T : Type 0) : Type 0 where
  push_event : List T → Event T
  -- The next step of one stealer; a new call is as given.
  steal_event : ℕ → Call → Event T

module _ {T : Type 0} where
  abbrev pub set_phase : (ℕ → Phase T) → ℕ → Phase T → ℕ → Phase T
  set_phase phases id p j = if j == id then p else phases j

  abbrev pub add_taken : List (Option T) → Steal T → List (Option T)
  add_taken taken (success tasks) = taken ++ tasks
  add_taken taken _ = taken

  -- The step of the stealer `id` from its phase.
  unfoldable pub advance : System T → ℕ → Call → Phase T → System T
  unfolding load copy_out claim
  advance s id call idle = record s { phases = set_phase s.phases id (began call s.deque.consumed) }
  advance s id call (began c f) = record s { phases = set_phase s.phases id (load s.deque c f) }
  advance s id call (loaded c f n) = record s {
    phases =
        set_phase s.phases id (copied f n s.deque.buffer.identity (copy_out s.deque.buffer c f n));
  }
  advance s id call (copied f n identity dest) =
      let (d, result) = claim s.deque f n identity dest in
      record { deque = d; phases = set_phase s.phases id idle; taken = add_taken s.taken result }

  unfoldable pub step : System T → Event T → System T
  unfolding advance push
  step s (push_event task) = record s { deque = push s.deque task }
  step s (steal_event id call) = advance s id call (s.phases id)

  unfoldable pub run : System T → List (Event T) → System T
  unfolding step
  run s [] = s
  run s (e ∷ es) = run (step s e) es

  unfoldable pub start : System T
  unfolding new
  start = record { deque = new; phases = λ id. idle; taken = [] }

  -- What a sequence of events pushes.
  abbrev pub pushed : List (Event T) → List T
  pushed [] = []
  pushed (push_event task ∷ es) = task ++ pushed es
  pushed (steal_event id call ∷ es) = pushed es
