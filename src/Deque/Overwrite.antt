-- ===== src/Deque/Overwrite.antt =====
-- A push that does not fit overwrites tasks that are not stolen.
use native.Mathlib.Nat as N
use farsight.Prelude.{
  ℕ, ◌+◌, ◌-◌, ◌%◌, ◌≤◌, ◌<◌, ◌≡◌, ap, sym, ◌∙◌, List, Option, length, get_elem?, arith,
}
use farsight.Words.{wrap}
use farsight.Deque.{Deque, slot, segments, split_range, copy_tasks, make_room, push, read, copy_seg}
use farsight.Deque.Push.{
  IsPower-pos, slot-mod, slot-wrap, Holds, make_room-Holds, write_tasks, push-write_tasks,
}

module _ {T : Type 0} where
  overwritten :
      (task : List T) (cells : ℕ → Option T) (cap r d : ℕ)
      → r < cap
      → d ≤ cap
      → length task ≤ cap
      → cap < d + length task
      → copy_tasks task cells (segments cap (wrap r cap d) (length task)) r
        ≡ get_elem? task (cap - d)
  unfolding copy_tasks copy_seg
  overwritten task cells cap r d h1 h2 h3 h4 = ground arith

  write_tasks_overwrites :
      (history : List T) (d : Deque T) (task : List T)
      → Holds history d
      → length task ≤ d.buffer.cap
      → d.consumed + d.buffer.cap < d.produced + length task
      → read (write_tasks d task).buffer d.consumed
        ≡ get_elem? task (d.buffer.cap - (d.produced - d.consumed))
  unfolding write_tasks split_range
  write_tasks_overwrites history d task h le more =
      let cap = d.buffer.cap in
      let held = d.produced - d.consumed in
      let at_end : slot cap d.produced ≡ wrap (d.consumed % cap) cap held =
        ap (slot cap) (omega (arith, h.ordered))
        ∙ slot-wrap cap d.consumed held h.power (omega (arith, h.bounded)) in
      let len : d.produced + length task - d.produced ≡ length task = omega arith in
      rw (len, at_end, slot-mod cap d.consumed h.power)
        (overwritten task d.buffer.cells cap (d.consumed % cap) held
          (N.mod-lt d.consumed (IsPower-pos cap h.power)) (omega (arith, h.bounded)) le
          (omega (arith, h.ordered)))

  write_tasks_overwrites_at :
      (history : List T) (d : Deque T) (task : List T) (c p : ℕ)
      → Holds history d
      → d.consumed ≡ c
      → d.produced ≡ p
      → length task ≤ d.buffer.cap
      → d.consumed + d.buffer.cap < d.produced + length task
      → read (write_tasks d task).buffer c ≡ get_elem? task (d.buffer.cap - (p - c))
  write_tasks_overwrites_at history d task c p h ec ep le more =
      let place : d.buffer.cap - (d.produced - d.consumed) ≡ d.buffer.cap - (p - c) =
        omega (arith, ec, ep) in
      ap (read (write_tasks d task).buffer) (sym ec)
      ∙ write_tasks_overwrites history d task h le more
      ∙ ap (get_elem? task) place

  -- `push` tests only that one cell is free. Let the queue hold a history, and let the pushed tasks
  -- be no more than the buffer behind `make_room` has cells, but more than it has free. Then the
  -- cell of the oldest task that is not stolen holds one of the pushed tasks after the push.
  pub push_overwrites_oldest :
      (history : List T) (d : Deque T) (task : List T)
      → Holds history d
      → length task ≤ (make_room d).buffer.cap
      → d.consumed + (make_room d).buffer.cap < d.produced + length task
      → read (push d task).buffer d.consumed
        ≡ get_elem? task ((make_room d).buffer.cap - (d.produced - d.consumed))
  push_overwrites_oldest history d task h le more =
      let (h', r) = make_room-Holds history d h in
      rw (push-write_tasks d task) (
        write_tasks_overwrites_at history (make_room d) task d.consumed d.produced h' r.consumed
          r.produced le (omega (arith, more, r.consumed, r.produced)))
