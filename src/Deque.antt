-- ===== src/Deque.antt =====
-- farsight/src/controller/deque: the queue between a feeder and its scanners. The worker pushes
-- batches at `produced`; stealers copy tasks from `consumed` on and claim them by a compare-and-swap.
pub mod Stealer
pub mod Ring
pub mod Push
pub mod Overwrite
pub mod Copies
pub mod Order
mod Tests
use Prim.Native.Nat.{bit_and}
use farsight.Prelude.{
  ℕ, zero, suc, ◌+◌, ◌-◌, ◌*◌, ◌/◌, ◌%◌, Bool, true, false, not, ◌&&◌, ◌||◌, List, [], ◌∷◌, Option,
  none, some, ltb, leb, ◌==◌, if◌then◌else◌, length, get_elem?, min, ◌++◌,
}

module _ {T : Type 0} where
  -- `ptr::copy_nonoverlapping`: `count` cells of `src` from `src_start` on, to `dest_start` on.
  -- Memory is a function of a cell's index; `none` is a cell that was never written.
  unfoldable pub copy_seg : (ℕ → Option T) → (ℕ → Option T) → ℕ → ℕ → ℕ → ℕ → Option T
  copy_seg src dest src_start dest_start count x =
      if leb dest_start x && ltb x (dest_start + count)
      then src (src_start + (x - dest_start))
      else dest x

pub record Buffer (T : Type 0) : Type 0 where
  pub cap : ℕ
  pub cells : ℕ → Option T
  -- Stands for the address that `buffer.load` yields: no two buffers of a deque share it.
  pub identity : ℕ

-- `index & (cap - 1)`; positions are natural numbers, since an `isize` counts to 2^63.
abbrev pub slot : ℕ → ℕ → ℕ
slot cap index = bit_and index (cap - 1)

-- The segments, as an index and a length, of `len` cells from the cell `i` on.
abbrev pub segments : ℕ → ℕ → ℕ → Option (ℕ × ℕ) × Option (ℕ × ℕ)
segments cap i len =
    if len == 0
    then (none, none)
    else if leb (i + len) cap
    then (some (i, len), none)
    else (some (i, cap - i), some (0, len - (cap - i)))

-- `split_range`
unfoldable pub split_range : ℕ → ℕ → ℕ → Option (ℕ × ℕ) × Option (ℕ × ℕ)
split_range cap start end = segments cap (slot cap start) (end - start)

module _ {T : Type 0} where
  -- `Buffer::alloc`
  pub alloc : ℕ → ℕ → Buffer T
  alloc cap identity = record { cap = cap; cells = λ x. none; identity = identity }

  -- `read`
  abbrev pub read : Buffer T → ℕ → Option T
  read buffer index = buffer.cells (slot buffer.cap index)

pub record Deque (T : Type 0) : Type 0 where
  pub consumed : ℕ
  pub produced : ℕ
  pub buffer : Buffer T
  pub cached_cons : ℕ

module _ {T : Type 0} where
  -- `Worker::new`, with `MIN_CAP`.
  unfoldable pub new : Deque T
  unfolding alloc
  new = record { consumed = 0; produced = 0; buffer = alloc 64 0; cached_cons = 0 }

  -- The copies of `resize`, by the segments in the old and in the new buffer.
  unfoldable pub copy_all :
      (ℕ → Option T)
      → (ℕ → Option T)
      → Option (ℕ × ℕ) × Option (ℕ × ℕ)
      → Option (ℕ × ℕ) × Option (ℕ × ℕ)
      → ℕ
      → Option T
  unfolding copy_seg
  copy_all old new (some (s1, l1), some (s2, l2)) (some (s3, l3), some (s4, l4)) =
      if leb l1 l3
      then copy_seg old (copy_seg old (copy_seg old new s1 s3 l1) s2 (s3 + l1) (l3 - l1))
          (s2 + (l3 - l1)) s4 (l2 - (l3 - l1))
      else copy_seg old (copy_seg old (copy_seg old new s1 s3 l3) (s1 + l3) s4 (l1 - l3)) s2
          (s4 + (l1 - l3)) l2
  copy_all old new (some (s1, l1), some (s2, l2)) (some (s3, l3), none) =
      copy_seg old (copy_seg old new s1 s3 l1) s2 (s3 + l1) l2
  copy_all old new (some (s1, l1), none) (some (s3, l3), some (s4, l4)) =
      copy_seg old (copy_seg old new s1 s3 l3) (s1 + l3) s4 l4
  copy_all old new (some (s1, l1), none) (some (s3, l3), none) = copy_seg old new s1 s3 l1
  copy_all old new _ _ = new

  -- `resize`
  unfoldable pub resize : Deque T → ℕ → Deque T
  unfolding alloc copy_all split_range
  resize d new_cap =
      let fresh : Buffer T = alloc new_cap (d.buffer.identity + 1) in
      record d {
        buffer = record fresh {
          cells =
              copy_all d.buffer.cells fresh.cells (split_range d.buffer.cap d.consumed d.produced)
                (split_range new_cap d.consumed d.produced);
        };
      }

  -- The first half of `push`: the cached count of consumed tasks is renewed, or the buffer grown,
  -- when it seems full.
  unfoldable pub make_room : Deque T → Deque T
  unfolding resize
  make_room d =
      if leb d.buffer.cap (d.produced - d.cached_cons)
      then (let d' = record d { cached_cons = d.consumed } in
          if leb d.buffer.cap (d.produced - d.consumed) then resize d' (2 * d.buffer.cap) else d')
      else d

  -- The copies of `push`, by the segments in the buffer.
  unfoldable pub copy_tasks :
      List T → (ℕ → Option T) → Option (ℕ × ℕ) × Option (ℕ × ℕ) → ℕ → Option T
  unfolding copy_seg
  copy_tasks task cells (some (s1, l1), some (s2, l2)) =
      copy_seg (get_elem? task) (copy_seg (get_elem? task) cells 0 s1 l1) l1 s2 l2
  copy_tasks task cells (some (s1, l1), none) = copy_seg (get_elem? task) cells 0 s1 l1
  copy_tasks task cells (none, _) = cells

  -- `push`
  unfoldable pub push : Deque T → List T → Deque T
  unfolding make_room copy_tasks split_range
  push d task =
      let d' = make_room d in
      let end = d'.produced + length task in
      record d' {
        produced = end;
        buffer = record d'.buffer {
          cells = copy_tasks task d'.buffer.cells (split_range d'.buffer.cap d'.produced end);
        };
      }
