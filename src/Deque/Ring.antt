-- ===== src/Deque/Ring.antt =====
-- The ring buffer holds the tasks between `consumed` and `produced`.
use farsight.Prelude.{
  ℕ, ◌+◌, ◌-◌, ◌%◌, ◌^◌, ◌≤◌, ◌<◌, ◌≡◌, List, Option, length, get_elem?, arith, dec_le,
}
use farsight.Words.{wrap, bit_and-pow}
use farsight.Deque.{slot, copy_seg, segments, copy_all, copy_tasks, new}

pub slot-pow : (k x : ℕ) → slot (2 ^ k) x ≡ x % 2 ^ k
slot-pow k x = bit_and-pow x k

module _ {T : Type 0} where
  fits_fits :
      (old new : ℕ → Option T) (c1 c2 r1 r2 d e : ℕ)
      → r1 + d ≤ c1
      → r2 + d ≤ c2
      → e < d
      → copy_all old new (segments c1 r1 d) (segments c2 r2 d) (wrap r2 c2 e) ≡ old (wrap r1 c1 e)
  unfolding copy_all copy_seg
  fits_fits old new c1 c2 r1 r2 d e h1 h2 h5 = ground arith

  fits_wraps :
      (old new : ℕ → Option T) (c1 c2 r1 r2 d e : ℕ)
      → d ≤ c2
      → r2 < c2
      → r1 + d ≤ c1
      → c2 < r2 + d
      → e < d
      → copy_all old new (segments c1 r1 d) (segments c2 r2 d) (wrap r2 c2 e) ≡ old (wrap r1 c1 e)
  unfolding copy_all copy_seg
  fits_wraps old new c1 c2 r1 r2 d e h1 h2 h3 h4 h5 = ground arith

  wraps_fits :
      (old new : ℕ → Option T) (c1 c2 r1 r2 d e : ℕ)
      → d ≤ c1
      → r1 < c1
      → c1 < r1 + d
      → r2 + d ≤ c2
      → e < d
      → copy_all old new (segments c1 r1 d) (segments c2 r2 d) (wrap r2 c2 e) ≡ old (wrap r1 c1 e)
  unfolding copy_all copy_seg
  wraps_fits old new c1 c2 r1 r2 d e h1 h2 h3 h4 h5 = ground arith

  wraps_wraps_less :
      (old new : ℕ → Option T) (c1 c2 r1 r2 d e : ℕ)
      → d ≤ c1
      → d ≤ c2
      → r1 < c1
      → r2 < c2
      → c1 < r1 + d
      → c2 < r2 + d
      → c1 - r1 ≤ c2 - r2
      → e < d
      → copy_all old new (segments c1 r1 d) (segments c2 r2 d) (wrap r2 c2 e) ≡ old (wrap r1 c1 e)
  unfolding copy_all copy_seg
  wraps_wraps_less old new c1 c2 r1 r2 d e h1 h2 h3 h4 h5 h6 h7 h8 = ground arith

  wraps_wraps_more :
      (old new : ℕ → Option T) (c1 c2 r1 r2 d e : ℕ)
      → d ≤ c1
      → d ≤ c2
      → r1 < c1
      → r2 < c2
      → c1 < r1 + d
      → c2 < r2 + d
      → c2 - r2 < c1 - r1
      → e < d
      → copy_all old new (segments c1 r1 d) (segments c2 r2 d) (wrap r2 c2 e) ≡ old (wrap r1 c1 e)
  unfolding copy_all copy_seg
  wraps_wraps_more old new c1 c2 r1 r2 d e h1 h2 h3 h4 h5 h6 h7 h8 = ground arith

  -- Wherever the two windows wrap round, the copies of `resize` bring each cell to its new place.
  pub copy_all-moves :
      (old new : ℕ → Option T) (c1 c2 r1 r2 d e : ℕ)
      → d ≤ c1
      → d ≤ c2
      → r1 < c1
      → r2 < c2
      → e < d
      → copy_all old new (segments c1 r1 d) (segments c2 r2 d) (wrap r2 c2 e) ≡ old (wrap r1 c1 e)
  copy_all-moves old new c1 c2 r1 r2 d e h1 h2 h3 h4 h5 = elim (dec_le (r1 + d) c1) [
    | yes f1 ↦ elim (dec_le (r2 + d) c2) [
      | yes f2 ↦ fits_fits old new c1 c2 r1 r2 d e f1 f2 h5
      | no w2 ↦ fits_wraps old new c1 c2 r1 r2 d e h2 h4 f1 (omega arith) h5
    ]
    | no w1 ↦ elim (dec_le (r2 + d) c2) [
      | yes f2 ↦ wraps_fits old new c1 c2 r1 r2 d e h1 h3 (omega arith) f2 h5
      | no w2 ↦ elim (dec_le (c1 - r1) (c2 - r2)) [
        | yes le ↦
            wraps_wraps_less old new c1 c2 r1 r2 d e h1 h2 h3 h4 (omega arith) (omega arith) le h5
        | no gt ↦
            wraps_wraps_more old new c1 c2 r1 r2 d e h1 h2 h3 h4 (omega arith) (omega arith)
              (omega arith) h5
      ]
    ]
  ]

  -- The copies of `push`: `r` is the place of `consumed`, `d` the number of tasks in the buffer.
  pub copy_tasks-writes :
      (task : List T) (cells : ℕ → Option T) (cap r d e : ℕ)
      → r < cap
      → d + length task ≤ cap
      → e < length task
      → copy_tasks task cells (segments cap (wrap r cap d) (length task)) (wrap r cap (d + e))
        ≡ get_elem? task e
  unfolding copy_tasks copy_seg
  copy_tasks-writes task cells cap r d e h1 h2 h3 = ground arith

  pub copy_tasks-keeps :
      (task : List T) (cells : ℕ → Option T) (cap r d e : ℕ)
      → r < cap
      → d + length task ≤ cap
      → e < d
      → copy_tasks task cells (segments cap (wrap r cap d) (length task)) (wrap r cap e)
        ≡ cells (wrap r cap e)
  unfolding copy_tasks copy_seg
  copy_tasks-keeps task cells cap r d e h1 h2 h3 = ground arith
