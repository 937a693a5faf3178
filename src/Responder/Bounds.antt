-- ===== src/Responder/Bounds.antt =====
-- The limits on the segments that a connection holds back.
use farsight.Prelude.{ℕ, zero, suc, ◌+◌, ◌≤◌, inl, inr, List, [], ◌∷◌, length, arith, Option-cases}
use farsight.Std.Eq.{nat_eq, pair_eq}
use farsight.Std.Map.{lookup, insert, remove, length-remove-le}
use farsight.Responder.Types.{
  Services, State, Config, Segment, Responder, Arrival, arrived_segments,
}
use farsight.Responder.{buffered_bytes, hold_segment, append_segment, stitch_loop, stitch, tick}
use farsight.Responder.Each.{Each, Kept, AllAdmissible, Opened, tick-Each}

-- A connection within the limits of the configuration.
pub WithinLimits : Config → State → Type 0
WithinLimits cfg st =
    (length st.reorder_buffer ≤ cfg.max_reorder_segments)
    × (buffered_bytes st.reorder_buffer ≤ cfg.max_reorder_bytes)

length-insert-le :
    (k : ℕ) (v : List ℕ) (m : List (ℕ × List ℕ)) → length (insert k v m) ≤ suc (length m)
unfolding insert
length-insert-le k v [] = omega arith
length-insert-le k v (e ∷ m) = ground (arith, length-insert-le k v m)

bytes-insert-le :
    (k : ℕ) (v : List ℕ) (m : List (ℕ × List ℕ))
    → buffered_bytes (insert k v m) ≤ buffered_bytes m + length v
unfolding insert buffered_bytes
bytes-insert-le k v [] = omega arith
bytes-insert-le k v (e ∷ m) = ground (arith, bytes-insert-le k v m)

bytes-remove-le : (k : ℕ) (m : List (ℕ × List ℕ)) → buffered_bytes (remove k m) ≤ buffered_bytes m
unfolding remove buffered_bytes
bytes-remove-le k [] = omega arith
bytes-remove-le k (e ∷ m) = ground (arith, bytes-remove-le k m)

hold_segment-WithinLimits :
    (cfg : Config) (st : State) (seq : ℕ) (payload : List ℕ)
    → WithinLimits cfg st
    → WithinLimits cfg (hold_segment cfg st seq payload)
unfolding hold_segment WithinLimits
hold_segment-WithinLimits cfg st seq payload h = ground (
  arith,
  length-insert-le seq payload st.reorder_buffer,
  bytes-insert-le seq payload st.reorder_buffer,
)

stitch_loop-WithinLimits :
    (cfg : Config) (f : ℕ) (st : State) → WithinLimits cfg st → WithinLimits cfg (stitch_loop f st)
unfolding stitch_loop WithinLimits
stitch_loop-WithinLimits cfg zero st h = h
stitch_loop-WithinLimits cfg (suc f) st h =
    elim (Option-cases (lookup st.next_expected_seq st.reorder_buffer)) [
      | inl end ↦ rw (end, stitch_loop) h
      | inr (v, e) ↦
          rw (e, stitch_loop)
            (stitch_loop-WithinLimits cfg f _ (
              omega (arith, h.0, length-remove-le st.next_expected_seq st.reorder_buffer),
              omega (arith, h.1, bytes-remove-le st.next_expected_seq st.reorder_buffer),
            ))
    ]

module _ (s : Services) (cfg : Config) where
  abbrev Limited : ℕ × ℕ → State → Type 0
  Limited key st = WithinLimits cfg st

  abbrev Anything : ℕ × ℕ → ℕ → List ℕ → Type 0
  Anything key seq payload = Unit {0}

  Limited-Kept : Kept s Limited cfg Anything
  unfolding WithinLimits stitch
  Limited-Kept = record {
    extended = λ key st t h. h;
    held = λ key st seq payload h k. hold_segment-WithinLimits cfg st seq payload h;
    stitched = λ key st seq payload h k e.
        stitch_loop-WithinLimits cfg (length st.reorder_buffer) (append_segment st payload) h;
  }

  any-AllAdmissible : (batch : List Segment) → AllAdmissible s Limited cfg Anything batch
  unfolding AllAdmissible Opened WithinLimits buffered_bytes
  any-AllAdmissible [] = tt
  any-AllAdmissible (g ∷ rest) = (
    record { opened = λ e payload. (omega arith, omega arith); known = λ a b c. tt },
    any-AllAdmissible rest,
  )

  -- Let every connection hold back at most `max_reorder_segments` segments with at most
  -- `max_reorder_bytes` bytes. Then so it is after a tick, whatever arrives for it.
  pub tick-WithinLimits :
      (now : ℕ) (r : Responder s) (arrival : Arrival)
      → Each s (λ key st. WithinLimits cfg st) r.connections
      → Each s (λ key st. WithinLimits cfg st) (tick s cfg now r arrival).0.connections
  tick-WithinLimits now r arrival h =
      tick-Each s Limited cfg Anything now r arrival Limited-Kept
        (any-AllAdmissible (arrived_segments arrival)) h
