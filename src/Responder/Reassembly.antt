-- ===== src/Responder/Reassembly.antt =====
-- The data of a connection is a prefix of what the peer sends.
use farsight.Prelude.{
  ℕ, zero, suc, ◌+◌, ◌^◌, ◌≤◌, ◌<◌, ◌≡◌, refl, ap, ap₂, subst, sym, ◌∙◌, inl, inr, true, false,
  List, [], ◌∷◌, ◌++◌, none, some, length, take, drop, length-append, take-append-take, arith,
  Option-cases, if_elim,
}
use farsight.Std.Eq.{nat_eq, pair_eq}
use farsight.Std.Map.{lookup, insert, remove, insert_origin, remove_origin, length-remove-lt}
use farsight.Words.{add32, sub32}
use farsight.Responder.Types.{
  Services, State, Config, Segment, Responder, Arrival, arrived_segments,
}
use farsight.Responder.{hold_segment, append_segment, stitch_loop, stitch, tick, contains_flags}
use farsight.Responder.Each.{Each, Kept, AllAdmissible, Opened, tick-Each}

-- What a peer sends on a connection: the number of the first byte, and the bytes.
pub record Stream : Type 0 where
  pub base : ℕ
  pub bytes : List ℕ
  pub base_lt : base < 2 ^ 32
  pub bytes_lt : length bytes < 2 ^ 32

-- The payload is the part of the stream that its sequence number says.
unfoldable pub InStream : Stream → ℕ → List ℕ → Type 0
InStream t seq payload =
    let offset = sub32 seq t.base in
    (offset + length payload ≤ length t.bytes)
    × (payload ≡ take (length payload) (drop offset t.bytes))

-- The connection has taken in a prefix of the stream, expects what follows it, and holds back parts
-- of the stream alone.
pub record IsPrefix (t : Stream) (st : State) : Type 0 where
  pub within : length st.data_received ≤ length t.bytes
  pub prefix : st.data_received ≡ take (length st.data_received) t.bytes
  pub expected : st.next_expected_seq ≡ add32 t.base (length st.data_received)
  pub buffered : (seq : ℕ) (v : List ℕ) → lookup seq st.reorder_buffer ≡ some v → InStream t seq v

empty_lookup : (seq : ℕ) (m : List (ℕ × List ℕ)) → length m ≤ 0 → lookup seq m ≡ none
unfolding lookup
empty_lookup seq [] le = refl
empty_lookup seq (e ∷ m) le = absurd (omega arith)

offset_at : (base n : ℕ) → base < 2 ^ 32 → n < 2 ^ 32 → sub32 (add32 base n) base ≡ n
offset_at base n h1 h2 = omega arith

add32_add : (base n m : ℕ) → add32 (add32 base n) m ≡ add32 base (n + m)
add32_add base n m = omega arith

add32_zero : (t : Stream) → t.base ≡ add32 t.base 0
add32_zero t = omega (arith, t.base_lt)

append_segment-IsPrefix :
    (t : Stream) (st : State) (payload : List ℕ)
    → IsPrefix t st
    → InStream t st.next_expected_seq payload
    → IsPrefix t (append_segment st payload)
unfolding InStream
append_segment-IsPrefix t st payload h p =
    let n = length st.data_received in
    let m = length payload in
    let offset : sub32 st.next_expected_seq t.base ≡ n =
      ap (λ x. sub32 x t.base) h.expected
      ∙ offset_at t.base n t.base_lt (omega (arith, h.within, t.bytes_lt)) in
    let len = length-append st.data_received payload in
    record {
      within = omega (arith, p.0, offset, len);
      prefix =
          ap₂ ◌++◌ h.prefix (p.1 ∙ ap (λ o. take m (drop o t.bytes)) offset)
          ∙ take-append-take n m t.bytes
          ∙ ap (λ k. take k t.bytes) (sym len);
      expected =
          ap (λ x. add32 x m) h.expected ∙ add32_add t.base n m ∙ ap (add32 t.base) (sym len);
      buffered = h.buffered;
    }

hold_segment-IsPrefix :
    (t : Stream) (cfg : Config) (st : State) (seq : ℕ) (payload : List ℕ)
    → IsPrefix t st
    → InStream t seq payload
    → IsPrefix t (hold_segment cfg st seq payload)
unfolding hold_segment
hold_segment-IsPrefix t cfg st seq payload h p =
    if_elim (IsPrefix t) _ (record st { reorder_buffer = insert seq payload st.reorder_buffer }) st
      (record {
        within = h.within;
        prefix = h.prefix;
        expected = h.expected;
        buffered = λ other v e. elim (insert_origin seq other payload v st.reorder_buffer e) [
          | inl (same, here) ↦ subst (λ o. InStream t o v) same (subst (InStream t seq) here p)
          | inr old ↦ h.buffered other v old
        ];
      })
      h

-- A connection once the segment `seq` is taken out of what it holds back.
abbrev without : State → ℕ → State
without st seq = record st { reorder_buffer = remove seq st.reorder_buffer }

without-IsPrefix : (t : Stream) (st : State) (seq : ℕ) → IsPrefix t st → IsPrefix t (without st seq)
without-IsPrefix t st seq h = record {
  within = h.within;
  prefix = h.prefix;
  expected = h.expected;
  buffered = λ other v e. h.buffered other v (remove_origin seq other v st.reorder_buffer e).0;
}

stitch_loop-IsPrefix :
    (t : Stream) (f : ℕ) (st : State) → IsPrefix t st → IsPrefix t (stitch_loop f st)
unfolding stitch_loop
stitch_loop-IsPrefix t zero st h = h
stitch_loop-IsPrefix t (suc f) st h =
    elim (Option-cases (lookup st.next_expected_seq st.reorder_buffer)) [
      | inl end ↦ rw (end, stitch_loop) h
      | inr (v, e) ↦
          rw (e, stitch_loop)
            (stitch_loop-IsPrefix t f (append_segment (without st st.next_expected_seq) v) (
              append_segment-IsPrefix t (without st st.next_expected_seq) v
                (without-IsPrefix t st st.next_expected_seq h)
                (h.buffered st.next_expected_seq v e)))
    ]

-- Every round takes a segment out of the buffer: the fuel is enough to reach one that is missing.
stitch_loop-done :
    (f : ℕ) (st : State)
    → length st.reorder_buffer ≤ f
    → lookup (stitch_loop f st).next_expected_seq (stitch_loop f st).reorder_buffer ≡ none
unfolding stitch_loop
stitch_loop-done zero st le = empty_lookup st.next_expected_seq st.reorder_buffer (omega arith)
stitch_loop-done (suc f) st le =
    elim (Option-cases (lookup st.next_expected_seq st.reorder_buffer)) [
      | inl end ↦ rw (end, stitch_loop) end
      | inr (v, e) ↦
          rw (e, stitch_loop)
            (stitch_loop-done f (append_segment (without st st.next_expected_seq) v)
              (omega (arith, length-remove-lt st.next_expected_seq st.reorder_buffer v e)))
    ]

-- Let a connection have taken in a prefix of the peer's stream and hold back parts of it alone, and
-- let the next segment be a part of the stream. Then `stitch` leaves the connection so, with the
-- segment in its data or more, and with no segment left that it could append.
pub stitch-IsPrefix :
    (t : Stream) (st : State) (payload : List ℕ)
    → IsPrefix t st
    → InStream t st.next_expected_seq payload
    → IsPrefix t (stitch st payload)
      × (lookup (stitch st payload).next_expected_seq (stitch st payload).reorder_buffer ≡ none)
unfolding stitch
stitch-IsPrefix t st payload h p = (
  stitch_loop-IsPrefix t (length st.reorder_buffer) (append_segment st payload)
      (append_segment-IsPrefix t st payload h p),
  stitch_loop-done (length st.reorder_buffer) (append_segment st payload) (omega arith),
)

module _ (s : Services) (streams : ℕ × ℕ → Stream) (cfg : Config) where
  abbrev Prefixed : ℕ × ℕ → State → Type 0
  Prefixed key st = IsPrefix (streams key) st

  -- The segment comes from the peer whose stream is given: a SYN+ACK announces its first byte, and
  -- the payload of any other segment, if not of a RST or a FIN, is the part that its number says.
  pub record FromPeer (g : Segment) : Type 0 where
    pub announced :
        contains_flags g.hdr.flags 18 ≡ true
        → (streams (g.ip, g.hdr.source_port)).base ≡ add32 g.hdr.seq 1
    pub part :
        contains_flags g.hdr.flags 4 ≡ false
        → contains_flags g.hdr.flags 1 ≡ false
        → contains_flags g.hdr.flags 18 ≡ false
        → InStream (streams (g.ip, g.hdr.source_port)) g.hdr.seq g.payload

  unfoldable pub AllFromPeers : List Segment → Type 0
  AllFromPeers [] = Unit {0}
  AllFromPeers (g ∷ rest) = FromPeer g × AllFromPeers rest

  Known : ℕ × ℕ → ℕ → List ℕ → Type 0
  Known key seq payload = InStream (streams key) seq payload

  Prefixed-Kept : Kept s Prefixed cfg Known
  unfolding Known
  Prefixed-Kept = record {
    extended = λ key st t h. record {
      within = h.within;
      prefix = h.prefix;
      expected = h.expected;
      buffered = h.buffered;
    };
    held = λ key st seq payload h k. hold_segment-IsPrefix (streams key) cfg st seq payload h k;
    stitched = λ key st seq payload h k e.
        (stitch-IsPrefix (streams key) st payload h
          (subst (λ x. InStream (streams key) x payload) e k)).0;
  }

  peers-AllAdmissible :
      (batch : List Segment) → AllFromPeers batch → AllAdmissible s Prefixed cfg Known batch
  unfolding AllAdmissible Opened AllFromPeers Known lookup
  peers-AllAdmissible [] h = tt
  peers-AllAdmissible (g ∷ rest) h = (
    record {
      opened = λ e payload. record {
        within = omega arith;
        prefix = refl;
        expected = sym (h.0.announced e) ∙ add32_zero (streams (g.ip, g.hdr.source_port));
        buffered = λ seq v missing. cc;
      };
      known = h.0.part;
    },
    peers-AllAdmissible rest h.1,
  )

  -- Let the segments that arrive for a tick come from peers with fixed streams of less than 2^32 bytes, in any
  -- order and any number of times, and let every connection's data be a prefix of its peer's stream.
  -- Then so it is after a tick, and all that a connection holds back is part of the stream.
  pub tick-IsPrefix :
      (now : ℕ) (r : Responder s) (arrival : Arrival)
      → AllFromPeers (arrived_segments arrival)
      → Each s (λ key st. IsPrefix (streams key) st) r.connections
      → Each s (λ key st. IsPrefix (streams key) st) (tick s cfg now r arrival).0.connections
  tick-IsPrefix now r arrival peers h =
      tick-Each s Prefixed cfg Known now r arrival Prefixed-Kept
        (peers-AllAdmissible (arrived_segments arrival) peers) h
