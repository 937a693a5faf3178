-- ===== src/Responder.antt =====
-- farsight/src/controller/responder.rs: the answers to what the scanned hosts send, one packet at a
-- time, and the expiry of connections.
pub mod Types
pub mod Each
pub mod Bounds
pub mod Reassembly
pub mod Expired
pub mod Expiry
pub mod Cut
mod Tests
use Prim.Native.Nat.{bit_and}
use farsight.Prelude.{
  ℕ, zero, suc, ◌+◌, ◌-◌, ◌*◌, ◌/◌, ◌%◌, Bool, true, false, not, ◌&&◌, ◌||◌, List, [], ◌∷◌, ◌++◌,
  Option, none, some, ltb, leb, ◌==◌, if◌then◌else◌, length,
}
use farsight.Std.Eq.{nat_eq, pair_eq}
use farsight.Std.Map.{lookup, insert, remove, contains_key}
use farsight.Words.{add32, sub32}
use farsight.Responder.Types.{
  ParseResult, banner, invalid, incomplete, Flag, rst, ack, Packet, control, with_data, syn,
  Services, State, Config, TcpHdr, Segment, Arrival, receive_failed, nothing_arrived, arrived,
  Responder,
}

-- `buffered_bytes`
unfoldable pub buffered_bytes : List (ℕ × List ℕ) → ℕ
buffered_bytes [] = 0
buffered_bytes (entry ∷ rest) = length entry.1 + buffered_bytes rest

-- What `process_ack` does to the reorder buffer with a segment that is not the next.
unfoldable pub hold_segment : Config → State → ℕ → List ℕ → State
unfolding buffered_bytes
hold_segment cfg st seq payload =
    if ltb (sub32 seq st.next_expected_seq) 65535
      && not (length payload == 0)
      && ltb (length st.reorder_buffer) cfg.max_reorder_segments
      && leb (buffered_bytes st.reorder_buffer + length payload) cfg.max_reorder_bytes
    then record st { reorder_buffer = insert seq payload st.reorder_buffer }
    else st

-- A segment is taken in: the data grows, and the expected number with it.
abbrev pub append_segment : State → List ℕ → State
append_segment st payload = record st {
  data_received = st.data_received ++ payload;
  next_expected_seq = add32 st.next_expected_seq (length payload);
}

-- The `while let` loop of `process_ack`. Each round takes a segment from the buffer.
unfoldable pub stitch_loop : ℕ → State → State
stitch_loop zero st = st
stitch_loop (suc f) st = elim (lookup st.next_expected_seq st.reorder_buffer) [
  | none ↦ st
  | some buffered ↦ stitch_loop f (
      append_segment (record st { reorder_buffer = remove st.next_expected_seq st.reorder_buffer })
        buffered)
]

unfoldable pub stitch : State → List ℕ → State
unfolding stitch_loop
stitch st payload = stitch_loop (length st.reorder_buffer) (append_segment st payload)

-- `hdr.flags.contains(…)`
abbrev pub contains_flags : ℕ → ℕ → Bool
contains_flags flags f = bit_and flags f == f

module _ (s : Services) where
  open s use {port_result, ip_result, build, parse, hash64, cookie, send}

  -- A handler's result, with `false` for the errors that `?` and `bail!` return at once.
  abbrev pub Outcome : Type 0
  Outcome = Responder s × Bool

  unfoldable pub and_then : Outcome → (Responder s → Outcome) → Outcome
  and_then (r, true) next = next r
  and_then (r, false) next = (r, false)

  unfoldable pub send_packet : Responder s → Packet → Outcome
  send_packet r p = let (t, ok) = send r.sender p in (record r { sender = t }, ok)

  -- `adapter.on_result`, with the SYN to the template that it may return.
  unfoldable pub record_result : Responder s → ℕ → ℕ → Option ℕ → Outcome
  record_result r ip port result =
      let (ports, template) = port_result r.ports ip port result in
      let r' = record r { ports = ports } in
      elim template [ none ↦ (r', true) | some t ↦ send_packet r' (syn t) ]

  unfoldable pub record_empty : Responder s → ℕ → ℕ → Outcome
  record_empty r ip port = record_result r ip port none

  unfoldable pub record_hit : Responder s → ℕ → ℕ → ℕ → Outcome
  record_hit r ip port hash = record_result r ip port (some hash)

  -- `connections.insert`, with the entry of `expiries`.
  abbrev pub open_connection : Responder s → ℕ × ℕ → State → Responder s
  open_connection r key st = record r {
    connections = insert key st r.connections;
    expiries = r.expiries ++ (st.expires_at, key) ∷ [];
  }

  abbrev pub close : Responder s → ℕ × ℕ → Responder s
  close r key = record r { connections = remove key r.connections }

  abbrev pub add_scanling : Responder s → ℕ × ℕ → s.Banner → Responder s
  add_scanling r key b = record r { scanlings = r.scanlings ++ (key, b) ∷ [] }

  abbrev pub hit_address : Responder s → ℕ → Responder s
  hit_address r ip = record r { ips = ip_result r.ips ip }

  unfoldable pub process_syn_ack : Config → ℕ → Responder s → ℕ → TcpHdr → Outcome
  process_syn_ack cfg now r ip hdr =
      let port = hdr.source_port in
      if not (hdr.ack_number == add32 (cookie ip port cfg.seed) 1)
      then record_empty r ip port
      else elim (build ip port) [
        | none ↦
            and_then (send_packet r (control rst ip hdr.dest_port port hdr.ack_number hdr.seq))
              (λ r1. and_then (record_empty r1 ip port) (λ r2. (r2, false)))
        | some payload ↦
            let seq = add32 hdr.seq 1 in
            and_then (send_packet r (with_data ip hdr.dest_port port hdr.ack_number seq payload))
              (λ r1. (
                open_connection r1 (ip, port)
                    (record {
                      data_received = [];
                      next_expected_seq = seq;
                      next_expected_ack = add32 hdr.ack_number (length payload);
                      reorder_buffer = [];
                      expires_at = now + cfg.timeout;
                    }),
                true,
              ))
      ]

  -- What follows the parsed data in `process_ack`; `st` is the connection, stored already.
  unfoldable pub finish_ack :
      Config → Responder s → ℕ → TcpHdr → State → ParseResult s.Banner → Outcome
  finish_ack cfg r ip hdr st (banner b) =
      let port = hdr.source_port in
      and_then
        (send_packet (close r (ip, port))
          (control rst ip hdr.dest_port port st.next_expected_ack st.next_expected_seq))
        (λ r1.
          and_then (record_hit (hit_address r1 ip) ip port (hash64 b))
            (λ r2. (add_scanling r2 (ip, port) b, true)))
  finish_ack cfg r ip hdr st invalid =
      let port = hdr.source_port in
      and_then (record_empty r ip port) (λ r1.
        send_packet (close r1 (ip, port))
          (control rst ip hdr.dest_port port st.next_expected_ack st.next_expected_seq))
  finish_ack cfg r ip hdr st incomplete =
      let port = hdr.source_port in
      send_packet
        (open_connection r (ip, port) (record st { expires_at = st.expires_at + cfg.timeout }))
        (control ack ip hdr.dest_port port st.next_expected_ack st.next_expected_seq)

  -- `process_ack` for a connection that is there.
  unfoldable pub ack_connection : Config → Responder s → ℕ → TcpHdr → List ℕ → State → Outcome
  ack_connection cfg r ip hdr payload st =
      let port = hdr.source_port in
      let st' = stitch st payload in
      if not (hdr.ack_number == st.next_expected_ack)
      then (r, true)
      else if not (hdr.seq == st.next_expected_seq)
      then send_packet
          (record r {
            connections = insert (ip, port) (hold_segment cfg st hdr.seq payload) r.connections;
          })
          (control ack ip hdr.dest_port port st.next_expected_ack st.next_expected_seq)
      else if length payload == 0
      then (r, true)
      else finish_ack cfg (record r { connections = insert (ip, port) st' r.connections }) ip hdr
          st' (parse st'.data_received)

  unfoldable pub process_ack : Config → Responder s → ℕ → TcpHdr → List ℕ → Outcome
  process_ack cfg r ip hdr payload =
      let port = hdr.source_port in
      elim (lookup (ip, port) r.connections) [
        | none ↦ and_then (record_empty r ip port) (λ r1.
            send_packet r1
              (control rst ip hdr.dest_port port hdr.ack_number (add32 hdr.seq (length payload))))
        | some st ↦ ack_connection cfg r ip hdr payload st
      ]

  -- What follows the parsed data in `process_fin`.
  unfoldable pub finish_fin : Responder s → ℕ → ℕ → ParseResult s.Banner → Outcome
  finish_fin r ip port (banner b) =
      and_then (record_hit (hit_address r ip) ip port (hash64 b))
        (λ r1. (add_scanling r1 (ip, port) b, true))
  finish_fin r ip port _ = record_empty r ip port

  unfoldable pub process_fin : Responder s → ℕ → TcpHdr → List ℕ → Outcome
  process_fin r ip hdr payload =
      let port = hdr.source_port in
      and_then
        (send_packet r (
          control rst ip hdr.dest_port port hdr.ack_number
            (add32 (add32 hdr.seq 1) (length payload))))
        (λ r1. elim (lookup (ip, port) r1.connections) [
          | none ↦ record_empty r1 ip port
          | some st ↦
              let r2 = close r1 (ip, port) in
              if length payload == 0
              then record_empty r2 ip port
              else finish_fin r2 ip port (parse (st.data_received ++ payload))
        ])

  unfoldable pub process_rst : Responder s → ℕ → TcpHdr → Outcome
  process_rst r ip hdr =
      and_then (record_empty r ip hdr.source_port) (λ r1. (close r1 (ip, hdr.source_port), true))

  -- `process_packet` behind the cutting of the frame into the address, the header and the payload.
  unfoldable pub process_segment : Config → ℕ → Responder s → ℕ → TcpHdr → List ℕ → Outcome
  process_segment cfg now r ip hdr payload =
      if contains_flags hdr.flags 4
      then process_rst r ip hdr
      else if contains_flags hdr.flags 1
      then process_fin r ip hdr payload
      else if contains_flags hdr.flags 18
      then process_syn_ack cfg now r ip hdr
      else if contains_flags hdr.flags 16
      then process_ack cfg r ip hdr payload
      else (r, true)

  -- The loop of `tick` over `pending_expiry` and `expiries`, both taken from the responder: it puts
  -- back what it leaves.
  unfoldable pub expire_loop : ℕ → Responder s → List (ℕ × (ℕ × ℕ)) → Outcome
  expire_loop now r [] = (record r { expiries = []; pending_expiry = none }, true)
  expire_loop now r ((expiry, key) ∷ rest) =
      if contains_key key r.connections
      then (if ltb now expiry
          then (record r { expiries = rest; pending_expiry = some (expiry, key) }, true)
          else and_then
              (record_empty (record (close r key) { expiries = rest; pending_expiry = none }) key.0
                key.1)
              (λ r1. expire_loop now r1 rest))
      else expire_loop now r rest

  abbrev pub entries : Responder s → List (ℕ × (ℕ × ℕ))
  entries r = elim r.pending_expiry [ none ↦ r.expiries | some e ↦ e ∷ r.expiries ]

  unfoldable pub expire : ℕ → Responder s → Outcome
  expire now r = expire_loop now r (entries r)

  -- The loop of `tick` over a batch; the error of a handler is only logged.
  unfoldable pub process_all : Config → Responder s → List Segment → Responder s
  process_all cfg r [] = r
  process_all cfg r (g ∷ rest) =
      process_all cfg (process_segment cfg g.time r g.ip g.hdr g.payload).0 rest

  -- `tick`, with `none` for an error, `some false` for `Ok(None)` and `some true` for `Ok(Some(()))`:
  -- connections expire only behind a batch.
  unfoldable pub tick : Config → ℕ → Responder s → Arrival → Responder s × Option Bool
  tick cfg now r receive_failed = (r, none)
  tick cfg now r nothing_arrived = (r, some false)
  tick cfg now r (arrived batch) =
      let (r1, ok) = expire now (process_all cfg r batch) in (r1, if ok then some true else none)
