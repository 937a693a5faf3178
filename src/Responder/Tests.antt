-- ===== src/Responder/Tests.antt =====
-- Runs of the responder, and its theorems at concrete connections.
use farsight.Prelude.{
  ℕ, ◌≡◌, refl, true, List, [], ◌∷◌, ◌++◌, Option, none, some, length, leb, if◌then◌else◌, arith,
  ◌==◌, Bool-cases, inl, inr, subst,
}
use farsight.Std.Eq.{nat_eq, pair_eq}
use farsight.Std.Map.{lookup, insert, remove, contains_key}
use farsight.Responder.Types.{
  ParseResult, banner, incomplete, Packet, Services, State, Config, Segment, Responder, arrived,
}
use farsight.Responder.{
  stitch, stitch_loop, tick, process_all, process_segment, process_syn_ack, process_ack,
  ack_connection, finish_ack, hold_segment, buffered_bytes, and_then, send_packet, record_result,
  record_empty, record_hit, entries, expire, expire_loop,
}
use farsight.Responder.Each.{Each}
use farsight.Responder.Bounds.{WithinLimits, tick-WithinLimits}
use farsight.Responder.Reassembly.{
  Stream, InStream, IsPrefix, FromPeer, AllFromPeers, tick-IsPrefix,
}
use farsight.Responder.Expired.{Expires}
use farsight.Responder.Expiry.{Stopped, expire-Stopped, expire_ignores_extension}

-- A banner is complete with its third byte; the sender logs; no template is ever at hand.
abbrev parse_three : List ℕ → ParseResult (List ℕ)
parse_three d = if leb 3 (length d) then banner d else incomplete

abbrev logging : Services
logging = record {
  PortState = List (Option ℕ);
  IpState = List ℕ;
  SenderState = List Packet;
  Banner = List ℕ;
  port_result = λ p ip port x. (p ++ x ∷ [], none);
  ip_result = λ p ip. p ++ ip ∷ [];
  build = λ ip port. some (1 ∷ []);
  parse = parse_three;
  hash64 = λ b. length b;
  cookie = λ ip port seed. 100;
  send = λ l p. (l ++ p ∷ [], true);
}

abbrev cfg : Config
cfg = record { seed = 0; timeout = 10; max_reorder_bytes = 100; max_reorder_segments = 4 }

abbrev idle : Responder logging
idle = record {
  ports = [];
  ips = [];
  sender = [];
  connections = [];
  expiries = [];
  pending_expiry = none;
  scanlings = [];
}

abbrev segment : ℕ → ℕ → List ℕ → Segment
segment flags seq payload = record {
  time = 5;
  ip = 7;
  hdr = record {
    source_port = 80;
    dest_port = 1;
    seq = seq;
    ack_number = if leb 18 flags then 101 else 102;
    flags = flags;
  };
  payload = payload;
}

-- The handshake, then the bytes 11 and 12, 13 out of order.
abbrev batch : List Segment
batch = segment 18 499 [] ∷ segment 16 501 (12 ∷ 13 ∷ []) ∷ segment 16 500 (11 ∷ []) ∷ []

batch_runs :
    (tick logging cfg 6 idle (arrived batch)).0.scanlings ≡ ((7, 80), 11 ∷ 12 ∷ 13 ∷ []) ∷ []
unfolding tick process_all process_segment process_syn_ack process_ack ack_connection finish_ack
    hold_segment buffered_bytes stitch stitch_loop and_then send_packet record_result record_empty
    record_hit expire expire_loop lookup insert remove contains_key
batch_runs = refl

none_open : (P : ℕ × ℕ → State → Type 0) → Each logging P []
unfolding Each lookup
none_open P key st e = cc

tick-WithinLimits_example :
    Each logging
      (λ key st. WithinLimits cfg st)
      (tick logging cfg 6 idle (arrived batch)).0.connections
tick-WithinLimits_example =
    tick-WithinLimits logging cfg 6 idle (arrived batch) (none_open (λ key st. WithinLimits cfg st))

abbrev stream : Stream
stream = record {
  base = 500;
  bytes = 11 ∷ 12 ∷ 13 ∷ [];
  base_lt = omega arith;
  bytes_lt = omega arith;
}

-- The first segment of the batch alone leaves the connection open.
batch_FromPeers : AllFromPeers logging (λ key. stream) cfg batch
unfolding AllFromPeers InStream
batch_FromPeers =
    let opens : FromPeer logging (λ key. stream) cfg (segment 18 499 []) = record {
      announced = λ e. refl;
      part = λ a b c. absurd (ground (arith, c));
    } in
    let later : FromPeer logging (λ key. stream) cfg (segment 16 501 (12 ∷ 13 ∷ [])) = record {
      announced = λ e. absurd (ground (arith, e));
      part = λ a b c. (omega arith, refl);
    } in
    let first : FromPeer logging (λ key. stream) cfg (segment 16 500 (11 ∷ [])) = record {
      announced = λ e. absurd (ground (arith, e));
      part = λ a b c. (omega arith, refl);
    } in
    (opens, (later, (first, tt)))

tick-IsPrefix_example :
    Each logging
      (λ key st. IsPrefix stream st)
      (tick logging cfg 6 idle (arrived batch)).0.connections
tick-IsPrefix_example =
    tick-IsPrefix logging (λ key. stream) cfg 6 idle (arrived batch) batch_FromPeers
      (none_open (λ key st. IsPrefix stream st))

-- Byte 11 is in, byte 13 is held back, byte 12 comes.
abbrev gap : State
gap = record {
  data_received = 11 ∷ [];
  next_expected_seq = 501;
  next_expected_ack = 102;
  reorder_buffer = (502, 13 ∷ []) ∷ [];
  expires_at = 15;
}

gap-IsPrefix : IsPrefix stream gap
unfolding lookup InStream
gap-IsPrefix = record {
  within = omega arith;
  prefix = refl;
  expected = refl;
  buffered = λ seq v e. elim (Bool-cases (502 == seq)) [
    | inl same ↦
        let here : 13 ∷ [] ≡ v = ground (arith, same, e) in
        let at : 502 ≡ seq = ground (arith, same) in
        subst (λ w. InStream stream seq w) here
          (subst (λ q. InStream stream q (13 ∷ [])) at (omega arith, refl))
    | inr apart ↦ absurd (ground (arith, apart, e))
  ];
}

-- The connection has been waiting for more since time 15, up to 25; the queue still has time 15.
abbrev waiting : Responder logging
waiting = record idle {
  connections = ((7, 80), record gap { expires_at = 25 }) ∷ [];
  expiries = (15, (7, 80)) ∷ (25, (7, 80)) ∷ [];
}

expire-Stopped_example :
    Stopped logging 16 (expire logging 16 waiting).0
    × Expires logging 16 waiting.connections (entries logging waiting) (expire logging 16 waiting).0
unfolding expire expire_loop contains_key lookup and_then record_empty record_result remove
expire-Stopped_example = expire-Stopped logging 16 waiting refl

expire_ignores_extension_example : lookup (7, 80) (expire logging 16 waiting).0.connections ≡ none
unfolding lookup
expire_ignores_extension_example =
    expire_ignores_extension logging 16 15 (7, 80) (record gap { expires_at = 25 }) waiting
      ((25, (7, 80)) ∷ []) refl (omega arith) refl (omega arith)
