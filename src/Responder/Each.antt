-- ===== src/Responder/Each.antt =====
-- A predicate on connections that the handlers keep, from what they do to one connection.
use farsight.Prelude.{
  ℕ, ◌+◌, ◌≡◌, subst, inl, inr, true, false, not, List, [], ◌∷◌, ◌++◌, Option, none, some, ltb,
  ◌==◌, if◌then◌else◌, length, arith, Option-cases, Bool-cases, if_elim,
}
use farsight.Std.Eq.{nat_eq, pair_eq}
use farsight.Std.Map.{lookup, insert, remove, contains_key, insert_origin, remove_origin}
use farsight.Words.{add32}
use farsight.Responder.Types.{
  ParseResult, banner, invalid, incomplete, Packet, Services, State, Config, TcpHdr, Segment,
  Responder, Arrival, receive_failed, nothing_arrived, arrived, arrived_segments,
}
use farsight.Responder.{
  hold_segment, stitch, Outcome, and_then, send_packet, record_result, record_empty, record_hit,
  close, process_syn_ack, finish_ack, ack_connection, process_ack, finish_fin, process_fin,
  process_rst, process_segment, expire_loop, expire, process_all, tick, contains_flags,
}

module _ (s : Services) (P : ℕ × ℕ → State → Type 0) where
  open s use {build, parse}

  unfoldable pub Each : List ((ℕ × ℕ) × State) → Type 0
  Each connections = (key : ℕ × ℕ) (st : State) → lookup key connections ≡ some st → P key st

  insert-Each :
      (key : ℕ × ℕ) (st : State) (m : List ((ℕ × ℕ) × State))
      → Each m
      → P key st
      → Each (insert key st m)
  unfolding Each
  insert-Each key st m h p other st' e = elim (insert_origin key other st st' m e) [
    | inl (k, v) ↦ subst (λ x. P x st') k (subst (P key) v p)
    | inr old ↦ h other st' old
  ]

  remove-Each : (key : ℕ × ℕ) (m : List ((ℕ × ℕ) × State)) → Each m → Each (remove key m)
  unfolding Each
  remove-Each key m h other st' e = h other st' (remove_origin key other st' m e).0

  pub and_then-Each :
      (o : Outcome s) (next : Responder s → Outcome s)
      → Each o.0.connections
      → ((r : Responder s) → Each r.connections → Each (next r).0.connections)
      → Each (and_then s o next).0.connections
  unfolding and_then
  and_then-Each (r, true) next h n = n r h
  and_then-Each (r, false) next h n = h

  send_packet-Each :
      (r : Responder s) (p : Packet) → Each r.connections → Each (send_packet s r p).0.connections
  unfolding send_packet
  send_packet-Each r p h = h

  record_result-Each :
      (r : Responder s) (ip port : ℕ) (x : Option ℕ)
      → Each r.connections
      → Each (record_result s r ip port x).0.connections
  unfolding record_result send_packet
  record_result-Each r ip port x h = elim (Option-cases (s.port_result r.ports ip port x).1) [
    | inl stop ↦ rw (stop, record_result) h
    | inr (t, e) ↦ rw (e, record_result) h
  ]

  pub record_empty-Each :
      (r : Responder s) (ip port : ℕ)
      → Each r.connections
      → Each (record_empty s r ip port).0.connections
  unfolding record_empty
  record_empty-Each r ip port h = record_result-Each r ip port none h

  record_hit-Each :
      (r : Responder s) (ip port hash : ℕ)
      → Each r.connections
      → Each (record_hit s r ip port hash).0.connections
  unfolding record_hit
  record_hit-Each r ip port hash h = record_result-Each r ip port (some hash) h

  -- What the predicate has to survive: a new deadline, a segment held back, and segments taken in,
  -- where `Segments` says what is known of the segments of a connection.
  pub record Kept (cfg : Config) (Known : ℕ × ℕ → ℕ → List ℕ → Type 0) : Type 0 where
    pub extended :
        (key : ℕ × ℕ) (st : State) (t : ℕ) → P key st → P key (record st { expires_at = t })
    pub held :
        (key : ℕ × ℕ) (st : State) (seq : ℕ) (payload : List ℕ)
        → P key st
        → Known key seq payload
        → P key (hold_segment cfg st seq payload)
    pub stitched :
        (key : ℕ × ℕ) (st : State) (seq : ℕ) (payload : List ℕ)
        → P key st
        → Known key seq payload
        → seq ≡ st.next_expected_seq
        → P key (stitch st payload)

  unfoldable pub Opened : Config → ℕ → ℕ → TcpHdr → Type 0
  Opened cfg now ip hdr =
      (payload : List ℕ)
      → P (ip, hdr.source_port)
          (record {
            data_received = [];
            next_expected_seq = add32 hdr.seq 1;
            next_expected_ack = add32 hdr.ack_number (length payload);
            reorder_buffer = [];
            expires_at = now + cfg.timeout;
          })

  syn_ack-Each :
      (cfg : Config) (now : ℕ) (r : Responder s) (ip : ℕ) (hdr : TcpHdr)
      → Opened cfg now ip hdr
      → Each r.connections
      → Each (process_syn_ack s cfg now r ip hdr).0.connections
  unfolding process_syn_ack Opened
  syn_ack-Each cfg now r ip hdr p h =
      let port = hdr.source_port in
      elim (Bool-cases (hdr.ack_number == add32 (s.cookie ip port cfg.seed) 1)) [
        | inr wrong ↦ rw (wrong, process_syn_ack) (record_empty-Each r ip port h)
        | inl right ↦ elim (Option-cases (s.build ip port)) [
          | inl none_built ↦
              rw (right, none_built, process_syn_ack)
                (and_then-Each _ _ (send_packet-Each r _ h)
                  (λ r1 h1. and_then-Each _ _ (record_empty-Each r1 ip port h1) (λ r2 h2. h2)))
          | inr (payload, built) ↦
              rw (right, built, process_syn_ack)
                (and_then-Each _ _ (send_packet-Each r _ h)
                  (λ r1 h1. insert-Each (ip, port) _ r1.connections h1 (p payload)))
        ]
      ]

  finish_ack-Each :
      (cfg : Config) (Known : ℕ × ℕ → ℕ → List ℕ → Type 0) (r : Responder s) (ip : ℕ) (hdr : TcpHdr)
      (st : State) (x : ParseResult s.Banner)
      → Kept cfg Known
      → P (ip, hdr.source_port) st
      → Each r.connections
      → Each (finish_ack s cfg r ip hdr st x).0.connections
  unfolding finish_ack
  finish_ack-Each cfg Known r ip hdr st (banner b) k p h =
      and_then-Each _ _ (send_packet-Each _ _ (remove-Each (ip, hdr.source_port) r.connections h))
        (λ r1 h1.
          and_then-Each _ _ (record_hit-Each _ ip hdr.source_port (s.hash64 b) h1) (λ r2 h2. h2))
  finish_ack-Each cfg Known r ip hdr st invalid k p h =
      and_then-Each _ _ (record_empty-Each r ip hdr.source_port h)
        (λ r1 h1. send_packet-Each _ _ (remove-Each (ip, hdr.source_port) r1.connections h1))
  finish_ack-Each cfg Known r ip hdr st incomplete k p h = send_packet-Each _ _ (
      insert-Each (ip, hdr.source_port) _ r.connections h (k.extended (ip, hdr.source_port) st _ p))

  ack_connection-Each :
      (cfg : Config) (Known : ℕ × ℕ → ℕ → List ℕ → Type 0) (r : Responder s) (ip : ℕ) (hdr : TcpHdr)
      (payload : List ℕ) (st : State)
      → Kept cfg Known
      → P (ip, hdr.source_port) st
      → Known (ip, hdr.source_port) hdr.seq payload
      → Each r.connections
      → Each (ack_connection s cfg r ip hdr payload st).0.connections
  unfolding ack_connection
  ack_connection-Each cfg Known r ip hdr payload st k p known h =
      let key : ℕ × ℕ = (ip, hdr.source_port) in
      if_elim (λ (o : Outcome s). Each o.0.connections)
        (not (hdr.ack_number == st.next_expected_ack)) _ _ h
        (elim (Bool-cases (hdr.seq == st.next_expected_seq)) [
          | inr out_of_order ↦ rw out_of_order (
              send_packet-Each _ _
                (insert-Each key _ r.connections h (k.held key st hdr.seq payload p known)))
          | inl next ↦ rw next (
              if_elim (λ (o : Outcome s). Each o.0.connections) (length payload == 0) _ _ h
                (let p' = k.stitched key st hdr.seq payload p known (ground (arith, next)) in
                  finish_ack-Each cfg Known _ ip hdr (stitch st payload) _ k p'
                    (insert-Each key _ r.connections h p')))
        ])

  there_P :
      (key : ℕ × ℕ) (r : Responder s) (st : State)
      → Each r.connections
      → lookup key r.connections ≡ some st
      → P key st
  unfolding Each
  there_P key r st h e = h key st e

  process_ack-Each :
      (cfg : Config) (Known : ℕ × ℕ → ℕ → List ℕ → Type 0) (r : Responder s) (ip : ℕ) (hdr : TcpHdr)
      (payload : List ℕ)
      → Kept cfg Known
      → Known (ip, hdr.source_port) hdr.seq payload
      → Each r.connections
      → Each (process_ack s cfg r ip hdr payload).0.connections
  unfolding process_ack
  process_ack-Each cfg Known r ip hdr payload k known h =
      let port = hdr.source_port in
      elim (Option-cases (lookup (ip, port) r.connections)) [
        | inl unknown ↦
            rw (unknown, process_ack)
              (and_then-Each _ _ (record_empty-Each r ip port h)
                (λ r1 h1. send_packet-Each r1 _ h1))
        | inr (st, there) ↦
            rw (there, process_ack)
              (ack_connection-Each cfg Known r ip hdr payload st k (there_P (ip, port) r st h there)
                known h)
      ]

  finish_fin-Each :
      (r : Responder s) (ip port : ℕ) (x : ParseResult s.Banner)
      → Each r.connections
      → Each (finish_fin s r ip port x).0.connections
  unfolding finish_fin
  finish_fin-Each r ip port (banner b) h =
      and_then-Each _ _ (record_hit-Each _ ip port (s.hash64 b) h) (λ r1 h1. h1)
  finish_fin-Each r ip port invalid h = record_empty-Each r ip port h
  finish_fin-Each r ip port incomplete h = record_empty-Each r ip port h

  close_fin-Each :
      (r : Responder s) (ip port : ℕ) (st : State) (payload : List ℕ)
      → Each r.connections
      → Each
          (if length payload == 0
            then record_empty s (close s r (ip, port)) ip port
            else finish_fin s
                (close s r (ip, port))
                ip
                port
                (parse (st.data_received ++ payload))).0.connections
  close_fin-Each r ip port st payload h =
      let h' = remove-Each (ip, port) r.connections h in
      if_elim (λ (o : Outcome s). Each o.0.connections) (length payload == 0)
        (record_empty s (close s r (ip, port)) ip port)
        (finish_fin s (close s r (ip, port)) ip port (parse (st.data_received ++ payload)))
        (record_empty-Each (close s r (ip, port)) ip port h')
        (finish_fin-Each (close s r (ip, port)) ip port (parse (st.data_received ++ payload)) h')

  process_fin-Each :
      (r : Responder s) (ip : ℕ) (hdr : TcpHdr) (payload : List ℕ)
      → Each r.connections
      → Each (process_fin s r ip hdr payload).0.connections
  unfolding process_fin
  process_fin-Each r ip hdr payload h =
      let port = hdr.source_port in
      and_then-Each _ _ (send_packet-Each r _ h) (λ r1 h1.
        elim (Option-cases (lookup (ip, port) r1.connections)) [
          | inl unknown ↦ rw unknown (record_empty-Each r1 ip port h1)
          | inr (st, there) ↦ rw there (close_fin-Each r1 ip port st payload h1)
        ])

  process_rst-Each :
      (r : Responder s) (ip : ℕ) (hdr : TcpHdr)
      → Each r.connections
      → Each (process_rst s r ip hdr).0.connections
  unfolding process_rst
  process_rst-Each r ip hdr h =
      and_then-Each _ _ (record_empty-Each r ip hdr.source_port h)
        (λ r1 h1. remove-Each (ip, hdr.source_port) r1.connections h1)

  pub record Admissible (cfg : Config) (Known : ℕ × ℕ → ℕ → List ℕ → Type 0) (g : Segment)
      : Type 0 where
    pub opened : contains_flags g.hdr.flags 18 ≡ true → Opened cfg g.time g.ip g.hdr
    pub known :
        contains_flags g.hdr.flags 4 ≡ false
        → contains_flags g.hdr.flags 1 ≡ false
        → contains_flags g.hdr.flags 18 ≡ false
        → Known (g.ip, g.hdr.source_port) g.hdr.seq g.payload

  process_segment-Each :
      (cfg : Config) (Known : ℕ × ℕ → ℕ → List ℕ → Type 0) (r : Responder s) (g : Segment)
      → Kept cfg Known
      → Admissible cfg Known g
      → Each r.connections
      → Each (process_segment s cfg g.time r g.ip g.hdr g.payload).0.connections
  unfolding process_segment
  process_segment-Each cfg Known r g k a h =
      let flags = g.hdr.flags in
      elim (Bool-cases (contains_flags flags 4)) [
        | inl reset ↦ rw reset (process_rst-Each r g.ip g.hdr h)
        | inr no_reset ↦ elim (Bool-cases (contains_flags flags 1)) [
          | inl fin ↦ rw (no_reset, fin) (process_fin-Each r g.ip g.hdr g.payload h)
          | inr no_fin ↦ elim (Bool-cases (contains_flags flags 18)) [
            | inl opens ↦
                rw (no_reset, no_fin, opens)
                  (syn_ack-Each cfg g.time r g.ip g.hdr (a.opened opens) h)
            | inr plain ↦
                rw (no_reset, no_fin, plain)
                  (if_elim (λ (o : Outcome s). Each o.0.connections) (contains_flags flags 16) _ _
                    (process_ack-Each cfg Known r g.ip g.hdr g.payload k
                      (a.known no_reset no_fin plain) h)
                    h)
          ]
        ]
      ]

  unfoldable pub AllAdmissible : Config → (ℕ × ℕ → ℕ → List ℕ → Type 0) → List Segment → Type 0
  AllAdmissible cfg Known [] = Unit {0}
  AllAdmissible cfg Known (g ∷ rest) = Admissible cfg Known g × AllAdmissible cfg Known rest

  process_all-Each :
      (cfg : Config) (Known : ℕ × ℕ → ℕ → List ℕ → Type 0) (r : Responder s) (batch : List Segment)
      → Kept cfg Known
      → AllAdmissible cfg Known batch
      → Each r.connections
      → Each (process_all s cfg r batch).connections
  unfolding process_all AllAdmissible
  process_all-Each cfg Known r [] k a h = h
  process_all-Each cfg Known r (g ∷ rest) k a h =
      process_all-Each cfg Known (process_segment s cfg g.time r g.ip g.hdr g.payload).0 rest k a.1
        (process_segment-Each cfg Known r g k a.0 h)

  pub expire_loop-Each :
      (now : ℕ) (r : Responder s) (entries : List (ℕ × (ℕ × ℕ)))
      → Each r.connections
      → Each (expire_loop s now r entries).0.connections
  unfolding expire_loop
  expire_loop-Each now r [] h = h
  expire_loop-Each now r ((expiry, key) ∷ rest) h =
      let Good : Outcome s → Type 0 = λ o. Each o.0.connections in
      if_elim Good (contains_key key r.connections) _ _
        (if_elim Good (ltb now expiry) _ _ h (
          and_then-Each _ _ (record_empty-Each _ key.0 key.1 (remove-Each key r.connections h))
            (λ r1 h1. expire_loop-Each now r1 rest h1)))
        (expire_loop-Each now r rest h)

  -- Whatever the segments of a batch do, a tick keeps the predicate.
  pub tick-Each :
      (cfg : Config) (Known : ℕ × ℕ → ℕ → List ℕ → Type 0) (now : ℕ) (r : Responder s)
      (arrival : Arrival)
      → Kept cfg Known
      → AllAdmissible cfg Known (arrived_segments arrival)
      → Each r.connections
      → Each (tick s cfg now r arrival).0.connections
  unfolding tick expire
  tick-Each cfg Known now r receive_failed k a h = h
  tick-Each cfg Known now r nothing_arrived k a h = h
  tick-Each cfg Known now r (arrived batch) k a h =
      expire_loop-Each now _ _ (process_all-Each cfg Known r batch k a h)
