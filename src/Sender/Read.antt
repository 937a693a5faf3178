-- ===== src/Sender/Read.antt =====
-- What the responder at the other end would read from a segment with data.
use Prim.Native.Nat.{bit_and}
use farsight.Prelude.{
  ℕ, ◌+◌, ◌-◌, ◌*◌, ◌/◌, ◌%◌, ◌^◌, ◌≤◌, ◌<◌, ◌≡◌, refl, ap, ap₂, ◌∙◌, List, length, arith,
}
use farsight.Tcp.{Frame}
use farsight.Tcp.Sums.{slice}
use farsight.Sender.{Sender, write_data}
use farsight.Sender.Template.{IsTemplate}
use farsight.Sender.Headers.{halves, words, AreWords}
use farsight.Sender.Body.{written, written-body}
use farsight.Responder.Cut.{segment, read32, read_header, tcp_start, data_start, packet_end, cut}

-- A cut at known places.
cut-at :
    (f : Frame) (len start end : ℕ)
    → 30 ≤ len
    → tcp_start f ≡ 34
    → data_start f ≡ start
    → packet_end f len ≡ end
    → 48 ≤ start
    → start ≤ end
    → end ≤ len
    → cut f len ≡ segment (read32 f 26) (read_header f 34) (slice f start (end - start))
unfolding cut
cut-at f len start end long tcp first last enough some within = rw (tcp, first, last) (ground arith)

-- The bytes of a number of 32 bits.
long_word :
    (v : ℕ)
    → v < 2 ^ 32
    → (v / 2 ^ 16 / 256 % 256 * 256 + v / 2 ^ 16 % 256) * 2 ^ 16
        + (v % 2 ^ 16 / 256 % 256 * 256 + v % 2 ^ 16 % 256)
      ≡ v
long_word v lt = omega (arith, words v lt, halves (v % 2 ^ 16) (omega arith))

module _ (s : Sender) (ip source_port port seq ack : ℕ) (body : List ℕ) (f : Frame)
    (short : 48 + length body < 2 ^ 16) (source : ℕ) (t : IsTemplate source f) where
  packet : Frame
  packet = write_data s ip source_port port seq ack body f

  packet-tcp_start : tcp_start packet ≡ 34
  unfolding packet write_data tcp_start
  packet-tcp_start = ap (λ b. 14 + bit_and b 15 * 4 % 256) t.0.0

  packet-data_start : data_start packet ≡ 62
  unfolding packet write_data data_start
  packet-data_start =
      let there : packet (34 + 12) ≡ 112 = t.3.0 in rw (packet-tcp_start, there) refl

  packet-packet_end : packet_end packet (62 + length body) ≡ 62 + length body
  unfolding packet write_data packet_end
  packet-packet_end = omega arith

  packet-read_header :
      AreWords source_port port seq ack
      → read_header packet 34 ≡ record {
        source_port = source_port;
        dest_port = port;
        seq = seq;
        ack_number = ack;
        flags = 24;
      }
  unfolding packet write_data read_header
  packet-read_header (ps, pd, ls, la) =
      rw (halves source_port ps, halves port pd, long_word seq ls, long_word ack la) refl

  packet-source : source < 2 ^ 32 → read32 packet 26 ≡ source
  unfolding packet write_data
  packet-source low = omega (arith, t.2)

-- Let the frame be the template of a source address, and the body fit into a packet. From the
-- segment that `send_with_data` writes, `process_packet` cuts out that address, a header with the
-- two ports, the sequence number, the number of acknowledgement and the flags PSH and ACK, and the body,
-- whatever the length of the body is.
pub cut-write_data :
    (s : Sender) (ip source_port port seq ack : ℕ) (body : List ℕ) (f : Frame) (source : ℕ)
    → 48 + length body < 2 ^ 16
    → source < 2 ^ 32
    → IsTemplate source f
    → AreWords source_port port seq ack
    → cut (write_data s ip source_port port seq ack body f) (62 + length body)
      ≡ segment source
          (record {
            source_port = source_port;
            dest_port = port;
            seq = seq;
            ack_number = ack;
            flags = 24;
          })
          body
unfolding packet written
cut-write_data s ip source_port port seq ack body f source short low t fits =
    let n = length body in
    let g = write_data s ip source_port port seq ack body f in
    let rest : 62 + n - 62 ≡ n = omega arith in
    cut-at g (62 + n) 62 (62 + n) (omega arith)
      (packet-tcp_start s ip source_port port seq ack body f short source t)
      (packet-data_start s ip source_port port seq ack body f short source t)
      (packet-packet_end s ip source_port port seq ack body f short source t) (omega arith)
      (omega arith) (omega arith)
    ∙ ap (λ a. segment a (read_header g 34) (slice g 62 (62 + n - 62)))
        (packet-source s ip source_port port seq ack body f short source t low)
    ∙ ap₂ (λ h b. segment source h b)
        (packet-read_header s ip source_port port seq ack body f short source t fits)
        (ap (slice g 62) rest ∙ written-body s ip source_port port seq ack body f short)
