-- ===== src/Responder/Cut.antt =====
-- farsight/src/controller/responder.rs: the head of `process_packet`, which cuts a frame into the
-- peer's address, the header and the payload. An index outside the frame panics.
use Prim.Native.Nat.{bit_and}
use farsight.Prelude.{
  ℕ, ◌+◌, ◌-◌, ◌*◌, ◌/◌, ◌%◌, ◌^◌, true, List, Option, none, some, ltb, leb, min, if◌then◌else◌,
}
use farsight.Tcp.{Frame}
use farsight.Tcp.Sums.{slice}
use farsight.Responder.Types.{Services, Config, TcpHdr, Responder}
use farsight.Responder.{Outcome, process_segment}

pub data Cut : Type 0 where
  panics ignored : Cut
  segment : ℕ → TcpHdr → List ℕ → Cut

-- `get` of a `network_endian::U16` or `U32` at an offset.
abbrev pub read16 : Frame → ℕ → ℕ
read16 f i = f i * 256 + f (i + 1)

abbrev pub read32 : Frame → ℕ → ℕ
read32 f i = read16 f i * 2 ^ 16 + read16 f (i + 2)

-- The fields of the `TcpHdr` at an offset.
unfoldable pub read_header : Frame → ℕ → TcpHdr
read_header f i = record {
  source_port = read16 f i;
  dest_port = read16 f (i + 2);
  seq = read32 f (i + 4);
  ack_number = read32 f (i + 8);
  flags = f (i + 13);
}

-- The start of the segment in the frame: a shift of a `u8`.
unfoldable pub tcp_start : Frame → ℕ
tcp_start f = 14 + bit_and (f 14) 15 * 4 % 256

unfoldable pub data_start : Frame → ℕ
data_start f = tcp_start f + bit_and (f (tcp_start f + 12)) 240 / 4

-- The end of the packet, without the padding of the frame.
unfoldable pub packet_end : Frame → ℕ → ℕ
packet_end f len = min (14 + read16 f 16) len

-- The head of `process_packet` on a frame of `len` bytes.
unfoldable pub cut : Frame → ℕ → Cut
cut f len =
    if ltb len 30
    then panics
    else if leb len (tcp_start f + 12)
    then panics
    else if ltb (packet_end f len) (data_start f)
    then ignored
    else if ltb len (tcp_start f + 14)
    then panics
    else segment (read32 f 26) (read_header f (tcp_start f))
        (slice f (data_start f) (packet_end f len - data_start f))

-- `process_packet`, with `none` for a panic.
unfoldable pub process_packet :
    (s : Services) → Config → ℕ → Responder s → Frame → ℕ → Option (Outcome s)
process_packet s cfg now r f len = elim (cut f len) [
  | panics ↦ none
  | ignored ↦ some (r, true)
  | segment ip hdr payload ↦ some (process_segment s cfg now r ip hdr payload)
]
