-- ===== src/Tcp.antt =====
-- farsight/src/net/tcp.rs: the template of a packet, the header written into it, the cookie and the
-- sums of the checksums. A frame is the function from an offset to its byte.
pub mod Sums
use farsight.Prelude.{
  ℕ, zero, suc, ◌+◌, ◌-◌, ◌*◌, ◌/◌, ◌%◌, ◌^◌, List, [], ◌∷◌, get_or, ltb, ◌==◌, if◌then◌else◌,
}

-- `TCP_PACKET`
abbrev pub tcp_packet : List ℕ
tcp_packet =
    0 ∷ 0 ∷ 0 ∷ 0 ∷ 0 ∷ 0 ∷ 0 ∷ 0 ∷ 0 ∷ 0 ∷ 0 ∷ 0 ∷ 8 ∷ 0 ∷ 69 ∷ 0 ∷ 0 ∷ 48 ∷ 0 ∷ 1 ∷ 64 ∷ 0 ∷ 64
    ∷ 6 ∷ 0 ∷ 0 ∷ 0 ∷ 0 ∷ 0 ∷ 0 ∷ 0 ∷ 0 ∷ 0 ∷ 0 ∷ 0 ∷ 0 ∷ 0 ∷ 0 ∷ 0 ∷ 0 ∷ 0 ∷ 0 ∷ 0 ∷ 0 ∷ 0 ∷ 0
    ∷ 112 ∷ 0 ∷ 128 ∷ 0 ∷ 0 ∷ 0 ∷ 0 ∷ 0 ∷ 2 ∷ 4 ∷ 5 ∷ 60 ∷ 1 ∷ 1 ∷ 4 ∷ 2 ∷ []

pub record PacketTemplate : Type 0 where
  pub source_port : ℕ
  pub ip : ℕ
  pub destination_port : ℕ

-- `Ipv4Addr::octets`
abbrev pub octets : ℕ → List ℕ
octets a = a / 2 ^ 24 % 256 ∷ a / 2 ^ 16 % 256 ∷ a / 2 ^ 8 % 256 ∷ a % 256 ∷ []

-- `cookie`, with `from_ne_bytes` on a little-endian machine.
unfoldable pub cookie : ℕ → ℕ → ℕ → ℕ
cookie address port seed =
    let k : ℕ = 17380933483125451205 in
    let ip : ℕ =
      address / 2 ^ 24 % 256
      + address / 2 ^ 16 % 256 * 2 ^ 8
      + address / 2 ^ 8 % 256 * 2 ^ 16
      + address % 256 * 2 ^ 24 in
    let first : ℕ = (ip * k % 2 ^ 64 + port) % 2 ^ 64 in
    let second : ℕ = (first * k % 2 ^ 64 + seed) % 2 ^ 64 in second * k % 2 ^ 64 % 2 ^ 32

-- `ipv4_sum`
unfoldable pub ipv4_sum : List ℕ → ℕ
ipv4_sum ip = get_or ip 0 0 * 256 + get_or ip 1 0 + (get_or ip 2 0 * 256 + get_or ip 3 0)

-- `fold`
unfoldable pub fold : ℕ → ℕ
fold sum = let carried = sum / 2 ^ 16 + sum % 2 ^ 16 in (carried + carried / 2 ^ 16) % 2 ^ 16

-- The loop of `sum_body` over the pairs, and the byte that remains.
unfoldable pub sum_loop : ℕ → List ℕ → ℕ
sum_loop sum [] = sum
sum_loop sum (last ∷ []) = (sum + last * 2 ^ 8) % 2 ^ 32
sum_loop sum (a ∷ b ∷ rest) = sum_loop ((sum + (a * 256 + b)) % 2 ^ 32) rest

-- `sum_body`
unfoldable pub sum_body : List ℕ → ℕ
sum_body bytes = sum_loop 0 bytes

-- A frame of the memory.
abbrev pub Frame : Type 0
Frame = ℕ → ℕ

abbrev pub write : Frame → ℕ → ℕ → Frame
write f i v j = if j == i then v else f j

-- `copy_from_slice` at an offset.
abbrev pub copy : Frame → ℕ → List ℕ → Frame
copy f i bytes j = if ltb j i then f j else get_or bytes (j - i) (f j)

-- `network_endian::U16::set` and `U32::set` of the fields at an offset.
abbrev pub write16 : Frame → ℕ → ℕ → Frame
write16 f i v = write (write f i (v / 256 % 256)) (i + 1) (v % 256)

abbrev pub write32 : Frame → ℕ → ℕ → Frame
write32 f i v = write16 (write16 f i (v / 2 ^ 16)) (i + 2) (v % 2 ^ 16)

-- The fields of `EthTcpIpHdr`, by their offsets.
abbrev pub set_len : ℕ → Frame → Frame
set_len v f = write16 f 16 v

abbrev pub set_ip_checksum : ℕ → Frame → Frame
set_ip_checksum v f = write16 f 24 v

abbrev pub set_dest_addr : ℕ → Frame → Frame
set_dest_addr ip f = copy f 30 (octets ip)

abbrev pub set_source_port : ℕ → Frame → Frame
set_source_port v f = write16 f 34 v

abbrev pub set_dest_port : ℕ → Frame → Frame
set_dest_port v f = write16 f 36 v

abbrev pub set_seq : ℕ → Frame → Frame
set_seq v f = write32 f 38 v

abbrev pub set_ack : ℕ → Frame → Frame
set_ack v f = write32 f 42 v

abbrev pub set_flags : ℕ → Frame → Frame
set_flags v f = write f 47 v

abbrev pub set_tcp_checksum : ℕ → Frame → Frame
set_tcp_checksum v f = write16 f 50 v
