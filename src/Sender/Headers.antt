-- ===== src/Sender/Headers.antt =====
-- The checksums of the packets that the sender writes.
use farsight.Prelude.{ℕ, ◌+◌, ◌*◌, ◌/◌, ◌%◌, ◌^◌, ◌<◌, ◌≡◌, ap, ◌∙◌, arith, false}
use farsight.Tcp.{PacketTemplate, octets, ipv4_sum, Frame}
use farsight.Tcp.Sums.{internet_sum, ones_complement, slice, ones_complement-fold}
use farsight.Sender.{Shared, Sender, write_syn, write_control, checksum}
use farsight.Sender.Template.{
  IsTemplate, HasSums, fixed_ipv4_sum_lem, fixed_tcp_sum_lem, tcp_sum, Verifies,
}

-- A checksum, put in two bytes.
pub halves : (v : ℕ) → v < 65536 → v / 256 % 256 * 256 + v % 256 ≡ v
halves v lt = omega arith

pub write_syn-ip :
    (shared : Shared) (s : Sender) (p : PacketTemplate) (seq : ℕ) (f : Frame)
    → IsTemplate shared.source_ip f
    → HasSums shared s
    → let a = s.ipv4_checksum + ipv4_sum (octets p.ip) in
      internet_sum (slice (write_syn s p seq f) 14 20) ≡ a % 2 ^ 32 + checksum a
unfolding write_syn internet_sum slice ipv4_sum
write_syn-ip shared s p seq f t sums =
    let a = s.ipv4_checksum + ipv4_sum (octets p.ip) in
    let put = halves (checksum a) (omega arith) in
    omega (arith, put, sums.0, fixed_ipv4_sum_lem shared, t)

-- The words of a number of 32 bits.
pub words : (v : ℕ) → v < 2 ^ 32 → v / 2 ^ 16 / 256 % 256 * 256 + v / 2 ^ 16 % 256 ≡ v / 2 ^ 16
words v lt = omega arith

-- The arguments of a packet have their widths.
abbrev pub Fits : PacketTemplate → Type 0
Fits p = (p.source_port < 2 ^ 16) × (p.destination_port < 2 ^ 16)

write_syn-tcp :
    (shared : Shared) (s : Sender) (p : PacketTemplate) (seq : ℕ) (f : Frame)
    → IsTemplate shared.source_ip f
    → HasSums shared s
    → shared.offload ≡ false
    → Fits p
    → seq < 2 ^ 32
    → let a =
        s.tcp_checksum
        + ipv4_sum (octets p.ip)
        + p.source_port
        + p.destination_port
        + seq / 2 ^ 16
        + seq % 2 ^ 16
        + 2 in
      tcp_sum (write_syn s p seq f) ≡ a % 2 ^ 32 + checksum a
unfolding write_syn internet_sum slice ipv4_sum
write_syn-tcp shared s p seq f t sums direct ports lt =
    let a =
      s.tcp_checksum
      + ipv4_sum (octets p.ip)
      + p.source_port
      + p.destination_port
      + seq / 2 ^ 16
      + seq % 2 ^ 16
      + 2 in
    let put = halves (checksum a) (omega arith) in
    let off : s.checksum_offload ≡ false = sums.2 ∙ direct in
    rw off (
      omega (
        arith,
        put,
        words seq lt,
        halves p.source_port (omega arith),
        halves p.destination_port (omega arith),
        sums.1,
        fixed_tcp_sum_lem shared direct,
        t,
      ))

-- A sum and its checksum make a valid header.
pub checked : (a b : ℕ) → b ≡ a % 2 ^ 32 + checksum a → ones_complement b ≡ 65535
checked a b e = ap ones_complement e ∙ ones_complement-fold (a % 2 ^ 32) (omega arith)

-- Let the frame be the template and the sums those of the template, without offload. The header
-- that `send_syn` and `send_syn_batch` write for ports of 16 bits and a sequence number of 32 bits
-- passes both tests of the receiver: the one's complement sums over the header of IP, and over the
-- pseudo-header with the segment of TCP, are all ones.
pub write_syn-Verifies :
    (shared : Shared) (s : Sender) (p : PacketTemplate) (seq : ℕ) (f : Frame)
    → IsTemplate shared.source_ip f
    → HasSums shared s
    → shared.offload ≡ false
    → Fits p
    → seq < 2 ^ 32
    → Verifies (write_syn s p seq f)
write_syn-Verifies shared s p seq f t sums direct ports lt = (
  checked _ _ (write_syn-ip shared s p seq f t sums),
  checked _ _ (write_syn-tcp shared s p seq f t sums direct ports lt),
)

write_control-ip :
    (shared : Shared) (s : Sender) (flags ip source_port port seq ack : ℕ) (f : Frame)
    → IsTemplate shared.source_ip f
    → HasSums shared s
    → let a = s.ipv4_checksum + ipv4_sum (octets ip) in
      internet_sum (slice (write_control s flags ip source_port port seq ack f) 14 20)
      ≡ a % 2 ^ 32 + checksum a
unfolding write_control internet_sum slice ipv4_sum
write_control-ip shared s flags ip source_port port seq ack f t sums =
    let put = halves (checksum (s.ipv4_checksum + ipv4_sum (octets ip))) (omega arith) in
    omega (arith, put, sums.0, fixed_ipv4_sum_lem shared, t)

-- The numbers of a segment have their widths.
abbrev pub AreWords : ℕ → ℕ → ℕ → ℕ → Type 0
AreWords source_port port seq ack =
    (source_port < 2 ^ 16) × (port < 2 ^ 16) × (seq < 2 ^ 32) × (ack < 2 ^ 32)

write_control-tcp :
    (shared : Shared) (s : Sender) (flags ip source_port port seq ack : ℕ) (f : Frame)
    → IsTemplate shared.source_ip f
    → HasSums shared s
    → shared.offload ≡ false
    → AreWords source_port port seq ack
    → let a =
        s.tcp_checksum
        + ipv4_sum (octets ip)
        + source_port
        + port
        + seq / 2 ^ 16
        + seq % 2 ^ 16
        + ack / 2 ^ 16
        + ack % 2 ^ 16
        + flags in
      flags < 256
      → tcp_sum (write_control s flags ip source_port port seq ack f) ≡ a % 2 ^ 32 + checksum a
unfolding write_control internet_sum slice ipv4_sum
write_control-tcp shared s flags ip source_port port seq ack f t sums direct (ps, pd, ls, la) lf =
    let a =
      s.tcp_checksum
      + ipv4_sum (octets ip)
      + source_port
      + port
      + seq / 2 ^ 16
      + seq % 2 ^ 16
      + ack / 2 ^ 16
      + ack % 2 ^ 16
      + flags in
    let put = halves (checksum a) (omega arith) in
    let off : s.checksum_offload ≡ false = sums.2 ∙ direct in
    rw off (
      omega (
        arith,
        put,
        words seq ls,
        words ack la,
        halves source_port ps,
        halves port pd,
        sums.1,
        fixed_tcp_sum_lem shared direct,
        t,
      ))

-- The same of the header that `send` writes, with any flags and any number of acknowledgement.
pub write_control-Verifies :
    (shared : Shared) (s : Sender) (flags ip source_port port seq ack : ℕ) (f : Frame)
    → IsTemplate shared.source_ip f
    → HasSums shared s
    → shared.offload ≡ false
    → AreWords source_port port seq ack
    → flags < 256
    → Verifies (write_control s flags ip source_port port seq ack f)
write_control-Verifies shared s flags ip source_port port seq ack f t sums direct fits lf = (
  checked _ _ (write_control-ip shared s flags ip source_port port seq ack f t sums),
  checked _ _
      (write_control-tcp shared s flags ip source_port port seq ack f t sums direct fits lf),
)
