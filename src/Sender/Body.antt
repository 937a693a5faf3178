-- ===== src/Sender/Body.antt =====
-- The checksums of a segment with data.
use farsight.Prelude.{
  ℕ, suc, ◌+◌, ◌-◌, ◌/◌, ◌%◌, ◌^◌, ◌≤◌, ◌<◌, ◌≡◌, refl, ap, ◌∙◌, List, ◌++◌, length, arith, false,
  ltb, ◌==◌,
}
use farsight.Tcp.{octets, ipv4_sum, sum_body, Frame, copy}
use farsight.Tcp.Sums.{
  internet_sum, slice, slice-append, slice_same, slice-copy, sum_body-internet_sum,
  internet_sum-bound, AreBytes,
}
use farsight.Sender.{Shared, Sender, write_data, checksum}
use farsight.Sender.Template.{
  IsTemplate, HasSums, fixed_ipv4_sum_lem, fixed_tcp_sum_lem, tcp_length, tcp_sum, Verifies,
}
use farsight.Sender.Headers.{halves, words, checked, AreWords}

module _ (s : Sender) (ip source_port port seq ack : ℕ) (body : List ℕ) (f : Frame)
    (short : 48 + length body < 2 ^ 16) where
  unfoldable pub written : Frame
  written = write_data s ip source_port port seq ack body f

  pub written-length : tcp_length written ≡ 28 + length body
  unfolding written write_data
  written-length = omega arith

  written_behind : (j : ℕ) → 62 ≤ j → written j ≡ copy f 62 body j
  unfolding written write_data
  written_behind j le =
      let past : (k : ℕ) → k < 62 → (j == k) ≡ false = λ k lt. ground arith in
      let low : ltb j 30 ≡ false = ground arith in
      let far : j - 30 ≡ suc (suc (suc (suc (j - 34)))) = omega arith in
      rw
        (
          past 47 (omega arith),
          past 51 (omega arith),
          past 50 (omega arith),
          past 25 (omega arith),
          past 24 (omega arith),
          past 35 (omega arith),
          past 34 (omega arith),
          past 37 (omega arith),
          past 36 (omega arith),
          past 17 (omega arith),
          past 16 (omega arith),
          past 41 (omega arith),
          past 40 (omega arith),
          past 39 (omega arith),
          past 38 (omega arith),
          past 45 (omega arith),
          past 44 (omega arith),
          past 43 (omega arith),
          past 42 (omega arith),
          low,
          far,
        )
        refl

  pub written-body : slice written 62 (length body) ≡ body
  written-body =
      slice_same written (copy f 62 body) 62 (length body) written_behind ∙ slice-copy f 62 body

  -- The segment is its header and the body.
  written-segment : slice written 34 (tcp_length written) ≡ slice written 34 28 ++ body
  written-segment =
      ap (slice written 34) written-length
      ∙ slice-append written 34 28 (length body)
      ∙ ap (λ b. slice written 34 28 ++ b)
          (slice_same written (copy f 62 body) 62 (length body) written_behind
            ∙ slice-copy f 62 body)

  module _ (shared : Shared) (t : IsTemplate shared.source_ip f) (sums : HasSums shared s) where
    written-ip :
        let a = s.ipv4_checksum + ipv4_sum (octets ip) + length body % 2 ^ 32 in
        internet_sum (slice written 14 20) ≡ a % 2 ^ 32 + checksum a
    unfolding written write_data internet_sum slice ipv4_sum
    written-ip =
        let a = s.ipv4_checksum + ipv4_sum (octets ip) + length body % 2 ^ 32 in
        let put = halves (checksum a) (omega arith) in
        omega (arith, put, sums.0, fixed_ipv4_sum_lem shared, t)

    data_sum : ℕ
    data_sum =
        s.tcp_checksum
        + ipv4_sum (octets ip)
        + source_port
        + port
        + seq / 2 ^ 16
        + seq % 2 ^ 16
        + ack / 2 ^ 16
        + ack % 2 ^ 16
        + 24
        + length body % 2 ^ 32
        + sum_body body

    -- The sum over the pseudo-header and the segment, with what stands in the field of the checksum.
    header_sum : ℕ
    header_sum =
        internet_sum (slice written 26 8)
        + written 23
        + (28 + length body)
        + internet_sum (slice written 34 28)

    written-sum : tcp_sum written ≡ header_sum + internet_sum body
    unfolding header_sum slice internet_sum
    written-sum =
        let joined : internet_sum (slice written 34 28 ++ body)
            ≡ internet_sum (slice written 34 28) + internet_sum body =
          omega arith in
        omega (arith, written-length, ap internet_sum written-segment, joined)

    written-header :
        shared.offload ≡ false
        → AreWords source_port port seq ack
        → AreBytes body
        → header_sum + internet_sum body ≡ data_sum % 2 ^ 32 + checksum data_sum
    unfolding data_sum header_sum written write_data slice internet_sum ipv4_sum
    written-header direct (ps, pd, ls, la) all =
        let same = sum_body-internet_sum body all (omega arith) in
        let put = halves (checksum data_sum) (omega arith) in
        let off : s.checksum_offload ≡ false = sums.2 ∙ direct in
        rw off (
          omega (
            arith,
            put,
            words seq ls,
            words ack la,
            halves source_port ps,
            halves port pd,
            sums.1,
            fixed_tcp_sum_lem shared direct,
            t,
            same,
            internet_sum-bound body all,
          ))

-- The same of the header that `send_with_data` writes before a body of bytes, odd in number or even,
-- that fits into a packet of IP; the segment is then the header and the body.
pub write_data-Verifies :
    (shared : Shared) (s : Sender) (ip source_port port seq ack : ℕ) (body : List ℕ) (f : Frame)
    → IsTemplate shared.source_ip f
    → HasSums shared s
    → shared.offload ≡ false
    → AreWords source_port port seq ack
    → AreBytes body
    → 48 + length body < 2 ^ 16
    → Verifies (write_data s ip source_port port seq ack body f)
unfolding written
write_data-Verifies shared s ip source_port port seq ack body f t sums direct fits all short = (
  checked _ _ (written-ip s ip source_port port seq ack body f short shared t sums),
  checked _ _ (
      written-sum s ip source_port port seq ack body f short shared t sums
      ∙ written-header s ip source_port port seq ack body f short shared t sums direct fits all),
)
