-- ===== src/Sender/Offload.antt =====
-- With `checksum_offload` the interface completes the checksum of TCP over what the sender leaves in
-- its field.
use farsight.Prelude.{
  ℕ, ◌+◌, ◌-◌, ◌*◌, ◌%◌, ◌^◌, ◌<◌, ◌≡◌, ◌≢◌, refl, sym, ap, ap₂, ◌∙◌, List, ◌++◌, length, arith,
  true, false, ◌==◌,
}
use farsight.Tcp.{PacketTemplate, octets, ipv4_sum, fold, Frame, write16}
use farsight.Tcp.Sums.{
  internet_sum, ones_complement, slice, slice-append, slice_same, fold-ones_complement, fold-bound,
}
use farsight.Sender.{Shared, Sender, fixed_tcp_sum, write_syn, write_data}
use farsight.Sender.Template.{IsTemplate, HasSums, tcp_length, tcp_sum, Verifies}
use farsight.Sender.Headers.{halves, checked, write_syn-ip}

-- The interface, by the start of the segment, the place of the checksum in it and the segment's
-- length: it puts the complement of the sum over the segment, field included, into the field.
pub record Interface : Type 0 where
  pub complete : ℕ → ℕ → ℕ → Frame → Frame
  pub complete_lem :
      (start offset n : ℕ) (f : Frame)
      → complete start offset n f
        ≡ write16 f (start + offset) (65535 - ones_complement (internet_sum (slice f start n)))

abbrev pub computing : Interface
computing = record {
  complete = λ start offset n f.
      write16 f (start + offset) (65535 - ones_complement (internet_sum (slice f start n)));
  complete_lem = λ start offset n f. refl;
}

-- The sum over a segment without its checksum.
rest : Frame → ℕ → ℕ
rest f n = internet_sum (slice f 34 16) + internet_sum (slice f 52 (10 + n))

segment-sum :
    (f : Frame) (n : ℕ) → internet_sum (slice f 34 (28 + n)) ≡ rest f n + (f 50 * 256 + f 51)
unfolding rest slice internet_sum
segment-sum f n =
    let parts : 28 + n ≡ 18 + (10 + n) = omega arith in
    let split : internet_sum (slice f 34 (28 + n))
        ≡ internet_sum (slice f 34 18 ++ slice f 52 (10 + n)) =
      ap internet_sum (ap (slice f 34) parts ∙ slice-append f 34 18 (10 + n)) in
    omega (arith, split)

rest-write16 : (f : Frame) (v n : ℕ) → rest (write16 f 50 v) n ≡ rest f n
unfolding rest slice
rest-write16 f v n =
    ap (λ b. internet_sum (slice f 34 16) + internet_sum b)
      (slice_same (write16 f 50 v) f 52 (10 + n) (λ j le.
        let one : (j == 50) ≡ false = ground arith in
        let two : (j == 51) ≡ false = ground arith in rw (one, two) refl))

-- The pseudo-header without the length.
pseudo : Frame → ℕ
pseudo f = internet_sum (slice f 26 8) + f 23

-- What the completed checksum makes of the receiver's sum.
completed-sum :
    (i : Interface) (f : Frame) (n : ℕ)
    → tcp_length f ≡ 28 + n
    → tcp_sum (i.complete 34 16 (28 + n) f)
      ≡ pseudo f + (28 + n) + rest f n + (65535 - ones_complement (rest f n + (f 50 * 256 + f 51)))
unfolding pseudo slice internet_sum
completed-sum i f n long =
    let v = 65535 - ones_complement (rest f n + (f 50 * 256 + f 51)) in
    let field : i.complete 34 16 (28 + n) f ≡ write16 f 50 v =
      i.complete_lem 34 16 (28 + n) f
      ∙ ap (λ t. write16 f 50 (65535 - ones_complement t)) (segment-sum f n) in
    let put = halves v (omega arith) in
    rw field (
      omega (
        arith,
        put,
        rest-write16 f v n,
        segment-sum (write16 f 50 v) n,
        ap (λ m. internet_sum (slice (write16 f 50 v) 34 m)) long,
        long,
      ))

carries_complete :
    (x r : ℕ) → ones_complement (x + r + (65535 - ones_complement (r + ones_complement x))) ≡ 65535
carries_complete x r = ground arith

carries_short :
    (x r n : ℕ)
    → 0 < n
    → n < 65535
    → ones_complement (x + n + r + (65535 - ones_complement (r + ones_complement x))) ≢ 65535
carries_short x r n pos lt = ground arith

-- The partial checksum: the one's complement sum over the pseudo-header of a segment without data.
partial_sum : Shared → ℕ → ℕ
partial_sum shared ip = 34 + ipv4_sum (octets shared.source_ip) + ipv4_sum (octets ip)

partial-fold :
    (shared : Shared) (s : Sender) (ip : ℕ)
    → HasSums shared s
    → shared.offload ≡ true
    → fold ((s.tcp_checksum + ipv4_sum (octets ip)) % 2 ^ 32)
      ≡ ones_complement (partial_sum shared ip)
unfolding partial_sum fixed_tcp_sum ipv4_sum
partial-fold shared s ip sums on =
    let kept : s.tcp_checksum ≡ 34 + ipv4_sum (octets shared.source_ip) =
      sums.1 ∙ rw on (omega arith) in
    let same : (s.tcp_checksum + ipv4_sum (octets ip)) % 2 ^ 32 ≡ partial_sum shared ip =
      omega (arith, kept) in
    ap fold same ∙ fold-ones_complement (partial_sum shared ip) (omega arith)

-- The pseudo-header of a frame, and its partial checksum.
IsPartial : Shared → ℕ → Frame → ℕ → Type 0
IsPartial shared ip f n =
    (tcp_length f ≡ 28 + n)
    × (pseudo f + 28 ≡ partial_sum shared ip)
    × (f 50 * 256 + f 51 ≡ ones_complement (partial_sum shared ip))

IsPartial-sum :
    (i : Interface) (shared : Shared) (ip : ℕ) (f : Frame) (n : ℕ)
    → IsPartial shared ip f n
    → let x = partial_sum shared ip in
      tcp_sum (i.complete 34 16 (28 + n) f)
      ≡ x + n + rest f n + (65535 - ones_complement (rest f n + ones_complement x))
unfolding IsPartial
IsPartial-sum i shared ip f n (long, heads, field) =
    completed-sum i f n long
    ∙ ap₂ (λ h c. h + rest f n + (65535 - ones_complement (rest f n + c))) (omega (arith, heads))
        field

write_syn-IsPartial :
    (shared : Shared) (s : Sender) (p : PacketTemplate) (seq : ℕ) (f : Frame)
    → IsTemplate shared.source_ip f
    → HasSums shared s
    → shared.offload ≡ true
    → IsPartial shared p.ip (write_syn s p seq f) 0
unfolding IsPartial write_syn pseudo partial_sum slice internet_sum ipv4_sum
write_syn-IsPartial shared s p seq f t sums on =
    let off : s.checksum_offload ≡ true = sums.2 ∙ on in
    let partial = partial-fold shared s p.ip sums on in
    let put = halves (fold ((s.tcp_checksum + ipv4_sum (octets p.ip)) % 2 ^ 32)) (fold-bound _) in
    rw off (omega arith, omega (arith, t), put ∙ partial)

write_data-IsPartial :
    (shared : Shared) (s : Sender) (ip source_port port seq ack : ℕ) (body : List ℕ) (f : Frame)
    → 48 + length body < 2 ^ 16
    → IsTemplate shared.source_ip f
    → HasSums shared s
    → shared.offload ≡ true
    → IsPartial shared ip (write_data s ip source_port port seq ack body f) (length body)
unfolding IsPartial write_data pseudo partial_sum slice internet_sum ipv4_sum
write_data-IsPartial shared s ip source_port port seq ack body f short t sums on =
    let off : s.checksum_offload ≡ true = sums.2 ∙ on in
    let partial = partial-fold shared s ip sums on in
    let put = halves (fold ((s.tcp_checksum + ipv4_sum (octets ip)) % 2 ^ 32)) (fold-bound _) in
    rw off (omega arith, omega (arith, t), put ∙ partial)

complete-ip :
    (i : Interface) (f : Frame) (n : ℕ)
    → internet_sum (slice (i.complete 34 16 n f) 14 20) ≡ internet_sum (slice f 14 20)
unfolding slice
complete-ip i f n = rw (i.complete_lem 34 16 n f) refl

-- Let the frame be the template and the sums those of the template, with offload. Once the interface
-- has completed the checksum, from offset 34 on and in the field at 16 as `Sender::new` requests it,
-- the SYN passes both tests of the receiver.
pub complete-write_syn-Verifies :
    (i : Interface) (shared : Shared) (s : Sender) (p : PacketTemplate) (seq : ℕ) (f : Frame)
    → IsTemplate shared.source_ip f
    → HasSums shared s
    → shared.offload ≡ true
    → Verifies (i.complete 34 16 28 (write_syn s p seq f))
complete-write_syn-Verifies i shared s p seq f t sums on =
    let g = write_syn s p seq f in
    let partial = write_syn-IsPartial shared s p seq f t sums on in
    (
      ap ones_complement (complete-ip i g 28) ∙ checked _ _ (write_syn-ip shared s p seq f t sums),
      ap ones_complement (IsPartial-sum i shared p.ip g 0 partial)
          ∙ ap ones_complement (
              ap
                (λ x.
                  x
                  + rest g 0
                  + (65535
                      - ones_complement (rest g 0 + ones_complement (partial_sum shared p.ip))))
                (omega arith))
          ∙ carries_complete (partial_sum shared p.ip) (rest g 0),
    )

-- With offload, `send_with_data` leaves the length of the body out of the pseudo-header: whatever the
-- other fields are, a segment with a body fails the receiver's test once the interface has completed
-- its checksum.
pub complete-write_data-fails :
    (i : Interface) (shared : Shared) (s : Sender) (ip source_port port seq ack : ℕ) (body : List ℕ)
    (f : Frame)
    → 0 < length body
    → 48 + length body < 2 ^ 16
    → IsTemplate shared.source_ip f
    → HasSums shared s
    → shared.offload ≡ true
    → ones_complement (
        tcp_sum
          (i.complete 34 16 (28 + length body) (write_data s ip source_port port seq ack body f)))
      ≢ 65535
complete-write_data-fails i shared s ip source_port port seq ack body f pos short t sums on =
    let g = write_data s ip source_port port seq ack body f in
    let partial =
      write_data-IsPartial shared s ip source_port port seq ack body f short t sums on in
    λ e.
      carries_short (partial_sum shared ip) (rest g (length body)) (length body) pos (omega arith)
        (sym (ap ones_complement (IsPartial-sum i shared ip g (length body) partial)) ∙ e)
