-- ===== src/Sender.antt =====
-- farsight/src/controller/sender.rs: packets written into the frames of the transmit ring. The
-- completer that the sender ticks while it waits is a parameter. A body fits into its frame, as the
-- source asserts without a check.
pub mod Template
pub mod Headers
pub mod Body
pub mod Offload
pub mod Deliver
pub mod Valid
pub mod Slots
pub mod Ready
pub mod Read
mod Tests
use farsight.Prelude.{
  ℕ, zero, suc, ◌+◌, ◌-◌, ◌*◌, ◌/◌, ◌%◌, ◌^◌, Bool, true, false, not, ◌&&◌, Option, none, some,
  List, [], ◌∷◌, length, take, drop, ◌==◌, if◌then◌else◌,
}
use farsight.Words.{add32}
use farsight.Xdp.{Ring, Descriptor, needs_wakeup, index, store, reserve, submit, kernel_takes}
use farsight.Tcp.{
  tcp_packet, PacketTemplate, octets, cookie, ipv4_sum, fold, sum_body, Frame, copy, set_len,
  set_ip_checksum, set_dest_addr, set_source_port, set_dest_port, set_seq, set_ack, set_flags,
  set_tcp_checksum,
}

-- What the sender takes from the shared data.
pub record Shared : Type 0 where
  pub gateway : List ℕ
  pub interface : List ℕ
  pub source_ip : ℕ
  pub offload : Bool

-- `frames` is the memory, by the address of a frame.
pub record Sender : Type 0 where
  pub tcp_checksum : ℕ
  pub ipv4_checksum : ℕ
  pub frames : ℕ → Frame
  pub tx : Ring Descriptor
  pub checksum_offload : Bool

-- A slot's descriptor and its frame are changed.
unfoldable pub update_slot : ℕ → (Descriptor → Descriptor) → (Frame → Frame) → Sender → Sender
update_slot i change edit s =
    let desc = change (index s.tx i) in
    record s {
      tx = store s.tx i desc;
      frames = λ a. if a == desc.addr then edit (s.frames a) else s.frames a;
    }

-- The bytes that `Sender::new` copies into a frame.
unfoldable pub template : Shared → Frame → Frame
template shared f =
    copy (copy (copy (copy f 0 tcp_packet) 0 shared.gateway) 6 shared.interface) 26
      (octets shared.source_ip)

-- The address of a frame behind its metadata, and XDP_TX_METADATA when the checksums are offloaded.
unfoldable pub describe : Shared → ℕ → ℕ → Descriptor → Descriptor
describe shared frame_size i desc = record desc {
  addr = i * frame_size + 24;
  options = if shared.offload then 2 else desc.options;
}

-- The loop of `Sender::new`.
unfoldable pub describe_loop : ℕ → ℕ → Shared → ℕ → Sender → Sender
unfolding describe template
describe_loop zero i shared frame_size s = s
describe_loop (suc n) i shared frame_size s =
    describe_loop n (i + 1) shared frame_size
      (update_slot i (describe shared frame_size i) (template shared) s)

-- The sums of `Sender::new` over the fixed parts of the headers.
unfoldable pub fixed_tcp_sum : Shared → ℕ
fixed_tcp_sum shared =
    let source_ip_sum = ipv4_sum (octets shared.source_ip) in
    if shared.offload
    then (6 + 28 + source_ip_sum) % 2 ^ 32
    else (6 + 28 + sum_body (take 28 (drop 34 tcp_packet)) + source_ip_sum) % 2 ^ 32

unfoldable pub fixed_ipv4_sum : Shared → ℕ
fixed_ipv4_sum shared =
    (sum_body (take 20 (drop 14 tcp_packet)) + ipv4_sum (octets shared.source_ip)) % 2 ^ 32

-- `Sender::new`
unfoldable pub new : Shared → ℕ → (ℕ → Frame) → Ring Descriptor → ℕ → Sender
unfolding describe_loop fixed_tcp_sum fixed_ipv4_sum
new shared frame_size frames tx starting_frame =
    describe_loop tx.size starting_frame shared frame_size (record {
      tcp_checksum = fixed_tcp_sum shared;
      ipv4_checksum = fixed_ipv4_sum shared;
      frames = frames;
      tx = tx;
      checksum_offload = shared.offload;
    })

-- `!fold(…)` of a `u32` sum.
abbrev pub checksum : ℕ → ℕ
checksum sum = 65535 - fold (sum % 2 ^ 32)

-- The header of a SYN, in `send_syn` and `send_syn_batch`.
unfoldable pub write_syn : Sender → PacketTemplate → ℕ → Frame → Frame
write_syn s p seq f =
    let dest_sum = ipv4_sum (octets p.ip) in
    let addressed = set_len 48 (set_seq seq (set_ack 0 (set_dest_addr p.ip f))) in
    let ported = set_source_port p.source_port (set_dest_port p.destination_port addressed) in
    let summed = set_ip_checksum (checksum (s.ipv4_checksum + dest_sum)) ported in
    set_flags 2 (
      set_tcp_checksum
        (if s.checksum_offload
          then fold ((s.tcp_checksum + dest_sum) % 2 ^ 32)
          else checksum (
              s.tcp_checksum
              + dest_sum
              + p.source_port
              + p.destination_port
              + seq / 2 ^ 16
              + seq % 2 ^ 16
              + 2))
        summed)

-- The header of a segment without data, in `send`.
unfoldable pub write_control : Sender → ℕ → ℕ → ℕ → ℕ → ℕ → ℕ → Frame → Frame
write_control s flags ip source_port port seq ack f =
    let dest_sum = ipv4_sum (octets ip) in
    let addressed = set_seq seq (set_ack ack (set_dest_addr ip (set_len 48 f))) in
    let ported = set_source_port source_port (set_dest_port port addressed) in
    let summed = set_ip_checksum (checksum (s.ipv4_checksum + dest_sum)) ported in
    set_flags flags (
      set_tcp_checksum
        (if s.checksum_offload
          then fold ((s.tcp_checksum + dest_sum) % 2 ^ 32)
          else checksum (
              s.tcp_checksum
              + dest_sum
              + source_port
              + port
              + seq / 2 ^ 16
              + seq % 2 ^ 16
              + ack / 2 ^ 16
              + ack % 2 ^ 16
              + flags))
        summed)

-- The body and the header of a segment with data, in `send_with_data`.
unfoldable pub write_data : Sender → ℕ → ℕ → ℕ → ℕ → ℕ → List ℕ → Frame → Frame
write_data s ip source_port port seq ack body f =
    let data_len = length body in
    let dest_sum = ipv4_sum (octets ip) in
    let addressed = set_seq seq (set_ack ack (set_dest_addr ip (copy f 62 body))) in
    let measured = set_len ((48 + data_len % 2 ^ 16) % 2 ^ 16) addressed in
    let ported = set_source_port source_port (set_dest_port port measured) in
    let summed =
      set_ip_checksum (checksum (s.ipv4_checksum + dest_sum + data_len % 2 ^ 32)) ported in
    set_flags 24 (
      set_tcp_checksum
        (if s.checksum_offload
          then fold ((s.tcp_checksum + dest_sum) % 2 ^ 32)
          else checksum (
              s.tcp_checksum
              + dest_sum
              + source_port
              + port
              + seq / 2 ^ 16
              + seq % 2 ^ 16
              + ack / 2 ^ 16
              + ack % 2 ^ 16
              + 24
              + data_len % 2 ^ 32
              + sum_body body))
        summed)

-- What happens before a round of the wait: the kernel takes entries and sets the flags; and the result
-- of `sendto` in that round.
pub record Turn : Type 0 where
  pub taken : ℕ
  pub flags : ℕ
  pub sendto_ok : Bool

pub data Status : Type 0 where
  sent : Status
  failed : Status
  waiting : Status

-- `desc.len = …`
abbrev pub set_desc_len : ℕ → Descriptor → Descriptor
set_desc_len n desc = record desc { len = n }

-- The loop of `send_syn_batch` over the packets.
unfoldable pub write_batch : List PacketTemplate → ℕ → ℕ → ℕ → Sender → Sender
unfolding write_syn cookie
write_batch [] index i seed s = s
write_batch (p ∷ rest) index i seed s = write_batch rest index (i + 1) seed (
    update_slot (add32 index i) (set_desc_len 62)
      (write_syn s p (cookie p.ip p.destination_port seed)) s)

-- What the wait ends with: the slot, the ring and the completer.
abbrev pub Slots : Type 0 → Type 0
Slots C = Status × ℕ × Ring Descriptor × C

-- A round of the wait with the result of `reserve`, and the later rounds.
unfoldable pub wait_reserved : {C : Type 0} → Option ℕ × Ring Descriptor → C → Slots C → Slots C
wait_reserved (none, tx) c later = later
wait_reserved (some i, tx) c later = (sent, i, tx, c)

-- The slots that the wait has got are written and submitted, and the kernel is woken up.
unfoldable pub submit_slots :
    {C : Type 0} → Bool → ℕ → (ℕ → Sender → Sender) → Sender → Slots C → Status × Sender × C
submit_slots kicked n write s (waiting, i, tx, c) = (waiting, record s { tx = tx }, c)
submit_slots kicked n write s (failed, i, tx, c) = (failed, record s { tx = tx }, c)
submit_slots kicked n write s (sent, i, tx, c) =
    let written = write i (record s { tx = tx }) in
    let submitted : Sender = record written { tx = submit written.tx n } in
    (if needs_wakeup submitted.tx && not kicked then failed else sent, submitted, c)

module _ {C : Type 0} (tick : C → C) where
  -- The loop that waits for `n` slots, through the rounds given.
  unfoldable pub wait_for_slots : List Turn → ℕ → Ring Descriptor → C → Slots C
  unfolding wait_reserved
  wait_for_slots [] n tx c = (waiting, 0, tx, c)
  wait_for_slots (t ∷ rest) n tx c =
      let tx1 : Ring Descriptor = record (kernel_takes tx t.taken) { ring_flags = t.flags } in
      let later = wait_for_slots rest n (reserve tx1 n).1 (tick c) in
      if needs_wakeup tx1 && not t.sendto_ok
      then (failed, 0, tx1, c)
      else wait_reserved (reserve tx1 n) c later

  -- What all senders do: wait for `n` slots, write them, submit them, and wake the kernel up.
  unfoldable pub deliver :
      List Turn → Bool → ℕ → (ℕ → Sender → Sender) → Sender → C → Status × Sender × C
  unfolding submit_slots
  deliver turns kicked n write s c = submit_slots kicked n write s (wait_for_slots turns n s.tx c)

  -- `Sender::send_syn_batch`
  unfoldable pub send_syn_batch :
      List Turn → Bool → List PacketTemplate → ℕ → Sender → C → Status × Sender × C
  unfolding write_batch
  send_syn_batch turns kicked packets seed s c =
      deliver turns kicked (length packets % 2 ^ 32)
        (λ index s1. write_batch packets index 0 seed s1) s c

  -- `Sender::send_syn`
  unfoldable pub send_syn : List Turn → Bool → PacketTemplate → ℕ → Sender → C → Status × Sender × C
  unfolding write_syn cookie
  send_syn turns kicked p seed s c =
      deliver turns kicked 1
        (λ index s1.
          update_slot index (set_desc_len 62) (write_syn s1 p (cookie p.ip p.destination_port seed))
            s1)
        s c

  -- `Sender::send`
  unfoldable pub send : List Turn → Bool → ℕ → ℕ → ℕ → ℕ → ℕ → ℕ → Sender → C → Status × Sender × C
  unfolding write_control
  send turns kicked flags ip source_port port seq ack s c =
      deliver turns kicked 1
        (λ index s1.
          update_slot index (set_desc_len 62) (write_control s1 flags ip source_port port seq ack)
            s1)
        s c

  -- `Sender::send_with_data`
  unfoldable pub send_with_data :
      List Turn → Bool → ℕ → ℕ → ℕ → ℕ → ℕ → List ℕ → Sender → C → Status × Sender × C
  unfolding write_data
  send_with_data turns kicked ip source_port port seq ack body s c =
      deliver turns kicked 1
        (λ index s1.
          update_slot index (set_desc_len ((62 + length body % 2 ^ 32) % 2 ^ 32))
            (write_data s1 ip source_port port seq ack body) s1)
        s c
