-- ===== src/Receiver.antt =====
-- farsight/src/controller/receiver.rs: the received packets of a batch, and their frames on the way
-- back to the fill ring. The result of each `recvfrom` is a Boolean.
pub mod Guard
pub mod Conserves
mod Tests
use Prim.Native.Nat.{bit_and}
use farsight.Prelude.{
  ℕ, zero, suc, ◌+◌, ◌-◌, ◌*◌, ◌/◌, ◌%◌, ◌^◌, Bool, true, false, not, ◌&&◌, Option, none, some,
  List, [], ◌∷◌, ltb, leb, if◌then◌else◌,
}
use farsight.Words.{add32}
use farsight.Xdp.{
  Ring, Descriptor, needs_wakeup, index, store, reserve, submit, peek, unpeek, release,
}

pub record Receiver : Type 0 where
  pub frame_size : ℕ
  pub fr : Ring ℕ
  pub rx : Ring Descriptor
  pub batch_size : ℕ

-- The loop of `Receiver::new` over the frames from `i` on.
unfoldable pub fill_loop : ℕ → ℕ → ℕ → ℕ → ℕ → Ring ℕ → Ring ℕ
fill_loop zero i start starting_frame frame_size fr = fr
fill_loop (suc n) i start starting_frame frame_size fr =
    fill_loop n (i + 1) start starting_frame frame_size
      (store fr (add32 start i) (add32 starting_frame i * frame_size % 2 ^ 32))

-- `Receiver::new`, with `none` for its errors.
unfoldable pub new : ℕ → ℕ → ℕ → Ring ℕ → Ring Descriptor → Bool → Option Receiver
unfolding fill_loop
new starting_frame frame_size batch_size fr rx kicked =
    let (reserved, fr1) = reserve fr fr.size in
    elim reserved [
      | none ↦ none
      | some start ↦
          let filled = submit (fill_loop fr.size 0 start starting_frame frame_size fr1) fr.size in
          if kicked
          then some
              (record { frame_size = frame_size; fr = filled; rx = rx; batch_size = batch_size })
          else none
    ]

-- The guard of a batch. It borrows the receiver's rings.
pub record BatchGuard : Type 0 where
  pub owner : Receiver
  pub filled : ℕ
  pub rx_start : ℕ
  pub fill_start : ℕ
  pub count : ℕ
  pub cursor : ℕ

-- `Ok(None)`, an error, or a batch.
pub data Received : Type 0 where
  nothing : Receiver → Received
  failed : Receiver → Received
  batch : BatchGuard → Received

-- `Receiver::receive`, from the reserved slots on.
unfoldable pub receive_reserved : Receiver → ℕ → ℕ → ℕ → Option ℕ × Ring ℕ → Received
receive_reserved r filled start n (none, fr) = failed (record r { fr = fr; rx = unpeek r.rx n })
receive_reserved r filled start n (some fill, fr) = batch (record {
  owner = record r { fr = fr };
  filled = filled;
  rx_start = start;
  fill_start = fill;
  count = n;
  cursor = 0;
})

-- `Receiver::receive`, from the peeked entries on.
unfoldable pub receive_peeked : Receiver → Bool → ℕ → Option (ℕ × ℕ) × Ring Descriptor → Received
receive_peeked r kicked filled (none, rx) = nothing (record r { rx = rx })
receive_peeked r kicked filled (some (start, n), rx) =
    if needs_wakeup r.fr && not kicked
    then failed (record r { rx = unpeek rx n })
    else receive_reserved (record r { rx = rx }) filled start n (reserve r.fr n)

-- `Receiver::receive`
unfoldable pub receive : Receiver → Bool → ℕ → Received
receive r kicked filled = receive_peeked r kicked filled (peek r.rx r.batch_size)

-- `desc.addr & XSK_UNALIGNED_BUF_ADDR_MASK`
unfoldable pub comp_addr : Descriptor → ℕ
comp_addr desc = bit_and desc.addr (2 ^ 48 - 1)

-- The address and the length of the packet that `BatchGuard::next` hands out.
unfoldable pub packet_of : Descriptor → ℕ × ℕ
unfolding comp_addr
packet_of desc = (desc.addr / 2 ^ 48 + comp_addr desc, desc.len)

-- The frame of the `i`-th packet goes back to the fill ring `fr`.
unfoldable pub put_back : BatchGuard → ℕ → Ring ℕ → Ring ℕ
put_back g i fr =
    store fr (add32 g.fill_start i) (comp_addr (index g.owner.rx (add32 g.rx_start i)))

-- `BatchGuard::next`
unfoldable pub next : BatchGuard → Option (ℕ × ℕ) × BatchGuard
next g = if leb g.count g.cursor then (none, g) else (
  some (packet_of (index g.owner.rx (add32 g.rx_start g.cursor))),
  record g {
    owner = record g.owner { fr = put_back g g.cursor g.owner.fr };
    cursor = g.cursor + 1;
  },
)

-- The loop of `BatchGuard::drop` over the packets from `i` on.
unfoldable pub drop_loop : ℕ → ℕ → BatchGuard → Ring ℕ → Ring ℕ
drop_loop zero i g fr = fr
drop_loop (suc n) i g fr = drop_loop n (i + 1) g (put_back g i fr)

-- `BatchGuard::drop`, with the number of the packets filled so far. A failed wake-up is only logged.
unfoldable pub drop_guard : BatchGuard → Receiver × ℕ
unfolding drop_loop
drop_guard g =
    let fr = drop_loop (g.count - g.cursor) g.cursor g g.owner.fr in
    (
      record g.owner { rx = release g.owner.rx g.count; fr = submit fr g.count },
      (g.filled + g.cursor) % 2 ^ 64,
    )

-- `m` calls of `next`, and the packets they hand out.
unfoldable pub consume : ℕ → BatchGuard → List (ℕ × ℕ) × BatchGuard
consume zero g = ([], g)
consume (suc m) g =
    let (packet, g1) = next g in
    let rest = consume m g1 in elim packet [ none ↦ ([], g1) | some p ↦ (p ∷ rest.0, rest.1) ]
