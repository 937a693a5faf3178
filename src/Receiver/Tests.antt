-- ===== src/Receiver/Tests.antt =====
-- A batch of two packets, of which one is looked at.
use farsight.Prelude.{ℕ, ◌+◌, ◌*◌, ◌^◌, ◌≡◌, refl, true, [], ◌∷◌, arith}
use farsight.Xdp.{
  Descriptor, reserve, free, submit, peek, available, release, entries, store, index, needs_wakeup,
}
use farsight.Xdp.Producing.{pending}
use farsight.Receiver.{
  Receiver, BatchGuard, Received, nothing, failed, receive, receive_peeked, receive_reserved,
  consume, next, put_back, drop_guard, drop_loop, batch, comp_addr, packet_of,
}
use farsight.Receiver.Guard.{Conserves}
use farsight.Receiver.Conserves.{receive-Conserves}

-- The `i`-th packet is 64 bytes long, 256 bytes into its frame.
abbrev packet : ℕ → Descriptor
packet i = record { addr = 256 * 2 ^ 48 + i * 4096; len = 64; options = 0 }

-- The kernel has taken all four frames and has two packets for us.
abbrev busy : Receiver
busy = record {
  frame_size = 4096;
  fr = record {
    cached_prod = 4;
    cached_cons = 4;
    size = 4;
    cells = λ i. 0;
    prod = 4;
    cons = 4;
    ring_flags = 0;
  };
  rx = record {
    cached_prod = 0;
    cached_cons = 0;
    size = 4;
    cells = packet;
    prod = 2;
    cons = 0;
    ring_flags = 0;
  };
  batch_size = 64;
}

abbrev idle_guard : BatchGuard
idle_guard = record {
  owner = busy;
  filled = 0;
  rx_start = 0;
  fill_start = 0;
  count = 0;
  cursor = 0;
}

abbrev guard_of : Received → BatchGuard
guard_of (nothing r) = idle_guard
guard_of (failed r) = idle_guard
guard_of (batch g) = g

receive-Conserves_example : Conserves 2 2 1 busy 0 (receive busy true 0)
receive-Conserves_example = receive-Conserves 2 2 1 busy true 0 (omega arith) (omega arith)

-- The one packet handed out, and the two frames given back.
one_looked_at :
    ((consume 1 (guard_of (receive busy true 0))).0 ≡ (4096 * 0 + 256, 64) ∷ [])
    × (pending (drop_guard (consume 1 (guard_of (receive busy true 0))).1).0.fr ≡ 0 ∷ 4096 ∷ [])
unfolding receive receive_peeked receive_reserved consume next put_back drop_guard drop_loop
    comp_addr packet_of reserve free submit peek available release entries store index needs_wakeup
one_looked_at = (refl, refl)
