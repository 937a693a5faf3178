-- ===== src/Sender/Tests.antt =====
-- A sender with two slots, and the theorems about what it sends.
use farsight.Prelude.{ℕ, ◌+◌, ◌*◌, ◌≡◌, ◌≢◌, refl, true, false, List, [], ◌∷◌, arith}
use farsight.Xdp.{Ring, Descriptor, reserve, free, submit, store, needs_wakeup}
use farsight.Tcp.{PacketTemplate, Frame, fold, sum_body, sum_loop}
use farsight.Tcp.Sums.{internet_sum, ones_complement, fold-sum_body}
use farsight.Sender.{
  Shared, Sender, new, Turn, sent, waiting, write_data, fixed_ipv4_sum, fixed_tcp_sum, template,
  send_syn_batch, send_with_data, deliver, submit_slots, wait_for_slots, wait_reserved, update_slot,
}
use farsight.Sender.Template.{IsTemplate, IsFramed, Verifies, tcp_sum, template-IsTemplate}
use farsight.Sender.Deliver.{IsReady, frame_at, Delivered, GoodFrames}
use farsight.Responder.Cut.{cut, segment}
use farsight.Sender.Read.{cut-write_data}
use farsight.Sender.Ready.{IsPlaced, new-IsReady}
use farsight.Sender.Offload.{computing, complete-write_data-fails}
use farsight.Sender.Valid.{send_syn_batch-Delivered, send_with_data-Delivered}

-- An odd number of bytes.
fold-sum_body_example :
    fold (sum_body (255 ∷ 255 ∷ 0 ∷ 2 ∷ 1 ∷ []))
    ≡ ones_complement (internet_sum (255 ∷ 255 ∷ 0 ∷ 2 ∷ 1 ∷ []))
fold-sum_body_example = fold-sum_body (255 ∷ 255 ∷ 0 ∷ 2 ∷ 1 ∷ []) (omega arith) (omega arith)

folded : fold (sum_body (255 ∷ 255 ∷ 0 ∷ 2 ∷ 1 ∷ [])) ≡ 258
unfolding fold sum_body sum_loop
folded = refl

-- 10.0.0.1
abbrev direct : Shared
direct = record {
  gateway = 1 ∷ 2 ∷ 3 ∷ 4 ∷ 5 ∷ 6 ∷ [];
  interface = 7 ∷ 8 ∷ 9 ∷ 10 ∷ 11 ∷ 12 ∷ [];
  source_ip = 167772161;
  offload = false;
}

abbrev offloading : Shared
offloading = record direct { offload = true }

abbrev blank : Frame
blank j = 0

abbrev sender_of : Shared → Sender
sender_of shared = record {
  tcp_checksum = fixed_tcp_sum shared;
  ipv4_checksum = fixed_ipv4_sum shared;
  frames = λ a. template shared blank;
  tx = record {
    cached_prod = 0;
    cached_cons = 2;
    size = 2;
    cells = λ i. record { addr = i * 4096 + 24; len = 0; options = 0 };
    prod = 0;
    cons = 0;
    ring_flags = 0;
  };
  checksum_offload = shared.offload;
}

direct-IsTemplate : IsTemplate direct.source_ip (template direct blank)
direct-IsTemplate = template-IsTemplate direct blank 1 2 3 4 5 6 7 8 9 10 11 12 refl refl

offloading-IsTemplate : IsTemplate offloading.source_ip (template offloading blank)
offloading-IsTemplate = template-IsTemplate offloading blank 1 2 3 4 5 6 7 8 9 10 11 12 refl refl

direct-IsReady : IsReady direct (sender_of direct)
direct-IsReady = ((refl, refl, refl), λ i. direct-IsTemplate)

-- Nothing to wait for.
abbrev calm : List Turn
calm = record { taken = 0; flags = 0; sendto_ok = true } ∷ []

abbrev probe_packet : PacketTemplate
probe_packet = record { source_port = 61000; ip = 3232235777; destination_port = 25565 }

abbrev count_tick : ℕ → ℕ
count_tick n = n + 1

abbrev two_slots : Ring Descriptor
two_slots = record {
  cached_prod = 0;
  cached_cons = 2;
  size = 2;
  cells = λ i. record { addr = 0; len = 0; options = 0 };
  prod = 0;
  cons = 0;
  ring_flags = 0;
}

new-IsReady_example :
    let s = new direct 4096 (λ a. blank) two_slots 2 in
    IsReady direct s × ((i : ℕ) → IsFramed direct (frame_at s i)) × IsPlaced 4096 2 2 s
new-IsReady_example =
    new-IsReady direct 4096 (λ a. blank) two_slots 2 (1, 2, 3, 4, 5, 6, refl)
      (7, 8, 9, 10, 11, 12, refl) (omega arith)

send_syn_batch-Delivered_example :
    Delivered direct (GoodFrames Verifies 2) 0 (
      send_syn_batch count_tick calm true
        (probe_packet ∷ probe_packet ∷ [])
        42
        (sender_of direct)
        0)
send_syn_batch-Delivered_example =
    send_syn_batch-Delivered direct refl count_tick calm true (probe_packet ∷ probe_packet ∷ []) 42
      (sender_of direct) 0 (omega arith) (omega arith) direct-IsReady

cut-write_data_example :
    cut
      (write_data
        (sender_of direct)
        3232235777
        61000
        25565
        7
        9
        (254 ∷ 1 ∷ 3 ∷ [])
        (template direct blank))
      65
    ≡ segment 167772161
        (record { source_port = 61000; dest_port = 25565; seq = 7; ack_number = 9; flags = 24 })
        (254 ∷ 1 ∷ 3 ∷ [])
cut-write_data_example =
    cut-write_data (sender_of direct) 3232235777 61000 25565 7 9 (254 ∷ 1 ∷ 3 ∷ [])
      (template direct blank) 167772161 (omega arith) (omega arith) direct-IsTemplate (omega arith)

send_with_data-Delivered_example : Delivered direct (GoodFrames Verifies 1) 0 (
    send_with_data count_tick calm true 3232235777 61000 25565 7 9
      (254 ∷ 1 ∷ 3 ∷ [])
      (sender_of direct)
      0)
send_with_data-Delivered_example =
    send_with_data-Delivered direct refl count_tick calm true 3232235777 61000 25565 7 9
      (254 ∷ 1 ∷ 3 ∷ []) (sender_of direct) 0 (omega arith) (omega arith) (omega arith)
      (omega arith) direct-IsReady

complete-write_data-fails_example :
    ones_complement (
      tcp_sum (
        computing.complete 34 16 31 (
          write_data
            (sender_of offloading)
            3232235777
            61000
            25565
            7
            9
            (254 ∷ 1 ∷ 3 ∷ [])
            (template offloading blank))))
    ≢ 65535
complete-write_data-fails_example =
    complete-write_data-fails computing offloading (sender_of offloading) 3232235777 61000 25565 7 9
      (254 ∷ 1 ∷ 3 ∷ []) (template offloading blank) (omega arith) (omega arith)
      offloading-IsTemplate (refl, refl, refl) refl

-- Two packets fit; for a third the sender waits.
two_then_none :
    ((send_syn_batch count_tick calm true
        (probe_packet ∷ probe_packet ∷ [])
        42
        (sender_of direct)
        0).0
      ≡ sent)
    × ((send_syn_batch count_tick calm true
          (probe_packet ∷ probe_packet ∷ probe_packet ∷ [])
          42
          (sender_of direct)
          0).0
        ≡ waiting)
unfolding send_syn_batch deliver submit_slots wait_for_slots wait_reserved reserve free needs_wakeup
    submit update_slot store
two_then_none = (refl, refl)
