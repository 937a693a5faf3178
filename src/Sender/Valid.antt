-- ===== src/Sender/Valid.antt =====
-- Every packet that the sender submits has valid checksums.
use farsight.Prelude.{
  ℕ, ◌+◌, ◌%◌, ◌^◌, ◌≤◌, ◌<◌, ◌≡◌, refl, sym, subst, Bool, List, [], ◌∷◌, length, arith, false,
  ℕ_discrete,
}
use farsight.Words.{add32}
use farsight.Tcp.{PacketTemplate, Frame, cookie}
use farsight.Tcp.Sums.{AreBytes}
use farsight.Sender.{
  Shared, Sender, Turn, update_slot, set_desc_len, write_syn, write_control, write_data,
  write_batch, send_syn_batch, send_syn, send, send_with_data,
}
use farsight.Sender.Template.{IsTemplate, HasSums, Verifies}
use farsight.Sender.Headers.{Fits, AreWords, write_syn-Verifies, write_control-Verifies}
use farsight.Sender.Body.{write_data-Verifies}
use farsight.Sender.Deliver.{
  IsReady, Delivered, GoodFrames, frame_at, update_slot-frame, update_slot-edited,
  update_slot-Ready, deliver-Delivered,
}

write_syn-IsTemplate :
    (source : ℕ) (s : Sender) (p : PacketTemplate) (seq : ℕ) (f : Frame)
    → IsTemplate source f
    → IsTemplate source (write_syn s p seq f)
unfolding write_syn
write_syn-IsTemplate source s p seq f t = t

write_control-IsTemplate :
    (source : ℕ) (s : Sender) (flags ip source_port port seq ack : ℕ) (f : Frame)
    → IsTemplate source f
    → IsTemplate source (write_control s flags ip source_port port seq ack f)
unfolding write_control
write_control-IsTemplate source s flags ip source_port port seq ack f t = t

write_data-IsTemplate :
    (source : ℕ) (s : Sender) (ip source_port port seq ack : ℕ) (body : List ℕ) (f : Frame)
    → IsTemplate source f
    → IsTemplate source (write_data s ip source_port port seq ack body f)
unfolding write_data
write_data-IsTemplate source s ip source_port port seq ack body f t = t

cookie-bound : (ip port seed : ℕ) → cookie ip port seed < 2 ^ 32
unfolding cookie
cookie-bound ip port seed = omega arith

abbrev pub AllFit : List PacketTemplate → Type 0
AllFit [] = 0 ≤ 0
AllFit (p ∷ rest) = Fits p × AllFit rest

module _ (shared : Shared) (direct : shared.offload ≡ false) where
  -- One slot is written.
  single :
      (n i : ℕ) (edit : Sender → Frame → Frame) (s : Sender)
      → ((s1 : Sender) (f : Frame)
          → HasSums shared s1
          → IsTemplate shared.source_ip f
          → IsTemplate shared.source_ip (edit s1 f) × Verifies (edit s1 f))
      → i < 2 ^ 32
      → IsReady shared s
      → IsReady shared (update_slot i (set_desc_len n) (edit s) s)
        × GoodFrames Verifies 1 i (update_slot i (set_desc_len n) (edit s) s)
  single n i edit s good lt ready = (
    update_slot-Ready shared (set_desc_len n) (λ d. refl) i (edit s) s
        (λ f t. (good s f ready.0 t).0) ready,
    λ j le.
        let here : add32 i j ≡ i = omega arith in
        subst (λ k. Verifies (frame_at (update_slot i (set_desc_len n) (edit s) s) k)) (sym here)
          (update_slot-edited (set_desc_len n) (λ d. refl) Verifies i (edit s) s
            (good s (frame_at s i) ready.0 (ready.1 i)).1),
  )

  write_batch-Verifies :
      (packets : List PacketTemplate) (index i seed : ℕ) (s : Sender)
      → AllFit packets
      → IsReady shared s
      → GoodFrames Verifies i index s
      → IsReady shared (write_batch packets index i seed s)
        × GoodFrames Verifies (i + length packets) index (write_batch packets index i seed s)
  unfolding write_batch
  write_batch-Verifies [] index i seed s fits ready good =
      let all : i + 0 ≡ i = omega arith in
      (ready, subst (λ n. GoodFrames Verifies n index s) (sym all) good)
  write_batch-Verifies (p ∷ rest) index i seed s (fit, fits) ready good =
      let seq = cookie p.ip p.destination_port seed in
      let at = add32 index i in
      let edit = write_syn s p seq in
      let s1 = update_slot at (set_desc_len 62) edit s in
      let valid : (f : Frame) → IsTemplate shared.source_ip f → Verifies (edit f) = λ f t.
        write_syn-Verifies shared s p seq f t ready.0 direct fit
          (cookie-bound p.ip p.destination_port seed) in
      let more : i + length (p ∷ rest) ≡ i + 1 + length rest = omega arith in
      let ready1 =
        update_slot-Ready shared (set_desc_len 62) (λ d. refl) at edit s
          (write_syn-IsTemplate shared.source_ip s p seq) ready in
      let good1 : GoodFrames Verifies (i + 1) index s1 = λ j lt. elim (ℕ_discrete j i) [
        | yes last ↦
            subst (λ k. Verifies (frame_at s1 (add32 index k))) (sym last)
              (update_slot-edited (set_desc_len 62) (λ d. refl) Verifies at edit s
                (valid (frame_at s at) (ready.1 at)))
        | no before ↦
            update_slot-frame (set_desc_len 62) (λ d. refl) Verifies at (add32 index j) edit s
              (good j (omega arith)) (valid (frame_at s (add32 index j)) (ready.1 (add32 index j)))
      ] in
      let (done, all) = write_batch-Verifies rest index (i + 1) seed s1 fits ready1 good1 in
      (
        done,
        subst (λ n. GoodFrames Verifies n index (write_batch rest index (i + 1) seed s1)) (sym more)
            all,
      )

  module _ {C : Type 0} (tick : C → C) (turns : List Turn) (kicked : Bool) where
    -- Without offload, and with every frame of the ring holding the template: whatever the kernel does
    -- while `send_syn_batch` waits, the frames hold the template again behind it; and when it is sent,
    -- the frames of the slots from the last reserved one on, one for each packet, pass both tests of
    -- the receiver.
    pub send_syn_batch-Delivered :
        (packets : List PacketTemplate) (seed : ℕ) (s : Sender) (c : C)
        → AllFit packets
        → s.tx.cached_prod < 2 ^ 32
        → IsReady shared s
        → Delivered shared
            (GoodFrames Verifies (length packets))
            s.tx.cached_prod
            (send_syn_batch tick turns kicked packets seed s c)
    unfolding send_syn_batch
    send_syn_batch-Delivered packets seed s c fits low ready =
        deliver-Delivered tick shared Verifies turns kicked (length packets % 2 ^ 32)
          (length packets) (λ index s1. write_batch packets index 0 seed s1) s c low ready
          (λ i s1 lt ready1.
            let (done, all) =
              write_batch-Verifies packets i 0 seed s1 fits ready1
                (λ j none. absurd (omega arith)) in
            let count : 0 + length packets ≡ length packets = omega arith in
            (
              done,
              subst (λ n. GoodFrames Verifies n i (write_batch packets i 0 seed s1)) count all,
            ))

    -- Without offload, and with every frame of the ring holding the template: whatever the kernel does
    -- while `send_syn` waits, so it is behind it; and when it is sent, the frame of the slot passes
    -- both tests of the receiver.
    pub send_syn-Delivered :
        (p : PacketTemplate) (seed : ℕ) (s : Sender) (c : C)
        → Fits p
        → s.tx.cached_prod < 2 ^ 32
        → IsReady shared s
        → Delivered shared
            (GoodFrames Verifies 1)
            s.tx.cached_prod
            (send_syn tick turns kicked p seed s c)
    unfolding send_syn
    send_syn-Delivered p seed s c fit low ready =
        let seq = cookie p.ip p.destination_port seed in
        deliver-Delivered tick shared Verifies turns kicked 1 1 _ s c low ready (λ i s1 lt ready1.
          single 62 i (λ s2. write_syn s2 p seq) s1
            (λ s2 f sums t. (
              write_syn-IsTemplate shared.source_ip s2 p seq f t,
              write_syn-Verifies shared s2 p seq f t sums direct fit
                  (cookie-bound p.ip p.destination_port seed),
            ))
            lt ready1)

    -- The same of `send`, for any flags.
    pub send-Delivered :
        (flags ip source_port port seq ack : ℕ) (s : Sender) (c : C)
        → flags < 256
        → AreWords source_port port seq ack
        → s.tx.cached_prod < 2 ^ 32
        → IsReady shared s
        → Delivered shared
            (GoodFrames Verifies 1)
            s.tx.cached_prod
            (send tick turns kicked flags ip source_port port seq ack s c)
    unfolding send
    send-Delivered flags ip source_port port seq ack s c lf fit low ready =
        deliver-Delivered tick shared Verifies turns kicked 1 1 _ s c low ready (λ i s1 lt ready1.
          single 62 i (λ s2. write_control s2 flags ip source_port port seq ack) s1
            (λ s2 f sums t. (
              write_control-IsTemplate shared.source_ip s2 flags ip source_port port seq ack f t,
              write_control-Verifies shared s2 flags ip source_port port seq ack f t sums direct fit
                  lf,
            ))
            lt ready1)

    -- Without offload, and with every frame of the ring holding the template: whatever the kernel does
    -- while `send_with_data` waits, so it is behind it; and when it is sent, the frame of the slot,
    -- with a body of bytes that fits into a packet, passes both tests of the receiver.
    pub send_with_data-Delivered :
        (ip source_port port seq ack : ℕ) (body : List ℕ) (s : Sender) (c : C)
        → AreBytes body
        → 48 + length body < 2 ^ 16
        → AreWords source_port port seq ack
        → s.tx.cached_prod < 2 ^ 32
        → IsReady shared s
        → Delivered shared
            (GoodFrames Verifies 1)
            s.tx.cached_prod
            (send_with_data tick turns kicked ip source_port port seq ack body s c)
    unfolding send_with_data
    send_with_data-Delivered ip source_port port seq ack body s c bytes short fit low ready =
        deliver-Delivered tick shared Verifies turns kicked 1 1 _ s c low ready (λ i s1 lt ready1.
          single _ i (λ s2. write_data s2 ip source_port port seq ack body) s1
            (λ s2 f sums t. (
              write_data-IsTemplate shared.source_ip s2 ip source_port port seq ack body f t,
              write_data-Verifies shared s2 ip source_port port seq ack body f t sums direct fit
                  bytes short,
            ))
            lt ready1)
