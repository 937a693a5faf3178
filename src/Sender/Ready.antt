-- ===== src/Sender/Ready.antt =====
-- `Sender::new` puts the template into the frame of every slot.
use native.Mathlib.Nat as N
use farsight.Prelude.{
  ℕ, zero, suc, ◌+◌, ◌-◌, ◌*◌, ◌%◌, ◌<◌, ◌≡◌, refl, sym, ap, subst, ◌∙◌, List, [], ◌∷◌, arith, true,
  false, ◌⊎◌, inl, inr, ℕ_discrete, dec_lt, ◌==◌, if◌then◌else◌, if_elim,
}
use farsight.Words.{mod_wrap}
use farsight.Xdp.{Ring, Descriptor, index, store}
use farsight.Tcp.{Frame}
use farsight.Sender.{
  Shared, Sender, update_slot, describe, template, describe_loop, fixed_tcp_sum, fixed_ipv4_sum,
  new,
}
use farsight.Sender.Template.{IsTemplate, IsFramed, HasSums, template-IsTemplate, template-IsFramed}
use farsight.Sender.Slots.{describe_loop-index}
use farsight.Sender.Deliver.{IsReady, frame_at}

-- An address of the link layer has six bytes.
abbrev pub IsMac : List ℕ → Type 0
IsMac m =
    (a : ℕ) × (b : ℕ) × (c : ℕ) × (d : ℕ) × (e : ℕ) × (f : ℕ) × (m ≡ a ∷ b ∷ c ∷ d ∷ e ∷ f ∷ [])

module _ (shared : Shared) (frame_size : ℕ) (P : Frame → Type 0)
    (templated : (f : Frame) → P (template shared f)) where
  described : ℕ → Sender → Sender
  described i s = update_slot i (describe shared frame_size i) (template shared) s

  index-described :
      (i j : ℕ) (s : Sender)
      → index (described i s).tx j ≡ (
          if j % s.tx.size == i % s.tx.size
          then describe shared frame_size i (index s.tx i)
          else index s.tx j)
  unfolding described update_slot index store
  index-described i j s = refl

  frame-described :
      (i j : ℕ) (s : Sender) (d : Descriptor)
      → index (described i s).tx j ≡ d
      → P (
          if d.addr == i * frame_size + 24
          then template shared (s.frames d.addr)
          else s.frames d.addr)
      → P (frame_at (described i s) j)
  unfolding described update_slot describe
  frame-described i j s d same h =
      subst
        (λ e. P (
          if e.addr == i * frame_size + 24
          then template shared (s.frames e.addr)
          else s.frames e.addr))
        (sym same) h

  -- The slot's own frame gets the template.
  described-own :
      (i j : ℕ) (s : Sender) → j % s.tx.size ≡ i % s.tx.size → P (frame_at (described i s) j)
  unfolding describe
  described-own i j s same =
      let hit : (j % s.tx.size == i % s.tx.size) ≡ true = ground (arith, same) in
      let own : (i * frame_size + 24 == i * frame_size + 24) ≡ true = ground arith in
      frame-described i j s (describe shared frame_size i (index s.tx i))
        (index-described i j s ∙ rw hit refl) (rw own (templated _))

  -- Another slot's frame stays, or gets the template as well.
  described-other : (i j : ℕ) (s : Sender) → P (frame_at s j) → P (frame_at (described i s) j)
  described-other i j s h = elim (ℕ_discrete (j % s.tx.size) (i % s.tx.size)) [
    | yes same ↦ described-own i j s same
    | no other ↦
        let missed : (j % s.tx.size == i % s.tx.size) ≡ false = ground (arith, other) in
        frame-described i j s (index s.tx j) (index-described i j s ∙ rw missed refl)
          (if_elim P ((index s.tx j).addr == i * frame_size + 24) _ _ (templated _) h)
  ]

  described-size : (i : ℕ) (s : Sender) → (described i s).tx.size ≡ s.tx.size
  unfolding described update_slot store
  described-size i s = refl

  -- Once the loop has come to a slot, its frame holds the template.
  describe_loop-holds :
      (n i j : ℕ) (s : Sender)
      → P (frame_at s j) ⊎ ((k : ℕ) × (k < n) × (j % s.tx.size ≡ (i + k) % s.tx.size))
      → P (frame_at (describe_loop n i shared frame_size s) j)
  unfolding describe_loop described
  describe_loop-holds zero i j s (inl h) = h
  describe_loop-holds zero i j s (inr (k, lt, same)) = absurd (omega arith)
  describe_loop-holds (suc n) i j s (inl h) =
      describe_loop-holds n (i + 1) j (described i s) (inl (described-other i j s h))
  describe_loop-holds (suc n) i j s (inr (zero, lt, same)) =
      let here : i + 0 ≡ i = omega arith in
      describe_loop-holds n (i + 1) j (described i s)
        (inl (described-own i j s (same ∙ ap (λ m. m % s.tx.size) here)))
  describe_loop-holds (suc n) i j s (inr (suc k, lt, same)) =
      let next : i + suc k ≡ i + 1 + k = omega arith in
      let moved : j % (described i s).tx.size ≡ (i + 1 + k) % (described i s).tx.size =
        subst (λ m. j % m ≡ (i + 1 + k) % m) (sym (described-size i s))
          (same ∙ ap (λ m. m % s.tx.size) next) in
      describe_loop-holds n (i + 1) j (described i s) (inr (k, omega arith, moved))

describe_loop-HasSums :
    (shared : Shared) (n i frame_size : ℕ) (s : Sender)
    → HasSums shared s
    → HasSums shared (describe_loop n i shared frame_size s)
unfolding describe_loop update_slot
describe_loop-HasSums shared zero i frame_size s sums = sums
describe_loop-HasSums shared (suc n) i frame_size s sums =
    describe_loop-HasSums shared n (i + 1) frame_size
      (update_slot i (describe shared frame_size i) (template shared) s) sums

-- From any number on, one of the next `size` numbers is on a given slot.
slot_reached : (size i j : ℕ) → 0 < size → (k : ℕ) × (k < size) × (j % size ≡ (i + k) % size)
slot_reached size i j pos =
    let r = i % size in
    let q = j % size in
    let lr = N.mod-lt i pos in
    let lq = N.mod-lt j pos in
    elim (dec_lt q r) [
      | yes before ↦
          let k = q + size - r in
          (k, omega arith, ground (arith, mod_wrap i size k (omega arith) pos))
      | no behind ↦
          let k = q - r in (k, omega arith, ground (arith, mod_wrap i size k (omega arith) pos))
    ]

-- The slots hold the addresses of `size` frames, from the number `start` on, each behind its metadata.
abbrev pub IsPlaced : ℕ → ℕ → ℕ → Sender → Type 0
IsPlaced frame_size start size s =
    (k : ℕ) → k < size → (index s.tx (start + k)).addr ≡ (start + k) * frame_size + 24

new-IsPlaced :
    (shared : Shared) (frame_size : ℕ) (frames : ℕ → Frame) (tx : Ring Descriptor) (start : ℕ)
    → IsPlaced frame_size start tx.size (new shared frame_size frames tx start)
unfolding new describe
new-IsPlaced shared frame_size frames tx start k lt =
    ap (λ (d : Descriptor). d.addr)
      (describe_loop-index shared frame_size tx.size start k _ (omega arith) lt).1

-- Let the two addresses of the link layer have six bytes. Then a sender that `new` makes over a ring
-- of at least one slot, from any first frame on, is ready: in the frame of every slot are the fixed
-- bytes of the headers of IP and TCP, and before them a header of Ethernet to the gateway, from the
-- interface, of the type of IP; the sums are those of the template; and the slots have one frame
-- each, numbered on from the first, with the address behind the frame's metadata.
pub new-IsReady :
    (shared : Shared) (frame_size : ℕ) (frames : ℕ → Frame) (tx : Ring Descriptor) (start : ℕ)
    → IsMac shared.gateway
    → IsMac shared.interface
    → 0 < tx.size
    → let s = new shared frame_size frames tx start in
      IsReady shared s
      × ((i : ℕ) → IsFramed shared (frame_at s i))
      × IsPlaced frame_size start tx.size s
unfolding new
new-IsReady shared frame_size frames tx start (g0, g1, g2, g3, g4, g5, gateway)
      (i0, i1, i2, i3, i4, i5, interface) pos =
    let s : Sender = record {
      tcp_checksum = fixed_tcp_sum shared;
      ipv4_checksum = fixed_ipv4_sum shared;
      frames = frames;
      tx = tx;
      checksum_offload = shared.offload;
    } in
    (
      (
        describe_loop-HasSums shared tx.size start frame_size s (refl, refl, refl),
        λ j.
            describe_loop-holds shared frame_size (IsTemplate shared.source_ip)
              (λ f.
                template-IsTemplate shared f g0 g1 g2 g3 g4 g5 i0 i1 i2 i3 i4 i5 gateway interface)
              tx.size start j s (inr (slot_reached tx.size start j pos)),
      ),
      λ j.
          describe_loop-holds shared frame_size (IsFramed shared)
            (λ f. template-IsFramed shared f g0 g1 g2 g3 g4 g5 i0 i1 i2 i3 i4 i5 gateway interface)
            tx.size start j s (inr (slot_reached tx.size start j pos)),
      new-IsPlaced shared frame_size frames tx start,
    )
