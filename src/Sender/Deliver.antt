-- ===== src/Sender/Deliver.antt =====
-- What is submitted to the kernel: whatever the wait was like, the slots hold valid packets.
use farsight.Prelude.{
  ℕ, ◌%◌, ◌^◌, ◌<◌, ◌≡◌, refl, sym, ap, ap₂, subst, ◌∙◌, Bool, List, [], ◌∷◌, arith, true, false,
  not, ◌&&◌, ◌==◌, if◌then◌else◌, Option, none, some, if_elim, ℕ_discrete,
}
use farsight.Words.{add32}
use farsight.Xdp.{Ring, Descriptor, needs_wakeup, index, store, reserve, submit, kernel_takes}
use farsight.Xdp.Producing.{Placed, reserve-Placed, reserve-SameShared}
use farsight.Tcp.{Frame}
use farsight.Sender.{
  Shared, Sender, Status, sent, failed, waiting, Turn, Slots, update_slot, wait_reserved,
  wait_for_slots, deliver, submit_slots,
}
use farsight.Sender.Template.{IsTemplate, HasSums}

-- The frame of a slot.
abbrev pub frame_at : Sender → ℕ → Frame
frame_at s i = s.frames (index s.tx i).addr

-- Every slot's frame holds the template, and the sums are those of the template.
abbrev pub IsReady : Shared → Sender → Type 0
IsReady shared s = HasSums shared s × ((i : ℕ) → IsTemplate shared.source_ip (frame_at s i))

-- The same slots: a wait leaves the descriptors as they are.
SameSlots : Ring Descriptor → Ring Descriptor → Type 0
SameSlots tx tx1 = (tx1.cells ≡ tx.cells) × (tx1.size ≡ tx.size)

index-SameSlots : (tx tx1 : Ring Descriptor) (i : ℕ) → SameSlots tx tx1 → index tx1 i ≡ index tx i
unfolding index SameSlots
index-SameSlots tx tx1 i (cells, size) = ap₂ (λ m k. m (i % k)) cells size

-- A round changes no slot, and the slots come from the place where the ring was.
Waited : {C : Type 0} → Ring Descriptor → Slots C → Type 0
Waited tx (status, i, tx1, c) = SameSlots tx tx1 × (status ≡ sent → i ≡ tx.cached_prod)

wait_reserved-Waited :
    {C : Type 0} (tx tx0 : Ring Descriptor) (out : Option ℕ × Ring Descriptor) (c : C)
    (later : Slots C)
    → SameSlots tx out.1
    → Placed tx0 out
    → (tx0.cached_prod ≡ tx.cached_prod)
    → ((out.1.cached_prod ≡ tx.cached_prod) → Waited tx later)
    → Waited tx (wait_reserved out c later)
unfolding wait_reserved Waited
wait_reserved-Waited tx tx0 (none, tx1) c later same place kept h = h (place ∙ kept)
wait_reserved-Waited tx tx0 (some i, tx1) c later same place kept h = (same, λ e. place ∙ kept)

Waited-later :
    {C : Type 0} (tx tx1 : Ring Descriptor) (out : Slots C)
    → SameSlots tx tx1
    → Waited tx1 out
    → tx1.cached_prod ≡ tx.cached_prod
    → Waited tx out
unfolding Waited SameSlots
Waited-later tx tx1 (status, i, tx2, c) same h kept =
    ((h.0.0 ∙ same.0, h.0.1 ∙ same.1), λ e. h.1 e ∙ kept)

wait_for_slots-Waited :
    {C : Type 0} (tick : C → C) (turns : List Turn) (n : ℕ) (tx : Ring Descriptor) (c : C)
    → Waited tx (wait_for_slots tick turns n tx c)
unfolding wait_for_slots Waited SameSlots
wait_for_slots-Waited tick [] n tx c = ((refl, refl), λ e. cc)
wait_for_slots-Waited tick (t ∷ rest) n tx c =
    let tx1 : Ring Descriptor = record (kernel_takes tx t.taken) { ring_flags = t.flags } in
    let tx2 = (reserve tx1 n).1 in
    let same = reserve-SameShared tx1 n in
    let later = wait_for_slots tick rest n tx2 (tick c) in
    if_elim (Waited tx) (needs_wakeup tx1 && not t.sendto_ok) (failed, 0, tx1, c)
      (wait_reserved (reserve tx1 n) c later) ((refl, refl), λ e. cc)
      (wait_reserved-Waited tx tx1 (reserve tx1 n) c later (same.1, same.0) (reserve-Placed tx1 n)
        refl
        (λ kept.
          Waited-later tx tx2 later (same.1, same.0)
            (wait_for_slots-Waited tick rest n tx2 (tick c)) kept))

module _ (change : Descriptor → Descriptor)
    (keeps : (d : Descriptor) → (change d).addr ≡ d.addr) where
  -- The address of a slot's frame stays.
  update_slot-addr :
      (i j : ℕ) (edit : Frame → Frame) (s : Sender)
      → (index (update_slot i change edit s).tx j).addr ≡ (index s.tx j).addr
  unfolding update_slot index store
  update_slot-addr i j edit s = elim (ℕ_discrete (j % s.tx.size) (i % s.tx.size)) [
    | yes same ↦
        let hit : (j % s.tx.size == i % s.tx.size) ≡ true = ground (arith, same) in
        rw hit (keeps (index s.tx i) ∙ ap (λ k. (s.tx.cells k).addr) (sym same))
    | no other ↦
        let missed : (j % s.tx.size == i % s.tx.size) ≡ false = ground (arith, other) in
        rw missed refl
  ]

  -- Every frame is as before, or edited.
  pub update_slot-frame :
      (P : Frame → Type 0) (i j : ℕ) (edit : Frame → Frame) (s : Sender)
      → P (frame_at s j)
      → P (edit (frame_at s j))
      → P (frame_at (update_slot i change edit s) j)
  unfolding update_slot
  update_slot-frame P i j edit s kept edited =
      let there = (change (index s.tx i)).addr in
      subst (λ a. P (if a == there then edit (s.frames a) else s.frames a))
        (sym (update_slot-addr i j edit s))
        (if_elim P ((index s.tx j).addr == there) (edit (frame_at s j)) (frame_at s j) edited kept)

  -- The slot's own frame is edited.
  pub update_slot-edited :
      (P : Frame → Type 0) (i : ℕ) (edit : Frame → Frame) (s : Sender)
      → P (edit (frame_at s i))
      → P (frame_at (update_slot i change edit s) i)
  unfolding update_slot
  update_slot-edited P i edit s edited =
      let there = (change (index s.tx i)).addr in
      let own : ((index s.tx i).addr == there) ≡ true = ground (arith, keeps (index s.tx i)) in
      subst (λ a. P (if a == there then edit (s.frames a) else s.frames a))
        (sym (update_slot-addr i i edit s)) (rw own edited)

-- What a delivery leaves: the sender ready; and when it is sent, frames with `Good` in the slots that
-- followed the last reserved one.
abbrev pub Delivered :
    {C : Type 0} → Shared → (ℕ → Sender → Type 0) → ℕ → Status × Sender × C → Type 0
Delivered shared Good place (status, s1, c) = IsReady shared s1 × (status ≡ sent → Good place s1)

-- `Good` is of the frames alone.
abbrev pub GoodFrames : (Frame → Type 0) → ℕ → ℕ → Sender → Type 0
GoodFrames P n place s = (j : ℕ) → j < n → P (frame_at s (add32 place j))

IsReady-SameSlots :
    (shared : Shared) (s : Sender) (tx : Ring Descriptor)
    → IsReady shared s
    → SameSlots s.tx tx
    → IsReady shared (record s { tx = tx })
IsReady-SameSlots shared s tx (sums, templates) same = (
  sums,
  λ i.
      subst (λ d. IsTemplate shared.source_ip (s.frames d.addr))
        (sym (index-SameSlots s.tx tx i same)) (templates i),
)

submit_slots-Delivered :
    {C : Type 0} (shared : Shared) (P : Frame → Type 0) (kicked : Bool) (n m : ℕ)
    (write : ℕ → Sender → Sender) (s : Sender) (out : Slots C)
    → s.tx.cached_prod < 2 ^ 32
    → IsReady shared s
    → Waited s.tx out
    → ((i : ℕ) (s1 : Sender)
        → i < 2 ^ 32
        → IsReady shared s1
        → IsReady shared (write i s1) × GoodFrames P m i (write i s1))
    → Delivered shared (GoodFrames P m) s.tx.cached_prod (submit_slots kicked n write s out)
unfolding submit_slots submit index Waited
submit_slots-Delivered shared P kicked n m write s (waiting, i, tx, c) low ready waited h =
    (IsReady-SameSlots shared s tx ready waited.0, λ e. cc)
submit_slots-Delivered shared P kicked n m write s (failed, i, tx, c) low ready waited h =
    (IsReady-SameSlots shared s tx ready waited.0, λ e. cc)
submit_slots-Delivered shared P kicked n m write s (sent, i, tx, c) low ready waited h =
    let s1 : Sender = record s { tx = tx } in
    let (kept, good) =
      h i s1 (omega (arith, waited.1 refl)) (IsReady-SameSlots shared s tx ready waited.0) in
    (kept, λ e. subst (λ place. GoodFrames P m place (write i s1)) (waited.1 refl) good)

module _ {C : Type 0} (tick : C → C) (shared : Shared) (P : Frame → Type 0) where
  pub deliver-Delivered :
      (turns : List Turn) (kicked : Bool) (n m : ℕ) (write : ℕ → Sender → Sender) (s : Sender)
      (c : C)
      → s.tx.cached_prod < 2 ^ 32
      → IsReady shared s
      → ((i : ℕ) (s1 : Sender)
          → i < 2 ^ 32
          → IsReady shared s1
          → IsReady shared (write i s1) × GoodFrames P m i (write i s1))
      → Delivered shared (GoodFrames P m) s.tx.cached_prod (deliver tick turns kicked n write s c)
  unfolding deliver
  deliver-Delivered turns kicked n m write s c low ready h =
      submit_slots-Delivered shared P kicked n m write s (wait_for_slots tick turns n s.tx c) low
        ready (wait_for_slots-Waited tick turns n s.tx c) h

module _ (shared : Shared) (change : Descriptor → Descriptor)
    (keeps : (d : Descriptor) → (change d).addr ≡ d.addr) where
  update_slot-sums :
      (i : ℕ) (edit : Frame → Frame) (s : Sender)
      → HasSums shared s
      → HasSums shared (update_slot i change edit s)
  unfolding update_slot
  update_slot-sums i edit s sums = sums

  pub update_slot-Ready :
      (i : ℕ) (edit : Frame → Frame) (s : Sender)
      → ((f : Frame) → IsTemplate shared.source_ip f → IsTemplate shared.source_ip (edit f))
      → IsReady shared s
      → IsReady shared (update_slot i change edit s)
  update_slot-Ready i edit s closed (sums, templates) = (
    update_slot-sums i edit s sums,
    λ j.
        update_slot-frame change keeps (IsTemplate shared.source_ip) i j edit s (templates j)
          (closed (frame_at s j) (templates j)),
  )
