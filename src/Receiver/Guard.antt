-- ===== src/Receiver/Guard.antt =====
-- A guard puts the frames of its batch into the slots reserved for them, and submits them all.
use mathlib.Core.List.{map-append}
use farsight.Prelude.{
  ℕ, zero, suc, ◌+◌, ◌-◌, ◌%◌, ◌^◌, ◌≤◌, ◌<◌, ◌≡◌, refl, sym, ap, ap₂, subst, ◌∙◌, List, [], ◌∷◌,
  ◌++◌, map, take, min, arith, dec_le,
}
use farsight.Words.{add32, sub32}
use farsight.Xdp.{Ring, Descriptor, index, store, submit, release, entries}
use farsight.Xdp.Positions.{entries-last, entries-store_last}
use farsight.Xdp.Producing.{IsProducing, pending, store-pending, submit-pending, submit-IsProducing}
use farsight.Xdp.Consuming.{IsConsuming, unread, release-IsConsuming, release-unread}
use farsight.Receiver.{
  Receiver, BatchGuard, Received, nothing, failed, batch, comp_addr, packet_of, put_back, next,
  drop_loop, drop_guard, consume,
}

-- The descriptors of a batch.
abbrev pub batch_of : BatchGuard → List Descriptor
batch_of g = entries g.owner.rx g.rx_start g.count

-- The fill ring `fr` has the first `i` frames in its reserved slots, after the pending ones `q`.
abbrev pub Filled : ℕ → List ℕ → BatchGuard → ℕ → Ring ℕ → Type 0
Filled k q g i fr =
    (fr.size ≡ 2 ^ k)
    × IsProducing fr
    × (sub32 fr.cached_prod fr.prod ≡ g.count)
    × (g.fill_start ≡ fr.prod)
    × (pending fr ≡ q)
    × (entries fr g.fill_start i ≡ map comp_addr (entries g.owner.rx g.rx_start i))

put_back-Filled :
    (k : ℕ) (q : List ℕ) (g : BatchGuard) (i : ℕ) (fr : Ring ℕ)
    → k < 32
    → g.rx_start < 2 ^ 32
    → i < g.count
    → Filled k q g i fr
    → Filled k q g (i + 1) (put_back g i fr)
unfolding put_back store
put_back-Filled k q g i fr small low lt (whole, h, reserved, start, queue, done) =
    let last = index g.owner.rx (add32 g.rx_start i) in
    let unseen : pending (put_back g i fr) ≡ pending fr =
      subst (λ p. pending (store fr (add32 p i) (comp_addr last)) ≡ pending fr) (sym start)
        (store-pending k fr i (comp_addr last) small whole h (omega (arith, reserved))) in
    (
      whole,
      h,
      reserved,
      start,
      unseen ∙ queue,
      entries-store_last k small fr g.fill_start i (comp_addr last) whole (omega (arith, start))
            (omega (arith, whole, reserved))
          ∙ ap (λ xs. xs ++ comp_addr last ∷ []) done
          ∙ sym (map-append comp_addr (entries g.owner.rx g.rx_start i) (last ∷ []))
          ∙ ap (map comp_addr) (sym (entries-last g.owner.rx g.rx_start i low)),
    )

drop_loop-Filled :
    (k : ℕ) (q : List ℕ) (n i : ℕ) (g : BatchGuard) (fr : Ring ℕ)
    → k < 32
    → g.rx_start < 2 ^ 32
    → i + n ≡ g.count
    → Filled k q g i fr
    → Filled k q g g.count (drop_loop n i g fr)
unfolding drop_loop
drop_loop-Filled k q zero i g fr small low e h =
    let shape : i ≡ g.count = omega arith in subst (λ c. Filled k q g c fr) shape h
drop_loop-Filled k q (suc n) i g fr small low e h =
    drop_loop-Filled k q n (i + 1) g (put_back g i fr) small low (omega arith)
      (put_back-Filled k q g i fr small low (omega arith) h)

-- The guard with `fr` for its fill ring, and `c` packets handed out.
abbrev pub left : BatchGuard → Ring ℕ → ℕ → BatchGuard
left g fr c = record g { owner = record g.owner { fr = fr }; cursor = c }

-- What `m` calls of `next` hand out and leave.
abbrev Consumed : ℕ → List ℕ → ℕ → BatchGuard → List (ℕ × ℕ) × BatchGuard → Type 0
Consumed k q m g (packets, g1) =
    (packets
      ≡ map packet_of
          (take m (entries g.owner.rx (add32 g.rx_start g.cursor) (g.count - g.cursor))))
    × (g1.cursor ≡ min (g.cursor + m) g.count)
    × Filled k q g g1.cursor g1.owner.fr
    × (g1 ≡ left g g1.owner.fr g1.cursor)

consume-end : (m : ℕ) (g : BatchGuard) → g.count ≤ g.cursor → consume m g ≡ ([], g)
unfolding consume next
consume-end zero g all = refl
consume-end (suc m) g all = ground arith

consume-more :
    (m : ℕ) (g : BatchGuard)
    → g.cursor < g.count
    → consume (suc m) g ≡ (
      packet_of (index g.owner.rx (add32 g.rx_start g.cursor))
          ∷ (consume m (left g (put_back g g.cursor g.owner.fr) (g.cursor + 1))).0,
      (consume m (left g (put_back g g.cursor g.owner.fr) (g.cursor + 1))).1,
    )
unfolding consume next
consume-more m g lt = ground arith

consume-Consumed :
    (k : ℕ) (q : List ℕ) (m : ℕ) (g : BatchGuard)
    → k < 32
    → g.rx_start < 2 ^ 32
    → g.cursor ≤ g.count
    → Filled k q g g.cursor g.owner.fr
    → Consumed k q m g (consume m g)
unfolding consume entries
consume-Consumed k q zero g small low le h = (refl, omega arith, h, refl)
consume-Consumed k q (suc m) g small low le h = elim (dec_le g.count g.cursor) [
  | yes all ↦
      let none_left : g.count - g.cursor ≡ 0 = omega arith in
      subst (Consumed k q (suc m) g) (sym (consume-end (suc m) g all)) (
        ap (λ n. map packet_of (take (suc m) (entries g.owner.rx (add32 g.rx_start g.cursor) n)))
            (sym none_left),
        omega arith,
        h,
        refl,
      )
  | no more ↦
      let start = add32 g.rx_start g.cursor in
      let fewer : suc (g.count - (g.cursor + 1)) ≡ g.count - g.cursor = omega arith in
      let moved : add32 g.rx_start (g.cursor + 1) ≡ add32 start 1 = omega arith in
      let (packets, cursor, filled, same) =
        consume-Consumed k q m (left g (put_back g g.cursor g.owner.fr) (g.cursor + 1)) small low
          (omega arith) (put_back-Filled k q g g.cursor g.owner.fr small low (omega arith) h) in
      subst (Consumed k q (suc m) g) (sym (consume-more m g (omega arith))) (
        ap (λ ps. packet_of (index g.owner.rx start) ∷ ps)
              (packets
                ∙ ap (λ i. map packet_of (take m (entries g.owner.rx i (g.count - (g.cursor + 1)))))
                    moved)
            ∙ ap (λ n. map packet_of (take (suc m) (entries g.owner.rx start n))) fewer,
        omega (arith, cursor),
        filled,
        same,
      )
]

-- Between two batches nothing is reserved on the one ring and nothing is peeked on the other.
abbrev pub IsIdle : ℕ → ℕ → Receiver → Type 0
IsIdle k j r =
    (r.fr.size ≡ 2 ^ k)
    × (r.rx.size ≡ 2 ^ j)
    × IsProducing r.fr
    × IsConsuming r.rx
    × (r.fr.cached_prod ≡ r.fr.prod)
    × (r.rx.cached_cons ≡ r.rx.cons)

-- Nothing has moved.
abbrev pub Untouched : ℕ → ℕ → Receiver → Receiver → Type 0
Untouched k j r r1 = IsIdle k j r1 × (pending r1.fr ≡ pending r.fr) × (unread r1.rx ≡ unread r.rx)

-- What comes of a batch of which `m` packets are looked at.
abbrev pub Returned : ℕ → ℕ → ℕ → Receiver → ℕ → BatchGuard → Type 0
Returned k j m r filled g =
    let (packets, g1) = consume m g in
    let (r1, filled1) = drop_guard g1 in
    IsIdle k j r1
    × (packets ≡ map packet_of (take m (batch_of g)))
    × (unread r.rx ≡ batch_of g ++ unread r1.rx)
    × (pending r1.fr ≡ pending r.fr ++ map comp_addr (batch_of g))
    × (filled1 ≡ (filled + min m g.count) % 2 ^ 64)

abbrev pub Conserves : ℕ → ℕ → ℕ → Receiver → ℕ → Received → Type 0
Conserves k j m r filled (nothing r1) = Untouched k j r r1
Conserves k j m r filled (failed r1) = Untouched k j r r1
Conserves k j m r filled (batch g) = Returned k j m r filled g

-- What the receive ring of a guard holds.
abbrev pub Peeked : ℕ → BatchGuard → Type 0
Peeked j g =
    (g.owner.rx.size ≡ 2 ^ j)
    × IsConsuming g.owner.rx
    × (sub32 g.owner.rx.cached_cons g.owner.rx.cons ≡ g.count)
    × (g.rx_start < 2 ^ 32)

abbrev Released : ℕ → ℕ → List ℕ → BatchGuard → ℕ → Receiver × ℕ → Type 0
Released k j q g c (r1, filled1) =
    IsIdle k j r1
    × (unread r1.rx ≡ unread g.owner.rx)
    × (pending r1.fr ≡ q ++ map comp_addr (batch_of g))
    × (filled1 ≡ (g.filled + c) % 2 ^ 64)

drop_guard-Released :
    (k j : ℕ) (q : List ℕ) (g : BatchGuard)
    → k < 32
    → Peeked j g
    → g.cursor ≤ g.count
    → Filled k q g g.cursor g.owner.fr
    → Released k j q g g.cursor (drop_guard g)
unfolding drop_guard release submit index
drop_guard-Released k j q g small (whole, consuming, peeked, low) le h =
    let fr = drop_loop (g.count - g.cursor) g.cursor g g.owner.fr in
    let (size, producing, reserved, start, queue, done) =
      drop_loop-Filled k q (g.count - g.cursor) g.cursor g g.owner.fr small low (omega arith) h in
    (
      (
        size,
        whole,
        submit-IsProducing fr g.count producing (omega (arith, reserved)),
        release-IsConsuming g.owner.rx g.count consuming (omega (arith, peeked)),
        omega (arith, producing, reserved),
        omega (arith, consuming, peeked),
      ),
      release-unread g.owner.rx g.count,
      submit-pending fr g.count producing (omega (arith, reserved))
          ∙ ap₂ (λ xs ys. xs ++ ys) queue (ap (λ p. entries fr p g.count) (sym start) ∙ done),
      refl,
    )

-- A guard that is dropped after `m` packets.
pub consume-Returned :
    (k j m : ℕ) (r : Receiver) (filled : ℕ) (g : BatchGuard)
    → k < 32
    → (g.cursor ≡ 0) × (g.filled ≡ filled)
    → Peeked j g
    → Filled k (pending r.fr) g g.cursor g.owner.fr
    → unread r.rx ≡ batch_of g ++ unread g.owner.rx
    → Returned k j m r filled g
consume-Returned k j m r filled g small (fresh, same) peeked h log =
    let q = pending r.fr in
    let g1 = (consume m g).1 in
    let (packets, cursor, done, kept) = consume-Consumed k q m g small peeked.3 (omega arith) h in
    let first : entries g.owner.rx (add32 g.rx_start g.cursor) (g.count - g.cursor) ≡ batch_of g =
      ap₂ (entries g.owner.rx) (omega arith) (omega arith) in
    let (idle, others, queue, total) =
      subst (λ g2. Released k j q g g1.cursor (drop_guard g2)) (sym kept)
        (drop_guard-Released k j q (left g g1.owner.fr g1.cursor) small peeked
          (omega (arith, cursor)) done) in
    (
      idle,
      packets ∙ ap (λ es. map packet_of (take m es)) first,
      log ∙ ap (λ es. batch_of g ++ es) (sym others),
      queue,
      total ∙ ap (λ n. n % 2 ^ 64) (omega (arith, cursor)),
    )
