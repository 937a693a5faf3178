-- ===== src/Xdp/Consumer.antt =====
-- A consumer and the kernel on one ring, in any order of their steps.
use farsight.Prelude.{
  ℕ, ◌^◌, ◌≤◌, ◌<◌, ◌≡◌, refl, List, [], ◌∷◌, ◌++◌, append_assoc, ap, ◌∙◌, sym, subst,
}
use farsight.Words.{sub32, pow_below}
use farsight.Xdp.{
  Ring, rx, new, first_positions, peek, unpeek, release, kernel_puts, entries, store,
}
use farsight.Xdp.Consuming.{
  IsConsuming, unread, count, handed, handed_count, handed-peek, handed_count-peek, new-IsConsuming,
  peek-IsConsuming, peek-SameShared, peek-unread, unpeek-peek-IsConsuming, unpeek-peek-unread,
  release-IsConsuming, release-unread, puts-IsConsuming, puts-unread,
}

-- The ring, with all that the kernel put into it and all that was peeked for good.
pub record Receiving {ℓ} (T : Type ℓ) : Type ℓ where
  pub ring : Ring T
  pub put_in : List T
  pub peeked : List T

module _ {ℓ} {T : Type ℓ} where
  -- The consumer reads what it peeks through the answer of `peek`, releases no more than it peeked, and
  -- the kernel puts nothing into a full ring.
  pub data Step (s : Receiving T) : Receiving T → Type ℓ where
    peeks :
        (n : ℕ)
        → Step s (record s {
          ring = (peek s.ring n).1;
          peeked = s.peeked ++ handed (peek s.ring n).1 (peek s.ring n).0;
        })
    gives_back :
        (n : ℕ)
        → Step s (record s { ring = unpeek (peek s.ring n).1 (handed_count (peek s.ring n).0) })
    releases :
        (n : ℕ)
        → n ≤ sub32 s.ring.cached_cons s.ring.cons
        → Step s (record s { ring = release s.ring n })
    puts :
        (v : T)
        → sub32 s.ring.prod s.ring.cons < s.ring.size
        → Step s (record s { ring = kernel_puts s.ring v; put_in = s.put_in ++ v ∷ [] })

  pub data Reach (start : Receiving T) : Receiving T → Type ℓ where
    here : Reach start start
    later : {s t : Receiving T} → Reach start s → Step s t → Reach start t

  -- What was peeked is the front of what was put in, and the rest is unread.
  abbrev pub InOrder : ℕ → Receiving T → Type ℓ
  InOrder k s = (s.ring.size ≡ 2 ^ k) × IsConsuming s.ring × (s.put_in ≡ s.peeked ++ unread s.ring)

  Step-InOrder : {k : ℕ} {s t : Receiving T} → k < 32 → Step s t → InOrder k s → InOrder k t
  unfolding unpeek release store kernel_puts
  Step-InOrder {s} small (peeks n) (whole, h, log) =
      let es = entries s.ring s.ring.cached_cons (count s.ring n) in
      (
        (peek-SameShared s.ring n).0 ∙ whole,
        peek-IsConsuming s.ring n h,
        log
            ∙ ap (λ xs. s.peeked ++ xs) (peek-unread s.ring n h)
            ∙ sym (append_assoc s.peeked es (unread (peek s.ring n).1))
            ∙ ap (λ xs. (s.peeked ++ xs) ++ unread (peek s.ring n).1)
                (sym (handed-peek s.ring n h)),
      )
  Step-InOrder {k} {s} small (gives_back n) (whole, h, log) =
      let left : ℕ → Receiving T = λ m. record s { ring = unpeek (peek s.ring n).1 m } in
      subst (λ m. InOrder k (left m)) (sym (handed_count-peek s.ring n h))
        (
          (peek-SameShared s.ring n).0 ∙ whole,
          unpeek-peek-IsConsuming s.ring n h,
          log ∙ ap (λ xs. s.peeked ++ xs) (sym (unpeek-peek-unread s.ring n h)),
        )
  Step-InOrder {s} small (releases n le) (whole, h, log) = (
    whole,
    release-IsConsuming s.ring n h le,
    log ∙ ap (λ xs. s.peeked ++ xs) (sym (release-unread s.ring n)),
  )
  Step-InOrder {k} {s} small (puts v room) (whole, h, log) = (
    whole,
    puts-IsConsuming s.ring v h room,
    ap (λ xs. xs ++ v ∷ []) log
        ∙ append_assoc s.peeked (unread s.ring) (v ∷ [])
        ∙ ap (λ xs. s.peeked ++ xs) (sym (puts-unread k s.ring v small whole h room)),
  )

  Reach-InOrder : {k : ℕ} {s t : Receiving T} → k < 32 → InOrder k s → Reach s t → InOrder k t
  Reach-InOrder small h here = h
  Reach-InOrder small h (later r st) = Step-InOrder small st (Reach-InOrder small h r)

  -- A new receive ring, over any memory.
  abbrev pub start : ℕ → (ℕ → T) → Receiving T
  start k m = record { ring = new rx (2 ^ k) m 0 0 0; put_in = []; peeked = [] }

  -- Whatever the steps of the consumer and of the kernel on a new receive ring of 2 ^ k slots, the
  -- entries that the consumer reads, from the index and in the number that `peek` returns, and does not
  -- give back are a front part of those that the kernel put in, in their order, and the rest is still
  -- unread in the ring: no entry is lost, peeked twice or overwritten.
  pub Reach-peeks_in_order :
      (k : ℕ) (m : ℕ → T) (s : Receiving T)
      → k < 32
      → Reach (start k m) s
      → s.put_in ≡ s.peeked ++ unread s.ring
  unfolding new first_positions entries
  Reach-peeks_in_order k m s small r =
      let holds : InOrder k (start k m) =
        (refl, (new-IsConsuming (2 ^ k) m 0 (pow_below small)).1, refl) in
      (Reach-InOrder small holds r).2
