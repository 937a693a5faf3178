-- ===== src/Xdp/Producer.antt =====
-- A producer and the kernel on one ring, in any order of their steps.
use farsight.Prelude.{ℕ, ◌^◌, ◌≤◌, ◌<◌, ◌≡◌, refl, List, [], ◌++◌, append_assoc, ap, ◌∙◌, sym}
use farsight.Words.{add32, sub32, pow_below}
use farsight.Xdp.{Ring, fill, new, first_positions, reserve, submit, kernel_takes, entries, store}
use farsight.Xdp.Producing.{
  IsProducing, pending, new-IsProducing, reserve-IsProducing, reserve-SameShared,
  SameShared-pending, submit-IsProducing, takes-IsProducing, store-pending, submit-pending,
  takes-pending,
}

-- The ring, with all that was submitted and all that the kernel took from it.
pub record Sending {ℓ} (T : Type ℓ) : Type ℓ where
  pub ring : Ring T
  pub submitted : List T
  pub taken : List T

module _ {ℓ} {T : Type ℓ} where
  -- The producer submits no more than it reserved, and the kernel takes no more than is submitted.
  pub data Step (s : Sending T) : Sending T → Type ℓ where
    reserves : (n : ℕ) → Step s (record s { ring = (reserve s.ring n).1 })
    stores :
        (e : ℕ) (v : T)
        → e < sub32 s.ring.cached_prod s.ring.prod
        → Step s (record s { ring = store s.ring (add32 s.ring.prod e) v })
    submits :
        (n : ℕ)
        → n ≤ sub32 s.ring.cached_prod s.ring.prod
        → Step s (record s {
          ring = submit s.ring n;
          submitted = s.submitted ++ entries s.ring s.ring.prod n;
        })
    takes :
        (n : ℕ)
        → n ≤ sub32 s.ring.prod s.ring.cons
        → Step s (record s {
          ring = kernel_takes s.ring n;
          taken = s.taken ++ entries s.ring s.ring.cons n;
        })

  pub data Reach (start : Sending T) : Sending T → Type ℓ where
    here : Reach start start
    later : {s t : Sending T} → Reach start s → Step s t → Reach start t

  -- What the kernel took is the front of what was submitted, and the ring holds the rest.
  abbrev pub InOrder : ℕ → Sending T → Type ℓ
  InOrder k s =
      (s.ring.size ≡ 2 ^ k) × IsProducing s.ring × (s.submitted ≡ s.taken ++ pending s.ring)

  Step-InOrder : {k : ℕ} {s t : Sending T} → k < 32 → Step s t → InOrder k s → InOrder k t
  unfolding store submit
  Step-InOrder {s} small (reserves n) (whole, h, log) =
      let same = reserve-SameShared s.ring n in
      (
        same.0 ∙ whole,
        reserve-IsProducing s.ring n h,
        log ∙ ap (λ es. s.taken ++ es) (sym (SameShared-pending (reserve s.ring n).1 s.ring same)),
      )
  Step-InOrder {k} {s} small (stores e v lt) (whole, h, log) =
      (whole, h, log ∙ ap (λ es. s.taken ++ es) (sym (store-pending k s.ring e v small whole h lt)))
  Step-InOrder {s} small (submits n le) (whole, h, log) = (
    whole,
    submit-IsProducing s.ring n h le,
    ap (λ es. es ++ entries s.ring s.ring.prod n) log
        ∙ append_assoc s.taken (pending s.ring) (entries s.ring s.ring.prod n)
        ∙ ap (λ es. s.taken ++ es) (sym (submit-pending s.ring n h le)),
  )
  Step-InOrder {s} small (takes n le) (whole, h, log) = (
    whole,
    takes-IsProducing s.ring n h le,
    log
        ∙ ap (λ es. s.taken ++ es) (takes-pending s.ring n h le)
        ∙ sym
            (append_assoc s.taken (entries s.ring s.ring.cons n) (pending (kernel_takes s.ring n))),
  )

  Reach-InOrder : {k : ℕ} {s t : Sending T} → k < 32 → InOrder k s → Reach s t → InOrder k t
  Reach-InOrder small h here = h
  Reach-InOrder small h (later r st) = Step-InOrder small st (Reach-InOrder small h r)

  -- A new fill ring, over any memory.
  abbrev pub start : ℕ → (ℕ → T) → Sending T
  start k m = record { ring = new fill (2 ^ k) m 0 0 0; submitted = []; taken = [] }

  -- Whatever the steps of the producer and of the kernel on a new fill ring of 2 ^ k slots, and however
  -- often the positions wrap round, the kernel has taken a front part of the entries that were
  -- submitted, in their order, and the slots between `cons` and `prod` hold the rest of them.
  pub Reach-takes_in_order :
      (k : ℕ) (m : ℕ → T) (s : Sending T)
      → k < 32
      → Reach (start k m) s
      → s.submitted ≡ s.taken ++ pending s.ring
  unfolding new first_positions entries
  Reach-takes_in_order k m s small r =
      let holds : InOrder k (start k m) =
        (refl, (new-IsProducing (2 ^ k) m 0 (pow_below small)).0, refl) in
      (Reach-InOrder small holds r).2
