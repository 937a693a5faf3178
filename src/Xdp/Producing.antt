-- ===== src/Xdp/Producing.antt =====
-- The producer's side of a ring: what is reserved never meets what the kernel has not yet taken.
use farsight.Prelude.{
  subst, ap₂, ℕ, ◌+◌, ◌-◌, ◌%◌, ◌^◌, ◌≤◌, ◌<◌, ◌≡◌, refl, Option, none, some, List, ◌++◌,
  if◌then◌else◌, arith, leb, ap, ◌∙◌, sym,
}
use farsight.Words.{add32, sub32}
use farsight.Xdp.{
  Ring, fill, tx, new, first_positions, free, reserve, submit, kernel_takes, entries, store, index,
}
use farsight.Xdp.Positions.{entries-append, entries_same, entries-store_after}

module _ {ℓ} {T : Type ℓ} where
  -- The slots that are not the producer's: submitted and not yet taken, or reserved.
  abbrev pub in_flight : Ring T → ℕ
  in_flight r = sub32 r.prod r.cons + sub32 r.cached_prod r.prod

  abbrev pub InBounds : Ring T → Type 0
  InBounds r =
      (r.cached_prod < 2 ^ 32)
      × (r.cached_cons < 2 ^ 32)
      × (r.prod < 2 ^ 32)
      × (r.cons < 2 ^ 32)
      × (r.size < 2 ^ 32)

  -- The producer's positions: taken, submitted, reserved and known to be free, in a turn of the ring.
  abbrev pub IsProducing : Ring T → Type 0
  IsProducing r = InBounds r × (in_flight r + sub32 r.cached_cons r.cached_prod ≤ r.size)

  pub new-IsProducing :
      (n : ℕ) (m : ℕ → T) (flags : ℕ)
      → n < 2 ^ 32
      → IsProducing (new fill n m 0 0 flags) × IsProducing (new tx n m 0 0 flags)
  unfolding new first_positions
  new-IsProducing n m flags lt = omega arith

  pub reserve-IsProducing : (r : Ring T) (n : ℕ) → IsProducing r → IsProducing (reserve r n).1
  unfolding reserve free
  reserve-IsProducing r n h = ground arith

  -- On a producer's ring, `reserve` gives slots exactly when the ring has so many that are not in flight,
  -- and then from the first free position on: the cached positions do not change its answer.
  pub reserve-exact :
      (r : Ring T) (n : ℕ)
      → IsProducing r
      → (reserve r n).0 ≡ (if leb (in_flight r + n) r.size then some r.cached_prod else none)
  unfolding reserve free
  reserve-exact r n h = ground arith

  -- Where the next slots start, by the result of `reserve`.
  abbrev pub Reserved : Ring T → ℕ → Option ℕ × Ring T → Type 0
  Reserved r n (none, r1) = r1.cached_prod ≡ r.cached_prod
  Reserved r n (some i, r1) =
      (i ≡ r.cached_prod) × (r1.cached_prod ≡ add32 r.cached_prod n) × (in_flight r + n ≤ r.size)

  pub reserve-Reserved : (r : Ring T) (n : ℕ) → IsProducing r → Reserved r n (reserve r n)
  unfolding reserve free
  reserve-Reserved r n h = ground arith

  -- The same of any ring.
  abbrev pub Placed : Ring T → Option ℕ × Ring T → Type 0
  Placed r (none, r1) = r1.cached_prod ≡ r.cached_prod
  Placed r (some i, r1) = i ≡ r.cached_prod

  pub reserve-Placed : (r : Ring T) (n : ℕ) → Placed r (reserve r n)
  unfolding reserve free
  reserve-Placed r n = ground arith

  pub submit-IsProducing :
      (r : Ring T) (n : ℕ)
      → IsProducing r
      → n ≤ sub32 r.cached_prod r.prod
      → IsProducing (submit r n)
  unfolding submit
  submit-IsProducing r n h le = omega arith

  pub takes-IsProducing :
      (r : Ring T) (n : ℕ)
      → IsProducing r
      → n ≤ sub32 r.prod r.cons
      → IsProducing (kernel_takes r n)
  takes-IsProducing r n h le = omega arith

  -- The queue that the ring stands for: what is submitted and not yet taken.
  abbrev pub pending : Ring T → List T
  pending r = entries r r.cons (sub32 r.prod r.cons)

  -- A store into the `e`-th reserved slot is not seen by the kernel.
  pub store-pending :
      (k : ℕ) (r : Ring T) (e : ℕ) (v : T)
      → k < 32
      → r.size ≡ 2 ^ k
      → IsProducing r
      → e < sub32 r.cached_prod r.prod
      → pending (store r (add32 r.prod e) v) ≡ pending r
  unfolding store
  store-pending k r e v small whole h lt =
      let used = sub32 r.prod r.cons in
      let place : add32 r.cons (used + e) ≡ add32 r.prod e = omega arith in
      subst (λ p. entries (store r p v) r.cons used ≡ entries r r.cons used) place
        (entries-store_after k small r r.cons used (used + e) v whole (omega arith) (omega arith)
          (omega arith))

  -- Submitting `n` slots appends what they hold to the queue.
  pub submit-pending :
      (r : Ring T) (n : ℕ)
      → IsProducing r
      → n ≤ sub32 r.cached_prod r.prod
      → pending (submit r n) ≡ pending r ++ entries r r.prod n
  unfolding submit index
  submit-pending r n h le =
      let used = sub32 r.prod r.cons in
      let more : sub32 (add32 r.prod n) r.cons ≡ used + n = omega arith in
      let next : add32 r.cons used ≡ r.prod = omega arith in
      entries_same (submit r n) r (λ j. refl) r.cons (sub32 (add32 r.prod n) r.cons)
      ∙ ap (entries r r.cons) more
      ∙ entries-append r r.cons used n (omega arith)
      ∙ ap (λ p. entries r r.cons used ++ entries r p n) next

  -- The kernel takes from the front of the queue.
  pub takes-pending :
      (r : Ring T) (n : ℕ)
      → IsProducing r
      → n ≤ sub32 r.prod r.cons
      → pending r ≡ entries r r.cons n ++ pending (kernel_takes r n)
  unfolding index
  takes-pending r n h le =
      let used = sub32 r.prod r.cons in
      let left : sub32 r.prod (add32 r.cons n) ≡ used - n = omega arith in
      let whole : used ≡ n + (used - n) = omega arith in
      ap (entries r r.cons) whole
      ∙ entries-append r r.cons n (used - n) (omega arith)
      ∙ ap (λ es. entries r r.cons n ++ es)
          (ap (entries r (add32 r.cons n)) (sym left)
            ∙ sym (entries_same (kernel_takes r n) r (λ j. refl) _ _))

  -- The memory that the kernel sees.
  abbrev pub SameShared : Ring T → Ring T → Type ℓ
  SameShared r s = (r.size ≡ s.size) × (r.cells ≡ s.cells) × (r.prod ≡ s.prod) × (r.cons ≡ s.cons)

  pub reserve-SameShared : (r : Ring T) (n : ℕ) → SameShared (reserve r n).1 r
  unfolding reserve free
  reserve-SameShared r n = ground arith

  pub SameCells-entries :
      (r s : Ring T) (i n : ℕ) → r.size ≡ s.size → r.cells ≡ s.cells → entries r i n ≡ entries s i n
  unfolding index
  SameCells-entries r s i n size cells =
      entries_same r s (λ j. ap₂ (λ m k. m (j % k)) cells size) i n

  pub SameShared-entries : (r s : Ring T) (i n : ℕ) → SameShared r s → entries r i n ≡ entries s i n
  SameShared-entries r s i n same = SameCells-entries r s i n same.0 same.1

  pub SameShared-pending : (r s : Ring T) → SameShared r s → pending r ≡ pending s
  SameShared-pending r s same =
      SameShared-entries r s r.cons (sub32 r.prod r.cons) same
      ∙ ap₂ (λ p c. entries s c (sub32 p c)) same.2 same.3
