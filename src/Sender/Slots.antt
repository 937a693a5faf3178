-- ===== src/Sender/Slots.antt =====
-- `Sender::new` gives every slot a frame of its own.
use native.Mathlib.Nat as N
use farsight.Prelude.{
  ℕ, zero, suc, ◌+◌, ◌%◌, ◌≤◌, ◌<◌, ◌≡◌, ◌≢◌, refl, sym, ap, subst, ◌∙◌, arith, true, false, ◌==◌,
}
use farsight.Words.{mod_wrap}
use farsight.Xdp.{Descriptor, index, store}
use farsight.Sender.{Shared, Sender, update_slot, describe, template, describe_loop}

-- Numbers less than `m` apart have different remainders.
mod-apart : (m i d : ℕ) → 0 < d → d < m → i % m ≢ (i + d) % m
mod-apart m i d pos lt same =
    let bounded : i % m < m = N.mod-lt i (omega arith) in
    let turned = mod_wrap i m d (omega arith) (omega arith) in
    absurd (ground (arith, same, turned, bounded))

module _ (shared : Shared) (frame_size : ℕ) where
  described : ℕ → Sender → Sender
  described i s = update_slot i (describe shared frame_size i) (template shared) s

  described-own :
      (i : ℕ) (s : Sender)
      → index (described i s).tx i ≡ describe shared frame_size i (index s.tx i)
  unfolding described update_slot index store
  described-own i s =
      let hit : (i % s.tx.size == i % s.tx.size) ≡ true = ground arith in rw hit refl

  described-other :
      (i j : ℕ) (s : Sender)
      → j % s.tx.size ≢ i % s.tx.size
      → index (described i s).tx j ≡ index s.tx j
  unfolding described update_slot index store
  described-other i j s other =
      let missed : (j % s.tx.size == i % s.tx.size) ≡ false = ground (arith, other) in
      rw missed refl

  described-size : (i : ℕ) (s : Sender) → (described i s).tx.size ≡ s.tx.size
  unfolding described update_slot store
  described-size i s = refl

  -- The slots behind those of the loop stay as they are.
  describe_loop-before :
      (n i d : ℕ) (s : Sender)
      → 0 < d
      → n + d ≤ s.tx.size
      → index (describe_loop n (i + d) shared frame_size s).tx i ≡ index s.tx i
  unfolding describe_loop described
  describe_loop-before zero i d s pos le = refl
  describe_loop-before (suc n) i d s pos le =
      let next : i + (d + 1) ≡ i + d + 1 = omega arith in
      let s1 = described (i + d) s in
      let fits : n + (d + 1) ≤ s1.tx.size = omega (arith, le, described-size (i + d) s) in
      ap (λ m. index (describe_loop n m shared frame_size s1).tx i) (sym next)
      ∙ describe_loop-before n i (d + 1) s1 (omega arith) fits
      ∙ described-other (i + d) i s (mod-apart s.tx.size i d pos (omega arith))

  -- The slot of the position `m` has been described with the frame of that number.
  abbrev pub IsDescribed : Sender → ℕ → Type 0
  IsDescribed t m = (old : Descriptor) × (index t.tx m ≡ describe shared frame_size m old)

  -- The slot `k` of the loop is described with the frame of its number.
  pub describe_loop-index :
      (n i k : ℕ) (s : Sender)
      → n ≤ s.tx.size
      → k < n
      → IsDescribed (describe_loop n i shared frame_size s) (i + k)
  unfolding describe_loop described
  describe_loop-index zero i k s le lt = absurd (omega arith)
  describe_loop-index (suc n) i zero s le lt =
      let here : i ≡ i + 0 = omega arith in
      let s1 = described i s in
      let fits : n + 1 ≤ s1.tx.size = omega (arith, le, described-size i s) in
      subst (IsDescribed (describe_loop n (i + 1) shared frame_size s1)) here
        (index s.tx i, describe_loop-before n i 1 s1 (omega arith) fits ∙ described-own i s)
  describe_loop-index (suc n) i (suc k) s le lt =
      let next : i + 1 + k ≡ i + suc k = omega arith in
      let s1 = described i s in
      let fits : n ≤ s1.tx.size = omega (arith, le, described-size i s) in
      subst (IsDescribed (describe_loop n (i + 1) shared frame_size s1)) next
        (describe_loop-index n (i + 1) k s1 fits (omega arith))
