-- ===== src/Xdp/Positions.antt =====
-- Positions on a ring whose size is a power of two: distinct cells, also where `u32` wraps round.
use native.Mathlib.Nat as N
use Prim.Native.Nat.{◌∣◌}
use farsight.Prelude.{
  ℕ, zero, suc, ◌+◌, ◌-◌, ◌*◌, ◌%◌, ◌^◌, ◌≤◌, ◌<◌, ◌≡◌, ◌≢◌, refl, subst, sym, ap, ap₂, ◌∙◌, [],
  ◌∷◌, ◌++◌, arith,
}
use farsight.Words.{add32, pow_pos, mod_wrap}
use farsight.Xdp.{Ring, index, store, entries}

pow-dvd : (k d : ℕ) → 2 ^ k ∣ 2 ^ (k + d)
pow-dvd k zero = subst (λ m. 2 ^ k ∣ 2 ^ m) (omega arith) (N.dvd_refl (2 ^ k))
pow-dvd k (suc d) =
    let step : 2 ^ (k + d) * 2 ≡ 2 ^ (k + suc d) =
      sym (N.pow-suc 2 (k + d)) ∙ ap (λ m. 2 ^ m) (omega arith) in
    subst (λ m. 2 ^ k ∣ m) step (N.dvd-mul_right_of_dvd (2 ^ k) (pow-dvd k d) 2)

-- Reduced to 32 bits first, a position is on the same cell.
pub mod-add32 : (k i d : ℕ) → k ≤ 32 → add32 i d % 2 ^ k ≡ (i + d) % 2 ^ k
mod-add32 k i d h =
    let whole : k + (32 - k) ≡ 32 = omega arith in
    N.mod-mod_of_dvd (2 ^ k) (i + d) (subst (λ m. 2 ^ k ∣ 2 ^ m) whole (pow-dvd k (32 - k)))

-- Two positions less than a turn apart are on different cells.
pub slots_differ : (k i d : ℕ) → k ≤ 32 → 0 < d → d < 2 ^ k → add32 i d % 2 ^ k ≢ i % 2 ^ k
slots_differ k i d h pos lt e =
    let turned = mod_wrap i (2 ^ k) d (omega arith) (pow_pos k) in
    absurd (ground (arith, mod-add32 k i d h, turned, N.mod-lt i (pow_pos k)))

module _ {ℓ} {T : Type ℓ} where
  pub entries-append :
      (r : Ring T) (i m n : ℕ)
      → i < 2 ^ 32
      → entries r i (m + n) ≡ entries r i m ++ entries r (add32 i m) n
  unfolding entries
  entries-append r i zero n lt =
      let none_added : 0 + n ≡ n = omega arith in
      let here : i ≡ add32 i 0 = omega arith in
      ap (entries r i) none_added ∙ ap (λ j. entries r j n) here
  entries-append r i (suc m) n lt =
      let shape : suc m + n ≡ suc (m + n) = omega arith in
      let next : add32 (add32 i 1) m ≡ add32 i (suc m) = omega arith in
      ap (entries r i) shape
      ∙ ap (λ es. index r i ∷ es)
          (entries-append r (add32 i 1) m n (omega arith)
            ∙ ap (λ j. entries r (add32 i 1) m ++ entries r j n) next)

  pub entries-last :
      (r : Ring T) (i n : ℕ)
      → i < 2 ^ 32
      → entries r i (n + 1) ≡ entries r i n ++ index r (add32 i n) ∷ []
  unfolding entries
  entries-last r i n lt = entries-append r i n 1 lt

  -- The entries are those of the memory, whatever the positions kept beside it.
  pub entries_same :
      (r s : Ring T) → ((j : ℕ) → index r j ≡ index s j) → (i n : ℕ) → entries r i n ≡ entries s i n
  unfolding entries
  entries_same r s h i zero = refl
  entries_same r s h i (suc n) = ap₂ (λ x xs. x ∷ xs) (h i) (entries_same r s h (add32 i 1) n)

  pub index-store : (r : Ring T) (i : ℕ) (v : T) → index (store r i v) i ≡ v
  unfolding index store
  index-store r i v = ground arith

  pub index-store_ne :
      (r : Ring T) (i j : ℕ) (v : T) → j % r.size ≢ i % r.size → index (store r i v) j ≡ index r j
  unfolding index store
  index-store_ne r i j v ne = ground arith

  module _ (k : ℕ) (small : k < 32) where
    -- A store past a window, and within a turn of its start, leaves the window alone.
    pub entries-store_after :
        (r : Ring T) (i n e : ℕ) (v : T)
        → r.size ≡ 2 ^ k
        → i < 2 ^ 32
        → n ≤ e
        → e < 2 ^ k
        → entries (store r (add32 i e) v) i n ≡ entries r i n
    unfolding entries
    entries-store_after r i zero e v whole lt le turn = refl
    entries-store_after r i (suc n) e v whole lt le turn =
        let e1 = e - 1 in
        let shift : add32 (add32 i 1) e1 ≡ add32 i e = omega arith in
        let apart : i % r.size ≢ add32 i e % r.size = λ same.
          slots_differ k i e (omega arith) (omega arith) turn
            (sym (subst (λ m. i % m ≡ add32 i e % m) whole same)) in
        ap₂ (λ x xs. x ∷ xs) (index-store_ne r (add32 i e) i v apart)
          (subst (λ p. entries (store r p v) (add32 i 1) n ≡ entries r (add32 i 1) n) shift
            (entries-store_after r (add32 i 1) n e1 v whole (omega arith) (omega arith)
              (omega arith)))

    -- Nor does a store before a window, and within a turn of its end.
    pub entries-store_before :
        (r : Ring T) (i n e : ℕ) (v : T)
        → r.size ≡ 2 ^ k
        → 0 < e
        → e + n ≤ 2 ^ k
        → entries (store r i v) (add32 i e) n ≡ entries r (add32 i e) n
    unfolding entries
    entries-store_before r i zero e v whole pos turn = refl
    entries-store_before r i (suc n) e v whole pos turn =
        let shift : add32 i (e + 1) ≡ add32 (add32 i e) 1 = omega arith in
        let apart : add32 i e % r.size ≢ i % r.size = λ same.
          slots_differ k i e (omega arith) pos (omega arith)
            (subst (λ m. add32 i e % m ≡ i % m) whole same) in
        ap₂ (λ x xs. x ∷ xs) (index-store_ne r i (add32 i e) v apart)
          (subst (λ p. entries (store r i v) p n ≡ entries r p n) shift
            (entries-store_before r i n (e + 1) v whole (omega arith) (omega arith)))

    -- A store right after a window makes it longer by the value stored.
    pub entries-store_last :
        (r : Ring T) (i n : ℕ) (v : T)
        → r.size ≡ 2 ^ k
        → i < 2 ^ 32
        → n < 2 ^ k
        → entries (store r (add32 i n) v) i (n + 1) ≡ entries r i n ++ v ∷ []
    unfolding entries
    entries-store_last r i n v whole lt turn =
        let written = store r (add32 i n) v in
        entries-append written i n 1 lt
        ∙ ap₂ (λ xs ys. xs ++ ys) (entries-store_after r i n n v whole lt (omega arith) turn)
            (ap (λ x. x ∷ []) (index-store r (add32 i n) v))
