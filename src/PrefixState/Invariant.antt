-- ===== src/PrefixState/Invariant.antt =====
-- The bitmap as a set of offsets, and the count that goes with it.
use Prim.Native.Nat.{bit_or}
use farsight.Prelude.{
  ℕ, zero, suc, ◌+◌, ◌-◌, ◌/◌, ◌%◌, ◌^◌, ◌≤◌, ◌<◌, ◌≡◌, refl, inl, inr, Bool, true, false, not, ap,
  ◌∙◌, ltb, ◌&&◌, List, [], ◌∷◌, ◌==◌, if◌then◌else◌, get_or, replicate, set, length, length-set,
  arith, ℕ_discrete, Bool-cases, get_or-set_self, get_or-set_ne,
}
use farsight.Prelude.Bits.{bit-zero, bit-bit_or, bit_and-mask, bit_or-lt}
use farsight.PrefixState.{PrefixState, new, byte_of, is_unscanned, mark_scanned}

abbrev pub Bytes : List ℕ → Type 0
Bytes [] = Unit {0}
Bytes (b ∷ bs) = (b < 256) × Bytes bs

-- How many of the first `n` numbers pass a test.
pub count_below : ℕ → (ℕ → Bool) → ℕ
count_below zero p = 0
count_below (suc n) p = (if p n then 1 else 0) + count_below n p

pub record IsValid (s : PrefixState) : Type 0 where
  pub size : length s.bitmap ≡ 32
  pub bytes : Bytes s.bitmap
  pub counted : s.remaining ≡ count_below 256 (is_unscanned s)

pub new-IsValid : IsValid new
unfolding new count_below is_unscanned
new-IsValid = record { size = refl; bytes = omega arith; counted = refl }

get_or-replicate : (n i : ℕ) → get_or (replicate n zero) i 0 ≡ 0
get_or-replicate zero i = refl
get_or-replicate (suc n) zero = refl
get_or-replicate (suc n) (suc i) = get_or-replicate n i

pub new-is_unscanned : (j : ℕ) → j < 256 → is_unscanned new j ≡ true
unfolding is_unscanned new
new-is_unscanned j h =
    rw (get_or-replicate 32 (j / 8)) (ground (arith, bit-zero (j % 8) (omega arith)))

Bytes-get_or : (bs : List ℕ) (i : ℕ) → Bytes bs → get_or bs i 0 < 256
Bytes-get_or [] i h = omega arith
Bytes-get_or (b ∷ bs) zero h = h.0
Bytes-get_or (b ∷ bs) (suc i) h = Bytes-get_or bs i h.1

Bytes-set : (bs : List ℕ) (i v : ℕ) → v < 256 → Bytes bs → Bytes (set bs i v)
Bytes-set [] i v hv h = tt
Bytes-set (b ∷ bs) zero v hv h = (hv, h.1)
Bytes-set (b ∷ bs) (suc i) v hv h = (h.0, Bytes-set bs i v hv h.1)

-- `mark_scanned` says whether the offset was scanned, and scans it and no other.
pub mark_scanned-result :
    (s : PrefixState) (offset : ℕ)
    → IsValid s
    → (mark_scanned s offset).1 ≡ not (is_unscanned s offset)
unfolding mark_scanned is_unscanned
mark_scanned-result s offset v = ground (
  arith,
  bit_and-mask (byte_of s offset) (offset % 8) (Bytes-get_or s.bitmap (offset / 8) v.bytes)
      (omega arith),
)

pub mark_scanned-is_unscanned :
    (s : PrefixState) (offset j : ℕ)
    → IsValid s
    → offset < 256
    → j < 256
    → is_unscanned (mark_scanned s offset).0 j ≡ (is_unscanned s j && not (j == offset))
unfolding mark_scanned is_unscanned
mark_scanned-is_unscanned s offset j v ho hj = elim (ℕ_discrete (offset / 8) (j / 8)) [
  | yes same_byte ↦ ground (
    arith,
    bit_and-mask b k hb (omega arith),
    bit-bit_or b k (j % 8) hb (omega arith) (omega arith),
    get_or-set_self s.bitmap (offset / 8) (bit_or b (2 ^ k)) 0 (omega arith),
    ap (λ i. get_or (set s.bitmap (offset / 8) (bit_or b (2 ^ k))) i 0) same_byte,
    ap (λ i. get_or s.bitmap i 0) same_byte,
  )
  | no other_byte ↦ ground (
    arith,
    bit_and-mask b k hb (omega arith),
    get_or-set_ne s.bitmap (offset / 8) (j / 8) (bit_or b (2 ^ k)) 0 other_byte,
  )
]
  where
    b : ℕ
    b = byte_of s offset

    k : ℕ
    k = offset % 8

    hb : b < 256
    hb = Bytes-get_or s.bitmap (offset / 8) v.bytes

count_below-drop :
    (n : ℕ) (p q : ℕ → Bool) (x : ℕ)
    → p x ≡ true
    → ((j : ℕ) → j < n → q j ≡ (p j && not (j == x)))
    → count_below n q + (if ltb x n then 1 else 0) ≡ count_below n p
unfolding count_below
count_below-drop zero p q x px h = ground arith
count_below-drop (suc n) p q x px h =
    let ih = count_below-drop n p q x px (λ j lt. h j (omega arith)) in
    elim (ℕ_discrete x n) [
      | yes at ↦ ground (arith, ih, h n, ap p at)
      | no off ↦ ground (arith, ih, h n)
    ]

pub count_below-none :
    (n : ℕ) (p : ℕ → Bool) → ((j : ℕ) → j < n → p j ≡ false) → count_below n p ≡ 0
unfolding count_below
count_below-none zero p h = refl
count_below-none (suc n) p h =
    let ih = count_below-none n p (λ j lt. h j (omega arith)) in ground (arith, ih, h n)

pub count_below-some : (n : ℕ) (p : ℕ → Bool) (x : ℕ) → x < n → p x ≡ true → 0 < count_below n p
unfolding count_below
count_below-some zero p x lt px = absurd (omega arith)
count_below-some (suc n) p x lt px = elim (ℕ_discrete x n) [
  | yes at ↦ ground (arith, ap p at)
  | no off ↦ ground (arith, count_below-some n p x (omega arith) px)
]

pub count_below-le : (n : ℕ) (p : ℕ → Bool) → count_below n p ≤ n
unfolding count_below
count_below-le zero p = omega arith
count_below-le (suc n) p = ground (arith, count_below-le n p)

-- A scanned offset is marked again to no effect.
mark_scanned_again :
    (s : PrefixState) (offset : ℕ)
    → IsValid s
    → is_unscanned s offset ≡ false
    → (mark_scanned s offset).0 ≡ s
unfolding mark_scanned is_unscanned
mark_scanned_again s offset v old = ground (
  arith,
  bit_and-mask (byte_of s offset) (offset % 8) (Bytes-get_or s.bitmap (offset / 8) v.bytes)
      (omega arith),
)

mark_scanned_fresh :
    (s : PrefixState) (offset : ℕ)
    → IsValid s
    → offset < 256
    → is_unscanned s offset ≡ true
    → (mark_scanned s offset).0 ≡ record {
      bitmap = set s.bitmap (offset / 8) (bit_or (byte_of s offset) (2 ^ (offset % 8)));
      remaining = (s.remaining + 2 ^ 16 - 1) % 2 ^ 16;
    }
unfolding mark_scanned is_unscanned
mark_scanned_fresh s offset v ho fresh = ground (
  arith,
  bit_and-mask (byte_of s offset) (offset % 8) (Bytes-get_or s.bitmap (offset / 8) v.bytes)
      (omega arith),
)

-- Marking keeps the invariant: `remaining` falls exactly when a new offset is scanned, and it does
-- not wrap.
pub mark_scanned-IsValid :
    (s : PrefixState) (offset : ℕ) → IsValid s → offset < 256 → IsValid (mark_scanned s offset).0
mark_scanned-IsValid s offset v ho = elim (Bool-cases (is_unscanned s offset)) [
  | inr old ↦ rw (mark_scanned_again s offset v old) v
  | inl fresh ↦
      let dropped =
        count_below-drop 256 (is_unscanned s) (is_unscanned (mark_scanned s offset).0) offset fresh
          (λ j lt. mark_scanned-is_unscanned s offset j v ho lt) in
      let shape = mark_scanned_fresh s offset v ho fresh in
      record {
        size =
            ap (λ (t : PrefixState). length t.bitmap) shape
            ∙ length-set s.bitmap (offset / 8) (bit_or (byte_of s offset) (2 ^ (offset % 8)))
            ∙ v.size;
        bytes = rw shape (
            Bytes-set s.bitmap (offset / 8) _
              (bit_or-lt (byte_of s offset) (offset % 8)
                (Bytes-get_or s.bitmap (offset / 8) v.bytes) (omega arith))
              v.bytes);
        counted = ground (
          arith,
          dropped,
          ap (λ (t : PrefixState). t.remaining) shape,
          v.counted,
          count_below-le 256 (is_unscanned s),
        );
      }
]

-- One call of `mark_scanned` on a valid state: it returns whether the offset had been scanned; the
-- offset is then scanned and no other changes; `remaining` is again the number of unscanned offsets.
pub mark_scanned_lem :
    (s : PrefixState) (offset : ℕ)
    → IsValid s
    → offset < 256
    → ((mark_scanned s offset).1 ≡ not (is_unscanned s offset))
      × ((j : ℕ)
          → j < 256
          → is_unscanned (mark_scanned s offset).0 j ≡ (is_unscanned s j && not (j == offset)))
      × ((mark_scanned s offset).0.remaining
          ≡ count_below 256 (is_unscanned (mark_scanned s offset).0))
      × IsValid (mark_scanned s offset).0
mark_scanned_lem s offset v ho =
    let w = mark_scanned-IsValid s offset v ho in
    (
      mark_scanned-result s offset v,
      λ j lt. mark_scanned-is_unscanned s offset j v ho lt,
      w.counted,
      w,
    )
