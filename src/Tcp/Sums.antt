-- ===== src/Tcp/Sums.antt =====
-- The checksum of the internet protocols (RFC 1071), and that `fold` and `sum_body` compute it.
use farsight.Prelude.{
  ℕ, zero, suc, ◌+◌, ◌-◌, ◌*◌, ◌%◌, ◌^◌, ◌≤◌, ◌<◌, ◌≡◌, refl, ap, ap₂, ◌∙◌, List, [], ◌∷◌, ◌++◌,
  length, if◌then◌else◌, arith, ltb, ◌==◌, false,
}
use farsight.Tcp.{fold, sum_loop, sum_body, Frame, copy}

-- The sum of the words of 16 bits, the last one padded with zero.
unfoldable pub internet_sum : List ℕ → ℕ
internet_sum [] = 0
internet_sum (last ∷ []) = last * 256
internet_sum (a ∷ b ∷ rest) = a * 256 + b + internet_sum rest

-- The one's complement sum: every carry out of 16 bits is added at the other end.
abbrev pub ones_complement : ℕ → ℕ
ones_complement s = if s == 0 then 0 else 1 + (s - 1) % 65535

-- For every sum of 32 bits, `fold` is the one's complement sum: two rounds of carries are enough.
pub fold-ones_complement : (s : ℕ) → s < 2 ^ 32 → fold s ≡ ones_complement s
unfolding fold
fold-ones_complement s lt = ground arith

pub fold-bound : (s : ℕ) → fold s < 2 ^ 16
unfolding fold
fold-bound s = omega arith

-- The checksum makes the whole add up to all ones.
pub ones_complement-fold : (a : ℕ) → a < 2 ^ 32 → ones_complement (a + (65535 - fold a)) ≡ 65535
unfolding fold
ones_complement-fold a lt = ground arith

abbrev pub AreBytes : List ℕ → Type 0
AreBytes [] = 0 ≤ 0
AreBytes (b ∷ rest) = (b < 256) × AreBytes rest

pub internet_sum-bound :
    (bytes : List ℕ) → AreBytes bytes → internet_sum bytes ≤ 65535 * length bytes
unfolding internet_sum
internet_sum-bound [] all = omega arith
internet_sum-bound (last ∷ []) (b, all) = omega arith
internet_sum-bound (a ∷ b ∷ rest) (la, (lb, all)) = omega (arith, internet_sum-bound rest all)

sum_loop-internet_sum :
    (s : ℕ) (bytes : List ℕ)
    → s + internet_sum bytes < 2 ^ 32
    → sum_loop s bytes ≡ s + internet_sum bytes
unfolding sum_loop internet_sum
sum_loop-internet_sum s [] small = omega arith
sum_loop-internet_sum s (last ∷ []) small = omega arith
sum_loop-internet_sum s (a ∷ b ∷ rest) small =
    let kept : (s + (a * 256 + b)) % 2 ^ 32 ≡ s + (a * 256 + b) = omega arith in
    ap (λ t. sum_loop t rest) kept
    ∙ sum_loop-internet_sum (s + (a * 256 + b)) rest (omega arith)
    ∙ omega arith

-- `sum_body` does not overflow on at most 2^16 bytes.
pub sum_body-internet_sum :
    (bytes : List ℕ) → AreBytes bytes → length bytes ≤ 2 ^ 16 → sum_body bytes ≡ internet_sum bytes
unfolding sum_body
sum_body-internet_sum bytes all short =
    sum_loop-internet_sum 0 bytes (omega (arith, internet_sum-bound bytes all)) ∙ omega arith

-- On at most 2^16 bytes, odd in number or even, `fold` of `sum_body` is the one's complement sum of their words
-- of 16 bits: the 32 bits of the sum do not overflow, and two rounds of carries are enough.
pub fold-sum_body :
    (bytes : List ℕ)
    → AreBytes bytes
    → length bytes ≤ 2 ^ 16
    → fold (sum_body bytes) ≡ ones_complement (internet_sum bytes)
fold-sum_body bytes all short =
    ap fold (sum_body-internet_sum bytes all short)
    ∙ fold-ones_complement (internet_sum bytes) (omega (arith, internet_sum-bound bytes all))

-- The bytes of a frame from an offset on.
unfoldable pub slice : Frame → ℕ → ℕ → List ℕ
slice f i zero = []
slice f i (suc n) = f i ∷ slice f (i + 1) n

pub slice-append : (f : Frame) (i m n : ℕ) → slice f i (m + n) ≡ slice f i m ++ slice f (i + m) n
unfolding slice
slice-append f i zero n = ap₂ (slice f) here none_added
  where
    here : i ≡ i + 0
    here = omega arith

    none_added : 0 + n ≡ n
    none_added = omega arith
slice-append f i (suc m) n =
    let shape : suc m + n ≡ suc (m + n) = omega arith in
    let moved : i + 1 + m ≡ i + suc m = omega arith in
    ap (slice f i) shape
    ∙ ap (λ xs. f i ∷ xs)
        (slice-append f (i + 1) m n ∙ ap (λ j. slice f (i + 1) m ++ slice f j n) moved)

pub slice_same : (f g : Frame) (i n : ℕ) → ((j : ℕ) → i ≤ j → f j ≡ g j) → slice f i n ≡ slice g i n
unfolding slice
slice_same f g i zero same = refl
slice_same f g i (suc n) same =
    ap₂ (λ x xs. x ∷ xs) (same i (omega arith))
      (slice_same f g (i + 1) n (λ j le. same j (omega arith)))

copy-first : (f : Frame) (i b : ℕ) (bytes : List ℕ) → copy f i (b ∷ bytes) i ≡ b
copy-first f i b bytes =
    let first : i - i ≡ 0 = omega arith in
    let inside : ltb i i ≡ false = ground arith in rw (inside, first) refl

copy-rest :
    (f : Frame) (i b : ℕ) (bytes : List ℕ) (j : ℕ)
    → i + 1 ≤ j
    → copy f i (b ∷ bytes) j ≡ copy f (i + 1) bytes j
copy-rest f i b bytes j le =
    let after : j - i ≡ suc (j - (i + 1)) = omega arith in
    let one : ltb j i ≡ false = ground arith in
    let two : ltb j (i + 1) ≡ false = ground arith in rw (one, two, after) refl

pub slice-copy :
    (f : Frame) (i : ℕ) (bytes : List ℕ) → slice (copy f i bytes) i (length bytes) ≡ bytes
unfolding slice
slice-copy f i [] = refl
slice-copy f i (b ∷ bytes) =
    ap₂ (λ x xs. x ∷ xs) (copy-first f i b bytes)
      (slice_same (copy f i (b ∷ bytes)) (copy f (i + 1) bytes) (i + 1) (length bytes)
          (copy-rest f i b bytes)
        ∙ slice-copy f (i + 1) bytes)
