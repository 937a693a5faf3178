-- ===== src/Words/Blocks.antt =====
-- The first and the last number of a block of 2 ^ k: a number with its low digits cleared, and set.
use Prim.Native.Nat.{bit_and, bit_and-bitwise, bit_or, bit_or-bitwise, digits}
use native.Mathlib.Nat as N
use farsight.Prelude.{
  ℕ, zero, suc, ◌+◌, ◌-◌, ◌*◌, ◌/◌, ◌%◌, ◌^◌, ◌≤◌, ◌<◌, ◌≡◌, refl, ap, ◌∙◌, sym, min, max, arith,
}
use farsight.Words.{pow_pos, mask_digits}

-- A multiple of the double is the double of the multiple.
twice_times : (x k : ℕ) → x * 2 ^ suc k ≡ x * 2 ^ k * 2
twice_times x k = ap (λ m. x * m) (N.pow-suc 2 k) ∙ sym (N.mul_assoc x (2 ^ k) 2)

cleared :
    (n k j a r x : ℕ)
    → a ≤ n
    → a ≡ r + x * 2 ^ k
    → r < 2 ^ k
    → x < 2 ^ j
    → digits (λ b. zero) min n a ((2 ^ j - 1) * 2 ^ k) ≡ x * 2 ^ k
cleared zero k j a r x le e lr lx = omega (arith, e)
cleared (suc n) k j zero r x le e lr lx = omega (arith, e)
cleared (suc n) zero j (suc a) r x le e lr lx =
    let whole : (2 ^ j - 1) * 2 ^ 0 ≡ 2 ^ j - 1 = omega arith in
    let same : suc a ≡ x = omega (arith, e) in
    ap (λ b. digits (λ b. zero) min (suc n) (suc a) b) whole
    ∙ mask_digits (suc n) j (suc a) le
    ∙ N.mod-eq_of_lt (omega (arith, same))
    ∙ omega (arith, same)
cleared (suc n) (suc k) j (suc a) r x le e lr lx =
    let shape = twice_times x k in
    let mask = twice_times (2 ^ j - 1) k in
    let double = N.pow-suc 2 k in
    let half : ((2 ^ j - 1) * 2 ^ suc k) / 2 ≡ (2 ^ j - 1) * 2 ^ k = omega (arith, mask) in
    let even : ((2 ^ j - 1) * 2 ^ suc k) % 2 ≡ 0 = omega (arith, mask) in
    let rest =
      cleared n k j (suc a / 2) (r / 2) x (omega arith) (omega (arith, e, shape))
        (omega (arith, double)) lx in
    rw (half, even, rest) (omega (arith, shape))

unset : (n a : ℕ) → a ≤ n → digits (λ b. b) max n a 0 ≡ a
unset zero a le = omega arith
unset (suc n) zero le = refl
unset (suc n) (suc a) le = let rest = unset n (suc a / 2) (omega arith) in rw rest (omega arith)

filled :
    (n k a r x : ℕ)
    → a ≤ n
    → a ≡ r + x * 2 ^ k
    → r < 2 ^ k
    → digits (λ b. b) max n a (2 ^ k - 1) ≡ x * 2 ^ k + (2 ^ k - 1)
filled zero k a r x le e lr = omega (arith, e)
filled (suc n) k zero r x le e lr = omega (arith, e)
filled (suc n) zero (suc a) r x le e lr = unset (suc n) (suc a) le ∙ omega (arith, e)
filled (suc n) (suc k) (suc a) r x le e lr =
    let shape = twice_times x k in
    let double = N.pow-suc 2 k in
    let pos = pow_pos k in
    let half : (2 ^ suc k - 1) / 2 ≡ 2 ^ k - 1 = omega (arith, double, pos) in
    let odd : (2 ^ suc k - 1) % 2 ≡ 1 = omega (arith, double, pos) in
    let rest =
      filled n k (suc a / 2) (r / 2) x (omega arith) (omega (arith, e, shape))
        (omega (arith, double)) in
    rw (half, odd, rest) (omega (arith, shape, double, pos))

-- The block of `a` among those of 2 ^ k numbers.
abbrev pub block : ℕ → ℕ → ℕ
block a k = a / 2 ^ k * 2 ^ k

split : (a k : ℕ) → a ≡ a % 2 ^ k + a / 2 ^ k * 2 ^ k
split a k = omega (arith, N.div-add-mod a (2 ^ k), N.mul_comm (2 ^ k) (a / 2 ^ k))

-- `a | (2 ^ k - 1)`
pub bit_or-block : (a k : ℕ) → bit_or a (2 ^ k - 1) ≡ block a k + (2 ^ k - 1)
bit_or-block a k =
    bit_or-bitwise a (2 ^ k - 1)
    ∙ filled a k a (a % 2 ^ k) (a / 2 ^ k) (omega arith) (split a k) (N.mod-lt a (pow_pos k))

-- `a & !(2 ^ k - 1)` for an `a` of `k + j` bits.
pub bit_and-block : (a k j : ℕ) → a / 2 ^ k < 2 ^ j → bit_and a ((2 ^ j - 1) * 2 ^ k) ≡ block a k
bit_and-block a k j lt =
    bit_and-bitwise a ((2 ^ j - 1) * 2 ^ k)
    ∙ cleared a k j a (a % 2 ^ k) (a / 2 ^ k) (omega arith) (split a k) (N.mod-lt a (pow_pos k)) lt
