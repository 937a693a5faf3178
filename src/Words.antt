-- ===== src/Words.antt =====
-- Masks and ring positions on natural numbers.
pub mod Blocks
use Prim.Native.Nat.{bit_and, bit_and-bitwise, bit_or, bit_or-bitwise, digits}
use native.Mathlib.Nat as N
use farsight.Prelude.{
  ℕ, zero, suc, ◌+◌, ◌-◌, ◌*◌, ◌/◌, ◌%◌, ◌^◌, ◌≤◌, ◌<◌, ◌≡◌, ap, ◌∙◌, sym, min, max, arith, ltb,
  if◌then◌else◌, dec_lt,
}

pub pow_pos : (k : ℕ) → 0 < 2 ^ k
pow_pos zero = omega arith
pow_pos (suc k) = omega (arith, pow_pos k)

pub pow_below : {k n : ℕ} → k < n → 2 ^ k < 2 ^ n
pow_below {k} {n} lt =
    let step : 2 ^ suc k ≤ 2 ^ n = N.pow-le-pow_right {n = 2} (omega arith) lt in
    omega (arith, step, N.pow-suc 2 k, pow_pos k)

mod_double : (a m : ℕ) → 0 < m → a % (m * 2) ≡ (a / 2) % m * 2 + a % 2
mod_double a m pos =
    let q = a / 2 in
    let r = q % m * 2 + a % 2 in
    let split : a ≡ r + m * 2 * (q / m) = grind (arith, N.div-add-mod q m) in
    let small : r < m * 2 = omega (arith, N.mod-lt q pos) in
    ap (λ x. x % (m * 2)) split ∙ N.add-mul-mod_self_left r (m * 2) (q / m) ∙ N.mod-eq_of_lt small

pub mask_digits : (n k a : ℕ) → a ≤ n → digits (λ b. zero) min n a (2 ^ k - 1) ≡ a % 2 ^ k
mask_digits zero k zero h = sym (N.zero-mod (2 ^ k))
mask_digits zero k (suc a) h = absurd (omega arith)
mask_digits (suc n) k zero h = sym (N.zero-mod (2 ^ k))
mask_digits (suc n) zero (suc a) h =
    omega (
      arith,
      mask_digits n zero (suc a / 2) (omega arith),
      N.mod-one (suc a),
      N.mod-one (suc a / 2),
    )
mask_digits (suc n) (suc k) (suc a) h =
    let twice : 2 ^ suc k ≡ 2 ^ k * 2 = N.pow-suc 2 k in
    let half : (2 ^ suc k - 1) / 2 ≡ 2 ^ k - 1 = omega (arith, twice, pow_pos k) in
    let odd : (2 ^ suc k - 1) % 2 ≡ 1 = omega (arith, twice, pow_pos k) in
    let low = mod_double (suc a) (2 ^ k) (pow_pos k) in
    let high = mask_digits n k (suc a / 2) (omega arith) in
    rw (half, high) (omega (arith, low, odd, ap (λ m. suc a % m) twice))

-- `a & (cap - 1)` for a `cap` that is a power of two.
pub bit_and-pow : (a k : ℕ) → bit_and a (2 ^ k - 1) ≡ a % 2 ^ k
bit_and-pow a k = bit_and-bitwise a (2 ^ k - 1) ∙ mask_digits a k a (omega arith)

or_digits : (n k a x : ℕ) → a ≤ n → a < 2 ^ k → digits (λ b. b) max n a (x * 2 ^ k) ≡ a + x * 2 ^ k
or_digits zero k zero x h lt = omega arith
or_digits zero k (suc a) x h lt = absurd (omega arith)
or_digits (suc n) k zero x h lt = omega arith
or_digits (suc n) zero (suc a) x h lt = absurd (omega (arith, N.pow-zero 2))
or_digits (suc n) (suc k) (suc a) x h lt =
    let twice : 2 ^ suc k ≡ 2 ^ k * 2 = N.pow-suc 2 k in
    let shape : x * 2 ^ suc k ≡ x * 2 ^ k * 2 =
      ap (λ m. x * m) twice ∙ sym (N.mul_assoc x (2 ^ k) 2) in
    let half : (x * 2 ^ suc k) / 2 ≡ x * 2 ^ k = omega (arith, shape) in
    let even : (x * 2 ^ suc k) % 2 ≡ 0 = omega (arith, shape) in
    let rest = or_digits n k (suc a / 2) x (omega arith) (omega (arith, twice)) in
    rw (half, even, rest) (omega (arith, shape))

-- `a | (x << k)` for an `a` of at most `k` bits.
pub bit_or-add : (a x k : ℕ) → a < 2 ^ k → bit_or a (x * 2 ^ k) ≡ a + x * 2 ^ k
bit_or-add a x k lt = bit_or-bitwise a (x * 2 ^ k) ∙ or_digits a k a x (omega arith) lt

-- The place of the position `base + e` in a ring of `cap` cells, by the place `r` of `base`.
abbrev pub wrap : ℕ → ℕ → ℕ → ℕ
wrap r cap e = if ltb (r + e) cap then r + e else r + e - cap

pub mod_wrap : (base cap e : ℕ) → e ≤ cap → 0 < cap → (base + e) % cap ≡ wrap (base % cap) cap e
mod_wrap base cap e le pos =
    let split : base + e ≡ base % cap + e + cap * (base / cap) =
      omega (arith, N.div-add-mod base cap) in
    let small = N.mod-lt base pos in
    let reduced : (base + e) % cap ≡ (base % cap + e) % cap =
      ap (λ x. x % cap) split ∙ N.add-mul-mod_self_left (base % cap + e) cap (base / cap) in
    elim (dec_lt (base % cap + e) cap) [
      | yes lt ↦ ground (arith, reduced, N.mod-eq_of_lt lt)
      | no ge ↦ ground (
        arith,
        reduced,
        N.mod-eq-sub-mod {n = base % cap + e} {m = cap} (omega arith),
        N.mod-eq_of_lt {n = base % cap + e - cap} {m = cap} (omega arith),
      )
    ]

-- `wrapping_add` and `wrapping_sub` of `u32`.
abbrev pub add32 : ℕ → ℕ → ℕ
add32 a b = (a + b) % 2 ^ 32

abbrev pub sub32 : ℕ → ℕ → ℕ
sub32 a b = (a + 2 ^ 32 - b) % 2 ^ 32
