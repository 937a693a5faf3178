-- ===== src/ExcludeFile/Line.antt =====
-- The range of an address and the length of its prefix.
use native.Mathlib.Nat as N
use farsight.Prelude.{
  ℕ, zero, suc, ◌+◌, ◌-◌, ◌*◌, ◌/◌, ◌%◌, ◌^◌, ◌≤◌, ◌<◌, ◌≡◌, refl, ap, ◌∙◌, sym, min, true, ◌&&◌,
  leb, ◌==◌, arith, dec_lt,
}
use farsight.Words.{pow_pos, pow_below}
use farsight.Words.Blocks.{block, bit_or-block, bit_and-block}
use farsight.Range.Spec.{in_range}
use farsight.ExcludeFile.{slash_range}

pow_split : (j k : ℕ) → 2 ^ (j + k) ≡ 2 ^ j * 2 ^ k
pow_split j zero = let none_more : j + 0 ≡ j = omega arith in rw none_more (omega arith)
pow_split j (suc k) =
    let shape : j + suc k ≡ suc (j + k) = omega arith in
    ap (λ m. 2 ^ m) shape
    ∙ N.pow-suc 2 (j + k)
    ∙ ap (λ m. m * 2) (pow_split j k)
    ∙ N.mul_assoc (2 ^ j) (2 ^ k) 2
    ∙ ap (λ m. 2 ^ j * m) (sym (N.pow-suc 2 k))

-- The bits that are free, at most 32.
abbrev pub free_bits : ℕ → ℕ
free_bits length_of_prefix = min ((32 + 2 ^ 8 - length_of_prefix) % 2 ^ 8) 32

mask_bits_lem : (m : ℕ) → (2 ^ m % 2 ^ 32 + 2 ^ 32 - 1) % 2 ^ 32 ≡ 2 ^ min m 32 - 1
mask_bits_lem m = elim (dec_lt m 32) [
  | yes lt ↦
      let same : min m 32 ≡ m = omega arith in rw same (omega (arith, pow_below lt, pow_pos m))
  | no ge ↦
      let parts : m ≡ m - 32 + 32 = omega arith in
      let none_left : 2 ^ m % 2 ^ 32 ≡ 0 =
        ap (λ e. 2 ^ e % 2 ^ 32) parts
        ∙ ap (λ p. p % 2 ^ 32) (pow_split (m - 32) 32)
        ∙ N.mul-mod_left (2 ^ (m - 32)) (2 ^ 32) in
      let same : min m 32 ≡ 32 = omega arith in rw (none_left, same) refl
]

pub slash_range-block :
    (ip p : ℕ)
    → ip < 2 ^ 32
    → let k = free_bits p in
      slash_range ip p ≡ record { start = block ip k; last = block ip k + (2 ^ k - 1) }
unfolding slash_range
slash_range-block ip p low =
    let m = (32 + 2 ^ 8 - p) % 2 ^ 8 in
    let k = free_bits p in
    let j = 32 - k in
    let parts : 32 ≡ j + k = omega arith in
    let whole : 2 ^ 32 ≡ 2 ^ j * 2 ^ k = ap (λ e. 2 ^ e) parts ∙ pow_split j k in
    let times : (2 ^ j - 1) * 2 ^ k ≡ 2 ^ j * 2 ^ k - 2 ^ k =
      N.mul_comm (2 ^ j - 1) (2 ^ k)
      ∙ N.mul-sub (2 ^ k) (2 ^ j) 1
      ∙ omega (arith, N.mul_comm (2 ^ k) (2 ^ j)) in
    let mask : 2 ^ 32 - 1 - (2 ^ k - 1) ≡ (2 ^ j - 1) * 2 ^ k =
      omega (arith, times, whole, pow_pos k) in
    let few : ip / 2 ^ k < 2 ^ j =
      (N.div-lt_iff_lt-mul {x = ip} {y = 2 ^ j} (pow_pos k)).1 (omega (arith, whole)) in
    rw (mask_bits_lem m, mask, bit_and-block ip k j few, bit_or-block ip k) refl

-- Two numbers are in a block together when they have the same quotient.
same_block :
    (x ip k : ℕ)
    → (leb (block ip k) x && leb x (block ip k + (2 ^ k - 1))) ≡ (x / 2 ^ k == ip / 2 ^ k)
same_block x ip k =
    let p = 2 ^ k in
    let pos = pow_pos k in
    let r = N.mod-lt x pos in
    let there : x ≡ x % p + x / p * p = omega (arith, N.div-add-mod x p, N.mul_comm p (x / p)) in
    elim (dec_lt (x / p) (ip / p)) [
      | yes less ↦
          let next : x / p + 1 ≤ ip / p = omega arith in
          let below : (x / p + 1) * p ≤ ip / p * p = N.mul-le-mul_right p next in
          let one : (x / p + 1) * p ≡ x / p * p + p = N.add-mul (x / p) 1 p ∙ omega arith in
          ground (arith, below, one, there, r, less)
      | no more ↦ elim (dec_lt (ip / p) (x / p)) [
        | yes greater ↦
            let next : ip / p + 1 ≤ x / p = omega arith in
            let above : (ip / p + 1) * p ≤ x / p * p = N.mul-le-mul_right p next in
            let one : (ip / p + 1) * p ≡ ip / p * p + p = N.add-mul (ip / p) 1 p ∙ omega arith in
            ground (arith, above, one, there, r, greater)
        | no equal ↦
            let same : x / p ≡ ip / p = omega arith in
            let times : x / p * p ≡ ip / p * p = ap (λ q. q * p) same in
            ground (arith, times, there, r, same)
      ]
    ]

-- For an address and a prefix of at most 32 bits, the range of a line `address/prefix` holds exactly the
-- addresses with the same first bits, /0 and /32 included.
pub slash_range-in_range :
    (ip p x : ℕ)
    → ip < 2 ^ 32
    → p ≤ 32
    → in_range x (slash_range ip p) ≡ (x / 2 ^ (32 - p) == ip / 2 ^ (32 - p))
slash_range-in_range ip p x low le =
    let free : free_bits p ≡ 32 - p = omega arith in
    ap (in_range x) (slash_range-block ip p low)
    ∙ same_block x ip (free_bits p)
    ∙ ap (λ k. x / 2 ^ k == ip / 2 ^ k) free

-- A prefix of more than 32 bits, which `parse::<u8>` lets through, wraps round in a release build:
-- whatever the address is, the line excludes every address.
pub slash_range-excludes_all :
    (ip p x : ℕ)
    → ip < 2 ^ 32
    → 32 < p
    → p < 256
    → x < 2 ^ 32
    → in_range x (slash_range ip p) ≡ true
slash_range-excludes_all ip p x low more byte lx =
    let free : free_bits p ≡ 32 = omega arith in
    let mine : ip / 2 ^ 32 ≡ 0 = omega arith in
    let its : x / 2 ^ 32 ≡ 0 = omega arith in
    ap (in_range x) (slash_range-block ip p low)
    ∙ same_block x ip (free_bits p)
    ∙ ap (λ k. x / 2 ^ k == ip / 2 ^ k) free
    ∙ ground (arith, mine, its)
