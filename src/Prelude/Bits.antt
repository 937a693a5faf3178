-- ===== src/Prelude/Bits.antt =====
-- Single bits of a byte. What holds of every byte is checked by evaluation.
use Prim.Native.Nat.{ℕ, zero, suc, ◌/◌, ◌^◌, ◌<◌, bit_and, bit_or}
use mathlib.Core.Path.{◌≡◌, refl}
use mathlib.Core.Bool.{Bool, true, false, not, ◌&&◌, ◌||◌}
use native.Mathlib.Omega.{arith}
use farsight.Prelude.Tests.{◌==◌, ltb}

-- `p` holds of the numbers below a bound, as a test.
every : (ℕ → Bool) → ℕ → Bool
every p zero = true
every p (suc bound) = every p bound && p bound

every-below : (p : ℕ → Bool) (bound x : ℕ) → x < bound → every p bound ≡ true → p x ≡ true
unfolding every
every-below p zero x within checked = absurd (omega arith)
every-below p (suc bound) x within checked = ground (arith, every-below p bound x)

-- `(b >> k) & 1 == 1`
abbrev pub bit : ℕ → ℕ → Bool
bit b k = bit_and (b / 2 ^ k) 1 == 1

abbrev eqb : Bool → Bool → Bool
eqb true b = b
eqb false b = not b

eqb_sound : (a b : Bool) → eqb a b ≡ true → a ≡ b
eqb_sound a b h = ground arith

-- Setting bit `k`, tested at bit `j`; the test by a mask; and the size of the result.
set_row : ℕ → ℕ → ℕ → Bool
set_row b k j = eqb (bit (bit_or b (2 ^ k)) j) (j == k || bit b j)

mask_row : ℕ → ℕ → Bool
mask_row b k = eqb (not (bit_and b (2 ^ k) == 0)) (bit b k) && ltb (bit_or b (2 ^ k)) 256

set_table : every (λ j. every (λ k. every (λ b. set_row b k j) 256) 8) 8 ≡ true
unfolding every set_row
set_table = refl

mask_table : every (λ k. every (λ b. mask_row b k) 256) 8 ≡ true
unfolding every mask_row
mask_table = refl

pub bit-bit_or :
    (b k j : ℕ) → b < 256 → k < 8 → j < 8 → bit (bit_or b (2 ^ k)) j ≡ (j == k || bit b j)
unfolding set_row
bit-bit_or b k j hb hk hj = eqb_sound _ _ (
    every-below (λ b. set_row b k j) 256 b hb
      (every-below (λ k. every (λ b. set_row b k j) 256) 8 k hk
        (every-below (λ j. every (λ k. every (λ b. set_row b k j) 256) 8) 8 j hj set_table)))

mask_at : (b k : ℕ) → b < 256 → k < 8 → mask_row b k ≡ true
mask_at b k hb hk =
    every-below (λ b. mask_row b k) 256 b hb
      (every-below (λ k. every (λ b. mask_row b k) 256) 8 k hk mask_table)

pub bit_and-mask : (b k : ℕ) → b < 256 → k < 8 → (bit_and b (2 ^ k) == 0) ≡ not (bit b k)
unfolding mask_row
bit_and-mask b k hb hk = ground (arith, mask_at b k hb hk)

pub bit_or-lt : (b k : ℕ) → b < 256 → k < 8 → bit_or b (2 ^ k) < 256
unfolding mask_row
bit_or-lt b k hb hk = ground (arith, mask_at b k hb hk)

zero_table : every (λ k. not (bit 0 k)) 8 ≡ true
unfolding every
zero_table = refl

pub bit-zero : (k : ℕ) → k < 8 → bit 0 k ≡ false
bit-zero k hk = ground (arith, every-below (λ k. not (bit 0 k)) 8 k hk zero_table)
