-- ===== src/Minecraft/Varint.antt =====
-- `write_varint` and `read_varint` are inverse.
use Prim.Native.Nat.{bit_and, bit_or}
use native.Mathlib.Nat as N
use farsight.Prelude.{
  ℕ, zero, suc, ◌+◌, ◌-◌, ◌*◌, ◌/◌, ◌%◌, ◌^◌, ◌≤◌, ◌<◌, ◌≡◌, refl, ap, subst, ◌∙◌, inl, inr, true,
  false, List, [], ◌∷◌, ◌++◌, Option, none, some, ltb, ◌==◌, if◌then◌else◌, length, length-append,
  arith, dec_lt, Bool-cases, if_elim,
}
use farsight.Words.{bit_and-pow, bit_or-add}
use farsight.Prelude.Bits.{bit_and-mask}
use farsight.Minecraft.{shift_right_7, write_loop, write_varint, read_loop, read_varint}

shifted : (v : ℕ) → v < 2 ^ 32 → bit_and (shift_right_7 v) (2 ^ 25 - 1) ≡ v / 128
shifted v h = bit_and-pow (shift_right_7 v) 25 ∙ ground arith

low_seven : (v : ℕ) → bit_and v (2 ^ 7 - 1) ≡ v % 128
low_seven v = bit_and-pow v 7

write_zero : (f : ℕ) → write_loop f 0 ≡ []
unfolding write_loop
write_zero zero = refl
write_zero (suc f) = refl

-- The bytes that the loop writes: the last, and one with more behind it.
last_byte : (f v : ℕ) → 0 < v → v < 128 → write_loop (suc f) v ≡ v ∷ []
unfolding write_loop
last_byte f v pos small =
    let none_left : v / 128 ≡ 0 = omega arith in
    rw (shifted v (omega arith), low_seven v, none_left, write_zero f) (ground arith)

more_bytes :
    (f v : ℕ)
    → 128 ≤ v
    → v < 2 ^ 32
    → write_loop (suc f) v ≡ (v % 128 + 128) ∷ write_loop f (v / 128)
unfolding write_loop
more_bytes f v big small =
    rw (shifted v small, low_seven v, bit_or-add (v % 128) 1 7 (omega arith)) (ground arith)

-- The bytes, read: what `b & 0x7f` and `b & 0x80` are of a byte that the loop wrote.
low_of_high : (r : ℕ) → r < 128 → bit_and (r + 128) (2 ^ 7 - 1) ≡ r
low_of_high r h = low_seven (r + 128) ∙ omega arith

more_flag : (b : ℕ) → b < 256 → (bit_and b (1 * 2 ^ 7) == 0) ≡ ltb b 128
more_flag b h = bit_and-mask b 7 h (omega arith) ∙ ground (arith, bit_and-pow (b / 128) 1)

-- Seven more bits, as `read_varint` takes them in at the shift `7 * i`.
taken :
    (ans r i : ℕ)
    → ans < 2 ^ (7 * i)
    → r * 2 ^ (7 * i) < 2 ^ 32
    → bit_or ans (r * 2 ^ (7 * i) % 2 ^ 32) ≡ ans + r * 2 ^ (7 * i)
taken ans r i h fits =
    let same : r * 2 ^ (7 * i) % 2 ^ 32 ≡ r * 2 ^ (7 * i) =
      N.mod-eq_of_lt {n = r * 2 ^ (7 * i)} {m = 2 ^ 32} fits in
    rw same (bit_or-add ans r (7 * i) h)

pow_seven : (m : ℕ) → 2 ^ suc (suc (suc (suc (suc (suc (suc m)))))) ≡ 2 ^ m * 128
pow_seven m = omega (
  arith,
  N.pow-suc 2 m,
  N.pow-suc 2 (suc m),
  N.pow-suc 2 (suc (suc m)),
  N.pow-suc 2 (suc (suc (suc m))),
  N.pow-suc 2 (suc (suc (suc (suc m)))),
  N.pow-suc 2 (suc (suc (suc (suc (suc m))))),
  N.pow-suc 2 (suc (suc (suc (suc (suc (suc m)))))),
)

next_power : (i : ℕ) → 2 ^ (7 * (i + 1)) ≡ 2 ^ (7 * i) * 128
next_power i =
    let shape : 7 * (i + 1) ≡ suc (suc (suc (suc (suc (suc (suc (7 * i))))))) = omega arith in
    ap (λ e. 2 ^ e) shape ∙ pow_seven (7 * i)

split_value : (v w : ℕ) → v * w ≡ v / 128 * (w * 128) + v % 128 * w
split_value v w =
    let split : v ≡ v / 128 * 128 + v % 128 = omega arith in
    ap (λ x. x * w) split
    ∙ N.add-mul (v / 128 * 128) (v % 128) w
    ∙ ap (λ x. x + v % 128 * w)
        (N.mul_assoc (v / 128) 128 w ∙ ap (λ x. v / 128 * x) (N.mul_comm 128 w))

-- Reading what the loop wrote of `v`, behind the `7 * i` bits in `ans`.
read-write_loop :
    (n i ans v f : ℕ) (rest : List ℕ)
    → 0 < v
    → v * 2 ^ (7 * i) < 2 ^ 32
    → ans < 2 ^ (7 * i)
    → i + n ≡ 5
    → n ≤ f
    → read_loop n i ans (write_loop f v ++ rest) ≡ some (ans + v * 2 ^ (7 * i), rest)
unfolding read_loop
read-write_loop zero i ans v f rest pos fits low five le =
    let last : i ≡ 5 = omega (arith, five) in
    let over : v * 2 ^ 35 < 2 ^ 32 = subst (λ j. v * 2 ^ (7 * j) < 2 ^ 32) last fits in
    absurd (omega (arith, over, pos))
read-write_loop (suc n) i ans v zero rest pos fits low five le = absurd (omega arith)
read-write_loop (suc n) i ans v (suc f) rest pos fits low five le = elim (dec_lt v 128) [
  | yes small ↦
      let all : bit_and v (2 ^ 7 - 1) ≡ v = low_seven v ∙ N.mod-eq_of_lt {n = v} {m = 128} small in
      let end : ltb v 128 ≡ true = ground arith in
      rw (last_byte f v pos small, more_flag v (omega arith), end, all, taken ans v i low fits) refl
  | no big ↦
      let w = 2 ^ (7 * i) in
      let r = v % 128 in
      let whole : v ≤ v * w = N.le-mul_of_pos_right {m = w} v (omega (arith, low)) in
      let parts = split_value v w in
      let part : r * w < 2 ^ 32 = omega (arith, parts, fits) in
      let less : r * w ≤ 127 * w = N.mul-le-mul_right w (omega arith) in
      let next = next_power i in
      let more : ltb (r + 128) 128 ≡ false = ground arith in
      let sum : ans + r * w + v / 128 * 2 ^ (7 * (i + 1)) ≡ ans + v * w =
        rw next (omega (arith, parts)) in
      rw
        (
          more_bytes f v (omega arith) (omega (arith, whole, fits)),
          more_flag (r + 128) (omega arith),
          more,
          low_of_high r (omega arith),
          taken ans r i low part,
        )
        (read-write_loop n (i + 1) (ans + r * w) (v / 128) f rest (omega arith)
            (rw next (omega (arith, parts, fits))) (rw next (omega (arith, low, less)))
            (omega (arith, five)) (omega arith)
          ∙ ap (λ x. some (x, rest)) sum)
]

zero_read : (rest : List ℕ) → read_varint (write_varint 0 ++ rest) ≡ some (0, rest)
unfolding read_varint write_varint read_loop write_loop
zero_read rest = refl

-- Every `i32`, given by its 32 bits, is read back from what `write_varint` appends for it, whatever
-- stands behind.
pub read_varint-write_varint :
    (v : ℕ) (rest : List ℕ) → v < 2 ^ 32 → read_varint (write_varint v ++ rest) ≡ some (v, rest)
unfolding read_varint write_varint
read_varint-write_varint zero rest h = zero_read rest
read_varint-write_varint (suc v) rest h =
    let nonzero : (suc v == 0) ≡ false = ground arith in
    let value : 0 + suc v * 1 ≡ suc v = omega arith in
    rw nonzero (
      read-write_loop 5 0 0 (suc v) 5 rest (omega arith) (omega arith) (omega arith) (omega arith)
        (omega arith)
      ∙ ap (λ x. some (x, rest)) value)

append_rest : List ℕ → Option (ℕ × List ℕ) → Option (ℕ × List ℕ)
append_rest q none = none
append_rest q (some (v, r)) = some (v, r ++ q)

read_loop-extends :
    (n i ans : ℕ) (p q : List ℕ) (v : ℕ) (r : List ℕ)
    → read_loop n i ans p ≡ some (v, r)
    → read_loop n i ans (p ++ q) ≡ some (v, r ++ q)
unfolding read_loop append_rest
read_loop-extends zero i ans p q v r h = ap (append_rest q) h
read_loop-extends (suc n) i ans [] q v r h = cc
read_loop-extends (suc n) i ans (b ∷ p) q v r h =
    let next = bit_or ans (bit_and b (2 ^ 7 - 1) * 2 ^ (7 * i) % 2 ^ 32) in
    elim (Bool-cases (bit_and b (1 * 2 ^ 7) == 0)) [
      | inl last ↦
          let h' = rw (last, read_loop) at h in rw (last, read_loop) (ap (append_rest q) h')
      | inr more ↦
          let h' = rw (more, read_loop) at h in
          rw (more, read_loop) (read_loop-extends n (i + 1) next p q v r h')
    ]

-- What is read of some bytes is read of more bytes.
pub read_varint-extends :
    (p q : List ℕ) (v : ℕ) (r : List ℕ)
    → read_varint p ≡ some (v, r)
    → read_varint (p ++ q) ≡ some (v, r ++ q)
unfolding read_varint
read_varint-extends p q v r h = read_loop-extends 5 0 0 p q v r h

length-write_loop : (f v : ℕ) → length (write_loop f v) ≤ f
unfolding write_loop
length-write_loop zero v = omega arith
length-write_loop (suc f) v =
    let value' = bit_and (shift_right_7 v) (2 ^ 25 - 1) in
    let byte = bit_and v (2 ^ 7 - 1) in
    let rest = length-write_loop f value' in
    let long : List ℕ =
      (if value' == 0 then byte else bit_or byte (1 * 2 ^ 7)) ∷ write_loop f value' in
    if_elim (λ (l : List ℕ). length l ≤ suc f) (v == 0) [] long (omega arith) (omega (arith, rest))

pub length-write_varint : (v : ℕ) → length (write_varint v) ≤ 6
unfolding write_varint
length-write_varint v =
    let zeros : List ℕ = 0 ∷ [] in
    let first =
      if_elim (λ (l : List ℕ). length l ≤ 1) (v == 0) zeros [] (omega arith) (omega arith) in
    omega (
      arith,
      length-append (if v == 0 then zeros else []) (write_loop 5 v),
      length-write_loop 5 v,
      first,
    )
