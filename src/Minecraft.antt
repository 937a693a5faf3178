-- ===== src/Minecraft.antt =====
-- farsight/src/controller/protocol/minecraft.rs: the numbers of the protocol, the request that is
-- sent, and the parser of the response.
pub mod Varint
pub mod Framing
mod Tests
use Prim.Native.Nat.{bit_and, bit_or}
use farsight.Prelude.{
  ℕ, zero, suc, ◌+◌, ◌-◌, ◌*◌, ◌/◌, ◌%◌, ◌^◌, Bool, true, false, not, ◌&&◌, ◌||◌, List, [], ◌∷◌,
  ◌++◌, Option, none, some, ltb, leb, ◌==◌, if◌then◌else◌, length, take, drop,
}
use farsight.Responder.Types.{ParseResult, banner, invalid, incomplete}

-- An `i32` is its 32 bits as a number: `value >> 7` copies the top bit.
abbrev pub shift_right_7 : ℕ → ℕ
shift_right_7 value = value / 128 + (if leb (2 ^ 31) value then 2 ^ 32 - 2 ^ 25 else 0)

-- The `while` loop of `write_varint`. Each round takes seven of the 32 bits.
unfoldable pub write_loop : ℕ → ℕ → List ℕ
write_loop zero value = []
write_loop (suc f) value =
    let value' = bit_and (shift_right_7 value) (2 ^ 25 - 1) in
    let byte = bit_and value (2 ^ 7 - 1) in
    let rest = write_loop f value' in
    if value == 0 then [] else (if value' == 0 then byte else bit_or byte (1 * 2 ^ 7)) ∷ rest

-- What `write_varint` appends.
unfoldable pub write_varint : ℕ → List ℕ
write_varint value = (if value == 0 then 0 ∷ [] else []) ++ write_loop 5 value

-- The `for` loop of `read_varint` with `n` rounds left, at the index `i`: the number and what is
-- left to read; `none` is `Incomplete`. `ans` keeps the low 32 bits of what is shifted in.
unfoldable pub read_loop : ℕ → ℕ → ℕ → List ℕ → Option (ℕ × List ℕ)
read_loop zero i ans stream = some (ans, stream)
read_loop (suc n) i ans [] = none
read_loop (suc n) i ans (b ∷ stream) =
    let ans' = bit_or ans (bit_and b (2 ^ 7 - 1) * 2 ^ (7 * i) % 2 ^ 32) in
    let rest = read_loop n (i + 1) ans' stream in
    if bit_and b (1 * 2 ^ 7) == 0 then some (ans', stream) else rest

unfoldable pub read_varint : List ℕ → Option (ℕ × List ℕ)
read_varint stream = read_loop 5 0 0 stream

-- `build_latest_request` without its two packet lengths: the handshake. The length of the hostname
-- is cast to an `i32`.
unfoldable pub handshake : List ℕ → ℕ → ℕ → List ℕ
handshake hostname port protocol_version =
    0
    ∷ (write_varint protocol_version
        ++ (write_varint (length hostname % 2 ^ 32)
            ++ (hostname ++ port / 256 % 256 ∷ bit_and port (2 ^ 8 - 1) ∷ 1 ∷ [])))

unfoldable pub build_latest_request : List ℕ → ℕ → ℕ → List ℕ
build_latest_request hostname port protocol_version =
    let buffer = handshake hostname port protocol_version in
    write_varint (length buffer % 2 ^ 32) ++ (buffer ++ 1 ∷ 0 ∷ [])

-- The part of `SLPParser::parse` behind the numbers. `serde_json` accepts a text or not, and
-- `from_utf8_lossy` makes the banner of it.
module _ {B : Type 0} (is_json : List ℕ → Bool) (from_utf8_lossy : List ℕ → B) where
  unfoldable pub parse_status : ℕ → ℕ → List ℕ → ParseResult B
  parse_status packet_id response_length status_buffer =
      let status = take response_length status_buffer in
      if not (packet_id == 0) || (response_length == 0 || leb (2 ^ 31) response_length)
      then invalid
      else if ltb (length status_buffer) response_length
      then incomplete
      else if is_json status
      then banner (from_utf8_lossy status)
      else invalid

  -- `f(read_varint(&mut stream)?)`
  unfoldable pub with_varint : List ℕ → (ℕ → List ℕ → ParseResult B) → ParseResult B
  with_varint stream next = elim (read_varint stream) [ none ↦ incomplete | some r ↦ next r.0 r.1 ]

  unfoldable pub parse : List ℕ → ParseResult B
  parse stream = with_varint stream (λ packet_length s1. with_varint s1 (λ packet_id s2.
      with_varint s2 (λ response_length s3. parse_status packet_id response_length s3)))
