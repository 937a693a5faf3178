-- ===== src/PrefixState.antt =====
-- farsight/src/controller/strategy/pmap/graph/prefix.rs, `PrefixState`: which of the 256 addresses
-- of a /24 have been scanned, as a bitmap of 32 bytes with a count of the rest.
pub mod Invariant
pub mod Fetch
mod Tests
use Prim.Native.Nat.{bit_and, bit_or}
use farsight.Prelude.{
  ℕ, zero, suc, ◌+◌, ◌-◌, ◌/◌, ◌%◌, ◌^◌, Bool, true, false, not, List, [], ◌∷◌, Option, none, some,
  ◌==◌, if◌then◌else◌, get_or, set, replicate,
}
use farsight.Prelude.Bits.{bit}
use farsight.External.{Rng}

pub record PrefixState : Type 0 where
  pub bitmap : List ℕ
  pub remaining : ℕ

-- `PrefixState::new`
unfoldable pub new : PrefixState
new = record { bitmap = replicate 32 0; remaining = 256 }

-- The byte of an offset; an offset is a `u8`, so the index is in range.
abbrev pub byte_of : PrefixState → ℕ → ℕ
byte_of s offset = get_or s.bitmap (offset / 8) 0

unfoldable pub is_unscanned : PrefixState → ℕ → Bool
is_unscanned s offset = not (bit (byte_of s offset) (offset % 8))

-- The state, and whether the offset was scanned before. `remaining` is a `u16`.
unfoldable pub mark_scanned : PrefixState → ℕ → PrefixState × Bool
mark_scanned s offset =
    let mask = 2 ^ (offset % 8) in
    if not (bit_and (byte_of s offset) mask == 0) then (s, true) else (
      record {
        bitmap = set s.bitmap (offset / 8) (bit_or (byte_of s offset) mask);
        remaining = (s.remaining + 2 ^ 16 - 1) % 2 ^ 16;
      },
      false,
    )

-- `(0u8..=255u8).find(…)` from `offset` on, with `n` offsets left.
unfoldable pub find_unscanned : ℕ → PrefixState → ℕ → Option ℕ
find_unscanned zero s offset = none
find_unscanned (suc n) s offset =
    if is_unscanned s offset then some offset else find_unscanned n s (offset + 1)

module _ (rng : Rng) where
  open rng use {State, random_range}

  -- The `for` loop of `fetch_unscanned` with `n` rounds left, and the search behind it.
  unfoldable pub fetch_loop : ℕ → PrefixState → State → Option ℕ × State
  unfolding find_unscanned
  fetch_loop zero s g = (find_unscanned 256 s 0, g)
  fetch_loop (suc n) s g =
      let (candidate, g') = random_range 0 255 g in
      let rest = fetch_loop n s g' in
      if is_unscanned s candidate then (some candidate, g') else rest

  unfoldable pub fetch_unscanned : PrefixState → State → Option ℕ × State
  unfolding fetch_loop
  fetch_unscanned s g = if s.remaining == 0 then (none, g) else fetch_loop 50 s g
