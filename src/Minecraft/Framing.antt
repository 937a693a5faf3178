-- ===== src/Minecraft/Framing.antt =====
-- The request that is sent can be taken apart again, and the parser reads a whole response and
-- waits for the rest of a part of one.
use Prim.Native.Nat.{bit_and}
use native.Mathlib.Nat as N
use farsight.Words.{bit_and-pow}
use farsight.Prelude.{
  ℕ, zero, suc, ◌-◌, ◌/◌, ◌%◌, ◌^◌, ◌≤◌, ◌<◌, ◌≡◌, ◌⊎◌, refl, ap, sym, ◌∙◌, inl, inr, Bool, true,
  false, not, ◌||◌, List, [], ◌∷◌, ◌++◌, Option, none, some, ltb, leb, ◌==◌, length, take, arith,
  Bool-cases, Option-cases, length-append,
}
use farsight.Responder.Types.{ParseResult, banner, incomplete}
use farsight.Minecraft.{
  write_varint, read_varint, read_loop, handshake, build_latest_request, parse_status, with_varint,
  parse,
}
use farsight.Minecraft.Varint.{read_varint-write_varint, read_varint-extends, length-write_varint}

take-append_left : (n : ℕ) (xs ys : List ℕ) → n ≤ length xs → take n (xs ++ ys) ≡ take n xs
take-append_left zero xs ys h = refl
take-append_left (suc n) [] ys h = absurd (omega arith)
take-append_left (suc n) (x ∷ xs) ys h = ap (◌∷◌ x) (take-append_left n xs ys (omega arith))

take-length : (xs ys : List ℕ) → take (length xs) (xs ++ ys) ≡ xs
take-length [] ys = refl
take-length (x ∷ xs) ys = ap (◌∷◌ x) (take-length xs ys)

module _ {B : Type 0} (is_json : List ℕ → Bool) (lossy : List ℕ → B) where
  status-stable :
      (packet_id n : ℕ) (p q : List ℕ)
      → (parse_status is_json lossy packet_id n p ≡ incomplete)
        ⊎ (parse_status is_json lossy packet_id n (p ++ q)
            ≡ parse_status is_json lossy packet_id n p)
  unfolding parse_status
  status-stable packet_id n p q =
      elim (Bool-cases (not (packet_id == 0) || (n == 0 || leb (2 ^ 31) n))) [
        | inl bad ↦ inr (rw (bad, parse_status) refl)
        | inr good ↦ elim (Bool-cases (ltb (length p) n)) [
          | inl short ↦ inl (rw (good, short, parse_status) refl)
          | inr long ↦
              let same : take n (p ++ q) ≡ take n p =
                take-append_left n p q (ground (arith, long)) in
              let still : ltb (length (p ++ q)) n ≡ false =
                ground (arith, long, length-append p q) in
              inr (rw (good, long, still, same, parse_status) refl)
        ]
      ]

  with_some :
      (p : List ℕ) (v : ℕ) (r : List ℕ) (next : ℕ → List ℕ → ParseResult B)
      → read_varint p ≡ some (v, r)
      → with_varint is_json lossy p next ≡ next v r
  unfolding with_varint
  with_some p v r next e =
      ap {A = Option (ℕ × List ℕ)} (λ o. elim o [ none ↦ incomplete | some x ↦ next x.0 x.1 ]) e

  with_none :
      (p : List ℕ) (next : ℕ → List ℕ → ParseResult B)
      → read_varint p ≡ none
      → with_varint is_json lossy p next ≡ incomplete
  unfolding with_varint
  with_none p next e =
      ap {A = Option (ℕ × List ℕ)} (λ o. elim o [ none ↦ incomplete | some x ↦ next x.0 x.1 ]) e

  step_stable :
      (p q : List ℕ) (next : ℕ → List ℕ → ParseResult B)
      → ((v : ℕ) (r : List ℕ) → (next v r ≡ incomplete) ⊎ (next v (r ++ q) ≡ next v r))
      → (with_varint is_json lossy p next ≡ incomplete)
        ⊎ (with_varint is_json lossy (p ++ q) next ≡ with_varint is_json lossy p next)
  step_stable p q next h = elim (Option-cases (read_varint p)) [
    | inl short ↦ inl (with_none p next short)
    | inr ((v, r), whole) ↦
        let now = with_some p v r next whole in
        let later = with_some (p ++ q) v (r ++ q) next (read_varint-extends p q v r whole) in
        elim (h v r) [ inl wait ↦ inl (now ∙ wait) | inr same ↦ inr (later ∙ same ∙ sym now) ]
  ]

  accepts :
      (text rest : List ℕ)
      → 0 < length text
      → length text < 2 ^ 31
      → is_json text ≡ true
      → parse_status is_json lossy 0 (length text) (text ++ rest) ≡ banner (lossy text)
  unfolding parse_status
  accepts text rest h2 h3 json =
      let body = take-length text rest in
      let good : (length text == 0 || leb (2 ^ 31) (length text)) ≡ false =
        ground (arith, h2, h3) in
      let enough : ltb (length (text ++ rest)) (length text) ≡ false =
        ground (arith, length-append text rest) in
      rw (body, good, enough, json, parse_status) refl

  -- Whatever bytes come behind them, the parser's verdict on the bytes so far stands, unless it is
  -- that they are incomplete.
  pub parse-stable :
      (p q : List ℕ)
      → (parse is_json lossy p ≡ incomplete)
        ⊎ (parse is_json lossy (p ++ q) ≡ parse is_json lossy p)
  unfolding parse
  parse-stable p q = step_stable p q _ (λ v1 s1.
      step_stable s1 q _ (λ v2 s2. step_stable s2 q _ (λ v3 s3. status-stable v2 v3 s3 q)))

  -- Let a response hold a text that is JSON and not empty nor of 2^31 bytes. Then the parser takes
  -- the text for the banner, whatever the packet's length says and whatever stands behind.
  pub parse-response :
      (packet_length : ℕ) (text rest : List ℕ)
      → packet_length < 2 ^ 32
      → 0 < length text
      → length text < 2 ^ 31
      → is_json text ≡ true
      → parse is_json lossy (
          write_varint packet_length
          ++ (write_varint 0 ++ (write_varint (length text) ++ (text ++ rest))))
        ≡ banner (lossy text)
  unfolding parse
  parse-response packet_length text rest h1 h2 h3 json =
      let next3 : ℕ → ℕ → List ℕ → ParseResult B =
        λ packet_id n s3. parse_status is_json lossy packet_id n s3 in
      let next2 : ℕ → List ℕ → ParseResult B =
        λ packet_id s2. with_varint is_json lossy s2 (next3 packet_id) in
      let next1 : ℕ → List ℕ → ParseResult B = λ n s1. with_varint is_json lossy s1 next2 in
      let s3 : List ℕ = text ++ rest in
      let s2 : List ℕ = write_varint (length text) ++ s3 in
      let s1 : List ℕ = write_varint 0 ++ s2 in
      with_some (write_varint packet_length ++ s1) packet_length s1 next1
        (read_varint-write_varint packet_length s1 h1)
      ∙ with_some s1 0 s2 next2 (read_varint-write_varint 0 s2 (omega arith))
      ∙ with_some s2 (length text) s3 (next3 0)
          (read_varint-write_varint (length text) s3 (omega arith))
      ∙ accepts text rest h2 h3 json

read_zero : (rest : List ℕ) → read_varint (0 ∷ rest) ≡ some (0, rest)
unfolding read_varint read_loop
read_zero rest = refl

-- Let the hostname be shorter than 2^31 - 16 bytes and the version an `i32`. A server that takes the
-- request apart finds the length of the handshake, the handshake, and the request for the status
-- behind it; in the handshake it finds the packet's number, the version, the length of the
-- hostname, the hostname, the port in two bytes, and the next state.
pub request-parts :
    (hostname : List ℕ) (port version : ℕ)
    → length hostname < 2 ^ 31 - 16
    → version < 2 ^ 32
    → (packet hostname_part : List ℕ) × (read_varint (build_latest_request hostname port version)
        ≡ some (length packet, packet ++ 1 ∷ 0 ∷ []))
      × (read_varint packet ≡ some (0, write_varint version ++ hostname_part))
      × (read_varint (write_varint version ++ hostname_part) ≡ some (version, hostname_part))
      × (read_varint hostname_part
          ≡ some (length hostname, hostname ++ port / 256 % 256 ∷ port % 256 ∷ 1 ∷ []))
unfolding build_latest_request handshake
request-parts hostname port version h1 h2 =
    let low : bit_and port (2 ^ 8 - 1) ≡ port % 256 = bit_and-pow port 8 in
    let host : length hostname % 2 ^ 32 ≡ length hostname = N.mod-eq_of_lt (omega arith) in
    let tail : List ℕ = hostname ++ port / 256 % 256 ∷ port % 256 ∷ 1 ∷ [] in
    let part : List ℕ = write_varint (length hostname) ++ tail in
    let packet : List ℕ = 0 ∷ (write_varint version ++ part) in
    let bound : length packet < 2 ^ 32 = omega (
      arith,
      length-append (write_varint version) part,
      length-append (write_varint (length hostname)) tail,
      length-append hostname (port / 256 % 256 ∷ port % 256 ∷ 1 ∷ []),
      length-write_varint version,
      length-write_varint (length hostname),
    ) in
    let size : length packet % 2 ^ 32 ≡ length packet = N.mod-eq_of_lt bound in
    (
      packet,
      part,
      rw (low, host, size)
          (read_varint-write_varint (length packet) (packet ++ 1 ∷ 0 ∷ []) (omega (arith, bound))),
      read_zero (write_varint version ++ part),
      read_varint-write_varint version part h2,
      read_varint-write_varint (length hostname) tail (omega arith),
    )
