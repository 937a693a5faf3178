-- ===== src/Minecraft/Tests.antt =====
-- Runs of the protocol's numbers and of the parser, and the theorems at concrete bytes.
use farsight.Prelude.{
  ℕ, ◌-◌, ◌%◌, ◌/◌, ◌^◌, ◌≡◌, ◌⊎◌, refl, Bool, true, List, [], ◌∷◌, ◌++◌, some, length, arith,
}
use farsight.Responder.Types.{banner, invalid, incomplete}
use farsight.Minecraft.{
  write_varint, write_loop, read_varint, read_loop, build_latest_request, parse, parse_status,
  with_varint,
}
use farsight.Minecraft.Varint.{read_varint-write_varint}
use farsight.Minecraft.Framing.{parse-stable, parse-response, request-parts}

-- 300 and -1.
write_runs :
    (write_varint 300 ≡ 172 ∷ 2 ∷ [])
    × (write_varint (2 ^ 32 - 1) ≡ 255 ∷ 255 ∷ 255 ∷ 255 ∷ 15 ∷ [])
unfolding write_varint write_loop
write_runs = (refl, refl)

abbrev any : List ℕ → Bool
any text = true

abbrev same : List ℕ → List ℕ
same text = text

parse_runs :
    (parse any same (5 ∷ 0 ∷ 3 ∷ 65 ∷ 66 ∷ 67 ∷ []) ≡ banner (65 ∷ 66 ∷ 67 ∷ []))
    × (parse any same (5 ∷ 0 ∷ 3 ∷ 65 ∷ []) ≡ incomplete)
    × (parse any same (5 ∷ 1 ∷ 3 ∷ []) ≡ invalid)
unfolding parse with_varint parse_status read_varint read_loop
parse_runs = (refl, refl, refl)

read_varint-write_varint_example : read_varint (write_varint 300 ++ 9 ∷ []) ≡ some (300, 9 ∷ [])
read_varint-write_varint_example = read_varint-write_varint 300 (9 ∷ []) (omega arith)

parse-stable_example :
    (parse any same (5 ∷ 0 ∷ []) ≡ incomplete)
    ⊎ (parse any same (5 ∷ 0 ∷ [] ++ 3 ∷ []) ≡ parse any same (5 ∷ 0 ∷ []))
parse-stable_example = parse-stable any same (5 ∷ 0 ∷ []) (3 ∷ [])

parse-response_example :
    parse any same (write_varint 5 ++ (write_varint 0 ++ (write_varint 2 ++ (65 ∷ 66 ∷ [] ++ []))))
    ≡ banner (65 ∷ 66 ∷ [])
parse-response_example =
    parse-response any same 5 (65 ∷ 66 ∷ []) [] (omega arith) (omega arith) (omega arith) refl

request-parts_example :
    (packet hostname_part : List ℕ) × (read_varint (build_latest_request (97 ∷ []) 25565 765)
      ≡ some (length packet, packet ++ 1 ∷ 0 ∷ []))
    × (read_varint packet ≡ some (0, write_varint 765 ++ hostname_part))
    × (read_varint (write_varint 765 ++ hostname_part) ≡ some (765, hostname_part))
    × (read_varint hostname_part ≡ some (1, 97 ∷ [] ++ 25565 / 256 % 256 ∷ 25565 % 256 ∷ 1 ∷ []))
request-parts_example = request-parts (97 ∷ []) 25565 765 (omega arith) (omega arith)
