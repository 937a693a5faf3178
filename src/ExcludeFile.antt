-- ===== src/ExcludeFile.antt =====
-- farsight/src/exclude.rs: the ranges of the file of excluded addresses. A text is the list of its
-- characters; what the standard library does with texts, numbers and addresses is written out.
pub mod Sorted
pub mod Line
mod Tests
use Prim.Native.Nat.{bit_and, bit_or}
use farsight.Prelude.{
  ℕ, zero, suc, ◌+◌, ◌-◌, ◌*◌, ◌%◌, ◌^◌, Bool, true, false, not, ◌&&◌, ◌||◌, List, [], ◌∷◌, ◌++◌,
  Option, none, some, ltb, leb, ◌==◌, if◌then◌else◌, length, mem,
}
use mathlib.Core.Option.{map}
use farsight.Range.{RangeInclusive}

-- `char::is_whitespace`
unfoldable pub is_whitespace : ℕ → Bool
is_whitespace c =
    (leb 9 c && leb c 13)
    || c == 32
    || c == 133
    || c == 160
    || c == 5760
    || (leb 8192 c && leb c 8202)
    || c == 8232
    || c == 8233
    || c == 8239
    || c == 8287
    || c == 12288

-- `str::split` by a character.
unfoldable pub split_by : ℕ → List ℕ → List (List ℕ)
split_by c [] = [] ∷ []
split_by c (x ∷ text) = extend (x == c) x (split_by c text)
  where
    extend : Bool → ℕ → List (List ℕ) → List (List ℕ)
    extend true x parts = [] ∷ parts
    extend false x [] = (x ∷ []) ∷ []
    extend false x (part ∷ parts) = (x ∷ part) ∷ parts

-- `parts.next()`, and nothing where it has no part.
abbrev pub first_part : List (List ℕ) → Option (List ℕ)
first_part [] = none
first_part (part ∷ parts) = some part

abbrev pub second_part : List (List ℕ) → Option (List ℕ)
second_part [] = none
second_part (part ∷ parts) = first_part parts

-- `str::trim`
unfoldable pub trim_start : List ℕ → List ℕ
trim_start [] = []
trim_start (c ∷ text) = let rest = trim_start text in if is_whitespace c then rest else c ∷ text

unfoldable pub trim_end : List ℕ → List ℕ
trim_end [] = []
trim_end (c ∷ text) =
    let rest = trim_end text in if is_whitespace c && length rest == 0 then [] else c ∷ rest

unfoldable pub trim : List ℕ → List ℕ
trim text = trim_end (trim_start text)

-- The value of decimal digits behind `n`, if it is at most `bound`.
unfoldable pub digits_value : ℕ → ℕ → List ℕ → Option ℕ
digits_value bound n [] = some n
digits_value bound n (c ∷ text) =
    let m = n * 10 + (c - 48) in
    let rest = digits_value bound m text in
    if leb 48 c && leb c 57 && leb m bound then rest else none

-- `str::parse::<u8>`, which allows one sign in front.
unfoldable pub parse_u8 : List ℕ → Option ℕ
parse_u8 [] = none
parse_u8 (c ∷ text) =
    if c == 43
    then (if length text == 0 then none else digits_value 255 0 text)
    else digits_value 255 0 (c ∷ text)

-- An octet of an address: up to three digits, and no zero in front of others.
unfoldable pub parse_octet : List ℕ → Option ℕ
parse_octet [] = none
parse_octet (c ∷ text) =
    if ltb 3 (length (c ∷ text)) || (c == 48 && not (length text == 0))
    then none
    else digits_value 255 0 (c ∷ text)

abbrev pub join_octets : Option ℕ → Option ℕ → Option ℕ → Option ℕ → Option ℕ
join_octets (some a) (some b) (some c) (some d) = some (((a * 256 + b) * 256 + c) * 256 + d)
join_octets _ _ _ _ = none

-- `Ipv4Addr::from_str`
abbrev pub parse_parts : List (List ℕ) → Option ℕ
parse_parts (a ∷ b ∷ c ∷ d ∷ []) =
    join_octets (parse_octet a) (parse_octet b) (parse_octet c) (parse_octet d)
parse_parts _ = none

unfoldable pub parse_address : List ℕ → Option ℕ
parse_address text = parse_parts (split_by 46 text)

-- The range of an address and the length of its prefix: `u8` and `u32` arithmetic.
unfoldable pub slash_range : ℕ → ℕ → RangeInclusive
slash_range ip length_of_prefix =
    let mask = (32 + 2 ^ 8 - length_of_prefix) % 2 ^ 8 in
    let mask_bits = (2 ^ mask % 2 ^ 32 + 2 ^ 32 - 1) % 2 ^ 32 in
    record { start = bit_and ip (2 ^ 32 - 1 - mask_bits); last = bit_or ip mask_bits }

-- The results of the calls in the three forms, put together as `?` does.
abbrev pub slash_line : Option ℕ → Option ℕ → Option RangeInclusive
slash_line (some mask) (some ip) = some (slash_range ip mask)
slash_line _ _ = none

abbrev pub hyphen_line : Option ℕ → Option ℕ → Option RangeInclusive
hyphen_line (some ip_start) (some ip_end) =
    if ltb ip_end ip_start then none else some (record { start = ip_start; last = ip_end })
hyphen_line _ _ = none

abbrev pub single_line : Option ℕ → Option RangeInclusive
single_line (some ip) = some (record { start = ip; last = ip })
single_line none = none

abbrev pub and_parse : Option (List ℕ) → (List ℕ → Option ℕ) → Option ℕ
and_parse none parser = none
and_parse (some text) parser = parser text

-- A line without its comment, in the body of the loop of `parse`.
unfoldable pub parse_line : List ℕ → Option RangeInclusive
parse_line line =
    let is_slash = mem 47 line in
    let is_hyphen = mem 45 line in
    let slashed = split_by 47 line in
    let hyphened = split_by 45 line in
    if is_slash && is_hyphen
    then none
    else if is_slash
    then slash_line (and_parse (second_part slashed) parse_u8)
        (and_parse (first_part slashed) parse_address)
    else if is_hyphen
    then hyphen_line (and_parse (first_part hyphened) parse_address)
        (and_parse (second_part hyphened) parse_address)
    else single_line (parse_address line)

-- `line.is_empty() || line.starts_with('#')`
abbrev pub is_skipped : List ℕ → Bool
is_skipped [] = true
is_skipped (c ∷ text) = c == 35

-- `line.split('#').next().unwrap().trim()`
abbrev pub without_comment : List (List ℕ) → List ℕ
without_comment [] = []
without_comment (part ∷ parts) = trim part

abbrev pub push_parsed :
    Option RangeInclusive → Option (List RangeInclusive) → Option (List RangeInclusive)
push_parsed (some range) (some ranges) = some (range ∷ ranges)
push_parsed _ _ = none

-- The loop of `parse`: the ranges of the lines, in their order, or the first error.
unfoldable pub parse_lines : List (List ℕ) → Option (List RangeInclusive)
parse_lines [] = some []
parse_lines (text ∷ lines) =
    let line = trim text in
    let rest = parse_lines lines in
    if is_skipped line
    then rest
    else push_parsed (parse_line (without_comment (split_by 35 line))) rest

-- `sort_by_key`, which is stable.
unfoldable pub insert_by_start : RangeInclusive → List RangeInclusive → List RangeInclusive
insert_by_start r [] = r ∷ []
insert_by_start r (x ∷ xs) =
    let rest = insert_by_start r xs in if leb r.start x.start then r ∷ x ∷ xs else x ∷ rest

unfoldable pub sort_by_start : List RangeInclusive → List RangeInclusive
sort_by_start [] = []
sort_by_start (r ∷ rs) = insert_by_start r (sort_by_start rs)

-- `parse`. A last line that is empty, which `lines` leaves out, is skipped.
unfoldable pub parse : List ℕ → Option (List RangeInclusive)
parse input = map sort_by_start (parse_lines (split_by 10 input))
