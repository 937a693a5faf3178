-- ===== src/ExcludeFile/Tests.antt =====
-- A file of three lines, and the theorems at it.
use farsight.Prelude.{
  ℕ, ◌-◌, ◌/◌, ◌^◌, ◌≡◌, refl, true, not, ◌&&◌, List, [], ◌∷◌, some, arith, ◌==◌,
}
use farsight.Range.{RangeInclusive, exclude}
use farsight.Range.Spec.{in_range, covers, Ascending}
use farsight.ExcludeFile.{
  parse, parse_lines, parse_line, parse_address, parse_u8, parse_octet, digits_value, split_by,
  trim, trim_start, trim_end, is_whitespace, slash_range, sort_by_start, insert_by_start,
}
use farsight.ExcludeFile.Line.{slash_range-in_range, slash_range-excludes_all}
use farsight.ExcludeFile.Sorted.{listed, exclude-parse}

-- "10.0.0.0/8", "# x", " 1.2.3.4 # y"
abbrev file : List ℕ
file =
    49
    ∷ 48
    ∷ 46
    ∷ 48
    ∷ 46
    ∷ 48
    ∷ 46
    ∷ 48
    ∷ 47
    ∷ 56
    ∷ 10
    ∷ (35 ∷ 32 ∷ 120 ∷ 10 ∷ (32 ∷ 49 ∷ 46 ∷ 50 ∷ 46 ∷ 51 ∷ 46 ∷ 52 ∷ 32 ∷ 35 ∷ 32 ∷ 121 ∷ []))

abbrev found : List RangeInclusive
found =
    record { start = 16909060; last = 16909060 }
    ∷ record { start = 167772160; last = 184549375 }
    ∷ []

parsed : parse file ≡ some found
unfolding parse parse_lines parse_line parse_address parse_u8 parse_octet digits_value split_by trim
    trim_start trim_end is_whitespace slash_range sort_by_start insert_by_start
parsed = refl

abbrev everything : List RangeInclusive
everything = record { start = 0; last = 2 ^ 32 - 1 } ∷ []

exclude-parse_example :
    (kept : List RangeInclusive) × (exclude everything found ≡ some kept)
    × Ascending 0 kept
    × ((x : ℕ) → covers kept x ≡ (covers everything x && not (listed (split_by 10 file) x)))
exclude-parse_example = exclude-parse file everything found (omega arith, omega arith, tt) parsed

-- 10.0.0.0/8 and 10.1.2.3
slash_range-in_range_example :
    in_range 167838211 (slash_range 167772160 8) ≡ (167838211 / 2 ^ 24 == 167772160 / 2 ^ 24)
slash_range-in_range_example =
    slash_range-in_range 167772160 8 167838211 (omega arith) (omega arith)

slash_range-excludes_all_example : in_range 1 (slash_range 167772160 33) ≡ true
slash_range-excludes_all_example =
    slash_range-excludes_all 167772160 33 1 (omega arith) (omega arith) (omega arith) (omega arith)
