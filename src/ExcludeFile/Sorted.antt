-- ===== src/ExcludeFile/Sorted.antt =====
-- What `parse` returns has the form that `exclude` relies on, and stands for the lines of the file.
use mathlib.Core.Option.{map}
use farsight.Prelude.{
  ℕ, ◌+◌, ◌-◌, ◌*◌, ◌^◌, ◌≤◌, ◌≡◌, refl, ap, ◌∙◌, subst, Bool, true, false, not, ◌&&◌, ◌||◌, List,
  [], ◌∷◌, Option, none, some, ltb, leb, ◌==◌, if◌then◌else◌, length, mem, arith, inl, inr,
  Bool-cases, if_elim,
}
use farsight.Range.{RangeInclusive, exclude}
use farsight.Range.Spec.{in_range, covers, Ascending, ByStart}
use farsight.Range.Exclude.{exclude-covers}
use farsight.ExcludeFile.{
  split_by, first_part, second_part, digits_value, parse_u8, parse_octet, join_octets, parse_parts,
  parse_address, slash_line, hyphen_line, single_line, and_parse, parse_line, is_skipped,
  without_comment, push_parsed, parse_lines, insert_by_start, sort_by_start, parse, trim,
}
use farsight.ExcludeFile.Line.{slash_range-block}

-- A number, if there is one, is at most the bound.
abbrev Within : ℕ → Option ℕ → Type 0
Within bound none = 0 ≤ 0
Within bound (some v) = v ≤ bound

digits_value-Within :
    (bound n : ℕ) (text : List ℕ) → n ≤ bound → Within bound (digits_value bound n text)
unfolding digits_value
digits_value-Within bound n [] le = le
digits_value-Within bound n (c ∷ text) le =
    let m = n * 10 + (c - 48) in
    elim (Bool-cases (leb 48 c && leb c 57 && leb m bound)) [
      | inl good ↦ rw good (digits_value-Within bound m text (ground (arith, good)))
      | inr bad ↦ rw bad (omega arith)
    ]

parse_octet-Within : (text : List ℕ) → Within 255 (parse_octet text)
unfolding parse_octet
parse_octet-Within [] = omega arith
parse_octet-Within (c ∷ text) =
    if_elim (Within 255) (ltb 3 (length (c ∷ text)) || (c == 48 && not (length text == 0))) none
      (digits_value 255 0 (c ∷ text)) (omega arith)
      (digits_value-Within 255 0 (c ∷ text) (omega arith))

join_octets-Within :
    (a b c d : Option ℕ)
    → Within 255 a
    → Within 255 b
    → Within 255 c
    → Within 255 d
    → Within (2 ^ 32 - 1) (join_octets a b c d)
join_octets-Within (some a) (some b) (some c) (some d) ha hb hc hd = omega arith
join_octets-Within none b c d ha hb hc hd = omega arith
join_octets-Within (some a) none c d ha hb hc hd = omega arith
join_octets-Within (some a) (some b) none d ha hb hc hd = omega arith
join_octets-Within (some a) (some b) (some c) none ha hb hc hd = omega arith

parse_parts-Within : (parts : List (List ℕ)) → Within (2 ^ 32 - 1) (parse_parts parts)
parse_parts-Within [] = omega arith
parse_parts-Within (a ∷ []) = omega arith
parse_parts-Within (a ∷ b ∷ []) = omega arith
parse_parts-Within (a ∷ b ∷ c ∷ []) = omega arith
parse_parts-Within (a ∷ b ∷ c ∷ d ∷ []) =
    join_octets-Within (parse_octet a) (parse_octet b) (parse_octet c) (parse_octet d)
      (parse_octet-Within a) (parse_octet-Within b) (parse_octet-Within c) (parse_octet-Within d)
parse_parts-Within (a ∷ b ∷ c ∷ d ∷ e ∷ rest) = omega arith

parse_address-Within : (text : List ℕ) → Within (2 ^ 32 - 1) (parse_address text)
unfolding parse_address
parse_address-Within text = parse_parts-Within (split_by 46 text)

-- A range, if there is one, is not empty.
abbrev IsFilled : Option RangeInclusive → Type 0
IsFilled none = 0 ≤ 0
IsFilled (some r) = r.start ≤ r.last

and_parse-Within : (part : Option (List ℕ)) → Within (2 ^ 32 - 1) (and_parse part parse_address)
and_parse-Within none = omega arith
and_parse-Within (some text) = parse_address-Within text

slash_line-IsFilled : (mask ip : Option ℕ) → Within (2 ^ 32 - 1) ip → IsFilled (slash_line mask ip)
slash_line-IsFilled none ip h = omega arith
slash_line-IsFilled (some p) none h = omega arith
slash_line-IsFilled (some p) (some ip) h = rw (slash_range-block ip p (omega arith)) (omega arith)

hyphen_line-IsFilled : (ip_start ip_end : Option ℕ) → IsFilled (hyphen_line ip_start ip_end)
hyphen_line-IsFilled none ip_end = omega arith
hyphen_line-IsFilled (some a) none = omega arith
hyphen_line-IsFilled (some a) (some b) = ground arith

single_line-IsFilled : (ip : Option ℕ) → IsFilled (single_line ip)
single_line-IsFilled none = omega arith
single_line-IsFilled (some ip) = omega arith

parse_line-IsFilled : (line : List ℕ) → IsFilled (parse_line line)
unfolding parse_line
parse_line-IsFilled line = if_elim IsFilled (mem 47 line && mem 45 line) none _ (omega arith) (
    if_elim IsFilled (mem 47 line) _ _
      (slash_line-IsFilled (and_parse (second_part (split_by 47 line)) parse_u8)
        (and_parse (first_part (split_by 47 line)) parse_address)
        (and_parse-Within (first_part (split_by 47 line))))
      (if_elim IsFilled (mem 45 line) _ _
        (hyphen_line-IsFilled (and_parse (first_part (split_by 45 line)) parse_address)
          (and_parse (second_part (split_by 45 line)) parse_address))
        (single_line-IsFilled (parse_address line))))

-- The range of a line, if it has one, holds an address.
abbrev pub line_covers : Option RangeInclusive → ℕ → Bool
line_covers none x = false
line_covers (some r) x = in_range x r

-- A line of the file that is not skipped covers an address.
unfoldable pub listed : List (List ℕ) → ℕ → Bool
listed [] x = false
listed (text ∷ lines) x =
    let line = trim text in
    (if is_skipped line
      then false
      else line_covers (parse_line (without_comment (split_by 35 line))) x)
    || listed lines x

insert-ByStart :
    (lo : ℕ) (r : RangeInclusive) (xs : List RangeInclusive)
    → lo ≤ r.start
    → r.start ≤ r.last
    → ByStart lo xs
    → ByStart lo (insert_by_start r xs)
unfolding insert_by_start
insert-ByStart lo r [] le filled h = (le, filled, tt)
insert-ByStart lo r (x ∷ xs) le filled (first, full, h) = elim (Bool-cases (leb r.start x.start)) [
  | inl before ↦ rw before (le, filled, (ground (arith, before), full, h))
  | inr behind ↦
      rw behind (first, full, insert-ByStart x.start r xs (ground (arith, behind)) filled h)
]

covers-insert :
    (r : RangeInclusive) (xs : List RangeInclusive) (y : ℕ)
    → covers (insert_by_start r xs) y ≡ (in_range y r || covers xs y)
unfolding insert_by_start
covers-insert r [] y = refl
covers-insert r (x ∷ xs) y = ground (arith, covers-insert r xs y)

-- The ranges of the lines, if there are any: sorted, none of them empty, and covering what is listed.
abbrev Describes : (ℕ → Bool) → Option (List RangeInclusive) → Type 0
Describes wanted none = 0 ≤ 0
Describes wanted (some rs) = ByStart 0 rs × ((x : ℕ) → covers rs x ≡ wanted x)

push-Describes :
    (wanted : ℕ → Bool) (range : Option RangeInclusive) (ranges : Option (List RangeInclusive))
    → IsFilled range
    → Describes wanted (map sort_by_start ranges)
    → Describes
        (λ x. line_covers range x || wanted x)
        (map sort_by_start (push_parsed range ranges))
unfolding sort_by_start
push-Describes wanted none ranges filled h = omega arith
push-Describes wanted (some r) none filled h = omega arith
push-Describes wanted (some r) (some rs) filled (sorted, same) = (
  insert-ByStart 0 r (sort_by_start rs) (omega arith) filled sorted,
  λ x. covers-insert r (sort_by_start rs) x ∙ ap (λ b. in_range x r || b) (same x),
)

line-Describes :
    (skipped : Bool) (wanted : ℕ → Bool) (range : Option RangeInclusive)
    (ranges : Option (List RangeInclusive))
    → IsFilled range
    → Describes wanted (map sort_by_start ranges)
    → Describes
        (λ x. (if skipped then false else line_covers range x) || wanted x)
        (map sort_by_start (if skipped then ranges else push_parsed range ranges))
line-Describes true wanted range ranges filled h = h
line-Describes false wanted range ranges filled h = push-Describes wanted range ranges filled h

parse_lines-Describes :
    (lines : List (List ℕ)) → Describes (listed lines) (map sort_by_start (parse_lines lines))
unfolding parse_lines listed sort_by_start
parse_lines-Describes [] = (tt, λ x. refl)
parse_lines-Describes (text ∷ lines) =
    let range = parse_line (without_comment (split_by 35 (trim text))) in
    line-Describes (is_skipped (trim text)) (listed lines) range (parse_lines lines)
      (parse_line-IsFilled (without_comment (split_by 35 (trim text))))
      (parse_lines-Describes lines)

-- Let `parse` accept the text of an exclude file, and let the ranges to scan be disjoint, ascending
-- and non-empty. Then `exclude` ends on what `parse` returns, in whatever order the lines were, and
-- leaves ranges of the same form. An address lies in one of them exactly when it lies in a range to scan
-- and in the range of no line that is not a comment.
pub exclude-parse :
    (input : List ℕ) (scans excls : List RangeInclusive)
    → Ascending 0 scans
    → parse input ≡ some excls
    → (kept : List RangeInclusive) × (exclude scans excls ≡ some kept)
      × Ascending 0 kept
      × ((x : ℕ) → covers kept x ≡ (covers scans x && not (listed (split_by 10 input) x)))
unfolding parse
exclude-parse input scans excls ascending parsed =
    let (sorted, same) =
      subst (Describes (listed (split_by 10 input))) parsed
        (parse_lines-Describes (split_by 10 input)) in
    let (kept, left, form, exact) = exclude-covers scans excls ascending sorted in
    (kept, left, form, λ x. exact x ∙ ap (λ b. covers scans x && not b) (same x))
