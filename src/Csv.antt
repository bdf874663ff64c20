-- ===== src/Csv.antt =====
-- apps/web/lib/csv.ts: the text of an export and the reading of an import. The loops over an index
-- are recursions on the text, with a flag where the code skips a unit by `index += 1`.
pub mod Fields
pub mod RoundTrip
pub mod Import
pub mod Limits
mod Examples
use klyvero.Common.{
  ℕ, suc, ◌+◌, Bool, true, false, not, ◌&&◌, ◌||◌, List, [], ◌∷◌, ◌++◌, map, Text, leb, ◌==◌,
  if◌then◌else◌, any,
}

abbrev pub quote : ℕ
quote = 34

abbrev pub line_feed : ℕ
line_feed = 10

abbrev pub carriage_return : ℕ
carriage_return = 13

abbrev pub semicolon : ℕ
semicolon = 59

abbrev pub comma : ℕ
comma = 44

-- `/^[=+\-@]/`
abbrev pub is_formula : Text → Bool
is_formula [] = false
is_formula (c ∷ s) = c == 61 || c == 43 || c == 45 || c == 64

-- `` if (/^[=+\-@]/.test(safe)) safe = `'${safe}`; ``
abbrev pub neutralize : Text → Text
neutralize s = if is_formula s then 39 ∷ s else s

-- `value.includes(unit)`
abbrev pub has : ℕ → Text → Bool
has c s = any (λ x. x == c) s

-- `safe.replace(/"/g, '""')`
unfoldable pub double_quotes : Text → Text
double_quotes [] = []
double_quotes (c ∷ s) =
    let rest = double_quotes s in if c == quote then quote ∷ quote ∷ rest else c ∷ rest

abbrev pub needs_quotes : ℕ → Text → Bool
needs_quotes delimiter s =
    has delimiter s || has line_feed s || has carriage_return s || has quote s

unfoldable pub escape_csv : Text → ℕ → Text
unfolding double_quotes
escape_csv value delimiter =
    let safe = neutralize value in
    let doubled = if has quote safe then double_quotes safe else safe in
    if needs_quotes delimiter doubled then quote ∷ (doubled ++ quote ∷ []) else doubled

-- `parts.join(separator)`
unfoldable pub join_with : Text → List Text → Text
join_with separator [] = []
join_with separator (x ∷ []) = x
join_with separator (x ∷ y ∷ ys) = x ++ (separator ++ join_with separator (y ∷ ys))

-- The rows that `downloadCsv` writes, below the mark of the encoding.
unfoldable pub csv_text : ℕ → List (List Text) → Text
unfolding join_with escape_csv
csv_text delimiter rows =
    join_with (carriage_return ∷ line_feed ∷ [])
      (map (λ row. join_with (delimiter ∷ []) (map (λ v. escape_csv v delimiter) row)) rows)

-- `text[index + 1] === unit`
abbrev pub next_is : ℕ → Text → Bool
next_is c [] = false
next_is c (x ∷ s) = x == c

-- What the loop of `parseDelimited` does with a unit.
pub data Reading : Type 0 where
  -- a doubled quote, and the unit after it is skipped
  escaped toggle separator : Reading
  -- the end of a line, and whether the next unit is skipped
  line_end : Bool → Reading
  plain : Reading

unfoldable pub reading : ℕ → Bool → ℕ → Text → Reading
reading delimiter quoted c s =
    if c == quote
    then (if quoted && next_is quote s then escaped else toggle)
    else if not quoted && c == delimiter
    then separator
    else if not quoted && (c == line_feed || c == carriage_return)
    then line_end (c == carriage_return && next_is line_feed s)
    else plain

unfoldable pub parse_from :
    ℕ → Bool → Bool → Text → List Text → List (List Text) → Text → List (List Text)
unfolding reading
parse_from delimiter skip quoted cell row rows [] = rows ++ (row ++ cell ∷ []) ∷ []
parse_from delimiter true quoted cell row rows (c ∷ s) =
    parse_from delimiter false quoted cell row rows s
parse_from delimiter false quoted cell row rows (c ∷ s) = elim (reading delimiter quoted c s) [
  | escaped ↦ parse_from delimiter true quoted (cell ++ quote ∷ []) row rows s
  | toggle ↦ parse_from delimiter false (not quoted) cell row rows s
  | separator ↦ parse_from delimiter false quoted [] (row ++ cell ∷ []) rows s
  | line_end skip ↦ parse_from delimiter skip quoted [] [] (rows ++ (row ++ cell ∷ []) ∷ []) s
  | plain ↦ parse_from delimiter false quoted (cell ++ c ∷ []) row rows s
]

unfoldable pub parse_delimited : Text → ℕ → List (List Text)
unfolding parse_from
parse_delimited text delimiter = parse_from delimiter false false [] [] [] text

-- `countOutsideQuotes`, with the flags and the count so far.
unfoldable pub count_from : ℕ → Bool → Bool → ℕ → Text → ℕ
count_from target skip quoted count [] = count
count_from target true quoted count (c ∷ s) = count_from target false quoted count s
count_from target false quoted count (c ∷ s) =
    let twice = c == quote && quoted && next_is quote s in
    let quoted' = if c == quote && not twice then not quoted else quoted in
    let count' = if not (c == quote) && not quoted && c == target then suc count else count in
    count_from target twice quoted' count' s

unfoldable pub count_outside_quotes : Text → ℕ → ℕ
unfolding count_from
count_outside_quotes value target = count_from target false false 0 value

-- `firstLogicalLine`, with the flags.
unfoldable pub line_from : Bool → Bool → Text → Text
line_from skip quoted [] = []
line_from true quoted (c ∷ s) = quote ∷ line_from false quoted s
line_from false quoted (c ∷ s) =
    let twice = c == quote && quoted && next_is quote s in
    let quoted' = if c == quote && not twice then not quoted else quoted in
    let rest = line_from twice quoted' s in
    if not quoted' && (c == line_feed || c == carriage_return) then [] else c ∷ rest

unfoldable pub first_logical_line : Text → Text
unfolding line_from
first_logical_line text = line_from false false text

unfoldable pub detect_delimiter : Text → ℕ
unfolding first_logical_line count_outside_quotes
detect_delimiter text =
    let first_line = first_logical_line text in
    if leb (count_outside_quotes first_line comma) (count_outside_quotes first_line semicolon)
    then semicolon
    else comma
