-- ===== src/Csv/Import.antt =====
-- apps/web/lib/csv.ts: the rows of an imported file by header, and the lookup of a column in them.
-- The size in bytes, the decomposition of accents and lower casing are the platform's, and arguments
-- here. A row is a list of its entries in the order of insertion; the object of the code puts a header
-- that is spelled like an array index before the others.
use klyvero.Common.{
  ℕ, ◌*◌, Bool, true, false, not, ◌&&◌, ◌||◌, List, [], ◌∷◌, map, length, Text, text_eq, ltb, leb,
  ◌==◌, if◌then◌else◌, any, trim, is_digit, select,
}
use klyvero.Csv.{parse_delimited, detect_delimiter}

abbrev pub Row : Type 0
Row = List (Text × Text)

-- `row[header] = value`
unfoldable set_entry : Text → Text → Row → Row
unfolding text_eq
set_entry header value [] = (header, value) ∷ []
set_entry header value (e ∷ row) =
    if text_eq e.0 header then (header, value) ∷ row else e ∷ set_entry header value row

-- `headers.forEach(...)`, from the entries made so far; a cell that is missing is empty.
unfoldable pub fill : List Text → List Text → Row → Row
unfolding set_entry
fill [] cells row = row
fill (h ∷ hs) [] row = fill hs [] (set_entry h [] row)
fill (h ∷ hs) (c ∷ cells) row = fill hs cells (set_entry h c row)

pub record ParsedCsv : Type 0 where
  pub headers : List Text
  pub rows : List Row

pub data Import : Type 0 where
  too_large empty_file no_header too_many : Import
  imported : ParsedCsv → Import

abbrev pub is_filled : Text → Bool
is_filled [] = false
is_filled (c ∷ s) = true

abbrev byte_order_mark : ℕ
byte_order_mark = 65279

-- `.replace(/^\uFEFF/, '')`
abbrev pub without_mark : Text → Text
without_mark [] = []
without_mark (c ∷ s) = if c == byte_order_mark then s else c ∷ s

abbrev pub with_header : List Text → List (List Text) → Import
with_header headers body =
    if not (any is_filled headers)
    then no_header
    else if ltb 500 (length body)
    then too_many
    else imported record { headers = headers; rows = map (λ cells. fill headers cells []) body }

abbrev pub from_records : List (List Text) → Import
from_records [] = empty_file
from_records (first ∷ body) = with_header (map (λ h. trim (without_mark h)) first) body

unfoldable pub records_of : Text → List (List Text)
unfolding parse_delimited detect_delimiter trim
records_of text =
    select (λ row. any is_filled row)
      (map (λ row. map trim row) (parse_delimited text (detect_delimiter text)))

unfoldable pub parse_csv_file : (Text → ℕ) → Text → Import
unfolding records_of trim fill
parse_csv_file byte_length text =
    if ltb (2 * 1024 * 1024) (byte_length text) then too_large else from_records (records_of text)

pub record CsvColumn : Type 0 where
  pub key : Text
  pub label : Text
  pub aliases : List Text

abbrev is_alphanumeric : ℕ → Bool
is_alphanumeric c = is_digit c || (leb b'a' c && leb c b'z')

-- `/[\u0300-\u036f]/`
abbrev is_accent : ℕ → Bool
is_accent c = leb 768 c && leb c 879

unfoldable normalize_csv_header : (Text → Text) → (Text → Text) → Text → Text
unfolding trim
normalize_csv_header nfd lower value =
    select is_alphanumeric
      (lower (trim (select (λ c. not (is_accent c)) (nfd (without_mark value)))))

abbrev entry_of : (Text → Bool) → Row → Text
entry_of is_accepted [] = []
entry_of is_accepted (e ∷ row) = if is_accepted e.0 then trim e.1 else entry_of is_accepted row

unfoldable resolve_csv_value : (Text → Text) → (Text → Text) → Row → CsvColumn → Text
unfolding normalize_csv_header text_eq trim
resolve_csv_value nfd lower row column =
    let accepted =
      map (normalize_csv_header nfd lower) (column.key ∷ column.label ∷ column.aliases) in
    entry_of (λ header. any (λ a. text_eq a (normalize_csv_header nfd lower header)) accepted) row
