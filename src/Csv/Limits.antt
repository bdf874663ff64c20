-- ===== src/Csv/Limits.antt =====
-- What the import of a file accepts.
use klyvero.Common.{
  ℕ, ◌*◌, ◌≤◌, ◌≡◌, refl, subst, arith, Bool, true, false, not, List, [], ◌∷◌, map, length, Text,
  ltb, any, trim, if◌then◌else◌,
}
use klyvero.Csv.Import.{
  Row, ParsedCsv, Import, imported, too_large, no_header, too_many, is_filled, without_mark, fill,
  with_header, from_records, records_of, parse_csv_file,
}

length-map_rows : {A : Type 0} (f : A → Row) (xs : List A) → length (map f xs) ≡ length xs
length-map_rows f [] = refl
length-map_rows f (x ∷ xs) = rw (length-map_rows f xs) refl

abbrev pub IsAccepted : ParsedCsv → Type 0
IsAccepted p = (any is_filled p.headers ≡ true) × (length p.rows ≤ 500)

-- `if (b) throw x;` before an import that succeeds.
after_guard :
    (b : Bool) (x y : Import) (p : ParsedCsv)
    → ¬ (x ≡ imported p)
    → (if b then x else y) ≡ imported p
    → (b ≡ false) × (y ≡ imported p)
after_guard true x y p fails h = absurd (fails h)
after_guard false x y p fails h = (refl, h)

imported-injective : {p q : ParsedCsv} → imported p ≡ imported q → p ≡ q
imported-injective h = cc

with_header-IsAccepted :
    (headers : List Text) (body : List (List Text)) (p : ParsedCsv)
    → with_header headers body ≡ imported p
    → IsAccepted p
with_header-IsAccepted headers body p h =
    let (named, rest) = after_guard (not (any is_filled headers)) no_header _ p (λ e. cc) h in
    let (few, same) = after_guard (ltb 500 (length body)) too_many _ p (λ e. cc) rest in
    let rows : length (map (λ cells. fill headers cells []) body) ≡ length body =
      length-map_rows (λ cells. fill headers cells []) body in
    subst IsAccepted (imported-injective same) (ground arith, ground arith)

from_records-IsAccepted :
    (records : List (List Text)) (p : ParsedCsv) → from_records records ≡ imported p → IsAccepted p
from_records-IsAccepted [] p h = cc
from_records-IsAccepted (first ∷ body) p h =
    with_header-IsAccepted (map (λ h. trim (without_mark h)) first) body p h

-- A file that is imported is no larger than 2 MB, has a header that is not empty and at most 500 rows.
pub parse_csv_file-IsAccepted :
    (byte_length : Text → ℕ) (text : Text) (p : ParsedCsv)
    → parse_csv_file byte_length text ≡ imported p
    → (byte_length text ≤ 2097152) × IsAccepted p
unfolding parse_csv_file
parse_csv_file-IsAccepted byte_length text p h =
    let (small, rest) =
      after_guard (ltb (2 * 1024 * 1024) (byte_length text)) too_large _ p (λ e. cc) h in
    (ground arith, from_records-IsAccepted (records_of text) p rest)
