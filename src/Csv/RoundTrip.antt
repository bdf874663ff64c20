-- ===== src/Csv/RoundTrip.antt =====
-- What an export writes is what an import reads.
use klyvero.Common.{
  ℕ, ◌≡◌, refl, sym, ap, ◌∙◌, inl, inr, arith, false, List, [], ◌∷◌, ◌++◌, Text, ◌==◌, ==_refl, map,
  All,
}
use klyvero.Csv.{
  quote, line_feed, carriage_return, is_formula, neutralize, escape_csv, next_is, reading,
  parse_from, parse_delimited, join_with, csv_text,
}
use klyvero.Csv.Fields.{IsDelimiter, escape_csv-cases, parse-escape_csv}
use mathlib.Core.List.{append_assoc, append-nil}

abbrev escape_row : ℕ → List Text → Text
escape_row d row = join_with (d ∷ []) (map (λ v. escape_csv v d) row)

module _ (d : ℕ) (del : IsDelimiter d) (rows : List (List Text)) where
  -- The fields of a line, up to the last one of them.
  parse-row :
      (row : List Text) (v : Text) (vs : List Text) (rest : Text)
      → next_is quote rest ≡ false
      → (last : Text) × (done : List Text) × (done ++ last ∷ [] ≡ row ++ map neutralize (v ∷ vs))
        × (parse_from d false false [] row rows (escape_row d (v ∷ vs) ++ rest)
            ≡ parse_from d false false last done rows rest)
  unfolding join_with parse_from reading
  parse-row row v [] rest h = (neutralize v, row, refl, parse-escape_csv d row rows v rest h)
  parse-row row v (w ∷ vs) rest h =
      let more = escape_row d (w ∷ vs) ++ rest in
      let (last, done, same, rec) = parse-row (row ++ neutralize v ∷ []) w vs rest h in
      (
        last,
        done,
        same ∙ append_assoc row (neutralize v ∷ []) (map neutralize (w ∷ vs)),
        ap (λ x. parse_from d false false [] row rows x)
              (append_assoc (escape_csv v d) (d ∷ escape_row d (w ∷ vs)) rest)
            ∙ parse-escape_csv d row rows v (d ∷ more) del.not_quote
            ∙ rw (parse_from, del.not_quote, ==_refl d) rec,
      )

abbrev pub IsFull : List Text → Type 0
IsFull [] = ⊥
IsFull (v ∷ vs) = Unit

-- The end of the text ends the last line.
parse-end :
    (d : ℕ) (last : Text) (done : List Text) (rows : List (List Text))
    → parse_from d false false last done rows [] ≡ rows ++ (done ++ last ∷ []) ∷ []
unfolding parse_from
parse-end d last done rows = refl

-- A line break ends a line.
parse-break :
    (d : ℕ) (del : IsDelimiter d) (last : Text) (done : List Text) (rows : List (List Text))
    (rest : Text)
    → parse_from d false false last done rows (carriage_return ∷ line_feed ∷ rest)
      ≡ parse_from d false false [] [] (rows ++ (done ++ last ∷ []) ∷ []) rest
unfolding parse_from reading
parse-break d del last done rows rest = rw (parse_from, swapped d del.not_return) refl
  where
    swapped : (d : ℕ) → (d == carriage_return) ≡ false → (carriage_return == d) ≡ false
    swapped d h = ground arith

-- The lines of an export.
parse-lines :
    (d : ℕ) (del : IsDelimiter d) (rows : List (List Text)) (r : List Text) (rs : List (List Text))
    → All IsFull (r ∷ rs)
    → parse_from d false false [] [] rows (csv_text d (r ∷ rs))
      ≡ rows ++ map (map neutralize) (r ∷ rs)
unfolding csv_text join_with
parse-lines d del rows [] rs (f, fs) = elim f [ ]
parse-lines d del rows (v ∷ vs) [] (f, fs) =
    let (last, done, same, rec) = parse-row d del rows [] v vs [] refl in
    ap (λ x. parse_from d false false [] [] rows x) (sym (append-nil (escape_row d (v ∷ vs))))
    ∙ rec
    ∙ parse-end d last done rows
    ∙ ap (λ x. rows ++ x ∷ []) same
parse-lines d del rows (v ∷ vs) (r ∷ rs) (f, fs) =
    let rest = csv_text d (r ∷ rs) in
    let (last, done, same, rec) =
      parse-row d del rows [] v vs (carriage_return ∷ line_feed ∷ rest) refl in
    rec
    ∙ parse-break d del last done rows rest
    ∙ parse-lines d del (rows ++ (done ++ last ∷ []) ∷ []) r rs fs
    ∙ append_assoc rows ((done ++ last ∷ []) ∷ []) (map (map neutralize) (r ∷ rs))
    ∙ ap (λ x. rows ++ x ∷ map (map neutralize) (r ∷ rs)) same

-- Reading the text of an export with its delimiter gives back its rows, each field with the
-- apostrophe that an export sets before a formula and otherwise unchanged: quotes, delimiters and
-- line breaks inside a field survive. The rows have one field at least.
pub parse-csv_text :
    (d : ℕ) (r : List Text) (rs : List (List Text))
    → IsDelimiter d
    → All IsFull (r ∷ rs)
    → parse_delimited (csv_text d (r ∷ rs)) d ≡ map (map neutralize) (r ∷ rs)
unfolding parse_delimited
parse-csv_text d r rs del f = parse-lines d del [] r rs f

-- No field of an export begins with a sign that a spreadsheet takes for a formula.
pub is_formula-escape_csv : (value : Text) (d : ℕ) → is_formula (escape_csv value d) ≡ false
is_formula-escape_csv value d = elim (escape_csv-cases value d) [
  | inl e ↦ ap is_formula e
  | inr (e, f) ↦ ap is_formula e ∙ neutral value
]
  where
    neutral : (value : Text) → is_formula (neutralize value) ≡ false
    neutral value = ground arith
