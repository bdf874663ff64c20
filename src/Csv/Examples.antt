-- ===== src/Csv/Examples.antt =====
-- Runs of the export and the import on a small table.
use klyvero.Common.{◌≡◌, refl, List, [], ◌∷◌, Text, units, map, ◌++◌}
use klyvero.Csv.{
  semicolon, comma, quote, neutralize, double_quotes, escape_csv, join_with, csv_text,
  parse_delimited, line_from, count_from, detect_delimiter,
}
use klyvero.Csv.RoundTrip.{parse-csv_text}

abbrev header : List Text
header = units "name" ∷ units "note" ∷ []

abbrev body : List (List Text)
body =
    (units "Ana; Silva" ∷ (units "says " ++ quote ∷ units "hi") ∷ [])
    ∷ (units "=1+1" ∷ [] ∷ [])
    ∷ []

parse-csv_text_example :
    parse_delimited (csv_text semicolon (header ∷ body)) semicolon
    ≡ map (map neutralize) (header ∷ body)
parse-csv_text_example =
    parse-csv_text semicolon header body
      record { not_quote = refl; not_feed = refl; not_return = refl } (tt, (tt, (tt, tt)))

exported :
    csv_text semicolon ((units "a;b" ∷ units "=x" ∷ []) ∷ [])
    ≡ quote ∷ units "a;b" ++ quote ∷ units ";'=x"
unfolding csv_text join_with escape_csv double_quotes
exported = refl

detected : detect_delimiter (quote ∷ units "a;b" ++ quote ∷ units ",c,d;e") ≡ comma
unfolding detect_delimiter line_from count_from
detected = refl
