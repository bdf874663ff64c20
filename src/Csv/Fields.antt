-- ===== src/Csv/Fields.antt =====
-- How the parser reads one field that was escaped.
use klyvero.Common.{
  ℕ, ◌≡◌, ◌⊎◌, refl, sym, ap, ◌∙◌, inl, inr, arith, true, false, List, [], ◌∷◌, ◌++◌, Text, ◌==◌,
  ==_iff, if◌then◌else◌, Bool-cases,
}
use klyvero.Csv.{
  quote, line_feed, carriage_return, neutralize, has, double_quotes, needs_quotes, escape_csv,
  next_is, Reading, reading, parse_from,
}
use mathlib.Core.List.{append_assoc, append-nil}

-- A unit that may separate fields.
pub record IsDelimiter (d : ℕ) : Type 0 where
  pub not_quote : (d == quote) ≡ false
  pub not_feed : (d == line_feed) ≡ false
  pub not_return : (d == carriage_return) ≡ false

reading-plain :
    (d c : ℕ) (v s : Text) → needs_quotes d (c ∷ v) ≡ false → reading d false c s ≡ Reading.plain
unfolding reading
reading-plain d c v s h = ground arith

needs_quotes-tail : (d c : ℕ) (v : Text) → needs_quotes d (c ∷ v) ≡ false → needs_quotes d v ≡ false
needs_quotes-tail d c v h = ground arith

reading-quoted : (d c : ℕ) (s : Text) → (c == quote) ≡ false → reading d true c s ≡ Reading.plain
unfolding reading
reading-quoted d c s h = rw h refl

snoc_append : (cell v : Text) (c : ℕ) → (cell ++ c ∷ []) ++ v ≡ cell ++ c ∷ v
snoc_append cell v c = append_assoc cell (c ∷ []) v

double_quotes_none : (v : Text) → has quote v ≡ false → double_quotes v ≡ v
unfolding double_quotes
double_quotes_none [] h = refl
double_quotes_none (c ∷ v) h = ground (arith, double_quotes_none v)

has-double_quotes : (v : Text) → has quote v ≡ true → has quote (double_quotes v) ≡ true
unfolding double_quotes
has-double_quotes [] h = cc
has-double_quotes (c ∷ v) h = ground (arith, has-double_quotes v)

needs_quotes-quote : (d : ℕ) (v : Text) → has quote v ≡ true → needs_quotes d v ≡ true
needs_quotes-quote d v h = ground arith

-- An escaped field is in quotes with its own quotes doubled, or it is as it was and needs none.
pub escape_csv-cases :
    (value : Text) (d : ℕ)
    → (escape_csv value d ≡ quote ∷ (double_quotes (neutralize value) ++ quote ∷ []))
      ⊎ ((escape_csv value d ≡ neutralize value) × (needs_quotes d (neutralize value) ≡ false))
unfolding escape_csv
escape_csv-cases value d = cases (neutralize value)
  where
    cases :
        (safe : Text)
        → ((if needs_quotes d (if has quote safe then double_quotes safe else safe)
              then quote ∷ ((if has quote safe then double_quotes safe else safe) ++ quote ∷ [])
              else (if has quote safe then double_quotes safe else safe))
            ≡ quote ∷ (double_quotes safe ++ quote ∷ []))
          ⊎ (((if needs_quotes d (if has quote safe then double_quotes safe else safe)
                  then quote ∷ ((if has quote safe then double_quotes safe else safe) ++ quote ∷ [])
                  else (if has quote safe then double_quotes safe else safe))
                ≡ safe)
              × (needs_quotes d safe ≡ false))
    cases safe = elim (Bool-cases (has quote safe)) [
      | inl e ↦
          inl (rw (e, needs_quotes-quote d (double_quotes safe) (has-double_quotes safe e)) refl)
      | inr e ↦ elim (Bool-cases (needs_quotes d safe)) [
        | inl f ↦ inl (rw (e, f, double_quotes_none safe e) refl)
        | inr f ↦ inr (rw (e, f) refl, f)
      ]
    ]

module _ (d : ℕ) (row : List Text) (rows : List (List Text)) where
  pub parse-plain :
      (cell v rest : Text)
      → needs_quotes d v ≡ false
      → parse_from d false false cell row rows (v ++ rest)
        ≡ parse_from d false false (cell ++ v) row rows rest
  unfolding parse_from
  parse-plain cell [] rest h =
      ap (λ x. parse_from d false false x row rows rest) (sym (append-nil cell))
  parse-plain cell (c ∷ v) rest h =
      rw (parse_from, reading-plain d c v (v ++ rest) h)
        (parse-plain (cell ++ c ∷ []) v rest (needs_quotes-tail d c v h)
          ∙ ap (λ x. parse_from d false false x row rows rest) (snoc_append cell v c))

  pub parse-quoted :
      (cell v rest : Text)
      → next_is quote rest ≡ false
      → parse_from d false true cell row rows (double_quotes v ++ quote ∷ rest)
        ≡ parse_from d false false (cell ++ v) row rows rest
  unfolding parse_from reading double_quotes
  parse-quoted cell [] rest h =
      rw (parse_from, h)
        (ap (λ x. parse_from d false false x row rows rest) (sym (append-nil cell)))
  parse-quoted cell (c ∷ v) rest h = elim (Bool-cases (c == quote)) [
    | inl e ↦
        let same : c ≡ quote = (==_iff c quote).0 e in
        rw (parse_from, e)
          (parse-quoted (cell ++ quote ∷ []) v rest h
            ∙ ap (λ x. parse_from d false false x row rows rest)
                (snoc_append cell v quote ∙ ap (λ x. cell ++ x ∷ v) (sym same)))
    | inr e ↦
        rw (parse_from, e, reading-quoted d c (double_quotes v ++ quote ∷ rest) e)
          (parse-quoted (cell ++ c ∷ []) v rest h
            ∙ ap (λ x. parse_from d false false x row rows rest) (snoc_append cell v c))
  ]

  -- A field is read back as it was before the quotes, whatever follows it but a quote.
  pub parse-escape_csv :
      (value rest : Text)
      → next_is quote rest ≡ false
      → parse_from d false false [] row rows (escape_csv value d ++ rest)
        ≡ parse_from d false false (neutralize value) row rows rest
  unfolding parse_from reading
  parse-escape_csv value rest h = elim (escape_csv-cases value d) [
    | inl e ↦
        ap (λ x. parse_from d false false [] row rows (x ++ rest)) e
        ∙ ap (λ x. parse_from d false true [] row rows x)
            (append_assoc (double_quotes (neutralize value)) (quote ∷ []) rest)
        ∙ parse-quoted [] (neutralize value) rest h
    | inr (e, f) ↦
        ap (λ x. parse_from d false false [] row rows (x ++ rest)) e
        ∙ parse-plain [] (neutralize value) rest f
  ]
