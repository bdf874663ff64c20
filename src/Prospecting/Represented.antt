-- ===== src/Prospecting/Represented.antt =====
-- What a successful import leaves of its rows.
use klyvero.Common.{
  ℕ, ◌≤◌, ◌≡◌, inl, inr, refl, sym, subst, ap, ◌∙◌, arith, Bool, true, false, ◌&&◌, ◌||◌, ◌==◌,
  ==_refl, List, [], ◌∷◌, Option, none, some, Option-cases, Bool-cases, length, count_where,
  is_some, All, Text, text_eq_refl, Result, ok, err, count_where-update_same,
  count_where-pos_of_found,
}
use klyvero.Usage as Usage
use klyvero.Prospecting.{Person, Row, Prospect, Db, import_rows}
use klyvero.Prospecting.Scoring.{fits, is_given, normalize_email, normalize_phone}
use klyvero.Prospecting.Upsert.{
  matches, seen_again, new_prospect, existing, upsert_prospect, upsert_rows,
}
use klyvero.Prospecting.Jobs.{
  Outcome, processed, broken, finish, open_job, import_checked, import_prospects,
}

-- A row that names a person: by an address, a number, or a company and a first name.
abbrev pub is_identified : (Text → Text) → Row → Bool
is_identified lower row =
    is_some (normalize_email lower row.email)
    || is_some (normalize_phone row.phone)
    || (is_given row.person.company_name && is_given row.person.first_name)

-- A prospect of the workspace that the search for the row finds.
abbrev pub stands_for : (Text → Text) → ℕ → Row → Prospect → Bool
stands_for lower t row p =
    p.tenant_id == t
    && matches (normalize_email lower row.email) (normalize_phone row.phone) row.person p

fits_self : (o : Option Text) → fits o o ≡ true
fits_self none = refl
fits_self (some s) = text_eq_refl s

matches_self :
    (email phone : Option Text) (person : Person) (q : Prospect)
    → q.email ≡ email
    → q.phone ≡ phone
    → q.person ≡ person
    → (is_some email
        || is_some phone
        || (is_given person.company_name && is_given person.first_name))
      ≡ true
    → matches email phone person q ≡ true
matches_self (some e) phone person q he hp hn h =
    let same = ap (λ o. fits o (some e)) he ∙ fits_self (some e) in ground arith
matches_self none (some n) person q he hp hn h =
    let same = ap (λ o. fits o (some n)) hp ∙ fits_self (some n) in ground arith
matches_self none none person q he hp hn h =
    let company =
      ap (λ x. fits x.company_name person.company_name) hn ∙ fits_self person.company_name in
    let first = ap (λ x. fits x.first_name person.first_name) hn ∙ fits_self person.first_name in
    let last = ap (λ x. fits x.last_name person.last_name) hn ∙ fits_self person.last_name in
    ground arith

count-cons-ge :
    (p : Prospect → Bool) (q : Prospect) (ps : List Prospect)
    → p q ≡ true
    → 1 ≤ count_where p (q ∷ ps)
unfolding count_where
count-cons-ge p q ps h = ground arith

count-le-cons :
    (p : Prospect → Bool) (q : Prospect) (ps : List Prospect)
    → count_where p ps ≤ count_where p (q ∷ ps)
unfolding count_where
count-le-cons p q ps = ground arith

both : (t : ℕ) (b : Bool) → b ≡ true → (t == t && b) ≡ true
both t b h = rw (==_refl t, h) refl

module _ (lower : Text → Text) (t : ℕ) where
  abbrev stored : Row → Db → ℕ
  stored row db = count_where (stands_for lower t row) db.prospects

  upsert-represents :
      (db : Db) (row : Row) (job icp : Option ℕ)
      → is_identified lower row ≡ true
      → 1 ≤ stored row (upsert_prospect lower db t row job icp)
  unfolding upsert_prospect
  upsert-represents db row job icp h = elim (Option-cases (existing lower db t row)) [
    | inl nothing ↦ rw nothing (
        count-cons-ge (stands_for lower t row) (new_prospect lower db t row job icp) db.prospects (
          both t _ (
            matches_self (normalize_email lower row.email) (normalize_phone row.phone) row.person
              (new_prospect lower db t row job icp) refl refl refl h)))
    | inr (p, found) ↦ rw found (
        let same =
          count_where-update_same (stands_for lower t row) (λ q. q.id == p.id) seen_again
            db.prospects (λ q. refl) in
        let some_row =
          count_where-pos_of_found (stands_for lower t row) (stands_for lower t row) db.prospects
            {a = p} (λ q e. e) found in
        omega arith)
  ]

  upsert-keeps :
      (db : Db) (row other : Row) (job icp : Option ℕ)
      → stored other db ≤ stored other (upsert_prospect lower db t row job icp)
  unfolding upsert_prospect
  upsert-keeps db row other job icp = elim (Option-cases (existing lower db t row)) [
    | inl nothing ↦ rw nothing (
        count-le-cons (stands_for lower t other) (new_prospect lower db t row job icp) db.prospects)
    | inr (p, found) ↦ rw found (
        let same =
          count_where-update_same (stands_for lower t other) (λ q. q.id == p.id) seen_again
            db.prospects (λ q. refl) in
        omega arith)
  ]

  rows-keep :
      (refuses : Row → Bool) (job icp : Option ℕ) (rows : List Row) (db : Db) (other : Row)
      → stored other db ≤ stored other (upsert_rows lower refuses t job icp rows db).0
  unfolding upsert_rows
  rows-keep refuses job icp [] db other = omega arith
  rows-keep refuses job icp (row ∷ rows) db other = elim (Bool-cases (refuses row)) [
    | inl stop ↦ rw stop (omega arith)
    | inr go ↦ rw go (
        omega (
          arith,
          rows-keep refuses job icp rows (upsert_prospect lower db t row job icp) other,
          upsert-keeps db row other job icp,
        ))
  ]

  rows_step :
      (refuses : Row → Bool) (job icp : Option ℕ) (row : Row) (rows : List Row) (db : Db)
      → refuses row ≡ false
      → upsert_rows lower refuses t job icp (row ∷ rows) db
        ≡ upsert_rows lower refuses t job icp rows (upsert_prospect lower db t row job icp)
  unfolding upsert_rows
  rows_step refuses job icp row rows db go = rw go refl

  rows-accepted :
      (refuses : Row → Bool) (job icp : Option ℕ) (row : Row) (rows : List Row) (db : Db)
      → (upsert_rows lower refuses t job icp (row ∷ rows) db).1 ≡ true
      → refuses row ≡ false
  unfolding upsert_rows
  rows-accepted refuses job icp row rows db h = elim (Bool-cases (refuses row)) [
    | inl stop ↦ let wrong = rw stop at h in cc
    | inr go ↦ go
  ]

  pub rows-represented :
      (refuses : Row → Bool) (job icp : Option ℕ) (rows : List Row) (db : Db)
      → (upsert_rows lower refuses t job icp rows db).1 ≡ true
      → All
          (λ row.
            is_identified lower row ≡ true
            → 1 ≤ stored row (upsert_rows lower refuses t job icp rows db).0)
          rows
  rows-represented refuses job icp [] db h = tt
  rows-represented refuses job icp (row ∷ rows) db h =
      let go = rows-accepted refuses job icp row rows db h in
      let step = rows_step refuses job icp row rows db go in
      let next = upsert_prospect lower db t row job icp in
      subst (λ x. All (λ r. is_identified lower r ≡ true → 1 ≤ stored r x.0) (row ∷ rows))
        (sym step)
        (
          (λ named.
              let first = upsert-represents db row job icp named in
              let later = rows-keep refuses job icp rows next row in omega arith),
          rows-represented refuses job icp rows next (ap (λ x. x.1) (sym step) ∙ h),
        )

finish-processed :
    (id count n : ℕ) (r : Db × Bool)
    → (finish id count broken r).1 ≡ processed n
    → (r.1 ≡ true) × (count ≡ n)
finish-processed id count n (db, true) h = (refl, cc)
finish-processed id count n (db, false) h = cc

finish-prospects :
    (id count : ℕ) (failure : Outcome) (r : Db × Bool)
    → (finish id count failure r).0.prospects ≡ r.0.prospects
finish-prospects id count failure (db, true) = refl
finish-prospects id count failure (db, false) = refl

import_checked-represented :
    (lower : Text → Text) (refuses : Row → Bool) (t : ℕ) (rows : List Row) (icp : Option ℕ)
    (db : Db) (r : Result Usage.Db) (n : ℕ)
    → (import_checked lower refuses t rows icp db r).1 ≡ processed n
    → (n ≡ length rows)
      × All
          (λ row.
            is_identified lower row ≡ true
            → 1 ≤ stored lower t row (import_checked lower refuses t rows icp db r).0)
          rows
import_checked-represented lower refuses t rows icp db (err e) n h = cc
import_checked-represented lower refuses t rows icp db (ok usage) n h =
    let opened = open_job t icp import_rows (record db { usage = usage }) in
    let out = upsert_rows lower refuses t (some db.next_id) icp rows opened in
    let (done, count) = finish-processed db.next_id (length rows) n out h in
    (
      sym count,
      subst
          (λ ps.
            All
              (λ row. is_identified lower row ≡ true → 1 ≤ count_where (stands_for lower t row) ps)
              rows)
          (sym (finish-prospects db.next_id (length rows) broken out))
          (rows-represented lower t refuses (some db.next_id) icp rows opened done),
    )

-- After an import that succeeds, it has processed all its rows, and for each row that gives an address,
-- a number, or a company and a first name, the workspace has a prospect that the row is found by.
pub import-represented :
    (lower : Text → Text) (refuses : Row → Bool) (month : Text) (t : ℕ) (rows : List Row)
    (icp : Option ℕ) (db : Db) (n : ℕ)
    → (import_prospects lower refuses month t rows icp db).1 ≡ processed n
    → (n ≡ length rows)
      × All
          (λ row.
            is_identified lower row ≡ true
            → 1
              ≤ count_where
                  (stands_for lower t row)
                  (import_prospects lower refuses month t rows icp db).0.prospects)
          rows
unfolding import_prospects
import-represented lower refuses month t rows icp db n h =
    import_checked-represented lower refuses t rows icp db _ n h
