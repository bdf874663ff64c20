-- ===== src/Prospecting/Import.antt =====
-- What every change of the prospects keeps.
use klyvero.Common.{
  ℕ, ◌+◌, ◌≤◌, ◌<◌, ◌≡◌, inl, inr, refl, sym, subst, ap, ◌∙◌, arith, Bool, true, false, ◌&&◌, ◌==◌,
  ==_iff, List, [], ◌∷◌, Option, none, some, Option-cases, Bool-cases, length, find_first-none,
  update_many, update_many-All, count_where, is_some, All, All-map, Text, eq_of_text_eq,
  count_where-update_same, count_zero_of_All,
}
use klyvero.Prospecting.{Person, Row, Prospect, Db, is_converted}
use klyvero.Prospecting.Scoring.{equals, normalize_email, normalize_phone}
use klyvero.Prospecting.Upsert.{
  matches, seen_again, new_prospect, existing, upsert_found, upsert_prospect, upsert_rows,
}

abbrev pub has_id : ℕ → Prospect → Bool
has_id i p = p.id == i

abbrev pub has_email : ℕ → Text → Prospect → Bool
has_email t e p = p.tenant_id == t && equals p.email e

abbrev pub has_phone : ℕ → Text → Prospect → Bool
has_phone t n p = p.tenant_id == t && equals p.phone n

abbrev pub has_lead : Prospect → Bool
has_lead p = is_some p.converted_lead

-- Identifiers are unique and below the next one; no two prospects of a workspace share an address or a
-- phone number; a prospect with a lead is CONVERTED; and each of these
-- has a lead of its own, with no more leads than these and the `lost` ones, whose note failed.
pub record IsSound (lost : ℕ) (db : Db) : Type 0 where
  pub unique : (i : ℕ) → count_where (has_id i) db.prospects ≤ 1
  pub fresh : All (λ p. p.id < db.next_id) db.prospects
  pub emails : (t : ℕ) (e : Text) → count_where (has_email t e) db.prospects ≤ 1
  pub phones : (t : ℕ) (n : Text) → count_where (has_phone t n) db.prospects ≤ 1
  pub marked : All (λ p. has_lead p ≡ true → is_converted p.status ≡ true) db.prospects
  pub least : count_where has_lead db.prospects ≤ length db.leads
  pub most : length db.leads ≤ count_where has_lead db.prospects + lost

pub no_such_id :
    (n : ℕ) (ps : List Prospect) → All (λ p. p.id < n) ps → count_where (has_id n) ps ≡ 0
no_such_id n ps h =
    count_zero_of_All (has_id n) ps (All-map (λ p. p.id < n) _ ps (λ p lt. ground arith) h)

again-IsSound :
    {lost : ℕ} (db : Db) (i : ℕ)
    → IsSound lost db
    → IsSound lost (record db { prospects = update_many (λ p. p.id == i) seen_again db.prospects })
again-IsSound db i v = record {
  unique = λ j.
      let same =
        count_where-update_same (has_id j) (has_id i) seen_again db.prospects (λ p. refl) in
      let before = v.unique j in omega arith;
  fresh =
      update_many-All (λ p. p.id < db.next_id) (has_id i) seen_again db.prospects (λ p lt _. lt)
        v.fresh;
  emails = λ t e.
      let same =
        count_where-update_same (has_email t e) (has_id i) seen_again db.prospects (λ p. refl) in
      let before = v.emails t e in omega arith;
  phones = λ t n.
      let same =
        count_where-update_same (has_phone t n) (has_id i) seen_again db.prospects (λ p. refl) in
      let before = v.phones t n in omega arith;
  marked =
      update_many-All (λ p. has_lead p ≡ true → is_converted p.status ≡ true) (has_id i) seen_again
        db.prospects (λ p k _ lead. still_converted p (k lead)) v.marked;
  least =
      let same = count_where-update_same has_lead (has_id i) seen_again db.prospects (λ p. refl) in
      let before = v.least in omega arith;
  most =
      let same = count_where-update_same has_lead (has_id i) seen_again db.prospects (λ p. refl) in
      let before = v.most in omega arith;
}
  where
    still_converted :
        (p : Prospect) → is_converted p.status ≡ true → is_converted (seen_again p).status ≡ true
    still_converted p h = rw h refl

-- Where nothing matches, no prospect of the workspace has the address or the number.
no_email :
    (t : ℕ) (person : Person) (e : Text) (phone : Option Text) (ps : List Prospect)
    → All (λ p. (p.tenant_id == t && matches (some e) phone person p) ≡ false) ps
    → All (λ p. has_email t e p ≡ false) ps
no_email t person e phone ps h = All-map _ (λ p. has_email t e p ≡ false) ps (λ p k. ground arith) h

no_phone :
    (t : ℕ) (person : Person) (email : Option Text) (n : Text) (ps : List Prospect)
    → All (λ p. (p.tenant_id == t && matches email (some n) person p) ≡ false) ps
    → All (λ p. has_phone t n p ≡ false) ps
no_phone t person email n ps h = All-map _ (λ p. has_phone t n p ≡ false) ps (λ p k. ground arith) h

equals-some : (o : Option Text) (e : Text) → equals o e ≡ true → o ≡ some e
equals-some none e h = cc
equals-some (some x) e h = ap some (eq_of_text_eq x e h)

count-cons-le :
    (p : Prospect → Bool) (q : Prospect) (ps : List Prospect)
    → count_where p ps ≤ 1
    → (p q ≡ true → All (λ x. p x ≡ false) ps)
    → count_where p (q ∷ ps) ≤ 1
unfolding count_where
count-cons-le p q ps before alone = elim (Bool-cases (p q)) [
  | inl hit ↦ let zero' = count_zero_of_All p ps (alone hit) in ground arith
  | inr miss ↦ ground arith
]

module _ (t : ℕ) (person : Person) (email phone : Option Text) (q : Prospect)
    (ps : List Prospect) where
  abbrev NothingMatches : Type 0
  NothingMatches = All (λ p. (p.tenant_id == t && matches email phone person p) ≡ false) ps

  -- A new prospect is the first one with its address, and with its number.
  email-one :
      q.tenant_id ≡ t
      → q.email ≡ email
      → NothingMatches
      → (u : ℕ) (e : Text) → count_where (has_email u e) ps ≤ 1
      → count_where (has_email u e) (q ∷ ps) ≤ 1
  email-one own same h u e before = count-cons-le (has_email u e) q ps before λ hit.
      let mine : q.tenant_id ≡ u = ground arith in
      let given : q.email ≡ some e = equals-some q.email e (ground arith) in
      subst (λ v. All (λ x. has_email v e x ≡ false) ps) (sym own ∙ mine)
        (no_email t person e phone ps (
          subst (λ o. All (λ p. (p.tenant_id == t && matches o phone person p) ≡ false) ps)
            (sym same ∙ given) h))

  phone-one :
      q.tenant_id ≡ t
      → q.phone ≡ phone
      → NothingMatches
      → (u : ℕ) (n : Text) → count_where (has_phone u n) ps ≤ 1
      → count_where (has_phone u n) (q ∷ ps) ≤ 1
  phone-one own same h u n before = count-cons-le (has_phone u n) q ps before λ hit.
      let mine : q.tenant_id ≡ u = ground arith in
      let given : q.phone ≡ some n = equals-some q.phone n (ground arith) in
      subst (λ v. All (λ x. has_phone v n x ≡ false) ps) (sym own ∙ mine)
        (no_phone t person email n ps (
          subst (λ o. All (λ p. (p.tenant_id == t && matches email o person p) ≡ false) ps)
            (sym same ∙ given) h))

add-IsSound :
    {lost : ℕ} (lower : Text → Text) (db : Db) (t : ℕ) (row : Row) (job icp : Option ℕ)
    → All
        (λ p.
          (p.tenant_id == t
            && matches (normalize_email lower row.email) (normalize_phone row.phone) row.person p)
          ≡ false)
        db.prospects
    → IsSound lost db
    → IsSound lost (upsert_found lower db t row job icp none)
unfolding count_where
add-IsSound lower db t row job icp h v =
    let q = new_prospect lower db t row job icp in
    let email = normalize_email lower row.email in
    let phone = normalize_phone row.phone in
    record {
      unique = λ i. count-cons-le (has_id i) q db.prospects (v.unique i) λ hit.
          subst (λ j. All (λ x. has_id j x ≡ false) db.prospects) ((==_iff db.next_id i).0 hit)
            (All-map (λ p. p.id < db.next_id) _ db.prospects (λ p lt. ground arith) v.fresh);
      fresh = (
        omega arith,
        All-map (λ p. p.id < db.next_id) _ db.prospects (λ p lt. omega arith) v.fresh,
      );
      emails =
          λ u e. email-one t row.person email phone q db.prospects refl refl h u e (v.emails u e);
      phones =
          λ u n. phone-one t row.person email phone q db.prospects refl refl h u n (v.phones u n);
      marked = ((λ lead. cc), v.marked);
      least = v.least;
      most = v.most;
    }

pub upsert_prospect-IsSound :
    {lost : ℕ} (lower : Text → Text) (db : Db) (t : ℕ) (row : Row) (job icp : Option ℕ)
    → IsSound lost db
    → IsSound lost (upsert_prospect lower db t row job icp)
unfolding upsert_prospect
upsert_prospect-IsSound lower db t row job icp v = elim (Option-cases (existing lower db t row)) [
  | inl nothing ↦ rw nothing (
      add-IsSound lower db t row job icp
        (find_first-none
          (λ p.
            p.tenant_id == t
            && matches (normalize_email lower row.email) (normalize_phone row.phone) row.person p)
          db.prospects nothing)
        v)
  | inr (p, found) ↦ rw found (again-IsSound db p.id v)
]

pub upsert_rows-IsSound :
    {lost : ℕ} (lower : Text → Text) (refuses : Row → Bool) (t : ℕ) (job icp : Option ℕ)
    (rows : List Row) (db : Db)
    → IsSound lost db
    → IsSound lost (upsert_rows lower refuses t job icp rows db).0
unfolding upsert_rows
upsert_rows-IsSound lower refuses t job icp [] db v = v
upsert_rows-IsSound lower refuses t job icp (row ∷ rows) db v = elim (Bool-cases (refuses row)) [
  | inl stop ↦ rw stop v
  | inr go ↦ rw go (
      upsert_rows-IsSound lower refuses t job icp rows (upsert_prospect lower db t row job icp)
        (upsert_prospect-IsSound lower db t row job icp v))
]
