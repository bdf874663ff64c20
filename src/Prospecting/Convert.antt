-- ===== src/Prospecting/Convert.antt =====
-- A conversion adds one lead, which is noted in its prospect, or is one lead more than the notes.
use klyvero.Common.{
  ℕ, ◌+◌, ◌≤◌, ◌<◌, ◌≡◌, inl, inr, refl, sym, subst, arith, Bool, true, false, ◌&&◌, ◌==◌, List, [],
  ◌∷◌, Option, none, some, Option-cases, Bool-cases, find_first, find_first-holds, update_many,
  update_many-All, count_where, All, All-map, count_where-update_same, All_of_count_zero,
  count_where-pos_of_found,
}
use klyvero.Prospecting.{Prospect, Db, is_converted, converted}
use klyvero.Prospecting.Leads.{convert_found, convert, new_lead}
use klyvero.Prospecting.Import.{IsSound, has_id, has_email, has_phone, has_lead}

abbrev pub led : ℕ → Prospect → Prospect
led lead p = record p { status = converted; converted_lead = some lead }

abbrev pub is_own : ℕ → ℕ → Prospect → Bool
is_own id t p = p.id == id && p.tenant_id == t

update_none :
    (p : Prospect → Bool) (f : Prospect → Prospect) (ps : List Prospect)
    → All (λ x. p x ≡ false) ps
    → count_where has_lead (update_many p f ps) ≡ count_where has_lead ps
unfolding update_many count_where
update_none p f [] h = refl
update_none p f (x ∷ ps) h = let rest = update_none p f ps h.1 in ground arith

-- One prospect more has a lead.
led-count :
    (i t lead : ℕ) (ps : List Prospect) {p : Prospect}
    → find_first (is_own i t) ps ≡ some p
    → p.converted_lead ≡ none
    → count_where (has_id i) ps ≤ 1
    → count_where has_lead (update_many (has_id i) (led lead) ps) ≡ count_where has_lead ps + 1
unfolding update_many count_where find_first
led-count i t lead [] {p} h open' k = cc
led-count i t lead (x ∷ ps) {p} h open' k = elim (Bool-cases (x.id == i)) [
  | inl same ↦
      let alone = All_of_count_zero (has_id i) ps (ground arith) in
      let rest = update_none (has_id i) (led lead) ps alone in
      elim (Bool-cases (x.tenant_id == t)) [
        | inl mine ↦
            let this : x ≡ p = ground arith in
            let free : x.converted_lead ≡ none = rw this open' in ground arith
        | inr theirs ↦
            let later : find_first (is_own i t) ps ≡ some p = ground arith in
            let more =
              count_where-pos_of_found (is_own i t) (has_id i) ps {a = p} (λ y e. ground arith)
                later in
            absurd (ground arith)
      ]
  | inr other ↦
      let rest = led-count i t lead ps {p = p} (ground arith) open' (ground arith) in ground arith
]

lead-IsSound :
    {lost : ℕ} (db : Db) (t i : ℕ) (p : Prospect)
    → find_first (is_own i t) db.prospects ≡ some p
    → p.id ≡ i
    → p.converted_lead ≡ none
    → IsSound lost db
    → IsSound lost (record db {
      leads = new_lead db.next_id t p ∷ db.leads;
      prospects = update_many (has_id i) (led db.next_id) db.prospects;
      next_id = db.next_id + 1;
    })
lead-IsSound db t i p found same open' v = record {
  unique = λ j.
      let e =
        count_where-update_same (has_id j) (has_id i) (led db.next_id) db.prospects (λ q. refl) in
      let before = v.unique j in omega arith;
  fresh =
      update_many-All (λ q. q.id < db.next_id + 1) (has_id i) (led db.next_id) db.prospects
        (λ q lt _. lt)
        (All-map (λ q. q.id < db.next_id) _ db.prospects (λ q lt. omega arith) v.fresh);
  emails = λ u e.
      let k =
        count_where-update_same (has_email u e) (has_id i) (led db.next_id) db.prospects
          (λ q. refl) in
      let before = v.emails u e in omega arith;
  phones = λ u n.
      let k =
        count_where-update_same (has_phone u n) (has_id i) (led db.next_id) db.prospects
          (λ q. refl) in
      let before = v.phones u n in omega arith;
  marked =
      update_many-All (λ q. has_lead q ≡ true → is_converted q.status ≡ true) (has_id i)
        (led db.next_id) db.prospects (λ q k _ lead. refl) v.marked;
  least =
      let one_more = led-count i t db.next_id db.prospects found open' (v.unique i) in
      let before = v.least in omega arith;
  most =
      let one_more = led-count i t db.next_id db.prospects found open' (v.unique i) in
      let before = v.most in omega arith;
}

-- A lead whose note fails is one lead more.
lost-IsSound :
    {lost : ℕ} (db : Db) (t : ℕ) (p : Prospect)
    → IsSound lost db
    → IsSound
        (lost + 1)
        (record db { leads = new_lead db.next_id t p ∷ db.leads; next_id = db.next_id + 1 })
lost-IsSound db t p v = record {
  unique = v.unique;
  fresh = All-map (λ q. q.id < db.next_id) _ db.prospects (λ q lt. omega arith) v.fresh;
  emails = v.emails;
  phones = v.phones;
  marked = v.marked;
  least = let before = v.least in omega arith;
  most = let before = v.most in omega arith;
}

more-IsSound : {lost : ℕ} (n : ℕ) (db : Db) → IsSound lost db → IsSound (lost + n) db
more-IsSound n db v = record {
  unique = v.unique;
  fresh = v.fresh;
  emails = v.emails;
  phones = v.phones;
  marked = v.marked;
  least = v.least;
  most = let before = v.most in omega arith;
}

-- How many leads a conversion may add without a note.
abbrev pub unnoted : Bool → ℕ
unnoted true = 0
unnoted false = 1

convert_found-IsSound :
    {lost : ℕ} (b : Bool) (db : Db) (t i : ℕ) (o : Option Prospect)
    → find_first (is_own i t) db.prospects ≡ o
    → IsSound lost db
    → IsSound (lost + unnoted b) (convert_found b t o db).0
convert_found-IsSound b db t i none e v = more-IsSound (unnoted b) db v
convert_found-IsSound {lost} true db t i (some p) e v =
    let own = find_first-holds (is_own i t) db.prospects e in
    let same : p.id ≡ i = ground arith in
    elim (Option-cases p.converted_lead) [
      | inl open' ↦ rw open' (
          more-IsSound 0 _ (
            subst
              (λ j. IsSound lost (record db {
                leads = new_lead db.next_id t p ∷ db.leads;
                prospects = update_many (has_id j) (led db.next_id) db.prospects;
                next_id = db.next_id + 1;
              }))
              (sym same) (lead-IsSound db t i p e same open' v)))
      | inr (lead, done) ↦ rw done (more-IsSound 0 db v)
    ]
convert_found-IsSound false db t i (some p) e v = elim (Option-cases p.converted_lead) [
  | inl open' ↦ rw open' (lost-IsSound db t p v)
  | inr (lead, done) ↦ rw done (more-IsSound 1 db v)
]

pub convert-IsSound :
    {lost : ℕ} (b : Bool) (t i : ℕ) (db : Db)
    → IsSound lost db
    → IsSound (lost + unnoted b) (convert b t i db).0
unfolding convert
convert-IsSound b t i db v =
    convert_found-IsSound b db t i (find_first (is_own i t) db.prospects) refl v
