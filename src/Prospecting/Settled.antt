-- ===== src/Prospecting/Settled.antt =====
-- The jobs of `import` and `providerSearch` in
-- apps/api/src/modules/prospecting/prospecting.service.ts: every one is over when its call is.
use klyvero.Common.{
  ℕ, ◌+◌, ◌≤◌, ◌<◌, ◌≡◌, ◌⊎◌, inl, inr, refl, sym, subst, ◌∙◌, arith, count_where, find_first, ◌&&◌,
  Option-cases, Bool, true, false, ◌==◌, List, [], ◌∷◌, Option, none, some, Bool-cases, All,
  All-map, update_many, Text, units, take, Result, ok, err, length,
}
use klyvero.Usage as Usage
use klyvero.Prospecting.{
  Row, Prospect, Provider, is_converted, Job, JobStatus, queued, running, completed, failed,
  canceled, Db, import_rows, http,
}
use klyvero.Prospecting.Upsert.{existing, upsert_rows, upsert_prospect}
use klyvero.Prospecting.Jobs.{
  Outcome, broken, finish, end_job, fail_job, open_job, import_checked, provider_failed,
  search_counted, search_answered, search_checked,
}
use klyvero.Prospecting.Leads.{convert_found, convert}
use klyvero.Prospecting.Import.{
  has_id, has_email, has_phone, has_lead, IsSound, upsert_rows-IsSound,
}

-- A change of jobs and counters alone.
other-IsSound :
    {lost : ℕ} (db db' : Db)
    → db.prospects ≡ db'.prospects
    → db.leads ≡ db'.leads
    → db.next_id ≤ db'.next_id
    → IsSound lost db
    → IsSound lost db'
other-IsSound {lost} db db' ps ls le v = record {
  unique = λ i. subst (λ xs. count_where (has_id i) xs ≤ 1) ps (v.unique i);
  fresh =
      subst (λ xs. All (λ p. p.id < db'.next_id) xs) ps
        (All-map (λ p. p.id < db.next_id) _ db.prospects (λ p lt. omega arith) v.fresh);
  emails = λ t e. subst (λ xs. count_where (has_email t e) xs ≤ 1) ps (v.emails t e);
  phones = λ t n. subst (λ xs. count_where (has_phone t n) xs ≤ 1) ps (v.phones t n);
  marked = subst (λ xs. All (λ p. has_lead p ≡ true → is_converted p.status ≡ true) xs) ps v.marked;
  least =
      subst (λ xs. count_where has_lead xs ≤ length db'.leads) ps
        (subst (λ ys. count_where has_lead db.prospects ≤ length ys) ls v.least);
  most =
      subst (λ xs. length db'.leads ≤ count_where has_lead xs + lost) ps
        (subst (λ ys. length ys ≤ count_where has_lead db.prospects + lost) ls v.most);
}

abbrev pub ends : JobStatus → Bool
ends queued = false
ends running = false
ends completed = true
ends failed = true
ends canceled = true

-- Every job is over.
abbrev pub AllEnded : Db → Type 0
AllEnded db = All (λ j. ends j.status ≡ true) db.jobs

-- Every job but one may be over.
abbrev AllEndedBut : ℕ → Db → Type 0
AllEndedBut id db = All (λ j. (ends j.status ≡ true) ⊎ ((j.id == id) ≡ true)) db.jobs

ended_job :
    (id : ℕ) (f : Job → Job) (js : List Job)
    → ((j : Job) → ends (f j).status ≡ true)
    → All (λ j. (ends j.status ≡ true) ⊎ ((j.id == id) ≡ true)) js
    → All (λ j. ends j.status ≡ true) (update_many (λ j. j.id == id) f js)
unfolding update_many
ended_job id f [] e h = tt
ended_job id f (j ∷ js) e h = (
  elim (Bool-cases (j.id == id)) [
    | inl this ↦ rw this (e j)
    | inr other ↦ rw other (elim h.0 [ inl done ↦ done | inr this ↦ cc ])
  ],
  ended_job id f js e h.1,
)

upsert-jobs :
    (lower : Text → Text) (db : Db) (t : ℕ) (row : Row) (job icp : Option ℕ)
    → (upsert_prospect lower db t row job icp).jobs ≡ db.jobs
unfolding upsert_prospect
upsert-jobs lower db t row job icp = elim (Option-cases (existing lower db t row)) [
  | inl nothing ↦ rw nothing refl
  | inr (p, found) ↦ rw found refl
]

rows-jobs :
    (lower : Text → Text) (refuses : Row → Bool) (t : ℕ) (job icp : Option ℕ) (rows : List Row)
    (db : Db)
    → (upsert_rows lower refuses t job icp rows db).0.jobs ≡ db.jobs
unfolding upsert_rows
rows-jobs lower refuses t job icp [] db = refl
rows-jobs lower refuses t job icp (row ∷ rows) db = elim (Bool-cases (refuses row)) [
  | inl stop ↦ rw stop refl
  | inr go ↦ rw go (
      rows-jobs lower refuses t job icp rows (upsert_prospect lower db t row job icp)
      ∙ upsert-jobs lower db t row job icp)
]

-- What an operation leaves: a sound database whose jobs are over.
pub record IsSettled (lost : ℕ) (db : Db) : Type 0 where
  pub sound : IsSound lost db
  pub ended : AllEnded db

fail-IsSettled :
    {lost : ℕ} (id : ℕ) (db : Db)
    → IsSound lost db
    → AllEndedBut id db
    → IsSettled lost (fail_job id db)
fail-IsSettled id db v h = record {
  sound = other-IsSound db (fail_job id db) refl refl (omega arith) v;
  ended = ended_job id (λ j. record j { status = failed }) db.jobs (λ j. refl) h;
}

finish-IsSettled :
    {lost : ℕ} (id count : ℕ) (failure : Outcome) (db : Db) (b : Bool)
    → IsSound lost db
    → AllEndedBut id db
    → IsSettled lost (finish id count failure (db, b)).0
finish-IsSettled id count failure db true v h = record {
  sound = other-IsSound db (end_job id completed count db) refl refl (omega arith) v;
  ended =
      ended_job id (λ j. record j { status = completed; result_count = count }) db.jobs (λ j. refl)
        h;
}
finish-IsSettled id count failure db false v h = fail-IsSettled id db v h

rows-IsSettled :
    {lost : ℕ} (lower : Text → Text) (refuses : Row → Bool) (t : ℕ) (job icp : Option ℕ)
    (rows : List Row) (db : Db) (id count : ℕ) (failure : Outcome)
    → IsSound lost db
    → AllEndedBut id db
    → IsSettled lost (finish id count failure (upsert_rows lower refuses t job icp rows db)).0
rows-IsSettled lower refuses t job icp rows db id count failure v h =
    finish-IsSettled id count failure (upsert_rows lower refuses t job icp rows db).0
      (upsert_rows lower refuses t job icp rows db).1
      (upsert_rows-IsSound lower refuses t job icp rows db v)
      (subst (λ js. All (λ j. (ends j.status ≡ true) ⊎ ((j.id == id) ≡ true)) js)
        (sym (rows-jobs lower refuses t job icp rows db)) h)

opened :
    (db : Db) (t : ℕ) (icp : Option ℕ) (provider : Provider)
    → AllEnded db
    → AllEndedBut db.next_id (open_job t icp provider db)
opened db t icp provider h =
    (inr (ground arith), All-map (λ j. ends j.status ≡ true) _ db.jobs (λ j e. inl e) h)

pub import_checked-IsSettled :
    {lost : ℕ} (lower : Text → Text) (refuses : Row → Bool) (t : ℕ) (rows : List Row)
    (icp : Option ℕ) (db : Db) (r : Result Usage.Db)
    → IsSettled lost db
    → IsSettled lost (import_checked lower refuses t rows icp db r).0
import_checked-IsSettled lower refuses t rows icp db (err e) v = v
import_checked-IsSettled lower refuses t rows icp db (ok usage) v =
    let charged : Db = record db { usage = usage } in
    rows-IsSettled lower refuses t (some db.next_id) icp rows (open_job t icp import_rows charged)
      db.next_id (length rows) broken
      (other-IsSound db (open_job t icp import_rows charged) refl refl (omega arith) v.sound)
      (opened charged t icp import_rows v.ended)

search_counted-IsSettled :
    {lost : ℕ} (lower : Text → Text) (refuses : Row → Bool) (t : ℕ) (rows : List Row)
    (icp : Option ℕ) (job : ℕ) (db : Db) (r : Result Usage.Db)
    → IsSound lost db
    → AllEndedBut job db
    → IsSettled lost (search_counted lower refuses t rows icp job db r).0
search_counted-IsSettled lower refuses t rows icp job db (err e) v h = fail-IsSettled job db v h
search_counted-IsSettled lower refuses t rows icp job db (ok usage) v h =
    rows-IsSettled lower refuses t (some job) icp rows (record db { usage = usage }) job
      (length rows) provider_failed
      (other-IsSound db (record db { usage = usage }) refl refl (omega arith) v) h

search_answered-IsSettled :
    {lost : ℕ} (lower : Text → Text) (refuses : Row → Bool) (month : Text) (t : ℕ)
    (answer : Option (List Row)) (icp : Option ℕ) (job : ℕ) (db : Db)
    → IsSound lost db
    → AllEndedBut job db
    → IsSettled lost (search_answered lower refuses month t answer icp job db).0
search_answered-IsSettled lower refuses month t none icp job db v h = fail-IsSettled job db v h
search_answered-IsSettled lower refuses month t (some rows) icp job db v h =
    search_counted-IsSettled lower refuses t (take 5000 rows) icp job db
      (Usage.assert_and_increment db.usage t (units "prospects") (length (take 5000 rows)) month) v
      h

pub search_checked-IsSettled :
    {lost : ℕ} (lower : Text → Text) (refuses : Row → Bool) (month : Text) (t : ℕ)
    (answer : Option (List Row)) (icp : Option ℕ) (db : Db) (r : Result (Unit {0}))
    → IsSettled lost db
    → IsSettled lost (search_checked lower refuses month t answer icp db r).0
search_checked-IsSettled lower refuses month t answer icp db (err e) v = v
search_checked-IsSettled lower refuses month t answer icp db (ok u) v =
    search_answered-IsSettled lower refuses month t answer icp db.next_id (open_job t icp http db)
      (other-IsSound db (open_job t icp http db) refl refl (omega arith) v.sound)
      (opened db t icp http v.ended)

pub convert-jobs : (b : Bool) (t i : ℕ) (db : Db) → (convert b t i db).0.jobs ≡ db.jobs
unfolding convert
convert-jobs b t i db = found-jobs b (find_first (λ p. p.id == i && p.tenant_id == t) db.prospects)
  where
    found-jobs : (b : Bool) (o : Option Prospect) → (convert_found b t o db).0.jobs ≡ db.jobs
    found-jobs b none = refl
    found-jobs true (some p) = elim (Option-cases p.converted_lead) [
      | inl open' ↦ rw open' refl
      | inr (lead, done) ↦ rw done refl
    ]
    found-jobs false (some p) = elim (Option-cases p.converted_lead) [
      | inl open' ↦ rw open' refl
      | inr (lead, done) ↦ rw done refl
    ]
