-- ===== src/Campaign/Scheduler/Claiming.antt =====
-- What a claim takes: due runs of active enrollments in active campaigns, the oldest first, and no
-- more than it is asked for.
use klyvero.Common.{
  ℕ, zero, suc, ◌≤◌, ◌+◌, ◌≡◌, refl, ap, ◌==◌, any, Bool, if◌then◌else◌, update_many,
  length-update_many, ◌⊎◌, inl, inr, true, List, [], ◌∷◌, some, map, arith, Option-cases, All,
  All-map, All-zip, take, length, select, order_by, order_by-IsSorted, IsSorted, order_by-All,
  All-order_by, select-All, select-holds, All-select, All-self, Memᴰ, length-take-le,
}
use klyvero.Campaign.Model.{
  StepRun, Enrollment, Campaign, Db, RunStatus, EnrollmentStatus, CampaignStatus,
}
use klyvero.Campaign.Scheduler.{find_enrollment, find_campaign, is_due, due_runs, claim_run, claim}

-- A run that may be claimed, in the words of the statement: it waits, its time has come, and it
-- belongs to an active enrollment of an active campaign.
pub record Due (db : Db) (now : ℕ) (r : StepRun) : Type 0 where
  pub waiting : r.status ≡ RunStatus.queued
  pub reached : r.scheduled_at ≤ now
  pub enrollment : Enrollment
  pub joined : find_enrollment db r.enrollment_id ≡ some enrollment
  pub going : enrollment.status ≡ EnrollmentStatus.active
  pub campaign : Campaign
  pub owner : find_campaign db enrollment.campaign_id ≡ some campaign
  pub started : campaign.status ≡ CampaignStatus.active

is_due-Due : (db : Db) (now : ℕ) (r : StepRun) → is_due db now r ≡ true → Due db now r
is_due-Due db now r h = elim (Option-cases (find_enrollment db r.enrollment_id)) [
  | inl e ↦ absurd (ground arith)
  | inr (en, e) ↦ elim (Option-cases (find_campaign db en.campaign_id)) [
    | inl c ↦ absurd (ground arith)
    | inr (ca, c) ↦ record {
      waiting = ground arith;
      reached = ground arith;
      enrollment = en;
      joined = e;
      going = ground arith;
      campaign = ca;
      owner = c;
      started = ground arith;
    }
  ]
]

Due-is_due : (db : Db) (now : ℕ) (r : StepRun) → Due db now r → is_due db now r ≡ true
Due-is_due db now r d = ground (arith, d.waiting, d.joined, d.owner, d.going, d.started, d.reached)

module _ {ℓ} {A : Type ℓ} (key : A → ℕ) where
  abbrev Placed : List A → A → Type ℓ
  Placed taken y = Memᴰ y taken ⊎ All (λ q. key q ≤ key y) taken

  Placed-cons : (x y : A) (taken : List A) → key x ≤ key y → Placed taken y → Placed (x ∷ taken) y
  Placed-cons x y taken h (inl m) = inl (Memᴰ.tail m)
  Placed-cons x y taken h (inr a) = inr (h, a)

  -- The first of a sorted list are no later than the others.
  take-oldest : (n : ℕ) (xs : List A) → IsSorted key xs → All (Placed (take n xs)) xs
  take-oldest n [] h = tt
  take-oldest zero (x ∷ xs) h = (inr tt, All-map (λ y. key x ≤ key y) _ xs (λ y _. inr tt) h.0)
  take-oldest (suc n) (x ∷ xs) h = (
    inl (Memᴰ.head refl),
    All-zip (λ y. key x ≤ key y) (Placed (take n xs)) (Placed (x ∷ take n xs)) xs
        (λ y le p. Placed-cons x y (take n xs) le p) h.0 (take-oldest n xs h.1),
  )

pub record IsOldestDue (db : Db) (now limit : ℕ) : Type 0 where
  pub bounded : length (claim db now limit).1 ≤ limit
  pub due :
      All (λ i. (r : StepRun) × (r.id ≡ i) × (Memᴰ r db.runs × Due db now r)) (claim db now limit).1
  pub oldest :
      All
        (λ r.
          Due db now r
          → Memᴰ r.id (claim db now limit).1
            ⊎ All
                (λ i.
                  (q : StepRun) × (q.id ≡ i) × (Memᴰ q db.runs × (q.scheduled_at ≤ r.scheduled_at)))
                (claim db now limit).1)
        db.runs
  pub moved :
      All
        (λ r.
          Memᴰ
            (if any (λ i. i == r.id) (claim db now limit).1
              then record r {
                status = RunStatus.running;
                started_at = some now;
                attempts = r.attempts + 1;
              }
              else r)
            (claim db now limit).0.runs)
        db.runs
  pub as_many : length (claim db now limit).0.runs ≡ length db.runs
  pub rest : (claim db now limit).0 ≡ record db { runs = (claim db now limit).0.runs }

length-map-le {ℓ κ} :
    {A : Type ℓ} {B : Type κ} (f : A → B) (xs : List A) (n : ℕ)
    → length xs ≤ n
    → length (map f xs) ≤ n
length-map-le f [] n h = h
length-map-le f (x ∷ xs) zero h = absurd (omega arith)
length-map-le f (x ∷ xs) (suc n) h =
    let rest : length (map f xs) ≤ n = length-map-le f xs n (omega arith) in omega arith

take-All {ℓ κ} : {A : Type ℓ} (P : A → Type κ) (n : ℕ) (xs : List A) → All P xs → All P (take n xs)
take-All P zero xs h = tt
take-All P (suc n) [] h = tt
take-All P (suc n) (x ∷ xs) h = (h.0, take-All P n xs h.1)

-- What holds of every due row of the table holds of the rows that a claim takes.
due_runs-All :
    (P : StepRun → Type 0) (db : Db) (now limit : ℕ) → All P db.runs → All P (due_runs db now limit)
unfolding due_runs
due_runs-All P db now limit h =
    take-All P limit (order_by key rows) (order_by-All P key rows (select-All P _ db.runs h))
  where
    key : StepRun → ℕ
    key r = r.scheduled_at

    rows : List StepRun
    rows = select (is_due db now) db.runs

due_runs-Due : (db : Db) (now limit : ℕ) → All (Due db now) (due_runs db now limit)
unfolding due_runs
due_runs-Due db now limit = take-All (Due db now) limit _ (
    order_by-All (Due db now) (λ r. r.scheduled_at) _
      (All-map (λ r. is_due db now r ≡ true) (Due db now) _ (is_due-Due db now)
        (select-holds (is_due db now) db.runs)))

All-ids :
    (P : StepRun → Type 0) (rs : List StepRun)
    → All P rs
    → All (λ i. (r : StepRun) × (r.id ≡ i) × P r) (map (λ r. r.id) rs)
All-ids P [] h = tt
All-ids P (r ∷ rs) h = ((r, refl, h.0), All-ids P rs h.1)

due_runs-oldest :
    (db : Db) (now limit : ℕ)
    → All (λ r. Due db now r → Placed (λ q. q.scheduled_at) (due_runs db now limit) r) db.runs
unfolding due_runs
due_runs-oldest db now limit =
    let key = λ (r : StepRun). r.scheduled_at in
    let rows = select (is_due db now) db.runs in
    All-map (λ r. is_due db now r ≡ true → Placed key (take limit (order_by key rows)) r)
      (λ r. Due db now r → Placed key (take limit (order_by key rows)) r) db.runs
      (λ r h d. h (Due-is_due db now r d))
      (All-select (Placed key (take limit (order_by key rows))) (is_due db now) db.runs (
        All-order_by (Placed key (take limit (order_by key rows))) key rows
          (take-oldest key limit (order_by key rows) (order_by-IsSorted key rows))))

length-due_runs : (db : Db) (now limit : ℕ) → length (due_runs db now limit) ≤ limit
unfolding due_runs
length-due_runs db now limit = length-take-le limit _

Mem-map : {A B : Type 0} (f : A → B) (xs : List A) (a : A) → Memᴰ a xs → Memᴰ (f a) (map f xs)
Mem-map f [] a m = elim m [ ]
Mem-map f (x ∷ xs) a (Memᴰ.head e) = Memᴰ.head (ap f e)
Mem-map f (x ∷ xs) a (Memᴰ.tail m) = Memᴰ.tail (Mem-map f xs a m)

Mem-update :
    (p : StepRun → Bool) (f : StepRun → StepRun) (rs : List StepRun)
    → All (λ r. Memᴰ (if p r then f r else r) (update_many p f rs)) rs
unfolding update_many
Mem-update p f [] = tt
Mem-update p f (r ∷ rs) = (
  Memᴰ.head refl,
  All-map (λ x. Memᴰ (if p x then f x else x) (update_many p f rs)) _ rs (λ x m. Memᴰ.tail m)
      (Mem-update p f rs),
)

-- The rows that are taken, by their identifiers.
taken_ids :
    (db : Db) (now limit : ℕ) (r : StepRun)
    → Placed (λ q. q.scheduled_at) (due_runs db now limit) r
    → Memᴰ r.id (map (λ x. x.id) (due_runs db now limit))
      ⊎ All
          (λ i. (q : StepRun) × (q.id ≡ i) × (Memᴰ q db.runs × (q.scheduled_at ≤ r.scheduled_at)))
          (map (λ x. x.id) (due_runs db now limit))
taken_ids db now limit r (inl m) = inl (Mem-map (λ x. x.id) (due_runs db now limit) r m)
taken_ids db now limit r (inr a) = inr (
    All-ids (λ q. Memᴰ q db.runs × (q.scheduled_at ≤ r.scheduled_at)) (due_runs db now limit)
      (All-zip (λ q. Memᴰ q db.runs) (λ q. q.scheduled_at ≤ r.scheduled_at)
        (λ q. Memᴰ q db.runs × (q.scheduled_at ≤ r.scheduled_at)) (due_runs db now limit)
        (λ q m l. (m, l)) (due_runs-All (λ q. Memᴰ q db.runs) db now limit (All-self db.runs)) a))

-- A claim takes at most `limit` runs; each is a row of the table that waits, whose time has come,
-- and whose enrollment and campaign are active; and a run of that kind that is not taken is
-- scheduled no earlier than every one that is. Of the runs of the table those with a taken
-- identifier are RUNNING since the time of the claim afterwards, with one attempt more, and all
-- others, and all other tables, are as they were.
pub claim-IsOldestDue : (db : Db) (now limit : ℕ) → IsOldestDue db now limit
unfolding claim
claim-IsOldestDue db now limit = record {
  bounded = length-map-le (λ r. r.id) (due_runs db now limit) limit (length-due_runs db now limit);
  due =
      All-ids (λ r. Memᴰ r db.runs × Due db now r) (due_runs db now limit)
        (All-zip (λ r. Memᴰ r db.runs) (Due db now) (λ r. Memᴰ r db.runs × Due db now r)
          (due_runs db now limit) (λ r m d. (m, d))
          (due_runs-All (λ r. Memᴰ r db.runs) db now limit (All-self db.runs))
          (due_runs-Due db now limit));
  oldest =
      All-map (λ r. Due db now r → Placed (λ q. q.scheduled_at) (due_runs db now limit) r) _ db.runs
        (λ r placed d. taken_ids db now limit r (placed d)) (due_runs-oldest db now limit);
  moved =
      Mem-update (λ r. any (λ i. i == r.id) (map (λ x. x.id) (due_runs db now limit)))
        (claim_run now) db.runs;
  as_many = length-update_many _ (claim_run now) db.runs;
  rest = refl;
}
