-- ===== src/Campaign/Planner/Schedule.antt =====
-- What `schedule` leaves in the table of step runs.
use klyvero.Common.{
  ℕ, ◌≤◌, ◌≡◌, refl, inl, inr, Bool, true, false, not, ◌&&◌, List, [], ◌∷◌, some, arith, ◌==◌,
  Bool-cases, Option-cases, select, update_many, count_where, find_first, any, subst,
}
use klyvero.Campaign.Model.{Step, StepRun, Db, is_queued}
use klyvero.Campaign.Planner.{is_run_of, requeue, new_run, upsert_run, waiting_since, schedule}

-- A run of the key that waits for the given time.
abbrev pub waits : ℕ → ℕ → ℕ → StepRun → Bool
waits e s at r = is_run_of e s r && (is_queued r.status && r.scheduled_at == at)

any-waits_requeued :
    (e s at : ℕ) (rs : List StepRun)
    → any (is_run_of e s) rs ≡ true
    → any (waits e s at) (update_many (is_run_of e s) (requeue at) rs) ≡ true
unfolding update_many
any-waits_requeued e s at [] h = cc
any-waits_requeued e s at (r ∷ rs) h = ground (arith, any-waits_requeued e s at rs)

select-requeued :
    (e s at : ℕ) (rs : List StepRun)
    → select (λ r. not (is_run_of e s r)) (update_many (is_run_of e s) (requeue at) rs)
      ≡ select (λ r. not (is_run_of e s r)) rs
unfolding update_many select
select-requeued e s at [] = refl
select-requeued e s at (r ∷ rs) = ground (arith, select-requeued e s at rs)

count-requeued :
    (e s at e' s' : ℕ) (rs : List StepRun)
    → count_where (is_run_of e' s') (update_many (is_run_of e s) (requeue at) rs)
      ≡ count_where (is_run_of e' s') rs
unfolding update_many count_where
count-requeued e s at e' s' [] = refl
count-requeued e s at e' s' (r ∷ rs) = ground (arith, count-requeued e s at e' s' rs)

any-waits_found :
    (e s : ℕ) (rs : List StepRun) (r : StepRun)
    → find_first (is_run_of e s) rs ≡ some r
    → is_queued r.status ≡ true
    → any (waits e s r.scheduled_at) rs ≡ true
unfolding find_first
any-waits_found e s [] r h q = cc
any-waits_found e s (x ∷ rs) r h q = ground (arith, any-waits_found e s rs r)

count_of_not_any :
    (p : StepRun → Bool) (rs : List StepRun) → any p rs ≡ false → count_where p rs ≡ 0
unfolding count_where
count_of_not_any p [] h = refl
count_of_not_any p (r ∷ rs) h = ground (arith, count_of_not_any p rs)

-- The unique key of the table.
abbrev pub HasUniqueRuns : List StepRun → Type 0
HasUniqueRuns rs = (e s : ℕ) → count_where (is_run_of e s) rs ≤ 1

pub record IsScheduled (db db' : Db) (e s at : ℕ) : Type 0 where
  pub waiting : any (waits e s at) db'.runs ≡ true
  pub others :
      select (λ r. not (is_run_of e s r)) db'.runs ≡ select (λ r. not (is_run_of e s r)) db.runs

waits-new : (e s at : ℕ) (db : Db) → any (waits e s at) (new_run db.next_id e s at ∷ db.runs) ≡ true
waits-new e s at db = ground arith

select-new :
    (e s at : ℕ) (db : Db)
    → select (λ r. not (is_run_of e s r)) (new_run db.next_id e s at ∷ db.runs)
      ≡ select (λ r. not (is_run_of e s r)) db.runs
unfolding select
select-new e s at db = ground arith

count-new :
    (e s at e' s' : ℕ) (db : Db)
    → any (is_run_of e s) db.runs ≡ false
    → count_where (is_run_of e' s') db.runs ≤ 1
    → count_where (is_run_of e' s') (new_run db.next_id e s at ∷ db.runs) ≤ 1
unfolding count_where
count-new e s at e' s' db h u = elim (Bool-cases (is_run_of e' s' (new_run db.next_id e s at))) [
  | inl k ↦
      let he : e ≡ e' = ground arith in
      let hs : s ≡ s' = ground arith in
      let none_before : count_where (is_run_of e' s') db.runs ≡ 0 =
        subst (λ x. count_where (is_run_of x s') db.runs ≡ 0) he
          (subst (λ y. count_where (is_run_of e y) db.runs ≡ 0) hs
            (count_of_not_any (is_run_of e s) db.runs h)) in
      ground arith
  | inr k ↦ ground arith
]

upsert_run-IsScheduled : (db : Db) (e s at : ℕ) → IsScheduled db (upsert_run db e s at) e s at
unfolding upsert_run
upsert_run-IsScheduled db e s at = elim (Bool-cases (any (is_run_of e s) db.runs)) [
  | inl h ↦ rw h (record {
    waiting = any-waits_requeued e s at db.runs h;
    others = select-requeued e s at db.runs;
  })
  | inr h ↦ rw h (record { waiting = waits-new e s at db; others = select-new e s at db })
]

upsert_run-HasUniqueRuns :
    (db : Db) (e s at : ℕ) → HasUniqueRuns db.runs → HasUniqueRuns (upsert_run db e s at).runs
unfolding upsert_run
upsert_run-HasUniqueRuns db e s at u e' s' = elim (Bool-cases (any (is_run_of e s) db.runs)) [
  | inl h ↦ rw (h, count-requeued e s at e' s' db.runs) (u e' s')
  | inr h ↦ rw h (count-new e s at e' s' db h (u e' s'))
]

-- `schedule` leaves a queued run of the step for the enrollment at the time that it returns,
-- whether it keeps one that waits or not; it leaves the runs of every other pair alone, and an
-- enrollment still has at most one run of a step if it had at most one before.
pub schedule-IsScheduled :
    (db : Db) (e : ℕ) (step : Step) (at : ℕ) (keep : Bool)
    → IsScheduled db (schedule db e step at keep).0 e step.id (schedule db e step at keep).1
      × (HasUniqueRuns db.runs → HasUniqueRuns (schedule db e step at keep).0.runs)
unfolding schedule waiting_since
schedule-IsScheduled db e step at false =
    (upsert_run-IsScheduled db e step.id at, upsert_run-HasUniqueRuns db e step.id at)
schedule-IsScheduled db e step at true =
    elim (Option-cases (find_first (is_run_of e step.id) db.runs)) [
      | inl f ↦
          rw (f, schedule, waiting_since)
            (upsert_run-IsScheduled db e step.id at, upsert_run-HasUniqueRuns db e step.id at)
      | inr (r, f) ↦ elim (Bool-cases (is_queued r.status)) [
        | inl q ↦
            rw (f, schedule, waiting_since)
              (rw q (
                record { waiting = any-waits_found e step.id db.runs r f q; others = refl },
                λ u. u,
              ))
        | inr q ↦
            rw (f, schedule, waiting_since)
              (rw q
                (upsert_run-IsScheduled db e step.id at, upsert_run-HasUniqueRuns db e step.id at))
      ]
    ]
