-- ===== src/Campaign/Lifecycle/Rounds.antt =====
-- The rounds of a start, in apps/api/src/modules/campaigns/campaigns.service.ts: what each leaves for
-- its own enrollment, and that the later ones keep it.
use klyvero.Common.{
  ℕ, ◌+◌, ◌*◌, ◌≡◌, inl, inr, refl, Bool, true, false, ◌&&◌, List, [], ◌∷◌, some, arith, ◌==◌,
  Bool-cases, Option-cases, All, update_many, update_many-All, any,
}
use klyvero.Campaign.Model.{Step, Enrollment, EnrollmentStatus, StepRun, Db, is_queued}
use klyvero.Campaign.Planner.{is_run_of, requeue, schedule, upsert_run, waiting_since}
use klyvero.Campaign.Planner.Schedule.{waits, schedule-IsScheduled}
use klyvero.Campaign.Lifecycle.{start_all, start_one, step_after, complete_at_start, activate}

pub schedule-enrollments :
    (db : Db) (e : ℕ) (step : Step) (at : ℕ) (keep : Bool)
    → (schedule db e step at keep).0.enrollments ≡ db.enrollments
unfolding schedule upsert_run
schedule-enrollments db e step at keep = ground arith

abbrev pub is_launched : EnrollmentStatus → Bool
is_launched EnrollmentStatus.active = true
is_launched EnrollmentStatus.completed = true
is_launched _ = false

-- A queued run of the step for the enrollment.
abbrev pub is_ahead : ℕ → ℕ → StepRun → Bool
is_ahead e s r = is_run_of e s r && is_queued r.status

module _ (i : ℕ) where
  abbrev pub Launched : Enrollment → Type 0
  Launched x = x.id ≡ i → is_launched x.status ≡ true

  module _ (e : ℕ) (f : Enrollment → Enrollment)
      (on : (x : Enrollment) → is_launched (f x).status ≡ true) where
    launch_same :
        (rows : List Enrollment)
        → e ≡ i
        → ((x : Enrollment) → (f x).id ≡ x.id)
        → All Launched (update_many (λ x. x.id == e) f rows)
    unfolding update_many
    launch_same [] same id_kept = tt
    launch_same (x ∷ rows) same id_kept = elim (Bool-cases (x.id == e)) [
      | inl k ↦ (rw k (λ _. on x), launch_same rows same id_kept)
      | inr k ↦ (rw k (λ j. absurd (ground arith)), launch_same rows same id_kept)
    ]

    launch_other :
        (rows : List Enrollment)
        → All Launched rows
        → All Launched (update_many (λ x. x.id == e) f rows)
    launch_other rows h = update_many-All Launched (λ x. x.id == e) f rows (λ x k hit j. on x) h

  start_one-Launched :
      (steps : List Step) (now : ℕ) (e : Enrollment) (db : Db)
      → All Launched db.enrollments
      → All Launched (start_one steps now e db).enrollments
  unfolding start_one complete_at_start activate
  start_one-Launched steps now e db h = elim (Option-cases (step_after steps e.current_position)) [
    | inl k ↦ rw (k, start_one) (launch_other e.id _ (λ x. refl) db.enrollments h)
    | inr (s, k) ↦
        rw (k, start_one)
          (launch_other e.id _ (λ x. refl) _
            (rw (schedule-enrollments db e.id s (now + s.delay_minutes * 60000) true) h))
  ]

  start_one-own_Launched :
      (steps : List Step) (now : ℕ) (e : Enrollment) (db : Db)
      → e.id ≡ i
      → All Launched (start_one steps now e db).enrollments
  unfolding start_one complete_at_start activate
  start_one-own_Launched steps now e db same =
      elim (Option-cases (step_after steps e.current_position)) [
        | inl k ↦ rw (k, start_one) (launch_same e.id _ (λ x. refl) db.enrollments same (λ x. refl))
        | inr (s, k) ↦ rw (k, start_one) (launch_same e.id _ (λ x. refl) _ same (λ x. refl))
      ]

  start_all-Launched :
      (steps : List Step) (now : ℕ) (es : List Enrollment) (db : Db)
      → All Launched db.enrollments
      → All Launched (start_all steps now es db).enrollments
  unfolding start_all
  start_all-Launched steps now [] db h = h
  start_all-Launched steps now (e ∷ es) db h =
      start_all-Launched steps now es (start_one steps now e db)
        (start_one-Launched steps now e db h)

pub start_all-own_Launched :
    (steps : List Step) (now : ℕ) (es : List Enrollment) (db : Db)
    → All (λ e. All (Launched e.id) (start_all steps now es db).enrollments) es
unfolding start_all
start_all-own_Launched steps now [] db = tt
start_all-own_Launched steps now (e ∷ es) db = (
  start_all-Launched e.id steps now es (start_one steps now e db)
      (start_one-own_Launched e.id steps now e db refl),
  start_all-own_Launched steps now es (start_one steps now e db),
)

module _ (e s : ℕ) where
  requeue-ahead :
      (e' s' at : ℕ) (rs : List StepRun)
      → any (is_ahead e s) rs ≡ true
      → any (is_ahead e s) (update_many (is_run_of e' s') (requeue at) rs) ≡ true
  unfolding update_many
  requeue-ahead e' s' at [] h = h
  requeue-ahead e' s' at (r ∷ rs) h = ground (arith, requeue-ahead e' s' at rs)

  schedule-ahead :
      (db : Db) (e' : ℕ) (step : Step) (at : ℕ) (keep : Bool)
      → any (is_ahead e s) db.runs ≡ true
      → any (is_ahead e s) (schedule db e' step at keep).0.runs ≡ true
  unfolding schedule upsert_run
  schedule-ahead db e' step at keep h = elim (Option-cases (waiting_since db e' step.id keep)) [
    | inr (since, w) ↦ rw (w, schedule) h
    | inl w ↦ elim (Bool-cases (any (is_run_of e' step.id) db.runs)) [
      | inl k ↦ rw (w, schedule) (rw k (requeue-ahead e' step.id at db.runs h))
      | inr k ↦ rw (w, schedule) (rw k (ground arith))
    ]
  ]

  start_one-ahead :
      (steps : List Step) (now : ℕ) (x : Enrollment) (db : Db)
      → any (is_ahead e s) db.runs ≡ true
      → any (is_ahead e s) (start_one steps now x db).runs ≡ true
  unfolding start_one complete_at_start activate
  start_one-ahead steps now x db h = elim (Option-cases (step_after steps x.current_position)) [
    | inl k ↦ rw (k, start_one) h
    | inr (t, k) ↦
        rw (k, start_one) (schedule-ahead db x.id t (now + t.delay_minutes * 60000) true h)
  ]

  start_all-ahead :
      (steps : List Step) (now : ℕ) (es : List Enrollment) (db : Db)
      → any (is_ahead e s) db.runs ≡ true
      → any (is_ahead e s) (start_all steps now es db).runs ≡ true
  unfolding start_all
  start_all-ahead steps now [] db h = h
  start_all-ahead steps now (x ∷ es) db h =
      start_all-ahead steps now es (start_one steps now x db) (start_one-ahead steps now x db h)

  waits-ahead :
      (at : ℕ) (rs : List StepRun) → any (waits e s at) rs ≡ true → any (is_ahead e s) rs ≡ true
  waits-ahead at [] h = h
  waits-ahead at (r ∷ rs) h = ground (arith, waits-ahead at rs)

start_one-own_ahead :
    (steps : List Step) (now : ℕ) (e : Enrollment) (db : Db) (s : Step)
    → step_after steps e.current_position ≡ some s
    → any (is_ahead e.id s.id) (start_one steps now e db).runs ≡ true
unfolding start_one activate
start_one-own_ahead steps now e db s k =
    let at = now + s.delay_minutes * 60000 in
    let queued = (schedule-IsScheduled db e.id s at true).0.waiting in
    rw (k, start_one) (waits-ahead e.id s.id (schedule db e.id s at true).1 _ queued)

pub start_all-own_ahead :
    (steps : List Step) (now : ℕ) (es : List Enrollment) (db : Db)
    → All
        (λ e.
          (s : Step)
          → step_after steps e.current_position ≡ some s
          → any (is_ahead e.id s.id) (start_all steps now es db).runs ≡ true)
        es
unfolding start_all
start_all-own_ahead steps now [] db = tt
start_all-own_ahead steps now (e ∷ es) db = (
  (λ s k.
      start_all-ahead e.id s.id steps now es (start_one steps now e db)
        (start_one-own_ahead steps now e db s k)),
  start_all-own_ahead steps now es (start_one steps now e db),
)
