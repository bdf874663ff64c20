-- ===== src/Campaign/Execute/Outcome.antt =====
-- What becomes of a claimed run once its delivery has been settled.
use klyvero.Common.{
  ℕ, ◌+◌, ◌*◌, ◌≡◌, refl, inl, inr, true, false, not, ◌&&◌, List, [], ◌∷◌, arith, ltb, ◌==◌,
  Bool-cases, Option-cases, All, update_many, update_many-All, select, ==_iff, ap, none,
  count_where, any,
}
use klyvero.Campaign.Model.{StepRun, RunStatus, Step, Db, is_running}
use klyvero.Campaign.Scheduler.{is_stuck, recover_stuck}
use klyvero.Campaign.Planner.{next_step, schedule, requeue, upsert_run, waiting_since, is_run_of}
use klyvero.Campaign.Delivery.{
  Config, Failure, step_skip, Delivery, delivered, failed_with, Claimed,
}
use klyvero.Campaign.Execute.{
  deferred, is_permanent, defer_run, retry_run, fail_run, handle_failure, record_sent, can_move,
  complete_enrollment, move_enrollment, schedule_next, advance, skip_run, settle,
}

-- No run of the given identifier is left in the state RUNNING.
abbrev pub IsQuiet : ℕ → Db → Type 0
IsQuiet id db = All (λ r. r.id ≡ id → is_running r.status ≡ false) db.runs

module _ (id : ℕ) where
  abbrev Quiet : StepRun → Type 0
  Quiet r = r.id ≡ id → is_running r.status ≡ false

  -- Writing a final or waiting status to the run settles it.
  update-Quiet :
      (f : StepRun → StepRun) (rs : List StepRun)
      → ((r : StepRun) → is_running (f r).status ≡ false)
      → All Quiet (update_many (λ r. r.id == id) f rs)
  unfolding update_many
  update-Quiet f [] h = tt
  update-Quiet f (r ∷ rs) h = elim (Bool-cases (r.id == id)) [
    | inl e ↦ (rw e (λ _. h r), update-Quiet f rs h)
    | inr e ↦ (rw e (λ k. ground arith), update-Quiet f rs h)
  ]

  upsert_run-IsQuiet : (db : Db) (e s at : ℕ) → IsQuiet id db → IsQuiet id (upsert_run db e s at)
  unfolding upsert_run
  upsert_run-IsQuiet db e s at h = elim (Bool-cases (any (is_run_of e s) db.runs)) [
    | inl k ↦ rw k (update_many-All Quiet (is_run_of e s) (requeue at) db.runs (λ r q p _. refl) h)
    | inr k ↦ rw k ((λ _. refl), h)
  ]

  schedule-IsQuiet :
      (db : Db) (e : ℕ) (step : Step) (at : ℕ)
      → IsQuiet id db
      → IsQuiet id (schedule db e step at false).0
  unfolding schedule waiting_since
  schedule-IsQuiet db e step at h = upsert_run-IsQuiet db e step.id at h

  advance-IsQuiet :
      (db : Db) (now : ℕ) (c : Claimed) → IsQuiet id db → IsQuiet id (advance db now c)
  unfolding advance complete_enrollment schedule_next move_enrollment
  advance-IsQuiet db now c h =
      elim (Option-cases (next_step db c.enrollment.campaign_id c.step.position)) [
        | inl e ↦ rw (e, advance) h
        | inr (next, e) ↦
            elim (Bool-cases (count_where (can_move c.enrollment.id) db.enrollments == 0)) [
              | inl z ↦ rw (e, advance) (rw z h)
              | inr z ↦
                  rw (e, advance)
                    (rw z (
                      schedule-IsQuiet (move_enrollment db c) c.enrollment.id next
                        (now + next.delay_minutes * 60000) h))
            ]
      ]

handle_failure-IsQuiet :
    (db : Db) (cfg : Config) (now : ℕ) (c : Claimed) (f : Failure)
    → IsQuiet c.run.id (handle_failure db cfg now c f)
unfolding handle_failure defer_run retry_run fail_run
handle_failure-IsQuiet db cfg now c f = elim (Option-cases (deferred f)) [
  | inr (delay, e) ↦ rw (e, handle_failure) (update-Quiet c.run.id _ db.runs (λ r. refl))
  | inl e ↦ elim (Bool-cases (not (is_permanent f) && ltb c.run.attempts cfg.max_attempts)) [
    | inl b ↦ rw (e, handle_failure) (rw b (update-Quiet c.run.id _ db.runs (λ r. refl)))
    | inr b ↦ rw (e, handle_failure) (rw b (update-Quiet c.run.id _ db.runs (λ r. refl)))
  ]
]

settle-IsQuiet :
    (db : Db) (cfg : Config) (now : ℕ) (c : Claimed) (d : Delivery)
    → IsQuiet c.run.id (settle db cfg now c d true)
unfolding settle skip_run record_sent
settle-IsQuiet db cfg now c (delivered m) =
    advance-IsQuiet c.run.id (record_sent db now c m) now c
      (update-Quiet c.run.id _ db.runs (λ r. refl))
settle-IsQuiet db cfg now c (failed_with (step_skip text)) =
    advance-IsQuiet c.run.id (skip_run db now c text) now c
      (update-Quiet c.run.id _ db.runs (λ r. refl))
settle-IsQuiet db cfg now c (failed_with f) = handle_failure-IsQuiet db cfg now c f

not_stuck :
    (later : ℕ) (id : ℕ) (rs : List StepRun)
    → All (λ r. r.id ≡ id → is_running r.status ≡ false) rs
    → select
        (λ r. r.id == id)
        (update_many
          (is_stuck later)
          (λ r. record r { status = RunStatus.queued; started_at = none })
          rs)
      ≡ select (λ r. r.id == id) rs
unfolding select update_many
not_stuck later id [] h = refl
not_stuck later id (r ∷ rs) h = elim (Bool-cases (r.id == id)) [
  | inl this ↦
      let off = h.0 ((==_iff r.id id).0 this) in
      let same : is_stuck later r ≡ false = ground arith in
      rw (same, this) (ap (◌∷◌ r) (not_stuck later id rs h.1))
  | inr other ↦ elim (Bool-cases (is_stuck later r)) [
    | inl stuck ↦ rw (stuck, other) (not_stuck later id rs h.1)
    | inr fine ↦ rw (fine, other) (not_stuck later id rs h.1)
  ]
]

-- However a delivery ends, if its outcome could be written the run is not RUNNING right after, and a
-- recovery of stuck runs that follows, at whatever time, leaves the run as it is.
pub settle-IsSettled :
    (db : Db) (cfg : Config) (now later : ℕ) (c : Claimed) (d : Delivery)
    → let after = settle db cfg now c d true in
      All (λ r. r.id ≡ c.run.id → is_running r.status ≡ false) after.runs
      × (select (λ r. r.id == c.run.id) (recover_stuck after later).runs
          ≡ select (λ r. r.id == c.run.id) after.runs)
unfolding recover_stuck
settle-IsSettled db cfg now later c d =
    let quiet = settle-IsQuiet db cfg now c d in
    (quiet, not_stuck later c.run.id (settle db cfg now c d true).runs quiet)
