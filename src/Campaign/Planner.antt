-- ===== src/Campaign/Planner.antt =====
-- apps/api/src/modules/campaigns/sequence.planner.ts: the database is the schedule.
pub mod Laws
pub mod Schedule
use klyvero.Common.{
  ℕ, suc, Bool, ◌&&◌, ◌∷◌, Option, none, some, ltb, ◌==◌, if◌then◌else◌, find_first, select,
  order_by, update_many, any, head?,
}
use klyvero.Campaign.Model.{Step, StepRun, Db, RunStatus, is_queued}

-- `db.sequenceStep.findFirst`: the first active step after a position.
unfoldable pub next_step : Db → ℕ → ℕ → Option Step
unfolding select order_by
next_step db campaign_id after_position = head? (
    order_by (λ s. s.position)
      (select (λ s. s.campaign_id == campaign_id && s.is_on && ltb after_position s.position)
        db.steps))

-- The unique key `enrollmentId_stepId`.
abbrev pub is_run_of : ℕ → ℕ → StepRun → Bool
is_run_of enrollment_id step_id r = r.enrollment_id == enrollment_id && r.step_id == step_id

-- The `update` half of the upsert: the run is queued afresh.
abbrev pub requeue : ℕ → StepRun → StepRun
requeue at r = record r {
  scheduled_at = at;
  status = RunStatus.queued;
  attempts = 0;
  error = none;
  started_at = none;
  finished_at = none;
  message_id = none;
}

-- The `create` half, with the defaults of the schema.
abbrev pub new_run : ℕ → ℕ → ℕ → ℕ → StepRun
new_run id enrollment_id step_id at = record {
  id = id;
  enrollment_id = enrollment_id;
  step_id = step_id;
  status = RunStatus.queued;
  scheduled_at = at;
  started_at = none;
  finished_at = none;
  message_id = none;
  error = none;
  attempts = 0;
}

unfoldable pub upsert_run : Db → ℕ → ℕ → ℕ → Db
unfolding update_many
upsert_run db enrollment_id step_id at =
    if any (is_run_of enrollment_id step_id) db.runs
    then record db { runs = update_many (is_run_of enrollment_id step_id) (requeue at) db.runs }
    else record db {
      runs = new_run db.next_id enrollment_id step_id at ∷ db.runs;
      next_id = suc db.next_id;
    }

-- The time of a run that already waits, if `keepQueued` asks for it.
unfoldable pub waiting_since : Db → ℕ → ℕ → Bool → Option ℕ
unfolding find_first
waiting_since db enrollment_id step_id keep_queued =
    if keep_queued
    then elim (find_first (is_run_of enrollment_id step_id) db.runs) [
      | none ↦ none
      | some r ↦ if is_queued r.status then some r.scheduled_at else none
    ]
    else none

-- `schedule`: queues the step for the enrollment, and returns its time.
unfoldable pub schedule : Db → ℕ → Step → ℕ → Bool → Db × ℕ
unfolding upsert_run waiting_since
schedule db enrollment_id step at keep_queued =
    elim (waiting_since db enrollment_id step.id keep_queued) [
      | some since ↦ (db, since)
      | none ↦ (upsert_run db enrollment_id step.id at, at)
    ]
