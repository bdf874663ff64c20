-- ===== src/Campaign/Rescue.antt =====
-- apps/api/src/modules/campaigns/campaigns.service.ts, stopEnrollment and retryEnrollment; and the
-- writes by which a reply or an opt-out ends a lead's cadences (apps/api/src/modules/whatsapp,
-- apps/api/src/modules/email).
use klyvero.Common.{
  ℕ, Bool, false, not, ◌&&◌, List, [], ◌∷◌, Option, none, some, ltb, ◌==◌, if◌then◌else◌,
  find_first, select, update_many, any, bad_request, not_found, Result, ok, ◌>>=◌, ◌>>◌, throw_if,
  or_throw,
}
use klyvero.Campaign.Model.{
  Step, Enrollment, StepRun, Lead, Db, RunStatus, EnrollmentStatus, LeadStatus, is_open, is_failed,
  is_terminal, campaign_is_active, is_queued, run_is_failed,
}
use klyvero.Campaign.Planner.{next_step, schedule}
use klyvero.Campaign.Scheduler.{find_campaign}
use klyvero.Campaign.Execute.{set_enrollments}

unfoldable pub enrollment_of : Db → ℕ → ℕ → ℕ → Result Enrollment
unfolding find_first
enrollment_of db tenant campaign_id id =
    or_throw
      (find_first (λ e. e.id == id && e.campaign_id == campaign_id && e.tenant_id == tenant)
        db.enrollments)
      (not_found "Enrollment not found")

abbrev pub cancel_queued : ℕ → StepRun → StepRun
cancel_queued now r = record r { status = RunStatus.canceled; finished_at = some now }

abbrev pub stop_row : Enrollment → Enrollment
stop_row e = record e { status = EnrollmentStatus.stopped; next_run_at = none }

unfoldable pub stop : ℕ → ℕ → Db → Db
unfolding update_many
stop now id db =
    set_enrollments (λ e. e.id == id) stop_row
      (record db {
        runs =
            update_many (λ r. r.enrollment_id == id && is_queued r.status) (cancel_queued now)
              db.runs;
      })

unfoldable pub stop_enrollment : Db → ℕ → ℕ → ℕ → ℕ → Result Db
unfolding enrollment_of stop
stop_enrollment db tenant now campaign_id id = do
  e ← enrollment_of db tenant campaign_id id
  ok (if is_terminal e.status then db else stop now id db)

-- The FAILED run that was scheduled last.
abbrev latest_run : List StepRun → Option StepRun
latest_run [] = none
latest_run (x ∷ xs) = elim (latest_run xs) [
  | none ↦ some x
  | some y ↦ if ltb x.scheduled_at y.scheduled_at then some y else some x
]

unfoldable pub failed_step : Db → ℕ → Option Step
unfolding select find_first
failed_step db id =
    elim (latest_run (select (λ r. r.enrollment_id == id && run_is_failed r.status) db.runs)) [
      | none ↦ none
      | some r ↦ find_first (λ s. s.id == r.step_id) db.steps
    ]

-- `failed?.step ?? await nextStep(…)`
unfoldable pub step_to_retry : Db → ℕ → Enrollment → Option Step
unfolding failed_step next_step
step_to_retry db campaign_id e = elim (failed_step db e.id) [
  | none ↦ next_step db campaign_id e.current_position
  | some s ↦ some s
]

unfoldable pub reopen : Bool → ℕ → ℕ → Db → Db
unfolding update_many
reopen on at id =
    set_enrollments (λ e. e.id == id)
      (λ e. record e {
        status = if on then EnrollmentStatus.active else EnrollmentStatus.paused;
        next_run_at = if on then some at else none;
        last_error = none;
      })

-- The joined campaign is there by its foreign key.
abbrev pub campaign_on : Db → ℕ → Bool
campaign_on db id = elim (find_campaign db id) [
  | none ↦ false
  | some c ↦ campaign_is_active c.status
]

-- What `retryEnrollment` has read when its transaction begins.
pub record RetryPlan : Type 0 where
  pub enrollment : ℕ
  pub step : Step
  pub is_on : Bool

unfoldable pub plan_retry : Db → ℕ → ℕ → ℕ → Result RetryPlan
unfolding enrollment_of step_to_retry find_campaign
plan_retry db tenant campaign_id id = do
  e ← enrollment_of db tenant campaign_id id
  throw_if (not (is_failed e.status)) (bad_request "Only failed enrollments can be retried")
  step ← or_throw (step_to_retry db campaign_id e) (bad_request "Nothing left to retry")
  ok (record { enrollment = id; step = step; is_on = campaign_on db e.campaign_id })

-- The transaction of `retryEnrollment`, on the tables of its time.
unfoldable pub commit_retry : Db → ℕ → RetryPlan → Db
unfolding schedule reopen
commit_retry db now plan =
    reopen plan.is_on now plan.enrollment (schedule db plan.enrollment plan.step now false).0

-- `retryEnrollment`, where nothing comes between its reads and its transaction.
unfoldable retry_enrollment : Db → ℕ → ℕ → ℕ → ℕ → Result Db
unfolding plan_retry commit_retry
retry_enrollment db tenant now campaign_id id =
    plan_retry db tenant campaign_id id >>= λ plan. ok (commit_retry db now plan)

-- A reply, by any channel, of the leads with the given identifiers.
unfoldable pub reply : Db → ℕ → ℕ → List ℕ → Db
unfolding update_many
reply db tenant received_at lead_ids =
    set_enrollments
      (λ e. e.tenant_id == tenant && any (λ i. i == e.lead_id) lead_ids && is_open e.status)
      (λ e. record e {
        status = EnrollmentStatus.replied;
        replied_at = some received_at;
        next_run_at = none;
      })
      (record db {
        leads =
            update_many (λ l. l.tenant_id == tenant && any (λ i. i == l.id) lead_ids)
              (λ l. record l { status = LeadStatus.replied }) db.leads;
      })

-- `suppress`: the leads are those whose address is the given one, in any case.
unfoldable pub opt_out : Db → ℕ → (Lead → Bool) → Db
unfolding update_many
opt_out db tenant is_recipient =
    set_enrollments
      (λ e.
        e.tenant_id == tenant
        && any (λ l. l.id == e.lead_id && is_recipient l) db.leads
        && is_open e.status)
      (λ e. record e {
        status = EnrollmentStatus.stopped;
        next_run_at = none;
        last_error = some "Destinatário descadastrado";
      })
      db
