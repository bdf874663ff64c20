-- ===== src/Campaign/Execute.antt =====
-- apps/api/src/modules/campaigns/sequence.scheduler.ts: executing a claimed run, what follows a
-- delivery, and the scheduler's pass.
pub mod Outcome
pub mod Policy
use klyvero.Common.{
  ℕ, ◌+◌, ◌-◌, ◌*◌, Bool, true, false, not, ◌&&◌, ◌||◌, ◌∷◌, Option, none, some, String, ltb, ◌==◌,
  if◌then◌else◌, update_many, count_where, bad_request, unauthorized, forbidden, not_found,
  conflict, too_many_requests, service_unavailable,
}
use klyvero.Text.Phone.{to_whatsapp_number}
use klyvero.Text.Template.{retry_delay_ms, render_template}
use klyvero.Campaign.Model.{
  Campaign, Step, Enrollment, StepRun, Db, RunStatus, EnrollmentStatus, LeadStatus, is_active,
  is_open, is_paused, campaign_is_active, campaign_is_paused, is_running, lead_is_new,
}
use klyvero.Campaign.Planner.{next_step, schedule}
use klyvero.Campaign.Delivery.{
  Config, Failure, step_skip, step_defer, step_permanent, http, other, Delivery, delivered,
  failed_with, Gateway, Claimed, deliver, deliver_email, deliver_whatsapp, whatsapp_wait,
}
use klyvero.Campaign.Scheduler.{find_enrollment, find_campaign, load}

abbrev pub set_run : ℕ → (StepRun → StepRun) → Db → Db
set_run id f db = record db { runs = update_many (λ r. r.id == id) f db.runs }

abbrev pub set_enrollments : (Enrollment → Bool) → (Enrollment → Enrollment) → Db → Db
set_enrollments p f db = record db { enrollments = update_many p f db.enrollments }

-- `error.message`
abbrev pub message : Failure → String
message (step_skip m) = m
message (step_defer m d) = m
message (step_permanent m) = m
message (http (bad_request m)) = m
message (http (unauthorized m)) = m
message (http (forbidden m)) = m
message (http (not_found m)) = m
message (http (conflict m)) = m
message (http (too_many_requests m)) = m
message (http (service_unavailable m)) = m
message (other m) = m

-- The delay of an error that is not the lead's fault: a StepDefer, or a ForbiddenException.
abbrev pub deferred : Failure → Option ℕ
deferred (step_defer m d) = some d
deferred (http (forbidden m)) = some (60 * 60000)
deferred _ = none

abbrev pub is_permanent : Failure → Bool
is_permanent (step_permanent m) = true
is_permanent (http (not_found m)) = true
is_permanent (http (bad_request m)) = true
is_permanent _ = false

-- `updateMany({ id, status: 'ACTIVE' }, { nextRunAt, lastError })`
abbrev note_delay : ℕ → ℕ → String → Db → Db
note_delay id at text =
    set_enrollments (λ e. e.id == id && is_active e.status)
      (λ e. record e { next_run_at = some at; last_error = some text })

unfoldable pub defer_run : Db → Claimed → ℕ → String → Db
unfolding update_many
defer_run db c at text = note_delay c.run.enrollment_id at text (
    set_run c.run.id
      (λ r. record r {
        status = RunStatus.queued;
        scheduled_at = at;
        started_at = none;
        attempts = r.attempts - 1;
        error = some text;
      })
      db)

unfoldable pub retry_run : Db → Claimed → ℕ → String → Db
unfolding update_many
retry_run db c at text = note_delay c.run.enrollment_id at text (
    set_run c.run.id
      (λ r. record r {
        status = RunStatus.queued;
        scheduled_at = at;
        started_at = none;
        error = some text;
      })
      db)

unfoldable pub fail_run : Db → Claimed → ℕ → String → Db
unfolding update_many
fail_run db c now text =
    set_enrollments (λ e. e.id == c.run.enrollment_id && is_open e.status)
      (λ e. record e {
        status = EnrollmentStatus.failed;
        last_error = some text;
        next_run_at = none;
      })
      (set_run c.run.id
        (λ r. record r { status = RunStatus.failed; finished_at = some now; error = some text }) db)

unfoldable pub handle_failure : Db → Config → ℕ → Claimed → Failure → Db
unfolding defer_run retry_run fail_run retry_delay_ms
handle_failure db cfg now c f = elim (deferred f) [
  | some delay ↦ defer_run db c (now + delay) (message f)
  | none ↦
      if not (is_permanent f) && ltb c.run.attempts cfg.max_attempts
      then retry_run db c (now + retry_delay_ms c.run.attempts 60000) (message f)
      else fail_run db c now (message f)
]

unfoldable pub record_sent : Db → ℕ → Claimed → Option ℕ → Db
unfolding update_many
record_sent db now c message_id = record db {
  runs =
      update_many (λ r. r.id == c.run.id)
        (λ r. record r {
          status = RunStatus.sent;
          finished_at = some now;
          message_id = message_id;
          error = none;
        })
        db.runs;
  leads =
      update_many (λ l. l.id == c.enrollment.lead_id && lead_is_new l.status)
        (λ l. record l { status = LeadStatus.contacted }) db.leads;
  activities =
      record {
        tenant_id = c.enrollment.tenant_id;
        lead_id = c.enrollment.lead_id;
        channel = c.step.channel;
        position = c.step.position;
        message_id = message_id;
      }
      ∷ db.activities;
}

-- The condition under which `advance` moves an enrollment.
abbrev pub can_move : ℕ → Enrollment → Bool
can_move id e = e.id == id && is_open e.status

unfoldable pub complete_enrollment : Db → ℕ → Claimed → Db
unfolding update_many
complete_enrollment db now c =
    set_enrollments (can_move c.enrollment.id)
      (λ e. record e {
        current_position = c.step.position;
        status = EnrollmentStatus.completed;
        completed_at = some now;
        next_run_at = none;
      })
      db

unfoldable pub move_enrollment : Db → Claimed → Db
unfolding update_many
move_enrollment db c =
    set_enrollments (can_move c.enrollment.id)
      (λ e. record e { current_position = c.step.position }) db

unfoldable pub schedule_next : Db → ℕ → Claimed → Step → Db
unfolding schedule update_many
schedule_next db now c next =
    let at = now + next.delay_minutes * 60000 in
    set_enrollments (λ e. e.id == c.enrollment.id && is_active e.status)
      (λ e. record e { next_run_at = some at }) (schedule db c.enrollment.id next at false).0

-- Moves the enrollment to the next step, or completes it.
unfoldable pub advance : Db → ℕ → Claimed → Db
unfolding next_step complete_enrollment move_enrollment schedule_next count_where
advance db now c = elim (next_step db c.enrollment.campaign_id c.step.position) [
  | none ↦ complete_enrollment db now c
  | some next ↦
      if count_where (can_move c.enrollment.id) db.enrollments == 0
      then db
      else schedule_next (move_enrollment db c) now c next
]

unfoldable pub skip_run : Db → ℕ → Claimed → String → Db
unfolding update_many
skip_run db now c text =
    set_run c.run.id
      (λ r. record r { status = RunStatus.skipped; finished_at = some now; error = some text }) db

-- What follows the call of `deliver`. `stored` says whether the record of a send was written, at
-- the first or the second try; if not, the error is only logged.
unfoldable pub settle : Db → Config → ℕ → Claimed → Delivery → Bool → Db
unfolding handle_failure record_sent advance skip_run
settle db cfg now c (delivered message_id) stored =
    if stored then advance (record_sent db now c message_id) now c else db
settle db cfg now c (failed_with (step_skip text)) stored = advance (skip_run db now c text) now c
settle db cfg now c (failed_with f) stored = handle_failure db cfg now c f

-- `fresh.status === 'PAUSED' || (fresh.status === 'ACTIVE' && fresh.campaign.status === 'PAUSED')`
abbrev pub resumable : Enrollment → Campaign → Bool
resumable e c = is_paused e.status || (is_active e.status && campaign_is_paused c.status)

unfoldable pub give_back : Db → Claimed → Db
unfolding update_many
give_back db c =
    set_run c.run.id
      (λ r. record r { status = RunStatus.queued; started_at = none; attempts = r.attempts - 1 }) db

unfoldable pub cancel_run : Db → ℕ → Claimed → Db
unfolding update_many
cancel_run db now c =
    set_run c.run.id (λ r. record r { status = RunStatus.canceled; finished_at = some now }) db

-- The check just before a send: `none` if the step may go out, else what is written instead.
unfoldable pub withdraw : Db → ℕ → Claimed → Option Db
unfolding find_enrollment find_campaign
withdraw db now c = elim (find_enrollment db c.run.enrollment_id) [
  | none ↦ some (cancel_run db now c)
  | some e ↦ elim (find_campaign db e.campaign_id) [
    | none ↦ some (cancel_run db now c)
    | some k ↦
        if is_active e.status && campaign_is_active k.status
        then none
        else if resumable e k
        then some (give_back db c)
        else some (cancel_run db now c)
  ]
]

-- `execute`, where nothing else happens between its statements.
unfoldable pub execute : Db → Config → Gateway → ℕ → ℕ → Db
unfolding load withdraw give_back cancel_run deliver deliver_email deliver_whatsapp whatsapp_wait
    render_template to_whatsapp_number settle
execute db cfg gw now run_id = elim (load db run_id) [
  | none ↦ db
  | some c ↦
      if is_running c.run.status
      then elim (withdraw db now c) [
        | some db' ↦ db'
        | none ↦ settle db cfg now c (deliver db cfg gw now c) true
      ]
      else db
]
