-- ===== src/Campaign/Scheduler.antt =====
-- apps/api/src/modules/campaigns/sequence.scheduler.ts: claiming due steps, sending them, and the
-- bookkeeping after a send. Times are arguments; `Gateway` stands for the mail and WhatsApp services.
pub mod Claiming
use klyvero.Common.{
  ℕ, ◌+◌, ◌-◌, Bool, false, ◌&&◌, List, Option, none, some, map, ltb, leb, ◌==◌, find_first, select,
  order_by, update_many, any, take,
}
use klyvero.Campaign.Model.{
  Campaign, Enrollment, StepRun, Db, RunStatus, is_active, campaign_is_active, is_queued,
  is_running,
}
use klyvero.Campaign.Delivery.{Claimed}

unfoldable pub find_enrollment : Db → ℕ → Option Enrollment
unfolding find_first
find_enrollment db id = find_first (λ e. e.id == id) db.enrollments

unfoldable pub find_campaign : Db → ℕ → Option Campaign
unfolding find_first
find_campaign db id = find_first (λ c. c.id == id) db.campaigns

infixl 5 ◌>>=?◌
abbrev ◌>>=?◌ {ℓ κ} : {A : Type ℓ} {B : Type κ} → Option A → (A → Option B) → Option B
none >>=? k = none
some a >>=? k = k a

unfoldable pub load : Db → ℕ → Option Claimed
unfolding find_enrollment find_campaign
load db run_id = find_first (λ r. r.id == run_id) db.runs >>=? λ run.
    find_first (λ s. s.id == run.step_id) db.steps >>=? λ step.
    find_enrollment db run.enrollment_id >>=? λ enrollment.
    find_first (λ l. l.id == enrollment.lead_id) db.leads >>=? λ lead.
    find_campaign db enrollment.campaign_id >>=? λ campaign.
    some
      (record { run = run; step = step; enrollment = enrollment; lead = lead; campaign = campaign })

-- `startedAt: { lt: now - 10 minutes }`; a null start is never less.
abbrev pub is_stuck : ℕ → StepRun → Bool
is_stuck now r =
    is_running r.status && elim r.started_at [ none ↦ false | some t ↦ ltb (t + 600000) now ]

unfoldable pub recover_stuck : Db → ℕ → Db
unfolding update_many
recover_stuck db now = record db {
  runs =
      update_many (is_stuck now) (λ r. record r { status = RunStatus.queued; started_at = none })
        db.runs;
}

-- The join and the conditions of the `claim` statement.
abbrev pub is_live : Db → StepRun → Bool
is_live db r = elim (find_enrollment db r.enrollment_id) [
  | none ↦ false
  | some e ↦ is_active e.status && elim (find_campaign db e.campaign_id) [
    | none ↦ false
    | some c ↦ campaign_is_active c.status
  ]
]

abbrev pub is_due : Db → ℕ → StepRun → Bool
is_due db now r = is_queued r.status && leb r.scheduled_at now && is_live db r

abbrev pub claim_run : ℕ → StepRun → StepRun
claim_run now r = record r {
  status = RunStatus.running;
  started_at = some now;
  attempts = r.attempts + 1;
}

unfoldable pub due_runs : Db → ℕ → ℕ → List StepRun
unfolding select order_by find_enrollment find_campaign
due_runs db now limit = take limit (order_by (λ r. r.scheduled_at) (select (is_due db now) db.runs))

unfoldable pub claim : Db → ℕ → ℕ → Db × List ℕ
unfolding due_runs update_many
claim db now limit =
    let ids = map (λ r. r.id) (due_runs db now limit) in
    (record db { runs = update_many (λ r. any (λ i. i == r.id) ids) (claim_run now) db.runs }, ids)
