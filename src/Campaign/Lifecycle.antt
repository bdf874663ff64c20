-- ===== src/Campaign/Lifecycle.antt =====
-- apps/api/src/modules/campaigns/campaigns.service.ts: enrolling leads, starting and pausing a
-- campaign, stopping and retrying an enrollment.
pub mod Pausing
pub mod Starting
pub mod Rounds
pub mod Enrolling
use klyvero.Common.{
  ◌>>=◌, ◌>>◌, ℕ, suc, ◌+◌, ◌-◌, ◌*◌, Bool, true, false, not, ◌&&◌, ◌||◌, List, [], ◌∷◌, Option,
  none, some, ltb, ◌==◌, if◌then◌else◌, is_some, is_none, find_first, select, order_by, update_many,
  count_where, any, length, head?, bad_request, Result, ok, throw_if, or_throw,
}
use klyvero.Campaign.Model.{
  Campaign, Step, Enrollment, Lead, Db, EnrollmentStatus, CampaignStatus, is_active, is_open,
  campaign_is_active, is_email,
}
use klyvero.Campaign.Planner.{schedule}
use klyvero.Campaign.Delivery.{given}
use klyvero.Campaign.Execute.{set_enrollments}
use klyvero.Campaign.Service.{owned, mailbox, set_campaign}

-- `steps: { where: { active: true }, orderBy: { position: 'asc' } }`
unfoldable pub active_steps : Db → ℕ → List Step
unfolding select order_by
active_steps db id =
    order_by (λ s. s.position) (select (λ s. s.campaign_id == id && s.is_on) db.steps)

-- `[...new Set(ids)]`
unfoldable pub distinct : List ℕ → List ℕ
distinct [] = []
distinct (x ∷ xs) = let rest = distinct xs in if any (λ y. y == x) xs then rest else x ∷ rest

abbrev pub is_reachable : List Step → Lead → Bool
is_reachable steps lead =
    (any (λ s. is_email s.channel) steps && is_some (given lead.email))
    || (any (λ s. not (is_email s.channel)) steps && is_some (given lead.phone))

abbrev pub is_enrolled : Db → ℕ → Lead → Bool
is_enrolled db id lead = any (λ e. e.campaign_id == id && e.lead_id == lead.id) db.enrollments

-- The enrollment of a lead, with a fresh identifier.
abbrev pub add_enrollment : Campaign → Step → ℕ → Lead → Db → Db
add_enrollment c first now lead db =
    let on = campaign_is_active c.status in
    let e : Enrollment = record {
      id = db.next_id;
      tenant_id = c.tenant_id;
      campaign_id = c.id;
      lead_id = lead.id;
      status = if on then EnrollmentStatus.active else EnrollmentStatus.paused;
      current_position = 0;
      next_run_at = if on then some (now + first.delay_minutes * 60000) else none;
      replied_at = none;
      completed_at = none;
      last_error = none;
    } in
    record db { enrollments = e ∷ db.enrollments; next_id = suc db.next_id }

-- One round of the loop in `enroll`.
unfoldable pub enroll_lead : Campaign → Step → ℕ → Lead → Db → Db
unfolding schedule
enroll_lead c first now lead db =
    let db' = add_enrollment c first now lead db in
    if campaign_is_active c.status
    then (schedule db' db.next_id first (now + first.delay_minutes * 60000) false).0
    else db'

unfoldable pub enroll_all : Campaign → Step → ℕ → List Lead → Db → Db
unfolding enroll_lead
enroll_all c first now [] db = db
enroll_all c first now (lead ∷ leads) db =
    enroll_all c first now leads (enroll_lead c first now lead db)

pub record EnrollReply : Type 0 where
  pub enrolled : ℕ
  pub already_enrolled : ℕ
  pub without_contact : ℕ

unfoldable pub tenant_leads : Db → ℕ → List ℕ → List Lead
unfolding select
tenant_leads db tenant ids =
    select (λ l. l.tenant_id == tenant && any (λ i. i == l.id) ids) db.leads

unfoldable pub enroll : Db → ℕ → ℕ → ℕ → List ℕ → Result (Db × EnrollReply)
unfolding owned active_steps distinct tenant_leads select enroll_all
enroll db tenant now id lead_ids = do
  c ← owned db tenant id
  let steps = active_steps db id
  first ← or_throw (head? steps) (bad_request "Campaign has no active steps")
  let ids = distinct lead_ids
  let leads = tenant_leads db tenant ids
  throw_if (not (length leads == length ids))
      (bad_request "One or more leads do not belong to tenant")
  let reachable = select (is_reachable steps) leads
  let fresh = select (λ l. not (is_enrolled db id l)) reachable
  ok (
    enroll_all c first now fresh db,
    record {
      enrolled = length fresh;
      already_enrolled = length reachable - length fresh;
      without_contact = length leads - length reachable;
    },
  )

-- `campaign.steps.find((step) => step.position > enrollment.currentPosition)`
unfoldable pub step_after : List Step → ℕ → Option Step
unfolding find_first
step_after steps position = find_first (λ s. ltb position s.position) steps

unfoldable pub complete_at_start : ℕ → ℕ → Db → Db
unfolding update_many
complete_at_start now id =
    set_enrollments (λ e. e.id == id)
      (λ e. record e {
        status = EnrollmentStatus.completed;
        completed_at = some now;
        next_run_at = none;
      })

unfoldable pub activate : ℕ → ℕ → Db → Db
unfolding update_many
activate when id =
    set_enrollments (λ e. e.id == id)
      (λ e. record e {
        status = EnrollmentStatus.active;
        next_run_at = some when;
        last_error = none;
      })

-- One round of the loop in `start`.
unfoldable pub start_one : List Step → ℕ → Enrollment → Db → Db
unfolding step_after complete_at_start activate schedule
start_one steps now e db = elim (step_after steps e.current_position) [
  | none ↦ complete_at_start now e.id db
  | some next ↦
      let (db', when) = schedule db e.id next (now + next.delay_minutes * 60000) true in
      activate when e.id db'
]

unfoldable pub start_all : List Step → ℕ → List Enrollment → Db → Db
unfolding start_one
start_all steps now [] db = db
start_all steps now (e ∷ es) db = start_all steps now es (start_one steps now e db)

pub record StartReply : Type 0 where
  pub scheduled : ℕ
  pub completed : ℕ
  pub warned : Bool

unfoldable pub check_start : Db → ℕ → Campaign → List Step → Result (Unit {0})
unfolding mailbox
check_start db tenant c steps =
    if any (λ s. is_email s.channel) steps
    then (do
      id ← or_throw c.mailbox_id (bad_request "Choose the campaign mailbox before starting")
      m ← mailbox db tenant id
      ok tt)
    else ok tt

-- What `start` has read when its transaction begins.
pub record StartPlan : Type 0 where
  pub campaign : ℕ
  pub steps : List Step
  pub rows : List Enrollment
  pub warned : Bool

unfoldable pub plan_start : Db → ℕ → ℕ → Result StartPlan
unfolding owned active_steps check_start select
plan_start db tenant id = do
  c ← owned db tenant id
  let steps = active_steps db id
  throw_if (length steps == 0) (bad_request "Campaign has no active steps")
  check_start db tenant c steps
  ok (record {
    campaign = id;
    steps = steps;
    rows =
        select (λ e. e.campaign_id == id && e.tenant_id == tenant && is_open e.status)
          db.enrollments;
    warned =
        any (λ s. not (is_email s.channel)) steps
        && not (any (λ w. w.tenant_id == tenant && w.logged_in) db.connections);
  })

-- The transaction of `start`, on the tables of its time, and the answer.
unfoldable pub commit_start : Db → ℕ → StartPlan → Db × StartReply
unfolding count_where start_all update_many step_after
commit_start db now plan =
    let done = count_where (λ e. is_none (step_after plan.steps e.current_position)) plan.rows in
    (
      start_all plan.steps now plan.rows
          (set_campaign plan.campaign (λ k. record k { status = CampaignStatus.active }) db),
      record { scheduled = length plan.rows - done; completed = done; warned = plan.warned },
    )

-- `start`, where nothing comes between its reads and its transaction.
unfoldable pub start : Db → ℕ → ℕ → ℕ → Result (Db × StartReply)
unfolding plan_start commit_start
start db tenant now id = plan_start db tenant id >>= λ plan. ok (commit_start db now plan)

abbrev pub pause_enrollment : Enrollment → Enrollment
pause_enrollment e = record e { status = EnrollmentStatus.paused; next_run_at = none }

unfoldable pub pause : Db → ℕ → ℕ → Result Db
unfolding owned update_many
pause db tenant id = do
  c ← owned db tenant id
  ok (
      set_enrollments (λ e. e.campaign_id == id && e.tenant_id == tenant && is_active e.status)
        pause_enrollment (set_campaign id (λ k. record k { status = CampaignStatus.paused }) db))
