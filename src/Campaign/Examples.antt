-- ===== src/Campaign/Examples.antt =====
-- The theorems on the campaign engine at concrete tables: one active campaign with an e-mail step
-- and a WhatsApp step, a lead on the first, and a lead that has replied.
use klyvero.Common.{
  ℕ, Memᴰ, ◌+◌, ◌≡◌, ◌≢◌, ◌≤◌, refl, ◌⊎◌, true, false, [], ◌∷◌, Option, none, some, arith, units,
  any, All, select, ◌==◌,
}
use klyvero.Campaign.Model.{
  Campaign, CampaignStatus, CampaignChannel, MessageChannel, Step, Enrollment, EnrollmentStatus,
  is_email, StepRun, RunStatus, Lead, LeadStatus, Db, is_queued, is_running,
}
use klyvero.Campaign.Planner.{schedule, is_run_of}
use klyvero.Campaign.Planner.Schedule.{IsScheduled, HasUniqueRuns, schedule-IsScheduled}
use klyvero.Campaign.Delivery.{Config, Gateway, Claimed, delivered, other, deliver, deliver_email}
use klyvero.Campaign.Delivery.Allowed.{EmailAllowed, WhatsappAllowed, deliver-IsAllowed}
use klyvero.Campaign.Scheduler.{claim, recover_stuck}
use klyvero.Campaign.Scheduler.Claiming.{IsOldestDue, claim-IsOldestDue}
use klyvero.Campaign.Execute.{settle, handle_failure, withdraw}
use klyvero.Campaign.Execute.Outcome.{settle-IsSettled}
use klyvero.Campaign.Execute.Policy.{
  IsJudged, handle_failure-IsJudged, is_waiting, lost_record-waits,
}
use klyvero.Campaign.Pass.{run_due}
use klyvero.Campaign.Pass.Bound.{run_due-total}
use klyvero.Campaign.Lifecycle.{start_one, StartPlan, plan_start, commit_start}
use klyvero.Campaign.Lifecycle.Starting.{start_one-requeues}
use klyvero.Campaign.Trace.{Live, Reach, happens, reads_start, commits_start, here, next, settles}
use klyvero.Campaign.Trace.Keeps.{HasEnded}
use klyvero.Campaign.Trace.Ended.{Reach-HasEnded-withdraw}

abbrev launch : Campaign
launch = record {
  id = 1;
  tenant_id = 1;
  mailbox_id = some 5;
  name = units "Launch";
  status = CampaignStatus.active;
  channel = CampaignChannel.multichannel;
}

abbrev hello : Step
hello = record {
  id = 1;
  campaign_id = 1;
  position = 1;
  delay_minutes = 0;
  channel = MessageChannel.email;
  subject = some (units "Hi");
  body = units "Hi {{firstName}}";
  is_on = true;
}

abbrev follow_up : Step
follow_up = record {
  id = 2;
  campaign_id = 1;
  position = 2;
  delay_minutes = 60;
  channel = MessageChannel.whatsapp;
  subject = none;
  body = units "Still there?";
  is_on = true;
}

abbrev enrolled : ℕ → ℕ → EnrollmentStatus → Enrollment
enrolled id lead status = record {
  id = id;
  tenant_id = 1;
  campaign_id = 1;
  lead_id = lead;
  status = status;
  current_position = 0;
  next_run_at = some 0;
  replied_at = none;
  completed_at = none;
  last_error = none;
}

abbrev run_at : ℕ → ℕ → RunStatus → Option ℕ → StepRun
run_at id enrollment status started = record {
  id = id;
  enrollment_id = enrollment;
  step_id = 1;
  status = status;
  scheduled_at = 0;
  started_at = started;
  finished_at = none;
  message_id = none;
  error = none;
  attempts = 1;
}

abbrev ana : ℕ → Lead
ana id = record {
  id = id;
  tenant_id = 1;
  first_name = some (units "Ana");
  last_name = none;
  company_name = none;
  job_title = none;
  email = some (units "ana@example.com");
  phone = some (units "11999990000");
  website = none;
  status = LeadStatus.new;
}

abbrev tables : EnrollmentStatus → RunStatus → Option ℕ → Db
tables status run_status started = record {
  campaigns = launch ∷ [];
  steps = follow_up ∷ hello ∷ [];
  enrollments = enrolled 10 20 status ∷ enrolled 11 21 EnrollmentStatus.replied ∷ [];
  runs = run_at 30 10 run_status started ∷ run_at 31 11 RunStatus.queued none ∷ [];
  leads = ana 20 ∷ ana 21 ∷ ana 22 ∷ [];
  activities = [];
  mailboxes = record { id = 5; tenant_id = 1; is_on = true } ∷ [];
  connections = [];
  next_id = 40;
}

-- Before the claim, and while the first step is being sent.
abbrev waiting_tables : Db
waiting_tables = tables EnrollmentStatus.active RunStatus.queued none

abbrev sending_tables : Db
sending_tables = tables EnrollmentStatus.active RunStatus.running (some 100)

abbrev settings : Config
settings = record { max_attempts = 3; max_per_tick = 50; whatsapp_gap_ms = 20000 }

abbrev accepting : Gateway
accepting = record {
  is_suppressed = λ tenant address. false;
  send_email = λ tenant request. delivered (some 7);
  send_text = λ tenant session to text. delivered none;
  jitter_ms = 3;
}

abbrev in_flight : Claimed
in_flight = record {
  run = run_at 30 10 RunStatus.running (some 100);
  step = hello;
  enrollment = enrolled 10 20 EnrollmentStatus.active;
  lead = ana 20;
  campaign = launch;
}

abbrev late_claim : Claimed
late_claim = record {
  run = run_at 31 11 RunStatus.running (some 100);
  step = hello;
  enrollment = enrolled 11 21 EnrollmentStatus.active;
  lead = ana 21;
  campaign = launch;
}

-- A claim takes the first lead's run only: the other lead has replied.
claim_test : (claim waiting_tables 100 10).1 ≡ 30 ∷ []
unfolding claim
claim_test = refl

schedule-IsScheduled_example :
    IsScheduled waiting_tables
      (schedule waiting_tables 10 hello 900 true).0
      10
      1
      (schedule waiting_tables 10 hello 900 true).1
    × (HasUniqueRuns waiting_tables.runs
        → HasUniqueRuns (schedule waiting_tables 10 hello 900 true).0.runs)
schedule-IsScheduled_example = schedule-IsScheduled waiting_tables 10 hello 900 true

claim-IsOldestDue_example : IsOldestDue waiting_tables 100 10
claim-IsOldestDue_example = claim-IsOldestDue waiting_tables 100 10

settle-IsSettled_example :
    All
      (λ r. r.id ≡ 30 → is_running r.status ≡ false)
      (settle sending_tables settings 200 in_flight (delivered none) true).runs
    × (select
          (λ r. r.id == 30)
          (recover_stuck
            (settle sending_tables settings 200 in_flight (delivered none) true)
            900000).runs
        ≡ select
            (λ r. r.id == 30)
            (settle sending_tables settings 200 in_flight (delivered none) true).runs)
settle-IsSettled_example =
    settle-IsSettled sending_tables settings 200 900000 in_flight (delivered none)

handle_failure-IsJudged_example :
    All
      (λ r. r.id ≡ 30 → IsJudged settings 200 in_flight (other "timeout") r)
      (handle_failure sending_tables settings 200 in_flight (other "timeout")).runs
handle_failure-IsJudged_example =
    handle_failure-IsJudged sending_tables settings 200 in_flight (other "timeout")

lost_record-waits_example :
    any
      (is_waiting 30)
      (recover_stuck
        (settle sending_tables settings 200 in_flight (delivered (some 7)) false)
        700000).runs
    ≡ true
lost_record-waits_example =
    lost_record-waits sending_tables settings 200 700000 100 in_flight (some 7) refl (omega arith)

run_due-total_example :
    (p : Db × ℕ) × (run_due settings (λ n. 100 + n) (λ n. accepting) waiting_tables 5 ≡ some p)
    × (p.1 ≤ 5)
run_due-total_example = run_due-total settings (λ n. 100 + n) (λ n. accepting) waiting_tables 5

abbrev paused_tables : Db
paused_tables = tables EnrollmentStatus.paused RunStatus.running (some 100)

abbrev first_plan : StartPlan
first_plan = record {
  campaign = 1;
  steps = hello ∷ follow_up ∷ [];
  rows = enrolled 10 20 EnrollmentStatus.paused ∷ [];
  warned = true;
}

start_one-requeues_example :
    All
      (λ q. is_run_of 10 1 q ≡ true → (is_queued q.status ≡ true) × (q.attempts ≡ 0))
      (start_one
        (hello ∷ follow_up ∷ [])
        500
        (enrolled 10 20 EnrollmentStatus.paused)
        paused_tables).runs
unfolding start_one
start_one-requeues_example =
    start_one-requeues (hello ∷ follow_up ∷ []) 500 (enrolled 10 20 EnrollmentStatus.paused)
      paused_tables hello (run_at 30 10 RunStatus.running (some 100)) refl refl refl

-- A start reads the tables while a step is being sent, and commits after the step is settled.
abbrev later_plan : StartPlan
later_plan = record first_plan { rows = enrolled 10 20 EnrollmentStatus.active ∷ [] }

abbrev before : Live settings
before = record { db = sending_tables; starts = []; retries = [] }

abbrev planned : Live settings
planned = record before { starts = later_plan ∷ [] }

abbrev settled : Live settings
settled = record planned { db = settle sending_tables settings 200 in_flight (delivered none) true }

abbrev started : Live settings
started = record settled { db = (commit_start settled.db 250 later_plan).0 }

steps_taken : Reach settings before started
unfolding plan_start
steps_taken =
    next
      (next (next here (reads_start before 1 1 later_plan refl))
        (happens planned (settles sending_tables 200 in_flight (delivered none) true)))
      (commits_start settled 250 later_plan (Memᴰ.head refl))

Reach-HasEnded-withdraw_example :
    HasEnded 11 started.db × (withdraw started.db 300 late_claim ≢ none)
Reach-HasEnded-withdraw_example =
    Reach-HasEnded-withdraw settings 11 {s = before} {s' = started} 300 late_claim steps_taken
      (record { known = omega arith; over = ((λ e. absurd (omega arith)), ((λ e. refl), tt)) }) tt
      tt refl

deliver-IsAllowed_example :
    ((is_email hello.channel ≡ true) × EmailAllowed accepting in_flight (some 7))
    ⊎ ((is_email hello.channel ≡ false)
        × WhatsappAllowed sending_tables settings accepting 200 in_flight (some 7))
unfolding deliver deliver_email
deliver-IsAllowed_example =
    deliver-IsAllowed sending_tables settings accepting 200 in_flight (some 7)
      ((λ h. absurd (ground arith)), ((λ h. absurd (ground arith)), tt)) refl
