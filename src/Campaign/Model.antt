-- ===== src/Campaign/Model.antt =====
-- The tables of the campaign engine (apps/api/prisma/schema.prisma) with the columns that it reads
-- and writes. Identifiers are numbers, times are milliseconds, a null column is `none`.
use klyvero.Common.{ℕ, Bool, true, false, List, Option, String, Text}

pub data CampaignStatus : Type 0 where
  draft active paused completed archived : CampaignStatus

pub data CampaignChannel : Type 0 where
  email whatsapp multichannel : CampaignChannel

pub data MessageChannel : Type 0 where
  email whatsapp : MessageChannel

pub data EnrollmentStatus : Type 0 where
  active paused replied completed stopped failed : EnrollmentStatus

pub data RunStatus : Type 0 where
  queued running sent skipped failed canceled : RunStatus

pub data LeadStatus : Type 0 where
  new contacted replied qualified meeting won lost blocked : LeadStatus

pub record Campaign : Type 0 where
  pub id : ℕ
  pub tenant_id : ℕ
  pub mailbox_id : Option ℕ
  pub name : Text
  pub status : CampaignStatus
  pub channel : CampaignChannel

pub record Step : Type 0 where
  pub id : ℕ
  pub campaign_id : ℕ
  pub position : ℕ
  pub delay_minutes : ℕ
  pub channel : MessageChannel
  pub subject : Option Text
  pub body : Text
  pub is_on : Bool

pub record Enrollment : Type 0 where
  pub id : ℕ
  pub tenant_id : ℕ
  pub campaign_id : ℕ
  pub lead_id : ℕ
  pub status : EnrollmentStatus
  pub current_position : ℕ
  pub next_run_at : Option ℕ
  pub replied_at : Option ℕ
  pub completed_at : Option ℕ
  pub last_error : Option String

pub record StepRun : Type 0 where
  pub id : ℕ
  pub enrollment_id : ℕ
  pub step_id : ℕ
  pub status : RunStatus
  pub scheduled_at : ℕ
  pub started_at : Option ℕ
  pub finished_at : Option ℕ
  pub message_id : Option ℕ
  pub error : Option String
  pub attempts : ℕ

pub record Lead : Type 0 where
  pub id : ℕ
  pub tenant_id : ℕ
  pub first_name : Option Text
  pub last_name : Option Text
  pub company_name : Option Text
  pub job_title : Option Text
  pub email : Option Text
  pub phone : Option Text
  pub website : Option Text
  pub status : LeadStatus

pub record Activity : Type 0 where
  pub tenant_id : ℕ
  pub lead_id : ℕ
  pub channel : MessageChannel
  pub position : ℕ
  pub message_id : Option ℕ

pub record Mailbox : Type 0 where
  pub id : ℕ
  pub tenant_id : ℕ
  pub is_on : Bool

pub record Connection : Type 0 where
  pub tenant_id : ℕ
  pub session_id : ℕ
  pub logged_in : Bool
  pub updated_at : ℕ

-- The database; `next_id` stands for the generator of fresh row identifiers.
pub record Db : Type 0 where
  pub campaigns : List Campaign
  pub steps : List Step
  pub enrollments : List Enrollment
  pub runs : List StepRun
  pub leads : List Lead
  pub activities : List Activity
  pub mailboxes : List Mailbox
  pub connections : List Connection
  pub next_id : ℕ

abbrev pub is_active : EnrollmentStatus → Bool
is_active active = true
is_active _ = false

-- `status: { in: ['ACTIVE', 'PAUSED'] }`
abbrev pub is_open : EnrollmentStatus → Bool
is_open active = true
is_open paused = true
is_open _ = false

abbrev pub is_paused : EnrollmentStatus → Bool
is_paused paused = true
is_paused _ = false

abbrev pub is_failed : EnrollmentStatus → Bool
is_failed failed = true
is_failed _ = false

-- `TERMINAL` of campaigns.service.ts
abbrev pub is_terminal : EnrollmentStatus → Bool
is_terminal replied = true
is_terminal completed = true
is_terminal stopped = true
is_terminal _ = false

abbrev pub campaign_is_active : CampaignStatus → Bool
campaign_is_active active = true
campaign_is_active _ = false

abbrev pub campaign_is_paused : CampaignStatus → Bool
campaign_is_paused paused = true
campaign_is_paused _ = false

abbrev pub is_queued : RunStatus → Bool
is_queued queued = true
is_queued _ = false

abbrev pub is_running : RunStatus → Bool
is_running running = true
is_running _ = false

abbrev pub run_is_failed : RunStatus → Bool
run_is_failed failed = true
run_is_failed _ = false

abbrev pub run_is_sent : RunStatus → Bool
run_is_sent sent = true
run_is_sent _ = false

abbrev pub lead_is_new : LeadStatus → Bool
lead_is_new new = true
lead_is_new _ = false

abbrev pub is_email : MessageChannel → Bool
is_email email = true
is_email whatsapp = false
