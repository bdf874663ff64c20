-- ===== src/Campaign/Service.antt =====
-- apps/api/src/modules/campaigns/campaigns.service.ts: the operations of the campaign API. A
-- handler that throws leaves the tables as they were.
use klyvero.Common.{
  ℕ, suc, Bool, true, false, not, ◌&&◌, ◌||◌, ◌∷◌, Option, none, some, String, ◌==◌, if◌then◌else◌,
  is_some, find_first, update_many, delete_many, count_where, any, Text, bad_request, not_found,
  Result, ok, ◌>>=◌, ◌>>◌, throw_if, or_throw,
}
use klyvero.Campaign.Model.{
  Campaign, Step, Mailbox, Db, CampaignStatus, CampaignChannel, MessageChannel, campaign_is_active,
}

unfoldable pub owned : Db → ℕ → ℕ → Result Campaign
unfolding find_first
owned db tenant id =
    or_throw (find_first (λ c. c.id == id && c.tenant_id == tenant) db.campaigns)
      (not_found "Campaign not found")

unfoldable pub mailbox : Db → ℕ → ℕ → Result Mailbox
unfolding find_first
mailbox db tenant id = do
  m ←
      or_throw (find_first (λ m. m.id == id && m.tenant_id == tenant) db.mailboxes)
        (bad_request "Mailbox does not belong to tenant")
  throw_if (not m.is_on) (bad_request "Mailbox is inactive")
  ok m

abbrev pub set_campaign : ℕ → (Campaign → Campaign) → Db → Db
set_campaign id f db = record db { campaigns = update_many (λ c. c.id == id) f db.campaigns }

-- `if (dto.emailMailboxId) await this.mailbox(...)`
abbrev pub check_mailbox : Db → ℕ → Option ℕ → Result (Unit {0})
check_mailbox db tenant none = ok tt
check_mailbox db tenant (some id) = do m ← mailbox db tenant id; ok tt

unfoldable pub create : Db → ℕ → Text → CampaignChannel → Option ℕ → Result (Db × Campaign)
unfolding mailbox
create db tenant name channel mailbox_id = do
  check_mailbox db tenant mailbox_id
  let c : Campaign = record {
    id = db.next_id;
    tenant_id = tenant;
    mailbox_id = mailbox_id;
    name = name;
    status = CampaignStatus.draft;
    channel = channel;
  }
  ok (record db { campaigns = c ∷ db.campaigns; next_id = suc db.next_id }, c)

-- A field that the request leaves out is not written.
abbrev apply_update : Option Text → Option ℕ → Campaign → Campaign
apply_update name mailbox_id c = record c {
  name = elim name [ none ↦ c.name | some n ↦ n ];
  mailbox_id = elim mailbox_id [ none ↦ c.mailbox_id | some m ↦ some m ];
}

unfoldable pub update : Db → ℕ → ℕ → Option Text → Option ℕ → Result Db
unfolding owned mailbox update_many
update db tenant id name mailbox_id = do
  c ← owned db tenant id
  throw_if (is_some mailbox_id && campaign_is_active c.status)
      (bad_request "Pause the campaign before changing its mailbox")
  check_mailbox db tenant mailbox_id
  ok (set_campaign c.id (apply_update name mailbox_id) db)

-- The foreign keys delete the campaign's steps, its enrollments, and the runs of both.
unfoldable pub delete_campaign : ℕ → Db → Db
unfolding delete_many
delete_campaign id db = record db {
  campaigns = delete_many (λ c. c.id == id) db.campaigns;
  steps = delete_many (λ s. s.campaign_id == id) db.steps;
  enrollments = delete_many (λ e. e.campaign_id == id) db.enrollments;
  runs =
      delete_many
        (λ r.
          any (λ e. e.id == r.enrollment_id && e.campaign_id == id) db.enrollments
          || any (λ s. s.id == r.step_id && s.campaign_id == id) db.steps)
        db.runs;
}

unfoldable pub remove : Db → ℕ → ℕ → Result Db
unfolding owned delete_campaign
remove db tenant id = do
  c ← owned db tenant id
  throw_if (campaign_is_active c.status) (bad_request "Pause the campaign before deleting it")
  ok (delete_campaign c.id db)

-- `channel !== 'MULTICHANNEL' && channel !== dto.channel`
abbrev pub accepts : CampaignChannel → MessageChannel → Bool
accepts CampaignChannel.multichannel m = true
accepts CampaignChannel.email MessageChannel.email = true
accepts CampaignChannel.whatsapp MessageChannel.whatsapp = true
accepts _ _ = false

abbrev only_message : CampaignChannel → String
only_message CampaignChannel.email = "This campaign only accepts e-mail steps"
only_message _ = "This campaign only accepts WhatsApp steps"

pub record StepDto : Type 0 where
  pub position : ℕ
  pub delay_minutes : ℕ
  pub channel : MessageChannel
  pub subject : Option Text
  pub body : Text

-- A subject that the request leaves out is not written.
abbrev apply_step : StepDto → Step → Step
apply_step dto s = record s {
  position = dto.position;
  delay_minutes = dto.delay_minutes;
  channel = dto.channel;
  subject = elim dto.subject [ none ↦ s.subject | some t ↦ some t ];
  body = dto.body;
}

abbrev new_step : ℕ → ℕ → StepDto → Step
new_step id campaign_id dto = record {
  id = id;
  campaign_id = campaign_id;
  position = dto.position;
  delay_minutes = dto.delay_minutes;
  channel = dto.channel;
  subject = dto.subject;
  body = dto.body;
  is_on = true;
}

abbrev pub is_step_at : ℕ → ℕ → Step → Bool
is_step_at campaign_id position s = s.campaign_id == campaign_id && s.position == position

unfoldable pub upsert_step : ℕ → StepDto → Db → Db
unfolding update_many
upsert_step campaign_id dto db =
    if any (is_step_at campaign_id dto.position) db.steps
    then record db {
      steps = update_many (is_step_at campaign_id dto.position) (apply_step dto) db.steps;
    }
    else record db {
      steps = new_step db.next_id campaign_id dto ∷ db.steps;
      next_id = suc db.next_id;
    }

unfoldable pub add_step : Db → ℕ → ℕ → StepDto → Result Db
unfolding owned upsert_step
add_step db tenant id dto = do
  c ← owned db tenant id
  throw_if (not (accepts c.channel dto.channel)) (bad_request (only_message c.channel))
  ok (upsert_step id dto db)

unfoldable pub remove_step : Db → ℕ → ℕ → ℕ → Result Db
unfolding owned delete_many count_where
remove_step db tenant id step_id = do
  c ← owned db tenant id
  throw_if (campaign_is_active c.status) (bad_request "Pause the campaign before removing steps")
  throw_if (count_where (λ s. s.id == step_id && s.campaign_id == id) db.steps == 0)
      (not_found "Step not found")
  ok (record db {
    steps = delete_many (λ s. s.id == step_id && s.campaign_id == id) db.steps;
    runs =
        delete_many
          (λ r. r.step_id == step_id && any (λ s. s.id == step_id && s.campaign_id == id) db.steps)
          db.runs;
  })
