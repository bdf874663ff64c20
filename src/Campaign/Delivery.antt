-- ===== src/Campaign/Delivery.antt =====
-- apps/api/src/modules/campaigns/sequence.scheduler.ts: what a step sends, and why it may not.
pub mod Allowed
pub mod Spacing
use klyvero.Common.{
  ℕ, ◌+◌, ◌-◌, ◌*◌, Bool, true, not, ◌&&◌, List, [], ◌∷◌, Option, none, some, String, ltb, ◌==◌,
  if◌then◌else◌, select, any, length, Text, Error,
}
use klyvero.Text.Phone.{to_whatsapp_number}
use klyvero.Text.Template.{TemplateLead, render_template}
use klyvero.Campaign.Model.{
  Campaign, Step, Enrollment, StepRun, Lead, Connection, Db, run_is_sent, is_email,
}

-- The settings that the scheduler reads, after their defaults.
pub record Config : Type 0 where
  pub max_attempts : ℕ
  pub max_per_tick : ℕ
  pub whatsapp_gap_ms : ℕ

-- What a delivery can throw: the three step errors, an HTTP exception, or anything else.
pub data Failure : Type 0 where
  step_skip : String → Failure
  step_defer : String → ℕ → Failure
  step_permanent : String → Failure
  http : Error → Failure
  other : String → Failure

pub data Delivery : Type 0 where
  delivered : Option ℕ → Delivery
  failed_with : Failure → Delivery

pub record EmailRequest : Type 0 where
  pub mailbox_id : ℕ
  pub to : Text
  pub subject : Text
  pub text : Text
  pub lead_id : ℕ
  pub include_unsubscribe_footer : Bool

-- The services that a step is handed to, as they answer at that moment, and the random jitter.
pub record Gateway : Type 0 where
  pub is_suppressed : ℕ → Text → Bool
  pub send_email : ℕ → EmailRequest → Delivery
  pub send_text : ℕ → ℕ → Text → Text → Delivery
  pub jitter_ms : ℕ

-- A run with the rows that `include` joins to it.
pub record Claimed : Type 0 where
  pub run : StepRun
  pub step : Step
  pub enrollment : Enrollment
  pub lead : Lead
  pub campaign : Campaign

abbrev pub as_template : Lead → TemplateLead
as_template l = record {
  first_name = l.first_name;
  last_name = l.last_name;
  company_name = l.company_name;
  job_title = l.job_title;
  email = l.email;
  phone = l.phone;
  website = l.website;
}

-- JavaScript's `!value` for a text that may be null: null and the empty text.
abbrev pub given : Option Text → Option Text
given none = none
given (some []) = none
given (some (c ∷ s)) = some (c ∷ s)

abbrev pub or_else : Option Text → Text → Text
or_else none d = d
or_else (some t) d = t

unfoldable pub deliver_email : Gateway → Claimed → Delivery
deliver_email gw c = elim (given c.lead.email) [
  | none ↦ failed_with (step_skip "Lead sem e-mail")
  | some to ↦ elim c.campaign.mailbox_id [
    | none ↦ failed_with (step_permanent "Campanha sem caixa de e-mail")
    | some mailbox ↦
        if gw.is_suppressed c.enrollment.tenant_id to
        then failed_with (step_skip "Destinatário descadastrado")
        else gw.send_email c.enrollment.tenant_id (record {
          mailbox_id = mailbox;
          to = to;
          subject = render_template (or_else c.step.subject c.campaign.name) (as_template c.lead);
          text = render_template c.step.body (as_template c.lead);
          lead_id = c.lead.id;
          include_unsubscribe_footer = true;
        })
  ]
]

-- `orderBy: { updatedAt: 'desc' }`, first row.
abbrev pub latest : (Connection → ℕ) → List Connection → Option Connection
latest key [] = none
latest key (x ∷ xs) = elim (latest key xs) [
  | none ↦ some x
  | some y ↦ if ltb (key x) (key y) then some y else some x
]

-- The first of two values by `desc`, where the database puts a null first.
abbrev pub latest_time : Option ℕ → Option ℕ → Option ℕ
latest_time none t = none
latest_time (some s) none = none
latest_time (some s) (some t) = if ltb s t then some t else some s

-- A SENT run of a WhatsApp step, of an enrollment of the tenant.
abbrev pub is_whatsapp_send : List Step → List Enrollment → ℕ → StepRun → Bool
is_whatsapp_send steps enrollments tenant r =
    run_is_sent r.status
    && any (λ s. s.id == r.step_id && not (is_email s.channel)) steps
    && any (λ e. e.id == r.enrollment_id && e.tenant_id == tenant) enrollments

-- `orderBy: { finishedAt: 'desc' }`, first row: the time of the tenant's last WhatsApp send, which is
-- null where the row has none.
abbrev pub last_sent : List Step → List Enrollment → ℕ → List StepRun → Option (Option ℕ)
last_sent steps enrollments tenant [] = none
last_sent steps enrollments tenant (r ∷ rs) =
    let rest = last_sent steps enrollments tenant rs in
    if is_whatsapp_send steps enrollments tenant r
    then elim rest [ none ↦ some r.finished_at | some t ↦ some (latest_time r.finished_at t) ]
    else rest

-- How long the tenant must still wait; 0 where nothing was sent, or the row has no time.
abbrev pub wait_after : Config → ℕ → Option (Option ℕ) → ℕ
wait_after cfg now none = 0
wait_after cfg now (some none) = 0
wait_after cfg now (some (some last)) = last + cfg.whatsapp_gap_ms - now

unfoldable pub whatsapp_wait : Db → Config → ℕ → ℕ → ℕ
whatsapp_wait db cfg tenant now =
    if cfg.whatsapp_gap_ms == 0
    then 0
    else wait_after cfg now (last_sent db.steps db.enrollments tenant db.runs)

unfoldable pub deliver_whatsapp : Db → Config → Gateway → ℕ → Claimed → Delivery
deliver_whatsapp db cfg gw now c = elim (given c.lead.phone) [
  | none ↦ failed_with (step_skip "Lead sem telefone")
  | some phone ↦
      let to = to_whatsapp_number phone in
      if ltb (length to) 8
      then failed_with (step_skip "Telefone inválido")
      else elim (latest (λ w. w.updated_at)
          (select (λ w. w.tenant_id == c.enrollment.tenant_id && w.logged_in) db.connections)) [
            | none ↦ failed_with (step_defer "Nenhuma sessão de WhatsApp conectada" (5 * 60000))
            | some w ↦
                let wait = whatsapp_wait db cfg c.enrollment.tenant_id now in
                if ltb 0 wait
                then failed_with (
                    step_defer "Aguardando intervalo entre envios de WhatsApp"
                      (wait + gw.jitter_ms))
                else gw.send_text c.enrollment.tenant_id w.session_id to
                    (render_template c.step.body (as_template c.lead))
          ]
]

unfoldable pub deliver : Db → Config → Gateway → ℕ → Claimed → Delivery
deliver db cfg gw now c =
    if is_email c.step.channel then deliver_email gw c else deliver_whatsapp db cfg gw now c
