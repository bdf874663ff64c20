-- ===== src/Campaign/Delivery/Allowed.antt =====
-- A step is handed to the mail or WhatsApp service only where that is allowed.
use klyvero.Common.{
  ℕ, ◌+◌, ◌≤◌, ◌≡◌, ◌⊎◌, inl, inr, true, false, ◌&&◌, List, [], ◌∷◌, Memᴰ, Option, some, arith, ltb,
  ◌==◌, Bool-cases, Option-cases, All, All-self, length, Text, is_some, select, select-All,
  select-holds, subst,
}
use klyvero.Text.Phone.{to_whatsapp_number}
use klyvero.Text.Template.{render_template}
use klyvero.Campaign.Model.{Connection, Db, is_email}
use klyvero.Campaign.Delivery.Spacing.{IsTimed, spaced_of_no_wait}
use klyvero.Campaign.Delivery.{
  Config, delivered, Gateway, Claimed, as_template, or_else, given, latest, deliver_email,
  deliver_whatsapp, is_whatsapp_send, whatsapp_wait, deliver,
}

-- The request that was answered with the delivery goes to a lead with an address that has not opted
-- out, from the campaign's mailbox, with the step's texts rendered for the lead and the unsubscribe footer.
pub record EmailAllowed (gw : Gateway) (c : Claimed) (m : Option ℕ) : Type 0 where
  pub to : Text
  pub mailbox : ℕ
  pub addressed : given c.lead.email ≡ some to
  pub from_mailbox : c.campaign.mailbox_id ≡ some mailbox
  pub not_suppressed : gw.is_suppressed c.enrollment.tenant_id to ≡ false
  pub sent :
      gw.send_email c.enrollment.tenant_id (record {
        mailbox_id = mailbox;
        to = to;
        subject = render_template (or_else c.step.subject c.campaign.name) (as_template c.lead);
        text = render_template c.step.body (as_template c.lead);
        lead_id = c.lead.id;
        include_unsubscribe_footer = true;
      })
      ≡ delivered m

-- The message that was answered with the delivery goes through a connection of the workspace that is
-- logged in, to the lead's number, of at least eight digits, with the step's text rendered for the
-- lead, and at least the gap after each WhatsApp message of the workspace that was sent before.
pub record WhatsappAllowed (db : Db) (cfg : Config) (gw : Gateway) (now : ℕ) (c : Claimed)
    (m : Option ℕ) : Type 0 where
  pub phone : Text
  pub connection : Connection
  pub given_phone : given c.lead.phone ≡ some phone
  pub long_enough : 8 ≤ length (to_whatsapp_number phone)
  pub known : Memᴰ connection db.connections
  pub is_own : connection.tenant_id ≡ c.enrollment.tenant_id
  pub is_connected : connection.logged_in ≡ true
  pub spaced :
      All
        (λ r.
          is_whatsapp_send db.steps db.enrollments c.enrollment.tenant_id r ≡ true
          → (t : ℕ) → r.finished_at ≡ some t
          → (cfg.whatsapp_gap_ms ≡ 0) ⊎ (t + cfg.whatsapp_gap_ms ≤ now))
        db.runs
  pub sent :
      gw.send_text c.enrollment.tenant_id connection.session_id
        (to_whatsapp_number phone)
        (render_template c.step.body (as_template c.lead))
      ≡ delivered m

deliver_email-allowed :
    (gw : Gateway) (c : Claimed) (m : Option ℕ)
    → deliver_email gw c ≡ delivered m
    → EmailAllowed gw c m
unfolding deliver_email
deliver_email-allowed gw c m d = elim (Option-cases (given c.lead.email)) [
  | inl e ↦ absurd (ground arith)
  | inr (to, e) ↦ elim (Option-cases c.campaign.mailbox_id) [
    | inl f ↦ absurd (ground arith)
    | inr (mailbox, f) ↦ elim (Bool-cases (gw.is_suppressed c.enrollment.tenant_id to)) [
      | inl g ↦ absurd (ground arith)
      | inr g ↦ record {
        to = to;
        mailbox = mailbox;
        addressed = e;
        from_mailbox = f;
        not_suppressed = g;
        sent = rw g at rw f at rw (e, deliver_email) at d;
      }
    ]
  ]
]

latest-holds :
    (key : Connection → ℕ) (ws : List Connection) (w : Connection)
    → latest key ws ≡ some w
    → (P : Connection → Type 0) → All P ws
    → P w
latest-holds key [] w h P a = cc
latest-holds key (x ∷ ws) w h P a = elim (Option-cases (latest key ws)) [
  | inl e ↦ let same : x ≡ w = ground arith in subst P same a.0
  | inr (y, e) ↦
      let later = latest-holds key ws y e P a.1 in
      elim (Bool-cases (ltb (key x) (key y))) [
        | inl k ↦ let same : y ≡ w = ground arith in subst P same later
        | inr k ↦ let same : x ≡ w = ground arith in subst P same a.0
      ]
]

deliver_whatsapp-allowed :
    (db : Db) (cfg : Config) (gw : Gateway) (now : ℕ) (c : Claimed) (m : Option ℕ)
    → All (IsTimed db.steps db.enrollments c.enrollment.tenant_id) db.runs
    → deliver_whatsapp db cfg gw now c ≡ delivered m
    → WhatsappAllowed db cfg gw now c m
unfolding deliver_whatsapp
deliver_whatsapp-allowed db cfg gw now c m timed d = elim (Option-cases (given c.lead.phone)) [
  | inl e ↦ absurd (ground arith)
  | inr (phone, e) ↦
      let tenant = c.enrollment.tenant_id in
      let is_usable = λ (w : Connection). w.tenant_id == tenant && w.logged_in in
      let usable = select is_usable db.connections in
      let long : 8 ≤ length (to_whatsapp_number phone) = ground arith in
      elim (Option-cases (latest (λ w. w.updated_at) usable)) [
        | inl f ↦ absurd (ground arith)
        | inr (w, f) ↦
            let no_wait : whatsapp_wait db cfg tenant now ≡ 0 = ground arith in
            let no_gap : ltb 0 (whatsapp_wait db cfg tenant now) ≡ false = ground arith in
            let short : ltb (length (to_whatsapp_number phone)) 8 ≡ false = ground arith in
            let own =
              latest-holds (λ w. w.updated_at) usable w f (λ w. is_usable w ≡ true)
                (select-holds is_usable db.connections) in
            record {
              phone = phone;
              connection = w;
              given_phone = e;
              long_enough = long;
              known =
                  latest-holds (λ w. w.updated_at) usable w f (λ w. Memᴰ w db.connections)
                    (select-All (λ w. Memᴰ w db.connections) is_usable db.connections
                      (All-self db.connections));
              is_own = ground arith;
              is_connected = ground arith;
              spaced = spaced_of_no_wait db cfg tenant now timed no_wait;
              sent =
                  rw short at rw no_gap at rw (f, deliver_whatsapp) at rw (e, deliver_whatsapp) at
                    d;
            }
      ]
]

-- Where every SENT WhatsApp run of the workspace has a finish time, a message that was delivered is
-- the answer to a request that may be made: an e-mail of the step's texts, with the unsubscribe footer, to a lead with an address
-- that has not opted out, through the campaign's mailbox; or a WhatsApp message of the step's text to
-- the lead's number, of at least eight digits, through a logged-in connection of the workspace, no
-- sooner after any earlier one of the workspace than the configured gap.
pub deliver-IsAllowed :
    (db : Db) (cfg : Config) (gw : Gateway) (now : ℕ) (c : Claimed) (m : Option ℕ)
    → All
        (λ r.
          is_whatsapp_send db.steps db.enrollments c.enrollment.tenant_id r ≡ true
          → is_some r.finished_at ≡ true)
        db.runs
    → deliver db cfg gw now c ≡ delivered m
    → ((is_email c.step.channel ≡ true) × EmailAllowed gw c m)
      ⊎ ((is_email c.step.channel ≡ false) × WhatsappAllowed db cfg gw now c m)
unfolding deliver
deliver-IsAllowed db cfg gw now c m timed d = elim (Bool-cases (is_email c.step.channel)) [
  | inl e ↦ inl (e, deliver_email-allowed gw c m (ground arith))
  | inr e ↦ inr (e, deliver_whatsapp-allowed db cfg gw now c m timed (ground arith))
]
