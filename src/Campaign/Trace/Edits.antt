-- ===== src/Campaign/Trace/Edits.antt =====
-- Starting, enrolling and editing a campaign keep the enrollments that have ended.
use klyvero.Common.{
  ℕ, ◌≡◌, ◌≢◌, inl, inr, subst, ap, Bool, true, false, not, ◌&&◌, List, [], ◌∷◌, Option, Text,
  arith, ◌==◌, Bool-cases, All, All-zip, count_where, any, head?, select, select-All, select-holds,
  is_some, delete_many, ok, length, or_throw, throw_if, >>=-eq-ok, ok-injective, bad_request,
}
use klyvero.Campaign.Model.{
  Campaign, CampaignChannel, Step, Enrollment, Lead, Db, is_open, is_terminal, campaign_is_active,
}
use klyvero.Campaign.Service.{
  owned, create, check_mailbox, update, remove, delete_campaign, StepDto, accepts, upsert_step,
  is_step_at, add_step, remove_step,
}
use klyvero.Campaign.Lifecycle.{
  EnrollReply, StartPlan, plan_start, commit_start, active_steps, check_start, enroll, enroll_all,
  enroll_lead, add_enrollment, distinct, tenant_leads, is_reachable, is_enrolled,
}
use klyvero.Campaign.Trace.Keeps.{HasEnded, schedule-HasEnded}
use klyvero.Campaign.Trace.Operations.{start_all-HasEnded}

delete_many-All {ℓ κ} :
    {A : Type ℓ} (P : A → Type κ) (p : A → Bool) (xs : List A) → All P xs → All P (delete_many p xs)
unfolding delete_many
delete_many-All P p [] h = tt
delete_many-All P p (x ∷ xs) h = ground (arith, delete_many-All P p xs h.1)

module _ (id : ℕ) where
  -- A start that reads after the end does not list the ended enrollment.
  pub plan_start-ne :
      (db : Db) (tenant campaign : ℕ) (plan : StartPlan)
      → plan_start db tenant campaign ≡ ok plan
      → HasEnded id db
      → All (λ (e : Enrollment). e.id ≢ id) plan.rows
  unfolding plan_start
  plan_start-ne db tenant campaign plan p h =
      let (c, p₀, p₁) = >>=-eq-ok (owned db tenant campaign) _ p in
      let steps = active_steps db campaign in
      let (u, p₂, p₃) = >>=-eq-ok (throw_if (length steps == 0) _) _ p₁ in
      let (v, p₄, p₅) = >>=-eq-ok (check_start db tenant c steps) _ p₃ in
      let is_row = λ (e : Enrollment).
        e.campaign_id == campaign && e.tenant_id == tenant && is_open e.status in
      subst (λ (q : StartPlan). All (λ (e : Enrollment). e.id ≢ id) q.rows) (ok-injective p₅)
        (All-zip (λ (e : Enrollment). is_row e ≡ true)
          (λ e. e.id ≡ id → is_terminal e.status ≡ true) (λ e. e.id ≢ id)
          (select is_row db.enrollments) (λ e k over same. not_both e campaign tenant k (over same))
          (select-holds is_row db.enrollments)
          (select-All (λ (e : Enrollment). e.id ≡ id → is_terminal e.status ≡ true) is_row
            db.enrollments h.over))
    where
      not_both :
          (e : Enrollment) (campaign tenant : ℕ)
          → (e.campaign_id == campaign && e.tenant_id == tenant && is_open e.status) ≡ true
          → is_terminal e.status ≡ true
          → ⊥
      not_both e campaign tenant = ground arith

  -- The transaction of a start that did not list it leaves it as it is.
  pub commit_start-HasEnded :
      (db : Db) (now : ℕ) (plan : StartPlan)
      → All (λ (e : Enrollment). e.id ≢ id) plan.rows
      → HasEnded id db
      → HasEnded id (commit_start db now plan).0
  unfolding commit_start
  commit_start-HasEnded db now plan ne h =
      start_all-HasEnded id plan.steps now plan.rows _ ne
        (record { known = h.known; over = h.over })

  enroll_lead-HasEnded :
      (c : Campaign) (first : Step) (now : ℕ) (lead : Lead) (db : Db)
      → HasEnded id db
      → HasEnded id (enroll_lead c first now lead db)
  unfolding enroll_lead
  enroll_lead-HasEnded c first now lead db h =
      let fresh : HasEnded id (add_enrollment c first now lead db) = record {
        known = omega (arith, h.known);
        over = ((λ e. absurd (omega (arith, h.known))), h.over);
      } in
      elim (Bool-cases (campaign_is_active c.status)) [
        | inl k ↦ rw k (schedule-HasEnded id _ db.next_id first _ false (rw k at fresh))
        | inr k ↦ rw k (rw k at fresh)
      ]

  enroll_all-HasEnded :
      (c : Campaign) (first : Step) (now : ℕ) (leads : List Lead) (db : Db)
      → HasEnded id db
      → HasEnded id (enroll_all c first now leads db)
  unfolding enroll_all
  enroll_all-HasEnded c first now [] db h = h
  enroll_all-HasEnded c first now (lead ∷ leads) db h =
      enroll_all-HasEnded c first now leads (enroll_lead c first now lead db)
        (enroll_lead-HasEnded c first now lead db h)

  pub enroll-HasEnded :
      (db db' : Db) (tenant now campaign : ℕ) (leads : List ℕ) (answer : EnrollReply)
      → enroll db tenant now campaign leads ≡ ok (db', answer)
      → HasEnded id db
      → HasEnded id db'
  unfolding enroll
  enroll-HasEnded db db' tenant now campaign leads answer p h =
      let (c, p₀, p₁) = >>=-eq-ok (owned db tenant campaign) _ p in
      let (first, p₂, p₃) = >>=-eq-ok (or_throw (head? (active_steps db campaign)) _) _ p₁ in
      let (u, p₄, p₅) =
        >>=-eq-ok
          (throw_if
            (not (length (tenant_leads db tenant (distinct leads)) == length (distinct leads)))
            (bad_request "One or more leads do not belong to tenant"))
          _ p₃ in
      subst (HasEnded id) (ap (λ r. r.0) (ok-injective p₅)) (
        enroll_all-HasEnded c first now
          (select (λ l. not (is_enrolled db campaign l))
            (select (is_reachable (active_steps db campaign))
              (tenant_leads db tenant (distinct leads))))
          db h)

  pub create-HasEnded :
      (db db' : Db) (tenant : ℕ) (name : Text) (channel : CampaignChannel) (mailbox : Option ℕ)
      (c : Campaign)
      → create db tenant name channel mailbox ≡ ok (db', c)
      → HasEnded id db
      → HasEnded id db'
  unfolding create
  create-HasEnded db db' tenant name channel mailbox c p h =
      let (u, p₀, p₁) = >>=-eq-ok (check_mailbox db tenant mailbox) _ p in
      subst (HasEnded id) (ap (λ r. r.0) (ok-injective p₁))
        (record { known = omega (arith, h.known); over = h.over })

  pub update-HasEnded :
      (db db' : Db) (tenant campaign : ℕ) (name : Option Text) (mailbox : Option ℕ)
      → update db tenant campaign name mailbox ≡ ok db'
      → HasEnded id db
      → HasEnded id db'
  unfolding update
  update-HasEnded db db' tenant campaign name mailbox p h =
      let (c, p₀, p₁) = >>=-eq-ok (owned db tenant campaign) _ p in
      let (u, p₂, p₃) =
        >>=-eq-ok (throw_if (is_some mailbox && campaign_is_active c.status) _) _ p₁ in
      let (v, p₄, p₅) = >>=-eq-ok (check_mailbox db tenant mailbox) _ p₃ in
      subst (HasEnded id) (ok-injective p₅) (record { known = h.known; over = h.over })

  pub remove-HasEnded :
      (db db' : Db) (tenant campaign : ℕ)
      → remove db tenant campaign ≡ ok db'
      → HasEnded id db
      → HasEnded id db'
  unfolding remove delete_campaign
  remove-HasEnded db db' tenant campaign p h =
      let (c, p₀, p₁) = >>=-eq-ok (owned db tenant campaign) _ p in
      let (u, p₂, p₃) = >>=-eq-ok (throw_if (campaign_is_active c.status) _) _ p₁ in
      subst (HasEnded id) (ok-injective p₃) (record {
        known = h.known;
        over =
            delete_many-All (λ e. e.id ≡ id → is_terminal e.status ≡ true) _ db.enrollments h.over;
      })

  pub add_step-HasEnded :
      (db db' : Db) (tenant campaign : ℕ) (dto : StepDto)
      → add_step db tenant campaign dto ≡ ok db'
      → HasEnded id db
      → HasEnded id db'
  unfolding add_step upsert_step
  add_step-HasEnded db db' tenant campaign dto p h =
      let (c, p₀, p₁) = >>=-eq-ok (owned db tenant campaign) _ p in
      let (u, p₂, p₃) = >>=-eq-ok (throw_if (not (accepts c.channel dto.channel)) _) _ p₁ in
      subst (HasEnded id) (ok-injective p₃)
        (elim (Bool-cases (any (is_step_at campaign dto.position) db.steps)) [
          | inl k ↦ rw k (record { known = h.known; over = h.over })
          | inr k ↦ rw k (record { known = omega (arith, h.known); over = h.over })
        ])

  pub remove_step-HasEnded :
      (db db' : Db) (tenant campaign step_id : ℕ)
      → remove_step db tenant campaign step_id ≡ ok db'
      → HasEnded id db
      → HasEnded id db'
  unfolding remove_step
  remove_step-HasEnded db db' tenant campaign step_id p h =
      let (c, p₀, p₁) = >>=-eq-ok (owned db tenant campaign) _ p in
      let (u, p₂, p₃) = >>=-eq-ok (throw_if (campaign_is_active c.status) _) _ p₁ in
      let (v, p₄, p₅) = >>=-eq-ok (throw_if (count_where _ db.steps == 0) _) _ p₃ in
      subst (HasEnded id) (ok-injective p₅) (record { known = h.known; over = h.over })
