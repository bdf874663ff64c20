-- ===== src/Campaign/Lifecycle/Pausing.antt =====
-- Pausing a campaign: none of its enrollments stays active, and none of its steps is due.
use klyvero.Common.{
  ℕ, ◌≡◌, ◌≢◌, subst, false, ◌&&◌, List, [], ◌∷◌, arith, ◌==◌, All, All-mem, find_first-mem,
  find_first-holds, update_many, ok, >>=-eq-ok, ok-injective,
}
use klyvero.Campaign.Model.{Campaign, Enrollment, StepRun, Db, CampaignStatus, is_active}
use klyvero.Campaign.Scheduler.{find_campaign}
use klyvero.Campaign.Scheduler.Claiming.{Due}
use klyvero.Campaign.Service.{owned}
use klyvero.Campaign.Lifecycle.{pause, pause_enrollment}

pub record IsPaused (tenant id : ℕ) (db : Db) : Type 0 where
  pub none_active :
      All
        (λ e. e.campaign_id ≡ id → e.tenant_id ≡ tenant → is_active e.status ≡ false)
        db.enrollments
  pub nothing_due : (now : ℕ) (r : StepRun) (d : Due db now r) → d.enrollment.campaign_id ≢ id

none_active-updated :
    (tenant id : ℕ) (es : List Enrollment)
    → All
        (λ e. e.campaign_id ≡ id → e.tenant_id ≡ tenant → is_active e.status ≡ false)
        (update_many
          (λ e. e.campaign_id == id && e.tenant_id == tenant && is_active e.status)
          pause_enrollment
          es)
unfolding update_many
none_active-updated tenant id [] = tt
none_active-updated tenant id (e ∷ es) = (λ c t. ground arith, none_active-updated tenant id es)

abbrev pause_campaign : Campaign → Campaign
pause_campaign c = record c { status = CampaignStatus.paused }

paused_rows :
    (id : ℕ) (cs : List Campaign)
    → All
        (λ c. c.id ≡ id → c.status ≡ CampaignStatus.paused)
        (update_many (λ c. c.id == id) pause_campaign cs)
unfolding update_many
paused_rows id [] = tt
paused_rows id (c ∷ cs) = (λ e. ground arith, paused_rows id cs)

not-Due :
    (id : ℕ) (db : Db) (now : ℕ) (r : StepRun)
    → All (λ c. c.id ≡ id → c.status ≡ CampaignStatus.paused) db.campaigns
    → (d : Due db now r) → d.enrollment.campaign_id ≢ id
unfolding find_campaign
not-Due id db now r rows d same =
    let paused : d.campaign.id ≡ id → d.campaign.status ≡ CampaignStatus.paused =
      All-mem (λ c. c.id ≡ id → c.status ≡ CampaignStatus.paused) db.campaigns rows
        (find_first-mem (λ c. c.id == d.enrollment.campaign_id) db.campaigns d.owner) in
    let matched = find_first-holds (λ c. c.id == d.enrollment.campaign_id) db.campaigns d.owner in
    let is_id : d.campaign.id ≡ id = ground arith in
    let off = paused is_id in let on = d.started in ground (arith, off, on)

-- After a pause none of the workspace's enrollments in the campaign is active, and no run of any
-- enrollment in the campaign is due, at any time.
pub pause-IsPaused :
    (db db' : Db) (tenant id : ℕ) → pause db tenant id ≡ ok db' → IsPaused tenant id db'
unfolding pause
pause-IsPaused db db' tenant id p =
    let (c, found, rest) = >>=-eq-ok (owned db tenant id) _ p in
    subst (IsPaused tenant id) (ok-injective rest) (record {
      none_active = none_active-updated tenant id db.enrollments;
      nothing_due = λ now r d. not-Due id _ now r (paused_rows id db.campaigns) d;
    })
