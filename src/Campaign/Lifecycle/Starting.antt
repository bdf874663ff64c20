-- ===== src/Campaign/Lifecycle/Starting.antt =====
-- Starting a campaign: every open enrollment is completed or gets a waiting run. The code is `start` of
-- apps/api/src/modules/campaigns/campaigns.service.ts.
use klyvero.Common.{
  ℕ, ◌+◌, ◌*◌, ◌≡◌, inl, inr, refl, Bool, true, false, ◌&&◌, List, [], ◌∷◌, some, arith, ◌==◌,
  Bool-cases, All, update_many, any, select, find_first, ok,
}
use klyvero.Campaign.Model.{
  Step, Enrollment, StepRun, Db, is_open, is_paused, is_queued, is_running,
}
use klyvero.Campaign.Planner.{is_run_of, requeue, schedule, upsert_run, waiting_since}
use klyvero.Campaign.Lifecycle.Rounds.{is_ahead, Launched}
use klyvero.Campaign.Lifecycle.{start_one, step_after, activate, StartPlan, start, StartReply}

module _ (tenant id : ℕ) where
  -- A paused enrollment of the campaign is one of those that are still to be started.
  abbrev Pending : List Enrollment → Enrollment → Type 0
  Pending es x =
      x.campaign_id ≡ id
      → x.tenant_id ≡ tenant
      → is_paused x.status ≡ true
      → any (λ y. y.id == x.id) es ≡ true

  abbrev is_row : Enrollment → Bool
  is_row e = e.campaign_id == id && e.tenant_id == tenant && is_open e.status

pub record IsStarted (tenant now id : ℕ) (plan : StartPlan) (read : Db) (alone : Db × StartReply)
    (after : Db) : Type 0 where
  pub lists : plan.rows ≡ select (is_row tenant id) read.enrollments
  pub starts : start read tenant now id ≡ ok alone
  pub launched : All (λ e. All (Launched e.id) after.enrollments) plan.rows
  pub queued :
      All
        (λ e.
          (s : Step)
          → step_after plan.steps e.current_position ≡ some s
          → any (is_ahead e.id s.id) after.runs ≡ true)
        plan.rows
  pub none_paused :
      All
        (λ e. e.campaign_id ≡ id → e.tenant_id ≡ tenant → is_paused e.status ≡ false)
        alone.0.enrollments

requeued_rows :
    (e s at : ℕ) (rs : List StepRun)
    → All
        (λ r. is_run_of e s r ≡ true → (is_queued r.status ≡ true) × (r.attempts ≡ 0))
        (update_many (is_run_of e s) (requeue at) rs)
unfolding update_many
requeued_rows e s at [] = tt
requeued_rows e s at (r ∷ rs) = elim (Bool-cases (is_run_of e s r)) [
  | inl k ↦ (rw k (λ _. (refl, refl)), requeued_rows e s at rs)
  | inr k ↦ (rw k (λ j. absurd (ground arith)), requeued_rows e s at rs)
]

any_of_find_first :
    (p : StepRun → Bool) (rs : List StepRun) (r : StepRun)
    → find_first p rs ≡ some r
    → any p rs ≡ true
unfolding find_first
any_of_find_first p [] r h = cc
any_of_find_first p (x ∷ rs) r h = ground (arith, any_of_find_first p rs r)

-- A start puts a step that is being sent back in the queue: where the run of an enrollment's next
-- step is RUNNING, after the enrollment's round of the start every run of that step is QUEUED, with
-- no attempt counted.
pub start_one-requeues :
    (steps : List Step) (now : ℕ) (e : Enrollment) (db : Db) (s : Step) (r : StepRun)
    → step_after steps e.current_position ≡ some s
    → find_first (is_run_of e.id s.id) db.runs ≡ some r
    → is_running r.status ≡ true
    → All
        (λ q. is_run_of e.id s.id q ≡ true → (is_queued q.status ≡ true) × (q.attempts ≡ 0))
        (start_one steps now e db).runs
unfolding start_one activate schedule upsert_run waiting_since
start_one-requeues steps now e db s r k f run =
    let here = any_of_find_first (is_run_of e.id s.id) db.runs r f in
    let waits_not : is_queued r.status ≡ false = ground arith in
    rw (k, start_one)
      (rw (f, schedule, waiting_since)
        (rw waits_not (rw here (requeued_rows e.id s.id (now + s.delay_minutes * 60000) db.runs))))
