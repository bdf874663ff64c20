-- ===== src/Campaign/Execute/Policy.antt =====
-- The policy on failures: which are retried and when, which end the enrollment, and that waiting
-- for something that is not the lead's fault costs no attempt.
use klyvero.Common.{
  ℕ, zero, suc, ◌+◌, ◌-◌, ◌*◌, ◌^◌, ◌≤◌, ◌<◌, ◌≡◌, ◌↔◌, refl, ◌⊎◌, inl, inr, Bool, true, false, not,
  ◌&&◌, List, [], ◌∷◌, Option, none, some, map, arith, ltb, ◌==◌, Bool-cases, Option-cases, All,
  All-map, subst, update_many, any, select, String,
}
use klyvero.Text.Template.{retry_delay_ms}
use klyvero.Campaign.Model.{StepRun, Db, RunStatus, is_running, is_queued}
use klyvero.Campaign.Delivery.{Config, Failure, delivered, Claimed}
use klyvero.Campaign.Scheduler.{recover_stuck, is_stuck, claim, claim_run}
use klyvero.Campaign.Execute.{
  deferred, is_permanent, defer_run, retry_run, fail_run, handle_failure, give_back, settle,
}

-- What an update by identifier, which keeps the identifier, leaves in the rows of that identifier.
update_many-row :
    (id : ℕ) (P : StepRun → Type 0) (f : StepRun → StepRun) (rs : List StepRun)
    → ((r : StepRun) → P (f r))
    → All (λ r. r.id ≡ id → P r) (update_many (λ r. r.id == id) f rs)
unfolding update_many
update_many-row id P f [] h = tt
update_many-row id P f (r ∷ rs) h = elim (Bool-cases (r.id == id)) [
  | inl e ↦ (rw e (λ _. h r), update_many-row id P f rs h)
  | inr e ↦ (rw e (λ k. absurd (ground arith)), update_many-row id P f rs h)
]

-- The three fates of a failed run, in terms of the failure and of the attempts made.
abbrev pub IsDeferred : Failure → ℕ → Type 0
IsDeferred f delay = deferred f ≡ some delay

abbrev pub GivesUp : Config → Claimed → Failure → Type 0
GivesUp cfg c f =
    (deferred f ≡ none) × ((is_permanent f ≡ true) ⊎ (cfg.max_attempts ≤ c.run.attempts))

abbrev pub Retries : Config → Claimed → Failure → Type 0
Retries cfg c f =
    (deferred f ≡ none) × (is_permanent f ≡ false) × (c.run.attempts < cfg.max_attempts)

-- The run's row after the failure.
pub record IsJudged (cfg : Config) (now : ℕ) (c : Claimed) (f : Failure) (r : StepRun)
    : Type 0 where
  pub fails : (r.status ≡ RunStatus.failed) ↔ GivesUp cfg c f
  pub waits : (r.status ≡ RunStatus.queued) ↔ ¬ GivesUp cfg c f
  pub deferred_to : (delay : ℕ) → IsDeferred f delay → r.scheduled_at ≡ now + delay
  pub retried_at : Retries cfg c f → r.scheduled_at ≡ now + 60000 * 2 ^ (c.run.attempts - 1)

IsJudged-deferred :
    (cfg : Config) (now : ℕ) (c : Claimed) (f : Failure) (delay : ℕ) (r : StepRun)
    → deferred f ≡ some delay
    → r.status ≡ RunStatus.queued
    → r.scheduled_at ≡ now + delay
    → IsJudged cfg now c f r
IsJudged-deferred cfg now c f delay r e q s = record {
  fails = ((λ k. ground arith), (λ k. ground arith));
  waits = ((λ k g. ground arith), (λ k. q));
  deferred_to = λ d k. ground arith;
  retried_at = λ k. ground arith;
}

IsJudged-retried :
    (cfg : Config) (now : ℕ) (c : Claimed) (f : Failure) (r : StepRun)
    → Retries cfg c f
    → r.status ≡ RunStatus.queued
    → r.scheduled_at ≡ now + 60000 * 2 ^ (c.run.attempts - 1)
    → IsJudged cfg now c f r
IsJudged-retried cfg now c f r h q s = record {
  fails = ((λ k. ground arith), (λ k. ground arith));
  waits = ((λ k g. ground arith), (λ k. q));
  deferred_to = λ d k. ground arith;
  retried_at = λ k. s;
}

IsJudged-failed :
    (cfg : Config) (now : ℕ) (c : Claimed) (f : Failure) (r : StepRun)
    → GivesUp cfg c f
    → r.status ≡ RunStatus.failed
    → IsJudged cfg now c f r
IsJudged-failed cfg now c f r h q = record {
  fails = ((λ k. h), (λ k. q));
  waits = ((λ k. ground arith), (λ k. absurd (k h)));
  deferred_to = λ d k. ground arith;
  retried_at = λ k. ground arith;
}

used_up :
    (cfg : Config) (c : Claimed) (f : Failure)
    → (not (is_permanent f) && ltb c.run.attempts cfg.max_attempts) ≡ false
    → (is_permanent f ≡ true) ⊎ (cfg.max_attempts ≤ c.run.attempts)
used_up cfg c f h = elim (Bool-cases (is_permanent f)) [
  | inl p ↦ inl p
  | inr p ↦ inr (ground arith)
]

-- A failure ends the run exactly where it is permanent or the attempts are used up, and is not one
-- that only defers; otherwise the run waits again, for the delay of the failure, or for a minute
-- that doubles with each attempt.
pub handle_failure-IsJudged :
    (db : Db) (cfg : Config) (now : ℕ) (c : Claimed) (f : Failure)
    → All (λ r. r.id ≡ c.run.id → IsJudged cfg now c f r) (handle_failure db cfg now c f).runs
unfolding handle_failure defer_run retry_run fail_run retry_delay_ms
handle_failure-IsJudged db cfg now c f = elim (Option-cases (deferred f)) [
  | inr (delay, e) ↦
      rw (e, handle_failure)
        (update_many-row c.run.id (IsJudged cfg now c f) _ db.runs
          (λ r. IsJudged-deferred cfg now c f delay _ e refl refl))
  | inl e ↦ elim (Bool-cases (not (is_permanent f) && ltb c.run.attempts cfg.max_attempts)) [
    | inl b ↦
        rw (e, handle_failure)
          (rw b (
            update_many-row c.run.id (IsJudged cfg now c f) _ db.runs
              (λ r. IsJudged-retried cfg now c f _ (e, ground arith, ground arith) refl refl)))
    | inr b ↦
        rw (e, handle_failure)
          (rw b (
            update_many-row c.run.id (IsJudged cfg now c f) _ db.runs
              (λ r. IsJudged-failed cfg now c f _ (e, used_up cfg c f b) refl)))
  ]
]

two_minutes :
    (attempts at now : ℕ) → attempts ≤ 2 → at ≡ now + 60000 * 2 ^ (attempts - 1) → at ≤ now + 120000
two_minutes zero at now h e = omega arith
two_minutes (suc zero) at now h e = omega arith
two_minutes (suc (suc zero)) at now h e = omega arith
two_minutes (suc (suc (suc n))) at now h e = absurd (omega arith)

-- With three attempts, the default, a retry waits one or two minutes.
pub retry-le_two_minutes :
    (db : Db) (cfg : Config) (now : ℕ) (c : Claimed) (f : Failure)
    → cfg.max_attempts ≤ 3
    → Retries cfg c f
    → All
        (λ r. r.id ≡ c.run.id → r.scheduled_at ≤ now + 120000)
        (handle_failure db cfg now c f).runs
retry-le_two_minutes db cfg now c f m h =
    All-map (λ r. r.id ≡ c.run.id → IsJudged cfg now c f r)
      (λ r. r.id ≡ c.run.id → r.scheduled_at ≤ now + 120000) (handle_failure db cfg now c f).runs
      (λ r k e. two_minutes c.run.attempts r.scheduled_at now (omega arith) ((k e).retried_at h))
      (handle_failure-IsJudged db cfg now c f)

-- The attempts in the rows of one identifier.
abbrev pub attempts_of : ℕ → List StepRun → List ℕ
attempts_of id rs = map (λ r. r.attempts) (select (λ r. r.id == id) rs)

module _ (id : ℕ) (ids : List ℕ) (now : ℕ) (g : StepRun → StepRun) where
  abbrev claim_rows : List StepRun → List StepRun
  claim_rows rs = update_many (λ r. any (λ i. i == r.id) ids) (claim_run now) rs

  attempts_of-claimed :
      (rs : List StepRun)
      → any (λ i. i == id) ids ≡ true
      → ((r : StepRun) → (g r).attempts ≡ r.attempts - 1)
      → ((r : StepRun) → (g r).id ≡ r.id)
      → attempts_of id (update_many (λ r. r.id == id) g (claim_rows rs)) ≡ attempts_of id rs
  unfolding update_many select
  attempts_of-claimed [] h ga gi = refl
  attempts_of-claimed (r ∷ rs) h ga gi =
      let ih = attempts_of-claimed rs h ga gi in
      elim (Bool-cases (r.id == id)) [
        | inl e ↦
            let same : id ≡ r.id = ground arith in
            let hit : any (λ i. i == r.id) ids ≡ true =
              subst (λ k. any (λ i. i == k) ids ≡ true) same h in
            rw (hit, e) (ground (arith, ih, ga (claim_run now r), gi (claim_run now r), e))
        | inr e ↦ ground (arith, ih, e)
      ]

-- A run that is claimed and then put off, or given back because its campaign was paused, has as
-- many attempts as before: waiting costs none.
pub attempts_of-kept :
    (db : Db) (now limit : ℕ) (c : Claimed) (at : ℕ) (text : String)
    → any (λ i. i == c.run.id) (claim db now limit).1 ≡ true
    → (attempts_of c.run.id (defer_run (claim db now limit).0 c at text).runs
        ≡ attempts_of c.run.id db.runs)
      × (attempts_of c.run.id (give_back (claim db now limit).0 c).runs
          ≡ attempts_of c.run.id db.runs)
unfolding claim defer_run give_back
attempts_of-kept db now limit c at text h = (
  attempts_of-claimed c.run.id (claim db now limit).1 now _ db.runs h (λ r. refl) (λ r. refl),
  attempts_of-claimed c.run.id (claim db now limit).1 now _ db.runs h (λ r. refl) (λ r. refl),
)

-- A row of the run that is being sent.
abbrev pub is_in_flight : ℕ → ℕ → StepRun → Bool
is_in_flight id started r =
    r.id == id
    && (is_running r.status && elim r.started_at [ none ↦ false | some t ↦ t == started ])

abbrev pub is_waiting : ℕ → StepRun → Bool
is_waiting id r = r.id == id && is_queued r.status

recovered :
    (id started now : ℕ) (rs : List StepRun)
    → started + 600000 < now
    → any (is_in_flight id started) rs ≡ true
    → any (is_waiting id) (
        update_many
          (is_stuck now)
          (λ r. record r { status = RunStatus.queued; started_at = none })
          rs)
      ≡ true
unfolding update_many
recovered id started now [] h k = cc
recovered id started now (r ∷ rs) h k = ground (arith, recovered id started now rs h)

-- A step that was sent, but whose record could not be written at either try, waits in the queue
-- again after the recovery of stuck runs, ten minutes from its start.
pub lost_record-waits :
    (db : Db) (cfg : Config) (now later started : ℕ) (c : Claimed) (message_id : Option ℕ)
    → any (is_in_flight c.run.id started) db.runs ≡ true
    → started + 600000 < later
    → any
        (is_waiting c.run.id)
        (recover_stuck (settle db cfg now c (delivered message_id) false) later).runs
      ≡ true
unfolding settle recover_stuck
lost_record-waits db cfg now later started c m k h = recovered c.run.id started later db.runs h k
