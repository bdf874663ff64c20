-- ===== src/Campaign/Trace/Operations.antt =====
-- The operations of the campaign API, replies and opt-outs keep the enrollments that have ended.
use klyvero.Common.{
  ℕ, ◌+◌, ◌*◌, ◌≡◌, ◌≢◌, inl, inr, refl, subst, Bool, true, false, not, List, [], ◌∷◌, arith, ◌==◌,
  Bool-cases, Option-cases, All, All-mem, update_many, update_many-All, find_first-holds,
  find_first-mem, ok, or_throw, throw_if, >>=-eq-ok, ok-injective, or_throw-eq-ok, throw_if-eq-ok,
}
use klyvero.Campaign.Model.{Step, Enrollment, Lead, Db, is_terminal, is_failed}
use klyvero.Campaign.Service.{owned}
use klyvero.Campaign.Lifecycle.{
  pause, pause_enrollment, start_all, start_one, step_after, complete_at_start, activate,
}
use klyvero.Campaign.Rescue.{
  stop, stop_row, step_to_retry, stop_enrollment, enrollment_of, RetryPlan, plan_retry,
  commit_retry, reopen, reply, opt_out,
}
use klyvero.Campaign.Trace.Keeps.{HasEnded, update_open, schedule-HasEnded}

module _ (id : ℕ) where
  pub reply-HasEnded :
      (db : Db) (tenant at : ℕ) (leads : List ℕ)
      → HasEnded id db
      → HasEnded id (reply db tenant at leads)
  unfolding reply
  reply-HasEnded db tenant at leads h = record {
    known = h.known;
    over = update_open id _ _ db.enrollments (λ e k. ground arith) (λ e. refl) h.over;
  }

  pub opt_out-HasEnded :
      (db : Db) (tenant : ℕ) (is_recipient : Lead → Bool)
      → HasEnded id db
      → HasEnded id (opt_out db tenant is_recipient)
  unfolding opt_out
  opt_out-HasEnded db tenant is_recipient h = record {
    known = h.known;
    over = update_open id _ _ db.enrollments (λ e k. ground arith) (λ e. refl) h.over;
  }

  pub pause-HasEnded :
      (db db' : Db) (tenant campaign : ℕ)
      → pause db tenant campaign ≡ ok db'
      → HasEnded id db
      → HasEnded id db'
  unfolding pause
  pause-HasEnded db db' tenant campaign p h =
      let (c, found, rest) = >>=-eq-ok (owned db tenant campaign) _ p in
      subst (HasEnded id) (ok-injective rest) (record {
        known = h.known;
        over =
            update_open id _ pause_enrollment db.enrollments (λ e k. ground arith) (λ e. refl)
              h.over;
      })

  pub stop_enrollment-HasEnded :
      (db db' : Db) (tenant now campaign other : ℕ)
      → stop_enrollment db tenant now campaign other ≡ ok db'
      → HasEnded id db
      → HasEnded id db'
  unfolding stop_enrollment stop
  stop_enrollment-HasEnded db db' tenant now campaign other p h =
      let (e, found, rest) = >>=-eq-ok (enrollment_of db tenant campaign other) _ p in
      subst (HasEnded id) (ok-injective rest) (elim (Bool-cases (is_terminal e.status)) [
        | inl t ↦ rw t h
        | inr t ↦ rw t (record {
          known = h.known;
          over =
              update_many-All (λ x. x.id ≡ id → is_terminal x.status ≡ true) (λ x. x.id == other)
                stop_row db.enrollments (λ x o k i. refl) h.over;
        })
      ])

  -- Updates by another identifier.
  other_row :
      (other : ℕ) (f : Enrollment → Enrollment) (es : List Enrollment)
      → other ≢ id
      → ((e : Enrollment) → (f e).id ≡ e.id)
      → All (λ e. e.id ≡ id → is_terminal e.status ≡ true) es
      → All (λ e. e.id ≡ id → is_terminal e.status ≡ true) (update_many (λ e. e.id == other) f es)
  other_row other f es ne same h =
      update_many-All (λ e. e.id ≡ id → is_terminal e.status ≡ true) _ f es
        (λ e o k i. absurd (ground (arith, same e))) h

  -- The row that a guarded lookup finds is not the ended one, if it has not ended.
  enrollment_of-ne :
      (db : Db) (tenant campaign other : ℕ) (e : Enrollment)
      → enrollment_of db tenant campaign other ≡ ok e
      → is_terminal e.status ≡ false
      → HasEnded id db
      → other ≢ id
  unfolding enrollment_of
  enrollment_of-ne db tenant campaign other e found t h same =
      let row = or_throw-eq-ok _ _ found in
      let over : e.id ≡ id → is_terminal e.status ≡ true =
        All-mem (λ x. x.id ≡ id → is_terminal x.status ≡ true) db.enrollments h.over
          (find_first-mem _ db.enrollments row) in
      let matched = find_first-holds _ db.enrollments row in
      let is_id : e.id ≡ id = ground arith in absurd (ground (arith, over is_id))

  reopen-HasEnded :
      (on : Bool) (at other : ℕ) (db : Db)
      → other ≢ id
      → HasEnded id db
      → HasEnded id (reopen on at other db)
  unfolding reopen
  reopen-HasEnded on at other db ne h = record {
    known = h.known;
    over = other_row other _ db.enrollments ne (λ e. refl) h.over;
  }

  -- A retry that reads after the end does not take the ended enrollment.
  pub plan_retry-ne :
      (db : Db) (tenant campaign other : ℕ) (plan : RetryPlan)
      → plan_retry db tenant campaign other ≡ ok plan
      → HasEnded id db
      → plan.enrollment ≢ id
  unfolding plan_retry
  plan_retry-ne db tenant campaign other plan p h =
      let (e, found, p₁) = >>=-eq-ok (enrollment_of db tenant campaign other) _ p in
      let (u, failed, p₂) = >>=-eq-ok (throw_if (not (is_failed e.status)) _) _ p₁ in
      let (step, chosen, p₃) = >>=-eq-ok (or_throw (step_to_retry db campaign e) _) _ p₂ in
      let guard = throw_if-eq-ok (not (is_failed e.status)) _ failed in
      subst (λ (q : RetryPlan). q.enrollment ≢ id) (ok-injective p₃)
        (enrollment_of-ne db tenant campaign other e found (ground arith) h)

  pub commit_retry-HasEnded :
      (db : Db) (now : ℕ) (plan : RetryPlan)
      → plan.enrollment ≢ id
      → HasEnded id db
      → HasEnded id (commit_retry db now plan)
  unfolding commit_retry
  commit_retry-HasEnded db now plan ne h =
      reopen-HasEnded plan.is_on now plan.enrollment _ ne
        (schedule-HasEnded id db plan.enrollment plan.step now false h)

  start_one-HasEnded :
      (steps : List Step) (now : ℕ) (e : Enrollment) (db : Db)
      → e.id ≢ id
      → HasEnded id db
      → HasEnded id (start_one steps now e db)
  unfolding start_one complete_at_start activate
  start_one-HasEnded steps now e db ne h =
      elim (Option-cases (step_after steps e.current_position)) [
        | inl k ↦
            rw (k, start_one)
              (record {
                known = h.known;
                over = other_row e.id _ db.enrollments ne (λ x. refl) h.over;
              })
        | inr (s, k) ↦
            let queued = schedule-HasEnded id db e.id s (now + s.delay_minutes * 60000) true h in
            rw (k, start_one)
              (record {
                known = queued.known;
                over = other_row e.id _ _ ne (λ x. refl) queued.over;
              })
      ]

  pub start_all-HasEnded :
      (steps : List Step) (now : ℕ) (es : List Enrollment) (db : Db)
      → All (λ e. e.id ≢ id) es
      → HasEnded id db
      → HasEnded id (start_all steps now es db)
  unfolding start_all
  start_all-HasEnded steps now [] db ne h = h
  start_all-HasEnded steps now (e ∷ es) db ne h =
      start_all-HasEnded steps now es (start_one steps now e db) ne.1
        (start_one-HasEnded steps now e db ne.0 h)
