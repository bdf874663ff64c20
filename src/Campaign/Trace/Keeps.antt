-- ===== src/Campaign/Trace/Keeps.antt =====
-- Each operation keeps the enrollments that have ended as they are.
use klyvero.Common.{
  ℕ, ◌+◌, ◌*◌, ◌<◌, ◌≡◌, ◌⊎◌, inl, inr, refl, sym, subst, Bool, true, false, not, ◌&&◌, List, some,
  arith, ltb, ◌==◌, Bool-cases, Option-cases, All, update_many, update_many-All, count_where, any,
}
use klyvero.Campaign.Model.{Step, Enrollment, Db, is_active, is_open, is_terminal}
use klyvero.Campaign.Planner.{next_step, schedule, upsert_run, waiting_since, is_run_of}
use klyvero.Campaign.Delivery.{
  Config, Failure, step_skip, Delivery, delivered, failed_with, Claimed,
}
use klyvero.Campaign.Execute.{
  can_move, deferred, is_permanent, defer_run, retry_run, fail_run, handle_failure, record_sent,
  complete_enrollment, move_enrollment, schedule_next, advance, skip_run, settle, withdraw,
  give_back, cancel_run,
}

-- The enrollment is past its end, and its identifier has been given out.
pub record HasEnded (id : ℕ) (db : Db) : Type 0 where
  pub known : id < db.next_id
  pub over : All (λ e. e.id ≡ id → is_terminal e.status ≡ true) db.enrollments

withdraw-cases :
    (db db' : Db) (now : ℕ) (c : Claimed)
    → withdraw db now c ≡ some db'
    → (db' ≡ give_back db c) ⊎ (db' ≡ cancel_run db now c)
unfolding withdraw
withdraw-cases db db' now c w = ground arith

module _ (id : ℕ) where
  abbrev Over : Enrollment → Type 0
  Over e = e.id ≡ id → is_terminal e.status ≡ true

  -- An update of open enrollments that keeps their identifier does not touch an ended one.
  pub update_open :
      (p : Enrollment → Bool) (f : Enrollment → Enrollment) (es : List Enrollment)
      → ((e : Enrollment) → p e ≡ true → is_open e.status ≡ true)
      → ((e : Enrollment) → (f e).id ≡ e.id)
      → All Over es
      → All Over (update_many p f es)
  update_open p f es open_only same h =
      update_many-All Over p f es
        (λ e over k i. absurd (clash e (over (ground (arith, same e))) (open_only e k))) h
    where
      clash : (e : Enrollment) → is_terminal e.status ≡ true → is_open e.status ≡ true → ⊥
      clash e = ground arith

  pub schedule-HasEnded :
      (db : Db) (e : ℕ) (step : Step) (at : ℕ) (keep : Bool)
      → HasEnded id db
      → HasEnded id (schedule db e step at keep).0
  unfolding schedule upsert_run
  schedule-HasEnded db e step at keep h = elim (Option-cases (waiting_since db e step.id keep)) [
    | inr (since, w) ↦ rw (w, schedule) h
    | inl w ↦ elim (Bool-cases (any (is_run_of e step.id) db.runs)) [
      | inl k ↦ rw (w, schedule) (rw k (record { known = h.known; over = h.over }))
      | inr k ↦ rw (w, schedule) (rw k (record { known = omega (arith, h.known); over = h.over }))
    ]
  ]

  pub advance-HasEnded :
      (db : Db) (now : ℕ) (c : Claimed) → HasEnded id db → HasEnded id (advance db now c)
  unfolding advance complete_enrollment schedule_next move_enrollment
  advance-HasEnded db now c h =
      elim (Option-cases (next_step db c.enrollment.campaign_id c.step.position)) [
        | inl e ↦
            rw (e, advance)
              (record {
                known = h.known;
                over =
                    update_open (can_move c.enrollment.id) _ db.enrollments (λ e k. ground arith)
                      (λ e. refl) h.over;
              })
        | inr (next, e) ↦
            let moved : HasEnded id (move_enrollment db c) = record {
              known = h.known;
              over =
                  update_open (can_move c.enrollment.id) _ db.enrollments (λ e k. ground arith)
                    (λ e. refl) h.over;
            } in
            let queued =
              schedule-HasEnded (move_enrollment db c) c.enrollment.id next
                (now + next.delay_minutes * 60000) false moved in
            elim (Bool-cases (count_where (can_move c.enrollment.id) db.enrollments == 0)) [
              | inl z ↦ rw (e, advance) (rw z h)
              | inr z ↦
                  rw (e, advance)
                    (rw z (record {
                      known = queued.known;
                      over =
                          update_open (λ e. e.id == c.enrollment.id && is_active e.status) _ _
                            (λ e k. ground arith) (λ e. refl) queued.over;
                    }))
            ]
      ]

  handle_failure-HasEnded :
      (db : Db) (cfg : Config) (now : ℕ) (c : Claimed) (f : Failure)
      → HasEnded id db
      → HasEnded id (handle_failure db cfg now c f)
  unfolding handle_failure defer_run retry_run fail_run
  handle_failure-HasEnded db cfg now c f h =
      let active_only = λ (g : Enrollment → Enrollment) (same : (e : Enrollment) → (g e).id ≡ e.id).
        update_open (λ e. e.id == c.run.enrollment_id && is_active e.status) g db.enrollments
          (λ e k. ground arith) same h.over in
      elim (Option-cases (deferred f)) [
        | inr (delay, e) ↦
            rw (e, handle_failure) (record { known = h.known; over = active_only _ (λ e. refl) })
        | inl e ↦ elim (Bool-cases (not (is_permanent f) && ltb c.run.attempts cfg.max_attempts)) [
          | inl b ↦
              rw (e, handle_failure)
                (rw b (record { known = h.known; over = active_only _ (λ e. refl) }))
          | inr b ↦
              rw (e, handle_failure)
                (rw b (record {
                  known = h.known;
                  over =
                      update_open (λ e. e.id == c.run.enrollment_id && is_open e.status) _
                        db.enrollments (λ e k. ground arith) (λ e. refl) h.over;
                }))
        ]
      ]

  pub settle-HasEnded :
      (db : Db) (cfg : Config) (now : ℕ) (c : Claimed) (d : Delivery) (stored : Bool)
      → HasEnded id db
      → HasEnded id (settle db cfg now c d stored)
  unfolding settle skip_run record_sent
  settle-HasEnded db cfg now c (delivered m) true h =
      advance-HasEnded (record_sent db now c m) now c (record { known = h.known; over = h.over })
  settle-HasEnded db cfg now c (delivered m) false h = h
  settle-HasEnded db cfg now c (failed_with (step_skip text)) stored h =
      advance-HasEnded (skip_run db now c text) now c (record { known = h.known; over = h.over })
  settle-HasEnded db cfg now c (failed_with f) stored h = handle_failure-HasEnded db cfg now c f h

  give_back-HasEnded : (db : Db) (c : Claimed) → HasEnded id db → HasEnded id (give_back db c)
  unfolding give_back
  give_back-HasEnded db c h = record { known = h.known; over = h.over }

  cancel_run-HasEnded :
      (db : Db) (now : ℕ) (c : Claimed) → HasEnded id db → HasEnded id (cancel_run db now c)
  unfolding cancel_run
  cancel_run-HasEnded db now c h = record { known = h.known; over = h.over }

  pub withdraw-HasEnded :
      (db db' : Db) (now : ℕ) (c : Claimed)
      → withdraw db now c ≡ some db'
      → HasEnded id db
      → HasEnded id db'
  withdraw-HasEnded db db' now c w h = elim (withdraw-cases db db' now c w) [
    | inl e ↦ subst (HasEnded id) (sym e) (give_back-HasEnded db c h)
    | inr e ↦ subst (HasEnded id) (sym e) (cancel_run-HasEnded db now c h)
  ]
