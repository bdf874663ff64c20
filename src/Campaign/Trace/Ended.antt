-- ===== src/Campaign/Trace/Ended.antt =====
-- An enrollment that has ended, by a reply, a stop, an opt-out or its last step, stays ended,
-- and no further step of it goes out.
use klyvero.Common.{
  ℕ, ◌≡◌, ◌≢◌, inl, inr, true, false, none, some, arith, Option-cases, All, All-mem, find_first-mem,
  find_first-holds, ◌==◌,
}
use klyvero.Campaign.Model.{Db, Enrollment, is_active, is_terminal}
use klyvero.Campaign.Delivery.{Config, Claimed}
use klyvero.Campaign.Scheduler.{find_enrollment, recover_stuck, claim}
use klyvero.Campaign.Execute.{withdraw}
use klyvero.Campaign.Lifecycle.{StartPlan}
use klyvero.Campaign.Rescue.{RetryPlan}
use klyvero.Campaign.Trace.{
  Event, claims, recovers, withdraws, settles, creates, updates, removes, adds_step, removes_step,
  enrolls, pauses, stops, replies, opts_out, Live, LiveEvent, happens, reads_start, commits_start,
  reads_retry, commits_retry, Reach, here, next,
}
use klyvero.Campaign.Trace.Keeps.{HasEnded, settle-HasEnded, withdraw-HasEnded}
use klyvero.Campaign.Trace.Operations.{
  reply-HasEnded, opt_out-HasEnded, pause-HasEnded, stop_enrollment-HasEnded, plan_retry-ne,
  commit_retry-HasEnded,
}
use klyvero.Campaign.Trace.Edits.{
  plan_start-ne, commit_start-HasEnded, enroll-HasEnded, create-HasEnded, update-HasEnded,
  remove-HasEnded, add_step-HasEnded, remove_step-HasEnded,
}

module _ (cfg : Config) (id : ℕ) where
  Event-HasEnded : {db db' : Db} → Event cfg db db' → HasEnded id db → HasEnded id db'
  unfolding claim recover_stuck
  Event-HasEnded (claims db now limit) h = record { known = h.known; over = h.over }
  Event-HasEnded (recovers db now) h = record { known = h.known; over = h.over }
  Event-HasEnded (withdraws db db' now c w) h = withdraw-HasEnded id db db' now c w h
  Event-HasEnded (settles db now c d stored) h = settle-HasEnded id db cfg now c d stored h
  Event-HasEnded (creates db db' t n k m c p) h = create-HasEnded id db db' t n k m c p h
  Event-HasEnded (updates db db' t i n m p) h = update-HasEnded id db db' t i n m p h
  Event-HasEnded (removes db db' t i p) h = remove-HasEnded id db db' t i p h
  Event-HasEnded (adds_step db db' t i dto p) h = add_step-HasEnded id db db' t i dto p h
  Event-HasEnded (removes_step db db' t i s p) h = remove_step-HasEnded id db db' t i s p h
  Event-HasEnded (enrolls db db' t now i ls a p) h = enroll-HasEnded id db db' t now i ls a p h
  Event-HasEnded (pauses db db' t i p) h = pause-HasEnded id db db' t i p h
  Event-HasEnded (stops db db' t now k i p) h = stop_enrollment-HasEnded id db db' t now k i p h
  Event-HasEnded (replies db t at ls) h = reply-HasEnded id db t at ls h
  Event-HasEnded (opts_out db t f) h = opt_out-HasEnded id db t f h

  -- It has ended, and no start or retry that may still commit had taken it before.
  record IsClosed (s : Live cfg) : Type 0 where
    ended : HasEnded id s.db
    not_starting : All (λ (p : StartPlan). All (λ (e : Enrollment). e.id ≢ id) p.rows) s.starts
    not_retrying : All (λ (p : RetryPlan). p.enrollment ≢ id) s.retries

  LiveEvent-IsClosed : {s s' : Live cfg} → LiveEvent cfg s s' → IsClosed s → IsClosed s'
  LiveEvent-IsClosed (happens s e) k = record {
    ended = Event-HasEnded e k.ended;
    not_starting = k.not_starting;
    not_retrying = k.not_retrying;
  }
  LiveEvent-IsClosed (reads_start s t i plan p) k = record {
    ended = k.ended;
    not_starting = (plan_start-ne id s.db t i plan p k.ended, k.not_starting);
    not_retrying = k.not_retrying;
  }
  LiveEvent-IsClosed (commits_start s now plan m) k = record {
    ended =
        commit_start-HasEnded id s.db now plan
          (All-mem (λ (p : StartPlan). All (λ (e : Enrollment). e.id ≢ id) p.rows) s.starts
            k.not_starting m)
          k.ended;
    not_starting = k.not_starting;
    not_retrying = k.not_retrying;
  }
  LiveEvent-IsClosed (reads_retry s t c i plan p) k = record {
    ended = k.ended;
    not_starting = k.not_starting;
    not_retrying = (plan_retry-ne id s.db t c i plan p k.ended, k.not_retrying);
  }
  LiveEvent-IsClosed (commits_retry s now plan m) k = record {
    ended =
        commit_retry-HasEnded id s.db now plan
          (All-mem (λ (p : RetryPlan). p.enrollment ≢ id) s.retries k.not_retrying m) k.ended;
    not_starting = k.not_starting;
    not_retrying = k.not_retrying;
  }

  Reach-IsClosed : {s s' : Live cfg} → Reach cfg s s' → IsClosed s → IsClosed s'
  Reach-IsClosed here k = k
  Reach-IsClosed (next r e) k = LiveEvent-IsClosed e (Reach-IsClosed r k)

  found-not_active :
      (db : Db) (i : ℕ) (en : Enrollment)
      → find_enrollment db i ≡ some en
      → i ≡ id
      → HasEnded id db
      → is_active en.status ≡ false
  unfolding find_enrollment
  found-not_active db i en found same h =
      let over : en.id ≡ id → is_terminal en.status ≡ true =
        All-mem (λ x. x.id ≡ id → is_terminal x.status ≡ true) db.enrollments h.over
          (find_first-mem (λ e. e.id == i) db.enrollments found) in
      let matched = find_first-holds (λ e. e.id == i) db.enrollments found in
      let is_id : en.id ≡ id = ground arith in let ended = over is_id in ground (arith, ended)

  -- The check before a send refuses a run of an ended enrollment.
  withdraw-ne-none :
      (db : Db) (now : ℕ) (c : Claimed)
      → c.run.enrollment_id ≡ id
      → HasEnded id db
      → withdraw db now c ≢ none
  unfolding withdraw
  withdraw-ne-none db now c same h w =
      elim (Option-cases (find_enrollment db c.run.enrollment_id)) [
        | inl e ↦ ground arith
        | inr (en, e) ↦
            let off = found-not_active db c.run.enrollment_id en e same h in ground (arith, off)
      ]

-- An enrollment has ended (REPLIED, COMPLETED or STOPPED), and no start or retry that has already
-- read the tables, and whose transaction may still come, took it. Then, whatever the order of
-- scheduler statements, API calls, the two halves of later starts and retries, replies and opt-outs,
-- it is still ended later, and a run of it that is about to be sent at that later time is withdrawn
-- by the check before the send.
pub Reach-HasEnded-withdraw :
    (cfg : Config) (id : ℕ) {s s' : Live cfg} (now : ℕ) (c : Claimed)
    → Reach cfg s s'
    → HasEnded id s.db
    → All (λ (p : StartPlan). All (λ (e : Enrollment). e.id ≢ id) p.rows) s.starts
    → All (λ (p : RetryPlan). p.enrollment ≢ id) s.retries
    → c.run.enrollment_id ≡ id
    → HasEnded id s'.db × (withdraw s'.db now c ≢ none)
Reach-HasEnded-withdraw cfg id {s} {s'} now c r h a b same =
    let closed : IsClosed cfg id s = record { ended = h; not_starting = a; not_retrying = b } in
    let later = (Reach-IsClosed cfg id r closed).ended in
    (later, withdraw-ne-none cfg id s'.db now c same later)
