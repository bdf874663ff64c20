-- ===== src/Campaign/Trace.antt =====
-- Every way in which the campaign tables change, as a step relation: the scheduler's statements
-- interleave freely with the API's operations, with the two halves of a start and of a retry, and
-- with replies.
pub mod Keeps
pub mod Operations
pub mod Edits
pub mod Ended
use klyvero.Common.{ℕ, Bool, ◌≡◌, List, ◌∷◌, Memᴰ, Option, some, Text, ok}
use klyvero.Campaign.Model.{Campaign, CampaignChannel, Lead, Db}
use klyvero.Campaign.Delivery.{Config, Delivery, Claimed}
use klyvero.Campaign.Scheduler.{recover_stuck, claim}
use klyvero.Campaign.Execute.{settle, withdraw}
use klyvero.Campaign.Service.{create, update, remove, StepDto, add_step, remove_step}
use klyvero.Campaign.Lifecycle.{EnrollReply, enroll, StartPlan, plan_start, commit_start, pause}
use klyvero.Campaign.Rescue.{stop_enrollment, RetryPlan, plan_retry, commit_retry, reply, opt_out}

module _ (cfg : Config) where
  pub data Event : Db → Db → Type 0 where
    claims : (db : Db) (now limit : ℕ) → Event db (claim db now limit).0
    recovers : (db : Db) (now : ℕ) → Event db (recover_stuck db now)
    withdraws : (db db' : Db) (now : ℕ) (c : Claimed) → withdraw db now c ≡ some db' → Event db db'
    settles :
        (db : Db) (now : ℕ) (c : Claimed) (d : Delivery) (stored : Bool)
        → Event db (settle db cfg now c d stored)
    creates :
        (db db' : Db) (tenant : ℕ) (name : Text) (channel : CampaignChannel) (mailbox : Option ℕ)
        (c : Campaign)
        → create db tenant name channel mailbox ≡ ok (db', c)
        → Event db db'
    updates :
        (db db' : Db) (tenant id : ℕ) (name : Option Text) (mailbox : Option ℕ)
        → update db tenant id name mailbox ≡ ok db'
        → Event db db'
    removes : (db db' : Db) (tenant id : ℕ) → remove db tenant id ≡ ok db' → Event db db'
    adds_step :
        (db db' : Db) (tenant id : ℕ) (dto : StepDto)
        → add_step db tenant id dto ≡ ok db'
        → Event db db'
    removes_step :
        (db db' : Db) (tenant id step_id : ℕ)
        → remove_step db tenant id step_id ≡ ok db'
        → Event db db'
    enrolls :
        (db db' : Db) (tenant now id : ℕ) (leads : List ℕ) (answer : EnrollReply)
        → enroll db tenant now id leads ≡ ok (db', answer)
        → Event db db'
    pauses : (db db' : Db) (tenant id : ℕ) → pause db tenant id ≡ ok db' → Event db db'
    stops :
        (db db' : Db) (tenant now campaign id : ℕ)
        → stop_enrollment db tenant now campaign id ≡ ok db'
        → Event db db'
    replies : (db : Db) (tenant at : ℕ) (leads : List ℕ) → Event db (reply db tenant at leads)
    opts_out :
        (db : Db) (tenant : ℕ) (is_recipient : Lead → Bool)
        → Event db (opt_out db tenant is_recipient)

  -- The tables, and what the starts and the retries whose transaction may still come have read.
  pub record Live : Type 0 where
    pub db : Db
    pub starts : List StartPlan
    pub retries : List RetryPlan

  -- A start and a retry are two events each: the reads, and the transaction, at any later time. A
  -- reading stays, so that its transaction may also come again, as that of an equal request.
  pub data LiveEvent : Live → Live → Type 0 where
    happens : {db' : Db} (s : Live) → Event s.db db' → LiveEvent s (record s { db = db' })
    reads_start :
        (s : Live) (tenant id : ℕ) (plan : StartPlan)
        → plan_start s.db tenant id ≡ ok plan
        → LiveEvent s (record s { starts = plan ∷ s.starts })
    commits_start :
        (s : Live) (now : ℕ) (plan : StartPlan)
        → Memᴰ plan s.starts
        → LiveEvent s (record s { db = (commit_start s.db now plan).0 })
    reads_retry :
        (s : Live) (tenant campaign id : ℕ) (plan : RetryPlan)
        → plan_retry s.db tenant campaign id ≡ ok plan
        → LiveEvent s (record s { retries = plan ∷ s.retries })
    commits_retry :
        (s : Live) (now : ℕ) (plan : RetryPlan)
        → Memᴰ plan s.retries
        → LiveEvent s (record s { db = commit_retry s.db now plan })

  pub data Reach (s : Live) : Live → Type 0 where
    here : Reach s s
    next : {s' s'' : Live} → Reach s s' → LiveEvent s' s'' → Reach s s''
