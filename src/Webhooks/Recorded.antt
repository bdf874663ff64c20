-- ===== src/Webhooks/Recorded.antt =====
-- What the rows of deliveries say after any sequence of operations.
use klyvero.Common.{
  ℕ, ◌≤◌, ◌≡◌, refl, sym, ap, ◌∙◌, subst, arith, Bool, true, false, not, ◌&&◌, ◌==◌, List, [], ◌∷◌,
  Option, none, some, map, select, is_some, leb, ltb, All, update_many, update_many-All, Bool-cases,
  inl, inr, if◌then◌else◌, Text, Result, ok, err,
}
use klyvero.Security.Network.Outbound.{
  Url, Platform, Response, Answer, response_of, Headers, Request, post_webhook,
}
use klyvero.Security.Network.Outbound.Safe.{post_webhook-IsSafe}
use klyvero.Webhooks.{
  DeliveryStatus, pending, delivered, failed, Endpoint, Payload, Delivery, Db, Codec,
}
use klyvero.Webhooks.Service.{
  listens, add_endpoint, create, enqueue, enqueue_all, dispatch, add_test, test,
}
use klyvero.Webhooks.Worker.{
  signing_secret, Run, done, headers_of, endpoint_of, attempt, run_joined, run_found, process,
}
use klyvero.Webhooks.Retries.{attempted, attempted-id, record_attempt_lem}

abbrev pub is_success : Option ℕ → Bool
is_success none = false
is_success (some n) = leb 200 n && ltb n 300

-- A pending row has had no attempt; a delivered one has had an attempt, the time of its delivery and a
-- status from 200 to 299; a failed one has had an attempt.
abbrev pub Tells : DeliveryStatus → ℕ → Option ℕ → Option ℕ → Type 0
Tells pending attempts at code = (attempts ≡ 0) × (at ≡ none) × (code ≡ none)
Tells delivered attempts at code = (1 ≤ attempts) × (is_some at ≡ true) × (is_success code ≡ true)
Tells failed attempts at code = 1 ≤ attempts

unfoldable pub IsSound : Delivery → Type 0
IsSound d = Tells d.status d.attempts d.delivered_at d.response_status

-- Every row is sound, and each delivery has its own job.
pub record IsRecorded (db : Db) : Type 0 where
  pub sound : All IsSound db.deliveries
  pub queued : map (λ j. j.delivery_id) db.jobs ≡ map (λ d. d.id) db.deliveries

enqueue-IsRecorded :
    (now : ℕ) (event : Text) (payload : Payload) (i : ℕ) (db : Db)
    → IsRecorded db
    → IsRecorded (enqueue now event payload i db)
unfolding enqueue IsSound
enqueue-IsRecorded now event payload i db v = record {
  sound = ((refl, refl, refl), v.sound);
  queued = ap (λ ids. db.next_id ∷ ids) v.queued;
}

enqueue_all-IsRecorded :
    (now : ℕ) (event : Text) (payload : Payload) (es : List Endpoint) (db : Db)
    → IsRecorded db
    → IsRecorded (enqueue_all now event payload es db)
unfolding enqueue_all
enqueue_all-IsRecorded now event payload [] db v = v
enqueue_all-IsRecorded now event payload (e ∷ es) db v =
    enqueue_all-IsRecorded now event payload es (enqueue now event payload e.id db)
      (enqueue-IsRecorded now event payload e.id db v)

add_endpoint-IsRecorded :
    (row : Endpoint) (raw : Text) (db : Db) (v : Result (Url × Text))
    → IsRecorded db
    → IsRecorded (add_endpoint row raw db v).0
add_endpoint-IsRecorded row raw db (err thrown) v = v
add_endpoint-IsRecorded row raw db (ok at) v = record { sound = v.sound; queued = v.queued }

add_test-IsRecorded :
    (payload_id : Text) (now : ℕ) (db : Db) (checked : Result ℕ)
    → IsRecorded db
    → IsRecorded (add_test payload_id now db checked).0
add_test-IsRecorded payload_id now db (err thrown) v = v
add_test-IsRecorded payload_id now db (ok i) v = enqueue-IsRecorded now _ _ i db v

-- The flag of a response agrees with its status.
IsFaithful : Result (Option Response) → Type 0
IsFaithful (err thrown) = Unit
IsFaithful (ok none) = Unit
IsFaithful (ok (some r)) = r.is_ok ≡ is_success (some r.status)

response_of-IsFaithful : (a : Answer) → IsFaithful (ok (response_of a))
unfolding IsFaithful
response_of-IsFaithful none = tt
response_of-IsFaithful (some (code, chunks)) = refl

post_webhook-IsFaithful :
    (p : Platform) (request : Request) (url : Text) (h : Headers) (body : Text)
    (answer : Result (Option Response))
    → post_webhook p request url h body ≡ answer
    → IsFaithful answer
unfolding IsFaithful
post_webhook-IsFaithful p request url h body (err thrown) e = tt
post_webhook-IsFaithful p request url h body (ok r) e =
    let (u, address, port, _, _, _, _, same) = post_webhook-IsSafe p request url h body r e in
    subst (λ x. IsFaithful (ok x)) (sym same)
      (response_of-IsFaithful (request u address port h body))

attempted-IsSound :
    (c : Codec) (now : ℕ) (answer : Result (Option Response)) (d : Delivery)
    → IsFaithful answer
    → IsSound (attempted c now answer d)
unfolding IsSound IsFaithful
attempted-IsSound c now (err thrown) d f = omega arith
attempted-IsSound c now (ok none) d f = omega arith
attempted-IsSound c now (ok (some r)) d f = elim (Bool-cases r.is_ok) [
  | inl good ↦ rw good (omega arith, refl, sym f ∙ good)
  | inr bad ↦ rw bad (omega arith)
]

ids-kept :
    (p : Delivery → Bool) (f : Delivery → Delivery) (ds : List Delivery)
    → ((d : Delivery) → (f d).id ≡ d.id)
    → map (λ d. d.id) (update_many p f ds) ≡ map (λ d. d.id) ds
unfolding update_many
ids-kept p f [] k = refl
ids-kept p f (d ∷ ds) k = let kept = k d in let rec = ids-kept p f ds k in ground arith

attempt-IsRecorded :
    (p : Platform) (c : Codec) (request : Request) (now : ℕ) (db : Db) (d : Delivery) (e : Endpoint)
    (secret : Option Text)
    → IsRecorded db
    → IsRecorded (attempt p c request now db d e secret).0
attempt-IsRecorded p c request now db d e none v = v
attempt-IsRecorded p c request now db d e (some secret) v =
    let h = headers_of c now secret d in
    let answer = post_webhook p request e.url h (c.stringify d.request_body) in
    let told = post_webhook-IsFaithful p request e.url h (c.stringify d.request_body) answer refl in
    subst IsRecorded (sym (ap (λ x. x.0) (record_attempt_lem c now d.id answer db))) (record {
      sound =
          update_many-All IsSound (λ x. x.id == d.id) (attempted c now answer) db.deliveries
            (λ x s e. attempted-IsSound c now answer x told) v.sound;
      queued =
          v.queued
          ∙ sym (
              ids-kept (λ x. x.id == d.id) (attempted c now answer) db.deliveries
                (attempted-id c now answer));
    })

either-IsRecorded :
    (b : Bool) (x y : Db × Run)
    → IsRecorded x.0
    → IsRecorded y.0
    → IsRecorded (if b then x else y).0
either-IsRecorded true x y v w = v
either-IsRecorded false x y v w = w

run_joined-IsRecorded :
    (p : Platform) (c : Codec) (request : Request) (now : ℕ) (db : Db) (d : Delivery)
    (e : Option Endpoint)
    → IsRecorded db
    → IsRecorded (run_joined p c request now db d e).0
run_joined-IsRecorded p c request now db d none v = v
run_joined-IsRecorded p c request now db d (some e) v =
    either-IsRecorded (not e.active) (db, done)
      (attempt p c request now db d e (signing_secret c e.secret)) v
      (attempt-IsRecorded p c request now db d e (signing_secret c e.secret) v)

run_found-IsRecorded :
    (p : Platform) (c : Codec) (request : Request) (now : ℕ) (db : Db) (d : Option Delivery)
    → IsRecorded db
    → IsRecorded (run_found p c request now db d).0
run_found-IsRecorded p c request now db none v = v
run_found-IsRecorded p c request now db (some d) v =
    run_joined-IsRecorded p c request now db d (endpoint_of db d) v

module _ (p : Platform) (c : Codec) where
  pub data Step : Db → Db → Type 0 where
    creating :
        {db : Db} (raw : Text) (now tenant : ℕ) (name url : Text) (events : List Text)
        → Step db (create p c raw now db tenant name url events).0
    dispatching :
        {db : Db} (payload_id : Text) (now tenant : ℕ) (event body : Text)
        → Step db (dispatch payload_id now db tenant event body).0
    testing :
        {db : Db} (payload_id : Text) (now tenant id : ℕ)
        → Step db (test p payload_id now db tenant id).0
    processing :
        {db : Db} (request : Request) (now id : ℕ) → Step db (process p c request now db id).0

  pub data Reach : Db → Db → Type 0 where
    here : {db : Db} → Reach db db
    next : {a b d : Db} → Reach a b → Step b d → Reach a d

  Step-IsRecorded : {a b : Db} → Step a b → IsRecorded a → IsRecorded b
  unfolding create dispatch test process
  Step-IsRecorded (creating {db} raw now tenant name url events) v =
      add_endpoint-IsRecorded _ raw db _ v
  Step-IsRecorded (dispatching {db} payload_id now tenant event body) v =
      enqueue_all-IsRecorded now event
        (record { id = payload_id; event = event; created_at = now; body = body })
        (select (listens tenant event) db.endpoints) db v
  Step-IsRecorded (testing {db} payload_id now tenant id) v =
      add_test-IsRecorded payload_id now db _ v
  Step-IsRecorded (processing {db} request now id) v = run_found-IsRecorded p c request now db _ v

  -- After any sequence of creations, dispatches, tests and runs of jobs, whatever the requests answer:
  -- a pending delivery has had no attempt, a delivered one has had an attempt, the time of its delivery
  -- and a status from 200 to 299, a failed one has had an attempt, and each delivery has its own job.
  pub Reach-IsRecorded : (a b : Db) → IsRecorded a → Reach a b → IsRecorded b
  Reach-IsRecorded a b v here = v
  Reach-IsRecorded a b v (next {b = m} before step) =
      Step-IsRecorded step (Reach-IsRecorded a m v before)
