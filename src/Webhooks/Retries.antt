-- ===== src/Webhooks/Retries.antt =====
-- The runs of the job of one delivery, one after the other.
use klyvero.Common.{
  ℕ, suc, ◌+◌, ◌≡◌, refl, sym, ap, ◌∙◌, subst, arith, true, ◌==◌, ==_iff, Option, none, some,
  find_first, find_first-holds, find_first-update, if◌then◌else◌, Text, Result, ok, err,
}
use klyvero.Security.Network.Outbound.{Platform, Response, Request, post_webhook}
use klyvero.Webhooks.{delivered, Endpoint, Delivery, Db, Codec}
use klyvero.Webhooks.Worker.{
  signing_secret, Run, done, raised, set_delivery, record_response, record_failure, record_attempt,
  headers_of, endpoint_of, attempt, run_joined, run_found, process,
}

abbrev pub delivery : Db → ℕ → Option Delivery
delivery db id = find_first (λ d. d.id == id) db.deliveries

abbrev pub attempted : Codec → ℕ → Result (Option Response) → Delivery → Delivery
attempted c now (err thrown) d = record_failure d
attempted c now (ok none) d = record_failure d
attempted c now (ok (some r)) d = record_response c now r d

abbrev pub run_of : Result (Option Response) → Run
run_of (err thrown) = raised
run_of (ok none) = raised
run_of (ok (some r)) = if r.is_ok then done else raised

pub record_attempt_lem :
    (c : Codec) (now id : ℕ) (answer : Result (Option Response)) (db : Db)
    → record_attempt c now id answer db
      ≡ (set_delivery id (attempted c now answer) db, run_of answer)
unfolding record_attempt
record_attempt_lem c now id (err thrown) db = refl
record_attempt_lem c now id (ok none) db = refl
record_attempt_lem c now id (ok (some r)) db = refl

pub attempted-id :
    (c : Codec) (now : ℕ) (answer : Result (Option Response)) (d : Delivery)
    → (attempted c now answer d).id ≡ d.id
attempted-id c now (err thrown) d = refl
attempted-id c now (ok none) d = refl
attempted-id c now (ok (some r)) d = refl

-- The row that is stored after a run.
delivery-attempted :
    (c : Codec) (now id : ℕ) (answer : Result (Option Response)) (db : Db) (d : Delivery)
    → delivery db id ≡ some d
    → delivery (set_delivery d.id (attempted c now answer) db) id ≡ some (attempted c now answer d)
delivery-attempted c now id answer db d found =
    let same : d.id ≡ id =
      (==_iff d.id id).0 (find_first-holds (λ x. x.id == id) db.deliveries found) in
    subst
      (λ i.
        delivery (set_delivery i (attempted c now answer) db) id ≡ some (attempted c now answer d))
      (sym same)
      (find_first-update (λ x. x.id == id) (attempted c now answer) db.deliveries
        (λ x. ap (λ i. i == id) (attempted-id c now answer x)) found)

-- A run counts one attempt and leaves the contents of the delivery as they are.
attempted-keeps :
    (c : Codec) (now : ℕ) (answer : Result (Option Response)) (d : Delivery)
    → let row = attempted c now answer d in
      (row.attempts ≡ d.attempts + 1)
      × (row.endpoint_id ≡ d.endpoint_id)
      × (row.event ≡ d.event)
      × (row.request_body ≡ d.request_body)
attempted-keeps c now (err thrown) d = (refl, refl, refl, refl)
attempted-keeps c now (ok none) d = (refl, refl, refl, refl)
attempted-keeps c now (ok (some r)) d = (refl, refl, refl, refl)

endpoint_of-same :
    (db a : Db) (d row : Delivery)
    → a.endpoints ≡ db.endpoints
    → row.endpoint_id ≡ d.endpoint_id
    → endpoint_of a row ≡ endpoint_of db d
endpoint_of-same db a d row es i =
    ap (λ xs. find_first (λ e. e.id == row.endpoint_id) xs) es
    ∙ ap (λ j. find_first (λ e. e.id == j) db.endpoints) i

module _ (p : Platform) (c : Codec) (id : ℕ) where
  -- What the worker's request for a delivery to an endpoint answers.
  abbrev pub answer_of : Request → ℕ → Text → Delivery → Endpoint → Result (Option Response)
  answer_of request now secret d e =
      post_webhook p request e.url (headers_of c now secret d) (c.stringify d.request_body)

  -- A run for a delivery to an active endpoint with a readable secret is an attempt.
  pub process-attempts :
      (request : Request) (now : ℕ) (db : Db) (d : Delivery) (e : Endpoint) (secret : Text)
      → delivery db id ≡ some d
      → endpoint_of db d ≡ some e
      → e.active ≡ true
      → signing_secret c e.secret ≡ some secret
      → process p c request now db id ≡ (
        set_delivery d.id (attempted c now (answer_of request now secret d e)) db,
        run_of (answer_of request now secret d e),
      )
  unfolding process
  process-attempts request now db d e secret found at active opened =
      let joined =
        ap (run_found p c request now db) found ∙ ap (run_joined p c request now db d) at in
      let on : run_joined p c request now db d (some e)
          ≡ attempt p c request now db d e (signing_secret c e.secret) =
        ground arith in
      joined
      ∙ on
      ∙ ap (attempt p c request now db d e) opened
      ∙ record_attempt_lem c now d.id (answer_of request now secret d e) db

  -- So many runs, one after the other, that all raise.
  pub data Failing : ℕ → Db → Db → Type 0 where
    none_yet : {db : Db} → Failing 0 db db
    again :
        {n : ℕ} {db a b : Db} (request : Request) (now : ℕ)
        → Failing n db a
        → process p c request now a id ≡ (b, raised)
        → Failing (suc n) db b

  -- The delivery after `n` attempts, to the same endpoint and with the same contents.
  record IsRetried (db : Db) (d : Delivery) (n : ℕ) (now_at : Db) : Type 0 where
    row : Delivery
    found : delivery now_at id ≡ some row
    counted : row.attempts ≡ d.attempts + n
    endpoints : now_at.endpoints ≡ db.endpoints
    endpoint_id : row.endpoint_id ≡ d.endpoint_id
    event : row.event ≡ d.event
    request_body : row.request_body ≡ d.request_body

  Failing-IsRetried :
      (db : Db) (d : Delivery) (e : Endpoint) (secret : Text)
      → delivery db id ≡ some d
      → endpoint_of db d ≡ some e
      → e.active ≡ true
      → signing_secret c e.secret ≡ some secret
      → {n : ℕ} {a : Db} → Failing n db a
      → IsRetried db d n a
  Failing-IsRetried db d e secret found at active opened none_yet = record {
    row = d;
    found = found;
    counted = omega arith;
    endpoints = refl;
    endpoint_id = refl;
    event = refl;
    request_body = refl;
  }
  Failing-IsRetried db d e secret found at active opened
        (again {a = a} {b = b} request now before run) =
      let v = Failing-IsRetried db d e secret found at active opened before in
      let same = endpoint_of-same db a d v.row v.endpoints v.endpoint_id ∙ at in
      let answer = answer_of request now secret v.row e in
      let kept = attempted-keeps c now answer v.row in
      let stored : set_delivery v.row.id (attempted c now answer) a ≡ b =
        ap (λ x. x.0)
          (sym (process-attempts request now a v.row e secret v.found same active opened) ∙ run) in
      record {
        row = attempted c now answer v.row;
        found =
            ap (λ x. delivery x id) (sym stored)
            ∙ delivery-attempted c now id answer a v.row v.found;
        counted = omega (arith, kept.0, v.counted);
        endpoints = ap (λ x. x.endpoints) (sym stored) ∙ v.endpoints;
        endpoint_id = kept.1 ∙ v.endpoint_id;
        event = kept.2 ∙ v.event;
        request_body = kept.3 ∙ v.request_body;
      }

  -- A delivery to an active endpoint with a readable secret, whose job ran `n` times and raised
  -- each time, is delivered by the next run if the endpoint then answers a status from 200 to 299: the
  -- run does not raise, and the row counts all `n` + 1 attempts and has the time of the last one.
  pub retries-deliver :
      (db a : Db) (d : Delivery) (e : Endpoint) (secret : Text) (n now : ℕ) (request : Request)
      (r : Response)
      → delivery db id ≡ some d
      → endpoint_of db d ≡ some e
      → e.active ≡ true
      → signing_secret c e.secret ≡ some secret
      → Failing n db a
      → answer_of request now secret d e ≡ ok (some r)
      → r.is_ok ≡ true
      → (b : Db) × (row : Delivery) × (process p c request now a id ≡ (b, done))
        × (delivery b id ≡ some row)
        × (row.status ≡ delivered)
        × (row.attempts ≡ d.attempts + n + 1)
        × (row.delivered_at ≡ some now)
  retries-deliver db a d e secret n now request r found at active opened failing answers good =
      let v = Failing-IsRetried db d e secret found at active opened failing in
      let same = endpoint_of-same db a d v.row v.endpoints v.endpoint_id ∙ at in
      let answer = answer_of request now secret v.row e in
      let again_ok : answer ≡ ok (some r) = rw (v.event, v.request_body) answers in
      let runs = process-attempts request now a v.row e secret v.found same active opened in
      let ended : run_of (ok (some r)) ≡ done = rw good refl in
      let b = set_delivery v.row.id (record_response c now r) a in
      let run : process p c request now a id ≡ (b, run_of (ok (some r))) =
        subst
          (λ x.
            process p c request now a id ≡ (set_delivery v.row.id (attempted c now x) a, run_of x))
          again_ok runs in
      (
        b,
        record_response c now r v.row,
        run ∙ ap (λ x. (b, x)) ended,
        delivery-attempted c now id (ok (some r)) a v.row v.found,
        rw good refl,
        omega (arith, v.counted),
        rw good refl,
      )
