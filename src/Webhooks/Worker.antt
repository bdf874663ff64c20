-- ===== src/Webhooks/Worker.antt =====
-- apps/api/src/modules/webhooks/webhook.worker.ts: one run of the job of a delivery.
use klyvero.Common.{
  ℕ, ◌+◌, ◌/◌, not, ◌==◌, ◌++◌, Option, none, some, find_first, update_many, drop, if◌then◌else◌,
  Text, units, Result, ok, err,
}
use klyvero.Text.Phone.{starts_with}
use klyvero.Security.Network.Outbound.{Platform, Headers, Response, Request, post_webhook}
use klyvero.Webhooks.{delivered, failed, Endpoint, Delivery, Db, Codec}

-- `signingSecret`; `none` where the decoding or the cipher throws.
unfoldable pub signing_secret : Codec → Text → Option Text
signing_secret c value =
    if not (starts_with (units "enc:v1:") value)
    then some value
    else elim (c.decode (drop 7 value)) [ none ↦ none | some payload ↦ c.decrypt payload ]

-- A run of a job ends, or throws and is tried again.
pub data Run : Type 0 where
  done raised : Run

abbrev pub set_delivery : ℕ → (Delivery → Delivery) → Db → Db
set_delivery id f db = record db { deliveries = update_many (λ d. d.id == id) f db.deliveries }

abbrev pub record_response : Codec → ℕ → Response → Delivery → Delivery
record_response c now r d = record d {
  attempts = d.attempts + 1;
  response_status = some r.status;
  response_body = some (c.utf8 r.body);
  status = if r.is_ok then delivered else failed;
  delivered_at = if r.is_ok then some now else none;
}

abbrev pub record_failure : Delivery → Delivery
record_failure d = record d {
  attempts = d.attempts + 1;
  status = failed;
  response_body = some (units "Delivery failed");
}

-- The `try` and the `catch`: a request that throws is an attempt too.
unfoldable pub record_attempt : Codec → ℕ → ℕ → Result (Option Response) → Db → Db × Run
unfolding update_many
record_attempt c now id (err thrown) db = (set_delivery id record_failure db, raised)
record_attempt c now id (ok none) db = (set_delivery id record_failure db, raised)
record_attempt c now id (ok (some r)) db =
    (set_delivery id (record_response c now r) db, if r.is_ok then done else raised)

abbrev pub headers_of : Codec → ℕ → Text → Delivery → Headers
headers_of c now secret d =
    let timestamp = c.decimal (now / 1000) in
    record {
      event = d.event;
      timestamp = timestamp;
      signature =
          units "v1=" ++ c.hmac secret (timestamp ++ units "." ++ c.stringify d.request_body);
    }

abbrev pub endpoint_of : Db → Delivery → Option Endpoint
endpoint_of db d = find_first (λ e. e.id == d.endpoint_id) db.endpoints

abbrev pub attempt :
    Platform → Codec → Request → ℕ → Db → Delivery → Endpoint → Option Text → Db × Run
attempt p c request now db d e none = (db, raised)
attempt p c request now db d e (some secret) =
    record_attempt c now d.id
      (post_webhook p request e.url (headers_of c now secret d) (c.stringify d.request_body)) db

-- The row of `findUnique` is joined with its endpoint; an endpoint that is off ends the run.
abbrev pub run_joined : Platform → Codec → Request → ℕ → Db → Delivery → Option Endpoint → Db × Run
run_joined p c request now db d none = (db, done)
run_joined p c request now db d (some e) =
    if not e.active then (db, done) else attempt p c request now db d e (signing_secret c e.secret)

abbrev pub run_found : Platform → Codec → Request → ℕ → Db → Option Delivery → Db × Run
run_found p c request now db none = (db, done)
run_found p c request now db (some d) = run_joined p c request now db d (endpoint_of db d)

-- `process`
unfoldable pub process : Platform → Codec → Request → ℕ → Db → ℕ → Db × Run
unfolding find_first post_webhook signing_secret record_attempt
process p c request now db delivery_id =
    run_found p c request now db (find_first (λ d. d.id == delivery_id) db.deliveries)
