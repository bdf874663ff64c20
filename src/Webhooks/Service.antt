-- ===== src/Webhooks/Service.antt =====
-- apps/api/src/modules/webhooks/webhooks.service.ts. Fresh secrets and identifiers are arguments.
use klyvero.Common.{
  ℕ, ◌+◌, Bool, true, ◌&&◌, ◌||◌, ◌==◌, List, [], ◌∷◌, ◌++◌, none, any, map, find_first, select,
  take, order_desc, length, Text, units, text_eq, Result, ok, err, ◌>>=◌, or_throw, not_found,
}
use klyvero.Security.Network.Outbound.{Url, Platform, validate_http_url}
use klyvero.Webhooks.{pending, Endpoint, Payload, Delivery, Db, Codec}

-- `list`, the newest first and without the secrets.
unfoldable pub list : Db → ℕ → List (ℕ × Text × Text × List Text × Bool × ℕ)
unfolding select order_desc
list db tenant_id =
    map (λ e. (e.id, e.name, e.url, e.events, e.active, e.created_at))
      (order_desc (λ e. e.created_at) (select (λ e. e.tenant_id == tenant_id) db.endpoints))

-- The form of a secret that is stored.
abbrev pub stored_secret : Codec → Text → Text
stored_secret c raw = units "enc:v1:" ++ c.encode (c.encrypt raw)

abbrev pub new_endpoint : Codec → Text → ℕ → ℕ → ℕ → Text → Text → List Text → Endpoint
new_endpoint c raw now id tenant_id name url events = record {
  id = id;
  tenant_id = tenant_id;
  name = name;
  url = url;
  secret = stored_secret c raw;
  events = events;
  active = true;
  created_at = now;
}

-- The new row is stored if its URL was accepted.
abbrev pub add_endpoint : Endpoint → Text → Db → Result (Url × Text) → Db × Result (Endpoint × Text)
add_endpoint row raw db (err thrown) = (db, err thrown)
add_endpoint row raw db (ok at) =
    (record db { endpoints = row ∷ db.endpoints; next_id = db.next_id + 1 }, ok (row, raw))

-- `create`; `raw` is the fresh secret, which is answered once.
unfoldable pub create :
    Platform → Codec → Text → ℕ → Db → ℕ → Text → Text → List Text → Db × Result (Endpoint × Text)
unfolding validate_http_url
create p c raw now db tenant_id name url events =
    let row = new_endpoint c raw now db.next_id tenant_id name url events in
    add_endpoint row raw db (validate_http_url p url)

abbrev pub has_event : Text → Endpoint → Bool
has_event event e = any (text_eq event) e.events || any (text_eq (units "*")) e.events

abbrev pub listens : ℕ → Text → Endpoint → Bool
listens tenant_id event e = e.tenant_id == tenant_id && e.active && has_event event e

-- A new delivery to an endpoint, with its job.
unfoldable pub enqueue : ℕ → Text → Payload → ℕ → Db → Db
enqueue now event payload endpoint_id db = record db {
  deliveries =
      record {
        id = db.next_id;
        endpoint_id = endpoint_id;
        event = event;
        status = pending;
        request_body = payload;
        response_status = none;
        response_body = none;
        attempts = 0;
        delivered_at = none;
        created_at = now;
      }
      ∷ db.deliveries;
  jobs = record { delivery_id = db.next_id; attempts = 5; delay = 10000 } ∷ db.jobs;
  next_id = db.next_id + 1;
}

unfoldable pub enqueue_all : ℕ → Text → Payload → List Endpoint → Db → Db
unfolding enqueue
enqueue_all now event payload [] db = db
enqueue_all now event payload (e ∷ es) db =
    enqueue_all now event payload es (enqueue now event payload e.id db)

-- `dispatch`; `payload_id` is the fresh identifier. It answers how many deliveries it queued.
unfoldable pub dispatch : Text → ℕ → Db → ℕ → Text → Text → Db × ℕ
unfolding select enqueue_all text_eq
dispatch payload_id now db tenant_id event body =
    let endpoints = select (listens tenant_id event) db.endpoints in
    let payload : Payload = record {
      id = payload_id;
      event = event;
      created_at = now;
      body = body;
    } in
    (enqueue_all now event payload endpoints db, length endpoints)

abbrev pub add_test : Text → ℕ → Db → Result ℕ → Db × Result ℕ
add_test payload_id now db (err thrown) = (db, err thrown)
add_test payload_id now db (ok endpoint_id) =
    let event = units "webhook.test" in
    let payload : Payload = record {
      id = payload_id;
      event = event;
      created_at = now;
      body = units "Klyvero webhook test";
    } in
    (enqueue now event payload endpoint_id db, ok db.next_id)

-- `test`
unfoldable pub test : Platform → Text → ℕ → Db → ℕ → ℕ → Db × Result ℕ
unfolding find_first validate_http_url enqueue
test p payload_id now db tenant_id id =
    let found = find_first (λ e. e.id == id && e.tenant_id == tenant_id) db.endpoints in
    add_test payload_id now db
      (or_throw found (not_found "Not Found") >>= λ e. validate_http_url p e.url >>= λ _. ok e.id)

-- `deliveries`: the newest 200 deliveries to the endpoints of a workspace.
unfoldable pub deliveries : Db → ℕ → List Delivery
unfolding select order_desc
deliveries db tenant_id =
    let is_own =
      λ (d : Delivery). any (λ e. e.id == d.endpoint_id && e.tenant_id == tenant_id) db.endpoints in
    take 200 (order_desc (λ d. d.created_at) (select is_own db.deliveries))
