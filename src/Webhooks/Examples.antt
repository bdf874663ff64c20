-- ===== src/Webhooks/Examples.antt =====
-- Runs of the operations on webhooks with one endpoint.
use klyvero.Common.{
  ℕ, ◌+◌, ◌≤◌, ◌≡◌, refl, true, false, ◌&&◌, [], ◌∷◌, ◌++◌, none, some, length, if◌then◌else◌,
  count_where, find_first, Text, units, text_eq,
}
use klyvero.Text.Phone.{starts_with}
use klyvero.Security.Network.{ipv4, no_address}
use klyvero.Security.Network.Outbound.{
  Url, Platform, Response, Headers, Request, response_of, post_webhook,
}
use klyvero.Security.Network.Outbound.Safe.{IsSafe, post_webhook-IsSafe}
use klyvero.Webhooks.{pending, delivered, Endpoint, Delivery, Db, Codec}
use klyvero.Webhooks.Service.{listens, dispatch, new_endpoint}
use klyvero.Webhooks.Worker.{done, process}
use klyvero.Webhooks.Dispatching.{is_for, has_endpoint_id, dispatch-queues}
use klyvero.Webhooks.Retries.{delivery, none_yet, again, retries-deliver}
use klyvero.Webhooks.Recorded.{IsRecorded, here, next, dispatching, processing, Reach-IsRecorded}

abbrev url : Url
url = record {
  protocol = units "https:";
  username = [];
  password = [];
  hostname = units "a.io";
  port = [];
  target = units "/h";
}

-- A production platform on which every name resolves to one public address.
abbrev platform : Platform
platform = record {
  parse = λ t. some url;
  is_ip = λ t. if starts_with (units "8.") t then ipv4 else no_address;
  lower = λ t. t;
  lookup = λ t. units "8.8.8.8" ∷ [];
  is_production = true;
  allow_private_webhooks = false;
}

-- A cipher and encodings that change nothing.
abbrev codec : Codec
codec = record {
  encrypt = λ t. t;
  decrypt = λ t. some t;
  encode = λ t. t;
  decode = λ t. some t;
  hmac = λ s t. s ++ t;
  stringify = λ p. p.id;
  decimal = λ n. [];
  utf8 = λ bytes. bytes;
}

abbrev answering : ℕ → Request
answering code u address port h body = some (some code, (1 ∷ 2 ∷ []) ∷ [])

abbrev headers : Headers
headers = record { event = units "e"; timestamp = []; signature = [] }

post_webhook-IsSafe_example :
    (u : Url) × (address : Text) × (port : ℕ) × (platform.parse (units "u") ≡ some u)
    × IsSafe platform u address
    × (1 ≤ port)
    × (port ≤ 65535)
    × (response_of (answering 200 url (units "8.8.8.8") 443 headers [])
        ≡ response_of (answering 200 u address port headers []))
unfolding post_webhook
post_webhook-IsSafe_example =
    post_webhook-IsSafe platform (answering 200) (units "u") headers []
      (response_of (answering 200 url (units "8.8.8.8") 443 headers [])) refl

abbrev endpoint : Endpoint
endpoint = new_endpoint codec (units "s") 1 1 7 (units "n") (units "u") (units "lead" ∷ [])

abbrev db : Db
db = record { endpoints = endpoint ∷ []; deliveries = []; jobs = []; next_id = 2 }

abbrev dispatched : Db
dispatched = (dispatch (units "p") 3 db 7 (units "lead") (units "d")).0

dispatch-queues_example :
    (count_where (is_for 1 (units "lead")) dispatched.deliveries
      ≡ 0 + count_where (λ e. has_endpoint_id 1 e && listens 7 (units "lead") e) db.endpoints)
    × (length dispatched.deliveries ≡ 0 + 1)
    × (length dispatched.jobs ≡ 0 + 1)
    × ((dispatch (units "p") 3 db 7 (units "lead") (units "d")).1 ≡ 1)
unfolding count_where text_eq
dispatch-queues_example = dispatch-queues (units "p") 3 db 7 (units "lead") (units "d") 1

abbrev row : Delivery
row = record {
  id = 2;
  endpoint_id = 1;
  event = units "lead";
  status = pending;
  request_body = record { id = units "p"; event = units "lead"; created_at = 3; body = units "d" };
  response_status = none;
  response_body = none;
  attempts = 0;
  delivered_at = none;
  created_at = 3;
}

abbrev response : Response
response = record { status = 200; is_ok = true; body = 1 ∷ 2 ∷ [] }

abbrev failed_once : Db
failed_once = (process platform codec (answering 500) 4 dispatched 2).0

-- The first run is answered 500 and the second one 200.
retries-deliver_example :
    (b : Db) × (stored : Delivery) × (process platform codec (answering 200) 9 failed_once 2
      ≡ (b, done))
    × (delivery b 2 ≡ some stored)
    × (stored.status ≡ delivered)
    × (stored.attempts ≡ 0 + 1 + 1)
    × (stored.delivered_at ≡ some 9)
unfolding find_first dispatch process
retries-deliver_example =
    retries-deliver platform codec 2 dispatched failed_once row endpoint (units "s") 1 9
      (answering 200) response refl refl refl refl (again (answering 500) 4 none_yet refl) refl refl

Reach-IsRecorded_example : IsRecorded failed_once
Reach-IsRecorded_example =
    Reach-IsRecorded platform codec db failed_once (record { sound = tt; queued = refl })
      (next (next here (dispatching (units "p") 3 7 (units "lead") (units "d")))
        (processing (answering 500) 4 2))
