-- ===== src/Webhooks.antt =====
-- apps/api/src/modules/webhooks/webhooks.service.ts and webhook.worker.ts: endpoints, their
-- deliveries and the jobs that send them. The cipher and the encodings of a secret, the signature and
-- the texts of numbers and payloads are the platform's.
pub mod Service
pub mod Worker
pub mod Dispatching
pub mod Secrets
pub mod Retries
pub mod Recorded
mod Examples
use klyvero.Common.{ℕ, Bool, List, Option, Text}

pub data DeliveryStatus : Type 0 where
  pending delivered failed : DeliveryStatus

pub record Endpoint : Type 0 where
  pub id : ℕ
  pub tenant_id : ℕ
  pub name : Text
  pub url : Text
  pub secret : Text
  pub events : List Text
  pub active : Bool
  pub created_at : ℕ

-- The JSON object of a delivery.
pub record Payload : Type 0 where
  pub id : Text
  pub event : Text
  pub created_at : ℕ
  pub body : Text

pub record Delivery : Type 0 where
  pub id : ℕ
  pub endpoint_id : ℕ
  pub event : Text
  pub status : DeliveryStatus
  pub request_body : Payload
  pub response_status : Option ℕ
  pub response_body : Option Text
  pub attempts : ℕ
  pub delivered_at : Option ℕ
  pub created_at : ℕ

-- A job `deliver`; the queue runs it until a run does not throw, `attempts` times at most.
pub record Job : Type 0 where
  pub delivery_id : ℕ
  pub attempts : ℕ
  pub delay : ℕ

pub record Db : Type 0 where
  pub endpoints : List Endpoint
  pub deliveries : List Delivery
  pub jobs : List Job
  pub next_id : ℕ

pub record Codec : Type 0 where
  pub encrypt : Text → Text
  pub decrypt : Text → Option Text
  pub encode : Text → Text
  pub decode : Text → Option Text
  pub hmac : Text → Text → Text
  pub stringify : Payload → Text
  pub decimal : ℕ → Text
  pub utf8 : List ℕ → Text
