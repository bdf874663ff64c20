-- ===== src/Billing.antt =====
-- apps/api/src/modules/billing/billing.service.ts: plans, checkout and the events of the payment
-- service. The service's library is a parameter: whether it is configured, and the event that a body
-- with its signature stands for.
pub mod Checkout
pub mod Events
pub mod Receipts
pub mod Entitlement
mod Examples
use klyvero.Common.{ℕ, Bool, List, Option, Text}

pub record Plan : Type 0 where
  pub id : ℕ
  pub code : Text
  pub name : Text
  pub monthly_price : ℕ
  pub stripe_price_id : Option Text
  pub active : Bool

pub record Tenant : Type 0 where
  pub id : ℕ
  pub name : Text
  pub is_platform : Bool

pub record Subscription : Type 0 where
  pub tenant_id : ℕ
  pub plan_id : ℕ
  pub status : Text
  pub customer_id : Option Text
  pub subscription_id : Option Text
  pub period_ends_at : Option ℕ

pub record Db : Type 0 where
  pub plans : List Plan
  pub tenants : List Tenant
  pub subscriptions : List Subscription
  -- The identifiers of the events that were received.
  pub receipts : List Text
  pub next_id : ℕ

pub data EventType : Type 0 where
  subscription_created subscription_updated subscription_deleted payment_failed other_event :
      EventType

-- `event.data.object`, with the fields that are read.
pub record StripeObject : Type 0 where
  pub tenant_metadata : Option ℕ
  pub client_reference : Option ℕ
  pub price : Option Text
  pub status : Text
  pub customer : Text
  pub id : Text
  pub period_end : Option ℕ

pub record StripeEvent : Type 0 where
  pub id : Text
  pub type : EventType
  pub object : StripeObject
