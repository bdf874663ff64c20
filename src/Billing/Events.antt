-- ===== src/Billing/Events.antt =====
-- `webhook` of apps/api/src/modules/billing/billing.service.ts: receipts of events and their effect.
use klyvero.Common.{
  ℕ, ◌*◌, Bool, true, false, not, ◌&&◌, List, [], ◌∷◌, Option, none, some, Text, units, text_eq,
  ◌==◌, if◌then◌else◌, any, Result, ok, ◌>>=◌, ◌>>◌, throw_if, or_throw, bad_request, find_first,
  update_many,
}
use klyvero.Billing.{
  Db, Plan, StripeEvent, StripeObject, Subscription, Tenant, other_event, payment_failed,
  subscription_created, subscription_deleted, subscription_updated,
}
use klyvero.Billing.Checkout.{filled}

abbrev pub canceled : ℕ → Subscription → Subscription
canceled now s = record s { status = units "canceled"; period_ends_at = some now }

abbrev pub past_due : Subscription → Subscription
past_due s = record s { status = units "past_due" }

-- `object.metadata?.tenantId ?? object.client_reference_id`
abbrev pub tenant_of : StripeObject → Option ℕ
tenant_of o = elim o.tenant_metadata [ none ↦ o.client_reference | some t ↦ some t ]

-- The end of the period in milliseconds; a missing or zero one is left out.
abbrev pub period_of : Option ℕ → Option ℕ
period_of none = none
period_of (some n) = if n == 0 then none else some (n * 1000)

-- `undefined` in an update keeps the column.
abbrev pub or_kept : Option ℕ → Option ℕ → Option ℕ
or_kept none old = old
or_kept (some n) old = some n

abbrev pub subscribed : ℕ → ℕ → StripeObject → Subscription
subscribed tenant plan o = record {
  tenant_id = tenant;
  plan_id = plan;
  status = o.status;
  customer_id = some o.customer;
  subscription_id = some o.id;
  period_ends_at = period_of o.period_end;
}

abbrev pub resubscribed : ℕ → StripeObject → Subscription → Subscription
resubscribed plan o s = record s {
  plan_id = plan;
  status = o.status;
  customer_id = some o.customer;
  subscription_id = some o.id;
  period_ends_at = or_kept (period_of o.period_end) s.period_ends_at;
}

unfoldable pub upsert_subscription : ℕ → ℕ → StripeObject → List Subscription → List Subscription
upsert_subscription tenant plan o [] = subscribed tenant plan o ∷ []
upsert_subscription tenant plan o (s ∷ ss) =
    let rest = upsert_subscription tenant plan o ss in
    if s.tenant_id == tenant then resubscribed plan o s ∷ ss else s ∷ rest

-- The local plan of the price that the payment service attached.
abbrev pub has_price : Text → Plan → Bool
has_price price p = p.active && elim p.stripe_price_id [ none ↦ false | some q ↦ text_eq q price ]

unfoldable pub plan_of : Db → StripeObject → Option Plan
unfolding find_first text_eq
plan_of db o = elim (filled o.price) [
  | none ↦ none
  | some price ↦ find_first (has_price price) db.plans
]

abbrev pub renew : Db → ℕ → StripeObject → List Subscription
renew db tenant o = elim (plan_of db o) [
  | none ↦ db.subscriptions
  | some p ↦ upsert_subscription tenant p.id o db.subscriptions
]

-- The subscriptions after an event of the tenant.
unfoldable pub apply_event : ℕ → Db → ℕ → StripeEvent → List Subscription
unfolding plan_of upsert_subscription update_many
apply_event now db tenant e = elim e.type [
  | subscription_created ↦ renew db tenant e.object
  | subscription_updated ↦ renew db tenant e.object
  | subscription_deleted ↦ update_many (λ s. s.tenant_id == tenant) (canceled now) db.subscriptions
  | payment_failed ↦ update_many (λ s. s.tenant_id == tenant) past_due db.subscriptions
  | other_event ↦ db.subscriptions
]

-- The tenant that an event names, if there is one.
unfoldable pub known_tenant : Db → StripeObject → Option Tenant
unfolding find_first
known_tenant db o = elim (tenant_of o) [
  | none ↦ none
  | some id ↦ find_first (λ t. t.id == id) db.tenants
]

unfoldable pub process_event : ℕ → Db → StripeEvent → Db
unfolding known_tenant apply_event
process_event now db e = elim (known_tenant db e.object) [
  | none ↦ db
  | some t ↦ record db { subscriptions = apply_event now db t.id e }
]

-- `reserveEvent`: the unique key on the receipts.
unfoldable pub reserve_event : Text → Db → Option Db
unfolding text_eq
reserve_event id db =
    if any (λ r. text_eq r id) db.receipts
    then none
    else some (record db { receipts = id ∷ db.receipts })

-- The database after an event, and whether it was a duplicate. `construct` is the event that the
-- signature vouches for; `stored` is false where the database fails after the receipt was written.
unfoldable pub receive : ℕ → Bool → Db → StripeEvent → Db × Bool
unfolding reserve_event process_event
receive now stored db e = elim (reserve_event e.id db) [
  | none ↦ (db, true)
  | some db' ↦ (if stored then process_event now db' e else db', false)
]

-- `complete` says whether the body, the signature and the secret are there.
unfoldable pub webhook : ℕ → Bool → Bool → Option StripeEvent → Db → Result (Db × Bool)
unfolding receive
webhook now stored complete construct db =
    throw_if (not complete) (bad_request "Invalid Stripe webhook request")
    >> (or_throw construct (bad_request "Invalid Stripe signature") >>= λ e.
        ok (receive now stored db e))
