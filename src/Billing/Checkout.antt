-- ===== src/Billing/Checkout.antt =====
-- `createPlan` and `checkout` of apps/api/src/modules/billing/billing.service.ts.
use klyvero.Common.{
  ℕ, ◌+◌, Bool, true, false, not, ◌&&◌, ◌||◌, [], ◌∷◌, Option, none, some, Text, units, text_eq,
  ◌==◌, is_some, Result, ok, err, ◌>>=◌, ◌>>◌, throw_if, or_throw, bad_request, forbidden,
  not_found, service_unavailable, find_first,
}
use klyvero.Billing.{Db, Subscription}

pub record PlanDto : Type 0 where
  pub code : Text
  pub name : Text
  pub monthly_price : ℕ
  pub stripe_price_id : Option Text

unfoldable pub create_plan : (Text → Text) → Db → ℕ → PlanDto → Result Db
unfolding find_first
create_plan lower db current dto = elim (find_first (λ t. t.id == current) db.tenants) [
  | none ↦ err (forbidden "Only platform administrators can manage plans")
  | some t ↦
      throw_if (not t.is_platform) (forbidden "Only platform administrators can manage plans")
      >> ok (record db {
        plans =
            record {
              id = db.next_id;
              code = lower dto.code;
              name = dto.name;
              monthly_price = dto.monthly_price;
              stripe_price_id = dto.stripe_price_id;
              active = true;
            }
            ∷ db.plans;
        next_id = db.next_id + 1;
      })
]

-- What a checkout asks of the payment service; it writes nothing here.
pub record CheckoutRequest : Type 0 where
  -- The customer that is known, or none where one is created.
  pub customer : Option Text
  pub price : Text
  pub tenant : ℕ
  pub plan : ℕ

-- An empty text counts as missing.
abbrev pub filled : Option Text → Option Text
filled none = none
filled (some []) = none
filled (some (c ∷ t)) = some (c ∷ t)

abbrev pub is_managed : Option Subscription → Bool
is_managed none = false
is_managed (some s) =
    is_some (filled s.subscription_id)
    && (text_eq s.status (units "active")
        || text_eq s.status (units "trialing")
        || text_eq s.status (units "past_due"))

abbrev pub customer_of : Option Subscription → Option Text
customer_of none = none
customer_of (some s) = s.customer_id

unfoldable pub checkout : Bool → Db → ℕ → ℕ → Result CheckoutRequest
unfolding find_first text_eq
checkout configured db tenant plan_id =
    or_throw (find_first (λ p. p.id == plan_id && p.active) db.plans) (not_found "Plan not found")
    >>= λ p.
        or_throw (filled p.stripe_price_id) (bad_request "Plan does not have a Stripe price")
        >>= λ price.
            or_throw (find_first (λ t. t.id == tenant) db.tenants) (not_found "Not Found") >>= λ t.
            let current = find_first (λ s. s.tenant_id == tenant) db.subscriptions in
            throw_if (not configured) (service_unavailable "Stripe is not configured")
            >> (throw_if (is_managed current) (
                  bad_request
                    "An existing subscription is already managed by Stripe. Use the billing portal for changes.")
                >> ok record {
                  customer = customer_of current;
                  price = price;
                  tenant = tenant;
                  plan = p.id;
                })
