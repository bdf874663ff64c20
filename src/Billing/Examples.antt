-- ===== src/Billing/Examples.antt =====
-- Deliveries of an event to a database with one plan.
use klyvero.Common.{
  ℕ, ◌≡◌, refl, true, false, List, [], ◌∷◌, none, some, units, text_eq, find_first, All, map,
}
use klyvero.Billing.{Db, StripeEvent, subscription_created}
use klyvero.Billing.Events.{
  plan_of, upsert_subscription, apply_event, known_tenant, process_event, reserve_event, receive,
}
use klyvero.Billing.Receipts.{Delivery, receive-lost}
use klyvero.Billing.Entitlement.{IsEntitled, receive-IsEntitled}

abbrev db : Db
db = record {
  plans =
      record {
        id = 3;
        code = units "pro";
        name = units "Pro";
        monthly_price = 99;
        stripe_price_id = some (units "price_1");
        active = true;
      }
      ∷ [];
  tenants = record { id = 1; name = units "Acme"; is_platform = false } ∷ [];
  subscriptions = [];
  receipts = [];
  next_id = 10;
}

abbrev event : StripeEvent
event = record {
  id = units "evt_1";
  type = subscription_created;
  object = record {
    tenant_metadata = some 1;
    client_reference = none;
    price = some (units "price_1");
    status = units "active";
    customer = units "cus_1";
    id = units "sub_1";
    period_end = none;
  };
}

abbrev delivery : Delivery
delivery = record { now = 5; stored = true; event = event }

receive-IsEntitled_example :
    All (IsEntitled db event.object) (receive 5 true db event).0.subscriptions
receive-IsEntitled_example = receive-IsEntitled 5 true db event

receive-lost_example :
    ((receive 9 true (receive 5 false db event).0 event).1 ≡ true)
    × ((receive 9 true (receive 5 false db event).0 event).0.subscriptions ≡ db.subscriptions)
receive-lost_example = receive-lost 5 9 db event refl

plans_of : Db → List ℕ
plans_of d = map (λ s. s.plan_id) d.subscriptions

-- A first delivery subscribes the tenant to the plan of the price.
subscribes : plans_of (receive 5 true db event).0 ≡ 3 ∷ []
unfolding plans_of receive reserve_event text_eq process_event known_tenant find_first apply_event
    plan_of upsert_subscription
subscribes = refl
