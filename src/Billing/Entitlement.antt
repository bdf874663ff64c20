-- ===== src/Billing/Entitlement.antt =====
-- Which plan an event of the payment service can give.
use klyvero.Common.{
  ℕ, ◌≡◌, ◌≢◌, ◌⊎◌, refl, sym, subst, ap, ◌∙◌, inl, inr, arith, Bool, true, false, ◌&&◌, List, [],
  ◌∷◌, Memᴰ, Option, Option-cases, none, some, Text, eq_of_text_eq, ◌==◌, ==_refl, if◌then◌else◌,
  Bool-cases, any, find_first, find_first-holds, find_first-mem, update_many, All, All-map,
}
use klyvero.Billing.{Plan, Tenant, Subscription, Db, StripeObject, StripeEvent, EventType}
use klyvero.Billing.Checkout.{filled}
use klyvero.Billing.Events.{
  upsert_subscription, has_price, canceled, past_due, plan_of, apply_event, known_tenant,
  process_event, receive,
}
use klyvero.Billing.Receipts.{is_received, receive-first, receive-again}

-- The plan of a subscription was its tenant's before, or is an active one whose price the event
-- carries.
abbrev pub IsEntitled : Db → StripeObject → Subscription → Type 0
IsEntitled db o s =
    (any (λ r. r.tenant_id == s.tenant_id && r.plan_id == s.plan_id) db.subscriptions ≡ true)
    ⊎ ((p : Plan) × Memᴰ p db.plans
        × (p.active ≡ true)
        × (p.stripe_price_id ≡ o.price)
        × (s.plan_id ≡ p.id))

keeps-plan :
    (f : Subscription → Subscription) (q : Subscription → Bool) (all ss : List Subscription)
    → ((s : Subscription) → ((f s).tenant_id ≡ s.tenant_id) × ((f s).plan_id ≡ s.plan_id))
    → All (λ s. any (λ r. r.tenant_id == s.tenant_id && r.plan_id == s.plan_id) all ≡ true) ss
    → All
        (λ s. any (λ r. r.tenant_id == s.tenant_id && r.plan_id == s.plan_id) all ≡ true)
        (update_many q f ss)
unfolding update_many
keeps-plan f q all [] k h = tt
keeps-plan f q all (s ∷ ss) k (h, hs) = elim (Bool-cases (q s)) [
  | inl e ↦ (rw (e, (k s).0, (k s).1) h, keeps-plan f q all ss k hs)
  | inr e ↦ (rw e h, keeps-plan f q all ss k hs)
]

abbrev Seen : List Subscription → Subscription → Type 0
Seen all s = any (λ r. r.tenant_id == s.tenant_id && r.plan_id == s.plan_id) all ≡ true

all-Seen : (all : List Subscription) → All (Seen all) all
all-Seen [] = tt
all-Seen (s ∷ ss) = (
  rw (==_refl s.tenant_id, ==_refl s.plan_id) refl,
  All-map (Seen ss) (Seen (s ∷ ss)) ss (λ r h. ground (arith, h)) (all-Seen ss),
)

upsert-IsEntitled :
    (db : Db) (o : StripeObject) (tenant : ℕ) (p : Plan) (ss : List Subscription)
    → Memᴰ p db.plans
    → p.active ≡ true
    → p.stripe_price_id ≡ o.price
    → All (IsEntitled db o) ss
    → All (IsEntitled db o) (upsert_subscription tenant p.id o ss)
unfolding upsert_subscription
upsert-IsEntitled db o tenant p [] m a e h = (inr (p, m, a, e, refl), tt)
upsert-IsEntitled db o tenant p (s ∷ ss) m a e (h, hs) = elim (Bool-cases (s.tenant_id == tenant)) [
  | inl k ↦ rw (upsert_subscription, k) (inr (p, m, a, e, refl), hs)
  | inr k ↦ rw (upsert_subscription, k) (h, upsert-IsEntitled db o tenant p ss m a e hs)
]

filled-some : (o : Option Text) (t : Text) → filled o ≡ some t → o ≡ some t
filled-some none t h = cc
filled-some (some []) t h = cc
filled-some (some (c ∷ u)) t h = h

has_price-eq :
    (price : Text) (p : Plan)
    → has_price price p ≡ true
    → (p.active ≡ true) × (p.stripe_price_id ≡ some price)
has_price-eq price p h = elim (Option-cases p.stripe_price_id) [
  | inl e ↦ ground arith
  | inr (q, e) ↦ (ground arith, e ∙ ap some (eq_of_text_eq q price (ground arith)))
]

plan_of-none : (db : Db) (o : StripeObject) → filled o.price ≡ none → plan_of db o ≡ none
unfolding plan_of
plan_of-none db o e = rw (plan_of, e) refl

plan_of-price :
    (db : Db) (o : StripeObject) (price : Text)
    → filled o.price ≡ some price
    → plan_of db o ≡ find_first (has_price price) db.plans
unfolding plan_of
plan_of-price db o price e = rw (plan_of, e) refl

none_ne_some : {p : Plan} → none ≢ some p
none_ne_some h = cc

plan_of-some :
    (db : Db) (o : StripeObject) (p : Plan)
    → plan_of db o ≡ some p
    → Memᴰ p db.plans × (p.active ≡ true) × (p.stripe_price_id ≡ o.price)
plan_of-some db o p h = elim (Option-cases (filled o.price)) [
  | inl e ↦ absurd (none_ne_some (sym (plan_of-none db o e) ∙ h))
  | inr (price, e) ↦
      let found = sym (plan_of-price db o price e) ∙ h in
      let (a, b) = has_price-eq price p (find_first-holds (has_price price) db.plans found) in
      (find_first-mem (has_price price) db.plans found, a, b ∙ sym (filled-some o.price price e))
]

before-IsEntitled : (db : Db) (o : StripeObject) → All (IsEntitled db o) db.subscriptions
before-IsEntitled db o =
    All-map (Seen db.subscriptions) (IsEntitled db o) db.subscriptions (λ s x. inl x)
      (all-Seen db.subscriptions)

renew-cases :
    (db : Db) (tenant : ℕ) (o : StripeObject) (found : Option Plan)
    → plan_of db o ≡ found
    → All (IsEntitled db o) (elim found [
      | none ↦ db.subscriptions
      | some p ↦ upsert_subscription tenant p.id o db.subscriptions
    ])
renew-cases db tenant o none e = before-IsEntitled db o
renew-cases db tenant o (some p) e =
    let (m, a, q) = plan_of-some db o p e in
    upsert-IsEntitled db o tenant p db.subscriptions m a q (before-IsEntitled db o)

updated-IsEntitled :
    (db : Db) (o : StripeObject) (q : Subscription → Bool) (f : Subscription → Subscription)
    → ((s : Subscription) → ((f s).tenant_id ≡ s.tenant_id) × ((f s).plan_id ≡ s.plan_id))
    → All (IsEntitled db o) (update_many q f db.subscriptions)
updated-IsEntitled db o q f k =
    All-map (Seen db.subscriptions) (IsEntitled db o) (update_many q f db.subscriptions)
      (λ s x. inl x)
      (keeps-plan f q db.subscriptions db.subscriptions k (all-Seen db.subscriptions))

apply_event-IsEntitled :
    (now : ℕ) (db : Db) (tenant : ℕ) (e : StripeEvent) (kind : EventType)
    → All (IsEntitled db e.object) (apply_event now db tenant (record e { type = kind }))
unfolding apply_event
apply_event-IsEntitled now db tenant e EventType.subscription_created =
    renew-cases db tenant e.object (plan_of db e.object) refl
apply_event-IsEntitled now db tenant e EventType.subscription_updated =
    renew-cases db tenant e.object (plan_of db e.object) refl
apply_event-IsEntitled now db tenant e EventType.subscription_deleted =
    updated-IsEntitled db e.object (λ s. s.tenant_id == tenant) (canceled now) (λ s. (refl, refl))
apply_event-IsEntitled now db tenant e EventType.payment_failed =
    updated-IsEntitled db e.object (λ s. s.tenant_id == tenant) past_due (λ s. (refl, refl))
apply_event-IsEntitled now db tenant e EventType.other_event = before-IsEntitled db e.object

process_event-IsEntitled :
    (now : ℕ) (db : Db) (e : StripeEvent) (found : Option Tenant)
    → known_tenant db e.object ≡ found
    → All (IsEntitled db e.object) (process_event now db e).subscriptions
unfolding process_event
process_event-IsEntitled now db e none k = rw (process_event, k) (before-IsEntitled db e.object)
process_event-IsEntitled now db e (some t) k =
    rw (process_event, k) (apply_event-IsEntitled now db t.id e e.type)

stored-IsEntitled :
    (now : ℕ) (stored : Bool) (db : Db) (e : StripeEvent)
    → All (IsEntitled db e.object) (if stored then process_event now db e else db).subscriptions
stored-IsEntitled now true db e = process_event-IsEntitled now db e (known_tenant db e.object) refl
stored-IsEntitled now false db e = before-IsEntitled db e.object

-- After an event each subscription has the plan that its tenant had before, or an active plan whose
-- price is the one that the event carries: metadata that names a plan entitles nobody.
pub receive-IsEntitled :
    (now : ℕ) (stored : Bool) (db : Db) (e : StripeEvent)
    → All (IsEntitled db e.object) (receive now stored db e).0.subscriptions
receive-IsEntitled now stored db e = elim (Bool-cases (is_received e.id db)) [
  | inl h ↦
      subst (λ x. All (IsEntitled db e.object) x.0.subscriptions)
        (sym (receive-again now stored db e h)) (before-IsEntitled db e.object)
  | inr h ↦
      subst (λ x. All (IsEntitled db e.object) x.0.subscriptions)
        (sym (receive-first now stored db e h))
        (stored-IsEntitled now stored (record db { receipts = e.id ∷ db.receipts }) e)
]
