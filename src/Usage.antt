-- ===== src/Usage.antt =====
-- apps/api/src/modules/usage/usage.service.ts: the monthly counters and their quotas. The advisory
-- lock makes each call one step. A limit is `none` where the plan's value is not a finite number that
-- is at least zero; a fractional limit acts as its integer part.
pub mod Quota
mod Examples
use klyvero.Common.{
  ℕ, zero, ◌+◌, Bool, true, false, not, ◌&&◌, ◌||◌, List, [], ◌∷◌, Option, none, some, Text,
  text_eq, ltb, ◌==◌, if◌then◌else◌, Result, ok, err, ◌>>=◌, ◌>>◌, throw_if, bad_request, forbidden,
  find_first,
}

pub data SubscriptionStatus : Type 0 where
  active trialing other : SubscriptionStatus

pub record Subscription : Type 0 where
  pub tenant_id : ℕ
  pub status : SubscriptionStatus
  pub limits : List (Text × Option ℕ)

pub record Counter : Type 0 where
  pub tenant_id : ℕ
  pub key : Text
  pub period : Text
  pub value : ℕ

pub record Db : Type 0 where
  pub subscriptions : List Subscription
  pub counters : List Counter

abbrev pub is_paying : SubscriptionStatus → Bool
is_paying active = true
is_paying trialing = true
is_paying other = false

unfoldable pub limit_in : Text → List (Text × Option ℕ) → Option ℕ
unfolding text_eq
limit_in key [] = none
limit_in key ((k, v) ∷ rest) = let later = limit_in key rest in if text_eq k key then v else later

unfoldable pub subscription_of : Db → ℕ → Option Subscription
unfolding find_first
subscription_of db tenant = find_first (λ s. s.tenant_id == tenant) db.subscriptions

-- Refused, or the limit that applies.
unfoldable pub get_limit : Db → ℕ → Text → Result (Option ℕ)
unfolding subscription_of limit_in
get_limit db tenant key = elim (subscription_of db tenant) [
  | none ↦ ok none
  | some s ↦
      if is_paying s.status
      then ok (limit_in key s.limits)
      else err (forbidden "Usage requires an active subscription")
]

-- The unique key of a counter.
abbrev pub is_counter : ℕ → Text → Text → Counter → Bool
is_counter tenant key period c =
    c.tenant_id == tenant && (text_eq c.key key && text_eq c.period period)

abbrev or_zero : Option Counter → ℕ
or_zero none = 0
or_zero (some c) = c.value

unfoldable pub value_in : ℕ → Text → Text → List Counter → ℕ
unfolding find_first
value_in tenant key period cs = or_zero (find_first (is_counter tenant key period) cs)

unfoldable pub upsert_counter : ℕ → Text → Text → ℕ → List Counter → List Counter
unfolding text_eq
upsert_counter tenant key period amount [] =
    record { tenant_id = tenant; key = key; period = period; value = amount } ∷ []
upsert_counter tenant key period amount (c ∷ cs) =
    let rest = upsert_counter tenant key period amount cs in
    if is_counter tenant key period c then record c { value = c.value + amount } ∷ cs else c ∷ rest

abbrev pub is_over : Option ℕ → ℕ → Bool
is_over none next = false
is_over (some limit) next = ltb limit next

unfoldable pub assert_and_increment : Db → ℕ → Text → ℕ → Text → Result Db
unfolding get_limit value_in upsert_counter
assert_and_increment db tenant key amount period =
    throw_if (amount == 0 || ltb 100000 amount) (bad_request "Invalid usage increment")
    >> (get_limit db tenant key >>= λ limit.
        throw_if (is_over limit (value_in tenant key period db.counters + amount))
          (forbidden "Monthly quota exceeded")
        >> ok (record db { counters = upsert_counter tenant key period amount db.counters }))
