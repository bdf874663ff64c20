-- ===== src/Security/RateLimit.antt =====
-- apps/api/src/common/rate-limit.guard.ts: the number of requests that one caller makes in a window.
-- What Redis answers is an argument: the count, or `none` where the call throws.
pub mod Window
pub mod Guard
use klyvero.Common.{
  ℕ, ◌+◌, ◌*◌, ◌/◌, ◌≡◌, ◌↔◌, Bool, true, false, ◌&&◌, ◌||◌, List, [], ◌∷◌, Option, none, some,
  arith, ltb, leb, ◌==◌, if◌then◌else◌, Result, too_many_requests, throw_if, Text, units, length,
  ◌++◌,
}
use klyvero.Text.Phone.{starts_with}
use klyvero.Security.Fallback.{Eq, Entry, get, set, expire, evict}

-- `url.includes(part)`
unfoldable pub includes : Text → Text → Bool
includes part [] = starts_with part []
includes part (x ∷ xs) = starts_with part (x ∷ xs) || includes part xs

-- The keys: a fingerprint of the caller and the number of the window, by kind of request; the first
-- two are of this guard and the last three of the one before authentication.
pub data RateKey : Type 0 where
  login api auth_edge public_edge edge : ℕ → ℕ → RateKey

abbrev pub rate_key_beq : RateKey → RateKey → Bool
rate_key_beq (login a b) (login c d) = a == c && b == d
rate_key_beq (api a b) (api c d) = a == c && b == d
rate_key_beq (auth_edge a b) (auth_edge c d) = a == c && b == d
rate_key_beq (public_edge a b) (public_edge c d) = a == c && b == d
rate_key_beq (edge a b) (edge c d) = a == c && b == d
rate_key_beq _ _ = false

pub rate_key_beq_iff : (a b : RateKey) → (rate_key_beq a b ≡ true) ↔ (a ≡ b)
rate_key_beq_iff (login a b) (login c d) = ground arith
rate_key_beq_iff (api a b) (api c d) = ground arith
rate_key_beq_iff (auth_edge a b) (auth_edge c d) = ground arith
rate_key_beq_iff (public_edge a b) (public_edge c d) = ground arith
rate_key_beq_iff (edge a b) (edge c d) = ground arith
rate_key_beq_iff a b = ground arith

instance abbrev pub rate_key_eq : Eq RateKey
rate_key_eq = record { beq = rate_key_beq; beq_iff = rate_key_beq_iff }

abbrev pub Counts : Type 0
Counts = List (RateKey × Entry)

unfoldable pub trim_counts : ℕ → Counts → Counts
unfolding expire evict
trim_counts now m = if ltb (length m) 20000 then m else evict 20000 (expire now m)

abbrev first_count : ℕ → ℕ → Entry
first_count now ttl = record { count = 1; expires_at = now + ttl * 1000; locked_until = none }

-- Whether the entry is missing or has expired.
abbrev pub is_stale : ℕ → Option Entry → Bool
is_stale now none = true
is_stale now (some v) = leb v.expires_at now

abbrev pub count_of : Option Entry → ℕ
count_of none = 0
count_of (some v) = v.count

abbrev pub raise : Option Entry → ℕ → ℕ → Entry
raise none now ttl = first_count now ttl
raise (some v) now ttl = record v { count = v.count + 1 }

unfoldable pub increment : Counts → Option ℕ → ℕ → RateKey → ℕ → Counts × ℕ
unfolding get set trim_counts
increment m (some count) now key ttl = (m, count)
increment m none now key ttl =
    if is_stale now (get key m)
    then (set key (first_count now ttl) (trim_counts now m), 1)
    else (set key (raise (get key m) now ttl) m, (raise (get key m) now ttl).count)

pub record Limits : Type 0 where
  pub window_seconds : ℕ
  pub login_max : ℕ
  pub api_max : ℕ

pub record Request : Type 0 where
  pub principal : Option Text
  pub ip : Text
  pub url : Text

abbrev identity : Request → Text
identity r = elim r.principal [ none ↦ units "ip:" ++ r.ip | some p ↦ units "principal:" ++ p ]

abbrev pub is_login : Request → Bool
is_login r = includes (units "/auth/login") r.url

abbrev pub max_for : Limits → Request → ℕ
max_for l r = if is_login r then l.login_max else l.api_max

-- `Math.floor(Date.now() / (windowSeconds * 1000))` names the window.
unfoldable pub rate_key : (Text → ℕ) → Limits → ℕ → Request → RateKey
unfolding includes
rate_key fingerprint l now r =
    let bucket = now / (l.window_seconds * 1000) in
    if is_login r
    then login (fingerprint (identity r)) bucket
    else api (fingerprint (identity r)) bucket

unfoldable pub can_activate :
    (Text → ℕ) → Limits → Counts → Option ℕ → ℕ → Request → Counts × Result (Unit {0})
unfolding increment rate_key includes
can_activate fingerprint l m redis now r =
    let (m', count) = increment m redis now (rate_key fingerprint l now r) l.window_seconds in
    (m', throw_if (ltb (max_for l r) count) (too_many_requests "Too many requests"))
