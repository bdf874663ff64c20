-- ===== src/Security/AuthDefense.antt =====
-- apps/api/src/infra/security/auth-defense.service.ts: locking an account, or an account from one
-- address, after repeated failures. What Redis answers is an argument: `none` where the call throws.
pub mod Bump
pub mod Lockout
use klyvero.Common.{
  ℕ, ◌+◌, ◌-◌, ◌*◌, ◌<◌, ◌≡◌, ◌↔◌, ◌++◌, Bool, true, false, not, ◌&&◌, ◌||◌, List, [], ◌∷◌, Option,
  none, some, arith, ltb, leb, ◌==◌, if◌then◌else◌, Result, Error, too_many_requests, Text, units,
  trim, throw_if,
}
use klyvero.Security.Fallback.{Eq, Entry, get, set, delete, expire, evict}

-- The four key spaces, each with the fingerprint that completes the key.
pub data Key : Type 0 where
  account combo account_lock combo_lock : ℕ → Key

abbrev pub key_beq : Key → Key → Bool
key_beq (account a) (account b) = a == b
key_beq (combo a) (combo b) = a == b
key_beq (account_lock a) (account_lock b) = a == b
key_beq (combo_lock a) (combo_lock b) = a == b
key_beq _ _ = false

pub key_beq_iff : (a b : Key) → (key_beq a b ≡ true) ↔ (a ≡ b)
key_beq_iff (account a) (account b) = ground arith
key_beq_iff (combo a) (combo b) = ground arith
key_beq_iff (account_lock a) (account_lock b) = ground arith
key_beq_iff (combo_lock a) (combo_lock b) = ground arith
key_beq_iff a b = ground arith

instance abbrev pub key_eq : Eq Key
key_eq = record { beq = key_beq; beq_iff = key_beq_iff }

abbrev pub Map : Type 0
Map = List (Key × Entry)

pub record Config : Type 0 where
  pub window_seconds : ℕ
  pub account_threshold : ℕ
  pub combo_threshold : ℕ
  pub account_lock_seconds : ℕ
  pub combo_lock_seconds : ℕ

pub record Keys : Type 0 where
  pub account_key : ℕ
  pub combo_key : ℕ

abbrev or_unknown : Option Text → Text
or_unknown none = units "unknown"
or_unknown (some ip) = ip

-- `keys`: `fingerprint` is the keyed hash, `lower` is `toLowerCase`.
unfoldable pub keys : (Text → ℕ) → (ℕ → Text → ℕ) → (Text → Text) → Text → Text → Option Text → Keys
unfolding trim
keys account_print combo_print lower tenant_slug email ip =
    let account_key = account_print (lower (trim tenant_slug) ++ 124 ∷ lower (trim email)) in
    record { account_key = account_key; combo_key = combo_print account_key (or_unknown ip) }

abbrev pub throttled : Error
throttled = too_many_requests "Authentication temporarily throttled"

-- `entry?.lockedUntil && entry.lockedUntil > now`
abbrev pub is_locked : ℕ → Option Entry → Bool
is_locked now none = false
is_locked now (some v) = elim v.locked_until [ none ↦ false | some t ↦ ltb now t ]

-- `mget` answers whether either lock is there.
unfoldable pub assert_allowed : Map → Option Bool → ℕ → Keys → Result (Unit {0})
unfolding get
assert_allowed m (some locked) now ks = throw_if locked throttled
assert_allowed m none now ks =
    throw_if
      (is_locked now (get (account_lock ks.account_key) m)
        || is_locked now (get (combo_lock ks.combo_key) m))
      throttled

unfoldable pub trim_fallback : ℕ → Map → Map
unfolding expire evict
trim_fallback now m = evict 20000 (expire now m)

-- `if (!entry || entry.expiresAt <= now) entry = { count: 0, expiresAt: … }; entry.count += 1;`
abbrev pub next_entry : ℕ → ℕ → Option Entry → Entry
next_entry now window none = record {
  count = 1;
  expires_at = now + window * 1000;
  locked_until = none;
}
next_entry now window (some v) =
    if leb v.expires_at now
    then record { count = 1; expires_at = now + window * 1000; locked_until = none }
    else record v { count = v.count + 1 }

abbrev pub lock_entry : ℕ → ℕ → Entry
lock_entry now seconds = record {
  count = 0;
  expires_at = now + seconds * 1000;
  locked_until = some (now + seconds * 1000);
}

unfoldable pub bump : ℕ → ℕ → ℕ → ℕ → Key → Key → Map → Map
unfolding get set
bump now window threshold lock_seconds key lock_key m =
    let v = next_entry now window (get key m) in
    let counted = set key v m in
    if leb threshold v.count then set lock_key (lock_entry now lock_seconds) counted else counted

-- A lock that Redis is asked to set, with its time to live.
pub record Lock : Type 0 where
  pub key : Key
  pub seconds : ℕ

abbrev lock_if : Bool → Key → ℕ → List Lock → List Lock
lock_if true k s ls = record { key = k; seconds = s } ∷ ls
lock_if false k s ls = ls

-- `recordFailure`: with the counts that Redis returns, the locks to set there; without, the bumps
-- of the map.
unfoldable pub record_failure : Map → Config → Option (ℕ × ℕ) → ℕ → Keys → Map × List Lock
record_failure m cfg (some (account_count, combo_count)) now ks = (
  m,
  lock_if (leb cfg.account_threshold account_count) (account_lock ks.account_key)
      cfg.account_lock_seconds
      (lock_if (leb cfg.combo_threshold combo_count) (combo_lock ks.combo_key)
        cfg.combo_lock_seconds []),
)
record_failure m cfg none now ks = (
  bump now cfg.window_seconds cfg.combo_threshold cfg.combo_lock_seconds (combo ks.combo_key)
      (combo_lock ks.combo_key)
      (bump now cfg.window_seconds cfg.account_threshold cfg.account_lock_seconds
        (account ks.account_key) (account_lock ks.account_key) (trim_fallback now m)),
  [],
)

-- `recordSuccess`, where Redis does not answer.
unfoldable pub record_success : Map → Bool → Keys → Map
unfolding delete
record_success m true ks = m
record_success m false ks = delete (combo_lock ks.combo_key) (
    delete (account_lock ks.account_key)
      (delete (combo ks.combo_key) (delete (account ks.account_key) m)))
