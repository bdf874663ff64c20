-- ===== src/Security/AuthDefense/Bump.antt =====
-- One failure in the memory of apps/api/src/infra/security/auth-defense.service.ts: the counter it
-- raises, the lock it sets, and the size of the map.
use klyvero.Common.{ℕ, ◌+◌, ◌≤◌, ◌<◌, ◌≡◌, ◌≢◌, none, some, arith, length}
use klyvero.Security.Fallback.{
  get, set, expire, length-evict-lt, evict_small, length-expire-le, get-set_self, get-set_other,
  length-set-le,
}
use klyvero.Security.AuthDefense.{
  Key, account, combo, account_lock, combo_lock, key_eq, Map, Config, Keys, trim_fallback,
  next_entry, lock_entry, bump, record_failure,
}

module _ (now window threshold lock_seconds : ℕ) (key lock_key : Key) where
  pub bump-other :
      (k : Key) (m : Map)
      → key ≢ k
      → lock_key ≢ k
      → get k (bump now window threshold lock_seconds key lock_key m) ≡ get k m
  unfolding bump
  bump-other k m ne ne' = ground (
    arith,
    get-set_other k key (next_entry now window (get key m)) m ne,
    get-set_other k lock_key (lock_entry now lock_seconds)
        (set key (next_entry now window (get key m)) m) ne',
  )

  pub bump_self :
      (m : Map)
      → lock_key ≢ key
      → get key (bump now window threshold lock_seconds key lock_key m)
        ≡ some (next_entry now window (get key m))
  unfolding bump
  bump_self m ne = ground (
    arith,
    get-set_self key (next_entry now window (get key m)) m,
    get-set_other key lock_key (lock_entry now lock_seconds)
        (set key (next_entry now window (get key m)) m) ne,
  )

  pub bump-locks :
      (m : Map)
      → threshold ≤ (next_entry now window (get key m)).count
      → get lock_key (bump now window threshold lock_seconds key lock_key m)
        ≡ some (lock_entry now lock_seconds)
  unfolding bump
  bump-locks m h = ground (
    arith,
    get-set_self lock_key (lock_entry now lock_seconds)
        (set key (next_entry now window (get key m)) m),
  )

  pub length-bump :
      (m : Map) → length (bump now window threshold lock_seconds key lock_key m) ≤ length m + 2
  unfolding bump
  length-bump m = ground (
    arith,
    length-set-le key (next_entry now window (get key m)) m,
    length-set-le lock_key (lock_entry now lock_seconds)
        (set key (next_entry now window (get key m)) m),
  )

-- One failure adds at most two counters and two locks.
pub length-record_failure-le :
    (m : Map) (cfg : Config) (now : ℕ) (ks : Keys)
    → length (record_failure m cfg none now ks).0 ≤ length (trim_fallback now m) + 4
unfolding record_failure
length-record_failure-le m cfg now ks =
    let trimmed = trim_fallback now m in
    let counted =
      bump now cfg.window_seconds cfg.account_threshold cfg.account_lock_seconds
        (account ks.account_key) (account_lock ks.account_key) trimmed in
    omega (
      arith,
      length-bump now cfg.window_seconds cfg.account_threshold cfg.account_lock_seconds
          (account ks.account_key) (account_lock ks.account_key) trimmed,
      length-bump now cfg.window_seconds cfg.combo_threshold cfg.combo_lock_seconds
          (combo ks.combo_key) (combo_lock ks.combo_key) counted,
    )

pub length-trim_fallback : (now : ℕ) (m : Map) → length (trim_fallback now m) < 20000
unfolding trim_fallback
length-trim_fallback now m = length-evict-lt 20000 (expire now m) (omega arith)

-- The map in memory never holds more than 20003 entries, whoever fails and however often.
pub length-record_failure-bounded :
    (m : Map) (cfg : Config) (now : ℕ) (ks : Keys)
    → length (record_failure m cfg none now ks).0 ≤ 20003
length-record_failure-bounded m cfg now ks =
    omega (arith, length-record_failure-le m cfg now ks, length-trim_fallback now m)

pub trim_fallback_small :
    (now : ℕ) (m : Map) → length m < 20000 → trim_fallback now m ≡ expire now m
unfolding trim_fallback
trim_fallback_small now m h =
    evict_small 20000 (expire now m) (omega (arith, length-expire-le now m))
