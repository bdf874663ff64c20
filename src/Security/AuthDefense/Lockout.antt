-- ===== src/Security/AuthDefense/Lockout.antt =====
-- apps/api/src/infra/security/auth-defense.service.ts: repeated failures lock, a success unlocks.
use klyvero.Common.{
  ℕ, suc, ◌+◌, ◌*◌, ◌≤◌, ◌<◌, ◌≡◌, refl, sym, ap, subst, ◌∙◌, inl, inr, true, false, List, [], ◌∷◌,
  Option, none, some, arith, ltb, Bool-cases, ok, err, length, All, ◌++◌,
}
use klyvero.Security.Fallback.{
  Entry, get, delete, expire, length-expire-le, get-delete_self, get-delete-none, get-expire,
  get-expire-none,
}
use klyvero.Security.AuthDefense.{
  account, combo, account_lock, combo_lock, key_eq, Map, Config, Keys, throttled, is_locked,
  assert_allowed, trim_fallback, next_entry, lock_entry, bump, record_failure, record_success,
}
use klyvero.Security.AuthDefense.Bump.{
  bump-other, bump_self, bump-locks, length-record_failure-le, trim_fallback_small,
}

ltb-true : {a b : ℕ} → a < b → ltb a b ≡ true
ltb-true h = ground arith

module _ (cfg : Config) (ks : Keys) where
  -- The combination has failed at least `c` times in a window that ends at `until`.
  abbrev Counted : ℕ → ℕ → Map → Type 0
  Counted c until m =
      (v : Entry) × (get (combo ks.combo_key) m ≡ some v) × (c ≤ v.count) × (v.expires_at ≡ until)

  unfoldable pub fail_all : Map → List ℕ → Map
  fail_all m [] = m
  fail_all m (t ∷ ts) = fail_all (record_failure m cfg none t ks).0 ts

  abbrev seen : ℕ → Map → Option Entry
  seen now m = get (combo ks.combo_key) (expire now m)

  -- The map between the two bumps of a failure.
  abbrev halfway : Map → ℕ → Map
  halfway m now =
      bump now cfg.window_seconds cfg.account_threshold cfg.account_lock_seconds
        (account ks.account_key) (account_lock ks.account_key) (trim_fallback now m)

  get-halfway :
      (m : Map) (now : ℕ) → length m < 20000 → get (combo ks.combo_key) (halfway m now) ≡ seen now m
  get-halfway m now h =
      bump-other now cfg.window_seconds cfg.account_threshold cfg.account_lock_seconds
        (account ks.account_key) (account_lock ks.account_key) (combo ks.combo_key)
        (trim_fallback now m) (λ p. ground (arith, p)) (λ p. ground (arith, p))
      ∙ ap (get (combo ks.combo_key)) (trim_fallback_small now m h)

  get-record_failure :
      (m : Map) (now : ℕ)
      → length m < 20000
      → get (combo ks.combo_key) (record_failure m cfg none now ks).0
        ≡ some (next_entry now cfg.window_seconds (seen now m))
  unfolding record_failure
  get-record_failure m now h =
      bump_self now cfg.window_seconds cfg.combo_threshold cfg.combo_lock_seconds
        (combo ks.combo_key) (combo_lock ks.combo_key) (halfway m now) (λ p. ground (arith, p))
      ∙ ap (λ x. some (next_entry now cfg.window_seconds x)) (get-halfway m now h)

  next_entry-later :
      (now window : ℕ) (v : Entry)
      → now < v.expires_at
      → next_entry now window (some v) ≡ record v { count = v.count + 1 }
  next_entry-later now window v h = ground arith

  record_failure-Counted :
      (c until : ℕ) (m : Map) (now : ℕ)
      → length m < 20000
      → now < until
      → Counted c until m
      → Counted (suc c) until (record_failure m cfg none now ks).0
  record_failure-Counted c until m now h l (v, g, k, e) =
      let later = subst (λ x. now < x) (sym e) l in
      (
        record v { count = v.count + 1 },
        get-record_failure m now h
            ∙ ap (λ x. some (next_entry now cfg.window_seconds x))
                (get-expire (combo ks.combo_key) now m v g later)
            ∙ ap some (next_entry-later now cfg.window_seconds v later),
        omega arith,
        e,
      )

  locked-after :
      (m : Map) (now : ℕ)
      → length m < 20000
      → cfg.combo_threshold ≤ (next_entry now cfg.window_seconds (seen now m)).count
      → get (combo_lock ks.combo_key) (record_failure m cfg none now ks).0
        ≡ some (lock_entry now cfg.combo_lock_seconds)
  unfolding record_failure
  locked-after m now h t =
      bump-locks now cfg.window_seconds cfg.combo_threshold cfg.combo_lock_seconds
        (combo ks.combo_key) (combo_lock ks.combo_key) (halfway m now)
        (subst (λ x. cfg.combo_threshold ≤ (next_entry now cfg.window_seconds x).count)
          (sym (get-halfway m now h)) t)

  -- A locked combination is refused until the lock ends.
  refused :
      (m : Map) (from now : ℕ)
      → get (combo_lock ks.combo_key) m ≡ some (lock_entry from cfg.combo_lock_seconds)
      → now < from + cfg.combo_lock_seconds * 1000
      → assert_allowed m none now ks ≡ err throttled
  unfolding assert_allowed
  refused m from now h l = elim (Bool-cases (is_locked now (get (account_lock ks.account_key) m))) [
    | inl e ↦ rw e
    | inr e ↦ rw (e, h, ltb-true l)
  ]

  length-record_failure_small :
      (m : Map) (now : ℕ)
      → length m < 20000
      → length (record_failure m cfg none now ks).0 ≤ length m + 4
  length-record_failure_small m now h = omega (
    arith,
    length-record_failure-le m cfg now ks,
    ap length (trim_fallback_small now m h),
    length-expire-le now m,
  )

  length-fail_all-le :
      (m : Map) (ts : List ℕ)
      → length m + 4 * length ts < 20000
      → length (fail_all m ts) ≤ length m + 4 * length ts
  unfolding fail_all
  length-fail_all-le m [] h = omega arith
  length-fail_all-le m (t ∷ ts) h =
      let one = length-record_failure_small m t (omega arith) in
      omega (arith, length-fail_all-le (record_failure m cfg none t ks).0 ts (omega (arith, one)))

  fail_all-Counted :
      (c until : ℕ) (m : Map) (ts : List ℕ)
      → length m + 4 * length ts < 20000
      → All (λ t. t < until) ts
      → Counted c until m
      → Counted (c + length ts) until (fail_all m ts)
  unfolding fail_all
  fail_all-Counted c until m [] h b (v, g, k, e) = (v, g, omega arith, e)
  fail_all-Counted c until m (t ∷ ts) h (l, b) k =
      let one = length-record_failure_small m t (omega arith) in
      let (v, g, n, e) =
        fail_all-Counted (suc c) until (record_failure m cfg none t ks).0 ts (omega (arith, one)) b
          (record_failure-Counted c until m t (omega arith) l k) in
      (v, g, omega arith, e)

  first_failure-Counted :
      (m : Map) (now : ℕ)
      → length m < 20000
      → get (combo ks.combo_key) m ≡ none
      → Counted 1 (now + cfg.window_seconds * 1000) (record_failure m cfg none now ks).0
  first_failure-Counted m now h g = (
    next_entry now cfg.window_seconds none,
    get-record_failure m now h
        ∙ ap (λ x. some (next_entry now cfg.window_seconds x))
            (get-expire-none (combo ks.combo_key) now m g),
    omega arith,
    refl,
  )

  fail_all-snoc :
      (m : Map) (ts : List ℕ) (t : ℕ)
      → fail_all m (ts ++ t ∷ []) ≡ (record_failure (fail_all m ts) cfg none t ks).0
  unfolding fail_all
  fail_all-snoc m [] t = refl
  fail_all-snoc m (t' ∷ ts) t = fail_all-snoc (record_failure m cfg none t' ks).0 ts t

  next_entry-counts :
      (now until c : ℕ) (m : Map)
      → now < until
      → Counted c until m
      → suc c ≤ (next_entry now cfg.window_seconds (seen now m)).count
  next_entry-counts now until c m l (v, g, k, e) =
      let later = subst (λ x. now < x) (sym e) l in
      subst (λ x. suc c ≤ (next_entry now cfg.window_seconds x).count)
        (sym (get-expire (combo ks.combo_key) now m v g later))
        (subst (λ x. suc c ≤ x.count) (sym (next_entry-later now cfg.window_seconds v later))
          (omega arith))

  -- While Redis does not answer: when a combination that had no counter fails once at `first`, then
  -- at each of `ts` and at `last`, all before the window of the first one ends, and these failures
  -- reach the threshold, every attempt before the end of the lock is refused as throttled; this asks
  -- that the counters in memory, and four more for each failure, are fewer than 20000.
  pub failures-lock :
      (m : Map) (first last now : ℕ) (ts : List ℕ)
      → get (combo ks.combo_key) m ≡ none
      → length m + 4 * (length ts + 2) < 20000
      → All (λ t. t < first + cfg.window_seconds * 1000) ts
      → last < first + cfg.window_seconds * 1000
      → cfg.combo_threshold ≤ length ts + 2
      → now < last + cfg.combo_lock_seconds * 1000
      → assert_allowed (fail_all m ((first ∷ ts) ++ last ∷ [])) none now ks ≡ err throttled
  unfolding fail_all
  failures-lock m first last now ts g h b l t n =
      let until = first + cfg.window_seconds * 1000 in
      let start = (record_failure m cfg none first ks).0 in
      let before = fail_all start ts in
      let size_start = length-record_failure_small m first (omega (arith, h)) in
      let size_before = length-fail_all-le start ts (omega (arith, size_start, h)) in
      let counted =
        fail_all-Counted 1 until start ts (omega (arith, size_start, h)) b
          (first_failure-Counted m first (omega (arith, h)) g) in
      let enough = next_entry-counts last until (1 + length ts) before l counted in
      refused (fail_all m ((first ∷ ts) ++ last ∷ [])) last now
        (ap (get (combo_lock ks.combo_key)) (fail_all-snoc m (first ∷ ts) last)
          ∙ locked-after before last (omega (arith, size_start, size_before, h))
              (omega (arith, enough, t)))
        n

-- While Redis does not answer: after a successful login the account and the combination are let in,
-- whatever was recorded before.
pub record_success-unlocks :
    (m : Map) (now : ℕ) (ks : Keys) → assert_allowed (record_success m false ks) none now ks ≡ ok tt
unfolding assert_allowed record_success
record_success-unlocks m now ks =
    let accounts = delete (combo ks.combo_key) (delete (account ks.account_key) m) in
    let unlocked = delete (account_lock ks.account_key) accounts in
    rw (
      get-delete_self (combo_lock ks.combo_key) unlocked,
      get-delete-none (account_lock ks.account_key) (combo_lock ks.combo_key) unlocked
          (get-delete_self (account_lock ks.account_key) accounts),
    )
