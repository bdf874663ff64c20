-- ===== src/Security/RateLimit/Guard.antt =====
-- How many requests of one caller the guard lets through.
use klyvero.Common.{
  ℕ, suc, ◌+◌, ◌*◌, ◌≤◌, ◌<◌, ◌≡◌, refl, sym, ap, ◌∙◌, subst, inl, inr, arith, Bool, true, false,
  ◌&&◌, List, [], ◌∷◌, none, leb, ltb, if◌then◌else◌, Bool-cases, length, All, Text, Result, ok,
  err, Error, throw_if,
}
use klyvero.Security.Fallback.{get}
use klyvero.Security.RateLimit.{
  RateKey, login, api, rate_key_beq, rate_key_beq_iff, rate_key_eq, Counts, increment, Limits,
  Request, is_login, max_for, rate_key, can_activate,
}
use klyvero.Security.RateLimit.Window.{passes, passes-le}

abbrev pub is_admitted : Result (Unit {0}) → Bool
is_admitted (ok u) = true
is_admitted (err e) = false

-- The configured maximum for the requests of a key.
abbrev pub limit_of : Limits → RateKey → ℕ
limit_of l (login a b) = l.login_max
limit_of l (api a b) = l.api_max
limit_of l _ = 0

throw_if-admitted :
    (max count : ℕ) (e : Error) → is_admitted (throw_if (ltb max count) e) ≡ leb count max
throw_if-admitted max count e = ground arith

counted :
    (mine b c : Bool) (n k : ℕ)
    → (mine ≡ true → b ≡ c)
    → n ≡ k
    → ◌≡◌ {A = ℕ} (if mine && b then suc n else n) (if mine && c then suc k else k)
counted true b c n k h e = rw (h refl, e) refl
counted false b c n k h e = e

module _ (fingerprint : Text → ℕ) (l : Limits) (k : RateKey) where
  -- The requests of the key that the guard lets through while Redis does not answer, among requests
  -- with their times.
  unfoldable pub admits : Counts → List (Request × ℕ) → ℕ
  unfolding can_activate
  admits m [] = 0
  admits m ((r, now) ∷ rs) =
      let answer = can_activate fingerprint l m none now r in
      let rest = admits answer.0 rs in
      if rate_key_beq (rate_key fingerprint l now r) k && is_admitted answer.1
      then suc rest
      else rest

  abbrev keyed : List (Request × ℕ) → List (RateKey × ℕ)
  keyed [] = []
  keyed ((r, now) ∷ rs) = (rate_key fingerprint l now r, now) ∷ keyed rs

  limit_of-max :
      (now : ℕ) (r : Request) → rate_key fingerprint l now r ≡ k → max_for l r ≡ limit_of l k
  unfolding rate_key
  limit_of-max now r e = elim (Bool-cases (is_login r)) [
    | inl hit ↦ subst (λ x. max_for l r ≡ limit_of l x) e (rw hit refl)
    | inr miss ↦ subst (λ x. max_for l r ≡ limit_of l x) e (rw miss refl)
  ]

  admits-passes :
      (m : Counts) (rs : List (Request × ℕ))
      → admits m rs ≡ passes k l.window_seconds (limit_of l k) m (keyed rs)
  unfolding admits passes can_activate
  admits-passes m [] = refl
  admits-passes m ((r, now) ∷ rs) =
      let key = rate_key fingerprint l now r in
      let after = increment m none now key l.window_seconds in
      counted (rate_key_beq key k) _ _ _ _
        (λ mine.
          throw_if-admitted (max_for l r) after.1 _
          ∙ ap (leb after.1) (limit_of-max now r ((rate_key_beq_iff key k).0 mine)))
        (admits-passes after.0 rs)

  keyed-All :
      (from until : ℕ) (rs : List (Request × ℕ))
      → All (λ r. (from ≤ r.1) × (r.1 < until)) rs
      → All (λ r. (from ≤ r.1) × (r.1 < until)) (keyed rs)
  keyed-All from until [] h = tt
  keyed-All from until (r ∷ rs) h = (h.0, keyed-All from until rs h.1)

  length-keyed : (rs : List (Request × ℕ)) → length (keyed rs) ≡ length rs
  length-keyed [] = refl
  length-keyed (r ∷ rs) = ap suc (length-keyed rs)

  -- While Redis does not answer: among requests that come from the first of a caller's window on and
  -- before its counter expires, the guard lets through at most the configured maximum of those with
  -- one key, however many come and whatever the others do, as long as the counters in memory and the
  -- requests are fewer than 20000.
  pub admits-le :
      (m : Counts) (from : ℕ) (rs : List (Request × ℕ))
      → get k m ≡ none
      → All (λ r. (from ≤ r.1) × (r.1 < from + l.window_seconds * 1000)) rs
      → length m + length rs < 20000
      → admits m rs ≤ limit_of l k
  admits-le m from rs g h small =
      subst (λ n. n ≤ limit_of l k) (sym (admits-passes m rs))
        (passes-le k l.window_seconds (limit_of l k) m from (keyed rs) g
          (keyed-All from (from + l.window_seconds * 1000) rs h)
          (omega (arith, length-keyed rs, small)))
