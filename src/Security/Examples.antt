-- ===== src/Security/Examples.antt =====
-- Runs of the lock on a concrete key.
use klyvero.Common.{
  Text, units, some, length, List, ◌≤◌, ℕ, ◌≡◌, refl, [], ◌∷◌, none, arith, ◌++◌, err,
}
use klyvero.Security.Fallback.{get, set}
use klyvero.Security.RateLimit.{
  RateKey, api, Limits, Request, includes, trim_counts, increment, rate_key, can_activate,
}
use klyvero.Security.RateLimit.Guard.{admits, admits-le}
use klyvero.Security.AuthDefense.{Config, Keys, throttled, assert_allowed}
use klyvero.Security.AuthDefense.Lockout.{fail_all, failures-lock}

abbrev config : Config
config = record {
  window_seconds = 900;
  account_threshold = 20;
  combo_threshold = 3;
  account_lock_seconds = 300;
  combo_lock_seconds = 600;
}

abbrev bob : Keys
bob = record { account_key = 1; combo_key = 2 }

failures-lock_example :
    assert_allowed (fail_all config bob [] ((1000 ∷ 2000 ∷ []) ++ 3000 ∷ [])) none 600000 bob
    ≡ err throttled
unfolding get
failures-lock_example =
    failures-lock config bob [] 1000 3000 600000 (2000 ∷ []) refl (omega arith) (omega arith, tt)
      (omega arith) (omega arith) (omega arith)

-- A fingerprint by length, and requests of one caller, of another, and to the login.
abbrev limits : Limits
limits = record { window_seconds = 60; login_max = 5; api_max = 2 }

abbrev asks : Text → Text → Request
asks name url = record { principal = some name; ip = units "10.1.1.1"; url = url }

abbrev attempts : List (Request × ℕ)
attempts =
    (asks (units "ana") (units "/leads"), 1000)
    ∷ (asks (units "ana") (units "/auth/login"), 1001)
    ∷ (asks (units "bruno") (units "/leads"), 1500)
    ∷ (asks (units "ana") (units "/deals"), 1600)
    ∷ (asks (units "ana") (units "/leads"), 2000)
    ∷ []

-- The key of the first caller, and two of the three requests with it.
abbrev ana : RateKey
ana = api 13 0

admits_test : admits length limits ana [] attempts ≡ 2
unfolding admits can_activate increment rate_key includes get set trim_counts
admits_test = refl

admits-le_example : admits length limits ana [] attempts ≤ 2
unfolding get
admits-le_example =
    admits-le length limits ana [] 1000 attempts refl
      (
        (omega arith, omega arith),
        (
          (omega arith, omega arith),
          (
            (omega arith, omega arith),
            ((omega arith, omega arith), ((omega arith, omega arith), tt)),
          ),
        ),
      )
      (omega arith)
