-- ===== src/Usage/Examples.antt =====
-- Runs of the quota on a plan with one limit.
use klyvero.Common.{ℕ, ◌≤◌, refl, arith, [], ◌∷◌, some, Text, units, text_eq, find_first}
use klyvero.Usage.{active, Db, limit_in, subscription_of, get_limit, value_in}
use klyvero.Usage.Quota.{serve, serve-IsWithin}

abbrev mails : Text
mails = units "emails"

abbrev may : Text
may = units "2026-05"

abbrev with_count : ℕ → Db
with_count n = record {
  subscriptions = record { tenant_id = 1; status = active; limits = (mails, some 10) ∷ [] } ∷ [];
  counters = record { tenant_id = 1; key = mails; period = may; value = n } ∷ [];
}

serve-IsWithin_example :
    value_in 1 mails may
      (serve may
        (record { tenant = 1; key = mails; amount = 2 }
          ∷ record { tenant = 1; key = mails; amount = 5 }
          ∷ [])
        (with_count 7)).counters
    ≤ 10
unfolding get_limit subscription_of find_first limit_in text_eq value_in
serve-IsWithin_example =
    serve-IsWithin 1 mails may 10
      (record { tenant = 1; key = mails; amount = 2 }
        ∷ record { tenant = 1; key = mails; amount = 5 }
        ∷ [])
      (with_count 7) refl (omega arith)
