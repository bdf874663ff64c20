-- ===== src/Tenancy/Features.antt =====
-- The features of a workspace: `feature` of apps/api/src/modules/tenants/tenants.service.ts and
-- apps/api/src/common/feature.guard.ts. The loops over the parents run on fuel, one more than there
-- are workspaces; `none` is a loop that does not end.
pub mod Lineage
pub mod Ends
pub mod Storing
pub mod Granting
pub mod Policy
use klyvero.Common.{
  ℕ, zero, suc, Bool, true, false, not, ◌&&◌, ◌||◌, ◌==◌, List, [], ◌∷◌, Option, none, some, length,
  any, find_first, select, update_many, if◌then◌else◌, is_some, Text, units, text_eq, Result, ok,
  err, ◌>>=◌, ◌>>◌, throw_if, or_throw, forbidden, bad_request, not_found,
}
use klyvero.Tenancy.{Tenant, TenantFeature, Subscription, PlanFeatures, Db, AuthUser}
use klyvero.Tenancy.Hierarchy.{parent_of, assert_tenant, after}
use klyvero.Tenancy.Service.{is_platform}

abbrev pub feature_keys : List Text
feature_keys =
    units "ai_agents"
    ∷ units "analytics"
    ∷ units "billing"
    ∷ units "calendar"
    ∷ units "campaigns"
    ∷ units "companies"
    ∷ units "contacts"
    ∷ units "crm"
    ∷ units "email"
    ∷ units "integrations"
    ∷ units "leads"
    ∷ units "prospecting"
    ∷ units "whatsapp"
    ∷ units "white_label"
    ∷ []

-- The loop of `feature`: the workspaces above, the nearest first.
unfoldable pub ancestors_from : ℕ → List Tenant → Option ℕ → Option (List ℕ)
ancestors_from zero ts parent = none
ancestors_from (suc fuel) ts none = some []
ancestors_from (suc fuel) ts (some parent) = elim (ancestors_from fuel ts (parent_of ts parent)) [
  | none ↦ none
  | some above ↦ some (parent ∷ above)
]

abbrev pub is_in : List ℕ → ℕ → Bool
is_in ids i = any (λ j. j == i) ids

-- A row that switches the feature off for one of the workspaces.
abbrev pub blocks : List ℕ → Text → TenantFeature → Bool
blocks ids key f = is_in ids f.tenant_id && text_eq f.key key && not f.enabled

-- `planFeatures && planFeatures[key] === false`
unfoldable pub entry : Text → List (Text × Bool) → Option Bool
unfolding text_eq
entry key [] = none
entry key ((k, b) ∷ rest) = if text_eq k key then some b else entry key rest

abbrev pub is_false : Option Bool → Bool
is_false none = false
is_false (some b) = not b

abbrev pub excludes : Text → PlanFeatures → Bool
excludes key none = false
excludes key (some features) = is_false (entry key features)

abbrev pub plan_features_of : Option Subscription → PlanFeatures
plan_features_of none = none
plan_features_of (some s) = s.plan_features

abbrev pub subscription_of : Db → ℕ → Option Subscription
subscription_of db tenant_id = find_first (λ s. s.tenant_id == tenant_id) db.subscriptions

abbrev pub is_row : ℕ → Text → TenantFeature → Bool
is_row tenant_id key f = f.tenant_id == tenant_id && text_eq f.key key

unfoldable pub upsert_feature : ℕ → Text → Bool → List TenantFeature → List TenantFeature
unfolding find_first text_eq update_many
upsert_feature tenant_id key enabled rows = elim (find_first (is_row tenant_id key) rows) [
  | none ↦ record { tenant_id = tenant_id; key = key; enabled = enabled } ∷ rows
  | some f ↦ update_many (is_row tenant_id key) (λ r. record r { enabled = enabled }) rows
]

abbrev pub grant : Db → ℕ → Text → List ℕ → Result (Unit {0})
grant db tenant_id key above =
    throw_if (is_some (find_first (blocks above key) db.features))
      (forbidden "Feature is disabled by an ancestor tenant")
    >> throw_if (excludes key (plan_features_of (subscription_of db tenant_id)))
        (forbidden "Feature is not included in the active plan")

abbrev pub grant_below : Db → ℕ → Text → Option (List ℕ) → Option (Result (Unit {0}))
grant_below db tenant_id key none = none
grant_below db tenant_id key (some above) = some (grant db tenant_id key above)

-- `if (dto.enabled) …`
abbrev pub check_grant : Db → ℕ → Text → Bool → Tenant → Option (Result (Unit {0}))
check_grant db tenant_id key false target = some (ok tt)
check_grant db tenant_id key true target =
    grant_below db tenant_id key
      (ancestors_from (suc (suc (length db.tenants))) db.tenants target.parent)

-- The checks before the climb; the answer is the row of the workspace.
abbrev pub check_target : Db → AuthUser → ℕ → Text → Result Tenant
check_target db user tenant_id key =
    throw_if (not (any (λ k. text_eq k key) feature_keys)) (bad_request "Unknown feature key")
    >> (or_throw (find_first (λ t. t.id == tenant_id) db.tenants) (not_found "Tenant not found")
        >>= λ target.
            throw_if (tenant_id == user.tenant_id && not (is_platform target.type))
              (forbidden "Self-service feature grants are not allowed")
            >> ok target)

-- `return upsert(…)` after the checks.
abbrev pub granted : Db → ℕ → Text → Bool → Result Tenant → Option (Result Db)
granted db tenant_id key enabled (err e) = some (err e)
granted db tenant_id key enabled (ok target) =
    after (check_grant db tenant_id key enabled target)
      (ok (record db { features = upsert_feature tenant_id key enabled db.features }))

-- `feature`, without the column `config`.
unfoldable pub feature : Db → AuthUser → ℕ → Text → Bool → Option (Result Db)
feature db user tenant_id key enabled = elim (assert_tenant db user tenant_id) [
  | none ↦ none
  | some (err e) ↦ some (err e)
  | some (ok u) ↦ granted db tenant_id key enabled (check_target db user tenant_id key)
]

-- The loop of the guard: the workspace and those above it, the highest first.
unfoldable pub lineage_from : ℕ → List Tenant → Option Tenant → List ℕ → Option (List ℕ)
unfolding find_first
lineage_from zero ts current ids = none
lineage_from (suc fuel) ts none ids = some ids
lineage_from (suc fuel) ts (some t) ids = elim t.parent [
  | none ↦ some (t.id ∷ ids)
  | some parent ↦ lineage_from fuel ts (find_first (λ p. p.id == parent) ts) (t.id ∷ ids)
]

abbrev pub is_entitled : Text → Bool
is_entitled status = text_eq status (units "active") || text_eq status (units "trialing")

abbrev pub lapsed : Text → Option Subscription → Bool
lapsed key none = false
lapsed key (some s) = not (is_entitled s.status) && not (text_eq key (units "billing"))

-- What follows the loop, for the workspaces that it collected.
unfoldable pub check_feature : Db → AuthUser → Text → List ℕ → Result (Unit {0})
check_feature db user key ids =
    throw_if
      (any (λ f. not f.enabled)
        (select (λ f. is_in ids f.tenant_id && text_eq f.key key) db.features))
      (forbidden "Feature is disabled by tenant policy")
    >> (throw_if (lapsed key (subscription_of db user.tenant_id))
          (forbidden "Feature requires an active subscription")
        >> throw_if (excludes key (plan_features_of (subscription_of db user.tenant_id)))
            (forbidden "Feature is not included in the active plan"))

abbrev pub checked : Db → AuthUser → Text → Option (List ℕ) → Option (Result (Unit {0}))
checked db user key none = none
checked db user key (some ids) = some (check_feature db user key ids)

-- `FeatureGuard.canActivate`, for the feature that the route names and the user of the request.
unfoldable pub feature_guard : Db → Option Text → Option AuthUser → Option (Result (Unit {0}))
feature_guard db none user = some (ok tt)
feature_guard db (some key) none = some (ok tt)
feature_guard db (some key) (some user) = checked db user key (
    lineage_from (suc (suc (length db.tenants))) db.tenants
      (find_first (λ t. t.id == user.tenant_id) db.tenants) [])
