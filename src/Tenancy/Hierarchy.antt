-- ===== src/Tenancy/Hierarchy.antt =====
-- apps/api/src/common/tenant.service.ts: which workspaces a user may act in. The loop that climbs the
-- parents runs on fuel, one more than there are workspaces; `none` is a loop that does not end.
pub mod Ancestors
pub mod Decision
pub mod Trace
use klyvero.Common.{
  ℕ, zero, suc, Bool, true, false, not, ◌&&◌, ◌==◌, List, Option, none, some, length, find_first,
  if◌then◌else◌, Result, ok, err, forbidden,
}
use klyvero.Tenancy.{Tenant, Db, AuthUser, is_owner, is_admin}

-- `(await findUnique({ where: { id } }))?.parentTenantId`
unfoldable pub parent_of : List Tenant → ℕ → Option ℕ
unfolding find_first
parent_of ts id = elim (find_first (λ t. t.id == id) ts) [ none ↦ none | some t ↦ t.parent ]

-- Whether the loop meets the workspace `me` above `id`.
unfoldable pub climb : ℕ → List Tenant → ℕ → ℕ → Option Bool
climb zero ts me id = none
climb (suc fuel) ts me id = elim (parent_of ts id) [
  | none ↦ some false
  | some parent ↦ let above = climb fuel ts me parent in if parent == me then some true else above
]

abbrev pub answer : Option Bool → Option (Result (Unit {0}))
answer none = none
answer (some true) = some (ok tt)
answer (some false) = some (err (forbidden "Tenant outside your hierarchy"))

unfoldable pub assert_tenant : Db → AuthUser → ℕ → Option (Result (Unit {0}))
unfolding climb
assert_tenant db user target =
    if user.tenant_id == target
    then some (ok tt)
    else if not (is_owner user.role) && not (is_admin user.role)
    then some (err (forbidden ""))
    else answer (climb (suc (length db.tenants)) db.tenants user.tenant_id target)

-- `await this.access.assertTenant(user, id);` before what follows.
abbrev pub after {ℓ} : {A : Type ℓ} → Option (Result (Unit {0})) → Result A → Option (Result A)
after none rest = none
after (some (err e)) rest = some (err e)
after (some (ok u)) rest = some rest
