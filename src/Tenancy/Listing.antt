-- ===== src/Tenancy/Listing.antt =====
-- `list` of apps/api/src/modules/tenants/tenants.service.ts: the workspace of a user and all below it,
-- level by level. The loop runs on fuel, two more than there are workspaces; `none` is a loop that
-- does not end.
pub mod Visit
pub mod Ends
pub mod Within
pub mod Complete
use klyvero.Common.{
  ℕ, zero, suc, ◌+◌, Bool, false, not, ◌||◌, ◌==◌, List, [], ◌∷◌, ◌++◌, Option, none, some, length,
  any, select, order_by, if◌then◌else◌,
}
use klyvero.Tenancy.{Tenant, Db, AuthUser}
use klyvero.Tenancy.Features.{is_in}

-- `seen`, which holds the identifiers of the output.
abbrev pub is_seen : ℕ → List Tenant → Bool
is_seen i out = any (λ t. t.id == i) out

-- `if (seen.has(row.id)) continue; seen.add(row.id); output.push(row);`
abbrev pub output_with : Tenant → List Tenant → List Tenant
output_with row out = if is_seen row.id out then out else out ++ row ∷ []

-- `if (row.id !== user.tenantId) frontier.push(row.id);` where the row was not seen
abbrev pub frontier_with : ℕ → Tenant → List Tenant → List ℕ → List ℕ
frontier_with me row out frontier =
    if is_seen row.id out || row.id == me then frontier else frontier ++ row.id ∷ []

-- The loop over the rows of a level.
unfoldable pub visit : ℕ → List Tenant → List Tenant → List ℕ → List Tenant × List ℕ
visit me [] out frontier = (out, frontier)
visit me (row ∷ rows) out frontier =
    visit me rows (output_with row out) (frontier_with me row out frontier)

abbrev pub is_child : List ℕ → Option ℕ → Bool
is_child ids none = false
is_child ids (some parent) = is_in ids parent

abbrev pub is_level : List ℕ → Tenant → Bool
is_level ids t = is_in ids t.id || is_child ids t.parent

unfoldable pub level : List Tenant → List ℕ → List Tenant
unfolding select order_by
level ts ids = order_by (λ t. t.created_at) (select (is_level ids) ts)

unfoldable pub list_from : ℕ → List Tenant → ℕ → List ℕ → List Tenant → Option (List Tenant)
list_from zero ts me ids out = none
list_from (suc fuel) ts me [] out = some out
list_from (suc fuel) ts me (id ∷ ids) out =
    let found = visit me (level ts (id ∷ ids)) out [] in list_from fuel ts me found.1 found.0

unfoldable pub list : Db → AuthUser → Option (List Tenant)
list db user =
    list_from (suc (suc (length db.tenants))) db.tenants user.tenant_id (user.tenant_id ∷ []) []
