-- ===== src/Tenancy/Service.antt =====
-- apps/api/src/modules/tenants/tenants.service.ts: workspaces, their users and their features.
-- `lower` is `toLowerCase`, `hash` the password hash; both are arguments.
use klyvero.Common.{
  ℕ, ◌+◌, Bool, true, false, not, ◌&&◌, ◌||◌, ◌==◌, ◌∷◌, Option, none, some, find_first,
  update_many, Text, trim, Result, ok, ◌>>=◌, ◌>>◌, throw_if, or_throw, forbidden, bad_request,
}
use klyvero.Tenancy.{
  TenantType, platform, reseller, customer, TenantStatus, UserRole, Tenant, Db, AuthUser, is_owner,
}
use klyvero.Tenancy.Hierarchy.{assert_tenant, after}

pub record CreateTenant : Type 0 where
  pub name : Text
  pub slug : Text
  pub type : TenantType
  pub parent : Option ℕ

abbrev pub is_platform : TenantType → Bool
is_platform platform = true
is_platform _ = false

abbrev pub is_customer : TenantType → Bool
is_customer customer = true
is_customer _ = false

abbrev pub is_reseller : TenantType → Bool
is_reseller reseller = true
is_reseller _ = false

-- `dto.parentTenantId ?? user.tenantId`
abbrev pub parent_for : AuthUser → CreateTenant → ℕ
parent_for user dto = elim dto.parent [ none ↦ user.tenant_id | some p ↦ p ]

-- The type of a new workspace, below one of the type of its parent.
unfoldable pub invalid_hierarchy : TenantType → TenantType → Bool
invalid_hierarchy type parent =
    is_platform type || is_customer parent || (is_reseller parent && not (is_customer type))

abbrev pub new_tenant : (Text → Text) → ℕ → ℕ → CreateTenant → ℕ → Tenant
new_tenant lower now id dto parent = record {
  id = id;
  parent = some parent;
  type = dto.type;
  status = TenantStatus.active;
  name = trim dto.name;
  slug = lower (trim dto.slug);
  created_at = now;
}

unfoldable pub create : (Text → Text) → ℕ → Db → AuthUser → CreateTenant → Option (Result Db)
unfolding trim
create lower now db user dto =
    let parent_id = parent_for user dto in
    after (assert_tenant db user parent_id) (
      or_throw (find_first (λ t. t.id == parent_id) db.tenants)
        (bad_request "Parent tenant not found")
      >>= λ parent.
          throw_if (invalid_hierarchy dto.type parent.type) (bad_request "Invalid tenant hierarchy")
          >> ok (record db {
            tenants = new_tenant lower now db.next_id dto parent_id ∷ db.tenants;
            next_id = db.next_id + 1;
          }))

pub record UpdateTenant : Type 0 where
  pub name : Option Text
  pub status : Option TenantStatus

abbrev pub or_kept {ℓ} : {A : Type ℓ} → Option A → A → A
or_kept none old = old
or_kept (some new) old = new

abbrev pub updated : UpdateTenant → Tenant → Tenant
updated dto t = record t { name = or_kept dto.name t.name; status = or_kept dto.status t.status }

unfoldable pub update : Db → AuthUser → ℕ → UpdateTenant → Option (Result Db)
update db user id dto =
    after (assert_tenant db user id)
      (ok (record db { tenants = update_many (λ t. t.id == id) (updated dto) db.tenants }))

pub record CreateUser : Type 0 where
  pub name : Text
  pub email : Text
  pub password : Text
  pub role : UserRole

unfoldable pub create_user :
    (Text → Text) → (Text → Text) → Db → AuthUser → ℕ → CreateUser → Option (Result Db)
unfolding trim
create_user lower hash db user tenant_id dto = after (assert_tenant db user tenant_id) (
    throw_if (is_owner dto.role && not (is_owner user.role))
      (forbidden "Only an OWNER can create another OWNER")
    >> (throw_if (tenant_id == user.tenant_id && is_owner dto.role && not (is_owner user.role))
          (forbidden "Role escalation denied")
        >> ok (record db {
          users =
              record {
                id = db.next_id;
                tenant_id = tenant_id;
                name = trim dto.name;
                email = lower (trim dto.email);
                password_hash = hash dto.password;
                role = dto.role;
                active = true;
              }
              ∷ db.users;
          next_id = db.next_id + 1;
        })))
