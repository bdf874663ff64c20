-- ===== src/Tenancy.antt =====
-- apps/api/prisma/schema.prisma and apps/api/src/common/auth.types.ts: workspaces, users, features,
-- domains, API keys and subscriptions, with the columns that the guards and the service of
-- workspaces read.
pub mod Hierarchy
pub mod Service
pub mod Features
pub mod Domains
pub mod Guards
pub mod Listing
mod Examples
use klyvero.Common.{ℕ, Bool, true, false, List, Option, Text}

pub data TenantType : Type 0 where
  platform reseller customer : TenantType

pub data TenantStatus : Type 0 where
  active suspended archived : TenantStatus

pub data UserRole : Type 0 where
  owner admin manager sdr member viewer : UserRole

pub data DomainStatus : Type 0 where
  pending verified failed : DomainStatus

pub record Tenant : Type 0 where
  pub id : ℕ
  pub parent : Option ℕ
  pub type : TenantType
  pub status : TenantStatus
  pub name : Text
  pub slug : Text
  pub created_at : ℕ

pub record User : Type 0 where
  pub id : ℕ
  pub tenant_id : ℕ
  pub name : Text
  pub email : Text
  pub password_hash : Text
  pub role : UserRole
  pub active : Bool

pub record TenantFeature : Type 0 where
  pub tenant_id : ℕ
  pub key : Text
  pub enabled : Bool

pub record TenantDomain : Type 0 where
  pub id : ℕ
  pub tenant_id : ℕ
  pub hostname : Text
  pub status : DomainStatus
  pub verification_token : Text
  pub verified_at : Option ℕ
  pub is_primary : Bool

pub record ApiKey : Type 0 where
  pub id : ℕ
  pub tenant_id : ℕ
  pub name : Text
  pub prefix : Text
  pub key_hash : Text
  pub scopes : List Text
  pub active : Bool
  pub expires_at : Option ℕ

-- The entries of `plan.features` that are Booleans, where there is a plan with features.
abbrev pub PlanFeatures : Type 0
PlanFeatures = Option (List (Text × Bool))

pub record Subscription : Type 0 where
  pub tenant_id : ℕ
  pub status : Text
  pub plan_features : PlanFeatures

pub record Db : Type 0 where
  pub tenants : List Tenant
  pub users : List User
  pub features : List TenantFeature
  pub domains : List TenantDomain
  pub api_keys : List ApiKey
  pub subscriptions : List Subscription
  pub next_id : ℕ

pub data AuthType : Type 0 where
  jwt api_key : AuthType

-- `AuthUser`, without the subject and the address, which no guard reads.
pub record AuthUser : Type 0 where
  pub tenant_id : ℕ
  pub role : UserRole
  pub auth_type : AuthType
  pub scopes : List Text

abbrev pub is_owner : UserRole → Bool
is_owner owner = true
is_owner _ = false

abbrev pub is_admin : UserRole → Bool
is_admin admin = true
is_admin _ = false

abbrev pub is_active : TenantStatus → Bool
is_active active = true
is_active suspended = false
is_active archived = false
