-- ===== src/Signup.antt =====
-- apps/api/src/modules/signup/signup.service.ts: invitations and the registration of a workspace.
-- Reading the invitation and the transaction that uses it are two steps, since other requests can
-- run between them.
pub mod Invites
pub mod Registration
pub mod Trace
pub mod SingleUse
pub mod Unique
mod Examples
use klyvero.Common.{ℕ, Bool, true, false, List, Option, Text, leb, if◌then◌else◌, is_some}

pub data TenantType : Type 0 where
  platform reseller customer : TenantType

pub record Tenant : Type 0 where
  pub id : ℕ
  pub name : Text
  pub slug : Text
  pub type : TenantType
  pub legal_document : Option Text
  pub parent : Option ℕ

pub record User : Type 0 where
  pub id : ℕ
  pub tenant_id : ℕ
  pub name : Text
  pub email : Text
  pub password_hash : Text

pub record Invite : Type 0 where
  pub id : ℕ
  pub tenant_id : ℕ
  pub created_by : ℕ
  pub label : Text
  pub email : Option Text
  pub token_hash : Text
  pub expires_at : ℕ
  pub used_at : Option ℕ
  pub revoked_at : Option ℕ
  pub used_by_tenant : Option ℕ

pub record Db : Type 0 where
  pub tenants : List Tenant
  pub users : List User
  pub invites : List Invite
  pub next_id : ℕ

-- Token hashes, password hashes and lower casing, by the libraries.
pub record Crypto : Type 0 where
  pub hash_token : Text → Text
  pub hash_password : Text → Text
  pub lower : Text → Text

pub record Caller : Type 0 where
  pub user_id : ℕ
  pub tenant_id : ℕ
  pub is_api_key : Bool

pub data InviteStatus : Type 0 where
  used revoked expired pending : InviteStatus

unfoldable pub status : ℕ → Invite → InviteStatus
status now i =
    if is_some i.used_at
    then used
    else if is_some i.revoked_at
    then revoked
    else if leb i.expires_at now
    then expired
    else pending

abbrev pub is_pending : InviteStatus → Bool
is_pending used = false
is_pending revoked = false
is_pending expired = false
is_pending pending = true
