-- ===== src/Auth/Model.antt =====
-- The rows that apps/api/src/modules/auth/auth.service.ts reads and writes: Tenant, User,
-- RefreshSession, PasswordResetToken and AuditLog of apps/api/prisma/schema.prisma, less the columns
-- that the service never touches, and what it takes from the cryptographic libraries.
use klyvero.Common.{ℕ, Bool, List, Option, some, Text, is_none}
use klyvero.Security.AuthDefense.{Map, Lock, Config}

pub data Role : Type 0 where
  owner admin manager sdr member viewer : Role

pub record Tenant : Type 0 where
  pub id : ℕ
  pub name : Text
  pub slug : Text
  pub active : Bool

pub record User : Type 0 where
  pub id : ℕ
  pub tenant_id : ℕ
  pub name : Text
  pub email : Text
  pub password_hash : Text
  pub role : Role
  pub active : Bool
  pub last_login_at : Option ℕ

pub data Revocation : Type 0 where
  previously_revoked session_cap replay expired_or_disabled rotated concurrent : Revocation
  password_reset owner_recovery logout_one logout_every : Revocation

pub record Session : Type 0 where
  pub id : ℕ
  pub user_id : ℕ
  pub family_id : ℕ
  pub token_hash : Text
  pub parent_token_hash : Option Text
  pub replaced_by_token_hash : Option Text
  pub expires_at : ℕ
  pub revoked_at : Option ℕ
  pub reason : Option Revocation
  pub created_at : ℕ

pub record ResetToken : Type 0 where
  pub id : ℕ
  pub user_id : ℕ
  pub token_hash : Text
  pub expires_at : ℕ
  pub used_at : Option ℕ
  pub created_at : ℕ

pub record Audit : Type 0 where
  pub tenant_id : ℕ
  pub entity_id : ℕ

pub record Db : Type 0 where
  pub tenants : List Tenant
  pub users : List User
  pub sessions : List Session
  pub reset_tokens : List ResetToken
  pub audits : List Audit
  -- The throttling kept in memory, and the locks asked of Redis.
  pub fallback : Map
  pub locks : List Lock

-- The libraries the service calls: password hashing, token hashing, signing and the keyed hashes of
-- the throttle. `verify` is false where the library throws.
pub record Crypto : Type 0 where
  pub hash_token : Text → Text
  pub hash_password : Text → Text
  pub verify : Text → Text → Bool
  pub dummy_hash : Text
  pub sign : User → Text
  pub account_print : Text → ℕ
  pub combo_print : ℕ → Text → ℕ
  pub lower : Text → Text

pub record Settings : Type 0 where
  pub refresh_days : ℕ
  pub reset_minutes : ℕ
  pub recovery_code : Option Text
  pub defense : Config

-- What Redis answers during one request; `none` and `false` where a call throws.
pub record Redis : Type 0 where
  pub locked : Option Bool
  pub counts : Option (ℕ × ℕ)
  pub deleted : Bool

-- The values drawn at random for one request.
pub record Fresh : Type 0 where
  pub session_id : ℕ
  pub family_id : ℕ
  pub token : Text

abbrev pub is_live : Session → Bool
is_live s = is_none s.revoked_at

abbrev pub revoke : ℕ → Revocation → Session → Session
revoke now why s = record s { revoked_at = some now; reason = some why }
