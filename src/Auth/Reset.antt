-- ===== src/Auth/Reset.antt =====
-- apps/api/src/modules/auth/auth.service.ts: `forgotPassword`, `resetPassword` and `ownerRecovery`.
pub mod Spent
use klyvero.Text.ConstantTime.{secret_eq}
use klyvero.Common.{
  ℕ, ◌+◌, ◌*◌, ◌-◌, Bool, true, false, not, ◌&&◌, ◌||◌, List, ◌∷◌, Option, none, some, Text, ltb,
  ◌==◌, if◌then◌else◌, is_none, is_some, Result, ok, err, Error, unauthorized, bad_request,
  find_first, any, count_where, update_many, delete_many, trim, text_eq,
}
use klyvero.Security.AuthDefense.{assert_allowed}
use klyvero.Auth.Model.{
  Tenant, User, Session, ResetToken, Db, Crypto, Settings, Redis, Fresh, Role, owner, admin,
  manager, sdr, member, viewer, Revocation, password_reset, owner_recovery, is_live, revoke,
}
use klyvero.Auth.Login.{find_account, keys_for, note_failure, note_success}
use klyvero.Auth.Refresh.{owner_of}

-- A mail the service hands to the mailer.
pub record ResetMail : Type 0 where
  pub to : Text
  pub raw : Text

-- Whether a token was asked for less than a minute ago.
abbrev pub is_recent : ℕ → ℕ → ResetToken → Bool
is_recent now user_id t = t.user_id == user_id && ltb now (t.created_at + 60000)

unfoldable pub forgot_password :
    Crypto → Settings → ℕ → Fresh → Text → Text → Db → Db × Option ResetMail
unfolding trim find_account delete_many
forgot_password c cfg now f tenant_slug email db =
    elim (find_account db (c.lower (trim tenant_slug)) (c.lower (trim email))) [
      | none ↦ (db, none)
      | some (t, u) ↦
          if not u.active
          then (db, none)
          else if any (is_recent now u.id) db.reset_tokens
          then (db, none)
          else (
            record db {
              reset_tokens =
                  record {
                    id = f.session_id;
                    user_id = u.id;
                    token_hash = c.hash_token f.token;
                    expires_at = now + cfg.reset_minutes * 60000;
                    used_at = none;
                    created_at = now;
                  }
                  ∷ delete_many (λ r. r.user_id == u.id && is_none r.used_at) db.reset_tokens;
            },
            some record { to = u.email; raw = f.token },
          )
    ]

abbrev pub invalid_token : Error
invalid_token = bad_request "Invalid or expired reset token"

abbrev pub set_password : ℕ → Text → List User → List User
set_password user_id hash =
    update_many (λ u. u.id == user_id) (λ u. record u { password_hash = hash })

unfoldable pub revoke_user : ℕ → Revocation → ℕ → List Session → List Session
unfolding update_many
revoke_user now why user_id = update_many (λ s. s.user_id == user_id && is_live s) (revoke now why)

-- The token that was presented, when it may be used.
unfoldable pub usable_token : Crypto → ℕ → Text → Db → Option ResetToken
unfolding find_first text_eq owner_of
usable_token c now raw db =
    elim (find_first (λ r. text_eq r.token_hash (c.hash_token raw)) db.reset_tokens) [
      | none ↦ none
      | some r ↦ elim (owner_of db r.user_id) [
        | none ↦ none
        | some (u, tenant_active) ↦
            if is_some r.used_at || ltb r.expires_at now || not u.active || not tenant_active
            then none
            else some r
      ]
    ]

abbrev pub is_usable : ResetToken → ℕ → ResetToken → Bool
is_usable r now t = t.id == r.id && is_none t.used_at && ltb now t.expires_at

-- The transaction, on the database as it is when it runs.
unfoldable pub use_token : Crypto → ℕ → Text → ResetToken → Db → Db × Result (Unit {0})
unfolding count_where update_many delete_many revoke_user
use_token c now password r db =
    if count_where (is_usable r now) db.reset_tokens == 1
    then (
      record db {
        reset_tokens =
            delete_many (λ t. t.user_id == r.user_id && not (t.id == r.id))
              (update_many (is_usable r now) (λ t. record t { used_at = some now })
                db.reset_tokens);
        users = set_password r.user_id (c.hash_password password) db.users;
        sessions = revoke_user now password_reset r.user_id db.sessions;
      },
      ok tt,
    )
    else (db, err invalid_token)

unfoldable pub reset_password : Crypto → ℕ → Text → Text → Db → Db × Result (Unit {0})
unfolding usable_token use_token
reset_password c now raw password db = elim (usable_token c now raw db) [
  | none ↦ (db, err invalid_token)
  | some r ↦ use_token c now password r db
]

abbrev is_owner : Role → Bool
is_owner owner = true
is_owner admin = false
is_owner manager = false
is_owner sdr = false
is_owner member = false
is_owner viewer = false

unfoldable pub recoverable : Db → Settings → Text → Text → Text → Option (Tenant × User)
unfolding find_account secret_eq
recoverable db cfg slug email code = elim (find_account db slug email) [
  | none ↦ none
  | some (t, u) ↦
      if secret_eq (some code) cfg.recovery_code && u.active && is_owner u.role
      then some (t, u)
      else none
]

unfoldable pub owner_recovery_for : Crypto → ℕ → Text → Tenant → User → Db → Db
unfolding update_many delete_many revoke_user
owner_recovery_for c now password t u db = record db {
  users = set_password u.id (c.hash_password password) db.users;
  sessions = revoke_user now owner_recovery u.id db.sessions;
  reset_tokens = delete_many (λ r. r.user_id == u.id) db.reset_tokens;
  audits = record { tenant_id = t.id; entity_id = u.id } ∷ db.audits;
}

unfoldable pub recover_owner :
    Crypto
    → Settings
    → Redis
    → ℕ
    → Text
    → Text
    → Text
    → Text
    → Option Text
    → Db
    → Db × Result (Unit {0})
unfolding trim keys_for recoverable note_failure note_success owner_recovery_for assert_allowed
recover_owner c cfg redis now tenant_slug email code password ip db =
    let slug = c.lower (trim tenant_slug) in
    let mail = c.lower (trim email) in
    let ks = keys_for c slug mail ip in
    elim (assert_allowed db.fallback redis.locked now ks) [
      | err e ↦ (db, err e)
      | ok _ ↦ elim (recoverable db cfg slug mail code) [
        | none ↦ (note_failure cfg redis now ks db, err (unauthorized "Invalid recovery request"))
        | some (t, u) ↦ (owner_recovery_for c now password t u (note_success redis ks db), ok tt)
      ]
    ]
