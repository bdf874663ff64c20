-- ===== src/Auth/Refresh.antt =====
-- apps/api/src/modules/auth/auth.service.ts: `refresh`. Reading the session and the transaction that
-- rotates it are two steps, since another request can run between them.
pub mod Families
use klyvero.Common.{
  ℕ, Bool, not, ◌&&◌, ◌||◌, List, ◌∷◌, Option, none, some, Text, ltb, ◌==◌, if◌then◌else◌, Result,
  ok, err, Error, unauthorized, find_first, count_where, update_many, text_eq,
}
use klyvero.Auth.Model.{
  User, Session, Db, Crypto, Settings, Fresh, Revocation, replay, expired_or_disabled, rotated,
  concurrent, is_live, revoke,
}
use klyvero.Auth.Login.{Tokens, new_session}

unfoldable pub revoke_family : ℕ → Revocation → ℕ → List Session → List Session
unfolding update_many
revoke_family now why family_id =
    update_many (λ s. s.family_id == family_id && is_live s) (revoke now why)

-- `include: { user: { include: { tenant } } }`: the user and whether the tenant is active.
unfoldable pub owner_of : Db → ℕ → Option (User × Bool)
unfolding find_first
owner_of db user_id = elim (find_first (λ u. u.id == user_id) db.users) [
  | none ↦ none
  | some u ↦ elim (find_first (λ t. t.id == u.tenant_id) db.tenants) [
    | none ↦ none
    | some t ↦ some (u, t.active)
  ]
]

-- `{ id: session.id, revokedAt: null }`
abbrev pub is_claimable : Session → Session → Bool
is_claimable s r = r.id == s.id && is_live r

-- What the first part of `refresh` leaves: a refusal, or a session to rotate.
pub data Checked : Type 0 where
  refused : Db → Error → Checked
  rotatable : Session → User → Checked

-- What becomes of the session that the token names.
unfoldable pub check_found : ℕ → Session → Db → Checked
unfolding revoke_family owner_of update_many
check_found now s db =
    if not (is_live s)
    then refused (record db { sessions = revoke_family now replay s.family_id db.sessions })
        (unauthorized "Refresh session is no longer valid")
    else elim (owner_of db s.user_id) [
      | none ↦ refused db (unauthorized "Unauthorized")
      | some (u, tenant_active) ↦
          if ltb s.expires_at now || not u.active || not tenant_active
          then refused
              (record db {
                sessions =
                    update_many (is_claimable s) (revoke now expired_or_disabled) db.sessions;
              })
              (unauthorized "Unauthorized")
          else rotatable s u
    ]

unfoldable pub check_session : Crypto → ℕ → Option Text → Db → Checked
unfolding find_first text_eq check_found
check_session c now none db = refused db (unauthorized "Unauthorized")
check_session c now (some raw) db =
    elim (find_first (λ s. text_eq s.token_hash (c.hash_token raw)) db.sessions) [
      | none ↦ refused db (unauthorized "Unauthorized")
      | some s ↦ check_found now s db
    ]

abbrev pub replaced : ℕ → Text → Session → Session
replaced now next_hash r = record r {
  revoked_at = some now;
  replaced_by_token_hash = some next_hash;
  reason = some rotated;
}

-- The transaction, and what the `catch` does when the claim did not take exactly one row.
unfoldable pub rotate : Crypto → Settings → ℕ → Fresh → Session → User → Db → Db × Result Tokens
unfolding count_where update_many revoke_family new_session
rotate c cfg now f s u db =
    if count_where (is_claimable s) db.sessions == 1
    then (
      record db {
        sessions =
            new_session c cfg now f.session_id u.id s.family_id f.token (some s.token_hash)
            ∷ update_many (is_claimable s) (replaced now (c.hash_token f.token)) db.sessions;
      },
      ok record { access_token = c.sign u; refresh_token = f.token; user = u },
    )
    else (
      record db { sessions = revoke_family now concurrent s.family_id db.sessions },
      err (unauthorized "Refresh session replay detected"),
    )

-- One request with no other in between.
unfoldable pub refresh : Crypto → Settings → ℕ → Fresh → Option Text → Db → Db × Result Tokens
unfolding check_session rotate
refresh c cfg now f raw db = elim (check_session c now raw db) [
  | refused db' e ↦ (db', err e)
  | rotatable s u ↦ rotate c cfg now f s u db
]
