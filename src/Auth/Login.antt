-- ===== src/Auth/Login.antt =====
-- apps/api/src/modules/auth/auth.service.ts: `login`, `logout` and `logoutAll`.
pub mod Cap
use klyvero.Common.{
  ℕ, ◌+◌, ◌*◌, Bool, not, ◌&&◌, ◌||◌, List, ◌∷◌, ◌++◌, Option, none, some, Text, ltb, ◌==◌,
  if◌then◌else◌, Result, ok, err, unauthorized, find_first, select, update_many, order_desc, drop,
  any, trim, text_eq,
}
use klyvero.Security.AuthDefense.{Keys, keys, assert_allowed, record_failure, record_success}
use klyvero.Auth.Model.{
  Tenant, User, Session, Db, Crypto, Settings, Redis, Fresh, previously_revoked, session_cap,
  logout_one, logout_every, is_live, revoke,
}

-- `tenant?.status === 'ACTIVE' ? user.findUnique(…) : null`, with the tenant that was found.
unfoldable pub find_account : Db → Text → Text → Option (Tenant × User)
unfolding find_first text_eq
find_account db slug email = elim (find_first (λ t. text_eq t.slug slug) db.tenants) [
  | none ↦ none
  | some t ↦
      if t.active
      then elim (find_first (λ u. u.tenant_id == t.id && text_eq u.email email) db.users) [
        | none ↦ none
        | some u ↦ some (t, u)
      ]
      else none
]

unfoldable pub keys_for : Crypto → Text → Text → Option Text → Keys
unfolding keys
keys_for c slug email ip = keys c.account_print c.combo_print c.lower slug email ip

-- `defense.recordFailure` and `defense.recordSuccess` on the state.
unfoldable pub note_failure : Settings → Redis → ℕ → Keys → Db → Db
unfolding record_failure
note_failure cfg redis now ks db =
    let (m, locks) = record_failure db.fallback cfg.defense redis.counts now ks in
    record db { fallback = m; locks = locks ++ db.locks }

unfoldable pub note_success : Redis → Keys → Db → Db
unfolding record_success
note_success redis ks db = record db { fallback = record_success db.fallback redis.deleted ks }

-- `{ expiresAt: { lt: now } }` or already revoked.
abbrev pub is_over : ℕ → Session → Bool
is_over now s = ltb s.expires_at now || not (is_live s)

abbrev pub is_active : ℕ → ℕ → Session → Bool
is_active user_id now s = s.user_id == user_id && is_live s && ltb now s.expires_at

abbrev pub has_id : List Session → Session → Bool
has_id rows s = any (λ r. r.id == s.id) rows

-- The sessions past the nineteen newest active ones.
unfoldable pub surplus : ℕ → ℕ → List Session → List Session
unfolding select order_desc
surplus user_id now ss =
    drop 19 (order_desc (λ s. s.created_at) (select (is_active user_id now) ss))

-- The two updates of the login transaction that make room for a new session.
unfoldable pub make_room : ℕ → ℕ → List Session → List Session
unfolding update_many surplus
make_room user_id now ss =
    let marked =
      update_many (λ s. s.user_id == user_id && is_over now s)
        (λ s. record s { reason = some previously_revoked }) ss in
    update_many (has_id (surplus user_id now marked)) (revoke now session_cap) marked

abbrev pub day : ℕ
day = 86400000

unfoldable pub new_session : Crypto → Settings → ℕ → ℕ → ℕ → ℕ → Text → Option Text → Session
new_session c cfg now id user_id family_id token parent = record {
  id = id;
  user_id = user_id;
  family_id = family_id;
  token_hash = c.hash_token token;
  parent_token_hash = parent;
  replaced_by_token_hash = none;
  expires_at = now + cfg.refresh_days * day;
  revoked_at = none;
  reason = none;
  created_at = now;
}

unfoldable pub open_session : Crypto → Settings → ℕ → Fresh → User → Db → Db
unfolding make_room new_session update_many
open_session c cfg now f u db = record db {
  sessions =
      new_session c cfg now f.session_id u.id f.family_id f.token none
      ∷ make_room u.id now db.sessions;
  users = update_many (λ v. v.id == u.id) (λ v. record v { last_login_at = some now }) db.users;
}

pub record Tokens : Type 0 where
  pub access_token : Text
  pub refresh_token : Text
  pub user : User

-- `user?.passwordHash ?? dummyHash`
abbrev password_hash_of : Crypto → Option (Tenant × User) → Text
password_hash_of c none = c.dummy_hash
password_hash_of c (some (t, u)) = u.password_hash

-- The account whose password was given, if it may log in.
unfoldable pub authenticate : Crypto → Db → Text → Text → Text → Option User
unfolding find_account
authenticate c db slug email password =
    let account = find_account db slug email in
    let password_valid = c.verify (password_hash_of c account) password in
    elim account [ none ↦ none | some (t, u) ↦ if u.active && password_valid then some u else none ]

-- What follows the check of the credentials.
unfoldable pub attempt :
    Crypto → Settings → Redis → ℕ → Fresh → Keys → Option User → Db → Db × Result Tokens
unfolding note_failure note_success open_session
attempt c cfg redis now f ks none db =
    (note_failure cfg redis now ks db, err (unauthorized "Invalid credentials"))
attempt c cfg redis now f ks (some u) db = (
  open_session c cfg now f u (note_success redis ks db),
  ok record { access_token = c.sign u; refresh_token = f.token; user = u },
)

unfoldable pub login :
    Crypto
    → Settings
    → Redis
    → ℕ
    → Fresh
    → Text
    → Text
    → Text
    → Option Text
    → Db
    → Db × Result Tokens
unfolding trim keys_for authenticate attempt assert_allowed
login c cfg redis now f tenant_slug email password ip db =
    let slug = c.lower (trim tenant_slug) in
    let mail = c.lower (trim email) in
    let ks = keys_for c slug mail ip in
    elim (assert_allowed db.fallback redis.locked now ks) [
      | err e ↦ (db, err e)
      | ok _ ↦ attempt c cfg redis now f ks (authenticate c db slug mail password) db
    ]

unfoldable pub logout : Crypto → ℕ → Option Text → Db → Db
unfolding update_many text_eq
logout c now none db = db
logout c now (some raw) db = record db {
  sessions =
      update_many (λ s. text_eq s.token_hash (c.hash_token raw) && is_live s)
        (revoke now logout_one) db.sessions;
}

unfoldable pub logout_all : ℕ → ℕ → Db → Db
unfolding update_many
logout_all now user_id db = record db {
  sessions =
      update_many (λ s. s.user_id == user_id && is_live s) (revoke now logout_every) db.sessions;
}
