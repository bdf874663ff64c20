-- ===== src/Auth/Trace/Keeps.antt =====
-- The operations that open no session only take sessions away.
use klyvero.Common.{
  ℕ, ◌≡◌, refl, sym, subst, ◌∙◌, inl, inr, arith, ◌&&◌, List, ◌∷◌, Option, Option-cases, none, some,
  Text, ◌==◌, Result-cases, Error, find_first, find_first-mem, Memᴰ, ◌⊎◌, ◌≢◌, unauthorized,
  update_many, trim, text_eq,
}
use klyvero.Security.AuthDefense.{Keys, assert_allowed}
use klyvero.Auth.Model.{
  Tenant, User, Session, ResetToken, Db, Crypto, Settings, Redis, Fresh, Revocation, is_live,
  revoke, previously_revoked, session_cap, logout_one, logout_every, password_reset, owner_recovery,
  expired_or_disabled, replay,
}
use klyvero.Auth.Login.{
  keys_for, is_over, has_id, surplus, make_room, logout, logout_all, note_failure, note_success,
  login, authenticate, attempt, open_session, new_session,
}
use klyvero.Auth.Refresh.{
  refused, rotatable, check_session, check_found, revoke_family, is_claimable,
}
use klyvero.Auth.Reset.{
  forgot_password, revoke_user, usable_token, use_token, reset_password, recoverable, recover_owner,
  owner_recovery_for,
}
use klyvero.Auth.Refresh.Families.{
  AreWeaker, AreWeaker-refl, AreWeaker-trans, update_many-AreWeaker, revoke-IsWeaker,
}

pub make_room-AreWeaker :
    (user_id now : ℕ) (ss : List Session) → AreWeaker ss (make_room user_id now ss)
unfolding make_room
make_room-AreWeaker user_id now ss =
    let marked =
      update_many (λ s. s.user_id == user_id && is_over now s)
        (λ s. record s { reason = some previously_revoked }) ss in
    AreWeaker-trans ss marked (make_room user_id now ss)
      (update_many-AreWeaker (λ s. s.user_id == user_id && is_over now s)
        (λ s. record s { reason = some previously_revoked }) ss (λ s. (refl, refl, λ h. h)))
      (update_many-AreWeaker (has_id (surplus user_id now marked)) (revoke now session_cap) marked
        (revoke-IsWeaker now session_cap))

pub revoke_family-AreWeaker :
    (now : ℕ) (why : Revocation) (family : ℕ) (ss : List Session)
    → AreWeaker ss (revoke_family now why family ss)
unfolding revoke_family
revoke_family-AreWeaker now why family ss =
    update_many-AreWeaker (λ s. s.family_id == family && is_live s) (revoke now why) ss
      (revoke-IsWeaker now why)

pub revoke_user-AreWeaker :
    (now : ℕ) (why : Revocation) (user : ℕ) (ss : List Session)
    → AreWeaker ss (revoke_user now why user ss)
unfolding revoke_user
revoke_user-AreWeaker now why user ss =
    update_many-AreWeaker (λ s. s.user_id == user && is_live s) (revoke now why) ss
      (revoke-IsWeaker now why)

pub logout-AreWeaker :
    (c : Crypto) (now : ℕ) (raw : Option Text) (db : Db)
    → AreWeaker db.sessions (logout c now raw db).sessions
unfolding logout
logout-AreWeaker c now none db = AreWeaker-refl db.sessions
logout-AreWeaker c now (some raw) db =
    update_many-AreWeaker (λ s. text_eq s.token_hash (c.hash_token raw) && is_live s)
      (revoke now logout_one) db.sessions (revoke-IsWeaker now logout_one)

pub logout_all-AreWeaker :
    (now user : ℕ) (db : Db) → AreWeaker db.sessions (logout_all now user db).sessions
unfolding logout_all
logout_all-AreWeaker now user db =
    update_many-AreWeaker (λ s. s.user_id == user && is_live s) (revoke now logout_every)
      db.sessions (revoke-IsWeaker now logout_every)

pub forgot_password-sessions :
    (c : Crypto) (cfg : Settings) (now : ℕ) (f : Fresh) (slug email : Text) (db : Db)
    → (forgot_password c cfg now f slug email db).0.sessions ≡ db.sessions
unfolding forgot_password
forgot_password-sessions c cfg now f slug email db = ground arith

use_token-AreWeaker :
    (c : Crypto) (now : ℕ) (password : Text) (r : ResetToken) (db : Db)
    → AreWeaker db.sessions (use_token c now password r db).0.sessions
unfolding use_token
use_token-AreWeaker c now password r db = ground (
  arith,
  AreWeaker-refl db.sessions,
  revoke_user-AreWeaker now password_reset r.user_id db.sessions,
)

pub reset_password-AreWeaker :
    (c : Crypto) (now : ℕ) (raw password : Text) (db : Db)
    → AreWeaker db.sessions (reset_password c now raw password db).0.sessions
unfolding reset_password
reset_password-AreWeaker c now raw password db = elim (Option-cases (usable_token c now raw db)) [
  | inl e ↦ rw (reset_password, e) (AreWeaker-refl db.sessions)
  | inr (r, e) ↦ rw (reset_password, e) (use_token-AreWeaker c now password r db)
]

recovery-AreWeaker :
    (c : Crypto) (now : ℕ) (password : Text) (t : Tenant) (u : User) (redis : Redis) (ks : Keys)
    (db : Db)
    → AreWeaker db.sessions
        (owner_recovery_for c now password t u (note_success redis ks db)).sessions
unfolding owner_recovery_for note_success
recovery-AreWeaker c now password t u redis ks db =
    revoke_user-AreWeaker now owner_recovery u.id db.sessions

pub recover_owner-AreWeaker :
    (c : Crypto) (cfg : Settings) (redis : Redis) (now : ℕ) (slug email code password : Text)
    (ip : Option Text) (db : Db)
    → AreWeaker db.sessions
        (recover_owner c cfg redis now slug email code password ip db).0.sessions
unfolding recover_owner note_failure
recover_owner-AreWeaker c cfg redis now slug email code password ip db =
    let ks = keys_for c (c.lower (trim slug)) (c.lower (trim email)) ip in
    elim (Result-cases (assert_allowed db.fallback redis.locked now ks)) [
      | inr (x, e) ↦ rw (recover_owner, e) (AreWeaker-refl db.sessions)
      | inl (u, e) ↦
          elim (Option-cases
            (recoverable db cfg (c.lower (trim slug)) (c.lower (trim email)) code)) [
              | inl g ↦ rw (recover_owner, e, g) (AreWeaker-refl db.sessions)
              | inr ((t, v), g) ↦
                  rw (recover_owner, e, g) (recovery-AreWeaker c now password t v redis ks db)
            ]
    ]

check_found-AreWeaker :
    (now : ℕ) (s : Session) (db db' : Db) (e : Error)
    → check_found now s db ≡ refused db' e
    → AreWeaker db.sessions db'.sessions
unfolding check_found
check_found-AreWeaker now s db db' e h = ground (
  arith,
  AreWeaker-refl db.sessions,
  revoke_family-AreWeaker now replay s.family_id db.sessions,
  update_many-AreWeaker (is_claimable s) (revoke now expired_or_disabled) db.sessions
      (revoke-IsWeaker now expired_or_disabled),
)

-- The check either refuses and changes nothing, or judges a session of the table.
pub check_session-cases :
    (c : Crypto) (now : ℕ) (raw : Option Text) (db : Db)
    → (check_session c now raw db ≡ refused db (unauthorized "Unauthorized"))
      ⊎ ((s : Session) × Memᴰ s db.sessions × (check_session c now raw db ≡ check_found now s db))
unfolding check_session
check_session-cases c now none db = inl refl
check_session-cases c now (some raw) db =
    elim (Option-cases (find_first (λ s. text_eq s.token_hash (c.hash_token raw)) db.sessions)) [
      | inl e ↦ inl (rw (check_session, e) refl)
      | inr (s, e) ↦ inr (s, find_first-mem _ db.sessions e, rw (check_session, e) refl)
    ]

check_found-rotatable :
    (now : ℕ) (s t : Session) (u : User) (db : Db) → check_found now s db ≡ rotatable t u → s ≡ t
unfolding check_found
check_found-rotatable now s t u db h = ground arith

refused_ne_rotatable : {db : Db} {e : Error} {t : Session} {u : User} → refused db e ≢ rotatable t u
refused_ne_rotatable h = cc

-- The session to rotate is a row of the table.
pub check_session-mem :
    (c : Crypto) (now : ℕ) (raw : Option Text) (db : Db) (t : Session) (u : User)
    → check_session c now raw db ≡ rotatable t u
    → Memᴰ t db.sessions
check_session-mem c now raw db t u h = elim (check_session-cases c now raw db) [
  | inl g ↦ absurd (refused_ne_rotatable (sym g ∙ h))
  | inr (s, m, g) ↦
      subst (λ r. Memᴰ r db.sessions) (check_found-rotatable now s t u db (sym g ∙ h)) m
]

refused-db : {db db' : Db} {e e' : Error} → refused db e ≡ refused db' e' → db ≡ db'
refused-db h = cc

pub check_session-AreWeaker :
    (c : Crypto) (now : ℕ) (raw : Option Text) (db db' : Db) (e : Error)
    → check_session c now raw db ≡ refused db' e
    → AreWeaker db.sessions db'.sessions
check_session-AreWeaker c now raw db db' e h = elim (check_session-cases c now raw db) [
  | inl g ↦
      subst (λ d. AreWeaker db.sessions d.sessions) (refused-db (sym g ∙ h))
        (AreWeaker-refl db.sessions)
  | inr (s, m, g) ↦ check_found-AreWeaker now s db db' e (sym g ∙ h)
]

-- A login that opens no session leaves the table as it was.
pub data LoginShape (f : Fresh) (ss : List Session) : List Session → Type 0 where
  unchanged : LoginShape f ss ss
  opened :
      (user : ℕ) (now : ℕ) (s : Session)
      → s.id ≡ f.session_id
      → s.family_id ≡ f.family_id
      → LoginShape f ss (s ∷ make_room user now ss)

attempt-shape :
    (c : Crypto) (cfg : Settings) (redis : Redis) (now : ℕ) (f : Fresh) (ks : Keys)
    (o : Option User) (db : Db)
    → LoginShape f db.sessions (attempt c cfg redis now f ks o db).0.sessions
unfolding attempt note_failure note_success open_session new_session
attempt-shape c cfg redis now f ks none db = unchanged
attempt-shape c cfg redis now f ks (some u) db =
    opened u.id now (new_session c cfg now f.session_id u.id f.family_id f.token none) refl refl

pub login-shape :
    (c : Crypto) (cfg : Settings) (redis : Redis) (now : ℕ) (f : Fresh) (slug email password : Text)
    (ip : Option Text) (db : Db)
    → LoginShape f db.sessions (login c cfg redis now f slug email password ip db).0.sessions
unfolding login
login-shape c cfg redis now f slug email password ip db =
    let ks = keys_for c (c.lower (trim slug)) (c.lower (trim email)) ip in
    let o = authenticate c db (c.lower (trim slug)) (c.lower (trim email)) password in
    elim (Result-cases (assert_allowed db.fallback redis.locked now ks)) [
      | inr (x, e) ↦ rw (login, e) unchanged
      | inl (u, e) ↦ rw (login, e) (attempt-shape c cfg redis now f ks o db)
    ]
