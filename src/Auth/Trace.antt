-- ===== src/Auth/Trace.antt =====
-- Every way in which the session table of apps/api/src/modules/auth/auth.service.ts changes, as a
-- step relation. A refresh is two steps, so others run between its check and its transaction.
pub mod Keeps
pub mod Single
pub mod Shut
pub mod Replay
use klyvero.Common.{ℕ, ◌≡◌, ◌≢◌, List, ◌∷◌, Option, Text, Memᴰ, All}
use klyvero.Auth.Model.{Session, User, Db, Crypto, Settings, Redis, Fresh}
use klyvero.Auth.Login.{login, logout, logout_all}
use klyvero.Auth.Refresh.{refused, rotatable, check_session, rotate}
use klyvero.Auth.Reset.{forgot_password, reset_password, recover_owner}

-- The database, and the sessions that requests have read and not yet rotated.
pub record System : Type 0 where
  pub db : Db
  pub pending : List (Session × User)

-- An identifier drawn at random is not in use, nor is a family.
pub record IsUnused (f : Fresh) (x : System) : Type 0 where
  pub id_unused : All (λ s. s.id ≢ f.session_id) x.db.sessions
  pub id_unread : All (λ p. (p.0).id ≢ f.session_id) x.pending
  pub family_unused : All (λ s. s.family_id ≢ f.family_id) x.db.sessions

abbrev pub with_db : System → Db → System
with_db x db = record x { db = db }

module _ (c : Crypto) (cfg : Settings) where
  pub data Event : System → System → Type 0 where
    logs_in :
        (x : System) (redis : Redis) (now : ℕ) (f : Fresh) (slug email password : Text)
        (ip : Option Text)
        → IsUnused f x
        → Event x (with_db x (login c cfg redis now f slug email password ip x.db).0)
    refuses :
        (x : System) (now : ℕ) (raw : Option Text) (db : Db) (e : klyvero.Common.Error)
        → check_session c now raw x.db ≡ refused db e
        → Event x (with_db x db)
    reads :
        (x : System) (now : ℕ) (raw : Option Text) (s : Session) (u : User)
        → check_session c now raw x.db ≡ rotatable s u
        → Event x (record x { pending = (s, u) ∷ x.pending })
    rotates :
        (x : System) (now : ℕ) (f : Fresh) (s : Session) (u : User)
        → IsUnused f x
        → Memᴰ (s, u) x.pending
        → Event x (with_db x (rotate c cfg now f s u x.db).0)
    logs_out :
        (x : System) (now : ℕ) (raw : Option Text) → Event x (with_db x (logout c now raw x.db))
    logs_out_all : (x : System) (now user : ℕ) → Event x (with_db x (logout_all now user x.db))
    forgets :
        (x : System) (now : ℕ) (f : Fresh) (slug email : Text)
        → Event x (with_db x (forgot_password c cfg now f slug email x.db).0)
    resets :
        (x : System) (now : ℕ) (raw password : Text)
        → Event x (with_db x (reset_password c now raw password x.db).0)
    recovers :
        (x : System) (redis : Redis) (now : ℕ) (slug email code password : Text) (ip : Option Text)
        → Event x (with_db x (recover_owner c cfg redis now slug email code password ip x.db).0)

  pub data Reach (x : System) : System → Type 0 where
    here : Reach x x
    next : {y z : System} → Reach x y → Event y z → Reach x z
