-- ===== src/Signup/Trace.antt =====
-- Every way in which registration changes the tables of
-- apps/api/src/modules/signup/signup.service.ts, as a step relation.
use klyvero.Common.{ℕ, ◌≡◌, Text, ok}
use klyvero.Signup.{Db, Invite, Crypto, Caller}
use klyvero.Signup.Invites.{CreateInvite, create_invite, revoke_invite}
use klyvero.Signup.Registration.{Signup, commit_signup}

module _ (c : Crypto) where
  pub data Event : Db → Db → Type 0 where
    invites :
        (db db' : Db) (now : ℕ) (token : Text) (caller : Caller) (dto : CreateInvite)
        → create_invite c now token db caller dto ≡ ok db'
        → Event db db'
    revokes :
        (db db' : Db) (now : ℕ) (caller : Caller) (id : ℕ)
        → revoke_invite now db caller id ≡ ok db'
        → Event db db'
    -- The invitation is as it was read, at any time before.
    registers :
        (db db' : Db) (now : ℕ) (i : Invite) (dto : Signup)
        → commit_signup c now i dto db ≡ ok db'
        → Event db db'

  pub data Reach (db : Db) : Db → Type 0 where
    here : Reach db db
    next : {y z : Db} → Reach db y → Event y z → Reach db z
