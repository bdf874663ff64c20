-- ===== src/Auth/Trace/Shut.antt =====
-- A family of sessions in which nothing is live: how it comes about, and that it is for good.
use klyvero.Common.{
  ℕ, ◌≡◌, ◌≢◌, refl, sym, subst, ◌∙◌, inl, inr, arith, true, List, [], ◌∷◌, some, ◌==◌, Bool-cases,
  All, any, ==_iff, All-mem, count_where, update_many,
}
use klyvero.Auth.Model.{User, Session, Db, Crypto, Settings, Fresh, concurrent}
use klyvero.Auth.Login.{make_room, new_session, login, logout, logout_all}
use klyvero.Auth.Refresh.{revoke_family, rotate, is_claimable, replaced}
use klyvero.Auth.Reset.{reset_password, recover_owner}
use klyvero.Auth.Refresh.Families.{
  AreWeaker, update_many-AreWeaker, is_live_in, count_live-le, AreKin, count_claimable-le,
}
use klyvero.Auth.Trace.{System, Event, Reach}
use klyvero.Auth.Trace.Keeps.{
  make_room-AreWeaker, revoke_family-AreWeaker, logout-AreWeaker, logout_all-AreWeaker,
  forgot_password-sessions, reset_password-AreWeaker, recover_owner-AreWeaker,
  check_session-AreWeaker, LoginShape, login-shape,
}
use klyvero.Auth.Trace.Single.{IsSingle, step-IsSingle}

-- The family has sessions and none is live.
abbrev pub IsShut : ℕ → List Session → Type 0
IsShut family ss =
    (any (λ s. s.family_id == family) ss ≡ true) × (count_where (is_live_in family) ss ≡ 0)

pub weaker-any :
    (family : ℕ) (ss ts : List Session)
    → AreWeaker ss ts
    → any (λ s. s.family_id == family) ts ≡ any (λ s. s.family_id == family) ss
weaker-any family [] [] w = refl
weaker-any family [] (t ∷ ts) w = elim w [ ]
weaker-any family (s ∷ ss) [] w = elim w [ ]
weaker-any family (s ∷ ss) (t ∷ ts) ((a, b, c), w) = ground (arith, weaker-any family ss ts w)

weaker-IsShut :
    (family : ℕ) (ss ts : List Session) → AreWeaker ss ts → IsShut family ss → IsShut family ts
weaker-IsShut family ss ts w (a, b) =
    (weaker-any family ss ts w ∙ a, omega (arith, count_live-le family ss ts w))

-- A session of another family leaves it shut.
add-IsShut :
    (family : ℕ) (n : Session) (ss : List Session)
    → n.family_id ≢ family
    → IsShut family ss
    → IsShut family (n ∷ ss)
unfolding count_where
add-IsShut family n ss ne (a, b) = ground arith

unused-any :
    (family other : ℕ) (ss : List Session)
    → All (λ s. s.family_id ≢ other) ss
    → any (λ s. s.family_id == family) ss ≡ true
    → other ≢ family
unused-any family other [] h a = cc
unused-any family other (s ∷ ss) (h, k) a = ground (arith, unused-any family other ss k)

login-IsShut :
    (f : Fresh) (family : ℕ) (ss ts : List Session)
    → LoginShape f ss ts
    → All (λ s. s.family_id ≢ f.family_id) ss
    → IsShut family ss
    → IsShut family ts
login-IsShut f family ss ts LoginShape.unchanged w h = h
login-IsShut f family ss ts (LoginShape.opened user now s a b) w h =
    add-IsShut family s (make_room user now ss)
      (subst (λ n. n ≢ family) (sym b) (unused-any family f.family_id ss w h.0))
      (weaker-IsShut family ss (make_room user now ss) (make_room-AreWeaker user now ss) h)

rotate-IsShut :
    (c : Crypto) (cfg : Settings) (now : ℕ) (f : Fresh) (s : Session) (u : User) (db : Db)
    (family : ℕ)
    → AreKin s db.sessions
    → IsShut family db.sessions
    → IsShut family (rotate c cfg now f s u db).0.sessions
unfolding rotate
rotate-IsShut c cfg now f s u db family k h =
    elim (Bool-cases (count_where (is_claimable s) db.sessions == 1)) [
      | inr e ↦
          rw (rotate, e)
            (weaker-IsShut family db.sessions (revoke_family now concurrent s.family_id db.sessions)
              (revoke_family-AreWeaker now concurrent s.family_id db.sessions) h)
      | inl e ↦
          let next_hash = c.hash_token f.token in
          let claimed = update_many (is_claimable s) (replaced now next_hash) db.sessions in
          let weak =
            update_many-AreWeaker (is_claimable s) (replaced now next_hash) db.sessions
              (λ r. (refl, refl, ground arith)) in
          let n = new_session c cfg now f.session_id u.id s.family_id f.token (some s.token_hash) in
          let other : s.family_id ≢ family =
            claims_nothing s family db.sessions k h.1 ((==_iff _ 1).0 e) in
          rw (rotate, e)
            (add-IsShut family n claimed other (weaker-IsShut family db.sessions claimed weak h))
    ]
  where
    claims_nothing :
        (s : Session) (family : ℕ) (ss : List Session)
        → AreKin s ss
        → count_where (is_live_in family) ss ≡ 0
        → count_where (is_claimable s) ss ≡ 1
        → s.family_id ≢ family
    claims_nothing s family ss k z o e =
        let none_live : count_where (is_live_in s.family_id) ss ≡ 0 = rw e z in
        omega (arith, count_claimable-le s ss k)

step-IsShut :
    (c : Crypto) (cfg : Settings) (x y : System) (family : ℕ)
    → Event c cfg x y
    → IsSingle x
    → IsShut family x.db.sessions
    → IsShut family y.db.sessions
step-IsShut c cfg _ y family (Event.logs_in x redis now f slug email password ip u) g h =
    login-IsShut f family x.db.sessions
      (login c cfg redis now f slug email password ip x.db).0.sessions
      (login-shape c cfg redis now f slug email password ip x.db) u.family_unused h
step-IsShut c cfg _ y family (Event.refuses x now raw db e r) g h =
    weaker-IsShut family x.db.sessions db.sessions (check_session-AreWeaker c now raw x.db db e r) h
step-IsShut c cfg _ y family (Event.reads x now raw s u r) g h = h
step-IsShut c cfg _ y family (Event.rotates x now f s u unused m) g h =
    rotate-IsShut c cfg now f s u x.db family
      (All-mem (λ p. AreKin (p.0) x.db.sessions) x.pending g.read m) h
step-IsShut c cfg _ y family (Event.logs_out x now raw) g h =
    weaker-IsShut family x.db.sessions (logout c now raw x.db).sessions
      (logout-AreWeaker c now raw x.db) h
step-IsShut c cfg _ y family (Event.logs_out_all x now user) g h =
    weaker-IsShut family x.db.sessions (logout_all now user x.db).sessions
      (logout_all-AreWeaker now user x.db) h
step-IsShut c cfg _ y family (Event.forgets x now f slug email) g h =
    subst (λ ss. IsShut family ss) (sym (forgot_password-sessions c cfg now f slug email x.db)) h
step-IsShut c cfg _ y family (Event.resets x now raw password) g h =
    weaker-IsShut family x.db.sessions (reset_password c now raw password x.db).0.sessions
      (reset_password-AreWeaker c now raw password x.db) h
step-IsShut c cfg _ y family (Event.recovers x redis now slug email code password ip) g h =
    weaker-IsShut family x.db.sessions
      (recover_owner c cfg redis now slug email code password ip x.db).0.sessions
      (recover_owner-AreWeaker c cfg redis now slug email code password ip x.db) h

Reach-both :
    (c : Crypto) (cfg : Settings) (x y : System) (family : ℕ)
    → IsSingle x
    → IsShut family x.db.sessions
    → Reach c cfg x y
    → IsSingle y × IsShut family y.db.sessions
Reach-both c cfg x _ family g h Reach.here = (g, h)
Reach-both c cfg x z family g h (Reach.next {y} r e) =
    let (g', h') = Reach-both c cfg x y family g h r in
    (step-IsSingle c cfg y z e g', step-IsShut c cfg y z family e g' h')

-- In a system that keeps its families single, a family that has sessions of which none is live never
-- has a live one again, whatever requests follow and however they interleave.
pub Reach-IsShut :
    (c : Crypto) (cfg : Settings) (x y : System) (family : ℕ)
    → IsSingle x
    → IsShut family x.db.sessions
    → Reach c cfg x y
    → count_where (is_live_in family) y.db.sessions ≡ 0
Reach-IsShut c cfg x y family g h r = (Reach-both c cfg x y family g h r).1.1
