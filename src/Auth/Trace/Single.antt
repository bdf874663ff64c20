-- ===== src/Auth/Trace/Single.antt =====
-- A family of sessions has one live session at most, and a family that was shut stays shut.
use klyvero.Common.{
  ℕ, ◌+◌, ◌≤◌, ◌≡◌, ◌≢◌, refl, sym, subst, ◌∙◌, inl, inr, arith, List, [], ◌∷◌, some, ◌==◌,
  Bool-cases, All, All-map, ==_iff, All-mem, All-zip, count_where, update_many,
}
use klyvero.Auth.Model.{User, Session, Db, Crypto, Settings, Fresh, concurrent}
use klyvero.Auth.Login.{make_room, new_session, login, logout, logout_all}
use klyvero.Auth.Refresh.{revoke_family, rotate, is_claimable, replaced}
use klyvero.Auth.Reset.{reset_password, recover_owner}
use klyvero.Auth.Refresh.Families.{
  AreWeaker, update_many-AreWeaker, is_live_in, count_live-le, AreKin, AreKin-weaker,
  count_live-claimed,
}
use klyvero.Auth.Trace.{System, Event, Reach}
use klyvero.Auth.Trace.Keeps.{
  make_room-AreWeaker, revoke_family-AreWeaker, logout-AreWeaker, logout_all-AreWeaker,
  forgot_password-sessions, reset_password-AreWeaker, recover_owner-AreWeaker,
  check_session-AreWeaker, check_session-mem, LoginShape, login-shape,
}

-- What holds at all times of the table and of the sessions that were read.
pub record Single (ss : List Session) (ps : List (Session × User)) : Type 0 where
  pub one : (family : ℕ) → count_where (is_live_in family) ss ≤ 1
  pub kin : All (λ s. AreKin s ss) ss
  pub read : All (λ p. AreKin (p.0) ss) ps

-- No row is live in two families, and rows with one identifier are of one family.
abbrev pub IsSingle : System → Type 0
IsSingle x = Single x.db.sessions x.pending

All-weaker :
    (ss ts us : List Session)
    → AreWeaker ss ts
    → All (λ s. AreKin s us) ss
    → All (λ s. AreKin s us) ts
All-weaker [] [] us w h = tt
All-weaker [] (t ∷ ts) us w h = elim w [ ]
All-weaker (s ∷ ss) [] us w h = elim w [ ]
All-weaker (s ∷ ss) (t ∷ ts) us ((a, b, c), w) (h, k) =
    (All-map _ _ us (λ r k e. k (e ∙ a) ∙ sym b) h, All-weaker ss ts us w k)

pub weaker-Single :
    (ss ts : List Session) (ps : List (Session × User))
    → AreWeaker ss ts
    → Single ss ps
    → Single ts ps
weaker-Single ss ts ps w h = record {
  one = λ family. omega (arith, count_live-le family ss ts w, h.one family);
  kin = All-weaker ss ts ts w (All-map _ _ ss (λ s. AreKin-weaker s ss ts w) h.kin);
  read = All-map _ _ ps (λ p. AreKin-weaker (p.0) ss ts w) h.read;
}

pub weaker-ids :
    (n : ℕ) (ss ts : List Session)
    → AreWeaker ss ts
    → All (λ s. s.id ≢ n) ss
    → All (λ s. s.id ≢ n) ts
weaker-ids n [] [] w h = tt
weaker-ids n [] (t ∷ ts) w h = elim w [ ]
weaker-ids n (s ∷ ss) [] w h = elim w [ ]
weaker-ids n (s ∷ ss) (t ∷ ts) ((a, b, c), w) (h, k) = (λ e. h (sym a ∙ e), weaker-ids n ss ts w k)

count_live-add :
    (n : Session) (ss : List Session) (family : ℕ)
    → count_where (is_live_in n.family_id) ss ≡ 0
    → count_where (is_live_in family) ss ≤ 1
    → count_where (is_live_in family) (n ∷ ss) ≤ 1
unfolding count_where
count_live-add n ss family z h = elim (Bool-cases (n.family_id == family)) [
  | inr e ↦ ground arith
  | inl e ↦
      let same : n.family_id ≡ family = (==_iff n.family_id family).0 e in
      let z' : count_where (is_live_in family) ss ≡ 0 = rw (← same) z in ground arith
]

-- A session with a new identifier, in a family where nothing is live, joins the table.
add-Single :
    (n : Session) (ss : List Session) (ps : List (Session × User))
    → All (λ s. s.id ≢ n.id) ss
    → All (λ p. (p.0).id ≢ n.id) ps
    → count_where (is_live_in n.family_id) ss ≡ 0
    → Single ss ps
    → Single (n ∷ ss) ps
add-Single n ss ps u v z h = record {
  one = λ family. count_live-add n ss family z (h.one family);
  kin = (
    (λ e. refl, All-map _ _ ss (λ s ne e. absurd (ne e)) u),
    All-zip _ _ _ ss (λ s ne k. (λ e. absurd (ne (sym e)), k)) u h.kin,
  );
  read = All-zip _ _ _ ps (λ p ne k. (λ e. absurd (ne (sym e)), k)) v h.read;
}

-- A family that no row is of has nothing live.
count_live-unused :
    (family : ℕ) (ss : List Session)
    → All (λ s. s.family_id ≢ family) ss
    → count_where (is_live_in family) ss ≡ 0
unfolding count_where
count_live-unused family [] h = refl
count_live-unused family (s ∷ ss) (h, k) = ground (arith, count_live-unused family ss k)

login-Single :
    (f : Fresh) (ss ts : List Session) (ps : List (Session × User))
    → LoginShape f ss ts
    → All (λ s. s.id ≢ f.session_id) ss
    → All (λ p. (p.0).id ≢ f.session_id) ps
    → All (λ s. s.family_id ≢ f.family_id) ss
    → Single ss ps
    → Single ts ps
login-Single f ss ts ps LoginShape.unchanged u v w h = h
login-Single f ss ts ps (LoginShape.opened user now s a b) u v w h =
    let room = make_room user now ss in
    let weak = make_room-AreWeaker user now ss in
    add-Single s room ps
      (weaker-ids s.id ss room weak (subst (λ n. All (λ r. r.id ≢ n) ss) (sym a) u))
      (subst (λ n. All (λ p. (p.0).id ≢ n) ps) (sym a) v)
      (subst (λ n. count_where (is_live_in n) room ≡ 0) (sym b)
        (omega (arith, count_live-le f.family_id ss room weak, count_live-unused f.family_id ss w)))
      (weaker-Single ss room ps weak h)

none-left : {a b c : ℕ} → a + b ≡ c → c ≤ 1 → b ≡ 1 → a ≡ 0
none-left h k e = omega arith

rotate-Single :
    (c : Crypto) (cfg : Settings) (now : ℕ) (f : Fresh) (s : Session) (u : User) (db : Db)
    (ps : List (Session × User))
    → All (λ r. r.id ≢ f.session_id) db.sessions
    → All (λ p. (p.0).id ≢ f.session_id) ps
    → AreKin s db.sessions
    → Single db.sessions ps
    → Single (rotate c cfg now f s u db).0.sessions ps
unfolding rotate
rotate-Single c cfg now f s u db ps a b k h =
    elim (Bool-cases (count_where (is_claimable s) db.sessions == 1)) [
      | inr e ↦
          rw (rotate, e)
            (weaker-Single db.sessions (revoke_family now concurrent s.family_id db.sessions) ps
              (revoke_family-AreWeaker now concurrent s.family_id db.sessions) h)
      | inl e ↦
          let next_hash = c.hash_token f.token in
          let claimed = update_many (is_claimable s) (replaced now next_hash) db.sessions in
          let weak =
            update_many-AreWeaker (is_claimable s) (replaced now next_hash) db.sessions
              (λ r. (refl, refl, ground arith)) in
          let n = new_session c cfg now f.session_id u.id s.family_id f.token (some s.token_hash) in
          rw (rotate, e)
            (add-Single n claimed ps (weaker-ids n.id db.sessions claimed weak a) b
              (none-left (count_live-claimed now next_hash s db.sessions k) (h.one s.family_id)
                ((==_iff _ 1).0 e))
              (weaker-Single db.sessions claimed ps weak h))
    ]

-- One request, or one half of a refresh, keeps every family to one live session.
pub step-IsSingle :
    (c : Crypto) (cfg : Settings) (x y : System) → Event c cfg x y → IsSingle x → IsSingle y
step-IsSingle c cfg _ y (Event.logs_in x redis now f slug email password ip u) h =
    login-Single f x.db.sessions (login c cfg redis now f slug email password ip x.db).0.sessions
      x.pending (login-shape c cfg redis now f slug email password ip x.db) u.id_unused u.id_unread
      u.family_unused h
step-IsSingle c cfg _ y (Event.refuses x now raw db e r) h =
    weaker-Single x.db.sessions db.sessions x.pending
      (check_session-AreWeaker c now raw x.db db e r) h
step-IsSingle c cfg _ y (Event.reads x now raw s u r) h = record {
  one = h.one;
  kin = h.kin;
  read = (
    All-mem (λ s. AreKin s x.db.sessions) x.db.sessions h.kin
        (check_session-mem c now raw x.db s u r),
    h.read,
  );
}
step-IsSingle c cfg _ y (Event.rotates x now f s u unused m) h =
    rotate-Single c cfg now f s u x.db x.pending unused.id_unused unused.id_unread
      (All-mem (λ p. AreKin (p.0) x.db.sessions) x.pending h.read m) h
step-IsSingle c cfg _ y (Event.logs_out x now raw) h =
    weaker-Single x.db.sessions (logout c now raw x.db).sessions x.pending
      (logout-AreWeaker c now raw x.db) h
step-IsSingle c cfg _ y (Event.logs_out_all x now user) h =
    weaker-Single x.db.sessions (logout_all now user x.db).sessions x.pending
      (logout_all-AreWeaker now user x.db) h
step-IsSingle c cfg _ y (Event.forgets x now f slug email) h =
    subst (λ ss. Single ss x.pending) (sym (forgot_password-sessions c cfg now f slug email x.db)) h
step-IsSingle c cfg _ y (Event.resets x now raw password) h =
    weaker-Single x.db.sessions (reset_password c now raw password x.db).0.sessions x.pending
      (reset_password-AreWeaker c now raw password x.db) h
step-IsSingle c cfg _ y (Event.recovers x redis now slug email code password ip) h =
    weaker-Single x.db.sessions
      (recover_owner c cfg redis now slug email code password ip x.db).0.sessions x.pending
      (recover_owner-AreWeaker c cfg redis now slug email code password ip x.db) h

pub empty-Single : Single [] []
unfolding count_where
empty-Single = record { one = λ family. omega arith; kin = tt; read = tt }

pub Reach-Single :
    (c : Crypto) (cfg : Settings) (x y : System) → IsSingle x → Reach c cfg x y → IsSingle y
Reach-Single c cfg x _ h Reach.here = h
Reach-Single c cfg x z h (Reach.next {y} r e) =
    step-IsSingle c cfg y z e (Reach-Single c cfg x y h r)

-- From an empty session table, whatever requests run and however their halves interleave, each
-- family has at most one session that is not revoked, provided each new session is given an
-- identifier and each login a family that is not in use.
pub Reach-le_one :
    (c : Crypto) (cfg : Settings) (x y : System)
    → x.db.sessions ≡ []
    → x.pending ≡ []
    → Reach c cfg x y
    → (family : ℕ) → count_where (is_live_in family) y.db.sessions ≤ 1
Reach-le_one c cfg x y a b r =
    (Reach-Single c cfg x y
      (subst (λ ss. Single ss x.pending) (sym a) (subst (λ ps. Single [] ps) (sym b) empty-Single))
      r).one
