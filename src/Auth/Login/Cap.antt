-- ===== src/Auth/Login/Cap.antt =====
-- The number of sessions that a login leaves active.
use klyvero.Common.{
  ℕ, ◌≤◌, ◌≡◌, refl, sym, subst, ap, ◌∙◌, inl, inr, arith, Bool, true, false, not, ◌&&◌, List, [],
  ◌∷◌, Memᴰ, Option, none, some, Text, ◌==◌, ok, err, All-map, All-self, select, drop, order_desc,
  count_where, update_many, trim, Result-cases, Error, err_ne_ok, ok-injective, count_where-le-drop,
  count_where-select, count_where-order_desc, ==_refl,
}
use klyvero.Security.AuthDefense.{Keys, assert_allowed}
use klyvero.Auth.Model.{
  User, Session, Db, Crypto, Settings, Redis, Fresh, session_cap, previously_revoked, revoke,
}
use klyvero.Auth.Login.{
  is_over, is_active, has_id, surplus, make_room, open_session, note_success, authenticate,
  keys_for, Tokens, attempt, login,
}

has_id-mem : (rows : List Session) (s : Session) → Memᴰ s rows → has_id rows s ≡ true
has_id-mem [] s m = elim m [ ]
has_id-mem (r ∷ rows) s (Memᴰ.head e) = rw (ap (λ x. x.id) e, ==_refl r.id)
has_id-mem (r ∷ rows) s (Memᴰ.tail m) = ground (arith, has_id-mem rows s m)

count_where-revoked :
    (user_id now : ℕ) (q : Session → Bool) (ss : List Session)
    → count_where (is_active user_id now) (update_many q (revoke now session_cap) ss)
      ≡ count_where (λ s. is_active user_id now s && not (q s)) ss
unfolding count_where update_many
count_where-revoked user_id now q [] = refl
count_where-revoked user_id now q (s ∷ ss) = ground (arith, count_where-revoked user_id now q ss)

-- After the session cap is enforced at most nineteen sessions of the user are active.
pub make_room-le :
    (user_id now : ℕ) (ss : List Session)
    → count_where (is_active user_id now) (make_room user_id now ss) ≤ 19
unfolding make_room surplus
make_room-le user_id now ss =
    let marked =
      update_many (λ s. s.user_id == user_id && is_over now s)
        (λ s. record s { reason = some previously_revoked }) ss in
    let rows = order_desc (λ s. s.created_at) (select (is_active user_id now) marked) in
    let gone = drop 19 rows in
    let few =
      count_where-le-drop (λ s. not (has_id gone s)) 19 rows
        (All-map (λ s. Memᴰ s gone) (λ s. not (has_id gone s) ≡ false) gone
          (λ s m. ap not (has_id-mem gone s m)) (All-self gone)) in
    omega (
      arith,
      few,
      count_where-revoked user_id now (has_id gone) marked,
      count_where-select (λ s. not (has_id gone s)) (is_active user_id now) marked,
      count_where-order_desc (λ s. not (has_id gone s)) (λ s. s.created_at)
          (select (is_active user_id now) marked),
    )

open_session-le :
    (c : Crypto) (cfg : Settings) (now : ℕ) (f : Fresh) (u : User) (db : Db)
    → count_where (is_active u.id now) (open_session c cfg now f u db).sessions ≤ 20
unfolding open_session count_where
open_session-le c cfg now f u db = ground (arith, make_room-le u.id now db.sessions)

attempt-opens :
    (c : Crypto) (cfg : Settings) (redis : Redis) (now : ℕ) (f : Fresh) (ks : Keys)
    (o : Option User) (db : Db) (t : Tokens)
    → (attempt c cfg redis now f ks o db).1 ≡ ok t
    → (attempt c cfg redis now f ks o db).0
      ≡ open_session c cfg now f t.user (note_success redis ks db)
unfolding attempt
attempt-opens c cfg redis now f ks none db t h = cc
attempt-opens c cfg redis now f ks (some u) db t h =
    ap (λ x. open_session c cfg now f x (note_success redis ks db))
      (ap (λ x. x.user) (ok-injective h))

module _ (c : Crypto) (cfg : Settings) (redis : Redis) (now : ℕ) (f : Fresh)
    (slug email password : Text) (ip : Option Text) (db : Db) where
  abbrev request_keys : Keys
  request_keys = keys_for c (c.lower (trim slug)) (c.lower (trim email)) ip

  pub login-allowed :
      {u : Unit {0}}
      → assert_allowed db.fallback redis.locked now request_keys ≡ ok u
      → login c cfg redis now f slug email password ip db
        ≡ attempt c cfg redis now f request_keys
            (authenticate c db (c.lower (trim slug)) (c.lower (trim email)) password)
            db
  unfolding login attempt
  login-allowed e = rw (login, e) refl

  pub login-blocked :
      {x : Error}
      → assert_allowed db.fallback redis.locked now request_keys ≡ err x
      → login c cfg redis now f slug email password ip db ≡ (db, err x)
  unfolding login
  login-blocked e = rw (login, e) refl

  -- A login that answers with tokens has opened a session for their user.
  pub login-opens :
      (t : Tokens)
      → (login c cfg redis now f slug email password ip db).1 ≡ ok t
      → (login c cfg redis now f slug email password ip db).0
        ≡ open_session c cfg now f t.user (note_success redis request_keys db)
  login-opens t h =
      let o = authenticate c db (c.lower (trim slug)) (c.lower (trim email)) password in
      elim (Result-cases (assert_allowed db.fallback redis.locked now request_keys)) [
        | inl (u, e) ↦
            ap (λ r. r.0) (login-allowed e)
            ∙ attempt-opens c cfg redis now f request_keys o db t
                (ap (λ r. r.1) (sym (login-allowed e)) ∙ h)
        | inr (x, e) ↦ absurd (err_ne_ok (ap (λ r. r.1) (sym (login-blocked e)) ∙ h))
      ]

-- After a login that succeeds at `now`, at most twenty sessions of that user are neither revoked nor
-- expired, however many there were.
pub login-le_twenty :
    (c : Crypto) (cfg : Settings) (redis : Redis) (now : ℕ) (f : Fresh) (slug email password : Text)
    (ip : Option Text) (db : Db) (t : Tokens)
    → (login c cfg redis now f slug email password ip db).1 ≡ ok t
    → count_where
        (is_active t.user.id now)
        (login c cfg redis now f slug email password ip db).0.sessions
      ≤ 20
login-le_twenty c cfg redis now f slug email password ip db t h =
    subst (λ d. count_where (is_active t.user.id now) d.sessions ≤ 20)
      (sym (login-opens c cfg redis now f slug email password ip db t h))
      (open_session-le c cfg now f t.user
        (note_success redis (request_keys c cfg redis now f slug email password ip db) db))
