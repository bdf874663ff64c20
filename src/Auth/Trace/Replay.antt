-- ===== src/Auth/Trace/Replay.antt =====
-- What a token that is used twice does to its family.
use klyvero.Common.{
  ℕ, ◌≡◌, ◌≢◌, refl, sym, ap, ◌∙◌, inl, inr, arith, true, false, List, [], ◌∷◌, Memᴰ, some, Text,
  ◌==◌, Bool-cases, ok, err, any, err_ne_ok, ==_refl, find_first, count_where, update_many, text_eq,
  unauthorized, find_first-mem,
}
use klyvero.Auth.Model.{User, Session, Db, Crypto, Settings, Fresh, is_live, concurrent, replay}
use klyvero.Auth.Login.{Tokens, new_session}
use klyvero.Auth.Refresh.{
  check_session, check_found, revoke_family, rotate, is_claimable, replaced, refresh,
}
use klyvero.Auth.Refresh.Families.{is_live_in, revoke_family-none}
use klyvero.Auth.Trace.Keeps.{revoke_family-AreWeaker}
use klyvero.Auth.Trace.Shut.{IsShut, weaker-any}

mem-any :
    (s : Session) (ss : List Session) → Memᴰ s ss → any (λ r. r.family_id == s.family_id) ss ≡ true
mem-any s [] m = elim m [ ]
mem-any s (r ∷ ss) (Memᴰ.head e) = rw (ap (λ x. x.family_id) e, ==_refl r.family_id) refl
mem-any s (r ∷ ss) (Memᴰ.tail m) = ground (arith, mem-any s ss m)

-- A refresh with a token whose session was revoked is refused, and leaves no live session in the
-- family of that session.
pub refresh-replay :
    (c : Crypto) (cfg : Settings) (now : ℕ) (f : Fresh) (raw : Text) (db : Db) (s : Session)
    → find_first (λ r. text_eq r.token_hash (c.hash_token raw)) db.sessions ≡ some s
    → is_live s ≡ false
    → ((refresh c cfg now f (some raw) db).1
        ≡ err (unauthorized "Refresh session is no longer valid"))
      × IsShut s.family_id (refresh c cfg now f (some raw) db).0.sessions
unfolding refresh check_session check_found
refresh-replay c cfg now f raw db s e l =
    rw (refresh, e, l)
      (
        refl,
        (
          weaker-any s.family_id db.sessions (revoke_family now replay s.family_id db.sessions)
                (revoke_family-AreWeaker now replay s.family_id db.sessions)
              ∙ mem-any s db.sessions (find_first-mem _ db.sessions e),
          revoke_family-none now replay s.family_id db.sessions,
        ),
      )

claimed-none :
    (now : ℕ) (next_hash : Text) (s : Session) (ss : List Session)
    → count_where (is_claimable s) (update_many (is_claimable s) (replaced now next_hash) ss) ≡ 0
unfolding count_where update_many
claimed-none now next_hash s [] = refl
claimed-none now next_hash s (r ∷ ss) = ground (arith, claimed-none now next_hash s ss)

add_other :
    (s n : Session) (ss : List Session)
    → n.id ≢ s.id
    → count_where (is_claimable s) ss ≡ 0
    → count_where (is_claimable s) (n ∷ ss) ≡ 0
unfolding count_where
add_other s n ss ne h = ground arith

rotate-rejected :
    (c : Crypto) (cfg : Settings) (now : ℕ) (f : Fresh) (s : Session) (u : User) (db : Db)
    → (count_where (is_claimable s) db.sessions == 1) ≡ false
    → (rotate c cfg now f s u db).1 ≡ err (unauthorized "Refresh session replay detected")
unfolding rotate
rotate-rejected c cfg now f s u db e = rw (rotate, e) refl

rotated-unclaimable :
    (c : Crypto) (cfg : Settings) (now : ℕ) (f : Fresh) (s : Session) (u : User) (db : Db)
    (t : Tokens)
    → f.session_id ≢ s.id
    → (rotate c cfg now f s u db).1 ≡ ok t
    → count_where (is_claimable s) (rotate c cfg now f s u db).0.sessions ≡ 0
unfolding rotate count_where new_session
rotated-unclaimable c cfg now f s u db t ne h =
    elim (Bool-cases (count_where (is_claimable s) db.sessions == 1)) [
      | inl e ↦
          rw (rotate, e)
            (add_other s
              (new_session c cfg now f.session_id u.id s.family_id f.token (some s.token_hash))
              (update_many (is_claimable s) (replaced now (c.hash_token f.token)) db.sessions) ne
              (claimed-none now (c.hash_token f.token) s db.sessions))
      | inr e ↦ absurd (err_ne_ok (sym (rotate-rejected c cfg now f s u db e) ∙ h))
    ]

rotate_unclaimable :
    (c : Crypto) (cfg : Settings) (now : ℕ) (f : Fresh) (s : Session) (u : User) (db : Db)
    → count_where (is_claimable s) db.sessions ≡ 0
    → ((rotate c cfg now f s u db).1 ≡ err (unauthorized "Refresh session replay detected"))
      × (count_where (is_live_in s.family_id) (rotate c cfg now f s u db).0.sessions ≡ 0)
unfolding rotate
rotate_unclaimable c cfg now f s u db z =
    rw (rotate, z) (refl, revoke_family-none now concurrent s.family_id db.sessions)

-- When two requests read the same session before either rotates it and the first one succeeds, the
-- second is rejected as a replay and the whole family is left without a live session: the tokens
-- just given to the first request are revoked too.
pub rotate-concurrent :
    (c : Crypto) (cfg : Settings) (now later : ℕ) (f g : Fresh) (s : Session) (u : User) (db : Db)
    (t : Tokens)
    → f.session_id ≢ s.id
    → (rotate c cfg now f s u db).1 ≡ ok t
    → ((rotate c cfg later g s u (rotate c cfg now f s u db).0).1
        ≡ err (unauthorized "Refresh session replay detected"))
      × (count_where
            (is_live_in s.family_id)
            (rotate c cfg later g s u (rotate c cfg now f s u db).0).0.sessions
          ≡ 0)
rotate-concurrent c cfg now later f g s u db t ne h =
    rotate_unclaimable c cfg later g s u (rotate c cfg now f s u db).0
      (rotated-unclaimable c cfg now f s u db t ne h)
