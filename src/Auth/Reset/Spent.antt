-- ===== src/Auth/Reset/Spent.antt =====
-- What a password reset takes away.
use klyvero.Common.{
  ℕ, ◌≡◌, refl, sym, subst, ap, ◌∙◌, inl, inr, arith, Bool, false, not, ◌&&◌, List, [], ◌∷◌, none,
  some, Option-cases, Text, ltb, ◌==◌, Bool-cases, is_none, ok, err, count_where, update_many,
  delete_many, err_ne_ok,
}
use klyvero.Auth.Model.{Session, ResetToken, Db, Crypto, is_live, password_reset, Revocation}
use klyvero.Auth.Reset.{
  set_password, revoke_user, usable_token, is_usable, use_token, reset_password, invalid_token,
}

abbrev pub is_live_of : ℕ → Session → Bool
is_live_of user s = s.user_id == user && is_live s

-- A token of the user that could be used at `now`.
abbrev pub is_open_of : ℕ → ℕ → ResetToken → Bool
is_open_of user now t = t.user_id == user && is_none t.used_at && ltb now t.expires_at

revoke_user-none :
    (now : ℕ) (why : Revocation) (user : ℕ) (ss : List Session)
    → count_where (is_live_of user) (revoke_user now why user ss) ≡ 0
unfolding revoke_user update_many count_where
revoke_user-none now why user [] = refl
revoke_user-none now why user (s ∷ ss) = ground (arith, revoke_user-none now why user ss)

spent :
    (now : ℕ) (r : ResetToken) (ts : List ResetToken)
    → count_where (is_open_of r.user_id now) (
        delete_many
          (λ t. t.user_id == r.user_id && not (t.id == r.id))
          (update_many (is_usable r now) (λ t. record t { used_at = some now }) ts))
      ≡ 0
unfolding delete_many update_many count_where
spent now r [] = refl
spent now r (t ∷ ts) = ground (arith, spent now r ts)

-- What a reset with the token `r` leaves behind.
pub record IsReset (c : Crypto) (now : ℕ) (password : Text) (r : ResetToken) (before after : Db)
    : Type 0 where
  pub no_session : count_where (is_live_of r.user_id) after.sessions ≡ 0
  pub no_token : count_where (is_open_of r.user_id now) after.reset_tokens ≡ 0
  pub new_password : after.users ≡ set_password r.user_id (c.hash_password password) before.users

use_token-refused :
    (c : Crypto) (now : ℕ) (password : Text) (r : ResetToken) (db : Db)
    → (count_where (is_usable r now) db.reset_tokens == 1) ≡ false
    → use_token c now password r db ≡ (db, err invalid_token)
unfolding use_token
use_token-refused c now password r db e = rw (use_token, e) refl

use_token-IsReset :
    (c : Crypto) (now : ℕ) (password : Text) (r : ResetToken) (db : Db)
    → (use_token c now password r db).1 ≡ ok tt
    → IsReset c now password r db (use_token c now password r db).0
unfolding use_token
use_token-IsReset c now password r db h =
    elim (Bool-cases (count_where (is_usable r now) db.reset_tokens == 1)) [
      | inl e ↦
          rw (use_token, e)
            record {
              no_session = revoke_user-none now password_reset r.user_id db.sessions;
              no_token = spent now r db.reset_tokens;
              new_password = refl;
            }
      | inr e ↦
          absurd (err_ne_ok (ap (λ x. x.1) (sym (use_token-refused c now password r db e)) ∙ h))
    ]

reset_password-none :
    (c : Crypto) (now : ℕ) (raw password : Text) (db : Db)
    → usable_token c now raw db ≡ none
    → reset_password c now raw password db ≡ (db, err invalid_token)
unfolding reset_password
reset_password-none c now raw password db e = rw (reset_password, e) refl

reset_password-some :
    (c : Crypto) (now : ℕ) (raw password : Text) (db : Db) (r : ResetToken)
    → usable_token c now raw db ≡ some r
    → reset_password c now raw password db ≡ use_token c now password r db
unfolding reset_password use_token
reset_password-some c now raw password db r e = rw (reset_password, e) refl

-- A password reset that succeeds was given a token that could be used, changes the password of that
-- token's user alone, and leaves that user no session that is not revoked and no reset token that
-- could still be used.
pub reset_password-IsReset :
    (c : Crypto) (now : ℕ) (raw password : Text) (db : Db)
    → (reset_password c now raw password db).1 ≡ ok tt
    → (r : ResetToken) × (usable_token c now raw db ≡ some r)
      × IsReset c now password r db (reset_password c now raw password db).0
reset_password-IsReset c now raw password db h = elim (Option-cases (usable_token c now raw db)) [
  | inl e ↦
      absurd (err_ne_ok (ap (λ x. x.1) (sym (reset_password-none c now raw password db e)) ∙ h))
  | inr (r, e) ↦
      let same = reset_password-some c now raw password db r e in
      (
        r,
        e,
        subst (λ d. IsReset c now password r db d) (ap (λ x. x.0) (sym same))
            (use_token-IsReset c now password r db (ap (λ x. x.1) (sym same) ∙ h)),
      )
]
