-- ===== src/Tenancy/Guards/Identity.antt =====
-- Where the user that the authentication sets comes from.
use klyvero.Common.{
  ℕ, ◌≡◌, refl, inl, inr, Bool, true, false, not, ◌||◌, ◌==◌, [], Option, none, some, Bool-cases,
  find_first, if◌then◌else◌, Text, units, text_eq, Result, ok, err, Error, >>=-eq-ok, throw_if,
  throw_if-eq-ok, ok-injective,
}
use klyvero.Text.Phone.{starts_with}
use klyvero.Tenancy.{member, User, ApiKey, Db, AuthUser, jwt, api_key}
use klyvero.Tenancy.Guards.{
  Claims, Libraries, Request, is_active_tenant, token_user, by_header, by_claims, is_past, key_user,
  by_key, bearer, authenticate,
}

-- Where the user of a request comes from.
pub data Authentic (lib : Libraries) (now : ℕ) (db : Db) (r : Request) (user : AuthUser)
    : Type 0 where
  -- an access token of an active user of an active workspace
  token :
      (text : Text) (claims : Claims) (u : User)
      → bearer r.authorization ≡ some text
      → lib.verify text ≡ some claims
      → text_eq claims.token_type (units "access") ≡ true
      → find_first (λ x. x.id == claims.sub) db.users ≡ some u
      → u.active ≡ true
      → is_active_tenant db u.tenant_id ≡ true
      → record { tenant_id = u.tenant_id; role = u.role; auth_type = jwt; scopes = [] } ≡ user
      → Authentic lib now db r user
  -- no bearer token, and an active key of an active workspace that has not expired
  key :
      (raw : Text) (k : ApiKey)
      → bearer r.authorization ≡ none
      → r.x_api_key ≡ some raw
      → find_first (λ x. text_eq x.key_hash (lib.hash raw)) db.api_keys ≡ some k
      → k.active ≡ true
      → is_active_tenant db k.tenant_id ≡ true
      → is_past now k.expires_at ≡ false
      → record { tenant_id = k.tenant_id; role = member; auth_type = api_key; scopes = k.scopes }
        ≡ user
      → Authentic lib now db r user

pub not-true : (b : Bool) → not b ≡ false → b ≡ true
not-true true h = refl
not-true false h = cc

or_false : (a b : Bool) → (a || b) ≡ false → (a ≡ false) × (b ≡ false)
or_false true b h = cc
or_false false b h = (refl, h)

stopped :
    {A : Type 0} (b : Bool) (e : Error) (r : Result A) {a : A}
    → (if b then err e else r) ≡ ok a
    → (b ≡ false) × (r ≡ ok a)
stopped true e r {a} h = cc
stopped false e r {a} h = (refl, h)

token_user-ok :
    (db : Db) (o : Option User) {user : AuthUser}
    → token_user db o ≡ ok user
    → (u : User) × (o ≡ some u)
      × (u.active ≡ true)
      × (is_active_tenant db u.tenant_id ≡ true)
      × (record { tenant_id = u.tenant_id; role = u.role; auth_type = jwt; scopes = [] } ≡ user)
token_user-ok db none {user} h = cc
token_user-ok db (some u) {user} h =
    let (fine, same) = stopped (not u.active || not (is_active_tenant db u.tenant_id)) _ _ h in
    let (active, open') = or_false (not u.active) (not (is_active_tenant db u.tenant_id)) fine in
    (
      u,
      refl,
      not-true u.active active,
      not-true (is_active_tenant db u.tenant_id) open',
      ok-injective same,
    )

key_user-ok :
    (now : ℕ) (db : Db) (o : Option ApiKey) {user : AuthUser}
    → key_user now db o ≡ ok user
    → (k : ApiKey) × (o ≡ some k)
      × (k.active ≡ true)
      × (is_active_tenant db k.tenant_id ≡ true)
      × (is_past now k.expires_at ≡ false)
      × (record { tenant_id = k.tenant_id; role = member; auth_type = api_key; scopes = k.scopes }
          ≡ user)
key_user-ok now db none {user} h = cc
key_user-ok now db (some k) {user} h =
    let (fine, same) =
      stopped (not k.active || not (is_active_tenant db k.tenant_id) || is_past now k.expires_at) _
        _ h in
    let (usable, fresh) =
      or_false (not k.active || not (is_active_tenant db k.tenant_id)) (is_past now k.expires_at)
        fine in
    let (active, open') = or_false (not k.active) (not (is_active_tenant db k.tenant_id)) usable in
    (
      k,
      refl,
      not-true k.active active,
      not-true (is_active_tenant db k.tenant_id) open',
      fresh,
      ok-injective same,
    )

module _ (lib : Libraries) (now : ℕ) (db : Db) (r : Request) {user : AuthUser} where
  by_claims-Authentic :
      (text : Text) (o : Option Claims)
      → bearer r.authorization ≡ some text
      → lib.verify text ≡ o
      → by_claims db o ≡ ok user
      → Authentic lib now db r user
  by_claims-Authentic text none given e h = cc
  by_claims-Authentic text (some c) given e h =
      let wrong = not (text_eq c.token_type (units "access")) in
      let (v, right, rest) = >>=-eq-ok (throw_if wrong _) _ h in
      let (u, found, active, open', same) =
        token_user-ok db (find_first (λ x. x.id == c.sub) db.users) rest in
      token text c u given e
        (not-true (text_eq c.token_type (units "access")) (throw_if-eq-ok wrong _ right)) found
        active open' same

  by_key-Authentic :
      (o : Option Text)
      → bearer r.authorization ≡ none
      → r.x_api_key ≡ o
      → by_key lib now db o ≡ ok user
      → Authentic lib now db r user
  by_key-Authentic none given e h = cc
  by_key-Authentic (some raw) given e h = elim (Bool-cases (starts_with (units "kly_") raw)) [
    | inl prefixed ↦
        let rest : key_user now db (find_first (λ x. text_eq x.key_hash (lib.hash raw)) db.api_keys)
            ≡ ok user =
          rw prefixed at h in
        let (k, found, active, open', fresh, same) =
          key_user-ok now db (find_first (λ x. text_eq x.key_hash (lib.hash raw)) db.api_keys)
            rest in
        key raw k given e found active open' fresh same
    | inr other ↦ let refused = rw other at h in cc
  ]

  by_header-Authentic :
      (o : Option Text)
      → bearer r.authorization ≡ o
      → by_header lib now db o r.x_api_key ≡ ok user
      → Authentic lib now db r user
  by_header-Authentic none e h = by_key-Authentic r.x_api_key e refl h
  by_header-Authentic (some text) e h = by_claims-Authentic text (lib.verify text) e refl h

  pub authenticate-Authentic : authenticate lib now db r ≡ ok user → Authentic lib now db r user
  unfolding authenticate
  authenticate-Authentic h = by_header-Authentic (bearer r.authorization) refl h
