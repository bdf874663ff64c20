-- ===== src/Tenancy/Guards/Chain.antt =====
-- The guards one after another, in the order in which apps/api/src/app.module.ts names them.
use klyvero.Common.{
  ℕ, ◌≡◌, refl, subst, ap, ◌∙◌, arith, ◌⊎◌, inl, inr, Bool, true, false, not, ◌==◌, List, [], ◌∷◌,
  Option, none, some, find_first, Text, Result, ok, err, ◌>>=◌, >>=-eq-ok, throw_if-eq-ok,
}
use klyvero.Tenancy.{Tenant, UserRole, Db, AuthUser, AuthType, jwt, api_key}
use klyvero.Tenancy.Hierarchy.Ancestors.{has_id, IsForest}
use klyvero.Tenancy.Features.{feature_guard}
use klyvero.Tenancy.Features.Policy.{IsOpen, feature_guard-IsOpen}
use klyvero.Tenancy.Guards.Identity.{Authentic, token, key, not-true, authenticate-Authentic}
use klyvero.Tenancy.Guards.{
  Libraries, Request, is_active_row, is_active_tenant, authenticate, auth_guard, has_role,
  roles_guard, in_scope, check_scope, scope_guard,
}

-- What the decorators of a route say.
pub record Route : Type 0 where
  pub is_public : Bool
  pub roles : List UserRole
  pub feature : Option Text

abbrev pub after_feature :
    Option (Result (Unit {0}))
    → Result (Unit {0})
    → Option AuthUser
    → Option (Result (Option AuthUser))
after_feature none scope user = none
after_feature (some (err e)) scope user = some (err e)
after_feature (some (ok v)) scope user = some (scope >>= λ w. ok user)

abbrev pub after_roles :
    Result (Unit {0})
    → Option (Result (Unit {0}))
    → Result (Unit {0})
    → Option AuthUser
    → Option (Result (Option AuthUser))
after_roles (err e) feature scope user = some (err e)
after_roles (ok u) feature scope user = after_feature feature scope user

-- The guards that read the user that the first one has set.
abbrev pub after_auth : Db → Route → Result (Option AuthUser) → Option (Result (Option AuthUser))
after_auth db route (err e) = some (err e)
after_auth db route (ok user) =
    after_roles (roles_guard route.roles user) (feature_guard db route.feature user)
      (scope_guard route.feature user) user

unfoldable pub guards : Libraries → ℕ → Db → Route → Request → Option (Result (Option AuthUser))
guards lib now db route r = after_auth db route (auth_guard lib now db route.is_public r)

after_feature-ok :
    (o : Option (Result (Unit {0}))) (scope : Result (Unit {0})) (user : Option AuthUser)
    {u : Option AuthUser}
    → after_feature o scope user ≡ some (ok u)
    → (o ≡ some (ok tt)) × (scope ≡ ok tt) × (user ≡ u)
after_feature-ok none scope user {u} h = cc
after_feature-ok (some (err e)) scope user {u} h = cc
after_feature-ok (some (ok v)) (err e) user {u} h = cc
after_feature-ok (some (ok v)) (ok w) user {u} h = (refl, refl, cc)

after_roles-ok :
    (roles : Result (Unit {0})) (o : Option (Result (Unit {0}))) (scope : Result (Unit {0}))
    (user : Option AuthUser) {u : Option AuthUser}
    → after_roles roles o scope user ≡ some (ok u)
    → (roles ≡ ok tt) × (o ≡ some (ok tt)) × (scope ≡ ok tt) × (user ≡ u)
after_roles-ok (err e) o scope user {u} h = cc
after_roles-ok (ok v) o scope user {u} h =
    let (feature, scoped, same) = after_feature-ok o scope user h in (refl, feature, scoped, same)

after_auth-ok :
    (db : Db) (route : Route) (auth : Result (Option AuthUser)) {u : Option AuthUser}
    → after_auth db route auth ≡ some (ok u)
    → (auth ≡ ok u)
      × (roles_guard route.roles u ≡ ok tt)
      × (feature_guard db route.feature u ≡ some (ok tt))
      × (scope_guard route.feature u ≡ ok tt)
after_auth-ok db route (err e) {u} h = cc
after_auth-ok db route (ok user) {u} h =
    let (roles, feature, scope, same) =
      after_roles-ok (roles_guard route.roles user) (feature_guard db route.feature user)
        (scope_guard route.feature user) user h in
    (
      ap ok same,
      subst (λ x. roles_guard route.roles x ≡ ok tt) same roles,
      subst (λ x. feature_guard db route.feature x ≡ some (ok tt)) same feature,
      subst (λ x. scope_guard route.feature x ≡ ok tt) same scope,
    )

auth_guard-ok :
    (lib : Libraries) (now : ℕ) (db : Db) (b : Bool) (r : Request) {user : AuthUser}
    → auth_guard lib now db b r ≡ ok (some user)
    → authenticate lib now db r ≡ ok user
auth_guard-ok lib now db true r {user} h = cc
auth_guard-ok lib now db false r {user} h =
    let (u, e, same) = >>=-eq-ok (authenticate lib now db r) _ h in
    let this : u ≡ user = cc in e ∙ ap ok this

roles_guard-ok :
    (roles : List UserRole) (user : AuthUser)
    → roles_guard roles (some user) ≡ ok tt
    → (roles ≡ []) ⊎ (has_role roles user.role ≡ true)
unfolding roles_guard
roles_guard-ok [] user h = inl refl
roles_guard-ok (x ∷ xs) user h = inr (
    not-true (has_role (x ∷ xs) user.role) (throw_if-eq-ok (not (has_role (x ∷ xs) user.role)) _ h))

check_scope-ok :
    (t : AuthType) (scopes : List Text) (feature : Option Text)
    → check_scope t scopes feature ≡ ok tt
    → t ≡ api_key
    → in_scope scopes feature ≡ true
check_scope-ok jwt scopes feature h e = cc
check_scope-ok api_key scopes feature h e =
    not-true (in_scope scopes feature) (throw_if-eq-ok (not (in_scope scopes feature)) _ h)

found_known :
    (ts : List Tenant) (id : ℕ) {t : Tenant}
    → find_first (λ x. x.id == id) ts ≡ some t
    → has_id id ts ≡ true
unfolding find_first
found_known [] id {t} e = cc
found_known (x ∷ ts) id {t} e = ground (arith, found_known ts id {t = t})

active_known_row :
    (ts : List Tenant) (id : ℕ) (o : Option Tenant)
    → find_first (λ x. x.id == id) ts ≡ o
    → is_active_row o ≡ true
    → has_id id ts ≡ true
active_known_row ts id none e h = cc
active_known_row ts id (some t) e h = found_known ts id e

active_known : (db : Db) (id : ℕ) → is_active_tenant db id ≡ true → has_id id db.tenants ≡ true
active_known db id h =
    active_known_row db.tenants id (find_first (λ x. x.id == id) db.tenants) refl h

Authentic-known :
    {lib : Libraries} {now : ℕ} {db : Db} {r : Request} {user : AuthUser}
    → Authentic lib now db r user
    → has_id user.tenant_id db.tenants ≡ true
Authentic-known {db} (token text c u _ _ _ _ _ open' same) =
    subst (λ x. has_id x.tenant_id db.tenants ≡ true) same (active_known db u.tenant_id open')
Authentic-known {db} (key raw k _ _ _ _ open' _ same) =
    subst (λ x. has_id x.tenant_id db.tenants ≡ true) same (active_known db k.tenant_id open')

-- What is known of a request that reaches its route with a user.
pub record IsAdmitted (lib : Libraries) (now : ℕ) (db : Db) (route : Route) (r : Request)
    (user : AuthUser) : Type 0 where
  pub authentic : Authentic lib now db r user
  pub role : (route.roles ≡ []) ⊎ (has_role route.roles user.role ≡ true)
  pub feature : (name : Text) → route.feature ≡ some name → IsOpen db user name
  pub scope : user.auth_type ≡ api_key → in_scope user.scopes route.feature ≡ true

-- Where the hierarchy is a forest, a request that passes the guards with a user is one with an access
-- token of an active user, or with an active API key that has not expired, of an active workspace; the
-- user has a role that the route names, where it names any; the feature of the route is switched on for
-- the workspace and all above it, a subscription of the workspace, where it has one, is active or
-- trialing (this is not asked for billing) and its plan does not exclude the feature; and an API key has
-- the scope of that feature or `*`.
pub guards-IsAdmitted :
    (lib : Libraries) (now : ℕ) (db : Db) (route : Route) (r : Request) (user : AuthUser)
    → IsForest db.tenants
    → guards lib now db route r ≡ some (ok (some user))
    → IsAdmitted lib now db route r user
unfolding guards scope_guard
guards-IsAdmitted lib now db route r user f h =
    let (auth, roles, feature, scope) =
      after_auth-ok db route (auth_guard lib now db route.is_public r) h in
    let who =
      authenticate-Authentic lib now db r (auth_guard-ok lib now db route.is_public r auth) in
    record {
      authentic = who;
      role = roles_guard-ok route.roles user roles;
      feature = λ name e.
          feature_guard-IsOpen db user name f (Authentic-known who)
            (subst (λ x. feature_guard db x (some user) ≡ some (ok tt)) e feature);
      scope = check_scope-ok user.auth_type user.scopes route.feature scope;
    }
