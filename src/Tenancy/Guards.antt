-- ===== src/Tenancy/Guards.antt =====
-- Who may call a route: apps/api/src/common/auth.guard.ts, roles.guard.ts, scope.guard.ts and
-- browser-origin.ts. The check of a token's signature and `new URL` are the libraries', and
-- arguments; what the reflector reads from the route is one too.
pub mod Identity
pub mod Chain
use klyvero.Common.{
  ℕ, Bool, true, false, not, ◌&&◌, ◌||◌, ◌==◌, ltb, List, [], ◌∷◌, Option, none, some, map, any,
  find_first, select, drop, if◌then◌else◌, Text, units, text_eq, trim, Result, ok, err, ◌>>=◌, ◌>>◌,
  throw_if, unauthorized, forbidden,
}
use klyvero.Security.Network.{split_on}
use klyvero.Text.Phone.{starts_with}
use klyvero.Tenancy.{
  Tenant, UserRole, owner, admin, manager, sdr, member, viewer, User, ApiKey, Db, AuthUser,
  AuthType, jwt, api_key, is_active,
}

-- The claims of a token whose signature, issuer, audience and age are right.
pub record Claims : Type 0 where
  pub sub : ℕ
  pub token_type : Text

pub record Libraries : Type 0 where
  pub verify : Text → Option Claims
  pub hash : Text → Text

pub record Request : Type 0 where
  pub authorization : Option Text
  pub x_api_key : Option Text

abbrev pub is_active_row : Option Tenant → Bool
is_active_row none = false
is_active_row (some t) = is_active t.status

abbrev pub is_active_tenant : Db → ℕ → Bool
is_active_tenant db id = is_active_row (find_first (λ t. t.id == id) db.tenants)

abbrev pub token_user : Db → Option User → Result AuthUser
token_user db none = err (unauthorized "Account disabled")
token_user db (some u) =
    if not u.active || not (is_active_tenant db u.tenant_id)
    then err (unauthorized "Account disabled")
    else ok record { tenant_id = u.tenant_id; role = u.role; auth_type = jwt; scopes = [] }

-- The first branch, from the text of the token.
abbrev pub by_claims : Db → Option Claims → Result AuthUser
by_claims db none = err (unauthorized "Invalid or expired access token")
by_claims db (some claims) =
    throw_if (not (text_eq claims.token_type (units "access"))) (unauthorized "Invalid token type")
    >> token_user db (find_first (λ u. u.id == claims.sub) db.users)

abbrev pub is_past : ℕ → Option ℕ → Bool
is_past now none = false
is_past now (some at) = ltb at now

abbrev pub key_user : ℕ → Db → Option ApiKey → Result AuthUser
key_user now db none = err (unauthorized "Invalid API key")
key_user now db (some k) =
    if not k.active || not (is_active_tenant db k.tenant_id) || is_past now k.expires_at
    then err (unauthorized "Invalid API key")
    else ok
        record { tenant_id = k.tenant_id; role = member; auth_type = api_key; scopes = k.scopes }

-- The second branch, from the header `x-api-key`.
abbrev pub by_key : Libraries → ℕ → Db → Option Text → Result AuthUser
by_key lib now db none = err (unauthorized "")
by_key lib now db (some raw) =
    if starts_with (units "kly_") raw
    then key_user now db (find_first (λ k. text_eq k.key_hash (lib.hash raw)) db.api_keys)
    else err (unauthorized "")

abbrev pub bearer : Option Text → Option Text
bearer none = none
bearer (some header) = if starts_with (units "Bearer ") header then some (drop 7 header) else none

abbrev pub by_header : Libraries → ℕ → Db → Option Text → Option Text → Result AuthUser
by_header lib now db none raw_key = by_key lib now db raw_key
by_header lib now db (some token) raw_key = by_claims db (lib.verify token)

-- `AuthGuard.canActivate` on a route that is not public: the user that it sets, or what it throws.
unfoldable pub authenticate : Libraries → ℕ → Db → Request → Result AuthUser
authenticate lib now db r = by_header lib now db (bearer r.authorization) r.x_api_key

-- On a public route no user is set.
abbrev pub auth_guard : Libraries → ℕ → Db → Bool → Request → Result (Option AuthUser)
auth_guard lib now db true r = ok none
auth_guard lib now db false r = authenticate lib now db r >>= λ u. ok (some u)

abbrev pub same_role : UserRole → UserRole → Bool
same_role owner owner = true
same_role admin admin = true
same_role manager manager = true
same_role sdr sdr = true
same_role member member = true
same_role viewer viewer = true
same_role _ _ = false

abbrev pub has_role : List UserRole → UserRole → Bool
has_role roles r = any (λ x. same_role x r) roles

-- `RolesGuard.canActivate`, for the roles that the route names; no list is an empty one.
unfoldable pub roles_guard : List UserRole → Option AuthUser → Result (Unit {0})
roles_guard [] user = ok tt
roles_guard (r ∷ rs) none = err (forbidden "")
roles_guard (r ∷ rs) (some user) = throw_if (not (has_role (r ∷ rs) user.role)) (forbidden "")

abbrev pub has_scope : List Text → Text → Bool
has_scope scopes s = any (λ x. text_eq x s) scopes

abbrev pub in_scope : List Text → Option Text → Bool
in_scope scopes none = has_scope scopes (units "*")
in_scope scopes (some feature) = has_scope scopes (units "*") || has_scope scopes feature

abbrev pub check_scope : AuthType → List Text → Option Text → Result (Unit {0})
check_scope jwt scopes feature = ok tt
check_scope api_key scopes feature =
    throw_if (not (in_scope scopes feature)) (forbidden "API key does not include required scope")

-- `ScopeGuard.canActivate`
unfoldable pub scope_guard : Option Text → Option AuthUser → Result (Unit {0})
scope_guard feature none = ok tt
scope_guard feature (some user) = check_scope user.auth_type user.scopes feature

abbrev is_filled : Text → Bool
is_filled [] = false
is_filled (c ∷ s) = true

-- The origins that `WEB_ORIGIN` lists; `origin_of` is `new URL(value).origin`.
unfoldable pub allowed_origins : (Text → Text) → Option Text → List Text
unfolding split_on trim
allowed_origins origin_of setting = map origin_of (
    select is_filled (
      map trim
        (split_on b',' (elim setting [ none ↦ units "http://localhost:3000" | some s ↦ s ]))))

-- `!origin`: no header, or an empty one.
abbrev pub no_origin : Option Text → Bool
no_origin none = true
no_origin (some []) = true
no_origin (some (c ∷ s)) = false

abbrev pub foreign : List Text → Option Text → Bool
foreign allowed none = false
foreign allowed (some origin) = not (any (λ a. text_eq a origin) allowed)

abbrev pub cross_site : Option Text → Bool
cross_site none = false
cross_site (some s) = text_eq s (units "cross-site")

unfoldable pub assert_browser_origin :
    (Text → Text) → Option Text → Option Text → Option Text → Result (Unit {0})
unfolding allowed_origins text_eq
assert_browser_origin origin_of setting origin fetch_site =
    throw_if (foreign (allowed_origins origin_of setting) origin)
      (forbidden "Cross-site authentication request blocked")
    >> throw_if (no_origin origin && cross_site fetch_site)
        (forbidden "Cross-site authentication request blocked")
