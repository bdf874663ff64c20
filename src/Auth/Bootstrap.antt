-- ===== src/Auth/Bootstrap.antt =====
-- `bootstrap` and `bootstrapStatus` of apps/api/src/modules/auth/auth.service.ts. The branding and
-- the first pipeline of the new workspace are left out.
use klyvero.Common.{
  ℕ, ◌≡◌, ◌≢◌, refl, ap, subst, Bool, true, false, not, ◌&&◌, List, [], ◌∷◌, Option, none, some,
  Text, trim, Result, ok, err, Error, ◌>>◌, throw_if, throw_if-eq-ok, >>=-eq-ok, ok-injective,
  unauthorized, bad_request,
}
use klyvero.Text.ConstantTime.{secret_eq}
use klyvero.Security.Network.{is_empty}
use klyvero.Auth.Model.{owner, Tenant, User, Db, Crypto}

-- `BOOTSTRAP_ENABLED !== 'false'` and `BOOTSTRAP_TOKEN`.
pub record BootstrapConfig : Type 0 where
  pub enabled : Bool
  pub token : Option Text

pub record BootstrapDto : Type 0 where
  pub bootstrap_token : Text
  pub tenant_name : Text
  pub tenant_slug : Text
  pub name : Text
  pub email : Text
  pub password : Text

abbrev pub or_empty : Option Text → Text
or_empty none = []
or_empty (some s) = s

abbrev pub is_initialized : Db → Bool
is_initialized db = elim db.users [ [] ↦ false | u ∷ us ↦ true ]

abbrev pub first_tenant : Crypto → ℕ → BootstrapDto → Tenant
first_tenant c id dto = record {
  id = id;
  name = trim dto.tenant_name;
  slug = c.lower (trim dto.tenant_slug);
  active = true;
}

abbrev pub first_user : Crypto → ℕ → ℕ → BootstrapDto → User
first_user c id tenant_id dto = record {
  id = id;
  tenant_id = tenant_id;
  name = trim dto.name;
  email = c.lower (trim dto.email);
  password_hash = c.hash_password dto.password;
  role = owner;
  active = true;
  last_login_at = none;
}

abbrev pub check_bootstrap : BootstrapConfig → Db → BootstrapDto → Result (Unit {0})
check_bootstrap config db dto =
    throw_if (not config.enabled) (unauthorized "Bootstrap is disabled")
    >> (throw_if (not (secret_eq (some dto.bootstrap_token) config.token))
          (unauthorized "Unauthorized")
        >> throw_if (is_initialized db) (bad_request "Platform already initialized"))

-- `bootstrap`; the identifiers of the workspace and of its owner are fresh.
unfoldable pub bootstrap : Crypto → BootstrapConfig → ℕ → ℕ → Db → BootstrapDto → Result Db
unfolding trim secret_eq
bootstrap c config tenant_id user_id db dto =
    check_bootstrap config db dto
    >> ok (record db {
      tenants = first_tenant c tenant_id dto ∷ db.tenants;
      users = first_user c user_id tenant_id dto ∷ db.users;
    })

-- `bootstrapStatus`: whether there is a user, and whether the first one can be created.
abbrev pub bootstrap_status : BootstrapConfig → Db → Bool × Bool
bootstrap_status config db =
    let is_enabled = config.enabled && not (is_empty (or_empty config.token)) in
    (is_initialized db, is_enabled && not (is_initialized db))

no_users : (us : List User) → elim us [ [] ↦ false | u ∷ rest ↦ true ] ≡ false → us ≡ []
no_users [] h = refl
no_users (u ∷ us) h = cc

refused :
    (a b : Result (Unit {0})) (e : Error) (rest : Result Db) {x : Db}
    → (a >> (b >> err e) >> rest) ≢ ok x
refused (err e') b e rest {x} h = cc
refused (ok u) (err e') e rest {x} h = cc
refused (ok u) (ok v) e rest {x} h = cc

never_both : (b : Bool) → (b && false) ≡ false
never_both true = refl
never_both false = refl

is_on_of : (b : Bool) → not b ≡ false → b ≡ true
is_on_of true h = refl
is_on_of false h = cc

-- A bootstrap that succeeds was enabled and given the configured token, and there was no user; after
-- it the status says that the platform is initialized and that no bootstrap is available, under any
-- configuration, and no further one succeeds.
pub bootstrap-once :
    (c : Crypto) (config later : BootstrapConfig) (t u t' u' : ℕ) (db db' db'' : Db)
    (dto dto' : BootstrapDto)
    → bootstrap c config t u db dto ≡ ok db'
    → (config.enabled ≡ true)
      × (secret_eq (some dto.bootstrap_token) config.token ≡ true)
      × (db.users ≡ [])
      × (bootstrap_status later db' ≡ (true, false))
      × (bootstrap c later t' u' db' dto' ≢ ok db'')
unfolding bootstrap
bootstrap-once c config later t u t' u' db db' db'' dto dto' h =
    let off = not config.enabled in
    let wrong = not (secret_eq (some dto.bootstrap_token) config.token) in
    let (_, checked, stored) = >>=-eq-ok (check_bootstrap config db dto) _ h in
    let (_, is_on, checked₁) = >>=-eq-ok (throw_if off _) _ checked in
    let (_, is_right, is_new) = >>=-eq-ok (throw_if wrong _) _ checked₁ in
    let (status, closed) =
      subst
        (λ d.
          (bootstrap_status later d ≡ (true, false)) × (bootstrap c later t' u' d dto' ≢ ok db''))
        (ok-injective stored)
        (ap (λ b. (true, b)) (never_both _), refused (throw_if (not later.enabled) _) _ _ _) in
    (
      is_on_of config.enabled (throw_if-eq-ok off _ is_on),
      is_on_of _ (throw_if-eq-ok wrong _ is_right),
      no_users db.users (throw_if-eq-ok (is_initialized db) _ is_new),
      status,
      closed,
    )
