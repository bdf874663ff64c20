-- ===== src/Tenancy/Examples.antt =====
-- Runs of the guards and of the service of workspaces on a small hierarchy.
use klyvero.Common.{
  ℕ, ◌≡◌, ◌⊎◌, refl, arith, true, false, List, [], ◌∷◌, Option, none, some, Text, units, text_eq,
  find_first, count_where, update_many, select, trim, All, ok, err, Error, if◌then◌else◌, ◌==◌,
}
use klyvero.Tenancy.{
  Tenant, platform, reseller, customer, TenantStatus, owner, admin, TenantDomain, verified, Db,
  AuthUser, jwt,
}
use klyvero.Tenancy.Hierarchy.{parent_of, climb, assert_tenant}
use klyvero.Tenancy.Hierarchy.Ancestors.{has_id, IsForest}
use klyvero.Tenancy.Hierarchy.Decision.{MayActIn, assert_tenant-decides}
use klyvero.Tenancy.Hierarchy.Trace as Growth
use klyvero.Tenancy.Hierarchy.Trace.{IsHierarchy, Reach-IsHierarchy}
use klyvero.Tenancy.Service.{CreateTenant, create, invalid_hierarchy}
use klyvero.Tenancy.Features.{
  feature, feature_guard, lineage_from, ancestors_from, check_feature, upsert_feature,
}
use klyvero.Tenancy.Features.Granting.{IsGranted, feature-IsGranted}
use klyvero.Tenancy.Domains.{primary_of, judge, verify_domain, joined}
use klyvero.Tenancy.Domains.Primary.{HasOnePrimary}
use klyvero.Tenancy.Domains.Trace.{here, next, verifying, Reach-HasOnePrimary}
use klyvero.Tenancy.Domains.Demotion.{verify_domain-demotes}
use klyvero.Tenancy.Guards.{Libraries, Request, authenticate, roles_guard, scope_guard}
use klyvero.Tenancy.Guards.Chain.{Route, guards, IsAdmitted, guards-IsAdmitted}
use klyvero.Tenancy.Listing.{is_seen, list}
use klyvero.Tenancy.Listing.Within.{IsWithin}
use klyvero.Tenancy.Listing.Complete.{list-IsWithin}

abbrev tenant : ℕ → Option ℕ → Tenant
tenant id parent = record {
  id = id;
  parent = parent;
  type = elim parent [ none ↦ platform | some p ↦ if p == 1 then reseller else customer ];
  status = TenantStatus.active;
  name = units "T";
  slug = units "t";
  created_at = id;
}

abbrev hierarchy : List Tenant
hierarchy = tenant 4 (some 3) ∷ tenant 3 (some 1) ∷ tenant 2 (some 1) ∷ tenant 1 none ∷ []

hierarchy-IsForest : IsForest hierarchy
hierarchy-IsForest = (refl, refl, (refl, refl, (refl, refl, (refl, tt, tt))))

abbrev main_domain : TenantDomain
main_domain = record {
  id = 7;
  tenant_id = 3;
  hostname = units "a.com";
  status = verified;
  verification_token = units "x";
  verified_at = some 5;
  is_primary = true;
}

abbrev db : Db
db = record {
  tenants = hierarchy;
  users =
      record {
        id = 9;
        tenant_id = 3;
        name = [];
        email = [];
        password_hash = [];
        role = owner;
        active = true;
      }
      ∷ [];
  features = [];
  domains = main_domain ∷ [];
  api_keys = [];
  subscriptions = [];
  next_id = 10;
}

abbrev reseller_owner : AuthUser
reseller_owner = record { tenant_id = 3; role = owner; auth_type = jwt; scopes = [] }

assert_tenant-decides_example :
    ((assert_tenant db reseller_owner 4 ≡ some (ok tt)) × MayActIn db reseller_owner 4)
    ⊎ ((e : Error) × (assert_tenant db reseller_owner 4 ≡ some (err e))
        × ¬ MayActIn db reseller_owner 4)
assert_tenant-decides_example = assert_tenant-decides db reseller_owner 4 hierarchy-IsForest

abbrev new_customer : CreateTenant
new_customer = record { name = units "C"; slug = units "c"; type = customer; parent = none }

abbrev grown : Db
grown = record db {
  tenants =
      record {
        id = 10;
        parent = some 3;
        type = customer;
        status = TenantStatus.active;
        name = units "C";
        slug = units "c";
        created_at = 99;
      }
      ∷ hierarchy;
  next_id = 11;
}

Reach-IsHierarchy_example : IsHierarchy grown
unfolding create assert_tenant find_first invalid_hierarchy trim
Reach-IsHierarchy_example =
    Reach-IsHierarchy {db = db} {db' = grown}
      (record { forest = hierarchy-IsForest; fresh = omega arith })
      (Growth.next Growth.here (Growth.creating (λ s. s) 99 reseller_owner new_customer refl))

feature-IsGranted_example :
    IsGranted db
      (record db { features = record { tenant_id = 4; key = units "crm"; enabled = true } ∷ [] })
      reseller_owner
      4
      (units "crm")
      true
unfolding feature assert_tenant climb find_first text_eq ancestors_from parent_of upsert_feature
feature-IsGranted_example =
    feature-IsGranted db
      (record db { features = record { tenant_id = 4; key = units "crm"; enabled = true } ∷ [] })
      reseller_owner 4 (units "crm") true hierarchy-IsForest refl

abbrev answers : List (List Text)
answers = (units "klyvero-" ∷ units "verification=x" ∷ []) ∷ []

one_primary : HasOnePrimary db
unfolding count_where
one_primary = record { unique = λ i. ground arith; fresh = omega arith; one = λ t. ground arith }

abbrev verified_again : Db
verified_again = record db {
  domains = record main_domain { verified_at = some 6; is_primary = false } ∷ [];
}

Reach-HasOnePrimary_example : HasOnePrimary verified_again
unfolding verify_domain judge assert_tenant find_first joined text_eq count_where update_many
Reach-HasOnePrimary_example =
    Reach-HasOnePrimary {db = db} {db' = verified_again} one_primary
      (next here (verifying 6 (some answers) reseller_owner 3 7 (ok tt) refl))

verify_domain-demotes_example :
    (db' : Db) × (verify_domain 6 (some answers) db reseller_owner 3 7 ≡ some (db', ok tt))
    × (count_where (primary_of 3) db'.domains ≡ 0)
unfolding assert_tenant climb find_first joined text_eq
verify_domain-demotes_example =
    verify_domain-demotes 6 answers db reseller_owner 3 7 main_domain one_primary refl refl refl
      refl

abbrev libraries : Libraries
libraries = record {
  verify = λ s. some (record { sub = 9; token_type = units "access" });
  hash = λ s. s;
}

abbrev crm_route : Route
crm_route = record { is_public = false; roles = owner ∷ admin ∷ []; feature = some (units "crm") }

abbrev request : Request
request = record { authorization = some (units "Bearer abc"); x_api_key = none }

guards-IsAdmitted_example : IsAdmitted libraries 50 db crm_route request reseller_owner
unfolding guards authenticate roles_guard scope_guard feature_guard lineage_from check_feature
    find_first select text_eq
guards-IsAdmitted_example =
    guards-IsAdmitted libraries 50 db crm_route request reseller_owner hierarchy-IsForest refl

list-IsWithin_example :
    (found : List Tenant) × (list db reseller_owner ≡ some found)
    × All (λ t. IsWithin hierarchy 3 t.id) found
    × ((i : ℕ) → has_id i hierarchy ≡ true → IsWithin hierarchy 3 i → is_seen i found ≡ true)
list-IsWithin_example = list-IsWithin db reseller_owner hierarchy-IsForest
