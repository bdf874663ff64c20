-- ===== src/Tenancy/Domains.antt =====
-- The domains of a workspace, in apps/api/src/modules/tenants/tenants.service.ts. `lower` is
-- `toLowerCase`; the verification token and the answer of the name server are arguments.
pub mod Primary
pub mod Trace
pub mod Demotion
pub mod Race
use klyvero.Common.{
  ℕ, ◌+◌, Bool, true, false, not, ◌&&◌, ◌==◌, List, [], ◌∷◌, ◌++◌, Option, none, some, map, any,
  find_first, update_many, count_where, if◌then◌else◌, is_some, Text, units, text_eq, trim, Result,
  ok, err, ◌>>=◌, ◌>>◌, throw_if, or_throw, not_found, bad_request, conflict,
}
use klyvero.Security.Network.{without_last}
use klyvero.Tenancy.{DomainStatus, pending, verified, failed, TenantDomain, Db, AuthUser}
use klyvero.Tenancy.Hierarchy.{assert_tenant, after}

abbrev pub is_verified : DomainStatus → Bool
is_verified verified = true
is_verified pending = false
is_verified failed = false

abbrev pub host_of : (Text → Text) → Text → Text
host_of lower name = without_last b'.' (lower (trim name))

unfoldable pub create_domain : (Text → Text) → Text → Db → AuthUser → ℕ → Text → Option (Result Db)
create_domain lower token db user tenant_id name =
    let hostname = host_of lower name in
    after (assert_tenant db user tenant_id) (
      throw_if (is_some (find_first (λ d. text_eq d.hostname hostname) db.domains))
        (conflict "Domain already registered")
      >> ok (record db {
        domains =
            record {
              id = db.next_id;
              tenant_id = tenant_id;
              hostname = hostname;
              status = pending;
              verification_token = token;
              verified_at = none;
              is_primary = false;
            }
            ∷ db.domains;
        next_id = db.next_id + 1;
      }))

-- `parts.join('')`
unfoldable pub joined : List Text → Text
joined [] = []
joined (x ∷ xs) = x ++ joined xs

abbrev pub has_token : TenantDomain → List (List Text) → Bool
has_token d records =
    any (λ r. text_eq r (units "klyvero-verification=" ++ d.verification_token))
      (map joined records)

abbrev pub set_domain : ℕ → (TenantDomain → TenantDomain) → Db → Db
set_domain id f db = record db { domains = update_many (λ d. d.id == id) f db.domains }

abbrev pub primary_of : ℕ → TenantDomain → Bool
primary_of tenant_id d = d.tenant_id == tenant_id && d.is_primary

abbrev pub accepted : ℕ → Bool → TenantDomain → TenantDomain
accepted now primary d = record d {
  status = verified;
  verified_at = some now;
  is_primary = primary;
}

-- The last two statements of a verification, which no transaction joins: whether the workspace has no
-- primary domain, and what is stored for the domain with that answer.
abbrev pub has_no_primary : ℕ → Db → Bool
has_no_primary tenant_id db = count_where (primary_of tenant_id) db.domains == 0

abbrev pub store_verified : ℕ → ℕ → Bool → Db → Db
store_verified now id is_first db = set_domain id (accepted now is_first) db

-- The end of `verifyDomain`, where nothing comes between its statements: what the name server answered decides the status that is stored.
unfoldable pub judge :
    ℕ → Option (List (List Text)) → Db → ℕ → TenantDomain → Db × Result (Unit {0})
judge now none db tenant_id domain = (
  set_domain domain.id (λ d. record d { status = failed }) db,
  err (bad_request "TXT record not found"),
)
judge now (some records) db tenant_id domain =
    if not (has_token domain records)
    then (
      set_domain domain.id (λ d. record d { status = failed }) db,
      err (bad_request "DNS verification token does not match"),
    )
    else (store_verified now domain.id (has_no_primary tenant_id db) db, ok tt)

abbrev pub judge_found :
    ℕ → Option (List (List Text)) → Db → ℕ → Option TenantDomain → Db × Result (Unit {0})
judge_found now records db tenant_id none = (db, err (not_found "Domain not found"))
judge_found now records db tenant_id (some domain) = judge now records db tenant_id domain

-- A call that stores something also where it throws returns the new state with its answer.
abbrev pub after_check :
    Db → Option (Result (Unit {0})) → Db × Result (Unit {0}) → Option (Db × Result (Unit {0}))
after_check db none rest = none
after_check db (some (err e)) rest = some (db, err e)
after_check db (some (ok u)) rest = some rest

unfoldable pub verify_domain :
    ℕ → Option (List (List Text)) → Db → AuthUser → ℕ → ℕ → Option (Db × Result (Unit {0}))
verify_domain now records db user tenant_id domain_id =
    after_check db (assert_tenant db user tenant_id) (
      judge_found now records db tenant_id
        (find_first (λ d. d.id == domain_id && d.tenant_id == tenant_id) db.domains))

unfoldable pub set_primary_domain : Db → AuthUser → ℕ → ℕ → Option (Result Db)
set_primary_domain db user tenant_id domain_id = after (assert_tenant db user tenant_id) (
    or_throw
      (find_first (λ d. d.id == domain_id && d.tenant_id == tenant_id && is_verified d.status)
        db.domains)
      (bad_request "Verified domain not found")
    >>= λ domain. ok (
        set_domain domain_id (λ d. record d { is_primary = true })
          (record db {
            domains =
                update_many (λ d. d.tenant_id == tenant_id) (λ d. record d { is_primary = false })
                  db.domains;
          })))
