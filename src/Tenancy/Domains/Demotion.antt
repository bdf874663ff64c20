-- ===== src/Tenancy/Domains/Demotion.antt =====
-- What a second verification does to a primary domain.
use klyvero.Common.{
  ℕ, ◌+◌, ◌≤◌, ◌≡◌, refl, sym, subst, arith, inl, inr, true, false, ◌&&◌, ◌==◌, List, [], ◌∷◌, some,
  Bool-cases, find_first, find_first-holds, update_many, count_where, All, Text, ok,
  count_where-update_mono,
}
use klyvero.Tenancy.{TenantDomain, Db, AuthUser}
use klyvero.Tenancy.Hierarchy.{assert_tenant}
use klyvero.Tenancy.Domains.{primary_of, set_domain, has_token, accepted, judge, verify_domain}
use klyvero.Tenancy.Domains.Primary.{HasOnePrimary, has_domain_id}

-- Storing a false flag adds no primary domain.
off_mono :
    (now i t : ℕ) (ds : List TenantDomain)
    → All
        (λ d.
          has_domain_id i d ≡ true
          → primary_of t (accepted now false d) ≡ true
          → primary_of t d ≡ true)
        ds
off_mono now i t [] = tt
off_mono now i t (d ∷ ds) = ((λ _ h. ground arith), off_mono now i t ds)

off-lt :
    (now i t : ℕ) (ds : List TenantDomain) {d : TenantDomain}
    → find_first (λ x. x.id == i && x.tenant_id == t) ds ≡ some d
    → d.is_primary ≡ true
    → count_where (primary_of t) (update_many (has_domain_id i) (accepted now false) ds) + 1
      ≤ count_where (primary_of t) ds
unfolding find_first count_where update_many
off-lt now i t [] {d} h on = cc
off-lt now i t (x ∷ ds) {d} h on =
    let fewer =
      count_where-update_mono (primary_of t) (has_domain_id i) (accepted now false) ds
        (off_mono now i t ds) in
    elim (Bool-cases (x.id == i && x.tenant_id == t)) [
      | inl hit ↦
          let same : x ≡ d = ground arith in
          let flag : x.is_primary ≡ true = rw same on in ground arith
      | inr miss ↦ let rec = off-lt now i t ds {d = d} (ground arith) on in ground arith
    ]

-- When the primary domain of a workspace is verified again and the name server still answers with its
-- token, the call succeeds and leaves the workspace without a primary domain.
pub verify_domain-demotes :
    (now : ℕ) (records : List (List Text)) (db : Db) (user : AuthUser) (t i : ℕ) (d : TenantDomain)
    → HasOnePrimary db
    → assert_tenant db user t ≡ some (ok tt)
    → find_first (λ x. x.id == i && x.tenant_id == t) db.domains ≡ some d
    → d.is_primary ≡ true
    → has_token d records ≡ true
    → (db' : Db) × (verify_domain now (some records) db user t i ≡ some (db', ok tt))
      × (count_where (primary_of t) db'.domains ≡ 0)
unfolding verify_domain judge
verify_domain-demotes now records db user t i d v allowed found on good =
    let hit = find_first-holds (λ x. x.id == i && x.tenant_id == t) db.domains found in
    let same : d.id ≡ i = ground arith in
    let most = v.one t in
    let fewer = off-lt now i t db.domains found on in
    let taken : (count_where (primary_of t) db.domains == 0) ≡ false = ground arith in
    (
      set_domain d.id (accepted now false) db,
      rw (allowed, found, good, taken) refl,
      subst
          (λ j.
            count_where (primary_of t)
              (update_many (has_domain_id j) (accepted now false) db.domains)
            ≡ 0)
          (sym same) (omega arith),
    )
