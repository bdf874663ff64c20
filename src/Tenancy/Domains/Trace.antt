-- ===== src/Tenancy/Domains/Trace.antt =====
-- Sequences of operations on domains, each of which ends before the next begins.
use klyvero.Common.{
  ℕ, ◌+◌, ◌<◌, ◌≡◌, inl, inr, refl, subst, arith, Bool, true, false, ◌&&◌, ◌==◌, ==_iff, List, [],
  ◌∷◌, Option, none, some, Bool-cases, find_first, update_many, update_many-All, count_where,
  is_some, All, All-map, Text, text_eq, Result, ok, err, throw_if, or_throw, or_throw-eq-ok,
  ok-injective, >>=-eq-ok, count_where-update_mono, count_zero_of_All,
}
use klyvero.Tenancy.{pending, TenantDomain, Db, AuthUser}
use klyvero.Tenancy.Hierarchy.{assert_tenant, after}
use klyvero.Tenancy.Domains.{
  host_of, primary_of, verify_domain, set_primary_domain, create_domain, is_verified,
}
use klyvero.Tenancy.Domains.Primary.{
  HasOnePrimary, has_domain_id, IsFresh, rows_of_found, stored-one, unique-kept, IsFresh-kept,
  verify_domain-HasOnePrimary,
}

after-result :
    {A : Type 0} (o : Option (Result (Unit {0}))) (rest : Result A) {a : A}
    → after o rest ≡ some (ok a)
    → rest ≡ ok a
after-result none rest {a} h = cc
after-result (some (err e)) rest {a} h = cc
after-result (some (ok u)) rest {a} h = cc

no_such_id : (n : ℕ) (ds : List TenantDomain) → IsFresh n ds → count_where (has_domain_id n) ds ≡ 0
no_such_id n ds h =
    count_zero_of_All (has_domain_id n) ds (All-map (λ d. d.id < n) _ ds (λ d lt. ground arith) h)

weaken : (n : ℕ) (ds : List TenantDomain) → IsFresh n ds → IsFresh (n + 1) ds
weaken n ds h = All-map (λ d. d.id < n) _ ds (λ d lt. omega arith) h

-- A new domain is not a primary one.
add-HasOnePrimary :
    (db : Db) (d : TenantDomain)
    → d.id ≡ db.next_id
    → d.is_primary ≡ false
    → HasOnePrimary db
    → HasOnePrimary (record db { domains = d ∷ db.domains; next_id = db.next_id + 1 })
unfolding count_where
add-HasOnePrimary db d new off v = record {
  unique = λ i. elim (Bool-cases (db.next_id == i)) [
    | inl same ↦
        let e = (==_iff db.next_id i).0 same in
        let none_yet =
          subst (λ j. count_where (has_domain_id j) db.domains ≡ 0) e
            (no_such_id db.next_id db.domains v.fresh) in
        ground arith
    | inr other ↦ let before = v.unique i in ground arith
  ];
  fresh = (omega arith, weaken db.next_id db.domains v.fresh);
  one = λ t. let before = v.one t in ground arith;
}

create_domain-HasOnePrimary :
    (lower : Text → Text) (token : Text) (db db' : Db) (user : AuthUser) (t : ℕ) (name : Text)
    → HasOnePrimary db
    → create_domain lower token db user t name ≡ some (ok db')
    → HasOnePrimary db'
unfolding create_domain
create_domain-HasOnePrimary lower token db db' user t name v h =
    let taken = is_some (find_first (λ d. text_eq d.hostname (host_of lower name)) db.domains) in
    let (u, free, rest) =
      >>=-eq-ok (throw_if taken _) _ (after-result (assert_tenant db user t) _ h) in
    subst HasOnePrimary (ok-injective rest) (
      add-HasOnePrimary db
        (record {
          id = db.next_id;
          tenant_id = t;
          hostname = host_of lower name;
          status = pending;
          verification_token = token;
          verified_at = none;
          is_primary = false;
        })
        refl refl v)

abbrev cleared : TenantDomain → TenantDomain
cleared d = record d { is_primary = false }

abbrev chosen : TenantDomain → TenantDomain
chosen d = record d { is_primary = true }

abbrev in_tenant : ℕ → TenantDomain → Bool
in_tenant t d = d.tenant_id == t

cleared-none :
    (t : ℕ) (ds : List TenantDomain)
    → count_where (primary_of t) (update_many (in_tenant t) cleared ds) ≡ 0
unfolding count_where update_many
cleared-none t [] = refl
cleared-none t (d ∷ ds) = ground (arith, cleared-none t ds)

not_cleared :
    (u t : ℕ) (ds : List TenantDomain)
    → All (λ d. in_tenant t d ≡ true → primary_of u (cleared d) ≡ true → primary_of u d ≡ true) ds
not_cleared u t [] = tt
not_cleared u t (d ∷ ds) = ((λ _ h. ground arith), not_cleared u t ds)

set_primary_domain-HasOnePrimary :
    (db db' : Db) (user : AuthUser) (t i : ℕ)
    → HasOnePrimary db
    → set_primary_domain db user t i ≡ some (ok db')
    → HasOnePrimary db'
unfolding set_primary_domain
set_primary_domain-HasOnePrimary db db' user t i v h =
    let looked =
      find_first (λ d. d.id == i && d.tenant_id == t && is_verified d.status) db.domains in
    let (d, found, rest) =
      >>=-eq-ok (or_throw looked _) _ (after-result (assert_tenant db user t) _ h) in
    let ds = update_many (in_tenant t) cleared db.domains in
    let unique' = unique-kept (in_tenant t) cleared (λ d. refl) db.domains v.unique in
    let rows =
      rows_of_found i t (λ d. d.id == i && d.tenant_id == t && is_verified d.status)
        (λ d k. ground arith) db.domains (or_throw-eq-ok looked _ found) (v.unique i) in
    subst HasOnePrimary (ok-injective rest) (record {
      unique = unique-kept (has_domain_id i) chosen (λ d. refl) ds unique';
      fresh =
          IsFresh-kept (has_domain_id i) chosen (λ d. refl) db.next_id ds
            (IsFresh-kept (in_tenant t) cleared (λ d. refl) db.next_id db.domains v.fresh);
      one =
          stored-one i t true chosen (λ d. refl) (λ d. refl) ds (unique' i)
            (update_many-All (λ d. (d.id == i) ≡ true → d.tenant_id ≡ t) (in_tenant t) cleared
              db.domains (λ d k _. k) rows)
            (λ _. cleared-none t db.domains)
            (λ u.
              let fewer =
                count_where-update_mono (primary_of u) (in_tenant t) cleared db.domains
                  (not_cleared u t db.domains) in
              let before = v.one u in omega arith);
    })

pub data Step : Db → Db → Type 0 where
  creating :
      {db db' : Db} (lower : Text → Text) (token : Text) (user : AuthUser) (t : ℕ) (name : Text)
      → create_domain lower token db user t name ≡ some (ok db')
      → Step db db'
  verifying :
      {db db' : Db} (now : ℕ) (records : Option (List (List Text))) (user : AuthUser) (t i : ℕ)
      (r : Result (Unit {0}))
      → verify_domain now records db user t i ≡ some (db', r)
      → Step db db'
  choosing :
      {db db' : Db} (user : AuthUser) (t i : ℕ)
      → set_primary_domain db user t i ≡ some (ok db')
      → Step db db'

pub data Reach (db : Db) : Db → Type 0 where
  here : Reach db db
  next : {d d' : Db} → Reach db d → Step d d' → Reach db d'

Step-HasOnePrimary : {db db' : Db} → Step db db' → HasOnePrimary db → HasOnePrimary db'
Step-HasOnePrimary {db} {db'} (creating lower token user t name h) v =
    create_domain-HasOnePrimary lower token db db' user t name v h
Step-HasOnePrimary {db} {db'} (verifying now records user t i r h) v =
    verify_domain-HasOnePrimary now records db db' user t i v h
Step-HasOnePrimary {db} {db'} (choosing user t i h) v =
    set_primary_domain-HasOnePrimary db db' user t i v h

-- Whatever domains are created, verified (successfully or not) and made primary, by whatever users, in
-- requests that run one after the other, each workspace keeps at most one primary domain, and the
-- identifiers of domains stay unique.
pub Reach-HasOnePrimary : {db db' : Db} → HasOnePrimary db → Reach db db' → HasOnePrimary db'
Reach-HasOnePrimary v here = v
Reach-HasOnePrimary v (next r s) = Step-HasOnePrimary s (Reach-HasOnePrimary v r)
