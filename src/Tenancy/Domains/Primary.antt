-- ===== src/Tenancy/Domains/Primary.antt =====
-- A workspace has at most one primary domain, and loses it when that domain is verified again.
use klyvero.Common.{
  ℕ, ◌≤◌, ◌<◌, ◌≡◌, inl, inr, refl, sym, subst, ap, arith, Bool, true, false, ◌&&◌, ◌==◌, ==_iff,
  List, [], ◌∷◌, Option, none, some, Bool-cases, find_first, find_first-holds, update_many,
  update_many-All, count_where, All, All-map, Text, Result, ok, err, count_where-update-le,
  count_where-update_mono, count_where-update_same, All_of_count_zero, count_where-pos_of_found,
}
use klyvero.Tenancy.{failed, TenantDomain, Db, AuthUser}
use klyvero.Tenancy.Hierarchy.{assert_tenant}
use klyvero.Tenancy.Domains.{
  primary_of, set_domain, has_token, accepted, after_check, judge, judge_found, verify_domain,
}

abbrev pub has_domain_id : ℕ → TenantDomain → Bool
has_domain_id i d = d.id == i

abbrev pub IsFresh : ℕ → List TenantDomain → Type 0
IsFresh n ds = All (λ d. d.id < n) ds

-- Identifiers are unique and below the next one, and each workspace has at most one primary domain.
pub record HasOnePrimary (db : Db) : Type 0 where
  pub unique : (i : ℕ) → count_where (has_domain_id i) db.domains ≤ 1
  pub fresh : IsFresh db.next_id db.domains
  pub one : (t : ℕ) → count_where (primary_of t) db.domains ≤ 1

-- A row that is found by identifier and workspace is the only one with that identifier.
module _ (i t : ℕ) (p : TenantDomain → Bool)
    (strong : (d : TenantDomain) → p d ≡ true → (d.id == i && d.tenant_id == t) ≡ true) where
  pub rows_of_found :
      (ds : List TenantDomain) {d : TenantDomain}
      → find_first p ds ≡ some d
      → count_where (has_domain_id i) ds ≤ 1
      → All (λ d. (d.id == i) ≡ true → d.tenant_id ≡ t) ds
  unfolding find_first count_where
  rows_of_found [] {d} h k = tt
  rows_of_found (x ∷ ds) {d} h k = elim (Bool-cases (x.id == i)) [
    | inl same ↦ elim (Bool-cases (x.tenant_id == t)) [
      | inl mine ↦
          let alone = All_of_count_zero (has_domain_id i) ds (ground arith) in
          (
            (λ _. (==_iff x.tenant_id t).0 mine),
            All-map (λ d. has_domain_id i d ≡ false) (λ d. (d.id == i) ≡ true → d.tenant_id ≡ t) ds
                (λ d no' yes'. cc) alone,
          )
      | inr theirs ↦
          let later : find_first p ds ≡ some d = ground (arith, strong x) in
          let more =
            count_where-pos_of_found p (has_domain_id i) ds {a = d}
              (λ y e. let both = strong y e in ground arith) later in
          absurd (ground arith)
    ]
    | inr other ↦ ((λ e. cc), rows_of_found ds {d = d} (ground (arith, strong x)) (ground arith))
  ]

module _ (i t : ℕ) (b : Bool) (stored : TenantDomain → TenantDomain)
    (keeps : (d : TenantDomain) → (stored d).tenant_id ≡ d.tenant_id)
    (sets : (d : TenantDomain) → (stored d).is_primary ≡ b) (ds : List TenantDomain) where
  -- Storing the flag for the row of one identifier, when the workspace has no primary domain then.
  pub stored-one :
      count_where (has_domain_id i) ds ≤ 1
      → All (λ d. (d.id == i) ≡ true → d.tenant_id ≡ t) ds
      → (b ≡ true → count_where (primary_of t) ds ≡ 0)
      → ((u : ℕ) → count_where (primary_of u) ds ≤ 1)
      → (u : ℕ) → count_where (primary_of u) (update_many (has_domain_id i) stored ds) ≤ 1
  stored-one k rows none_yet one u = elim (Bool-cases (t == u)) [
    | inl same ↦ elim (Bool-cases b) [
      | inl on ↦
          let e : t ≡ u = (==_iff t u).0 same in
          let nothing : count_where (primary_of u) ds ≡ 0 =
            subst (λ v. count_where (primary_of v) ds ≡ 0) e (none_yet on) in
          let most = count_where-update-le (primary_of u) (has_domain_id i) stored ds in omega arith
      | inr off ↦
          let most = count_where-update_mono (primary_of u) (has_domain_id i) stored ds (
            All-map (λ d. (d.id == i) ≡ true → d.tenant_id ≡ t) _ ds
              (λ d r hit now. let flag = sets d in ground arith) rows) in
          let before = one u in omega arith
    ]
    | inr other ↦
        let most = count_where-update_mono (primary_of u) (has_domain_id i) stored ds (
          All-map (λ d. (d.id == i) ≡ true → d.tenant_id ≡ t) _ ds
            (λ d r hit now. let mine = r hit in let own = keeps d in absurd (ground arith)) rows) in
        let before = one u in omega arith
  ]

-- A change that keeps the identifiers keeps them unique.
module _ (p : TenantDomain → Bool) (f : TenantDomain → TenantDomain)
    (same_id : (d : TenantDomain) → (f d).id ≡ d.id) where
  pub unique-kept :
      (ds : List TenantDomain)
      → ((i : ℕ) → count_where (has_domain_id i) ds ≤ 1)
      → (i : ℕ) → count_where (has_domain_id i) (update_many p f ds) ≤ 1
  unique-kept ds k i =
      let same =
        count_where-update_same (has_domain_id i) p f ds (λ d. ap (λ j. j == i) (same_id d)) in
      let before = k i in omega arith

  pub IsFresh-kept :
      (n : ℕ) (ds : List TenantDomain) → IsFresh n ds → IsFresh n (update_many p f ds)
  IsFresh-kept n ds h =
      update_many-All (λ d. d.id < n) p f ds (λ d lt _. subst (λ j. j < n) (sym (same_id d)) lt) h

-- A failed verification keeps the flags.
fail-HasOnePrimary :
    (db : Db) (i : ℕ)
    → HasOnePrimary db
    → HasOnePrimary (set_domain i (λ d. record d { status = failed }) db)
fail-HasOnePrimary db i v = record {
  unique =
      unique-kept (has_domain_id i) (λ d. record d { status = failed }) (λ d. refl) db.domains
        v.unique;
  fresh =
      IsFresh-kept (has_domain_id i) (λ d. record d { status = failed }) (λ d. refl) db.next_id
        db.domains v.fresh;
  one = λ t.
      let same =
        count_where-update_same (primary_of t) (has_domain_id i) (λ d. record d { status = failed })
          db.domains (λ d. refl) in
      let before = v.one t in omega arith;
}

-- A successful verification sets the flag where the workspace has no primary domain.
accept-HasOnePrimary :
    (now : ℕ) (db : Db) (t i : ℕ)
    → HasOnePrimary db
    → All (λ d. (d.id == i) ≡ true → d.tenant_id ≡ t) db.domains
    → HasOnePrimary (set_domain i (accepted now (count_where (primary_of t) db.domains == 0)) db)
accept-HasOnePrimary now db t i v rows =
    let b = count_where (primary_of t) db.domains == 0 in
    record {
      unique = unique-kept (has_domain_id i) (accepted now b) (λ d. refl) db.domains v.unique;
      fresh =
          IsFresh-kept (has_domain_id i) (accepted now b) (λ d. refl) db.next_id db.domains v.fresh;
      one =
          stored-one i t b (accepted now b) (λ d. refl) (λ d. refl) db.domains (v.unique i) rows
            (λ e. (==_iff (count_where (primary_of t) db.domains) 0).0 e) v.one;
    }

judge-HasOnePrimary :
    (now : ℕ) (records : Option (List (List Text))) (db : Db) (t : ℕ) (d : TenantDomain)
    → HasOnePrimary db
    → All (λ x. (x.id == d.id) ≡ true → x.tenant_id ≡ t) db.domains
    → HasOnePrimary (judge now records db t d).0
unfolding judge
judge-HasOnePrimary now none db t d v rows = fail-HasOnePrimary db d.id v
judge-HasOnePrimary now (some records) db t d v rows = elim (Bool-cases (has_token d records)) [
  | inl good ↦ rw good (accept-HasOnePrimary now db t d.id v rows)
  | inr bad ↦ rw bad (fail-HasOnePrimary db d.id v)
]

judge_found-HasOnePrimary :
    (now : ℕ) (records : Option (List (List Text))) (db : Db) (t i : ℕ) (o : Option TenantDomain)
    → find_first (λ d. d.id == i && d.tenant_id == t) db.domains ≡ o
    → HasOnePrimary db
    → HasOnePrimary (judge_found now records db t o).0
judge_found-HasOnePrimary now records db t i none e v = v
judge_found-HasOnePrimary now records db t i (some d) e v =
    let hit = find_first-holds (λ d. d.id == i && d.tenant_id == t) db.domains e in
    let same : d.id ≡ i = ground arith in
    judge-HasOnePrimary now records db t d v (
      subst (λ j. All (λ x. (x.id == j) ≡ true → x.tenant_id ≡ t) db.domains) (sym same)
        (rows_of_found i t (λ d. d.id == i && d.tenant_id == t) (λ d k. k) db.domains e
          (v.unique i)))

after_check-state :
    (db db' : Db) (o : Option (Result (Unit {0}))) (rest : Db × Result (Unit {0}))
    {r : Result (Unit {0})}
    → after_check db o rest ≡ some (db', r)
    → HasOnePrimary db
    → HasOnePrimary rest.0
    → HasOnePrimary db'
after_check-state db db' none rest {r} h v w = cc
after_check-state db db' (some (err e)) rest {r} h v w =
    let same : db ≡ db' = cc in subst HasOnePrimary same v
after_check-state db db' (some (ok u)) rest {r} h v w =
    let same : rest.0 ≡ db' = cc in subst HasOnePrimary same w

pub verify_domain-HasOnePrimary :
    (now : ℕ) (records : Option (List (List Text))) (db db' : Db) (user : AuthUser) (t i : ℕ)
    {r : Result (Unit {0})}
    → HasOnePrimary db
    → verify_domain now records db user t i ≡ some (db', r)
    → HasOnePrimary db'
unfolding verify_domain
verify_domain-HasOnePrimary now records db db' user t i {r} v h =
    after_check-state db db' (assert_tenant db user t)
      (judge_found now records db t (find_first (λ d. d.id == i && d.tenant_id == t) db.domains)) h
      v
      (judge_found-HasOnePrimary now records db t i
        (find_first (λ d. d.id == i && d.tenant_id == t) db.domains) refl v)
