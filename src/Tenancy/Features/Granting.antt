-- ===== src/Tenancy/Features/Granting.antt =====
-- Who switches a feature of a workspace, and what stops a feature from being switched on.
use klyvero.Common.{
  ℕ, zero, suc, ◌≡◌, inl, inr, refl, sym, subst, ap, ◌∙◌, arith, Bool, true, false, not, ◌&&◌, ◌==◌,
  List, [], ◌∷◌, Option, none, some, length, any, find_first, find_first-none, ◌≤◌, select,
  count_where, is_some, All, Text, text_eq, text_eq_refl, Result, ok, err, throw_if, throw_if-eq-ok,
  >>=-eq-ok, or_throw, or_throw-eq-ok, ok-injective,
}
use klyvero.Tenancy.{Tenant, TenantFeature, Db, AuthUser}
use klyvero.Tenancy.Service.{is_platform}
use klyvero.Tenancy.Hierarchy.{parent_of, assert_tenant, after}
use klyvero.Tenancy.Hierarchy.Ancestors.{IsForest, Above, direct, further}
use klyvero.Tenancy.Hierarchy.Decision.{MayActIn, assert_tenant-decides}
use klyvero.Tenancy.Features.{
  feature_keys, is_in, blocks, excludes, plan_features_of, subscription_of, ancestors_from, grant,
  grant_below, check_grant, check_target, granted, feature, is_row, upsert_feature,
}
use klyvero.Tenancy.Features.Storing.{upsert_feature-holds}
use klyvero.Tenancy.Features.Lineage.{row_of}

ancestors_rest :
    (o : Option (List ℕ)) (p : ℕ) (out : List ℕ)
    → elim o [ none ↦ none | some above ↦ some (p ∷ above) ] ≡ some out
    → (rest : List ℕ) × (o ≡ some rest) × (p ∷ rest ≡ out)
ancestors_rest none p out h = cc
ancestors_rest (some rest) p out h = (rest, refl, cc)

-- One round of the loop.
ancestors_down :
    (fuel : ℕ) (ts : List Tenant) (p : ℕ) (out : List ℕ)
    → ancestors_from (suc fuel) ts (some p) ≡ some out
    → (rest : List ℕ) × (ancestors_from fuel ts (parent_of ts p) ≡ some rest) × (p ∷ rest ≡ out)
unfolding ancestors_from
ancestors_down fuel ts p out h = ancestors_rest (ancestors_from fuel ts (parent_of ts p)) p out h

-- The loop collects every workspace above.
ancestors-Above :
    (fuel : ℕ) (ts : List Tenant) (me id : ℕ) (out : List ℕ)
    → Above ts me id
    → ancestors_from fuel ts (parent_of ts id) ≡ some out
    → is_in out me ≡ true
ancestors-Above zero ts me id out a h = unfold ancestors_from in cc
ancestors-Above (suc fuel) ts me id out (direct e) h =
    let (rest, ends, same) =
      ancestors_down fuel ts me out (sym (ap (ancestors_from (suc fuel) ts) e) ∙ h) in
    ground arith
ancestors-Above (suc fuel) ts me id out (further p e a) h =
    let (rest, ends, same) =
      ancestors_down fuel ts p out (sym (ap (ancestors_from (suc fuel) ts) e) ∙ h) in
    let above = ancestors-Above fuel ts me p rest a ends in ground arith

-- What a call that switches a feature has been checked for.
pub record IsGranted (db db' : Db) (user : AuthUser) (id : ℕ) (key : Text) (enabled : Bool)
    : Type 0 where
  pub allowed : MayActIn db user id
  pub target : Tenant
  pub exists : row_of db.tenants id ≡ some target
  pub no_self_service : id ≡ user.tenant_id → is_platform target.type ≡ true
  pub not_blocked :
      enabled ≡ true
      → (i : ℕ) → Above db.tenants i id
      → All (λ f. f.tenant_id ≡ i → f.key ≡ key → f.enabled ≡ true) db.features
  pub included : enabled ≡ true → excludes key (plan_features_of (subscription_of db id)) ≡ false
  pub stored :
      (1 ≤ count_where (is_row id key) db'.features)
      × All (λ f. is_row id key f ≡ true → f.enabled ≡ enabled) db'.features
  pub others :
      select (λ f. not (is_row id key f)) db'.features
      ≡ select (λ f. not (is_row id key f)) db.features
  pub rest : db' ≡ record db { features = db'.features }

-- No row of a workspace above switches the feature off.
unblocked :
    (ids : List ℕ) (key : Text) (i : ℕ) (rows : List TenantFeature)
    → All (λ f. blocks ids key f ≡ false) rows
    → is_in ids i ≡ true
    → All (λ f. f.tenant_id ≡ i → f.key ≡ key → f.enabled ≡ true) rows
unblocked ids key i [] h k = tt
unblocked ids key i (f ∷ rows) h k = (
  (λ same named. let on = rw (same, named, k, text_eq_refl key) at h.0 in ground arith),
  unblocked ids key i rows h.1 k,
)

none_found : {A : Type 0} (o : Option A) → is_some o ≡ false → o ≡ none
none_found none h = refl
none_found (some a) h = cc

grant-ok :
    (db : Db) (id : ℕ) (key : Text) (ids : List ℕ)
    → grant db id key ids ≡ ok tt
    → All (λ f. blocks ids key f ≡ false) db.features
      × (excludes key (plan_features_of (subscription_of db id)) ≡ false)
grant-ok db id key ids h =
    let blocked = is_some (find_first (blocks ids key) db.features) in
    let without = excludes key (plan_features_of (subscription_of db id)) in
    let (u, first, rest) = >>=-eq-ok (throw_if blocked _) _ h in
    (
      find_first-none (blocks ids key) db.features
          (none_found (find_first (blocks ids key) db.features) (throw_if-eq-ok blocked _ first)),
      throw_if-eq-ok without _ rest,
    )

platform_of :
    (id me : ℕ) (t : Tenant)
    → id ≡ me
    → (id == me && not (is_platform t.type)) ≡ false
    → is_platform t.type ≡ true
platform_of id me t own h = ground arith

check_target-ok :
    (db : Db) (user : AuthUser) (id : ℕ) (key : Text) {t : Tenant}
    → check_target db user id key ≡ ok t
    → (row_of db.tenants id ≡ some t) × (id ≡ user.tenant_id → is_platform t.type ≡ true)
check_target-ok db user id key {t} h =
    let (u, known, rest) =
      >>=-eq-ok (throw_if (not (any (λ k. text_eq k key) feature_keys)) _) _ h in
    let (target, found, more) = >>=-eq-ok (or_throw (row_of db.tenants id) _) _ rest in
    let (v, fits, same) =
      >>=-eq-ok (throw_if (id == user.tenant_id && not (is_platform target.type)) _) _ more in
    let allowed = throw_if-eq-ok (id == user.tenant_id && not (is_platform target.type)) _ fits in
    let this : target ≡ t = ok-injective same in
    (
      or_throw-eq-ok (row_of db.tenants id) _ found ∙ ap some this,
      λ own.
          subst (λ x. is_platform x.type ≡ true) this
            (platform_of id user.tenant_id target own allowed),
    )

after-ok :
    {A : Type 0} (o : Option (Result (Unit {0}))) (rest : Result A) {a : A}
    → after o rest ≡ some (ok a)
    → (o ≡ some (ok tt)) × (rest ≡ ok a)
after-ok none rest h = cc
after-ok (some (err e)) rest h = cc
after-ok (some (ok u)) rest h = (refl, cc)

granted-ok :
    (db db' : Db) (id : ℕ) (key : Text) (enabled : Bool) (r : Result Tenant)
    → granted db id key enabled r ≡ some (ok db')
    → (t : Tenant) × (r ≡ ok t)
      × (check_grant db id key enabled t ≡ some (ok tt))
      × (record db { features = upsert_feature id key enabled db.features } ≡ db')
granted-ok db db' id key enabled (err e) h = cc
granted-ok db db' id key enabled (ok t) h =
    let (passed, answer) = after-ok (check_grant db id key enabled t) _ h in
    (t, refl, passed, ok-injective answer)

grant_below-ok :
    (db : Db) (id : ℕ) (key : Text) (o : Option (List ℕ))
    → grant_below db id key o ≡ some (ok tt)
    → (above : List ℕ) × (o ≡ some above) × (grant db id key above ≡ ok tt)
grant_below-ok db id key none h = cc
grant_below-ok db id key (some above) h = (above, refl, cc)

-- The grant itself, from the row of the workspace.
check_grant-ok :
    (db : Db) (id : ℕ) (key : Text) (t : Tenant)
    → check_grant db id key true t ≡ some (ok tt)
    → (above : List ℕ) × (ancestors_from (suc (suc (length db.tenants))) db.tenants t.parent
        ≡ some above)
      × (grant db id key above ≡ ok tt)
check_grant-ok db id key t h =
    grant_below-ok db id key (ancestors_from (suc (suc (length db.tenants))) db.tenants t.parent) h

parent_of-row :
    (ts : List Tenant) (id : ℕ) {t : Tenant} → row_of ts id ≡ some t → parent_of ts id ≡ t.parent
unfolding parent_of
parent_of-row ts id e = rw (e, parent_of) refl

feature-passed :
    (db db' : Db) (id : ℕ) (key : Text) (enabled : Bool) (o : Option (Result (Unit {0})))
    (r : Result Tenant)
    → elim o [
      | none ↦ none
      | some (err e) ↦ some (err e)
      | some (ok u) ↦ granted db id key enabled r
    ]
      ≡ some (ok db')
    → (o ≡ some (ok tt)) × (granted db id key enabled r ≡ some (ok db'))
feature-passed db db' id key enabled none r h = cc
feature-passed db db' id key enabled (some (err e)) r h = cc
feature-passed db db' id key enabled (some (ok u)) r h = (refl, h)

enabled-IsGranted :
    (db : Db) (id : ℕ) (key : Text) (enabled : Bool) (t : Tenant)
    → row_of db.tenants id ≡ some t
    → check_grant db id key enabled t ≡ some (ok tt)
    → enabled ≡ true
    → ((i : ℕ)
        → Above db.tenants i id
        → All (λ f. f.tenant_id ≡ i → f.key ≡ key → f.enabled ≡ true) db.features)
      × (excludes key (plan_features_of (subscription_of db id)) ≡ false)
enabled-IsGranted db id key false t found h on = cc
enabled-IsGranted db id key true t found h on =
    let (above, ends, granted') = check_grant-ok db id key t h in
    let (free, included) = grant-ok db id key above granted' in
    let from_id =
      ap (ancestors_from (suc (suc (length db.tenants))) db.tenants)
        (parent_of-row db.tenants id found)
      ∙ ends in
    (
      (λ i a.
          unblocked above key i db.features free
            (ancestors-Above (suc (suc (length db.tenants))) db.tenants i id above a from_id)),
      included,
    )

allowed-ok :
    (db : Db) (user : AuthUser) (id : ℕ)
    → IsForest db.tenants
    → assert_tenant db user id ≡ some (ok tt)
    → MayActIn db user id
allowed-ok db user id f h = elim (assert_tenant-decides db user id f) [
  | inl (let_in, may) ↦ may
  | inr (e, refused, outside) ↦ cc
]

-- Where the hierarchy is a forest, a call that switches a feature satisfies this: the user may act in
-- the workspace, which exists; nobody switches features of their own workspace but in a platform; and
-- a feature is switched on only where no workspace above has it off and no plan of the workspace
-- excludes it. Afterwards the workspace has a row of the feature, every such row has the given state,
-- and all other features and tables are as they were.
pub feature-IsGranted :
    (db db' : Db) (user : AuthUser) (id : ℕ) (key : Text) (enabled : Bool)
    → IsForest db.tenants
    → feature db user id key enabled ≡ some (ok db')
    → IsGranted db db' user id key enabled
unfolding feature
feature-IsGranted db db' user id key enabled f h =
    let (let_in, rest) =
      feature-passed db db' id key enabled (assert_tenant db user id) (check_target db user id key)
        h in
    let (t, target_ok, granted', same) =
      granted-ok db db' id key enabled (check_target db user id key) rest in
    let (found, own) = check_target-ok db user id key target_ok in
    let on = enabled-IsGranted db id key enabled t found granted' in
    let (one, all, kept) = upsert_feature-holds id key enabled db.features in
    record {
      allowed = allowed-ok db user id f let_in;
      target = t;
      exists = found;
      no_self_service = own;
      not_blocked = λ e. (on e).0;
      included = λ e. (on e).1;
      stored =
          subst
            (λ d.
              (1 ≤ count_where (is_row id key) d.features)
              × All (λ f. is_row id key f ≡ true → f.enabled ≡ enabled) d.features)
            same (one, all);
      others =
          subst
            (λ d.
              select (λ f. not (is_row id key f)) d.features
              ≡ select (λ f. not (is_row id key f)) db.features)
            same kept;
      rest = subst (λ d. d ≡ record db { features = d.features }) same refl;
    }
