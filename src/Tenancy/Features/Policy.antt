-- ===== src/Tenancy/Features/Policy.antt =====
-- A switched-off feature is off for the workspace and for every workspace below it.
use klyvero.Common.{
  ℕ, suc, ◌≡◌, inl, inr, refl, sym, ap, ◌∙◌, arith, true, false, not, ◌&&◌, List, [], ◌∷◌, Option,
  none, some, Bool-cases, length, any, select, All, Text, text_eq, text_eq_refl, ok, throw_if,
  throw_if-eq-ok, >>=-eq-ok,
}
use klyvero.Tenancy.{TenantFeature, Db, AuthUser}
use klyvero.Tenancy.Hierarchy.Ancestors.{has_id, IsForest, Above}
use klyvero.Tenancy.Features.{
  is_in, lineage_from, check_feature, checked, feature_guard, lapsed, excludes, plan_features_of,
  subscription_of,
}
use klyvero.Tenancy.Features.Lineage.{row_of, known_row, lineage_self, lineage-Above}

-- Where the hierarchy is a forest: a request that the guard lets through to a feature comes from a
-- workspace for which no row switches it off, neither for the workspace nor for one above it, and
-- whose subscription, where it has one, is active or trialing (or the feature is billing) and has a
-- plan that does not exclude the feature.
pub record IsOpen (db : Db) (user : AuthUser) (key : Text) : Type 0 where
  pub own : All (λ f. f.tenant_id ≡ user.tenant_id → f.key ≡ key → f.enabled ≡ true) db.features
  pub above :
      (i : ℕ)
      → Above db.tenants i user.tenant_id
      → All (λ f. f.tenant_id ≡ i → f.key ≡ key → f.enabled ≡ true) db.features
  pub paid : lapsed key (subscription_of db user.tenant_id) ≡ false
  pub included : excludes key (plan_features_of (subscription_of db user.tenant_id)) ≡ false

some-injective : {A : Type 0} {a b : A} → some a ≡ some b → a ≡ b
some-injective h = cc

-- No row that is found is switched off.
enabled_rows :
    (ids : List ℕ) (key : Text) (i : ℕ) (rows : List TenantFeature)
    → any (λ f. not f.enabled) (select (λ f. is_in ids f.tenant_id && text_eq f.key key) rows)
      ≡ false
    → is_in ids i ≡ true
    → All (λ f. f.tenant_id ≡ i → f.key ≡ key → f.enabled ≡ true) rows
unfolding select
enabled_rows ids key i [] h k = tt
enabled_rows ids key i (f ∷ rows) h k =
    elim (Bool-cases (is_in ids f.tenant_id && text_eq f.key key)) [
      | inl hit ↦ ((λ same named. ground arith), enabled_rows ids key i rows (ground arith) k)
      | inr miss ↦ (
        (λ same named. absurd (missed same named miss)),
        enabled_rows ids key i rows (ground arith) k,
      )
    ]
  where
    missed :
        f.tenant_id ≡ i → f.key ≡ key → (is_in ids f.tenant_id && text_eq f.key key) ≡ false → ⊥
    missed same named miss = let hit = rw (same, named, k, text_eq_refl key) at miss in cc

check_feature-IsOpen :
    (db : Db) (user : AuthUser) (key : Text) (ids : List ℕ)
    → check_feature db user key ids ≡ ok tt
    → is_in ids user.tenant_id ≡ true
    → ((i : ℕ) → Above db.tenants i user.tenant_id → is_in ids i ≡ true)
    → IsOpen db user key
unfolding check_feature
check_feature-IsOpen db user key ids h own above =
    let off =
      any (λ f. not f.enabled)
        (select (λ f. is_in ids f.tenant_id && text_eq f.key key) db.features) in
    let late = lapsed key (subscription_of db user.tenant_id) in
    let without = excludes key (plan_features_of (subscription_of db user.tenant_id)) in
    let (u, first, rest) = >>=-eq-ok (throw_if off _) _ h in
    let (v, second, third) = >>=-eq-ok (throw_if late _) _ rest in
    let switched_on = throw_if-eq-ok off _ first in
    record {
      own = enabled_rows ids key user.tenant_id db.features switched_on own;
      above = λ i a. enabled_rows ids key i db.features switched_on (above i a);
      paid = throw_if-eq-ok late _ second;
      included = throw_if-eq-ok without _ third;
    }

checked-ok :
    (db : Db) (user : AuthUser) (key : Text) (o : Option (List ℕ))
    → checked db user key o ≡ some (ok tt)
    → (ids : List ℕ) × (o ≡ some ids) × (check_feature db user key ids ≡ ok tt)
checked-ok db user key none h = cc
checked-ok db user key (some ids) h = (ids, refl, some-injective h)

-- Where the hierarchy is a forest, a request that the guard lets through to a feature satisfies it.
pub feature_guard-IsOpen :
    (db : Db) (user : AuthUser) (key : Text)
    → IsForest db.tenants
    → has_id user.tenant_id db.tenants ≡ true
    → feature_guard db (some key) (some user) ≡ some (ok tt)
    → IsOpen db user key
unfolding feature_guard
feature_guard-IsOpen db user key f known h =
    let (t, found, same) = known_row db.tenants user.tenant_id known in
    let fuel = suc (suc (length db.tenants)) in
    let (ids, collected, passed) =
      checked-ok db user key (lineage_from fuel db.tenants (row_of db.tenants user.tenant_id) [])
        h in
    let from_row = sym (ap (λ c. lineage_from fuel db.tenants c []) found) ∙ collected in
    check_feature-IsOpen db user key ids passed
      (rw same at (lineage_self db.tenants fuel t [] ids from_row))
      (λ i a. lineage-Above db.tenants fuel i user.tenant_id t [] ids f a found from_row)
