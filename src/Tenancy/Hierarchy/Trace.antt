-- ===== src/Tenancy/Hierarchy/Trace.antt =====
-- Creating and changing workspaces keeps the hierarchy a forest.
use klyvero.Common.{
  ℕ, ◌<◌, ◌≡◌, refl, subst, ◌∙◌, arith, inl, inr, Bool, true, false, ◌==◌, List, [], ◌∷◌, Option,
  none, some, Bool-cases, find_first, update_many, update_many-All, All, All-map, Text, Result, ok,
  err, throw_if, or_throw, or_throw-eq-ok, ok-injective, >>=-eq-ok,
}
use klyvero.Tenancy.{Tenant, Db, AuthUser}
use klyvero.Tenancy.Hierarchy.{assert_tenant, after}
use klyvero.Tenancy.Hierarchy.Ancestors.{has_id, IsKnown, IsForest}
use klyvero.Tenancy.Service.{
  CreateTenant, UpdateTenant, parent_for, invalid_hierarchy, create, updated, update,
}

-- A forest whose identifiers lie below the next one.
pub record IsHierarchy (db : Db) : Type 0 where
  pub forest : IsForest db.tenants
  pub fresh : All (λ t. t.id < db.next_id) db.tenants

pub after-result :
    {A : Type 0} (o : Option (Result (Unit {0}))) (rest : Result A) {a : A}
    → after o rest ≡ some (ok a)
    → rest ≡ ok a
after-result none rest {a} h = cc
after-result (some (err e)) rest {a} h = cc
after-result (some (ok u)) rest {a} h = cc

unused_id : (n : ℕ) (ts : List Tenant) → All (λ t. t.id < n) ts → has_id n ts ≡ false
unused_id n [] h = refl
unused_id n (t ∷ ts) h = let rest = unused_id n ts h.1 in let lt = h.0 in ground arith

found_id :
    (ts : List Tenant) (id : ℕ) {t : Tenant}
    → find_first (λ x. x.id == id) ts ≡ some t
    → has_id id ts ≡ true
unfolding find_first
found_id [] id {t} e = cc
found_id (x ∷ ts) id {t} e = ground (arith, found_id ts id {t = t})

create-IsHierarchy :
    (lower : Text → Text) (now : ℕ) (db db' : Db) (user : AuthUser) (dto : CreateTenant)
    → IsHierarchy db
    → create lower now db user dto ≡ some (ok db')
    → IsHierarchy db'
unfolding create
create-IsHierarchy lower now db db' user dto v h =
    let id = parent_for user dto in
    let looked = find_first (λ t. t.id == id) db.tenants in
    let (parent, found, rest) =
      >>=-eq-ok (or_throw looked _) _ (after-result (assert_tenant db user id) _ h) in
    let (u, fits, last) = >>=-eq-ok (throw_if (invalid_hierarchy dto.type parent.type) _) _ rest in
    subst IsHierarchy (ok-injective last) (record {
      forest = (
        unused_id db.next_id db.tenants v.fresh,
        found_id db.tenants id (or_throw-eq-ok looked _ found),
        v.forest,
      );
      fresh = (
        omega arith,
        All-map (λ t. t.id < db.next_id) _ db.tenants (λ t lt. omega arith) v.fresh,
      );
    })

has_id-update :
    (p : Tenant → Bool) (dto : UpdateTenant) (i : ℕ) (ts : List Tenant)
    → has_id i (update_many p (updated dto) ts) ≡ has_id i ts
unfolding update_many
has_id-update p dto i [] = refl
has_id-update p dto i (t ∷ ts) = ground (arith, has_id-update p dto i ts)

IsKnown-update :
    (p : Tenant → Bool) (dto : UpdateTenant) (o : Option ℕ) (ts : List Tenant)
    → IsKnown o ts
    → IsKnown o (update_many p (updated dto) ts)
IsKnown-update p dto none ts k = tt
IsKnown-update p dto (some i) ts k = has_id-update p dto i ts ∙ k

IsForest-update :
    (p : Tenant → Bool) (dto : UpdateTenant) (ts : List Tenant)
    → IsForest ts
    → IsForest (update_many p (updated dto) ts)
unfolding update_many
IsForest-update p dto [] f = tt
IsForest-update p dto (t ∷ ts) f =
    let same = has_id-update p dto t.id ts ∙ f.0 in
    let known = IsKnown-update p dto t.parent ts f.1 in
    elim (Bool-cases (p t)) [
      | inl hit ↦ rw hit (same, known, IsForest-update p dto ts f.2)
      | inr miss ↦ rw miss (same, known, IsForest-update p dto ts f.2)
    ]

update-IsHierarchy :
    (db db' : Db) (user : AuthUser) (id : ℕ) (dto : UpdateTenant)
    → IsHierarchy db
    → update db user id dto ≡ some (ok db')
    → IsHierarchy db'
unfolding update
update-IsHierarchy db db' user id dto v h =
    subst IsHierarchy (ok-injective (after-result (assert_tenant db user id) _ h)) (record {
      forest = IsForest-update (λ t. t.id == id) dto db.tenants v.forest;
      fresh =
          update_many-All (λ t. t.id < db.next_id) (λ t. t.id == id) (updated dto) db.tenants
            (λ t lt _. lt) v.fresh;
    })

pub data Step : Db → Db → Type 0 where
  creating :
      {db db' : Db} (lower : Text → Text) (now : ℕ) (user : AuthUser) (dto : CreateTenant)
      → create lower now db user dto ≡ some (ok db')
      → Step db db'
  updating :
      {db db' : Db} (user : AuthUser) (id : ℕ) (dto : UpdateTenant)
      → update db user id dto ≡ some (ok db')
      → Step db db'

pub data Reach (db : Db) : Db → Type 0 where
  here : Reach db db
  next : {d d' : Db} → Reach db d → Step d d' → Reach db d'

Step-IsHierarchy : {db db' : Db} → Step db db' → IsHierarchy db → IsHierarchy db'
Step-IsHierarchy {db} {db'} (creating lower now user dto h) v =
    create-IsHierarchy lower now db db' user dto v h
Step-IsHierarchy {db} {db'} (updating user id dto h) v = update-IsHierarchy db db' user id dto v h

-- Whatever workspaces are created and changed, by whatever users, the hierarchy stays a forest:
-- every workspace has an identifier of its own and lies below one that was created before it.
pub Reach-IsHierarchy : {db db' : Db} → IsHierarchy db → Reach db db' → IsHierarchy db'
Reach-IsHierarchy v here = v
Reach-IsHierarchy v (next r s) = Step-IsHierarchy s (Reach-IsHierarchy v r)
