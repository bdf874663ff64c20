-- ===== src/Tenancy/Hierarchy/Decision.antt =====
-- The check of access decides the relation that it stands for.
use klyvero.Common.{
  ℕ, suc, ◌≡◌, ◌≢◌, ◌⊎◌, inl, inr, refl, sym, ap, ◌∙◌, arith, Bool, true, false, not, ◌&&◌, ◌==◌,
  ==_iff, some, Bool-cases, length, ok, err, Error, forbidden,
}
use klyvero.Tenancy.{
  Db, AuthUser, UserRole, owner, admin, manager, sdr, member, viewer, is_owner, is_admin,
}
use klyvero.Tenancy.Hierarchy.{assert_tenant}
use klyvero.Tenancy.Hierarchy.Ancestors.{
  IsForest, Above, climb-total, climb_sound, climb_complete, true_ne_false,
}

abbrev pub IsManager : UserRole → Type 0
IsManager r = (r ≡ owner) ⊎ (r ≡ admin)

not_manager : {r : UserRole} → IsManager r → r ≢ owner → r ≢ admin → ⊥
not_manager (inl e) o a = o e
not_manager (inr e) o a = a e

outside : {A : Type 0} (me target : ℕ) → (me == target) ≡ false → ¬ A → ¬ ((me ≡ target) ⊎ A)
outside me target other no_other (inl same) =
    true_ne_false (sym ((==_iff me target).1 same) ∙ other)
outside me target other no_other (inr a) = no_other a

abbrev pub MayActIn : Db → AuthUser → ℕ → Type 0
MayActIn db user target =
    (user.tenant_id ≡ target) ⊎ (IsManager user.role × Above db.tenants user.tenant_id target)

abbrev is_refused : UserRole → Bool
is_refused r = not (is_owner r) && not (is_admin r)

IsManager-cases :
    (r : UserRole)
    → (IsManager r × (is_refused r ≡ false)) ⊎ (¬ IsManager r × (is_refused r ≡ true))
IsManager-cases owner = inl (inl refl, refl)
IsManager-cases admin = inl (inr refl, refl)
IsManager-cases manager = inr ((λ h. not_manager h (λ e. cc) (λ e. cc)), refl)
IsManager-cases sdr = inr ((λ h. not_manager h (λ e. cc) (λ e. cc)), refl)
IsManager-cases member = inr ((λ h. not_manager h (λ e. cc) (λ e. cc)), refl)
IsManager-cases viewer = inr ((λ h. not_manager h (λ e. cc) (λ e. cc)), refl)

-- Where the hierarchy is a forest, the check of access always ends. It lets a user into a workspace
-- exactly when that is the user's own, or the user is an OWNER or ADMIN of a workspace above it.
pub assert_tenant-decides :
    (db : Db) (user : AuthUser) (target : ℕ)
    → IsForest db.tenants
    → ((assert_tenant db user target ≡ some (ok tt)) × MayActIn db user target)
      ⊎ ((e : Error) × (assert_tenant db user target ≡ some (err e)) × ¬ MayActIn db user target)
unfolding assert_tenant
assert_tenant-decides db user target f = elim (Bool-cases (user.tenant_id == target)) [
  | inl own ↦ inl (rw own refl, inl ((==_iff user.tenant_id target).0 own))
  | inr other ↦ elim (IsManager-cases user.role) [
    | inr (low, e) ↦
        inr (forbidden "", rw (other, e) refl, outside user.tenant_id target other (λ a. low a.0))
    | inl (high, e) ↦
        let (found, ends) =
          climb-total (suc (length db.tenants)) db.tenants user.tenant_id target f (omega arith) in
        elim (Bool-cases found) [
          | inl yes' ↦ inl (
            rw (other, e, ends, yes') refl,
            inr (
              high,
              climb_sound (suc (length db.tenants)) db.tenants user.tenant_id target
                  (ends ∙ ap some yes'),
            ),
          )
          | inr no' ↦ inr (
            forbidden "Tenant outside your hierarchy",
            rw (other, e, ends, no') refl,
            outside user.tenant_id target other (λ a.
                climb_complete (suc (length db.tenants)) db.tenants user.tenant_id target
                  (ends ∙ ap some no') a.1),
          )
        ]
  ]
]
