-- ===== src/Tenancy/Listing/Complete.antt =====
-- The listing is the workspace of the user and all the workspaces below it.
use klyvero.Common.{
  ℕ, zero, suc, ◌≡◌, ◌⊎◌, inl, inr, refl, sym, subst, ap, ◌∙◌, arith, true, false, ◌==◌, ==_refl,
  List, [], ◌∷◌, some, Bool-cases, length, find_first-mem, All, All-zip, All-mem, All-select,
  All-order_by, select, order_by,
}
use klyvero.Tenancy.{Tenant, Db, AuthUser}
use klyvero.Tenancy.Hierarchy.{parent_of}
use klyvero.Tenancy.Hierarchy.Ancestors.{has_id, IsForest, Above, direct, further, parent_of-known}
use klyvero.Tenancy.Features.{is_in}
use klyvero.Tenancy.Features.Lineage.{known_row, parent_row}
use klyvero.Tenancy.Listing.{is_seen, visit, level, is_level, is_child, list_from, list}
use klyvero.Tenancy.Listing.Visit.{visit-keeps, visit-lists, visit-new}
use klyvero.Tenancy.Listing.Ends.{list-ends}
use klyvero.Tenancy.Listing.Within.{IsWithin, list_from-IsWithin}

module _ (ts : List Tenant) (me : ℕ) where
  -- The workspaces that still have to be listed lie on the frontier or right below it.
  abbrev IsCovered : List ℕ → List Tenant → Tenant → Type 0
  IsCovered ids out t =
      ((me == t.id) ≡ true → (is_seen t.id out ≡ true) ⊎ (is_in ids t.id ≡ true))
      × ((p : ℕ)
          → t.parent ≡ some p
          → ((me == p) ≡ true) ⊎ (is_seen p out ≡ true)
          → (is_seen t.id out ≡ true) ⊎ (is_in ids p ≡ true))

  -- The rows of a level are listed.
  level_listed :
      (ids : List ℕ) (out : List Tenant)
      → All (λ t. is_level ids t ≡ true → is_seen t.id (visit me (level ts ids) out []).0 ≡ true) ts
  unfolding level
  level_listed ids out =
      All-select (λ t. is_seen t.id (visit me (level ts ids) out []).0 ≡ true) (is_level ids) ts
        (All-order_by (λ t. is_seen t.id (visit me (level ts ids) out []).0 ≡ true)
          (λ t. t.created_at) (select (is_level ids) ts)
          (visit-lists me (order_by (λ t. t.created_at) (select (is_level ids) ts)) out []))

  by_parent :
      (ids : List ℕ) (out : List Tenant) (t : Tenant) (p : ℕ)
      → t.parent ≡ some p
      → (is_seen t.id out ≡ true) ⊎ (is_in ids p ≡ true)
      → (is_seen t.id out ≡ true) ⊎ (is_level ids t ≡ true)
  by_parent ids out t p e (inl seen) = inl seen
  by_parent ids out t p e (inr queued) =
      let child : is_child ids t.parent ≡ true = ap (is_child ids) e ∙ queued in inr (ground arith)

  seen_of :
      (o : List Tenant) (p : ℕ)
      → (me == p) ≡ false
      → ((me == p) ≡ true) ⊎ (is_seen p o ≡ true)
      → is_seen p o ≡ true
  seen_of o p other (inl mine) = cc
  seen_of o p other (inr seen) = seen

  module _ (ids : List ℕ) (out : List Tenant) where
    abbrev out' : List Tenant
    out' = (visit me (level ts ids) out []).0

    abbrev ids' : List ℕ
    ids' = (visit me (level ts ids) out []).1

    -- A workspace that was seen, or that the level holds, is seen after it.
    seen_after :
        (t : Tenant)
        → (is_level ids t ≡ true → is_seen t.id out' ≡ true)
        → (is_seen t.id out ≡ true) ⊎ (is_level ids t ≡ true)
        → is_seen t.id out' ≡ true
    seen_after t listed (inl seen) = visit-keeps me (level ts ids) out [] t.id seen
    seen_after t listed (inr hit) = listed hit

    row-IsCovered :
        (t : Tenant)
        → IsCovered ids out t
        → (is_level ids t ≡ true → is_seen t.id out' ≡ true)
        → IsCovered ids' out' t
    row-IsCovered t (own, below) listed = (
      (λ mine. inl (
          seen_after t listed
            (elim (own mine) [ inl seen ↦ inl seen | inr hit ↦ inr (ground arith) ]))),
      (λ p e reached. elim (Bool-cases (me == p)) [
        | inl mine ↦ inl (seen_after t listed (by_parent ids out t p e (below p e (inl mine))))
        | inr other ↦
            elim (visit-new me (level ts ids) out [] p (seen_of out' p other reached) other) [
              | inl old ↦ inl (seen_after t listed (by_parent ids out t p e (below p e (inr old))))
              | inr queued ↦ inr queued
            ]
      ]),
    )

  level-IsCovered :
      (ids : List ℕ) (out : List Tenant)
      → All (IsCovered ids out) ts
      → All (IsCovered (visit me (level ts ids) out []).1 (visit me (level ts ids) out []).0) ts
  level-IsCovered ids out h =
      All-zip (IsCovered ids out) (λ t. is_level ids t ≡ true → is_seen t.id (out' ids out) ≡ true)
        (IsCovered (ids' ids out) (out' ids out)) ts (row-IsCovered ids out) h
        (level_listed ids out)

  list_from-IsCovered :
      (fuel : ℕ) (ids : List ℕ) (out found : List Tenant)
      → All (IsCovered ids out) ts
      → list_from fuel ts me ids out ≡ some found
      → All (IsCovered [] found) ts
  unfolding list_from
  list_from-IsCovered zero ids out found h e = cc
  list_from-IsCovered (suc fuel) [] out found h e =
      let same : out ≡ found = cc in subst (λ o. All (IsCovered [] o) ts) same h
  list_from-IsCovered (suc fuel) (id ∷ ids) out found h e =
      list_from-IsCovered fuel (ids' (id ∷ ids) out) (out' (id ∷ ids) out) found
        (level-IsCovered (id ∷ ids) out h) e

  -- At the end nothing is left below a listed workspace.
  row_listed :
      (found : List Tenant) (p id : ℕ)
      → All (IsCovered [] found) ts
      → parent_of ts id ≡ some p
      → ((me == p) ≡ true) ⊎ (is_seen p found ≡ true)
      → has_id id ts ≡ true
      → is_seen id found ≡ true
  row_listed found p id h e reached known =
      let (t, row, same) = known_row ts id known in
      let (t', row', up) = parent_row ts id e in
      let up' : t.parent ≡ some p = ground arith in
      let covered = All-mem (IsCovered [] found) ts h (find_first-mem (λ x. x.id == id) ts row) in
      elim (covered.1 p up' reached) [
        | inl seen ↦ subst (λ i. is_seen i found ≡ true) same seen
        | inr queued ↦ cc
      ]

  Above-listed :
      (found : List Tenant) (id : ℕ)
      → IsForest ts
      → All (IsCovered [] found) ts
      → Above ts me id
      → has_id id ts ≡ true
      → is_seen id found ≡ true
  Above-listed found id f h (direct e) known = row_listed found me id h e (inl (==_refl me)) known
  Above-listed found id f h (further p e a) known =
      row_listed found p id h e (inr (Above-listed found p f h a (parent_of-known ts id f e))) known

  me_listed :
      (found : List Tenant)
      → All (IsCovered [] found) ts
      → has_id me ts ≡ true
      → is_seen me found ≡ true
  me_listed found h known =
      let (t, row, same) = known_row ts me known in
      let covered = All-mem (IsCovered [] found) ts h (find_first-mem (λ x. x.id == me) ts row) in
      elim (covered.0 (ground arith)) [
        | inl seen ↦ subst (λ i. is_seen i found ≡ true) same seen
        | inr queued ↦ cc
      ]

  start-IsCovered : (rows : List Tenant) → All (IsCovered (me ∷ []) []) rows
  start-IsCovered [] = tt
  start-IsCovered (t ∷ rows) = (
    (
      (λ mine. inr (ground arith)),
      (λ p e reached. elim reached [ inl mine ↦ inr (ground arith) | inr seen ↦ cc ]),
    ),
    start-IsCovered rows,
  )

-- Where the hierarchy is a forest, the listing ends with exactly the user's workspace and those
-- below it: the workspaces with such an identifier are in the list, and no others.
pub list-IsWithin :
    (db : Db) (user : AuthUser)
    → IsForest db.tenants
    → (found : List Tenant) × (list db user ≡ some found)
      × All (λ t. IsWithin db.tenants user.tenant_id t.id) found
      × ((i : ℕ)
          → has_id i db.tenants ≡ true
          → IsWithin db.tenants user.tenant_id i
          → is_seen i found ≡ true)
unfolding list
list-IsWithin db user f =
    let me = user.tenant_id in
    let (found, ends) = list-ends db user in
    let closed =
      list_from-IsCovered db.tenants me (suc (suc (length db.tenants))) (me ∷ []) [] found
        (start-IsCovered db.tenants me db.tenants) ends in
    (
      found,
      ends,
      list_from-IsWithin db.tenants me (suc (suc (length db.tenants))) (me ∷ []) [] found f
          (inl refl, tt) tt ends,
      (λ i known within. elim within [
        | inl same ↦
            subst (λ j. is_seen j found ≡ true) (sym same)
              (me_listed db.tenants me found closed
                (subst (λ j. has_id j db.tenants ≡ true) same known))
        | inr above ↦ Above-listed db.tenants me found i f closed above known
      ]),
    )
