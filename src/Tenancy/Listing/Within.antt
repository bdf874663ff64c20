-- ===== src/Tenancy/Listing/Within.antt =====
-- The listing holds no workspace but the user's own and those below it.
use klyvero.Common.{
  ℕ, zero, suc, ◌≡◌, ◌⊎◌, inl, inr, refl, subst, ap, ◌∙◌, arith, true, ◌==◌, ==_iff, ==_refl, List,
  [], ◌∷◌, Option, none, some, Bool-cases, All, All-zip, select-holds, select, select-All,
  order_by-All,
}
use klyvero.Tenancy.{Tenant}
use klyvero.Tenancy.Hierarchy.{parent_of}
use klyvero.Tenancy.Hierarchy.Ancestors.{
  IsForest, Above, direct, further, parent_of-cons, not_newest,
}
use klyvero.Tenancy.Features.{is_in}
use klyvero.Tenancy.Listing.{is_seen, visit, level, is_level, is_child, list_from}
use klyvero.Tenancy.Listing.Visit.{visit-All, visit-queue-All}
use klyvero.Tenancy.Listing.Ends.{members_seen}

-- The workspace `me`, or one below it.
abbrev pub IsWithin : List Tenant → ℕ → ℕ → Type 0
IsWithin ts me i = (i ≡ me) ⊎ Above ts me i

own_parents : (ts : List Tenant) → IsForest ts → All (λ t. parent_of ts t.id ≡ t.parent) ts
own_parents [] f = tt
own_parents (t ∷ ts) f = (
  parent_of-cons t ts t.id ∙ rw (==_refl t.id) refl,
  All-zip (λ x. is_seen x.id ts ≡ true) (λ x. parent_of ts x.id ≡ x.parent)
      (λ x. parent_of (t ∷ ts) x.id ≡ x.parent) ts
      (λ x known own. parent_of-cons t ts x.id ∙ rw (not_newest t ts x.id f.0 known) own)
      (members_seen ts) (own_parents ts f.2),
)

All-is_in : (P : ℕ → Type 0) (ids : List ℕ) (i : ℕ) → All P ids → is_in ids i ≡ true → P i
All-is_in P [] i h k = cc
All-is_in P (j ∷ ids) i h k = elim (Bool-cases (j == i)) [
  | inl same ↦ subst P ((==_iff j i).0 same) h.0
  | inr other ↦ All-is_in P ids i h.1 (ground arith)
]

module _ (ts : List Tenant) (me : ℕ) where
  child-IsWithin :
      (ids : List ℕ) (o : Option ℕ) (i : ℕ)
      → All (IsWithin ts me) ids
      → parent_of ts i ≡ o
      → is_child ids o ≡ true
      → IsWithin ts me i
  child-IsWithin ids none i h e k = cc
  child-IsWithin ids (some p) i h e k = elim (All-is_in (IsWithin ts me) ids p h k) [
    | inl same ↦ inr (direct (e ∙ ap some same))
    | inr above ↦ inr (further p e above)
  ]

  level-IsWithin :
      (ids : List ℕ)
      → IsForest ts
      → All (IsWithin ts me) ids
      → All (λ t. IsWithin ts me t.id) (level ts ids)
  unfolding level
  level-IsWithin ids f h =
      order_by-All (λ t. IsWithin ts me t.id) (λ t. t.created_at) (select (is_level ids) ts)
        (All-zip (λ t. is_level ids t ≡ true) (λ t. parent_of ts t.id ≡ t.parent)
          (λ t. IsWithin ts me t.id) (select (is_level ids) ts)
          (λ t hit own. elim (Bool-cases (is_in ids t.id)) [
            | inl queued ↦ All-is_in (IsWithin ts me) ids t.id h queued
            | inr below ↦ child-IsWithin ids t.parent t.id h own (ground arith)
          ])
          (select-holds (is_level ids) ts)
          (select-All (λ t. parent_of ts t.id ≡ t.parent) (is_level ids) ts (own_parents ts f)))

  -- Every listed workspace is one of them.
  pub list_from-IsWithin :
      (fuel : ℕ) (ids : List ℕ) (out found : List Tenant)
      → IsForest ts
      → All (IsWithin ts me) ids
      → All (λ t. IsWithin ts me t.id) out
      → list_from fuel ts me ids out ≡ some found
      → All (λ t. IsWithin ts me t.id) found
  unfolding list_from
  list_from-IsWithin zero ids out found f h k e = cc
  list_from-IsWithin (suc fuel) [] out found f h k e =
      let same : out ≡ found = cc in subst (All (λ t. IsWithin ts me t.id)) same k
  list_from-IsWithin (suc fuel) (id ∷ ids) out found f h k e =
      let rows = level-IsWithin (id ∷ ids) f h in
      list_from-IsWithin fuel (visit me (level ts (id ∷ ids)) out []).1
        (visit me (level ts (id ∷ ids)) out []).0 found f
        (visit-queue-All me (IsWithin ts me) (level ts (id ∷ ids)) out [] rows tt)
        (visit-All me (λ t. IsWithin ts me t.id) (level ts (id ∷ ids)) out [] rows k) e
