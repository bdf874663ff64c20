-- ===== src/Tenancy/Features/Ends.antt =====
-- The loops over the parents end where the hierarchy is a forest.
use klyvero.Common.{
  ℕ, zero, suc, ◌+◌, ◌≤◌, ◌≡◌, refl, ap, ◌∙◌, inl, inr, arith, true, false, ◌==◌, ==_iff, List, [],
  ◌∷◌, some, Option-cases, Bool-cases, length,
}
use klyvero.Tenancy.{Tenant}
use klyvero.Tenancy.Hierarchy.{parent_of, climb}
use klyvero.Tenancy.Hierarchy.Ancestors.{
  has_id, IsForest, Above, direct, further, parent_of-known, climb-total, climb_sound, climb_up,
}
use klyvero.Tenancy.Features.{lineage_from, ancestors_from}
use klyvero.Tenancy.Features.Lineage.{row_of, lineage_up, lineage_top}

-- An identifier that no workspace has.
abbrev unused : List Tenant → ℕ
unused [] = 0
unused (t ∷ ts) = suc (t.id + unused ts)

has_id-lt : (ts : List Tenant) (i : ℕ) → has_id i ts ≡ true → suc i ≤ unused ts
has_id-lt [] i h = cc
has_id-lt (t ∷ ts) i h = elim (Bool-cases (t.id == i)) [
  | inl same ↦ let e = (==_iff t.id i).0 same in omega arith
  | inr other ↦ let later = has_id-lt ts i (ground arith) in omega arith
]

Above-known : {ts : List Tenant} {me id : ℕ} → IsForest ts → Above ts me id → has_id me ts ≡ true
Above-known {ts} {id} f (direct e) = parent_of-known ts id f e
Above-known f (further p e a) = Above-known f a

-- The climb towards such an identifier reaches the top.
pub climb_to_top :
    (ts : List Tenant) (id : ℕ)
    → IsForest ts
    → climb (suc (length ts)) ts (unused ts) id ≡ some false
climb_to_top ts id f =
    let (found, ends) = climb-total (suc (length ts)) ts (unused ts) id f (omega arith) in
    elim (Bool-cases found) [
      | inl met ↦
          let above = climb_sound (suc (length ts)) ts (unused ts) id (ends ∙ ap some met) in
          let known = has_id-lt ts (unused ts) (Above-known f above) in absurd (omega arith)
      | inr top ↦ ends ∙ ap some top
    ]

-- The next round of a climb that reaches the top.
climb_rest :
    (fuel : ℕ) (ts : List Tenant) (me id p : ℕ)
    → parent_of ts id ≡ some p
    → climb (suc fuel) ts me id ≡ some false
    → climb fuel ts me p ≡ some false
climb_rest fuel ts me id p e h = ground (arith, climb_up fuel ts me id p e)

ancestors_up :
    (fuel : ℕ) (ts : List Tenant) (p : ℕ) {out : List ℕ}
    → ancestors_from fuel ts (parent_of ts p) ≡ some out
    → ancestors_from (suc fuel) ts (some p) ≡ some (p ∷ out)
unfolding ancestors_from
ancestors_up fuel ts p e = rw (e, ancestors_from) refl

pub ancestors-ends :
    (fuel : ℕ) (ts : List Tenant) (me id : ℕ)
    → climb fuel ts me id ≡ some false
    → (out : List ℕ) × (ancestors_from fuel ts (parent_of ts id) ≡ some out)
ancestors-ends zero ts me id h = unfold climb in cc
ancestors-ends (suc fuel) ts me id h = elim (Option-cases (parent_of ts id)) [
  | inl top ↦ ([], unfold ancestors_from in rw top refl)
  | inr (p, e) ↦
      let (out, rest) = ancestors-ends fuel ts me p (climb_rest fuel ts me id p e h) in
      (p ∷ out, ap (ancestors_from (suc fuel) ts) e ∙ ancestors_up fuel ts p rest)
]

pub lineage-ends :
    (fuel : ℕ) (ts : List Tenant) (me id : ℕ) (ids : List ℕ)
    → climb fuel ts me id ≡ some false
    → (out : List ℕ) × (lineage_from (suc fuel) ts (row_of ts id) ids ≡ some out)
lineage-ends zero ts me id ids h = unfold climb in cc
lineage-ends (suc fuel) ts me id ids h = elim (Option-cases (row_of ts id)) [
  | inl missing ↦ (ids, unfold lineage_from in rw missing refl)
  | inr (t, found) ↦ elim (Option-cases t.parent) [
    | inl top ↦ (
      t.id ∷ ids,
      ap (λ c. lineage_from (suc (suc fuel)) ts c ids) found ∙ lineage_top ts (suc fuel) t ids top,
    )
    | inr (p, e) ↦
        let up : parent_of ts id ≡ some p = unfold parent_of in rw (found, parent_of) e in
        let (out, rest) =
          lineage-ends fuel ts me p (t.id ∷ ids) (climb_rest fuel ts me id p up h) in
        (
          out,
          ap (λ c. lineage_from (suc (suc fuel)) ts c ids) found
              ∙ lineage_up ts (suc fuel) t p ids e
              ∙ rest,
        )
  ]
]
