-- ===== src/Tenancy/Features/Lineage.antt =====
-- The workspaces that the loop of the guard collects: the user's own and all above it.
use klyvero.Common.{
  ℕ, zero, suc, ◌≡◌, ◌⊎◌, inl, inr, refl, sym, ap, ◌∙◌, arith, true, ◌==◌, ==_iff, List, [], ◌∷◌,
  Option, none, some, Option-cases, Bool-cases, find_first,
}
use klyvero.Tenancy.{Tenant}
use klyvero.Tenancy.Hierarchy.{parent_of}
use klyvero.Tenancy.Hierarchy.Ancestors.{has_id, IsForest, Above, direct, further, parent_of-known}
use klyvero.Tenancy.Features.{is_in, lineage_from}

abbrev pub row_of : List Tenant → ℕ → Option Tenant
row_of ts id = find_first (λ t. t.id == id) ts

pub known_row :
    (ts : List Tenant) (id : ℕ)
    → has_id id ts ≡ true
    → (t : Tenant) × (row_of ts id ≡ some t) × (t.id ≡ id)
unfolding find_first
known_row [] id h = cc
known_row (t ∷ ts) id h = elim (Bool-cases (t.id == id)) [
  | inl same ↦ (t, rw same refl, (==_iff t.id id).0 same)
  | inr other ↦ let (r, e, same) = known_row ts id (ground arith) in (r, rw other e, same)
]

-- The parent, which is the workspace above or lies below it.
Above-step :
    {ts : List Tenant} {me id : ℕ}
    → Above ts me id
    → (p : ℕ) × (parent_of ts id ≡ some p) × ((p ≡ me) ⊎ Above ts me p)
Above-step {me} (direct e) = (me, e, inl refl)
Above-step (further p e a) = (p, e, inr a)

-- The parent that is read from the row.
pub parent_row :
    (ts : List Tenant) (id : ℕ) {p : ℕ}
    → parent_of ts id ≡ some p
    → (t : Tenant) × (row_of ts id ≡ some t) × (t.parent ≡ some p)
unfolding parent_of
parent_row ts id {p} e = elim (Option-cases (row_of ts id)) [
  | inl missing ↦ let wrong = rw (missing, parent_of) at e in cc
  | inr (t, found) ↦ (t, found, rw (found, parent_of) at e)
]

module _ (ts : List Tenant) where
  -- One round of the loop, below another workspace.
  pub lineage_up :
      (fuel : ℕ) (t : Tenant) (p : ℕ) (ids : List ℕ)
      → t.parent ≡ some p
      → lineage_from (suc fuel) ts (some t) ids ≡ lineage_from fuel ts (row_of ts p) (t.id ∷ ids)
  unfolding lineage_from
  lineage_up fuel t p ids e = rw (e, lineage_from) refl

  pub lineage_top :
      (fuel : ℕ) (t : Tenant) (ids : List ℕ)
      → t.parent ≡ none
      → lineage_from (suc fuel) ts (some t) ids ≡ some (t.id ∷ ids)
  unfolding lineage_from
  lineage_top fuel t ids e = rw (e, lineage_from) refl

  -- What the loop has collected stays.
  lineage_keeps :
      (fuel : ℕ) (c : Option Tenant) (ids out : List ℕ) (i : ℕ)
      → lineage_from fuel ts c ids ≡ some out
      → is_in ids i ≡ true
      → is_in out i ≡ true
  lineage_keeps zero c ids out i h k = unfold lineage_from in cc
  lineage_keeps (suc fuel) none ids out i h k =
      let same : some ids ≡ some out = unfold lineage_from in h in ground arith
  lineage_keeps (suc fuel) (some t) ids out i h k = elim (Option-cases t.parent) [
    | inl top ↦
        let same : some (t.id ∷ ids) ≡ some out = sym (lineage_top fuel t ids top) ∙ h in
        ground arith
    | inr (p, e) ↦
        lineage_keeps fuel (row_of ts p) (t.id ∷ ids) out i (sym (lineage_up fuel t p ids e) ∙ h)
          (ground arith)
  ]

  -- It collects the workspace that it starts from.
  pub lineage_self :
      (fuel : ℕ) (t : Tenant) (ids out : List ℕ)
      → lineage_from fuel ts (some t) ids ≡ some out
      → is_in out t.id ≡ true
  lineage_self zero t ids out h = unfold lineage_from in cc
  lineage_self (suc fuel) t ids out h = elim (Option-cases t.parent) [
    | inl top ↦
        let same : some (t.id ∷ ids) ≡ some out = sym (lineage_top fuel t ids top) ∙ h in
        ground arith
    | inr (p, e) ↦
        lineage_keeps fuel (row_of ts p) (t.id ∷ ids) out t.id (sym (lineage_up fuel t p ids e) ∙ h)
          (ground arith)
  ]

  -- And every workspace above it.
  pub lineage-Above :
      (fuel : ℕ) (me id : ℕ) (t : Tenant) (ids out : List ℕ)
      → IsForest ts
      → Above ts me id
      → row_of ts id ≡ some t
      → lineage_from fuel ts (some t) ids ≡ some out
      → is_in out me ≡ true
  lineage-Above zero me id t ids out f a found h = unfold lineage_from in cc
  lineage-Above (suc fuel) me id t ids out f a found h =
      let (p, e, here) = Above-step a in
      let (t', found', up) = parent_row ts id e in
      let up' : t.parent ≡ some p = ground arith in
      let (r, known, same) = known_row ts p (parent_of-known ts id f e) in
      let rest =
        sym (ap (λ c. lineage_from fuel ts c (t.id ∷ ids)) known)
        ∙ sym (lineage_up fuel t p ids up')
        ∙ h in
      elim here [
        | inl met ↦ rw (← met) (rw (same) at (lineage_self fuel r (t.id ∷ ids) out rest))
        | inr later ↦ lineage-Above fuel me p r (t.id ∷ ids) out f later known rest
      ]
