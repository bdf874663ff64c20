-- ===== src/Tenancy/Hierarchy/Ancestors.antt =====
-- The hierarchy of workspaces, and that climbing it ends and finds exactly the workspaces above.
use klyvero.Common.{
  ℕ, zero, suc, ◌<◌, ◌≡◌, ◌≢◌, inl, inr, refl, sym, ap, ◌∙◌, arith, Bool, true, false, ◌==◌, ==_iff,
  ==_refl, List, [], ◌∷◌, Option, none, some, Option-cases, Bool-cases, length, any, find_first,
  if◌then◌else◌,
}
use klyvero.Tenancy.{Tenant}
use klyvero.Tenancy.Hierarchy.{parent_of, climb}

pub true_ne_false : true ≢ false
true_ne_false h = cc

abbrev pub has_id : ℕ → List Tenant → Bool
has_id i ts = any (λ t. t.id == i) ts

abbrev pub IsKnown : Option ℕ → List Tenant → Type 0
IsKnown none ts = Unit
IsKnown (some p) ts = has_id p ts ≡ true

-- Each workspace was created after its parent, with an identifier of its own; the newest is first.
abbrev pub IsForest : List Tenant → Type 0
IsForest [] = Unit
IsForest (t ∷ ts) = (has_id t.id ts ≡ false) × IsKnown t.parent ts × IsForest ts

-- `me` is a parent of `id`, or of a workspace above it.
pub data Above (ts : List Tenant) (me : ℕ) : ℕ → Type 0 where
  direct : {id : ℕ} → parent_of ts id ≡ some me → Above ts me id
  further : {id : ℕ} (p : ℕ) → parent_of ts id ≡ some p → Above ts me p → Above ts me id

pub parent_of-cons :
    (t : Tenant) (ts : List Tenant) (id : ℕ)
    → parent_of (t ∷ ts) id ≡ (if t.id == id then t.parent else parent_of ts id)
unfolding parent_of find_first
parent_of-cons t ts id = ground arith

parent_of-unknown : (ts : List Tenant) (id : ℕ) → has_id id ts ≡ false → parent_of ts id ≡ none
unfolding parent_of find_first
parent_of-unknown [] id h = refl
parent_of-unknown (t ∷ ts) id h = ground (arith, parent_of-unknown ts id)

known-cons :
    (o : Option ℕ) (t : Tenant) (ts : List Tenant) {p : ℕ}
    → IsKnown o ts
    → o ≡ some p
    → has_id p ts ≡ true
known-cons none t ts {p} k e = cc
known-cons (some q) t ts {p} k e = let same : q ≡ p = ground arith in rw (← same) k

pub parent_of-known :
    (ts : List Tenant) (id : ℕ) {p : ℕ}
    → IsForest ts
    → parent_of ts id ≡ some p
    → has_id p ts ≡ true
parent_of-known [] id {p} f e = cc (parent_of-unknown [] id refl)
parent_of-known (t ∷ ts) id {p} f e = elim (Bool-cases (t.id == id)) [
  | inl same ↦
      let older = known-cons t.parent t ts {p = p} f.1 (ground (arith, parent_of-cons t ts id)) in
      ground arith
  | inr other ↦
      let older = parent_of-known ts id {p = p} f.2 (ground (arith, parent_of-cons t ts id)) in
      ground arith
]

-- A known workspace below the newest one is not the newest one.
pub not_newest :
    (t : Tenant) (ts : List Tenant) (id : ℕ)
    → has_id t.id ts ≡ false
    → has_id id ts ≡ true
    → (t.id == id) ≡ false
not_newest t ts id fresh k = elim (Bool-cases (t.id == id)) [
  | inl same ↦
      let e = (==_iff t.id id).0 same in
      absurd (true_ne_false (sym k ∙ sym (ap (λ i. has_id i ts) e) ∙ fresh))
  | inr other ↦ other
]

-- One round of the loop.
climb_top :
    (fuel : ℕ) (ts : List Tenant) (me id : ℕ)
    → parent_of ts id ≡ none
    → climb (suc fuel) ts me id ≡ some false
unfolding climb
climb_top fuel ts me id e = rw (e, climb) refl

pub climb_up :
    (fuel : ℕ) (ts : List Tenant) (me id p : ℕ)
    → parent_of ts id ≡ some p
    → climb (suc fuel) ts me id ≡ (if p == me then some true else climb fuel ts me p)
unfolding climb
climb_up fuel ts me id p e = rw (e, climb) refl

-- A workspace that was created later is not met on the way up.
climb-older :
    (fuel : ℕ) (t : Tenant) (ts : List Tenant) (me id : ℕ)
    → IsForest (t ∷ ts)
    → has_id id ts ≡ true
    → climb fuel (t ∷ ts) me id ≡ climb fuel ts me id
climb-older zero t ts me id f k = unfold climb in refl
climb-older (suc fuel) t ts me id f k =
    let up : parent_of (t ∷ ts) id ≡ parent_of ts id =
      parent_of-cons t ts id ∙ rw (not_newest t ts id f.0 k) refl in
    elim (Option-cases (parent_of ts id)) [
      | inl top ↦ climb_top fuel (t ∷ ts) me id (up ∙ top) ∙ sym (climb_top fuel ts me id top)
      | inr (p, e) ↦
          climb_up fuel (t ∷ ts) me id p (up ∙ e)
          ∙ rw (climb-older fuel t ts me p f (parent_of-known ts id f.2 e)) refl
          ∙ sym (climb_up fuel ts me id p e)
    ]

pub climb-total :
    (fuel : ℕ) (ts : List Tenant) (me id : ℕ)
    → IsForest ts
    → length ts < fuel
    → (found : Bool) × (climb fuel ts me id ≡ some found)
climb-total (suc fuel) [] me id f k =
    (false, climb_top fuel [] me id (parent_of-unknown [] id refl))
climb-total (suc (suc fuel)) (t ∷ ts) me id f k = elim (Bool-cases (has_id id ts)) [
  | inl known ↦
      let (found, e) = climb-total (suc (suc fuel)) ts me id f.2 (omega arith) in
      (found, climb-older (suc (suc fuel)) t ts me id f known ∙ e)
  | inr unknown ↦ elim (Option-cases (parent_of (t ∷ ts) id)) [
    | inl top ↦ (false, climb_top (suc fuel) (t ∷ ts) me id top)
    | inr (p, e) ↦
        let at_top = parent_of-unknown ts id unknown in
        let same : t.id == id ≡ true = ground (arith, parent_of-cons t ts id) in
        let known = known-cons t.parent t ts {p = p} f.1 (ground (arith, parent_of-cons t ts id)) in
        let (found, rest) = climb-total (suc fuel) ts me p f.2 (omega arith) in
        let above = climb-older (suc fuel) t ts me p f known ∙ rest in
        (
          (if p == me then true else found),
          climb_up (suc fuel) (t ∷ ts) me id p e ∙ rw above (ground arith),
        )
  ]
]
climb-total _ ts me id f k = absurd (omega arith)

pub climb_sound :
    (fuel : ℕ) (ts : List Tenant) (me id : ℕ) → climb fuel ts me id ≡ some true → Above ts me id
climb_sound zero ts me id h = unfold climb in cc
climb_sound (suc fuel) ts me id h = elim (Option-cases (parent_of ts id)) [
  | inl top ↦ cc (climb_top fuel ts me id top)
  | inr (p, e) ↦ elim (Bool-cases (p == me)) [
    | inl same ↦ direct (e ∙ ap some ((==_iff p me).0 same))
    | inr other ↦
        further p e (climb_sound fuel ts me p (rw other at (sym (climb_up fuel ts me id p e) ∙ h)))
  ]
]

pub climb_complete :
    (fuel : ℕ) (ts : List Tenant) (me id : ℕ) → climb fuel ts me id ≡ some false → ¬ Above ts me id
climb_complete zero ts me id h a = unfold climb in cc
climb_complete (suc fuel) ts me id h (direct e) =
    let met = rw (==_refl me) at (sym (climb_up fuel ts me id me e) ∙ h) in cc
climb_complete (suc fuel) ts me id h (further p e a) =
    let next = sym (climb_up fuel ts me id p e) ∙ h in
    elim (Bool-cases (p == me)) [
      | inl same ↦ let met = rw same at next in cc
      | inr other ↦ climb_complete fuel ts me p (rw other at next) a
    ]
