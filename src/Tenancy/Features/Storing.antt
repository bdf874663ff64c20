-- ===== src/Tenancy/Features/Storing.antt =====
-- What the upsert of a feature leaves.
use klyvero.Common.{
  ℕ, ◌≤◌, ◌≡◌, inl, inr, refl, subst, arith, Bool, true, false, not, ==_refl, List, [], ◌∷◌, some,
  Option-cases, Bool-cases, find_first, find_first-none, select, update_many, count_where, All,
  Text, text_eq_refl,
}
use klyvero.Tenancy.{TenantFeature}
use klyvero.Tenancy.Features.{is_row, upsert_feature}

without :
    (id : ℕ) (key : Text) (b : Bool) (rows : List TenantFeature)
    → All (λ f. is_row id key f ≡ false) rows
    → All (λ f. is_row id key f ≡ true → f.enabled ≡ b) rows
without id key b [] h = tt
without id key b (f ∷ fs) h = ((λ e. ground (arith, h.0)), without id key b fs h.1)

some_row :
    (id : ℕ) (key : Text) (b : Bool) (rows : List TenantFeature) {f : TenantFeature}
    → find_first (is_row id key) rows ≡ some f
    → 1
      ≤ count_where
          (is_row id key)
          (update_many (is_row id key) (λ r. record r { enabled = b }) rows)
unfolding find_first count_where update_many
some_row id key b [] {f} h = cc
some_row id key b (x ∷ rows) {f} h = ground (arith, some_row id key b rows {f = f})

changed :
    (id : ℕ) (key : Text) (b : Bool) (rows : List TenantFeature)
    → All
        (λ f. is_row id key f ≡ true → f.enabled ≡ b)
        (update_many (is_row id key) (λ r. record r { enabled = b }) rows)
unfolding update_many
changed id key b [] = tt
changed id key b (x ∷ rows) = elim (Bool-cases (is_row id key x)) [
  | inl k ↦ (rw k (λ _. refl), changed id key b rows)
  | inr k ↦ (rw k (λ e. ground arith), changed id key b rows)
]

others_kept :
    (id : ℕ) (key : Text) (b : Bool) (rows : List TenantFeature)
    → select
        (λ f. not (is_row id key f))
        (update_many (is_row id key) (λ r. record r { enabled = b }) rows)
      ≡ select (λ f. not (is_row id key f)) rows
unfolding select update_many
others_kept id key b [] = refl
others_kept id key b (x ∷ rows) = ground (arith, others_kept id key b rows)

-- One row of the feature in the given state, at least, and the others as they were.
abbrev pub Stored : ℕ → Text → Bool → List TenantFeature → List TenantFeature → Type 0
Stored id key enabled rows after =
    (1 ≤ count_where (is_row id key) after)
    × All (λ f. is_row id key f ≡ true → f.enabled ≡ enabled) after
    × (select (λ f. not (is_row id key f)) after ≡ select (λ f. not (is_row id key f)) rows)

added :
    (id : ℕ) (key : Text) (enabled : Bool) (rows : List TenantFeature)
    → All (λ f. is_row id key f ≡ false) rows
    → Stored id key enabled rows (record { tenant_id = id; key = key; enabled = enabled } ∷ rows)
unfolding count_where select
added id key enabled rows h =
    let mine = text_eq_refl key in
    let here = ==_refl id in
    (ground arith, ((λ _. refl), without id key enabled rows h), ground arith)

pub upsert_feature-holds :
    (id : ℕ) (key : Text) (enabled : Bool) (rows : List TenantFeature)
    → Stored id key enabled rows (upsert_feature id key enabled rows)
unfolding upsert_feature
upsert_feature-holds id key enabled rows = elim (Option-cases (find_first (is_row id key) rows)) [
  | inl nothing ↦
      subst (Stored id key enabled rows) (rw (nothing, upsert_feature) refl)
        (added id key enabled rows (find_first-none (is_row id key) rows nothing))
  | inr (f, found) ↦ subst (Stored id key enabled rows) (rw (found, upsert_feature) refl) (
    some_row id key enabled rows found,
    changed id key enabled rows,
    others_kept id key enabled rows,
  )
]
