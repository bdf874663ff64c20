-- ===== src/Tenancy/Domains/Race.antt =====
-- Two verifications of one workspace that overlap.
use klyvero.Common.{
  ℕ, ◌≡◌, refl, true, ◌||◌, ◌==◌, inl, inr, Bool-cases, List, [], ◌∷◌, update_many, All, arith,
}
use klyvero.Tenancy.{TenantDomain, Db}
use klyvero.Tenancy.Domains.{has_no_primary, store_verified, accepted}

both_stored :
    (now later i j : ℕ) (ds : List TenantDomain)
    → All
        (λ d. (d.id == i || d.id == j) ≡ true → d.is_primary ≡ true)
        (update_many
          (λ d. d.id == j)
          (accepted later true)
          (update_many (λ d. d.id == i) (accepted now true) ds))
unfolding update_many
both_stored now later i j [] = tt
both_stored now later i j (d ∷ ds) = elim (Bool-cases (d.id == j)) [
  | inl hit ↦ elim (Bool-cases (d.id == i)) [
    | inl k ↦ (rw (k, hit) (λ _. refl), both_stored now later i j ds)
    | inr k ↦ (rw (k, hit) (λ _. refl), both_stored now later i j ds)
  ]
  | inr miss ↦ elim (Bool-cases (d.id == i)) [
    | inl k ↦ (rw k (rw miss (λ _. refl)), both_stored now later i j ds)
    | inr k ↦ (rw k (rw miss (λ h. absurd (ground arith))), both_stored now later i j ds)
  ]
]

-- When two verifications of a workspace without a primary domain both count before either stores, both
-- domains are primary in the end.
verified_both-primary :
    (now later t i j : ℕ) (db : Db)
    → has_no_primary t db ≡ true
    → All
        (λ d. (d.id == i || d.id == j) ≡ true → d.is_primary ≡ true)
        (store_verified later j
          (has_no_primary t db)
          (store_verified now i (has_no_primary t db) db)).domains
verified_both-primary now later t i j db h = rw h (both_stored now later i j db.domains)
