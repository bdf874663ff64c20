-- ===== src/Tenancy/Listing/Visit.antt =====
-- One level of the listing.
use klyvero.Common.{
  ℕ, ◌≡◌, ◌⊎◌, inl, inr, refl, arith, Bool, true, false, ◌||◌, ◌==◌, List, [], ◌∷◌, ◌++◌,
  Bool-cases, any, All, All-append,
}
use klyvero.Tenancy.{Tenant}
use klyvero.Tenancy.Features.{is_in}
use klyvero.Tenancy.Listing.{is_seen, output_with, frontier_with, visit}

pub any-append :
    {A : Type 0} (p : A → Bool) (xs ys : List A) → any p (xs ++ ys) ≡ (any p xs || any p ys)
any-append p [] ys = refl
any-append p (x ∷ xs) ys = ground (arith, any-append p xs ys)

module _ (me : ℕ) where
  -- The row itself is seen then, and so is what was seen before.
  pub seen_row : (r : Tenant) (out : List Tenant) → is_seen r.id (output_with r out) ≡ true
  seen_row r out = ground (arith, any-append (λ t. t.id == r.id) out (r ∷ []))

  pub seen_more :
      (i : ℕ) (r : Tenant) (out : List Tenant)
      → is_seen i out ≡ true
      → is_seen i (output_with r out) ≡ true
  seen_more i r out h = ground (arith, any-append (λ t. t.id == i) out (r ∷ []))

  seen_cases :
      (i : ℕ) (r : Tenant) (out : List Tenant)
      → is_seen i (output_with r out) ≡ true
      → (is_seen i out ≡ true) ⊎ ((r.id == i) ≡ true × (is_seen r.id out ≡ false))
  seen_cases i r out h = elim (Bool-cases (is_seen i out)) [
    | inl old ↦ inl old
    | inr new ↦ inr (ground (arith, any-append (λ t. t.id == i) out (r ∷ [])))
  ]

  pub visit-keeps :
      (rows out : List Tenant) (frontier : List ℕ) (i : ℕ)
      → is_seen i out ≡ true
      → is_seen i (visit me rows out frontier).0 ≡ true
  unfolding visit
  visit-keeps [] out frontier i h = h
  visit-keeps (r ∷ rows) out frontier i h =
      visit-keeps rows (output_with r out) (frontier_with me r out frontier) i (seen_more i r out h)

  queued_more :
      (i : ℕ) (r : Tenant) (out : List Tenant) (frontier : List ℕ)
      → is_in frontier i ≡ true
      → is_in (frontier_with me r out frontier) i ≡ true
  queued_more i r out frontier h = ground (arith, any-append (λ j. j == i) frontier (r.id ∷ []))

  visit_queues :
      (rows out : List Tenant) (frontier : List ℕ) (i : ℕ)
      → is_in frontier i ≡ true
      → is_in (visit me rows out frontier).1 i ≡ true
  unfolding visit
  visit_queues [] out frontier i h = h
  visit_queues (r ∷ rows) out frontier i h =
      visit_queues rows (output_with r out) (frontier_with me r out frontier) i
        (queued_more i r out frontier h)

  -- Every row of the level is listed.
  pub visit-lists :
      (rows out : List Tenant) (frontier : List ℕ)
      → All (λ r. is_seen r.id (visit me rows out frontier).0 ≡ true) rows
  unfolding visit
  visit-lists [] out frontier = tt
  visit-lists (r ∷ rows) out frontier = (
    visit-keeps rows (output_with r out) (frontier_with me r out frontier) r.id (seen_row r out),
    visit-lists rows (output_with r out) (frontier_with me r out frontier),
  )

  queued_new :
      (i : ℕ) (r : Tenant) (out : List Tenant) (frontier : List ℕ)
      → (r.id == i) ≡ true
      → is_seen r.id out ≡ false
      → (me == i) ≡ false
      → is_in (frontier_with me r out frontier) i ≡ true
  queued_new i r out frontier same new other =
      ground (arith, any-append (λ j. j == i) frontier (r.id ∷ []))

  -- What is listed anew is on the frontier of the next level, but for the workspace of the user.
  pub visit-new :
      (rows out : List Tenant) (frontier : List ℕ) (i : ℕ)
      → is_seen i (visit me rows out frontier).0 ≡ true
      → (me == i) ≡ false
      → (is_seen i out ≡ true) ⊎ (is_in (visit me rows out frontier).1 i ≡ true)
  unfolding visit
  visit-new [] out frontier i h other = inl h
  visit-new (r ∷ rows) out frontier i h other =
      elim (visit-new rows (output_with r out) (frontier_with me r out frontier) i h other) [
        | inr queued ↦ inr queued
        | inl seen ↦ elim (seen_cases i r out seen) [
          | inl old ↦ inl old
          | inr (same, new) ↦ inr (
              visit_queues rows (output_with r out) (frontier_with me r out frontier) i
                (queued_new i r out frontier same new other))
        ]
      ]

  -- What holds of the rows and of the output before holds of the output after.
  pub visit-All {κ} :
      (P : Tenant → Type κ) (rows out : List Tenant) (frontier : List ℕ)
      → All P rows
      → All P out
      → All P (visit me rows out frontier).0
  unfolding visit
  visit-All P [] out frontier h k = k
  visit-All P (r ∷ rows) out frontier h k =
      visit-All P rows (output_with r out) (frontier_with me r out frontier) h.1
        (elim (Bool-cases (is_seen r.id out)) [
          | inl seen ↦ rw seen k
          | inr new ↦ rw new (All-append P out (r ∷ []) k (h.0, tt))
        ])

  pub visit-queue-All {κ} :
      (P : ℕ → Type κ) (rows out : List Tenant) (frontier : List ℕ)
      → All (λ r. P r.id) rows
      → All P frontier
      → All P (visit me rows out frontier).1
  unfolding visit
  visit-queue-All P [] out frontier h k = k
  visit-queue-All P (r ∷ rows) out frontier h k =
      visit-queue-All P rows (output_with r out) (frontier_with me r out frontier) h.1
        (elim (Bool-cases (is_seen r.id out || r.id == me)) [
          | inl skip ↦ rw skip k
          | inr new ↦ rw new (All-append P frontier (r.id ∷ []) k (h.0, tt))
        ])
