-- ===== src/Tenancy/Listing/Ends.antt =====
-- The loop over the levels ends, whatever the parents of the workspaces are.
use klyvero.Common.{
  ℕ, zero, suc, ◌+◌, ◌≤◌, ◌≡◌, ◌⊎◌, inl, inr, refl, ap, ◌∙◌, arith, Bool, true, false, not, ◌||◌,
  ◌==◌, ==_iff, List, [], ◌∷◌, some, Bool-cases, length, All, All-append, All-map, select,
  select-All, order_by-All, count_where, count_where-le-length,
}
use klyvero.Tenancy.{Tenant, Db, AuthUser}
use klyvero.Tenancy.Listing.{
  is_seen, output_with, frontier_with, visit, level, is_level, list_from, list,
}
use klyvero.Tenancy.Listing.Visit.{visit-keeps, visit-queue-All, seen_more, seen_row}

abbrev IsNew : List Tenant → List Tenant → ℕ → Type 0
IsNew before out n = (is_seen n before ≡ false) × (is_seen n out ≡ true)

-- What is queued was not seen before the level, and is seen after it.
visit-queue-IsNew :
    (me : ℕ) (before rows out : List Tenant) (frontier : List ℕ)
    → ((i : ℕ) → is_seen i before ≡ true → is_seen i out ≡ true)
    → All (IsNew before out) frontier
    → All (IsNew before (visit me rows out frontier).0) (visit me rows out frontier).1
unfolding visit
visit-queue-IsNew me before [] out frontier more h = h
visit-queue-IsNew me before (r ∷ rows) out frontier more h =
    visit-queue-IsNew me before rows (output_with r out) (frontier_with me r out frontier)
      (λ i s. seen_more me i r out (more i s))
      (elim (Bool-cases (is_seen r.id out || r.id == me)) [
        | inl skip ↦ rw skip (
            All-map (IsNew before out) (IsNew before (output_with r out)) frontier
              (λ n k. (k.0, seen_more me n r out k.1)) h)
        | inr new ↦ rw new (
            All-append (IsNew before (output_with r out)) frontier (r.id ∷ [])
              (All-map (IsNew before out) (IsNew before (output_with r out)) frontier
                (λ n k. (k.0, seen_more me n r out k.1)) h)
              ((unseen_before r (ground arith), seen_row me r out), tt))
      ])
  where
    unseen_before : (r : Tenant) → is_seen r.id out ≡ false → is_seen r.id before ≡ false
    unseen_before r new = elim (Bool-cases (is_seen r.id before)) [
      | inl old ↦ let seen = more r.id old in cc
      | inr e ↦ e
    ]

abbrev unseen : List Tenant → Tenant → Bool
unseen out t = not (is_seen t.id out)

unseen-le :
    (before out ts : List Tenant)
    → ((i : ℕ) → is_seen i before ≡ true → is_seen i out ≡ true)
    → count_where (unseen out) ts ≤ count_where (unseen before) ts
unfolding count_where
unseen-le before out [] more = omega arith
unseen-le before out (t ∷ ts) more = ground (arith, more t.id, unseen-le before out ts more)

unseen-lt :
    (before out ts : List Tenant) (n : ℕ)
    → ((i : ℕ) → is_seen i before ≡ true → is_seen i out ≡ true)
    → IsNew before out n
    → is_seen n ts ≡ true
    → count_where (unseen out) ts + 1 ≤ count_where (unseen before) ts
unfolding count_where
unseen-lt before out [] n more new h = cc
unseen-lt before out (t ∷ ts) n more new h = elim (Bool-cases (t.id == n)) [
  | inl same ↦
      let e = (==_iff t.id n).0 same in
      let was = ap (λ i. is_seen i before) e ∙ new.0 in
      let is = ap (λ i. is_seen i out) e ∙ new.1 in
      let rest = unseen-le before out ts more in ground arith
  | inr other ↦
      let rest = unseen-lt before out ts n more new (ground arith) in
      let step = more t.id in ground (arith, more t.id)
]

pub members_seen : (ts : List Tenant) → All (λ t. is_seen t.id ts ≡ true) ts
members_seen [] = tt
members_seen (t ∷ ts) = (
  ground arith,
  All-map (λ x. is_seen x.id ts ≡ true) (λ x. is_seen x.id (t ∷ ts) ≡ true) ts (λ x h. ground arith)
      (members_seen ts),
)

level-known : (ts : List Tenant) (ids : List ℕ) → All (λ t. is_seen t.id ts ≡ true) (level ts ids)
unfolding level
level-known ts ids =
    order_by-All (λ t. is_seen t.id ts ≡ true) (λ t. t.created_at) (select (is_level ids) ts)
      (select-All (λ t. is_seen t.id ts ≡ true) (is_level ids) ts (members_seen ts))

queue-cases : (ids : List ℕ) → (ids ≡ []) ⊎ ((n : ℕ) × (rest : List ℕ) × (ids ≡ n ∷ rest))
queue-cases [] = inl refl
queue-cases (n ∷ rest) = inr (n, rest, refl)

list_from-ends :
    (fuel : ℕ) (ts : List Tenant) (me : ℕ) (ids : List ℕ) (out : List Tenant)
    → count_where (unseen out) ts + 2 ≤ fuel
    → (found : List Tenant) × (list_from fuel ts me ids out ≡ some found)
unfolding list_from
list_from-ends zero ts me ids out h = absurd (omega arith)
list_from-ends (suc fuel) ts me [] out h = (out, refl)
list_from-ends (suc zero) ts me (id ∷ ids) out h = absurd (omega arith)
list_from-ends (suc (suc fuel)) ts me (id ∷ ids) out h =
    let rows = level ts (id ∷ ids) in
    let more = λ (i : ℕ) (s : is_seen i out ≡ true). visit-keeps me rows out [] i s in
    let new = visit-queue-IsNew me out rows out [] (λ i s. s) tt in
    let known =
      visit-queue-All me (λ i. is_seen i ts ≡ true) rows out [] (level-known ts (id ∷ ids)) tt in
    elim (queue-cases (visit me rows out []).1) [
      | inl done ↦ ((visit me rows out []).0, rw (done, list_from) refl)
      | inr (n, rest, e) ↦
          let first = rw e at new in
          let row = rw e at known in
          let fewer = unseen-lt out (visit me rows out []).0 ts n more first.0 row.0 in
          list_from-ends (suc fuel) ts me (visit me rows out []).1 (visit me rows out []).0
            (omega arith)
    ]

-- The listing always ends.
pub list-ends : (db : Db) (user : AuthUser) → (found : List Tenant) × (list db user ≡ some found)
unfolding list
list-ends db user =
    let all = count_where-le-length (unseen []) db.tenants in
    list_from-ends (suc (suc (length db.tenants))) db.tenants user.tenant_id (user.tenant_id ∷ [])
      [] (omega arith)
