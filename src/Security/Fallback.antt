-- ===== src/Security/Fallback.antt =====
-- The `Map` of counters kept in memory: entries in insertion order, with the trimming that bounds
-- its size. Generic in the key.
use klyvero.Common.{
  ℕ, suc, ◌≤◌, ◌<◌, ◌≡◌, ◌≢◌, ◌↔◌, refl, inl, inr, sym, Bool, true, List, [], ◌∷◌, ◌∙◌, Option,
  none, some, arith, leb, if◌then◌else◌, Bool-cases, length,
}

pub record Eq {ℓ} (A : Type ℓ) : Type ℓ where
  pub beq : A → A → Bool
  pub beq_iff : (a b : A) → (beq a b ≡ true) ↔ (a ≡ b)

pub record Entry : Type 0 where
  pub count : ℕ
  pub expires_at : ℕ
  pub locked_until : Option ℕ

module _ {ℓ} {K : Type ℓ} ⦃e : Eq K⦄ where
  unfoldable pub get : K → List (K × Entry) → Option Entry
  get k [] = none
  get k ((j, v) ∷ m) = let rest = get k m in if e.beq j k then some v else rest

  -- An existing key keeps its place.
  unfoldable pub set : K → Entry → List (K × Entry) → List (K × Entry)
  set k v [] = (k, v) ∷ []
  set k v ((j, w) ∷ m) = let rest = set k v m in if e.beq j k then (j, v) ∷ m else (j, w) ∷ rest

  unfoldable pub delete : K → List (K × Entry) → List (K × Entry)
  delete k [] = []
  delete k ((j, v) ∷ m) = let rest = delete k m in if e.beq j k then rest else (j, v) ∷ rest

module _ {ℓ} {K : Type ℓ} where
  -- `for (…) if (value.expiresAt <= now) this.fallback.delete(key);`
  unfoldable pub expire : ℕ → List (K × Entry) → List (K × Entry)
  expire now [] = []
  expire now ((k, v) ∷ m) =
      let rest = expire now m in if leb v.expires_at now then rest else (k, v) ∷ rest

  -- `while (this.fallback.size >= limit)` delete the oldest.
  unfoldable pub evict : ℕ → List (K × Entry) → List (K × Entry)
  evict limit [] = []
  evict limit ((k, v) ∷ m) =
      let rest = evict limit m in if leb limit (suc (length m)) then rest else (k, v) ∷ m

  pub length-evict-lt :
      (limit : ℕ) (m : List (K × Entry)) → 0 < limit → length (evict limit m) < limit
  unfolding evict
  length-evict-lt limit [] h = h
  length-evict-lt limit ((k, v) ∷ m) h = ground (arith, length-evict-lt limit m)

  pub evict_small : (limit : ℕ) (m : List (K × Entry)) → length m < limit → evict limit m ≡ m
  unfolding evict
  evict_small limit [] h = refl
  evict_small limit ((k, v) ∷ m) h = ground arith

  pub length-expire-le : (now : ℕ) (m : List (K × Entry)) → length (expire now m) ≤ length m
  unfolding expire
  length-expire-le now [] = omega arith
  length-expire-le now ((k, v) ∷ m) = ground (arith, length-expire-le now m)

module _ {ℓ} {K : Type ℓ} ⦃e : Eq K⦄ where
  beq_refl : (k : K) → e.beq k k ≡ true
  beq_refl k = (e.beq_iff k k).1 refl

  pub get-set_self : (k : K) (v : Entry) (m : List (K × Entry)) → get k (set k v m) ≡ some v
  unfolding get set
  get-set_self k v [] = rw (beq_refl k)
  get-set_self k v ((j, w) ∷ m) = ground (arith, get-set_self k v m)

  pub get-set_other :
      (k j : K) (v : Entry) (m : List (K × Entry)) → j ≢ k → get k (set j v m) ≡ get k m
  unfolding get set
  get-set_other k j v [] ne = elim (Bool-cases (e.beq j k)) [
    | inl h ↦ absurd (ne ((e.beq_iff j k).0 h))
    | inr h ↦ rw h
  ]
  get-set_other k j v ((i, w) ∷ m) ne = elim (Bool-cases (e.beq i j)) [
    | inl h ↦ elim (Bool-cases (e.beq i k)) [
      | inl g ↦ absurd (ne (sym ((e.beq_iff i j).0 h) ∙ (e.beq_iff i k).0 g))
      | inr g ↦ ground arith
    ]
    | inr h ↦ ground (arith, get-set_other k j v m ne)
  ]

  pub get-delete_self : (k : K) (m : List (K × Entry)) → get k (delete k m) ≡ none
  unfolding get delete
  get-delete_self k [] = refl
  get-delete_self k ((j, v) ∷ m) = ground (arith, get-delete_self k m)

  pub get-delete-none :
      (k j : K) (m : List (K × Entry)) → get k m ≡ none → get k (delete j m) ≡ none
  unfolding get delete
  get-delete-none k j [] h = refl
  get-delete-none k j ((i, v) ∷ m) h = ground (arith, get-delete-none k j m)

  pub length-set-le :
      (k : K) (v : Entry) (m : List (K × Entry)) → length (set k v m) ≤ suc (length m)
  unfolding set
  length-set-le k v [] = omega arith
  length-set-le k v ((j, w) ∷ m) = ground (arith, length-set-le k v m)

  -- An entry that has not expired survives the trimming of expired ones.
  pub get-expire :
      (k : K) (now : ℕ) (m : List (K × Entry)) (v : Entry)
      → get k m ≡ some v
      → now < v.expires_at
      → get k (expire now m) ≡ some v
  unfolding get expire
  get-expire k now [] v h l = cc
  get-expire k now ((j, w) ∷ m) v h l = ground (arith, get-expire k now m v)

  pub get-expire-none :
      (k : K) (now : ℕ) (m : List (K × Entry)) → get k m ≡ none → get k (expire now m) ≡ none
  unfolding get expire
  get-expire-none k now [] h = refl
  get-expire-none k now ((j, w) ∷ m) h = ground (arith, get-expire-none k now m)
