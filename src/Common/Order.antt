-- ===== src/Common/Order.antt =====
-- What `orderBy` guarantees: the rows are the same, and the keys rise.
use Prim.Native.Nat.{ℕ, zero, suc, ◌≤◌}
use mathlib.Core.Path.{◌≡◌, refl, subst}
use mathlib.Core.Bool.{Bool, true, false, ◌&&◌}
use mathlib.Core.Option.{some}
use mathlib.Core.List.{List, [], ◌∷◌, Memᴰ}
use native.Mathlib.Omega.{arith}
use mathlib.Core.Logic.{inl, inr}
use klyvero.Common.Tests.{Bool-cases}
use klyvero.Common.Lists.{All, head?, drop}
use klyvero.Common.Store.{
  insert_by, order_by, insert_desc, order_desc, count_where, insert_by-All, select,
}

module _ {ℓ κ} {A : Type ℓ} (P : A → Type κ) where
  All-insert_by : (key : A → ℕ) (a : A) (xs : List A) → All P (insert_by key a xs) → P a × All P xs
  unfolding insert_by
  All-insert_by key a [] h = h
  All-insert_by key a (x ∷ xs) h = ground (arith, All-insert_by key a xs)

  pub All-order_by : (key : A → ℕ) (xs : List A) → All P (order_by key xs) → All P xs
  unfolding order_by
  All-order_by key [] h = tt
  All-order_by key (x ∷ xs) h =
      let (p, rest) = All-insert_by key x (order_by key xs) h in (p, All-order_by key xs rest)

module _ {ℓ} {A : Type ℓ} (key : A → ℕ) where
  abbrev pub IsSorted : List A → Type 0
  IsSorted [] = Unit
  IsSorted (x ∷ xs) = All (λ y. key x ≤ key y) xs × IsSorted xs

  All-le_trans :
      (a b : A) (xs : List A)
      → key a ≤ key b
      → All (λ y. key b ≤ key y) xs
      → All (λ y. key a ≤ key y) xs
  All-le_trans a b [] h k = tt
  All-le_trans a b (x ∷ xs) h k = (omega arith, All-le_trans a b xs h k.1)

  insert_by-IsSorted : (a : A) (xs : List A) → IsSorted xs → IsSorted (insert_by key a xs)
  unfolding insert_by
  insert_by-IsSorted a [] h = (tt, tt)
  insert_by-IsSorted a (x ∷ xs) h = ground (
    arith,
    insert_by-IsSorted a xs h.1,
    insert_by-All (λ y. key x ≤ key y) key a xs,
    All-le_trans a x xs,
  )

  pub order_by-IsSorted : (xs : List A) → IsSorted (order_by key xs)
  unfolding order_by
  order_by-IsSorted [] = tt
  order_by-IsSorted (x ∷ xs) = insert_by-IsSorted x (order_by key xs) (order_by-IsSorted xs)

  head-le : (xs : List A) {a : A} → head? xs ≡ some a → IsSorted xs → All (λ y. key a ≤ key y) xs
  head-le [] {a} e h = tt
  head-le (x ∷ xs) {a} e h =
      let same : x ≡ a = ground arith in
      subst (λ b. All (λ y. key b ≤ key y) (x ∷ xs)) same (omega arith, h.0)

  -- The first row has the least key.
  pub head-order_by-le :
      (xs : List A) {a : A} → head? (order_by key xs) ≡ some a → All (λ y. key a ≤ key y) xs
  head-order_by-le xs {a} e =
      All-order_by (λ y. key a ≤ key y) key xs (head-le (order_by key xs) e (order_by-IsSorted xs))

module _ {ℓ} {A : Type ℓ} where
  pub head?-All {κ} : (P : A → Type κ) (xs : List A) {a : A} → head? xs ≡ some a → All P xs → P a
  head?-All P [] {a} e h = cc
  head?-All P (x ∷ xs) {a} e h = let same : x ≡ a = ground arith in rw (← same) h.0

  pub All-map {κ λ'} :
      (P : A → Type κ) (Q : A → Type λ') (xs : List A) → ((x : A) → P x → Q x) → All P xs → All Q xs
  All-map P Q [] f h = tt
  All-map P Q (x ∷ xs) f h = (f x h.0, All-map P Q xs f h.1)

  pub All-self : (xs : List A) → All (λ x. Memᴰ x xs) xs
  All-self [] = tt
  All-self (x ∷ xs) = (
    Memᴰ.head refl,
    All-map (λ y. Memᴰ y xs) (λ y. Memᴰ y (x ∷ xs)) xs (λ y m. Memᴰ.tail m) (All-self xs),
  )

  -- The rows of `findMany` satisfy its condition.
  pub select-holds : (p : A → Bool) (xs : List A) → All (λ x. p x ≡ true) (select p xs)
  unfolding select
  select-holds p [] = tt
  select-holds p (x ∷ xs) = ground (arith, select-holds p xs)

  -- What holds of the selected rows holds of every row that satisfies the condition.
  pub All-select {κ} :
      (P : A → Type κ) (p : A → Bool) (xs : List A)
      → All P (select p xs)
      → All (λ x. p x ≡ true → P x) xs
  unfolding select
  All-select P p [] h = tt
  All-select P p (x ∷ xs) h = elim (Bool-cases (p x)) [
    | inl e ↦
        let h' : P x × All P (select p xs) = ground arith in (λ _. h'.0, All-select P p xs h'.1)
    | inr e ↦ (λ k. ground arith, All-select P p xs (ground arith))
  ]

-- Facts about the same rows are joined.
module _ {ℓ κ λ' μ} {A : Type ℓ} (P : A → Type κ) (Q : A → Type λ') (R : A → Type μ) where
  pub All-zip : (xs : List A) → ((x : A) → P x → Q x → R x) → All P xs → All Q xs → All R xs
  All-zip [] f h k = tt
  All-zip (x ∷ xs) f h k = (f x h.0 k.0, All-zip xs f h.1 k.1)

-- Ordering, taking and dropping do not change what is counted.
module _ {ℓ} {A : Type ℓ} (p : A → Bool) where
  count_where-insert_desc :
      (key : A → ℕ) (a : A) (xs : List A)
      → count_where p (insert_desc key a xs) ≡ count_where p (a ∷ xs)
  unfolding insert_desc count_where
  count_where-insert_desc key a [] = refl
  count_where-insert_desc key a (x ∷ xs) = ground (arith, count_where-insert_desc key a xs)

  pub count_where-order_desc :
      (key : A → ℕ) (xs : List A) → count_where p (order_desc key xs) ≡ count_where p xs
  unfolding order_desc count_where
  count_where-order_desc key [] = refl
  count_where-order_desc key (x ∷ xs) =
      ground
        (arith, count_where-insert_desc key x (order_desc key xs), count_where-order_desc key xs)

  -- When what is dropped does not count, only what is kept does.
  pub count_where-le-drop :
      (n : ℕ) (xs : List A) → All (λ x. p x ≡ false) (drop n xs) → count_where p xs ≤ n
  unfolding count_where
  count_where-le-drop zero [] h = omega arith
  count_where-le-drop zero (x ∷ xs) h = ground (arith, count_where-le-drop zero xs h.1)
  count_where-le-drop (suc n) [] h = omega arith
  count_where-le-drop (suc n) (x ∷ xs) h = ground (arith, count_where-le-drop n xs h)

  -- Counting twice is counting both conditions.
  pub count_where-select :
      (q : A → Bool) (xs : List A) → count_where p (select q xs) ≡ count_where (λ x. q x && p x) xs
  unfolding select count_where
  count_where-select q [] = refl
  count_where-select q (x ∷ xs) = ground (arith, count_where-select q xs)
