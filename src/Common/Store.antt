-- ===== src/Common/Store.antt =====
-- Tables as lists of rows, with the queries that the services make of them: `findMany`,
-- `findFirst`, `count`, `updateMany`, `deleteMany` and `orderBy`.
use Prim.Native.Nat.{ℕ, suc, ◌≤◌}
use mathlib.Core.Path.{◌≡◌, refl, ap, sym, subst}
use mathlib.Core.Logic.{inl, inr}
use mathlib.Core.Bool.{Bool, true, false}
use mathlib.Core.List.{List, [], ◌∷◌, Memᴰ}
use mathlib.Core.Option.{Option, none, some}
use native.Mathlib.Omega.{arith}
use klyvero.Common.Tests.{leb, if◌then◌else◌, Bool-cases}
use klyvero.Common.Lists.{length, All}

module _ {ℓ} {A : Type ℓ} where
  unfoldable pub select : (A → Bool) → List A → List A
  select p [] = []
  select p (x ∷ xs) = let rest = select p xs in if p x then x ∷ rest else rest

  unfoldable pub find_first : (A → Bool) → List A → Option A
  find_first p [] = none
  find_first p (x ∷ xs) = let rest = find_first p xs in if p x then some x else rest

  unfoldable pub count_where : (A → Bool) → List A → ℕ
  count_where p [] = 0
  count_where p (x ∷ xs) = if p x then suc (count_where p xs) else count_where p xs

  unfoldable pub update_many : (A → Bool) → (A → A) → List A → List A
  update_many p f [] = []
  update_many p f (x ∷ xs) = (if p x then f x else x) ∷ update_many p f xs

  unfoldable pub delete_many : (A → Bool) → List A → List A
  delete_many p [] = []
  delete_many p (x ∷ xs) = let rest = delete_many p xs in if p x then rest else x ∷ rest

  -- `orderBy` an ascending numeric key: a stable insertion sort.
  unfoldable pub insert_by : (A → ℕ) → A → List A → List A
  insert_by key a [] = a ∷ []
  insert_by key a (x ∷ xs) =
      let rest = insert_by key a xs in if leb (key a) (key x) then a ∷ x ∷ xs else x ∷ rest

  unfoldable pub order_by : (A → ℕ) → List A → List A
  unfolding insert_by
  order_by key [] = []
  order_by key (x ∷ xs) = insert_by key x (order_by key xs)

  -- `orderBy` a descending numeric key.
  unfoldable pub insert_desc : (A → ℕ) → A → List A → List A
  insert_desc key a [] = a ∷ []
  insert_desc key a (x ∷ xs) =
      let rest = insert_desc key a xs in if leb (key x) (key a) then a ∷ x ∷ xs else x ∷ rest

  unfoldable pub order_desc : (A → ℕ) → List A → List A
  unfolding insert_desc
  order_desc key [] = []
  order_desc key (x ∷ xs) = insert_desc key x (order_desc key xs)

module _ {ℓ} {A : Type ℓ} where
  pub find_first-holds :
      (p : A → Bool) (xs : List A) {a : A} → find_first p xs ≡ some a → p a ≡ true
  unfolding find_first
  find_first-holds p [] {a} h = cc
  find_first-holds p (x ∷ xs) {a} h = ground (arith, find_first-holds p xs {a = a})

  pub find_first-mem : (p : A → Bool) (xs : List A) {a : A} → find_first p xs ≡ some a → Memᴰ a xs
  unfolding find_first
  find_first-mem p [] h = cc
  find_first-mem p (x ∷ xs) h = elim (Bool-cases (p x)) [
    | inl e ↦ Memᴰ.head (ground arith)
    | inr e ↦ Memᴰ.tail (find_first-mem p xs (ground arith))
  ]

  pub find_first-none :
      (p : A → Bool) (xs : List A) → find_first p xs ≡ none → All (λ x. p x ≡ false) xs
  unfolding find_first
  find_first-none p [] h = tt
  find_first-none p (x ∷ xs) h = ground (arith, find_first-none p xs)

  pub length-insert_by :
      (key : A → ℕ) (a : A) (xs : List A) → length (insert_by key a xs) ≡ suc (length xs)
  unfolding insert_by
  length-insert_by key a [] = refl
  length-insert_by key a (x ∷ xs) = ground (arith, length-insert_by key a xs)

  pub length-order_by : (key : A → ℕ) (xs : List A) → length (order_by key xs) ≡ length xs
  unfolding order_by
  length-order_by key [] = refl
  length-order_by key (x ∷ xs) =
      omega (arith, length-insert_by key x (order_by key xs), length-order_by key xs)

  pub length-update_many :
      (p : A → Bool) (f : A → A) (xs : List A) → length (update_many p f xs) ≡ length xs
  unfolding update_many
  length-update_many p f [] = refl
  length-update_many p f (x ∷ xs) = ap suc (length-update_many p f xs)

  pub count_where-le-length : (p : A → Bool) (xs : List A) → count_where p xs ≤ length xs
  unfolding count_where
  count_where-le-length p [] = omega arith
  count_where-le-length p (x ∷ xs) = ground (arith, count_where-le-length p xs)

module _ {ℓ κ} {A : Type ℓ} (P : A → Type κ) where
  pub select-All : (p : A → Bool) (xs : List A) → All P xs → All P (select p xs)
  unfolding select
  select-All p [] h = tt
  select-All p (x ∷ xs) h = ground (arith, select-All p xs h.1)

  pub All-mem : (xs : List A) {a : A} → All P xs → Memᴰ a xs → P a
  All-mem [] h m = elim m [ ]
  All-mem (x ∷ xs) h (Memᴰ.head e) = subst P (sym e) h.0
  All-mem (x ∷ xs) h (Memᴰ.tail m) = All-mem xs h.1 m

  pub insert_by-All :
      (key : A → ℕ) (a : A) (xs : List A) → P a → All P xs → All P (insert_by key a xs)
  unfolding insert_by
  insert_by-All key a [] h k = (h, tt)
  insert_by-All key a (x ∷ xs) h k = ground (arith, insert_by-All key a xs h k.1)

  pub order_by-All : (key : A → ℕ) (xs : List A) → All P xs → All P (order_by key xs)
  unfolding order_by
  order_by-All key [] h = tt
  order_by-All key (x ∷ xs) h = insert_by-All key x (order_by key xs) h.0 (order_by-All key xs h.1)

  pub update_many-All :
      (p : A → Bool) (f : A → A) (xs : List A)
      → ((x : A) → P x → p x ≡ true → P (f x))
      → All P xs
      → All P (update_many p f xs)
  unfolding update_many
  update_many-All p f [] k h = tt
  update_many-All p f (x ∷ xs) k h = (ground (arith, k x h.0), update_many-All p f xs k h.1)

module _ {ℓ} {A : Type ℓ} where
  pub length-select-le : (p : A → Bool) (xs : List A) → length (select p xs) ≤ length xs
  unfolding select
  length-select-le p [] = omega arith
  length-select-le p (x ∷ xs) = ground (arith, length-select-le p xs)
