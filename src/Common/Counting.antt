-- ===== src/Common/Counting.antt =====
-- How a change of some rows moves the number of rows of a kind.
use Prim.Native.Nat.{◌+◌, ◌≤◌}
use mathlib.Core.Path.{◌≡◌, refl, sym}
use mathlib.Core.Logic.{inl, inr}
use mathlib.Core.Bool.{Bool, true, false}
use mathlib.Core.List.{List, [], ◌∷◌}
use mathlib.Core.Option.{some}
use native.Mathlib.Omega.{arith}
use klyvero.Common.Tests.{Bool-cases}
use klyvero.Common.Lists.{All}
use klyvero.Common.Store.{count_where, update_many, find_first}

module _ {ℓ} {A : Type ℓ} (q p : A → Bool) (f : A → A) where
  -- Each changed row may be of the kind now.
  pub count_where-update-le :
      (xs : List A) → count_where q (update_many p f xs) ≤ count_where q xs + count_where p xs
  unfolding count_where update_many
  count_where-update-le [] = omega arith
  count_where-update-le (x ∷ xs) = ground (arith, count_where-update-le xs)

  -- No row joins the kind.
  pub count_where-update_mono :
      (xs : List A)
      → All (λ x. p x ≡ true → q (f x) ≡ true → q x ≡ true) xs
      → count_where q (update_many p f xs) ≤ count_where q xs
  unfolding count_where update_many
  count_where-update_mono [] h = omega arith
  count_where-update_mono (x ∷ xs) h = ground (arith, h.0, count_where-update_mono xs h.1)

  -- Rows join and leave the kind unchanged.
  pub count_where-update_same :
      (xs : List A)
      → ((x : A) → q (f x) ≡ q x)
      → count_where q (update_many p f xs) ≡ count_where q xs
  unfolding count_where update_many
  count_where-update_same [] h = refl
  count_where-update_same (x ∷ xs) h = ground (arith, h x, count_where-update_same xs h)

module _ {ℓ} {A : Type ℓ} (p : A → Bool) where
  pub All_of_count_zero : (xs : List A) → count_where p xs ≡ 0 → All (λ x. p x ≡ false) xs
  unfolding count_where
  All_of_count_zero [] h = tt
  All_of_count_zero (x ∷ xs) h = ground (arith, All_of_count_zero xs)

  pub count_zero_of_All : (xs : List A) → All (λ x. p x ≡ false) xs → count_where p xs ≡ 0
  unfolding count_where
  count_zero_of_All [] h = refl
  count_zero_of_All (x ∷ xs) h = ground (arith, count_zero_of_All xs h.1)

module _ {ℓ} {A : Type ℓ} (p q : A → Bool) where
  -- A row that is found counts for every weaker condition.
  pub count_where-pos_of_found :
      (xs : List A) {a : A}
      → ((x : A) → p x ≡ true → q x ≡ true)
      → find_first p xs ≡ some a
      → 1 ≤ count_where q xs
  unfolding count_where find_first
  count_where-pos_of_found [] {a} w h = cc
  count_where-pos_of_found (x ∷ xs) {a} w h =
      ground (arith, w x, count_where-pos_of_found xs {a = a} w)

module _ {ℓ} {A : Type ℓ} (p : A → Bool) where
  -- What is changed where it is found is found again.
  pub find_first-update :
      (f : A → A) (xs : List A) {a : A}
      → ((x : A) → p (f x) ≡ p x)
      → find_first p xs ≡ some a
      → find_first p (update_many p f xs) ≡ some (f a)
  unfolding find_first update_many
  find_first-update f [] {a} k h = cc
  find_first-update f (x ∷ xs) {a} k h =
      let kept = k x in
      let rec = find_first-update f xs {a = a} k in
      elim (Bool-cases (p x)) [
        | inl hit ↦ let same : x ≡ a = ground arith in rw (sym same) (ground arith)
        | inr miss ↦ let r = rec (ground arith) in ground arith
      ]
