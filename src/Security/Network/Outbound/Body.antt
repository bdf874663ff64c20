-- ===== src/Security/Network/Outbound/Body.antt =====
-- How much of a response body `postWebhook` keeps.
use klyvero.Common.{
  ℕ, zero, suc, ◌+◌, ◌-◌, ◌≤◌, min, ◌≡◌, inl, inr, refl, sym, ap, ◌∙◌, arith, List, [], ◌∷◌, ◌++◌,
  length, take, length-take-le, ltb, Bool-cases,
}
use klyvero.Security.Network.Outbound.{collect}

unfoldable pub concat {ℓ} : {A : Type ℓ} → List (List A) → List A
concat [] = []
concat (xs ∷ xss) = xs ++ concat xss

take-append {ℓ} :
    {A : Type ℓ} (n : ℕ) (xs ys : List A)
    → take n (xs ++ ys) ≡ take n xs ++ take (n - min (length xs) n) ys
take-append zero xs ys =
    let gone : 0 - min (length xs) 0 ≡ 0 = omega arith in sym (ap (λ m. take m ys) gone)
take-append (suc n) [] ys =
    let all_left : suc n ≡ suc n - min 0 (suc n) = omega arith in ap (λ m. take m ys) all_left
take-append (suc n) (x ∷ xs) ys =
    let left : n - min (length xs) n ≡ suc n - min (suc (length xs)) (suc n) = omega arith in
    ap (◌∷◌ x) (take-append n xs ys ∙ ap (λ m. take n xs ++ take m ys) left)

take-nil {ℓ} : {A : Type ℓ} (n : ℕ) → take {A = A} n [] ≡ []
take-nil zero = refl
take-nil (suc n) = refl

-- `size` bytes into the body, the kept chunks are the next 4096 - `size` bytes of the rest.
pub collect-take :
    (size : ℕ) (chunks : List (List ℕ)) → collect size chunks ≡ take (4096 - size) (concat chunks)
unfolding collect concat
collect-take size [] = sym (take-nil (4096 - size))
collect-take size (chunk ∷ chunks) =
    let cut = take-append (4096 - size) chunk (concat chunks) in
    elim (Bool-cases (ltb size 4096)) [
      | inl more ↦
          let left : 4096 - (size + min (length chunk) (4096 - size))
              ≡ 4096 - size - min (length chunk) (4096 - size) =
            omega arith in
          let rest = collect-take (size + min (length chunk) (4096 - size)) chunks in
          let kept : collect (size + min (length chunk) (4096 - size)) chunks
              ≡ take (4096 - size - min (length chunk) (4096 - size)) (concat chunks) =
            rest ∙ ap (λ m. take m (concat chunks)) left in
          ground arith
      | inr full ↦
          let none_left : 4096 - size ≡ 0 = ground arith in
          let rest = collect-take size chunks in ground arith
    ]

pub length-collect-le : (chunks : List (List ℕ)) → length (collect 0 chunks) ≤ 4096
length-collect-le chunks = rw (collect-take 0 chunks) (length-take-le 4096 (concat chunks))
