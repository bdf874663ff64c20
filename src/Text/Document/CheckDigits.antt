-- ===== src/Text/Document/CheckDigits.antt =====
-- The check digits of CPF numbers.
use klyvero.Common.{
  ℕ, ◌+◌, ◌-◌, ◌*◌, ◌%◌, ◌≤◌, ◌≡◌, refl, sym, ap, ◌∙◌, arith, true, false, List, [], ◌∷◌, ◌++◌, ltb,
  ==_refl, if◌then◌else◌, Text, is_digit, digits_only, length, All,
}
use mathlib.Core.List.{append_assoc}
use klyvero.Text.Document.{
  only_digits, all_same, digit_value, weighted_sum, check_digit, digit_at, cpf_first, cpf_second,
  is_valid_cpf,
}

abbrev pub AreDigits : Text → Type 0
AreDigits = All (λ c. is_digit c ≡ true)

pub digits_only_all : (t : Text) → AreDigits t → digits_only t ≡ t
unfolding digits_only
digits_only_all [] h = refl
digits_only_all (c ∷ t) (h, k) = rw h (ap (◌∷◌ c) (digits_only_all t k))

AreDigits-append : (s t : Text) → AreDigits s → AreDigits t → AreDigits (s ++ t)
AreDigits-append [] t h k = k
AreDigits-append (c ∷ s) t (h, hs) k = (h, AreDigits-append s t hs k)

weighted_sum-append :
    (ds r : Text) (ws : List ℕ)
    → length ws ≤ length ds
    → weighted_sum (ds ++ r) ws ≡ weighted_sum ds ws
unfolding weighted_sum
weighted_sum-append ds r [] h = refl
weighted_sum-append [] r (w ∷ ws) h = absurd (omega arith)
weighted_sum-append (d ∷ ds) r (w ∷ ws) h =
    ap (λ x. digit_value d * w + x) (weighted_sum-append ds r ws (omega arith))

check_digit-append :
    (ds r : Text) (ws : List ℕ)
    → length ws ≤ length ds
    → check_digit (ds ++ r) ws ≡ check_digit ds ws
unfolding check_digit
check_digit-append ds r ws h =
    ap (λ x. if ltb (x % 11) 2 then 0 else 11 - x % 11) (weighted_sum-append ds r ws h)

check_digit-le : (ds : Text) (ws : List ℕ) → check_digit ds ws ≤ 9
unfolding check_digit
check_digit-le ds ws = ground arith

digit_at-append : (ds r : Text) (d i : ℕ) → i ≡ length ds → digit_at (ds ++ d ∷ r) i ≡ digit_value d
unfolding digit_at
digit_at-append [] r d i h = ground arith
digit_at-append (e ∷ ds) r d i h = ground (arith, digit_at-append ds r d (i - 1) (omega arith))

-- The unit of a digit.
abbrev pub unit_of : ℕ → ℕ
unit_of n = b'0' + n

is_digit-unit_of : (n : ℕ) → n ≤ 9 → is_digit (unit_of n) ≡ true
is_digit-unit_of n h = ground arith

digit_value-unit_of : (n : ℕ) → digit_value (unit_of n) ≡ n
digit_value-unit_of n = omega arith

length-append_one : (s : Text) (c : ℕ) → length (s ++ c ∷ []) ≡ length s + 1
length-append_one [] c = refl
length-append_one (x ∷ s) c = omega (arith, length-append_one s c)

-- A number of nine digits and the two that are computed from it.
abbrev pub first_check : Text → ℕ
first_check ds = unit_of (check_digit ds cpf_first)

abbrev pub second_check : Text → ℕ
second_check ds = unit_of (check_digit (ds ++ first_check ds ∷ []) cpf_second)

abbrev pub with_checks : Text → Text
with_checks ds = (ds ++ first_check ds ∷ []) ++ second_check ds ∷ []

with_checks-AreDigits : (ds : Text) → AreDigits ds → AreDigits (with_checks ds)
with_checks-AreDigits ds h =
    AreDigits-append (ds ++ first_check ds ∷ []) (second_check ds ∷ [])
      (AreDigits-append ds (first_check ds ∷ []) h
        (is_digit-unit_of _ (check_digit-le ds cpf_first), tt))
      (is_digit-unit_of _ (check_digit-le (ds ++ first_check ds ∷ []) cpf_second), tt)

checks-hold :
    (ds : Text)
    → length ds ≡ 9
    → (check_digit (with_checks ds) cpf_first ≡ digit_at (with_checks ds) 9)
      × (check_digit (with_checks ds) cpf_second ≡ digit_at (with_checks ds) 10)
checks-hold ds h =
    let one = ds ++ first_check ds ∷ [] in
    let long = length-append_one ds (first_check ds) in
    (
      check_digit-append one (second_check ds ∷ []) cpf_first (omega (arith, long))
          ∙ check_digit-append ds (first_check ds ∷ []) cpf_first (omega arith)
          ∙ sym (digit_value-unit_of (check_digit ds cpf_first))
          ∙ sym (digit_at-append ds (second_check ds ∷ []) (first_check ds) 9 (sym h))
          ∙ sym (
              ap (λ x. digit_at x 9)
                (append_assoc ds (first_check ds ∷ []) (second_check ds ∷ []))),
      check_digit-append one (second_check ds ∷ []) cpf_second (omega (arith, long))
          ∙ sym (digit_value-unit_of (check_digit one cpf_second))
          ∙ sym (digit_at-append one [] (second_check ds) 10 (omega (arith, long))),
    )

valid-when :
    (t : Text)
    → digits_only t ≡ t
    → length t ≡ 11
    → all_same t ≡ false
    → check_digit t cpf_first ≡ digit_at t 9
    → check_digit t cpf_second ≡ digit_at t 10
    → is_valid_cpf t ≡ true
unfolding is_valid_cpf only_digits
valid-when t e h s a b =
    rw (is_valid_cpf, only_digits, e, h, s, a, b, ==_refl (digit_at t 9), ==_refl (digit_at t 10))
      refl

-- Nine digits followed by the two check digits computed from them are a valid CPF, unless all eleven
-- digits are the same.
pub is_valid_cpf-with_checks :
    (ds : Text)
    → AreDigits ds
    → length ds ≡ 9
    → all_same (with_checks ds) ≡ false
    → is_valid_cpf (with_checks ds) ≡ true
is_valid_cpf-with_checks ds d h s =
    let long = length-append_one ds (first_check ds) in
    valid-when (with_checks ds) (digits_only_all (with_checks ds) (with_checks-AreDigits ds d))
      (omega (arith, long, length-append_one (ds ++ first_check ds ∷ []) (second_check ds))) s
      (checks-hold ds h).0 (checks-hold ds h).1
