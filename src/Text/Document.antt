-- ===== src/Text/Document.antt =====
-- apps/api/src/common/br-document.ts: CPF and CNPJ numbers. `apps/web/lib/br-document.ts` repeats
-- these checks for the forms.
pub mod CheckDigits
use klyvero.Common.{
  ℕ, ◌+◌, ◌-◌, ◌*◌, ◌%◌, Bool, false, not, ◌&&◌, ◌||◌, List, [], ◌∷◌, ltb, ◌==◌, if◌then◌else◌,
  Text, digits_only, all, length,
}

unfoldable pub only_digits : Text → Text
unfolding digits_only
only_digits value = digits_only value

-- `/^(\d)\1+$/`: one digit, repeated at least twice.
unfoldable pub all_same : Text → Bool
all_same [] = false
all_same (d ∷ []) = false
all_same (d ∷ e ∷ ds) = all (λ c. c == d) (e ∷ ds)

-- `Number(digits[index])` for a digit; a missing digit does not occur, since the length is tested.
abbrev pub digit_value : ℕ → ℕ
digit_value c = c - b'0'

unfoldable pub weighted_sum : Text → List ℕ → ℕ
weighted_sum digits [] = 0
weighted_sum [] (w ∷ ws) = 0
weighted_sum (d ∷ digits) (w ∷ ws) = digit_value d * w + weighted_sum digits ws

unfoldable pub check_digit : Text → List ℕ → ℕ
unfolding weighted_sum
check_digit digits weights =
    let rest = weighted_sum digits weights % 11 in if ltb rest 2 then 0 else 11 - rest

-- `Number(digits[i])`, 0 past the end, where the length test has already refused.
unfoldable pub digit_at : Text → ℕ → ℕ
digit_at [] i = 0
digit_at (d ∷ ds) i = if i == 0 then digit_value d else digit_at ds (i - 1)

abbrev pub cpf_first : List ℕ
cpf_first = 10 ∷ 9 ∷ 8 ∷ 7 ∷ 6 ∷ 5 ∷ 4 ∷ 3 ∷ 2 ∷ []

abbrev pub cpf_second : List ℕ
cpf_second = 11 ∷ 10 ∷ 9 ∷ 8 ∷ 7 ∷ 6 ∷ 5 ∷ 4 ∷ 3 ∷ 2 ∷ []

abbrev pub cnpj_first : List ℕ
cnpj_first = 5 ∷ 4 ∷ 3 ∷ 2 ∷ 9 ∷ 8 ∷ 7 ∷ 6 ∷ 5 ∷ 4 ∷ 3 ∷ 2 ∷ []

abbrev pub cnpj_second : List ℕ
cnpj_second = 6 ∷ 5 ∷ 4 ∷ 3 ∷ 2 ∷ 9 ∷ 8 ∷ 7 ∷ 6 ∷ 5 ∷ 4 ∷ 3 ∷ 2 ∷ []

unfoldable pub is_valid_cpf : Text → Bool
unfolding only_digits all_same check_digit digit_at
is_valid_cpf value =
    let digits = only_digits value in
    if not (length digits == 11) || all_same digits
    then false
    else check_digit digits cpf_first == digit_at digits 9
      && check_digit digits cpf_second == digit_at digits 10

unfoldable pub is_valid_cnpj : Text → Bool
unfolding only_digits all_same check_digit digit_at
is_valid_cnpj value =
    let digits = only_digits value in
    if not (length digits == 14) || all_same digits
    then false
    else check_digit digits cnpj_first == digit_at digits 12
      && check_digit digits cnpj_second == digit_at digits 13

unfoldable pub is_valid_br_document : Text → Bool
unfolding is_valid_cpf is_valid_cnpj
is_valid_br_document value = is_valid_cpf value || is_valid_cnpj value
