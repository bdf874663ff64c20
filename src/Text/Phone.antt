-- ===== src/Text/Phone.antt =====
-- apps/api/src/common/phone.ts: the canonical key of a phone line.
pub mod Key
use klyvero.Common.{
  ℕ, ◌≡◌, refl, Bool, true, false, ◌&&◌, ◌||◌, [], ◌∷◌, ◌++◌, none, some, ◌==◌, if◌then◌else◌, Text,
  units, trim, digits_only, take, drop, length, get_elem?, any,
}

unfoldable pub digits_of : Text → Text
unfolding digits_only
digits_of value = digits_only value

abbrev pub starts_with : Text → Text → Bool
starts_with [] s = true
starts_with (p ∷ ps) [] = false
starts_with (p ∷ ps) (c ∷ s) = p == c && starts_with ps s

-- `digits[i] === c`
abbrev pub unit_is : ℕ → Text → ℕ → Bool
unit_is i s c = elim (get_elem? s i) [ none ↦ false | some d ↦ d == c ]

-- `'2345'.includes(digits[2])`, for a digit that is there
abbrev pub unit_in : ℕ → Text → Text → Bool
unit_in i s set = elim (get_elem? s i) [ none ↦ false | some d ↦ any (λ c. c == d) set ]

unfoldable pub with_country : Text → Text
unfolding digits_of trim
with_country value =
    let raw = trim value in
    let digits = digits_of raw in
    if starts_with (units "+") raw
    then digits
    else if starts_with (units "00") digits
    then drop 2 digits
    else let mobile = length digits == 11 && unit_is 2 digits b'9' in
      let landline = length digits == 10 && unit_in 2 digits (units "2345") in
      if mobile || landline then units "55" ++ digits else digits

unfoldable pub phone_key : Text → Text
unfolding with_country
phone_key value =
    let digits = with_country value in
    if length digits == 13 && starts_with (units "55") digits && unit_is 4 digits b'9'
    then take 4 digits ++ drop 5 digits
    else digits

unfoldable pub to_whatsapp_number : Text → Text
unfolding with_country
to_whatsapp_number value = with_country value

phone_key_tests :
    (phone_key (units "+55 (11) 99999-0000") ≡ units "551199990000")
    × (phone_key (units "11999990000") ≡ units "551199990000")
    × (phone_key (units "551199990000") ≡ units "551199990000")
    × (phone_key (units "+1 415 555 0100") ≡ units "14155550100")
unfolding phone_key digits_only trim
phone_key_tests = (refl, refl, refl, refl)
