-- ===== src/Text/Phone/Key.antt =====
-- The spellings of one Brazilian mobile line have one key.
use klyvero.Common.{
  ℕ, ◌≡◌, refl, sym, ap, ◌∙◌, arith, true, false, ◌&&◌, ◌||◌, [], ◌∷◌, ◌++◌, ◌==◌, if◌then◌else◌,
  Text, units, is_digit, is_space, trim_start, trim, digits_only, take, drop, length, All, All-map,
}
use mathlib.Core.List.{reverse, reverse_aux, append-nil}
use klyvero.Text.Document.CheckDigits.{AreDigits, digits_only_all}
use klyvero.Text.Phone.{digits_of, starts_with, unit_is, unit_in, with_country, phone_key}

abbrev IsClean : ℕ → Type 0
IsClean c = is_space c ≡ false

trim_start-clean : (s : Text) → All IsClean s → trim_start s ≡ s
unfolding trim_start
trim_start-clean [] h = refl
trim_start-clean (c ∷ s) (h, k) = rw (trim_start, h) refl

reverse_aux-reverse_aux : (s t u : Text) → reverse_aux (reverse_aux s t) u ≡ reverse_aux t (s ++ u)
reverse_aux-reverse_aux [] t u = refl
reverse_aux-reverse_aux (c ∷ s) t u = reverse_aux-reverse_aux s (c ∷ t) u

reverse_aux-All : (s t : Text) → All IsClean s → All IsClean t → All IsClean (reverse_aux s t)
reverse_aux-All [] t h k = k
reverse_aux-All (c ∷ s) t (h, hs) k = reverse_aux-All s (c ∷ t) hs (h, k)

trim-clean : (s : Text) → All IsClean s → trim s ≡ s
unfolding trim
trim-clean s h =
    ap (λ x. reverse (trim_start (reverse x))) (trim_start-clean s h)
    ∙ ap reverse (trim_start-clean (reverse s) (reverse_aux-All s [] h tt))
    ∙ reverse_aux-reverse_aux s [] []
    ∙ append-nil s

digit-IsClean : (c : ℕ) → is_digit c ≡ true → IsClean c
unfolding is_space
digit-IsClean c h = ground arith

digits-AreClean : (s : Text) → AreDigits s → All IsClean s
digits-AreClean s h = All-map (λ c. is_digit c ≡ true) IsClean s digit-IsClean h

-- The key of a text of digits, and of one after a plus sign, by what follows the trimming.
with_country-digits :
    (s : Text)
    → AreDigits s
    → starts_with (units "+") s ≡ false
    → starts_with (units "00") s ≡ false
    → with_country s ≡ (
        if (length s == 11 && unit_is 2 s b'9') || (length s == 10 && unit_in 2 s (units "2345"))
        then units "55" ++ s
        else s)
unfolding with_country digits_of
with_country-digits s h p z =
    rw (with_country, trim-clean s (digits-AreClean s h), p, digits_of, digits_only_all s h, z) refl

with_country-plus : (s : Text) → AreDigits s → with_country (43 ∷ s) ≡ s
unfolding with_country digits_of digits_only is_space
with_country-plus s h =
    rw
      (
        with_country,
        trim-clean (43 ∷ s) (refl, digits-AreClean s h),
        digits_of,
        digits_only_all s h,
      )
      refl

phone_key-of :
    (value digits : Text)
    → with_country value ≡ digits
    → phone_key value ≡ (
        if length digits == 13 && starts_with (units "55") digits && unit_is 4 digits b'9'
        then take 4 digits ++ drop 5 digits
        else digits)
unfolding phone_key
phone_key-of value digits e = rw (phone_key, e) refl

not_plus : (a : ℕ) (s : Text) → is_digit a ≡ true → starts_with (units "+") (a ∷ s) ≡ false
not_plus a s h = ground arith

not_zero : (a : ℕ) (s : Text) → (a == b'0') ≡ false → starts_with (units "00") (a ∷ s) ≡ false
not_zero a s h = ground arith

module _ (a b : ℕ) (rest : Text) (da : is_digit a ≡ true) (db : is_digit b ≡ true)
    (dr : AreDigits rest) (nonzero : (a == b'0') ≡ false) (eight : length rest ≡ 8) where
  -- With the country in front and the extra digit.
  phone_key-plus : phone_key (units "+55" ++ a ∷ b ∷ b'9' ∷ rest) ≡ units "55" ++ a ∷ b ∷ rest
  phone_key-plus =
      phone_key-of _ (53 ∷ 53 ∷ a ∷ b ∷ 57 ∷ rest)
        (with_country-plus (53 ∷ 53 ∷ a ∷ b ∷ 57 ∷ rest) (refl, (refl, (da, (db, (refl, dr))))))
      ∙ rw eight refl

  phone_key-national : phone_key (a ∷ b ∷ b'9' ∷ rest) ≡ units "55" ++ a ∷ b ∷ rest
  phone_key-national =
      phone_key-of (a ∷ b ∷ b'9' ∷ rest) (53 ∷ 53 ∷ a ∷ b ∷ 57 ∷ rest) (
        with_country-digits (a ∷ b ∷ b'9' ∷ rest) (da, (db, (refl, dr)))
          (not_plus a (b ∷ b'9' ∷ rest) da) (not_zero a (b ∷ b'9' ∷ rest) nonzero)
        ∙ rw eight refl)
      ∙ rw eight refl

  phone_key-short : phone_key (units "55" ++ a ∷ b ∷ rest) ≡ units "55" ++ a ∷ b ∷ rest
  phone_key-short =
      phone_key-of (53 ∷ 53 ∷ a ∷ b ∷ rest) (53 ∷ 53 ∷ a ∷ b ∷ rest) (
        with_country-digits (53 ∷ 53 ∷ a ∷ b ∷ rest) (refl, (refl, (da, (db, dr)))) refl refl
        ∙ rw eight refl)
      ∙ rw eight refl

-- With the country's plus sign, without any prefix, or in the country's form without the extra digit:
-- one line of area code `a b`, whose first digit is not 0, and of the eight digits `rest` has one key.
pub phone_key-same :
    (a b : ℕ) (rest : Text)
    → is_digit a ≡ true
    → is_digit b ≡ true
    → AreDigits rest
    → (a == b'0') ≡ false
    → length rest ≡ 8
    → (phone_key (units "+55" ++ a ∷ b ∷ b'9' ∷ rest) ≡ phone_key (a ∷ b ∷ b'9' ∷ rest))
      × (phone_key (a ∷ b ∷ b'9' ∷ rest) ≡ phone_key (units "55" ++ a ∷ b ∷ rest))
phone_key-same a b rest da db dr z n = (
  phone_key-plus a b rest da db dr z n ∙ sym (phone_key-national a b rest da db dr z n),
  phone_key-national a b rest da db dr z n ∙ sym (phone_key-short a b rest da db dr z n),
)
