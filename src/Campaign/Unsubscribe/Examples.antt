-- ===== src/Campaign/Unsubscribe/Examples.antt =====
-- A token for one address.
use klyvero.Common.{
  ◌+◌, ◌-◌, ◌≤◌, ◌≡◌, refl, arith, false, List, [], ◌∷◌, some, map, length, Text, units, text_eq,
  ok,
}
use klyvero.Security.Network.{split_on}
use klyvero.Text.ConstantTime.{constant_time_equals}
use klyvero.Campaign.Unsubscribe.{
  Signing, unsubscribe_token, cut, is_extra, verify_unsubscribe_token, IsFree,
  verify-unsubscribe_token, verify_unsubscribe_token-IsSigned,
}

-- An encoding without dots, of the empty text the empty one, and a signature that is never empty.
abbrev shifted : Text → Text
shifted s = map (λ c. c + 47) s

shifted-IsFree : (s : Text) → IsFree b'.' (map (λ c. c + 47) s)
shifted-IsFree [] = tt
shifted-IsFree (c ∷ s) = (ground arith, shifted-IsFree s)

abbrev signing : Signing
signing = record {
  lower = λ s. s;
  encode = shifted;
  decode = λ s. map (λ c. c - 47) s;
  hmac = λ s. b'A' ∷ shifted s;
}

abbrev address : Text
address = units "a@b.c"

abbrev token : Text
token = unsubscribe_token signing (units "t1") address

verify-unsubscribe_token_example : verify_unsubscribe_token signing token ≡ ok (units "t1", address)
verify-unsubscribe_token_example =
    verify-unsubscribe_token signing (units "t1") address refl (shifted-IsFree (units "t1|a@b.c"))
      refl (λ s. ((refl, shifted-IsFree s), refl)) (refl, (refl, tt)) refl refl (omega arith)

verify_unsubscribe_token-IsSigned_example :
    (payload : Text) × (rest : List Text) × (split_on b'.' token
      ≡ payload ∷ signing.hmac payload ∷ rest)
    × (is_extra rest ≡ false)
    × (cut b'|' (signing.decode payload) ≡ some (units "t1", address))
    × (length address ≤ 254)
unfolding verify_unsubscribe_token unsubscribe_token split_on cut constant_time_equals text_eq
verify_unsubscribe_token-IsSigned_example =
    verify_unsubscribe_token-IsSigned signing token (units "t1") address refl
