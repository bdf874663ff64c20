-- ===== src/Text/ConstantTime.antt =====
-- `constantTimeSecretEquals` of apps/api/src/common/constant-time.ts.
use klyvero.Common.{
  Option, some, ◌≡◌, refl, arith, Bool, true, false, not, ◌&&◌, Text, text_eq, text_eq_refl,
  eq_of_text_eq,
}
use klyvero.Security.Network.{is_empty}

unfoldable pub constant_time_equals : Text → Text → Bool
unfolding text_eq
constant_time_equals left right = not (is_empty left) && not (is_empty right) && text_eq left right

-- An absent secret never matches.
unfoldable pub secret_eq : Option Text → Option Text → Bool
unfolding constant_time_equals
secret_eq (some left) (some right) = constant_time_equals left right
secret_eq _ _ = false

pub constant_time_equals_refl : (s : Text) → is_empty s ≡ false → constant_time_equals s s ≡ true
unfolding constant_time_equals
constant_time_equals_refl s h = rw (h, text_eq_refl s) refl

pub eq_of_constant_time_equals : (s t : Text) → constant_time_equals s t ≡ true → s ≡ t
unfolding constant_time_equals
eq_of_constant_time_equals s t h = eq_of_text_eq s t (ground arith)
