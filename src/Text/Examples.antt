-- ===== src/Text/Examples.antt =====
-- Runs of the text functions.
use klyvero.Common.{◌≡◌, refl, units}
use klyvero.Text.Phone.{phone_key}
use klyvero.Text.Phone.Key.{phone_key-same}

phone_key-same_example :
    (phone_key (units "+5511999990000") ≡ phone_key (units "11999990000"))
    × (phone_key (units "11999990000") ≡ phone_key (units "551199990000"))
phone_key-same_example =
    phone_key-same b'1' b'1' (units "99990000") refl refl
      (refl, (refl, (refl, (refl, (refl, (refl, (refl, (refl, tt)))))))) refl refl
