-- ===== src/Signup/Examples.antt =====
-- A registration on a platform with one invitation.
use klyvero.Common.{
  ◌+◌, ◌≡◌, refl, arith, [], ◌∷◌, none, some, units, text_eq, length, find_first, count_where,
  update_many,
}
use klyvero.Signup.{Invite, Db, Crypto}
use klyvero.Signup.Registration.{Signup, commit_signup, new_tenant, new_owner}
use klyvero.Signup.Trace.{Event, Reach}
use klyvero.Signup.SingleUse.{is_used, Reach-balance}
use klyvero.Signup.Unique.{IsUnique, Reach-IsUnique}

abbrev crypto : Crypto
crypto = record { hash_token = λ t. 35 ∷ t; hash_password = λ t. 36 ∷ t; lower = λ t. t }

abbrev invite : Invite
invite = record {
  id = 5;
  tenant_id = 1;
  created_by = 2;
  label = units "Ana";
  email = none;
  token_hash = 35 ∷ units "k";
  expires_at = 9000;
  used_at = none;
  revoked_at = none;
  used_by_tenant = none;
}

abbrev before : Db
before = record { tenants = []; users = []; invites = invite ∷ []; next_id = 10 }

abbrev request : Signup
request = record {
  token = units "k";
  email = units "a@b";
  slug = units "ana";
  document = units "529.982.247-25";
  password = units "pw";
  company_name = units "Ana";
  responsible_name = units "Ana";
}

abbrev after : Db
after = record {
  tenants = new_tenant crypto request invite 10 ∷ [];
  users = new_owner crypto request 10 ∷ [];
  invites = record invite { used_at = some 1000; used_by_tenant = some 10 } ∷ [];
  next_id = 12;
}

registered : Reach crypto before after
unfolding commit_signup find_first count_where update_many text_eq
registered = Reach.next Reach.here (Event.registers before after 1000 invite request refl)

Reach-balance_example :
    length after.tenants + count_where is_used before.invites
    ≡ length before.tenants + count_where is_used after.invites
Reach-balance_example = Reach-balance crypto before after registered

Reach-IsUnique_example : IsUnique after
unfolding count_where
Reach-IsUnique_example =
    Reach-IsUnique crypto before after registered
      record { emails = λ v. omega arith; documents = λ v. omega arith; slugs = λ v. omega arith }
