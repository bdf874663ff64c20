-- ===== src/Auth/Examples.antt =====
-- Runs of the session operations on a small database.
use klyvero.Common.{
  ◌≤◌, ◌≡◌, refl, arith, true, false, [], ◌∷◌, none, some, units, text_eq, err, find_first,
  count_where, select, update_many, order_desc, unauthorized, trim, trim_start,
}
use klyvero.Security.AuthDefense.{assert_allowed}
use klyvero.Auth.Model.{
  owner, Tenant, User, Session, ResetToken, Db, Crypto, Settings, Redis, Fresh,
}
use klyvero.Auth.Login.{
  is_active, find_account, keys_for, note_success, make_room, surplus, new_session, open_session,
  authenticate, Tokens, attempt, login, logout, logout_all,
}
use klyvero.Auth.Refresh.{owner_of, rotate, refresh}
use klyvero.Auth.Reset.{usable_token, use_token, reset_password}
use klyvero.Auth.Refresh.Families.{is_live_in}
use klyvero.Auth.Login.Cap.{login-le_twenty}
use klyvero.Auth.Reset.Spent.{IsReset, reset_password-IsReset}
use klyvero.Auth.Trace.{System, with_db, Event, Reach}
use klyvero.Auth.Trace.Single.{Reach-le_one, Reach-Single, empty-Single}
use klyvero.Auth.Trace.Shut.{IsShut, Reach-IsShut}
use klyvero.Auth.Trace.Replay.{refresh-replay, rotate-concurrent}

abbrev crypto : Crypto
crypto = record {
  hash_token = λ t. 35 ∷ t;
  hash_password = λ t. 36 ∷ t;
  verify = λ h p. text_eq h (36 ∷ p);
  dummy_hash = [];
  sign = λ u. u.email;
  account_print = λ t. 1;
  combo_print = λ n t. 2;
  lower = λ t. t;
}

abbrev settings : Settings
settings = record {
  refresh_days = 30;
  reset_minutes = 30;
  recovery_code = none;
  defense = record {
    window_seconds = 900;
    account_threshold = 20;
    combo_threshold = 8;
    account_lock_seconds = 300;
    combo_lock_seconds = 600;
  };
}

abbrev redis : Redis
redis = record { locked = some false; counts = none; deleted = true }

abbrev acme : Tenant
acme = record { id = 1; name = units "Acme"; slug = units "acme"; active = true }

abbrev ana : User
ana = record {
  id = 7;
  tenant_id = 1;
  name = units "Ana";
  email = units "ana";
  password_hash = 36 ∷ units "pw";
  role = owner;
  active = true;
  last_login_at = none;
}

abbrev reset : ResetToken
reset = record {
  id = 1;
  user_id = 7;
  token_hash = 35 ∷ units "r";
  expires_at = 5000;
  used_at = none;
  created_at = 100;
}

abbrev empty : Db
empty = record {
  tenants = acme ∷ [];
  users = ana ∷ [];
  sessions = [];
  reset_tokens = reset ∷ [];
  audits = [];
  fallback = [];
  locks = [];
}

abbrev first : Fresh
first = record { session_id = 1; family_id = 1; token = units "t" }

abbrev second : Fresh
second = record { session_id = 2; family_id = 2; token = units "v" }

abbrev third : Fresh
third = record { session_id = 3; family_id = 3; token = units "w" }

abbrev live : Session
live = record {
  id = 1;
  user_id = 7;
  family_id = 1;
  token_hash = 35 ∷ units "t";
  parent_token_hash = none;
  replaced_by_token_hash = none;
  expires_at = 9000;
  revoked_at = none;
  reason = none;
  created_at = 100;
}

abbrev dead : Session
dead = record live { revoked_at = some 150 }

abbrev tokens : Tokens
tokens = record { access_token = units "ana"; refresh_token = units "t"; user = ana }

login-le_twenty_example :
    count_where
      (is_active 7 1000)
      (login crypto settings redis 1000 first
        (units "acme")
        (units "ana")
        (units "pw")
        none
        empty).0.sessions
    ≤ 20
unfolding login authenticate attempt find_account find_first text_eq trim trim_start assert_allowed
    keys_for
login-le_twenty_example =
    login-le_twenty crypto settings redis 1000 first (units "acme") (units "ana") (units "pw") none
      empty tokens refl

reset_password-IsReset_example :
    (r : ResetToken) × (usable_token crypto 1000 (units "r") empty ≡ some r)
    × IsReset crypto 1000
        (units "new")
        r
        empty
        (reset_password crypto 1000 (units "r") (units "new") empty).0
unfolding reset_password usable_token use_token find_first text_eq owner_of count_where
reset_password-IsReset_example =
    reset_password-IsReset crypto 1000 (units "r") (units "new") empty refl

abbrev start : System
start = record { db = empty; pending = [] }

abbrev logged_in : System
logged_in =
    with_db start
      (login crypto settings redis 1000 first (units "acme") (units "ana") (units "pw") none
        empty).0

first_login : Reach crypto settings start logged_in
first_login = Reach.next Reach.here (
    Event.logs_in start redis 1000 first (units "acme") (units "ana") (units "pw") none
      record { id_unused = tt; id_unread = tt; family_unused = tt })

Reach-le_one_example : count_where (is_live_in 1) logged_in.db.sessions ≤ 1
Reach-le_one_example = Reach-le_one crypto settings start logged_in refl refl first_login 1

abbrev replayed : Db
replayed = record empty { sessions = dead ∷ [] }

refresh-replay_example :
    ((refresh crypto settings 1000 second (some (units "t")) replayed).1
      ≡ err (unauthorized "Refresh session is no longer valid"))
    × IsShut 1 (refresh crypto settings 1000 second (some (units "t")) replayed).0.sessions
unfolding find_first text_eq
refresh-replay_example =
    refresh-replay crypto settings 1000 second (units "t") replayed dead refl refl

abbrev with_live : Db
with_live = record empty { sessions = live ∷ [] }

rotate-concurrent_example :
    ((rotate crypto settings 1001 third live ana
        (rotate crypto settings 1000 second live ana with_live).0).1
      ≡ err (unauthorized "Refresh session replay detected"))
    × (count_where
          (is_live_in 1)
          (rotate crypto settings 1001 third live ana
            (rotate crypto settings 1000 second live ana with_live).0).0.sessions
        ≡ 0)
unfolding rotate count_where
rotate-concurrent_example =
    rotate-concurrent crypto settings 1000 1001 second third live ana with_live
      record { access_token = units "ana"; refresh_token = units "v"; user = ana }
      (λ e. ground arith) refl

abbrev logged_out : System
logged_out = with_db logged_in (logout crypto 1100 (some (units "t")) logged_in.db)

then_out : Reach crypto settings start logged_out
then_out = Reach.next first_login (Event.logs_out logged_in 1100 (some (units "t")))

abbrev asked : System
asked = with_db logged_out (logout_all 1200 7 logged_out.db)

Reach-IsShut_example : count_where (is_live_in 1) asked.db.sessions ≡ 0
unfolding login authenticate attempt find_account find_first text_eq trim trim_start assert_allowed
    keys_for logout update_many count_where open_session new_session make_room surplus select
    order_desc note_success
Reach-IsShut_example =
    Reach-IsShut crypto settings logged_out asked 1
      (Reach-Single crypto settings start logged_out empty-Single then_out) (refl, refl)
      (Reach.next Reach.here (Event.logs_out_all logged_out 1200 7))
