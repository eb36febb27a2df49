-- ===== src/User/Examples.antt =====
-- The user service's theorems at a table of two users, and at an event that is delivered.
use efir.Prelude.{
  ℕ, zero, suc, String, ◌≡◌, refl, [], ◌∷◌, true, Option, none, some, is_some, string_eq, nat_eq,
  ◌==◌, if◌then◌else◌,
}
use efir.Exec.{running}
use efir.Shared.Json.{Encoding}
use efir.Auth.Types.{Account, user_registered}
use efir.Auth.Publisher
use efir.Auth.Repository as Accounts
use efir.Auth.Repository.{select_account, count, incr_with_expiry, get, save_token, insert_account}
use efir.Auth.Service as AuthService
use efir.Auth.Service.{Config}
use efir.Auth.Tokens.{AuthWorld}
use efir.Prelude.Keyed.{lookup, insert}
use efir.User.Types.{Db}
use efir.User.Repository
use efir.User.Repository.{select_user, new_user, username_exists}
use efir.User.Service
use efir.User.Service.{handle_message}
use efir.User.Rules.{served_world}
use efir.User.Acks.{handle_message_acks}
use efir.User.Subscriber.{handle_data}
use efir.User.Registration.{IsDelivered, register-handle_data}

abbrev db : Db
db = record { users = new_user 1 "owl" "owl" 10 ∷ new_user 2 "fox" "fox" 11 ∷ [] }

-- The first name that is generated is taken.
abbrev names : ℕ → Option String
names zero = some "fox"
names (suc n) = some "elk"

handle_message_acks_example :
    is_some (select_user 3 (handle_message (some 3) names 20 (served_world db [])).1.db) ≡ true
unfolding handle_message Service.create_user Service.create_attempts Service.try_username
    Service.after_create Repository.create_user Repository.check_user_exists_by_id
    Repository.check_username_exists Repository.insert_user select_user username_exists running
handle_message_acks_example = handle_message_acks 3 names 20 (served_world db []) refl refl

abbrev settings : Config
settings = record {
  generate = λ p. some p;
  compare = λ h p. h == p;
  format = λ n. if n == 1 then "one" else "two";
  sign = λ secret claims. some "jwt";
  secret = "secret";
  limit = 2;
  window = 60;
  access_ttl = 900;
  refresh_ttl = 1000;
}

abbrev no_accounts : AuthWorld
no_accounts = record {
  db = record { accounts = []; refresh = []; limits = λ _. []; now = 100 };
  outcomes = [];
  events = [];
}

abbrev format : ℕ → String
format id = if id == 3 then "three" else "other"

abbrev parse : String → Option ℕ
parse t = if t == "three" then some 3 else none

-- An encoding that reads the event of the third account.
abbrev encoding : Encoding
encoding = record {
  marshal = λ _. some "bytes";
  unmarshal = λ _. some (Publisher.publication format (user_registered 3 "a@b.c")).1;
}

abbrev account : Account
account = record {
  id = 3;
  email = "a@b.c";
  password_hash = "pw";
  created_at = 100;
  updated_at = 100;
}

register-handle_data_example :
    (account.id ≡ 3)
    × (select_account "a@b.c" (AuthService.register settings "a@b.c" "pw" 3 77 no_accounts).1.db
        ≡ some account)
    × IsDelivered encoding parse "bytes" 3 names 30
        (new_user 3 "elk" "elk" 20)
        (handle_data encoding parse "bytes" names 20 (served_world db [])).1
unfolding AuthService.register Accounts.allow count incr_with_expiry get AuthService.no_account
    Accounts.create_account Accounts.get_account_by_email AuthService.generate_token_pair
    AuthService.time_now AuthService.or_fail Accounts.save_refresh_token save_token insert_account
    select_account running lookup insert select_user username_exists
register-handle_data_example =
    register-handle_data settings "a@b.c" "pw" 3 77 no_accounts account
      (record { access_token = "jwt"; refresh_token = 77 }) (user_registered 3 "a@b.c") encoding
      parse format "bytes" names names 20 30 db "elk" refl refl refl (refl, refl) refl refl refl
      refl
