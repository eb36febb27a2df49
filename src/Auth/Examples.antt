-- ===== src/Auth/Examples.antt =====
-- The auth service's theorems at a token that is issued, used and lost, and at a limit of two.
use efir.Prelude.{ℕ, ◌≡◌, ◌≢◌, refl, List, [], ◌∷◌, some, nat_eq, ◌==◌, length, arith, string_eq}
use efir.Prelude.Keyed.{lookup}
use efir.Exec.{ok, Outcome, served, refused, running}
use efir.Auth.Types.{login, Db}
use efir.Auth.Repository
use efir.Auth.Repository.{get, get_and_delete, save_token}
use efir.Auth.Service
use efir.Auth.Service.{Config}
use efir.Auth.Tokens.{
  AuthWorld, Use, enter, sign_up, leave, run, refresh_token_once, refresh_token-logout,
}
use efir.Auth.Limits.{allowed, min, allowed_window}

abbrev settings : Config
settings = record {
  generate = λ p. some p;
  compare = λ h p. h == p;
  format = λ n. "id";
  sign = λ secret claims. some "jwt";
  secret = "secret";
  limit = 2;
  window = 60;
  access_ttl = 900;
  refresh_ttl = 1000;
}

abbrev db : Db
db = record {
  accounts =
      record { id = 1; email = "a@b.c"; password_hash = "pw"; created_at = 10; updated_at = 10 }
      ∷ [];
  refresh = (77, record { value = 1; expires_at = 500 }) ∷ [];
  limits = λ _. [];
  now = 100;
}

abbrev now_world : AuthWorld
now_world = record { db = db; outcomes = []; events = [] }

-- What else the service is asked: a login, and a registration that gets no reply from the database.
abbrev uses : List (Use × ℕ × List Outcome)
uses =
    (enter "a@b.c" "pw" 79, 5, [])
    ∷ (sign_up "d@e.f" "pw" 2 80, 9, served ∷ refused ∷ [])
    ∷ (leave 78, 1, [])
    ∷ []

refresh_token_once_example :
    (Service.refresh_token settings 77 81
      (run settings uses (Service.refresh_token settings 77 78 now_world).1)).0
    ≢ ok (record { access_token = "jwt"; refresh_token = 81 })
unfolding Service.refresh_token Repository.revive_refresh_token get_and_delete get
    Service.generate_token_pair Service.time_now Service.or_fail Repository.save_refresh_token
    save_token lookup running
refresh_token_once_example =
    refresh_token_once settings 77 78 81 now_world
      (record { access_token = "jwt"; refresh_token = 78 })
      (record { access_token = "jwt"; refresh_token = 81 }) uses refl refl
      (refl, (refl, (refl, tt)))

refresh_token-logout_example :
    (Service.refresh_token settings 77 81 (run settings uses (Service.logout 77 now_world).1)).0
    ≢ ok (record { access_token = "jwt"; refresh_token = 81 })
unfolding Service.logout Repository.delete_refresh_token running
refresh_token-logout_example =
    refresh_token-logout settings 77 81 now_world
      (record { access_token = "jwt"; refresh_token = 81 }) uses refl (refl, (refl, (refl, tt)))

abbrev times : List ℕ
times = 100 ∷ 110 ∷ 120 ∷ 159 ∷ []

allowed_window_example : allowed 2 60 login "a@b.c" times db ≡ min 2 (length times)
unfolding get lookup
allowed_window_example =
    allowed_window 2 60 login "a@b.c" 100 (110 ∷ 120 ∷ 159 ∷ []) db refl
      (omega arith, (omega arith, (omega arith, tt)))
