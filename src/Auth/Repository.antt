-- ===== src/Auth/Repository.antt =====
-- services/auth/internal/repository/{auth,token}.go, internal/ratelimit/ratelimit.go and
-- services/shared/pkg/valkey/scripts.go: the statements on the database and on Valkey.
use efir.Prelude.{
  ℕ, suc, ◌+◌, String, [], ◌∷◌, ◌++◌, ◌||◌, Option, none, some, ◌==◌, if◌then◌else◌, find_if,
  is_some, ltb, nat_eq, string_eq, Equality,
}
use efir.Prelude.Keyed.{Map, lookup, insert, erase}
use efir.Exec.{Result, ok, err, read, write}
use efir.Auth.Types.{
  Account, Entry, Action, login, register, Db, RepoError, account_not_found, token_not_found,
  unique_violation, rate_limit_exceeded, backend, Repo,
}

unfoldable pub select_account : String → Db → Option Account
select_account email db = find_if (λ a. a.email == email) db.accounts

abbrev pub select_id : ℕ → Db → Option Account
select_id id db = find_if (λ a. a.id == id) db.accounts

-- INSERT INTO accounts: the primary key and the unique email.
unfoldable pub insert_account : Account → Db → Result RepoError Account × Db
insert_account a db =
    if is_some (select_id a.id db) || is_some (select_account a.email db)
    then (err unique_violation, db)
    else (ok a, record db { accounts = db.accounts ++ a ∷ [] })

abbrev pub new_account : String → String → ℕ → ℕ → Account
new_account email password_hash id now = record {
  id = id;
  email = email;
  password_hash = password_hash;
  created_at = now;
  updated_at = now;
}

unfoldable pub create_account : String → String → ℕ → Repo Account
create_account email password_hash id =
    write backend (λ db. insert_account (new_account email password_hash id db.now) db)

abbrev pub account_found : Option Account → Result RepoError Account
account_found none = err account_not_found
account_found (some a) = ok a

unfoldable pub get_account_by_email : String → Repo Account
get_account_by_email email = read backend (λ db. account_found (select_account email db))

unfoldable pub get_account_by_id : ℕ → Repo Account
get_account_by_id id = read backend (λ db. account_found (select_id id db))

-- GET: a key that has expired is not there.
abbrev pub unexpired : ℕ → Option Entry → Option Entry
unexpired now none = none
unexpired now (some e) = if ltb now e.expires_at then some e else none

unfoldable pub get : {K : Type 0} ⦃eq : Equality K⦄ → K → ℕ → Map K Entry → Option Entry
get key now m = unexpired now (lookup key m)

-- SET … EX
unfoldable pub save_token : ℕ → ℕ → ℕ → Db → Result RepoError (Unit {0}) × Db
save_token user_id token ttl db = (
  ok tt,
  record db {
    refresh = insert token (record { value = user_id; expires_at = db.now + ttl }) db.refresh;
  },
)

unfoldable pub save_refresh_token : ℕ → ℕ → ℕ → Repo (Unit {0})
save_refresh_token user_id token ttl = write backend (save_token user_id token ttl)

abbrev pub token_found : Option Entry → Result RepoError ℕ
token_found none = err token_not_found
token_found (some e) = ok e.value

unfoldable pub get_user_id_by_refresh_token : ℕ → Repo ℕ
get_user_id_by_refresh_token token = read backend (λ db. token_found (get token db.now db.refresh))

unfoldable pub delete_refresh_token : ℕ → Repo (Unit {0})
delete_refresh_token token =
    write backend (λ db. (ok tt, record db { refresh = erase token db.refresh }))

-- GetAndDeleteScript
unfoldable pub get_and_delete : ℕ → Db → Result RepoError ℕ × Db
get_and_delete token db =
    (token_found (get token db.now db.refresh), record db { refresh = erase token db.refresh })

unfoldable pub revive_refresh_token : ℕ → Repo ℕ
revive_refresh_token token = write backend (get_and_delete token)

-- IncrWithExpiryScript: the counter after the increment, and when it expires. Only the first
-- increment sets the time.
unfoldable pub incr_with_expiry : ℕ → ℕ → Option Entry → Entry
incr_with_expiry window now none = record { value = 1; expires_at = now + window }
incr_with_expiry window now (some e) = record { value = suc e.value; expires_at = e.expires_at }

abbrev pub set_limits : Action → Map String Entry → Db → Db
set_limits login m db = record db {
  limits = λ a. elim a [ login ↦ m | register ↦ db.limits register ];
}
set_limits register m db = record db {
  limits = λ a. elim a [ login ↦ db.limits login | register ↦ m ];
}

unfoldable pub count : ℕ → ℕ → Action → String → Db → Result RepoError (Unit {0}) × Db
count limit window action email db =
    let e = incr_with_expiry window db.now (get email db.now (db.limits action)) in
    (
      (if ltb limit e.value then err rate_limit_exceeded else ok tt),
      set_limits action (insert email e (db.limits action)) db,
    )

unfoldable pub allow : ℕ → ℕ → Action → String → Repo (Unit {0})
allow limit window action email = write backend (count limit window action email)
