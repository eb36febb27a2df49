-- ===== src/User/Repository.antt =====
-- services/user/internal/repository/user.go: each method is its SQL statements on the table.
use efir.Prelude.{
  ℕ, String, List, [], ◌∷◌, ◌++◌, map, Bool, ◌||◌, Option, none, some, ◌==◌, if◌then◌else◌, find_if,
  keep_if, any_of, is_some, contains, nat_eq, string_eq,
}
use efir.Exec.{Result, ok, err, pure, read, write, ◌>>=◌, ◌>>◌, fail_if}
use efir.User.Types.{
  User, Db, RepoError, user_not_found, user_already_exists, username_already_exists, backend, Repo,
}

unfoldable pub select_user : ℕ → Db → Option User
select_user id db = find_if (λ u. u.id == id) db.users

unfoldable pub username_exists : String → Db → Bool
username_exists username db = any_of (λ u. u.username == username) db.users

abbrev pub new_user : ℕ → String → String → ℕ → User
new_user id username display_name now = record {
  id = id;
  username = username;
  display_name = display_name;
  avatar_url = none;
  bio = none;
  created_at = now;
  updated_at = now;
}

-- INSERT INTO users: the primary key and the unique username. The statement has no ON CONFLICT, so
-- that a conflict is an error of the database.
unfoldable pub insert_user : User → Db → Result RepoError User × Db
insert_user u db =
    if is_some (select_user u.id db) || username_exists u.username db
    then (err backend, db)
    else (ok u, record { users = db.users ++ u ∷ [] })

unfoldable pub check_user_exists_by_id : ℕ → Repo Bool
check_user_exists_by_id id = read backend (λ db. ok (is_some (select_user id db)))

unfoldable pub check_username_exists : String → Repo Bool
check_username_exists username = read backend (λ db. ok (username_exists username db))

unfoldable pub create_user : ℕ → String → String → ℕ → Repo User
create_user id username display_name now = do
  existing_by_id ← check_user_exists_by_id id
  fail_if existing_by_id user_already_exists
  existing_by_username ← check_username_exists username
  fail_if existing_by_username username_already_exists
  write backend (insert_user (new_user id username display_name now))

abbrev pub user_found : Option User → Result RepoError User
user_found none = err user_not_found
user_found (some u) = ok u

unfoldable pub get_user_by_id : ℕ → Repo User
get_user_by_id id = read backend (λ db. user_found (select_user id db))

-- WHERE id = ANY($1); no id asks nothing.
unfoldable pub get_users_by_ids : List ℕ → Repo (List User)
get_users_by_ids [] = pure []
get_users_by_ids (id ∷ ids) =
    read backend (λ db. ok (keep_if (λ u. contains (id ∷ ids) u.id) db.users))

-- An empty text is stored as NULL.
abbrev pub or_null : String → Option String
or_null s = if s == "" then none else some s

abbrev pub set_name : Option String → User → User
set_name none u = u
set_name (some s) u = record u { display_name = s }

abbrev pub set_avatar : Option String → User → User
set_avatar none u = u
set_avatar (some s) u = record u { avatar_url = or_null s }

abbrev pub set_bio : Option String → User → User
set_bio none u = u
set_bio (some s) u = record u { bio = or_null s }

unfoldable pub edit : ℕ → Option String → Option String → Option String → ℕ → User → User
edit id display_name avatar_url bio now u =
    if u.id == id
    then set_bio bio (set_avatar avatar_url (set_name display_name (record u { updated_at = now })))
    else u

-- UPDATE users SET updated_at = now(), … WHERE id = $1 RETURNING …
unfoldable pub update_users :
    ℕ → Option String → Option String → Option String → ℕ → Db → Result RepoError User × Db
update_users id display_name avatar_url bio now db =
    let db' : Db = record { users = map (edit id display_name avatar_url bio now) db.users } in
    (user_found (select_user id db'), db')

unfoldable pub update_user : ℕ → Option String → Option String → Option String → ℕ → Repo User
update_user id display_name avatar_url bio now =
    write backend (update_users id display_name avatar_url bio now)
