-- ===== src/User/Service.antt =====
-- services/user/internal/service/user.go and internal/nats/subscriber.go. What pkg.GenerateUsername
-- gives at each attempt, a name or an error, is an argument.
use efir.Prelude.{ℕ, zero, suc, String, List, Option, none, some}
use efir.Exec.{Result, ok, err, Exec, pure, raise, publish, ◌>>=◌, on_error, attempt, ignore_error}
use efir.User.Types.{User, Db, RepoError, backend, Answer, ack, nak, term}
use efir.User.Repository

pub data ServiceError : Type 0 where
  user_not_found generate_username no_unique_username : ServiceError
  wrapped : RepoError → ServiceError

abbrev pub Service : Type 0 → Type 0
Service A = Exec Db Answer ServiceError A

abbrev pub user_err : RepoError → ServiceError
user_err RepoError.user_not_found = user_not_found
user_err e = wrapped e

-- What follows an attempt: the user, the one that was there already, the next attempt, or the error.
unfoldable pub after_create : ℕ → Service User → Result RepoError User → Service User
after_create id next (ok u) = pure u
after_create id next (err RepoError.user_already_exists) =
    on_error wrapped (Repository.get_user_by_id id)
after_create id next (err RepoError.username_already_exists) = next
after_create id next (err e) = raise (wrapped e)

unfoldable pub try_username : ℕ → ℕ → Service User → Option String → Service User
try_username id now next none = raise generate_username
try_username id now next (some username) =
    attempt (Repository.create_user id username username now) >>= after_create id next

-- The loop, with the attempts that are left and the names that are still to be generated.
unfoldable pub create_attempts : ℕ → ℕ → (ℕ → Option String) → ℕ → Service User
create_attempts zero id names now = raise no_unique_username
create_attempts (suc n) id names now =
    try_username id now (create_attempts n id (λ i. names (suc i)) now) (names 0)

unfoldable pub create_user : ℕ → (ℕ → Option String) → ℕ → Service User
create_user id names now = create_attempts 3 id names now

unfoldable pub get_user : ℕ → Service User
get_user id = on_error user_err (Repository.get_user_by_id id)

unfoldable pub get_users : List ℕ → Service (List User)
get_users ids = on_error wrapped (Repository.get_users_by_ids ids)

unfoldable pub update_user : ℕ → Option String → Option String → Option String → ℕ → Service User
update_user id display_name avatar_url bio now =
    on_error user_err (Repository.update_user id display_name avatar_url bio now)

abbrev pub reply : ℕ → Result ServiceError User → Answer
reply id (ok _) = ack id
reply id (err _) = nak id

-- handleMessage, of a message whose data reads as a user's id or does not.
unfoldable pub handle_message :
    Option ℕ → (ℕ → Option String) → ℕ → Exec Db Answer RepoError (Unit {0})
handle_message none names now = ignore_error {E = RepoError} (publish backend term)
handle_message (some id) names now = attempt (create_user id names now) >>= λ r.
    ignore_error {E = RepoError} (publish backend (reply id r))
