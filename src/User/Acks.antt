-- ===== src/User/Acks.antt =====
-- services/user: what the subscriber has acknowledged.
use efir.Prelude.{
  ℕ, zero, suc, String, ◌≡◌, refl, ◌∙◌, [], ◌∷◌, true, Option, none, some, is_some, nat_eq,
  string_eq, arith,
}
use efir.Exec.{
  Result, ok, err, pure, raise, ◌>>=◌, attempt, on_error, publish, ignore_error, running,
}
use efir.Exec.Ends.{publish_db}
use efir.User.Types.{User, RepoError, backend, Answer, ack, nak, term, UserWorld}
use efir.User.Repository
use efir.User.Repository.{
  select_user, username_exists, insert_user, new_user, edit, update_users, check_user_exists_by_id,
  check_username_exists,
}
use efir.User.Service
use efir.User.Service.{after_create, try_username, create_attempts, handle_message, wrapped, reply}
use efir.User.Rules.{insert_there}

repo_create :
    (id : ℕ) (s : String) (now : ℕ) (w : UserWorld) (u : User)
    → (Repository.create_user id s s now w).0 ≡ ok u
    → ((insert_user (new_user id s s now) w.db).0 ≡ ok u)
      × ((Repository.create_user id s s now w).1.db ≡ (insert_user (new_user id s s now) w.db).1)
unfolding Repository.create_user check_user_exists_by_id check_username_exists running
repo_create id s now w u h = ground arith

repo_exists :
    (id : ℕ) (s : String) (now : ℕ) (w : UserWorld) (u : User)
    → (Repository.create_user id s s now w).0 ≡ ok u
    → is_some (select_user id (Repository.create_user id s s now w).1.db) ≡ true
repo_exists id s now w u h =
    let (i, d) = repo_create id s now w u h in rw d (insert_there id s now w.db u i)

get_exists :
    (id : ℕ) (w : UserWorld) (u : User)
    → (on_error wrapped (Repository.get_user_by_id id) w).0 ≡ ok u
    → is_some (select_user id (on_error wrapped (Repository.get_user_by_id id) w).1.db) ≡ true
unfolding Repository.get_user_by_id running
get_exists id w u h = ground arith

-- A user whom CreateUser returns is there, whatever the outcomes of the calls.
create_exists :
    (n id : ℕ) (names : ℕ → Option String) (now : ℕ) (w : UserWorld) (u : User)
    → (create_attempts n id names now w).0 ≡ ok u
    → is_some (select_user id (create_attempts n id names now w).1.db) ≡ true
unfolding create_attempts after_create try_username pure raise ◌>>=◌ attempt
create_exists zero id names now w u = λ h. cc
create_exists (suc n) id names now w u =
    first (λ v. create_exists n id (λ i. names (suc i)) now v u) (names 0)
  where
    next : Service.Service User
    next = create_attempts n id (λ i. names (suc i)) now

    after :
        ((v : UserWorld) → (next v).0 ≡ ok u → is_some (select_user id (next v).1.db) ≡ true)
        → (r : Result RepoError User) (v : UserWorld)
        → ((a : User) → r ≡ ok a → is_some (select_user id v.db) ≡ true)
        → (after_create id next r v).0 ≡ ok u
        → is_some (select_user id (after_create id next r v).1.db) ≡ true
    after ih (ok a) v e h = e a refl
    after ih (err RepoError.user_already_exists) v e h = get_exists id v u h
    after ih (err RepoError.username_already_exists) v e h = ih v h
    after ih (err RepoError.user_not_found) v e h = cc
    after ih (err RepoError.backend) v e h = cc

    first :
        ((v : UserWorld) → (next v).0 ≡ ok u → is_some (select_user id (next v).1.db) ≡ true)
        → (o : Option String) → (try_username id now next o w).0 ≡ ok u
        → is_some (select_user id (try_username id now next o w).1.db) ≡ true
    first ih none h = cc
    first ih (some s) h =
        after ih (Repository.create_user id s s now w).0 (Repository.create_user id s s now w).1
          (λ a e. repo_exists id s now w a e) h

publish_keeps :
    (a : Answer) (w : UserWorld)
    → (ignore_error {E = RepoError} {F = RepoError} (publish backend a) w).1.db ≡ w.db
unfolding ignore_error
publish_keeps a w = publish_db backend a w

repo_events :
    (id : ℕ) (s : String) (now : ℕ) (w : UserWorld)
    → (Repository.create_user id s s now w).1.events ≡ w.events
unfolding Repository.create_user check_user_exists_by_id check_username_exists running
repo_events id s now w = ground arith

get_events :
    (id : ℕ) (w : UserWorld)
    → (on_error wrapped (Repository.get_user_by_id id) w).1.events ≡ w.events
unfolding Repository.get_user_by_id running
get_events id w = ground arith

create_events :
    (n id : ℕ) (names : ℕ → Option String) (now : ℕ) (w : UserWorld)
    → (create_attempts n id names now w).1.events ≡ w.events
unfolding create_attempts after_create try_username pure raise ◌>>=◌ attempt
create_events zero id names now w = refl
create_events (suc n) id names now w = first (create_events n id (λ i. names (suc i)) now) (names 0)
  where
    next : Service.Service User
    next = create_attempts n id (λ i. names (suc i)) now

    after :
        ((v : UserWorld) → (next v).1.events ≡ v.events)
        → (r : Result RepoError User) (v : UserWorld) → v.events ≡ w.events
        → (after_create id next r v).1.events ≡ w.events
    after ih (ok a) v e = e
    after ih (err RepoError.user_already_exists) v e = get_events id v ∙ e
    after ih (err RepoError.username_already_exists) v e = ih v ∙ e
    after ih (err RepoError.user_not_found) v e = e
    after ih (err RepoError.backend) v e = e

    first :
        ((v : UserWorld) → (next v).1.events ≡ v.events)
        → (o : Option String) → (try_username id now next o w).1.events ≡ w.events
    first ih none = refl
    first ih (some s) =
        after ih (Repository.create_user id s s now w).0 (Repository.create_user id s s now w).1
          (repo_events id s now w)

-- The user that an answer is about.
abbrev about : Answer → ℕ
about (ack id) = id
about (nak id) = id
about term = 0

told :
    (a : Answer) (w : UserWorld)
    → w.events ≡ []
    → (ignore_error {E = RepoError} {F = RepoError} (publish backend a) w).1.events
      ≡ ack (about a) ∷ []
    → a ≡ ack (about a)
unfolding ignore_error publish
told a w e h = ground (arith, e, h)

-- If the subscriber, which has answered nothing before, has acknowledged the event of a user, whatever
-- the outcomes of its calls, the user is in the table: no event is acknowledged and lost.
pub handle_message_acks :
    (id : ℕ) (names : ℕ → Option String) (now : ℕ) (w : UserWorld)
    → w.events ≡ []
    → (handle_message (some id) names now w).1.events ≡ ack id ∷ []
    → is_some (select_user id (handle_message (some id) names now w).1.db) ≡ true
unfolding handle_message Service.create_user ◌>>=◌ attempt
handle_message_acks id names now w none_yet acked =
    rw
      (publish_keeps (reply id (create_attempts 3 id names now w).0)
        (create_attempts 3 id names now w).1)
      (go (create_attempts 3 id names now w).0 refl acked)
  where
    go :
        (r : Result Service.ServiceError User)
        → (create_attempts 3 id names now w).0 ≡ r
        → (ignore_error {E = RepoError} {F = RepoError}
            (publish backend (reply id r))
            (create_attempts 3 id names now w).1).1.events
          ≡ ack id ∷ []
        → is_some (select_user id (create_attempts 3 id names now w).1.db) ≡ true
    go (ok u) e h = create_exists 3 id names now w u e
    go (err x) e h = cc (
        told (nak id) (create_attempts 3 id names now w).1
          (create_events 3 id names now w ∙ none_yet) h)
