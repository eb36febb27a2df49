-- ===== src/User/Types.antt =====
-- services/user/internal/repository/user.go: the users, and how an event that was delivered is
-- answered. An identifier and a time are numbers.
use efir.Prelude.{ℕ, String, List, Option}
use efir.Exec.{World, Exec}

pub record User : Type 0 where
  pub id : ℕ
  pub username : String
  pub display_name : String
  pub avatar_url : Option String
  pub bio : Option String
  pub created_at : ℕ
  pub updated_at : ℕ

pub record Db : Type 0 where
  pub users : List User

pub data RepoError : Type 0 where
  user_not_found user_already_exists username_already_exists backend : RepoError

-- What the subscriber tells the bus about a message, with the user that the message is about.
pub data Answer : Type 0 where
  ack nak : ℕ → Answer
  term : Answer

abbrev pub UserWorld : Type 0
UserWorld = World Db Answer

abbrev pub Repo : Type 0 → Type 0
Repo A = Exec Db Answer RepoError A
