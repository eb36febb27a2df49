-- ===== src/Auth/Types.antt =====
-- services/auth: accounts, refresh tokens and rate limits, as the database and Valkey keep them. A
-- token and an identifier are numbers; a time and a duration count seconds.
use efir.Prelude.{ℕ, String, List}
use efir.Prelude.Keyed.{Map}
use efir.Exec.{Exec}

pub record Account : Type 0 where
  pub id : ℕ
  pub email : String
  pub password_hash : String
  pub created_at : ℕ
  pub updated_at : ℕ

pub record TokenPair : Type 0 where
  pub access_token : String
  pub refresh_token : ℕ

-- A key of Valkey with the time at which it expires.
pub record Entry : Type 0 where
  pub value : ℕ
  pub expires_at : ℕ

pub data Action : Type 0 where
  login register : Action

-- The accounts, the keys auth:refresh:… and the keys auth:ratelimit:…, and the clock.
pub record Db : Type 0 where
  pub accounts : List Account
  pub refresh : Map ℕ Entry
  pub limits : Action → Map String Entry
  pub now : ℕ

pub data RepoError : Type 0 where
  account_not_found token_not_found unique_violation rate_limit_exceeded backend : RepoError

pub data AuthEvent : Type 0 where
  user_registered : ℕ → String → AuthEvent

abbrev pub Repo : Type 0 → Type 0
Repo A = Exec Db AuthEvent RepoError A
