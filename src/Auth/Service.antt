-- ===== src/Auth/Service.antt =====
-- services/auth/internal/service/auth.go. bcrypt and the JWT library are parameters. A new account's
-- id and a new refresh token, both from a generator of UUIDs, are arguments.
use efir.Prelude.{ℕ, ◌+◌, String, Bool, not, Option, none, some}
use efir.Exec.{
  Result, ok, err, Exec, pure, raise, publish, ◌>>=◌, ◌>>◌, fail_if, on_error, attempt,
  ignore_error,
}
use efir.Auth.Types.{Account, TokenPair, Action, Db, RepoError, backend, AuthEvent, user_registered}
use efir.Auth.Repository

pub data ServiceError : Type 0 where
  account_already_exists invalid_credentials invalid_token rate_limit_exceeded : ServiceError
  hash_password sign_token : ServiceError
  wrapped : RepoError → ServiceError

abbrev pub Service : Type 0 → Type 0
Service A = Exec Db AuthEvent ServiceError A

-- The MapClaims of an access token.
pub record Claims : Type 0 where
  pub sub : String
  pub exp : ℕ
  pub iat : ℕ

-- bcrypt.GenerateFromPassword and CompareHashAndPassword, UUID.String, SignedString of a token with
-- HS256, by the secret and the claims, and the settings.
pub record Config : Type 0 where
  pub generate : String → Option String
  pub compare : String → String → Bool
  pub format : ℕ → String
  pub sign : String → Claims → Option String
  pub secret : String
  pub limit : ℕ
  pub window : ℕ
  pub access_ttl : ℕ
  pub refresh_ttl : ℕ

abbrev pub allow_err : RepoError → ServiceError
allow_err RepoError.rate_limit_exceeded = rate_limit_exceeded
allow_err e = wrapped e

abbrev pub create_err : RepoError → ServiceError
create_err RepoError.unique_violation = account_already_exists
create_err e = wrapped e

abbrev pub login_err : RepoError → ServiceError
login_err RepoError.account_not_found = invalid_credentials
login_err e = wrapped e

abbrev pub token_err : RepoError → ServiceError
token_err RepoError.token_not_found = invalid_token
token_err e = wrapped e

unfoldable pub or_fail : {A : Type 0} → ServiceError → Option A → Service A
or_fail e none = raise e
or_fail e (some a) = pure a

-- time.Now()
unfoldable pub time_now : Service ℕ
time_now w = (ok w.db.now, w)

-- The map that generateTokenPair builds.
unfoldable pub access_token_claims : Config → ℕ → ℕ → Claims
access_token_claims c user_id now = record {
  sub = c.format user_id;
  exp = now + c.access_ttl;
  iat = now;
}

unfoldable pub generate_token_pair : Config → ℕ → ℕ → Service TokenPair
unfolding access_token_claims
generate_token_pair c user_id token = do
  now ← time_now
  access ← or_fail sign_token (c.sign c.secret (access_token_claims c user_id now))
  on_error wrapped (Repository.save_refresh_token user_id token c.refresh_ttl)
  pure (record { access_token = access; refresh_token = token })

-- No account is what Register hopes for.
unfoldable pub no_account : Result RepoError Account → Service (Unit {0})
no_account (ok _) = raise account_already_exists
no_account (err RepoError.account_not_found) = pure tt
no_account (err e) = raise (wrapped e)

unfoldable pub register : Config → String → String → ℕ → ℕ → Service (Account × TokenPair)
register c email password id token = do
  on_error allow_err (Repository.allow c.limit c.window Action.register email)
  existing ← attempt (Repository.get_account_by_email email)
  no_account existing
  hashed ← or_fail hash_password (c.generate password)
  acc ← on_error create_err (Repository.create_account email hashed id)
  tokens ← generate_token_pair c acc.id token
  ignore_error {E = RepoError} (publish backend (user_registered acc.id acc.email))
  pure (acc, tokens)

unfoldable pub login : Config → String → String → ℕ → Service (Account × TokenPair)
login c email password token = do
  on_error allow_err (Repository.allow c.limit c.window Action.login email)
  acc ← on_error login_err (Repository.get_account_by_email email)
  fail_if (not (c.compare acc.password_hash password)) invalid_credentials
  tokens ← generate_token_pair c acc.id token
  pure (acc, tokens)

unfoldable pub logout : ℕ → Service (Unit {0})
logout token = on_error wrapped (Repository.delete_refresh_token token)

unfoldable pub refresh_token : Config → ℕ → ℕ → Service TokenPair
refresh_token c token new_token = do
  user_id ← on_error token_err (Repository.revive_refresh_token token)
  generate_token_pair c user_id new_token
