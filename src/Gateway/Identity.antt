-- ===== src/Gateway/Identity.antt =====
-- services/gateway and services/auth together: the session that a login opens is the user's own.
use efir.Prelude.{
  ℕ, ◌+◌, ◌≤◌, ◌<◌, String, ◌≡◌, ◌≢◌, refl, sym, ap, ◌∙◌, Bool, true, Option, some, arith,
  string_eq,
}
use efir.Exec.{
  Result, ok, err, World, running, pure, Outcome, served, refused, reply_lost, first_outcome,
  advance,
}
use efir.Exec.Returns.{bind_ok, on_error_ok, fail_if_world}
use efir.Shared.Errors.{Code, GrpcCode, to_http_code, from_error, to_grpc_code}
use efir.Auth.Types.{Account, TokenPair}
use efir.Auth.Repository
use efir.Auth.Repository.{select_account, count, set_limits, save_token}
use efir.Auth.Tokens.{AuthWorld}
use efir.Auth.Service
use efir.Auth.Service.{Config, Claims, access_token_claims, generate_token_pair, time_now, or_fail}
use efir.Auth.Handler
use efir.Auth.Handler.{Packages, SessionResponse, response_to_proto, validate}
use efir.Gateway.Http.{
  Response, write_error, write_code, remote, answer, call, with_body, read_proto,
}
use efir.Gateway.Access.{Parser, subject, key_func}
use efir.Gateway.Sessions
use efir.Gateway.Sessions.{Codec, auth_cookies, opened}

service_login :
    (c : Config) (email password : String) (token : ℕ) (w : AuthWorld) (acc : Account)
    (tokens : TokenPair)
    → (Service.login c email password token w).0 ≡ ok (acc, tokens)
    → (select_account email w.db ≡ some acc)
      × (c.sign c.secret (access_token_claims c acc.id w.db.now) ≡ some tokens.access_token)
      × (tokens.refresh_token ≡ token)
unfolding Service.login Repository.allow count Repository.get_account_by_email generate_token_pair
    time_now or_fail Repository.save_refresh_token save_token select_account running
service_login c email password token w acc tokens h = ground (arith, h)

handler_login :
    (packages : Packages) (c : Config) (email password : String) (token : ℕ) (w : AuthWorld)
    (resp : SessionResponse)
    → (Handler.login packages c email password token w).0 ≡ ok resp
    → (acc : Account) × (tokens : TokenPair) × (select_account email w.db ≡ some acc)
      × (c.sign c.secret (access_token_claims c acc.id w.db.now) ≡ some tokens.access_token)
      × (tokens.refresh_token ≡ token)
      × (resp ≡ response_to_proto packages c (acc, tokens))
unfolding Handler.login validate pure
handler_login packages c email password token w resp h =
    let (_, e0, h1) = bind_ok _ _ w resp h in
    let ((acc, tokens), e1, h2) = bind_ok _ _ _ resp (rw validate_world at h1) in
    let (account, signed, fresh) =
      service_login c email password token w acc tokens (on_error_ok _ _ w (acc, tokens) e1) in
    (
      acc,
      tokens,
      account,
      signed,
      fresh,
      own_value resp (response_to_proto packages c (acc, tokens)) h2,
    )
  where
    own_value :
        (a b : SessionResponse) → ◌≡◌ {A = Result Code SessionResponse} (ok b) (ok a) → a ≡ b
    own_value a b k = ground (arith, k)

    validate_world : (validate packages c (Handler.login_request email password) w).1 ≡ w
    validate_world = fail_if_world _ _ w

code_status : (code : Code) → to_http_code code ≢ 200
unfolding to_http_code
code_status code h = ground (arith, h)

write_error_status : (e : Option GrpcCode) → (write_error e).status ≢ 200
unfolding write_error write_code
write_error_status e h = code_status (from_error e) h

-- A response with the status 200 is made of an answer that was served.
pub call_ok :
    {D V A : Type 0} (failure : GrpcCode) (m : World D V → Result Code A × World D V)
    (f : A → Response) (w : World D V)
    → (call failure m f w).0.status ≡ 200
    → (a : A) × ((m (advance w)).0 ≡ ok a) × ((call failure m f w).0 ≡ f a)
unfolding call remote answer
call_ok {D = D} {V = V} {A = A} failure m f w h =
    go (first_outcome w.outcomes) refl (m (advance w)).0 refl
  where
    Answered : Type 0
    Answered = (a : A) × ((m (advance w)).0 ≡ ok a) × ((call failure m f w).0 ≡ f a)

    failed : (e : Option GrpcCode) → (call failure m f w).0 ≡ write_error e → Answered
    failed e k = absurd (write_error_status e (ap (λ r. r.status) (sym k) ∙ h))

    go :
        (o : Outcome)
        → first_outcome w.outcomes ≡ o
        → (r : Result Code A) → (m (advance w)).0 ≡ r
        → Answered
    go served eo (ok a) er = (a, er, rw (eo, remote, er, answer) refl)
    go served eo (err code) er =
        failed (some (to_grpc_code code)) (rw (eo, remote, er, answer) refl)
    go refused eo r er = failed (some failure) (rw (eo, remote, answer) refl)
    go reply_lost eo r er = failed (some failure) (rw (eo, remote, answer) refl)

subject_valid :
    (parse : Parser) (secret token sub : String)
    → parse (key_func secret) token ≡ some (record { valid = true; claims = some (some sub) })
    → sub ≢ ""
    → subject parse secret (some token) ≡ some sub
unfolding subject
subject_valid parse secret token sub e named = ground (arith, e, string_eq.same_iff sub "")

-- What the JWT library documents: a token that it has signed with HS256 by a secret is parsed, by a
-- function that has that secret for HMAC, as valid and with the claims that were signed, from the
-- time of its issue on and before it expires.
abbrev pub IsJwt : Config → Parser → ℕ → Type 0
IsJwt c parse now =
    (keys : Bool → Option String) (secret token : String) (claims : Claims)
    → c.sign secret claims ≡ some token
    → keys true ≡ some secret
    → claims.iat ≤ now
    → now < claims.exp
    → parse keys token ≡ some (record { valid = true; claims = some (some claims.sub) })

module _ (packages : Packages) (c : Config) (codec : Codec) (failure : GrpcCode) (max_body_size : ℕ)
    (secure : Bool) (parse : Parser) where
  opened_cookies :
      (acc : Account) (tokens : TokenPair)
      → (opened packages c codec failure max_body_size secure
          (response_to_proto packages c (acc, tokens))).cookies
        ≡ auth_cookies secure tokens.access_token tokens.refresh_token
  unfolding opened response_to_proto
  opened_cookies acc tokens = refl

  -- A login through the gateway that is answered with 200 sets a cookie that stands for the account
  -- with the email and for no other: whatever the outcomes of the calls, the token in the cookie
  -- access_token is taken by the gateway's check, with the auth service's secret, as the id of that
  -- account, at any time from the login on until the lifetime of the token has passed. The id's text
  -- is not empty, and the JWT library parses what it has signed.
  pub login_proves :
      (body : Option String) (token : ℕ) (w : AuthWorld) (acc : Account) (email password : String)
      → read_proto max_body_size codec.read_credentials body ≡ ok (email, password)
      → select_account email w.db ≡ some acc
      → (later : ℕ) → IsJwt c parse later
      → w.db.now ≤ later
      → later < w.db.now + c.access_ttl
      → c.format acc.id ≢ ""
      → (Sessions.login packages c codec failure max_body_size secure body token w).0.status ≡ 200
      → (access : String) × ((Sessions.login packages c codec failure max_body_size secure body
            token w).0.cookies
          ≡ auth_cookies secure access token)
        × (subject parse c.secret (some access) ≡ some (c.format acc.id))
  unfolding Sessions.login with_body access_token_claims key_func
  login_proves body token w acc email password readable account later proves from until named h =
      let (resp, served_ok, made) =
        call_ok failure (Handler.login packages c email password token)
          (opened packages c codec failure max_body_size secure) w (rw readable at h) in
      let (acc', tokens, found, signed, fresh, shape) =
        handler_login packages c email password token (advance w) resp served_ok in
      let same : acc' ≡ acc = own_account acc' acc (sym found ∙ account) in
      let checked =
        proves (key_func c.secret) c.secret tokens.access_token
          (access_token_claims c acc.id w.db.now) (rw (← same) signed) refl from until in
      (
        tokens.access_token,
        rw readable (
            ap (λ r. r.cookies)
              (made ∙ ap (opened packages c codec failure max_body_size secure) shape)
            ∙ opened_cookies acc' tokens
            ∙ ap (auth_cookies secure tokens.access_token) fresh),
        subject_valid parse c.secret tokens.access_token (c.format acc.id) checked named,
      )
    where
      own_account : (a b : Account) → ◌≡◌ {A = Option Account} (some a) (some b) → a ≡ b
      own_account a b k = ground (arith, k)
