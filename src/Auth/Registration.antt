-- ===== src/Auth/Registration.antt =====
-- services/auth: what a Register that returns an account leaves in the table and on the bus.
use efir.Prelude.{
  ℕ, String, ◌≡◌, ap, sym, ◌∙◌, List, [], ◌∷◌, ◌++◌, Option, some, arith, string_eq, nat_eq, ◌⊎◌,
  inl, inr, find_if-append, eq_self, ◌==◌,
}
use mathlib.Core.Path.{subst}
use efir.Exec.{ok, Result, running, ◌>>◌, ignore_error, publish, pure, on_error, attempt}
use efir.Exec.Returns.{Returns, step-Returns, on_error_ok}
use efir.Auth.Types.{Account, TokenPair, AuthEvent, user_registered, RepoError, backend}
use efir.Auth.Types as AuthTypes
use efir.Auth.Repository as Accounts
use efir.Auth.Repository.{
  select_account, count, set_limits, save_token, insert_account, new_account, select_id,
}
use efir.Auth.Tokens.{AuthWorld}
use efir.Auth.Service as AuthService
use efir.Auth.Service.{
  allow_err, create_err, generate_token_pair, no_account, or_fail, time_now, hash_password,
}

module _ (email : String) where
  -- The account is there under its email.
  abbrev pub There : Account → AuthWorld → Type 0
  There acc v = select_account email v.db ≡ some acc

  allow_quiet :
      (limit window : ℕ) (w : AuthWorld)
      → (Accounts.allow limit window AuthTypes.register email w).1.events ≡ w.events
  unfolding Accounts.allow running
  allow_quiet limit window w = ground arith

  find_quiet : (w : AuthWorld) → (Accounts.get_account_by_email email w).1.events ≡ w.events
  unfolding Accounts.get_account_by_email running
  find_quiet w = ground arith

  create_account-There :
      (hash : String) (id : ℕ) (w : AuthWorld) (acc : Account)
      → (Accounts.create_account email hash id w).0 ≡ ok acc
      → (acc ≡ new_account email hash id w.db.now)
        × There acc (Accounts.create_account email hash id w).1
        × ((Accounts.create_account email hash id w).1.events ≡ w.events)
  unfolding Accounts.create_account insert_account select_account running
  create_account-There hash id w acc h = ground (
    arith,
    h,
    eq_self email,
    find_if-append (λ (a : Account). a.email == email) w.db.accounts
        (new_account email hash id w.db.now ∷ []),
  )

  token_pair_keeps :
      (c : AuthService.Config) (id token : ℕ) (w : AuthWorld) (acc : Account)
      → There acc w
      → There acc (generate_token_pair c id token w).1
        × ((generate_token_pair c id token w).1.events ≡ w.events)
  unfolding generate_token_pair time_now or_fail Accounts.save_refresh_token save_token
      select_account running
  token_pair_keeps c id token w acc h = ground (arith, h)

  told_keeps :
      (event : AuthEvent) (w : AuthWorld) (acc : Account)
      → There acc w
      → There acc
          (ignore_error {E = RepoError} {F = AuthService.ServiceError} (publish backend event) w).1
        × (((ignore_error {E = RepoError} {F = AuthService.ServiceError}
                (publish backend event)
                w).1.events
              ≡ w.events)
            ⊎ ((ignore_error {E = RepoError} {F = AuthService.ServiceError}
                  (publish backend event)
                  w).1.events
                ≡ w.events ++ event ∷ []))
  unfolding select_account ignore_error publish
  told_keeps event w acc h = ground (arith, h)

  -- What a Register that returns an account leaves: the account, and the event or nothing on the bus.
  abbrev pub Registered : ℕ → List AuthEvent → Account × TokenPair → AuthWorld → Type 0
  Registered id before (acc, tokens) v =
      (acc.id ≡ id)
      × (acc.email ≡ email)
      × There acc v
      × ((v.events ≡ before) ⊎ (v.events ≡ before ++ user_registered acc.id acc.email ∷ []))

  own_pair :
      (id : ℕ) (before : List AuthEvent) (acc : Account) (tokens : TokenPair) (v : AuthWorld)
      → Registered id before (acc, tokens) v
      → Returns (Registered id before) (pure {E = AuthService.ServiceError} (acc, tokens)) v
  unfolding pure
  own_pair id before acc tokens v known a h =
      subst (λ p. Registered id before p v) (same_pair (acc, tokens) a h) known
    where
      same_pair :
          (a b : Account × TokenPair)
          → ◌≡◌ {A = Result AuthService.ServiceError (Account × TokenPair)} (ok a) (ok b)
          → a ≡ b
      same_pair a b k = ground (arith, k)

  kept :
      (e : AuthService.ServiceError) (o : Option String) (v : AuthWorld) (a : String)
      (v' : AuthWorld)
      → or_fail e o v ≡ (ok a, v')
      → v' ≡ v
  unfolding or_fail running
  kept e o v a v' h = ground (arith, h)

  unused :
      (r : Result RepoError Account) (v v' : AuthWorld) (a : Unit {0})
      → no_account r v ≡ (ok a, v')
      → v' ≡ v
  unfolding no_account running
  unused r v v' a h = ground (arith, h)

  told_Registered :
      (id : ℕ) (before : List AuthEvent) (acc : Account) (tokens : TokenPair) (w : AuthWorld)
      → acc.id ≡ id
      → acc.email ≡ email
      → There acc w
      → w.events ≡ before
      → Returns
          (Registered id before)
          (do
            ignore_error {E = RepoError} (publish backend (user_registered acc.id acc.email))
            pure {E = AuthService.ServiceError} (acc, tokens))
          w
  told_Registered id before acc tokens w same_id same_email there events =
      step-Returns (Registered id before) _ _ w λ _ v e.
        let told = user_registered acc.id acc.email in
        let (t, k) = told_keeps told w acc there in
        let there' : There acc v = subst (There acc) (ap (λ p. p.1) e) t in
        let after : (v.events ≡ before) ⊎ (v.events ≡ before ++ told ∷ []) =
          subst (λ (u : AuthWorld). (u.events ≡ before) ⊎ (u.events ≡ before ++ told ∷ []))
            (ap (λ p. p.1) e)
            (elim k [
              | inl q ↦ inl (q ∙ events)
              | inr q ↦ inr (q ∙ ap (λ es. es ++ told ∷ []) events)
            ]) in
        own_pair id before acc tokens v (same_id, same_email, there', after)

  pub register-Registered :
      (c : AuthService.Config) (password : String) (id token : ℕ) (w : AuthWorld)
      → Returns (Registered id w.events) (AuthService.register c email password id token) w
  unfolding AuthService.register on_error attempt
  register-Registered c password id token w = step-Returns (Registered id w.events) _ _ w λ _ v1 e1.
      step-Returns (Registered id w.events) _ _ v1 λ existing v2 e2.
        step-Returns (Registered id w.events) _ _ v2 λ _ v3 e3.
          step-Returns (Registered id w.events) _ _ v3 λ hashed v4 e4.
            step-Returns (Registered id w.events) _ _ v4 λ acc v5 e5.
              step-Returns (Registered id w.events) _ _ v5 λ tokens v6 e6.
                let quiet : v4.events ≡ w.events =
                  ap (λ u. u.events) (kept hash_password (c.generate password) v3 hashed v4 e4)
                  ∙ ap (λ u. u.events) (unused existing v2 v3 _ e3)
                  ∙ sym (ap (λ p. p.1.events) e2)
                  ∙ find_quiet v1
                  ∙ sym (ap (λ p. p.1.events) e1)
                  ∙ allow_quiet c.limit c.window w in
                let (own, there, q5) = create_account-There hashed id v4 acc (
                  on_error_ok create_err (Accounts.create_account email hashed id) v4 acc
                    (ap (λ p. p.0) e5)) in
                let there5 : There acc v5 = subst (There acc) (ap (λ p. p.1) e5) there in
                let (t6, q6) = token_pair_keeps c acc.id token v5 acc there5 in
                told_Registered id w.events acc tokens v6 (ap (λ a. a.id) own)
                  (ap (λ a. a.email) own) (subst (There acc) (ap (λ p. p.1) e6) t6)
                  (sym (ap (λ p. p.1.events) e6) ∙ q6 ∙ sym (ap (λ p. p.1.events) e5) ∙ q5 ∙ quiet)
