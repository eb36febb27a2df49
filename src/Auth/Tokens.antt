-- ===== src/Auth/Tokens.antt =====
-- services/auth: the life of a refresh token.
use efir.Prelude.{
  ℕ, ◌≡◌, ◌≢◌, refl, Bool, false, Option, none, some, ◌==◌, nat_eq, arith, eq_self, Option-cases,
  inl, inr, ◌+◌, String, List, [], ◌∷◌,
}
use efir.Prelude.Keyed.{lookup, erase, lookup-erase, lookup-insert}
use efir.Exec.{Result, ok, World, Outcome, pure, raise, read, publish, ignore_error, running}
use efir.Exec.Ends.{
  Ends, read-Ends, write-Ends, fail_if-Ends, attempt-Ends, bind-Ends, read_db, publish_db,
  write_last-Ends,
}
use efir.Auth.Types.{
  Entry, Db, AuthEvent, RepoError, backend, TokenPair, Action, login, register, Account,
}
use efir.Auth.Repository
use efir.Auth.Repository.{
  get, unexpired, token_found, get_and_delete, save_token, count, set_limits, insert_account,
  new_account, account_found, select_account,
}
use efir.Auth.Service
use efir.Auth.Service.{
  Config, ServiceError, invalid_token, wrapped, or_fail, generate_token_pair, time_now, token_err,
  allow_err, login_err, create_err, no_account,
}

abbrev pub AuthWorld : Type 0
AuthWorld = World Db AuthEvent

-- The token is no key of Valkey.
abbrev pub Spent : ℕ → AuthWorld → Type 0
Spent token w = lookup token w.db.refresh ≡ none

refresh_spends :
    (c : Config) (token fresh : ℕ) (w : AuthWorld) (p : TokenPair)
    → (fresh == token) ≡ false
    → (Service.refresh_token c token fresh w).0 ≡ ok p
    → Spent token (Service.refresh_token c token fresh w).1
unfolding Service.refresh_token Repository.revive_refresh_token generate_token_pair time_now or_fail
    Repository.save_refresh_token save_token get_and_delete running
refresh_spends c token fresh w p ne h = elim (Option-cases (get token w.db.now w.db.refresh)) [
  | inl f ↦ absurd (ground (arith, f))
  | inr (e, f) ↦
      let entry : Entry = record { value = e.value; expires_at = w.db.now + c.refresh_ttl } in
      ground (
        arith,
        f,
        lookup-insert fresh token entry (erase token w.db.refresh),
        lookup-erase token token w.db.refresh,
        eq_self token,
      )
]

Spent-refuses :
    (c : Config) (token fresh : ℕ) (w : AuthWorld) (p : TokenPair)
    → Spent token w
    → (Service.refresh_token c token fresh w).0 ≡ ok p
    → ⊥
unfolding Service.refresh_token Repository.revive_refresh_token get_and_delete get running
Spent-refuses c token fresh w p s h = ground arith

logout_spends :
    (token : ℕ) (w : AuthWorld)
    → (Service.logout token w).0 ≡ ok tt
    → Spent token (Service.logout token w).1
unfolding Service.logout Repository.delete_refresh_token running
logout_spends token w h = ground (arith, lookup-erase token token w.db.refresh, eq_self token)

-- What the service is asked with tokens; each comes with the outcomes of its calls, and with the
-- time that has passed before it.
pub data Use : Type 0 where
  refresh : ℕ → ℕ → Use
  leave : ℕ → Use
  enter : String → String → ℕ → Use
  sign_up : String → String → ℕ → ℕ → Use

-- The token that a use may issue.
abbrev pub issues : Use → ℕ → Bool
issues (refresh _ fresh) t = fresh == t
issues (leave _) t = false
issues (enter _ _ fresh) t = fresh == t
issues (sign_up _ _ _ fresh) t = fresh == t

unfoldable pub serve : Config → Use → AuthWorld → AuthWorld
serve c (refresh token fresh) w = (Service.refresh_token c token fresh w).1
serve c (leave token) w = (Service.logout token w).1
serve c (enter email password fresh) w = (Service.login c email password fresh w).1
serve c (sign_up email password id fresh) w = (Service.register c email password id fresh w).1

unfoldable pub run : Config → List (Use × ℕ × List Outcome) → AuthWorld → AuthWorld
run c [] w = w
run c ((u, later, os) ∷ us) w =
    run c us (serve c u (record w { db = record w.db { now = w.db.now + later }; outcomes = os }))

abbrev pub NeverIssues : ℕ → List (Use × ℕ × List Outcome) → Type 0
NeverIssues t [] = Unit
NeverIssues t ((u, _, _) ∷ us) = (issues u t ≡ false) × NeverIssues t us

module _ (c : Config) (token : ℕ) where
  abbrev P : Db → List AuthEvent → Type 0
  P db _ = lookup token db.refresh ≡ none

  pair_keeps :
      (user fresh : ℕ) (w : AuthWorld)
      → (fresh == token) ≡ false
      → Spent token w
      → Spent token (generate_token_pair c user fresh w).1
  unfolding generate_token_pair time_now or_fail Repository.save_refresh_token save_token running
  pair_keeps user fresh w ne s =
      let entry : Entry = record { value = user; expires_at = w.db.now + c.refresh_ttl } in
      ground (arith, lookup-insert fresh token entry w.db.refresh)

  count_keeps :
      (limit window : ℕ) (a : Action) (email : String) (db : Db)
      → (count limit window a email db).1.refresh ≡ db.refresh
  unfolding count
  count_keeps limit window login email db = refl
  count_keeps limit window register email db = refl

  insert_keeps : (a : Account) (db : Db) → (insert_account a db).1.refresh ≡ db.refresh
  unfolding insert_account
  insert_keeps a db = ground arith

  or_fail_keeps :
      {A : Type 0} (e : ServiceError) (o : Option A) (w : AuthWorld)
      → Spent token w
      → Ends P (or_fail e o) w
  unfolding or_fail pure raise
  or_fail_keeps e none w s = s
  or_fail_keeps e (some a) w s = s

  no_account_keeps :
      (r : Result RepoError Account) (w : AuthWorld) → Spent token w → Ends P (no_account r) w
  unfolding no_account pure raise
  no_account_keeps r w s = ground arith

  login_keeps :
      (email password : String) (fresh : ℕ) (w : AuthWorld)
      → (fresh == token) ≡ false
      → Spent token w
      → Spent token (Service.login c email password fresh w).1
  unfolding Service.login Repository.allow Repository.get_account_by_email pure
  login_keeps email password fresh w ne s =
      write-Ends P allow_err backend _ _ w s (rw count_keeps s) λ w1 d1 _ _ _.
        let s1 : Spent token w1 = rw (d1, count_keeps) s in
        read-Ends P login_err backend _ _ w1 s1 λ w2 d2 acc _.
          let s2 : Spent token w2 = rw d2.same_db s1 in
          fail_if-Ends P _ _ _ w2 s2
            λ _. bind-Ends P _ _ w2 (pair_keeps acc.id fresh w2 ne s2) λ _ w3 s3. s3

  refresh_keeps :
      (old fresh : ℕ) (w : AuthWorld)
      → (fresh == token) ≡ false
      → Spent token w
      → Spent token (Service.refresh_token c old fresh w).1
  unfolding Service.refresh_token Repository.revive_refresh_token get_and_delete
  refresh_keeps old fresh w ne s =
      let gone : lookup token (erase old w.db.refresh) ≡ none =
        ground (arith, lookup-erase old token w.db.refresh) in
      write-Ends P token_err backend (get_and_delete old) _ w s gone
        λ w1 d1 _ user _. pair_keeps user fresh w1 ne (rw d1 gone)

  publish_keeps :
      (e : AuthEvent) (w : AuthWorld)
      → Spent token w
      → Ends P (ignore_error {E = RepoError} {F = ServiceError} (publish backend e)) w
  unfolding ignore_error
  publish_keeps e w s = rw (publish_db backend e w) s

  register_keeps :
      (email password : String) (id fresh : ℕ) (w : AuthWorld)
      → (fresh == token) ≡ false
      → Spent token w
      → Spent token (Service.register c email password id fresh w).1
  unfolding Service.register Repository.allow Repository.get_account_by_email
      Repository.create_account pure
  register_keeps email password id fresh w ne s =
      write-Ends P allow_err backend _ _ w s (rw count_keeps s) λ w1 d1 _ _ _.
        let s1 : Spent token w1 = rw (d1, count_keeps) s in
        attempt-Ends P _ _ w1 (
          let s2 : Spent token (read backend (λ db. account_found (select_account email db)) w1).1 =
            rw (read_db backend _ w1) s1 in
          bind-Ends P _ _ _ (no_account_keeps _ _ s2) λ _ w3 s3.
            bind-Ends P _ _ w3 (or_fail_keeps _ _ w3 s3) λ hashed w4 s4.
              write-Ends P create_err backend _ _ w4 s4 (rw insert_keeps s4) λ w5 d5 _ acc _.
                let s5 : Spent token w5 = rw (d5, insert_keeps) s4 in
                bind-Ends P _ _ w5 (pair_keeps acc.id fresh w5 ne s5)
                  λ _ w6 s6. bind-Ends P _ _ w6 (publish_keeps _ w6 s6) λ _ w7 s7. s7)

  logout_keeps : (old : ℕ) (w : AuthWorld) → Spent token w → Spent token (Service.logout old w).1
  unfolding Service.logout Repository.delete_refresh_token
  logout_keeps old w s =
      write_last-Ends P wrapped backend _ w s (ground (arith, lookup-erase old token w.db.refresh))

  run_keeps :
      (us : List (Use × ℕ × List Outcome)) (w : AuthWorld)
      → NeverIssues token us
      → Spent token w
      → Spent token (run c us w)
  unfolding run serve
  run_keeps [] w n s = s
  run_keeps ((refresh old fresh, _, _) ∷ us) w n s =
      run_keeps us _ n.1 (refresh_keeps old fresh _ n.0 s)
  run_keeps ((leave old, _, _) ∷ us) w n s = run_keeps us _ n.1 (logout_keeps old _ s)
  run_keeps ((enter email password fresh, _, _) ∷ us) w n s =
      run_keeps us _ n.1 (login_keeps email password fresh _ n.0 s)
  run_keeps ((sign_up email password id fresh, _, _) ∷ us) w n s =
      run_keeps us _ n.1 (register_keeps email password id fresh _ n.0 s)

-- A refresh token serves once: after a RefreshToken that returned a new pair, and after any other
-- uses of the service that do not issue the same token again, whatever the outcomes of their calls
-- and however late, RefreshToken refuses it.
pub refresh_token_once :
    (c : Config) (token fresh again : ℕ) (w : AuthWorld) (p q : TokenPair)
    (us : List (Use × ℕ × List Outcome))
    → (fresh == token) ≡ false
    → (Service.refresh_token c token fresh w).0 ≡ ok p
    → NeverIssues token us
    → (Service.refresh_token c token again (run c us (Service.refresh_token c token fresh w).1)).0
      ≢ ok q
refresh_token_once c token fresh again w p q us ne h n k =
    Spent-refuses c token again _ q
      (run_keeps c token us _ n (refresh_spends c token fresh w p ne h)) k

-- After a logout of a refresh token that succeeds, no refresh with that token succeeds, whatever the
-- uses of the service between, as long as none of them draws that token as its new one.
pub refresh_token-logout :
    (c : Config) (token again : ℕ) (w : AuthWorld) (q : TokenPair)
    (us : List (Use × ℕ × List Outcome))
    → (Service.logout token w).0 ≡ ok tt
    → NeverIssues token us
    → (Service.refresh_token c token again (run c us (Service.logout token w).1)).0 ≢ ok q
refresh_token-logout c token again w q us h n k =
    Spent-refuses c token again _ q (run_keeps c token us _ n (logout_spends token w h)) k
