-- ===== src/User/Registration.antt =====
-- services/auth and services/user together: what a registration makes of the bus and of the profiles.
use efir.Prelude.{
  ℕ, String, ◌≡◌, refl, ap, sym, ◌∙◌, List, [], ◌∷◌, ◌++◌, Option, none, some, arith, string_eq,
  nat_eq, ◌⊎◌, inl, inr, find_if, find_if-append, eq_self, Bool-cases, is_some, ◌||◌, ◌==◌, true,
}
use mathlib.Core.Path.{subst}
use efir.Exec.{ok, running}
use efir.Exec.Returns.{only_event}
use efir.Shared.Json.{Encoding, IsWritten, string_field}
use efir.Auth.Types.{Account, TokenPair, AuthEvent, user_registered}
use efir.Auth.Publisher
use efir.Auth.Repository.{select_account}
use efir.Auth.Tokens.{AuthWorld}
use efir.Auth.Service as AuthService
use efir.Auth.Service.{
  allow_err, create_err, generate_token_pair, no_account, or_fail, time_now, hash_password,
}
use efir.User.Types.{User, UserWorld, Db, Answer, ack}
use efir.User.Repository.{select_user, new_user}
use efir.User.Service
use efir.User.Service.{handle_message}
use efir.User.Rules.{
  served_world, first_free, create_user_served, create_user_again, select_inserted,
}
use efir.User.Subscriber.{fill, read_user_id, handle_data}
use efir.Auth.Registration.{register-Registered}

read_publication :
    (encoding : Encoding) (parse : String → Option ℕ) (format : ℕ → String) (bytes : String)
    (id : ℕ) (email : String)
    → IsWritten encoding (Publisher.publication format (user_registered id email)).1 bytes
    → parse (format id) ≡ some id
    → read_user_id encoding parse bytes ≡ some id
unfolding read_user_id Publisher.publication fill string_field efir.Prelude.Keyed.lookup
read_publication encoding parse format bytes id email written e = rw (written.1, read_user_id) e

-- What a served delivery of a new user's event leaves.
handled :
    (encoding : Encoding) (parse : String → Option ℕ) (bytes : String) (id : ℕ)
    (names : ℕ → Option String) (now : ℕ) (db : Db) (s : String)
    → read_user_id encoding parse bytes ≡ some id
    → select_user id db ≡ none
    → first_free 3 names db ≡ some s
    → (handle_data encoding parse bytes names now (served_world db [])).1
      ≡ served_world (record { users = db.users ++ new_user id s s now ∷ [] }) (ack id ∷ [])
unfolding handle_data handle_message Service.create_user running
handled encoding parse bytes id names now db s read absent free =
    rw (read, create_user_served 3 id names now db [] s absent free) refl

-- And a delivery of the event of a user who is there.
handled_again :
    (encoding : Encoding) (parse : String → Option ℕ) (bytes : String) (id : ℕ)
    (names : ℕ → Option String) (now : ℕ) (db : Db) (answers : List Answer) (u : User)
    → read_user_id encoding parse bytes ≡ some id
    → select_user id db ≡ some u
    → is_some (names 0) ≡ true
    → (handle_data encoding parse bytes names now (served_world db answers)).1
      ≡ served_world db (answers ++ ack id ∷ [])
unfolding handle_data handle_message running
handled_again encoding parse bytes id names now db answers u read there named =
    rw (read, create_user_again id names now db answers u there named) refl

-- The first delivery and one more.
abbrev pub IsDelivered :
    Encoding
    → (String → Option ℕ)
    → String
    → ℕ
    → (ℕ → Option String)
    → ℕ
    → User
    → UserWorld
    → Type 0
IsDelivered encoding parse bytes id names now u v =
    (v.events ≡ ack id ∷ [])
    × (select_user id v.db ≡ some u)
    × ((handle_data encoding parse bytes names now v).1 ≡ served_world v.db (ack id ∷ ack id ∷ []))

delivered :
    (encoding : Encoding) (parse : String → Option ℕ) (bytes : String) (id : ℕ)
    (names names' : ℕ → Option String) (now later : ℕ) (db : Db) (s : String)
    → read_user_id encoding parse bytes ≡ some id
    → select_user id db ≡ none
    → first_free 3 names db ≡ some s
    → is_some (names' 0) ≡ true
    → IsDelivered encoding parse bytes id names' later
        (new_user id s s now)
        (handle_data encoding parse bytes names now (served_world db [])).1
unfolding select_user
delivered encoding parse bytes id names names' now later db s read absent free named =
    let there = select_inserted id db.users (new_user id s s now) absent refl in
    subst (IsDelivered encoding parse bytes id names' later (new_user id s s now))
      (sym (handled encoding parse bytes id names now db s read absent free))
      (
        refl,
        there,
        handled_again encoding parse bytes id names' later _ (ack id ∷ []) (new_user id s s now)
            read there named,
      )

-- If a Register returns an account, whatever the outcomes of its calls, and its event is not lost,
-- the account is there under its email, and the user service, in a served call, acknowledges the
-- event's data and keeps a profile with the account's id, under the first generated name that is free
-- of three; an event that is delivered once more, when a name can be generated again, is acknowledged
-- again and changes nothing. The JSON and the account's UUID are read back as they are written, nothing
-- was published and no such profile was there before.
pub register-handle_data :
    (c : AuthService.Config) (email password : String) (id token : ℕ) (w : AuthWorld)
    (acc : Account) (tokens : TokenPair) (event : AuthEvent) (encoding : Encoding)
    (parse : String → Option ℕ) (format : ℕ → String) (bytes : String) (names : ℕ → Option String)
    (names' : ℕ → Option String) (now later : ℕ) (db : Db) (s : String)
    → w.events ≡ []
    → (AuthService.register c email password id token w).0 ≡ ok (acc, tokens)
    → (AuthService.register c email password id token w).1.events ≡ event ∷ []
    → IsWritten encoding (Publisher.publication format event).1 bytes
    → parse (format id) ≡ some id
    → select_user id db ≡ none
    → first_free 3 names db ≡ some s
    → is_some (names' 0) ≡ true
    → (acc.id ≡ id)
      × (select_account email (AuthService.register c email password id token w).1.db ≡ some acc)
      × IsDelivered encoding parse bytes id names' later
          (new_user id s s now)
          (handle_data encoding parse bytes names now (served_world db [])).1
register-handle_data c email password id token w acc tokens event encoding parse format bytes names
      names' now later db s quiet h sent written parsed absent free named =
    let (same_id, same_email, there, told) =
      register-Registered email c password id token w (acc, tokens) h in
    let same : event ≡ user_registered id acc.email =
      only_event w.events _ event (user_registered acc.id acc.email) quiet sent told
      ∙ ap (λ i. user_registered i acc.email) same_id in
    let read =
      read_publication encoding parse format bytes id acc.email
        (subst (λ e. IsWritten encoding (Publisher.publication format e).1 bytes) same written)
        parsed in
    (
      same_id,
      there,
      delivered encoding parse bytes id names names' now later db s read absent free named,
    )
