-- ===== src/User/Rules.antt =====
-- services/user: CreateUser, and the subscriber that calls it.
use efir.Prelude.{
  ℕ, zero, suc, String, ◌≡◌, refl, ◌∙◌, List, [], ◌∷◌, ◌++◌, true, false, ◌||◌, Option, none, some,
  ◌==◌, if◌then◌else◌, find_if, is_some, nat_eq, string_eq, arith, eq_self, or_else, find_if-append,
  Option-cases, Bool-cases, inl, inr,
}
use efir.Exec.{ok, running}
use efir.User.Types.{User, Db, Answer, UserWorld}
use efir.User.Repository
use efir.User.Repository.{
  select_user, username_exists, insert_user, new_user, edit, update_users, check_user_exists_by_id,
  check_username_exists,
}
use efir.User.Service
use efir.User.Service.{after_create, try_username, create_attempts, handle_message, wrapped, reply}

abbrev pub served_world : Db → List Answer → UserWorld
served_world db answers = record { db = db; outcomes = []; events = answers }

-- A served CreateUser of a user who is there already returns the user as stored and changes nothing,
-- if a name could be generated.
pub create_user_again :
    (id : ℕ) (names : ℕ → Option String) (now : ℕ) (db : Db) (answers : List Answer) (u : User)
    → select_user id db ≡ some u
    → is_some (names 0) ≡ true
    → Service.create_user id names now (served_world db answers) ≡ (ok u, served_world db answers)
unfolding Service.create_user create_attempts try_username after_create Repository.create_user
    Repository.get_user_by_id check_user_exists_by_id running
create_user_again id names now db answers u e f = elim (Option-cases (names 0)) [
  | inl g ↦ ground (arith, g)
  | inr (s, g) ↦ rw (g, e) (rw e refl)
]

-- Of the names that are generated, the first that is free.
abbrev pub first_free : ℕ → (ℕ → Option String) → Db → Option String
first_free zero names db = none
first_free (suc n) names db =
    let rest = first_free n (λ i. names (suc i)) db in
    elim (names 0) [ none ↦ none | some s ↦ if username_exists s db then rest else some s ]

pub select_inserted :
    (id : ℕ) (us : List User) (u : User)
    → find_if (λ v. v.id == id) us ≡ none
    → u.id ≡ id
    → find_if (λ v. v.id == id) (us ++ u ∷ []) ≡ some u
select_inserted id us u h e =
    ground (arith, find_if-append (λ (v : User). v.id == id) us (u ∷ []), eq_self id)

inserted :
    (id : ℕ) (t : String) (now : ℕ) (db : Db)
    → select_user id db ≡ none
    → username_exists t db ≡ false
    → insert_user (new_user id t t now) db
      ≡ (ok (new_user id t t now), record { users = db.users ++ new_user id t t now ∷ [] })
unfolding insert_user
inserted id t now db absent new = rw (absent, new) refl

pub insert_there :
    (id : ℕ) (t : String) (now : ℕ) (db : Db) (u : User)
    → (insert_user (new_user id t t now) db).0 ≡ ok u
    → is_some (select_user id (insert_user (new_user id t t now) db).1) ≡ true
unfolding insert_user select_user
insert_there id t now db u h =
    elim (Bool-cases (is_some (select_user id db) || username_exists t db)) [
      | inl e ↦ cc (rw e at h)
      | inr e ↦
          rw e
            (there (find_if-append (λ (v : User). v.id == id) db.users (new_user id t t now ∷ [])))
    ]
  where
    there :
        find_if (λ (v : User). v.id == id) (db.users ++ new_user id t t now ∷ [])
          ≡ or_else
              (find_if (λ (v : User). v.id == id) db.users)
              (find_if (λ (v : User). v.id == id) (new_user id t t now ∷ []))
        → is_some (find_if (λ (v : User). v.id == id) (db.users ++ new_user id t t now ∷ [])) ≡ true
    there e = rw e (rw (eq_self id) (last (find_if (λ (v : User). v.id == id) db.users)))
      where
        last : (o : Option User) → is_some (or_else o (some (new_user id t t now))) ≡ true
        last none = refl
        last (some v) = refl

module _ (n id : ℕ) (names : ℕ → Option String) (now : ℕ) (db : Db) (answers : List Answer)
    (t : String) (g : names 0 ≡ some t) (absent : select_user id db ≡ none) where
  attempt_taken :
      username_exists t db ≡ true
      → create_attempts (suc n) id names now (served_world db answers)
        ≡ create_attempts n id (λ i. names (suc i)) now (served_world db answers)
  unfolding create_attempts try_username after_create Repository.create_user check_user_exists_by_id
      check_username_exists running
  attempt_taken taken = rw g (rw (absent, taken) refl)

  attempt_new :
      username_exists t db ≡ false
      → create_attempts (suc n) id names now (served_world db answers) ≡ (
        ok (new_user id t t now),
        served_world (record { users = db.users ++ new_user id t t now ∷ [] }) answers,
      )
  unfolding create_attempts try_username after_create Repository.create_user check_user_exists_by_id
      check_username_exists running
  attempt_new new = rw g (rw (absent, new, inserted id t now db absent new) refl)

-- What a served CreateUser of a new user returns and leaves.
pub create_user_served :
    (n id : ℕ) (names : ℕ → Option String) (now : ℕ) (db : Db) (answers : List Answer) (s : String)
    → select_user id db ≡ none
    → first_free n names db ≡ some s
    → create_attempts n id names now (served_world db answers) ≡ (
      ok (new_user id s s now),
      served_world (record { users = db.users ++ new_user id s s now ∷ [] }) answers,
    )
create_user_served zero id names now db answers s absent free = cc
create_user_served (suc n) id names now db answers s absent free = elim (Option-cases (names 0)) [
  | inl g ↦ absurd (ground (arith, g))
  | inr (t, g) ↦ elim (Bool-cases (username_exists t db)) [
    | inl taken ↦
        attempt_taken n id names now db answers t g absent taken
        ∙ create_user_served n id (λ i. names (suc i)) now db answers s absent
            (ground (arith, g, taken))
    | inr new ↦
        let same : t ≡ s = ground (arith, g, new) in
        rw (← same) (attempt_new n id names now db answers t g absent new)
  ]
]

-- A served CreateUser of a new user takes the first of three generated names that is free, and the
-- user is then there under it.
create_user_new :
    (id : ℕ) (names : ℕ → Option String) (now : ℕ) (db : Db) (answers : List Answer) (s : String)
    → select_user id db ≡ none
    → first_free 3 names db ≡ some s
    → ((Service.create_user id names now (served_world db answers)).0 ≡ ok (new_user id s s now))
      × (select_user id (Service.create_user id names now (served_world db answers)).1.db
          ≡ some (new_user id s s now))
unfolding Service.create_user select_user
create_user_new id names now db answers s absent free =
    rw (create_user_served 3 id names now db answers s absent free)
      (refl, select_inserted id db.users (new_user id s s now) absent refl)
