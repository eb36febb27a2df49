-- ===== src/Auth/Limits.antt =====
-- services/auth/internal/ratelimit/ratelimit.go: the calls that a rate limit lets through.
use efir.Prelude.{
  ℕ, suc, ◌+◌, ◌-◌, ◌≡◌, ◌<◌, refl, String, List, [], ◌∷◌, Option, none, some, if◌then◌else◌,
  nat_eq, string_eq, arith, All, ltb, length, Bool-cases, inl, inr,
}
use efir.Prelude.Keyed.{Map, lookup, lookup-insert_self}
use efir.Exec.{ok, err}
use efir.Auth.Types.{Entry, Db, Action, login, register, RepoError}
use efir.Auth.Repository.{get, incr_with_expiry, count, set_limits}

abbrev pub min : ℕ → ℕ → ℕ
min m n = if ltb m n then m else n

-- How many of the calls at these times are let through.
unfoldable pub allowed : ℕ → ℕ → Action → String → List ℕ → Db → ℕ
allowed limit window action email [] db = 0
allowed limit window action email (t ∷ ts) db =
    let (r, db') = count limit window action email (record db { now = t }) in
    let rest = allowed limit window action email ts db' in elim r [ ok _ ↦ suc rest | err _ ↦ rest ]

module _ (limit window : ℕ) (action : Action) (email : String) where
  abbrev entry : Db → Option Entry
  entry db = lookup email (db.limits action)

  limits_set : (a : Action) (m : Map String Entry) (db : Db) → (set_limits a m db).limits a ≡ m
  limits_set login m db = refl
  limits_set register m db = refl

  count_answer :
      (t : ℕ) (db : Db)
      → (count limit window action email (record db { now = t })).0 ≡ (
          if ltb limit (incr_with_expiry window t (get email t (db.limits action))).value
          then err RepoError.rate_limit_exceeded
          else ok tt)
  unfolding count
  count_answer t db = refl

  allowed_step :
      (t : ℕ) (ts : List ℕ) (db : Db)
      → let rest =
          allowed limit window action email ts
            (count limit window action email (record db { now = t })).1 in
        allowed limit window action email (t ∷ ts) db ≡ (
          if ltb limit (incr_with_expiry window t (get email t (db.limits action))).value
          then rest
          else suc rest)
  unfolding allowed
  allowed_step t ts db =
      let answer = count_answer t db in
      elim (Bool-cases
        (ltb limit (incr_with_expiry window t (get email t (db.limits action))).value)) [
          | inl f ↦ ground (arith, f, rw f at answer)
          | inr f ↦ ground (arith, f, rw f at answer)
        ]

  get_live :
      (t : ℕ) (db : Db) (e : Entry)
      → entry db ≡ some e
      → t < e.expires_at
      → get email t (db.limits action) ≡ some e
  unfolding get
  get_live t db e h k = rw h (ground arith)

  entry-count :
      (t : ℕ) (db : Db)
      → entry (count limit window action email (record db { now = t })).1
        ≡ some (incr_with_expiry window t (get email t (db.limits action)))
  unfolding count
  entry-count t db = rw (limits_set, lookup-insert_self) refl

  -- While the counter lives it lets through what is left of the limit.
  allowed_live :
      (ts : List ℕ) (db : Db) (e : Entry)
      → entry db ≡ some e
      → All (λ t. t < e.expires_at) ts
      → allowed limit window action email ts db ≡ min (limit - e.value) (length ts)
  unfolding allowed incr_with_expiry
  allowed_live [] db e h k = ground arith
  allowed_live (t ∷ ts) db e h k =
      let live : get email t (db.limits action) ≡ some e = get_live t db e h k.0 in
      let next : Entry = record { value = suc e.value; expires_at = e.expires_at } in
      let after : entry (count limit window action email (record db { now = t })).1 ≡ some next =
        rw (entry-count, live) refl in
      let rest =
        allowed_live ts (count limit window action email (record db { now = t })).1 next after
          k.1 in
      elim (Bool-cases (ltb limit (suc e.value))) [
        | inl f ↦ rw (allowed_step t ts db, live, f, rest) (ground (arith, f))
        | inr f ↦ rw (allowed_step t ts db, live, f, rest) (ground (arith, f))
      ]

-- From the first call of a window on, and within the window, Allow lets through exactly the first
-- `limit` calls, or all of them if they are fewer, however the calls are spread.
pub allowed_window :
    (limit window : ℕ) (action : Action) (email : String) (t : ℕ) (ts : List ℕ) (db : Db)
    → get email t (db.limits action) ≡ none
    → All (λ u. u < t + window) ts
    → allowed limit window action email (t ∷ ts) db ≡ min limit (length (t ∷ ts))
unfolding incr_with_expiry
allowed_window limit window action email t ts db fresh k =
    let next : Entry = record { value = 1; expires_at = t + window } in
    let after : entry limit window action email
          (count limit window action email (record db { now = t })).1
        ≡ some next =
      rw (entry-count, fresh) refl in
    let rest =
      allowed_live limit window action email ts
        (count limit window action email (record db { now = t })).1 next after k in
    elim (Bool-cases (ltb limit 1)) [
      | inl f ↦
          rw (allowed_step limit window action email t ts db, fresh, f, rest) (ground (arith, f))
      | inr f ↦
          rw (allowed_step limit window action email t ts db, fresh, f, rest) (ground (arith, f))
    ]
