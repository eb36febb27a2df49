-- ===== src/Hub/Invariant.antt =====
-- hub.go: the three maps of the hub. A connection belongs to one user, `owner`, for
-- its whole life: the handler passes the user of the ticket with each registration.
use efir.Prelude.{
  ℕ, String, ◌≡◌, refl, inl, inr, [], ◌∷◌, Bool, ◌&&◌, ◌||◌, ◌==◌, contains, contains-append,
  append-Distinct, Distinct, is_some, nat_eq, string_eq, arith, Bool-cases, true, if_both,
}
use efir.Prelude.Keyed.{Map, lookup, insert, lookup-insert, lookup-nil}
use efir.Hub.{Hub, conns_of, rooms_of, user_of, ensure_room, add_conn}
use efir.Hub.Rooms.{conns_of-put_conns, conns_of-ensure_room}

-- Whether a connection has joined a room.
unfoldable pub in_room : Hub → ℕ → String → Bool
in_room h c r = is_some (lookup r (rooms_of h c))

-- The user that the hub knows a connection by: none once it is in no room.
abbrev pub user_if : Map String (Unit {0}) → String → String
user_if [] u = ""
user_if (_ ∷ _) u = u

pub user_if_joined :
    (m : Map String (Unit {0})) (r u : String) → is_some (lookup r m) ≡ true → user_if m u ≡ u
user_if_joined [] r u h = cc (lookup-nil {K = String} {V = Unit {0}} r)
user_if_joined (_ ∷ _) r u h = refl

pub record IsConsistent (owner : ℕ → String) (h : Hub) : Type 0 where
  pub agree :
      (c : ℕ) (r u : String) → contains (conns_of h.rooms r u) c ≡ (in_room h c r && (owner c == u))
  pub known : (c : ℕ) → user_of h c ≡ user_if (rooms_of h c) (owner c)
  pub distinct : (r u : String) → Distinct (conns_of h.rooms r u)

module _ (owner : ℕ → String) (h : Hub) (c : ℕ) (r : String) (v : IsConsistent owner h) where
  abbrev listed : Bool
  listed = contains (conns_of (ensure_room h.rooms r) r (owner c)) c

  listed_joined : listed ≡ true → in_room h c r ≡ true
  listed_joined e =
      let e' : contains (conns_of h.rooms r (owner c)) c ≡ true =
        rw (← conns_of-ensure_room h.rooms r r (owner c)) e in
      ground (arith, v.agree c r (owner c))

  pub in_room-add_conn :
      (d : ℕ) (s : String)
      → in_room (add_conn h c (owner c) r) d s ≡ ((c == d) && (r == s) || in_room h d s)
  unfolding in_room rooms_of add_conn
  in_room-add_conn d s = elim (Bool-cases listed) [
    | inl e ↦
        rw (e, add_conn)
          (ground (arith, listed_joined e, nat_eq.same_iff c d, string_eq.same_iff r s))
    | inr e ↦
        rw (e, add_conn)
          (rw lookup-insert
            (ground (arith, lookup-insert r s tt (rooms_of h c), nat_eq.same_iff c d)))
  ]

  conns_of-add_conn :
      (s w : String) (d : ℕ)
      → contains (conns_of (add_conn h c (owner c) r).rooms s w) d
        ≡ ((c == d) && (r == s) && (owner c == w) || contains (conns_of h.rooms s w) d)
  unfolding add_conn
  conns_of-add_conn s w d = elim (Bool-cases listed) [
    | inl e ↦
        rw (e, add_conn)
          (rw conns_of-ensure_room (
            ground (
              arith,
              listed_joined e,
              v.agree d s w,
              nat_eq.same_iff c d,
              string_eq.same_iff r s,
              string_eq.same_iff (owner c) w,
            )))
    | inr e ↦
        rw (e, add_conn)
          (rw conns_of-put_conns (
            simp conns_of-ensure_room (
              ground (
                arith,
                contains-append (conns_of h.rooms r (owner c)) (c ∷ []) d,
                string_eq.same_iff r s,
                string_eq.same_iff (owner c) w,
              ))))
  ]

  known-add_conn :
      (d : ℕ)
      → user_of (add_conn h c (owner c) r) d
        ≡ user_if (rooms_of (add_conn h c (owner c) r) d) (owner d)
  unfolding add_conn user_of rooms_of insert in_room
  known-add_conn d = elim (Bool-cases listed) [
    | inl e ↦
        rw (e, add_conn)
          (rw lookup-insert (
            ground (
              arith,
              v.known d,
              user_if_joined (rooms_of h c) r (owner c) (listed_joined e),
              nat_eq.same_iff c d,
            )))
    | inr e ↦
        rw (e, add_conn)
          (rw lookup-insert (rw lookup-insert (ground (arith, v.known d, nat_eq.same_iff c d))))
  ]

  add_conn-Distinct : (s w : String) → Distinct (conns_of (add_conn h c (owner c) r).rooms s w)
  unfolding add_conn
  add_conn-Distinct s w = elim (Bool-cases listed) [
    | inl e ↦ rw (e, add_conn) (rw conns_of-ensure_room (v.distinct s w))
    | inr e ↦
        rw (e, add_conn)
          (rw conns_of-put_conns (
            simp conns_of-ensure_room (
              if_both Distinct _ _ _
                (append-Distinct _ c (v.distinct r (owner c)) (rw conns_of-ensure_room at e))
                (v.distinct s w))))
  ]

  -- Registering a connection for its own user keeps the maps in step.
  pub add_conn-IsConsistent : IsConsistent owner (add_conn h c (owner c) r)
  add_conn-IsConsistent = record {
    agree = λ d s w.
        rw (conns_of-add_conn s w d, in_room-add_conn d s)
          (ground (arith, v.agree d s w, nat_eq.same_iff c d));
    known = known-add_conn;
    distinct = add_conn-Distinct;
  }
