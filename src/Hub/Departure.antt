-- ===== src/Hub/Departure.antt =====
-- hub.go, removeConn and disconnectAll: what they leave of the three maps.
use efir.Prelude.{
  ℕ, String, ◌≡◌, refl, ap, ◌∙◌, inl, inr, [], ◌∷◌, ◌&&◌, ◌==◌, not, if◌then◌else◌, contains,
  contains-remove_first, remove_first-Distinct, Distinct, is_some, nat_eq, string_eq, arith,
  Bool-cases, List-cases, true, false, if_both,
}
use efir.Prelude.Keyed.{Map, lookup, erase, lookup-insert, lookup-erase, lookup-nil}
use efir.Hub.{
  Rooms, Hub, conns_of, rooms_of, user_of, leave, leave_all, forget_room, remove_conn,
  disconnect_all,
}
use efir.Hub.Rooms.{conns_of-leave}
use efir.Hub.Invariant.{in_room, user_if, IsConsistent}

module _ (h : Hub) (rooms : Rooms) (c : ℕ) (r : String) where
  rooms_of-forget_room :
      (d : ℕ)
      → rooms_of (forget_room h rooms c r) d
        ≡ (if c == d then erase r (rooms_of h c) else rooms_of h d)
  unfolding forget_room rooms_of
  rooms_of-forget_room d = elim (List-cases (erase r (rooms_of h c))) [
    | inl e ↦ rw (e, forget_room) (rw lookup-erase (ground (arith, nat_eq.same_iff c d)))
    | inr (x, rest, e) ↦
        rw (e, forget_room) (rw lookup-insert (ground (arith, nat_eq.same_iff c d)))
  ]

  user_of-forget_room :
      (d : ℕ)
      → user_of (forget_room h rooms c r) d
        ≡ (if c == d then user_if (erase r (rooms_of h c)) (user_of h c) else user_of h d)
  unfolding forget_room user_of
  user_of-forget_room d = elim (List-cases (erase r (rooms_of h c))) [
    | inl e ↦ rw (e, forget_room) (rw lookup-erase (ground (arith, nat_eq.same_iff c d)))
    | inr (x, rest, e) ↦ rw (e, forget_room) (ground (arith, nat_eq.same_iff c d))
  ]

  pub rooms-forget_room : (forget_room h rooms c r).rooms ≡ rooms
  unfolding forget_room
  rooms-forget_room = ground arith

leave-Distinct :
    (rooms : Rooms) (r u : String) (c : ℕ)
    → ((s w : String) → Distinct (conns_of rooms s w))
    → (s w : String) → Distinct (conns_of (leave rooms r u c) s w)
leave-Distinct rooms r u c h s w =
    rw conns_of-leave (if_both Distinct _ _ _ (remove_first-Distinct _ c (h r u)) (h s w))

contains-leave :
    (rooms : Rooms) (r u s w : String) (c d : ℕ)
    → Distinct (conns_of rooms r u)
    → contains (conns_of (leave rooms r u c) s w) d
      ≡ (contains (conns_of rooms s w) d && not ((c == d) && (r == s) && (u == w)))
contains-leave rooms r u s w c d h = rw conns_of-leave (
    ground (
      arith,
      contains-remove_first (conns_of rooms r u) c d h,
      string_eq.same_iff r s,
      string_eq.same_iff u w,
    ))

leave_all-Distinct :
    (m : Map String (Unit {0})) (rooms : Rooms) (u : String) (c : ℕ)
    → ((s w : String) → Distinct (conns_of rooms s w))
    → (s w : String) → Distinct (conns_of (leave_all rooms m u c) s w)
unfolding leave_all
leave_all-Distinct [] rooms u c h = h
leave_all-Distinct ((r, _) ∷ m) rooms u c h =
    leave_all-Distinct m (leave rooms r u c) u c (leave-Distinct rooms r u c h)

contains-leave_all :
    (m : Map String (Unit {0})) (rooms : Rooms) (u s w : String) (c d : ℕ)
    → ((s w : String) → Distinct (conns_of rooms s w))
    → contains (conns_of (leave_all rooms m u c) s w) d
      ≡ (contains (conns_of rooms s w) d && not ((c == d) && is_some (lookup s m) && (u == w)))
unfolding leave_all lookup
contains-leave_all [] rooms u s w c d h = ground arith
contains-leave_all ((r, _) ∷ m) rooms u s w c d h = ground (
  arith,
  contains-leave_all m (leave rooms r u c) u s w c d (leave-Distinct rooms r u c h),
  contains-leave rooms r u s w c d (h r u),
)

-- No connection belongs to the empty user.
abbrev pub Named : (ℕ → String) → Type 0
Named owner = (c : ℕ) → (owner c == "") ≡ false

module _ (owner : ℕ → String) (named : Named owner) (h : Hub) (c : ℕ)
    (v : IsConsistent owner h) where
  known-by : (m : Map String (Unit {0})) → (user_if m (owner c) == "") ≡ true → m ≡ []
  known-by [] e = refl
  known-by (_ ∷ _) e = cc (named c)

  known-owner :
      (m : Map String (Unit {0}))
      → (user_if m (owner c) == "") ≡ false
      → user_if m (owner c) ≡ owner c
  known-owner [] e = cc
  known-owner (_ ∷ _) e = refl

  -- A connection without a user is in no room; any other is known by its owner.
  stranger : (user_of h c == "") ≡ true → rooms_of h c ≡ []
  stranger e = known-by (rooms_of h c) (rw (← v.known c) e)

  familiar : (user_of h c == "") ≡ false → user_of h c ≡ owner c
  familiar e = v.known c ∙ known-owner (rooms_of h c) (rw (← v.known c) e)

  pub in_room-remove_conn :
      (r : String) (d : ℕ) (s : String)
      → in_room (remove_conn h c r) d s ≡ (in_room h d s && not ((c == d) && (r == s)))
  unfolding in_room remove_conn
  in_room-remove_conn r d s = elim (Bool-cases (user_of h c == "")) [
    | inl e ↦
        rw (e, remove_conn)
          (ground
            (arith, ap (lookup s) (stranger e), lookup-nil {V = Unit {0}} s, nat_eq.same_iff c d))
    | inr e ↦
        rw (e, remove_conn)
          (rw rooms_of-forget_room
            (ground (arith, lookup-erase r s (rooms_of h c), nat_eq.same_iff c d)))
  ]

  no_room : (user_of h c == "") ≡ true → (s : String) → in_room h c s ≡ false
  unfolding in_room
  no_room e s = rw (stranger e, lookup-nil {V = Unit {0}} s) refl

  contains-remove_conn :
      (r s w : String) (d : ℕ)
      → contains (conns_of (remove_conn h c r).rooms s w) d
        ≡ (contains (conns_of h.rooms s w) d && not ((c == d) && (r == s)))
  unfolding remove_conn
  contains-remove_conn r s w d = elim (Bool-cases (user_of h c == "")) [
    | inl e ↦ rw (e, remove_conn) (ground (arith, no_room e s, v.agree c s w, nat_eq.same_iff c d))
    | inr e ↦
        rw (e, remove_conn)
          (rw
            (
              rooms-forget_room,
              contains-leave h.rooms r (user_of h c) s w c d (v.distinct r (user_of h c)),
            )
            (ground (arith, familiar e, v.agree c s w, nat_eq.same_iff c d)))
  ]

  -- Unsubscribing keeps the maps in step, also for a room that was never joined.
  pub remove_conn-IsConsistent : (r : String) → IsConsistent owner (remove_conn h c r)
  unfolding remove_conn
  remove_conn-IsConsistent r = record {
    agree = λ d s w.
        rw (contains-remove_conn r s w d, in_room-remove_conn r d s)
          (ground (arith, v.agree d s w));
    known = λ d. elim (Bool-cases (user_of h c == "")) [
      | inl e ↦ rw (e, remove_conn) (v.known d)
      | inr e ↦
          rw (e, remove_conn)
            (rw (user_of-forget_room, rooms_of-forget_room)
              (ground (arith, v.known d, familiar e, nat_eq.same_iff c d)))
    ];
    distinct = elim (Bool-cases (user_of h c == "")) [
      | inl e ↦ rw (e, remove_conn) v.distinct
      | inr e ↦
          rw (e, remove_conn)
            (rw rooms-forget_room (leave-Distinct h.rooms r (user_of h c) c v.distinct))
    ];
  }

  pub in_room-disconnect_all :
      (d : ℕ) (s : String) → in_room (disconnect_all h c) d s ≡ (in_room h d s && not (c == d))
  unfolding in_room disconnect_all rooms_of
  in_room-disconnect_all d s = elim (Bool-cases (user_of h c == "")) [
    | inl e ↦
        rw (e, disconnect_all)
          (ground
            (arith, ap (lookup s) (stranger e), lookup-nil {V = Unit {0}} s, nat_eq.same_iff c d))
    | inr e ↦
        rw (e, disconnect_all)
          (rw lookup-erase (ground (arith, lookup-nil {V = Unit {0}} s, nat_eq.same_iff c d)))
  ]

  contains-disconnect_all :
      (s w : String) (d : ℕ)
      → contains (conns_of (disconnect_all h c).rooms s w) d
        ≡ (contains (conns_of h.rooms s w) d && not (c == d))
  unfolding disconnect_all in_room
  contains-disconnect_all s w d = elim (Bool-cases (user_of h c == "")) [
    | inl e ↦
        rw (e, disconnect_all) (ground (arith, no_room e s, v.agree c s w, nat_eq.same_iff c d))
    | inr e ↦
        rw (e, disconnect_all)
          (rw (contains-leave_all (rooms_of h c) h.rooms (user_of h c) s w c d v.distinct)
            (ground (arith, familiar e, v.agree c s w, nat_eq.same_iff c d)))
  ]

  -- Disconnecting keeps the maps in step.
  pub disconnect_all-IsConsistent : IsConsistent owner (disconnect_all h c)
  unfolding disconnect_all
  disconnect_all-IsConsistent = record {
    agree = λ d s w.
        rw (contains-disconnect_all s w d, in_room-disconnect_all d s)
          (ground (arith, v.agree d s w));
    known = λ d. elim (Bool-cases (user_of h c == "")) [
      | inl e ↦ rw (e, disconnect_all) (v.known d)
      | inr e ↦
          rw (e, disconnect_all)
            (unfold user_of rooms_of in
              rw lookup-erase (rw lookup-erase (ground (arith, v.known d, nat_eq.same_iff c d))))
    ];
    distinct = elim (Bool-cases (user_of h c == "")) [
      | inl e ↦ rw (e, disconnect_all) v.distinct
      | inr e ↦
          rw (e, disconnect_all)
            (leave_all-Distinct (rooms_of h c) h.rooms (user_of h c) c v.distinct)
    ];
  }
