-- ===== src/Hub/Tidy.antt =====
-- hub.go: the entries of the map of rooms.
use efir.Prelude.{
  ℕ, String, ◌≡◌, ◌≢◌, refl, ap, inl, inr, some, List, [], ◌&&◌, ◌==◌, if◌then◌else◌, contains,
  get_or, nat_eq, string_eq, arith, Bool-cases, Option-cases, List-cases, true, false, if_both,
}
use efir.Prelude.Keyed.{lookup, insert, lookup-insert, lookup-nil, Unique, insert-Unique}
use efir.Hub.{Rooms, Hub, room_of, conns_of, ensure_room, put_conns, add_conn}
use efir.Hub.Rooms.{conns_of-ensure_room}

pub record IsTidy (rooms : Rooms) : Type 0 where
  pub unique : (r : String) → Unique (room_of rooms r)
  pub live_room : (r : String) → lookup r rooms ≢ some []
  pub live_user : (r u : String) → lookup u (room_of rooms r) ≢ some []

room_of-ensure_room :
    (rooms : Rooms) (r s : String) → room_of (ensure_room rooms r) s ≡ room_of rooms s
unfolding room_of ensure_room
room_of-ensure_room rooms r s = elim (Option-cases (lookup r rooms)) [
  | inl e ↦ rw (e, ensure_room) (rw lookup-insert (ground (arith, string_eq.same_iff r s)))
  | inr (m, e) ↦ rw (e, ensure_room) refl
]

lookup-ensure_room :
    (rooms : Rooms) (r s : String)
    → lookup s (ensure_room rooms r) ≡ (if r == s then some (room_of rooms r) else lookup s rooms)
unfolding room_of ensure_room
lookup-ensure_room rooms r s = elim (Option-cases (lookup r rooms)) [
  | inl e ↦ rw (e, ensure_room) (rw lookup-insert (ground arith))
  | inr (m, e) ↦ rw (e, ensure_room) (ground (arith, string_eq.same_iff r s))
]

room_of-put_conns :
    (rooms : Rooms) (r u s : String) (l : List ℕ)
    → room_of (put_conns rooms r u l) s
      ≡ (if r == s then insert u l (room_of rooms r) else room_of rooms s)
unfolding room_of put_conns
room_of-put_conns rooms r u s l = rw lookup-insert (ground arith)

pub entry-put_conns :
    (rooms : Rooms) (r u s w : String) (l : List ℕ)
    → lookup w (room_of (put_conns rooms r u l) s)
      ≡ (if (r == s) && (u == w) then some l else lookup w (room_of rooms s))
entry-put_conns rooms r u s w l =
    rw room_of-put_conns
      (ground (arith, lookup-insert u w l (room_of rooms r), string_eq.same_iff r s))

pub put_conns-Unique :
    (rooms : Rooms) (r u : String) (l : List ℕ)
    → ((s : String) → Unique (room_of rooms s))
    → (s : String) → Unique (room_of (put_conns rooms r u l) s)
put_conns-Unique rooms r u l un s = rw room_of-put_conns (
    if_both Unique (r == s) (insert u l (room_of rooms r)) (room_of rooms s)
      (insert-Unique u l (room_of rooms r) (un r)) (un s))

-- A room that holds a connection is not empty.
lookup-put_conns :
    (rooms : Rooms) (r u s : String) (l : List ℕ)
    → ((r == s) ≡ false → lookup s rooms ≢ some [])
    → lookup s (put_conns rooms r u l) ≢ some []
unfolding put_conns insert
lookup-put_conns rooms r u s l h e =
    ground (arith, lookup-insert r s (insert u l (room_of rooms r)) rooms, h)

put_conns-IsTidy :
    (rooms : Rooms) (r u : String) (l : List ℕ)
    → ((s : String) → Unique (room_of rooms s))
    → ((s : String) → (r == s) ≡ false → lookup s rooms ≢ some [])
    → ((s w : String) → lookup w (room_of rooms s) ≢ some [])
    → l ≢ []
    → IsTidy (put_conns rooms r u l)
put_conns-IsTidy rooms r u l un lr lu ne = record {
  unique = put_conns-Unique rooms r u l un;
  live_room = λ s. lookup-put_conns rooms r u s l (lr s);
  live_user = λ s w e. ground (arith, entry-put_conns rooms r u s w l, lu s w, ne);
}

ensure_room_listed :
    (rooms : Rooms) (r u : String) (c : ℕ)
    → contains (conns_of (ensure_room rooms r) r u) c ≡ true
    → ensure_room rooms r ≡ rooms
unfolding ensure_room room_of conns_of
ensure_room_listed rooms r u c h = elim (Option-cases (lookup r rooms)) [
  | inl e ↦
      let missing : contains (conns_of rooms r u) c ≡ true =
        rw (← conns_of-ensure_room rooms r r u) h in
      cc (
        ap (λ o. contains (get_or (lookup u (get_or o [])) []) c) e,
        lookup-nil {V = List ℕ} u,
        missing,
      )
  | inr (m, e) ↦ rw (e, ensure_room) refl
]

pub add_conn-IsTidy :
    (h : Hub) (c : ℕ) (u r : String) → IsTidy h.rooms → IsTidy (add_conn h c u r).rooms
unfolding add_conn
add_conn-IsTidy h c u r t = elim (Bool-cases (contains (conns_of (ensure_room h.rooms r) r u) c)) [
  | inl e ↦ rw (e, add_conn) (rw (ensure_room_listed h.rooms r u c e) t)
  | inr e ↦
      rw (e, add_conn)
        (put_conns-IsTidy (ensure_room h.rooms r) r u _ (λ s. rw room_of-ensure_room (t.unique s))
          (λ s ne f. ground (arith, lookup-ensure_room h.rooms r s, t.live_room s))
          (λ s w. rw room_of-ensure_room (t.live_user s w))
          (λ f. ground (arith, List-cases (conns_of (ensure_room h.rooms r) r u))))
]
