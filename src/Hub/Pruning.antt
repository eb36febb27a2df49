-- ===== src/Hub/Pruning.antt =====
-- hub.go: the entries of the map of rooms when a connection leaves.
use efir.Prelude.{
  ℕ, String, ◌≡◌, ◌≢◌, refl, inl, inr, none, some, List, [], ◌∷◌, Bool, ◌&&◌, ◌==◌, if◌then◌else◌,
  contains, remove_first, get_or, nat_eq, string_eq, arith, Bool-cases, Option-cases, List-cases,
  true, false, if_both,
}
use efir.Prelude.Keyed.{
  Map, lookup, erase, lookup-insert, lookup-erase, lookup-nil, Unique, erase-Unique,
}
use efir.Hub.{
  Rooms, Hub, room_of, conns_of, rooms_of, user_of, put_conns, drop_conn, prune_user, prune_room,
  leave, leave_all, remove_conn, disconnect_all,
}
use efir.Hub.Departure.{rooms-forget_room}
use efir.Hub.Tidy.{IsTidy, entry-put_conns, put_conns-Unique}

is_nil : List ℕ → Bool
is_nil [] = true
is_nil (_ ∷ _) = false

entry-drop_conn :
    (rooms : Rooms) (r u s w : String) (c : ℕ)
    → lookup w (room_of (drop_conn rooms r u c) s) ≡ (
        if (r == s) && (u == w) && contains (conns_of rooms r u) c
        then some (remove_first (conns_of rooms r u) c)
        else lookup w (room_of rooms s))
unfolding drop_conn
entry-drop_conn rooms r u s w c = elim (Bool-cases (contains (conns_of rooms r u) c)) [
  | inl e ↦ rw (e, drop_conn) (rw entry-put_conns (ground arith))
  | inr e ↦ rw (e, drop_conn) (ground arith)
]

entry-prune_user :
    (rooms : Rooms) (r u s w : String)
    → lookup w (room_of (prune_user rooms r u) s) ≡ (
        if (r == s) && (u == w) && is_nil (conns_of rooms r u)
        then none
        else lookup w (room_of rooms s))
unfolding prune_user is_nil room_of
entry-prune_user rooms r u s w = elim (List-cases (conns_of rooms r u)) [
  | inl e ↦ elim (Option-cases (lookup r rooms)) [
    | inl f ↦
        rw (e, prune_user)
          (rw (f, prune_user)
            (ground (arith, f, lookup-nil {V = List ℕ} w, string_eq.same_iff r s)))
    | inr (m, f) ↦
        rw (e, prune_user)
          (rw (f, prune_user)
            (ground (
              arith,
              f,
              lookup-insert r s (erase u m) rooms,
              lookup-erase u w m,
              string_eq.same_iff r s,
            )))
  ]
  | inr (x, l, e) ↦ rw (e, prune_user) (ground (arith, e))
]

prune_user-Unique :
    (rooms : Rooms) (r u : String)
    → ((s : String) → Unique (room_of rooms s))
    → (s : String) → Unique (room_of (prune_user rooms r u) s)
unfolding prune_user room_of
prune_user-Unique rooms r u un s = elim (List-cases (conns_of rooms r u)) [
  | inl e ↦ elim (Option-cases (lookup r rooms)) [
    | inl f ↦ rw (e, prune_user) (rw (f, prune_user) (un s))
    | inr (m, f) ↦
        rw (e, prune_user)
          (rw (f, prune_user)
            (rw lookup-insert (
              if_both (λ o. Unique (get_or o [])) (r == s) (some (erase u m)) (lookup s rooms)
                (erase-Unique u m (rw f at (un r))) (un s))))
  ]
  | inr (x, l, e) ↦ rw (e, prune_user) (un s)
]

prune_user_rooms :
    (rooms : Rooms) (r u s : String)
    → (r == s) ≡ false
    → lookup s (prune_user rooms r u) ≡ lookup s rooms
unfolding prune_user
prune_user_rooms rooms r u s ne = elim (List-cases (conns_of rooms r u)) [
  | inl e ↦ elim (Option-cases (lookup r rooms)) [
    | inl f ↦ rw (e, prune_user) (rw (f, prune_user) refl)
    | inr (m, f) ↦ rw (e, prune_user) (rw (f, prune_user) (rw (lookup-insert, ne) refl))
  ]
  | inr (x, l, e) ↦ rw (e, prune_user) refl
]

room_of-prune_room :
    (rooms : Rooms) (r s : String) → room_of (prune_room rooms r) s ≡ room_of rooms s
unfolding room_of prune_room
room_of-prune_room rooms r s = elim (List-cases (room_of rooms r)) [
  | inl e ↦ rw (e, prune_room) (rw lookup-erase (ground (arith, e, string_eq.same_iff r s)))
  | inr (x, l, e) ↦ rw (e, prune_room) refl
]

prune_room_live :
    (rooms : Rooms) (r s : String)
    → ((r == s) ≡ false → lookup s rooms ≢ some [])
    → lookup s (prune_room rooms r) ≢ some []
unfolding prune_room room_of
prune_room_live rooms r s h = elim (List-cases (room_of rooms r)) [
  | inl e ↦ rw (e, prune_room) (rw lookup-erase (λ f. ground (arith, h)))
  | inr (x, l, e) ↦ rw (e, prune_room) (λ f. ground (arith, h, e, string_eq.same_iff r s))
]

drop_conn-Unique :
    (rooms : Rooms) (r u : String) (c : ℕ)
    → ((s : String) → Unique (room_of rooms s))
    → (s : String) → Unique (room_of (drop_conn rooms r u c) s)
unfolding drop_conn
drop_conn-Unique rooms r u c un = elim (Bool-cases (contains (conns_of rooms r u) c)) [
  | inl e ↦ rw (e, drop_conn) (put_conns-Unique rooms r u _ un)
  | inr e ↦ rw (e, drop_conn) un
]

drop_conn_rooms :
    (rooms : Rooms) (r u s : String) (c : ℕ)
    → (r == s) ≡ false
    → lookup s (drop_conn rooms r u c) ≡ lookup s rooms
unfolding drop_conn put_conns
drop_conn_rooms rooms r u s c ne = elim (Bool-cases (contains (conns_of rooms r u) c)) [
  | inl e ↦ rw (e, drop_conn) (rw (lookup-insert, ne) refl)
  | inr e ↦ rw (e, drop_conn) refl
]

leave-IsTidy : (rooms : Rooms) (r u : String) (c : ℕ) → IsTidy rooms → IsTidy (leave rooms r u c)
unfolding leave conns_of is_nil
leave-IsTidy rooms r u c t = record {
  unique = λ s.
      rw room_of-prune_room
        (prune_user-Unique dropped r u (drop_conn-Unique rooms r u c t.unique) s);
  live_room = λ s. prune_room_live (prune_user dropped r u) r s (λ ne.
      rw (prune_user_rooms dropped r u s ne, drop_conn_rooms rooms r u s c ne) (t.live_room s));
  live_user = λ s w.
      rw (room_of-prune_room, entry-prune_user)
        (λ e. ground (
          arith,
          entry-drop_conn rooms r u s w c,
          t.live_user s w,
          string_eq.same_iff r s,
          string_eq.same_iff u w,
        ));
}
  where
    dropped : Rooms
    dropped = drop_conn rooms r u c

pub remove_conn-IsTidy :
    (h : Hub) (c : ℕ) (r : String) → IsTidy h.rooms → IsTidy (remove_conn h c r).rooms
unfolding remove_conn
remove_conn-IsTidy h c r t = elim (Bool-cases (user_of h c == "")) [
  | inl e ↦ rw (e, remove_conn) t
  | inr e ↦ rw (e, remove_conn) (rw rooms-forget_room (leave-IsTidy h.rooms r (user_of h c) c t))
]

leave_all-IsTidy :
    (m : Map String (Unit {0})) (rooms : Rooms) (u : String) (c : ℕ)
    → IsTidy rooms
    → IsTidy (leave_all rooms m u c)
unfolding leave_all
leave_all-IsTidy [] rooms u c t = t
leave_all-IsTidy ((r, _) ∷ m) rooms u c t =
    leave_all-IsTidy m (leave rooms r u c) u c (leave-IsTidy rooms r u c t)

pub disconnect_all-IsTidy : (h : Hub) (c : ℕ) → IsTidy h.rooms → IsTidy (disconnect_all h c).rooms
unfolding disconnect_all
disconnect_all-IsTidy h c t = elim (Bool-cases (user_of h c == "")) [
  | inl e ↦ rw (e, disconnect_all) t
  | inr e ↦ rw (e, disconnect_all) (leave_all-IsTidy (rooms_of h c) h.rooms (user_of h c) c t)
]
