-- ===== src/Hub/Delivery.antt =====
-- hub.go, sendToRoom and getRoomUserCount: who receives a broadcast, and what the count means.
use efir.Prelude.{
  ℕ, suc, String, ◌≡◌, ◌↔◌, refl, sym, ap, ◌∙◌, inl, inr, Option, none, some, List, [], ◌∷◌, Bool,
  ◌&&◌, ◌==◌, not, if◌then◌else◌, contains, contains-append, Distinct, Distinct-append, get_or,
  nat_eq, string_eq, arith, eq-cases, Bool-cases, Option-cases, List-cases, true, false, eq_self,
  length, is_some,
}
use efir.Prelude.Keyed.{Map, lookup, Unique, lookup-head}
use efir.WsConn.{Outbound, send}
use efir.Hub.{
  Hub, Envelope, room_of, conns_of, targets, send_each, send_to_room, get_room_user_count,
}
use efir.Hub.Invariant.{in_room}
use efir.Hub.Actor.{IsValid}

-- The connections that a room map lists for a user.
abbrev listed : Map String (List ℕ) → String → List ℕ
listed m u = get_or (lookup u m) []

module _ (k : String) (l : List ℕ) (m : Map String (List ℕ)) (fresh : lookup k m ≡ none) where
  listed_head : listed ((k, l) ∷ m) k ≡ l
  listed_head = rw lookup-head refl

  -- What the rest of the map lists for a user, the whole map lists too, unless it is the head's.
  listed_tail :
      (P : List ℕ → Type 0)
      → P []
      → ((u : String) → P (listed ((k, l) ∷ m) u))
      → (u : String) → P (listed m u)
  unfolding lookup
  listed_tail P p h u = elim (eq-cases k u) [
    | inl (e, q) ↦ rw (← e, fresh) p
    | inr q ↦ rw q at (h u)
  ]

  listed_whole :
      (u : String) (c : ℕ)
      → contains (listed m u) c ≡ true
      → ((k == u) ≡ false) × (contains (listed ((k, l) ∷ m) u) c ≡ true)
  unfolding lookup
  listed_whole u c h = elim (eq-cases k u) [
    | inl (e, q) ↦
        cc (ap (λ v. contains (listed m v) c) (sym e), ap (λ o. contains (get_or o []) c) fresh)
    | inr q ↦ (q, rw q h)
  ]

contains-targets_none :
    (m : Map String (List ℕ)) (c : ℕ)
    → Unique m
    → ((u : String) → contains (listed m u) c ≡ false)
    → contains (targets m) c ≡ false
unfolding targets
contains-targets_none [] c un h = refl
contains-targets_none ((k, l) ∷ m) c un h = ground (
  arith,
  contains-append l (targets m) c,
  contains-targets_none m c un.1 (listed_tail k l m un.0 (λ x. contains x c ≡ false) refl h),
  h k,
  listed_head k l m un.0,
)

contains-targets_some :
    (m : Map String (List ℕ)) (c : ℕ) (u : String)
    → contains (listed m u) c ≡ true
    → contains (targets m) c ≡ true
unfolding targets lookup
contains-targets_some [] c u h = h
contains-targets_some ((k, l) ∷ m) c u h =
    ground (arith, contains-append l (targets m) c, contains-targets_some m c u)

-- In a room map where connection `c` is listed for user `o` alone.
contains-targets :
    (m : Map String (List ℕ)) (c : ℕ) (o : String) (b : Bool)
    → Unique m
    → ((u : String) → contains (listed m u) c ≡ (b && (o == u)))
    → contains (targets m) c ≡ b
contains-targets m c o true un h = contains-targets_some m c o (h o ∙ eq_self o)
contains-targets m c o false un h = contains-targets_none m c un h

targets-Distinct :
    (owner : ℕ → String) (m : Map String (List ℕ))
    → Unique m
    → ((c : ℕ) (u : String) → contains (listed m u) c ≡ true → owner c ≡ u)
    → ((u : String) → Distinct (listed m u))
    → Distinct (targets m)
unfolding targets
targets-Distinct owner [] un own d = tt
targets-Distinct owner ((k, l) ∷ m) un own d =
    Distinct-append l (targets m) (rw (listed_head k l m un.0) at (d k))
      (targets-Distinct owner m un.1 (λ c u h. own c u (listed_whole k l m un.0 u c h).1)
        (listed_tail k l m un.0 Distinct tt d))
      (λ c h. contains-targets_none m c un.1 (λ u. elsewhere c h u))
  where
    elsewhere : (c : ℕ) → contains l c ≡ true → (u : String) → contains (listed m u) c ≡ false
    elsewhere c h u = elim (Bool-cases (contains (listed m u) c)) [
      | inr e ↦ e
      | inl e ↦
          let (ne, whole) = listed_whole k l m un.0 u c e in
          let mine : owner c ≡ k = own c k (rw (listed_head k l m un.0) h) in
          absurd (ground (arith, own c u whole, string_eq.same_iff k u))
    ]

module _ (owner : ℕ → String) (h : Hub) (v : IsValid owner h) (r : String) where
  -- The two loops of sendToRoom visit each connection of the room, and no other.
  contains-targets_room : (c : ℕ) → contains (targets (room_of h.rooms r)) c ≡ in_room h c r
  unfolding conns_of
  contains-targets_room c =
      contains-targets (room_of h.rooms r) c (owner c) (in_room h c r) (v.tidy.unique r)
        (λ u. v.consistent.agree c r u)

  targets_room-Distinct : Distinct (targets (room_of h.rooms r))
  unfolding conns_of
  targets_room-Distinct =
      targets-Distinct owner (room_of h.rooms r) (v.tidy.unique r)
        (λ c u e. ground (arith, v.consistent.agree c r u, string_eq.same_iff (owner c) u))
        (λ u. v.consistent.distinct r u)

-- Each connection of a list without repetitions is offered the data once.
send_each_lem :
    (cs : List ℕ) (out : ℕ → Outbound) (bytes : String) (d : ℕ)
    → Distinct cs
    → ((send_each out cs bytes).0 d ≡ (if contains cs d then (send (out d) bytes).0 else out d))
      × (contains (send_each out cs bytes).1 d ≡ (contains cs d && not (send (out d) bytes).1))
unfolding send_each
send_each_lem [] out bytes d un = (refl, refl)
send_each_lem (c ∷ cs) out bytes d un = ground (
  arith,
  send_each_lem cs (λ x. if c == x then (send (out c) bytes).0 else out x) bytes d un.1,
  nat_eq.same_iff c d,
  un.0,
)

module _ (marshal : Envelope → Option String) (owner : ℕ → String) (h : Hub)
    (v : IsValid owner h) where
  -- When the envelope can be marshalled, a broadcast to a room of a valid hub offers the data to
  -- each connection that is in the room, and to no other; it closes just those that refuse it.
  pub send_to_room_delivers :
      (out : ℕ → Outbound) (r : String) (envelope : Envelope) (bytes : String)
      → marshal envelope ≡ some bytes
      → (d : ℕ)
      → ((send_to_room marshal h out r envelope).0 d
          ≡ (if in_room h d r then (send (out d) bytes).0 else out d))
        × (contains (send_to_room marshal h out r envelope).1 d
            ≡ (in_room h d r && not (send (out d) bytes).1))
  unfolding send_to_room
  send_to_room_delivers out r envelope bytes e d = elim (List-cases (room_of h.rooms r)) [
    | inl f ↦ rw (f, send_to_room) (ground (arith, empty f))
    | inr (x, m, f) ↦
        rw (f, send_to_room)
          (rw (e, send_to_room)
            (ground (
              arith,
              send_each_lem (targets (x ∷ m)) out bytes d
                  (rw f at (targets_room-Distinct owner h v r)),
              ap (λ t. contains (targets t) d) f,
              contains-targets_room owner h v r d,
            )))
  ]
    where
      empty : room_of h.rooms r ≡ [] → in_room h d r ≡ false
      empty f = sym (contains-targets_room owner h v r d) ∙ ap (λ m. contains (targets m) d) f

keys : Map String (List ℕ) → List String
keys [] = []
keys ((k, l) ∷ m) = k ∷ keys m

contains-keys : (m : Map String (List ℕ)) (u : String) → contains (keys m) u ≡ is_some (lookup u m)
unfolding keys lookup
contains-keys [] u = refl
contains-keys ((k, l) ∷ m) u = ground (arith, contains-keys m u)

keys-Distinct : (m : Map String (List ℕ)) → Unique m → Distinct (keys m)
unfolding keys
keys-Distinct [] un = tt
keys-Distinct ((k, l) ∷ m) un = (contains-keys m k ∙ ap is_some un.0, keys-Distinct m un.1)

length-keys : (m : Map String (List ℕ)) → length (keys m) ≡ length m
unfolding keys
length-keys [] = refl
length-keys ((k, l) ∷ m) = ap suc (length-keys m)

count_room : (h : Hub) (r : String) → get_room_user_count h r ≡ length (room_of h.rooms r)
unfolding get_room_user_count room_of
count_room h r = ground arith

module _ (owner : ℕ → String) (h : Hub) (v : IsValid owner h) (r : String) where
  user_listed :
      (u : String)
      → is_some (lookup u (room_of h.rooms r)) ≡ true
      → (c : ℕ) × (in_room h c r ≡ true) × (owner c ≡ u)
  unfolding conns_of
  user_listed u e = elim (Option-cases (lookup u (room_of h.rooms r))) [
    | inl f ↦ cc (ap is_some f)
    | inr (l, f) ↦ elim (List-cases l) [
      | inl g ↦ absurd (v.tidy.live_user r u (f ∙ ap some g))
      | inr (c, cs, g) ↦
          let here : contains (conns_of h.rooms r u) c ≡ true =
            rw f (rw g (ground (arith, nat_eq.same_iff c c))) in
          (
            c,
            ground (arith, v.consistent.agree c r u),
            ground (arith, v.consistent.agree c r u, string_eq.same_iff (owner c) u),
          )
    ]
  ]

  -- In a valid hub the count of a room is the number of users who have a connection in it, however
  -- many connections each of them has.
  pub get_room_user_count_users :
      (us : List String) × (get_room_user_count h r ≡ length us)
      × Distinct us
      × ((u : String) → (contains us u ≡ true) ↔ ((c : ℕ) × (in_room h c r ≡ true) × (owner c ≡ u)))
  unfolding conns_of
  get_room_user_count_users = (
    keys (room_of h.rooms r),
    count_room h r ∙ sym (length-keys (room_of h.rooms r)),
    keys-Distinct (room_of h.rooms r) (v.tidy.unique r),
    λ u. (
      λ e. user_listed u (sym (contains-keys (room_of h.rooms r) u) ∙ e),
      λ (c, joined, mine). ground (
        arith,
        contains-keys (room_of h.rooms r) u,
        v.consistent.agree c r u,
        string_eq.same_iff (owner c) u,
      ),
    ),
  )
