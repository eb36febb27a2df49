-- ===== src/Hub/Examples.antt =====
-- The hub's theorems at a short history: two users join a room, and one of them disconnects.
use efir.Prelude.{
  Distinct, ◌↔◌, length, contains, ℕ, String, ◌≡◌, refl, List, [], ◌∷◌, true, false, ◌==◌,
  if◌then◌else◌, nat_eq, Option, some, All, string_eq, Bool-cases, inl, inr,
}
use efir.Prelude.Keyed.{lookup, insert, erase}
use efir.Hub.{
  get_room_user_count, Hub, Envelope, new_hub, add_conn, disconnect_all, rooms_of, user_of,
}
use efir.Hub.Invariant.{in_room}
use efir.Hub.Departure.{Named}
use efir.Hub.Delivery.{get_room_user_count_users}
use efir.Hub.Actor.{
  Request, register, disconnect, IsOwned, run, members, IsValid, run-new_hub-IsValid, in_room-run,
}

abbrev owner_of : ℕ → String
owner_of c = if c == 1 then "alice" else "bob"

owner_of-Named : Named owner_of
owner_of-Named c = elim (Bool-cases (c == 1)) [ inl e ↦ rw e refl | inr e ↦ rw e refl ]

abbrev history : List Request
history =
    register 1 "alice" "lobby"
    ∷ register 2 "bob" "lobby"
    ∷ register 2 "bob" "hall"
    ∷ disconnect 1
    ∷ []

history-IsOwned : All (IsOwned owner_of) history
history-IsOwned = (refl, (refl, (refl, (tt, tt))))

abbrev hub_now : Hub
hub_now = run new_hub history

abbrev hello : Envelope
hello = record { type = "message"; payload = "hello" }

abbrev to_text : Envelope → Option String
to_text e = some e.payload

run-new_hub-IsValid_example : IsValid owner_of (run new_hub history)
run-new_hub-IsValid_example = run-new_hub-IsValid owner_of owner_of-Named history history-IsOwned

in_room-run_example : in_room (run new_hub history) 2 "hall" ≡ true
unfolding members
in_room-run_example = in_room-run owner_of owner_of-Named history history-IsOwned 2 "hall"

get_room_user_count_users_example :
    (us : List String) × (get_room_user_count hub_now "lobby" ≡ length us)
    × Distinct us
    × ((u : String)
        → (contains us u ≡ true)
          ↔ ((c : ℕ) × (in_room hub_now c "lobby" ≡ true) × (owner_of c ≡ u)))
get_room_user_count_users_example =
    get_room_user_count_users owner_of hub_now
      (run-new_hub-IsValid owner_of owner_of-Named history history-IsOwned) "lobby"

-- After the history only the second connection is in the lobby.
lobby_now : (in_room hub_now 2 "lobby" ≡ true) × (in_room hub_now 1 "lobby" ≡ false)
unfolding in_room run new_hub add_conn disconnect_all rooms_of user_of lookup insert erase
lobby_now = (refl, refl)
