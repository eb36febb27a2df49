-- ===== src/Gateway/Rights.antt =====
-- services/gateway and services/room together: what a request to the gateway can do to the rooms.
use efir.Prelude.{
  ℕ, String, ◌==◌, string_eq, ◌≡◌, refl, List, false, Option, none, some, Option-cases, Bool-cases,
  inl, inr,
}
use efir.Exec.{Exec, advance, raise, pure, ◌>>=◌, on_error}
use efir.Exec.Ends.{Ends, fail_if-Ends, bind-Ends}
use efir.Shared.Errors.{Code, GrpcCode}
use efir.Room.Types.{Db, RoomEvent, RoomWorld}
use efir.Room.Service
use efir.Room.Handler
use efir.Room.Handler.{Packages, Request, validate, parse_id, parse_name}
use efir.Room.Rules.{owns, Unchanged, update_room_needs_owner, delete_room_needs_owner}
use efir.Gateway.Http.{read_proto}
use efir.Gateway.Access.{Parser, subject, Arrival, protected}
use efir.Gateway.Effects.{Leaves, call-Leaves, protected-Leaves, with_body-Leaves}
use efir.Gateway.Rooms
use efir.Gateway.Rooms.{Codec}

module _ (P : Db → List RoomEvent → Type 0) (packages : Packages) where
  validate-Ends :
      {A : Type 0} (req : Request) (k : Unit {0} → Exec Db RoomEvent Code A) (w : RoomWorld)
      → P w.db w.events
      → Ends P (k tt) w
      → Ends P (validate packages req >>= k) w
  unfolding validate
  validate-Ends req k w p rest = fail_if-Ends P _ _ k w p (λ _. rest)

  parse_id-Ends :
      {A : Type 0} (text : String) (k : ℕ → Exec Db RoomEvent Code A) (w : RoomWorld)
      → P w.db w.events
      → ((id : ℕ) → packages.parse text ≡ some id → Ends P (k id) w)
      → Ends P (parse_id packages text >>= k) w
  unfolding parse_id raise pure ◌>>=◌
  parse_id-Ends text k w p rest = elim (Option-cases (packages.parse text)) [
    | inl e ↦ rw (e, parse_id) p
    | inr (id, e) ↦ rw (e, parse_id) (rest id e)
  ]

  parse_name-Ends :
      {A : Type 0} (name : Option String) (k : String → Exec Db RoomEvent Code A) (w : RoomWorld)
      → P w.db w.events
      → ((s : String) → Ends P (k s) w)
      → Ends P (parse_name packages name >>= k) w
  unfolding parse_name raise pure ◌>>=◌
  parse_name-Ends none k w p rest = p
  parse_name-Ends (some name) k w p rest = elim (Bool-cases (name == "")) [
    | inl e ↦ rw (e, parse_name) p
    | inr e ↦ rw (e, parse_name) (rest name)
  ]

module _ (packages : Packages) (w : RoomWorld) where
  -- The texts stand for a user and a room that the user does not own.
  abbrev pub NotOwner : String → String → Type 0
  NotOwner user_id room_id =
      (u r : ℕ)
      → packages.parse user_id ≡ some u
      → packages.parse room_id ≡ some r
      → owns w.db r u ≡ false

  handler-update_room :
      (room_id requester_id : String) (name : Option String) (now : ℕ)
      → NotOwner requester_id room_id
      → Ends (Unchanged w) (Handler.update_room packages room_id requester_id name now) w
  unfolding Handler.update_room pure on_error
  handler-update_room room_id requester_id name now h =
      validate-Ends (Unchanged w) packages _ _ w (refl, refl)
        (parse_id-Ends (Unchanged w) packages room_id _ w (refl, refl)
          λ r er.
            parse_id-Ends (Unchanged w) packages requester_id _ w (refl, refl)
              λ u eu.
                parse_name-Ends (Unchanged w) packages name _ w (refl, refl)
                  λ s.
                    bind-Ends (Unchanged w) (on_error _ (Service.update_room r u s now)) _ w
                      (update_room_needs_owner r u s now w (h u r eu er)) (λ a w' same. same))

  handler-delete_room :
      (room_id requester_id : String)
      → NotOwner requester_id room_id
      → Ends (Unchanged w) (Handler.delete_room packages room_id requester_id) w
  unfolding Handler.delete_room on_error
  handler-delete_room room_id requester_id h =
      validate-Ends (Unchanged w) packages _ _ w (refl, refl)
        (parse_id-Ends (Unchanged w) packages room_id _ w (refl, refl)
          λ r er.
            parse_id-Ends (Unchanged w) packages requester_id _ w (refl, refl)
              λ u eu. delete_room_needs_owner r u w (h u r eu er))

-- No request to PATCH /rooms/{id} changes a room, no request to DELETE /rooms/{id} deletes one, and
-- neither tells anyone of it, unless the request's token has the owner of the room that the path names
-- as its subject: whatever stands in the body, also where it names another requester or room, whatever
-- the rate limiter says and whatever the outcomes of the calls are.
pub rooms_need_owner :
    (parse : Parser) (secret : String) (requests : ℕ) (packages : Packages) (codec : Codec)
    (failure : GrpcCode) (max_body_size : ℕ) (a : Arrival) (room_id : String) (body : Option String)
    (now : ℕ) (w : RoomWorld)
    → ((sub : String) → subject parse secret a.cookie ≡ some sub → NotOwner packages w sub room_id)
    → Leaves w (
        protected parse secret requests a
          (Rooms.update_room packages codec failure max_body_size room_id body now))
      × Leaves w (
          protected parse secret requests a
            (Rooms.delete_room packages codec failure max_body_size room_id))
unfolding Rooms.update_room Rooms.delete_room
rooms_need_owner parse secret requests packages codec failure max_body_size a room_id body now w h =
    (
      protected-Leaves parse secret requests a _ w λ sub id e.
          with_body-Leaves (read_proto max_body_size codec.read_update body) _ w λ msg.
            call-Leaves failure (Handler.update_room packages room_id sub msg.2 now) _ w
              (handler-update_room packages (advance w) room_id sub msg.2 now (h sub e)),
      protected-Leaves parse secret requests a _ w λ sub id e.
          call-Leaves failure (Handler.delete_room packages room_id sub) _ w
            (handler-delete_room packages (advance w) room_id sub (h sub e)),
    )
