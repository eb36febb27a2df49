-- ===== src/Gateway/Reading.antt =====
-- services/gateway and services/message together: who reads the messages of a room, and how many at
-- once.
use efir.Prelude.{
  ℕ, zero, suc, String, ◌≡◌, ◌≤◌, refl, true, Option, none, some, List, ◌++◌, map, map_option,
  length, contains, if◌then◌else◌, ◌==◌, string_eq, nat_eq, arith, Bool-cases, Option-cases, inl,
  inr, ltb,
}
use mathlib.Core.Path.{subst}
use efir.Exec.{Result, ok, running, advance, pure}
use efir.Exec.Returns.{bind_ok, bind_kept, on_error_ok}
use efir.Prelude.Int.{ℤ, pos, negsuc}
use efir.Shared.Errors.{Code, GrpcCode}
use efir.Message.Types.{Message}
use efir.Message.Repository.{listing}
use efir.Message.Content.{Json}
use efir.Message.Order.{HasKeys}
use efir.Message.Pages.{row_ids, message_ids, rest}
use efir.Message.Paging.{get_messages_continues}
use efir.Message.Service
use efir.Message.Methods
use efir.Message.Methods.{Packages, ProtoMessage, parse_optional, message_to_proto}
use efir.Message.Deleted.{parsed, parse_id_world, validate_world}
use efir.Message.Rules.{MessageWorld}
use efir.Gateway.Http.{Response, write_proto}
use efir.Gateway.Access.{Context}
use efir.Gateway.Identity.{call_ok}
use efir.Gateway.Posting.{parse_optional_world}
use efir.Gateway.Messages
use efir.Gateway.Messages.{Codec, clamp, limit_of, cursor_of}

clamp_range : (z : ℤ) → (n : ℕ) × (clamp z ≡ suc n) × (n ≤ 99)
unfolding clamp
clamp_range (negsuc n) = (0, refl, omega arith)
clamp_range (pos zero) = (0, refl, omega arith)
clamp_range (pos (suc n)) = elim (Bool-cases (ltb 100 (suc n))) [
  | inl e ↦ (99, ground (arith, e), omega arith)
  | inr e ↦ (n, ground (arith, e), ground (arith, e))
]

-- Whatever the text, the limit is 1 to 100.
limit_of_range :
    (parse_int : String → Option ℤ) (text : String)
    → (n : ℕ) × (limit_of parse_int text ≡ suc n) × (n ≤ 99)
unfolding limit_of
limit_of_range parse_int text = elim (Bool-cases (text == "")) [
  | inl e ↦ (49, rw e refl, omega arith)
  | inr e ↦ elim (Option-cases (parse_int text)) [
    | inl f ↦ (49, rw (e, f) refl, omega arith)
    | inr (z, f) ↦ let (n, same, h) = clamp_range z in (n, rw (e, f) same, h)
  ]
]

-- The cursor that a query's text stands for.
abbrev pub cursor_from : Packages → String → Option ℕ
cursor_from packages text = if text == "" then none else packages.parse text

parsed_cursor :
    (packages : Packages) (text : String) (w : MessageWorld) (from_cursor : Option ℕ)
    → (parse_optional packages (cursor_of text) w).0 ≡ ok from_cursor
    → from_cursor ≡ cursor_from packages text
unfolding parse_optional cursor_of running
parsed_cursor packages text w from_cursor h = ground (arith, h)

-- What GetMessages returns is a page of the service, made for the texts' ids.
handler_returns :
    (packages : Packages) (j : Json) (room_id requester_id cursor : String) (limit : ℕ)
    (w : MessageWorld) (p : List ProtoMessage × Option String)
    → (Methods.get_messages packages j room_id requester_id (cursor_of cursor) limit w).0 ≡ ok p
    → (room : ℕ) × (requester : ℕ) × (msgs : List Message) × (next : Option ℕ) × (packages.parse
          room_id
        ≡ some room)
      × (packages.parse requester_id ≡ some requester)
      × ((Service.get_messages j room requester (cursor_from packages cursor) limit w).0
          ≡ ok (msgs, next))
      × (p ≡ (map (message_to_proto packages) msgs, map_option packages.format next))
unfolding Methods.get_messages pure
handler_returns packages j room_id requester_id cursor limit w p h =
    let (_, _, h1) = bind_kept _ _ w p (validate_world packages _ w) h in
    let (room, e1, h2) = bind_kept _ _ w p (parse_id_world packages room_id w) h1 in
    let (requester, e2, h3) = bind_kept _ _ w p (parse_id_world packages requester_id w) h2 in
    let (from_cursor, e3, h4) =
      bind_kept _ _ w p (parse_optional_world packages (cursor_of cursor) w) h3 in
    let ((msgs, next), e4, h5) = bind_ok _ _ w p h4 in
    (
      room,
      requester,
      msgs,
      next,
      parsed packages room_id w room e1,
      parsed packages requester_id w requester e2,
      subst (λ c. (Service.get_messages j room requester c limit w).0 ≡ ok (msgs, next))
          (parsed_cursor packages cursor w from_cursor e3) (on_error_ok _ _ w (msgs, next) e4),
      own_value _ p h5,
    )
  where
    own_value :
        (a b : List ProtoMessage × Option String)
        → ◌≡◌ {A = Result Code (List ProtoMessage × Option String)} (ok a) (ok b)
        → b ≡ a
    own_value a b k = ground (arith, k)

-- The response shows a member of the room at most 100 of its messages: those that the query's cursor
-- leads to, in order, but for the ones that the response's own cursor leads to.
abbrev pub IsPage : Packages → Codec → String → String → String → MessageWorld → Response → Type 0
IsPage packages codec room_id user_id cursor w response =
    (room : ℕ) × (user : ℕ) × (msgs : List Message) × (next : Option ℕ) × (packages.parse room_id
      ≡ some room)
    × (packages.parse user_id ≡ some user)
    × (contains (w.db.members room) user ≡ true)
    × (row_ids (listing room (cursor_from packages cursor) w.db)
        ≡ message_ids msgs ++ row_ids (rest room next w.db))
    × (length msgs ≤ 100)
    × (response
        ≡ write_proto codec.write_page 200
            (map (message_to_proto packages) msgs, map_option packages.format next))

-- If GET /rooms/{id}/messages is answered with 200, whatever the query's limit and the outcomes of the
-- calls, the user is a member of the room that the path names, and the body is made of at most 100
-- messages and a cursor: those messages, followed by all that the new cursor leads to, are all that
-- the query's cursor leads to, in order. The ids of the messages are distinct.
pub get_messages-IsPage :
    (packages : Packages) (j : Json) (codec : Codec) (failure : GrpcCode) (max_body_size : ℕ)
    (room_id cursor limit : String) (ctx : Context) (w : MessageWorld)
    → HasKeys w.db.messages
    → (Messages.get_messages packages j codec failure max_body_size room_id cursor limit ctx
        w).0.status
      ≡ 200
    → IsPage packages codec room_id ctx.user_id cursor w
        (Messages.get_messages packages j codec failure max_body_size room_id cursor limit ctx w).0
unfolding Messages.get_messages
get_messages-IsPage packages j codec failure max_body_size room_id cursor limit ctx w keys h =
    let (p, e, same) = call_ok failure _ _ w h in
    let (room, user, msgs, next, er, eu, es, ep) =
      handler_returns packages j room_id ctx.user_id cursor (limit_of codec.parse_int limit)
        (advance w) p e in
    let (n, el, few) = limit_of_range codec.parse_int limit in
    let (joined, whole, short) =
      get_messages_continues j room user (cursor_from packages cursor) n (advance w) msgs next keys
        (rw el at es) in
    (room, user, msgs, next, er, eu, joined, whole, ground (arith, short, few), rw ep at same)
