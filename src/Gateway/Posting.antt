-- ===== src/Gateway/Posting.antt =====
-- services/gateway and services/message together: who sends to a room.
use efir.Prelude.{ℕ, String, ◌≡◌, refl, false, Option, some, arith, contains, string_eq, nat_eq}
use efir.Exec.{advance, pure, on_error, running}
use efir.Exec.Ends.{Ends, check-Ends, bind-Ends}
use efir.Shared.Errors.{GrpcCode}
use efir.Message.Content.{Json}
use efir.Message.Service
use efir.Message.Handler.{ProtoType, RequestContent}
use efir.Message.Methods
use efir.Message.Methods.{Packages, parse_optional, parse_content}
use efir.Message.Deleted.{parsed, parse_id_world, validate_world}
use efir.Message.Rules.{MessageWorld, Unchanged, send_message_needs_member}
use efir.Gateway.Http.{read_proto}
use efir.Gateway.Access.{Parser, subject, Arrival, protected}
use efir.Gateway.Effects.{Leaves, call-Leaves, protected-Leaves, with_body-Leaves}
use efir.Gateway.Messages
use efir.Gateway.Messages.{Codec}

pub parse_optional_world :
    (packages : Packages) (text : Option String) (w : MessageWorld)
    → (parse_optional packages text w).1 ≡ w
unfolding parse_optional running
parse_optional_world packages text w = ground arith

parse_content_world :
    (packages : Packages) (type : ProtoType) (content : RequestContent) (w : MessageWorld)
    → (parse_content packages type content w).1 ≡ w
unfolding parse_content running
parse_content_world packages type content w = ground arith

module _ (packages : Packages) (w : MessageWorld) where
  -- The texts stand for a user and a room that the user is not a member of.
  abbrev pub NotMember : String → String → Type 0
  NotMember user_id room_id =
      (u r : ℕ)
      → packages.parse user_id ≡ some u
      → packages.parse room_id ≡ some r
      → contains (w.db.members r) u ≡ false

  handler-send_message :
      (j : Json) (room_id sender_id : String) (reply_to_id : Option String) (type : ProtoType)
      (content : RequestContent) (id now : ℕ)
      → NotMember sender_id room_id
      → Ends
          (Unchanged w)
          (Methods.send_message packages j room_id sender_id reply_to_id type content id now)
          w
  unfolding Methods.send_message pure on_error
  handler-send_message j room_id sender_id reply_to_id type content id now h =
      check-Ends (Unchanged w) _ _ w (validate_world packages _ w) (refl, refl)
        λ _ _.
          check-Ends (Unchanged w) _ _ w (parse_id_world packages room_id w) (refl, refl)
            λ r er.
              check-Ends (Unchanged w) _ _ w (parse_id_world packages sender_id w) (refl, refl)
                λ u eu.
                  check-Ends (Unchanged w) _ _ w (parse_optional_world packages reply_to_id w)
                    (refl, refl)
                    λ reply_to _.
                      check-Ends (Unchanged w) _ _ w (parse_content_world packages type content w)
                        (refl, refl)
                        λ typed _.
                          bind-Ends (Unchanged w) (on_error _ (Service.send_message j _ id now)) _ w
                            (send_message_needs_member j
                              (record {
                                room_id = r;
                                sender_id = u;
                                type = typed.0;
                                content = typed.1;
                                reply_to_id = reply_to;
                              })
                              id now w
                              (h u r (parsed packages sender_id w u eu)
                                (parsed packages room_id w r er)))
                            (λ a w' same. same)

-- No request to POST /rooms/{id}/messages adds a message or tells anyone of one, unless its token's
-- subject is a member of the room that the path names: whatever stands in its body, also where the
-- body names another sender or room, whatever the rate limiter says and whatever the outcomes of the
-- calls are.
pub send_message-Leaves :
    (parse : Parser) (secret : String) (requests : ℕ) (packages : Packages) (j : Json)
    (codec : Codec) (failure : GrpcCode) (max_body_size : ℕ) (a : Arrival) (room_id : String)
    (body : Option String) (id now : ℕ) (w : MessageWorld)
    → ((sub : String) → subject parse secret a.cookie ≡ some sub → NotMember packages w sub room_id)
    → Leaves w (
        protected parse secret requests a
          (Messages.send_message packages j codec failure max_body_size room_id body id now))
unfolding Messages.send_message
send_message-Leaves parse secret requests packages j codec failure max_body_size a room_id body id
      now w h =
    protected-Leaves parse secret requests a _ w λ sub _ e.
      with_body-Leaves (read_proto max_body_size codec.read_send body) _ w λ msg.
        call-Leaves failure (Methods.send_message packages j room_id sub msg.2 msg.3 msg.4 id now) _
          w
          (handler-send_message packages (advance w) j room_id sub msg.2 msg.3 msg.4 id now
            (h sub e))
