-- ===== src/Gateway/Messages.antt =====
-- services/gateway/internal/handler/message/handler.go, over the message service's methods. protojson
-- and strconv.ParseInt are parameters.
use efir.Prelude.{ℕ, String, List, Option, none, some, ltb, ◌==◌, if◌then◌else◌, string_eq}
use efir.Prelude.Int.{ℤ, pos, negsuc}
use efir.Shared.Errors.{GrpcCode}
use efir.Message.Content.{Json}
use efir.Message.Handler.{ProtoType, RequestContent}
use efir.Message.Methods
use efir.Message.Methods.{Packages, ProtoMessage}
use efir.Message.Rules.{MessageWorld}
use efir.Gateway.Http.{write_proto, read_proto, call, with_body}
use efir.Gateway.Access.{Endpoint}

-- The body of SendMessageRequest, with all its fields; and strconv.ParseInt to 32 bits.
pub record Codec : Type 0 where
  pub read_send : String → Option (String × String × Option String × ProtoType × RequestContent)
  pub write_message : ProtoMessage → Option String
  pub write_page : List ProtoMessage × Option String → Option String
  pub parse_int : String → Option ℤ

unfoldable pub clamp : ℤ → ℕ
clamp (negsuc n) = 1
clamp (pos n) = if ltb n 1 then 1 else if ltb 100 n then 100 else n

-- The query's parameters, where the empty text is a parameter that is not given.
unfoldable pub limit_of : (String → Option ℤ) → String → ℕ
limit_of parse_int text =
    if text == "" then 50 else elim (parse_int text) [ none ↦ 50 | some n ↦ clamp n ]

unfoldable pub cursor_of : String → Option String
cursor_of text = if text == "" then none else some text

module _ (packages : Packages) (j : Json) (codec : Codec) (failure : GrpcCode)
    (max_body_size : ℕ) where
  -- The room's id is the path's, and the sender is the user.
  unfoldable pub send_message : String → Option String → ℕ → ℕ → Endpoint MessageWorld
  send_message room_id body id now ctx =
      with_body (read_proto max_body_size codec.read_send body)
        λ (_, _, reply_to_id, type, content).
          call failure
            (Methods.send_message packages j room_id ctx.user_id reply_to_id type content id now)
            (write_proto codec.write_message 201)

  unfoldable pub get_messages : String → String → String → Endpoint MessageWorld
  get_messages room_id cursor limit ctx =
      call failure
        (Methods.get_messages packages j room_id ctx.user_id (cursor_of cursor)
          (limit_of codec.parse_int limit))
        (write_proto codec.write_page 200)
