-- ===== src/Message/Deleted.antt =====
-- services/message: what is still shown of a message that is deleted.
use efir.Prelude.{ℕ, String, ◌≡◌, true, Option, none, some, is_some, arith, Option-cases, inl, inr}
use efir.Exec.{Result, ok, running, pure}
use efir.Exec.Returns.{bind_ok, on_error_ok}
use efir.Shared.Errors.{Code}
use efir.Message.Plain.{get_message_by_id_lem}
use efir.Message.Types.{Message, Row, Db}
use efir.Message.Content.{Json, scan, build_reply_preview}
use efir.Message.Repository
use efir.Message.Repository.{select_row, reply_of, found}
use efir.Message.Service
use efir.Message.Service.{ServiceError}
use efir.Message.Handler.{message_type_to_proto}
use efir.Message.Methods
use efir.Message.Methods.{
  Packages, ProtoMessage, ProtoPreview, message_to_proto, preview_to_proto, validate, parse_id,
}
use efir.Message.Rules.{MessageWorld}

service_returns :
    (j : Json) (id reader : ℕ) (w : MessageWorld) (msg : Message)
    → (Service.get_message_by_id j id reader w).0 ≡ ok msg
    → found j w.db (select_row id w.db) ≡ ok msg
unfolding Service.is_member Repository.get_message_by_id running
service_returns j id reader w msg = rw get_message_by_id_lem (λ h. ground (arith, h))

pub parsed :
    (packages : Packages) (text : String) (w : MessageWorld) (id : ℕ)
    → (parse_id packages text w).0 ≡ ok id
    → packages.parse text ≡ some id
unfolding parse_id running
parsed packages text w id h = ground (arith, h)

pub parse_id_world :
    (packages : Packages) (text : String) (w : MessageWorld) → (parse_id packages text w).1 ≡ w
unfolding parse_id running
parse_id_world packages text w = ground arith

pub validate_world :
    (packages : Packages) (req : Methods.Request) (w : MessageWorld)
    → (validate packages req w).1 ≡ w
unfolding validate running
validate_world packages req w = ground arith

own_value :
    (a b : ProtoMessage) (w : MessageWorld)
    → ◌≡◌ {A = Result Code ProtoMessage} (pure {E = Code} a w).0 (ok b)
    → b ≡ a
unfolding pure
own_value a b w h = ground (arith, h)

-- What GetMessageById returns is the row of the message, read from the table as it was.
handler_returns :
    (packages : Packages) (j : Json) (message_id requester_id : String) (w : MessageWorld)
    (p : ProtoMessage)
    → (Methods.get_message_by_id packages j message_id requester_id w).0 ≡ ok p
    → (id : ℕ) × (msg : Message) × (packages.parse message_id ≡ some id)
      × (found j w.db (select_row id w.db) ≡ ok msg)
      × (p ≡ message_to_proto packages msg)
unfolding Methods.get_message_by_id
handler_returns packages j message_id requester_id w p h =
    let (_, _, h1) = bind_ok _ _ w p h in
    let (id, e1, h2) = bind_ok _ _ _ p (rw validate_world at h1) in
    let (reader, e2, h3) = bind_ok _ _ _ p (rw parse_id_world at h2) in
    let (msg, e3, h4) = bind_ok _ _ _ p (rw parse_id_world at h3) in
    (
      id,
      msg,
      parsed packages message_id w id e1,
      service_returns j id reader w msg (on_error_ok _ _ w msg e3),
      own_value (message_to_proto packages msg) p _ h4,
    )

scan_deleted :
    (j : Json) (m : Row) (rm : Option Row) (msg : Message)
    → scan j m rm ≡ some msg
    → (msg.deleted_at ≡ m.deleted_at) × (msg.reply_to ≡ build_reply_preview j rm)
unfolding scan
scan_deleted j m rm msg h = ground (arith, h)

-- The preview that says only which message it is of.
abbrev pub bare_preview : Packages → Row → ProtoPreview
bare_preview packages rm = record {
  message_id = packages.format rm.id;
  sender_id = packages.format rm.sender_id;
  type = message_type_to_proto rm.type;
  text_preview = none;
  file_name = none;
  mime_type = none;
}

found_row :
    (j : Json) (db : Db) (m : Row) (msg : Message)
    → found j db (some m) ≡ ok msg
    → scan j m (reply_of db m) ≡ some msg
found_row j db m msg h = ground (arith, h)

shown_deleted :
    (packages : Packages) (msg : Message)
    → is_some msg.deleted_at ≡ true
    → ((message_to_proto packages msg).content ≡ none)
      × ((message_to_proto packages msg).is_deleted ≡ true)
unfolding message_to_proto
shown_deleted packages msg d = (ground (arith, d), d)

preview_deleted :
    (packages : Packages) (j : Json) (msg : Message) (rm : Row)
    → msg.reply_to ≡ build_reply_preview j (some rm)
    → is_some rm.deleted_at ≡ true
    → (message_to_proto packages msg).reply_to ≡ some (bare_preview packages rm)
unfolding message_to_proto preview_to_proto build_reply_preview
preview_deleted packages j msg rm e d = ground (arith, e, d)

-- Whatever the outcomes of its calls, a GetMessageById that returns a message returns one that is in
-- the table under that id. If that message is deleted, its content is not shown; and if it replies
-- to a message that is deleted, the preview shows the id, sender and type of that message only.
pub get_message_by_id_deleted :
    (packages : Packages) (j : Json) (message_id requester_id : String) (w : MessageWorld)
    (p : ProtoMessage)
    → (Methods.get_message_by_id packages j message_id requester_id w).0 ≡ ok p
    → (id : ℕ) × (m : Row) × (packages.parse message_id ≡ some id)
      × (select_row id w.db ≡ some m)
      × (is_some m.deleted_at ≡ true → (p.content ≡ none) × (p.is_deleted ≡ true))
      × ((rm : Row)
          → reply_of w.db m ≡ some rm
          → is_some rm.deleted_at ≡ true
          → p.reply_to ≡ some (bare_preview packages rm))
get_message_by_id_deleted packages j message_id requester_id w p h =
    let (id, msg, e, f, g) = handler_returns packages j message_id requester_id w p h in
    elim (Option-cases (select_row id w.db)) [
      | inl k ↦ absurd (ground (arith, f, k))
      | inr (m, k) ↦
          let s = scan_deleted j m (reply_of w.db m) msg (found_row j w.db m msg (rw k at f)) in
          (
            id,
            m,
            e,
            k,
            λ d. rw g (shown_deleted packages msg (rw s.0 d)),
            λ rm r d. rw g (preview_deleted packages j msg rm (rw (← r) s.1) d),
          )
    ]
