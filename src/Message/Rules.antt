-- ===== src/Message/Rules.antt =====
-- services/message: who may send, read and delete, and what is read back of what was sent.
use efir.Prelude.{
  ℕ, ◌≡◌, refl, ◌∙◌, List, [], ◌∷◌, ◌++◌, true, false, ◌&&◌, not, Option, none, some, ◌==◌, is_some,
  nat_eq, arith, contains, find_if, find_if-append, eq_self, Option-cases, Bool-cases, inl, inr,
}
use efir.Exec.{Result, ok, err, World, running}
use efir.Exec.Ends.{Ends, read-Ends, fail_if-Ends}
use efir.Message.Plain.{send_message_lem, get_message_by_id_lem}
use efir.Message.Types.{Message, MessageInput, Row, Db, MessageEvent, RepoError, backend}
use efir.Message.Content.{
  Json, IsFaithful, shape_of, type_shape, scan, marshal_content, unmarshal_content,
  build_reply_preview,
}
use efir.Message.Repository
use efir.Message.Repository.{
  select_row, insert_row, new_row, delete_one, soft_delete_rows, found, is_live, reply_of,
}
use efir.Message.Service
use efir.Message.Service.{
  not_member, not_owner, invalid_reply_target, message_not_found, wrapped, check_reply, send_event,
  message_err,
}

abbrev pub MessageWorld : Type 0
MessageWorld = World Db MessageEvent

abbrev pub served_world : Db → List MessageEvent → MessageWorld
served_world db events = record { db = db; outcomes = []; events = events }

abbrev pub Unchanged : MessageWorld → Db → List MessageEvent → Type 0
Unchanged w db events = (db ≡ w.db) × (events ≡ w.events)

-- A user who is not a member of the room sends nothing to it: whatever the outcomes of the calls,
-- no row is added and nobody is told.
pub send_message_needs_member :
    (j : Json) (input : MessageInput) (id now : ℕ) (w : MessageWorld)
    → contains (w.db.members input.room_id) input.sender_id ≡ false
    → Ends (Unchanged w) (Service.send_message j input id now) w
unfolding Service.is_member
send_message_needs_member j input id now w h = rw send_message_lem (
    read-Ends (Unchanged w) wrapped backend _ _ w (refl, refl)
      λ w1 s1 joined e.
        fail_if-Ends (Unchanged w) _ _ _ w1 (s1.same_db, s1.same_events) λ f. ground (arith, h))

scan_keeps :
    (j : Json) (m : Row) (rm : Option Row) (a : Message)
    → scan j m rm ≡ some a
    → (a.room_id ≡ m.room_id) × (a.sender_id ≡ m.sender_id)
unfolding scan
scan_keeps j m rm a h = ground arith

-- A user who did not send the message, or is not a member of its room, does not delete it, whatever
-- the outcomes of the calls.
pub delete_message_needs_sender :
    (j : Json) (id requester_id now : ℕ) (w : MessageWorld)
    → ((m : Row)
        → select_row id w.db ≡ some m
        → ((m.sender_id == requester_id) && contains (w.db.members m.room_id) requester_id) ≡ false)
    → Ends (Unchanged w) (Service.delete_message j id requester_id now) w
unfolding Service.delete_message Service.is_member Repository.get_message_by_id
delete_message_needs_sender j id requester_id now w h =
    read-Ends (Unchanged w) message_err backend _ _ w (refl, refl)
      λ w1 s1 msg e1.
        read-Ends (Unchanged w) wrapped backend _ _ w1 (s1.same_db, s1.same_events)
          λ w2 s2 joined e2.
            let u2 : Unchanged w w2.db w2.events =
              (s2.same_db ∙ s1.same_db, s2.same_events ∙ s1.same_events) in
            fail_if-Ends (Unchanged w) _ _ _ w2 u2 λ f. fail_if-Ends (Unchanged w) _ _ _ w2 u2 λ g.
              elim (Option-cases (select_row id w.db)) [
                | inl k ↦ ground (arith, k)
                | inr (m, k) ↦
                    let (room, sender) = scan_keeps j m (reply_of w.db m) msg (ground (arith, k)) in
                    absurd (ground (arith, h m k, room, sender, rw s1.same_db at e2))
              ]

pub sent_row :
    (j : Json) (input : MessageInput) (id now : ℕ) (w : MessageWorld) (msg : Message)
    → (Service.send_message j input id now w).0 ≡ ok msg
    → ((Service.send_message j input id now w).1.db ≡ (insert_row j input id now w.db).1)
      × ((insert_row j input id now w.db).0 ≡ ok msg)
unfolding check_reply send_event Repository.create_message Service.get_room_members
    Service.is_member Repository.get_message_by_id running
sent_row j input id now w msg = rw send_message_lem (λ sent. ground arith)

select_fresh :
    (id : ℕ) (ms : List Row) (row : Row)
    → find_if (λ m. m.id == id) ms ≡ none
    → row.id ≡ id
    → find_if (λ m. m.id == id) (ms ++ row ∷ []) ≡ some row
select_fresh id ms row h e =
    ground (arith, find_if-append (λ (m : Row). m.id == id) ms (row ∷ []), eq_self id)

absent : (o : Option Row) → is_some o ≡ false → o ≡ none
absent none e = refl
absent (some m) e = cc

same_keys :
    (a b : Message)
    → ◌≡◌ {A = Result RepoError Message} (ok a) (ok b)
    → (b.id ≡ a.id) × (b.room_id ≡ a.room_id)
same_keys a b h = ground (arith, h)

pub select_new :
    (j : Json) (input : MessageInput) (id now : ℕ) (db : Db) (msg : Message)
    → (insert_row j input id now db).0 ≡ ok msg
    → (select_row id (insert_row j input id now db).1 ≡ some (new_row j input id now))
      × ((insert_row j input id now db).1.members ≡ db.members)
      × (msg.id ≡ id)
      × (msg.room_id ≡ input.room_id)
unfolding insert_row select_row
select_new j input id now db msg h = elim (Bool-cases (is_some (select_row id db))) [
  | inl e ↦ cc (rw e at h)
  | inr e ↦
      elim (Bool-cases
        (is_some input.reply_to_id && not (is_some (reply_of db (new_row j input id now))))) [
          | inl f ↦ cc (rw (e, f) at h)
          | inr f ↦ (
            rw (e, f) (select_fresh id db.messages (new_row j input id now) (absent _ e) refl),
            rw (e, f) refl,
            (same_keys _ _ (rw (e, f) at h)).0,
            (same_keys _ _ (rw (e, f) at h)).1,
          )
        ]
]

-- What a new row is scanned to.
scan_new :
    (j : Json) (input : MessageInput) (id now : ℕ) (rm : Option Row)
    → IsFaithful j input.content
    → shape_of input.content ≡ type_shape input.type
    → (got : Message) × (scan j (new_row j input id now) rm ≡ some got)
      × (got.id ≡ id)
      × (got.sender_id ≡ input.sender_id)
      × (got.room_id ≡ input.room_id)
      × (got.type ≡ input.type)
      × (got.content ≡ input.content)
unfolding scan unmarshal_content marshal_content
scan_new j input id now rm faithful shape =
    let read_back : j.unmarshal (type_shape input.type) (j.marshal input.content)
        ≡ some input.content =
      rw (← shape) faithful in
    (
      record {
        id = id;
        room_id = input.room_id;
        sender_id = input.sender_id;
        type = input.type;
        content = input.content;
        reply_to = build_reply_preview j rm;
        deleted_at = none;
        edited_at = none;
        created_at = now;
        updated_at = now;
      },
      rw read_back refl,
      refl,
      refl,
      refl,
      refl,
      refl,
    )

-- A message whose content has the type's shape, and survives JSON, is read back as it was sent: after
-- a SendMessage that returns it, whatever the outcomes of its calls, a served GetMessageByID by a
-- member of the room returns its id, sender, room, type and content.
pub get_message_by_id-send_message :
    (j : Json) (input : MessageInput) (id now reader : ℕ) (w : MessageWorld) (msg : Message)
    → IsFaithful j input.content
    → shape_of input.content ≡ type_shape input.type
    → (Service.send_message j input id now w).0 ≡ ok msg
    → contains (w.db.members input.room_id) reader ≡ true
    → (got : Message) × ((Service.get_message_by_id j id reader
          (served_world (Service.send_message j input id now w).1.db [])).0
        ≡ ok got)
      × (got.id ≡ msg.id)
      × (got.sender_id ≡ input.sender_id)
      × (got.room_id ≡ input.room_id)
      × (got.type ≡ input.type)
      × (got.content ≡ input.content)
unfolding Repository.get_message_by_id Service.is_member running
get_message_by_id-send_message j input id now reader w msg faithful shape sent joined =
    let (d, ins) = sent_row j input id now w msg sent in
    let (row, members, own, _) = select_new j input id now w.db msg ins in
    let (got, scanned, a, b, c, t, e) =
      scan_new j input id now (reply_of (insert_row j input id now w.db).1 (new_row j input id now))
        faithful shape in
    (
      got,
      rw get_message_by_id_lem (rw (d, row, scanned, members, c, joined) refl),
      rw (a, own) refl,
      b,
      c,
      t,
      e,
    )

-- A served DeleteMessage, by its sender and a member of the room, of a message that is deleted already
-- and can be read fails with the repository's own error, not with the service's ErrMessageNotFound.
pub delete_message_again :
    (j : Json) (id requester_id now : ℕ) (db : Db) (es : List MessageEvent) (m : Row) (a : Message)
    → select_row id db ≡ some m
    → scan j m (reply_of db m) ≡ some a
    → is_some m.deleted_at ≡ true
    → m.sender_id ≡ requester_id
    → contains (db.members m.room_id) requester_id ≡ true
    → (Service.delete_message j id requester_id now (served_world db es)).0
      ≡ err (wrapped RepoError.message_not_found)
unfolding Service.delete_message Service.is_member Repository.get_message_by_id
    Repository.soft_delete_message soft_delete_rows running
delete_message_again j id requester_id now db es m a f s d own joined =
    ground (arith, f, s, scan_keeps j m (reply_of db m) a s, eq_self requester_id)
