-- ===== src/Message/Service.antt =====
-- services/message/internal/service/message.go: the message service's methods, over the repository,
-- the room client and the publisher. The two packages declare the same types, which are one here; the
-- copies between them are in Mapper.
use efir.Prelude.{ℕ, List, Bool, not, Option, none, some, ◌==◌, contains, nat_eq, is_some}
use efir.Exec.{
  Result, ok, err, Exec, pure, read, publish, ◌>>=◌, ◌>>◌, fail_if, on_error, attempt, ignore_error,
}
use efir.Message.Types.{
  Message, MessageInput, Db, RepoError, backend, MessageEvent, message_created, Repo,
}
use efir.Message.Content.{Json}
use efir.Message.Repository
use efir.Message.Mapper.{to_message, to_messages, to_repo_input}

pub data ServiceError : Type 0 where
  message_not_found not_member not_owner invalid_reply_target : ServiceError
  wrapped : RepoError → ServiceError

abbrev pub Service : Type 0 → Type 0
Service A = Exec Db MessageEvent ServiceError A

abbrev pub reply_err : RepoError → ServiceError
reply_err RepoError.message_not_found = invalid_reply_target
reply_err e = wrapped e

abbrev pub message_err : RepoError → ServiceError
message_err RepoError.message_not_found = message_not_found
message_err e = wrapped e

-- The room service's answers.
unfoldable pub is_member : ℕ → ℕ → Repo Bool
is_member room_id user_id = read backend (λ db. ok (contains (db.members room_id) user_id))

unfoldable pub get_room_members : ℕ → Repo (List ℕ)
get_room_members room_id = read backend (λ db. ok (db.members room_id))

unfoldable pub check_reply : Json → ℕ → Option ℕ → Service (Unit {0})
check_reply j room_id none = pure tt
check_reply j room_id (some reply_to_id) = do
  original ← on_error reply_err (Repository.get_message_by_id j reply_to_id)
  fail_if (is_some original.deleted_at) invalid_reply_target
  fail_if (not (original.room_id == room_id)) invalid_reply_target

unfoldable pub send_event : Message → Result RepoError (List ℕ) → Service (Unit {0})
send_event msg (err e) = pure tt
send_event msg (ok recipient_ids) =
    ignore_error {E = RepoError} (publish backend (message_created msg recipient_ids))

unfoldable pub send_message : Json → MessageInput → ℕ → ℕ → Service Message
unfolding to_message to_repo_input
send_message j input id now = do
  joined ← on_error wrapped (is_member input.room_id input.sender_id)
  fail_if (not joined) not_member
  check_reply j input.room_id input.reply_to_id
  msg ← on_error wrapped (Repository.create_message j (to_repo_input input) id now)
  recipients ← attempt (get_room_members input.room_id)
  send_event (to_message msg) recipients
  pure (to_message msg)

unfoldable pub get_messages : Json → ℕ → ℕ → Option ℕ → ℕ → Service (List Message × Option ℕ)
unfolding to_messages
get_messages j room_id requester_id cursor limit = do
  joined ← on_error wrapped (is_member room_id requester_id)
  fail_if (not joined) not_member
  page ← on_error wrapped (Repository.get_messages_by_room_id j room_id cursor limit)
  pure (to_messages page.0, page.1)

unfoldable pub get_message_by_id : Json → ℕ → ℕ → Service Message
unfolding to_message
get_message_by_id j message_id requester_id = do
  msg ← on_error message_err (Repository.get_message_by_id j message_id)
  joined ← on_error wrapped (is_member msg.room_id requester_id)
  fail_if (not joined) not_member
  pure (to_message msg)

unfoldable pub delete_message : Json → ℕ → ℕ → ℕ → Service (Unit {0})
delete_message j message_id requester_id now = do
  msg ← on_error message_err (Repository.get_message_by_id j message_id)
  joined ← on_error wrapped (is_member msg.room_id requester_id)
  fail_if (not joined) not_member
  fail_if (not (msg.sender_id == requester_id)) not_owner
  on_error wrapped (Repository.soft_delete_message message_id now)
