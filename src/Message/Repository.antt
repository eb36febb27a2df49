-- ===== src/Message/Repository.antt =====
-- services/message/internal/repository/postgres.go: each method is its SQL statements on the table.
-- The id of a new row and now() are arguments.
use efir.Prelude.{
  ℕ, suc, List, [], ◌∷◌, ◌++◌, map, Bool, true, false, ◌&&◌, ◌||◌, not, Option, none, some, ◌==◌,
  if◌then◌else◌, keep_if, find_if, is_some, ltb, nat_eq, take, length,
}
use efir.Exec.{Result, ok, err, pure, read, write, ◌>>◌}
use efir.Message.Types.{
  Message, MessageInput, Row, Db, RepoError, message_not_found, invalid_cursor, backend, Repo,
}
use efir.Message.Content.{Json, marshal_content, scan}

unfoldable pub select_row : ℕ → Db → Option Row
select_row id db = find_if (λ m. m.id == id) db.messages

-- LEFT JOIN messages rm ON rm.id = m.reply_to_id
abbrev pub reply_of : Db → Row → Option Row
reply_of db m = elim m.reply_to_id [ none ↦ none | some id ↦ select_row id db ]

abbrev pub scanned : Option Message → Result RepoError Message
scanned none = err backend
scanned (some m) = ok m

abbrev pub new_row : Json → MessageInput → ℕ → ℕ → Row
new_row j input id now = record {
  id = id;
  room_id = input.room_id;
  sender_id = input.sender_id;
  type = input.type;
  content = marshal_content j input.content;
  reply_to_id = input.reply_to_id;
  deleted_at = none;
  edited_at = none;
  created_at = now;
  updated_at = now;
}

-- INSERT INTO messages: the primary key, and the reply must be to a row of the table.
unfoldable pub insert_row : Json → MessageInput → ℕ → ℕ → Db → Result RepoError Message × Db
insert_row j input id now db =
    let row = new_row j input id now in
    if is_some (select_row id db)
    then (err backend, db)
    else if is_some input.reply_to_id && not (is_some (reply_of db row))
    then (err backend, db)
    else (
      ok (record {
        id = id;
        room_id = input.room_id;
        sender_id = input.sender_id;
        type = input.type;
        content = input.content;
        reply_to = none;
        deleted_at = none;
        edited_at = none;
        created_at = now;
        updated_at = now;
      }),
      record db { messages = db.messages ++ row ∷ [] },
    )

unfoldable pub create_message : Json → MessageInput → ℕ → ℕ → Repo Message
create_message j input id now = write backend (insert_row j input id now)

-- (a.created_at, a.id) < (b.created_at, b.id)
unfoldable pub before : Row → Row → Bool
before a b = ltb a.created_at b.created_at || ((a.created_at == b.created_at) && ltb a.id b.id)

-- ORDER BY m.created_at DESC, m.id DESC
unfoldable pub insert_newest : Row → List Row → List Row
insert_newest m [] = m ∷ []
insert_newest m (n ∷ ns) = if before m n then n ∷ insert_newest m ns else m ∷ n ∷ ns

unfoldable pub newest_first : List Row → List Row
newest_first [] = []
newest_first (m ∷ ms) = insert_newest m (newest_first ms)

-- No cursor lets every row through; a cursor whose row is gone compares as NULL, and lets none.
abbrev pub before_cursor : Option ℕ → Db → Row → Bool
before_cursor none db m = true
before_cursor (some c) db m = elim (select_row c db) [ none ↦ false | some r ↦ before m r ]

-- The rows of the room that are not deleted, from the cursor on.
unfoldable pub listing : ℕ → Option ℕ → Db → List Row
listing room_id cursor db =
    keep_if (λ m. (m.room_id == room_id) && not (is_some m.deleted_at) && before_cursor cursor db m)
      (newest_first db.messages)

-- The loop over the rows: one that cannot be read ends it.
unfoldable pub scan_rows : Json → Db → List Row → Option (List Message)
scan_rows j db [] = some []
scan_rows j db (m ∷ ms) =
    let rest = scan_rows j db ms in
    elim (scan j m (reply_of db m)) [
      | none ↦ none
      | some message ↦ elim rest [ none ↦ none | some messages ↦ some (message ∷ messages) ]
    ]

abbrev pub last_id : List Message → Option ℕ
last_id [] = none
last_id (m ∷ []) = some m.id
last_id (m ∷ n ∷ ms) = last_id (n ∷ ms)

-- One row more than the limit was asked for: if it came, there is a next page. The limit is positive;
-- for 0 the index of the last message is out of range.
unfoldable pub cut : ℕ → List Message → List Message × Option ℕ
cut limit messages =
    if ltb limit (length messages)
    then (take limit messages, last_id (take limit messages))
    else (messages, none)

abbrev pub page : Json → ℕ → Option ℕ → ℕ → Db → Result RepoError (List Message × Option ℕ)
page j room_id cursor limit db =
    elim (scan_rows j db (take (suc limit) (listing room_id cursor db))) [
      | none ↦ err backend
      | some messages ↦ ok (cut limit messages)
    ]

unfoldable pub check_cursor : Option ℕ → Repo (Unit {0})
check_cursor none = pure tt
check_cursor (some c) =
    read backend (λ db. if is_some (select_row c db) then ok tt else err invalid_cursor)

unfoldable pub get_messages_by_room_id : Json → ℕ → Option ℕ → ℕ → Repo (List Message × Option ℕ)
get_messages_by_room_id j room_id cursor limit =
    check_cursor cursor >> read backend (page j room_id cursor limit)

abbrev pub found : Json → Db → Option Row → Result RepoError Message
found j db none = err message_not_found
found j db (some m) = scanned (scan j m (reply_of db m))

unfoldable pub get_message_by_id : Json → ℕ → Repo Message
get_message_by_id j id = read backend (λ db. found j db (select_row id db))

abbrev pub delete_one : ℕ → ℕ → Row → Row
delete_one id now m =
    if (m.id == id) && not (is_some m.deleted_at)
    then record m { deleted_at = some now; updated_at = now }
    else m

abbrev pub is_live : Option Row → Bool
is_live none = false
is_live (some m) = not (is_some m.deleted_at)

-- UPDATE messages SET deleted_at = now(), … WHERE id = $1 AND deleted_at IS NULL
unfoldable pub soft_delete_rows : ℕ → ℕ → Db → Result RepoError (Unit {0}) × Db
soft_delete_rows id now db = (
  (if is_live (select_row id db) then ok tt else err message_not_found),
  record db { messages = map (delete_one id now) db.messages },
)

unfoldable pub soft_delete_message : ℕ → ℕ → Repo (Unit {0})
soft_delete_message id now = write backend (soft_delete_rows id now)
