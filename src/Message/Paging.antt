-- ===== src/Message/Paging.antt =====
-- services/message/internal/repository/postgres.go, GetMessagesByRoomID: the pages that a client
-- gets by handing each page's cursor back.
use efir.Prelude.{
  ℕ, suc, ◌≡◌, ◌≤◌, ap, ◌∙◌, sym, List, [], ◌∷◌, ◌++◌, Bool, true, false, ◌&&◌, not, Option, none,
  some, ◌==◌, keep_if, ltb, nat_eq, arith, Bool-cases, Option-cases, inl, inr, take, length,
  is_some, contains,
}
use efir.Exec.{ok, World, running}
use efir.Message.Plain.{get_messages_lem}
use efir.Message.Types.{Row, Db, Message, MessageEvent}
use efir.Message.Content.{Json}
use efir.Message.Repository.{
  before, newest_first, listing, before_cursor, select_row, scan_rows, cut, page, check_cursor,
  get_messages_by_room_id,
}
use efir.Message.Service
use efir.Message.Order.{
  IsNewestFirst, HasKeys, before_trans, newest_first_sorted, keep_if_sorted, after_last,
  All-newest_first, All-keep_if,
}
use efir.Message.Pages.{
  row_ids, message_ids, rest, All-at, All-kept, keep_if-keep_if, find_own, split_at, take_all,
  scan_rows_ids, length-message_ids, take_ids, last_id_at, row_ids_cut, nothing_more, length-take,
}

module _ (room_id : ℕ) (cursor : Option ℕ) (db : Db) (keys : HasKeys db.messages) where
  abbrev passes : Row → Bool
  passes m = (m.room_id == room_id) && not (is_some m.deleted_at) && before_cursor cursor db m

  abbrev passes_after : Row → Row → Bool
  passes_after l m = (m.room_id == room_id) && not (is_some m.deleted_at) && before m l

  narrower : (l : Row) → passes l ≡ true → (m : Row) → (passes m && before m l) ≡ passes_after l m
  narrower l p m = elim (Bool-cases (before m l)) [
    | inr e ↦ ground arith
    | inl e ↦ elim (Bool-cases (before_cursor cursor db m)) [
      | inl f ↦ ground arith
      | inr f ↦ absurd (outside cursor e p f)
    ]
  ]
    where
      outside :
          (c : Option ℕ)
          → before m l ≡ true
          → ((l.room_id == room_id) && not (is_some l.deleted_at) && before_cursor c db l) ≡ true
          → before_cursor c db m ≡ false
          → ⊥
      outside none e h k = cc
      outside (some c) e h k = elim (Option-cases (select_row c db)) [
        | inl g ↦ ground (arith, g)
        | inr (r, g) ↦ ground (arith, g, before_trans m l r e)
      ]

  -- The rows behind the last one of a page are those that its id, as a cursor, leads to.
  listing_after :
      (xs : List Row) (l : Row) (zs : List Row)
      → listing room_id cursor db ≡ xs ++ l ∷ zs
      → listing room_id (some l.id) db ≡ zs
  unfolding listing select_row
  listing_after xs l zs e =
      let sorted : IsNewestFirst (xs ++ l ∷ zs) =
        rw (← e) (keep_if_sorted passes _ (newest_first_sorted db.messages keys)) in
      let p : passes l ≡ true =
        All-at (λ m. passes m ≡ true) xs l zs
          (rw (← e) (All-kept passes (newest_first db.messages))) in
      let own : select_row l.id db ≡ some l =
        All-at (λ m. select_row m.id db ≡ some m) xs l zs
          (rw (← e) (
            All-keep_if (λ m. select_row m.id db ≡ some m) passes _
              (All-newest_first (λ m. select_row m.id db ≡ some m) db.messages
                (find_own db.messages keys)))) in
      ap
        (λ o.
          keep_if
            (λ m.
              (m.room_id == room_id)
              && not (is_some m.deleted_at)
              && elim o [ none ↦ false | some r ↦ before m r ])
            (newest_first db.messages))
        own
      ∙ (sym (
            keep_if-keep_if passes (λ m. before m l) (passes_after l) (newest_first db.messages)
              (narrower l p))
          ∙ ap (keep_if (λ m. before m l)) e
          ∙ after_last xs l zs sorted)

  pub page_continues :
      (j : Json) (limit : ℕ) (msgs : List Message) (next : Option ℕ)
      → page j room_id cursor (suc limit) db ≡ ok (msgs, next)
      → (row_ids (listing room_id cursor db) ≡ message_ids msgs ++ row_ids (rest room_id next db))
        × (length msgs ≤ suc limit)
  unfolding cut
  page_continues j limit msgs next h =
      elim (Option-cases (scan_rows j db (take (suc (suc limit)) (listing room_id cursor db)))) [
        | inl e ↦ absurd (ground (arith, e))
        | inr (found, e) ↦
            let ids = scan_rows_ids j db _ found e in
            let many = length-message_ids found _ ids in
            elim (Bool-cases (ltb (suc limit) (length found))) [
              | inl more ↦
                  let (xs, l, zs, d, t) =
                    split_at limit (listing room_id cursor db) (ground (arith, more, many)) in
                  let shown : message_ids (take (suc limit) found) ≡ row_ids (xs ++ l ∷ []) =
                    take_ids (suc limit) found _ ids ∙ ap row_ids t in
                  let at' = last_id_at _ xs l shown in
                  let m : msgs ≡ take (suc limit) found = ground (arith, e, more, h) in
                  let n : next ≡ some l.id = ground (arith, e, more, h, at') in
                  (
                    rw (m, n, shown, listing_after xs l zs d, d) (row_ids_cut xs l zs),
                    rw m (length-take (suc limit) found),
                  )
              | inr all' ↦
                  let m : msgs ≡ found = ground (arith, e, all', h) in
                  let n : next ≡ none = ground (arith, e, all', h) in
                  (
                    rw
                        (
                          m,
                          n,
                          ids ∙ ap row_ids (take_all (suc limit) _ (ground (arith, all', many))),
                        )
                        (nothing_more _),
                    rw m (ground (arith, all')),
                  )
            ]
      ]

page_of :
    (j : Json) (room_id : ℕ) (cursor : Option ℕ) (limit : ℕ) (w : World Db MessageEvent)
    (a : List Message × Option ℕ)
    → (get_messages_by_room_id j room_id cursor limit w).0 ≡ ok a
    → page j room_id cursor limit w.db ≡ ok a
unfolding get_messages_by_room_id check_cursor running
page_of j room_id none limit w a h = ground arith
page_of j room_id (some c) limit w a h = ground arith

answer_of :
    (j : Json) (room_id requester_id : ℕ) (cursor : Option ℕ) (limit : ℕ)
    (w : World Db MessageEvent) (a : List Message × Option ℕ)
    → (Service.get_messages j room_id requester_id cursor limit w).0 ≡ ok a
    → (contains (w.db.members room_id) requester_id ≡ true)
      × (page j room_id cursor limit w.db ≡ ok a)
unfolding Service.is_member get_messages_by_room_id check_cursor running
answer_of j room_id requester_id none limit w a = rw get_messages_lem (λ h. ground arith)
answer_of j room_id requester_id (some c) limit w a = rw get_messages_lem (λ h. ground arith)

-- If GetMessages returns a page, the caller is a member of the room, the page has at most `limit`
-- messages, and with those that the next cursor leads to it is all that the page's own cursor leads
-- to, the newest first: no message of the room is lost or repeated between two pages. Without a
-- next cursor the page is the rest. The limit is positive and the ids are distinct.
pub get_messages_continues :
    (j : Json) (room_id requester_id : ℕ) (cursor : Option ℕ) (limit : ℕ)
    (w : World Db MessageEvent) (msgs : List Message) (next : Option ℕ)
    → HasKeys w.db.messages
    → (Service.get_messages j room_id requester_id cursor (suc limit) w).0 ≡ ok (msgs, next)
    → (contains (w.db.members room_id) requester_id ≡ true)
      × (row_ids (listing room_id cursor w.db)
          ≡ message_ids msgs ++ row_ids (rest room_id next w.db))
      × (length msgs ≤ suc limit)
get_messages_continues j room_id requester_id cursor limit w msgs next keys h =
    let (joined, p) = answer_of j room_id requester_id cursor (suc limit) w (msgs, next) h in
    let (whole, short) = page_continues room_id cursor w.db keys j limit msgs next p in
    (joined, whole, short)
