-- ===== src/Rooms/Talk.antt =====
-- Reading and writing in a room: the list of a user's rooms, the messages by pages, the unread mark.
use mathlib.Core.Option
use sync_server.Prelude.{
  ℕ, String, not, ◌&&◌, Option, none, some, List, ◌∷◌, leb, ◌==◌, map, filter, filter_map, min,
  if◌then◌else◌, str_eq,
}
use sync_server.Prelude.Order.{sort_by}
use sync_server.Prelude.Text.{trim}
use sync_server.Paging.{is_before, page}
use sync_server.Errors.{AppError, Result, ok, err}
use sync_server.Store.{
  Database, Context, Action, pure, lift, gets, modify, ◌>>=◌, ◌>>◌, transaction, row_of,
  update_where, has_user,
}
use sync_server.Rooms.Types.{RoomMember, RoomMessage, RoomSummary, RoomDetail}
use sync_server.Moderation.Text.{ensure_text_is_allowed}
use sync_server.Rooms.Views.{
  is_membership, room_of, membership_of, ensure_room_member_conn, room_access_error,
  visible_messages, room_unread_count_conn, room_summary_conn, room_detail_conn,
}
use sync_server.Rooms.Members.{is_none, touch_room}

unfoldable pub summary_of : ℕ → Database → RoomMember → Option RoomSummary
summary_of viewer_id db membership =
    Option.map (λ room. room_summary_conn room membership viewer_id db)
      (room_of membership.room_id db)

-- `last_message_at.unwrap_or(updated_at)`
abbrev pub last_activity : RoomSummary → ℕ
last_activity summary = elim summary.last_message_at [ none ↦ summary.updated_at | some t ↦ t ]

unfoldable pub list_rooms : ℕ → Database → List RoomSummary
list_rooms viewer_id db =
    let memberships =
      sort_by (λ a b. leb b.joined_at a.joined_at)
        (filter (λ row. row.user_id == viewer_id) db.room_members) in
    sort_by (λ a b. leb (last_activity b) (last_activity a))
      (filter_map (summary_of viewer_id db) memberships)

unfoldable pub get_room : ℕ → ℕ → Action RoomDetail
get_room room_id viewer_id = do
  room ← ensure_room_member_conn room_id viewer_id
  room_detail_conn room viewer_id

-- The rows before a cursor, which is a message of the same room.
unfoldable pub before_cursor :
    ℕ → Option ℕ → List RoomMessage → Database → Result (List RoomMessage)
before_cursor room_id none rows db = ok rows
before_cursor room_id (some cursor_id) rows db =
    elim (row_of RoomMessage.id cursor_id db.room_messages) [
      | none ↦ err AppError.not_found
      | some cursor ↦
          if not (cursor.room_id == room_id)
          then err AppError.not_found
          else ok (filter (is_before RoomMessage.created_at RoomMessage.id cursor) rows)
    ]

abbrev pub message_page : ℕ → List RoomMessage → List RoomMessage
message_page limit rows = page RoomMessage.created_at RoomMessage.id (min limit 100) rows

unfoldable pub get_room_messages : ℕ → ℕ → Option ℕ → ℕ → Action (List RoomMessage)
get_room_messages room_id viewer_id before_id limit = do
  room ← ensure_room_member_conn room_id viewer_id
  visible ← gets (visible_messages room_id viewer_id)
  rows ← (λ db. (before_cursor room_id before_id visible db, db))
  pure (message_page limit rows)

-- An inserted message has a new identifier, a room and a sender.
unfoldable pub insert_room_message : Context → ℕ → ℕ → String → Action RoomMessage
insert_room_message ctx room_id sender_id content db =
    let message : RoomMessage = record {
      id = ctx.new_id;
      room_id = room_id;
      sender_id = sender_id;
      content = content;
      deleted_at = none;
      created_at = ctx.db_now;
    } in
    if is_none (row_of RoomMessage.id ctx.new_id db.room_messages)
      && not (is_none (room_of room_id db))
      && has_user sender_id db
    then (ok message, record db { room_messages = message ∷ db.room_messages })
    else (err AppError.database, db)

unfoldable pub set_last_read : ℕ → ℕ → ℕ → Action (Unit {0})
set_last_read room_id user_id now = modify (λ db. record db {
  room_members =
      update_where (is_membership room_id user_id) (λ row. record row { last_read_at = some now })
        db.room_members;
})

unfoldable pub check_content : String → Result (Unit {0})
check_content trimmed =
    if str_eq trimmed ""
    then err (AppError.bad_request "Message content cannot be empty")
    else ensure_text_is_allowed "room message" trimmed

unfoldable pub send_room_message : Context → ℕ → ℕ → String → Action RoomMessage
send_room_message ctx room_id sender_id body = transaction (do
  room ← ensure_room_member_conn room_id sender_id
  lift (check_content (trim body))
  message ← insert_room_message ctx room_id sender_id (trim body)
  touch_room ctx room_id
  set_last_read room_id sender_id ctx.now
  pure message)

unfoldable pub mark_room_read : Context → ℕ → ℕ → Action ℕ
mark_room_read ctx room_id viewer_id = transaction (λ db.
    elim (membership_of room_id viewer_id db) [
      | none ↦ (err (room_access_error room_id db), db)
      | some membership ↦
          (do
            unread ← gets (room_unread_count_conn room_id viewer_id membership.last_read_at)
            set_last_read room_id viewer_id ctx.now
            pure unread)
            db
    ])

unfoldable pub list_room_member_ids : ℕ → ℕ → Action (List ℕ)
list_room_member_ids room_id viewer_id = do
  room ← ensure_room_member_conn room_id viewer_id
  gets (λ db. map RoomMember.user_id (filter (λ row. row.room_id == room_id) db.room_members))
