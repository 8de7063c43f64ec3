-- ===== src/Rooms/Views.antt =====
-- What a member sees of a room: its summary with the unread count and the last message, its members;
-- and the checks with which the operations begin.
use Prim.Native.String.{count}
use mathlib.Core.Option
use sync_server.Prelude.{
  ℕ, String, Bool, true, not, ◌&&◌, Option, none, some, List, [], ◌∷◌, ltb, leb, ◌==◌, find?,
  filter, filter_map, length, if◌then◌else◌, str_eq,
}
use sync_server.Prelude.Sets.{contains, sorted_ids}
use sync_server.Prelude.Order.{sort_by}
use sync_server.Prelude.Text.{trim}
use sync_server.Paging.{newest}
use sync_server.Errors.{AppError, Result, ok, err, panic}
use sync_server.Store.{Database, Action, User, row_of}
use sync_server.Rooms.Types.{
  Room, RoomMember, RoomMessage, RoomMemberProfile, RoomSummary, RoomDetail,
}
use sync_server.Moderation.Text.{ensure_text_is_allowed, cut}
use sync_server.Moderation.Blocks.{list_blocked_user_ids_conn, is_kept}

unfoldable pub normalize_room_name : String → Result String
normalize_room_name raw =
    let normalized = trim raw in
    if str_eq normalized ""
    then err (AppError.bad_request "Room name cannot be empty")
    else if ltb 80 (count normalized)
    then err (AppError.bad_request "Room name must be <= 80 characters")
    else elim (ensure_text_is_allowed "room name" normalized) [
      | ok _ ↦ ok normalized
      | err e ↦ err e
      | panic ↦ panic
    ]

unfoldable pub normalize_member_ids : ℕ → List ℕ → List ℕ
normalize_member_ids creator_id member_ids = sorted_ids (creator_id ∷ member_ids)

unfoldable pub ensure_users_exist_conn : List ℕ → Action (Unit {0})
ensure_users_exist_conn member_ids db =
    if length (filter (λ user. contains user.id member_ids) db.users) == length member_ids
    then (ok tt, db)
    else (err (AppError.bad_request "One or more room members do not exist"), db)

-- WHERE room_id = … AND user_id = …
abbrev pub is_membership : ℕ → ℕ → RoomMember → Bool
is_membership room_id user_id row = row.room_id == room_id && row.user_id == user_id

unfoldable pub room_of : ℕ → Database → Option Room
room_of room_id db = row_of Room.id room_id db.rooms

unfoldable pub membership_of : ℕ → ℕ → Database → Option RoomMember
membership_of room_id user_id db = find? (is_membership room_id user_id) db.room_members

unfoldable pub ensure_room_member_conn : ℕ → ℕ → Action Room
ensure_room_member_conn room_id viewer_id db = elim (room_of room_id db) [
  | none ↦ (err AppError.not_found, db)
  | some room ↦ elim (membership_of room_id viewer_id db) [
    | none ↦ (err AppError.forbidden, db)
    | some _ ↦ (ok room, db)
  ]
]

unfoldable pub room_access_error : ℕ → Database → AppError
room_access_error room_id db = elim (room_of room_id db) [
  | none ↦ AppError.not_found
  | some _ ↦ AppError.forbidden
]

-- The messages of a room that a viewer can see: not deleted, and not by somebody that he blocked.
unfoldable pub is_visible : ℕ → List ℕ → RoomMessage → Bool
is_visible room_id blocked m =
    m.room_id == room_id && is_kept m.deleted_at && not (contains m.sender_id blocked)

unfoldable pub visible_messages : ℕ → ℕ → Database → List RoomMessage
visible_messages room_id viewer_id db =
    filter (is_visible room_id (list_blocked_user_ids_conn viewer_id db)) db.room_messages

-- `created_at.gt(last_read_at)`, where there is a `last_read_at`.
abbrev pub is_after : Option ℕ → ℕ → Bool
is_after none created_at = true
is_after (some last_read_at) created_at = ltb last_read_at created_at

unfoldable pub room_unread_count_conn : ℕ → ℕ → Option ℕ → Database → ℕ
room_unread_count_conn room_id viewer_id last_read_at db = length (
    filter (λ m. not (m.sender_id == viewer_id) && is_after last_read_at m.created_at)
      (visible_messages room_id viewer_id db))

unfoldable pub truncate_preview : String → String
truncate_preview content = cut 120 (trim content)

abbrev pub head? : List RoomMessage → Option RoomMessage
head? [] = none
head? (m ∷ ms) = some m

unfoldable pub member_count : ℕ → Database → ℕ
member_count room_id db = length (filter (λ row. row.room_id == room_id) db.room_members)

unfoldable pub room_summary_conn : Room → RoomMember → ℕ → Database → RoomSummary
room_summary_conn room membership viewer_id db =
    let latest =
      head?
        (newest RoomMessage.created_at RoomMessage.id (visible_messages room.id viewer_id db)) in
    record {
      id = room.id;
      name = room.name;
      created_by = room.created_by;
      created_at = room.created_at;
      updated_at = room.updated_at;
      member_count = member_count room.id db;
      unread_count = room_unread_count_conn room.id viewer_id membership.last_read_at db;
      last_message_preview = Option.map (λ (m : RoomMessage). truncate_preview m.content) latest;
      last_message_at = Option.map RoomMessage.created_at latest;
    }

unfoldable pub profile_of : Database → RoomMember → Option RoomMemberProfile
profile_of db membership =
    Option.map
      (λ user. record {
        user_id = membership.user_id;
        username = user.username;
        avatar_base64 = user.avatar_base64;
        role = membership.role;
        joined_at = membership.joined_at;
      })
      (row_of User.id membership.user_id db.users)

unfoldable pub room_member_profiles_conn : ℕ → Database → List RoomMemberProfile
room_member_profiles_conn room_id db = filter_map (profile_of db) (
    sort_by (λ a b. leb a.joined_at b.joined_at)
      (filter (λ row. row.room_id == room_id) db.room_members))

unfoldable pub detail : RoomSummary → List RoomMemberProfile → RoomDetail
detail summary members = record {
  id = summary.id;
  name = summary.name;
  created_by = summary.created_by;
  created_at = summary.created_at;
  updated_at = summary.updated_at;
  member_count = summary.member_count;
  unread_count = summary.unread_count;
  last_message_preview = summary.last_message_preview;
  last_message_at = summary.last_message_at;
  members = members;
}

unfoldable pub detail_of : Room → RoomMember → ℕ → Database → RoomDetail
detail_of room membership viewer_id db =
    detail (room_summary_conn room membership viewer_id db) (room_member_profiles_conn room.id db)

-- `first` answers a missing membership by an error of the database.
unfoldable pub room_detail_conn : Room → ℕ → Action RoomDetail
room_detail_conn room viewer_id db = elim (membership_of room.id viewer_id db) [
  | none ↦ (err AppError.database, db)
  | some membership ↦ (ok (detail_of room membership viewer_id db), db)
]
