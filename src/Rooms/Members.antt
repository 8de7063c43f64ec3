-- ===== src/Rooms/Members.antt =====
-- The operations on rooms and their members.
use sync_server.Prelude.{
  ℕ, String, Bool, true, false, not, ◌&&◌, Option, none, some, List, [], ◌∷◌, ◌++◌, ◌==◌, map,
  filter, length, if◌then◌else◌, str_eq,
}
use sync_server.Prelude.Sets.{sorted_ids, all, distinct}
use sync_server.Errors.{AppError, ok, err}
use sync_server.Store.{
  Database, Context, Action, pure, fail, lift, gets, modify, ◌>>=◌, ◌>>◌, transaction, row_or_error,
  row_of, update_row, delete_where, has_user,
}
use sync_server.Rooms.Types.{Room, RoomMember, RoomDetail}
use sync_server.Rooms.Views.{
  normalize_room_name, normalize_member_ids, ensure_users_exist_conn, is_membership, room_of,
  membership_of, ensure_room_member_conn, room_access_error, room_detail_conn,
}

abbrev pub is_none : {A : Type 0} → Option A → Bool
is_none none = true
is_none (some a) = false

-- An inserted room has a new identifier, and its creator is a user.
unfoldable pub insert_room : Context → String → ℕ → Action Room
insert_room ctx name creator_id db =
    let room : Room = record {
      id = ctx.new_id;
      name = name;
      created_by = creator_id;
      created_at = ctx.db_now;
      updated_at = ctx.db_now;
    } in
    if is_none (room_of ctx.new_id db) && has_user creator_id db
    then (ok room, record db { rooms = room ∷ db.rooms })
    else (err AppError.database, db)

unfoldable pub new_member : Context → ℕ → String → ℕ → RoomMember
new_member ctx room_id role user_id = record {
  room_id = room_id;
  user_id = user_id;
  role = role;
  joined_at = ctx.db_now;
  last_read_at = some ctx.now;
}

-- Each membership is new, and of a room and a user that are there.
unfoldable pub may_join : ℕ → Database → ℕ → Bool
may_join room_id db user_id =
    not (is_none (room_of room_id db))
    && has_user user_id db
    && is_none (membership_of room_id user_id db)

unfoldable pub insert_members : Context → ℕ → (ℕ → String) → List ℕ → Action (Unit {0})
insert_members ctx room_id role ids db =
    if all (may_join room_id db) ids && distinct ids
    then (
      ok tt,
      record db {
        room_members = map (λ id. new_member ctx room_id (role id) id) ids ++ db.room_members;
      },
    )
    else (err AppError.database, db)

abbrev pub founder_role : ℕ → ℕ → String
founder_role creator_id id = if id == creator_id then "owner" else "member"

unfoldable pub create_room : Context → ℕ → String → List ℕ → Action RoomDetail
create_room ctx creator_id name member_ids = transaction (do
  room_name ← lift (normalize_room_name name)
  ensure_users_exist_conn (normalize_member_ids creator_id member_ids)
  room ← insert_room ctx room_name creator_id
  insert_members ctx room.id (founder_role creator_id) (normalize_member_ids creator_id member_ids)
  room_detail_conn room creator_id)

-- `updated_at` of a room
unfoldable pub touch_room : Context → ℕ → Action (Unit {0})
touch_room ctx room_id = modify (λ db. record db {
  rooms = update_row Room.id room_id (λ room. record room { updated_at = ctx.now }) db.rooms;
})

-- The owner of a room is the user who created it.
unfoldable pub ensure_owner : ℕ → ℕ → Action Room
ensure_owner room_id owner_id = do
  room ← ensure_room_member_conn room_id owner_id
  (if not (room.created_by == owner_id) then fail AppError.forbidden else pure room)

unfoldable pub set_name : Context → Room → String → Action Room
set_name ctx room name db =
    if str_eq room.name name
    then (ok room, db)
    else (do
      modify (λ db. record db {
        rooms =
            update_row Room.id room.id (λ room. record room { name = name; updated_at = ctx.now })
              db.rooms;
      })
      updated ← gets (λ db. row_of Room.id room.id db.rooms)
      row_or_error updated)
        db

unfoldable pub rename_room : Context → ℕ → ℕ → String → Action RoomDetail
rename_room ctx room_id owner_id name = transaction (do
  room ← ensure_owner room_id owner_id
  room_name ← lift (normalize_room_name name)
  updated ← set_name ctx room room_name
  room_detail_conn updated owner_id)

-- The users among `ids` who are not members yet.
unfoldable pub new_member_ids : ℕ → List ℕ → Database → List ℕ
new_member_ids room_id ids db = filter (λ id. is_none (membership_of room_id id db)) ids

unfoldable pub insert_new : Context → ℕ → List ℕ → Action (Unit {0})
insert_new ctx room_id [] = pure tt
insert_new ctx room_id (id ∷ ids) =
    insert_members ctx room_id (λ _. "member") (id ∷ ids) >> touch_room ctx room_id

unfoldable pub requested_member_ids : ℕ → List ℕ → List ℕ
requested_member_ids owner_id ids = sorted_ids (filter (λ id. not (id == owner_id)) ids)

-- With no one requested nothing is written.
unfoldable pub add_requested : Context → ℕ → List ℕ → Action (Unit {0})
add_requested ctx room_id [] = pure tt
add_requested ctx room_id (id ∷ ids) = do
  ensure_users_exist_conn (id ∷ ids)
  fresh ← gets (new_member_ids room_id (id ∷ ids))
  insert_new ctx room_id fresh

-- The detail shows the room as it was read, before `updated_at` was written.
unfoldable pub add_room_members : Context → ℕ → ℕ → List ℕ → Action RoomDetail
add_room_members ctx room_id owner_id member_ids = transaction (do
  room ← ensure_owner room_id owner_id
  add_requested ctx room_id (requested_member_ids owner_id member_ids)
  room_detail_conn room owner_id)

unfoldable pub delete_membership : ℕ → ℕ → Action (Unit {0})
delete_membership room_id user_id = modify (λ db. record db {
  room_members = delete_where (is_membership room_id user_id) db.room_members;
})

unfoldable pub remove_existing : Context → ℕ → ℕ → Action (Unit {0})
remove_existing ctx room_id member_id db = elim (membership_of room_id member_id db) [
  | none ↦ (err AppError.not_found, db)
  | some _ ↦ (delete_membership room_id member_id >> touch_room ctx room_id) db
]

unfoldable pub remove_room_member : Context → ℕ → ℕ → ℕ → Action RoomDetail
remove_room_member ctx room_id owner_id member_id = transaction (do
  room ← ensure_owner room_id owner_id
  (if member_id == room.created_by
      then fail (AppError.bad_request "Room owner cannot be removed")
      else remove_existing ctx room_id member_id)
  room_detail_conn room owner_id)

-- Deleting a room deletes, by the foreign keys, what is left of its members and messages.
unfoldable pub delete_room_row : ℕ → Action (Unit {0})
delete_room_row room_id = modify (λ db. record db {
  rooms = delete_where (λ room. room.id == room_id) db.rooms;
  room_members = delete_where (λ row. row.room_id == room_id) db.room_members;
  room_messages = delete_where (λ m. m.room_id == room_id) db.room_messages;
})

unfoldable pub delete_members : ℕ → Action (Unit {0})
delete_members room_id = modify (λ db. record db {
  room_members = delete_where (λ row. row.room_id == room_id) db.room_members;
})

unfoldable pub delete_messages : ℕ → Action (Unit {0})
delete_messages room_id =
    modify (λ db. record db {
      room_messages = delete_where (λ m. m.room_id == room_id) db.room_messages;
    })

-- A room without members is deleted.
unfoldable pub delete_if_empty : ℕ → Action (Unit {0})
delete_if_empty room_id db =
    if length (filter (λ row. row.room_id == room_id) db.room_members) == 0
    then (delete_messages room_id >> delete_room_row room_id) db
    else (ok tt, db)

unfoldable pub leave_room : ℕ → ℕ → Action (Unit {0})
leave_room room_id user_id = transaction (λ db. elim (membership_of room_id user_id db) [
  | none ↦ (err (room_access_error room_id db), db)
  | some _ ↦ (delete_membership room_id user_id >> delete_if_empty room_id) db
])

unfoldable pub delete_room : ℕ → ℕ → Action (Unit {0})
delete_room room_id user_id = transaction (λ db. elim (room_of room_id db) [
  | none ↦ (err AppError.not_found, db)
  | some room ↦
      if not (room.created_by == user_id)
      then (err AppError.forbidden, db)
      else (delete_members room_id >> (delete_messages room_id >> delete_room_row room_id)) db
])
