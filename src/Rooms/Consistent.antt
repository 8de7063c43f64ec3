-- ===== src/Rooms/Consistent.antt =====
-- What holds of the rooms' tables between two calls.
use sync_server.Prelude.{ℕ, ◌≡◌, Bool, true, false, List, [], map, is_empty, All}
use sync_server.Prelude.Sets.{contains, IsNodup}
use sync_server.Store.{Database, User}
use sync_server.Rooms.Types.{Room, RoomMessage}
use sync_server.Rooms.Rows.{members_of}

-- A room is there.
abbrev pub has_room : ℕ → List Room → Bool
has_room r rooms = contains r (map Room.id rooms)

-- The keys are unique, every membership and every message is of a room that is there, and no room is
-- without members.
pub record IsConsistent (db : Database) : Type 0 where
  pub users_once : IsNodup (map User.id db.users)
  pub rooms_once : IsNodup (map Room.id db.rooms)
  pub members_once : (r : ℕ) → IsNodup (members_of r db)
  pub messages_once : IsNodup (map RoomMessage.id db.room_messages)
  pub members_housed : (r : ℕ) → has_room r db.rooms ≡ false → members_of r db ≡ []
  pub messages_housed : All (λ m. has_room m.room_id db.rooms ≡ true) db.room_messages
  pub inhabited : (r : ℕ) → has_room r db.rooms ≡ true → is_empty (members_of r db) ≡ false
