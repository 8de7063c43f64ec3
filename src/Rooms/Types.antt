-- ===== src/Rooms/Types.antt =====
-- src/models/room.rs and the views of services/room_service.rs. A `Uuid` is a native number, in the
-- order of its bytes; a `DateTime<Utc>` counts microseconds since 1970; an `i64` that counts rows is
-- a native number.
use sync_server.Prelude.{ℕ, String, Option, List}

pub record Room : Type 0 where
  pub id : ℕ
  pub name : String
  pub created_by : ℕ
  pub created_at : ℕ
  pub updated_at : ℕ

pub record RoomMember : Type 0 where
  pub room_id : ℕ
  pub user_id : ℕ
  pub role : String
  pub joined_at : ℕ
  pub last_read_at : Option ℕ

pub record RoomMessage : Type 0 where
  pub id : ℕ
  pub room_id : ℕ
  pub sender_id : ℕ
  pub content : String
  pub deleted_at : Option ℕ
  pub created_at : ℕ

pub record RoomMemberProfile : Type 0 where
  pub user_id : ℕ
  pub username : String
  pub avatar_base64 : Option String
  pub role : String
  pub joined_at : ℕ

pub record RoomSummary : Type 0 where
  pub id : ℕ
  pub name : String
  pub created_by : ℕ
  pub created_at : ℕ
  pub updated_at : ℕ
  pub member_count : ℕ
  pub unread_count : ℕ
  pub last_message_preview : Option String
  pub last_message_at : Option ℕ

pub record RoomDetail : Type 0 where
  pub id : ℕ
  pub name : String
  pub created_by : ℕ
  pub created_at : ℕ
  pub updated_at : ℕ
  pub member_count : ℕ
  pub unread_count : ℕ
  pub last_message_preview : Option String
  pub last_message_at : Option ℕ
  pub members : List RoomMemberProfile
