-- ===== src/Rooms/Change.antt =====
-- Tables in which one room was touched and the memberships were rewritten: what view they have, and
-- when they are consistent.
use sync_server.Prelude.{
  ℕ, ◌≡◌, refl, sym, ap, subst, ◌∙◌, true, false, List, [], ◌∷◌, arith, ◌==◌, map, is_empty, All,
  if◌then◌else◌,
}
use sync_server.Prelude.Sets.{contains, IsNodup}
use sync_server.Store.{Database, update_row, has_user_of_users}
use sync_server.Rooms.Types.{Room, RoomMember, RoomMessage}
use sync_server.Rooms.Views.{room_of}
use sync_server.Rooms.Rows.{member_ids, members_of, room_ids-update, owner-update}
use sync_server.Rooms.Group.{Group, group, has, has-group}
use sync_server.Rooms.Spec.{view, change}
use sync_server.Rooms.Consistent.{IsConsistent, has_room}
use sync_server.Rooms.Agree.{view_ext}

messages_still :
    (rooms rooms' : List Room) (messages : List RoomMessage)
    → map Room.id rooms' ≡ map Room.id rooms
    → All (λ m. has_room m.room_id rooms ≡ true) messages
    → All (λ m. has_room m.room_id rooms' ≡ true) messages
messages_still rooms rooms' [] same h = tt
messages_still rooms rooms' (m ∷ ms) same h =
    (ap (contains m.room_id) same ∙ h.0, messages_still rooms rooms' ms same h.1)

module _ (f : Room → Room) (same_id : (room : Room) → (f room).id ≡ room.id)
    (same_owner : (room : Room) → (f room).created_by ≡ room.created_by) (r : ℕ)
    (rows : List RoomMember) (db : Database) where
  abbrev pub changed : Database
  changed = record db { rooms = update_row Room.id r f db.rooms; room_members = rows }

  same_rooms : map Room.id changed.rooms ≡ map Room.id db.rooms
  same_rooms = room_ids-update f same_id same_owner r db.rooms

  -- The room `r` has other members now, and the other rooms have theirs.
  pub view-changed :
      (g : Group → Group)
      → ((q a : ℕ)
          → contains a (member_ids q rows) ≡ (
              if q == r then has a (g (group (members_of q db))) else contains a (members_of q db)))
      → view changed ≡ change r g (view db)
  unfolding view room_of members_of
  view-changed g members =
      view_ext _ _ (λ q. owner-update f same_id same_owner r q db.rooms)
        (λ q a.
          has-group a (member_ids q rows)
          ∙ members q a
          ∙ ground (arith, has-group a (members_of q db)))
        (λ u. has_user_of_users u db changed refl)

  -- No room has other members.
  pub view-changed_same :
      ((q a : ℕ) → contains a (member_ids q rows) ≡ contains a (members_of q db))
      → view changed ≡ view db
  unfolding view room_of members_of
  view-changed_same members =
      view_ext _ _ (λ q. owner-update f same_id same_owner r q db.rooms)
        (λ q a. has-group a (member_ids q rows) ∙ members q a ∙ sym (has-group a (members_of q db)))
        (λ u. has_user_of_users u db changed refl)

  pub changed-IsConsistent :
      IsConsistent db
      → ((q : ℕ) → IsNodup (member_ids q rows))
      → ((q : ℕ) → has_room q db.rooms ≡ false → member_ids q rows ≡ [])
      → ((q : ℕ) → has_room q db.rooms ≡ true → is_empty (member_ids q rows) ≡ false)
      → IsConsistent changed
  unfolding members_of
  changed-IsConsistent c once housed inhabited = record {
    users_once = c.users_once;
    rooms_once = subst IsNodup (sym same_rooms) c.rooms_once;
    members_once = once;
    messages_once = c.messages_once;
    members_housed = λ q missing. housed q (sym (ap (contains q) same_rooms) ∙ missing);
    messages_housed =
        messages_still db.rooms changed.rooms db.room_messages same_rooms c.messages_housed;
    inhabited = λ q there. inhabited q (sym (ap (contains q) same_rooms) ∙ there);
  }
