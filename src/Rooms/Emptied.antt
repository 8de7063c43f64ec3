-- ===== src/Rooms/Emptied.antt =====
-- A room that is deleted with what is left of it, against the specification.
use mathlib.Core.Option
use sync_server.Prelude.{
  ℕ, ◌≡◌, refl, sym, ap, subst, ◌∙◌, inl, inr, Bool, true, false, not, ◌&&◌, Option, none, List, [],
  ◌∷◌, arith, ◌==◌, map, is_empty, filter, length, All, if◌then◌else◌, Bool-cases,
}
use sync_server.Prelude.Sets.{contains, IsNodup, contains-filter, filter-IsNodup}
use sync_server.Store.{Database, delete_where, has_user_of_users}
use sync_server.Rooms.Types.{Room, RoomMember, RoomMessage}
use sync_server.Rooms.Views.{room_of}
use sync_server.Rooms.Rows.{
  member_ids, members_of, member_ids-delete_room, row_of-delete, room_ids-delete,
}
use sync_server.Rooms.Group.{group, has-group}
use sync_server.Rooms.Spec.{view, change, set_owner}
use sync_server.Rooms.Consistent.{IsConsistent, has_room}
use sync_server.Rooms.Agree.{view_ext}

-- Messages of other rooms are kept, once each.
unfoldable pub kept_messages : ℕ → List RoomMessage → List RoomMessage
kept_messages r messages = delete_where (λ m. m.room_id == r) messages

still_housed :
    (r : ℕ) (rooms : List Room) (messages : List RoomMessage)
    → All (λ m. has_room m.room_id rooms ≡ true) messages
    → All
        (λ m. has_room m.room_id (delete_where (λ room. room.id == r) rooms) ≡ true)
        (kept_messages r messages)
unfolding kept_messages delete_where
still_housed r rooms [] h = tt
still_housed r rooms (m ∷ ms) h = elim (Bool-cases (m.room_id == r)) [
  | inl gone ↦ rw gone (still_housed r rooms ms h.1)
  | inr kept ↦ rw kept (
    ap (contains m.room_id) (room_ids-delete r rooms)
        ∙ ground (arith, h.0, contains-filter m.room_id (λ i. not (i == r)) (map Room.id rooms)),
    still_housed r rooms ms h.1,
  )
]

contains-kept :
    (z r : ℕ) (messages : List RoomMessage)
    → contains z (map RoomMessage.id messages) ≡ false
    → contains z (map RoomMessage.id (kept_messages r messages)) ≡ false
unfolding kept_messages delete_where
contains-kept z r [] h = refl
contains-kept z r (m ∷ ms) h = ground (arith, contains-kept z r ms)

kept_once :
    (r : ℕ) (messages : List RoomMessage)
    → IsNodup (map RoomMessage.id messages)
    → IsNodup (map RoomMessage.id (kept_messages r messages))
unfolding kept_messages delete_where
kept_once r [] u = tt
kept_once r (m ∷ ms) u = ground (arith, contains-kept m.id r ms u.0, kept_once r ms u.1)

module _ (r : ℕ) (rows : List RoomMember) (db : Database) where
  -- The tables without the room `r`, its members among `rows`, and its messages.
  abbrev pub closed : Database
  closed = record db {
    rooms = delete_where (λ room. room.id == r) db.rooms;
    room_members = delete_where (λ row. row.room_id == r) rows;
    room_messages = kept_messages r db.room_messages;
  }

  -- Where `rows` are the memberships but for those of the room.
  module _ (same : (q : ℕ) → (q == r) ≡ false → member_ids q rows ≡ members_of q db) where
    members-closed : (q : ℕ) → members_of q closed ≡ (if q == r then [] else members_of q db)
    unfolding members_of
    members-closed q = member_ids-delete_room r q rows ∙ ground (arith, same q)

    owners-closed :
        (q : ℕ)
        → Option.map Room.created_by (room_of q closed)
          ≡ (if q == r then none else Option.map Room.created_by (room_of q db))
    unfolding room_of
    owners-closed q =
        ap (λ (o : Option Room). Option.map Room.created_by o) (row_of-delete r q db.rooms)
        ∙ ground arith

    pub view-closed : view closed ≡ set_owner r none (change r (λ _. group []) (view db))
    unfolding view
    view-closed =
        view_ext _ _ owners-closed
          (λ q a. ground (
            arith,
            members-closed q,
            has-group a (members_of q closed),
            has-group a [],
            has-group a (members_of q db),
          ))
          (λ a. has_user_of_users a db closed refl)

    pub closed-IsConsistent : IsConsistent db → IsConsistent closed
    closed-IsConsistent c = record {
      users_once = c.users_once;
      rooms_once =
          subst IsNodup (sym (room_ids-delete r db.rooms))
            (filter-IsNodup (λ i. not (i == r)) (map Room.id db.rooms) c.rooms_once);
      members_once = λ q. subst IsNodup (sym (members-closed q)) (once c q);
      messages_once = kept_once r db.room_messages c.messages_once;
      members_housed = λ q missing. members-closed q ∙ housed c q (sym (there q) ∙ missing);
      messages_housed = still_housed r db.rooms db.room_messages c.messages_housed;
      inhabited =
          λ q is_there. ap is_empty (members-closed q) ∙ inhabited c q (sym (there q) ∙ is_there);
    }
      where
        there : (q : ℕ) → has_room q closed.rooms ≡ not (q == r) && has_room q db.rooms
        there q =
            ap (contains q) (room_ids-delete r db.rooms)
            ∙ contains-filter q (λ i. not (i == r)) (map Room.id db.rooms)

        once : IsConsistent db → (q : ℕ) → IsNodup (if q == r then [] else members_of q db)
        once c q = elim (Bool-cases (q == r)) [
          | inl here ↦ rw here tt
          | inr elsewhere ↦ rw elsewhere (c.members_once q)
        ]

        housed :
            IsConsistent db
            → (q : ℕ) → not (q == r) && has_room q db.rooms ≡ false
            → (if q == r then [] else members_of q db) ≡ []
        housed c q missing = ground (arith, c.members_housed q)

        inhabited :
            IsConsistent db
            → (q : ℕ) → not (q == r) && has_room q db.rooms ≡ true
            → is_empty (if q == r then [] else members_of q db) ≡ false
        inhabited c q is_there = ground (arith, c.inhabited q)

pub delete_where_twice {ℓ} :
    {A : Type ℓ} (p : A → Bool) (xs : List A)
    → delete_where p (delete_where p xs) ≡ delete_where p xs
unfolding delete_where
delete_where_twice p [] = refl
delete_where_twice p (x ∷ xs) = ground (arith, delete_where_twice p xs)

pub no_rows :
    (r : ℕ) (rows : List RoomMember)
    → (length (filter (λ row. row.room_id == r) rows) == 0) ≡ is_empty (member_ids r rows)
unfolding member_ids
no_rows r [] = refl
no_rows r (row ∷ rows) = ground (arith, no_rows r rows)
