-- ===== src/Rooms/Rows.antt =====
-- The members of a room as a list of users, under the changes that the operations make to the rows.
use mathlib.Core.Option
use sync_server.Prelude.{
  ℕ, ◌≡◌, refl, String, Bool, true, false, not, ◌||◌, none, List, [], ◌∷◌, ◌++◌, arith, ◌==◌, map,
  find?, filter, if◌then◌else◌,
}
use sync_server.Prelude.Sets.{contains, IsNodup}
use sync_server.Store.{Database, Context, row_of, update_row, update_where, delete_where}
use sync_server.Rooms.Types.{Room, RoomMember}
use sync_server.Rooms.Views.{is_membership, membership_of}
use sync_server.Rooms.Members.{is_none, new_member}

-- The users of the rows of a room.
unfoldable pub member_ids : ℕ → List RoomMember → List ℕ
member_ids room_id rows = map RoomMember.user_id (filter (λ row. row.room_id == room_id) rows)

unfoldable pub members_of : ℕ → Database → List ℕ
unfolding member_ids
members_of room_id db = member_ids room_id db.room_members

find_membership :
    (r u : ℕ) (rows : List RoomMember)
    → contains u (member_ids r rows) ≡ not (is_none (find? (is_membership r u) rows))
unfolding member_ids
find_membership r u [] = refl
find_membership r u (row ∷ rows) = ground (arith, find_membership r u rows)

-- A user is in the list exactly if there is a membership.
pub contains-members_of :
    (r u : ℕ) (db : Database) → contains u (members_of r db) ≡ not (is_none (membership_of r u db))
unfolding members_of membership_of
contains-members_of r u db = find_membership r u db.room_members

pub member_ids-append :
    (r : ℕ) (xs ys : List RoomMember) → member_ids r (xs ++ ys) ≡ member_ids r xs ++ member_ids r ys
unfolding member_ids
member_ids-append r [] ys = refl
member_ids-append r (x ∷ xs) ys = ground (arith, member_ids-append r xs ys)

-- The rows that are inserted for a list of users.
pub member_ids-new :
    (ctx : Context) (room r : ℕ) (role : ℕ → String) (ids : List ℕ)
    → member_ids r (map (λ id. new_member ctx room (role id) id) ids)
      ≡ (if room == r then ids else [])
unfolding member_ids new_member
member_ids-new ctx room r role [] = ground arith
member_ids-new ctx room r role (id ∷ ids) = ground (arith, member_ids-new ctx room r role ids)

pub contains-append :
    (a : ℕ) (xs ys : List ℕ) → contains a (xs ++ ys) ≡ contains a xs || contains a ys
contains-append a [] ys = refl
contains-append a (x ∷ xs) ys = ground (arith, contains-append a xs ys)

pub member_ids-delete_membership :
    (r u q : ℕ) (rows : List RoomMember)
    → member_ids q (delete_where (is_membership r u) rows)
      ≡ (if q == r then filter (λ a. not (a == u)) (member_ids q rows) else member_ids q rows)
unfolding member_ids delete_where
member_ids-delete_membership r u q [] = ground arith
member_ids-delete_membership r u q (row ∷ rows) =
    ground (arith, member_ids-delete_membership r u q rows)

pub member_ids-delete_room :
    (r q : ℕ) (rows : List RoomMember)
    → member_ids q (delete_where (λ row. row.room_id == r) rows)
      ≡ (if q == r then [] else member_ids q rows)
unfolding member_ids delete_where
member_ids-delete_room r q [] = ground arith
member_ids-delete_room r q (row ∷ rows) = ground (arith, member_ids-delete_room r q rows)

pub member_ids-update :
    (p : RoomMember → Bool) (f : RoomMember → RoomMember) (q : ℕ) (rows : List RoomMember)
    → ((row : RoomMember) → (f row).room_id ≡ row.room_id)
    → ((row : RoomMember) → (f row).user_id ≡ row.user_id)
    → member_ids q (update_where p f rows) ≡ member_ids q rows
unfolding member_ids update_where
member_ids-update p f q [] same_room same_user = refl
member_ids-update p f q (row ∷ rows) same_room same_user =
    ground (arith, same_room row, same_user row, member_ids-update p f q rows same_room same_user)

-- Deleting a room by its identifier.
pub row_of-delete :
    (r q : ℕ) (rooms : List Room)
    → row_of Room.id q (delete_where (λ room. room.id == r) rooms)
      ≡ (if q == r then none else row_of Room.id q rooms)
unfolding delete_where
row_of-delete r q [] = ground arith
row_of-delete r q (room ∷ rooms) = ground (arith, row_of-delete r q rooms)

pub room_ids-delete :
    (r : ℕ) (rooms : List Room)
    → map Room.id (delete_where (λ room. room.id == r) rooms)
      ≡ filter (λ i. not (i == r)) (map Room.id rooms)
unfolding delete_where
room_ids-delete r [] = refl
room_ids-delete r (room ∷ rooms) = ground (arith, room_ids-delete r rooms)

-- An update of rooms that keeps their identifiers and their owners.
module _ (f : Room → Room) (same_id : (room : Room) → (f room).id ≡ room.id)
    (same_owner : (room : Room) → (f room).created_by ≡ room.created_by) (r : ℕ) where
  pub room_ids-update :
      (rooms : List Room) → map Room.id (update_row Room.id r f rooms) ≡ map Room.id rooms
  unfolding update_where
  room_ids-update [] = refl
  room_ids-update (room ∷ rooms) = ground (arith, same_id room, room_ids-update rooms)

  pub owner-update :
      (q : ℕ) (rooms : List Room)
      → Option.map Room.created_by (row_of Room.id q (update_row Room.id r f rooms))
        ≡ Option.map Room.created_by (row_of Room.id q rooms)
  unfolding update_where
  owner-update q [] = refl
  owner-update q (room ∷ rooms) =
      ground (arith, same_id room, same_owner room, owner-update q rooms)

pub append-IsNodup :
    (xs ys : List ℕ)
    → IsNodup xs
    → IsNodup ys
    → ((a : ℕ) → contains a xs ≡ true → contains a ys ≡ false)
    → IsNodup (xs ++ ys)
append-IsNodup [] ys u v apart = v
append-IsNodup (x ∷ xs) ys u v apart =
    let rest = append-IsNodup xs ys u.1 v (λ a h. apart a (ground arith)) in
    ground (arith, contains-append x xs ys, apart x)
