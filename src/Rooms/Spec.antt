-- ===== src/Rooms/Spec.antt =====
-- What the operations on rooms promise, over an abstract view: each room's owner and its set of
-- members, and who is a user. Rows, roles, times and names are forgotten, but not the check of a name.
use mathlib.Core.Option
use sync_server.Prelude.{
  ℕ, ◌≡◌, String, Bool, not, ◌&&◌, Option, none, some, List, [], ◌∷◌, ◌==◌, filter, if◌then◌else◌,
}
use sync_server.Prelude.Sets.{all}
use sync_server.Errors.{AppError, Result, ok, err, panic}
use sync_server.Store.{Database, Context, has_user}
use sync_server.Rooms.Types.{Room}
use sync_server.Rooms.Views.{normalize_room_name, room_of}
use sync_server.Rooms.Members.{
  create_room, rename_room, add_room_members, remove_room_member, leave_room, delete_room,
}
use sync_server.Rooms.Rows.{members_of}
use sync_server.Rooms.Group.{Group, group, has, is_deserted, joined, without}

pub record RoomsView : Type 0 where
  pub owner : ℕ → Option ℕ
  pub members : ℕ → Group
  pub is_user : ℕ → Bool

-- The view of the tables.
unfoldable pub view : Database → RoomsView
view db = record {
  owner = λ r. Option.map Room.created_by (room_of r db);
  members = λ r. group (members_of r db);
  is_user = λ u. has_user u db;
}

pub data RoomCall : Type 0 where
  create : Context → ℕ → String → List ℕ → RoomCall
  rename : Context → ℕ → ℕ → String → RoomCall
  add : Context → ℕ → ℕ → List ℕ → RoomCall
  remove : Context → ℕ → ℕ → ℕ → RoomCall
  leave : ℕ → ℕ → RoomCall
  delete : ℕ → ℕ → RoomCall

abbrev pub Answer : Type 0
Answer = Result (Unit {0})

abbrev pub answer : {A : Type 0} → Result A → Answer
answer (ok a) = ok tt
answer (err e) = err e
answer panic = panic

-- The calls on the tables.
unfoldable pub call : RoomCall → Database → Answer × Database
call (create ctx creator name ids) db =
    let r = create_room ctx creator name ids db in (answer r.0, r.1)
call (rename ctx room user name) db = let r = rename_room ctx room user name db in (answer r.0, r.1)
call (add ctx room user ids) db = let r = add_room_members ctx room user ids db in (answer r.0, r.1)
call (remove ctx room user id) db =
    let r = remove_room_member ctx room user id db in (answer r.0, r.1)
call (leave room user) db = leave_room room user db
call (delete room user) db = delete_room room user db

-- The members of one room are changed.
abbrev pub change : ℕ → (Group → Group) → RoomsView → RoomsView
change r f v = record v { members = λ q. if q == r then f (v.members q) else v.members q }

abbrev pub set_owner : ℕ → Option ℕ → RoomsView → RoomsView
set_owner r o v = record v { owner = λ q. if q == r then o else v.owner q }

-- A member acts on a room that is there.
unfoldable pub as_member : ℕ → ℕ → RoomsView → Answer
as_member r u v = elim (v.owner r) [
  | none ↦ err AppError.not_found
  | some owner ↦ if has u (v.members r) then ok tt else err AppError.forbidden
]

-- Its owner does.
unfoldable pub as_owner : ℕ → ℕ → RoomsView → Answer
as_owner r u v = elim (v.owner r) [
  | none ↦ err AppError.not_found
  | some owner ↦ if has u (v.members r) && owner == u then ok tt else err AppError.forbidden
]

-- What goes on only if the answer is good.
abbrev pub if_ok : Answer → RoomsView → Answer × RoomsView → Answer × RoomsView
if_ok (ok _) v rest = rest
if_ok (err e) v rest = (err e, v)
if_ok panic v rest = (panic, v)

abbrev pub unknown_members : AppError
unknown_members = AppError.bad_request "One or more room members do not exist"

-- A room is founded with its creator and the users that he names.
unfoldable pub spec_create : ℕ → ℕ → String → List ℕ → RoomsView → Answer × RoomsView
spec_create r creator name ids v = if_ok (answer (normalize_room_name name)) v (
    if all v.is_user (creator ∷ ids)
    then elim (v.owner r) [
      | none ↦ (ok tt, set_owner r (some creator) (change r (λ _. group (creator ∷ ids)) v))
      | some _ ↦ (err AppError.database, v)
    ]
    else (err unknown_members, v))

unfoldable pub spec_add : ℕ → ℕ → List ℕ → RoomsView → Answer × RoomsView
unfolding as_owner
spec_add r u ids v =
    let wanted = filter (λ id. not (id == u)) ids in
    if_ok (as_owner r u v) v (
      if all v.is_user wanted
      then (ok tt, change r (joined wanted) v)
      else (err unknown_members, v))

unfoldable pub spec_remove : ℕ → ℕ → ℕ → RoomsView → Answer × RoomsView
unfolding as_owner
spec_remove r u id v = if_ok (as_owner r u v) v (
    if id == u
    then (err (AppError.bad_request "Room owner cannot be removed"), v)
    else if has id (v.members r)
    then (ok tt, change r (without id) v)
    else (err AppError.not_found, v))

-- The last member to leave takes the room along.
unfoldable pub spec_leave : ℕ → ℕ → RoomsView → Answer × RoomsView
unfolding as_member
spec_leave r u v = if_ok (as_member r u v) v (
    if is_deserted (without u (v.members r))
    then (ok tt, set_owner r none (change r (without u) v))
    else (ok tt, change r (without u) v))

-- Only the creator deletes a room, be he a member or not.
unfoldable pub spec_delete : ℕ → ℕ → RoomsView → Answer × RoomsView
spec_delete r u v = elim (v.owner r) [
  | none ↦ (err AppError.not_found, v)
  | some owner ↦
      if owner == u
      then (ok tt, set_owner r none (change r (λ _. group []) v))
      else (err AppError.forbidden, v)
]

unfoldable pub spec : RoomCall → RoomsView → Answer × RoomsView
unfolding spec_create as_owner spec_add spec_remove spec_leave spec_delete
spec (create ctx creator name ids) v = spec_create ctx.new_id creator name ids v
spec (rename ctx room user name) v =
    if_ok (as_owner room user v) v (answer (normalize_room_name name), v)
spec (add ctx room user ids) v = spec_add room user ids v
spec (remove ctx room user id) v = spec_remove room user id v
spec (leave room user) v = spec_leave room user v
spec (delete room user) v = spec_delete room user v

-- A call on the tables answers as the specification does, and leaves the tables with the view that it
-- leaves.
abbrev pub Refines : RoomCall → Database → Type 0
Refines c db = ((call c db).0 ≡ (spec c (view db)).0) × (view (call c db).1 ≡ (spec c (view db)).1)
