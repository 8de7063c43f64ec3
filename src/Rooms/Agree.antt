-- ===== src/Rooms/Agree.antt =====
-- What the checks of the operations do, in the terms of the abstract view.
use mathlib.Core.Path.{fun_ext}
use sync_server.Prelude.{
  ℕ, ◌+◌, ◌≤◌, ◌≡◌, refl, ◌∙◌, ◌⊎◌, inl, inr, Bool, true, false, not, none, some, List, [], ◌∷◌,
  arith, ◌==◌, map, find?, filter, length, if◌then◌else◌, Bool-cases, Option-cases,
}
use sync_server.Prelude.Sets.{contains, IsNodup, all}
use sync_server.Errors.{AppError, ok, err}
use sync_server.Store.{Database, User, row_of, has_user, find?_found}
use sync_server.Rooms.Types.{Room, RoomDetail}
use sync_server.Rooms.Views.{
  room_of, membership_of, ensure_users_exist_conn, ensure_room_member_conn, room_detail_conn,
  detail_of,
}
use sync_server.Rooms.Members.{is_none, ensure_owner}
use sync_server.Rooms.Rows.{members_of, contains-members_of}
use sync_server.Rooms.Group.{has, ext, has-group}
use sync_server.Rooms.Spec.{RoomsView, view, as_owner, unknown_members}
use sync_server.Rooms.Consistent.{has_room}

-- Views are equal when they cannot be told apart.
pub view_ext :
    (v w : RoomsView)
    → ((r : ℕ) → v.owner r ≡ w.owner r)
    → ((r a : ℕ) → has a (v.members r) ≡ has a (w.members r))
    → ((u : ℕ) → v.is_user u ≡ w.is_user u)
    → v ≡ w
view_ext v w o m u =
    let owners = fun_ext o in
    let groups = fun_ext (λ r. ext (v.members r) (w.members r) (m r)) in
    let users = fun_ext u in λ i. record { owner = owners i; members = groups i; is_user = users i }

pub has_room-row_of :
    (r : ℕ) (rooms : List Room) → has_room r rooms ≡ not (is_none (row_of Room.id r rooms))
has_room-row_of r [] = refl
has_room-row_of r (room ∷ rooms) = ground (arith, has_room-row_of r rooms)

known : ℕ → List User → Bool
known x users = contains x (map User.id users)

known-has_user : (x : ℕ) (db : Database) → known x db.users ≡ has_user x db
unfolding known has_user
known-has_user x db = known_there db.users
  where
    known_there :
        (users : List User)
        → contains x (map User.id users)
          ≡ elim (find? (λ u. u.id == x) users) [ none ↦ false | some _ ↦ true ]
    known_there [] = refl
    known_there (u ∷ us) = ground (arith, known_there us)

found_among : List ℕ → List User → ℕ
found_among ids users = length (filter (λ user. contains user.id ids) users)

one_if : Bool → ℕ
one_if true = 1
one_if false = 0

found_one_more :
    (x : ℕ) (xs : List ℕ) (users : List User)
    → contains x xs ≡ false
    → IsNodup (map User.id users)
    → found_among (x ∷ xs) users ≡ one_if (known x users) + found_among xs users
unfolding found_among known one_if
found_one_more x xs [] new once = refl
found_one_more x xs (u ∷ us) new once = ground (arith, found_one_more x xs us new once.1)

found_none : (users : List User) → found_among [] users ≡ 0
unfolding found_among
found_none [] = refl
found_none (u ∷ us) = found_none us

-- Each identifier is found at most once, so as many are found as there are exactly if all are.
found_all :
    (ids : List ℕ) (users : List User)
    → IsNodup ids
    → IsNodup (map User.id users)
    → (found_among ids users ≤ length ids)
      × ((found_among ids users == length ids) ≡ all (λ x. known x users) ids)
unfolding one_if
found_all [] users once once' = ground (arith, found_none users)
found_all (x ∷ xs) users once once' =
    ground (arith, found_one_more x xs users, found_all xs users once.1)

-- `ensure_users_exist_conn` passes exactly the lists of users.
pub ensure_users_exist_conn_lem :
    (ids : List ℕ) (db : Database)
    → IsNodup ids
    → IsNodup (map User.id db.users)
    → ensure_users_exist_conn ids db
      ≡ (if all (λ u. has_user u db) ids then ok tt else err unknown_members, db)
unfolding ensure_users_exist_conn found_among
ensure_users_exist_conn_lem ids db once users_once =
    rw ((found_all ids db.users once users_once).1, fun_ext (λ x. known-has_user x db))
      (elim (Bool-cases (all (λ u. has_user u db) ids)) [ inl h ↦ rw h refl | inr h ↦ rw h refl ])

-- The two ways in which a check for the owner ends.
abbrev pub OwnerChecked : ℕ → ℕ → Database → Type 0
OwnerChecked r u db =
    ((e : AppError) × (ensure_owner r u db ≡ (err e, db)) × (as_owner r u (view db) ≡ err e))
    ⊎ ((room : Room) × (ensure_owner r u db ≡ (ok room, db))
        × (as_owner r u (view db) ≡ ok tt)
        × (room_of r db ≡ some room)
        × (room.id ≡ r)
        × (room.created_by ≡ u)
        × (contains u (members_of r db) ≡ true))

pub room_of_id : (r : ℕ) (db : Database) (room : Room) → room_of r db ≡ some room → room.id ≡ r
unfolding room_of
room_of_id r db room there =
    ground (arith, find?_found (λ (x : Room). x.id == r) db.rooms room there)

pub ensure_owner-OwnerChecked : (r u : ℕ) (db : Database) → OwnerChecked r u db
unfolding ensure_owner ensure_room_member_conn as_owner view
ensure_owner-OwnerChecked r u db = elim (Option-cases (room_of r db)) [
  | inl missing ↦ inl (AppError.not_found, ground arith, ground arith)
  | inr (room, there) ↦
      let is_member = has-group u (members_of r db) ∙ contains-members_of r u db in
      elim (Option-cases (membership_of r u db)) [
        | inl out ↦ inl (AppError.forbidden, ground arith, ground arith)
        | inr (row, member) ↦ elim (Bool-cases (room.created_by == u)) [
          | inl owns ↦ inr (
            room,
            ground arith,
            ground arith,
            there,
            room_of_id r db room there,
            ground arith,
            ground (arith, contains-members_of r u db),
          )
          | inr other ↦ inl (AppError.forbidden, ground arith, ground arith)
        ]
      ]
]

-- A member gets the detail of his room.
pub room_detail_conn_total :
    (room : Room) (u : ℕ) (db : Database)
    → contains u (members_of room.id db) ≡ true
    → (d : RoomDetail) × (room_detail_conn room u db ≡ (ok d, db))
unfolding room_detail_conn
room_detail_conn_total room u db member = elim (Option-cases (membership_of room.id u db)) [
  | inl out ↦ absurd (ground (arith, contains-members_of room.id u db))
  | inr (row, there) ↦ (detail_of room row u db, ground arith)
]
