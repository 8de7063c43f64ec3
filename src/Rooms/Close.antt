-- ===== src/Rooms/Close.antt =====
-- `leave_room` and `delete_room` do what they promise.
use mathlib.Core.Option
use sync_server.Prelude.{
  ℕ, ◌≡◌, refl, sym, ap, subst, ◌∙◌, inl, inr, true, false, not, none, some, List, arith, ◌==◌,
  is_empty, filter, if◌then◌else◌, Bool-cases, Option-cases,
}
use sync_server.Prelude.Sets.{contains, IsNodup, contains-filter, filter-IsNodup}
use sync_server.Errors.{AppError, ok, err}
use sync_server.Store.{Database, delete_where, row_of, has_user_of_users}
use sync_server.Rooms.Types.{Room, RoomMember, RoomMessage}
use sync_server.Rooms.Views.{is_membership, room_of, membership_of, room_access_error}
use sync_server.Rooms.Members.{
  delete_membership, delete_members, delete_messages, delete_room_row, delete_if_empty, leave_room,
  delete_room,
}
use sync_server.Rooms.Rows.{
  member_ids, members_of, contains-members_of, member_ids-delete_membership, member_ids-delete_room,
}
use sync_server.Rooms.Group.{
  group, has-group, without, has-without, without-group, group_of_is_empty, is_deserted,
  is_deserted-group,
}
use sync_server.Rooms.Spec.{
  view, change, set_owner, leave, delete, call, spec, spec_leave, spec_delete, Refines, as_member,
}
use sync_server.Rooms.Consistent.{IsConsistent}
use sync_server.Rooms.Agree.{view_ext, has_room-row_of}
use sync_server.Rooms.Emptied.{
  kept_messages, closed, view-closed, closed-IsConsistent, delete_where_twice, no_rows,
}

module _ (r u : ℕ) (db : Database) where
  abbrev rows_left : List RoomMember
  rows_left = delete_where (is_membership r u) db.room_members

  abbrev after_leave : Database
  after_leave = record db { room_members = rows_left }

  members-left :
      (q : ℕ)
      → member_ids q rows_left
        ≡ (if q == r then filter (λ a. not (a == u)) (members_of q db) else members_of q db)
  unfolding members_of
  members-left q = member_ids-delete_membership r u q db.room_members

  view-after_leave : view after_leave ≡ change r (without u) (view db)
  unfolding view room_of members_of
  view-after_leave =
      view_ext _ _ (λ q. refl)
        (λ q a. ground (
          arith,
          members-left q,
          has-group a (member_ids q rows_left),
          contains-filter a (λ a. not (a == u)) (members_of q db),
          has-without a u (group (members_of q db)),
          has-group a (members_of q db),
        ))
        (λ a. has_user_of_users a db after_leave refl)

  after_leave-IsConsistent :
      IsConsistent db → is_empty (member_ids r rows_left) ≡ false → IsConsistent after_leave
  unfolding members_of
  after_leave-IsConsistent c others = record {
    users_once = c.users_once;
    rooms_once = c.rooms_once;
    members_once = λ q. subst IsNodup (sym (members-left q)) (once q);
    messages_once = c.messages_once;
    members_housed = λ q missing. ground (arith, members-left q, c.members_housed q missing);
    messages_housed = c.messages_housed;
    inhabited = λ q there. ground (arith, members-left q, c.inhabited q there);
  }
    where
      once :
          (q : ℕ)
          → IsNodup
              (if q == r then filter (λ a. not (a == u)) (members_of q db) else members_of q db)
      once q = elim (Bool-cases (q == r)) [
        | inl here ↦
            rw here (filter-IsNodup (λ a. not (a == u)) (members_of q db) (c.members_once q))
        | inr elsewhere ↦ rw elsewhere (c.members_once q)
      ]

  others_stay : (q : ℕ) → (q == r) ≡ false → member_ids q rows_left ≡ members_of q db
  others_stay q elsewhere = ground (arith, members-left q)

  delete_if_empty_runs :
      delete_if_empty r after_leave
      ≡ (ok tt, if is_empty (member_ids r rows_left) then closed r rows_left db else after_leave)
  unfolding delete_if_empty delete_messages delete_room_row kept_messages
  delete_if_empty_runs = ground (
    arith,
    no_rows r rows_left,
    delete_where_twice (λ (m : RoomMessage). m.room_id == r) db.room_messages,
  )

  leave_runs :
      contains u (members_of r db) ≡ true
      → leave_room r u db
        ≡ (ok tt, if is_empty (member_ids r rows_left) then closed r rows_left db else after_leave)
  unfolding leave_room delete_membership
  leave_runs member = elim (Option-cases (membership_of r u db)) [
    | inl out ↦ absurd (ground (arith, contains-members_of r u db))
    | inr (row, there) ↦ ground (arith, delete_if_empty_runs)
  ]

  leave_refused :
      contains u (members_of r db) ≡ false → leave_room r u db ≡ (err (room_access_error r db), db)
  unfolding leave_room
  leave_refused out = elim (Option-cases (membership_of r u db)) [
    | inl out ↦ ground arith
    | inr (row, there) ↦ absurd (ground (arith, contains-members_of r u db))
  ]

  left_here : member_ids r rows_left ≡ filter (λ a. not (a == u)) (members_of r db)
  left_here = ground (arith, members-left r)

  without_here : without u (group (members_of r db)) ≡ group (member_ids r rows_left)
  without_here = without-group u (members_of r db) ∙ ap group (sym left_here)

  -- Nobody is left exactly if the set without the user is empty.
  deserted : is_deserted (without u (group (members_of r db))) ≡ is_empty (member_ids r rows_left)
  deserted = ap is_deserted without_here ∙ is_deserted-group (member_ids r rows_left)

  view-closed_left :
      is_empty (member_ids r rows_left) ≡ true
      → view (closed r rows_left db) ≡ set_owner r none (change r (without u) (view db))
  unfolding view
  view-closed_left empty =
      view-closed r rows_left db others_stay
      ∙ view_ext _ _ (λ q. refl)
          (λ q a. ground (arith, without_here, group_of_is_empty (member_ids r rows_left) empty))
          (λ a. refl)

  room_is_there :
      IsConsistent db
      → contains u (members_of r db) ≡ true
      → (room : Room) × (room_of r db ≡ some room)
  unfolding room_of
  room_is_there c member = elim (Option-cases (row_of Room.id r db.rooms)) [
    | inl missing ↦ absurd (ground (arith, c.members_housed r, has_room-row_of r db.rooms))
    | inr found ↦ found
  ]

  may_leave :
      (room : Room)
      → room_of r db ≡ some room
      → contains u (members_of r db) ≡ true
      → as_member r u (view db) ≡ ok tt
  unfolding as_member view
  may_leave room there member = ground (arith, has-group u (members_of r db))

  may_not_leave :
      contains u (members_of r db) ≡ false → as_member r u (view db) ≡ err (room_access_error r db)
  unfolding as_member view room_access_error
  may_not_leave out = ground (arith, has-group u (members_of r db))

  view_members : (view db).members r ≡ group (members_of r db)
  unfolding view
  view_members = refl

  pub leave_lem : IsConsistent db → Refines (leave r u) db × IsConsistent (call (leave r u) db).1
  unfolding call spec spec_leave
  leave_lem c = elim (Bool-cases (contains u (members_of r db))) [
    | inr out ↦ (ground (arith, leave_refused out, may_not_leave out), rw (leave_refused out) c)
    | inl member ↦
        let (room, there) = room_is_there c member in
        let may = may_leave room there member in
        elim (Bool-cases (is_empty (member_ids r rows_left))) [
          | inl empty ↦ (
            ground (arith, leave_runs member, view_members, deserted, view-closed_left empty),
            rw (leave_runs member, empty) (closed-IsConsistent r rows_left db others_stay c),
          )
          | inr others ↦ (
            ground (arith, leave_runs member, view_members, deserted, view-after_leave),
            rw (leave_runs member, others) (after_leave-IsConsistent c others),
          )
        ]
  ]

  abbrev no_rows_left : List RoomMember
  no_rows_left = delete_where (λ row. row.room_id == r) db.room_members

  rows_elsewhere : (q : ℕ) → (q == r) ≡ false → member_ids q no_rows_left ≡ members_of q db
  unfolding members_of
  rows_elsewhere q elsewhere = member_ids-delete_room r q db.room_members ∙ ground arith

  delete_runs :
      (room : Room)
      → room_of r db ≡ some room
      → delete_room r u db ≡ (
          if room.created_by == u
          then (ok tt, closed r no_rows_left db)
          else (err AppError.forbidden, db))
  unfolding delete_room delete_members delete_messages delete_room_row kept_messages
  delete_runs room there =
      ground (arith, delete_where_twice (λ (m : RoomMessage). m.room_id == r) db.room_messages)

  delete_missing : room_of r db ≡ none → delete_room r u db ≡ (err AppError.not_found, db)
  unfolding delete_room
  delete_missing missing = ground arith

  view_owner : (view db).owner r ≡ Option.map Room.created_by (room_of r db)
  unfolding view
  view_owner = refl

  pub delete_lem : IsConsistent db → Refines (delete r u) db × IsConsistent (call (delete r u) db).1
  unfolding call spec spec_delete
  delete_lem c = elim (Option-cases (room_of r db)) [
    | inl missing ↦
        (ground (arith, view_owner, delete_missing missing), rw (delete_missing missing) c)
    | inr (room, there) ↦ elim (Bool-cases (room.created_by == u)) [
      | inr other ↦
          (ground (arith, view_owner, delete_runs room there), rw (delete_runs room there, other) c)
      | inl owner ↦ (
        ground (
          arith,
          view_owner,
          delete_runs room there,
          view-closed r no_rows_left db rows_elsewhere,
        ),
        rw (delete_runs room there, owner) (closed-IsConsistent r no_rows_left db rows_elsewhere c),
      )
    ]
  ]
