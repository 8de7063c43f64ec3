-- ===== src/Rooms/Remove.antt =====
-- `remove_room_member` does what it promises.
use sync_server.Prelude.{
  ℕ, ◌≡◌, ◌≢◌, refl, sym, ap, subst, ◌∙◌, inl, inr, true, false, not, List, [], ◌∷◌, arith, ◌==◌,
  is_empty, filter, if◌then◌else◌, Bool-cases, Option-cases,
}
use sync_server.Prelude.Sets.{contains, IsNodup, contains-filter, filter-IsNodup}
use sync_server.Errors.{AppError, ok, err}
use sync_server.Store.{Database, Context, delete_where}
use sync_server.Rooms.Types.{Room, RoomMember, RoomDetail}
use sync_server.Rooms.Views.{is_membership, membership_of}
use sync_server.Rooms.Members.{
  touch_room, ensure_owner, delete_membership, remove_existing, remove_room_member,
}
use sync_server.Rooms.Rows.{
  member_ids, members_of, contains-members_of, member_ids-delete_membership,
}
use sync_server.Rooms.Group.{group, has, has-group, without, has-without}
use sync_server.Rooms.Spec.{view, change, remove, call, spec, spec_remove, Refines}
use sync_server.Rooms.Consistent.{IsConsistent, has_room}
use sync_server.Rooms.Agree.{ensure_owner-OwnerChecked, room_detail_conn_total}
use sync_server.Rooms.Change.{changed, view-changed, changed-IsConsistent}

module _ (ctx : Context) (r u id : ℕ) (db : Database) where
  abbrev rows_left : List RoomMember
  rows_left = delete_where (is_membership r id) db.room_members

  abbrev touched : Room → Room
  touched room = record room { updated_at = ctx.now }

  abbrev after_remove : Database
  after_remove = changed touched (λ _. refl) (λ _. refl) r rows_left db

  members-left :
      (q : ℕ)
      → member_ids q rows_left
        ≡ (if q == r then filter (λ a. not (a == id)) (members_of q db) else members_of q db)
  unfolding members_of
  members-left q = member_ids-delete_membership r id q db.room_members

  view-after_remove : view after_remove ≡ change r (without id) (view db)
  view-after_remove =
      view-changed touched (λ _. refl) (λ _. refl) r rows_left db (without id)
        (λ q a. ground (
          arith,
          members-left q,
          contains-filter a (λ a. not (a == id)) (members_of q db),
          has-without a id (group (members_of q db)),
          has-group a (members_of q db),
        ))

  nonempty_of_contains : (a : ℕ) (xs : List ℕ) → contains a xs ≡ true → is_empty xs ≡ false
  nonempty_of_contains a [] h = cc
  nonempty_of_contains a (x ∷ xs) h = refl

  stays : id ≢ u → contains u (members_of r db) ≡ true → contains u (member_ids r rows_left) ≡ true
  stays other member =
      ground (arith, members-left r, contains-filter u (λ a. not (a == id)) (members_of r db))

  after_remove-IsConsistent :
      IsConsistent db → id ≢ u → contains u (members_of r db) ≡ true → IsConsistent after_remove
  after_remove-IsConsistent c other member =
      changed-IsConsistent touched (λ _. refl) (λ _. refl) r rows_left db c
        (λ q. subst IsNodup (sym (members-left q)) (once q))
        (λ q missing. ground (arith, members-left q, c.members_housed q)) inhabited
    where
      once :
          (q : ℕ)
          → IsNodup
              (if q == r then filter (λ a. not (a == id)) (members_of q db) else members_of q db)
      once q = elim (Bool-cases (q == r)) [
        | inl here ↦
            rw here (filter-IsNodup (λ a. not (a == id)) (members_of q db) (c.members_once q))
        | inr elsewhere ↦ rw elsewhere (c.members_once q)
      ]

      inhabited : (q : ℕ) → has_room q db.rooms ≡ true → is_empty (member_ids q rows_left) ≡ false
      inhabited q there = elim (Bool-cases (q == r)) [
        | inl here ↦
            nonempty_of_contains u (member_ids q rows_left) (ground (arith, stays other member))
        | inr elsewhere ↦ ground (arith, members-left q, c.inhabited q there)
      ]

  remove_existing_runs :
      contains id (members_of r db) ≡ true → remove_existing ctx r id db ≡ (ok tt, after_remove)
  unfolding remove_existing delete_membership touch_room
  remove_existing_runs member = elim (Option-cases (membership_of r id db)) [
    | inl out ↦ absurd (ground (arith, contains-members_of r id db))
    | inr (row, there) ↦ ground arith
  ]

  remove_existing_fails :
      contains id (members_of r db) ≡ false
      → remove_existing ctx r id db ≡ (err AppError.not_found, db)
  unfolding remove_existing
  remove_existing_fails missing = elim (Option-cases (membership_of r id db)) [
    | inl out ↦ ground arith
    | inr (row, there) ↦ absurd (ground (arith, contains-members_of r id db))
  ]

  remove_runs :
      (room : Room)
      → ensure_owner r u db ≡ (ok room, db)
      → room.id ≡ r
      → room.created_by ≡ u
      → contains u (members_of r db) ≡ true
      → id ≢ u
      → contains id (members_of r db) ≡ true
      → (d : RoomDetail) × (remove_room_member ctx r u id db ≡ (ok d, after_remove))
  unfolding remove_room_member members_of
  remove_runs room owns same created member other there =
      let (d, shown) =
        room_detail_conn_total room u after_remove
          (ap (λ (q : ℕ). contains u (member_ids q rows_left)) same ∙ stays other member) in
      (d, ground (arith, remove_existing_runs there))

  remove_self :
      (room : Room)
      → ensure_owner r u db ≡ (ok room, db)
      → room.created_by ≡ u
      → id ≡ u
      → remove_room_member ctx r u id db
        ≡ (err (AppError.bad_request "Room owner cannot be removed"), db)
  unfolding remove_room_member
  remove_self room owns created self = ground arith

  remove_missing :
      (room : Room)
      → ensure_owner r u db ≡ (ok room, db)
      → room.created_by ≡ u
      → id ≢ u
      → contains id (members_of r db) ≡ false
      → remove_room_member ctx r u id db ≡ (err AppError.not_found, db)
  unfolding remove_room_member
  remove_missing room owns created other missing = ground (arith, remove_existing_fails missing)

  remove_not_owner :
      (e : AppError)
      → ensure_owner r u db ≡ (err e, db)
      → remove_room_member ctx r u id db ≡ (err e, db)
  unfolding remove_room_member
  remove_not_owner e refused = ground arith

  spec_members : has id ((view db).members r) ≡ contains id (members_of r db)
  unfolding view
  spec_members = has-group id (members_of r db)

  pub remove_lem :
      IsConsistent db
      → Refines (remove ctx r u id) db × IsConsistent (call (remove ctx r u id) db).1
  unfolding call spec spec_remove
  remove_lem c = elim (ensure_owner-OwnerChecked r u db) [
    | inl (e, refused, may_not) ↦ let ran = remove_not_owner e refused in (ground arith, rw ran c)
    | inr (room, owns, may, there, same, created, member) ↦ elim (Bool-cases (id == u)) [
      | inl self ↦
          let ran = remove_self room owns created (ground arith) in
          (ground (arith, spec_members), rw ran c)
      | inr other ↦ elim (Bool-cases (contains id (members_of r db))) [
        | inr missing ↦
            let ran = remove_missing room owns created (ground arith) missing in
            (ground (arith, spec_members), rw ran c)
        | inl is_member ↦
            let (d, ran) = remove_runs room owns same created member (ground arith) is_member in
            (
              ground (arith, spec_members, view-after_remove),
              rw ran (after_remove-IsConsistent c (ground arith) member),
            )
      ]
    ]
  ]
