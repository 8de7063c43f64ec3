-- ===== src/Rooms/Rename.antt =====
-- `rename_room` does what it promises.
use sync_server.Prelude.{
  ℕ, ◌≡◌, refl, subst, inl, inr, String, true, some, arith, if◌then◌else◌, str_eq, Bool-cases,
}
use sync_server.Prelude.Sets.{contains}
use sync_server.Errors.{AppError, Result, ok, err, panic}
use sync_server.Store.{Database, Context, row_of-update_row}
use sync_server.Rooms.Types.{Room, RoomDetail}
use sync_server.Rooms.Views.{normalize_room_name, room_of}
use sync_server.Rooms.Members.{set_name, ensure_owner, rename_room}
use sync_server.Rooms.Rows.{members_of}
use sync_server.Rooms.Spec.{view, rename, call, spec, Refines, as_owner}
use sync_server.Rooms.Consistent.{IsConsistent}
use sync_server.Rooms.Agree.{ensure_owner-OwnerChecked, room_detail_conn_total}
use sync_server.Rooms.Change.{changed, view-changed_same, changed-IsConsistent}

module _ (ctx : Context) (r u : ℕ) (name : String) (db : Database) where
  abbrev with_name : String → Room → Room
  with_name room_name room = record room { name = room_name; updated_at = ctx.now }

  abbrev after_rename : String → Database
  after_rename room_name =
      changed (with_name room_name) (λ _. refl) (λ _. refl) r db.room_members db

  view-after_rename : (room_name : String) → view (after_rename room_name) ≡ view db
  unfolding members_of
  view-after_rename room_name =
      view-changed_same (with_name room_name) (λ _. refl) (λ _. refl) r db.room_members db
        (λ q a. refl)

  after_rename-IsConsistent :
      (room_name : String) → IsConsistent db → IsConsistent (after_rename room_name)
  unfolding members_of
  after_rename-IsConsistent room_name c =
      changed-IsConsistent (with_name room_name) (λ _. refl) (λ _. refl) r db.room_members db c
        c.members_once c.members_housed c.inhabited

  -- The tables after a renaming: nothing is written for a name that the room has.
  abbrev pub after_name : Room → String → Database
  after_name room room_name = if str_eq room.name room_name then db else after_rename room_name

  abbrev named : Room → String → Room
  named room room_name = if str_eq room.name room_name then room else with_name room_name room

  set_name_runs :
      (room : Room) (room_name : String)
      → room_of r db ≡ some room
      → room.id ≡ r
      → set_name ctx room room_name db ≡ (ok (named room room_name), after_name room room_name)
  unfolding set_name room_of
  set_name_runs room room_name there same =
      subst
        (λ (q : ℕ).
          room_of q db ≡ some room
          → set_name ctx room room_name db ≡ (
            ok (named room room_name),
            if str_eq room.name room_name
                then db
                else changed (with_name room_name) (λ _. refl) (λ _. refl) q db.room_members db,
          ))
        same
        (λ found. ground (
          arith,
          found,
          row_of-update_row Room.id room.id room.id (with_name room_name) db.rooms (λ _. refl),
        ))
        there

  named_id : (room : Room) (room_name : String) → (named room room_name).id ≡ room.id
  named_id room room_name = ground arith

  view-after_name : (room : Room) (room_name : String) → view (after_name room room_name) ≡ view db
  view-after_name room room_name = elim (Bool-cases (str_eq room.name room_name)) [
    | inl same ↦ rw same refl
    | inr other ↦ rw other (view-after_rename room_name)
  ]

  after_name-IsConsistent :
      (room : Room) (room_name : String)
      → IsConsistent db
      → IsConsistent (after_name room room_name)
  after_name-IsConsistent room room_name c = elim (Bool-cases (str_eq room.name room_name)) [
    | inl same ↦ rw same c
    | inr other ↦ rw other (after_rename-IsConsistent room_name c)
  ]

  still_member :
      (room : Room) (room_name : String)
      → room.id ≡ r
      → contains u (members_of r db) ≡ true
      → contains u (members_of (named room room_name).id (after_name room room_name)) ≡ true
  unfolding members_of
  still_member room room_name same member = elim (Bool-cases (str_eq room.name room_name)) [
    | inl old ↦ rw old (ground arith)
    | inr new ↦ rw new (ground arith)
  ]

  rename_runs :
      (room : Room) (room_name : String)
      → ensure_owner r u db ≡ (ok room, db)
      → room_of r db ≡ some room
      → room.id ≡ r
      → contains u (members_of r db) ≡ true
      → normalize_room_name name ≡ ok room_name
      → (d : RoomDetail) × (rename_room ctx r u name db ≡ (ok d, after_name room room_name))
  unfolding rename_room
  rename_runs room room_name owns there same member is_name =
      let (d, shown) =
        room_detail_conn_total (named room room_name) u (after_name room room_name)
          (still_member room room_name same member) in
      (d, ground (arith, owns, is_name, set_name_runs room room_name there same, shown))

  rename_refused :
      (room : Room) (e : AppError)
      → ensure_owner r u db ≡ (ok room, db)
      → normalize_room_name name ≡ err e
      → rename_room ctx r u name db ≡ (err e, db)
  unfolding rename_room
  rename_refused room e owns is_name = ground arith

  rename_panics :
      (room : Room)
      → ensure_owner r u db ≡ (ok room, db)
      → normalize_room_name name ≡ panic
      → rename_room ctx r u name db ≡ (panic, db)
  unfolding rename_room
  rename_panics room owns is_name = ground arith

  rename_not_owner :
      (e : AppError) → ensure_owner r u db ≡ (err e, db) → rename_room ctx r u name db ≡ (err e, db)
  unfolding rename_room
  rename_not_owner e refused = ground arith

  rename_owned :
      (room : Room) (answered : Result String)
      → normalize_room_name name ≡ answered
      → ensure_owner r u db ≡ (ok room, db)
      → as_owner r u (view db) ≡ ok tt
      → room_of r db ≡ some room
      → room.id ≡ r
      → contains u (members_of r db) ≡ true
      → Refines (rename ctx r u name) db
        × (IsConsistent db → IsConsistent (call (rename ctx r u name) db).1)
  unfolding call spec
  rename_owned room panic is_name owns may there same member =
      let ran = rename_panics room owns is_name in (ground arith, rw ran (λ c. c))
  rename_owned room (err e) is_name owns may there same member =
      let ran = rename_refused room e owns is_name in (ground arith, rw ran (λ c. c))
  rename_owned room (ok room_name) is_name owns may there same member =
      let (d, ran) = rename_runs room room_name owns there same member is_name in
      (
        ground (arith, view-after_name room room_name),
        rw ran (after_name-IsConsistent room room_name),
      )

  pub rename_lem :
      Refines (rename ctx r u name) db
      × (IsConsistent db → IsConsistent (call (rename ctx r u name) db).1)
  unfolding call spec
  rename_lem = elim (ensure_owner-OwnerChecked r u db) [
    | inl (e, refused, may_not) ↦
        let ran = rename_not_owner e refused in (ground arith, rw ran (λ c. c))
    | inr (room, owns, may, there, same, created, member) ↦
        rename_owned room (normalize_room_name name) refl owns may there same member
  ]
