-- ===== src/Rooms/Runs.antt =====
-- Any sequence of calls on the rooms, against the specification.
use sync_server.Prelude.{
  ℕ, ◌≡◌, refl, ap, ◌∙◌, inl, inr, true, false, none, some, List, [], ◌∷◌, map, arith, Option-cases,
}
use sync_server.Prelude.Sets.{contains, IsNodup}
use sync_server.Errors.{ok}
use sync_server.Rooms.Types.{Room}
use sync_server.Rooms.Views.{room_of}
use sync_server.Rooms.Rows.{members_of}
use sync_server.Rooms.Group.{
  has, has-group, without, has-without, is_deserted, is_deserted-has, is_deserted_of_none,
}
use sync_server.Store.{Database}
use sync_server.Rooms.Spec.{
  RoomsView, view, RoomCall, create, rename, add, remove, leave, delete, Answer, call, spec,
  spec_leave, as_member, change, set_owner, Refines,
}
use sync_server.Rooms.Consistent.{IsConsistent}
use sync_server.Rooms.Create.{create-Refines, create-IsConsistent}
use sync_server.Rooms.Rename.{rename_lem}
use sync_server.Rooms.Add.{add_lem}
use sync_server.Rooms.Remove.{remove_lem}
use sync_server.Rooms.Close.{leave_lem, delete_lem}

pub call_lem :
    (c : RoomCall) (db : Database) → IsConsistent db → Refines c db × IsConsistent (call c db).1
call_lem (create ctx creator name ids) db v =
    (create-Refines ctx creator name ids db v, create-IsConsistent ctx creator name ids db v)
call_lem (rename ctx r u name) db v =
    let (refines, keeps) = rename_lem ctx r u name db in (refines, keeps v)
call_lem (add ctx r u ids) db v = add_lem ctx r u ids db v
call_lem (remove ctx r u id) db v = remove_lem ctx r u id db v
call_lem (leave r u) db v = leave_lem r u db v
call_lem (delete r u) db v = delete_lem r u db v

-- The answers of a sequence of calls, and the tables at its end.
pub run : List RoomCall → Database → List Answer × Database
run [] db = ([], db)
run (c ∷ cs) db = let (a, db') = call c db in let (as', last) = run cs db' in (a ∷ as', last)

pub spec_run : List RoomCall → RoomsView → List Answer × RoomsView
spec_run [] v = ([], v)
spec_run (c ∷ cs) v = let (a, v') = spec c v in let (as', last) = spec_run cs v' in (a ∷ as', last)

-- From consistent tables, any sequence of calls that found, rename, fill, empty, leave and delete
-- rooms answers call by call as the specification does, and leaves tables with the owners, the sets
-- of members and the users that the specification leaves.
pub runs_refine :
    (cs : List RoomCall) (db : Database)
    → IsConsistent db
    → ((run cs db).0 ≡ (spec_run cs (view db)).0) × (view (run cs db).1 ≡ (spec_run cs (view db)).1)
unfolding run spec_run
runs_refine [] db v = (refl, refl)
runs_refine (c ∷ cs) db v =
    let ((answers, views), keeps) = call_lem c db v in
    let (rest_answers, rest_views) = runs_refine cs (call c db).1 keeps in
    (
      λ i. answers i ∷ (rest_answers ∙ ap (λ w. (spec_run cs w).0) views) i,
      rest_views ∙ ap (λ w. (spec_run cs w).1) views,
    )

run-IsConsistent :
    (cs : List RoomCall) (db : Database) → IsConsistent db → IsConsistent (run cs db).1
unfolding run
run-IsConsistent [] db v = v
run-IsConsistent (c ∷ cs) db v = run-IsConsistent cs (call c db).1 (call_lem c db v).1

-- The members leave one after another, and each is told that it went well.
abbrev pub leave_all : ℕ → List ℕ → List RoomCall
leave_all r us = map (leave r) us

abbrev pub all_well : List ℕ → List Answer
all_well us = map (λ _. ok tt) us

-- One leaves, and others are left.
leaves_step :
    (r u o : ℕ) (v : RoomsView)
    → v.owner r ≡ some o
    → has u (v.members r) ≡ true
    → is_deserted (without u (v.members r)) ≡ false
    → spec (leave r u) v ≡ (ok tt, change r (without u) v)
unfolding spec spec_leave as_member
leaves_step r u o v owned member others = ground arith

leaves_last :
    (r u o : ℕ) (v : RoomsView)
    → v.owner r ≡ some o
    → has u (v.members r) ≡ true
    → is_deserted (without u (v.members r)) ≡ true
    → spec (leave r u) v ≡ (ok tt, set_owner r none (change r (without u) v))
unfolding spec spec_leave as_member
leaves_last r u o v owned member nobody = ground arith

everyone_leaves_spec :
    (r o u : ℕ) (us : List ℕ) (v : RoomsView)
    → v.owner r ≡ some o
    → IsNodup (u ∷ us)
    → ((a : ℕ) → has a (v.members r) ≡ contains a (u ∷ us))
    → ((spec_run (leave_all r (u ∷ us)) v).0 ≡ all_well (u ∷ us))
      × ((spec_run (leave_all r (u ∷ us)) v).1.owner r ≡ none)
unfolding spec_run
everyone_leaves_spec r o u [] v owned once members =
    let last = leaves_last r u o v owned (members u ∙ ground arith) (
      is_deserted_of_none (without u (v.members r))
        (λ a. ground (arith, has-without a u (v.members r), members a))) in
    (ground (arith, last), ground (arith, last))
everyone_leaves_spec r o u (w ∷ ws) v owned once members =
    let others =
      is_deserted-has w (without u (v.members r))
        (ground (arith, has-without w u (v.members r), members w)) in
    let step = leaves_step r u o v owned (members u ∙ ground arith) others in
    let rest =
      everyone_leaves_spec r o w ws (change r (without u) v) owned once.1
        (λ a. ground (arith, has-without a u (v.members r), members a)) in
    (ground (arith, step, rest), ground (arith, step, rest))

view_of_room :
    (r : ℕ) (room : Room) (db : Database)
    → room_of r db ≡ some room
    → ((view db).owner r ≡ some room.created_by)
      × ((a : ℕ) → has a ((view db).members r) ≡ contains a (members_of r db))
unfolding view
view_of_room r room db there = (ground arith, λ a. has-group a (members_of r db))

no_owner : (r : ℕ) (db : Database) → (view db).owner r ≡ none → room_of r db ≡ none
unfolding view
no_owner r db gone = elim (Option-cases (room_of r db)) [
  | inl missing ↦ missing
  | inr (room, there) ↦ absurd (ground arith)
]

-- When all members of a room of consistent tables leave it one after another, in any order, each is
-- answered well and the room is gone in the end.
pub everyone_leaves :
    (r u : ℕ) (us : List ℕ) (room : Room) (db : Database)
    → IsConsistent db
    → room_of r db ≡ some room
    → IsNodup (u ∷ us)
    → ((a : ℕ) → contains a (members_of r db) ≡ contains a (u ∷ us))
    → ((run (leave_all r (u ∷ us)) db).0 ≡ all_well (u ∷ us))
      × (room_of r (run (leave_all r (u ∷ us)) db).1 ≡ none)
everyone_leaves r u us room db c there once members =
    let (owned, has_members) = view_of_room r room db there in
    let (well, gone) =
      everyone_leaves_spec r room.created_by u us (view db) owned once
        (λ a. has_members a ∙ members a) in
    let (answers, views) = runs_refine (leave_all r (u ∷ us)) db c in
    (answers ∙ well, no_owner r _ (ap (λ (w : RoomsView). w.owner r) views ∙ gone))
