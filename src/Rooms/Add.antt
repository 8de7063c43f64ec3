-- ===== src/Rooms/Add.antt =====
-- `add_room_members` does what it promises.
use sync_server.Prelude.{
  ℕ, ◌≡◌, refl, sym, ap, subst, ◌∙◌, inl, inr, true, false, not, ◌&&◌, some, List, [], ◌∷◌, ◌++◌,
  arith, ◌==◌, map, is_empty, filter, if◌then◌else◌, Bool-cases,
}
use sync_server.Prelude.Sets.{
  contains, IsNodup, all, sorted_ids, contains-sorted_ids, sorted_ids-IsNodup, all-sorted_ids,
  all_mono, all-filter, contains-filter, filter-IsNodup, distinct-of_IsNodup,
}
use sync_server.Errors.{AppError, ok, err}
use sync_server.Store.{Database, Context, has_user}
use sync_server.Rooms.Types.{Room, RoomMember, RoomDetail}
use sync_server.Rooms.Views.{room_of, membership_of, ensure_users_exist_conn}
use sync_server.Rooms.Members.{
  is_none, new_member, may_join, insert_members, touch_room, ensure_owner, new_member_ids,
  insert_new, requested_member_ids, add_requested, add_room_members,
}
use sync_server.Rooms.Rows.{
  member_ids, members_of, contains-members_of, member_ids-append, member_ids-new, contains-append,
  append-IsNodup,
}
use sync_server.Rooms.Group.{group, has-group, joined, has-joined}
use sync_server.Rooms.Spec.{view, change, add, call, spec, spec_add, Refines, unknown_members}
use sync_server.Rooms.Consistent.{IsConsistent, has_room}
use sync_server.Rooms.Agree.{
  ensure_owner-OwnerChecked, ensure_users_exist_conn_lem, room_detail_conn_total, view_ext,
  has_room-row_of,
}
use sync_server.Rooms.Change.{changed, view-changed, changed-IsConsistent}

module _ (ctx : Context) (r u : ℕ) (ids : List ℕ) (db : Database) where
  abbrev wanted : List ℕ
  wanted = filter (λ id. not (id == u)) ids

  abbrev requested : List ℕ
  requested = requested_member_ids u ids

  -- The users who join.
  abbrev newcomers : List ℕ
  newcomers = new_member_ids r requested db

  abbrev rows_after_add : List RoomMember
  rows_after_add = map (λ id. new_member ctx r "member" id) newcomers ++ db.room_members

  abbrev touched : Room → Room
  touched room = record room { updated_at = ctx.now }

  abbrev after_add : Database
  after_add = changed touched (λ _. refl) (λ _. refl) r rows_after_add db

  members-after_add :
      (q : ℕ) → member_ids q rows_after_add ≡ (if r == q then newcomers else []) ++ members_of q db
  unfolding members_of
  members-after_add q =
      member_ids-append q _ db.room_members
      ∙ ap (λ (xs : List ℕ). xs ++ member_ids q db.room_members)
          (member_ids-new ctx r q (λ _. "member") newcomers)

  contains-newcomers :
      (a : ℕ) → contains a newcomers ≡ not (contains a (members_of r db)) && contains a wanted
  unfolding new_member_ids requested_member_ids
  contains-newcomers a = ground (
    arith,
    contains-filter a (λ id. is_none (membership_of r id db)) (sorted_ids wanted),
    contains-sorted_ids a wanted,
    contains-members_of r a db,
  )

  newcomers_once : IsNodup newcomers
  unfolding new_member_ids requested_member_ids
  newcomers_once =
      filter-IsNodup (λ id. is_none (membership_of r id db)) (sorted_ids wanted)
        (sorted_ids-IsNodup wanted)

  view-after_add : view after_add ≡ change r (joined wanted) (view db)
  view-after_add =
      view-changed touched (λ _. refl) (λ _. refl) r rows_after_add db (joined wanted)
        (λ q a. ground (
          arith,
          members-after_add q,
          contains-append a newcomers (members_of q db),
          contains-newcomers a,
          has-joined a wanted (group (members_of q db)),
          has-group a (members_of q db),
        ))

  joins_once :
      IsConsistent db → (q : ℕ) → IsNodup ((if r == q then newcomers else []) ++ members_of q db)
  joins_once c q = elim (Bool-cases (r == q)) [
    | inl here ↦ rw here (
        append-IsNodup newcomers (members_of q db) newcomers_once (c.members_once q)
          (λ a new. ground (arith, contains-newcomers a)))
    | inr elsewhere ↦ rw elsewhere (c.members_once q)
  ]

  nonempty_append : (xs ys : List ℕ) → is_empty ys ≡ false → is_empty (xs ++ ys) ≡ false
  nonempty_append [] ys h = h
  nonempty_append (x ∷ xs) ys h = refl

  after_add-IsConsistent : IsConsistent db → has_room r db.rooms ≡ true → IsConsistent after_add
  after_add-IsConsistent c there =
      changed-IsConsistent touched (λ _. refl) (λ _. refl) r rows_after_add db c
        (λ q. subst IsNodup (sym (members-after_add q)) (joins_once c q))
        (λ q missing. members-after_add q ∙ ground (arith, c.members_housed q))
        (λ q is_there.
          ap is_empty (members-after_add q)
          ∙ nonempty_append (if r == q then newcomers else []) (members_of q db)
              (c.inhabited q is_there))

  may_join-all :
      (room : Room)
      → room_of r db ≡ some room
      → all (λ a. has_user a db) requested ≡ true
      → all (may_join r db) newcomers ≡ true
  unfolding may_join new_member_ids
  may_join-all room there users =
      all_mono (λ a. has_user a db && is_none (membership_of r a db)) (may_join r db) newcomers
        (λ a h. ground (arith, there))
        (all-filter (λ a. has_user a db) (λ a. is_none (membership_of r a db)) requested users)

  insert_members_runs :
      (room : Room)
      → room_of r db ≡ some room
      → all (λ a. has_user a db) requested ≡ true
      → insert_members ctx r (λ _. "member") newcomers db
        ≡ (ok tt, record db { room_members = rows_after_add })
  unfolding insert_members
  insert_members_runs room there users =
      rw (may_join-all room there users, distinct-of_IsNodup newcomers newcomers_once) refl

  insert_new_runs :
      (ns : List ℕ) (rows : List RoomMember)
      → insert_members ctx r (λ _. "member") ns db ≡ (ok tt, record db { room_members = rows })
      → insert_new ctx r ns db
        ≡ (ok tt, if is_empty ns then db else changed touched (λ _. refl) (λ _. refl) r rows db)
  unfolding insert_new touch_room
  insert_new_runs [] rows inserted = refl
  insert_new_runs (n ∷ ns) rows inserted = ground arith

  add_requested_runs :
      (req : List ℕ) (db' : Database)
      → ensure_users_exist_conn req db ≡ (ok tt, db)
      → insert_new ctx r (new_member_ids r req db) db ≡ (ok tt, db')
      → add_requested ctx r req db ≡ (ok tt, db')
  unfolding add_requested new_member_ids insert_new
  add_requested_runs [] db' exist inserted = inserted
  add_requested_runs (n ∷ ns) db' exist inserted = ground arith

  -- The tables afterwards: nothing is written where nobody is new.
  abbrev finally_add : Database
  finally_add = if is_empty newcomers then db else after_add

  no_newcomers : is_empty newcomers ≡ true → (a : ℕ) → contains a newcomers ≡ false
  no_newcomers empty a = none_in newcomers empty
    where
      none_in : (xs : List ℕ) → is_empty xs ≡ true → contains a xs ≡ false
      none_in [] e = refl
      none_in (x ∷ xs) e = cc

  nobody_joined : is_empty newcomers ≡ true → view db ≡ change r (joined wanted) (view db)
  unfolding view
  nobody_joined empty =
      view_ext _ _ (λ q. refl)
        (λ q a. ground (
          arith,
          no_newcomers empty a,
          contains-newcomers a,
          has-joined a wanted (group (members_of q db)),
          has-group a (members_of q db),
        ))
        (λ a. refl)

  view-finally_add : view finally_add ≡ change r (joined wanted) (view db)
  view-finally_add = elim (Bool-cases (is_empty newcomers)) [
    | inl empty ↦ rw empty (nobody_joined empty)
    | inr some_join ↦ rw some_join view-after_add
  ]

  finally_add-IsConsistent : IsConsistent db → has_room r db.rooms ≡ true → IsConsistent finally_add
  finally_add-IsConsistent c there = elim (Bool-cases (is_empty newcomers)) [
    | inl empty ↦ rw empty c
    | inr some_join ↦ rw some_join (after_add-IsConsistent c there)
  ]

  member_stays : contains u (members_of r db) ≡ true → contains u (members_of r finally_add) ≡ true
  unfolding members_of
  member_stays member = elim (Bool-cases (is_empty newcomers)) [
    | inl empty ↦ rw empty member
    | inr some_join ↦
        rw some_join
          (ground (arith, members-after_add r, contains-append u newcomers (members_of r db)))
  ]

  requested_once : IsNodup requested
  unfolding requested_member_ids
  requested_once = sorted_ids-IsNodup wanted

  requested_users : all (λ a. has_user a db) requested ≡ all (λ a. has_user a db) wanted
  unfolding requested_member_ids
  requested_users = all-sorted_ids (λ a. has_user a db) wanted

  add_runs :
      (room : Room)
      → IsConsistent db
      → ensure_owner r u db ≡ (ok room, db)
      → room_of r db ≡ some room
      → room.id ≡ r
      → contains u (members_of r db) ≡ true
      → all (λ a. has_user a db) wanted ≡ true
      → (d : RoomDetail) × (add_room_members ctx r u ids db ≡ (ok d, finally_add))
  unfolding add_room_members
  add_runs room c owns there same member users =
      let known = requested_users ∙ users in
      let exist = ensure_users_exist_conn_lem requested db requested_once c.users_once in
      let inserted =
        insert_new_runs newcomers rows_after_add (insert_members_runs room there known) in
      let (d, shown) =
        room_detail_conn_total room u finally_add
          (ap (λ (q : ℕ). contains u (members_of q finally_add)) same ∙ member_stays member) in
      (d, ground (arith, add_requested_runs requested finally_add (ground arith) inserted))

  refuses_unknown :
      (req : List ℕ)
      → ensure_users_exist_conn req db ≡ (err unknown_members, db)
      → all (λ a. has_user a db) req ≡ false
      → add_requested ctx r req db ≡ (err unknown_members, db)
  unfolding add_requested
  refuses_unknown [] refused unknown = cc
  refuses_unknown (n ∷ ns) refused unknown = ground arith

  add_refused :
      (room : Room)
      → IsConsistent db
      → ensure_owner r u db ≡ (ok room, db)
      → all (λ a. has_user a db) wanted ≡ false
      → add_room_members ctx r u ids db ≡ (err unknown_members, db)
  unfolding add_room_members
  add_refused room c owns unknown =
      let exist = ensure_users_exist_conn_lem requested db requested_once c.users_once in
      let refused =
        refuses_unknown requested (ground (arith, requested_users)) (requested_users ∙ unknown) in
      ground arith

  add_not_owner :
      (e : AppError)
      → ensure_owner r u db ≡ (err e, db)
      → add_room_members ctx r u ids db ≡ (err e, db)
  unfolding add_room_members
  add_not_owner e refused = ground arith

  is_room : (room : Room) → room_of r db ≡ some room → has_room r db.rooms ≡ true
  unfolding room_of
  is_room room there = ground (arith, has_room-row_of r db.rooms)

  spec_wanted : all (view db).is_user wanted ≡ all (λ a. has_user a db) wanted
  unfolding view
  spec_wanted = refl

  pub add_lem :
      IsConsistent db → Refines (add ctx r u ids) db × IsConsistent (call (add ctx r u ids) db).1
  unfolding call spec spec_add
  add_lem c = elim (ensure_owner-OwnerChecked r u db) [
    | inl (e, refused, may_not) ↦ let ran = add_not_owner e refused in (ground arith, rw ran c)
    | inr (room, owns, may, there, same, created, member) ↦
        elim (Bool-cases (all (λ a. has_user a db) wanted)) [
          | inr unknown ↦
              let ran = add_refused room c owns unknown in (ground (arith, spec_wanted), rw ran c)
          | inl users ↦
              let (d, ran) = add_runs room c owns there same member users in
              (
                ground (arith, spec_wanted, view-finally_add),
                rw ran (finally_add-IsConsistent c (is_room room there)),
              )
        ]
  ]
