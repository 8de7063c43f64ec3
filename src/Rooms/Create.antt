-- ===== src/Rooms/Create.antt =====
-- `create_room` does what it promises.
use mathlib.Core.Option
use mathlib.Core.List.{append-nil}
use sync_server.Prelude.{
  ℕ, ◌≡◌, refl, sym, ap, subst, ◌∙◌, inl, inr, String, true, false, not, ◌||◌, Option, none, some,
  List, [], ◌∷◌, ◌++◌, arith, ◌==◌, map, is_empty, if◌then◌else◌, Bool-cases, Option-cases, All,
}
use sync_server.Prelude.Sets.{
  contains, IsNodup, contains-sorted_ids, sorted_ids-IsNodup, all, all-sorted_ids, all_mono,
  distinct-of_IsNodup,
}
use sync_server.Errors.{AppError, Result, ok, err, panic}
use sync_server.Store.{Database, Context, has_user, has_user_of_users}
use sync_server.Rooms.Types.{Room, RoomMessage, RoomDetail}
use sync_server.Rooms.Views.{normalize_room_name, normalize_member_ids, room_of}
use sync_server.Rooms.Members.{
  is_none, founder_role, new_member, insert_room, may_join, insert_members, create_room,
}
use sync_server.Rooms.Rows.{
  member_ids, members_of, contains-members_of, member_ids-append, member_ids-new, contains-append,
}
use sync_server.Rooms.Group.{group, has, has-group}
use sync_server.Rooms.Spec.{
  view, create, call, spec, spec_create, set_owner, change, unknown_members, Refines,
}
use sync_server.Rooms.Consistent.{IsConsistent, has_room}
use sync_server.Rooms.Agree.{
  view_ext, has_room-row_of, ensure_users_exist_conn_lem, room_detail_conn_total,
}

All-later :
    (room : Room) (rooms : List Room) (messages : List RoomMessage)
    → All (λ m. has_room m.room_id rooms ≡ true) messages
    → All (λ m. has_room m.room_id (room ∷ rooms) ≡ true) messages
All-later room rooms [] h = tt
All-later room rooms (m ∷ ms) h = (ground arith, All-later room rooms ms h.1)

module _ (ctx : Context) (creator : ℕ) (name : String) (ids : List ℕ) (db : Database) where
  abbrev founders : List ℕ
  founders = normalize_member_ids creator ids

  abbrev founded : String → Room
  founded room_name = record {
    id = ctx.new_id;
    name = room_name;
    created_by = creator;
    created_at = ctx.db_now;
    updated_at = ctx.db_now;
  }

  abbrev with_room : String → Database
  with_room room_name = record db { rooms = founded room_name ∷ db.rooms }

  -- The tables after a room was founded.
  abbrev pub after_create : String → Database
  after_create room_name = record (with_room room_name) {
    room_members =
        map (λ id. new_member ctx ctx.new_id (founder_role creator id) id) founders
        ++ db.room_members;
  }

  members-after_create :
      (room_name : String) (q : ℕ)
      → members_of q (after_create room_name)
        ≡ (if ctx.new_id == q then founders else []) ++ members_of q db
  unfolding members_of
  members-after_create room_name q =
      member_ids-append q _ db.room_members
      ∙ ap (λ (xs : List ℕ). xs ++ member_ids q db.room_members)
          (member_ids-new ctx ctx.new_id q (founder_role creator) founders)

  creator_is_founder : contains creator founders ≡ true
  unfolding normalize_member_ids
  creator_is_founder = contains-sorted_ids creator (creator ∷ ids) ∙ ground arith

  module _ (c : IsConsistent db) (fresh : room_of ctx.new_id db ≡ none) where
    no_members : members_of ctx.new_id db ≡ []
    unfolding room_of
    no_members =
        c.members_housed ctx.new_id
          (has_room-row_of ctx.new_id db.rooms ∙ ap (λ (o : Option Room). not (is_none o)) fresh)

    no_members_there : (room_name : String) → members_of ctx.new_id (with_room room_name) ≡ []
    unfolding members_of
    no_members_there room_name = no_members

    room_there :
        (room_name : String) → room_of ctx.new_id (with_room room_name) ≡ some (founded room_name)
    unfolding room_of
    room_there room_name = ground arith

    may_join-founder :
        (room_name : String) (u : ℕ)
        → has_user u db ≡ true
        → may_join ctx.new_id (with_room room_name) u ≡ true
    unfolding may_join
    may_join-founder room_name u user = ground (
      arith,
      has_user_of_users u db (with_room room_name) refl,
      contains-members_of ctx.new_id u (with_room room_name),
      no_members_there room_name,
      room_there room_name,
    )

    users_exist :
        all (λ u. has_user u db) (creator ∷ ids) ≡ true → all (λ u. has_user u db) founders ≡ true
    unfolding normalize_member_ids
    users_exist users = all-sorted_ids (λ u. has_user u db) (creator ∷ ids) ∙ users

    founders_once : IsNodup founders
    unfolding normalize_member_ids
    founders_once = sorted_ids-IsNodup (creator ∷ ids)

    insert_room_runs :
        (room_name : String)
        → has_user creator db ≡ true
        → insert_room ctx room_name creator db ≡ (ok (founded room_name), with_room room_name)
    unfolding insert_room
    insert_room_runs room_name user = rw (fresh, user) refl

    insert_members_runs :
        (room_name : String)
        → all (λ u. has_user u db) (creator ∷ ids) ≡ true
        → insert_members ctx ctx.new_id (founder_role creator) founders (with_room room_name)
          ≡ (ok tt, after_create room_name)
    unfolding insert_members
    insert_members_runs room_name users =
        let may_all =
          all_mono (λ u. has_user u db) (may_join ctx.new_id (with_room room_name)) founders
            (may_join-founder room_name) (users_exist users) in
        rw (may_all, distinct-of_IsNodup founders founders_once) refl

    creator_is_member :
        (room_name : String)
        → contains creator (members_of ctx.new_id (after_create room_name)) ≡ true
    creator_is_member room_name =
        ap (contains creator) (members-after_create room_name ctx.new_id)
        ∙ ground
            (arith, contains-append creator founders (members_of ctx.new_id db), creator_is_founder)

    -- With known founders and a fresh identifier the room is founded.
    create_runs :
        (room_name : String)
        → normalize_room_name name ≡ ok room_name
        → all (λ u. has_user u db) (creator ∷ ids) ≡ true
        → (d : RoomDetail) × (create_room ctx creator name ids db ≡ (ok d, after_create room_name))
    unfolding create_room
    create_runs room_name named users =
        let (d, shown) =
          room_detail_conn_total (founded room_name) creator (after_create room_name)
            (creator_is_member room_name) in
        (
          d,
          ground (
            arith,
            named,
            ensure_users_exist_conn_lem founders db founders_once c.users_once,
            users_exist users,
            insert_room_runs room_name (ground arith),
            insert_members_runs room_name users,
            shown,
          ),
        )

    no_room : has_room ctx.new_id db.rooms ≡ false
    unfolding room_of
    no_room = has_room-row_of ctx.new_id db.rooms ∙ ap (λ (o : Option Room). not (is_none o)) fresh

    members_once_after :
        (r : ℕ) → IsNodup ((if ctx.new_id == r then founders else []) ++ members_of r db)
    members_once_after r = elim (Bool-cases (ctx.new_id == r)) [
      | inl new ↦ rw new (
          subst IsNodup
            (ap (λ (xs : List ℕ). founders ++ xs) (sym no_members)
              ∙ ap (λ (q : ℕ). founders ++ members_of q db) (ground arith))
            (subst IsNodup (sym (append-nil founders)) founders_once))
      | inr old ↦ rw old (c.members_once r)
    ]

    nonempty_of_contains :
        (a : ℕ) (xs ys : List ℕ) → contains a xs ≡ true → is_empty (xs ++ ys) ≡ false
    nonempty_of_contains a [] ys h = cc
    nonempty_of_contains a (x ∷ xs) ys h = refl

    inhabited_after :
        (r : ℕ)
        → r == ctx.new_id || has_room r db.rooms ≡ true
        → is_empty ((if ctx.new_id == r then founders else []) ++ members_of r db) ≡ false
    inhabited_after r there = elim (Bool-cases (ctx.new_id == r)) [
      | inl new ↦
          rw new (nonempty_of_contains creator founders (members_of r db) creator_is_founder)
      | inr old ↦ rw old (c.inhabited r (ground arith))
    ]

  -- A name that is refused, an unknown founder, or an identifier in use: nothing has changed.
  create_refuses_name :
      (e : AppError)
      → normalize_room_name name ≡ err e
      → create_room ctx creator name ids db ≡ (err e, db)
  unfolding create_room
  create_refuses_name e named = ground arith

  create_panics :
      normalize_room_name name ≡ panic → create_room ctx creator name ids db ≡ (panic, db)
  unfolding create_room
  create_panics named = ground arith

  create_refuses_users :
      (room_name : String)
      → IsConsistent db
      → normalize_room_name name ≡ ok room_name
      → all (λ u. has_user u db) (creator ∷ ids) ≡ false
      → create_room ctx creator name ids db ≡ (err unknown_members, db)
  unfolding create_room normalize_member_ids
  create_refuses_users room_name c named unknown = ground (
    arith,
    named,
    ensure_users_exist_conn_lem founders db (sorted_ids-IsNodup (creator ∷ ids)) c.users_once,
    all-sorted_ids (λ u. has_user u db) (creator ∷ ids),
  )

  create_refuses_id :
      (room_name : String) (room : Room)
      → IsConsistent db
      → normalize_room_name name ≡ ok room_name
      → all (λ u. has_user u db) (creator ∷ ids) ≡ true
      → room_of ctx.new_id db ≡ some room
      → create_room ctx creator name ids db ≡ (err AppError.database, db)
  unfolding create_room normalize_member_ids insert_room
  create_refuses_id room_name room c named users taken = ground (
    arith,
    named,
    ensure_users_exist_conn_lem founders db (sorted_ids-IsNodup (creator ∷ ids)) c.users_once,
    all-sorted_ids (λ u. has_user u db) (creator ∷ ids),
  )

  room_owners :
      (room_name : String) (r : ℕ)
      → Option.map Room.created_by (room_of r (after_create room_name))
        ≡ (if r == ctx.new_id then some creator else Option.map Room.created_by (room_of r db))
  unfolding room_of
  room_owners room_name r = ground arith

  members_afterwards :
      (room_name : String) (r a : ℕ)
      → members_of ctx.new_id db ≡ []
      → has a (group (members_of r (after_create room_name)))
        ≡ has a (if r == ctx.new_id then group (creator ∷ ids) else group (members_of r db))
  unfolding normalize_member_ids
  members_afterwards room_name r a none_before = ground (
    arith,
    has-group a (members_of r (after_create room_name)),
    has-group a (creator ∷ ids),
    has-group a (members_of r db),
    members-after_create room_name r,
    contains-append a founders (members_of r db),
    contains-sorted_ids a (creator ∷ ids),
  )

  view-after_create :
      (room_name : String)
      → IsConsistent db
      → room_of ctx.new_id db ≡ none
      → view (after_create room_name)
        ≡ set_owner ctx.new_id
            (some creator)
            (change ctx.new_id (λ _. group (creator ∷ ids)) (view db))
  unfolding view
  view-after_create room_name c fresh =
      view_ext _ _ (room_owners room_name)
        (λ r a. members_afterwards room_name r a (no_members c fresh))
        (λ u. has_user_of_users u db (after_create room_name) refl)

  has_owner : (r : ℕ) → (view db).owner r ≡ Option.map Room.created_by (room_of r db)
  unfolding view
  has_owner r = refl

  refused :
      (e : AppError)
      → create_room ctx creator name ids db ≡ (err e, db)
      → spec_create ctx.new_id creator name ids (view db) ≡ (err e, view db)
      → Refines (create ctx creator name ids) db
  unfolding call spec
  refused e ran specified = ground arith

  spec_users : all (view db).is_user (creator ∷ ids) ≡ all (λ u. has_user u db) (creator ∷ ids)
  unfolding view
  spec_users = refl

  create-Refines_named :
      (answered : Result String)
      → normalize_room_name name ≡ answered
      → IsConsistent db
      → Refines (create ctx creator name ids) db
  unfolding call spec spec_create
  create-Refines_named panic named c = ground (arith, named, create_panics)
  create-Refines_named (err e) named c = ground (arith, named, create_refuses_name e)
  create-Refines_named (ok room_name) named c =
      elim (Bool-cases (all (λ u. has_user u db) (creator ∷ ids))) [
        | inr unknown ↦
            ground (arith, named, spec_users, create_refuses_users room_name c named unknown)
        | inl users ↦ elim (Option-cases (room_of ctx.new_id db)) [
          | inr (room, taken) ↦ ground (
            arith,
            named,
            spec_users,
            has_owner ctx.new_id,
            create_refuses_id room_name room c named users taken,
          )
          | inl fresh ↦
              let (d, ran) = create_runs c fresh room_name named users in
              ground (
                arith,
                named,
                spec_users,
                has_owner ctx.new_id,
                view-after_create room_name c fresh,
              )
        ]
      ]

  pub create-Refines : IsConsistent db → Refines (create ctx creator name ids) db
  create-Refines = create-Refines_named (normalize_room_name name) refl

  after_create-IsConsistent :
      (room_name : String)
      → IsConsistent db
      → room_of ctx.new_id db ≡ none
      → IsConsistent (after_create room_name)
  unfolding room_of
  after_create-IsConsistent room_name c fresh = record {
    users_once = c.users_once;
    rooms_once = (no_room c fresh, c.rooms_once);
    members_once =
        λ r. subst IsNodup (sym (members-after_create room_name r)) (members_once_after c fresh r);
    messages_once = c.messages_once;
    members_housed =
        λ r none_there. members-after_create room_name r ∙ ground (arith, c.members_housed r);
    messages_housed = All-later (founded room_name) db.rooms db.room_messages c.messages_housed;
    inhabited =
        λ r there. ap is_empty (members-after_create room_name r) ∙ inhabited_after c fresh r there;
  }

  create_keeps_named :
      (answered : Result String)
      → normalize_room_name name ≡ answered
      → IsConsistent db
      → IsConsistent (call (create ctx creator name ids) db).1
  unfolding call
  create_keeps_named panic named c = rw (create_panics named) c
  create_keeps_named (err e) named c = rw (create_refuses_name e named) c
  create_keeps_named (ok room_name) named c =
      elim (Bool-cases (all (λ u. has_user u db) (creator ∷ ids))) [
        | inr unknown ↦ rw (create_refuses_users room_name c named unknown) c
        | inl users ↦ elim (Option-cases (room_of ctx.new_id db)) [
          | inr (room, taken) ↦ rw (create_refuses_id room_name room c named users taken) c
          | inl fresh ↦
              let (d, ran) = create_runs c fresh room_name named users in
              rw ran (after_create-IsConsistent room_name c fresh)
        ]
      ]

  pub create-IsConsistent : IsConsistent db → IsConsistent (call (create ctx creator name ids) db).1
  create-IsConsistent = create_keeps_named (normalize_room_name name) refl
