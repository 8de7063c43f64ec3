-- ===== src/Rooms/Sending.antt =====
-- A message that is sent, and what the members see of it.
use sync_server.Prelude.{
  ℕ, suc, min, ◌<◌, ◌≡◌, refl, sym, ap, subst, ◌∙◌, inl, inr, String, Bool, true, false, none, some,
  List, [], ◌∷◌, arith, map, filter, All, is_empty, if◌then◌else◌, Bool-cases, Option-cases,
}
use sync_server.Prelude.Text.{trim}
use sync_server.Prelude.Sets.{contains, IsNodup}
use sync_server.Paging.{newest_first, page, page-newest}
use sync_server.Errors.{AppError, Result, ok, err, panic}
use sync_server.Store.{
  Database, Context, row_of, update_where, has_user, find?-update_where, row_of-update_row,
}
use sync_server.Rooms.Types.{Room, RoomMember, RoomMessage}
use sync_server.Moderation.Blocks.{list_blocked_user_ids_conn, is_user_blocked}
use sync_server.Rooms.Views.{
  is_membership, room_of, membership_of, ensure_room_member_conn, room_access_error,
  visible_messages, is_visible,
}
use sync_server.Rooms.Members.{touch_room}
use sync_server.Rooms.Talk.{
  message_page, get_room_messages, check_content, insert_room_message, set_last_read,
  send_room_message,
}
use sync_server.Rooms.Rows.{member_ids, members_of, member_ids-update}
use sync_server.Rooms.Consistent.{IsConsistent}
use sync_server.Rooms.Agree.{has_room-row_of}
use sync_server.Rooms.Change.{changed, changed-IsConsistent}
use sync_server.Rooms.Reading.{contains-blocked, first_page}

fresh_id :
    (id : ℕ) (ms : List RoomMessage)
    → row_of RoomMessage.id id ms ≡ none
    → contains id (map RoomMessage.id ms) ≡ false
fresh_id id [] h = refl
fresh_id id (m ∷ ms) h = ground (arith, fresh_id id ms)

one_more : (n : ℕ) → min (suc n) 100 ≡ suc (min n 99)
one_more n = omega arith

module _ (ctx : Context) (r u : ℕ) (body : String) (db : Database) where
  abbrev pub written : RoomMessage
  written = record {
    id = ctx.new_id;
    room_id = r;
    sender_id = u;
    content = trim body;
    deleted_at = none;
    created_at = ctx.db_now;
  }

  abbrev with_message : Database
  with_message = record db { room_messages = written ∷ db.room_messages }

  abbrev touched : Room → Room
  touched room = record room { updated_at = ctx.now }

  abbrev read_rows : List RoomMember
  read_rows =
      update_where (is_membership r u) (λ row. record row { last_read_at = some ctx.now })
        db.room_members

  -- The tables after the message was sent.
  abbrev pub after_send : Database
  after_send = changed touched (λ _. refl) (λ _. refl) r read_rows with_message

  module _ (room : Room) (there : room_of r db ≡ some room) (row : RoomMember)
      (member : membership_of r u db ≡ some row) where
    entered : ensure_room_member_conn r u db ≡ (ok room, db)
    unfolding ensure_room_member_conn
    entered = ground arith

    insert_runs :
        row_of RoomMessage.id ctx.new_id db.room_messages ≡ none
        → has_user u db ≡ true
        → insert_room_message ctx r u (trim body) db ≡ (ok written, with_message)
    unfolding insert_room_message
    insert_runs fresh user = rw (fresh, there, user) refl

    send_runs :
        check_content (trim body) ≡ ok tt
        → row_of RoomMessage.id ctx.new_id db.room_messages ≡ none
        → has_user u db ≡ true
        → send_room_message ctx r u body db ≡ (ok written, after_send)
    unfolding send_room_message touch_room set_last_read
    send_runs clean fresh user = ground (arith, entered, insert_runs fresh user)

    send_refused :
        (e : AppError)
        → check_content (trim body) ≡ err e
        → send_room_message ctx r u body db ≡ (err e, db)
    unfolding send_room_message
    send_refused e refused = ground (arith, entered)

    with_message-IsConsistent :
        IsConsistent db
        → row_of RoomMessage.id ctx.new_id db.room_messages ≡ none
        → IsConsistent with_message
    unfolding room_of members_of
    with_message-IsConsistent c fresh = record {
      users_once = c.users_once;
      rooms_once = c.rooms_once;
      members_once = c.members_once;
      messages_once = (fresh_id ctx.new_id db.room_messages fresh, c.messages_once);
      members_housed = c.members_housed;
      messages_housed = (ground (arith, has_room-row_of r db.rooms), c.messages_housed);
      inhabited = c.inhabited;
    }

    after_send-IsConsistent :
        IsConsistent db
        → row_of RoomMessage.id ctx.new_id db.room_messages ≡ none
        → IsConsistent after_send
    unfolding members_of
    after_send-IsConsistent c fresh =
        let v = with_message-IsConsistent c fresh in
        changed-IsConsistent touched (λ _. refl) (λ _. refl) r read_rows with_message v
          (λ q. subst IsNodup (sym (same q)) (c.members_once q))
          (λ q missing. same q ∙ c.members_housed q missing)
          (λ q is_there. ap is_empty (same q) ∙ c.inhabited q is_there)
      where
        same : (q : ℕ) → member_ids q read_rows ≡ member_ids q db.room_members
        same q =
            member_ids-update (is_membership r u)
              (λ row. record row { last_read_at = some ctx.now }) q db.room_members (λ _. refl)
              (λ _. refl)

  -- What another member sees afterwards.
  module _ (w : ℕ) where
    membership_stays :
        (row : RoomMember)
        → membership_of r w db ≡ some row
        → (row' : RoomMember) × (membership_of r w after_send ≡ some row')
    unfolding membership_of
    membership_stays row member = (
      choose row,
      find?-update_where (is_membership r w) (is_membership r u)
            (λ row. record row { last_read_at = some ctx.now }) db.room_members (λ _. refl)
          ∙ ground (arith, member),
    )
      where
        choose : RoomMember → RoomMember
        choose row =
            if is_membership r u row then record row { last_read_at = some ctx.now } else row

    room_stays :
        (room : Room)
        → room_of r db ≡ some room
        → (room' : Room) × (room_of r after_send ≡ some room')
    unfolding room_of
    room_stays room there = (
      touched room,
      row_of-update_row Room.id r r touched db.rooms (λ _. refl) ∙ ground (arith, there),
    )

    message_is_visible :
        is_user_blocked w u db ≡ false
        → visible_messages r w after_send ≡ written ∷ visible_messages r w db
    unfolding visible_messages is_visible list_blocked_user_ids_conn
    message_is_visible welcome = ground (arith, contains-blocked w u db)

    newest_of_rest :
        (ms : List RoomMessage) (p : RoomMessage → Bool)
        → All (λ m. m.created_at < ctx.db_now) ms
        → All
            (λ m. newest_first RoomMessage.created_at RoomMessage.id written m ≡ true)
            (filter p ms)
    newest_of_rest [] p h = tt
    newest_of_rest (m ∷ ms) p h = elim (Bool-cases (p m)) [
      | inl kept ↦ rw kept (ground arith, newest_of_rest ms p h.1)
      | inr lost ↦ rw lost (newest_of_rest ms p h.1)
    ]

    visible_past :
        All (λ m. m.created_at < ctx.db_now) db.room_messages
        → All
            (λ m. newest_first RoomMessage.created_at RoomMessage.id written m ≡ true)
            (visible_messages r w db)
    unfolding visible_messages
    visible_past past = newest_of_rest db.room_messages _ past

    heads_page :
        (n : ℕ)
        → is_user_blocked w u db ≡ false
        → All (λ m. m.created_at < ctx.db_now) db.room_messages
        → message_page (suc n) (visible_messages r w after_send)
          ≡ written
            ∷ page RoomMessage.created_at RoomMessage.id (min n 99) (visible_messages r w db)
    heads_page n welcome past =
        ap (message_page (suc n)) (message_is_visible welcome)
        ∙ ap
            (λ (k : ℕ).
              page RoomMessage.created_at RoomMessage.id k (written ∷ visible_messages r w db))
            (one_more n)
        ∙ page-newest RoomMessage.created_at RoomMessage.id (min n 99) written
            (visible_messages r w db) (visible_past past)

-- A member of a room sends a message of allowed content under a new identifier: it is stored, trimmed,
-- and heads the first page of every member who has not blocked the sender, before what that page had.
-- It holds where the tables are consistent and no message is as late as the database's clock.
pub sent_is_seen :
    (ctx : Context) (r u w n : ℕ) (body : String) (db : Database) (room : Room)
    (row viewer : RoomMember)
    → IsConsistent db
    → room_of r db ≡ some room
    → membership_of r u db ≡ some row
    → membership_of r w db ≡ some viewer
    → check_content (trim body) ≡ ok tt
    → row_of RoomMessage.id ctx.new_id db.room_messages ≡ none
    → has_user u db ≡ true
    → is_user_blocked w u db ≡ false
    → All (λ m. m.created_at < ctx.db_now) db.room_messages
    → (m : RoomMessage) × (db' : Database) × (send_room_message ctx r u body db ≡ (ok m, db'))
      × (m.content ≡ trim body)
      × (m.sender_id ≡ u)
      × (get_room_messages r w none (suc n) db' ≡ (
        ok (m ∷ page RoomMessage.created_at RoomMessage.id (min n 99) (visible_messages r w db)),
        db',
      ))
      × IsConsistent db'
sent_is_seen ctx r u w n body db room row viewer c there member watching clean fresh user welcome
      past =
    let (viewer', stays) = membership_stays ctx r u body db w viewer watching in
    let (room', still) = room_stays ctx r u body db w room there in
    (
      written ctx r u body db,
      after_send ctx r u body db,
      send_runs ctx r u body db room there row member clean fresh user,
      refl,
      refl,
      first_page r w (after_send ctx r u body db) viewer' room' (suc n) stays still
          ∙ ap (λ (rows : List RoomMessage). (ok rows, after_send ctx r u body db))
              (heads_page ctx r u body db w n welcome past),
      after_send-IsConsistent ctx r u body db room there row member c fresh,
    )

send_from_inside :
    (ctx : Context) (r u : ℕ) (body : String) (db : Database) (room : Room) (row : RoomMember)
    (answered : Result (Unit {0}))
    → IsConsistent db
    → room_of r db ≡ some room
    → membership_of r u db ≡ some row
    → check_content (trim body) ≡ answered
    → IsConsistent (send_room_message ctx r u body db).1
unfolding send_room_message insert_room_message
send_from_inside ctx r u body db room row panic c there member checked =
    subst IsConsistent (ground (arith, entered ctx r u body db room there row member)) c
send_from_inside ctx r u body db room row (err e) c there member checked =
    subst IsConsistent (ground (arith, entered ctx r u body db room there row member)) c
send_from_inside ctx r u body db room row (ok _) c there member checked =
    elim (Option-cases (row_of RoomMessage.id ctx.new_id db.room_messages)) [
      | inr (m, taken) ↦
          subst IsConsistent (ground (arith, entered ctx r u body db room there row member)) c
      | inl fresh ↦ elim (Bool-cases (has_user u db)) [
        | inr nobody ↦
            subst IsConsistent (ground (arith, entered ctx r u body db room there row member)) c
        | inl user ↦
            subst IsConsistent
              (ground (arith, send_runs ctx r u body db room there row member checked fresh user))
              (after_send-IsConsistent ctx r u body db room there row member c fresh)
      ]
    ]

send_from_outside :
    (ctx : Context) (r u : ℕ) (body : String) (db : Database)
    → ensure_room_member_conn r u db ≡ (err (room_access_error r db), db)
    → (send_room_message ctx r u body db).1 ≡ db
unfolding send_room_message
send_from_outside ctx r u body db refused = ground arith

outside_room :
    (r u : ℕ) (db : Database)
    → room_of r db ≡ none
    → ensure_room_member_conn r u db ≡ (err (room_access_error r db), db)
unfolding ensure_room_member_conn room_access_error
outside_room r u db missing = ground arith

outside_members :
    (r u : ℕ) (db : Database)
    → membership_of r u db ≡ none
    → ensure_room_member_conn r u db ≡ (err (room_access_error r db), db)
unfolding ensure_room_member_conn room_access_error
outside_members r u db out = ground arith

-- Whatever comes of a message, the tables stay consistent.
pub send-IsConsistent :
    (ctx : Context) (r u : ℕ) (body : String) (db : Database)
    → IsConsistent db
    → IsConsistent (send_room_message ctx r u body db).1
send-IsConsistent ctx r u body db c = elim (Option-cases (room_of r db)) [
  | inl missing ↦
      subst IsConsistent (sym (send_from_outside ctx r u body db (outside_room r u db missing))) c
  | inr (room, there) ↦ elim (Option-cases (membership_of r u db)) [
    | inl out ↦
        subst IsConsistent (sym (send_from_outside ctx r u body db (outside_members r u db out))) c
    | inr (row, member) ↦
        send_from_inside ctx r u body db room row (check_content (trim body)) c there member refl
  ]
]
