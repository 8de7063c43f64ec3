-- ===== src/Rooms/Reading.antt =====
-- The pages of a room's messages, and the mark of what was read.
use sync_server.Prelude.{
  ℕ, min, ◌≤◌, ◌≡◌, refl, sym, ap, subst, ◌∙◌, inl, inr, true, false, not, ◌&&◌, Option, none, some,
  List, [], ◌∷◌, arith, ◌==◌, map, any, filter, length, take, drop, last?, is_empty, All,
  Bool-cases, Option-cases,
}
use sync_server.Prelude.Sets.{contains, IsNodup}
use sync_server.Paging.{newest, page, is_before, next_page, last-page, All-page}
use sync_server.Errors.{Result, ok, err, panic, ◌>>=◌, >>=-eq-ok}
use sync_server.Store.{
  Database, Context, row_of, update_where, row_of_self, keys_of_filter-IsNodup, All-filter,
  All-filter_passing, find?-update_where, find?_found,
}
use sync_server.Rooms.Types.{Room, RoomMember, RoomMessage}
use sync_server.Moderation.Types.{UserBlock}
use sync_server.Moderation.Blocks.{list_blocked_user_ids_conn, is_user_blocked}
use sync_server.Rooms.Views.{
  is_membership, room_of, membership_of, ensure_room_member_conn, visible_messages, is_visible,
  room_unread_count_conn, is_after,
}
use sync_server.Rooms.Talk.{
  before_cursor, message_page, get_room_messages, set_last_read, mark_room_read,
}
use sync_server.Rooms.Rows.{member_ids, members_of, member_ids-update}
use sync_server.Rooms.Consistent.{IsConsistent}

pub contains-blocked :
    (viewer sender : ℕ) (db : Database)
    → contains sender (list_blocked_user_ids_conn viewer db) ≡ is_user_blocked viewer sender db
unfolding list_blocked_user_ids_conn is_user_blocked
contains-blocked viewer sender db = blocked db.blocks
  where
    blocked :
        (blocks : List UserBlock)
        → contains sender
            (map UserBlock.blocked_user_id (filter (λ b. b.blocker_user_id == viewer) blocks))
          ≡ any (λ b. b.blocker_user_id == viewer && b.blocked_user_id == sender) blocks
    blocked [] = refl
    blocked (b ∷ bs) = ground (arith, blocked bs)

module _ (r u : ℕ) (db : Database) where
  -- All that the viewer may see of the room, newest first.
  abbrev pub all_messages : List RoomMessage
  all_messages = newest RoomMessage.created_at RoomMessage.id (visible_messages r u db)

  -- A message that the viewer may see.
  abbrev pub IsShown : RoomMessage → Type 0
  IsShown m = (m.room_id ≡ r) × (m.deleted_at ≡ none) × (is_user_blocked u m.sender_id db ≡ false)

  IsShown-of_visible :
      (m : RoomMessage) → is_visible r (list_blocked_user_ids_conn u db) m ≡ true → IsShown m
  unfolding is_visible
  IsShown-of_visible m h = ground (arith, contains-blocked u m.sender_id db)

  All-IsShown : All IsShown (visible_messages r u db)
  unfolding visible_messages
  All-IsShown = shown_rows db.room_messages
    where
      shown_rows :
          (ms : List RoomMessage)
          → All IsShown (filter (is_visible r (list_blocked_user_ids_conn u db)) ms)
      shown_rows [] = tt
      shown_rows (m ∷ ms) = elim (Bool-cases (is_visible r (list_blocked_user_ids_conn u db) m)) [
        | inl seen ↦ rw seen (IsShown-of_visible m seen, shown_rows ms)
        | inr unseen ↦ rw unseen (shown_rows ms)
      ]

  before_cursor_shows :
      (before : Option ℕ) (rows : List RoomMessage)
      → before_cursor r before (visible_messages r u db) db ≡ ok rows
      → All IsShown rows
  unfolding before_cursor
  before_cursor_shows none rows got = subst (All IsShown) (ground arith) All-IsShown
  before_cursor_shows (some id) rows got =
      elim (Option-cases (row_of RoomMessage.id id db.room_messages)) [
        | inl missing ↦ absurd (ground arith)
        | inr (cursor, there) ↦ elim (Bool-cases (cursor.room_id == r)) [
          | inr elsewhere ↦ absurd (ground arith)
          | inl here ↦ subst (All IsShown) (ground arith) (
              All-filter IsShown (is_before RoomMessage.created_at RoomMessage.id cursor)
                (visible_messages r u db) All-IsShown)
        ]
      ]

  -- How a call reads a page, from its two checks on.
  reads :
      (before : Option ℕ) (limit : ℕ) (entry : Result Room) (cursor : Result (List RoomMessage))
      → ensure_room_member_conn r u db ≡ (entry, db)
      → before_cursor r before (visible_messages r u db) db ≡ cursor
      → get_room_messages r u before limit db
        ≡ ((entry >>= λ room. (cursor >>= λ rows. ok (message_page limit rows))), db)
  unfolding get_room_messages
  reads before limit (ok room) (ok rows) entered cut = ground arith
  reads before limit (ok room) (err e) entered cut = ground arith
  reads before limit (ok room) panic entered cut = ground arith
  reads before limit (err e) cursor entered cut = ground arith
  reads before limit panic cursor entered cut = ground arith

  ensure_keeps : (ensure_room_member_conn r u db).1 ≡ db
  unfolding ensure_room_member_conn
  ensure_keeps = ground arith

  -- Whatever page a viewer gets, its messages are of the room, not deleted, and by nobody whom he
  -- blocked.
  pub page_shows :
      (before : Option ℕ) (limit : ℕ) (rows : List RoomMessage)
      → (get_room_messages r u before limit db).0 ≡ ok rows
      → All IsShown rows
  page_shows before limit rows got =
      let entry : Result Room = (ensure_room_member_conn r u db).0 in
      let cursor : Result (List RoomMessage) =
        before_cursor r before (visible_messages r u db) db in
      let run = reads before limit entry cursor (λ i. (entry, ensure_keeps i)) refl in
      let (room, entered, rest) = >>=-eq-ok entry _ (sym (ap (λ p. p.0) run) ∙ got) in
      let (left, cut, done) = >>=-eq-ok cursor _ rest in
      subst (All IsShown) (ground arith) (
        All-page RoomMessage.created_at RoomMessage.id IsShown (min limit 100) left
          (before_cursor_shows before left cut))

  no_cursor : before_cursor r none (visible_messages r u db) db ≡ ok (visible_messages r u db)
  unfolding before_cursor
  no_cursor = refl

  pub first_page :
      (row : RoomMember) (room : Room) (limit : ℕ)
      → membership_of r u db ≡ some row
      → room_of r db ≡ some room
      → get_room_messages r u none limit db
        ≡ (ok (message_page limit (visible_messages r u db)), db)
  unfolding ensure_room_member_conn
  first_page row room limit member there =
      reads none limit (ok room) (ok (visible_messages r u db)) (ground arith) no_cursor

  module _ (c : IsConsistent db) (row : RoomMember) (member : membership_of r u db ≡ some row)
      (room : Room) (there : room_of r db ≡ some room) where
    entered : ensure_room_member_conn r u db ≡ (ok room, db)
    unfolding ensure_room_member_conn
    entered = ground arith

    abbrev IsHere : RoomMessage → Type 0
    IsHere m = (row_of RoomMessage.id m.id db.room_messages ≡ some m) × (m.room_id ≡ r)

    All-IsHere : All IsHere (visible_messages r u db)
    unfolding visible_messages
    All-IsHere =
        All-filter_passing (λ m. row_of RoomMessage.id m.id db.room_messages ≡ some m) IsHere
          (is_visible r (list_blocked_user_ids_conn u db)) db.room_messages
          (λ m seen found. (found, (IsShown-of_visible m seen).0))
          (row_of_self RoomMessage.id db.room_messages c.messages_once)

    visible_once : IsNodup (map RoomMessage.id (visible_messages r u db))
    unfolding visible_messages
    visible_once =
        keys_of_filter-IsNodup RoomMessage.id (is_visible r (list_blocked_user_ids_conn u db))
          db.room_messages c.messages_once

    cursor_found :
        (m : RoomMessage)
        → IsHere m
        → before_cursor r (some m.id) (visible_messages r u db) db
          ≡ ok
              (filter (is_before RoomMessage.created_at RoomMessage.id m) (visible_messages r u db))
    unfolding before_cursor
    cursor_found m here = ground arith

    -- A member of a room of consistent tables reads its messages page by page. The first page has the
    -- newest messages that he may see, as many as the limit and a hundred allow. The page before the
    -- n-th message of that order has the messages that follow it, as many as allowed, so that pages
    -- read one after another leave no gap and repeat nothing.
    pub pages_follow :
        (limit n : ℕ) (m : RoomMessage)
        → last? (take n all_messages) ≡ some m
        → (get_room_messages r u none limit db ≡ (ok (take (min limit 100) all_messages), db))
          × (get_room_messages r u (some m.id) limit db
              ≡ (ok (take (min limit 100) (drop n all_messages)), db))
    unfolding page
    pages_follow limit n m ends = (
      reads none limit (ok room) (ok (visible_messages r u db)) entered no_cursor,
      reads (some m.id) limit (ok room) _ entered (
            cursor_found m (
              last-page RoomMessage.created_at RoomMessage.id IsHere n (visible_messages r u db)
                All-IsHere ends))
          ∙ ap (λ (rows : List RoomMessage). (ok rows, db))
              (next_page RoomMessage.created_at RoomMessage.id n (min limit 100)
                (visible_messages r u db) m visible_once ends),
    )

-- The marks of a member after he has read.
read_at : ℕ → RoomMember → RoomMember
read_at now row = record row { last_read_at = some now }

module _ (ctx : Context) (r u : ℕ) (db : Database) (row : RoomMember)
    (member : membership_of r u db ≡ some row) where
  abbrev after_read : Database
  after_read = record db {
    room_members = update_where (is_membership r u) (read_at ctx.now) db.room_members;
  }

  mark_runs :
      mark_room_read ctx r u db ≡ (ok (room_unread_count_conn r u row.last_read_at db), after_read)
  unfolding mark_room_read set_last_read read_at
  mark_runs = ground arith

  marked : membership_of r u after_read ≡ some (read_at ctx.now row)
  unfolding membership_of read_at
  marked =
      find?-update_where (is_membership r u) (is_membership r u) (read_at ctx.now) db.room_members
        (λ _. refl)
      ∙ ground (arith, find?_found (is_membership r u) db.room_members row member)

  nothing_after :
      (ms : List RoomMessage)
      → All (λ m. m.created_at ≤ ctx.now) ms
      → length (
          filter
            (λ m. not (m.sender_id == u) && is_after (some ctx.now) m.created_at)
            (filter (is_visible r (list_blocked_user_ids_conn u db)) ms))
        ≡ 0
  nothing_after [] h = refl
  nothing_after (m ∷ ms) h = ground (arith, nothing_after ms h.1)

  -- A member who marks a room as read is told how many messages were unread, and then has none unread,
  -- where no message of the tables is later than the server's clock.
  mark-unread :
      All (λ m. m.created_at ≤ ctx.now) db.room_messages
      → (db' : Database) × (row' : RoomMember) × (mark_room_read ctx r u db
          ≡ (ok (room_unread_count_conn r u row.last_read_at db), db'))
        × (membership_of r u db' ≡ some row')
        × (room_unread_count_conn r u row'.last_read_at db' ≡ 0)
  unfolding room_unread_count_conn visible_messages read_at list_blocked_user_ids_conn
  mark-unread past =
      (after_read, read_at ctx.now row, mark_runs, marked, nothing_after db.room_messages past)

mark_from_outside :
    (ctx : Context) (r u : ℕ) (db : Database)
    → membership_of r u db ≡ none
    → (mark_room_read ctx r u db).1 ≡ db
unfolding mark_room_read
mark_from_outside ctx r u db out = ground arith

after_read-IsConsistent :
    (ctx : Context) (r u : ℕ) (db : Database) (row : RoomMember)
    (member : membership_of r u db ≡ some row)
    → IsConsistent db
    → IsConsistent (after_read ctx r u db row member)
unfolding members_of read_at
after_read-IsConsistent ctx r u db row member c = record {
  users_once = c.users_once;
  rooms_once = c.rooms_once;
  members_once = λ q. subst IsNodup (sym (same q)) (c.members_once q);
  messages_once = c.messages_once;
  members_housed = λ q missing. same q ∙ c.members_housed q missing;
  messages_housed = c.messages_housed;
  inhabited = λ q there. ap is_empty (same q) ∙ c.inhabited q there;
}
  where
    same :
        (q : ℕ)
        → member_ids q (update_where (is_membership r u) (read_at ctx.now) db.room_members)
          ≡ member_ids q db.room_members
    same q =
        member_ids-update (is_membership r u) (read_at ctx.now) q db.room_members (λ _. refl)
          (λ _. refl)

pub mark-IsConsistent :
    (ctx : Context) (r u : ℕ) (db : Database)
    → IsConsistent db
    → IsConsistent (mark_room_read ctx r u db).1
mark-IsConsistent ctx r u db c = elim (Option-cases (membership_of r u db)) [
  | inl out ↦ subst IsConsistent (sym (mark_from_outside ctx r u db out)) c
  | inr (row, member) ↦
      subst IsConsistent (sym (ap (λ p. p.1) (mark_runs ctx r u db row member)))
        (after_read-IsConsistent ctx r u db row member c)
]
