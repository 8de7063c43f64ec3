-- ===== src/Rooms/Tests.antt =====
-- A small server with two rooms, on which the theorems on rooms are applied.
use sync_server.Prelude.{
  ℕ, ◌≡◌, ◌<◌, refl, String, true, false, none, some, List, [], ◌∷◌, All, arith, take, drop, last?,
  min,
}
use sync_server.Prelude.Text.{trim, clean}
use sync_server.Prelude.Order.{sort_by}
use sync_server.Prelude.Sets.{contains, IsNodup}
use sync_server.Errors.{ok}
use sync_server.Store.{Database, has_user, row_of}
use sync_server.Guild.Tests.{ctx, db}
use sync_server.Paging.{page, newest}
use sync_server.Rooms.Types.{Room, RoomMember, RoomMessage}
use sync_server.Rooms.Views.{room_of, membership_of, is_visible, visible_messages}
use sync_server.Rooms.Talk.{get_room_messages, send_room_message, mark_room_read, check_content}
use sync_server.Rooms.Rows.{members_of}
use sync_server.Rooms.Spec.{RoomCall, create, remove, leave, delete, view}
use sync_server.Rooms.Consistent.{IsConsistent, has_room}
use sync_server.Rooms.Runs.{run, spec_run, runs_refine, leave_all, all_well, everyone_leaves}
use sync_server.Rooms.Reading.{all_messages, IsShown, first_page, page_shows, pages_follow}
use sync_server.Rooms.Sending.{sent_is_seen}
use sync_server.Rooms.Steps.{here, next, sends, marks, Reach-IsConsistent}
use sync_server.Moderation.Blocks.{is_user_blocked, list_blocked_user_ids_conn}
use sync_server.Moderation.Text.{
  ensure_text_is_allowed, detect_blocked_term, has_term, contains_text, tokens, split_tokens,
  extend_token,
}

abbrev room : Room
room = record { id = 10; name = "Tea"; created_by = 1; created_at = 5; updated_at = 5 }

abbrev member : ℕ → String → RoomMember
member user role = record {
  room_id = 10;
  user_id = user;
  role = role;
  joined_at = 5;
  last_read_at = some 5;
}

abbrev message : ℕ → ℕ → ℕ → RoomMessage
message id sender at = record {
  id = id;
  room_id = 10;
  sender_id = sender;
  content = "hello";
  deleted_at = none;
  created_at = at;
}

-- Users 1 and 2 are members, user 3 is not.
abbrev tables : Database
tables = record db {
  rooms = room ∷ [];
  room_members = member 1 "owner" ∷ member 2 "member" ∷ [];
  room_messages = message 31 1 30 ∷ message 30 2 20 ∷ message 29 1 10 ∷ [];
}

housed : (r : ℕ) → has_room r tables.rooms ≡ false → members_of r tables ≡ []
unfolding members_of
housed r missing = ground arith

inhabited : (r : ℕ) → has_room r tables.rooms ≡ true → (members_of r tables) ≡ 1 ∷ 2 ∷ []
unfolding members_of
inhabited r there = ground arith

members_once : (r : ℕ) → IsNodup (members_of r tables)
unfolding members_of
members_once r = ground arith

tables-IsConsistent : IsConsistent tables
tables-IsConsistent = record {
  users_once = ground arith;
  rooms_once = ground arith;
  members_once = members_once;
  messages_once = ground arith;
  members_housed = housed;
  messages_housed = ground arith;
  inhabited = λ r there. ground (arith, inhabited r there);
}

is_there : room_of 10 tables ≡ some room
unfolding room_of
is_there = refl

first_member : membership_of 10 1 tables ≡ some (member 1 "owner")
unfolding membership_of
first_member = refl

second_member : membership_of 10 2 tables ≡ some (member 2 "member")
unfolding membership_of
second_member = refl

abbrev session : List RoomCall
session = create ctx 3 "Coffee" (1 ∷ []) ∷ leave 10 2 ∷ remove ctx 10 1 1 ∷ delete 10 1 ∷ []

runs_refine_example :
    ((run session tables).0 ≡ (spec_run session (view tables)).0)
    × (view (run session tables).1 ≡ (spec_run session (view tables)).1)
runs_refine_example = runs_refine session tables tables-IsConsistent

both_leave : (a : ℕ) → contains a (members_of 10 tables) ≡ contains a (2 ∷ 1 ∷ [])
unfolding members_of
both_leave a = ground arith

two_once : IsNodup (2 ∷ 1 ∷ [])
two_once = ground arith

everyone_leaves_example :
    ((run (leave_all 10 (2 ∷ 1 ∷ [])) tables).0 ≡ all_well (2 ∷ 1 ∷ []))
    × (room_of 10 (run (leave_all 10 (2 ∷ 1 ∷ [])) tables).1 ≡ none)
everyone_leaves_example =
    everyone_leaves 10 2 (1 ∷ []) room tables tables-IsConsistent is_there two_once both_leave

Reach-IsConsistent_example :
    IsConsistent (mark_room_read ctx 10 2 (send_room_message ctx 10 1 "tea?" tables).1).1
Reach-IsConsistent_example =
    Reach-IsConsistent tables-IsConsistent
      (next (next here (sends ctx 10 1 "tea?" refl)) (marks ctx 10 2 refl))

two_newest : (get_room_messages 10 2 none 2 tables).0 ≡ ok (take 2 (all_messages 10 2 tables))
unfolding page newest
two_newest = λ i. (first_page 10 2 tables (member 2 "member") room 2 second_member is_there i).0

page_shows_example : All (IsShown 10 2 tables) (take 2 (all_messages 10 2 tables))
page_shows_example = page_shows 10 2 tables none 2 (take 2 (all_messages 10 2 tables)) two_newest

second_is_last : last? (take 2 (all_messages 10 2 tables)) ≡ some (message 30 2 20)
unfolding visible_messages page newest sort_by is_visible list_blocked_user_ids_conn
second_is_last = refl

pages_follow_example :
    (get_room_messages 10 2 none 1 tables ≡ (ok (take 1 (all_messages 10 2 tables)), tables))
    × (get_room_messages 10 2 (some 30) 1 tables
        ≡ (ok (take 1 (drop 2 (all_messages 10 2 tables))), tables))
pages_follow_example =
    pages_follow 10 2 tables tables-IsConsistent (member 2 "member") second_member room is_there 1 2
      (message 30 2 20) second_is_last

tea_is_clean : check_content (trim " tea? ") ≡ ok tt
unfolding check_content trim ensure_text_is_allowed detect_blocked_term clean has_term contains_text
    tokens split_tokens extend_token
tea_is_clean = refl

message_is_new : row_of RoomMessage.id ctx.new_id tables.room_messages ≡ none
message_is_new = refl

first_known : has_user 1 tables ≡ true
unfolding has_user
first_known = refl

welcome : is_user_blocked 2 1 tables ≡ false
unfolding is_user_blocked
welcome = refl

long_past : All (λ m. m.created_at < ctx.db_now) tables.room_messages
long_past = ground arith

sent_is_seen_example :
    (m : RoomMessage) × (db' : Database) × (send_room_message ctx 10 1 " tea? " tables
      ≡ (ok m, db'))
    × (m.content ≡ trim " tea? ")
    × (m.sender_id ≡ 1)
    × (get_room_messages 10 2 none 3 db' ≡ (
      ok (m ∷ page RoomMessage.created_at RoomMessage.id (min 2 99) (visible_messages 10 2 tables)),
      db',
    ))
    × IsConsistent db'
sent_is_seen_example =
    sent_is_seen ctx 10 1 2 2 " tea? " tables room (member 1 "owner") (member 2 "member")
      tables-IsConsistent is_there first_member second_member tea_is_clean message_is_new
      first_known welcome long_past
