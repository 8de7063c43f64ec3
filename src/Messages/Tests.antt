-- ===== src/Messages/Tests.antt =====
-- A small conversation, on which the theorems on messages are applied.
use sync_server.Prelude.{
  ℕ, ◌≡◌, refl, true, false, none, some, [], ◌∷◌, ◌==◌, arith, if◌then◌else◌, length, filter, take,
  drop, last?, map,
}
use sync_server.Prelude.Sets.{IsNodup}
use sync_server.Prelude.Order.{sort_by}
use sync_server.Errors.{ok}
use sync_server.Store.{Database, Context, Message}
use sync_server.Guild.Tests.{ctx, db}
use sync_server.Paging.{page, newest}
use sync_server.Moderation.Blocks.{is_block_active_between, is_user_blocked}
use sync_server.Messages.{conversation, get_conversation, is_unread_from, mark_read, unread_counts}
use sync_server.Messages.Reading.{all_messages, conversation_pages}
use sync_server.Messages.Unread.{count_of, waiting, unread_counts_lem, mark_read_lem}
use sync_server.Messages.Hidden.{block_hides}

abbrev message : ℕ → ℕ → ℕ → ℕ → Message
message id sender recipient at = record {
  id = id;
  sender_id = sender;
  recipient_id = recipient;
  content = "hello";
  delivered_at = none;
  read_at = none;
  deleted_at = none;
  created_at = at;
}

abbrev tables : Database
tables = record db {
  messages = message 31 1 2 30 ∷ message 30 2 1 20 ∷ message 29 3 1 20 ∷ message 28 1 2 10 ∷ [];
}

abbrev later : Context
later = record ctx { now = 1_728_003_700_000_000 }

free : is_block_active_between 1 2 tables ≡ false
unfolding is_block_active_between
free = refl

ids_once : IsNodup (map Message.id tables.messages)
ids_once = ground arith

second_is_last : last? (take 2 (all_messages 1 2 tables free)) ≡ some (message 30 2 1 20)
unfolding conversation page newest sort_by
second_is_last = refl

conversation_pages_example :
    (get_conversation 1 2 none 2 tables ≡ (ok (take 2 (all_messages 1 2 tables free)), tables))
    × (get_conversation 1 2 (some 30) 2 tables
        ≡ (ok (take 2 (drop 2 (all_messages 1 2 tables free))), tables))
conversation_pages_example =
    conversation_pages 1 2 tables free 2 2 (message 30 2 1 20) ids_once second_is_last

unread_counts_lem_example :
    count_of 3 (unread_counts 1 tables)
    ≡ (if is_block_active_between 1 3 tables then 0 else waiting 3 1 tables.messages)
unread_counts_lem_example = unread_counts_lem 1 3 tables

mark_read_lem_example :
    (db' : Database) × (mark_read ctx 1 2 tables
      ≡ (ok (length (filter (is_unread_from 2 1) tables.messages)), db'))
    × ((p : ℕ)
        → count_of p (unread_counts 1 db')
          ≡ (if p == 2 then 0 else count_of p (unread_counts 1 tables)))
    × (mark_read later 1 2 db' ≡ (ok 0, db'))
mark_read_lem_example = mark_read_lem ctx later 1 2 tables free

abbrev blocking : Database
blocking = record tables {
  blocks =
      record {
        blocker_user_id = 2;
        blocked_user_id = 1;
        report_id = none;
        reason_code = none;
        reporter_note = none;
        created_at = 10;
      }
      ∷ [];
}

blocks_first : is_user_blocked 2 1 blocking ≡ true
unfolding is_user_blocked
blocks_first = refl

block_hides_example :
    ((get_conversation 2 1 none 5 blocking ≡ (ok [], blocking))
      × (mark_read ctx 2 1 blocking ≡ (ok 0, blocking))
      × (count_of 1 (unread_counts 2 blocking) ≡ 0))
    × ((get_conversation 1 2 none 5 blocking ≡ (ok [], blocking))
        × (mark_read ctx 1 2 blocking ≡ (ok 0, blocking))
        × (count_of 2 (unread_counts 1 blocking) ≡ 0))
block_hides_example = block_hides 2 1 blocking ctx none 5 blocks_first
