-- ===== src/Messages/Hidden.antt =====
-- What a block hides of two users from each other.
use sync_server.Prelude.{ℕ, ◌≡◌, true, Option, [], arith}
use sync_server.Errors.{ok}
use sync_server.Store.{Database, Context}
use sync_server.Moderation.Blocks.{is_block_active_between, is_user_blocked}
use sync_server.Moderation.Messaging.{is_block_active_between_lem}
use sync_server.Messages.{get_conversation, mark_read, unread_counts}
use sync_server.Messages.Unread.{count_of, unread_counts_lem}

module _ (a b : ℕ) (db : Database) where
  hidden_between :
      is_block_active_between a b db ≡ true
      → (ctx : Context) (before : Option ℕ) (limit : ℕ)
      → (get_conversation a b before limit db ≡ (ok [], db))
        × (mark_read ctx a b db ≡ (ok 0, db))
        × (count_of b (unread_counts a db) ≡ 0)
  unfolding get_conversation mark_read
  hidden_between blocks ctx before limit =
      (ground arith, ground arith, ground (arith, unread_counts_lem a b db))

-- While one user blocks another, each of the two finds the conversation empty, whatever the cursor and
-- the limit, has nothing unread from the other, and marks nothing as read.
pub block_hides :
    (a b : ℕ) (db : Database) (ctx : Context) (before : Option ℕ) (limit : ℕ)
    → is_user_blocked a b db ≡ true
    → ((get_conversation a b before limit db ≡ (ok [], db))
        × (mark_read ctx a b db ≡ (ok 0, db))
        × (count_of b (unread_counts a db) ≡ 0))
      × ((get_conversation b a before limit db ≡ (ok [], db))
          × (mark_read ctx b a db ≡ (ok 0, db))
          × (count_of a (unread_counts b db) ≡ 0))
block_hides a b db ctx before limit blocks = (
  hidden_between a b db (ground (arith, is_block_active_between_lem a b db)) ctx before limit,
  hidden_between b a db (ground (arith, is_block_active_between_lem b a db)) ctx before limit,
)
