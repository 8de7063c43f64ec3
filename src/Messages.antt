-- ===== src/Messages.antt =====
-- src/services/message_service.rs: conversations of two users, what of them is read, and what is not.
pub mod Reading
pub mod Unread
pub mod Hidden
mod Tests
use mathlib.Core.Option
use sync_server.Prelude.{
  ℕ, zero, suc, String, Bool, true, false, not, ◌&&◌, ◌||◌, Option, none, some, List, [], ◌∷◌, ◌==◌,
  filter, map, length, if◌then◌else◌, min,
}
use sync_server.Prelude.Sets.{contains}
use sync_server.Errors.{AppError, Result, ok, err, panic}
use sync_server.Store.{
  Database, Context, Action, Message, row_of, update_where, pure, gets, modify, ◌>>=◌, ◌>>◌,
}
use sync_server.Paging.{is_before, page}
use sync_server.Guild.Actions.{insert_message_conn}
use sync_server.Moderation.Types.{UserBlock}
use sync_server.Moderation.Blocks.{is_block_active_between, is_between, is_kept}

unfoldable pub send_message : Context → ℕ → ℕ → String → Action Message
send_message ctx sender recipient body = insert_message_conn ctx sender recipient body

-- The messages of two users to each other that are not deleted.
unfoldable pub conversation : ℕ → ℕ → Database → List Message
conversation user_a user_b db =
    filter (λ m. is_between user_a user_b m && is_kept m.deleted_at) db.messages

-- A cursor may be any message that is there.
unfoldable pub preceding : Option ℕ → List Message → Database → Result (List Message)
preceding none rows db = ok rows
preceding (some cursor_id) rows db = elim (row_of Message.id cursor_id db.messages) [
  | none ↦ err AppError.not_found
  | some cursor ↦ ok (filter (is_before Message.created_at Message.id cursor) rows)
]

unfoldable pub get_conversation : ℕ → ℕ → Option ℕ → ℕ → Action (List Message)
get_conversation user_a user_b before_id limit db =
    if is_block_active_between user_a user_b db
    then (ok [], db)
    else (do
      rows ← (λ db. (preceding before_id (conversation user_a user_b db) db, db))
      pure (page Message.created_at Message.id (min limit 100) rows))
        db

-- Sent by the partner to the viewer, and not read. A deleted message can be unread.
abbrev pub is_unread_from : ℕ → ℕ → Message → Bool
is_unread_from partner viewer m =
    m.sender_id == partner && m.recipient_id == viewer && is_kept m.read_at

unfoldable pub set_delivered : ℕ → ℕ → ℕ → Action (Unit {0})
set_delivered partner viewer now = modify (λ db. record db {
  messages =
      update_where (λ m. is_unread_from partner viewer m && is_kept m.delivered_at)
        (λ m. record m { delivered_at = some now }) db.messages;
})

unfoldable pub set_read : ℕ → ℕ → ℕ → Action (Unit {0})
set_read partner viewer now = modify (λ db. record db {
  messages =
      update_where (is_unread_from partner viewer) (λ m. record m { read_at = some now })
        db.messages;
})

unfoldable pub mark_read : Context → ℕ → ℕ → Action ℕ
mark_read ctx viewer partner db =
    if is_block_active_between viewer partner db
    then (ok 0, db)
    else (do
      set_delivered partner viewer ctx.now
      count ← gets (λ db. length (filter (is_unread_from partner viewer) db.messages))
      set_read partner viewer ctx.now
      pure count)
        db

unfoldable pub blocked_partner_ids_conn : ℕ → Database → List ℕ
blocked_partner_ids_conn viewer db =
    map
      (λ block.
        if block.blocker_user_id == viewer then block.blocked_user_id else block.blocker_user_id)
      (filter (λ block. block.blocker_user_id == viewer || block.blocked_user_id == viewer)
        db.blocks)

-- `*counts.entry(sender).or_insert(0) += 1`
unfoldable pub add_one : ℕ → List (ℕ × ℕ) → List (ℕ × ℕ)
add_one sender [] = (sender, 1) ∷ []
add_one sender ((other, n) ∷ counts) =
    if other == sender then (other, suc n) ∷ counts else (other, n) ∷ add_one sender counts

unfoldable pub count_each : List ℕ → List (ℕ × ℕ) → List (ℕ × ℕ)
count_each [] counts = counts
count_each (sender ∷ rows) counts = count_each rows (add_one sender counts)

-- What the viewer has not read, and may see.
unfoldable pub is_pending : ℕ → List ℕ → Message → Bool
is_pending viewer blocked m =
    m.recipient_id == viewer
    && is_kept m.read_at
    && is_kept m.deleted_at
    && not (contains m.sender_id blocked)

unfoldable pub unread_counts : ℕ → Database → List (ℕ × ℕ)
unread_counts viewer db =
    count_each
      (map Message.sender_id
        (filter (is_pending viewer (blocked_partner_ids_conn viewer db)) db.messages))
      []
