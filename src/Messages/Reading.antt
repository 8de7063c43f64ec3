-- ===== src/Messages/Reading.antt =====
-- Reading a conversation page by page.
use sync_server.Prelude.{
  ℕ, min, ◌≡◌, ap, ◌∙◌, false, ◌&&◌, none, some, List, arith, filter, take, drop, last?, map, All,
}
use sync_server.Prelude.Sets.{IsNodup}
use sync_server.Paging.{newest, page, is_before, next_page, last-page}
use sync_server.Errors.{ok}
use sync_server.Store.{
  Database, Message, row_of, keys_of_filter-IsNodup, row_of_self, All-filter_passing,
}
use sync_server.Moderation.Blocks.{is_block_active_between, is_between, is_kept}
use sync_server.Messages.{conversation, preceding, get_conversation}

module _ (a b : ℕ) (db : Database) (free : is_block_active_between a b db ≡ false) where
  abbrev pub all_messages : List Message
  all_messages = newest Message.created_at Message.id (conversation a b db)

  first :
      (limit : ℕ)
      → get_conversation a b none limit db
        ≡ (ok (page Message.created_at Message.id (min limit 100) (conversation a b db)), db)
  unfolding get_conversation preceding
  first limit = ground arith

  before_found :
      (limit : ℕ) (m : Message)
      → row_of Message.id m.id db.messages ≡ some m
      → get_conversation a b (some m.id) limit db ≡ (
        ok (
            page Message.created_at Message.id
              (min limit 100)
              (filter (is_before Message.created_at Message.id m) (conversation a b db))),
        db,
      )
  unfolding get_conversation preceding
  before_found limit m there = ground arith

  abbrev IsHere : Message → Type 0
  IsHere m = row_of Message.id m.id db.messages ≡ some m

  All-IsHere : IsNodup (map Message.id db.messages) → All IsHere (conversation a b db)
  unfolding conversation
  All-IsHere once =
      All-filter_passing IsHere IsHere (λ m. is_between a b m && is_kept m.deleted_at) db.messages
        (λ m kept found. found) (row_of_self Message.id db.messages once)

  conversation_once :
      IsNodup (map Message.id db.messages) → IsNodup (map Message.id (conversation a b db))
  unfolding conversation
  conversation_once once =
      keys_of_filter-IsNodup Message.id (λ m. is_between a b m && is_kept m.deleted_at) db.messages
        once

  -- Two users neither of whom blocks the other read their conversation page by page, where messages
  -- have their identifiers once each. The first page has the newest messages, as many as the limit and
  -- a hundred allow; the page before the n-th message of that order has those that follow it, so that
  -- pages read one after another leave no gap and repeat nothing.
  pub conversation_pages :
      (limit n : ℕ) (m : Message)
      → IsNodup (map Message.id db.messages)
      → last? (take n all_messages) ≡ some m
      → (get_conversation a b none limit db ≡ (ok (take (min limit 100) all_messages), db))
        × (get_conversation a b (some m.id) limit db
            ≡ (ok (take (min limit 100) (drop n all_messages)), db))
  unfolding page
  conversation_pages limit n m once ends = (
    first limit,
    before_found limit m (
          last-page Message.created_at Message.id IsHere n (conversation a b db) (All-IsHere once)
            ends)
        ∙ ap (λ (rows : List Message). (ok rows, db))
            (next_page Message.created_at Message.id n (min limit 100) (conversation a b db) m
              (conversation_once once) ends),
  )
