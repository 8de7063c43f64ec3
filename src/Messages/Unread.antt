-- ===== src/Messages/Unread.antt =====
-- `unread_counts` against a plain count of rows, and what `mark_read` does to it.
use sync_server.Prelude.{
  ℕ, suc, ◌+◌, ◌≡◌, refl, ◌∙◌, inl, inr, false, ◌&&◌, ◌||◌, some, List, [], ◌∷◌, arith, ◌==◌, any,
  filter, map, length, if◌then◌else◌, Bool-cases,
}
use sync_server.Prelude.Sets.{contains}
use sync_server.Errors.{ok}
use sync_server.Store.{Database, Context, Message, update_where}
use sync_server.Moderation.Types.{UserBlock}
use sync_server.Moderation.Blocks.{is_block_active_between, is_block_of, is_kept}
use sync_server.Messages.{
  is_unread_from, set_delivered, set_read, mark_read, blocked_partner_ids_conn, add_one, count_each,
  is_pending, unread_counts,
}

-- The number that the counts have for a sender; a sender without an entry has none.
unfoldable pub count_of : ℕ → List (ℕ × ℕ) → ℕ
count_of p [] = 0
count_of p ((q, n) ∷ counts) = if q == p then n else count_of p counts

occurrences : ℕ → List ℕ → ℕ
occurrences p [] = 0
occurrences p (q ∷ rows) = if q == p then suc (occurrences p rows) else occurrences p rows

count_of-add_one :
    (p q : ℕ) (counts : List (ℕ × ℕ))
    → count_of p (add_one q counts)
      ≡ (if q == p then suc (count_of p counts) else count_of p counts)
unfolding count_of add_one
count_of-add_one p q [] = ground arith
count_of-add_one p q ((r, n) ∷ counts) = ground (arith, count_of-add_one p q counts)

count_of-count_each :
    (p : ℕ) (rows : List ℕ) (counts : List (ℕ × ℕ))
    → count_of p (count_each rows counts) ≡ occurrences p rows + count_of p counts
unfolding count_each occurrences
count_of-count_each p [] counts = ground arith
count_of-count_each p (q ∷ rows) counts =
    ground (arith, count_of-count_each p rows (add_one q counts), count_of-add_one p q counts)

-- A partner is left out exactly while one of the two blocks the other.
contains-blocked_partner_ids_conn :
    (p viewer : ℕ) (db : Database)
    → contains p (blocked_partner_ids_conn viewer db) ≡ is_block_active_between viewer p db
unfolding blocked_partner_ids_conn is_block_active_between
contains-blocked_partner_ids_conn p viewer db = partners db.blocks
  where
    partners :
        (blocks : List UserBlock)
        → contains p (
            map
              (λ block.
                if block.blocker_user_id == viewer
                then block.blocked_user_id
                else block.blocker_user_id)
              (filter
                (λ block. block.blocker_user_id == viewer || block.blocked_user_id == viewer)
                blocks))
          ≡ any (λ block. is_block_of viewer p block || is_block_of p viewer block) blocks
    partners [] = refl
    partners (b ∷ bs) = ground (arith, partners bs)

-- The messages from a partner that wait for the viewer.
abbrev pub waiting : ℕ → ℕ → List Message → ℕ
waiting p viewer messages =
    length (filter (λ m. is_unread_from p viewer m && is_kept m.deleted_at) messages)

occurrences_of_pending :
    (p viewer : ℕ) (blocked : List ℕ) (messages : List Message)
    → occurrences p (map Message.sender_id (filter (is_pending viewer blocked) messages))
      ≡ (if contains p blocked then 0 else waiting p viewer messages)
unfolding occurrences is_pending
occurrences_of_pending p viewer blocked [] = ground arith
occurrences_of_pending p viewer blocked (m ∷ ms) =
    ground (arith, occurrences_of_pending p viewer blocked ms)

-- For each partner the viewer is told how many messages from him are neither read nor deleted, and
-- none while one of the two blocks the other.
pub unread_counts_lem :
    (viewer p : ℕ) (db : Database)
    → count_of p (unread_counts viewer db)
      ≡ (if is_block_active_between viewer p db then 0 else waiting p viewer db.messages)
unfolding unread_counts count_of
unread_counts_lem viewer p db =
    count_of-count_each p
      (map Message.sender_id
        (filter (is_pending viewer (blocked_partner_ids_conn viewer db)) db.messages))
      []
    ∙ ground (
      arith,
      occurrences_of_pending p viewer (blocked_partner_ids_conn viewer db) db.messages,
      contains-blocked_partner_ids_conn p viewer db,
    )

-- The rows after the two updates.
abbrev pub marked : ℕ → ℕ → ℕ → List Message → List Message
marked now partner viewer messages =
    update_where (is_unread_from partner viewer) (λ m. record m { read_at = some now })
      (update_where (λ m. is_unread_from partner viewer m && is_kept m.delivered_at)
        (λ m. record m { delivered_at = some now }) messages)

delivered_alike :
    (now partner viewer : ℕ) (ms : List Message)
    → length (
        filter (is_unread_from partner viewer) (
          update_where
            (λ m. is_unread_from partner viewer m && is_kept m.delivered_at)
            (λ m. record m { delivered_at = some now })
            ms))
      ≡ length (filter (is_unread_from partner viewer) ms)
unfolding update_where
delivered_alike now partner viewer [] = refl
delivered_alike now partner viewer (m ∷ ms) = ground (arith, delivered_alike now partner viewer ms)

waiting-marked :
    (p now partner viewer : ℕ) (ms : List Message)
    → waiting p viewer (marked now partner viewer ms)
      ≡ (if p == partner then 0 else waiting p viewer ms)
unfolding update_where
waiting-marked p now partner viewer [] = ground arith
waiting-marked p now partner viewer (m ∷ ms) =
    ground (arith, waiting-marked p now partner viewer ms)

none_unread :
    (now partner viewer : ℕ) (ms : List Message)
    → filter (is_unread_from partner viewer) (marked now partner viewer ms) ≡ []
unfolding update_where
none_unread now partner viewer [] = refl
none_unread now partner viewer (m ∷ ms) = ground (arith, none_unread now partner viewer ms)

marked_already :
    (now partner viewer : ℕ) (ms : List Message)
    → filter (is_unread_from partner viewer) ms ≡ []
    → marked now partner viewer ms ≡ ms
unfolding update_where
marked_already now partner viewer [] h = refl
marked_already now partner viewer (m ∷ ms) h = elim (Bool-cases (is_unread_from partner viewer m)) [
  | inl unread ↦ absurd (ground arith)
  | inr seen ↦ ground (arith, marked_already now partner viewer ms)
]

module _ (ctx : Context) (viewer partner : ℕ) (db : Database) where
  abbrev after_reading : Database
  after_reading = record db { messages = marked ctx.now partner viewer db.messages }

  mark_runs :
      is_block_active_between viewer partner db ≡ false
      → mark_read ctx viewer partner db
        ≡ (ok (length (filter (is_unread_from partner viewer) db.messages)), after_reading)
  unfolding mark_read set_delivered set_read
  mark_runs free = ground (arith, delivered_alike ctx.now partner viewer db.messages)

  still_free :
      (p : ℕ) → is_block_active_between viewer p after_reading ≡ is_block_active_between viewer p db
  unfolding is_block_active_between
  still_free p = refl

  counted_after :
      (p : ℕ)
      → count_of p (unread_counts viewer after_reading)
        ≡ (if p == partner then 0 else count_of p (unread_counts viewer db))
  counted_after p = ground (
    arith,
    unread_counts_lem viewer p after_reading,
    unread_counts_lem viewer p db,
    still_free p,
    waiting-marked p ctx.now partner viewer db.messages,
  )

mark_again :
    (ctx later : Context) (viewer partner : ℕ) (db : Database)
    → is_block_active_between viewer partner db ≡ false
    → mark_read later viewer partner (after_reading ctx viewer partner db)
      ≡ (ok 0, after_reading ctx viewer partner db)
mark_again ctx later viewer partner db free =
    let rows = none_unread ctx.now partner viewer db.messages in
    let same =
      marked_already later.now partner viewer (marked ctx.now partner viewer db.messages) rows in
    mark_runs later viewer partner (after_reading ctx viewer partner db)
      (still_free ctx viewer partner db partner ∙ free)
    ∙ λ i. (ok (length (rows i)), record db { messages = same i })

-- Where neither blocks the other, a viewer who marks what a partner sent as read is told how many
-- messages that were, deleted ones included. Then none from the partner is unread, the counts of all
-- other partners are as before, and to mark again, whenever, finds none and changes nothing.
pub mark_read_lem :
    (ctx later : Context) (viewer partner : ℕ) (db : Database)
    → is_block_active_between viewer partner db ≡ false
    → (db' : Database) × (mark_read ctx viewer partner db
        ≡ (ok (length (filter (is_unread_from partner viewer) db.messages)), db'))
      × ((p : ℕ)
          → count_of p (unread_counts viewer db')
            ≡ (if p == partner then 0 else count_of p (unread_counts viewer db)))
      × (mark_read later viewer partner db' ≡ (ok 0, db'))
mark_read_lem ctx later viewer partner db free = (
  after_reading ctx viewer partner db,
  mark_runs ctx viewer partner db free,
  counted_after ctx viewer partner db,
  mark_again ctx later viewer partner db free,
)
