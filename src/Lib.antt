-- ===== src/Lib.antt =====
-- The core of the synchronisation server: the guild engine, the rooms, moderation, and messages.
--
-- The guild engine gives levels that a user earns by active days, ranks earned by contributions, the
-- daily limits that both give, the review of suspicious activity, and the ledger of contribution
-- points. Rooms are groups with an owner, members and messages. Moderation has reports, blocks, the
-- review of reports by a moderator or by a daily pass, the restrictions that follow, and a filter of
-- texts. Messages go between two users. Rooms and messages ask moderation who has blocked whom and
-- what may be said; the guild engine inserts the messages that it counts.
--
-- The server keeps its state in PostgreSQL. Each call takes a connection, mostly inside one
-- transaction. A call of the guild engine loads the policy, finds or inserts the user's row, brings
-- level and rank up to date, assesses the activity, and then does what it was called for.
--
-- Prelude, with Tests, Lists, Int, Text, Sort, Sets and Order below it, holds what is shared: Boolean
-- tests on native numbers, lists, signed integers with 32-bit arithmetic, texts, sorting, lists as
-- sets, and stable sorting by an order. Errors is src/errors.rs. Store is the tables, the actions on
-- them and `conn.transaction`; Store/Rows is UPDATE, DELETE and search.
--
-- Guild is src/services/guild_service.rs with src/models/guild.rs:
--   Types     the records of src/models/guild.rs
--   Policy    `normalize_guild_policy`, `default_guild_policy`
--   Ranking   `level_policy_for_active_days`, `rank_policy_for_score`, the effective daily limits,
--             `level_progress_percent`
--   Activity  `assess_human_activity`
--   Stats     the helpers that read and write the guild tables: `load_guild_policy_conn`,
--             `save_guild_policy`, `ensure_user_guild_stats`, `sync_derived_state`,
--             `update_human_activity_state`, `advance_active_day_if_needed`, the daily counters,
--             `freeze_guild_progression` and `unfreeze_guild_progression`
--   Snapshot  `build_snapshot`, `seconds_until_next_utc_day`
--   Actions   `send_message_with_guild`, `run_attachment_action_with_guild`,
--             `resolve_contact_with_guild`, `record_human_activity`. The steps with which all four
--             begin are written once, as `begin_action`.
--   Events    the rules of `record_contribution_event`; its child Record has that function and the
--             awards, penalties and clawbacks that call it, and Worth says apart from the code what
--             an event is worth
--   History   `prune_guild_history`, `get_guild_snapshot`
-- Paging is the keyset order of src/services/room_service.rs and src/services/message_service.rs.
-- Rooms is src/services/room_service.rs with src/models/room.rs:
--   Types     the records of the service and of its tables
--   Views     the checks of members and names, and what a room shows: `room_summary_conn`,
--             `room_detail_conn`, `room_unread_count_conn`
--   Members   `create_room`, `rename_room`, `add_room_members`, `remove_room_member`, `leave_room`,
--             `delete_room`
--   Talk      `list_rooms`, `get_room`, `get_room_messages`, `send_room_message`, `mark_room_read`,
--             `list_room_member_ids`
--   Spec      what the calls of Members promise, over owners and sets of members; Group is such a set,
--             as a list up to order and repetition
--   Consistent, Agree, Create, Change, Rename, Add, Remove, Emptied, Close, Runs lead from each call to
--   whole sequences of calls; Access, Reading, Sending and Steps are about Talk and about all of it.
-- Moderation is src/services/moderation_service.rs with src/models/moderation.rs:
--   Types     the records of the service and of its tables
--   Text      `detect_blocked_term` and the normal forms of a report's fields
--   Blocks    terms, blocks, and `ensure_direct_message_allowed`
--   Making    `create_report`, `block_user`
--   Reports   `list_reports`, `reports_to_admin_views`
--   Review    `resolve_report`, `run_automatic_review_pass`, `maybe_run_daily_automatic_review`
--   Messaging, Blocking, Closing, Passing, Pass, Sound, Keeping, Steps, Outcome and Restricting have the
--   theorems.
-- Messages is src/services/message_service.rs, with Reading, Unread and Hidden below it.
-- Each Tests is a small server on which the theorems are applied.
--
-- An `i32` is an integer whose arithmetic wraps to 32 bits, as a release build computes it. A `u8`,
-- a `usize`, an `i64` that counts rows and an identifier are natural numbers; identifiers are in the
-- order of their bytes. A `DateTime<Utc>` is a count of microseconds and a `NaiveDate` a count of days
-- since 1970, so no clock stands before 1970; the bounds that pruning computes may lie before it and
-- are integers. `Result` has a third value, `panic`, for a thread that panics: indexing an empty
-- policy, or a date that chrono cannot represent.
--
-- A call reads the clock once and takes it, the database's clock, its fresh identifier, chrono's
-- first day, the JSON codec of the policy, the text of an identifier and `Uuid::parse_str` as one
-- argument, `Context`. Some calls read the server's clock more than once, and here once. The one law
-- that is asked of the codec, in one theorem, is that it reads what it wrote; where several calls
-- parse identifiers, they do it alike.
--
-- A table is a list of rows, the newest first where rows are inserted, and ORDER BY is a stable
-- sort of it. Foreign keys are modelled where an insertion meets them, audit lines included, and so
-- are the unique keys of messages, rooms, room messages and reports, and the deletions that a
-- foreign key hands on where a room is deleted. The fresh identifiers of events and audit lines are
-- taken to be new. A sum that PostgreSQL computes in an int4 column fails where it does not fit.
-- Not modelled are CHECK constraints, triggers, failures of the connection, concurrent
-- transactions, and columns that the services neither read nor decide on. The lock of the daily
-- review is not poisoned. A HashMap is an association list or a search in the table. `to_lowercase`
-- maps the ASCII letters and the Kelvin sign and leaves all other characters, also U+0130, whose
-- lower case begins with an ASCII letter; `trim` removes the characters with the property
-- White_Space.
--
-- There is no fuel: every loop is a recursion on a list or a text.
--
-- Not modelled: users and sessions, push, federation, stickers, calls, news, backups and agent tokens,
-- which are other services; the routes, the WebSocket sessions, the timer of the daily review and the
-- start-up, which are input and output; and the dashboard, which only calls the server.
pub mod Prelude
pub mod Errors
pub mod Store
pub mod Guild
pub mod Paging
pub mod Rooms
pub mod Moderation
pub mod Messages
