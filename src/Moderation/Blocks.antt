-- ===== src/Moderation/Blocks.antt =====
-- Blocks between users, the safety terms, and who may send a direct message to whom.
use Prim.Native.Nat.{◌+◌, ◌*◌}
use mathlib.Core.Option
use sync_server.Prelude.{
  ℕ, String, Bool, true, false, not, ◌&&◌, ◌||◌, Option, none, some, List, ltb, leb, ◌==◌, map, any,
  filter, filter_map, length, if◌then◌else◌, str_eq,
}
use sync_server.Prelude.Int.{ℤ, pos, ltb_ℤ, eqb_ℤ}
use sync_server.Prelude.Order.{sort_by}
use sync_server.Errors.{AppError, ok, err}
use sync_server.Store.{
  Database, Context, Action, User, Message, pure, fail, gets, modify, ◌>>=◌, ◌>>◌, transaction,
  row_or_error, row_of, update_row, delete_where,
}
use sync_server.Moderation.Types.{
  ModerationReport, UserBlock, UserSafetyStatePublic, BlockedUserView,
}
use sync_server.Moderation.Text.{report_status_open}

abbrev pub current_safety_terms_version : ℤ
current_safety_terms_version = pos 1

-- `users::table.find(id).first(conn).optional()?.ok_or(AppError::NotFound)?`
abbrev pub find_user : ℕ → Action User
find_user id db = elim (row_of User.id id db.users) [
  | none ↦ (err AppError.not_found, db)
  | some user ↦ (ok user, db)
]

unfoldable pub requires_terms_acceptance : User → Bool
requires_terms_acceptance user =
    elim user.ugc_terms_accepted_at [ none ↦ true | some _ ↦ false ]
    || ltb_ℤ user.ugc_terms_version current_safety_terms_version

unfoldable pub safety_state_for_user : User → UserSafetyStatePublic
safety_state_for_user user = record {
  current_terms_version = current_safety_terms_version;
  accepted_terms_version = user.ugc_terms_version;
  terms_accepted_at = user.ugc_terms_accepted_at;
  requires_terms_acceptance = requires_terms_acceptance user;
}

abbrev pub accept_terms : ℕ → User → User
accept_terms now user = record user {
  ugc_terms_version = current_safety_terms_version;
  ugc_terms_accepted_at = some now;
}

unfoldable pub update_user : ℕ → (User → User) → Database → Database
update_user id f db = record db { users = update_row User.id id f db.users }

unfoldable pub record_terms_acceptance_conn : Context → ℕ → ℤ → Action User
record_terms_acceptance_conn ctx user_id accepted_version =
    if eqb_ℤ accepted_version current_safety_terms_version
    then (do
      modify (update_user user_id (accept_terms ctx.now))
      user ← gets (λ db. row_of User.id user_id db.users)
      row_or_error user)
    else fail (AppError.bad_request "accepted_terms_version is not the current policy version")

unfoldable pub record_terms_acceptance : Context → ℕ → ℤ → Action UserSafetyStatePublic
record_terms_acceptance ctx user_id accepted_version = transaction (do
  user ← record_terms_acceptance_conn ctx user_id accepted_version
  pure (safety_state_for_user user))

-- WHERE blocker_user_id = … AND blocked_user_id = …
abbrev pub is_block_of : ℕ → ℕ → UserBlock → Bool
is_block_of blocker blocked block =
    block.blocker_user_id == blocker && block.blocked_user_id == blocked

unfoldable pub list_blocked_user_ids_conn : ℕ → Database → List ℕ
list_blocked_user_ids_conn blocker db =
    map UserBlock.blocked_user_id (filter (λ b. b.blocker_user_id == blocker) db.blocks)

unfoldable pub is_user_blocked : ℕ → ℕ → Database → Bool
is_user_blocked blocker blocked db = any (is_block_of blocker blocked) db.blocks

unfoldable pub is_block_active_between : ℕ → ℕ → Database → Bool
is_block_active_between a b db =
    any (λ block. is_block_of a b block || is_block_of b a block) db.blocks

unfoldable pub ensure_no_block_between : ℕ → ℕ → Action (Unit {0})
ensure_no_block_between a b db =
    if is_block_active_between a b db then (err AppError.forbidden, db) else (ok tt, db)

unfoldable pub view_of : Database → UserBlock → Option BlockedUserView
view_of db block =
    Option.map
      (λ user. record {
        user_id = block.blocked_user_id;
        username = user.username;
        avatar_base64 = user.avatar_base64;
        blocked_at = block.created_at;
      })
      (row_of User.id block.blocked_user_id db.users)

unfoldable pub list_blocked_users : ℕ → Database → List BlockedUserView
list_blocked_users blocker db = filter_map (view_of db) (
    sort_by (λ a b. leb b.created_at a.created_at)
      (filter (λ b. b.blocker_user_id == blocker) db.blocks))

unfoldable pub unblock_user : ℕ → ℕ → Action (Unit {0})
unblock_user blocker blocked =
    modify (λ db. record db { blocks = delete_where (is_block_of blocker blocked) db.blocks })

-- `t > Utc::now()` of a time that may be missing.
abbrev pub is_later : ℕ → Option ℕ → Bool
is_later now none = false
is_later now (some t) = ltb now t

abbrev pub yellow_card_message : String
yellow_card_message =
    "Your account has a temporary restriction and cannot send messages at this time."

unfoldable pub ensure_no_yellow_card : Context → ℕ → Action (Unit {0})
ensure_no_yellow_card ctx user_id = do
  user ← find_user user_id
  (if is_later ctx.now user.yellow_card_expires_at
      then fail (AppError.bad_request yellow_card_message)
      else pure tt)

abbrev pub days : ℕ → ℕ
days n = n * 86_400_000_000

-- A report of the sender that is open and was made in the last seven days. `lookback <= created_at`
-- is written with the days on the right.
abbrev pub is_recent_open_report : ℕ → ℕ → ModerationReport → Bool
is_recent_open_report now sender report =
    report.reported_user_id == sender
    && str_eq report.status report_status_open
    && leb now (report.created_at + days 7)

abbrev pub is_between : ℕ → ℕ → Message → Bool
is_between a b m =
    m.sender_id == a && m.recipient_id == b || m.sender_id == b && m.recipient_id == a

abbrev pub is_kept : Option ℕ → Bool
is_kept none = true
is_kept (some _) = false

unfoldable pub has_prior_contact : ℕ → ℕ → Database → Bool
has_prior_contact a b db = any (λ m. is_kept m.deleted_at && is_between a b m) db.messages

unfoldable pub open_report_count : ℕ → ℕ → Database → ℕ
open_report_count now sender db = length (filter (is_recent_open_report now sender) db.reports)

unfoldable pub is_new_dm_contact_restricted : Context → ℕ → ℕ → Action Bool
is_new_dm_contact_restricted ctx sender recipient = do
  user ← find_user sender
  count ← gets (open_report_count ctx.now sender)
  (if not (is_later ctx.now user.dm_restricted_until) && ltb count 2
      then pure false
      else gets (λ db. not (has_prior_contact sender recipient db)))

abbrev pub safety_review_message : String
safety_review_message =
    "Private messages are temporarily limited to existing contacts while your account is under safety review"

unfoldable pub ensure_direct_message_allowed : Context → ℕ → ℕ → Action (Unit {0})
ensure_direct_message_allowed ctx sender recipient = do
  ensure_no_yellow_card ctx sender
  ensure_no_block_between sender recipient
  restricted ← is_new_dm_contact_restricted ctx sender recipient
  if restricted then fail (AppError.bad_request safety_review_message) else pure tt
