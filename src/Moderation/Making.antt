-- ===== src/Moderation/Making.antt =====
-- Making reports and blocks: `create_report`, `block_user`.
use Prim.Native.Nat.{◌+◌}
use Prim.Native.String.{◌++◌}
use sync_server.Prelude.{
  ℕ, String, not, ◌||◌, Option, none, some, List, ◌∷◌, ◌==◌, if◌then◌else◌, str_eq,
}
use sync_server.Prelude.Text.{trim}
use sync_server.Errors.{AppError, Result, ok, err}
use sync_server.Store.{
  Database, Context, Action, User, Message, pure, fail, lift, modify, ◌>>=◌, ◌>>◌, transaction,
  require_user, row_of,
}
use sync_server.Guild.Types.{Value, Fields}
use sync_server.Rooms.Types.{RoomMessage}
use sync_server.Moderation.Types.{ModerationReport, BlockedUserView, ReportInput}
use sync_server.Moderation.Text.{
  normalize_optional_text, normalize_reason_code, normalize_report_excerpt, normalize_report_source,
  normalize_content_kind, report_source_block, report_kind_user_profile, report_kind_direct_message,
  report_kind_room_message, report_status_open,
}
use sync_server.Moderation.Blocks.{find_user, is_user_blocked, is_kept, days}

-- `first(conn).optional()?.ok_or(AppError::NotFound)?`
abbrev pub find_row : {A : Type 0} → (A → ℕ) → (Database → List A) → ℕ → Action A
find_row key table id db = elim (row_of key id (table db)) [
  | none ↦ (err AppError.not_found, db)
  | some row ↦ (ok row, db)
]

-- The content of a message that a report names, if the reported user sent it and it is not deleted.
unfoldable pub reported_text : ℕ → ℕ → Option ℕ → String → Result (Option String)
reported_text reported sender deleted_at content =
    if not (sender == reported) || not (is_kept deleted_at)
    then err AppError.not_found
    else ok (some content)

-- `content_id` as an identifier.
abbrev pub content_uuid : Context → String → String → Option String → Result ℕ
content_uuid ctx missing invalid none = err (AppError.bad_request missing)
content_uuid ctx missing invalid (some raw) = elim (ctx.parse_uuid raw) [
  | none ↦ err (AppError.bad_request invalid)
  | some id ↦ ok id
]

unfoldable pub or_empty : Option String → String
or_empty none = ""
or_empty (some text) = text

unfoldable pub user_excerpt : User → Option String
user_excerpt user =
    some (trim ("username: " ++ user.username ++ "\ndescription: " ++ or_empty user.description))

unfoldable pub content_excerpt_conn : Context → ℕ → String → Option String → Action (Option String)
content_excerpt_conn ctx reported content_kind content_id =
    if str_eq content_kind report_kind_user_profile
    then (do user ← find_user reported; pure (user_excerpt user))
    else if str_eq content_kind report_kind_direct_message
    then (do
      id ← lift (
          content_uuid ctx "content_id is required for direct_message reports"
            "content_id must be a UUID" content_id)
      message ← find_row Message.id Database.messages id
      lift (reported_text reported message.sender_id message.deleted_at message.content))
    else if str_eq content_kind report_kind_room_message
    then (do
      id ← lift (
          content_uuid ctx "content_id is required for room_message reports"
            "content_id must be a UUID" content_id)
      message ← find_row RoomMessage.id Database.room_messages id
      lift (reported_text reported message.sender_id message.deleted_at message.content))
    else fail (AppError.bad_request "Unsupported report content kind")

-- `Option::or`
abbrev pub or_else : {A : Type 0} → Option A → Option A → Option A
or_else none b = b
or_else (some a) b = some a

-- A row that repeats a primary key breaks it.
unfoldable pub require_fresh_report : ℕ → Action (Unit {0})
require_fresh_report id db = elim (row_of ModerationReport.id id db.reports) [
  | none ↦ (ok tt, db)
  | some _ ↦ (err AppError.database, db)
]

-- `json!({})`
abbrev pub no_metadata : Value
no_metadata = Value.object Fields.end

-- The row, with the defaults of its columns.
unfoldable pub new_report :
    Context → ℕ → ReportInput → String → String → Option String → ModerationReport
new_report ctx reporter input source content_kind validated_excerpt = record {
  id = ctx.new_id;
  reporter_user_id = reporter;
  reported_user_id = input.reported_user_id;
  source = source;
  content_kind = content_kind;
  content_id = normalize_optional_text input.content_id;
  reason_code = normalize_reason_code (some input.reason_code) "other";
  reporter_note = normalize_optional_text input.reporter_note;
  content_excerpt =
      or_else (normalize_report_excerpt input.content_excerpt_override) validated_excerpt;
  status = report_status_open;
  resolution_action = none;
  resolution_notes = none;
  metadata = no_metadata;
  review_due_at = ctx.db_now + days 1;
  reviewed_by_user_id = none;
  reviewed_at = none;
  created_at = ctx.db_now;
  updated_at = ctx.db_now;
}

unfoldable pub insert_report : ModerationReport → Action ModerationReport
insert_report report = do
  require_fresh_report report.id
  require_user report.reporter_user_id
  require_user report.reported_user_id
  modify (λ db. record db { reports = report ∷ db.reports })
  pure report

-- From the check of the reported user on.
unfoldable pub describe_and_insert :
    Context → ℕ → ReportInput → String → String → Action ModerationReport
describe_and_insert ctx reporter input source content_kind = do
  excerpt ←
      content_excerpt_conn ctx input.reported_user_id content_kind
        (normalize_optional_text input.content_id)
  insert_report (new_report ctx reporter input source content_kind excerpt)

unfoldable pub report_user : Context → ℕ → ReportInput → User → Action ModerationReport
report_user ctx reporter input user = do
  source ← lift (normalize_report_source input.source)
  content_kind ← lift (normalize_content_kind input.content_kind)
  describe_and_insert ctx reporter input source content_kind

unfoldable pub create_report_conn : Context → ℕ → ReportInput → Action ModerationReport
create_report_conn ctx reporter input =
    if reporter == input.reported_user_id
    then fail (AppError.bad_request "You cannot report your own account")
    else (do user ← find_user input.reported_user_id; report_user ctx reporter input user)

unfoldable pub create_report : Context → ℕ → ReportInput → Action ModerationReport
create_report ctx reporter input = transaction (create_report_conn ctx reporter input)

abbrev pub block_input : ℕ → Option String → Option String → ReportInput
block_input blocked reason_code reporter_note = record {
  reported_user_id = blocked;
  source = report_source_block;
  content_kind = report_kind_user_profile;
  content_id = none;
  reason_code = normalize_reason_code reason_code "abusive_user";
  reporter_note = normalize_optional_text reporter_note;
  content_excerpt_override = none;
}

-- The primary key of `user_blocks` is not met again: the insertion follows the search for it.
unfoldable pub insert_block : Context → ℕ → ℕ → ModerationReport → Action (Unit {0})
insert_block ctx blocker blocked report db = (
  ok tt,
  record db {
    blocks =
        record {
          blocker_user_id = blocker;
          blocked_user_id = blocked;
          report_id = some report.id;
          reason_code = some report.reason_code;
          reporter_note = report.reporter_note;
          created_at = ctx.db_now;
        }
        ∷ db.blocks;
  },
)

unfoldable pub block_once : Context → ℕ → ℕ → Option String → Option String → Action (Unit {0})
block_once ctx blocker blocked reason_code reporter_note db =
    if is_user_blocked blocker blocked db
    then (ok tt, db)
    else (do
      report ← create_report_conn ctx blocker (block_input blocked reason_code reporter_note)
      insert_block ctx blocker blocked report)
        db

abbrev pub blocked_view : Context → User → BlockedUserView
blocked_view ctx user = record {
  user_id = user.id;
  username = user.username;
  avatar_base64 = user.avatar_base64;
  blocked_at = ctx.now;
}

-- The body of the transaction.
unfoldable pub block_conn : Context → ℕ → ℕ → Option String → Option String → Action BlockedUserView
block_conn ctx blocker blocked reason_code reporter_note =
    if blocker == blocked
    then fail (AppError.bad_request "You cannot block your own account")
    else (do
      user ← find_user blocked
      block_once ctx blocker blocked reason_code reporter_note
      pure (blocked_view ctx user))

unfoldable pub block_user : Context → ℕ → ℕ → Option String → Option String → Action BlockedUserView
block_user ctx blocker blocked reason_code reporter_note =
    transaction (block_conn ctx blocker blocked reason_code reporter_note)
