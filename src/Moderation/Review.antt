-- ===== src/Moderation/Review.antt =====
-- The review of reports: by an administrator, and by the daily pass over overdue reports.
use Prim.Native.Nat.{◌+◌, ◌/◌, ◌%◌}
use sync_server.Prelude.{
  ℕ, String, Bool, true, false, not, ◌&&◌, ◌||◌, Option, none, some, List, [], ◌∷◌, ltb, leb, ◌==◌,
  filter, length, if◌then◌else◌, str_eq,
}
use sync_server.Prelude.Int.{pos, add32}
use sync_server.Prelude.Order.{sort_by}
use sync_server.Errors.{AppError, Result, ok, err, panic}
use sync_server.Store.{
  Database, Context, Action, User, Message, pure, fail, lift, gets, modify, ◌>>=◌, ◌>>◌,
  transaction, row_or_error, require_user, row_of, update_row,
}
use sync_server.Rooms.Types.{RoomMessage}
use sync_server.Moderation.Types.{ModerationReport, AdminModerationReportView}
use sync_server.Moderation.Text.{
  normalize_optional_text, normalize_resolution_action, detect_blocked_term,
  report_kind_user_profile, report_kind_direct_message, report_kind_room_message,
  report_status_open, report_status_resolved, report_status_dismissed, resolution_dismiss,
  resolution_remove_content, resolution_remove_and_limit_new_dms, resolution_suspend_user,
  resolution_remove_and_suspend,
}
use sync_server.Moderation.Blocks.{find_user, update_user, days}
use sync_server.Moderation.Making.{content_uuid, find_row}
use sync_server.Moderation.Reports.{admin_view}

abbrev pub clear_profile : User → User
clear_profile user = record user { avatar_base64 = none; description = none }

unfoldable pub remove_reported_content_conn : Context → ModerationReport → Action (Unit {0})
remove_reported_content_conn ctx report =
    if str_eq report.content_kind report_kind_user_profile
    then modify (update_user report.reported_user_id clear_profile)
    else if str_eq report.content_kind report_kind_direct_message
    then (do
      id ← lift (
          content_uuid ctx "Report content_id is missing" "Report content_id is invalid"
            report.content_id)
      modify (λ db. record db {
        messages =
            update_row Message.id id (λ m. record m { deleted_at = some ctx.now }) db.messages;
      }))
    else if str_eq report.content_kind report_kind_room_message
    then (do
      id ← lift (
          content_uuid ctx "Report content_id is missing" "Report content_id is invalid"
            report.content_id)
      modify (λ db. record db {
        room_messages =
            update_row RoomMessage.id id (λ m. record m { deleted_at = some ctx.now })
              db.room_messages;
      }))
    else fail (AppError.bad_request "Unsupported report content kind")

-- A restriction that lasts longer stays.
unfoldable pub effective_until : ℕ → Option ℕ → ℕ
effective_until restriction_until none = restriction_until
effective_until restriction_until (some current) =
    if ltb restriction_until current then current else restriction_until

unfoldable pub restrict : ℕ → User → User
restrict now user = record user {
  dm_restricted_until = some (effective_until (now + days 7) user.dm_restricted_until);
  safety_warning_count = add32 user.safety_warning_count (pos 1);
}

-- The row is read and written in one transaction: what is written is computed from the row itself.
unfoldable pub apply_temporary_dm_restriction_conn : Context → ℕ → Action (Unit {0})
apply_temporary_dm_restriction_conn ctx user_id = do
  user ← find_user user_id
  modify (
      update_user user_id (λ row. record row {
        dm_restricted_until = (restrict ctx.now user).dm_restricted_until;
        safety_warning_count = (restrict ctx.now user).safety_warning_count;
      }))

abbrev pub suspend : User → User
suspend user = record user { is_active = false }

-- `if test { step?; }`
abbrev pub step_if : Bool → Action (Unit {0}) → Action (Unit {0})
step_if test step db = elim test [ true ↦ step db | false ↦ (ok tt, db) ]

unfoldable pub next_status : String → String
next_status action =
    if str_eq action resolution_dismiss then report_status_dismissed else report_status_resolved

-- The trigger `set_updated_at` writes the database's clock.
unfoldable pub close_report :
    Context → Option ℕ → String → Option String → ModerationReport → ModerationReport
close_report ctx reviewer action notes report = record report {
  status = next_status action;
  resolution_action = some action;
  resolution_notes = normalize_optional_text notes;
  reviewed_by_user_id = reviewer;
  reviewed_at = some ctx.now;
  updated_at = ctx.db_now;
}

-- A reviewer is a user.
unfoldable pub require_reviewer : Option ℕ → Action (Unit {0})
require_reviewer none db = (ok tt, db)
require_reviewer (some id) db = require_user id db

unfoldable pub store_resolution :
    Context → ModerationReport → Option ℕ → String → Option String → Action ModerationReport
store_resolution ctx report reviewer action notes = do
  require_reviewer reviewer
  modify (λ db. record db {
    reports =
        update_row ModerationReport.id report.id (close_report ctx reviewer action notes)
          db.reports;
  })
  updated ← gets (λ db. row_of ModerationReport.id report.id db.reports)
  row_or_error updated

unfoldable pub removes_content : String → Bool
removes_content action =
    str_eq action resolution_remove_content
    || str_eq action resolution_remove_and_limit_new_dms
    || str_eq action resolution_remove_and_suspend

unfoldable pub suspends : String → Bool
suspends action =
    str_eq action resolution_suspend_user || str_eq action resolution_remove_and_suspend

-- What a normalised action does before the report is closed.
unfoldable pub enforce : Context → ModerationReport → String → Action (Unit {0})
enforce ctx report action = do
  step_if (removes_content action) (remove_reported_content_conn ctx report)
  step_if (str_eq action resolution_remove_and_limit_new_dms)
      (apply_temporary_dm_restriction_conn ctx report.reported_user_id)
  step_if (suspends action) (modify (update_user report.reported_user_id suspend))

unfoldable pub resolve_report_conn :
    Context → ModerationReport → Option ℕ → String → Option String → Action ModerationReport
resolve_report_conn ctx report reviewer action notes = do
  normalized_action ← lift (normalize_resolution_action action)
  enforce ctx report normalized_action
  store_resolution ctx report reviewer normalized_action notes

-- An open report is reviewed, and shown as it is then.
unfoldable pub resolve_open :
    Context → ℕ → String → Option String → ModerationReport → Action AdminModerationReportView
resolve_open ctx reviewer action notes report =
    if not (str_eq report.status report_status_open)
    then fail (AppError.conflict "Report has already been reviewed")
    else (do
      updated ← resolve_report_conn ctx report (some reviewer) action notes
      gets (λ db. admin_view ctx db updated))

unfoldable pub resolve_report :
    Context → ℕ → ℕ → String → Option String → Action AdminModerationReportView
resolve_report ctx report_id reviewer action notes = transaction (do
  report ← find_row ModerationReport.id Database.reports report_id
  resolve_open ctx reviewer action notes report)

unfoldable pub is_overdue : ℕ → ModerationReport → Bool
is_overdue now report = str_eq report.status report_status_open && leb report.review_due_at now

-- The overdue reports, oldest first.
unfoldable pub overdue_reports : ℕ → Database → List ModerationReport
overdue_reports now db =
    sort_by (λ a b. leb a.created_at b.created_at) (filter (is_overdue now) db.reports)

-- `overdue_counts_by_user`
unfoldable pub overdue_count : ℕ → List ModerationReport → ℕ
overdue_count user reports = length (filter (λ r. r.reported_user_id == user) reports)

unfoldable pub high_risk : ModerationReport → Bool
high_risk report = elim report.content_excerpt [
  | none ↦ false
  | some excerpt ↦ elim (detect_blocked_term excerpt) [ none ↦ false | some term ↦ true ]
]

abbrev pub escalated_note : String
escalated_note =
    "Automatic moderation: overdue report escalated by high-risk content or repeat offense"

abbrev pub limited_note : String
limited_note =
    "Automatic moderation: overdue report content removed and new direct messages limited for follow-up"

-- The action and the note for an overdue report.
unfoldable pub automatic_action : List ModerationReport → ModerationReport → String × String
automatic_action reports report =
    if high_risk report || leb 3 (overdue_count report.reported_user_id reports)
    then (resolution_remove_and_suspend, escalated_note)
    else (resolution_remove_and_limit_new_dms, limited_note)

unfoldable pub review_one : Context → List ModerationReport → ModerationReport → Action (Unit {0})
review_one ctx reports report = do
  updated ←
      resolve_report_conn ctx report none (automatic_action reports report).0
        (some (automatic_action reports report).1)
  pure tt

-- `for report in &reports`
unfoldable pub review_each :
    Context → List ModerationReport → List ModerationReport → Action (Unit {0})
review_each ctx reports [] = pure tt
review_each ctx reports (report ∷ rest) =
    review_one ctx reports report >> review_each ctx reports rest

unfoldable pub run_automatic_review_pass : Context → Action ℕ
run_automatic_review_pass ctx = transaction (do
  reports ← gets (overdue_reports ctx.now)
  review_each ctx reports reports
  pure (length reports))

-- `now.hour()` and `now.date_naive()`
abbrev pub hour_of : ℕ → ℕ
hour_of now = now / 3_600_000_000 % 24

abbrev pub day_of : ℕ → ℕ
day_of now = now / 86_400_000_000

-- `last_run.as_ref() == Some(&today)`
abbrev pub is_day : Option ℕ → ℕ → Bool
is_day none today = false
is_day (some day) today = day == today

-- `LAST_DAILY_AUTO_REVIEW_DAY` is an argument and a result. The lock is taken by one thread at a time
-- and not poisoned.
unfoldable pub maybe_run_daily_automatic_review :
    Context → Option ℕ → Database → Result Bool × Option ℕ × Database
maybe_run_daily_automatic_review ctx last_run db =
    if not (hour_of ctx.now == 2)
    then (ok false, last_run, db)
    else if is_day last_run (day_of ctx.now)
    then (ok false, last_run, db)
    else let (result, db') = run_automatic_review_pass ctx db in
      elim result [
        | ok processed ↦ (ok true, some (day_of ctx.now), db')
        | err e ↦ (err e, last_run, db')
        | panic ↦ (panic, last_run, db')
      ]
