-- ===== src/Moderation/Reports.antt =====
-- How the administrators see reports: `ModerationReportStatusFilter::parse` and `list_reports`.
use Prim.Native.String.{compare}
use Prim.Native.Nat.Ordering.{lt, eq, gt}
use sync_server.Prelude.{
  ℕ, String, Bool, true, false, ◌||◌, if◌then◌else◌, Option, none, some, List, leb, map, filter,
  take, str_eq,
}
use sync_server.Prelude.Text.{clean}
use sync_server.Errors.{AppError, Result, ok, err}
use sync_server.Prelude.Int.{ℤ, pos, pos_part, clamp}
use sync_server.Prelude.Order.{sort_by}
use sync_server.Store.{Database, Context, User, row_of}
use sync_server.Moderation.Types.{
  ModerationReport, ModerationReportStatusFilter, open_reports, resolved_reports, dismissed_reports,
  any_reports, AdminModerationReportView,
}
use sync_server.Moderation.Text.{
  report_status_open, report_status_resolved, report_status_dismissed,
}

-- `ModerationReportStatusFilter::parse`
unfoldable pub parse_status : Option String → Result ModerationReportStatusFilter
parse_status none = ok open_reports
parse_status (some raw) =
    let value = clean raw in
    if str_eq value "" || str_eq value report_status_open
    then ok open_reports
    else if str_eq value report_status_resolved
    then ok resolved_reports
    else if str_eq value report_status_dismissed
    then ok dismissed_reports
    else if str_eq value "all"
    then ok any_reports
    else err (AppError.bad_request "status must be one of open, resolved, dismissed, all")

unfoldable pub name_of : Context → Database → ℕ → String
name_of ctx db id = elim (row_of User.id id db.users) [
  | none ↦ ctx.uuid_text id
  | some user ↦ user.username
]

unfoldable pub admin_view : Context → Database → ModerationReport → AdminModerationReportView
admin_view ctx db report = record {
  id = report.id;
  reporter_user_id = report.reporter_user_id;
  reporter_username = name_of ctx db report.reporter_user_id;
  reported_user_id = report.reported_user_id;
  reported_username = name_of ctx db report.reported_user_id;
  source = report.source;
  content_kind = report.content_kind;
  content_id = report.content_id;
  reason_code = report.reason_code;
  reporter_note = report.reporter_note;
  content_excerpt = report.content_excerpt;
  status = report.status;
  resolution_action = report.resolution_action;
  resolution_notes = report.resolution_notes;
  review_due_at = report.review_due_at;
  reviewed_by_user_id = report.reviewed_by_user_id;
  reviewed_at = report.reviewed_at;
  created_at = report.created_at;
  updated_at = report.updated_at;
}

unfoldable pub reports_to_admin_views :
    Context → List ModerationReport → Database → List AdminModerationReportView
reports_to_admin_views ctx reports db = map (admin_view ctx db) reports

unfoldable pub passes : ModerationReportStatusFilter → ModerationReport → Bool
passes open_reports report = str_eq report.status report_status_open
passes resolved_reports report = str_eq report.status report_status_resolved
passes dismissed_reports report = str_eq report.status report_status_dismissed
passes any_reports report = true

-- `order((status.asc(), created_at.desc()))`
abbrev pub by_status : ModerationReport → ModerationReport → Bool
by_status a b = elim (compare a.status b.status) [
  | lt ↦ true
  | eq ↦ leb b.created_at a.created_at
  | gt ↦ false
]

unfoldable pub list_reports :
    Context → ModerationReportStatusFilter → ℤ → Database → List AdminModerationReportView
list_reports ctx status_filter limit db =
    let rows = sort_by by_status (filter (passes status_filter) db.reports) in
    reports_to_admin_views ctx (take (pos_part (clamp limit (pos 1) (pos 200))) rows) db
