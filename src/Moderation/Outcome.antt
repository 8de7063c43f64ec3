-- ===== src/Moderation/Outcome.antt =====
-- What comes of reviews: each report is reviewed once, the daily pass leaves nothing overdue, and a
-- restriction is never shortened.
use sync_server.Prelude.{
  ℕ, ◌≡◌, refl, sym, ap, subst, ◌∙◌, String, true, false, Option, some, List, [], arith, ◌==◌, map,
  length, All, if◌then◌else◌, str_eq, str_eq_iff,
}
use sync_server.Errors.{AppError, ok, err}
use sync_server.Store.{
  Database, Context, row_of, update_row, has_user, row_of-update_row, find?_found, All_of_found,
}
use sync_server.Moderation.Types.{ModerationReport, AdminModerationReportView}
use sync_server.Moderation.Text.{
  normalize_resolution_action, report_status_open, report_status_dismissed, report_status_resolved,
  resolution_dismiss,
}
use sync_server.Moderation.Reports.{admin_view}
use sync_server.Moderation.Review.{
  close_report, next_status, overdue_reports, run_automatic_review_pass, resolve_open,
  resolve_report, maybe_run_daily_automatic_review, hour_of, day_of, is_day,
}
use sync_server.Moderation.Closing.{IsReviewable, closed, resolve_runs}
use sync_server.Moderation.Pass.{after_pass, pass_runs, next_status_closed, nothing_overdue}
use sync_server.Moderation.Sound.{IsSound}
use sync_server.Moderation.Keeping.{pass-IsSound}

IsReviewable-with :
    (ctx : Context) (parse : String → Option ℕ) (db : Database)
    → ctx.parse_uuid ≡ parse
    → IsSound parse db
    → All (IsReviewable ctx.parse_uuid) db.reports
IsReviewable-with ctx parse db codec v =
    subst (λ (p : String → Option ℕ). All (IsReviewable p) db.reports) (sym codec) v.reviewable

-- The automatic pass over sound reports always succeeds: it tells how many reports were overdue, closes
-- each of them once and changes no other report, and then none is overdue. The reports stay sound.
pub pass_clears :
    (ctx : Context) (parse : String → Option ℕ) (db : Database)
    → ctx.parse_uuid ≡ parse
    → IsSound parse db
    → (db' : Database) × (run_automatic_review_pass ctx db
        ≡ (ok (length (overdue_reports ctx.now db)), db'))
      × (db'.reports ≡ map (after_pass ctx db) db.reports)
      × (overdue_reports ctx.now db' ≡ [])
      × IsSound parse db'
pass_clears ctx parse db codec v =
    let (db', ran, rows, users) =
      pass_runs ctx db (v.reports_once, IsReviewable-with ctx parse db codec v, v.about_users) in
    (
      db',
      ran,
      rows,
      nothing_overdue ctx db db' rows,
      subst (IsSound parse) (ap (λ r. r.1) ran) (pass-IsSound ctx parse codec db v),
    )

-- In its hour, and on a day that has had none, the pass over sound reports runs and leaves none overdue;
-- after it, at any time of that day, it does not run again.
pub once_a_day :
    (ctx later : Context) (last : Option ℕ) (db : Database) (parse : String → Option ℕ)
    → ctx.parse_uuid ≡ parse
    → IsSound parse db
    → hour_of ctx.now ≡ 2
    → is_day last (day_of ctx.now) ≡ false
    → day_of later.now ≡ day_of ctx.now
    → (db' : Database) × (maybe_run_daily_automatic_review ctx last db
        ≡ (ok true, some (day_of ctx.now), db'))
      × (overdue_reports ctx.now db' ≡ [])
      × (maybe_run_daily_automatic_review later (some (day_of ctx.now)) db'
          ≡ (ok false, some (day_of ctx.now), db'))
unfolding maybe_run_daily_automatic_review
once_a_day ctx later last db parse codec v hour fresh same =
    let (db', ran, rows, clear, sound) = pass_clears ctx parse db codec v in
    (db', ground arith, clear, ground arith)

module _ (ctx : Context) (parse : String → Option ℕ) (codec : ctx.parse_uuid ≡ parse) where
  row_id :
      (id : ℕ) (report : ModerationReport) (db : Database)
      → row_of ModerationReport.id id db.reports ≡ some report
      → report.id ≡ id
  row_id id report db there =
      ground (arith, find?_found (λ (r : ModerationReport). r.id == id) db.reports report there)

  closed_row :
      (report : ModerationReport) (reviewer : Option ℕ) (action : String) (remark : Option String)
      (rows : List ModerationReport)
      → row_of ModerationReport.id report.id rows ≡ some report
      → row_of ModerationReport.id report.id (closed ctx report reviewer action remark rows)
        ≡ some (close_report ctx reviewer action remark report)
  unfolding close_report
  closed_row report reviewer action remark rows there = ground (
    arith,
    row_of-update_row ModerationReport.id report.id report.id
        (close_report ctx reviewer action remark) rows (λ _. refl),
  )

  resolve_report_runs :
      (report : ModerationReport) (reviewer : ℕ) (named action : String) (remark : Option String)
      (db : Database)
      → IsSound parse db
      → row_of ModerationReport.id report.id db.reports ≡ some report
      → report.status ≡ report_status_open
      → has_user reviewer db ≡ true
      → normalize_resolution_action named ≡ ok action
      → (db' : Database) × (resolve_report ctx report.id reviewer named remark db
          ≡ (ok (admin_view ctx db' (close_report ctx (some reviewer) action remark report)), db'))
        × (db'.reports ≡ closed ctx report (some reviewer) action remark db.reports)
  unfolding resolve_report resolve_open
  resolve_report_runs report reviewer named action remark db v there is_open known is_action =
      let (db', ran, rows, users) =
        resolve_runs ctx report (some reviewer) action remark db report named is_action
          (All_of_found (IsReviewable ctx.parse_uuid) _ db.reports report
            (IsReviewable-with ctx parse db codec v) there)
          (All_of_found (λ r. has_user r.reported_user_id db ≡ true) _ db.reports report
            v.about_users there)
          known there in
      (db', ground (arith, str_eq_iff report.status report_status_open), rows)

  already_reviewed :
      (later : Context) (report_id reviewer : ℕ) (named : String) (remark : Option String)
      (db : Database) (report : ModerationReport)
      → row_of ModerationReport.id report_id db.reports ≡ some report
      → str_eq report.status report_status_open ≡ false
      → resolve_report later report_id reviewer named remark db
        ≡ (err (AppError.conflict "Report has already been reviewed"), db)
  unfolding resolve_report resolve_open
  already_reviewed later report_id reviewer named remark db report there reviewed = ground arith

  -- A user reviews an open report of sound tables with an action that is known: he is shown the report
  -- closed with that action, as dismissed or as resolved, and no other report has changed. To review it
  -- again, whoever does it and whatever the action, is a conflict and changes nothing.
  pub resolve_once :
      (report : ModerationReport) (reviewer : ℕ) (named action : String) (remark : Option String)
      (db : Database)
      → IsSound parse db
      → row_of ModerationReport.id report.id db.reports ≡ some report
      → report.status ≡ report_status_open
      → has_user reviewer db ≡ true
      → normalize_resolution_action named ≡ ok action
      → (view : AdminModerationReportView) × (db' : Database) × (resolve_report ctx report.id
            reviewer named remark db
          ≡ (ok view, db'))
        × (view.resolution_action ≡ some action)
        × (view.status ≡ (
            if str_eq action resolution_dismiss
            then report_status_dismissed
            else report_status_resolved))
        × (db'.reports
            ≡ update_row ModerationReport.id report.id
                (close_report ctx (some reviewer) action remark)
                db.reports)
        × ((later : Context) (reviewer' : ℕ) (named' : String) (remark' : Option String)
            → resolve_report later report.id reviewer' named' remark' db'
              ≡ (err (AppError.conflict "Report has already been reviewed"), db'))
  unfolding admin_view close_report next_status
  resolve_once report reviewer named action remark db v there is_open known is_action =
      let (db', ran, rows) =
        resolve_report_runs report reviewer named action remark db v there is_open known
          is_action in
      let found =
        ap (row_of ModerationReport.id report.id) rows
        ∙ closed_row report (some reviewer) action remark db.reports there in
      (
        admin_view ctx db' (close_report ctx (some reviewer) action remark report),
        db',
        ran,
        refl,
        refl,
        rows,
        λ later reviewer' named' remark'.
            already_reviewed later report.id reviewer' named' remark' db'
              (close_report ctx (some reviewer) action remark report) found
              (next_status_closed action),
      )
