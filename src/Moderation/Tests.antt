-- ===== src/Moderation/Tests.antt =====
-- A small server with one overdue report, on which the theorems on moderation are applied.
use sync_server.Prelude.{
  ℕ, ◌+◌, ◌≤◌, ◌<◌, ◌≡◌, ◌≢◌, refl, inl, String, true, false, not, ◌&&◌, Option, none, some, [],
  ◌∷◌, ◌==◌, arith, map, length, if◌then◌else◌, str_eq, ◌↔◌,
}
use sync_server.Prelude.Int.{pos, add32}
use sync_server.Prelude.Text.{trim}
use sync_server.Errors.{AppError, ok, err}
use sync_server.Store.{Database, Context, User, has_user, row_of, update_row}
use sync_server.Guild.Types.{object, end}
use sync_server.Guild.Tests.{ctx, db, first_user}
use sync_server.Moderation.Types.{
  ModerationReport, UserBlock, BlockedUserView, AdminModerationReportView,
}
use sync_server.Moderation.Text.{
  report_status_open, report_status_dismissed, report_status_resolved, one_of, resolution_dismiss,
  normalize_resolution_action,
}
use sync_server.Moderation.Blocks.{
  is_later, days, has_prior_contact, is_new_dm_contact_restricted, is_user_blocked, unblock_user,
  ensure_direct_message_allowed,
}
use sync_server.Moderation.Making.{block_user}
use sync_server.Moderation.Review.{
  apply_temporary_dm_restriction_conn, run_automatic_review_pass, overdue_reports, resolve_report,
  close_report, maybe_run_daily_automatic_review, hour_of, day_of, is_day,
}
use sync_server.Moderation.Messaging.{MayWrite, direct_message_iff}
use sync_server.Moderation.Blocking.{block_twice, unblock-block}
use sync_server.Moderation.Pass.{after_pass}
use sync_server.Moderation.Sound.{IsSound}
use sync_server.Moderation.Steps.{here, next, passes_run, Reach-IsSound}
use sync_server.Moderation.Restricting.{restricted_for_days}
use sync_server.Moderation.Outcome.{pass_clears, once_a_day, resolve_once}

abbrev report : ModerationReport
report = record {
  id = 50;
  reporter_user_id = 1;
  reported_user_id = 2;
  source = "report";
  content_kind = "user_profile";
  content_id = none;
  reason_code = "abuse";
  reporter_note = none;
  content_excerpt = none;
  status = "open";
  resolution_action = none;
  resolution_notes = none;
  metadata = object end;
  review_due_at = 20;
  reviewed_by_user_id = none;
  reviewed_at = none;
  created_at = 10;
  updated_at = 10;
}

abbrev tables : Database
tables = record db { reports = report ∷ [] }

-- Two hours into a day, and half an hour later.
abbrev at_two : Context
at_two = record ctx { now = 1_728_007_200_000_000 }

abbrev half_past : Context
half_past = record ctx { now = 1_728_009_000_000_000 }

abbrev parse : String → Option ℕ
parse t = none

second_known : has_user 2 tables ≡ true
unfolding has_user
second_known = refl

first_known : has_user 1 tables ≡ true
unfolding has_user
first_known = refl

tables-IsSound : IsSound parse tables
tables-IsSound = record {
  reports_once = ground arith;
  reviewable = (inl refl, tt);
  about_users = (second_known, tt);
  settled = (inl (refl, refl, refl, refl), tt);
}

Reach-IsSound_example : IsSound parse (run_automatic_review_pass at_two tables).1
Reach-IsSound_example = Reach-IsSound tables-IsSound (next here (passes_run at_two refl refl))

pass_clears_example :
    (db' : Database) × (run_automatic_review_pass at_two tables
      ≡ (ok (length (overdue_reports at_two.now tables)), db'))
    × (db'.reports ≡ map (after_pass at_two tables) tables.reports)
    × (overdue_reports at_two.now db' ≡ [])
    × IsSound parse db'
pass_clears_example = pass_clears at_two parse tables refl tables-IsSound

is_two : hour_of at_two.now ≡ 2
is_two = refl

is_fresh : is_day (some 19_999) (day_of at_two.now) ≡ false
is_fresh = refl

same_day : day_of half_past.now ≡ day_of at_two.now
same_day = refl

once_a_day_example :
    (db' : Database) × (maybe_run_daily_automatic_review at_two (some 19_999) tables
      ≡ (ok true, some (day_of at_two.now), db'))
    × (overdue_reports at_two.now db' ≡ [])
    × (maybe_run_daily_automatic_review half_past (some (day_of at_two.now)) db'
        ≡ (ok false, some (day_of at_two.now), db'))
once_a_day_example =
    once_a_day at_two half_past (some 19_999) tables parse refl tables-IsSound is_two is_fresh
      same_day

reported : row_of ModerationReport.id 50 tables.reports ≡ some report
reported = refl

dismisses : normalize_resolution_action " dismiss " ≡ ok "dismiss"
unfolding normalize_resolution_action one_of trim
dismisses = refl

resolve_once_example :
    (view : AdminModerationReportView) × (db' : Database) × (resolve_report ctx 50 1 " dismiss "
        none tables
      ≡ (ok view, db'))
    × (view.resolution_action ≡ some "dismiss")
    × (view.status ≡ (
        if str_eq "dismiss" resolution_dismiss
        then report_status_dismissed
        else report_status_resolved))
    × (db'.reports
        ≡ update_row ModerationReport.id 50
            (close_report ctx (some 1) "dismiss" none)
            tables.reports)
    × ((later : Context) (reviewer' : ℕ) (named' : String) (remark' : Option String)
        → resolve_report later 50 reviewer' named' remark' db'
          ≡ (err (AppError.conflict "Report has already been reviewed"), db'))
resolve_once_example =
    resolve_once ctx parse refl report 1 " dismiss " "dismiss" none tables tables-IsSound reported
      refl first_known dismisses

direct_message_iff_example :
    (ensure_direct_message_allowed ctx 1 2 tables ≡ (ok tt, tables)) ↔ MayWrite ctx 1 2 tables
direct_message_iff_example = direct_message_iff ctx 1 2 tables

one_is_not_two : ◌≢◌ {A = ℕ} 1 2
one_is_not_two e = ground arith

abbrev second_user : User
second_user = record first_user { id = 2 }

second_found : row_of User.id 2 tables.users ≡ some second_user
second_found = refl

fresh_report : row_of ModerationReport.id ctx.new_id tables.reports ≡ none
fresh_report = refl

not_blocked : is_user_blocked 1 2 tables ≡ false
unfolding is_user_blocked
not_blocked = refl

block_twice_example :
    (v : BlockedUserView) × (db' : Database) × (made : ModerationReport) × (block : UserBlock)
    × (block_user ctx 1 2 none none tables ≡ (ok v, db'))
    × (db' ≡ record tables { reports = made ∷ tables.reports; blocks = block ∷ tables.blocks })
    × (made.status ≡ report_status_open)
    × (made.reported_user_id ≡ 2)
    × (block.report_id ≡ some made.id)
    × ((later : Context) (reason' remark' : Option String)
        → (v' : BlockedUserView) × (block_user later 1 2 reason' remark' db' ≡ (ok v', db')))
block_twice_example =
    block_twice ctx 1 2 none none tables second_user one_is_not_two second_found first_known
      fresh_report not_blocked

unblock-block_example :
    (v : BlockedUserView) × (db' : Database) × (block_user ctx 1 2 none none tables ≡ (ok v, db'))
    × (is_user_blocked 1 2 db' ≡ true)
    × ((c d : ℕ)
        → is_user_blocked c d (unblock_user 1 2 db').1
          ≡ not (c == 1 && d == 2) && is_user_blocked c d db')
    × ((unblock_user 1 2 db').1.blocks ≡ tables.blocks)
unblock-block_example =
    unblock-block ctx 1 2 none none tables second_user one_is_not_two second_found first_known
      fresh_report not_blocked

abbrev tomorrow : Context
tomorrow = record ctx { now = 1_728_090_000_000_000 }

within_days : tomorrow.now < ctx.now + days 7
within_days = ground arith

restricted_for_days_example :
    (db' : Database) × (end : ℕ) × (apply_temporary_dm_restriction_conn ctx 2 tables ≡ (ok tt, db'))
    × (row_of User.id 2 db'.users
        ≡ some (record second_user {
          dm_restricted_until = some end;
          safety_warning_count = add32 second_user.safety_warning_count (pos 1);
        }))
    × (ctx.now + days 7 ≤ end)
    × ((t : ℕ) → is_later t second_user.dm_restricted_until ≡ true → t < end)
    × (is_new_dm_contact_restricted tomorrow 2 1 db'
        ≡ (ok (not (has_prior_contact 2 1 tables)), db'))
restricted_for_days_example =
    restricted_for_days ctx 2 tables second_user second_found tomorrow 1 within_days
