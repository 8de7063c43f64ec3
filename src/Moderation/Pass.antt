-- ===== src/Moderation/Pass.antt =====
-- The daily pass over the overdue reports reviews them all.
use sync_server.Prelude.{
  ℕ, ◌≡◌, refl, sym, ap, ◌∙◌, inl, inr, String, Bool, true, false, Option, none, some, List, [],
  ◌∷◌, arith, leb, map, filter, length, All, if◌then◌else◌, str_eq, Bool-cases,
}
use sync_server.Prelude.Sets.{contains, IsNodup}
use sync_server.Prelude.Order.{sort_by, contains-sort_by, sort_by-IsNodup, All-sort_by}
use sync_server.Errors.{ok}
use sync_server.Store.{
  Database, Context, row_of, has_user, row_of_self, contains_self, contains-keys_of_filter,
  keys_of_filter-IsNodup, All-filter, map_cong,
}
use sync_server.Moderation.Types.{ModerationReport}
use sync_server.Moderation.Text.{report_status_open, resolution_dismiss}
use sync_server.Moderation.Review.{
  close_report, next_status, is_overdue, overdue_reports, automatic_action,
  run_automatic_review_pass,
}
use sync_server.Moderation.Closing.{IsReviewable}
use sync_server.Moderation.Passing.{
  report_ids, auto_close, close_all, IsReady, review_each_runs, closed_by, close_all-map,
  closed_once,
}

pub next_status_closed : (action : String) → str_eq (next_status action) report_status_open ≡ false
unfolding next_status
next_status_closed action = elim (Bool-cases (str_eq action resolution_dismiss)) [
  | inl dismissed ↦ rw dismissed refl
  | inr other ↦ rw other refl
]

some_inj : (a b : ModerationReport) → some a ≡ some b → a ≡ b
some_inj a b e = ap (λ (o : Option ModerationReport). elim o [ none ↦ a | some x ↦ x ]) e

-- What the invariant of the reports asks for the pass.
module _ (ctx : Context) (db : Database) where
  abbrev pub overdue : List ModerationReport
  overdue = overdue_reports ctx.now db

  -- A report after the pass: closed if it was overdue.
  abbrev pub after_pass : ModerationReport → ModerationReport
  after_pass report = if is_overdue ctx.now report then auto_close ctx overdue report else report

  overdue_once : IsNodup (report_ids db.reports) → IsNodup (report_ids overdue)
  unfolding overdue_reports
  overdue_once once =
      sort_by-IsNodup _ ModerationReport.id (filter (is_overdue ctx.now) db.reports)
        (keys_of_filter-IsNodup ModerationReport.id (is_overdue ctx.now) db.reports once)

  is_overdue-overdue :
      IsNodup (report_ids db.reports)
      → All (λ row. contains row.id (report_ids overdue) ≡ is_overdue ctx.now row) db.reports
  unfolding overdue_reports
  is_overdue-overdue once =
      through_sort db.reports
        (contains-keys_of_filter ModerationReport.id (is_overdue ctx.now) db.reports once)
    where
      through_sort :
          (rows : List ModerationReport)
          → All
              (λ row.
                contains row.id (map ModerationReport.id (filter (is_overdue ctx.now) db.reports))
                ≡ is_overdue ctx.now row)
              rows
          → All (λ row. contains row.id (report_ids overdue) ≡ is_overdue ctx.now row) rows
      through_sort [] h = tt
      through_sort (row ∷ rows) (e, h) = (
        contains-sort_by (λ (a b : ModerationReport). leb a.created_at b.created_at)
              ModerationReport.id row.id (filter (is_overdue ctx.now) db.reports)
            ∙ e,
        through_sort rows h,
      )

  All-overdue {κ} : (P : ModerationReport → Type κ) → All P db.reports → All P overdue
  unfolding overdue_reports
  All-overdue P h =
      All-sort_by _ P (filter (is_overdue ctx.now) db.reports)
        (All-filter P (is_overdue ctx.now) db.reports h)

  same_row :
      IsNodup (report_ids db.reports)
      → All (λ row. All (λ r. r.id ≡ row.id → r ≡ row) overdue) db.reports
  same_row once = each db.reports found
    where
      found : All (λ r. row_of ModerationReport.id r.id db.reports ≡ some r) db.reports
      found = row_of_self ModerationReport.id db.reports once

      others :
          (row : ModerationReport)
          → row_of ModerationReport.id row.id db.reports ≡ some row
          → (rows : List ModerationReport)
          → All (λ r. row_of ModerationReport.id r.id db.reports ≡ some r) rows
          → All (λ r. r.id ≡ row.id → r ≡ row) rows
      others row there [] h = tt
      others row there (r ∷ rs) (at, h) = (
        λ same.
            some_inj r row
              (sym at ∙ ap (λ (i : ℕ). row_of ModerationReport.id i db.reports) same ∙ there),
        others row there rs h,
      )

      each :
          (rows : List ModerationReport)
          → All (λ r. row_of ModerationReport.id r.id db.reports ≡ some r) rows
          → All (λ row. All (λ r. r.id ≡ row.id → r ≡ row) overdue) rows
      each [] h = tt
      each (row ∷ rows) (there, h) = (others row there overdue (All-overdue _ found), each rows h)

  -- Every report can be reviewed, once stored, and is about a user who is there.
  abbrev pub IsReadyAll : Type 0
  IsReadyAll =
      IsNodup (map ModerationReport.id db.reports)
      × All (IsReviewable ctx.parse_uuid) db.reports
      × All (λ report. has_user report.reported_user_id db ≡ true) db.reports

  All-IsReady : IsReadyAll → All (IsReady ctx overdue db) overdue
  All-IsReady (once, reviewable, about) =
      All-overdue (IsReady ctx overdue db)
        (ready db.reports reviewable about (contains_self ModerationReport.id db.reports))
    where
      ready :
          (rows : List ModerationReport)
          → All (IsReviewable ctx.parse_uuid) rows
          → All (λ report. has_user report.reported_user_id db ≡ true) rows
          → All (λ r. contains r.id (report_ids db.reports) ≡ true) rows
          → All (IsReady ctx overdue db) rows
      ready [] a b c = tt
      ready (r ∷ rs) (a, as') (b, bs) (c, cs) = ((a, b, c), ready rs as' bs cs)

  exactly :
      IsNodup (report_ids db.reports)
      → close_all ctx overdue overdue db.reports ≡ map after_pass db.reports
  exactly once =
      close_all-map ctx overdue overdue db.reports
      ∙ map_cong (closed_by ctx overdue overdue) after_pass db.reports
          (each db.reports (same_row once) (is_overdue-overdue once))
    where
      each :
          (rows : List ModerationReport)
          → All (λ row. All (λ r. r.id ≡ row.id → r ≡ row) overdue) rows
          → All (λ row. contains row.id (report_ids overdue) ≡ is_overdue ctx.now row) rows
          → All (λ row. closed_by ctx overdue overdue row ≡ after_pass row) rows
      each [] a b = tt
      each (row ∷ rows) (same, a) (found, b) = (
        closed_once ctx overdue overdue row (overdue_once once) same
            ∙ ap (λ (t : Bool). if t then auto_close ctx overdue row else row) found,
        each rows a b,
      )

  closed_is_done :
      (row : ModerationReport) → is_overdue ctx.now (auto_close ctx overdue row) ≡ false
  unfolding is_overdue close_report
  closed_is_done row = ground (arith, next_status_closed (automatic_action overdue row).0)

  nothing_left :
      (rows : List ModerationReport) → filter (is_overdue ctx.now) (map after_pass rows) ≡ []
  nothing_left [] = refl
  nothing_left (row ∷ rows) = ground (arith, nothing_left rows, closed_is_done row)

  pub pass_runs :
      IsReadyAll
      → (db' : Database) × (run_automatic_review_pass ctx db ≡ (ok (length overdue), db'))
        × (db'.reports ≡ map after_pass db.reports)
        × ((u : ℕ) → has_user u db' ≡ has_user u db)
  unfolding run_automatic_review_pass
  pass_runs (once, reviewable, about) =
      let (db', ran, rows, users) =
        review_each_runs ctx overdue overdue db (All-IsReady (once, reviewable, about)) in
      (db', ground arith, rows ∙ exactly once, users)

  pub nothing_overdue :
      (db' : Database) → db'.reports ≡ map after_pass db.reports → overdue_reports ctx.now db' ≡ []
  unfolding overdue_reports sort_by
  nothing_overdue db' rows =
      ap
        (λ (rs : List ModerationReport).
          sort_by (λ (a b : ModerationReport). leb a.created_at b.created_at)
            (filter (is_overdue ctx.now) rs))
        rows
      ∙ ap (sort_by (λ (a b : ModerationReport). leb a.created_at b.created_at))
          (nothing_left db.reports)
