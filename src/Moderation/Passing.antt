-- ===== src/Moderation/Passing.antt =====
-- The daily pass, one report after another.
use sync_server.Prelude.{
  ℕ, ◌≡◌, refl, ap, ◌∙◌, inl, inr, true, false, ◌||◌, none, some, List, [], ◌∷◌, arith, leb, ◌==◌,
  map, All, if◌then◌else◌, Bool-cases,
}
use sync_server.Prelude.Text.{trim}
use sync_server.Prelude.Sets.{contains, IsNodup}
use sync_server.Errors.{ok}
use sync_server.Store.{Database, Context, row_of, update_where, has_user, >>=_of_ok}
use sync_server.Moderation.Types.{ModerationReport}
use sync_server.Moderation.Text.{one_of, normalize_resolution_action}
use sync_server.Moderation.Review.{
  close_report, automatic_action, review_one, review_each, high_risk, overdue_count,
}
use sync_server.Moderation.Closing.{IsReviewable, closed, resolve_runs}

abbrev pub report_ids : List ModerationReport → List ℕ
report_ids rows = map ModerationReport.id rows

module _ (ctx : Context) (reports : List ModerationReport) where
  -- What the pass makes of a report.
  abbrev pub auto_close : ModerationReport → ModerationReport
  auto_close report =
      close_report ctx none (automatic_action reports report).0
        (some (automatic_action reports report).1) report

  abbrev closed_one : ModerationReport → List ModerationReport → List ModerationReport
  closed_one report rows =
      closed ctx report none (automatic_action reports report).0
        (some (automatic_action reports report).1) rows

  pub close_all : List ModerationReport → List ModerationReport → List ModerationReport
  close_all [] rows = rows
  close_all (report ∷ rest) rows = close_all rest (closed_one report rows)

  known_action :
      (report : ModerationReport)
      → normalize_resolution_action (automatic_action reports report).0
        ≡ ok (automatic_action reports report).0
  unfolding automatic_action normalize_resolution_action one_of trim
  known_action report =
      elim (Bool-cases
        (high_risk report || leb 3 (overdue_count report.reported_user_id reports))) [
          | inl risk ↦ rw risk refl
          | inr calm ↦ rw calm refl
        ]

  -- A report that can be reviewed and is stored, about a user who is there.
  abbrev pub IsReady : Database → ModerationReport → Type 0
  IsReady db report =
      IsReviewable ctx.parse_uuid report
      × (has_user report.reported_user_id db ≡ true)
      × (contains report.id (report_ids db.reports) ≡ true)

  row_there :
      (id : ℕ) (rows : List ModerationReport)
      → contains id (report_ids rows) ≡ true
      → (row : ModerationReport) × (row_of ModerationReport.id id rows ≡ some row)
  row_there id [] h = cc
  row_there id (row ∷ rows) h = elim (Bool-cases (row.id == id)) [
    | inl here ↦ (row, rw here refl)
    | inr later ↦ rw later (row_there id rows (ground arith))
  ]

  ids_stay :
      (report : ModerationReport) (rows : List ModerationReport)
      → report_ids (closed_one report rows) ≡ report_ids rows
  unfolding update_where close_report
  ids_stay report [] = refl
  ids_stay report (row ∷ rows) = ground (arith, ids_stay report rows)

  review_one_runs :
      (report : ModerationReport) (db : Database)
      → IsReady db report
      → (db' : Database) × (review_one ctx reports report db ≡ (ok tt, db'))
        × (db'.reports ≡ closed_one report db.reports)
        × ((u : ℕ) → has_user u db' ≡ has_user u db)
  unfolding review_one
  review_one_runs report db (reviewable, known, stored) =
      let (row, there) = row_there report.id db.reports stored in
      let (db', ran, rows, users) =
        resolve_runs ctx report none (automatic_action reports report).0
          (some (automatic_action reports report).1) db row (automatic_action reports report).0
          (known_action report) reviewable known tt there in
      (db', ground arith, rows, users)

  still-IsReady :
      (report : ModerationReport) (db db' : Database) (rest : List ModerationReport)
      → db'.reports ≡ closed_one report db.reports
      → ((u : ℕ) → has_user u db' ≡ has_user u db)
      → All (IsReady db) rest
      → All (IsReady db') rest
  still-IsReady report db db' [] rows users h = tt
  still-IsReady report db db' (r ∷ rs) rows users ((reviewable, known, stored), h) = (
    (
      reviewable,
      users r.reported_user_id ∙ known,
      ap (contains r.id) (ap report_ids rows ∙ ids_stay report db.reports) ∙ stored,
    ),
    still-IsReady report db db' rs rows users h,
  )

  pub review_each_runs :
      (rest : List ModerationReport) (db : Database)
      → All (IsReady db) rest
      → (db' : Database) × (review_each ctx reports rest db ≡ (ok tt, db'))
        × (db'.reports ≡ close_all rest db.reports)
        × ((u : ℕ) → has_user u db' ≡ has_user u db)
  unfolding review_each close_all
  review_each_runs [] db h = (db, refl, refl, λ u. refl)
  review_each_runs (report ∷ rest) db (ready, h) =
      let (db₁, ran₁, rows₁, users₁) = review_one_runs report db ready in
      let (db₂, ran₂, rows₂, users₂) =
        review_each_runs rest db₁ (still-IsReady report db db₁ rest rows₁ users₁ h) in
      (
        db₂,
        >>=_of_ok (review_one ctx reports report) (λ _. review_each ctx reports rest) db db₁ tt ran₁
            ∙ ran₂,
        rows₂ ∙ ap (close_all rest) rows₁,
        λ u. users₂ u ∙ users₁ u,
      )

  close_as : ModerationReport → ModerationReport → ModerationReport
  close_as report row =
      close_report ctx none (automatic_action reports report).0
        (some (automatic_action reports report).1) row

  -- What becomes of one row.
  pub closed_by : List ModerationReport → ModerationReport → ModerationReport
  closed_by [] row = row
  closed_by (report ∷ rest) row =
      closed_by rest (if row.id == report.id then close_as report row else row)

  keep_rows : (rows : List ModerationReport) → rows ≡ map (λ row. row) rows
  keep_rows [] = refl
  keep_rows (x ∷ xs) = λ i. x ∷ keep_rows xs i

  one_by_one :
      (report : ModerationReport) (rest rows : List ModerationReport)
      → map (closed_by rest) (closed_one report rows) ≡ map (closed_by (report ∷ rest)) rows
  unfolding closed_by update_where close_as
  one_by_one report rest [] = refl
  one_by_one report rest (row ∷ rows) = λ i.
      closed_by rest (if row.id == report.id then close_as report row else row)
      ∷ one_by_one report rest rows i

  pub close_all-map :
      (rest rows : List ModerationReport) → close_all rest rows ≡ map (closed_by rest) rows
  unfolding close_all closed_by
  close_all-map [] rows = keep_rows rows
  close_all-map (report ∷ rest) rows =
      close_all-map rest (closed_one report rows) ∙ one_by_one report rest rows

  untouched :
      (rest : List ModerationReport) (row : ModerationReport)
      → contains row.id (report_ids rest) ≡ false
      → closed_by rest row ≡ row
  unfolding closed_by
  untouched [] row h = refl
  untouched (report ∷ rest) row h = ground (arith, untouched rest row)

  -- Where the reports have unique identifiers, each is closed once, as itself.
  pub closed_once :
      (rest : List ModerationReport) (row : ModerationReport)
      → IsNodup (report_ids rest)
      → All (λ r. r.id ≡ row.id → r ≡ row) rest
      → closed_by rest row ≡ (if contains row.id (report_ids rest) then auto_close row else row)
  unfolding closed_by close_as close_report
  closed_once [] row once same = refl
  closed_once (report ∷ rest) row once (same, others) = elim (Bool-cases (row.id == report.id)) [
    | inl here ↦ rw here (
        untouched rest (close_as report row) (ground (arith, once.0))
        ∙ ap (λ r. close_as r row) (same (ground arith)))
    | inr later ↦ rw later (closed_once rest row once.1 others)
  ]
