-- ===== src/Moderation/Keeping.antt =====
-- What each call of the service keeps of the reports.
use sync_server.Prelude.{
  ℕ, ◌≡◌, ◌≢◌, refl, sym, ap, subst, ◌∙◌, inl, inr, String, true, false, Option, none, some, List,
  [], ◌∷◌, arith, ◌==◌, map, All, if◌then◌else◌, str_eq, Bool-cases, Option-cases,
}
use sync_server.Prelude.Int.{ℤ, eqb_ℤ}
use sync_server.Prelude.Sets.{IsNodup}
use sync_server.Errors.{ok}
use sync_server.Store.{
  Database, Context, User, row_of, update_where, has_user, require_user_missing, has_user_of_users,
  pure, >>=_inv, lift_inv, same_inv, transaction_keeps, All-update_where, All-map, All_of_found,
  find?_found, gets, ◌>>=◌,
}
use sync_server.Moderation.Types.{ModerationReport, AdminModerationReportView}
use sync_server.Moderation.Text.{normalize_resolution_action, report_status_open}
use sync_server.Moderation.Blocks.{
  find_user, is_user_blocked, unblock_user, update_user, accept_terms, record_terms_acceptance_conn,
  record_terms_acceptance, safety_state_for_user, current_safety_terms_version,
}
use sync_server.Moderation.Making.{
  create_report_conn, block_input, insert_block, block_once, blocked_view, block_conn, block_user,
  find_row,
}
use sync_server.Moderation.Reports.{admin_view}
use sync_server.Moderation.Review.{
  close_report, is_overdue, automatic_action, run_automatic_review_pass, store_resolution,
  require_reviewer, enforce, resolve_report_conn, resolve_open, resolve_report,
}
use sync_server.Moderation.Closing.{
  IsReviewable, closed, resolve_runs, enforce-Goes, update_user-Keeps,
}
use sync_server.Moderation.Pass.{overdue, after_pass, pass_runs}
use sync_server.Moderation.Sound.{IsSettled, IsSound, Adds-IsSound, create_inv, find_user_keeps}

-- Tables with the same reports and users are as sound.
IsSound-same :
    (parse : String → Option ℕ) (db db' : Database)
    → db'.reports ≡ db.reports
    → ((u : ℕ) → has_user u db' ≡ has_user u db)
    → IsSound parse db
    → IsSound parse db'
IsSound-same parse db db' rows users v = record {
  reports_once =
      subst (λ (rows : List ModerationReport). IsNodup (map ModerationReport.id rows)) (sym rows)
        v.reports_once;
  reviewable = subst (All (IsReviewable parse)) (sym rows) v.reviewable;
  about_users =
      subst (All (λ r. has_user r.reported_user_id db' ≡ true)) (sym rows)
        (known db.reports v.about_users);
  settled = subst (All IsSettled) (sym rows) v.settled;
}
  where
    known :
        (rows : List ModerationReport)
        → All (λ r. has_user r.reported_user_id db ≡ true) rows
        → All (λ r. has_user r.reported_user_id db' ≡ true) rows
    known [] h = tt
    known (r ∷ rs) (hr, h) = (users r.reported_user_id ∙ hr, known rs h)

pub unblock-IsSound :
    (parse : String → Option ℕ) (blocker blocked : ℕ) (db : Database)
    → IsSound parse db
    → IsSound parse (unblock_user blocker blocked db).1
unfolding unblock_user
unblock-IsSound parse blocker blocked db v =
    IsSound-same parse db _ refl (λ u. has_user_of_users u db _ refl) v

module _ (ctx : Context) (parse : String → Option ℕ) (codec : ctx.parse_uuid ≡ parse) where
  block_once-IsSound :
      (blocker blocked : ℕ) (reason remark : Option String) (db db' : Database)
      → IsSound parse db
      → block_once ctx blocker blocked reason remark db ≡ (ok tt, db')
      → IsSound parse db'
  unfolding block_once insert_block
  block_once-IsSound blocker blocked reason remark db db' v h =
      elim (Bool-cases (is_user_blocked blocker blocked db)) [
        | inl old ↦ subst (IsSound parse) (ground arith) v
        | inr new ↦
            let (report, db₁, made, inserted) =
              >>=_inv (create_report_conn ctx blocker (block_input blocked reason remark))
                (insert_block ctx blocker blocked) db db' tt (ground arith) in
            let v₁ =
              Adds-IsSound ctx parse report db db₁ codec v
                (create_inv ctx blocker (block_input blocked reason remark) report db db₁ made) in
            subst (IsSound parse) (ap (λ r. r.1) inserted)
              (IsSound-same parse db₁ _ refl (λ u. has_user_of_users u db₁ _ refl) v₁)
      ]

  pub block-IsSound :
      (blocker blocked : ℕ) (reason remark : Option String) (db : Database)
      → IsSound parse db
      → IsSound parse (block_user ctx blocker blocked reason remark db).1
  unfolding block_user block_conn
  block-IsSound blocker blocked reason remark db v =
      transaction_keeps (IsSound parse) (block_conn ctx blocker blocked reason remark) db v
        λ view db' ran. elim (Bool-cases (blocker == blocked)) [
          | inl self ↦ absurd (ground arith)
          | inr other ↦
              let (user, found, rest) =
                same_inv (find_user blocked)
                  (λ user. block_once ctx blocker blocked reason remark >>= λ _.
                    pure (blocked_view ctx user))
                  db db' view (find_user_keeps blocked db) (ground arith) in
              let (_, db₁, blocks, done) =
                >>=_inv (block_once ctx blocker blocked reason remark)
                  (λ _. pure (blocked_view ctx user)) db db' view rest in
              subst (IsSound parse) (ap (λ r. r.1) done)
                (block_once-IsSound blocker blocked reason remark db db₁ v blocks)
        ]

  closed_ids :
      (report : ModerationReport) (reviewer : Option ℕ) (action : String) (remark : Option String)
      (rows : List ModerationReport)
      → map ModerationReport.id (closed ctx report reviewer action remark rows)
        ≡ map ModerationReport.id rows
  unfolding update_where close_report
  closed_ids report reviewer action remark [] = refl
  closed_ids report reviewer action remark (row ∷ rows) =
      ground (arith, closed_ids report reviewer action remark rows)

  close-IsReviewable :
      (reviewer : Option ℕ) (action : String) (remark : Option String) (row : ModerationReport)
      → IsReviewable parse row
      → IsReviewable parse (close_report ctx reviewer action remark row)
  unfolding close_report
  close-IsReviewable reviewer action remark row h = h

  close-IsSettled :
      (reviewer : Option ℕ) (action : String) (remark : Option String) (row : ModerationReport)
      → IsSettled (close_report ctx reviewer action remark row)
  unfolding close_report
  close-IsSettled reviewer action remark row = inr (action, ctx.now, refl, refl, refl)

  close_about :
      (reviewer : Option ℕ) (action : String) (remark : Option String) (db : Database)
      (row : ModerationReport)
      → has_user row.reported_user_id db ≡ true
      → has_user (close_report ctx reviewer action remark row).reported_user_id db ≡ true
  unfolding close_report
  close_about reviewer action remark db row h = h

  known_still :
      (db db' : Database) (rows : List ModerationReport)
      → ((u : ℕ) → has_user u db' ≡ has_user u db)
      → All (λ r. has_user r.reported_user_id db ≡ true) rows
      → All (λ r. has_user r.reported_user_id db' ≡ true) rows
  known_still db db' [] users h = tt
  known_still db db' (r ∷ rs) users (hr, h) =
      (users r.reported_user_id ∙ hr, known_still db db' rs users h)

  closed-IsSound :
      (report : ModerationReport) (reviewer : Option ℕ) (action : String) (remark : Option String)
      (db db' : Database)
      → IsSound parse db
      → db'.reports ≡ closed ctx report reviewer action remark db.reports
      → ((u : ℕ) → has_user u db' ≡ has_user u db)
      → IsSound parse db'
  closed-IsSound report reviewer action remark db db' v rows users =
      let about =
        All-update_where (λ r. has_user r.reported_user_id db' ≡ true)
          (λ (r : ModerationReport). r.id == report.id) (close_report ctx reviewer action remark)
          db.reports (λ r. close_about reviewer action remark db' r)
          (known_still db db' db.reports users v.about_users) in
      record {
        reports_once =
            subst IsNodup
              (sym (
                ap (map ModerationReport.id) rows
                ∙ closed_ids report reviewer action remark db.reports))
              v.reports_once;
        reviewable = subst (All (IsReviewable parse)) (sym rows) (
            All-update_where (IsReviewable parse) (λ (r : ModerationReport). r.id == report.id)
              (close_report ctx reviewer action remark) db.reports
              (close-IsReviewable reviewer action remark) v.reviewable);
        about_users = subst (All (λ r. has_user r.reported_user_id db' ≡ true)) (sym rows) about;
        settled = subst (All IsSettled) (sym rows) (
            All-update_where IsSettled (λ (r : ModerationReport). r.id == report.id)
              (close_report ctx reviewer action remark) db.reports
              (λ r _. close-IsSettled reviewer action remark r) v.settled);
      }

  unknown_reviewer :
      (report updated : ModerationReport) (id : ℕ) (action : String) (remark : Option String)
      (db db' : Database)
      → has_user id db ≡ false
      → store_resolution ctx report (some id) action remark db ≢ (ok updated, db')
  unfolding store_resolution require_reviewer
  unknown_reviewer report updated id action remark db db' nobody stored =
      ground (arith, require_user_missing id db nobody)

  -- A review that succeeded was by a user, and closed the report.
  resolve_inv :
      (report updated : ModerationReport) (id : ℕ) (named : String) (remark : Option String)
      (db db' : Database)
      → IsReviewable ctx.parse_uuid report
      → has_user report.reported_user_id db ≡ true
      → row_of ModerationReport.id report.id db.reports ≡ some report
      → resolve_report_conn ctx report (some id) named remark db ≡ (ok updated, db')
      → (action : String) × (db'.reports ≡ closed ctx report (some id) action remark db.reports)
        × ((u : ℕ) → has_user u db' ≡ has_user u db)
  unfolding resolve_report_conn
  resolve_inv report updated id named remark db db' reviewable known there h =
      let (action, is_action, rest) =
        lift_inv (normalize_resolution_action named)
          (λ action.
            enforce ctx report action >>= λ _. store_resolution ctx report (some id) action remark)
          db db' updated h in
      elim (Bool-cases (has_user id db)) [
        | inl reviewer ↦
            let (after, ran, rows, users) =
              resolve_runs ctx report (some id) action remark db report named is_action reviewable
                known reviewer there in
            let same : after ≡ db' = ap (λ r. r.1) (sym ran ∙ h) in
            (
              action,
              subst
                  (λ (d : Database).
                    d.reports ≡ closed ctx report (some id) action remark db.reports)
                  same rows,
              λ u. subst (λ (d : Database). has_user u d ≡ has_user u db) same (users u),
            )
        | inr nobody ↦
            let (_, db₁, enforced, stored) =
              >>=_inv (enforce ctx report action)
                (λ _. store_resolution ctx report (some id) action remark) db db' updated rest in
            let (db₂, again, keeps) = enforce-Goes ctx report action db reviewable known in
            let same : db₂ ≡ db₁ = ap (λ r. r.1) (sym again ∙ enforced) in
            let stranger =
              subst (λ (d : Database). has_user id d ≡ false) same (keeps.users id ∙ nobody) in
            absurd (unknown_reviewer report updated id action remark db₁ db' stranger stored)
      ]

  find_row_found :
      (id : ℕ) (report : ModerationReport) (db : Database)
      → find_row ModerationReport.id Database.reports id db ≡ (ok report, db)
      → row_of ModerationReport.id id db.reports ≡ some report
  find_row_found id report db found =
      elim (Option-cases (row_of ModerationReport.id id db.reports)) [
        | inl missing ↦ absurd (ground arith)
        | inr (row, there) ↦ ground arith
      ]

  find_row_keeps :
      (id : ℕ) (db : Database) → (find_row ModerationReport.id Database.reports id db).1 ≡ db
  find_row_keeps id db = ground arith

  resolve_open-IsSound :
      (report : ModerationReport) (id : ℕ) (named : String) (remark : Option String)
      (db db' : Database) (view : AdminModerationReportView)
      → IsSound parse db
      → row_of ModerationReport.id report.id db.reports ≡ some report
      → resolve_open ctx id named remark report db ≡ (ok view, db')
      → IsSound parse db'
  unfolding resolve_open
  resolve_open-IsSound report id named remark db db' view v there h =
      elim (Bool-cases (str_eq report.status report_status_open)) [
        | inr reviewed ↦ absurd (ground arith)
        | inl is_open ↦
            let (updated, db₁, resolved, shown) =
              >>=_inv (resolve_report_conn ctx report (some id) named remark)
                (λ updated. gets (λ db. admin_view ctx db updated)) db db' view (ground arith) in
            let reviewable =
              All_of_found (IsReviewable parse) _ db.reports report v.reviewable there in
            let known =
              All_of_found (λ r. has_user r.reported_user_id db ≡ true) _ db.reports report
                v.about_users there in
            let (action, rows, users) =
              resolve_inv report updated id named remark db db₁
                (subst (λ (p : String → Option ℕ). IsReviewable p report) (sym codec) reviewable)
                known there resolved in
            subst (IsSound parse) (ap (λ r. r.1) shown)
              (closed-IsSound report (some id) action remark db db₁ v rows users)
      ]

  row_id :
      (id : ℕ) (report : ModerationReport) (db : Database)
      → row_of ModerationReport.id id db.reports ≡ some report
      → report.id ≡ id
  row_id id report db there =
      ground (arith, find?_found (λ (r : ModerationReport). r.id == id) db.reports report there)

  pub resolve-IsSound :
      (report_id id : ℕ) (named : String) (remark : Option String) (db : Database)
      → IsSound parse db
      → IsSound parse (resolve_report ctx report_id id named remark db).1
  unfolding resolve_report
  resolve-IsSound report_id id named remark db v =
      transaction_keeps (IsSound parse)
        (find_row ModerationReport.id Database.reports report_id
          >>= resolve_open ctx id named remark)
        db v
        λ view db' ran.
          let (report, found, rest) =
            same_inv (find_row ModerationReport.id Database.reports report_id)
              (resolve_open ctx id named remark) db db' view (find_row_keeps report_id db) ran in
          let there = find_row_found report_id report db found in
          resolve_open-IsSound report id named remark db db' view v
            (subst (λ (k : ℕ). row_of ModerationReport.id k db.reports ≡ some report)
              (sym (row_id report_id report db there)) there)
            rest

  after_pass-kept :
      (db : Database) (rows : List ModerationReport)
      → (map ModerationReport.id (map (after_pass ctx db) rows) ≡ map ModerationReport.id rows)
  unfolding close_report
  after_pass-kept db [] = refl
  after_pass-kept db (row ∷ rows) = ground (arith, after_pass-kept db rows)

  -- What a review keeps of a report, the pass keeps.
  after_pass_keeps {ℓ} :
      (P : ModerationReport → Type ℓ) (db : Database)
      → ((action : String) (remark : Option String) (r : ModerationReport)
          → P r
          → P (close_report ctx none action remark r))
      → (r : ModerationReport) → P r
      → P (after_pass ctx db r)
  after_pass_keeps P db keep r h = elim (Bool-cases (is_overdue ctx.now r)) [
    | inl due ↦ rw due (
        keep (automatic_action (overdue ctx db) r).0 (some (automatic_action (overdue ctx db) r).1)
          r h)
    | inr early ↦ rw early h
  ]

  pub pass-IsSound :
      (db : Database) → IsSound parse db → IsSound parse (run_automatic_review_pass ctx db).1
  pass-IsSound db v =
      let (db', ran, rows, users) = pass_runs ctx db (
        v.reports_once,
        subst (λ (p : String → Option ℕ). All (IsReviewable p) db.reports) (sym codec) v.reviewable,
        v.about_users,
      ) in
      subst (IsSound parse) (sym (ap (λ r. r.1) ran)) (record {
        reports_once =
            subst IsNodup (sym (ap (map ModerationReport.id) rows ∙ after_pass-kept db db.reports))
              v.reports_once;
        reviewable = subst (All (IsReviewable parse)) (sym rows) (
            All-map (IsReviewable parse) (IsReviewable parse) (after_pass ctx db) db.reports
              (after_pass_keeps (IsReviewable parse) db (close-IsReviewable none)) v.reviewable);
        about_users = subst (All (λ r. has_user r.reported_user_id db' ≡ true)) (sym rows) (
            All-map (λ r. has_user r.reported_user_id db' ≡ true)
              (λ r. has_user r.reported_user_id db' ≡ true) (after_pass ctx db) db.reports
              (after_pass_keeps (λ r. has_user r.reported_user_id db' ≡ true) db
                (λ action remark r. close_about none action remark db' r))
              (known_still db db' db.reports users v.about_users));
        settled = subst (All IsSettled) (sym rows) (
            All-map IsSettled IsSettled (after_pass ctx db) db.reports
              (after_pass_keeps IsSettled db
                (λ action remark r _. close-IsSettled none action remark r))
              v.settled);
      })

  accepted_tables :
      (user : ℕ) (version : ℤ) (db : Database)
      → (record_terms_acceptance_conn ctx user version db).1 ≡ (
          if eqb_ℤ version current_safety_terms_version
          then update_user user (accept_terms ctx.now) db
          else db)
  unfolding record_terms_acceptance_conn
  accepted_tables user version db =
      elim (Option-cases (row_of User.id user (update_user user (accept_terms ctx.now) db).users)) [
        | inl missing ↦ ground arith
        | inr (row, there) ↦ ground arith
      ]

  terms_conn-IsSound :
      (user : ℕ) (version : ℤ) (db : Database)
      → IsSound parse db
      → IsSound parse (record_terms_acceptance_conn ctx user version db).1
  terms_conn-IsSound user version db v =
      subst (IsSound parse) (sym (accepted_tables user version db))
        (elim (Bool-cases (eqb_ℤ version current_safety_terms_version)) [
          | inl current ↦
              let keeps = update_user-Keeps user (accept_terms ctx.now) db (λ _. refl) in
              rw current (
                IsSound-same parse db (update_user user (accept_terms ctx.now) db) keeps.reports
                  keeps.users v)
          | inr other ↦ rw other v
        ])

  pub terms-IsSound :
      (user : ℕ) (version : ℤ) (db : Database)
      → IsSound parse db
      → IsSound parse (record_terms_acceptance ctx user version db).1
  unfolding record_terms_acceptance
  terms-IsSound user version db v =
      transaction_keeps (IsSound parse)
        (record_terms_acceptance_conn ctx user version >>= λ user.
          pure (safety_state_for_user user))
        db v
        λ state db' ran.
          let (accepted, db₁, recorded, done) =
            >>=_inv (record_terms_acceptance_conn ctx user version)
              (λ user. pure (safety_state_for_user user)) db db' state ran in
          subst (IsSound parse) (ap (λ r. r.1) done)
            (subst (IsSound parse) (ap (λ r. r.1) recorded) (terms_conn-IsSound user version db v))
