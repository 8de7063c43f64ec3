-- ===== src/Moderation/Closing.antt =====
-- What a review does: it enforces its action and closes the report.
use sync_server.Prelude.{
  ℕ, ◌≡◌, refl, ap, ◌∙◌, ◌⊎◌, inl, inr, String, Bool, true, false, Option, none, some, List, arith,
  str_eq, Option-cases,
}
use sync_server.Errors.{ok}
use sync_server.Store.{
  Database, Context, Action, User, Message, row_of, update_row, has_user, has_user_of_users,
  require_user_there, row_of-update_row, >>=_of_ok, modify, ◌>>◌,
}
use sync_server.Rooms.Types.{RoomMessage}
use sync_server.Moderation.Types.{ModerationReport}
use sync_server.Moderation.Text.{
  normalize_resolution_action, report_kind_user_profile, report_kind_direct_message,
  report_kind_room_message, resolution_remove_and_limit_new_dms,
}
use sync_server.Moderation.Blocks.{update_user}
use sync_server.Moderation.Making.{content_uuid}
use sync_server.Moderation.Review.{
  clear_profile, remove_reported_content_conn, restrict, apply_temporary_dm_restriction_conn,
  suspend, step_if, close_report, require_reviewer, store_resolution, removes_content, suspends,
  enforce, resolve_report_conn,
}

-- The content of a report can be found: it is a profile, or a message under an identifier.
abbrev pub IsReviewable : (String → Option ℕ) → ModerationReport → Type 0
IsReviewable parse report =
    (report.content_kind ≡ report_kind_user_profile)
    ⊎ (((report.content_kind ≡ report_kind_direct_message)
          ⊎ (report.content_kind ≡ report_kind_room_message))
        × ((raw : String) × (id : ℕ) × (report.content_id ≡ some raw) × (parse raw ≡ some id)))

-- The reports are the same, and the users are.
pub record Keeps (db db' : Database) : Type 0 where
  pub reports : db'.reports ≡ db.reports
  pub users : (u : ℕ) → has_user u db' ≡ has_user u db

Keeps-refl : (db : Database) → Keeps db db
Keeps-refl db = record { reports = refl; users = λ u. refl }

Keeps-trans : (a b c : Database) → Keeps a b → Keeps b c → Keeps a c
Keeps-trans a b c h k = record {
  reports = k.reports ∙ h.reports;
  users = λ u. k.users u ∙ h.users u;
}

-- A step that succeeds and keeps the reports and the users.
abbrev pub Goes : Action (Unit {0}) → Database → Type 0
Goes step db = (db' : Database) × (step db ≡ (ok tt, db')) × Keeps db db'

pub update_user-Keeps :
    (id : ℕ) (f : User → User) (db : Database)
    → ((user : User) → (f user).id ≡ user.id)
    → Keeps db (update_user id f db)
unfolding update_user has_user
update_user-Keeps id f db same = record {
  reports = refl;
  users = λ u. ground (arith, row_of-update_row User.id id u f db.users same);
}

module _ (ctx : Context) (report : ModerationReport) (db : Database) where
  uuid_found :
      (raw missing invalid : String) (id : ℕ)
      → report.content_id ≡ some raw
      → ctx.parse_uuid raw ≡ some id
      → content_uuid ctx missing invalid report.content_id ≡ ok id
  uuid_found raw missing invalid id named parsed = ground (arith, named, parsed)

  kind_is :
      (kind other : String)
      → report.content_kind ≡ kind
      → str_eq report.content_kind other ≡ str_eq kind other
  kind_is kind other e = ap (λ k. str_eq k other) e

  removal-Goes :
      IsReviewable ctx.parse_uuid report → Goes (remove_reported_content_conn ctx report) db
  unfolding remove_reported_content_conn
  removal-Goes (inl profile) = (
    update_user report.reported_user_id clear_profile db,
    ground (arith, kind_is report_kind_user_profile report_kind_user_profile profile),
    update_user-Keeps report.reported_user_id clear_profile db (λ _. refl),
  )
  removal-Goes (inr (inl direct, (raw, id, named, parsed))) = (
    record db {
      messages = update_row Message.id id (λ m. record m { deleted_at = some ctx.now }) db.messages;
    },
    ground (
      arith,
      kind_is report_kind_direct_message report_kind_user_profile direct,
      kind_is report_kind_direct_message report_kind_direct_message direct,
      uuid_found raw "Report content_id is missing" "Report content_id is invalid" id named parsed,
    ),
    record { reports = refl; users = λ u. has_user_of_users u db _ refl },
  )
  removal-Goes (inr (inr room, (raw, id, named, parsed))) = (
    record db {
      room_messages =
          update_row RoomMessage.id id (λ m. record m { deleted_at = some ctx.now })
            db.room_messages;
    },
    ground (
      arith,
      kind_is report_kind_room_message report_kind_user_profile room,
      kind_is report_kind_room_message report_kind_direct_message room,
      kind_is report_kind_room_message report_kind_room_message room,
      uuid_found raw "Report content_id is missing" "Report content_id is invalid" id named parsed,
    ),
    record { reports = refl; users = λ u. has_user_of_users u db _ refl },
  )

  user_of :
      (id : ℕ) → has_user id db ≡ true → (user : User) × (row_of User.id id db.users ≡ some user)
  unfolding has_user
  user_of id known = elim (Option-cases (row_of User.id id db.users)) [
    | inl missing ↦ absurd (ground arith)
    | inr found ↦ found
  ]

  -- The row after a restriction.
  abbrev restricted_row : User → User → User
  restricted_row user row = record row {
    dm_restricted_until = (restrict ctx.now user).dm_restricted_until;
    safety_warning_count = (restrict ctx.now user).safety_warning_count;
  }

  restriction-Goes :
      has_user report.reported_user_id db ≡ true
      → Goes (apply_temporary_dm_restriction_conn ctx report.reported_user_id) db
  unfolding apply_temporary_dm_restriction_conn
  restriction-Goes known =
      let (user, there) = user_of report.reported_user_id known in
      (
        update_user report.reported_user_id (restricted_row user) db,
        ground arith,
        update_user-Keeps report.reported_user_id (restricted_row user) db (λ _. refl),
      )

  suspension-Goes : Goes (modify (update_user report.reported_user_id suspend)) db
  suspension-Goes = (
    update_user report.reported_user_id suspend db,
    refl,
    update_user-Keeps report.reported_user_id suspend db (λ _. refl),
  )

step_if-Goes :
    (test : Bool) (step : Action (Unit {0})) (db : Database)
    → Goes step db
    → Goes (step_if test step) db
step_if-Goes true step db goes = goes
step_if-Goes false step db goes = (db, refl, Keeps-refl db)

then-Goes :
    (first second : Action (Unit {0})) (db : Database)
    → (goes : Goes first db) → Goes second goes.0
    → Goes (first >> second) db
then-Goes first second db (db₁, ran₁, keeps₁) (db₂, ran₂, keeps₂) =
    (db₂, >>=_of_ok first (λ _. second) db db₁ tt ran₁ ∙ ran₂, Keeps-trans db db₁ db₂ keeps₁ keeps₂)

module _ (ctx : Context) (report : ModerationReport) (action : String) where
  -- The three steps of `enforce`.
  abbrev removal : Action (Unit {0})
  removal = step_if (removes_content action) (remove_reported_content_conn ctx report)

  abbrev limit : Action (Unit {0})
  limit =
      step_if (str_eq action resolution_remove_and_limit_new_dms)
        (apply_temporary_dm_restriction_conn ctx report.reported_user_id)

  abbrev suspension : Action (Unit {0})
  suspension = step_if (suspends action) (modify (update_user report.reported_user_id suspend))

  -- A reviewable report about a user who is there can be enforced, whatever the action.
  pub enforce-Goes :
      (db : Database)
      → IsReviewable ctx.parse_uuid report
      → has_user report.reported_user_id db ≡ true
      → Goes (enforce ctx report action) db
  unfolding enforce
  enforce-Goes db reviewable known =
      let removed : Goes removal db =
        step_if-Goes (removes_content action) (remove_reported_content_conn ctx report) db
          (removal-Goes ctx report db reviewable) in
      let limited : Goes limit removed.0 =
        step_if-Goes (str_eq action resolution_remove_and_limit_new_dms)
          (apply_temporary_dm_restriction_conn ctx report.reported_user_id) removed.0
          (restriction-Goes ctx report removed.0
            (removed.2.users report.reported_user_id ∙ known)) in
      let suspended : Goes suspension limited.0 =
        step_if-Goes (suspends action) (modify (update_user report.reported_user_id suspend))
          limited.0 (suspension-Goes ctx report limited.0) in
      then-Goes removal (limit >> suspension) db removed
        (then-Goes limit suspension removed.0 limited suspended)

-- The reports with one of them closed.
abbrev pub closed :
    Context
    → ModerationReport
    → Option ℕ
    → String
    → Option String
    → List ModerationReport
    → List ModerationReport
closed ctx report reviewer action remark rows =
    update_row ModerationReport.id report.id (close_report ctx reviewer action remark) rows

-- The reviewer is a user, if there is one.
abbrev pub KnownReviewer : Option ℕ → Database → Type 0
KnownReviewer none db = Unit
KnownReviewer (some id) db = has_user id db ≡ true

reviewer_ok :
    (reviewer : Option ℕ) (db : Database)
    → KnownReviewer reviewer db
    → require_reviewer reviewer db ≡ (ok tt, db)
unfolding require_reviewer
reviewer_ok none db known = refl
reviewer_ok (some id) db known = require_user_there id db known

stays_known :
    (reviewer : Option ℕ) (db db' : Database)
    → Keeps db db'
    → KnownReviewer reviewer db
    → KnownReviewer reviewer db'
stays_known none db db' keeps known = tt
stays_known (some id) db db' keeps known = keeps.users id ∙ known

same_id :
    (ctx : Context) (reviewer : Option ℕ) (action : String) (remark : Option String)
    (row : ModerationReport)
    → (close_report ctx reviewer action remark row).id ≡ row.id
unfolding close_report
same_id ctx reviewer action remark row = refl

module _ (ctx : Context) (report : ModerationReport) (reviewer : Option ℕ) (action : String)
    (remark : Option String) where
  reviewer_runs :
      (db : Database) → KnownReviewer reviewer db → require_reviewer reviewer db ≡ (ok tt, db)
  reviewer_runs db known = reviewer_ok reviewer db known

  store_runs :
      (db : Database) (row : ModerationReport)
      → KnownReviewer reviewer db
      → row_of ModerationReport.id report.id db.reports ≡ some row
      → store_resolution ctx report reviewer action remark db ≡ (
        ok (close_report ctx reviewer action remark row),
        record db { reports = closed ctx report reviewer action remark db.reports },
      )
  unfolding store_resolution
  store_runs db row known there = ground (
    arith,
    reviewer_runs db known,
    row_of-update_row ModerationReport.id report.id report.id
        (close_report ctx reviewer action remark) db.reports (same_id ctx reviewer action remark),
  )

  -- A review by a known reviewer, or by nobody, of a reviewable report that is stored about a user who
  -- is there succeeds: the report is closed, no other report changes, and the users stay.
  pub resolve_runs :
      (db : Database) (row : ModerationReport) (named : String)
      → normalize_resolution_action named ≡ ok action
      → IsReviewable ctx.parse_uuid report
      → has_user report.reported_user_id db ≡ true
      → KnownReviewer reviewer db
      → row_of ModerationReport.id report.id db.reports ≡ some row
      → (db' : Database) × (resolve_report_conn ctx report reviewer named remark db
          ≡ (ok (close_report ctx reviewer action remark row), db'))
        × (db'.reports ≡ closed ctx report reviewer action remark db.reports)
        × ((u : ℕ) → has_user u db' ≡ has_user u db)
  unfolding resolve_report_conn
  resolve_runs db row named is_action reviewable known reviewer_known there =
      let (db₁, enforced, keeps) = enforce-Goes ctx report action db reviewable known in
      let found : row_of ModerationReport.id report.id db₁.reports ≡ some row =
        ap (row_of ModerationReport.id report.id) keeps.reports ∙ there in
      (
        record db₁ { reports = closed ctx report reviewer action remark db₁.reports },
        ground (
          arith,
          enforced,
          store_runs db₁ row (stays_known reviewer db db₁ keeps reviewer_known) found,
        ),
        ap (closed ctx report reviewer action remark) keeps.reports,
        λ u. has_user_of_users u db₁ _ refl ∙ keeps.users u,
      )
