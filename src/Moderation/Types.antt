-- ===== src/Moderation/Types.antt =====
-- src/models/moderation.rs and the views of services/moderation_service.rs. A `Uuid` is a native
-- number and a `DateTime<Utc>` counts microseconds since 1970.
use sync_server.Prelude.{ℕ, String, Bool, Option}
use sync_server.Prelude.Int.{ℤ}
use sync_server.Guild.Types.{Value}

pub record ModerationReport : Type 0 where
  pub id : ℕ
  pub reporter_user_id : ℕ
  pub reported_user_id : ℕ
  pub source : String
  pub content_kind : String
  pub content_id : Option String
  pub reason_code : String
  pub reporter_note : Option String
  pub content_excerpt : Option String
  pub status : String
  pub resolution_action : Option String
  pub resolution_notes : Option String
  pub metadata : Value
  pub review_due_at : ℕ
  pub reviewed_by_user_id : Option ℕ
  pub reviewed_at : Option ℕ
  pub created_at : ℕ
  pub updated_at : ℕ

pub record UserBlock : Type 0 where
  pub blocker_user_id : ℕ
  pub blocked_user_id : ℕ
  pub report_id : Option ℕ
  pub reason_code : Option String
  pub reporter_note : Option String
  pub created_at : ℕ

pub record UserSafetyStatePublic : Type 0 where
  pub current_terms_version : ℤ
  pub accepted_terms_version : ℤ
  pub terms_accepted_at : Option ℕ
  pub requires_terms_acceptance : Bool

pub record BlockedUserView : Type 0 where
  pub user_id : ℕ
  pub username : String
  pub avatar_base64 : Option String
  pub blocked_at : ℕ

pub record ReportInput : Type 0 where
  pub reported_user_id : ℕ
  pub source : String
  pub content_kind : String
  pub content_id : Option String
  pub reason_code : String
  pub reporter_note : Option String
  pub content_excerpt_override : Option String

pub data ModerationReportStatusFilter : Type 0 where
  open_reports resolved_reports dismissed_reports any_reports : ModerationReportStatusFilter

pub record AdminModerationReportView : Type 0 where
  pub id : ℕ
  pub reporter_user_id : ℕ
  pub reporter_username : String
  pub reported_user_id : ℕ
  pub reported_username : String
  pub source : String
  pub content_kind : String
  pub content_id : Option String
  pub reason_code : String
  pub reporter_note : Option String
  pub content_excerpt : Option String
  pub status : String
  pub resolution_action : Option String
  pub resolution_notes : Option String
  pub review_due_at : ℕ
  pub reviewed_by_user_id : Option ℕ
  pub reviewed_at : Option ℕ
  pub created_at : ℕ
  pub updated_at : ℕ
