-- ===== src/Moderation/Sound.antt =====
-- What holds of the reports between two calls: each is open, or closed with its resolution, can be
-- reviewed, and is about a user who is there.
use sync_server.Prelude.{
  ℕ, ◌≡◌, refl, sym, subst, ◌∙◌, ◌⊎◌, inl, inr, String, true, false, Option, none, some, List, [],
  ◌∷◌, arith, ◌==◌, map, All, str_eq, str_eq_iff, Bool-cases, Option-cases,
}
use sync_server.Prelude.Sets.{contains, IsNodup}
use sync_server.Errors.{ok}
use sync_server.Store.{
  Database, Context, User, row_of, has_user, require_user, has_user_of_users, lift, lift_inv,
  same_inv, transaction_keeps, ◌>>=◌,
}
use sync_server.Moderation.Types.{ModerationReport, ReportInput}
use sync_server.Moderation.Text.{
  normalize_report_source, normalize_content_kind, normalize_optional_text, report_status_open,
  report_kind_user_profile, report_kind_direct_message, report_kind_room_message,
}
use sync_server.Moderation.Blocks.{find_user}
use sync_server.Moderation.Making.{
  content_excerpt_conn, require_fresh_report, new_report, insert_report, describe_and_insert,
  report_user, create_report_conn, create_report,
}
use sync_server.Moderation.Review.{next_status}
use sync_server.Moderation.Closing.{IsReviewable}

abbrev pub IsSettled : ModerationReport → Type 0
IsSettled report =
    ((report.status ≡ report_status_open)
      × (report.resolution_action ≡ none)
      × (report.reviewed_by_user_id ≡ none)
      × (report.reviewed_at ≡ none))
    ⊎ ((action : String) × (at : ℕ) × (report.status ≡ next_status action)
        × (report.resolution_action ≡ some action)
        × (report.reviewed_at ≡ some at))

pub record IsSound (parse : String → Option ℕ) (db : Database) : Type 0 where
  pub reports_once : IsNodup (map ModerationReport.id db.reports)
  pub reviewable : All (IsReviewable parse) db.reports
  pub about_users : All (λ r. has_user r.reported_user_id db ≡ true) db.reports
  pub settled : All IsSettled db.reports

-- The kind and the identifier of the content decide whether it can be reviewed.
abbrev pub HasContent : (String → Option ℕ) → String → Option String → Type 0
HasContent parse kind content_id =
    (kind ≡ report_kind_user_profile)
    ⊎ (((kind ≡ report_kind_direct_message) ⊎ (kind ≡ report_kind_room_message))
        × ((raw : String) × (id : ℕ) × (content_id ≡ some raw) × (parse raw ≡ some id)))

-- An excerpt is only taken of content that is there.
excerpt-HasContent :
    (ctx : Context) (reported : ℕ) (kind : String) (content_id : Option String)
    (excerpt : Option String) (db db' : Database)
    → content_excerpt_conn ctx reported kind content_id db ≡ (ok excerpt, db')
    → HasContent ctx.parse_uuid kind content_id
unfolding content_excerpt_conn
excerpt-HasContent ctx reported kind none excerpt db db' h =
    elim (Bool-cases (str_eq kind report_kind_user_profile)) [
      | inl profile ↦ inl ((str_eq_iff kind report_kind_user_profile).0 profile)
      | inr no_profile ↦ absurd (ground arith)
    ]
excerpt-HasContent ctx reported kind (some raw) excerpt db db' h =
    elim (Bool-cases (str_eq kind report_kind_user_profile)) [
      | inl profile ↦ inl ((str_eq_iff kind report_kind_user_profile).0 profile)
      | inr no_profile ↦ elim (Option-cases (ctx.parse_uuid raw)) [
        | inl bad ↦ absurd (ground arith)
        | inr (id, parsed) ↦ elim (Bool-cases (str_eq kind report_kind_direct_message)) [
          | inl direct ↦
              inr (
                inl ((str_eq_iff kind report_kind_direct_message).0 direct),
                (raw, id, refl, parsed),
              )
          | inr no_direct ↦ elim (Bool-cases (str_eq kind report_kind_room_message)) [
            | inl room ↦
                inr
                  (inr ((str_eq_iff kind report_kind_room_message).0 room), (raw, id, refl, parsed))
            | inr no_room ↦ absurd (ground arith)
          ]
        ]
      ]
    ]

excerpt_keeps :
    (ctx : Context) (reported : ℕ) (kind : String) (content_id : Option String) (db : Database)
    → (content_excerpt_conn ctx reported kind content_id db).1 ≡ db
unfolding content_excerpt_conn
excerpt_keeps ctx reported kind content_id db = ground arith

-- What a call adds that made a report.
pub record Adds (ctx : Context) (db : Database) (report : ModerationReport) (db' : Database)
    : Type 0 where
  pub added : db' ≡ record db { reports = report ∷ db.reports }
  pub fresh : row_of ModerationReport.id report.id db.reports ≡ none
  pub about_user : has_user report.reported_user_id db ≡ true
  pub has_content : HasContent ctx.parse_uuid report.content_kind report.content_id
  pub is_open : IsSettled report

insert_inv :
    (report r : ModerationReport) (db db' : Database)
    → insert_report report db ≡ (ok r, db')
    → (r ≡ report)
      × (db' ≡ record db { reports = report ∷ db.reports })
      × (row_of ModerationReport.id report.id db.reports ≡ none)
      × (has_user report.reported_user_id db ≡ true)
unfolding insert_report require_fresh_report require_user
insert_inv report r db db' h =
    elim (Option-cases (row_of ModerationReport.id report.id db.reports)) [
      | inr (old, there) ↦ absurd (ground arith)
      | inl fresh ↦ elim (Bool-cases (has_user report.reporter_user_id db)) [
        | inr stranger ↦ absurd (ground arith)
        | inl reporter ↦ elim (Bool-cases (has_user report.reported_user_id db)) [
          | inr nobody ↦ absurd (ground arith)
          | inl known ↦ (ground arith, ground arith, fresh, known)
        ]
      ]
    ]

pub find_user_keeps : (id : ℕ) (db : Database) → (find_user id db).1 ≡ db
find_user_keeps id db = ground arith

describe_inv :
    (ctx : Context) (reporter : ℕ) (input : ReportInput) (source kind : String)
    (r : ModerationReport) (db db' : Database)
    → describe_and_insert ctx reporter input source kind db ≡ (ok r, db')
    → Adds ctx db r db'
unfolding describe_and_insert new_report
describe_inv ctx reporter input source kind r db db' h =
    let (excerpt, taken, inserted) =
      same_inv
        (content_excerpt_conn ctx input.reported_user_id kind
          (normalize_optional_text input.content_id))
        (λ excerpt. insert_report (new_report ctx reporter input source kind excerpt)) db db' r
        (excerpt_keeps ctx input.reported_user_id kind (normalize_optional_text input.content_id)
          db)
        h in
    let (same, added, fresh, known) =
      insert_inv (new_report ctx reporter input source kind excerpt) r db db' inserted in
    let here : Adds ctx db (new_report ctx reporter input source kind excerpt) db' = record {
      added = added;
      fresh = fresh;
      about_user = known;
      has_content =
          excerpt-HasContent ctx input.reported_user_id kind
            (normalize_optional_text input.content_id) excerpt db db taken;
      is_open = inl (refl, refl, refl, refl);
    } in
    subst (λ (x : ModerationReport). Adds ctx db x db') (sym same) here

report_user_inv :
    (ctx : Context) (reporter : ℕ) (input : ReportInput) (user : User) (r : ModerationReport)
    (db db' : Database)
    → report_user ctx reporter input user db ≡ (ok r, db')
    → Adds ctx db r db'
unfolding report_user
report_user_inv ctx reporter input user r db db' h =
    let (source, is_source, h₁) =
      lift_inv (normalize_report_source input.source)
        (λ source. lift (normalize_content_kind input.content_kind) >>= λ kind.
          describe_and_insert ctx reporter input source kind)
        db db' r h in
    let (kind, is_kind, h₂) =
      lift_inv (normalize_content_kind input.content_kind)
        (λ kind. describe_and_insert ctx reporter input source kind) db db' r h₁ in
    describe_inv ctx reporter input source kind r db db' h₂

pub create_inv :
    (ctx : Context) (reporter : ℕ) (input : ReportInput) (r : ModerationReport) (db db' : Database)
    → create_report_conn ctx reporter input db ≡ (ok r, db')
    → Adds ctx db r db'
unfolding create_report_conn
create_inv ctx reporter input r db db' h = elim (Bool-cases (reporter == input.reported_user_id)) [
  | inl self ↦ absurd (ground arith)
  | inr other ↦
      let (user, found, rest) =
        same_inv (find_user input.reported_user_id) (report_user ctx reporter input) db db' r
          (find_user_keeps input.reported_user_id db) (ground arith) in
      report_user_inv ctx reporter input user r db db' rest
]

fresh_id :
    (id : ℕ) (rows : List ModerationReport)
    → row_of ModerationReport.id id rows ≡ none
    → contains id (map ModerationReport.id rows) ≡ false
fresh_id id [] h = refl
fresh_id id (row ∷ rows) h = ground (arith, fresh_id id rows)

-- A report that was added keeps the reports sound.
pub Adds-IsSound :
    (ctx : Context) (parse : String → Option ℕ) (r : ModerationReport) (db db' : Database)
    → ctx.parse_uuid ≡ parse
    → IsSound parse db
    → Adds ctx db r db'
    → IsSound parse db'
Adds-IsSound ctx parse r db db' codec v a = subst (IsSound parse) (sym a.added) (record {
  reports_once = (fresh_id r.id db.reports a.fresh, v.reports_once);
  reviewable =
      (subst (λ (p : String → Option ℕ). IsReviewable p r) codec a.has_content, v.reviewable);
  about_users = (
    has_user_of_users r.reported_user_id db _ refl ∙ a.about_user,
    still_known db.reports v.about_users,
  );
  settled = (a.is_open, v.settled);
})
  where
    still_known :
        (rows : List ModerationReport)
        → All (λ x. has_user x.reported_user_id db ≡ true) rows
        → All
            (λ x. has_user x.reported_user_id (record db { reports = r ∷ db.reports }) ≡ true)
            rows
    still_known [] h = tt
    still_known (x ∷ xs) (hx, h) =
        (has_user_of_users x.reported_user_id db _ refl ∙ hx, still_known xs h)

pub create-IsSound :
    (ctx : Context) (parse : String → Option ℕ) (reporter : ℕ) (input : ReportInput) (db : Database)
    → ctx.parse_uuid ≡ parse
    → IsSound parse db
    → IsSound parse (create_report ctx reporter input db).1
unfolding create_report
create-IsSound ctx parse reporter input db codec v =
    transaction_keeps (IsSound parse) (create_report_conn ctx reporter input) db v (λ r db' made.
      Adds-IsSound ctx parse r db db' codec v (create_inv ctx reporter input r db db' made))
