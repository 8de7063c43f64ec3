-- ===== src/Moderation/Steps.antt =====
-- The reports over time: every operation that writes them is a step, whatever its arguments, its clock
-- and its outcome.
use sync_server.Prelude.{ℕ, ◌≡◌, sym, subst, String, Option}
use sync_server.Prelude.Int.{ℤ}
use sync_server.Store.{Database, Context}
use sync_server.Moderation.Types.{ReportInput}
use sync_server.Moderation.Blocks.{unblock_user, record_terms_acceptance}
use sync_server.Moderation.Making.{create_report, block_user}
use sync_server.Moderation.Review.{run_automatic_review_pass, resolve_report}
use sync_server.Moderation.Sound.{IsSound, create-IsSound}
use sync_server.Moderation.Keeping.{
  unblock-IsSound, block-IsSound, resolve-IsSound, pass-IsSound, terms-IsSound,
}

-- One call of the service. The codec of identifiers is the same at all times.
pub data Step (parse : String → Option ℕ) (db db' : Database) : Type 0 where
  reports_made :
      (ctx : Context) (reporter : ℕ) (input : ReportInput)
      → ctx.parse_uuid ≡ parse
      → db' ≡ (create_report ctx reporter input db).1
      → Step parse db db'
  blocks_made :
      (ctx : Context) (blocker blocked : ℕ) (reason remark : Option String)
      → ctx.parse_uuid ≡ parse
      → db' ≡ (block_user ctx blocker blocked reason remark db).1
      → Step parse db db'
  blocks_lifted :
      (blocker blocked : ℕ) → db' ≡ (unblock_user blocker blocked db).1 → Step parse db db'
  reports_resolved :
      (ctx : Context) (report_id reviewer : ℕ) (action : String) (remark : Option String)
      → ctx.parse_uuid ≡ parse
      → db' ≡ (resolve_report ctx report_id reviewer action remark db).1
      → Step parse db db'
  passes_run :
      (ctx : Context)
      → ctx.parse_uuid ≡ parse
      → db' ≡ (run_automatic_review_pass ctx db).1
      → Step parse db db'
  terms_accepted :
      (ctx : Context) (user : ℕ) (version : ℤ)
      → ctx.parse_uuid ≡ parse
      → db' ≡ (record_terms_acceptance ctx user version db).1
      → Step parse db db'

pub data Reach (parse : String → Option ℕ) (start : Database) : Database → Type 0 where
  here : Reach parse start start
  next : {db db' : Database} → Reach parse start db → Step parse db db' → Reach parse start db'

Step-IsSound :
    {parse : String → Option ℕ} {db db' : Database}
    → Step parse db db'
    → IsSound parse db
    → IsSound parse db'
Step-IsSound {parse} {db} (reports_made ctx reporter input codec e) v =
    subst (IsSound parse) (sym e) (create-IsSound ctx parse reporter input db codec v)
Step-IsSound {parse} {db} (blocks_made ctx blocker blocked reason remark codec e) v =
    subst (IsSound parse) (sym e) (block-IsSound ctx parse codec blocker blocked reason remark db v)
Step-IsSound {parse} {db} (blocks_lifted blocker blocked e) v =
    subst (IsSound parse) (sym e) (unblock-IsSound parse blocker blocked db v)
Step-IsSound {parse} {db} (reports_resolved ctx report_id reviewer action remark codec e) v =
    subst (IsSound parse) (sym e)
      (resolve-IsSound ctx parse codec report_id reviewer action remark db v)
Step-IsSound {parse} {db} (passes_run ctx codec e) v =
    subst (IsSound parse) (sym e) (pass-IsSound ctx parse codec db v)
Step-IsSound {parse} {db} (terms_accepted ctx user version codec e) v =
    subst (IsSound parse) (sym e) (terms-IsSound ctx parse codec user version db v)

-- Whatever calls are made, at whatever times and with whatever outcomes, from sound tables: each report
-- keeps an identifier of its own, is open without a resolution, or has a status that goes with its
-- resolution and the time of its review, is about a user who is there, and has content that a review
-- can find.
pub Reach-IsSound :
    {parse : String → Option ℕ} {start db : Database}
    → IsSound parse start
    → Reach parse start db
    → IsSound parse db
Reach-IsSound v here = v
Reach-IsSound v (next before step) = Step-IsSound step (Reach-IsSound v before)
