-- ===== src/Moderation/Blocking.antt =====
-- What a block does: it is made once, with a report, and stops messages both ways until it is lifted.
use sync_server.Prelude.{
  ℕ, ◌≡◌, ◌≢◌, refl, String, true, false, not, ◌&&◌, Option, none, some, List, [], ◌∷◌, arith, ◌==◌,
  any,
}
use sync_server.Prelude.Text.{trim}
use sync_server.Errors.{ok}
use sync_server.Store.{Database, Context, User, row_of, has_user, require_user_there, delete_where}
use sync_server.Moderation.Types.{ModerationReport, UserBlock, BlockedUserView}
use sync_server.Moderation.Text.{
  normalize_report_source, normalize_content_kind, normalize_optional_text, one_of,
  report_source_block, report_kind_user_profile, report_status_open,
}
use sync_server.Moderation.Blocks.{
  is_block_of, is_user_blocked, unblock_user, ensure_direct_message_allowed,
}
use sync_server.Moderation.Making.{
  content_excerpt_conn, require_fresh_report, user_excerpt, new_report, insert_report,
  describe_and_insert, report_user, create_report_conn, block_input, insert_block, block_once,
  block_conn, block_user,
}
use sync_server.Moderation.Messaging.{direct_message_iff}

source_named : normalize_report_source report_source_block ≡ ok report_source_block
unfolding normalize_report_source one_of trim
source_named = refl

kind_named : normalize_content_kind report_kind_user_profile ≡ ok report_kind_user_profile
unfolding normalize_content_kind one_of trim
kind_named = refl

no_content : normalize_optional_text none ≡ none
unfolding normalize_optional_text
no_content = refl

module _ (ctx : Context) (blocker blocked : ℕ) (reason remark : Option String) (db : Database) where
  -- The report that a block makes.
  abbrev pub block_report : User → ModerationReport
  block_report user =
      new_report ctx blocker (block_input blocked reason remark) report_source_block
        report_kind_user_profile (user_excerpt user)

  abbrev pub new_block : User → UserBlock
  new_block user = record {
    blocker_user_id = blocker;
    blocked_user_id = blocked;
    report_id = some (block_report user).id;
    reason_code = some (block_report user).reason_code;
    reporter_note = (block_report user).reporter_note;
    created_at = ctx.db_now;
  }

  abbrev pub after_block : User → Database
  after_block user = record db {
    reports = block_report user ∷ db.reports;
    blocks = new_block user ∷ db.blocks;
  }

  has_user-row_of :
      (id : ℕ) (user : User) → row_of User.id id db.users ≡ some user → has_user id db ≡ true
  unfolding has_user
  has_user-row_of id user there = ground arith

  module _ (other : blocker ≢ blocked) (user : User)
      (there : row_of User.id blocked db.users ≡ some user) (known : has_user blocker db ≡ true)
      (fresh : row_of ModerationReport.id ctx.new_id db.reports ≡ none) where
    excerpt_runs :
        content_excerpt_conn ctx blocked report_kind_user_profile none db
        ≡ (ok (user_excerpt user), db)
    unfolding content_excerpt_conn
    excerpt_runs = ground arith

    insert_runs :
        insert_report (block_report user) db
        ≡ (ok (block_report user), record db { reports = block_report user ∷ db.reports })
    unfolding insert_report require_fresh_report new_report
    insert_runs = ground (
      arith,
      require_user_there blocker db known,
      require_user_there blocked db (has_user-row_of blocked user there),
    )

    report_runs :
        create_report_conn ctx blocker (block_input blocked reason remark) db
        ≡ (ok (block_report user), record db { reports = block_report user ∷ db.reports })
    unfolding create_report_conn report_user describe_and_insert
    report_runs = ground (arith, source_named, kind_named, no_content, excerpt_runs, insert_runs)

    block_once_runs :
        is_user_blocked blocker blocked db ≡ false
        → block_once ctx blocker blocked reason remark db ≡ (ok tt, after_block user)
    unfolding block_once insert_block
    block_once_runs new = ground (arith, report_runs)

    block_runs :
        is_user_blocked blocker blocked db ≡ false
        → (v : BlockedUserView) × (block_user ctx blocker blocked reason remark db
            ≡ (ok v, after_block user))
          × (v.user_id ≡ user.id)
    unfolding block_user block_conn
    block_runs new = (
      record {
        user_id = user.id;
        username = user.username;
        avatar_base64 = user.avatar_base64;
        blocked_at = ctx.now;
      },
      ground (arith, block_once_runs new),
      refl,
    )

block_again_runs :
    (ctx : Context) (blocker blocked : ℕ) (reason remark : Option String) (db : Database)
    (user : User)
    → blocker ≢ blocked
    → row_of User.id blocked db.users ≡ some user
    → is_user_blocked blocker blocked db ≡ true
    → (v : BlockedUserView) × (block_user ctx blocker blocked reason remark db ≡ (ok v, db))
      × (v.user_id ≡ user.id)
unfolding block_user block_conn block_once
block_again_runs ctx blocker blocked reason remark db user other there old = (
  record {
    user_id = user.id;
    username = user.username;
    avatar_base64 = user.avatar_base64;
    blocked_at = ctx.now;
  },
  ground arith,
  refl,
)

blocked_by_new :
    (ctx : Context) (blocker blocked : ℕ) (reason remark : Option String) (db : Database)
    (user : User)
    → is_user_blocked blocker blocked (after_block ctx blocker blocked reason remark db user) ≡ true
unfolding is_user_blocked
blocked_by_new ctx blocker blocked reason remark db user = ground arith

still_user :
    (ctx : Context) (blocker blocked : ℕ) (reason remark : Option String) (db : Database)
    (user : User)
    → row_of User.id blocked db.users ≡ some user
    → row_of User.id blocked (after_block ctx blocker blocked reason remark db user).users
      ≡ some user
still_user ctx blocker blocked reason remark db user there = there

-- A user blocks another for the first time, under a report identifier that is not in use: one open
-- report and one block are added, and nothing else has changed. To block again, at whatever time and
-- for whatever reason, answers well and changes nothing.
pub block_twice :
    (ctx : Context) (blocker blocked : ℕ) (reason remark : Option String) (db : Database)
    (user : User)
    → blocker ≢ blocked
    → row_of User.id blocked db.users ≡ some user
    → has_user blocker db ≡ true
    → row_of ModerationReport.id ctx.new_id db.reports ≡ none
    → is_user_blocked blocker blocked db ≡ false
    → (v : BlockedUserView) × (db' : Database) × (report : ModerationReport) × (block : UserBlock)
      × (block_user ctx blocker blocked reason remark db ≡ (ok v, db'))
      × (db' ≡ record db { reports = report ∷ db.reports; blocks = block ∷ db.blocks })
      × (report.status ≡ report_status_open)
      × (report.reported_user_id ≡ blocked)
      × (block.report_id ≡ some report.id)
      × ((later : Context) (reason' remark' : Option String)
          → (v' : BlockedUserView) × (block_user later blocker blocked reason' remark' db'
              ≡ (ok v', db')))
unfolding new_report
block_twice ctx blocker blocked reason remark db user other there known fresh new =
    let (v, ran, named) =
      block_runs ctx blocker blocked reason remark db other user there known fresh new in
    (
      v,
      after_block ctx blocker blocked reason remark db user,
      block_report ctx blocker blocked reason remark db user,
      new_block ctx blocker blocked reason remark db user,
      ran,
      refl,
      refl,
      refl,
      refl,
      λ later reason' remark'.
          let (v', again, named') =
            block_again_runs later blocker blocked reason' remark'
              (after_block ctx blocker blocked reason remark db user) user other
              (still_user ctx blocker blocked reason remark db user there)
              (blocked_by_new ctx blocker blocked reason remark db user) in
          (v', again),
    )

-- While one of two users blocks the other, neither may write to the other, whenever he tries.
block_stops_messages :
    (ctx : Context) (a b : ℕ) (db : Database)
    → is_user_blocked a b db ≡ true
    → (ensure_direct_message_allowed ctx a b db ≢ (ok tt, db))
      × (ensure_direct_message_allowed ctx b a db ≢ (ok tt, db))
block_stops_messages ctx a b db blocks = (
  λ passed.
      let (user, there, card, blocked, welcome, free) = (direct_message_iff ctx a b db).0 passed in
      cc,
  λ passed.
      let (user, there, card, blocked, welcome, free) = (direct_message_iff ctx b a db).0 passed in
      cc,
)

nothing_to_lift :
    (a b : ℕ) (blocks : List UserBlock)
    → any (is_block_of a b) blocks ≡ false
    → delete_where (is_block_of a b) blocks ≡ blocks
unfolding delete_where
nothing_to_lift a b [] h = refl
nothing_to_lift a b (x ∷ xs) h = ground (arith, nothing_to_lift a b xs)

lifted :
    (a b c d : ℕ) (blocks : List UserBlock)
    → any (is_block_of c d) (delete_where (is_block_of a b) blocks)
      ≡ not (c == a && d == b) && any (is_block_of c d) blocks
unfolding delete_where
lifted a b c d [] = ground arith
lifted a b c d (x ∷ xs) = ground (arith, lifted a b c d xs)

nothing_to_lift_new :
    (ctx : Context) (blocker blocked : ℕ) (reason remark : Option String) (db : Database)
    (user : User)
    → is_user_blocked blocker blocked db ≡ false
    → delete_where
        (is_block_of blocker blocked)
        (after_block ctx blocker blocked reason remark db user).blocks
      ≡ db.blocks
unfolding is_user_blocked delete_where
nothing_to_lift_new ctx blocker blocked reason remark db user new =
    ground (arith, nothing_to_lift blocker blocked db.blocks new)

-- After a block that is new, lifting it ends it and no other block, and the blocks are those before.
pub unblock-block :
    (ctx : Context) (blocker blocked : ℕ) (reason remark : Option String) (db : Database)
    (user : User)
    → blocker ≢ blocked
    → row_of User.id blocked db.users ≡ some user
    → has_user blocker db ≡ true
    → row_of ModerationReport.id ctx.new_id db.reports ≡ none
    → is_user_blocked blocker blocked db ≡ false
    → (v : BlockedUserView) × (db' : Database) × (block_user ctx blocker blocked reason remark db
        ≡ (ok v, db'))
      × (is_user_blocked blocker blocked db' ≡ true)
      × ((c d : ℕ)
          → is_user_blocked c d (unblock_user blocker blocked db').1
            ≡ not (c == blocker && d == blocked) && is_user_blocked c d db')
      × ((unblock_user blocker blocked db').1.blocks ≡ db.blocks)
unfolding is_user_blocked unblock_user
unblock-block ctx blocker blocked reason remark db user other there known fresh new =
    let (v, ran, named) =
      block_runs ctx blocker blocked reason remark db other user there known fresh new in
    (
      v,
      after_block ctx blocker blocked reason remark db user,
      ran,
      blocked_by_new ctx blocker blocked reason remark db user,
      λ c d.
          lifted blocker blocked c d (after_block ctx blocker blocked reason remark db user).blocks,
      nothing_to_lift_new ctx blocker blocked reason remark db user new,
    )
