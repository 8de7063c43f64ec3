-- ===== src/Guild/Stats/Rows.antt =====
-- What the writes to `user_guild_stats` do to the row of one user.
use sync_server.Prelude.{
  ℕ, ◌≡◌, ◌≢◌, refl, ◌∙◌, Bool-cases, ◌&&◌, true, false, some, List, [], ◌∷◌, arith, str_eq,
  str_eq_iff, inl, inr,
}
use sync_server.Prelude.Int.{ℤ, add32, pos, eqb_ℤ, eq_of_parts}
use sync_server.Errors.{ok}
use sync_server.Store.{Database, Context, Action, Message, row_of, row_of-update_row}
use sync_server.Guild.Types.{LevelPolicy, RankPolicy, GuildPolicyConfig, UserGuildStats}
use sync_server.Guild.Ranking.{level_policy_for_active_days, rank_policy_for_score}
use sync_server.Guild.Activity.{
  HumanActivityAssessment, assess_human_activity, is_today, set_activity, assessed,
}
use sync_server.Guild.Stats.{
  stats_of, update_stats, update_stats_result, set_derived, sync_derived_state,
  update_human_activity_state, set_active_day, advance_active_day_if_needed, audit_if_changed,
  insert_audit,
}

-- The tables of rooms, reports and blocks are the same.
pub record SameElsewhere (db db' : Database) : Type 0 where
  pub rooms : db'.rooms ≡ db.rooms
  pub room_members : db'.room_members ≡ db.room_members
  pub room_messages : db'.room_messages ≡ db.room_messages
  pub reports : db'.reports ≡ db.reports
  pub blocks : db'.blocks ≡ db.blocks

SameElsewhere-trans :
    {db db' db'' : Database} → SameElsewhere db db' → SameElsewhere db' db'' → SameElsewhere db db''
SameElsewhere-trans a b = record {
  rooms = b.rooms ∙ a.rooms;
  room_members = b.room_members ∙ a.room_members;
  room_messages = b.room_messages ∙ a.room_messages;
  reports = b.reports ∙ a.reports;
  blocks = b.blocks ∙ a.blocks;
}

-- The user's row has become `row`, and nothing else has changed but the audit log.
pub record Became (db : Database) (user_id : ℕ) (row : UserGuildStats) (db' : Database)
    : Type 0 where
  pub found : stats_of user_id db' ≡ some row
  pub others : (j : ℕ) → j ≢ user_id → stats_of j db' ≡ stats_of j db
  pub users : db'.users ≡ db.users
  pub settings : db'.settings ≡ db.settings
  pub counters : db'.counters ≡ db.counters
  pub events : db'.events ≡ db.events
  pub messages : db'.messages ≡ db.messages
  pub elsewhere : SameElsewhere db db'

module _ {db : Database} {user_id : ℕ} where
  pub Became-refl :
      (row : UserGuildStats) → stats_of user_id db ≡ some row → Became db user_id row db
  Became-refl row h = record {
    found = h;
    others = λ j ne. refl;
    users = refl;
    settings = refl;
    counters = refl;
    events = refl;
    messages = refl;
    elsewhere = record {
      rooms = refl;
      room_members = refl;
      room_messages = refl;
      reports = refl;
      blocks = refl;
    };
  }

  pub Became-trans :
      {db' db'' : Database} {row row' : UserGuildStats}
      → Became db user_id row db'
      → Became db' user_id row' db''
      → Became db user_id row' db''
  Became-trans a b = record {
    found = b.found;
    others = λ j ne. b.others j ne ∙ a.others j ne;
    users = b.users ∙ a.users;
    settings = b.settings ∙ a.settings;
    counters = b.counters ∙ a.counters;
    events = b.events ∙ a.events;
    messages = b.messages ∙ a.messages;
    elsewhere = SameElsewhere-trans a.elsewhere b.elsewhere;
  }

-- Messages and counters are set back.
pub Became-but :
    {db db' : Database} {user_id : ℕ} {row : UserGuildStats} (messages : List Message)
    → messages ≡ db.messages
    → Became db user_id row db'
    → Became db user_id row (record db' { messages = messages; counters = db.counters })
Became-but messages same b = record {
  found = b.found;
  others = b.others;
  users = b.users;
  settings = b.settings;
  counters = refl;
  events = b.events;
  messages = same;
  elsewhere = record {
    rooms = b.elsewhere.rooms;
    room_members = b.elsewhere.room_members;
    room_messages = b.elsewhere.room_messages;
    reports = b.elsewhere.reports;
    blocks = b.elsewhere.blocks;
  };
}

user_id_of_found :
    (user_id : ℕ) (rows : List UserGuildStats) (row : UserGuildStats)
    → row_of (λ r. r.user_id) user_id rows ≡ some row
    → row.user_id ≡ user_id
user_id_of_found user_id [] row h = cc
user_id_of_found user_id (r ∷ rows) row h = ground (arith, user_id_of_found user_id rows row)

module _ (user_id : ℕ) (f : UserGuildStats → UserGuildStats)
    (keep : (r : UserGuildStats) → (f r).user_id ≡ r.user_id) (db : Database) (row : UserGuildStats)
    (h : stats_of user_id db ≡ some row) where
  pub update_stats-Became : Became db user_id (f row) (update_stats user_id f db)
  update_stats-Became = record {
    found = ground (arith, row_of-update_row (λ r. r.user_id) user_id user_id f db.stats keep);
    others = λ j ne. ground (arith, row_of-update_row (λ r. r.user_id) user_id j f db.stats keep);
    users = refl;
    settings = refl;
    counters = refl;
    events = refl;
    messages = refl;
    elsewhere = record {
      rooms = refl;
      room_members = refl;
      room_messages = refl;
      reports = refl;
      blocks = refl;
    };
  }

  pub update_stats_result_lem :
      update_stats_result user_id f db ≡ (ok (f row), update_stats user_id f db)
  unfolding update_stats_result
  update_stats_result_lem = rw update_stats-Became.found

-- Where the columns already have their derived values the update would change nothing.
set_derived_same :
    (level : LevelPolicy) (rank : RankPolicy) (row : UserGuildStats)
    → eqb_ℤ row.derived_level (pos level.level) && str_eq row.derived_rank rank.rank ≡ true
    → set_derived level rank row ≡ row
unfolding set_derived
set_derived_same level rank row h =
    ground (
      arith,
      str_eq_iff row.derived_rank rank.rank,
      eq_of_parts row.derived_level (pos level.level),
    )

-- The result of a write, and the tables after it.
abbrev pub Writes : Database → ℕ → Action UserGuildStats → UserGuildStats → Type 0
Writes db user_id m row = (db' : Database) × (m db ≡ (ok row, db')) × Became db user_id row db'

set_derived-user_id :
    (level : LevelPolicy) (rank : RankPolicy) (r : UserGuildStats)
    → (set_derived level rank r).user_id ≡ r.user_id
unfolding set_derived
set_derived-user_id level rank r = refl

set_activity-user_id :
    (now : ℕ) (a : HumanActivityAssessment) (r : UserGuildStats)
    → (set_activity now a r).user_id ≡ r.user_id
unfolding set_activity
set_activity-user_id now a r = refl

set_active_day-user_id :
    (n : ℤ) (level : LevelPolicy) (rank : RankPolicy) (today : ℕ) (r : UserGuildStats)
    → (set_active_day n level rank today r).user_id ≡ r.user_id
unfolding set_active_day
set_active_day-user_id n level rank today r = refl

-- The audit log is no part of what a row is found by.
module _ (ctx : Context) (stats updated : UserGuildStats) (db : Database) where
  audit_if_changed_lem :
      audit_if_changed ctx stats updated db ≡ (ok tt, (audit_if_changed ctx stats updated db).1)
  unfolding audit_if_changed insert_audit
  audit_if_changed_lem = ground arith

  audit_if_changed-Became :
      (user_id : ℕ) (row : UserGuildStats)
      → stats_of user_id db ≡ some row
      → Became db user_id row (audit_if_changed ctx stats updated db).1
  unfolding audit_if_changed insert_audit
  audit_if_changed-Became user_id row h = record {
    found = ground arith;
    others = λ j ne. ground arith;
    users = ground arith;
    settings = ground arith;
    counters = ground arith;
    events = ground arith;
    messages = ground arith;
    elsewhere = record {
      rooms = ground arith;
      room_members = ground arith;
      room_messages = ground arith;
      reports = ground arith;
      blocks = ground arith;
    };
  }

module _ (user_id : ℕ) (db : Database) (row : UserGuildStats)
    (h : stats_of user_id db ≡ some row) where
  same_user : row.user_id ≡ user_id
  same_user = user_id_of_found user_id db.stats row h

  -- After the synchronisation the row has the level and the rank that the policy gives.
  pub sync-Writes :
      (policy : GuildPolicyConfig) (level : LevelPolicy) (rank : RankPolicy)
      → level_policy_for_active_days policy row.active_days ≡ ok level
      → rank_policy_for_score policy row.contribution_score ≡ ok rank
      → Writes db user_id (sync_derived_state policy row) (set_derived level rank row)
  unfolding sync_derived_state
  sync-Writes policy level rank is_level is_rank =
      elim (Bool-cases
        (eqb_ℤ row.derived_level (pos level.level) && str_eq row.derived_rank rank.rank)) [
          | inl same ↦ (
            db,
            ground (arith, set_derived_same level rank row same),
            rw (set_derived_same level rank row same) (Became-refl row h),
          )
          | inr differ ↦
              let f = set_derived level rank in
              (
                update_stats user_id f db,
                ground (
                  arith,
                  same_user,
                  update_stats_result_lem user_id f (set_derived-user_id level rank) db row h,
                ),
                update_stats-Became user_id f (set_derived-user_id level rank) db row h,
              )
        ]

  -- A day is counted by one more active day, with the level that it gives.
  pub count-Writes :
      (policy : GuildPolicyConfig) (level : LevelPolicy) (rank : RankPolicy) (today : ℕ)
      → level_policy_for_active_days policy (add32 row.active_days (pos 1)) ≡ ok level
      → rank_policy_for_score policy row.contribution_score ≡ ok rank
      → is_today row.last_active_day today ≡ false
      → Writes db user_id
          (advance_active_day_if_needed policy row today)
          (set_active_day (add32 row.active_days (pos 1)) level rank today row)
  unfolding advance_active_day_if_needed
  count-Writes policy level rank today is_level is_rank fresh =
      let f = set_active_day (add32 row.active_days (pos 1)) level rank today in
      let keep = set_active_day-user_id (add32 row.active_days (pos 1)) level rank today in
      (
        update_stats user_id f db,
        ground (arith, same_user, update_stats_result_lem user_id f keep db row h),
        update_stats-Became user_id f keep db row h,
      )

  -- An activity writes the assessment, with a line in the audit log where the state changes.
  pub activity-Writes :
      (ctx : Context) (today : ℕ)
      → (db' : Database) × (update_human_activity_state ctx row today db
          ≡ (ok (assessed today ctx.now row, assess_human_activity row today ctx.now), db'))
        × Became db user_id (assessed today ctx.now row) db'
  unfolding update_human_activity_state assessed
  activity-Writes ctx today =
      let a = assess_human_activity row today ctx.now in
      let f = set_activity ctx.now a in
      let db₁ = update_stats user_id f db in
      let first = update_stats-Became user_id f (set_activity-user_id ctx.now a) db row h in
      (
        (audit_if_changed ctx row (f row) db₁).1,
        ground (
          arith,
          same_user,
          update_stats_result_lem user_id f (set_activity-user_id ctx.now a) db row h,
          audit_if_changed_lem ctx row (f row) db₁,
        ),
        Became-trans first
            (audit_if_changed-Became ctx row (f row) db₁ user_id (f row) first.found),
      )
