-- ===== src/Guild/Actions/Begin.antt =====
-- The steps with which each action begins, as one change of the user's row.
use sync_server.Prelude.{
  ℕ, ◌≡◌, refl, inl, inr, true, false, none, some, arith, Bool-cases, if◌then◌else◌,
}
use sync_server.Prelude.Int.{pos, add32}
use sync_server.Errors.{ok}
use sync_server.Store.{Database, Context, Action, has_user}
use sync_server.Guild.Types.{LevelPolicy, RankPolicy, GuildPolicyConfig, UserGuildStats}
use sync_server.Guild.Policy.Valid.{IsValid}
use sync_server.Guild.Ranking.{level_policy_for_active_days, rank_policy_for_score}
use sync_server.Guild.Ranking.Select.{level_total, rank_total}
use sync_server.Guild.Activity.{assess_human_activity, assessed, is_today, date_naive}
use sync_server.Guild.Stats.{
  stats_of, new_stats, ensure_user_guild_stats, set_derived, set_active_day, load_guild_policy_conn,
}
use sync_server.Guild.Stats.Load.{load-IsValid}
use sync_server.Guild.Stats.Rows.{
  Became, Became-trans, Writes, sync-Writes, count-Writes, activity-Writes,
}
use sync_server.Guild.Stats.Ensure.{ensure_known, ensure_new}
use sync_server.Guild.Actions.{count_activity, begin_action, record_human_activity}

-- `row'` is `row` after an activity: assessed, with one more active day exactly if the assessment
-- says so, and with the level and the rank that the policy gives.
pub record Counted (policy : GuildPolicyConfig) (today now : ℕ) (row row' : UserGuildStats)
    : Type 0 where
  pub days : row'.active_days ≡ (
      if (assess_human_activity row today now).should_advance_active_day
      then add32 row.active_days (pos 1)
      else row.active_days)
  pub day : row'.last_active_day ≡ (
      if (assess_human_activity row today now).should_advance_active_day
      then some today
      else row.last_active_day)
  pub activity : row'.last_human_activity_at ≡ some now
  pub streak :
      row'.suspicious_activity_streak
      ≡ (assess_human_activity row today now).suspicious_activity_streak
  pub state :
      row'.automation_review_state ≡ (assess_human_activity row today now).automation_review_state
  pub score : row'.contribution_score ≡ row.contribution_score
  pub level :
      (l : LevelPolicy) × (level_policy_for_active_days policy row'.active_days ≡ ok l)
      × (row'.derived_level ≡ pos l.level)
  pub rank :
      (r : RankPolicy) × (rank_policy_for_score policy row'.contribution_score ≡ ok r)
      × (row'.derived_rank ≡ r.rank)

assess-set_derived :
    (level : LevelPolicy) (rank : RankPolicy) (row : UserGuildStats) (today now : ℕ)
    → assess_human_activity (set_derived level rank row) today now
      ≡ assess_human_activity row today now
unfolding assess_human_activity set_derived
assess-set_derived level rank row today now = refl

advance-fresh :
    (row : UserGuildStats) (today now : ℕ)
    → (assess_human_activity row today now).should_advance_active_day ≡ true
    → is_today row.last_active_day today ≡ false
unfolding assess_human_activity
advance-fresh row today now h = ground arith

-- What an action on the row did: it succeeded with a counted row.
abbrev pub Counts :
    Context → GuildPolicyConfig → ℕ → Database → UserGuildStats → Action UserGuildStats → Type 0
Counts ctx policy user_id db row m =
    (row' : UserGuildStats) × (db' : Database) × (m db ≡ (ok row', db'))
    × Became db user_id row' db'
    × Counted policy (date_naive ctx.now) ctx.now row row'

module _ (policy : GuildPolicyConfig) (row : UserGuildStats) (today now : ℕ) (l : LevelPolicy)
    (k : RankPolicy) (is_rank : rank_policy_for_score policy row.contribution_score ≡ ok k) where
  Counted_same :
      (assess_human_activity row today now).should_advance_active_day ≡ false
      → level_policy_for_active_days policy row.active_days ≡ ok l
      → Counted policy today now row (assessed today now (set_derived l k row))
  unfolding assessed set_derived
  Counted_same h is_level =
      let a = assess-set_derived l k row today now in
      record {
        days = ground arith;
        day = ground arith;
        activity = refl;
        streak = ground (arith, a);
        state = ground (arith, a);
        score = refl;
        level = (l, is_level, refl);
        rank = (k, is_rank, refl);
      }

  Counted_day :
      (l' : LevelPolicy)
      → (assess_human_activity row today now).should_advance_active_day ≡ true
      → level_policy_for_active_days policy (add32 row.active_days (pos 1)) ≡ ok l'
      → Counted policy today now row (
          set_active_day
            (add32 row.active_days (pos 1))
            l'
            k
            today
            (assessed today now (set_derived l k row)))
  unfolding assessed set_derived set_active_day
  Counted_day l' h is_level =
      let a = assess-set_derived l k row today now in
      record {
        days = ground arith;
        day = ground arith;
        activity = refl;
        streak = ground (arith, a);
        state = ground (arith, a);
        score = refl;
        level = (l', is_level, refl);
        rank = (k, is_rank, refl);
      }

module _ (ctx : Context) (policy : GuildPolicyConfig) (v : IsValid policy) (user_id : ℕ)
    (db : Database) (row : UserGuildStats) (h : stats_of user_id db ≡ some row) where
  count-Counts :
      Counts ctx policy user_id db row (count_activity ctx policy row (date_naive ctx.now))
  unfolding count_activity assessed set_derived
  count-Counts =
      let today = date_naive ctx.now in
      let (l, is_level, _) = level_total policy row.active_days v in
      let (k, is_rank, _) = rank_total policy row.contribution_score v in
      let (db₁, run₁, b₁) = sync-Writes user_id db row h policy l k is_level is_rank in
      let row₁ = set_derived l k row in
      let (db₂, run₂, b₂) = activity-Writes user_id db₁ row₁ b₁.found ctx today in
      let row₂ = assessed today ctx.now row₁ in
      elim (Bool-cases (assess_human_activity row₁ today ctx.now).should_advance_active_day) [
        | inl counts ↦
            let (l', is_level', _) = level_total policy (add32 row.active_days (pos 1)) v in
            let fresh = advance-fresh row today ctx.now (rw assess-set_derived at counts) in
            let (db₃, run₃, b₃) =
              count-Writes user_id db₂ row₂ b₂.found policy l' k today is_level' is_rank fresh in
            (
              set_active_day (add32 row.active_days (pos 1)) l' k today row₂,
              db₃,
              ground (arith, run₁, run₂, run₃),
              Became-trans (Became-trans b₁ b₂) b₃,
              Counted_day policy row today ctx.now l k is_rank l' (rw assess-set_derived at counts)
                  is_level',
            )
        | inr same ↦ (
          row₂,
          db₂,
          ground (arith, run₁, run₂),
          Became-trans b₁ b₂,
          Counted_same policy row today ctx.now l k is_rank (rw assess-set_derived at same)
              is_level,
        )
      ]

-- The row from which an action of the user starts: the stored one, or that of a newcomer.
pub data StartsFrom (policy : GuildPolicyConfig) (user_id : ℕ) (db : Database)
    (row : UserGuildStats) : Type 0 where
  known : stats_of user_id db ≡ some row → StartsFrom policy user_id db row
  newcomer :
      (level : LevelPolicy) (rank : RankPolicy)
      → stats_of user_id db ≡ none
      → has_user user_id db ≡ true
      → level_policy_for_active_days policy (pos 0) ≡ ok level
      → rank_policy_for_score policy (pos 0) ≡ ok rank
      → row ≡ new_stats user_id level rank
      → StartsFrom policy user_id db row

pub ensure_from :
    (policy : GuildPolicyConfig)
    → IsValid policy
    → (user_id : ℕ) (db : Database) (row : UserGuildStats) → StartsFrom policy user_id db row
    → Writes db user_id (ensure_user_guild_stats policy user_id) row
ensure_from policy v user_id db row (known h) =
    let (l, is_level, _) = level_total policy (pos 0) v in
    let (k, is_rank, _) = rank_total policy (pos 0) v in
    ensure_known policy user_id l k is_level is_rank db row h
ensure_from policy v user_id db row (newcomer l k h u is_level is_rank e) =
    rw e (ensure_new policy user_id l k is_level is_rank db h u)

-- Every action of a user whose row is stored, or who is new, begins by counting the activity: under
-- the stored policy it succeeds, and changes the user's row as the assessment says, with the level
-- and the rank that the policy gives, no other row and no other table but the audit log.
pub begin-Counted :
    (ctx : Context) (policy : GuildPolicyConfig) (user_id : ℕ) (db : Database)
    (row : UserGuildStats)
    → (load_guild_policy_conn ctx db).0 ≡ ok policy
    → StartsFrom policy user_id db row
    → (row' : UserGuildStats) × (db' : Database) × (begin_action ctx user_id db
        ≡ (ok (policy, row'), db'))
      × Became db user_id row' db'
      × Counted policy (date_naive ctx.now) ctx.now row row'
unfolding begin_action
begin-Counted ctx policy user_id db row loaded start =
    let (p, load, v) = load-IsValid ctx db in
    let e : p ≡ policy = ground (arith, load) in
    let v' : IsValid policy = rw e at v in
    let (db₁, run₁, b₁) = ensure_from policy v' user_id db row start in
    let (row', db₂, run₂, b₂, counted) = count-Counts ctx policy v' user_id db₁ row b₁.found in
    (row', db₂, ground (arith, load, e, run₁, run₂), Became-trans b₁ b₂, counted)

-- Recording an activity is this and no more.
pub recorded :
    (ctx : Context) (policy : GuildPolicyConfig) (user_id : ℕ) (db : Database)
    (row : UserGuildStats) (db' : Database)
    → begin_action ctx user_id db ≡ (ok (policy, row), db')
    → record_human_activity ctx user_id db ≡ (ok tt, db')
unfolding record_human_activity
recorded ctx policy user_id db row db' run = ground (arith, run)
