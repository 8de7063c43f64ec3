-- ===== src/Guild/Stats.antt =====
-- The reads and writes of the guild tables in src/services/guild_service.rs, one function for each
-- of its `_conn` helpers, and the policy setting.
pub mod Load
pub mod Rows
pub mod Ensure
pub mod Counters
pub mod Frozen
use mathlib.Core.Option
use sync_server.Prelude.{
  ℕ, String, Bool, true, false, Option, none, some, List, [], ◌∷◌, ◌==◌, ◌&&◌, str_eq, find?, any,
  if◌then◌else◌, not,
}
use sync_server.Prelude.Int.{ℤ, pos, eqb_ℤ, leb_ℤ, ◌+ℤ◌, i32_max, add32}
use sync_server.Errors.{AppError, Result, ok, err, panic}
use sync_server.Store.{
  Database, Context, Action, AdminSetting, AdminAuditLog, pure, fail, lift, gets, modify, ◌>>=◌,
  ◌>>◌, transaction, row_or_error, require_user, row_of, update_row, update_where,
}
use sync_server.Guild.Types.{
  LevelPolicy, RankPolicy, GuildPolicyConfig, UserGuildStats, DailyActionCounter, Value, text,
  number, object, end, field,
}
use sync_server.Guild.Policy.{normalize_guild_policy}
use sync_server.Guild.Policy.Default.{default_guild_policy}
use sync_server.Guild.Ranking.{level_policy_for_active_days, rank_policy_for_score}
use sync_server.Guild.Activity.{
  HumanActivityAssessment, assess_human_activity, is_today, set_activity, set_frozen, set_unfrozen,
}

abbrev pub setting_trust_policy : String
setting_trust_policy = "guild_policy"

-- `get_setting`, `set_setting` of src/services/admin_service.rs
unfoldable pub get_setting : String → Database → Option AdminSetting
get_setting key db = find? (λ s. str_eq s.key key) db.settings

pub put_setting : String → String → List AdminSetting → List AdminSetting
put_setting key value settings = elim (find? (λ s. str_eq s.key key) settings) [
  | none ↦ record { key = key; value = value } ∷ settings
  | some _ ↦ update_where (λ s. str_eq s.key key) (λ s. record s { value = value }) settings
]

unfoldable pub set_setting : String → String → Action (Unit {0})
unfolding put_setting
set_setting key value = modify (λ db. record db { settings = put_setting key value db.settings })

-- A stored policy that does not decode, or that is not acceptable, gives way to the defaults.
pub usable_policy : Option GuildPolicyConfig → GuildPolicyConfig
usable_policy none = default_guild_policy
usable_policy (some decoded) = elim (normalize_guild_policy decoded) [
  | ok normalized ↦ normalized
  | _ ↦ default_guild_policy
]

unfoldable pub stored_policy : Context → Option AdminSetting → GuildPolicyConfig
unfolding usable_policy
stored_policy ctx none = default_guild_policy
stored_policy ctx (some setting) = usable_policy (ctx.from_str setting.value)

unfoldable pub load_guild_policy_conn : Context → Action GuildPolicyConfig
load_guild_policy_conn ctx = gets (λ db. stored_policy ctx (get_setting setting_trust_policy db))

-- `serde_json::to_string(…).map_err(AppError::Internal)`
abbrev encoded : Option String → Action String
encoded none = fail AppError.internal
encoded (some t) = pure t

unfoldable pub save_guild_policy : Context → GuildPolicyConfig → Action GuildPolicyConfig
save_guild_policy ctx policy = do
  normalized ← lift (normalize_guild_policy policy)
  value ← encoded (ctx.to_string normalized)
  set_setting setting_trust_policy value
  pure normalized

abbrev pub stats_of : ℕ → Database → Option UserGuildStats
stats_of user_id db = row_of (λ r. r.user_id) user_id db.stats

abbrev pub update_stats : ℕ → (UserGuildStats → UserGuildStats) → Database → Database
update_stats user_id f db = record db { stats = update_row (λ r. r.user_id) user_id f db.stats }

-- `update(table.find(id)).set(f).get_result()`
pub update_stats_result : ℕ → (UserGuildStats → UserGuildStats) → Action UserGuildStats
update_stats_result user_id f = do
  modify (update_stats user_id f)
  row_or_error (← gets (stats_of user_id))

abbrev pub new_stats : ℕ → LevelPolicy → RankPolicy → UserGuildStats
new_stats user_id level rank = record {
  user_id = user_id;
  active_days = pos 0;
  contribution_score = pos 0;
  derived_level = pos level.level;
  derived_rank = rank.rank;
  last_active_day = none;
  last_human_activity_at = none;
  suspicious_activity_streak = pos 0;
  automation_review_state = "clear";
}

-- The insertion with `on_conflict(user_id).do_nothing()`.
insert_stats : UserGuildStats → Option UserGuildStats → Action (Unit {0})
insert_stats fresh (some _) = pure tt
insert_stats fresh none = do
  require_user fresh.user_id
  modify (λ db. record db { stats = fresh ∷ db.stats })

pub ensure_user_guild_stats : GuildPolicyConfig → ℕ → Action UserGuildStats
unfolding insert_stats
ensure_user_guild_stats policy user_id = do
  level ← lift (level_policy_for_active_days policy (pos 0))
  rank ← lift (rank_policy_for_score policy (pos 0))
  insert_stats (new_stats user_id level rank) (← gets (stats_of user_id))
  row_or_error (← gets (stats_of user_id))

unfoldable pub set_derived : LevelPolicy → RankPolicy → UserGuildStats → UserGuildStats
set_derived level rank row = record row {
  derived_level = pos level.level;
  derived_rank = rank.rank;
}

pub sync_derived_state : GuildPolicyConfig → UserGuildStats → Action UserGuildStats
sync_derived_state policy stats = do
  level ← lift (level_policy_for_active_days policy stats.active_days)
  rank ← lift (rank_policy_for_score policy stats.contribution_score)
  if eqb_ℤ stats.derived_level (pos level.level) && str_eq stats.derived_rank rank.rank
      then pure stats
      else update_stats_result stats.user_id (set_derived level rank)

-- The actor of a line, if there is one, is a user.
abbrev pub require_actor : Option ℕ → Action (Unit {0})
require_actor none = pure tt
require_actor (some actor) = require_user actor

pub insert_audit : Context → Option ℕ → String → Option String → Value → Action (Unit {0})
insert_audit ctx actor action target details = do
  require_actor actor
  modify (λ db. record db {
    audit =
        record {
          id = ctx.new_id;
          actor_user_id = actor;
          action = action;
          target = target;
          details = details;
          created_at = ctx.db_now;
        }
        ∷ db.audit;
  })

insert_system_audit_log : Context → String → Option String → Value → Action (Unit {0})
insert_system_audit_log ctx = insert_audit ctx none

review_details : UserGuildStats → UserGuildStats → Value
review_details stats updated = object (
    field "previous_state" (text stats.automation_review_state) (
      field "new_state" (text updated.automation_review_state) (
        field "suspicious_activity_streak" (number updated.suspicious_activity_streak)
          (field "active_days" (number updated.active_days) end))))

audit_if_changed : Context → UserGuildStats → UserGuildStats → Action (Unit {0})
unfolding insert_system_audit_log
audit_if_changed ctx stats updated =
    if str_eq stats.automation_review_state updated.automation_review_state
    then pure tt
    else insert_system_audit_log ctx "guild.review_state.changed"
        (some (ctx.uuid_text stats.user_id)) (review_details stats updated)

pub update_human_activity_state :
    Context → UserGuildStats → ℕ → Action (UserGuildStats × HumanActivityAssessment)
update_human_activity_state ctx stats today = do
  let assessment = assess_human_activity stats today ctx.now
  updated ← update_stats_result stats.user_id (set_activity ctx.now assessment)
  audit_if_changed ctx stats updated
  pure (updated, assessment)

unfoldable pub set_active_day : ℤ → LevelPolicy → RankPolicy → ℕ → UserGuildStats → UserGuildStats
set_active_day active_days level rank today row = record row {
  active_days = active_days;
  derived_level = pos level.level;
  derived_rank = rank.rank;
  last_active_day = some today;
}

count_active_day : GuildPolicyConfig → UserGuildStats → ℕ → Action UserGuildStats
count_active_day policy stats today = do
  let next_active_days = add32 stats.active_days (pos 1)
  level ← lift (level_policy_for_active_days policy next_active_days)
  rank ← lift (rank_policy_for_score policy stats.contribution_score)
  update_stats_result stats.user_id (set_active_day next_active_days level rank today)

pub advance_active_day_if_needed : GuildPolicyConfig → UserGuildStats → ℕ → Action UserGuildStats
unfolding count_active_day
advance_active_day_if_needed policy stats today =
    if is_today stats.last_active_day today then pure stats else count_active_day policy stats today

abbrev pub is_counter : ℕ → String → ℕ → DailyActionCounter → Bool
is_counter user_id action_key today c =
    c.user_id == user_id && (str_eq c.action_key action_key && c.day_bucket == today)

pub daily_action_count : ℕ → String → ℕ → Database → ℤ
daily_action_count user_id action_key today db =
    Option.get_or
      (Option.map (λ c. c.count) (find? (is_counter user_id action_key today) db.counters)) (pos 0)

-- The insertion with `on_conflict(…).do_update().set(count + 1)`. The database adds, and answers a sum
-- that is no `int4` by an error.
pub increment_daily_counter : ℕ → String → ℕ → Action (Unit {0})
increment_daily_counter user_id action_key today db =
    elim (find? (is_counter user_id action_key today) db.counters) [
      | none ↦
          (do
            require_user user_id
            modify (λ db. record db {
              counters =
                  record {
                    user_id = user_id;
                    action_key = action_key;
                    day_bucket = today;
                    count = pos 1;
                  }
                  ∷ db.counters;
            }))
            db
      | some counter ↦ if leb_ℤ (pos i32_max) counter.count then (err AppError.database, db) else (
        ok tt,
        record db {
          counters =
              update_where (is_counter user_id action_key today)
                (λ c. record c { count = c.count +ℤ pos 1 }) db.counters;
        },
      )
    ]

-- `freeze_guild_progression` and `unfreeze_guild_progression`
pub freeze_guild_progression : Context → Option ℕ → ℕ → String → Action (Unit {0})
unfolding insert_system_audit_log
freeze_guild_progression ctx none target reason = do
  modify (update_stats target set_frozen)
  insert_system_audit_log ctx "guild.system.freeze_guild_progression" (some (ctx.uuid_text target))
      (object (field "reason" (text reason) end))
freeze_guild_progression ctx (some admin) target reason = do
  modify (update_stats target set_frozen)
  insert_audit ctx (some admin) "guild.admin.freeze_guild_progression" (some (ctx.uuid_text target))
      (object (
        field "reason" (text reason) (
          field "target_user_id" (text (ctx.uuid_text target))
            (field "admin_user_id" (text (ctx.uuid_text admin)) end))))

pub unfreeze_guild_progression : Context → ℕ → ℕ → String → Action (Unit {0})
unfreeze_guild_progression ctx admin target reason = do
  modify (update_stats target set_unfrozen)
  insert_audit ctx (some admin) "guild.admin.unfreeze_guild_progression"
      (some (ctx.uuid_text target)) (object (field "reason" (text reason) end))
