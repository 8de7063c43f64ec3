-- ===== src/Guild/Events.antt =====
-- The contribution events of src/services/guild_service.rs: who may give points, the daily cap, the
-- score that follows, and the history's pruning.
pub mod Record
pub mod Judge
pub mod Worth
pub mod Cap
use mathlib.Core.Option
use sync_server.Prelude.{
  ℕ, ◌+◌, ◌-◌, ◌*◌, String, Bool, true, false, Option, none, some, List, [], ◌∷◌, ◌==◌, ◌&&◌, ◌||◌,
  not, ltb, leb, str_eq, find?, filter, map, length, any, if◌then◌else◌,
}
use sync_server.Prelude.Int.{
  ℤ, pos, negsuc, ◌+ℤ◌, add32, sub32, max_ℤ, min_ℤ, clamp, leb_ℤ, ltb_ℤ, eqb_ℤ, i32_max, pos_part,
}
use sync_server.Prelude.Text.{trim}
use sync_server.Errors.{AppError, Result, ok, err, panic}
use sync_server.Store.{
  Database, Context, Action, User, pure, fail, lift, gets, modify, ◌>>=◌, ◌>>◌, transaction,
  require_user, delete_where,
}
use sync_server.Guild.Types.{
  RankPolicy, GuildPolicyConfig, UserGuildStats, GuildScoreEvent, DailyActionCounter, Value, Fields,
  text, number, object, end, field,
}
use sync_server.Guild.Ranking.{rank_policy_for_score, rank_at_least}
use sync_server.Guild.Activity.{date_naive, micros_per_day}
use sync_server.Guild.Stats.{
  load_guild_policy_conn, ensure_user_guild_stats, sync_derived_state, update_stats,
}

pub record ContributionEventOptions : Type 0 where
  pub requires_meaningful_granter : Bool
  pub daily_positive_cap : Option ℤ

abbrev pub default_options : ContributionEventOptions
default_options = record { requires_meaningful_granter = false; daily_positive_cap = none }

abbrev pub is_user : Option ℕ → ℕ → Bool
is_user none user_id = false
is_user (some id) user_id = id == user_id

-- The reference is trimmed, and an empty one is none.
unfoldable pub normal_reference : Option String → Option String
normal_reference none = none
normal_reference (some reference) =
    let trimmed = trim reference in if str_eq trimmed "" then none else some trimmed

abbrev pub has_reference : Option String → String → Bool
has_reference none reference = false
has_reference (some r) reference = str_eq r reference

unfoldable pub find_reference : ℕ → String → Option String → Database → Option GuildScoreEvent
find_reference user_id event_type none db = none
find_reference user_id event_type (some reference) db =
    find?
      (λ e.
        e.user_id == user_id
        && (str_eq e.event_type event_type && has_reference e.reference_id reference))
      db.events

-- `and_hms_opt(0, 0, 0)` of the day of `now`.
abbrev pub day_start : ℕ → ℕ
day_start now = date_naive now * micros_per_day

abbrev reciprocity_window : ℕ
reciprocity_window = 2_592_000_000_000

pub is_reciprocal_vote : Context → ℕ → Option ℕ → String → Database → Bool
is_reciprocal_vote ctx user_id none event_type db = false
is_reciprocal_vote ctx user_id (some granter_id) event_type db =
    any
      (λ e.
        e.user_id == granter_id
        && (is_user e.granter_user_id user_id
            && (str_eq e.event_type event_type
                && (ltb_ℤ (pos 0) e.delta && leb ctx.now (e.created_at + reciprocity_window)))))
      db.events

-- An event that gave points to the user on the day.
abbrev pub is_gain_today : Context → ℕ → String → GuildScoreEvent → Bool
is_gain_today ctx user_id event_type e =
    e.user_id == user_id
    && (str_eq e.event_type event_type
        && (leb (day_start ctx.now) e.created_at && ltb_ℤ (pos 0) e.delta))

-- COUNT(DISTINCT granter_user_id), where NULL does not count.
pub distinct_granters : List GuildScoreEvent → List ℕ
distinct_granters [] = []
distinct_granters (e ∷ es) =
    let rest = distinct_granters es in
    elim e.granter_user_id [
      | none ↦ rest
      | some granter ↦ if any (λ g. g == granter) rest then rest else granter ∷ rest
    ]

pub is_clustered_vote : Context → ℕ → String → Database → Bool
unfolding distinct_granters
is_clustered_vote ctx user_id event_type db =
    leb 10 (length (distinct_granters (filter (is_gain_today ctx user_id event_type) db.events)))

pub is_eligible : UserGuildStats → Bool
is_eligible stats = leb_ℤ (pos 4) stats.derived_level || rank_at_least stats.derived_rank "E"

-- A granter who is not a plain user counts; a plain user must have come far enough.
judge_role : GuildPolicyConfig → ℕ → Option User → Action Bool
judge_role policy granter_id none = pure false
judge_role policy granter_id (some granter) =
    if not (str_eq granter.role "user") then pure true else (do
      stats ← ensure_user_guild_stats policy granter_id
      synced ← sync_derived_state policy stats
      pure (is_eligible synced))

pub granter_is_meaningful : GuildPolicyConfig → Option ℕ → Action Bool
granter_is_meaningful policy none = pure false
granter_is_meaningful policy (some granter_id) = do
  granter ← gets (λ db. find? (λ u. u.id == granter_id) db.users)
  judge_role policy granter_id granter

-- SUM(delta), clamped to an `i32`.
pub sum_of_deltas : List GuildScoreEvent → ℤ
sum_of_deltas [] = pos 0
sum_of_deltas (e ∷ es) = e.delta +ℤ sum_of_deltas es

pub positive_points_earned_today : Context → ℕ → String → Database → ℤ
positive_points_earned_today ctx user_id event_type db =
    clamp (sum_of_deltas (filter (is_gain_today ctx user_id event_type) db.events)) (pos 0)
      (pos i32_max)

-- `applied_delta` and `suppressed_reason`.
abbrev pub Applied : Type 0
Applied = ℤ × Option String

judge_eligible : GuildPolicyConfig → Option ℕ → ℤ → Action Applied
judge_eligible policy granter requested = do
  eligible ← granter_is_meaningful policy granter
  pure (if eligible then (requested, none) else (pos 0, some "granter_not_eligible"))

-- The check of the granter, in the order of the code; the last one may insert the granter's row.
pub judge_granter : Context → GuildPolicyConfig → ℕ → Option ℕ → String → ℤ → Action Applied
unfolding judge_eligible
judge_granter ctx policy user_id granter event_type requested db =
    if is_user granter user_id
    then (ok (pos 0, some "self_vote"), db)
    else if is_reciprocal_vote ctx user_id granter event_type db
    then (ok (pos 0, some "reciprocal_vote"), db)
    else if is_clustered_vote ctx user_id event_type db
    then (ok (pos 0, some "clustered_vote"), db)
    else (do
      eligible ← granter_is_meaningful policy granter
      pure (if eligible then (requested, none) else (pos 0, some "granter_not_eligible")))
        db

pub judge :
    Context
    → GuildPolicyConfig
    → ℕ
    → Option ℕ
    → String
    → ℤ
    → ContributionEventOptions
    → Action Applied
judge ctx policy user_id granter event_type requested options db =
    if ltb_ℤ (pos 0) requested && options.requires_meaningful_granter
    then judge_granter ctx policy user_id granter event_type requested db
    else (ok (requested, none), db)

-- The daily cap, on what the checks left.
pub cap_remaining : ℤ → Applied → Applied
cap_remaining remaining (applied, reason) =
    if eqb_ℤ remaining (pos 0)
    then (pos 0, some "daily_cap_reached")
    else if ltb_ℤ remaining applied
    then (remaining, some "daily_cap_truncated")
    else (applied, reason)

pub apply_cap : ℤ → Option ℤ → ℤ → Applied → Applied
unfolding cap_remaining
apply_cap requested none earned verdict = verdict
apply_cap requested (some daily_cap) earned verdict =
    if ltb_ℤ (pos 0) requested
    then cap_remaining (max_ℤ (sub32 daily_cap earned) (pos 0)) verdict
    else verdict
