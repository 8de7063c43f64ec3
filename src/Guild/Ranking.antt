-- ===== src/Guild/Ranking.antt =====
-- Levels and ranks of src/services/guild_service.rs: which entry of the policy applies, and the
-- limits that it gives.
pub mod Select
pub mod Limits
pub mod Standing
use sync_server.Prelude.{
  ℕ, zero, suc, ◌-◌, String, Bool, true, false, Option, none, some, List, [], ◌∷◌, ltb, leb, str_eq,
  ◌&&◌, find?, last?, if◌then◌else◌,
}
use mathlib.Core.Option
use sync_server.Prelude.Int.{ℤ, pos, pos_part, as_u8, leb_ℤ, max_ℤ, clamp, mul32, sub32, div_ℤ}
use sync_server.Errors.{Result, ok, panic}
use sync_server.Guild.Types.{LevelPolicy, RankPolicy, GuildPolicyConfig}

-- `x >= lo && hi.map(|hi| x <= hi).unwrap_or(true)`
pub in_range : ℤ → ℤ → Option ℤ → Bool
in_range x lo none = leb_ℤ lo x && true
in_range x lo (some hi) = leb_ℤ lo x && leb_ℤ x hi

-- `find(test).unwrap_or_else(|| items.last().expect(…))`
pub find_or_last {ℓ} : {A : Type ℓ} → (A → Bool) → List A → Result A
find_or_last test items = elim (find? test items) [
  | some found ↦ ok found
  | none ↦ elim (last? items) [ some last ↦ ok last | none ↦ panic ]
]

pub level_policy_for_active_days : GuildPolicyConfig → ℤ → Result LevelPolicy
level_policy_for_active_days policy active_days =
    find_or_last (λ e. in_range active_days e.min_active_days e.max_active_days)
      policy.level_policies

pub next_level_active_days : GuildPolicyConfig → ℕ → Option ℤ
next_level_active_days policy level =
    Option.map (λ e. e.min_active_days) (find? (λ e. ltb level e.level) policy.level_policies)

pub rank_policy_for_score : GuildPolicyConfig → ℤ → Result RankPolicy
rank_policy_for_score policy contribution_score =
    find_or_last (λ e. in_range contribution_score e.min_score e.max_score) policy.rank_policies

abbrev pub neutral_rank_policy : RankPolicy
neutral_rank_policy = record {
  rank = "";
  min_score = pos 0;
  max_score = none;
  daily_outbound_messages_limit_multiplier_percent = none;
  daily_friend_add_limit_multiplier_percent = none;
  daily_attachment_send_limit_multiplier_percent = none;
  overrides_level_limits = false;
}

pub rank_policy_for_limits : GuildPolicyConfig → ℤ → Result RankPolicy
rank_policy_for_limits policy contribution_score =
    if policy.enforcement.rank_engine_enabled
    then rank_policy_for_score policy contribution_score
    else ok neutral_rank_policy

pub rank_order : String → Option ℕ
rank_order rank =
    if str_eq rank "F"
    then some 0
    else if str_eq rank "E"
    then some 1
    else if str_eq rank "D"
    then some 2
    else if str_eq rank "C"
    then some 3
    else if str_eq rank "B"
    then some 4
    else if str_eq rank "A"
    then some 5
    else if str_eq rank "S"
    then some 6
    else none

pub rank_at_least : String → String → Bool
unfolding rank_order
rank_at_least rank threshold =
    leb (Option.get_or (rank_order threshold) 0) (Option.get_or (rank_order rank) 0)

-- The product is a wrapping `i32`.
pub effective_daily_limit : Option ℤ → Option ℤ → Bool → Option ℤ
effective_daily_limit none percent overrides = none
effective_daily_limit (some limit) none true = none
effective_daily_limit (some limit) (some percent) overrides = some (div_ℤ (mul32 limit percent) 100)
effective_daily_limit (some limit) none false = some limit

pub effective_daily_outbound_messages_limit : LevelPolicy → RankPolicy → Option ℤ
unfolding effective_daily_limit
effective_daily_outbound_messages_limit level rank =
    effective_daily_limit level.daily_outbound_messages_limit
      rank.daily_outbound_messages_limit_multiplier_percent rank.overrides_level_limits

pub effective_daily_friend_add_limit : LevelPolicy → RankPolicy → Option ℤ
unfolding effective_daily_limit
effective_daily_friend_add_limit level rank =
    effective_daily_limit level.daily_friend_add_limit
      rank.daily_friend_add_limit_multiplier_percent rank.overrides_level_limits

pub effective_daily_attachment_send_limit : LevelPolicy → RankPolicy → Option ℤ
unfolding effective_daily_limit
effective_daily_attachment_send_limit level rank =
    effective_daily_limit level.daily_attachment_send_limit
      rank.daily_attachment_send_limit_multiplier_percent rank.overrides_level_limits

pub level_progress_percent : ℤ → ℤ → Option ℤ → ℕ
level_progress_percent active_days min_active_days none = 100
level_progress_percent active_days min_active_days (some next) =
    let span = max_ℤ (sub32 next min_active_days) (pos 1) in
    let progressed = clamp (sub32 active_days min_active_days) (pos 0) span in
    as_u8 (div_ℤ (mul32 progressed (pos 100)) (pos_part span))
