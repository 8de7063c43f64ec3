-- ===== src/Guild/Snapshot.antt =====
-- `build_snapshot` of src/services/guild_service.rs: what a client is told of a user's standing.
pub mod Bounds
use Prim.Native.String.{◌++◌ as concat}
use mathlib.Core.Option
use sync_server.Prelude.{
  ℕ, ◌+◌, ◌-◌, ◌*◌, ◌/◌, ◌%◌, String, Bool, true, false, Option, none, some, List, [], ◌∷◌, ltb,
  str_eq, any, ◌&&◌, max, get_elem?, if◌then◌else◌,
}
use sync_server.Prelude.Int.{ℤ, pos, max_ℤ, clamp, sub32, as_u8}
use sync_server.Prelude.Text.{to_lowercase}
use sync_server.Errors.{Result, ok, err, ◌>>=◌}
use sync_server.Guild.Types.{
  GuildPolicyConfig, UserGuildStats, GuildMilestoneNotification, GuildSnapshot, level_up, rank_up,
}
use sync_server.Guild.Activity.{date_naive, micros_per_day}
use sync_server.Guild.Ranking.{
  level_policy_for_active_days, next_level_active_days, rank_policy_for_limits, rank_order,
  effective_daily_outbound_messages_limit, effective_daily_friend_add_limit,
  effective_daily_attachment_send_limit, level_progress_percent,
}

pub outbound_message_limit_enforced : GuildPolicyConfig → Bool
outbound_message_limit_enforced policy =
    policy.enforcement.enabled && policy.enforcement.outbound_messages_enabled

pub attachment_send_limit_enforced : GuildPolicyConfig → Bool
attachment_send_limit_enforced policy =
    policy.enforcement.enabled && policy.enforcement.attachment_sends_enabled

pub friend_add_limit_enforced : GuildPolicyConfig → Bool
friend_add_limit_enforced policy =
    policy.enforcement.enabled && policy.enforcement.friend_adds_enabled

pub attachment_type_allowed : GuildPolicyConfig → String → Bool
attachment_type_allowed policy mime_type =
    any (λ allowed. str_eq allowed mime_type) policy.safe_attachment_types

pub challenge_state_for_client : String → String
challenge_state_for_client state =
    if str_eq state "frozen"
    then "frozen"
    else if str_eq state "challenged"
    then "challenged"
    else "none"

-- The seconds to the next midnight, at least one.
unfoldable pub seconds_until_next_utc_day : ℕ → ℕ
seconds_until_next_utc_day now = max (((date_naive now + 1) * micros_per_day - now) / 1_000_000) 1

-- `to_string` of a `u8`
digit : ℕ → String
digit n =
    Option.get_or
      (get_elem? ("0" ∷ "1" ∷ "2" ∷ "3" ∷ "4" ∷ "5" ∷ "6" ∷ "7" ∷ "8" ∷ "9" ∷ []) (n % 10)) ""

decimal : ℕ → String
unfolding digit
decimal n =
    if ltb n 10
    then digit n
    else if ltb n 100
    then concat (digit (n / 10)) (digit n)
    else concat (digit (n / 100)) (concat (digit (n / 10)) (digit n))

-- `clamp(1, 10) as u8`
pub shown_level : ℤ → ℕ
shown_level derived_level = as_u8 (clamp derived_level (pos 1) (pos 10))

-- `rank_order(a) > rank_order(b)`, where no order comes before every order.
pub order_above : Option ℕ → Option ℕ → Bool
order_above none b = false
order_above (some a) none = true
order_above (some a) (some b) = ltb b a

level_notification : ℕ → GuildMilestoneNotification
unfolding decimal
level_notification level = record {
  kind = level_up;
  badge_label = concat "Level " (decimal level);
  headline_key = "guild.milestone.level_up";
  detail_key = concat "guild.milestone.level_" (concat (decimal level) "_detail");
  unlocked_value = none;
  new_value = decimal level;
}

rank_notification : String → GuildMilestoneNotification
rank_notification rank = record {
  kind = rank_up;
  badge_label = concat "Rank " rank;
  headline_key = "guild.milestone.rank_up";
  detail_key = concat "guild.milestone.rank_" (concat (to_lowercase rank) "_detail");
  unlocked_value = none;
  new_value = rank;
}

pub pending_milestone : ℕ → String → ℕ → String → Option GuildMilestoneNotification
unfolding order_above level_notification rank_notification
pending_milestone current_level current_rank prev_level prev_rank =
    if ltb prev_level current_level
    then some (level_notification current_level)
    else if order_above (rank_order current_rank) (rank_order prev_rank)
    then some (rank_notification current_rank)
    else none

-- `limit.map(|limit| (limit - sent).max(0))`
pub remaining : Option ℤ → ℤ → Option ℤ
remaining limit sent = Option.map (λ l. max_ℤ (sub32 l sent) (pos 0)) limit

pub build_snapshot :
    GuildPolicyConfig → UserGuildStats → ℤ → ℤ → ℤ → ℕ → String → Result GuildSnapshot
unfolding shown_level pending_milestone remaining
build_snapshot policy stats messages attachments friends prev_level prev_rank = do
  level_policy ← level_policy_for_active_days policy stats.active_days
  rank_policy ← rank_policy_for_limits policy stats.contribution_score
  let message_limit = effective_daily_outbound_messages_limit level_policy rank_policy
  let attachment_limit = effective_daily_attachment_send_limit level_policy rank_policy
  let friend_limit = effective_daily_friend_add_limit level_policy rank_policy
  let current_level = shown_level stats.derived_level
  let next_days = next_level_active_days policy level_policy.level
  ok (record {
    active_days = stats.active_days;
    level = current_level;
    contribution_score = stats.contribution_score;
    rank = stats.derived_rank;
    next_level_active_days = next_days;
    level_progress_percent =
        level_progress_percent stats.active_days level_policy.min_active_days next_days;
    daily_outbound_messages_enforced = outbound_message_limit_enforced policy;
    daily_outbound_messages_limit = message_limit;
    daily_outbound_messages_sent = messages;
    daily_outbound_messages_remaining = remaining message_limit messages;
    daily_attachment_sends_enforced = attachment_send_limit_enforced policy;
    daily_attachment_send_limit = attachment_limit;
    daily_attachment_sends_sent = attachments;
    daily_attachment_sends_remaining = remaining attachment_limit attachments;
    allowed_attachment_types = policy.safe_attachment_types;
    daily_friend_adds_enforced = friend_add_limit_enforced policy;
    daily_friend_add_limit = friend_limit;
    daily_friend_adds_sent = friends;
    daily_friend_adds_remaining = remaining friend_limit friends;
    challenge_state = challenge_state_for_client stats.automation_review_state;
    pending_milestone_notification =
        pending_milestone current_level stats.derived_rank prev_level prev_rank;
  })
