-- ===== src/Guild/Events/Record.antt =====
-- `record_contribution_event` of src/services/guild_service.rs and its callers.
pub mod Apply
pub mod Outcome
pub mod Effects
pub mod Twice
pub mod Awards
use sync_server.Prelude.{
  ℕ, String, Bool, true, false, Option, none, some, ◌∷◌, str_eq, if◌then◌else◌,
}
use sync_server.Prelude.Int.{ℤ, pos, negsuc, add32, max_ℤ, min_ℤ}
use sync_server.Prelude.Text.{trim}
use sync_server.Errors.{AppError}
use sync_server.Store.{
  Context, Action, pure, fail, lift, gets, modify, ◌>>=◌, ◌>>◌, transaction, require_user,
}
use sync_server.Guild.Types.{
  GuildPolicyConfig, UserGuildStats, GuildScoreEvent, Value, Fields, text, number, object, end,
  field,
}
use sync_server.Guild.Ranking.{rank_policy_for_score}
use sync_server.Guild.Stats.{
  load_guild_policy_conn, ensure_user_guild_stats, sync_derived_state, update_stats,
}
use sync_server.Guild.Events.{
  ContributionEventOptions, default_options, normal_reference, find_reference,
  positive_points_earned_today, Applied, judge, apply_cap,
}

pub record ContributionEventOutcome : Type 0 where
  pub event : Option GuildScoreEvent
  pub contribution_score : ℤ
  pub derived_rank : String
  pub applied_delta : ℤ
  pub duplicate : Bool
  pub suppressed_reason : Option String

-- `serde_json::Map::insert`
pub put_field : String → Value → Fields → Fields
put_field key value end = field key value end
put_field key value (field k v fields) =
    let rest = put_field key value fields in
    if str_eq k key then field k value fields else field k v rest

abbrev object_of : Value → Fields
object_of (object fields) = fields
object_of other = field "input" other end

abbrev put_reason : Option String → Fields → Fields
put_reason none fields = fields
put_reason (some reason) fields = put_field "suppressed_reason" (text reason) fields

pub enrich_contribution_event_metadata : Value → ℤ → ℤ → Option String → Value
enrich_contribution_event_metadata metadata requested applied reason = object (
    put_reason reason (
      put_field "applied_delta" (number applied)
        (put_field "requested_delta" (number requested) (object_of metadata))))

require_granter : Option ℕ → Action (Unit {0})
require_granter none = pure tt
require_granter (some granter) = require_user granter

-- The insertion of an event, whose foreign keys name the user and the granter.
pub insert_event : GuildScoreEvent → Action GuildScoreEvent
unfolding require_granter
insert_event event = do
  require_user event.user_id
  require_granter event.granter_user_id
  modify (λ db. record db { events = event ∷ db.events })
  pure event

pub record_score_event :
    Context → ℕ → Option ℕ → String → ℤ → Option String → Value → Action GuildScoreEvent
record_score_event ctx user_id granter event_type delta reference metadata = insert_event (record {
  id = ctx.new_id;
  user_id = user_id;
  granter_user_id = granter;
  event_type = trim event_type;
  delta = delta;
  reference_id = reference;
  metadata = metadata;
  created_at = ctx.db_now;
})

unfoldable pub set_score : ℤ → String → UserGuildStats → UserGuildStats
set_score score rank row = record row { contribution_score = score; derived_rank = rank }

pub next_score : ℤ → ℤ → ℤ
next_score score applied = max_ℤ (add32 score applied) (pos 0)

-- The event, with the names of the code's local variables.
abbrev pub new_event :
    Context → ℕ → Option ℕ → String → ℤ → Option String → Value → Applied → GuildScoreEvent
new_event ctx user_id granter event_type requested reference metadata (applied, reason) = record {
  id = ctx.new_id;
  user_id = user_id;
  granter_user_id = granter;
  event_type = event_type;
  delta = applied;
  reference_id = reference;
  metadata = enrich_contribution_event_metadata metadata requested applied reason;
  created_at = ctx.db_now;
}

abbrev pub applied_outcome : GuildScoreEvent → ℤ → String → Applied → ContributionEventOutcome
applied_outcome event score rank (applied, reason) = record {
  event = some event;
  contribution_score = score;
  derived_rank = rank;
  applied_delta = applied;
  duplicate = false;
  suppressed_reason = reason;
}

-- The event is stored and the score is set, with the rank that it gives.
pub apply_event :
    GuildPolicyConfig → UserGuildStats → GuildScoreEvent → Applied → Action ContributionEventOutcome
apply_event policy stats new verdict = do
  let score = next_score stats.contribution_score verdict.0
  rank ← lift (rank_policy_for_score policy score)
  event ← insert_event new
  modify (update_stats new.user_id (set_score score rank.rank))
  pure (applied_outcome event score rank.rank verdict)

abbrev pub duplicate_outcome : UserGuildStats → ContributionEventOutcome
duplicate_outcome stats = record {
  event = none;
  contribution_score = stats.contribution_score;
  derived_rank = stats.derived_rank;
  applied_delta = pos 0;
  duplicate = true;
  suppressed_reason = some "duplicate_reference";
}

module _ (ctx : Context) (user_id : ℕ) (granter : Option ℕ) (event_type : String) (requested : ℤ)
    (reference : Option String) (metadata : Value) (options : ContributionEventOptions) where
  contribute_judged : GuildPolicyConfig → UserGuildStats → Applied → Action ContributionEventOutcome
  contribute_judged policy stats judged = do
    earned ← gets (positive_points_earned_today ctx user_id event_type)
    let verdict = apply_cap requested options.daily_positive_cap earned judged
    apply_event policy stats
        (new_event ctx user_id granter event_type requested reference metadata verdict) verdict

  -- The event is new: what it is worth, and its application.
  pub contribute : GuildPolicyConfig → UserGuildStats → Action ContributionEventOutcome
  unfolding contribute_judged
  contribute policy stats = do
    judged ← judge ctx policy user_id granter event_type requested options
    contribute_judged policy stats judged

  pub contribute_once :
      GuildPolicyConfig → UserGuildStats → Option GuildScoreEvent → Action ContributionEventOutcome
  contribute_once policy stats (some existing) = pure (duplicate_outcome stats)
  contribute_once policy stats none = contribute policy stats

  -- What runs in the transaction.
  pub record_event : Action ContributionEventOutcome
  record_event = do
    policy ← load_guild_policy_conn ctx
    stats ← ensure_user_guild_stats policy user_id
    synced ← sync_derived_state policy stats
    existing ← gets (find_reference user_id event_type reference)
    contribute_once policy synced existing

pub record_contribution_event :
    Context
    → ℕ
    → Option ℕ
    → String
    → ℤ
    → Option String
    → Value
    → ContributionEventOptions
    → Action ContributionEventOutcome
unfolding normal_reference
record_contribution_event ctx user_id granter event_type requested reference metadata options =
    let kind = trim event_type in
    if str_eq kind ""
    then fail (AppError.bad_request "event_type cannot be empty")
    else transaction (
        record_event ctx user_id granter kind requested (normal_reference reference) metadata
          options)

pub award_validated_moderation_action :
    Context → ℕ → String → Option String → Value → Action ContributionEventOutcome
award_validated_moderation_action ctx actor event_type reference metadata =
    record_contribution_event ctx actor none event_type (pos 50) reference metadata default_options

pub award_verified_abuse_report :
    Context → ℕ → Option String → Value → Action ContributionEventOutcome
award_verified_abuse_report ctx user_id reference metadata =
    record_contribution_event ctx user_id none "verified_abuse_report" (pos 25) reference metadata
      default_options

pub penalize_false_report : Context → ℕ → Option String → Value → Action ContributionEventOutcome
penalize_false_report ctx user_id reference metadata =
    record_contribution_event ctx user_id none "false_report_penalty" (negsuc 9) reference metadata
      default_options

pub award_community_upvote :
    Context → ℕ → Option ℕ → Option String → Value → ℤ → Action ContributionEventOutcome
award_community_upvote ctx user_id granter reference metadata daily_cap =
    record_contribution_event ctx user_id granter "helpful_answer_vote" (pos 5) reference metadata
      (record { requires_meaningful_granter = true; daily_positive_cap = some daily_cap })

pub clawback_contribution_score :
    Context → ℕ → ℤ → Option String → Value → Action ContributionEventOutcome
clawback_contribution_score ctx user_id delta reference metadata =
    record_contribution_event ctx user_id none "admin.score_clawback" (min_ℤ delta (pos 0))
      reference metadata default_options
