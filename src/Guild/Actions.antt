-- ===== src/Guild/Actions.antt =====
-- The limited actions of src/services/guild_service.rs: sending a message, sending an attachment,
-- adding a contact; and recording an activity.
pub mod Begin
pub mod Send
pub mod Days
pub mod Contact
pub mod Attach
use sync_server.Prelude.{
  ℕ, String, Bool, true, false, Option, none, some, List, [], ◌∷◌, ◌==◌, ◌&&◌, not, ltb, find?,
  if◌then◌else◌,
}
use sync_server.Prelude.Int.{ℤ, leb_ℤ}
use sync_server.Prelude.Text.{clean}
use sync_server.Errors
use sync_server.Errors.{AppError, Result, ok, err, panic}
use sync_server.Store.{
  Database, Context, Action, User, Message, pure, fail, lift, gets, modify, ◌>>=◌, ◌>>◌,
  transaction, row_or_error, require_user, row_of,
}
use sync_server.Guild.Types.{
  LevelPolicy, RankPolicy, GuildPolicyConfig, UserGuildStats, GuildSnapshot,
}
use sync_server.Guild.Ranking.{
  level_policy_for_active_days, rank_policy_for_limits, effective_daily_outbound_messages_limit,
  effective_daily_friend_add_limit, effective_daily_attachment_send_limit,
}
use sync_server.Guild.Activity.{HumanActivityAssessment, date_naive}
use sync_server.Guild.Stats.{
  load_guild_policy_conn, ensure_user_guild_stats, sync_derived_state, update_human_activity_state,
  advance_active_day_if_needed, daily_action_count, increment_daily_counter,
}
use sync_server.Guild.Snapshot.{
  outbound_message_limit_enforced, attachment_send_limit_enforced, friend_add_limit_enforced,
  attachment_type_allowed, build_snapshot, shown_level, seconds_until_next_utc_day,
}

abbrev pub action_outbound_message : String
action_outbound_message = "outbound_message"

abbrev pub action_attachment_send : String
action_attachment_send = "attachment_send"

abbrev pub action_friend_add : String
action_friend_add = "friend_add"

-- `if assessment.should_advance_active_day { advance_active_day_if_needed(…)? } else { stats }`
pub advance_if : Bool → GuildPolicyConfig → UserGuildStats → ℕ → Action UserGuildStats
advance_if true policy stats today = advance_active_day_if_needed policy stats today
advance_if false policy stats today = pure stats

-- The steps with which each action begins, from the row of the user on.
pub count_activity : Context → GuildPolicyConfig → UserGuildStats → ℕ → Action UserGuildStats
unfolding advance_if
count_activity ctx policy stats today = do
  synced ← sync_derived_state policy stats
  seen ← update_human_activity_state ctx synced today
  advance_if seen.1.should_advance_active_day policy seen.0 today

pub begin_action : Context → ℕ → Action (GuildPolicyConfig × UserGuildStats)
begin_action ctx user_id = do
  policy ← load_guild_policy_conn ctx
  stats ← ensure_user_guild_stats policy user_id
  counted ← count_activity ctx policy stats (date_naive ctx.now)
  pure (policy, counted)

pub record_human_activity : Context → ℕ → Action (Unit {0})
record_human_activity ctx user_id = transaction (do begun ← begin_action ctx user_id; pure tt)

-- `limit_enforced`, a limit that is set, and `sent >= limit`.
pub limit_reached : Bool → Option ℤ → ℤ → Bool
limit_reached enforced none sent = false
limit_reached enforced (some limit) sent = enforced && leb_ℤ limit sent

-- The snapshot for a refusal: the level and the rank count as seen before.
pub refusal_snapshot : GuildPolicyConfig → UserGuildStats → ℕ → ℕ → Database → Result GuildSnapshot
refusal_snapshot policy stats user_id today db =
    build_snapshot policy stats (daily_action_count user_id action_outbound_message today db)
      (daily_action_count user_id action_attachment_send today db)
      (daily_action_count user_id action_friend_add today db) (shown_level stats.derived_level)
      stats.derived_rank

-- The refusal with its waiting time.
pub record Limited : Type 0 where
  pub guild : GuildSnapshot
  pub retry_after_seconds : ℕ

pub refuse : Context → GuildPolicyConfig → UserGuildStats → ℕ → Action Limited
refuse ctx policy stats user_id db =
    lift
      (Errors.◌>>=◌ (refusal_snapshot policy stats user_id (date_naive ctx.now) db) (λ snapshot.
        ok (record { guild = snapshot; retry_after_seconds = seconds_until_next_utc_day ctx.now })))
      db

pub data SendMessageWithTrustResult : Type 0 where
  sent : Message → SendMessageWithTrustResult
  limited : Limited → SendMessageWithTrustResult

pub new_message : Context → ℕ → ℕ → String → Message
new_message ctx sender recipient body = record {
  id = ctx.new_id;
  sender_id = sender;
  recipient_id = recipient;
  content = body;
  delivered_at = none;
  read_at = none;
  deleted_at = none;
  created_at = ctx.db_now;
}

-- A message has the identifier already.
unfoldable pub has_message : ℕ → Database → Bool
has_message id db = elim (row_of Message.id id db.messages) [ none ↦ false | some _ ↦ true ]

unfoldable pub require_new_message : ℕ → Action (Unit {0})
require_new_message id db = if has_message id db then (err AppError.database, db) else (ok tt, db)

-- `insert_message_conn` of src/services/message_service.rs
pub insert_message_conn : Context → ℕ → ℕ → String → Action Message
insert_message_conn ctx sender recipient body = do
  require_new_message ctx.new_id
  require_user sender
  require_user recipient
  let message = new_message ctx sender recipient body
  modify (λ db. record db { messages = message ∷ db.messages })
  pure message

pub deliver : Context → ℕ → ℕ → String → Action SendMessageWithTrustResult
deliver ctx sender recipient content = do
  message ← insert_message_conn ctx sender recipient content
  increment_daily_counter sender action_outbound_message (date_naive ctx.now)
  pure (sent message)

pub message_limit : GuildPolicyConfig → UserGuildStats → Result (Option ℤ)
message_limit policy stats =
    Errors.◌>>=◌ (level_policy_for_active_days policy stats.active_days) (λ level.
      Errors.◌>>=◌ (rank_policy_for_limits policy stats.contribution_score)
        (λ rank. ok (effective_daily_outbound_messages_limit level rank)))

pub send_counted :
    Context
    → ℕ
    → ℕ
    → String
    → GuildPolicyConfig
    → UserGuildStats
    → Action SendMessageWithTrustResult
send_counted ctx sender recipient content policy stats = do
  sent_today ← gets (daily_action_count sender action_outbound_message (date_naive ctx.now))
  limit ← lift (message_limit policy stats)
  if limit_reached (outbound_message_limit_enforced policy) limit sent_today
      then (do refusal ← refuse ctx policy stats sender; pure (limited refusal))
      else deliver ctx sender recipient content

pub send_message_with_guild : Context → ℕ → ℕ → String → Action SendMessageWithTrustResult
send_message_with_guild ctx sender recipient content =
    transaction (do
      begun ← begin_action ctx sender
      send_counted ctx sender recipient content begun.0 begun.1)

pub data AttachmentActionWithTrustResult (T : Type 0) : Type 0 where
  completed : T → AttachmentActionWithTrustResult T
  limited : Limited → AttachmentActionWithTrustResult T
  unsupported_mime : GuildSnapshot → AttachmentActionWithTrustResult T

pub attachment_limit : GuildPolicyConfig → UserGuildStats → Result (Option ℤ)
attachment_limit policy stats =
    Errors.◌>>=◌ (level_policy_for_active_days policy stats.active_days) (λ level.
      Errors.◌>>=◌ (rank_policy_for_limits policy stats.contribution_score)
        (λ rank. ok (effective_daily_attachment_send_limit level rank)))

module _ {T : Type 0} (ctx : Context) (user_id : ℕ) (operation : Action T) where
  attach : Action (AttachmentActionWithTrustResult T)
  attach = do
    value ← operation
    increment_daily_counter user_id action_attachment_send (date_naive ctx.now)
    pure (completed value)

  attach_limited : GuildPolicyConfig → UserGuildStats → Action (AttachmentActionWithTrustResult T)
  unfolding attach
  attach_limited policy stats = do
    sent_today ← gets (daily_action_count user_id action_attachment_send (date_naive ctx.now))
    limit ← lift (attachment_limit policy stats)
    if limit_reached (attachment_send_limit_enforced policy) limit sent_today
        then (do refusal ← refuse ctx policy stats user_id; pure (limited refusal))
        else attach

  attach_counted :
      String → GuildPolicyConfig → UserGuildStats → Action (AttachmentActionWithTrustResult T)
  unfolding attach_limited
  attach_counted mime_type policy stats =
      if attachment_send_limit_enforced policy && not (attachment_type_allowed policy mime_type)
      then (do refusal ← refuse ctx policy stats user_id; pure (unsupported_mime refusal.guild))
      else attach_limited policy stats

  pub run_attachment_action_with_guild : String → Action (AttachmentActionWithTrustResult T)
  run_attachment_action_with_guild mime_type =
      transaction
        (do begun ← begin_action ctx user_id; attach_counted (clean mime_type) begun.0 begun.1)

pub data ResolveContactWithTrustResult : Type 0 where
  allowed : ResolveContactWithTrustResult
  limited : Limited → ResolveContactWithTrustResult

pub friend_limit : GuildPolicyConfig → UserGuildStats → Result (Option ℤ)
friend_limit policy stats =
    Errors.◌>>=◌ (level_policy_for_active_days policy stats.active_days) (λ level.
      Errors.◌>>=◌ (rank_policy_for_limits policy stats.contribution_score)
        (λ rank. ok (effective_daily_friend_add_limit level rank)))

-- `user.yellow_card_expires_at.map(|t| t > now).unwrap_or(false)`
pub has_yellow_card : User → ℕ → Bool
has_yellow_card user now = elim user.yellow_card_expires_at [ none ↦ false | some t ↦ ltb now t ]

reject_carded : Context → Option User → Action (Unit {0})
unfolding has_yellow_card
reject_carded ctx none = fail AppError.not_found
reject_carded ctx (some user) =
    if has_yellow_card user ctx.now
    then fail (
        AppError.bad_request
          "Your account has a temporary restriction and cannot add contacts at this time.")
    else pure tt

admit : Context → ℕ → Action ResolveContactWithTrustResult
admit ctx user_id = do
  increment_daily_counter user_id action_friend_add (date_naive ctx.now)
  pure allowed

-- The limit is worked out only where it is enforced.
pub limit_if : Bool → Result (Option ℤ) → Result (Option ℤ)
limit_if true limit = limit
limit_if false limit = ok none

resolve_counted :
    Context → ℕ → GuildPolicyConfig → UserGuildStats → Action ResolveContactWithTrustResult
unfolding reject_carded admit limit_if
resolve_counted ctx user_id policy stats = do
  user ← gets (λ db. find? (λ u. u.id == user_id) db.users)
  reject_carded ctx user
  adds_today ← gets (daily_action_count user_id action_friend_add (date_naive ctx.now))
  limit ← lift (limit_if (friend_add_limit_enforced policy) (friend_limit policy stats))
  if limit_reached (friend_add_limit_enforced policy) limit adds_today
      then (do refusal ← refuse ctx policy stats user_id; pure (limited refusal))
      else admit ctx user_id

pub resolve_contact_with_guild : Context → ℕ → Action ResolveContactWithTrustResult
resolve_contact_with_guild ctx user_id =
    transaction (do begun ← begin_action ctx user_id; resolve_counted ctx user_id begun.0 begun.1)
