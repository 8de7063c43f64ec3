-- ===== src/Guild/History.antt =====
-- `prune_guild_history` of src/services/guild_service.rs, and `get_guild_snapshot`.
pub mod Kept
pub mod Shown
use sync_server.Prelude.{
  ℕ, ◌+◌, ◌-◌, ◌*◌, String, Bool, true, false, Option, none, some, List, ltb, not, filter, length,
  ◌||◌, if◌then◌else◌,
}
use sync_server.Prelude.Int.{ℤ, pos, ◌-ℤ◌, ◌*ℤ◌, ltb_ℤ, pos_part, neg_part}
use sync_server.Errors.{Result, ok, err, panic}
use sync_server.Store.{
  Database, Context, Action, pure, lift, gets, modify, ◌>>=◌, ◌>>◌, delete_where,
}
use sync_server.Guild.Types.{
  GuildPolicyConfig, UserGuildStats, DailyActionCounter, GuildScoreEvent, GuildSnapshot,
}
use sync_server.Guild.Activity.{date_naive, micros_per_day}
use sync_server.Guild.Stats.{
  load_guild_policy_conn, ensure_user_guild_stats, sync_derived_state, daily_action_count,
}
use sync_server.Guild.Snapshot.{build_snapshot, shown_level}
use sync_server.Guild.Actions.{action_outbound_message, action_attachment_send, action_friend_add}

-- A day or a time before 1970 is a negative number here.
pub record GuildHistoryPruneResult : Type 0 where
  pub daily_counter_retention_days : ℤ
  pub score_event_retention_days : ℤ
  pub pruned_before_day : ℤ
  pub pruned_before_timestamp : ℤ
  pub daily_action_counters_deleted : ℕ
  pub guild_score_events_deleted : ℕ

-- `now.date_naive() - Duration::days(days)`, which panics below the first date.
day_before : Context → ℤ → Result ℤ
day_before ctx days =
    let day = pos (date_naive ctx.now) -ℤ days in if ltb_ℤ day ctx.first_day then panic else ok day

time_before : Context → ℤ → Result ℤ
time_before ctx days =
    let time = pos ctx.now -ℤ days *ℤ pos micros_per_day in
    if ltb_ℤ time (ctx.first_day *ℤ pos micros_per_day) then panic else ok time

abbrev pub is_old_counter : ℤ → DailyActionCounter → Bool
is_old_counter day c = ltb_ℤ (pos c.day_bucket) day

abbrev pub is_old_event : ℤ → GuildScoreEvent → Bool
is_old_event time e = ltb_ℤ (pos e.created_at) time

-- A deletion, which answers how many rows it removed.
delete_counters : ℤ → Action ℕ
delete_counters day db = (
  ok (length (filter (is_old_counter day) db.counters)),
  record db { counters = delete_where (is_old_counter day) db.counters },
)

delete_events : ℤ → Action ℕ
delete_events time db = (
  ok (length (filter (is_old_event time) db.events)),
  record db { events = delete_where (is_old_event time) db.events },
)

-- The two deletions are not in a transaction.
pub prune_guild_history : Context → Action GuildHistoryPruneResult
unfolding day_before time_before delete_counters delete_events
prune_guild_history ctx = do
  policy ← load_guild_policy_conn ctx
  day ← lift (day_before ctx policy.daily_counter_retention_days)
  time ← lift (time_before ctx policy.score_event_retention_days)
  counters ← delete_counters day
  events ← delete_events time
  pure (record {
    daily_counter_retention_days = policy.daily_counter_retention_days;
    score_event_retention_days = policy.score_event_retention_days;
    pruned_before_day = day;
    pruned_before_timestamp = time;
    daily_action_counters_deleted = counters;
    guild_score_events_deleted = events;
  })

-- The snapshot of a row that is synchronised; `before` is the row as it was found.
show : Context → GuildPolicyConfig → ℕ → UserGuildStats → UserGuildStats → Action GuildSnapshot
show ctx policy user_id before synced = do
  sent ← gets (daily_action_count user_id action_outbound_message (date_naive ctx.now))
  attachments ← gets (daily_action_count user_id action_attachment_send (date_naive ctx.now))
  friends ← gets (daily_action_count user_id action_friend_add (date_naive ctx.now))
  lift (
      build_snapshot policy synced sent attachments friends (shown_level before.derived_level)
        before.derived_rank)

-- Not in a transaction. What the row showed before decides on a milestone.
pub get_guild_snapshot : Context → ℕ → Action GuildSnapshot
unfolding show
get_guild_snapshot ctx user_id = do
  policy ← load_guild_policy_conn ctx
  stats ← ensure_user_guild_stats policy user_id
  synced ← sync_derived_state policy stats
  show ctx policy user_id stats synced
