-- ===== src/Guild/History/Shown.antt =====
-- What a snapshot shows after an action.
use sync_server.Prelude.{ℕ, ◌≡◌, ◌∙◌, ap, sym, String, none, some}
use sync_server.Prelude.Int.{ℤ, pos}
use sync_server.Errors.{ok}
use sync_server.Store.{Database, Context, ◌>>=◌, >>=_of_ok}
use sync_server.Guild.Types.{
  LevelPolicy, RankPolicy, GuildPolicyConfig, UserGuildStats, GuildSnapshot,
}
use sync_server.Guild.Ranking.{level_policy_for_active_days, rank_policy_for_score}
use sync_server.Guild.Activity.{date_naive}
use sync_server.Guild.Stats.{
  stats_of, daily_action_count, set_derived, load_guild_policy_conn, ensure_user_guild_stats,
  sync_derived_state,
}
use sync_server.Guild.Stats.Load.{loaded-IsValid, load_runs}
use sync_server.Guild.Stats.Rows.{sync-Writes}
use sync_server.Guild.Snapshot.{shown_level}
use sync_server.Guild.Snapshot.Bounds.{build_snapshot_settled}
use sync_server.Guild.Actions.{
  action_outbound_message, action_attachment_send, action_friend_add, record_human_activity,
}
use sync_server.Guild.Actions.Begin.{
  StartsFrom, known, Counted, begin-Counted, ensure_from, recorded,
}
use sync_server.Guild.History.{show, get_guild_snapshot}

module _ (ctx : Context) (policy : GuildPolicyConfig) (user_id : ℕ) (db : Database)
    (row : UserGuildStats) (l : LevelPolicy) (k : RankPolicy)
    (loaded : (load_guild_policy_conn ctx db).0 ≡ ok policy)
    (found : stats_of user_id db ≡ some row)
    (is_level : level_policy_for_active_days policy row.active_days ≡ ok l)
    (is_rank : rank_policy_for_score policy row.contribution_score ≡ ok k)
    (level : row.derived_level ≡ pos l.level) (rank : row.derived_rank ≡ k.rank) where
  -- A row whose level and rank are up to date is shown as it is, with no milestone.
  settled_shown :
      (s : GuildSnapshot) × (db' : Database) × (get_guild_snapshot ctx user_id db ≡ (ok s, db'))
      × (s.level ≡ shown_level row.derived_level)
      × (s.rank ≡ row.derived_rank)
      × (s.pending_milestone_notification ≡ none)
  unfolding get_guild_snapshot show set_derived
  settled_shown =
      let v = loaded-IsValid ctx db policy loaded in
      let (db₁, run₁, b₁) = ensure_from policy v user_id db row (known found) in
      let (db₂, run₂, b₂) = sync-Writes user_id db₁ row b₁.found policy l k is_level is_rank in
      let count : String → ℤ = λ key. daily_action_count user_id key (date_naive ctx.now) db₂ in
      let (s, built, shows_level, shows_rank, quiet) =
        build_snapshot_settled policy (set_derived l k row) (count action_outbound_message)
          (count action_attachment_send) (count action_friend_add) (shown_level row.derived_level)
          row.derived_rank v (ap shown_level level) rank in
      (
        s,
        db₂,
        >>=_of_ok (load_guild_policy_conn ctx)
              (λ policy. ensure_user_guild_stats policy user_id >>= λ stats.
                sync_derived_state policy stats >>= λ synced. show ctx policy user_id stats synced)
              db db policy (load_runs ctx db policy loaded)
            ∙ >>=_of_ok (ensure_user_guild_stats policy user_id)
                (λ stats. sync_derived_state policy stats >>= λ synced.
                  show ctx policy user_id stats synced)
                db db₁ row run₁
            ∙ >>=_of_ok (sync_derived_state policy row)
                (λ synced. show ctx policy user_id row synced) db₁ db₂ (set_derived l k row) run₂
            ∙ ap (λ r. (r, db₂)) built,
        shows_level ∙ ap shown_level (sym level),
        shows_rank ∙ sym rank,
        quiet,
      )

-- After an activity of a user whose row is stored, or who is new, the next snapshot under the same
-- policy, at any time, shows the level and the rank that the activity has left, but announces no
-- milestone, even where they are new: the activity itself has brought the row up to date.
pub milestone_missed :
    (ctx ctx' : Context) (policy : GuildPolicyConfig) (user_id : ℕ) (db : Database)
    (row : UserGuildStats)
    → (load_guild_policy_conn ctx db).0 ≡ ok policy
    → StartsFrom policy user_id db row
    → (load_guild_policy_conn ctx' (record_human_activity ctx user_id db).1).0 ≡ ok policy
    → (row' : UserGuildStats) × Counted policy (date_naive ctx.now) ctx.now row row'
      × (s : GuildSnapshot) × (db' : Database) × (get_guild_snapshot ctx' user_id
            (record_human_activity ctx user_id db).1
          ≡ (ok s, db'))
      × (s.level ≡ shown_level row'.derived_level)
      × (s.rank ≡ row'.derived_rank)
      × (s.pending_milestone_notification ≡ none)
milestone_missed ctx ctx' policy user_id db row loaded start loaded' =
    let (row', db₁, run, b, counted) = begin-Counted ctx policy user_id db row loaded start in
    let (l, is_level, level) = counted.level in
    let (k, is_rank, rank) = counted.rank in
    let acted = recorded ctx policy user_id db row' db₁ run in
    let found = ap (λ r. stats_of user_id r.1) acted ∙ b.found in
    let (s, db₂, read, shows_level, shows_rank, quiet) =
      settled_shown ctx' policy user_id (record_human_activity ctx user_id db).1 row' l k loaded'
        found is_level is_rank level rank in
    (row', counted, s, db₂, read, shows_level, shows_rank, quiet)
