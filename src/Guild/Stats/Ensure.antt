-- ===== src/Guild/Stats/Ensure.antt =====
-- `ensure_user_guild_stats`: the row of a user, inserted where it is missing.
use sync_server.Prelude.{ℕ, ◌≡◌, refl, true, false, none, some, arith, ◌∷◌}
use sync_server.Prelude.Int.{pos}
use sync_server.Errors.{AppError, ok, err}
use sync_server.Store.{Database, has_user, require_user}
use sync_server.Guild.Types.{LevelPolicy, RankPolicy, GuildPolicyConfig, UserGuildStats}
use sync_server.Guild.Ranking.{level_policy_for_active_days, rank_policy_for_score}
use sync_server.Guild.Stats.{stats_of, new_stats, ensure_user_guild_stats}
use sync_server.Guild.Stats.Rows.{Became, Became-refl, Writes}

module _ (policy : GuildPolicyConfig) (user_id : ℕ) (level : LevelPolicy) (rank : RankPolicy)
    (is_level : level_policy_for_active_days policy (pos 0) ≡ ok level)
    (is_rank : rank_policy_for_score policy (pos 0) ≡ ok rank) (db : Database) where
  -- A row that is there is left as it is.
  pub ensure_known :
      (row : UserGuildStats)
      → stats_of user_id db ≡ some row
      → Writes db user_id (ensure_user_guild_stats policy user_id) row
  unfolding ensure_user_guild_stats
  ensure_known row h = (db, ground arith, Became-refl row h)

  abbrev with_new : Database
  with_new = record db { stats = new_stats user_id level rank ∷ db.stats }

  with_new-Became :
      stats_of user_id db ≡ none → Became db user_id (new_stats user_id level rank) with_new
  with_new-Became h = record {
    found = ground arith;
    others = λ j ne. ground arith;
    users = refl;
    settings = refl;
    counters = refl;
    events = refl;
    messages = refl;
    elsewhere = record {
      rooms = refl;
      room_members = refl;
      room_messages = refl;
      reports = refl;
      blocks = refl;
    };
  }

  -- A user without a row gets the row of a newcomer.
  pub ensure_new :
      stats_of user_id db ≡ none
      → has_user user_id db ≡ true
      → Writes db user_id (ensure_user_guild_stats policy user_id) (new_stats user_id level rank)
  unfolding ensure_user_guild_stats require_user
  ensure_new h u = (with_new, ground (arith, (with_new-Became h).found), with_new-Became h)

  -- For an identifier that no user has, the insertion fails and nothing changes.
  pub ensure_stranger :
      stats_of user_id db ≡ none
      → has_user user_id db ≡ false
      → ensure_user_guild_stats policy user_id db ≡ (err AppError.database, db)
  unfolding ensure_user_guild_stats require_user
  ensure_stranger h u = ground arith
