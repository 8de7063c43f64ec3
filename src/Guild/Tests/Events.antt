-- ===== src/Guild/Tests/Events.antt =====
-- The theorems on the contribution events, on the small server.
use sync_server.Prelude.{
  true, ℕ, ◌+◌, ◌≡◌, ◌≢◌, refl, inl, inr, String, some, none, length, arith, ◌∷◌, [], filter,
}
use sync_server.Prelude.Int.{ℤ, pos, negsuc, ◌≤ℤ◌, ◌-ℤ◌, ◌*ℤ◌, max_ℤ, leb_ℤ}
use sync_server.Prelude.Text.{trim}
use sync_server.Errors.{ok}
use sync_server.Store.{Database}
use sync_server.Guild.Types.{UserGuildStats, GuildScoreEvent, null}
use sync_server.Guild.Activity.{date_naive, micros_per_day}
use sync_server.Guild.Stats.{daily_action_count}
use sync_server.Guild.Events.{
  default_options, ContributionEventOptions, find_reference, normal_reference,
  positive_points_earned_today, is_clustered_vote,
}
use sync_server.Guild.Events.Record.{
  duplicate_outcome, record_contribution_event, clawback_contribution_score, award_community_upvote,
}
use sync_server.Guild.Events.Record.Outcome.{Recorded, event-Recorded}
use sync_server.Guild.Events.Record.Effects.{
  score_of, upvotes, clawback_lowers, upvotes_capped, void_upvote,
}
use sync_server.Guild.Events.Record.Twice.{recorded_twice}
use sync_server.Guild.History.{GuildHistoryPruneResult, prune_guild_history}
use sync_server.Guild.History.Kept.{prune_keeps}
use sync_server.Guild.Tests.{now, ctx, policy, row, db, loaded, start, has_first, has_admin}

named : trim "report" ≢ ""
unfolding trim
named = λ e. cc

unused : find_reference 1 (trim "report") (normal_reference (some "r-1")) db ≡ none
unfolding find_reference normal_reference trim
unused = refl

abbrev strict_options : ContributionEventOptions
strict_options = record { requires_meaningful_granter = true; daily_positive_cap = none }

event-Recorded_example :
    Recorded ctx 1
      (some 3)
      (trim "report")
      (pos 25)
      (normal_reference (some "r-1"))
      null
      strict_options
      policy
      db
      row
      (record_contribution_event ctx 1
        (some 3)
        "report"
        (pos 25)
        (some "r-1")
        null
        strict_options
        db)
event-Recorded_example =
    event-Recorded ctx 1 (some 3) "report" (pos 25) (some "r-1") null strict_options policy db row
      loaded start has_first has_admin named unused

recorded_twice_example :
    (after : UserGuildStats) × (db' : Database) × (record_contribution_event ctx 1 none "report"
        (pos 50)
        (some "r-1")
        null
        default_options
        (record_contribution_event ctx 1
          (some 3)
          "report"
          (pos 25)
          (some "r-1")
          null
          default_options
          db).1
      ≡ (ok (duplicate_outcome after), db'))
    × (db'.events
        ≡ (record_contribution_event ctx 1
            (some 3)
            "report"
            (pos 25)
            (some "r-1")
            null
            default_options
            db).1.events)
    × (score_of 1 db'
        ≡ score_of 1
            (record_contribution_event ctx 1
              (some 3)
              "report"
              (pos 25)
              (some "r-1")
              null
              default_options
              db).1)
unfolding normal_reference trim
recorded_twice_example =
    recorded_twice ctx 1 (some 3) "report" (pos 25) (some "r-1") "r-1" null default_options policy
      db row loaded start has_first has_admin named refl unused ctx none (pos 50) null
      default_options

-- The small server with an event under a reference.
abbrev event : GuildScoreEvent
event = record {
  id = 5;
  user_id = 1;
  granter_user_id = none;
  event_type = "report";
  delta = pos 25;
  reference_id = some "r-1";
  metadata = null;
  created_at = now;
}

abbrev later_db : Database
later_db = record db { events = event ∷ [] }

clawback_lowers_example :
    (score : ℤ) × (score_of 1 (clawback_contribution_score ctx 1 (negsuc 49) none null db).1
      ≡ some score)
    × (score ≤ℤ row.contribution_score)
    × (pos 0 ≤ℤ score)
unfolding find_reference normal_reference
clawback_lowers_example =
    clawback_lowers ctx 1 (negsuc 49) none null policy db row loaded start has_first refl
      (omega arith) (record { below = omega arith; above = omega arith })
      (record { below = omega arith; above = omega arith })

upvotes_capped_example :
    upvotes ctx 1 (award_community_upvote ctx 1 (some 3) none null (pos 12) db).1
    ≤ℤ max_ℤ (upvotes ctx 1 db) (pos 12)
unfolding find_reference normal_reference
upvotes_capped_example =
    upvotes_capped ctx 1 (some 3) none null (pos 12) policy db row loaded start has_first has_admin
      refl (omega arith) (omega arith) (omega arith)

void_upvote_example :
    score_of 1 (award_community_upvote ctx 1 (some 1) none null (pos 12) db).1
    ≡ some row.contribution_score
unfolding find_reference normal_reference
void_upvote_example =
    void_upvote ctx 1 (some 1) none null (pos 12) policy db row loaded start has_first has_first
      refl (omega arith) (record { below = omega arith; above = omega arith }) (omega arith)
      (omega arith) (inr (inl refl))

prune_keeps_example :
    (r : GuildHistoryPruneResult) × (db' : Database) × (prune_guild_history ctx db ≡ (ok r, db'))
    × (db' ≡ record db {
      counters =
          filter
            (λ c.
              leb_ℤ
                (pos (date_naive ctx.now) -ℤ policy.daily_counter_retention_days)
                (pos c.day_bucket))
            db.counters;
      events =
          filter
            (λ e.
              leb_ℤ
                (pos ctx.now -ℤ policy.score_event_retention_days *ℤ pos micros_per_day)
                (pos e.created_at))
            db.events;
    })
    × (r.daily_action_counters_deleted + length db'.counters ≡ length db.counters)
    × (r.guild_score_events_deleted + length db'.events ≡ length db.events)
    × ((user_id : ℕ) (key : String) (day : ℕ)
        → pos (date_naive ctx.now) -ℤ policy.daily_counter_retention_days ≤ℤ pos day
        → daily_action_count user_id key day db' ≡ daily_action_count user_id key day db)
    × ((user_id : ℕ) (event_type : String)
        → (positive_points_earned_today ctx user_id event_type db'
            ≡ positive_points_earned_today ctx user_id event_type db)
          × (is_clustered_vote ctx user_id event_type db'
              ≡ is_clustered_vote ctx user_id event_type db))
unfolding ◌-ℤ◌ ◌*ℤ◌
prune_keeps_example = prune_keeps ctx policy db loaded (omega arith) (omega arith)
