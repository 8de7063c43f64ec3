-- ===== src/Guild/Events/Record/Apply.antt =====
-- How an event is applied to the tables.
use sync_server.Prelude.{ℕ, ◌≡◌, refl, sym, ◌∙◌, String, true, Option, none, some, ◌∷◌, arith}
use sync_server.Prelude.Int.{ℤ}
use sync_server.Errors.{ok}
use sync_server.Store.{Database, Context, has_user, has_user_of_users, require_user_there}
use sync_server.Guild.Types.{RankPolicy, GuildPolicyConfig, UserGuildStats, GuildScoreEvent}
use sync_server.Guild.Policy.Valid.{IsValid}
use sync_server.Guild.Ranking.{rank_policy_for_score}
use sync_server.Guild.Ranking.Select.{rank_total}
use sync_server.Guild.Stats.{stats_of, update_stats}
use sync_server.Guild.Stats.Rows.{update_stats-Became}
use sync_server.Guild.Events.{
  ContributionEventOptions, find_reference, is_reciprocal_vote, is_clustered_vote,
  positive_points_earned_today, Applied,
}
use sync_server.Guild.Events.Record.{
  require_granter, insert_event, set_score, next_score, applied_outcome, apply_event,
}
use sync_server.Guild.Events.Judge.{Verdict}

-- The granter, if there is one, is a user.
abbrev pub IsKnown : Option ℕ → Database → Type 0
IsKnown none db = Unit
IsKnown (some granter) db = has_user granter db ≡ true

-- The user's row after an event: the score and its rank, and nothing else but a level that is up
-- to date.
pub record Scored (row : UserGuildStats) (score : ℤ) (rank : String) (row' : UserGuildStats)
    : Type 0 where
  pub contribution_score : row'.contribution_score ≡ score
  pub derived_rank : row'.derived_rank ≡ rank
  pub active_days : row'.active_days ≡ row.active_days
  pub last_active_day : row'.last_active_day ≡ row.last_active_day
  pub review : row'.automation_review_state ≡ row.automation_review_state

granter_runs :
    (granter : Option ℕ) (db : Database)
    → IsKnown granter db
    → require_granter granter db ≡ (ok tt, db)
unfolding require_granter
granter_runs none db known = refl
granter_runs (some granter) db known = require_user_there granter db known

set_score-user_id :
    (score : ℤ) (rank : String) (r : UserGuildStats) → (set_score score rank r).user_id ≡ r.user_id
unfolding set_score
set_score-user_id score rank r = refl

module _ (new : GuildScoreEvent) (db : Database) (u : has_user new.user_id db ≡ true) where
  insert_event_runs :
      IsKnown new.granter_user_id db
      → insert_event new db ≡ (ok new, record db { events = new ∷ db.events })
  unfolding insert_event
  insert_event_runs known =
      ground (arith, require_user_there new.user_id db u, granter_runs new.granter_user_id db known)

  abbrev pub Applies : GuildPolicyConfig → UserGuildStats → Applied → Type 0
  Applies policy row verdict =
      (rank : RankPolicy) × (db' : Database) × (apply_event policy row new verdict db ≡ (
        ok (applied_outcome new (next_score row.contribution_score verdict.0) rank.rank verdict),
        db',
      ))
      × (rank_policy_for_score policy (next_score row.contribution_score verdict.0) ≡ ok rank)
      × (db'.events ≡ new ∷ db.events)
      × (db'.users ≡ db.users)
      × (stats_of new.user_id db'
          ≡ some (set_score (next_score row.contribution_score verdict.0) rank.rank row))

  pub apply_event_runs :
      (policy : GuildPolicyConfig)
      → IsValid policy
      → (row : UserGuildStats) (verdict : Applied) → IsKnown new.granter_user_id db
      → stats_of new.user_id db ≡ some row
      → Applies policy row verdict
  unfolding apply_event
  apply_event_runs policy v row verdict known h =
      let score = next_score row.contribution_score verdict.0 in
      let (rank, is_rank, _) = rank_total policy score v in
      (
        rank,
        update_stats new.user_id (set_score score rank.rank)
            (record db { events = new ∷ db.events }),
        ground (arith, is_rank, insert_event_runs known),
        is_rank,
        refl,
        refl,
        (update_stats-Became new.user_id (set_score score rank.rank)
            (set_score-user_id score rank.rank) (record db { events = new ∷ db.events }) row
            h).found,
      )

module _ (ctx : Context) (user_id : ℕ) (event_type : String) (db db' : Database)
    (e : db'.events ≡ db.events) where
  reciprocal_of_events :
      (granter : Option ℕ)
      → is_reciprocal_vote ctx user_id granter event_type db'
        ≡ is_reciprocal_vote ctx user_id granter event_type db
  unfolding is_reciprocal_vote
  reciprocal_of_events none = refl
  reciprocal_of_events (some granter) = rw e

  clustered_of_events :
      is_clustered_vote ctx user_id event_type db' ≡ is_clustered_vote ctx user_id event_type db
  unfolding is_clustered_vote
  clustered_of_events = rw e

  pub earned_of_events :
      positive_points_earned_today ctx user_id event_type db'
      ≡ positive_points_earned_today ctx user_id event_type db
  unfolding positive_points_earned_today
  earned_of_events = rw e

  pub reference_of_events :
      (reference : Option String)
      → find_reference user_id event_type reference db'
        ≡ find_reference user_id event_type reference db
  unfolding find_reference
  reference_of_events none = refl
  reference_of_events (some reference) = rw e

-- The checks read the users and the events.
pub Verdict-of :
    (ctx : Context) (user_id : ℕ) (granter : Option ℕ) (event_type : String) (requested : ℤ)
    (options : ContributionEventOptions) (db db' : Database) (verdict : Applied)
    → db'.users ≡ db.users
    → db'.events ≡ db.events
    → Verdict ctx user_id granter event_type requested options db' verdict
    → Verdict ctx user_id granter event_type requested options db verdict
Verdict-of ctx user_id granter event_type requested options db db' verdict u e (worth, from, free) =
    (
      worth,
      λ m p a.
          let (g, is, other, there, direct, spread) = from m p a in
          (
            g,
            is,
            other,
            sym (has_user_of_users g db db' u) ∙ there,
            sym (reciprocal_of_events ctx user_id event_type db db' e granter) ∙ direct,
            sym (clustered_of_events ctx user_id event_type db db' e) ∙ spread,
          ),
      free,
    )

pub IsKnown-of_users :
    (granter : Option ℕ) (db db' : Database)
    → db'.users ≡ db.users
    → IsKnown granter db
    → IsKnown granter db'
IsKnown-of_users none db db' u known = tt
IsKnown-of_users (some granter) db db' u known = has_user_of_users granter db db' u ∙ known
