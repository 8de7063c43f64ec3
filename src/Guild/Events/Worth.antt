-- ===== src/Guild/Events/Worth.antt =====
-- What an event is worth before the daily cap, said apart from the code that judges it.
pub mod Judged
use sync_server.Prelude.{
  ℕ, ◌+◌, ◌*◌, ◌≡◌, ◌≢◌, refl, ap, ◌∙◌, inl, inr, String, Bool, true, false, not, ◌&&◌, ◌||◌, ◌==◌,
  Option, none, some, arith, leb, any, filter, length, find?, str_eq, if◌then◌else◌, Bool-cases,
  Option-cases,
}
use sync_server.Prelude.Int.{ℤ, pos, ltb_ℤ}
use sync_server.Errors.{Result, ok, err, panic}
use sync_server.Store.{Database, Context, Action, User, pure, >>=_of_ok}
use sync_server.Guild.Types.{LevelPolicy, RankPolicy, GuildPolicyConfig, UserGuildStats}
use sync_server.Guild.Policy.Valid.{IsValid}
use sync_server.Guild.Activity.{micros_per_day}
use sync_server.Guild.Ranking.{level_policy_for_active_days, rank_policy_for_score}
use sync_server.Guild.Ranking.Select.{EntryOf}
use sync_server.Guild.Ranking.Standing.{rank_at_least_lem}
use sync_server.Guild.Stats.{stats_of, set_derived}
use sync_server.Guild.Actions.Begin.{StartsFrom, known, newcomer}
use sync_server.Guild.Events.{
  ContributionEventOptions, is_user, is_gain_today, distinct_granters, is_reciprocal_vote,
  is_clustered_vote, is_eligible, judge_role, granter_is_meaningful, Applied, judge_eligible,
  judge_granter, judge,
}
use sync_server.Guild.Events.Judge.{start_of, synced_with, has_user_of_found}

-- A user's active days and score; who has no row has none.
abbrev pub days_of : Option UserGuildStats → ℤ
days_of none = pos 0
days_of (some row) = row.active_days

abbrev pub score_in : Option UserGuildStats → ℤ
score_in none = pos 0
score_in (some row) = row.contribution_score

abbrev pub is_level_four : Result LevelPolicy → Bool
is_level_four (ok level) = leb 4 level.level
is_level_four (err e) = false
is_level_four panic = false

abbrev pub is_above_f : Result RankPolicy → Bool
is_above_f (ok rank) = not (str_eq rank.rank "F")
is_above_f (err e) = false
is_above_f panic = false

-- The days give level four or more, or the score gives a rank above F.
abbrev pub has_standing : GuildPolicyConfig → Option UserGuildStats → Bool
has_standing policy stats =
    is_level_four (level_policy_for_active_days policy (days_of stats))
    || is_above_f (rank_policy_for_score policy (score_in stats))

-- Staff, or a plain user of some standing.
abbrev pub is_trusted : GuildPolicyConfig → Option User → Option UserGuildStats → Bool
is_trusted policy none stats = false
is_trusted policy (some user) stats = not (str_eq user.role "user") || has_standing policy stats

-- In the last thirty days the user has given points of this kind to the granter.
abbrev pub has_given_back : ℕ → ℕ → ℕ → String → Database → Bool
has_given_back now user_id granter_id event_type db =
    any
      (λ e.
        e.user_id == granter_id
        && (is_user e.granter_user_id user_id
            && (str_eq e.event_type event_type
                && (ltb_ℤ (pos 0) e.delta && leb now (e.created_at + 30 * micros_per_day)))))
      db.events

-- Ten users or more have given the user points of this kind today.
abbrev pub is_crowded : Context → ℕ → String → Database → Bool
is_crowded ctx user_id event_type db =
    leb 10 (length (distinct_granters (filter (is_gain_today ctx user_id event_type) db.events)))

-- Why a granter's vote gives nothing, if there is a reason.
pub objection : Context → GuildPolicyConfig → ℕ → Option ℕ → String → Database → Option String
objection ctx policy user_id none event_type db =
    if is_crowded ctx user_id event_type db
    then some "clustered_vote"
    else some "granter_not_eligible"
objection ctx policy user_id (some g) event_type db =
    if g == user_id
    then some "self_vote"
    else if has_given_back ctx.now user_id g event_type db
    then some "reciprocal_vote"
    else if is_crowded ctx user_id event_type db
    then some "clustered_vote"
    else if is_trusted policy (find? (λ u. u.id == g) db.users) (stats_of g db)
    then none
    else some "granter_not_eligible"

abbrev pub less : ℤ → Option String → Applied
less requested none = (requested, none)
less requested (some reason) = (pos 0, some reason)

-- The points asked for, or none and the reason: only points that are given, and only where the kind of
-- event wants a granter who counts, can meet an objection.
pub worth_of :
    Context
    → GuildPolicyConfig
    → ℕ
    → Option ℕ
    → String
    → ℤ
    → ContributionEventOptions
    → Database
    → Applied
unfolding objection
worth_of ctx policy user_id granter event_type requested options db =
    if ltb_ℤ (pos 0) requested && options.requires_meaningful_granter
    then less requested (objection ctx policy user_id granter event_type db)
    else (requested, none)
