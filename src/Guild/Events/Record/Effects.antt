-- ===== src/Guild/Events/Record/Effects.antt =====
-- What the awards and the penalties can do to a score.
use mathlib.Core.Option
use sync_server.Prelude.{
  ℕ, ◌≤◌, ◌≡◌, ◌≢◌, refl, sym, subst, ◌∙◌, ap, ◌⊎◌, inl, inr, String, true, false, Option, none,
  some, arith, Bool-cases,
}
use sync_server.Prelude.Int.{ℤ, pos, ◌≤ℤ◌, ◌<ℤ◌, add32}
use sync_server.Prelude.Text.{trim}
use sync_server.Errors.{ok}
use sync_server.Store.{Database, Context, has_user}
use sync_server.Guild.Types.{GuildPolicyConfig, UserGuildStats, Value}
use sync_server.Guild.Stats.{stats_of, load_guild_policy_conn}
use sync_server.Guild.Actions.Begin.{StartsFrom}
use sync_server.Guild.Events.{
  normal_reference, find_reference, is_reciprocal_vote, is_clustered_vote,
  positive_points_earned_today, Applied, apply_cap,
}
use sync_server.Guild.Events.Record.{next_score}
use sync_server.Guild.Events.Record.Apply.{IsKnown}
use sync_server.Prelude.Int.{max_ℤ, min_ℤ, IsI32, i32_max, wrap32, ◌+ℤ◌, ltb_ℤ}
use sync_server.Guild.Events.{day_start, default_options}
use sync_server.Guild.Events.Cap.{earned_bounds, apply_cap_bounds, points_after}
use sync_server.Guild.Events.Record.{award_community_upvote, clawback_contribution_score}
use sync_server.Guild.Events.Record.Outcome.{event-Recorded}

-- The score as the user's row shows it.
abbrev pub score_of : ℕ → Database → Option ℤ
score_of user_id db = Option.map (λ row. row.contribution_score) (stats_of user_id db)

next_score_down :
    (score delta : ℤ)
    → pos 0 ≤ℤ score
    → IsI32 score
    → IsI32 delta
    → (next_score score (min_ℤ delta (pos 0)) ≤ℤ score)
      × (pos 0 ≤ℤ next_score score (min_ℤ delta (pos 0)))
unfolding next_score add32 wrap32 ◌+ℤ◌
next_score_down score delta low small change = ground arith

-- With no cap and nothing to gain the worth is what was asked for.
uncapped :
    (requested earned : ℤ) (judged : Applied)
    → (judged.0 ≡ requested) ⊎ ((judged.0 ≡ pos 0) × (pos 0 <ℤ requested))
    → requested ≤ℤ pos 0
    → (apply_cap requested none earned judged).0 ≡ requested
unfolding apply_cap
uncapped requested earned judged worth none_to_gain = ground arith

-- A clawback of any amount, positive ones too, does not raise the score nor take it below zero. It
-- holds for a user who is there, under a reference that was not used before, where the score and
-- the amount are `i32`s and the score is not negative.
pub clawback_lowers :
    (ctx : Context) (user_id : ℕ) (delta : ℤ) (reference : Option String) (metadata : Value)
    (policy : GuildPolicyConfig) (db : Database) (row : UserGuildStats)
    → (load_guild_policy_conn ctx db).0 ≡ ok policy
    → StartsFrom policy user_id db row
    → has_user user_id db ≡ true
    → find_reference user_id "admin.score_clawback" (normal_reference reference) db ≡ none
    → pos 0 ≤ℤ row.contribution_score
    → IsI32 row.contribution_score
    → IsI32 delta
    → (score : ℤ) × (score_of user_id
          (clawback_contribution_score ctx user_id delta reference metadata db).1
        ≡ some score)
      × (score ≤ℤ row.contribution_score)
      × (pos 0 ≤ℤ score)
unfolding clawback_contribution_score trim
clawback_lowers ctx user_id delta reference metadata policy db row loaded start u fresh low small
      change =
    let rec =
      event-Recorded ctx user_id none "admin.score_clawback" (min_ℤ delta (pos 0)) reference
        metadata default_options policy db row loaded start u tt (λ e. cc) fresh in
    let moved = next_score_down row.contribution_score delta low small change in
    let worth =
      uncapped (min_ℤ delta (pos 0))
        (positive_points_earned_today ctx user_id "admin.score_clawback" db) rec.judged
        (rec.worth.0) (ground arith) in
    let e : rec.verdict.0 ≡ min_ℤ delta (pos 0) = ap (λ v. v.0) rec.is_verdict ∙ worth in
    (
      next_score row.contribution_score (min_ℤ delta (pos 0)),
      ap (Option.map (λ row. row.contribution_score)) rec.found
          ∙ ap some (rec.scored.contribution_score ∙ ap (next_score row.contribution_score) e),
      moved.0,
      moved.1,
    )

-- The worth of an upvote is between nothing and its five points.
worth_bounds :
    (requested : ℤ) (judged : Applied)
    → (judged.0 ≡ requested) ⊎ ((judged.0 ≡ pos 0) × (pos 0 <ℤ requested))
    → pos 0 <ℤ requested
    → (pos 0 ≤ℤ judged.0) × (judged.0 ≤ℤ requested)
worth_bounds requested judged worth positive = ground arith

abbrev pub upvotes : Context → ℕ → Database → ℤ
upvotes ctx user_id = positive_points_earned_today ctx user_id "helpful_answer_vote"

-- Upvotes never give a user more points on a day than the cap allows, or than the user had already:
-- the points of the day after an upvote are at most the larger of the cap and the points before. It
-- holds for an upvote of a user who is there, by a user or by nobody, under a reference that was
-- not used before, where the database's clock is not before the server's day and the cap is an
-- `i32` that is not negative.
pub upvotes_capped :
    (ctx : Context) (user_id : ℕ) (granter : Option ℕ) (reference : Option String)
    (metadata : Value) (daily_cap : ℤ) (policy : GuildPolicyConfig) (db : Database)
    (row : UserGuildStats)
    → (load_guild_policy_conn ctx db).0 ≡ ok policy
    → StartsFrom policy user_id db row
    → has_user user_id db ≡ true
    → IsKnown granter db
    → find_reference user_id "helpful_answer_vote" (normal_reference reference) db ≡ none
    → day_start ctx.now ≤ ctx.db_now
    → pos 0 ≤ℤ daily_cap
    → daily_cap ≤ℤ pos i32_max
    → upvotes ctx user_id
        (award_community_upvote ctx user_id granter reference metadata daily_cap db).1
      ≤ℤ max_ℤ (upvotes ctx user_id db) daily_cap
unfolding award_community_upvote trim
upvotes_capped ctx user_id granter reference metadata daily_cap policy db row loaded start u known
      fresh later low small =
    let rec =
      event-Recorded ctx user_id granter "helpful_answer_vote" (pos 5) reference metadata
        (record { requires_meaningful_granter = true; daily_positive_cap = some daily_cap }) policy
        db row loaded start u known (λ e. cc) fresh in
    let (some_worth, most) = worth_bounds (pos 5) rec.judged rec.worth.0 (omega arith) in
    let (earned_low, earned_high) = earned_bounds ctx user_id "helpful_answer_vote" db in
    let bounds =
      apply_cap_bounds (pos 5) daily_cap (upvotes ctx user_id db) rec.judged low small earned_low
        earned_high (omega arith) some_worth in
    points_after ctx user_id "helpful_answer_vote" db _ _ daily_cap refl refl later small
      (subst (λ v. pos 0 ≤ℤ v.0) (sym rec.is_verdict) bounds.0)
      (subst (λ v. pos 0 <ℤ v.0 → upvotes ctx user_id db +ℤ v.0 ≤ℤ daily_cap) (sym rec.is_verdict)
        bounds.2)
      rec.events

no_gain :
    (score applied : ℤ)
    → pos 0 ≤ℤ score
    → IsI32 score
    → pos 0 ≤ℤ applied
    → ltb_ℤ (pos 0) applied ≡ false
    → next_score score applied ≡ score
unfolding next_score add32 wrap32 ◌+ℤ◌
no_gain score applied positive small low none_gained = ground arith

less_of_most : (a b : ℤ) → a ≤ℤ b → ltb_ℤ (pos 0) a ≡ true → pos 0 <ℤ b
less_of_most a b h k = ground arith

-- A vote by nobody or by the one who gains, a vote that answers one of the last thirty days, and a
-- vote where ten users have voted today.
abbrev pub IsVoid : Context → ℕ → Option ℕ → Database → Type 0
IsVoid ctx user_id granter db =
    (granter ≡ none)
    ⊎ (granter ≡ some user_id)
    ⊎ (is_reciprocal_vote ctx user_id granter "helpful_answer_vote" db ≡ true)
    ⊎ (is_clustered_vote ctx user_id "helpful_answer_vote" db ≡ true)

void_gives_nothing :
    (ctx : Context) (user_id : ℕ) (granter : Option ℕ) (db : Database)
    → IsVoid ctx user_id granter db
    → (g : ℕ) → granter ≡ some g
    → g ≢ user_id
    → is_reciprocal_vote ctx user_id granter "helpful_answer_vote" db ≡ false
    → is_clustered_vote ctx user_id "helpful_answer_vote" db ≡ false
    → ⊥
void_gives_nothing ctx user_id granter db (inl nobody) g is other direct spread = cc
void_gives_nothing ctx user_id granter db (inr (inl self)) g is other direct spread = ground arith
void_gives_nothing ctx user_id granter db (inr (inr (inl ring))) g is other direct spread = cc
void_gives_nothing ctx user_id granter db (inr (inr (inr pile))) g is other direct spread = cc

-- A void upvote does not change the score: one by nobody or by the user who would gain, one that
-- answers an upvote of the last thirty days, and one for a user for whom ten users have voted
-- today. It holds for an upvote of a user who is there, by a user or by nobody, under a reference
-- that was not used before, where the score and the cap are `i32`s that are not negative.
pub void_upvote :
    (ctx : Context) (user_id : ℕ) (granter : Option ℕ) (reference : Option String)
    (metadata : Value) (daily_cap : ℤ) (policy : GuildPolicyConfig) (db : Database)
    (row : UserGuildStats)
    → (load_guild_policy_conn ctx db).0 ≡ ok policy
    → StartsFrom policy user_id db row
    → has_user user_id db ≡ true
    → IsKnown granter db
    → find_reference user_id "helpful_answer_vote" (normal_reference reference) db ≡ none
    → pos 0 ≤ℤ row.contribution_score
    → IsI32 row.contribution_score
    → pos 0 ≤ℤ daily_cap
    → daily_cap ≤ℤ pos i32_max
    → IsVoid ctx user_id granter db
    → score_of user_id
        (award_community_upvote ctx user_id granter reference metadata daily_cap db).1
      ≡ some row.contribution_score
unfolding award_community_upvote trim
void_upvote ctx user_id granter reference metadata daily_cap policy db row loaded start u known
      fresh positive is_score low small void =
    let rec =
      event-Recorded ctx user_id granter "helpful_answer_vote" (pos 5) reference metadata
        (record { requires_meaningful_granter = true; daily_positive_cap = some daily_cap }) policy
        db row loaded start u known (λ e. cc) fresh in
    let (some_worth, most) = worth_bounds (pos 5) rec.judged rec.worth.0 (omega arith) in
    let (earned_low, earned_high) = earned_bounds ctx user_id "helpful_answer_vote" db in
    let bounds =
      apply_cap_bounds (pos 5) daily_cap (upvotes ctx user_id db) rec.judged low small earned_low
        earned_high (omega arith) some_worth in
    let after : score_of user_id
          (award_community_upvote ctx user_id granter reference metadata daily_cap db).1
        ≡ some (next_score row.contribution_score rec.verdict.0) =
      ap (Option.map (λ row. row.contribution_score)) rec.found
      ∙ ap some rec.scored.contribution_score in
    after
    ∙ ap some (elim (Bool-cases (ltb_ℤ (pos 0) rec.verdict.0)) [
      | inl gain ↦
          let (g, is, other, there, direct, spread) = rec.worth.1 refl (omega arith) (
            less_of_most _ _ (subst (λ v. v.0 ≤ℤ rec.judged.0) (sym rec.is_verdict) bounds.1)
              gain) in
          absurd (void_gives_nothing ctx user_id granter db void g is other direct spread)
      | inr none_gained ↦
          no_gain row.contribution_score rec.verdict.0 positive is_score
            (subst (λ v. pos 0 ≤ℤ v.0) (sym rec.is_verdict) bounds.0) none_gained
    ])
