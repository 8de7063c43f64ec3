-- ===== src/Guild/Events/Record/Awards.antt =====
-- The points of the awards and of the penalty.
use mathlib.Core.Option
use sync_server.Prelude.{ℕ, ◌≡◌, ◌≢◌, refl, ◌∙◌, ap, String, true, Option, none, some}
use sync_server.Prelude.Int.{ℤ}
use sync_server.Prelude.Text.{trim}
use sync_server.Errors.{ok}
use sync_server.Store.{Database, Context, has_user}
use sync_server.Guild.Types.{GuildPolicyConfig, UserGuildStats, Value}
use sync_server.Guild.Stats.{load_guild_policy_conn}
use sync_server.Guild.Actions.Begin.{StartsFrom}
use sync_server.Guild.Events.{normal_reference, find_reference, apply_cap}
use sync_server.Guild.Events.Record.{next_score, record_contribution_event}
use sync_server.Prelude.{none, true}
use sync_server.Prelude.Int.{pos, add32, negsuc, max_ℤ, IsI32, ◌+ℤ◌, wrap32_in_range}
use sync_server.Guild.Events.{default_options}
use sync_server.Guild.Events.Record.{
  award_validated_moderation_action, award_verified_abuse_report, penalize_false_report,
}
use sync_server.Guild.Events.Record.Outcome.{event-Recorded}
use sync_server.Guild.Events.Record.Effects.{score_of}

-- A score and its points that stay within 32 bits add up, but not below zero.
next_score_exact :
    (score points : ℤ)
    → IsI32 (score +ℤ points)
    → next_score score points ≡ max_ℤ (score +ℤ points) (pos 0)
unfolding next_score add32
next_score_exact score points small = rw (wrap32_in_range (score +ℤ points) small) refl

report_trimmed : trim "verified_abuse_report" ≡ "verified_abuse_report"
unfolding trim
report_trimmed = refl

report_named : trim "verified_abuse_report" ≢ ""
unfolding trim
report_named = λ e. cc

penalty_trimmed : trim "false_report_penalty" ≡ "false_report_penalty"
unfolding trim
penalty_trimmed = refl

penalty_named : trim "false_report_penalty" ≢ ""
unfolding trim
penalty_named = λ e. cc

module _ (ctx : Context) (user_id : ℕ) (reference : Option String) (metadata : Value)
    (policy : GuildPolicyConfig) (db : Database) (row : UserGuildStats)
    (loaded : (load_guild_policy_conn ctx db).0 ≡ ok policy)
    (start : StartsFrom policy user_id db row) (u : has_user user_id db ≡ true) where
  -- An event with no granter and the default options is worth what was asked for.
  plain_event :
      (event_type : String) (points : ℤ)
      → trim event_type ≢ ""
      → find_reference user_id (trim event_type) (normal_reference reference) db ≡ none
      → IsI32 (row.contribution_score +ℤ points)
      → score_of user_id
          (record_contribution_event ctx user_id none event_type points reference metadata
            default_options db).1
        ≡ some (max_ℤ (row.contribution_score +ℤ points) (pos 0))
  unfolding apply_cap
  plain_event event_type points named fresh small =
      let rec =
        event-Recorded ctx user_id none event_type points reference metadata default_options policy
          db row loaded start u tt named fresh in
      let worth : rec.verdict.0 ≡ points = ap (λ v. v.0) rec.is_verdict ∙ rec.worth.2 refl in
      ap (Option.map (λ row. row.contribution_score)) rec.found
      ∙ ap some (
          rec.scored.contribution_score
          ∙ ap (next_score row.contribution_score) worth
          ∙ next_score_exact row.contribution_score points small)

  -- A verified abuse report gives 25 points, a validated moderation action of any kind that is not
  -- blank gives 50, and a false report costs 10 but does not take the score below zero. It holds
  -- for a user who is there, under a reference that was not used before for the event, where the
  -- score plus or minus the points is an `i32`.
  pub award_points :
      (event_type : String)
      → trim event_type ≢ ""
      → find_reference user_id (trim event_type) (normal_reference reference) db ≡ none
      → find_reference user_id "verified_abuse_report" (normal_reference reference) db ≡ none
      → find_reference user_id "false_report_penalty" (normal_reference reference) db ≡ none
      → IsI32 (row.contribution_score +ℤ pos 50)
      → IsI32 (row.contribution_score +ℤ pos 25)
      → IsI32 (row.contribution_score +ℤ negsuc 9)
      → (score_of user_id
            (award_validated_moderation_action ctx user_id event_type reference metadata db).1
          ≡ some (max_ℤ (row.contribution_score +ℤ pos 50) (pos 0)))
        × (score_of user_id (award_verified_abuse_report ctx user_id reference metadata db).1
            ≡ some (max_ℤ (row.contribution_score +ℤ pos 25) (pos 0)))
        × (score_of user_id (penalize_false_report ctx user_id reference metadata db).1
            ≡ some (max_ℤ (row.contribution_score +ℤ negsuc 9) (pos 0)))
  unfolding award_validated_moderation_action award_verified_abuse_report penalize_false_report
  award_points event_type named fresh fresh_report fresh_penalty small₁ small₂ small₃ = (
    plain_event event_type (pos 50) named fresh small₁,
    plain_event "verified_abuse_report" (pos 25) report_named (rw report_trimmed fresh_report)
        small₂,
    plain_event "false_report_penalty" (negsuc 9) penalty_named (rw penalty_trimmed fresh_penalty)
        small₃,
  )
