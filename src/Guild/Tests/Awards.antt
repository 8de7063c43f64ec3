-- ===== src/Guild/Tests/Awards.antt =====
-- The theorems on the awards and on the administrators' decisions, on the small server.
use sync_server.Prelude.{ℕ, ◌+◌, ◌<◌, ◌≡◌, refl, false, none, some, arith}
use sync_server.Prelude.Int.{pos, negsuc, ◌+ℤ◌, max_ℤ}
use sync_server.Prelude.Text.{trim}
use sync_server.Guild.Types.{null}
use sync_server.Guild.Activity.{assess_human_activity, set_frozen, set_unfrozen, recovery_window}
use sync_server.Guild.Stats.{freeze_guild_progression, unfreeze_guild_progression}
use sync_server.Guild.Stats.Frozen.{Comes, decisions}
use sync_server.Guild.Events.{find_reference, normal_reference}
use sync_server.Guild.Events.Record.{
  award_validated_moderation_action, award_verified_abuse_report, penalize_false_report,
}
use sync_server.Guild.Events.Record.Effects.{score_of}
use sync_server.Guild.Events.Record.Awards.{award_points}
use sync_server.Guild.Tests.{ctx, policy, row, db, loaded, start, has_first}

decisions_example :
    Comes none db 1 (set_frozen row) (freeze_guild_progression ctx none 1 "spam" db)
    × Comes (some 3) db 1 (set_unfrozen row) (unfreeze_guild_progression ctx 3 1 "spam" db)
    × ((today now last : ℕ)
        → row.last_human_activity_at ≡ some last
        → now < last + recovery_window
        → (assess_human_activity (set_frozen row) today now).should_advance_active_day ≡ false)
    × ((set_unfrozen row).automation_review_state ≡ "clear")
    × ((set_unfrozen row).suspicious_activity_streak ≡ pos 0)
decisions_example = decisions ctx none 3 1 "spam" db row refl

award_points_example :
    (score_of 1 (award_validated_moderation_action ctx 1 "sticker" none null db).1
      ≡ some (max_ℤ (row.contribution_score +ℤ pos 50) (pos 0)))
    × (score_of 1 (award_verified_abuse_report ctx 1 none null db).1
        ≡ some (max_ℤ (row.contribution_score +ℤ pos 25) (pos 0)))
    × (score_of 1 (penalize_false_report ctx 1 none null db).1
        ≡ some (max_ℤ (row.contribution_score +ℤ negsuc 9) (pos 0)))
unfolding find_reference normal_reference trim ◌+ℤ◌
award_points_example =
    award_points ctx 1 none null policy db row loaded start has_first "sticker" (λ e. cc) refl refl
      refl (record { below = omega arith; above = omega arith })
      (record { below = omega arith; above = omega arith })
      (record { below = omega arith; above = omega arith })
