-- ===== src/Guild/Tests/Rules.antt =====
-- The theorems on the policy, the ranking and the review states, at concrete inputs.
use sync_server.Prelude.{
  ℕ, zero, suc, ◌+◌, ◌≡◌, ◌≢◌, ◌↔◌, refl, inl, true, false, some, none, [], ◌∷◌, get_elem?, str_eq,
  if◌then◌else◌, arith,
}
use sync_server.Prelude.Int.{ℤ, pos, ◌≤ℤ◌}
use sync_server.Errors.{ok}
use sync_server.Guild.Types.{LevelPolicy, RankPolicy, GuildPolicyConfig}
use sync_server.Guild.Policy.{normalize_guild_policy}
use sync_server.Guild.Policy.Valid.{IsValid}
use sync_server.Guild.Policy.Normal.{IsValid-normalize, default-IsValid}
use sync_server.Guild.Ranking.{level_policy_for_active_days, effective_daily_limit}
use sync_server.Guild.Ranking.Select.{Covers, level_of_covering}
use sync_server.Guild.Ranking.Limits.{effective_limit_overflow}
use sync_server.Guild.Activity.{assess_human_activity, assessed, suspicious_window, recovery_window}
use sync_server.Guild.Activity.Assess.{Quiet, advances_iff}
use sync_server.Guild.Activity.Machine.{IsReviewed, activity, here, next, Reviews-IsReviewed}
use sync_server.Guild.Stats.{load_guild_policy_conn, save_guild_policy}
use sync_server.Guild.Stats.Load.{load-save, save_of_IsValid}
use sync_server.Guild.Tests.{now, ctx, policy, row, db}

saved : (save_guild_policy ctx policy db).0 ≡ ok policy
saved = save_of_IsValid ctx db policy "default" default-IsValid refl

load-save_example : (load_guild_policy_conn ctx (save_guild_policy ctx policy db).1).0 ≡ ok policy
load-save_example = load-save ctx db policy policy saved (λ t e. refl)

IsValid-normalize_example : IsValid policy ↔ (normalize_guild_policy policy ≡ ok policy)
IsValid-normalize_example = IsValid-normalize policy

abbrev second : LevelPolicy
second = record {
  level = 2;
  min_active_days = pos 7;
  max_active_days = some (pos 13);
  daily_outbound_messages_limit = some (pos 100);
  daily_friend_add_limit = some (pos 10);
  daily_attachment_send_limit = some (pos 5);
}

level_of_covering_example : level_policy_for_active_days policy (pos 9) ≡ ok second
level_of_covering_example =
    level_of_covering policy 1 second (pos 9) default-IsValid refl (omega arith, omega arith)

abbrev rank_f : RankPolicy
rank_f = record {
  rank = "F";
  min_score = pos 0;
  max_score = some (pos 99);
  daily_outbound_messages_limit_multiplier_percent = none;
  daily_friend_add_limit_multiplier_percent = none;
  daily_attachment_send_limit_multiplier_percent = none;
  overrides_level_limits = false;
}

-- Levels with a gap from the seventh to the twenty-ninth day.
abbrev with_gap : GuildPolicyConfig
with_gap = record policy {
  level_policies =
      record second { level = 1; min_active_days = pos 0; max_active_days = some (pos 6) }
      ∷ record second { level = 10; min_active_days = pos 30; max_active_days = none }
      ∷ [];
}

in_gap :
    (i : ℕ) (entry : LevelPolicy)
    → get_elem? with_gap.level_policies i ≡ some entry
    → ¬ Covers entry.min_active_days entry.max_active_days (pos 8)
in_gap zero entry m c = ground arith
in_gap (suc zero) entry m c = ground arith
in_gap (suc (suc i)) entry m c = ground arith

effective_limit_overflow_example :
    (l : ℤ) × (effective_daily_limit (some (pos 20_000_000)) (some (pos 200)) false ≡ some l)
    × (l ≤ℤ pos 0)
effective_limit_overflow_example =
    effective_limit_overflow 20_000_000 200 false (omega arith) (omega arith)

advances_iff_example : ((assess_human_activity row 20_000 now).should_advance_active_day ≡ true) ↔ (
    (row.last_active_day ≢ some 20_000)
    × Quiet
        (if str_eq row.automation_review_state "frozen" then recovery_window else suspicious_window)
        row.last_human_activity_at
        now)
advances_iff_example = advances_iff row 20_000 now

row-IsReviewed : IsReviewed row
row-IsReviewed = record { streak = omega arith; small = omega arith; agrees = inl (refl, refl) }

Reviews-IsReviewed_example : IsReviewed (assessed 20_001 (now + 1) (assessed 20_000 now row))
Reviews-IsReviewed_example =
    Reviews-IsReviewed (next (next here (activity 20_000 now)) (activity 20_001 (now + 1)))
      row-IsReviewed
