-- ===== src/Guild/Activity/Assess.antt =====
-- What one assessment decides.
use sync_server.Prelude.{
  str_eq_iff, ◌<◌, false, if◌then◌else◌, ℕ, ◌+◌, ◌≤◌, ◌≡◌, ◌≢◌, ◌↔◌, true, Option, none, some,
  str_eq, arith,
}
use sync_server.Guild.Types.{UserGuildStats}
use sync_server.Guild.Activity.{assess_human_activity, suspicious_window, recovery_window}

-- The last activity, if there was one, lies at least `window` back.
abbrev pub Quiet : ℕ → Option ℕ → ℕ → Type 0
Quiet window none now = Unit
Quiet window (some last) now = last + window ≤ now

-- An activity counts as a new active day exactly if none was counted today and the user was quiet
-- before: for a day if progress is frozen, for ten minutes otherwise.
pub advances_iff :
    (stats : UserGuildStats) (today now : ℕ)
    → ((assess_human_activity stats today now).should_advance_active_day ≡ true) ↔ (
        (stats.last_active_day ≢ some today)
        × Quiet
            (if str_eq stats.automation_review_state "frozen"
              then recovery_window
              else suspicious_window)
            stats.last_human_activity_at
            now)
unfolding assess_human_activity
advances_iff stats today now = ground arith

-- A frozen user who was active within a day gains no active day.
pub frozen_assessed :
    (stats : UserGuildStats) (today now last : ℕ)
    → stats.automation_review_state ≡ "frozen"
    → stats.last_human_activity_at ≡ some last
    → now < last + recovery_window
    → (assess_human_activity stats today now).should_advance_active_day ≡ false
unfolding assess_human_activity
frozen_assessed stats today now last frozen h soon =
    ground (arith, str_eq_iff stats.automation_review_state "frozen")
