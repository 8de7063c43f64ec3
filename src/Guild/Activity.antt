-- ===== src/Guild/Activity.antt =====
-- `assess_human_activity` of src/services/guild_service.rs: the review state machine that decides
-- whether an activity counts as an active day. Times are in microseconds.
pub mod Assess
pub mod Machine
use sync_server.Prelude.{
  ℕ, ◌+◌, ◌/◌, String, Bool, true, false, Option, none, some, ltb, leb, ◌==◌, str_eq, ◌&&◌, not,
  if◌then◌else◌,
}
use sync_server.Prelude.Int.{ℤ, pos, leb_ℤ, ltb_ℤ, max_ℤ, saturating_add, saturating_sub}
use sync_server.Guild.Types.{UserGuildStats}

abbrev pub micros_per_day : ℕ
micros_per_day = 86_400_000_000

-- `now.date_naive()`
abbrev pub date_naive : ℕ → ℕ
date_naive now = now / micros_per_day

abbrev pub suspicious_window : ℕ
suspicious_window = 600_000_000

abbrev pub recovery_window : ℕ
recovery_window = 86_400_000_000

pub record HumanActivityAssessment : Type 0 where
  pub should_advance_active_day : Bool
  pub suspicious_activity_streak : ℤ
  pub automation_review_state : String

-- `last_active_day == Some(today)`
pub is_today : Option ℕ → ℕ → Bool
is_today none today = false
is_today (some day) today = day == today

-- `last.map(|last| now - last >= window).unwrap_or(true)`
pub elapsed_or_never : ℕ → Option ℕ → ℕ → Bool
elapsed_or_never window none now = true
elapsed_or_never window (some last) now = leb (last + window) now

-- `last.map(|last| now - last < window).unwrap_or(false)`
pub within : ℕ → Option ℕ → ℕ → Bool
within window none now = false
within window (some last) now = ltb now (last + window)

pub next_streak : Bool → Bool → ℤ → ℤ
next_streak suspicious attempting streak =
    if suspicious
    then saturating_add streak (pos 1)
    else if attempting
    then max_ℤ (saturating_sub streak (pos 1)) (pos 0)
    else streak

pub review_state : ℤ → String
review_state streak =
    if leb_ℤ (pos 3) streak
    then "frozen"
    else if ltb_ℤ (pos 0) streak
    then "challenged"
    else "clear"

unfoldable pub assess_human_activity : UserGuildStats → ℕ → ℕ → HumanActivityAssessment
unfolding is_today elapsed_or_never within next_streak review_state
assess_human_activity stats today now =
    let fresh_day = not (is_today stats.last_active_day today) in
    let recovered =
      elapsed_or_never recovery_window stats.last_human_activity_at now && fresh_day in
    let suspicious = fresh_day && within suspicious_window stats.last_human_activity_at now in
    let streak = next_streak suspicious fresh_day stats.suspicious_activity_streak in
    if str_eq stats.automation_review_state "frozen"
    then (if recovered
        then record {
          should_advance_active_day = true;
          suspicious_activity_streak = pos 0;
          automation_review_state = "clear";
        }
        else record {
          should_advance_active_day = false;
          suspicious_activity_streak = stats.suspicious_activity_streak;
          automation_review_state = "frozen";
        })
    else record {
      should_advance_active_day = fresh_day && not suspicious;
      suspicious_activity_streak = streak;
      automation_review_state = review_state streak;
    }

-- The columns that `update_human_activity_state` sets.
unfoldable pub set_activity : ℕ → HumanActivityAssessment → UserGuildStats → UserGuildStats
set_activity now assessment row = record row {
  last_human_activity_at = some now;
  suspicious_activity_streak = assessment.suspicious_activity_streak;
  automation_review_state = assessment.automation_review_state;
}

-- The row after one activity, apart from the active day.
unfoldable pub assessed : ℕ → ℕ → UserGuildStats → UserGuildStats
unfolding set_activity
assessed today now row = set_activity now (assess_human_activity row today now) row

-- The columns that `freeze_guild_progression` and `unfreeze_guild_progression` set.
unfoldable pub set_frozen : UserGuildStats → UserGuildStats
set_frozen row = record row { automation_review_state = "frozen" }

unfoldable pub set_unfrozen : UserGuildStats → UserGuildStats
set_unfrozen row = record row {
  automation_review_state = "clear";
  suspicious_activity_streak = pos 0;
}
