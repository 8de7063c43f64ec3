-- ===== src/Guild/Snapshot/Bounds.antt =====
-- The numbers that a snapshot shows.
use sync_server.Prelude.{none, ℕ, ◌+◌, ◌-◌, ◌*◌, ◌≤◌, ◌≡◌, refl, String, some, arith}
use sync_server.Prelude.Int.{ℤ, pos, as_u8, i32_max, sub32, wrap32, ◌-ℤ◌}
use sync_server.Errors.{ok, >>=-ok}
use sync_server.Guild.Types.{GuildPolicyConfig, UserGuildStats, GuildSnapshot}
use sync_server.Guild.Snapshot.{
  seconds_until_next_utc_day, shown_level, build_snapshot, remaining, pending_milestone,
  order_above,
}
use sync_server.Guild.Policy.Valid.{IsValid}
use sync_server.Guild.Ranking.Select.{level_total, limits_total}
use sync_server.Guild.Activity.{date_naive}

-- A client that waits for the time it is told to wait, and one second more, comes back on the next
-- day. It is never told to wait for longer than a day, nor for less than a second.
pub retry_reaches_next_day :
    (now : ℕ)
    → (1 ≤ seconds_until_next_utc_day now)
      × (seconds_until_next_utc_day now ≤ 86_400)
      × (date_naive (now + (seconds_until_next_utc_day now + 1) * 1_000_000) ≡ date_naive now + 1)
unfolding seconds_until_next_utc_day
retry_reaches_next_day now = (omega arith, omega arith, omega arith)

shown_level_bounds : (l : ℤ) → (1 ≤ shown_level l) × (shown_level l ≤ 10)
unfolding shown_level as_u8
shown_level_bounds l = ground arith

-- What remains of a limit.
remaining_bounds :
    (l s : ℕ) → l ≤ i32_max → s ≤ i32_max → remaining (some (pos l)) (pos s) ≡ some (pos (l - s))
unfolding remaining sub32 wrap32 ◌-ℤ◌
remaining_bounds l s h k = ground arith

-- Under a valid policy there is always a snapshot.
pub build_snapshot_total :
    (policy : GuildPolicyConfig) (stats : UserGuildStats) (m a f : ℤ) (prev_level : ℕ)
    (prev_rank : String)
    → IsValid policy
    → (s : GuildSnapshot) × (build_snapshot policy stats m a f prev_level prev_rank ≡ ok s)
unfolding build_snapshot
build_snapshot_total policy stats m a f prev_level prev_rank v =
    let (l, is_level, _) = level_total policy stats.active_days v in
    let (k, is_rank) = limits_total policy stats.contribution_score v in
    (_, >>=-ok _ _ is_level (>>=-ok _ _ is_rank refl))

-- Between equal levels and ranks there is no milestone.
no_milestone : (level : ℕ) (rank : String) → pending_milestone level rank level rank ≡ none
unfolding pending_milestone order_above
no_milestone level rank = ground arith

-- A snapshot shows the row's level and rank, and no milestone if the row showed them before.
pub build_snapshot_settled :
    (policy : GuildPolicyConfig) (stats : UserGuildStats) (m a f : ℤ) (prev_level : ℕ)
    (prev_rank : String)
    → IsValid policy
    → prev_level ≡ shown_level stats.derived_level
    → prev_rank ≡ stats.derived_rank
    → (s : GuildSnapshot) × (build_snapshot policy stats m a f prev_level prev_rank ≡ ok s)
      × (s.level ≡ shown_level stats.derived_level)
      × (s.rank ≡ stats.derived_rank)
      × (s.pending_milestone_notification ≡ none)
unfolding build_snapshot
build_snapshot_settled policy stats m a f prev_level prev_rank v level rank =
    let (l, is_level, _) = level_total policy stats.active_days v in
    let (k, is_rank) = limits_total policy stats.contribution_score v in
    (
      _,
      >>=-ok _ _ is_level (>>=-ok _ _ is_rank refl),
      refl,
      refl,
      rw (level, rank) (no_milestone (shown_level stats.derived_level) stats.derived_rank),
    )
