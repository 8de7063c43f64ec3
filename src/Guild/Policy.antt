-- ===== src/Guild/Policy.antt =====
-- `default_guild_policy` and `normalize_guild_policy` of src/services/guild_service.rs: the defaults,
-- and the checks that a policy passes before it is stored or used.
pub mod Valid
pub mod Checks
pub mod Types
pub mod Normal
pub mod Default
use sync_server.Prelude.{
  ℕ, ◌≡◌, Bool, true, false, ◌||◌, Option, none, some, List, [], ◌∷◌, ltb, leb, ◌==◌, String,
  str_eq, any, filter, is_empty, map, not,
}
use sync_server.Prelude.Int.{ℤ, pos, ltb_ℤ, leb_ℤ, eqb_ℤ}
use sync_server.Prelude.Text.{clean}
use sync_server.Prelude.Sort.{sort_by_key, sorted_set}
use sync_server.Errors.{Result, ok, err, ◌>>=◌, ◌>>◌, reject_if}
use sync_server.Guild.Types.{LevelPolicy, RankPolicy, GuildPolicyConfig}

-- The loop over `[…].into_iter().flatten()`: a limit that is set fails by `test`.
reject_each : (ℤ → Bool) → String → List (Option ℤ) → Result (Unit {0})
reject_each test message [] = ok tt
reject_each test message (none ∷ rest) = reject_each test message rest
reject_each test message (some limit ∷ rest) = do
  reject_if (test limit) message
  reject_each test message rest

-- The tests on an entry's upper end, against the next entry or the end of the list. `lo` gives an
-- entry's lower end.
reject_range {ℓ} :
    {A : Type ℓ}
    → (A → ℤ)
    → (below overlap unbounded : String) → ℤ
    → Option ℤ
    → List A
    → Result (Unit {0})
reject_range lo below overlap unbounded start (some end) [] = reject_if (ltb_ℤ end start) below
reject_range lo below overlap unbounded start (some end) (next ∷ rest) = do
  reject_if (ltb_ℤ end start) below
  reject_if (leb_ℤ (lo next) end) overlap
reject_range lo below overlap unbounded start none rest = reject_if (not (is_empty rest)) unbounded

level_limits : LevelPolicy → List (Option ℤ)
level_limits entry =
    entry.daily_outbound_messages_limit ∷ entry.daily_friend_add_limit
    ∷ entry.daily_attachment_send_limit ∷ []

-- One round of the loop over the level policies; `seen` are the levels of the rounds before.
check_level : List ℕ → LevelPolicy → List LevelPolicy → Result (Unit {0})
unfolding reject_each reject_range level_limits
check_level seen entry rest = do
  reject_if (entry.level == 0 || ltb 10 entry.level) "level policy level must be between 1 and 10"
  reject_if (any (λ l. l == entry.level) seen) "level policy levels must be unique"
  reject_if (ltb_ℤ entry.min_active_days (pos 0)) "level policy min_active_days must be >= 0"
  reject_range (λ e. e.min_active_days) "level policy max_active_days must be >= min_active_days"
      "level policy day ranges must not overlap" "only the final level policy may be open-ended"
      entry.min_active_days entry.max_active_days rest
  reject_each (λ limit. ltb_ℤ limit (pos 0)) "level policy limits must be >= 0" (level_limits entry)

pub check_levels : List ℕ → List LevelPolicy → Result (Unit {0})
unfolding check_level
check_levels seen [] = ok tt
check_levels seen (entry ∷ rest) = do
  check_level seen entry rest
  check_levels (entry.level ∷ seen) rest

-- `matches!(entry.rank.as_str(), "F" | … | "S")`
pub is_rank_name : String → Bool
is_rank_name rank = any (λ r. str_eq r rank) ("F" ∷ "E" ∷ "D" ∷ "C" ∷ "B" ∷ "A" ∷ "S" ∷ [])

percents : RankPolicy → List (Option ℤ)
percents entry =
    entry.daily_outbound_messages_limit_multiplier_percent
    ∷ entry.daily_friend_add_limit_multiplier_percent
    ∷ entry.daily_attachment_send_limit_multiplier_percent ∷ []

check_rank : List String → RankPolicy → List RankPolicy → Result (Unit {0})
unfolding reject_each reject_range percents
check_rank seen entry rest = do
  reject_if (not (is_rank_name entry.rank)) "rank policy rank must be one of F, E, D, C, B, A, S"
  reject_if (any (λ r. str_eq r entry.rank) seen) "rank policy ranks must be unique"
  reject_if (ltb_ℤ entry.min_score (pos 0)) "rank policy min_score must be >= 0"
  reject_range (λ e. e.min_score) "rank policy max_score must be >= min_score"
      "rank policy score ranges must not overlap" "only the final rank policy may be open-ended"
      entry.min_score entry.max_score rest
  reject_each (λ percent. leb_ℤ percent (pos 0)) "rank policy multiplier percent must be > 0"
      (percents entry)

pub check_ranks : List String → List RankPolicy → Result (Unit {0})
unfolding check_rank
check_ranks seen [] = ok tt
check_ranks seen (entry ∷ rest) = do
  check_rank seen entry rest
  check_ranks (entry.rank ∷ seen) rest

-- `items[0].min != 0`; on an empty list, which was refused before, Rust would panic.
starts_above_zero {ℓ} : {A : Type ℓ} → (A → ℤ) → List A → Bool
starts_above_zero lo [] = false
starts_above_zero lo (first ∷ rest) = not (eqb_ℤ (lo first) (pos 0))

pub normal_attachment_types : List String → List String
normal_attachment_types types =
    sorted_set (filter (λ value. not (str_eq value "")) (map clean types))

unfoldable pub normalize_guild_policy : GuildPolicyConfig → Result GuildPolicyConfig
unfolding check_levels check_ranks is_rank_name starts_above_zero
normalize_guild_policy policy = do
  reject_if (is_empty policy.level_policies) "guild policy must define at least one level policy"
  reject_if (is_empty policy.rank_policies) "guild policy must define at least one rank policy"
  reject_if (ltb_ℤ policy.community_upvote_daily_cap (pos 0))
      "community_upvote_daily_cap must be >= 0"
  reject_if (leb_ℤ policy.daily_counter_retention_days (pos 0))
      "daily_counter_retention_days must be > 0"
  reject_if (leb_ℤ policy.score_event_retention_days (pos 0))
      "score_event_retention_days must be > 0"
  let types = normal_attachment_types policy.safe_attachment_types
  let levels = sort_by_key (λ e. e.min_active_days) policy.level_policies
  check_levels [] levels
  reject_if (starts_above_zero (λ e. e.min_active_days) levels)
      "the first level policy must start at 0 active days"
  let ranks = sort_by_key (λ e. e.min_score) policy.rank_policies
  check_ranks [] ranks
  reject_if (starts_above_zero (λ e. e.min_score) ranks)
      "the first rank policy must start at 0 score"
  ok (record policy {
    safe_attachment_types = types;
    level_policies = levels;
    rank_policies = ranks;
  })
