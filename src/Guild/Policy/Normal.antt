-- ===== src/Guild/Policy/Normal.antt =====
-- `normalize_guild_policy` as a whole: what it accepts is valid, and valid policies are its fixed
-- points.
use sync_server.Prelude.{◌≡◌, refl, ◌↔◌, String, arith, List, [], ◌∷◌, false, is_empty}
use sync_server.Prelude.Int.{ℤ, pos, eq_of_parts, ◌≤ℤ◌, ◌<ℤ◌}
use sync_server.Prelude.Sort.{
  sort_by_key, is_empty-sort_by_key, sort_by_key_of_IsSorted, sorted_set-IsStrictlySorted,
  IsStrictlySorted,
}
use sync_server.Errors.{ok}
use sync_server.Guild.Types.{GuildPolicyConfig}
use sync_server.Guild.Policy.{
  normalize_guild_policy, check_levels, check_ranks, normal_attachment_types, starts_above_zero,
}
use sync_server.Guild.Policy.Default.{default_guild_policy}
use sync_server.Prelude.Text.{clean}
use sync_server.Prelude.Sort.{sorted_set}
use sync_server.Guild.Policy.Valid.{IsValid, StartsAtZero, AreLevels-IsSorted, AreRanks-IsSorted}
use sync_server.Guild.Policy.Checks.{
  check_levels_sound, check_levels_complete, check_ranks_sound, check_ranks_complete,
}
use sync_server.Guild.Policy.Types.{normal_attachment_types-IsClean, normal_attachment_types_same}

normal_attachment_types-IsStrictlySorted :
    (types : List String) → IsStrictlySorted (normal_attachment_types types)
unfolding normal_attachment_types
normal_attachment_types-IsStrictlySorted types = sorted_set-IsStrictlySorted _

StartsAtZero-of_tests {ℓ} :
    {A : Type ℓ} (lo : A → ℤ) (xs : List A)
    → is_empty xs ≡ false
    → starts_above_zero lo xs ≡ false
    → StartsAtZero lo xs
unfolding starts_above_zero
StartsAtZero-of_tests lo [] e h = cc
StartsAtZero-of_tests lo (x ∷ xs) e h = eq_of_parts (lo x) (pos 0) (ground arith)

-- The tests of `normalize_guild_policy`, read off a successful run.
module _ (p q : GuildPolicyConfig) (h : normalize_guild_policy p ≡ ok q) where
  normal_levels : check_levels [] q.level_policies ≡ ok tt
  unfolding normalize_guild_policy
  normal_levels = ground arith

  normal_ranks : check_ranks [] q.rank_policies ≡ ok tt
  unfolding normalize_guild_policy
  normal_ranks = ground arith

  normal_types : q.safe_attachment_types ≡ normal_attachment_types p.safe_attachment_types
  unfolding normalize_guild_policy
  normal_types = ground arith

  normal_starts :
      StartsAtZero (λ e. e.min_active_days) q.level_policies
      × StartsAtZero (λ e. e.min_score) q.rank_policies
  unfolding normalize_guild_policy
  normal_starts = (
    StartsAtZero-of_tests (λ e. e.min_active_days) q.level_policies
        (ground (arith, is_empty-sort_by_key (λ e. e.min_active_days) p.level_policies))
        (ground arith),
    StartsAtZero-of_tests (λ e. e.min_score) q.rank_policies
        (ground (arith, is_empty-sort_by_key (λ e. e.min_score) p.rank_policies)) (ground arith),
  )

  normal_numbers :
      (pos 0 ≤ℤ q.community_upvote_daily_cap)
      × (pos 0 <ℤ q.daily_counter_retention_days)
      × (pos 0 <ℤ q.score_event_retention_days)
  unfolding normalize_guild_policy
  normal_numbers = ground arith

  -- A policy that comes out of the normalisation is valid.
  pub normalize-IsValid : IsValid q
  normalize-IsValid = record {
    levels = check_levels_sound [] q.level_policies normal_levels;
    levels_start = normal_starts.0;
    ranks = check_ranks_sound [] q.rank_policies normal_ranks;
    ranks_start = normal_starts.1;
    cap = normal_numbers.0;
    counter_days = normal_numbers.1;
    event_days = normal_numbers.2;
    types_clean = rw normal_types (normal_attachment_types-IsClean p.safe_attachment_types);
    types_sorted =
        rw normal_types (normal_attachment_types-IsStrictlySorted p.safe_attachment_types);
  }

StartsAtZero-nonempty {ℓ} :
    {A : Type ℓ} (lo : A → ℤ) (xs : List A)
    → StartsAtZero lo xs
    → (is_empty xs ≡ false) × (starts_above_zero lo xs ≡ false)
unfolding starts_above_zero
StartsAtZero-nonempty lo [] h = elim h [ ]
StartsAtZero-nonempty lo (x ∷ xs) h = (refl, rw h)

module _ (q : GuildPolicyConfig) (v : IsValid q) where
  levels_same : sort_by_key (λ e. e.min_active_days) q.level_policies ≡ q.level_policies
  levels_same = sort_by_key_of_IsSorted _ _ (AreLevels-IsSorted [] q.level_policies v.levels)

  ranks_same : sort_by_key (λ e. e.min_score) q.rank_policies ≡ q.rank_policies
  ranks_same = sort_by_key_of_IsSorted _ _ (AreRanks-IsSorted [] q.rank_policies v.ranks)

  -- A valid policy is accepted and left as it is.
  pub normalize_of_IsValid : normalize_guild_policy q ≡ ok q
  unfolding normalize_guild_policy
  normalize_of_IsValid = ground (
    arith,
    levels_same,
    ranks_same,
    check_levels_complete [] q.level_policies v.levels,
    check_ranks_complete [] q.rank_policies v.ranks,
    normal_attachment_types_same q.safe_attachment_types v.types_clean v.types_sorted,
    StartsAtZero-nonempty (λ e. e.min_active_days) q.level_policies v.levels_start,
    StartsAtZero-nonempty (λ e. e.min_score) q.rank_policies v.ranks_start,
  )

-- The valid policies are exactly those that normalising accepts and leaves as they are.
pub IsValid-normalize : (q : GuildPolicyConfig) → IsValid q ↔ (normalize_guild_policy q ≡ ok q)
IsValid-normalize q = (normalize_of_IsValid q, normalize-IsValid q q)

-- What normalising returns is a valid policy, and normalising it again returns it unchanged.
normalize-normalize :
    (p q : GuildPolicyConfig)
    → normalize_guild_policy p ≡ ok q
    → IsValid q × (normalize_guild_policy q ≡ ok q)
normalize-normalize p q h =
    (normalize-IsValid p q h, normalize_of_IsValid q (normalize-IsValid p q h))

-- The defaults are valid.
pub default-IsValid : IsValid default_guild_policy
unfolding normalize_guild_policy normal_attachment_types clean sort_by_key sorted_set
default-IsValid = normalize-IsValid default_guild_policy default_guild_policy refl
