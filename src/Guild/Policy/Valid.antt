-- ===== src/Guild/Policy/Valid.antt =====
-- What `normalize_guild_policy` promises of a policy, stated apart from its loops.
use sync_server.Prelude.{
  ℕ, ◌≤◌, ◌≡◌, true, false, Option, none, some, List, [], ◌∷◌, ◌==◌, String, str_eq, any, All,
  arith,
}
use sync_server.Prelude.Int.{ℤ, pos, ◌≤ℤ◌, ◌<ℤ◌}
use sync_server.Prelude.Text.{clean}
use sync_server.Prelude.Sort.{IsStrictlySorted, IsSorted}
use sync_server.Guild.Types.{LevelPolicy, RankPolicy, GuildPolicyConfig}

-- A limit that is set satisfies `P`.
abbrev pub IfSet : (ℤ → Type 0) → Option ℤ → Type 0
IfSet P none = Unit
IfSet P (some x) = P x

-- The range of an entry is not empty, and ends before the next entry begins. Only the last entry
-- may be open-ended.
module _ {ℓ} {A : Type ℓ} (lo : A → ℤ) where
  abbrev pub InOrder : ℤ → Option ℤ → List A → Type 0
  InOrder start (some end) [] = start ≤ℤ end
  InOrder start (some end) (next ∷ rest) = (start ≤ℤ end) × (end <ℤ lo next)
  InOrder start none [] = Unit
  InOrder start none (next ∷ rest) = ⊥

  abbrev pub StartsAtZero : List A → Type 0
  StartsAtZero [] = ⊥
  StartsAtZero (first ∷ rest) = lo first ≡ pos 0

pub record IsLevel (entry : LevelPolicy) : Type 0 where
  pub level_pos : 1 ≤ entry.level
  pub level_small : entry.level ≤ 10
  pub days : pos 0 ≤ℤ entry.min_active_days
  pub messages : IfSet (λ x. pos 0 ≤ℤ x) entry.daily_outbound_messages_limit
  pub friends : IfSet (λ x. pos 0 ≤ℤ x) entry.daily_friend_add_limit
  pub attachments : IfSet (λ x. pos 0 ≤ℤ x) entry.daily_attachment_send_limit

-- Each entry is a level that none of `seen` and no earlier entry has, with its range in order.
abbrev pub AreLevels : List ℕ → List LevelPolicy → Type 0
AreLevels seen [] = Unit
AreLevels seen (entry ∷ rest) =
    IsLevel entry
    × (any (λ l. l == entry.level) seen ≡ false)
    × InOrder (λ e. e.min_active_days) entry.min_active_days entry.max_active_days rest
    × AreLevels (entry.level ∷ seen) rest

pub record IsRank (entry : RankPolicy) : Type 0 where
  pub named : any (λ r. str_eq r entry.rank) ("F" ∷ "E" ∷ "D" ∷ "C" ∷ "B" ∷ "A" ∷ "S" ∷ []) ≡ true
  pub score : pos 0 ≤ℤ entry.min_score
  pub messages : IfSet (λ x. pos 0 <ℤ x) entry.daily_outbound_messages_limit_multiplier_percent
  pub friends : IfSet (λ x. pos 0 <ℤ x) entry.daily_friend_add_limit_multiplier_percent
  pub attachments : IfSet (λ x. pos 0 <ℤ x) entry.daily_attachment_send_limit_multiplier_percent

abbrev pub AreRanks : List String → List RankPolicy → Type 0
AreRanks seen [] = Unit
AreRanks seen (entry ∷ rest) =
    IsRank entry
    × (any (λ r. str_eq r entry.rank) seen ≡ false)
    × InOrder (λ e. e.min_score) entry.min_score entry.max_score rest
    × AreRanks (entry.rank ∷ seen) rest

abbrev pub IsClean : String → Type 0
IsClean t = (clean t ≡ t) × (str_eq t "" ≡ false)

pub record IsValid (policy : GuildPolicyConfig) : Type 0 where
  pub levels : AreLevels [] policy.level_policies
  pub levels_start : StartsAtZero (λ e. e.min_active_days) policy.level_policies
  pub ranks : AreRanks [] policy.rank_policies
  pub ranks_start : StartsAtZero (λ e. e.min_score) policy.rank_policies
  pub cap : pos 0 ≤ℤ policy.community_upvote_daily_cap
  pub counter_days : pos 0 <ℤ policy.daily_counter_retention_days
  pub event_days : pos 0 <ℤ policy.score_event_retention_days
  pub types_clean : All IsClean policy.safe_attachment_types
  pub types_sorted : IsStrictlySorted policy.safe_attachment_types

-- Ranges in order have their lower ends in order.
pub AreLevels-IsSorted :
    (seen : List ℕ) (xs : List LevelPolicy)
    → AreLevels seen xs
    → IsSorted (λ e. e.min_active_days) xs
AreLevels-IsSorted seen [] h = tt
AreLevels-IsSorted seen (x ∷ []) h = tt
AreLevels-IsSorted seen (x ∷ y ∷ ys) h =
    ground (arith, AreLevels-IsSorted (x.level ∷ seen) (y ∷ ys) h.3)

pub AreRanks-IsSorted :
    (seen : List String) (xs : List RankPolicy) → AreRanks seen xs → IsSorted (λ e. e.min_score) xs
AreRanks-IsSorted seen [] h = tt
AreRanks-IsSorted seen (x ∷ []) h = tt
AreRanks-IsSorted seen (x ∷ y ∷ ys) h =
    ground (arith, AreRanks-IsSorted (x.rank ∷ seen) (y ∷ ys) h.3)
