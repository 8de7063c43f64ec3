-- ===== src/Guild/Ranking/Select.antt =====
-- Which level and rank a policy gives.
use sync_server.Prelude.{
  ℕ, ◌≡◌, refl, Bool, true, false, Option, none, some, List, [], ◌∷◌, inl, inr, find?, get_elem?,
  zero, suc, String, last?, arith, if◌then◌else◌, Bool-cases, Option-cases,
}
use sync_server.Prelude.Int.{ℤ, ◌≤ℤ◌}
use sync_server.Errors.{Result, ok}
use sync_server.Guild.Types.{LevelPolicy, RankPolicy, GuildPolicyConfig}
use sync_server.Guild.Policy.Valid.{IsValid, InOrder, AreLevels, AreRanks, StartsAtZero}
use sync_server.Guild.Ranking.{
  neutral_rank_policy, rank_policy_for_limits, in_range, find_or_last, level_policy_for_active_days,
  rank_policy_for_score,
}

-- Entries whose ranges are in order.
module _ {ℓ} {A : Type ℓ} (lo : A → ℤ) (hi : A → Option ℤ) where
  abbrev pub AreInOrder : List A → Type 0
  AreInOrder [] = Unit
  AreInOrder (x ∷ xs) = InOrder lo (lo x) (hi x) xs × AreInOrder xs

  -- A range that holds `n` begins no earlier than the first.
  first_le :
      (y : A) (ys : List A) (i : ℕ) (e : A) (n : ℤ)
      → AreInOrder (y ∷ ys)
      → get_elem? (y ∷ ys) i ≡ some e
      → in_range n (lo e) (hi e) ≡ true
      → lo y ≤ℤ n
  unfolding in_range
  first_le y ys zero e n o m h = ground arith
  first_le y [] (suc i) e n o m h = cc
  first_le y (z ∷ zs) (suc i) e n o m h = ground (arith, first_le z zs i e n o.1)

  -- Where the next entry's range has begun, an entry's range has ended.
  ended :
      (x y : A) (ys : List A) (n : ℤ)
      → AreInOrder (x ∷ y ∷ ys)
      → lo y ≤ℤ n
      → in_range n (lo x) (hi x) ≡ false
  unfolding in_range
  ended x y ys n o h = ground arith

  -- The search finds the one entry whose range holds `n`.
  pub find_covering :
      (xs : List A) (i : ℕ) (e : A) (n : ℤ)
      → AreInOrder xs
      → get_elem? xs i ≡ some e
      → in_range n (lo e) (hi e) ≡ true
      → find? (λ e. in_range n (lo e) (hi e)) xs ≡ some e
  find_covering [] i e n o m h = cc
  find_covering (x ∷ xs) zero e n o m h = ground arith
  find_covering (x ∷ []) (suc i) e n o m h = cc
  find_covering (x ∷ y ∷ ys) (suc i) e n o m h =
      rw (ended x y ys n o (first_le y ys i e n o.1 m h)) (find_covering (y ∷ ys) i e n o.1 m h)

  find_none :
      (xs : List A) (n : ℤ)
      → ((i : ℕ) (e : A) → get_elem? xs i ≡ some e → in_range n (lo e) (hi e) ≡ false)
      → find? (λ e. in_range n (lo e) (hi e)) xs ≡ none
  find_none [] n h = refl
  find_none (x ∷ xs) n h = rw (h zero x refl) (find_none xs n (λ i e m. h (suc i) e m))

-- An entry of a list, with its place.
abbrev pub EntryOf {ℓ} : {A : Type ℓ} → List A → A → Type ℓ
EntryOf xs e = (i : ℕ) × (get_elem? xs i ≡ some e)

module _ {ℓ} {A : Type ℓ} where
  last_total : (x : A) (xs : List A) → (e : A) × (last? (x ∷ xs) ≡ some e) × EntryOf (x ∷ xs) e
  last_total x [] = (x, refl, (zero, refl))
  last_total x (y ∷ ys) = let (e, p, (i, m)) = last_total y ys in (e, p, (suc i, m))

module _ {ℓ} {A : Type ℓ} (test : A → Bool) where
  find_entry : (xs : List A) (e : A) → find? test xs ≡ some e → EntryOf xs e
  find_entry [] e h = cc
  find_entry (x ∷ xs) e h = elim (Bool-cases (test x)) [
    | inl here ↦ (zero, ground arith)
    | inr later ↦ let (i, m) = find_entry xs e (ground arith) in (suc i, m)
  ]

  find_or_last_found : (xs : List A) (e : A) → find? test xs ≡ some e → find_or_last test xs ≡ ok e
  unfolding find_or_last
  find_or_last_found xs e h = rw (h, find_or_last)

  find_or_last_missing :
      (xs : List A) (e : A) → find? test xs ≡ none → last? xs ≡ some e → find_or_last test xs ≡ ok e
  unfolding find_or_last
  find_or_last_missing xs e h l = rw (h, find_or_last) (rw (l, find_or_last))

  -- On a list that is not empty the search gives one of its entries and does not panic.
  find_or_last_total :
      (x : A) (xs : List A) → (e : A) × (find_or_last test (x ∷ xs) ≡ ok e) × EntryOf (x ∷ xs) e
  find_or_last_total x xs = elim (Option-cases (find? test (x ∷ xs))) [
    | inl missing ↦
        let (e, l, m) = last_total x xs in (e, find_or_last_missing (x ∷ xs) e missing l, m)
    | inr (e, found) ↦ (e, find_or_last_found (x ∷ xs) e found, find_entry (x ∷ xs) e found)
  ]

AreLevels-AreInOrder :
    (seen : List ℕ) (xs : List LevelPolicy)
    → AreLevels seen xs
    → AreInOrder (λ e. e.min_active_days) (λ e. e.max_active_days) xs
AreLevels-AreInOrder seen [] h = tt
AreLevels-AreInOrder seen (x ∷ xs) h = (h.2, AreLevels-AreInOrder (x.level ∷ seen) xs h.3)

AreRanks-AreInOrder :
    (seen : List String) (xs : List RankPolicy)
    → AreRanks seen xs
    → AreInOrder (λ e. e.min_score) (λ e. e.max_score) xs
AreRanks-AreInOrder seen [] h = tt
AreRanks-AreInOrder seen (x ∷ xs) h = (h.2, AreRanks-AreInOrder (x.rank ∷ seen) xs h.3)

-- The number of active days lies in the entry's range.
abbrev pub Covers : ℤ → Option ℤ → ℤ → Type 0
Covers lo none n = lo ≤ℤ n
Covers lo (some hi) n = (lo ≤ℤ n) × (n ≤ℤ hi)

Covers-in_range : (lo : ℤ) (hi : Option ℤ) (n : ℤ) → Covers lo hi n → in_range n lo hi ≡ true
unfolding in_range
Covers-in_range lo none n h = ground arith
Covers-in_range lo (some hi) n h = ground arith

not_in_range : (lo : ℤ) (hi : Option ℤ) (n : ℤ) → ¬ Covers lo hi n → in_range n lo hi ≡ false
unfolding in_range
not_in_range lo none n h = ground arith
not_in_range lo (some hi) n h = ground arith

entry_total {ℓ} :
    {A : Type ℓ} (test : A → Bool) (lo : A → ℤ) (xs : List A)
    → StartsAtZero lo xs
    → (e : A) × (find_or_last test xs ≡ ok e) × EntryOf xs e
entry_total test lo [] h = elim h [ ]
entry_total test lo (x ∷ xs) h = find_or_last_total test x xs

-- Under a valid policy the level is the entry whose range holds the active days, whichever that is;
-- no two entries compete.
pub level_of_covering :
    (policy : GuildPolicyConfig) (i : ℕ) (entry : LevelPolicy) (active_days : ℤ)
    → IsValid policy
    → get_elem? policy.level_policies i ≡ some entry
    → Covers entry.min_active_days entry.max_active_days active_days
    → level_policy_for_active_days policy active_days ≡ ok entry
unfolding level_policy_for_active_days
level_of_covering policy i entry active_days v m c =
    find_or_last_found _ policy.level_policies entry (
      find_covering (λ e. e.min_active_days) (λ e. e.max_active_days) policy.level_policies i entry
        active_days (AreLevels-AreInOrder [] policy.level_policies v.levels) m
        (Covers-in_range _ _ active_days c))

-- Under a valid policy the rank is the entry whose range holds the score, whichever that is.
rank_of_covering :
    (policy : GuildPolicyConfig) (i : ℕ) (entry : RankPolicy) (score : ℤ)
    → IsValid policy
    → get_elem? policy.rank_policies i ≡ some entry
    → Covers entry.min_score entry.max_score score
    → rank_policy_for_score policy score ≡ ok entry
unfolding rank_policy_for_score
rank_of_covering policy i entry score v m c = find_or_last_found _ policy.rank_policies entry (
    find_covering (λ e. e.min_score) (λ e. e.max_score) policy.rank_policies i entry score
      (AreRanks-AreInOrder [] policy.rank_policies v.ranks) m (Covers-in_range _ _ score c))

-- Where no range holds the active days, the last entry applies: past a bounded last range, and in a
-- gap between two ranges too.
level_of_gap :
    (policy : GuildPolicyConfig) (last : LevelPolicy) (active_days : ℤ)
    → last? policy.level_policies ≡ some last
    → ((i : ℕ) (entry : LevelPolicy)
        → get_elem? policy.level_policies i ≡ some entry
        → ¬ Covers entry.min_active_days entry.max_active_days active_days)
    → level_policy_for_active_days policy active_days ≡ ok last
unfolding level_policy_for_active_days
level_of_gap policy last active_days l gap =
    find_or_last_missing _ policy.level_policies last
      (find_none (λ e. e.min_active_days) (λ e. e.max_active_days) policy.level_policies active_days
        (λ i e m. not_in_range _ _ active_days (gap i e m)))
      l

-- A valid policy gives a level for every number of days and a rank for every score, and each is an
-- entry of the policy.
pub level_total :
    (policy : GuildPolicyConfig) (active_days : ℤ)
    → IsValid policy
    → (e : LevelPolicy) × (level_policy_for_active_days policy active_days ≡ ok e)
      × EntryOf policy.level_policies e
unfolding level_policy_for_active_days
level_total policy active_days v = entry_total _ _ policy.level_policies v.levels_start

pub rank_total :
    (policy : GuildPolicyConfig) (score : ℤ)
    → IsValid policy
    → (e : RankPolicy) × (rank_policy_for_score policy score ≡ ok e)
      × EntryOf policy.rank_policies e
unfolding rank_policy_for_score
rank_total policy score v = entry_total _ _ policy.rank_policies v.ranks_start

if_total {ℓ} :
    {A : Type ℓ} (b : Bool) (m : Result A) (a n : A)
    → m ≡ ok a
    → (e : A) × ((if b then m else ok n) ≡ ok e)
if_total true m a n h = (a, h)
if_total false m a n h = (n, refl)

-- The rank for limits exists too, with the rank engine on or off.
pub limits_total :
    (policy : GuildPolicyConfig) (score : ℤ)
    → IsValid policy
    → (e : RankPolicy) × (rank_policy_for_limits policy score ≡ ok e)
unfolding rank_policy_for_limits
limits_total policy score v =
    let (k, is_rank, _) = rank_total policy score v in
    if_total policy.enforcement.rank_engine_enabled _ k neutral_rank_policy is_rank
