-- ===== src/Guild/Policy/Checks.antt =====
-- The loops of `normalize_guild_policy` accept exactly the lists of valid entries.
use sync_server.Prelude.{ℕ, ◌≡◌, refl, false, List, [], ◌∷◌, String, arith, str_eq, any, ◌==◌}
use sync_server.Errors.{>>=-eq-ok, ok}
use sync_server.Guild.Types.{LevelPolicy, RankPolicy}
use sync_server.Guild.Policy.{is_rank_name, check_level, check_levels, check_rank, check_ranks}
use sync_server.Guild.Policy.Valid.{InOrder, IsLevel, AreLevels, IsRank, AreRanks}

check_level-IsLevel :
    (seen : List ℕ) (entry : LevelPolicy) (rest : List LevelPolicy)
    → check_level seen entry rest ≡ ok tt
    → IsLevel entry
unfolding check_level
check_level-IsLevel seen entry rest h = ground arith

check_level-InOrder :
    (seen : List ℕ) (entry : LevelPolicy) (rest : List LevelPolicy)
    → check_level seen entry rest ≡ ok tt
    → InOrder (λ e. e.min_active_days) entry.min_active_days entry.max_active_days rest
unfolding check_level
check_level-InOrder seen entry rest h = ground arith

-- A round passes exactly if the entry is a new level, in order before the rest.
check_level_complete :
    (seen : List ℕ) (entry : LevelPolicy) (rest : List LevelPolicy)
    → IsLevel entry
    → any (λ l. l == entry.level) seen ≡ false
    → InOrder (λ e. e.min_active_days) entry.min_active_days entry.max_active_days rest
    → check_level seen entry rest ≡ ok tt
unfolding check_level
check_level_complete seen entry rest l f o = ground arith

check_level-fresh :
    (seen : List ℕ) (entry : LevelPolicy) (rest : List LevelPolicy)
    → check_level seen entry rest ≡ ok tt
    → any (λ l. l == entry.level) seen ≡ false
unfolding check_level
check_level-fresh seen entry rest h = ground arith

pub check_levels_sound :
    (seen : List ℕ) (xs : List LevelPolicy) → check_levels seen xs ≡ ok tt → AreLevels seen xs
unfolding check_levels
check_levels_sound seen [] h = tt
check_levels_sound seen (x ∷ xs) h =
    let (_, first, later) = >>=-eq-ok (check_level seen x xs) _ h in
    (
      check_level-IsLevel seen x xs first,
      check_level-fresh seen x xs first,
      check_level-InOrder seen x xs first,
      check_levels_sound (x.level ∷ seen) xs later,
    )

pub check_levels_complete :
    (seen : List ℕ) (xs : List LevelPolicy) → AreLevels seen xs → check_levels seen xs ≡ ok tt
unfolding check_levels
check_levels_complete seen [] h = refl
check_levels_complete seen (x ∷ xs) h =
    rw (check_level_complete seen x xs h.0 h.1 h.2) (check_levels_complete (x.level ∷ seen) xs h.3)

check_rank-IsRank :
    (seen : List String) (entry : RankPolicy) (rest : List RankPolicy)
    → check_rank seen entry rest ≡ ok tt
    → IsRank entry
unfolding check_rank is_rank_name
check_rank-IsRank seen entry rest h = ground arith

check_rank-InOrder :
    (seen : List String) (entry : RankPolicy) (rest : List RankPolicy)
    → check_rank seen entry rest ≡ ok tt
    → InOrder (λ e. e.min_score) entry.min_score entry.max_score rest
unfolding check_rank
check_rank-InOrder seen entry rest h = ground arith

check_rank-fresh :
    (seen : List String) (entry : RankPolicy) (rest : List RankPolicy)
    → check_rank seen entry rest ≡ ok tt
    → any (λ r. str_eq r entry.rank) seen ≡ false
unfolding check_rank
check_rank-fresh seen entry rest h = ground arith

check_rank_complete :
    (seen : List String) (entry : RankPolicy) (rest : List RankPolicy)
    → IsRank entry
    → any (λ r. str_eq r entry.rank) seen ≡ false
    → InOrder (λ e. e.min_score) entry.min_score entry.max_score rest
    → check_rank seen entry rest ≡ ok tt
unfolding check_rank is_rank_name
check_rank_complete seen entry rest l f o = ground arith

pub check_ranks_sound :
    (seen : List String) (xs : List RankPolicy) → check_ranks seen xs ≡ ok tt → AreRanks seen xs
unfolding check_ranks
check_ranks_sound seen [] h = tt
check_ranks_sound seen (x ∷ xs) h =
    let (_, first, later) = >>=-eq-ok (check_rank seen x xs) _ h in
    (
      check_rank-IsRank seen x xs first,
      check_rank-fresh seen x xs first,
      check_rank-InOrder seen x xs first,
      check_ranks_sound (x.rank ∷ seen) xs later,
    )

pub check_ranks_complete :
    (seen : List String) (xs : List RankPolicy) → AreRanks seen xs → check_ranks seen xs ≡ ok tt
unfolding check_ranks
check_ranks_complete seen [] h = refl
check_ranks_complete seen (x ∷ xs) h =
    rw (check_rank_complete seen x xs h.0 h.1 h.2) (check_ranks_complete (x.rank ∷ seen) xs h.3)
