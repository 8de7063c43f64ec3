-- ===== src/Guild/Ranking/Standing.antt =====
-- The order of the ranks of a valid policy.
use sync_server.Prelude.{
  ℕ, zero, suc, ◌≡◌, String, true, not, some, List, [], ◌∷◌, any, arith, str_eq, str_eq_iff, refl,
  subst, Bool-cases, inl, inr, get_elem?,
}
use sync_server.Guild.Types.{RankPolicy, GuildPolicyConfig}
use sync_server.Guild.Policy.Valid.{IsValid, AreRanks}
use sync_server.Guild.Ranking.{rank_order, rank_at_least}
use sync_server.Guild.Ranking.Select.{EntryOf}

abbrev IsNamed : String → Type 0
IsNamed rank = any (λ r. str_eq r rank) ("F" ∷ "E" ∷ "D" ∷ "C" ∷ "B" ∷ "A" ∷ "S" ∷ []) ≡ true

entry-IsNamed :
    (seen : List String) (xs : List RankPolicy) (i : ℕ) (e : RankPolicy)
    → AreRanks seen xs
    → get_elem? xs i ≡ some e
    → IsNamed e.rank
entry-IsNamed seen [] i e h m = cc
entry-IsNamed seen (x ∷ xs) zero e h m = ground (arith, h.0.named)
entry-IsNamed seen (x ∷ xs) (suc i) e h m = entry-IsNamed (x.rank ∷ seen) xs i e h.3 m

abbrev Each : (String → Type 0) → List String → Type 0
Each P [] = Unit {0}
Each P (t ∷ ts) = P t × Each P ts

-- What holds of each text of a list holds of one that is found in it.
each_found :
    (P : String → Type 0) (rank : String) (ts : List String)
    → Each P ts
    → any (λ t. str_eq t rank) ts ≡ true
    → P rank
each_found P rank [] h found = cc
each_found P rank (t ∷ ts) h found = elim (Bool-cases (str_eq t rank)) [
  | inl same ↦ subst P ((str_eq_iff t rank).0 same) h.0
  | inr other ↦ each_found P rank ts h.1 (ground arith)
]

above_f : (rank : String) → IsNamed rank → rank_at_least rank "E" ≡ not (str_eq rank "F")
unfolding rank_at_least rank_order
above_f rank named =
    each_found (λ r. rank_at_least r "E" ≡ not (str_eq r "F")) rank
      ("F" ∷ "E" ∷ "D" ∷ "C" ∷ "B" ∷ "A" ∷ "S" ∷ [])
      (refl, (refl, (refl, (refl, (refl, (refl, (refl, tt))))))) named

-- A rank of a valid policy is at least E exactly if it is not F.
pub rank_at_least_lem :
    (policy : GuildPolicyConfig) (k : RankPolicy)
    → IsValid policy
    → EntryOf policy.rank_policies k
    → rank_at_least k.rank "E" ≡ not (str_eq k.rank "F")
rank_at_least_lem policy k v (i, m) =
    above_f k.rank (entry-IsNamed [] policy.rank_policies i k v.ranks m)
