-- ===== src/Guild/Events/Worth/Judged.antt =====
-- The judgement of `judge` in src/services/guild_service.rs is the worth that the parent module
-- describes.
use sync_server.Prelude.{
  ℕ, ◌≡◌, ◌≢◌, refl, ap, ◌∙◌, inl, inr, String, Bool, true, false, not, ◌&&◌, ◌==◌, Option, none,
  some, arith, leb, find?, str_eq, if◌then◌else◌, Bool-cases, Option-cases,
}
use sync_server.Prelude.Int.{ℤ, pos, ltb_ℤ}
use sync_server.Errors.{Result, ok}
use sync_server.Store.{Database, Context, Action, pure, >>=_of_ok}
use sync_server.Guild.Types.{LevelPolicy, RankPolicy, GuildPolicyConfig, UserGuildStats}
use sync_server.Guild.Policy.Valid.{IsValid}
use sync_server.Guild.Ranking.{level_policy_for_active_days, rank_policy_for_score}
use sync_server.Guild.Ranking.Select.{EntryOf}
use sync_server.Guild.Ranking.Standing.{rank_at_least_lem}
use sync_server.Guild.Stats.{stats_of, set_derived}
use sync_server.Guild.Actions.Begin.{StartsFrom, known, newcomer}
use sync_server.Guild.Events.{
  ContributionEventOptions, is_reciprocal_vote, is_clustered_vote, is_eligible, judge_role,
  granter_is_meaningful, Applied, judge_eligible, judge_granter, judge,
}
use sync_server.Guild.Events.Judge.{start_of, synced_with, has_user_of_found}
use sync_server.Guild.Events.Worth.{
  days_of, score_in, is_level_four, is_above_f, has_standing, is_trusted, has_given_back,
  is_crowded, objection, less, worth_of,
}

start_stats :
    (policy : GuildPolicyConfig) (g : ℕ) (db : Database) (row : UserGuildStats)
    → StartsFrom policy g db row
    → (days_of (stats_of g db) ≡ row.active_days)
      × (score_in (stats_of g db) ≡ row.contribution_score)
start_stats policy g db row (known found) = (ap days_of found, ap score_in found)
start_stats policy g db row (newcomer l k missing u is_level is_rank e) =
    rw e (ap days_of missing, ap score_in missing)

eligible_standing :
    (policy : GuildPolicyConfig) (v : IsValid policy) (stats : Option UserGuildStats)
    (row : UserGuildStats) (l : LevelPolicy) (k : RankPolicy)
    → days_of stats ≡ row.active_days
    → score_in stats ≡ row.contribution_score
    → level_policy_for_active_days policy row.active_days ≡ ok l
    → rank_policy_for_score policy row.contribution_score ≡ ok k
    → EntryOf policy.rank_policies k
    → is_eligible (set_derived l k row) ≡ has_standing policy stats
unfolding is_eligible set_derived
eligible_standing policy v stats row l k days score is_level is_rank entry =
    let level : is_level_four (level_policy_for_active_days policy (days_of stats))
        ≡ leb 4 l.level =
      ap (λ d. is_level_four (level_policy_for_active_days policy d)) days
      ∙ ap is_level_four is_level in
    let rank : is_above_f (rank_policy_for_score policy (score_in stats))
        ≡ not (str_eq k.rank "F") =
      ap (λ s. is_above_f (rank_policy_for_score policy s)) score ∙ ap is_above_f is_rank in
    ground (arith, level, rank, rank_at_least_lem policy k v entry)

module _ (ctx : Context) (policy : GuildPolicyConfig) (v : IsValid policy) (user_id : ℕ)
    (db : Database) where
  role_trusted :
      (g : ℕ)
      → (judge_role policy g (find? (λ u. u.id == g) db.users) db).0
        ≡ ok (is_trusted policy (find? (λ u. u.id == g) db.users) (stats_of g db))
  unfolding judge_role
  role_trusted g = elim (Option-cases (find? (λ u. u.id == g) db.users)) [
    | inl missing ↦ rw missing refl
    | inr (u, found) ↦
        let (row, start) = start_of policy v g db (has_user_of_found g db u found) in
        let (l, k, db', run, b, is_level, is_rank, entry) = synced_with policy v g db row start in
        let (days, score) = start_stats policy g db row start in
        let standing =
          eligible_standing policy v (stats_of g db) row l k days score is_level is_rank entry in
        rw found (elim (Bool-cases (str_eq u.role "user")) [
          | inr staff ↦ rw staff refl
          | inl plain ↦ rw plain (
              ap (λ (r : Result Bool × Database). r.0)
                (run Bool (λ stats db. (ok (is_eligible stats), db)))
              ∙ ap ok standing)
        ])
  ]

  meaningful_trusted :
      (g : ℕ)
      → (granter_is_meaningful policy (some g) db).0
        ≡ ok (is_trusted policy (find? (λ u. u.id == g) db.users) (stats_of g db))
  unfolding granter_is_meaningful
  meaningful_trusted g = role_trusted g

  less_if :
      (requested : ℤ) (b : Bool)
      → (if b then (requested, none) else (pos 0, some "granter_not_eligible"))
        ≡ less requested (if b then none else some "granter_not_eligible")
  less_if requested true = refl
  less_if requested false = refl

  eligible_worth :
      (requested : ℤ) (g : ℕ)
      → (judge_eligible policy (some g) requested db).0
        ≡ ok (
            less requested (
              if is_trusted policy (find? (λ u. u.id == g) db.users) (stats_of g db)
              then none
              else some "granter_not_eligible"))
  unfolding judge_eligible
  eligible_worth requested g =
      let next : Bool → Action Applied = λ eligible.
        pure (if eligible then (requested, none) else (pos 0, some "granter_not_eligible")) in
      let b = is_trusted policy (find? (λ u. u.id == g) db.users) (stats_of g db) in
      let db' = (granter_is_meaningful policy (some g) db).1 in
      let whole : granter_is_meaningful policy (some g) db ≡ (ok b, db') =
        ap (λ x. (x, db')) (meaningful_trusted g) in
      ap (λ (r : Result Applied × Database). r.0)
        (>>=_of_ok (granter_is_meaningful policy (some g)) next db db' b whole)
      ∙ ap ok (less_if requested b)

  granter_worth :
      (granter : Option ℕ) (event_type : String) (requested : ℤ)
      → (judge_granter ctx policy user_id granter event_type requested db).0
        ≡ ok (less requested (objection ctx policy user_id granter event_type db))
  unfolding judge_granter judge_eligible objection is_reciprocal_vote is_clustered_vote
      granter_is_meaningful
  granter_worth none event_type requested =
      elim (Bool-cases (is_crowded ctx user_id event_type db)) [
        | inl crowded ↦ rw crowded refl
        | inr spread ↦ rw spread refl
      ]
  granter_worth (some g) event_type requested = elim (Bool-cases (g == user_id)) [
    | inl self ↦ rw self refl
    | inr other ↦ rw other (elim (Bool-cases (has_given_back ctx.now user_id g event_type db)) [
      | inl ring ↦ rw ring refl
      | inr direct ↦ rw direct (elim (Bool-cases (is_crowded ctx user_id event_type db)) [
        | inl crowded ↦ rw crowded refl
        | inr spread ↦ rw spread (eligible_worth requested g)
      ])
    ])
  ]

  -- The judgement is what the event is worth by the description above.
  pub judge_worth :
      (granter : Option ℕ) (event_type : String) (requested : ℤ)
      (options : ContributionEventOptions)
      → (judge ctx policy user_id granter event_type requested options db).0
        ≡ ok (worth_of ctx policy user_id granter event_type requested options db)
  unfolding judge worth_of
  judge_worth granter event_type requested options =
      elim (Bool-cases (ltb_ℤ (pos 0) requested && options.requires_meaningful_granter)) [
        | inl asked ↦ rw asked (granter_worth granter event_type requested)
        | inr free ↦ rw free refl
      ]

-- The user's own row does not matter for what an event is worth.
pub worth_of_same :
    (ctx : Context) (policy : GuildPolicyConfig) (user_id : ℕ) (granter : Option ℕ)
    (event_type : String) (requested : ℤ) (options : ContributionEventOptions) (db db' : Database)
    → db'.users ≡ db.users
    → db'.events ≡ db.events
    → ((j : ℕ) → j ≢ user_id → stats_of j db' ≡ stats_of j db)
    → worth_of ctx policy user_id granter event_type requested options db'
      ≡ worth_of ctx policy user_id granter event_type requested options db
unfolding worth_of objection
worth_of_same ctx policy user_id none event_type requested options db db' users events others =
    rw events refl
worth_of_same ctx policy user_id (some g) event_type requested options db db' users events others =
    elim (Bool-cases (g == user_id)) [
      | inl self ↦ rw self refl
      | inr other ↦ rw (other, users, events, others g (ground arith)) refl
    ]
