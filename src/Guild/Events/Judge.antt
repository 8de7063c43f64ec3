-- ===== src/Guild/Events/Judge.antt =====
-- Which votes give points.
use sync_server.Prelude.{
  ℕ, ◌≡◌, ◌≢◌, refl, ◌∙◌, ◌⊎◌, inl, inr, String, Bool, true, false, Option, none, some, arith,
  Option-cases, Bool-cases, if◌then◌else◌, ◌==◌, find?, str_eq, ◌&&◌, not,
}
use sync_server.Prelude.Int.{ℤ, pos, ◌<ℤ◌, ltb_ℤ}
use sync_server.Errors.{Result, ok}
use sync_server.Store.{Database, Context, Action, User, pure, ◌>>=◌, has_user, >>=_of_ok}
use sync_server.Guild.Types.{LevelPolicy, RankPolicy, GuildPolicyConfig, UserGuildStats}
use sync_server.Guild.Policy.Valid.{IsValid}
use sync_server.Guild.Ranking.{level_policy_for_active_days, rank_policy_for_score}
use sync_server.Guild.Ranking.Select.{EntryOf, level_total, rank_total}
use sync_server.Guild.Stats.{
  stats_of, new_stats, set_derived, ensure_user_guild_stats, sync_derived_state,
}
use sync_server.Guild.Stats.Rows.{Became, Became-trans, sync-Writes}
use sync_server.Guild.Actions.Begin.{StartsFrom, known, newcomer, ensure_from}
use sync_server.Guild.Events.{
  ContributionEventOptions, is_user, is_reciprocal_vote, is_clustered_vote, is_eligible, judge_role,
  granter_is_meaningful, Applied, judge_eligible, judge_granter, judge,
}

-- Nothing that concerns the user has changed, but perhaps another user's row.
pub record Apart (user_id : ℕ) (db db' : Database) : Type 0 where
  pub stats : stats_of user_id db' ≡ stats_of user_id db
  pub users : db'.users ≡ db.users
  pub events : db'.events ≡ db.events
  pub counters : db'.counters ≡ db.counters

Apart-refl : (user_id : ℕ) (db : Database) → Apart user_id db db
Apart-refl user_id db = record { stats = refl; users = refl; events = refl; counters = refl }

Became-Apart :
    (user_id other : ℕ) (row : UserGuildStats) (db db' : Database)
    → user_id ≢ other
    → Became db other row db'
    → Apart user_id db db'
Became-Apart user_id other row db db' ne b = record {
  stats = b.others user_id ne;
  users = b.users;
  events = b.events;
  counters = b.counters;
}

-- Every user has a row to start from.
pub start_of :
    (policy : GuildPolicyConfig)
    → IsValid policy
    → (user_id : ℕ) (db : Database) → has_user user_id db ≡ true
    → (row : UserGuildStats) × StartsFrom policy user_id db row
start_of policy v user_id db u =
    let (l, is_level, _) = level_total policy (pos 0) v in
    let (k, is_rank, _) = rank_total policy (pos 0) v in
    elim (Option-cases (stats_of user_id db)) [
      | inl missing ↦ (new_stats user_id l k, newcomer l k missing u is_level is_rank refl)
      | inr (row, found) ↦ (row, known found)
    ]

-- The row is there afterwards, with its level and its rank up to date.
pub synced_with :
    (policy : GuildPolicyConfig)
    → IsValid policy
    → (user_id : ℕ) (db : Database) (row : UserGuildStats) → StartsFrom policy user_id db row
    → (l : LevelPolicy) × (k : RankPolicy) × (db' : Database) × ((A : Type 0)
          (next : UserGuildStats → Action A)
        → (ensure_user_guild_stats policy user_id >>= λ stats.
              sync_derived_state policy stats >>= next)
            db
          ≡ next (set_derived l k row) db')
      × Became db user_id (set_derived l k row) db'
      × (level_policy_for_active_days policy row.active_days ≡ ok l)
      × (rank_policy_for_score policy row.contribution_score ≡ ok k)
      × EntryOf policy.rank_policies k
synced_with policy v user_id db row start =
    let (l, is_level, _) = level_total policy row.active_days v in
    let (k, is_rank, entry) = rank_total policy row.contribution_score v in
    let (db₁, run₁, b₁) = ensure_from policy v user_id db row start in
    let (db₂, run₂, b₂) = sync-Writes user_id db₁ row b₁.found policy l k is_level is_rank in
    (
      l,
      k,
      db₂,
      λ A next.
          >>=_of_ok (ensure_user_guild_stats policy user_id)
            (λ stats. sync_derived_state policy stats >>= next) db db₁ row run₁
          ∙ >>=_of_ok (sync_derived_state policy row) next db₁ db₂ (set_derived l k row) run₂,
      Became-trans b₁ b₂,
      is_level,
      is_rank,
      entry,
    )

pub synced :
    (policy : GuildPolicyConfig)
    → IsValid policy
    → (user_id : ℕ) (db : Database) (row : UserGuildStats) → StartsFrom policy user_id db row
    → (l : LevelPolicy) × (k : RankPolicy) × (db' : Database) × ((A : Type 0)
          (next : UserGuildStats → Action A)
        → (ensure_user_guild_stats policy user_id >>= λ stats.
              sync_derived_state policy stats >>= next)
            db
          ≡ next (set_derived l k row) db')
      × Became db user_id (set_derived l k row) db'
synced policy v user_id db row start =
    let (l, k, db', run, b, is_level, is_rank, entry) = synced_with policy v user_id db row start in
    (l, k, db', run, b)

pub has_user_of_found :
    (id : ℕ) (db : Database) (u : User)
    → find? (λ u. u.id == id) db.users ≡ some u
    → has_user id db ≡ true
unfolding has_user
has_user_of_found id db u h = rw (h, has_user)

-- What the check of a granter other than the user answers, and that it leaves the user alone.
abbrev Judged : ℕ → Option ℕ → Database → Result Bool × Database → Type 0
Judged user_id granter db r =
    (b : Bool) × (db' : Database) × (r ≡ (ok b, db'))
    × Apart user_id db db'
    × (b ≡ true → (g : ℕ) × (granter ≡ some g) × (has_user g db ≡ true))

module _ (policy : GuildPolicyConfig) (v : IsValid policy) (user_id : ℕ) (db : Database) where
  role_total :
      (g : ℕ)
      → user_id ≢ g
      → Judged user_id (some g) db (judge_role policy g (find? (λ u. u.id == g) db.users) db)
  unfolding judge_role
  role_total g ne = elim (Option-cases (find? (λ u. u.id == g) db.users)) [
    | inl missing ↦ rw missing (false, db, refl, Apart-refl user_id db, λ b. cc)
    | inr (u, found) ↦
        let there = has_user_of_found g db u found in
        let (row, start) = start_of policy v g db there in
        let (l, k, db', run, b) = synced policy v g db row start in
        rw found (elim (Bool-cases (not (str_eq u.role "user"))) [
          | inl staff ↦ rw staff (true, db, refl, Apart-refl user_id db, λ b. (g, refl, there))
          | inr plain ↦ rw plain (
            is_eligible (set_derived l k row),
            db',
            run _ (λ stats db. (ok (is_eligible stats), db)),
            Became-Apart user_id g (set_derived l k row) db db' ne b,
            λ _. (g, refl, there),
          )
        ])
  ]

  granter_total :
      (granter : Option ℕ)
      → is_user granter user_id ≡ false
      → Judged user_id granter db (granter_is_meaningful policy granter db)
  unfolding granter_is_meaningful
  granter_total none other = (false, db, refl, Apart-refl user_id db, λ b. cc)
  granter_total (some g) other = role_total g (ground arith)

  eligible_total :
      (granter : Option ℕ) (requested : ℤ)
      → is_user granter user_id ≡ false
      → pos 0 <ℤ requested
      → (verdict : Applied) × (db' : Database) × (judge_eligible policy granter requested db
          ≡ (ok verdict, db'))
        × Apart user_id db db'
        × ((verdict.0 ≡ requested) ⊎ ((verdict.0 ≡ pos 0) × (pos 0 <ℤ requested)))
        × (pos 0 <ℤ verdict.0 → (g : ℕ) × (granter ≡ some g) × (has_user g db ≡ true))
  unfolding judge_eligible
  eligible_total granter requested other positive =
      let (b, db', run, apart, there) = granter_total granter other in
      let next : Bool → Action Applied = λ eligible.
        pure (if eligible then (requested, none) else (pos 0, some "granter_not_eligible")) in
      let runs = >>=_of_ok (granter_is_meaningful policy granter) next db db' b run in
      elim (Bool-cases b) [
        | inl eligible ↦
            ((requested, none), db', runs ∙ rw eligible refl, apart, inl refl, λ p. there eligible)
        | inr barred ↦ (
          (pos 0, some "granter_not_eligible"),
          db',
          runs ∙ rw barred refl,
          apart,
          inr (refl, positive),
          λ p. ground arith,
        )
      ]

other_user :
    (granter : Option ℕ) (user_id g : ℕ)
    → is_user granter user_id ≡ false
    → granter ≡ some g
    → g ≢ user_id
other_user granter user_id g other e = ground arith

-- What the checks say of an event: the points asked for, or none.
abbrev pub Verdict :
    Context → ℕ → Option ℕ → String → ℤ → ContributionEventOptions → Database → Applied → Type 0
Verdict ctx user_id granter event_type requested options db verdict =
    ((verdict.0 ≡ requested) ⊎ ((verdict.0 ≡ pos 0) × (pos 0 <ℤ requested)))
    × (options.requires_meaningful_granter ≡ true
        → pos 0 <ℤ requested
        → pos 0 <ℤ verdict.0
        → (g : ℕ) × (granter ≡ some g)
          × (g ≢ user_id)
          × (has_user g db ≡ true)
          × (is_reciprocal_vote ctx user_id granter event_type db ≡ false)
          × (is_clustered_vote ctx user_id event_type db ≡ false))
    × (options.requires_meaningful_granter ≡ false → verdict.0 ≡ requested)

module _ (ctx : Context) (policy : GuildPolicyConfig) (v : IsValid policy) (user_id : ℕ)
    (granter : Option ℕ) (event_type : String) (requested : ℤ) (options : ContributionEventOptions)
    (db : Database) where
  -- Under a valid policy the judgement of an event always comes to a result and leaves the user's
  -- own row, the users, the events and the counters alone. The worth is what was asked for or,
  -- where points were asked for, nothing; it is what was asked for where no meaningful granter is
  -- required; and where one is, points are given only if the granter is another user, the vote
  -- answers none of the last thirty days, and fewer than ten users have voted today.
  pub judge_total :
      (verdict : Applied) × (db' : Database) × (judge ctx policy user_id granter event_type
          requested options db
        ≡ (ok verdict, db'))
      × Apart user_id db db'
      × Verdict ctx user_id granter event_type requested options db verdict
  unfolding judge judge_granter
  judge_total = elim (Bool-cases (ltb_ℤ (pos 0) requested && options.requires_meaningful_granter)) [
    | inr free ↦ rw free (
      (requested, none),
      db,
      refl,
      Apart-refl user_id db,
      (inl refl, λ m p a. ground arith, λ n. refl),
    )
    | inl asked ↦ rw asked (elim (Bool-cases (is_user granter user_id)) [
      | inl self ↦ rw self (
        _,
        db,
        refl,
        Apart-refl user_id db,
        (inr (refl, ground arith), λ m p a. ground arith, λ n. ground arith),
      )
      | inr other ↦
          rw other (elim (Bool-cases (is_reciprocal_vote ctx user_id granter event_type db)) [
            | inl ring ↦ rw ring (
              _,
              db,
              refl,
              Apart-refl user_id db,
              (inr (refl, ground arith), λ m p a. ground arith, λ n. ground arith),
            )
            | inr direct ↦
                rw direct (elim (Bool-cases (is_clustered_vote ctx user_id event_type db)) [
                  | inl clustered ↦ rw clustered (
                    _,
                    db,
                    refl,
                    Apart-refl user_id db,
                    (inr (refl, ground arith), λ m p a. ground arith, λ n. ground arith),
                  )
                  | inr spread ↦
                      let (verdict, db', run, apart, worth, there) =
                        eligible_total policy v user_id db granter requested other (ground arith) in
                      rw spread (
                        verdict,
                        db',
                        run,
                        apart,
                        (
                          worth,
                          λ m p a.
                              let (g, e, here) = there a in
                              (g, e, other_user granter user_id g other e, here, refl, refl),
                          λ n. ground arith,
                        ),
                      )
                ])
          ])
    ])
  ]
