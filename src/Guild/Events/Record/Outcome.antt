-- ===== src/Guild/Events/Record/Outcome.antt =====
-- What recording an event does to the user's score.
use sync_server.Prelude.{
  ℕ, ◌≡◌, ◌≢◌, refl, sym, subst, ◌∙◌, ap, String, true, false, Option, none, some, ◌∷◌, arith,
  str_eq, str_eq_iff,
}
use sync_server.Prelude.Int.{ℤ}
use sync_server.Prelude.Text.{trim}
use sync_server.Errors.{Result, ok}
use sync_server.Store.{
  Database, Context, Action, ◌>>=◌, >>=_of_ok, gets, transaction_of_ok, has_user, has_user_of_users,
  transaction,
}
use sync_server.Guild.Types.{LevelPolicy, RankPolicy, GuildPolicyConfig, UserGuildStats, Value}
use sync_server.Guild.Policy.Valid.{IsValid}
use sync_server.Guild.Ranking.{rank_policy_for_score}
use sync_server.Guild.Stats.{
  stats_of, set_derived, load_guild_policy_conn, ensure_user_guild_stats, sync_derived_state,
}
use sync_server.Guild.Stats.Load.{loaded-IsValid, load_runs}
use sync_server.Guild.Stats.Rows.{Became}
use sync_server.Guild.Actions.Begin.{StartsFrom}
use sync_server.Guild.Events.{
  ContributionEventOptions, normal_reference, find_reference, positive_points_earned_today, Applied,
  judge, apply_cap,
}
use sync_server.Guild.Events.Record.{
  ContributionEventOutcome, set_score, next_score, new_event, applied_outcome, contribute,
  contribute_judged, contribute_once, record_event, record_contribution_event,
}
use sync_server.Guild.Events.Judge.{Verdict, synced, judge_total}
use sync_server.Guild.Events.Worth.{worth_of}
use sync_server.Guild.Events.Worth.Judged.{judge_worth, worth_of_same}
use sync_server.Guild.Events.Record.Apply.{
  IsKnown, Scored, apply_event_runs, Verdict-of, IsKnown-of_users, earned_of_events,
  reference_of_events,
}

module _ (ctx : Context) (user_id : ℕ) (granter : Option ℕ) (event_type : String) (requested : ℤ)
    (reference : Option String) (metadata : Value) (options : ContributionEventOptions) where
  -- An event was recorded on `db`: its worth is the one that `worth_of` describes, cut to the cap,
  -- it is stored with that worth, and the user's score has moved by it but not below zero, with the
  -- rank of the new score.
  pub record Recorded (policy : GuildPolicyConfig) (db : Database) (row : UserGuildStats)
      (r : Result ContributionEventOutcome × Database) : Type 0 where
    pub judged : Applied
    pub is_worth : judged ≡ worth_of ctx policy user_id granter event_type requested options db
    pub worth : Verdict ctx user_id granter event_type requested options db judged
    pub verdict : Applied
    pub is_verdict :
        verdict
        ≡ apply_cap requested options.daily_positive_cap
            (positive_points_earned_today ctx user_id event_type db)
            judged
    pub rank : RankPolicy
    pub is_rank :
        rank_policy_for_score policy (next_score row.contribution_score verdict.0) ≡ ok rank
    pub outcome :
        r.0
        ≡ ok (
            applied_outcome
              (new_event ctx user_id granter event_type requested reference metadata verdict)
              (next_score row.contribution_score verdict.0)
              rank.rank
              verdict)
    pub events :
        r.1.events
        ≡ new_event ctx user_id granter event_type requested reference metadata verdict ∷ db.events
    pub after : UserGuildStats
    pub found : stats_of user_id r.1 ≡ some after
    pub scored : Scored row (next_score row.contribution_score verdict.0) rank.rank after

  contribute-Recorded :
      (policy : GuildPolicyConfig)
      → IsValid policy
      → (db : Database) (row : UserGuildStats) → has_user user_id db ≡ true
      → IsKnown granter db
      → stats_of user_id db ≡ some row
      → Recorded policy db row (
          contribute ctx user_id granter event_type requested reference metadata options policy row
            db)
  unfolding contribute contribute_judged set_score
  contribute-Recorded policy v db row u known h =
      let (judged, db₁, run₁, apart, worth) =
        judge_total ctx policy v user_id granter event_type requested options db in
      let verdict =
        apply_cap requested options.daily_positive_cap
          (positive_points_earned_today ctx user_id event_type db) judged in
      let new = new_event ctx user_id granter event_type requested reference metadata verdict in
      let (rank, db₂, run₂, is_rank, events, users, found) =
        apply_event_runs new db₁ (has_user_of_users user_id db db₁ apart.users ∙ u) policy v row
          verdict (IsKnown-of_users granter db db₁ apart.users known) (apart.stats ∙ h) in
      let counted : contribute_judged ctx user_id granter event_type requested reference metadata
            options policy row judged db₁
          ≡ (
            ok (
                applied_outcome new (next_score row.contribution_score verdict.0) rank.rank
                  verdict),
            db₂,
          ) =
        rw (earned_of_events ctx user_id event_type db db₁ apart.events) run₂ in
      let runs =
        >>=_of_ok (judge ctx policy user_id granter event_type requested options)
          (contribute_judged ctx user_id granter event_type requested reference metadata options
            policy row)
          db db₁ judged run₁
        ∙ counted in
      let is_worth : ok judged
          ≡ ok (worth_of ctx policy user_id granter event_type requested options db) =
        ap (λ (r : Result Applied × Database). r.0) (sym run₁)
        ∙ judge_worth ctx policy v user_id db granter event_type requested options in
      subst (Recorded policy db row) (sym runs) (record {
        judged = judged;
        is_worth = cc;
        worth = worth;
        verdict = verdict;
        is_verdict = refl;
        rank = rank;
        is_rank = is_rank;
        outcome = refl;
        events = events ∙ ap (λ es. new ∷ es) apart.events;
        after = set_score (next_score row.contribution_score verdict.0) rank.rank row;
        found = found;
        scored = record {
          contribution_score = refl;
          derived_rank = refl;
          active_days = refl;
          last_active_day = refl;
          review = refl;
        };
      })

  Recorded-of :
      (policy : GuildPolicyConfig) (l : LevelPolicy) (k : RankPolicy) (row : UserGuildStats)
      (db db' : Database) (r : Result ContributionEventOutcome × Database)
      → db'.users ≡ db.users
      → db'.events ≡ db.events
      → ((j : ℕ) → j ≢ user_id → stats_of j db' ≡ stats_of j db)
      → Recorded policy db' (set_derived l k row) r
      → Recorded policy db row r
  unfolding set_derived
  Recorded-of policy l k row db db' r u e others rec = record {
    judged = rec.judged;
    is_worth =
        rec.is_worth
        ∙ worth_of_same ctx policy user_id granter event_type requested options db db' u e others;
    worth =
        Verdict-of ctx user_id granter event_type requested options db db' rec.judged u e rec.worth;
    verdict = rec.verdict;
    is_verdict =
        rec.is_verdict
        ∙ ap (λ n. apply_cap requested options.daily_positive_cap n rec.judged)
            (earned_of_events ctx user_id event_type db db' e);
    rank = rec.rank;
    is_rank = rec.is_rank;
    outcome = rec.outcome;
    events =
        rec.events
        ∙ ap
            (λ es.
              new_event ctx user_id granter event_type requested reference metadata rec.verdict
              ∷ es)
            e;
    after = rec.after;
    found = rec.found;
    scored = record {
      contribution_score = rec.scored.contribution_score;
      derived_rank = rec.scored.derived_rank;
      active_days = rec.scored.active_days;
      last_active_day = rec.scored.last_active_day;
      review = rec.scored.review;
    };
  }

  Recorded-transaction :
      (policy : GuildPolicyConfig) (row : UserGuildStats) (db : Database)
      (m : Action ContributionEventOutcome)
      → Recorded policy db row (m db)
      → Recorded policy db row (transaction m db)
  Recorded-transaction policy row db m rec =
      let e : m db ≡ (
        ok (
            applied_outcome
              (new_event ctx user_id granter event_type requested reference metadata rec.verdict)
              (next_score row.contribution_score rec.verdict.0) rec.rank.rank rec.verdict),
        (m db).1,
      ) =
        ap (λ x. (x, (m db).1)) rec.outcome in
      subst (Recorded policy db row) (e ∙ sym (transaction_of_ok m db _ _ e)) rec

  module _ (policy : GuildPolicyConfig) (db : Database) (row : UserGuildStats)
      (loaded : (load_guild_policy_conn ctx db).0 ≡ ok policy)
      (start : StartsFrom policy user_id db row) where
    -- The transaction gets as far as the search for an earlier event.
    pub record_event_runs :
        (l : LevelPolicy) × (k : RankPolicy) × (db' : Database) × (record_event ctx user_id granter
            event_type requested reference metadata options db
          ≡ contribute_once ctx user_id granter event_type requested reference metadata options
              policy
              (set_derived l k row)
              (find_reference user_id event_type reference db)
              db')
        × Became db user_id (set_derived l k row) db'
    unfolding record_event
    record_event_runs =
        let v = loaded-IsValid ctx db policy loaded in
        let (l, k, db', run, b) = synced policy v user_id db row start in
        let next : UserGuildStats → Action ContributionEventOutcome = λ stats.
          gets (find_reference user_id event_type reference)
          >>= contribute_once ctx user_id granter event_type requested reference metadata options
              policy stats in
        let rest : GuildPolicyConfig → Action ContributionEventOutcome = λ policy.
          ensure_user_guild_stats policy user_id >>= λ stats.
          sync_derived_state policy stats >>= λ stats.
          gets (find_reference user_id event_type reference)
          >>= contribute_once ctx user_id granter event_type requested reference metadata options
              policy stats in
        (
          l,
          k,
          db',
          >>=_of_ok (load_guild_policy_conn ctx) rest db db policy (load_runs ctx db policy loaded)
              ∙ run _ next
              ∙ ap
                  (λ o.
                    contribute_once ctx user_id granter event_type requested reference metadata
                      options policy (set_derived l k row) o db')
                  (reference_of_events ctx user_id event_type db db' b.events reference),
          b,
        )

pub str_eq-false : (t : String) → t ≢ "" → str_eq t "" ≡ false
str_eq-false t h = ground (arith, str_eq_iff t "")

-- An event is recorded for a user who is there, whose granter, if there is one, is a user, whose
-- type is not blank, and whose reference was not used before for the user and the type. The event
-- is stored with its worth, cut to the cap: the points asked for, or none where points are asked
-- for, the kind of event wants a granter who counts, and the granter is the user, or has been
-- given points of the kind by the user in the last thirty days, or is one of a crowd (ten users
-- have given the user points of the kind today), or is neither staff nor a user whose days give
-- level four or whose score gives a rank above F. The score moves by that worth, not below zero,
-- and gets the rank of the new score.
pub event-Recorded :
    (ctx : Context) (user_id : ℕ) (granter : Option ℕ) (event_type : String) (requested : ℤ)
    (reference : Option String) (metadata : Value) (options : ContributionEventOptions)
    (policy : GuildPolicyConfig) (db : Database) (row : UserGuildStats)
    → (load_guild_policy_conn ctx db).0 ≡ ok policy
    → StartsFrom policy user_id db row
    → has_user user_id db ≡ true
    → IsKnown granter db
    → trim event_type ≢ ""
    → find_reference user_id (trim event_type) (normal_reference reference) db ≡ none
    → Recorded ctx user_id granter
        (trim event_type)
        requested
        (normal_reference reference)
        metadata
        options
        policy
        db
        row
        (record_contribution_event ctx user_id granter event_type requested reference metadata
          options db)
unfolding record_contribution_event contribute_once
event-Recorded ctx user_id granter event_type requested reference metadata options policy db row
      loaded start u known named fresh =
    let kind = trim event_type in
    let v = loaded-IsValid ctx db policy loaded in
    let (l, k, db₁, run, b) =
      record_event_runs ctx user_id granter kind requested (normal_reference reference) metadata
        options policy db row loaded start in
    let done =
      contribute-Recorded ctx user_id granter kind requested (normal_reference reference) metadata
        options policy v db₁ (set_derived l k row) (has_user_of_users user_id db db₁ b.users ∙ u)
        (IsKnown-of_users granter db db₁ b.users known) b.found in
    let normal = normal_reference reference in
    let new_run : record_event ctx user_id granter kind requested normal metadata options db
        ≡ contribute ctx user_id granter kind requested normal metadata options policy
            (set_derived l k row) db₁ =
      run
      ∙ ap
          (λ o.
            contribute_once ctx user_id granter kind requested normal metadata options policy
              (set_derived l k row) o db₁)
          fresh in
    rw (str_eq-false kind named) (
      Recorded-transaction ctx user_id granter kind requested normal metadata options policy row db
        (record_event ctx user_id granter kind requested normal metadata options)
        (subst (Recorded ctx user_id granter kind requested normal metadata options policy db row)
          (sym new_run)
          (Recorded-of ctx user_id granter kind requested normal metadata options policy l k row db
            db₁ _ b.users b.events b.others done)))
