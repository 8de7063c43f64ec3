-- ===== src/Guild/Events/Record/Twice.antt =====
-- The same reference, recorded again.
use mathlib.Core.Option
use sync_server.Prelude.{
  ℕ, ◌≡◌, ◌≢◌, refl, sym, ◌∙◌, ap, String, true, Option, none, some, List, ◌∷◌, arith, str_eq_iff,
}
use sync_server.Prelude.Int.{ℤ}
use sync_server.Prelude.Text.{trim}
use sync_server.Errors.{ok}
use sync_server.Store.{Database, Context, transaction_of_ok, has_user}
use sync_server.Guild.Types.{GuildPolicyConfig, UserGuildStats, GuildScoreEvent, Value}
use sync_server.Guild.Stats.{set_derived, load_guild_policy_conn}
use sync_server.Guild.Stats.Rows.{Became}
use sync_server.Guild.Actions.Begin.{StartsFrom}
use sync_server.Guild.Events.{ContributionEventOptions, normal_reference, find_reference}
use sync_server.Guild.Events.Record.{
  duplicate_outcome, contribute_once, record_event, record_contribution_event,
}
use sync_server.Guild.Events.Record.Apply.{IsKnown}
use sync_server.Guild.Stats.Load.{load-IsValid}
use sync_server.Guild.Actions.Begin.{known}
use sync_server.Guild.Events.Record.Outcome.{event-Recorded, record_event_runs, str_eq-false}
use sync_server.Guild.Events.Record.Effects.{score_of}

-- For a user whose row is stored, or who is new, an event of a type that is not blank, under a
-- reference that was used before for the user and the type, is answered as a duplicate: no event is
-- stored, and the score stays.
event_duplicate :
    (ctx : Context) (user_id : ℕ) (granter : Option ℕ) (event_type : String) (requested : ℤ)
    (reference : Option String) (metadata : Value) (options : ContributionEventOptions)
    (policy : GuildPolicyConfig) (db : Database) (row : UserGuildStats) (existing : GuildScoreEvent)
    → (load_guild_policy_conn ctx db).0 ≡ ok policy
    → StartsFrom policy user_id db row
    → trim event_type ≢ ""
    → find_reference user_id (trim event_type) (normal_reference reference) db ≡ some existing
    → (after : UserGuildStats) × (db' : Database) × (record_contribution_event ctx user_id granter
          event_type requested reference metadata options db
        ≡ (ok (duplicate_outcome after), db'))
      × (after.contribution_score ≡ row.contribution_score)
      × Became db user_id after db'
unfolding record_contribution_event contribute_once set_derived
event_duplicate ctx user_id granter event_type requested reference metadata options policy db row
      existing loaded start named used =
    let kind = trim event_type in
    let normal = normal_reference reference in
    let (l, k, db', run, b) =
      record_event_runs ctx user_id granter kind requested normal metadata options policy db row
        loaded start in
    let old_run : record_event ctx user_id granter kind requested normal metadata options db
        ≡ (ok (duplicate_outcome (set_derived l k row)), db') =
      run
      ∙ ap
          (λ o.
            contribute_once ctx user_id granter kind requested normal metadata options policy
              (set_derived l k row) o db')
          used in
    (
      set_derived l k row,
      db',
      rw (str_eq-false kind named) (
          transaction_of_ok
            (record_event ctx user_id granter kind requested normal metadata options) db db'
            (duplicate_outcome (set_derived l k row)) old_run),
      refl,
      b,
    )

-- The newest event is found by its reference.
find_newest :
    (user_id : ℕ) (event_type r : String) (reference : Option String) (db : Database)
    (new : GuildScoreEvent) (events : List GuildScoreEvent)
    → reference ≡ some r
    → new.user_id ≡ user_id
    → new.event_type ≡ event_type
    → new.reference_id ≡ reference
    → db.events ≡ new ∷ events
    → find_reference user_id event_type reference db ≡ some new
unfolding find_reference
find_newest user_id event_type r reference db new events is u t n e =
    ground (arith, str_eq_iff event_type event_type, str_eq_iff r r)

-- Recording under a reference is idempotent: when an event was recorded under a reference that is
-- not blank, a later call for the same user, type and reference, at any time, with any amount and
-- by any granter, is answered as a duplicate, stores no event and leaves the score as it is.
pub recorded_twice :
    (ctx : Context) (user_id : ℕ) (granter : Option ℕ) (event_type : String) (requested : ℤ)
    (reference : Option String) (r : String) (metadata : Value) (options : ContributionEventOptions)
    (policy : GuildPolicyConfig) (db : Database) (row : UserGuildStats)
    → (load_guild_policy_conn ctx db).0 ≡ ok policy
    → StartsFrom policy user_id db row
    → has_user user_id db ≡ true
    → IsKnown granter db
    → trim event_type ≢ ""
    → normal_reference reference ≡ some r
    → find_reference user_id (trim event_type) (normal_reference reference) db ≡ none
    → (ctx' : Context) (granter' : Option ℕ) (requested' : ℤ) (metadata' : Value)
      (options' : ContributionEventOptions)
    → (after : UserGuildStats) × (db' : Database) × (record_contribution_event ctx' user_id granter'
          event_type requested' reference metadata' options'
          (record_contribution_event ctx user_id granter event_type requested reference metadata
            options db).1
        ≡ (ok (duplicate_outcome after), db'))
      × (db'.events
          ≡ (record_contribution_event ctx user_id granter event_type requested reference metadata
              options db).1.events)
      × (score_of user_id db'
          ≡ score_of user_id
              (record_contribution_event ctx user_id granter event_type requested reference metadata
                options db).1)
recorded_twice ctx user_id granter event_type requested reference r metadata options policy db row
      loaded start u from named is fresh ctx' granter' requested' metadata' options' =
    let rec =
      event-Recorded ctx user_id granter event_type requested reference metadata options policy db
        row loaded start u from named fresh in
    let db₁ =
      (record_contribution_event ctx user_id granter event_type requested reference metadata options
        db).1 in
    let (policy', load', v) = load-IsValid ctx' db₁ in
    let used =
      find_newest user_id (trim event_type) r (normal_reference reference) db₁ _ db.events is refl
        refl refl rec.events in
    let (after, db₂, run, same, b) =
      event_duplicate ctx' user_id granter' event_type requested' reference metadata' options'
        policy' db₁ rec.after _ (ap (λ x. x.0) load') (known rec.found) named used in
    (
      after,
      db₂,
      run,
      b.events,
      ap (Option.map (λ row. row.contribution_score)) b.found
          ∙ ap some same
          ∙ sym (ap (Option.map (λ row. row.contribution_score)) rec.found),
    )
