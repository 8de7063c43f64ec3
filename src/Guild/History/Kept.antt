-- ===== src/Guild/History/Kept.antt =====
-- What pruning keeps.
use sync_server.Prelude.{
  ℕ, ◌+◌, ◌*◌, ◌≡◌, refl, String, Bool, true, false, List, [], ◌∷◌, arith, leb, not, filter, length,
  find?,
}
use sync_server.Prelude.Int.{ℤ, pos, ◌≤ℤ◌, ◌<ℤ◌, ltb_ℤ, leb_ℤ, ◌-ℤ◌, ◌*ℤ◌}
use sync_server.Errors.{ok}
use sync_server.Store.{Database, Context, delete_where}
use sync_server.Guild.Types.{GuildPolicyConfig, DailyActionCounter}
use sync_server.Guild.Activity.{date_naive, micros_per_day}
use sync_server.Guild.Stats.{load_guild_policy_conn, daily_action_count, is_counter}
use sync_server.Guild.Stats.Load.{loaded-IsValid, load_runs}
use sync_server.Guild.Stats.Counters.{count_of_found}
use sync_server.Guild.Events.Cap.{earned_of_gains, clustered_of_gains}
use sync_server.Guild.Events.{positive_points_earned_today, is_gain_today, is_clustered_vote}
use sync_server.Guild.History.{
  GuildHistoryPruneResult, day_before, time_before, is_old_counter, is_old_event, delete_counters,
  delete_events, prune_guild_history,
}

module _ {ℓ} {A : Type ℓ} (old : A → Bool) where
  -- What is removed and what stays make up the table.
  filter_split :
      (rows : List A)
      → length (filter old rows) + length (filter (λ r. not (old r)) rows) ≡ length rows
  filter_split [] = refl
  filter_split (r ∷ rows) = ground (arith, filter_split rows)

  -- A search for rows that are not old finds what it found before.
  filter_kept :
      (p : A → Bool) (rows : List A)
      → ((r : A) → p r ≡ true → old r ≡ false)
      → filter p (filter (λ r. not (old r)) rows) ≡ filter p rows
  filter_kept p [] young = refl
  filter_kept p (r ∷ rows) young = ground (arith, young r, filter_kept p rows young)

  find_kept :
      (p : A → Bool) (rows : List A)
      → ((r : A) → p r ≡ true → old r ≡ false)
      → find? p (filter (λ r. not (old r)) rows) ≡ find? p rows
  find_kept p [] young = refl
  find_kept p (r ∷ rows) young = ground (arith, young r, find_kept p rows young)

-- The deletions as choices of the rows that stay.
filter_same {ℓ} :
    {A : Type ℓ} (p q : A → Bool) (rows : List A)
    → ((r : A) → p r ≡ q r)
    → filter p rows ≡ filter q rows
filter_same p q [] same = refl
filter_same p q (r ∷ rows) same = ground (arith, same r, filter_same p q rows same)

not_before : (a b : ℤ) → not (ltb_ℤ a b) ≡ leb_ℤ b a
not_before a b = ground arith

-- What happened on the day is not older than a day.
young_today :
    (now created : ℕ) (days time : ℤ)
    → time ≡ pos now -ℤ days *ℤ pos micros_per_day
    → pos 0 <ℤ days
    → leb (date_naive now * micros_per_day) created ≡ true
    → ltb_ℤ (pos created) time ≡ false
unfolding ◌-ℤ◌ ◌*ℤ◌
young_today now created days time e positive today = ground arith

module _ (ctx : Context) (db : Database) (time : ℤ) (days : ℤ)
    (e : time ≡ pos ctx.now -ℤ days *ℤ pos micros_per_day) (positive : pos 0 <ℤ days) where
  abbrev kept : Database
  kept = record db { events = filter (λ r. not (is_old_event time r)) db.events }

  gains_kept :
      (user_id : ℕ) (event_type : String)
      → filter (is_gain_today ctx user_id event_type) kept.events
        ≡ filter (is_gain_today ctx user_id event_type) db.events
  gains_kept user_id event_type =
      filter_kept (is_old_event time) (is_gain_today ctx user_id event_type) db.events
        (λ r h. young_today ctx.now r.created_at days time e positive (ground arith))

day_before_ok :
    (ctx : Context) (days : ℤ)
    → ctx.first_day ≤ℤ pos (date_naive ctx.now) -ℤ days
    → day_before ctx days ≡ ok (pos (date_naive ctx.now) -ℤ days)
unfolding day_before
day_before_ok ctx days exists' = ground arith

time_before_ok :
    (ctx : Context) (days : ℤ)
    → ctx.first_day *ℤ pos micros_per_day ≤ℤ pos ctx.now -ℤ days *ℤ pos micros_per_day
    → time_before ctx days ≡ ok (pos ctx.now -ℤ days *ℤ pos micros_per_day)
unfolding time_before
time_before_ok ctx days exists' = ground arith

counter_kept :
    (user_id : ℕ) (key : String) (day : ℕ) (first : ℤ) (rows : List DailyActionCounter)
    → first ≤ℤ pos day
    → find? (is_counter user_id key day) (filter (λ c. not (is_old_counter first c)) rows)
      ≡ find? (is_counter user_id key day) rows
counter_kept user_id key day first rows young =
    find_kept (is_old_counter first) (is_counter user_id key day) rows (λ c h. ground arith)

-- Pruning under a policy whose retention reaches back to days that exist keeps exactly the counters
-- of the days within the retention and the events that are not older than it, in their order, and
-- changes no other table; it tells how many rows it deleted. So every count of a day within the
-- retention stays; and so do, for every user and event type, the points of today and whether today's
-- votes are clustered.
pub prune_keeps :
    (ctx : Context) (policy : GuildPolicyConfig) (db : Database)
    → (load_guild_policy_conn ctx db).0 ≡ ok policy
    → ctx.first_day ≤ℤ pos (date_naive ctx.now) -ℤ policy.daily_counter_retention_days
    → ctx.first_day *ℤ pos micros_per_day
      ≤ℤ pos ctx.now -ℤ policy.score_event_retention_days *ℤ pos micros_per_day
    → (r : GuildHistoryPruneResult) × (db' : Database) × (prune_guild_history ctx db ≡ (ok r, db'))
      × (db' ≡ record db {
        counters =
            filter
              (λ c.
                leb_ℤ
                  (pos (date_naive ctx.now) -ℤ policy.daily_counter_retention_days)
                  (pos c.day_bucket))
              db.counters;
        events =
            filter
              (λ e.
                leb_ℤ
                  (pos ctx.now -ℤ policy.score_event_retention_days *ℤ pos micros_per_day)
                  (pos e.created_at))
              db.events;
      })
      × (r.daily_action_counters_deleted + length db'.counters ≡ length db.counters)
      × (r.guild_score_events_deleted + length db'.events ≡ length db.events)
      × ((user_id : ℕ) (key : String) (day : ℕ)
          → pos (date_naive ctx.now) -ℤ policy.daily_counter_retention_days ≤ℤ pos day
          → daily_action_count user_id key day db' ≡ daily_action_count user_id key day db)
      × ((user_id : ℕ) (event_type : String)
          → (positive_points_earned_today ctx user_id event_type db'
              ≡ positive_points_earned_today ctx user_id event_type db)
            × (is_clustered_vote ctx user_id event_type db'
                ≡ is_clustered_vote ctx user_id event_type db))
unfolding prune_guild_history delete_counters delete_events delete_where
prune_keeps ctx policy db loaded day_exists time_exists =
    let v = loaded-IsValid ctx db policy loaded in
    let day = pos (date_naive ctx.now) -ℤ policy.daily_counter_retention_days in
    let time = pos ctx.now -ℤ policy.score_event_retention_days *ℤ pos micros_per_day in
    (
      record {
        daily_counter_retention_days = policy.daily_counter_retention_days;
        score_event_retention_days = policy.score_event_retention_days;
        pruned_before_day = day;
        pruned_before_timestamp = time;
        daily_action_counters_deleted = length (filter (is_old_counter day) db.counters);
        guild_score_events_deleted = length (filter (is_old_event time) db.events);
      },
      record db {
        counters = delete_where (is_old_counter day) db.counters;
        events = delete_where (is_old_event time) db.events;
      },
      ground (
        arith,
        load_runs ctx db policy loaded,
        day_before_ok ctx policy.daily_counter_retention_days day_exists,
        time_before_ok ctx policy.score_event_retention_days time_exists,
      ),
      λ i. record db {
        counters =
            filter_same (λ c. not (is_old_counter day c)) (λ c. leb_ℤ day (pos c.day_bucket))
              db.counters (λ c. not_before (pos c.day_bucket) day) i;
        events =
            filter_same (λ e. not (is_old_event time e)) (λ e. leb_ℤ time (pos e.created_at))
              db.events (λ e. not_before (pos e.created_at) time) i;
      },
      filter_split (is_old_counter day) db.counters,
      filter_split (is_old_event time) db.events,
      λ user_id key within young.
          count_of_found user_id key within db
            (record db {
              counters = delete_where (is_old_counter day) db.counters;
              events = delete_where (is_old_event time) db.events;
            })
            (counter_kept user_id key within day db.counters young),
      λ user_id event_type.
          let gains =
            gains_kept ctx db time policy.score_event_retention_days refl v.event_days user_id
              event_type in
          let db' = record db {
            counters = delete_where (is_old_counter day) db.counters;
            events = delete_where (is_old_event time) db.events;
          } in
          (
            earned_of_gains ctx user_id event_type db db' gains,
            clustered_of_gains ctx user_id event_type db db' gains,
          ),
    )
