-- ===== src/Guild/Stats/Counters.antt =====
-- The daily counters.
use sync_server.Prelude.{
  ℕ, ◌≡◌, refl, inl, inr, String, Bool, true, false, Option, none, some, arith, str_eq, str_eq_iff,
  find?, ◌∷◌, List, Option-cases, ◌&&◌, ◌==◌,
}
use sync_server.Prelude.Int.{ℤ, pos, ◌+ℤ◌, leb_ℤ, i32_max}
use sync_server.Errors.{AppError, ok, err}
use sync_server.Store.{
  Database, has_user, require_user, update_where, find?-update_where, find?_found,
}
use sync_server.Guild.Types.{DailyActionCounter}
use sync_server.Guild.Stats.{is_counter, daily_action_count, increment_daily_counter}

abbrev pub plus_one : DailyActionCounter → DailyActionCounter
plus_one c = record c { count = c.count +ℤ pos 1 }

unfoldable pub same_counter : ℕ → String → ℕ → ℕ → String → ℕ → Bool
same_counter u k d u' k' d' = u == u' && (str_eq k k' && d == d')

-- No more can be counted.
abbrev pub is_exhausted : ℤ → Bool
is_exhausted n = leb_ℤ (pos i32_max) n

module _ (user_id : ℕ) (key : String) (today : ℕ) (db : Database) where
  abbrev pub counters_after : Option DailyActionCounter → List DailyActionCounter
  counters_after none =
      record { user_id = user_id; action_key = key; day_bucket = today; count = pos 1 }
      ∷ db.counters
  counters_after (some _) = update_where (is_counter user_id key today) plus_one db.counters

  -- Where the counter is full, counting is an error and writes nothing.
  pub increment_fails :
      is_exhausted (daily_action_count user_id key today db) ≡ true
      → increment_daily_counter user_id key today db ≡ (err AppError.database, db)
  unfolding increment_daily_counter daily_action_count
  increment_fails full = elim (Option-cases (find? (is_counter user_id key today) db.counters)) [
    | inl missing ↦ absurd (ground arith)
    | inr (c, found) ↦ ground arith
  ]

  module _ (u : has_user user_id db ≡ true)
      (free : is_exhausted (daily_action_count user_id key today db) ≡ false) where
    -- Else it succeeds for a user that is there, and writes no other table.
    pub increment_runs : increment_daily_counter user_id key today db ≡ (
      ok tt,
      record db { counters = counters_after (find? (is_counter user_id key today) db.counters) },
    )
    unfolding increment_daily_counter require_user daily_action_count
    increment_runs = elim (Option-cases (find? (is_counter user_id key today) db.counters)) [
      | inl missing ↦ ground arith
      | inr (c, found) ↦ ground arith
    ]

    -- It raises the user's count of the action on the day by one.
    pub count-increment_self :
        daily_action_count user_id key today (increment_daily_counter user_id key today db).1
        ≡ daily_action_count user_id key today db +ℤ pos 1
    unfolding daily_action_count ◌+ℤ◌
    count-increment_self =
        let p = is_counter user_id key today in
        rw increment_runs (elim (Option-cases (find? p db.counters)) [
          | inl missing ↦ rw missing (ground (arith, str_eq_iff key key))
          | inr (c, found) ↦ rw found (
              ground (
                arith,
                found,
                find?_found p db.counters c found,
                find?-update_where p p plus_one db.counters (λ r. refl),
              ))
        ])

    -- It changes no count of another user, action or day.
    count-increment_other :
        (u' : ℕ) (key' : String) (day' : ℕ)
        → same_counter user_id key today u' key' day' ≡ false
        → daily_action_count u' key' day' (increment_daily_counter user_id key today db).1
          ≡ daily_action_count u' key' day' db
    unfolding daily_action_count same_counter
    count-increment_other u' key' day' differ =
        let p = is_counter user_id key today in
        let p' = is_counter u' key' day' in
        rw increment_runs (elim (Option-cases (find? p db.counters)) [
          | inl missing ↦ rw missing (ground arith)
          | inr (c, found) ↦ rw found (elim (Option-cases (find? p' db.counters)) [
            | inl missing ↦ ground (arith, find?-update_where p' p plus_one db.counters (λ r. refl))
            | inr (c', found') ↦ ground (
              arith,
              find?_found p' db.counters c' found',
              find?-update_where p' p plus_one db.counters (λ r. refl),
              str_eq_iff c'.action_key key,
              str_eq_iff c'.action_key key',
              str_eq_iff key key',
            )
          ])
        ])

-- A count reads the counters and no other table.
pub count_of_counters :
    (user_id : ℕ) (key : String) (today : ℕ) (db db' : Database)
    → db'.counters ≡ db.counters
    → daily_action_count user_id key today db' ≡ daily_action_count user_id key today db
unfolding daily_action_count
count_of_counters user_id key today db db' e = rw e

pub count_of_found :
    (user_id : ℕ) (key : String) (today : ℕ) (db db' : Database)
    → find? (is_counter user_id key today) db'.counters
      ≡ find? (is_counter user_id key today) db.counters
    → daily_action_count user_id key today db' ≡ daily_action_count user_id key today db
unfolding daily_action_count
count_of_found user_id key today db db' e = rw e refl
