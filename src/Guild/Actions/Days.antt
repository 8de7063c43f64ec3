-- ===== src/Guild/Actions/Days.antt =====
-- Active days over many actions.
use sync_server.Prelude.{
  ℕ, ◌+◌, ◌-◌, ◌≤◌, ◌<◌, ◌≡◌, ◌≢◌, ◌∙◌, ap, ◌⊎◌, inl, inr, some, arith, Bool-cases,
}
use sync_server.Prelude.Int.{ℤ, pos, ◌≤ℤ◌, ◌+ℤ◌, add32, wrap32, i32_max}
use sync_server.Guild.Types.{GuildPolicyConfig, UserGuildStats}
use sync_server.Guild.Activity.{assess_human_activity}
use sync_server.Guild.Activity.Assess.{advances_iff}
use sync_server.Guild.Actions.Begin.{Counted}

-- A user's row over the actions that count activity, from the day `first` to the day `last`: the
-- clock does not run backwards by a day, and the policy may change at any time.
pub data Active (start : UserGuildStats) (first : ℕ) : ℕ → UserGuildStats → Type 0 where
  begin : Active start first first start
  act :
      {day : ℕ} {row : UserGuildStats}
      → Active start first day row
      → (policy : GuildPolicyConfig) (today now : ℕ) (row' : UserGuildStats) → day ≤ today
      → Counted policy today now row row'
      → Active start first today row'

add32_one :
    (a : ℤ) (n : ℕ)
    → pos 0 ≤ℤ a
    → a ≤ℤ pos n
    → n < i32_max
    → (pos 0 ≤ℤ add32 a (pos 1)) × (add32 a (pos 1) ≤ℤ pos (n + 1))
unfolding add32 wrap32 ◌+ℤ◌
add32_one a n h k l = ground arith

at_most : (a : ℤ) {m n : ℕ} → a ≤ℤ pos m → m ≤ n → a ≤ℤ pos n
at_most a h k = omega arith

at_or_before : (day today : ℕ) → day ≤ today → (day ≡ today) ⊎ (day < today)
at_or_before day today d = ground arith

module _ (start : UserGuildStats) (base first : ℕ) (h : start.active_days ≡ pos base) where
  -- On a day that is already counted one more than the days gone by, on another day no more.
  abbrev Within : ℕ → UserGuildStats → Type 0
  Within day row =
      (first ≤ day)
      × (pos 0 ≤ℤ row.active_days)
      × (((row.last_active_day ≡ some day) × (row.active_days ≤ℤ pos (base + (day - first) + 1)))
          ⊎ (row.active_days ≤ℤ pos (base + (day - first))))

  Within_counted :
      (day today : ℕ) (row row' : UserGuildStats)
      → day ≤ today
      → base + (today - first) < i32_max
      → row.last_active_day ≢ some today
      → row'.active_days ≡ add32 row.active_days (pos 1)
      → row'.last_active_day ≡ some today
      → Within day row
      → Within today row'
  Within_counted day today row row' d small fresh days last (f, low, inl (e, high)) =
      let apart : day ≢ today = λ same. fresh (e ∙ ap some same) in
      let (positive, bounded) =
        add32_one row.active_days (base + (day - first) + 1) low high (omega (arith, apart)) in
      (
        omega arith,
        rw days positive,
        inl (last, rw days (at_most _ bounded (omega (arith, apart)))),
      )
  Within_counted day today row row' d small fresh days last (f, low, inr high) =
      let (positive, bounded) =
        add32_one row.active_days (base + (day - first)) low high (omega arith) in
      (omega arith, rw days positive, inl (last, rw days (at_most _ bounded (omega arith))))

  Within_same :
      (day today : ℕ) (row row' : UserGuildStats)
      → day ≤ today
      → row'.active_days ≡ row.active_days
      → row'.last_active_day ≡ row.last_active_day
      → Within day row
      → Within today row'
  Within_same day today row row' d days last (f, low, inl (e, high)) =
      elim (at_or_before day today d) [
        | inl same ↦ (
          omega arith,
          rw days low,
          inl (last ∙ e ∙ ap some same, rw days (at_most _ high (omega arith))),
        )
        | inr before ↦ (omega arith, rw days low, inr (rw days (at_most _ high (omega arith))))
      ]
  Within_same day today row row' d days last (f, low, inr high) =
      (omega arith, rw days low, inr (rw days (at_most _ high (omega arith))))

  most :
      (day : ℕ) (row : UserGuildStats)
      → Within day row
      → row.active_days ≤ℤ pos (base + (day - first) + 1)
  most day row (f, low, inl (e, high)) = high
  most day row (f, low, inr high) = at_most _ high (omega arith)

  step :
      (policy : GuildPolicyConfig) (day today now : ℕ) (row row' : UserGuildStats)
      → day ≤ today
      → base + (today - first) < i32_max
      → Counted policy today now row row'
      → Within day row
      → Within today row'
  step policy day today now row row' d small c w =
      elim (Bool-cases (assess_human_activity row today now).should_advance_active_day) [
        | inl advances ↦
            Within_counted day today row row' d small ((advances_iff row today now).0 advances).0
              (ground (arith, advances, c.days)) (ground (arith, advances, c.day)) w
        | inr same ↦
            Within_same day today row row' d (ground (arith, same, c.days))
              (ground (arith, same, c.day)) w
      ]

  within :
      (last : ℕ) (row : UserGuildStats)
      → base + (last - first) < i32_max
      → Active start first last row
      → Within last row
  within last row small begin = (omega arith, rw h (omega arith), inr (rw h (omega arith)))
  within last row small (act run policy today now row' later counted) =
      step policy _ last now _ row later small counted (within _ _ (ground arith) run)

  -- However many actions there are, a user gains at most one active day for each day of the
  -- calendar: from `base` active days on the day `first`, no more than one for every day up to and
  -- with the last. The day of the clock does not go back, every action counts its activity under
  -- any policy, and the sum of days is below the largest `i32`.
  pub one_day_a_day :
      (last : ℕ) (row : UserGuildStats)
      → base + (last - first) < i32_max
      → Active start first last row
      → row.active_days ≤ℤ pos (base + (last - first) + 1)
  one_day_a_day last row small run = most last row (within last row small run)
