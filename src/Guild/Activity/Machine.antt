-- ===== src/Guild/Activity/Machine.antt =====
-- The review states over any sequence of activities and administrators' decisions.
use sync_server.Prelude.{
  ℕ, ◌+◌, ◌<◌, ◌≡◌, ◌≢◌, refl, false, some, str_eq, str_eq_iff, arith, ◌⊎◌, inr, String,
}
use sync_server.Prelude.Int.{ℤ, pos, ◌≤ℤ◌, ◌<ℤ◌, ◌+ℤ◌, ◌-ℤ◌, saturating_add, saturating_sub}
use sync_server.Guild.Types.{UserGuildStats}
use sync_server.Guild.Activity.{
  assess_human_activity, assessed, set_frozen, set_unfrozen, suspicious_window,
}

-- The state tells the streak: none when clear, one or two when challenged. A frozen row may have
-- any streak.
abbrev pub Agrees : String → ℤ → Type 0
Agrees state streak =
    ((state ≡ "clear") × (streak ≡ pos 0))
    ⊎ ((state ≡ "challenged") × (pos 0 <ℤ streak) × (streak <ℤ pos 3))
    ⊎ (state ≡ "frozen")

pub record IsReviewed (row : UserGuildStats) : Type 0 where
  pub streak : pos 0 ≤ℤ row.suspicious_activity_streak
  pub small : row.suspicious_activity_streak ≤ℤ pos 3
  pub agrees : Agrees row.automation_review_state row.suspicious_activity_streak

assessed-IsReviewed :
    (today now : ℕ) (row : UserGuildStats) → IsReviewed row → IsReviewed (assessed today now row)
unfolding assessed assess_human_activity saturating_add saturating_sub ◌+ℤ◌ ◌-ℤ◌
assessed-IsReviewed today now row h =
    ground (arith, str_eq_iff row.automation_review_state "frozen")

-- One thing that happens to a row: an activity at any time, or an administrator's decision.
pub data ReviewStep (row : UserGuildStats) : UserGuildStats → Type 0 where
  activity : (today now : ℕ) → ReviewStep row (assessed today now row)
  freeze : ReviewStep row (set_frozen row)
  unfreeze : ReviewStep row (set_unfrozen row)

pub data Reviews (row : UserGuildStats) : UserGuildStats → Type 0 where
  here : Reviews row row
  next : {mid last : UserGuildStats} → Reviews row mid → ReviewStep mid last → Reviews row last

ReviewStep-IsReviewed :
    {row next : UserGuildStats} → ReviewStep row next → IsReviewed row → IsReviewed next
unfolding set_frozen set_unfrozen
ReviewStep-IsReviewed {row} (activity today now) h = assessed-IsReviewed today now row h
ReviewStep-IsReviewed freeze h = record {
  streak = h.streak;
  small = h.small;
  agrees = inr (inr refl);
}
ReviewStep-IsReviewed unfreeze h = ground arith

-- Whatever activities and decisions follow one another, a streak between zero and three stays so,
-- and a state that agrees with its streak stays so.
pub Reviews-IsReviewed :
    {row last : UserGuildStats} → Reviews row last → IsReviewed row → IsReviewed last
Reviews-IsReviewed here h = h
Reviews-IsReviewed (next r s) h = ReviewStep-IsReviewed s (Reviews-IsReviewed r h)

module _ (today : ℕ) where
  -- A row that is not frozen and has no active day today.
  abbrev Waiting : String → ℕ → ℕ → UserGuildStats → Type 0
  Waiting state last streak row =
      (row.automation_review_state ≡ state)
      × (row.last_active_day ≢ some today)
      × (row.last_human_activity_at ≡ some last)
      × (row.suspicious_activity_streak ≡ pos streak)

  strike :
      (row : UserGuildStats) (state : String) (last now streak : ℕ)
      → str_eq state "frozen" ≡ false
      → Waiting state last streak row
      → now < last + suspicious_window
      → streak < 2
      → Waiting "challenged" now (streak + 1) (assessed today now row)
  unfolding assessed assess_human_activity saturating_add ◌+ℤ◌
  strike row state last now streak f h p q = ground arith

  last_strike :
      (row : UserGuildStats) (last now : ℕ)
      → Waiting "challenged" last 2 row
      → now < last + suspicious_window
      → (assessed today now row).automation_review_state ≡ "frozen"
  unfolding assessed assess_human_activity saturating_add ◌+ℤ◌
  last_strike row last now h p = ground arith

-- Three activities on a day that is not yet counted, the first within ten minutes of the last
-- activity before it and each other within ten minutes of the one before, freeze a row that was
-- clear and without strikes.
three_strikes :
    (today t₀ t₁ t₂ t₃ : ℕ) (row : UserGuildStats)
    → row.automation_review_state ≡ "clear"
    → row.suspicious_activity_streak ≡ pos 0
    → row.last_active_day ≢ some today
    → row.last_human_activity_at ≡ some t₀
    → t₁ < t₀ + suspicious_window
    → t₂ < t₁ + suspicious_window
    → t₃ < t₂ + suspicious_window
    → (assessed today t₃ (assessed today t₂ (assessed today t₁ row))).automation_review_state
      ≡ "frozen"
three_strikes today t₀ t₁ t₂ t₃ row c z d l p₁ p₂ p₃ =
    let first = strike today row "clear" t₀ t₁ 0 refl (c, d, l, z) p₁ (omega arith) in
    let second =
      strike today (assessed today t₁ row) "challenged" t₁ t₂ 1 refl first p₂ (omega arith) in
    last_strike today (assessed today t₂ (assessed today t₁ row)) t₂ t₃ second p₃
