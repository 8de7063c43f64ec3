-- ===== src/Guild/Events/Cap.antt =====
-- The daily cap on the points that an event type may give.
use sync_server.Prelude.{
  ℕ, ◌≤◌, ◌≡◌, refl, ◌⊎◌, inl, inr, String, true, false, some, ◌∷◌, arith, Bool-cases, str_eq_iff,
  filter,
}
use sync_server.Prelude.Int.{
  ℤ, pos, ◌+ℤ◌, ◌-ℤ◌, ◌≤ℤ◌, ◌<ℤ◌, i32_max, ltb_ℤ, sub32, wrap32, max_ℤ, clamp,
}
use sync_server.Store.{Database, Context}
use sync_server.Guild.Types.{GuildScoreEvent}
use sync_server.Guild.Events.{
  Applied, apply_cap, cap_remaining, positive_points_earned_today, sum_of_deltas, is_gain_today,
  day_start, is_clustered_vote,
}

pub earned_bounds :
    (ctx : Context) (user_id : ℕ) (event_type : String) (db : Database)
    → (pos 0 ≤ℤ positive_points_earned_today ctx user_id event_type db)
      × (positive_points_earned_today ctx user_id event_type db ≤ℤ pos i32_max)
unfolding positive_points_earned_today sum_of_deltas
earned_bounds ctx user_id event_type db = ground arith

-- The cap lets through no more than was judged, and not more than is left of the day.
pub apply_cap_bounds :
    (requested daily_cap earned : ℤ) (verdict : Applied)
    → pos 0 ≤ℤ daily_cap
    → daily_cap ≤ℤ pos i32_max
    → pos 0 ≤ℤ earned
    → earned ≤ℤ pos i32_max
    → pos 0 <ℤ requested
    → pos 0 ≤ℤ verdict.0
    → (pos 0 ≤ℤ (apply_cap requested (some daily_cap) earned verdict).0)
      × ((apply_cap requested (some daily_cap) earned verdict).0 ≤ℤ verdict.0)
      × (pos 0 <ℤ (apply_cap requested (some daily_cap) earned verdict).0
          → earned +ℤ (apply_cap requested (some daily_cap) earned verdict).0 ≤ℤ daily_cap)
unfolding apply_cap cap_remaining sub32 wrap32 ◌+ℤ◌ ◌-ℤ◌
apply_cap_bounds requested daily_cap earned verdict positive small low high asked judged =
    ground arith

clamped_sum :
    (total delta daily_cap : ℤ)
    → pos 0 <ℤ delta
    → daily_cap ≤ℤ pos i32_max
    → clamp total (pos 0) (pos i32_max) +ℤ delta ≤ℤ daily_cap
    → clamp (delta +ℤ total) (pos 0) (pos i32_max) ≤ℤ daily_cap
unfolding ◌+ℤ◌
clamped_sum total delta daily_cap positive small within = ground arith

-- An event that counts adds its points to those of the day.
pub earned_with :
    (ctx : Context) (user_id : ℕ) (event_type : String) (db : Database) (e : GuildScoreEvent)
    (daily_cap : ℤ)
    → is_gain_today ctx user_id event_type e ≡ true
    → pos 0 <ℤ e.delta
    → daily_cap ≤ℤ pos i32_max
    → positive_points_earned_today ctx user_id event_type db +ℤ e.delta ≤ℤ daily_cap
    → positive_points_earned_today ctx user_id event_type (record db { events = e ∷ db.events })
      ≤ℤ daily_cap
unfolding positive_points_earned_today sum_of_deltas
earned_with ctx user_id event_type db e daily_cap gain positive small within =
    rw gain (clamped_sum _ e.delta daily_cap positive small within)

-- Another event does not.
earned_without :
    (ctx : Context) (user_id : ℕ) (event_type : String) (db : Database) (e : GuildScoreEvent)
    → is_gain_today ctx user_id event_type e ≡ false
    → positive_points_earned_today ctx user_id event_type (record db { events = e ∷ db.events })
      ≡ positive_points_earned_today ctx user_id event_type db
unfolding positive_points_earned_today
earned_without ctx user_id event_type db e other = rw other refl

at_most_max : (a b c : ℤ) → (a ≡ b) ⊎ (a ≤ℤ c) → a ≤ℤ max_ℤ b c
at_most_max a b c h = ground arith

of_events :
    (ctx : Context) (user_id : ℕ) (event_type : String) (db db' : Database) (new : GuildScoreEvent)
    (bound : ℤ)
    → db'.events ≡ new ∷ db.events
    → positive_points_earned_today ctx user_id event_type (record db { events = new ∷ db.events })
      ≤ℤ bound
    → positive_points_earned_today ctx user_id event_type db' ≤ℤ bound
unfolding positive_points_earned_today
of_events ctx user_id event_type db db' new bound events h = rw events h

-- The points of the day after one more event: as before if it gives none, and else within the cap.
pub points_after :
    (ctx : Context) (user_id : ℕ) (event_type : String) (db db' : Database) (new : GuildScoreEvent)
    (daily_cap : ℤ)
    → new.user_id ≡ user_id
    → new.event_type ≡ event_type
    → day_start ctx.now ≤ new.created_at
    → daily_cap ≤ℤ pos i32_max
    → pos 0 ≤ℤ new.delta
    → (pos 0 <ℤ new.delta
        → positive_points_earned_today ctx user_id event_type db +ℤ new.delta ≤ℤ daily_cap)
    → db'.events ≡ new ∷ db.events
    → positive_points_earned_today ctx user_id event_type db'
      ≤ℤ max_ℤ (positive_points_earned_today ctx user_id event_type db) daily_cap
points_after ctx user_id event_type db db' new daily_cap u t d small low within events =
    let before = positive_points_earned_today ctx user_id event_type db in
    let after =
      positive_points_earned_today ctx user_id event_type
        (record db { events = new ∷ db.events }) in
    of_events ctx user_id event_type db db' new (max_ℤ before daily_cap) events (
      at_most_max after before daily_cap (elim (Bool-cases (ltb_ℤ (pos 0) new.delta)) [
        | inl gain ↦ inr (
            earned_with ctx user_id event_type db new daily_cap
              (ground (arith, str_eq_iff new.event_type event_type)) (ground arith) small
              (within (ground arith)))
        | inr none_gained ↦
            inl (earned_without ctx user_id event_type db new (ground (arith, none_gained)))
      ]))

-- What the day's rules read of the events.
module _ (ctx : Context) (user_id : ℕ) (event_type : String) (db db' : Database)
    (e : filter (is_gain_today ctx user_id event_type) db'.events
      ≡ filter (is_gain_today ctx user_id event_type) db.events) where
  pub earned_of_gains :
      positive_points_earned_today ctx user_id event_type db'
      ≡ positive_points_earned_today ctx user_id event_type db
  unfolding positive_points_earned_today
  earned_of_gains = rw e refl

  pub clustered_of_gains :
      is_clustered_vote ctx user_id event_type db' ≡ is_clustered_vote ctx user_id event_type db
  unfolding is_clustered_vote
  clustered_of_gains = rw e refl
