-- ===== src/Moderation/Restricting.antt =====
-- The temporary restriction of a user to his contacts, and what it does to his messages.
use sync_server.Prelude.{
  ℕ, ◌+◌, ◌≤◌, ◌<◌, ◌≡◌, refl, ◌∙◌, true, not, some, arith, inl, inr, Option-cases,
}
use sync_server.Prelude.Int.{pos, add32}
use sync_server.Errors.{ok}
use sync_server.Store.{Database, Context, User, row_of, row_of-update_row}
use sync_server.Moderation.Blocks.{
  days, is_later, update_user, has_prior_contact, is_new_dm_contact_restricted,
}
use sync_server.Moderation.Review.{effective_until, restrict, apply_temporary_dm_restriction_conn}

module _ (ctx : Context) (id : ℕ) (db : Database) (user : User)
    (there : row_of User.id id db.users ≡ some user) where
  abbrev until : ℕ
  until = effective_until (ctx.now + days 7) user.dm_restricted_until

  abbrev written : User → User
  written row = record row {
    dm_restricted_until = (restrict ctx.now user).dm_restricted_until;
    safety_warning_count = (restrict ctx.now user).safety_warning_count;
  }

  abbrev after_restriction : Database
  after_restriction = update_user id written db

  restriction_runs : apply_temporary_dm_restriction_conn ctx id db ≡ (ok tt, after_restriction)
  unfolding apply_temporary_dm_restriction_conn
  restriction_runs = ground arith

  restricted_row : row_of User.id id after_restriction.users ≡ some (restrict ctx.now user)
  unfolding update_user restrict
  restricted_row = row_of-update_row User.id id id written db.users (λ _. refl) ∙ ground arith

  until_is_late : ctx.now + days 7 ≤ until
  unfolding effective_until
  until_is_late = elim (Option-cases user.dm_restricted_until) [
    | inl free ↦ ground arith
    | inr (current, runs) ↦ ground arith
  ]

  still_runs : (t : ℕ) → is_later t user.dm_restricted_until ≡ true → t < until
  unfolding effective_until
  still_runs t runs = elim (Option-cases user.dm_restricted_until) [
    | inl free ↦ absurd (ground arith)
    | inr (current, until_then) ↦ ground arith
  ]

  limited_until :
      (later : Context) (recipient : ℕ)
      → later.now < until
      → is_new_dm_contact_restricted later id recipient after_restriction
        ≡ (ok (not (has_prior_contact id recipient after_restriction)), after_restriction)
  unfolding is_new_dm_contact_restricted restrict
  limited_until later recipient soon = ground (arith, restricted_row)

  -- The restriction of a user who is there succeeds: one warning more is counted, he is limited for seven
  -- days at least, and for as long as an earlier limit would have lasted; and as long as the seven days
  -- run, the check for new contacts passes exactly those with whom he has a message that is not deleted.
  pub restricted_for_days :
      (later : Context) (recipient : ℕ)
      → later.now < ctx.now + days 7
      → (db' : Database) × (end : ℕ) × (apply_temporary_dm_restriction_conn ctx id db
          ≡ (ok tt, db'))
        × (row_of User.id id db'.users
            ≡ some (record user {
              dm_restricted_until = some end;
              safety_warning_count = add32 user.safety_warning_count (pos 1);
            }))
        × (ctx.now + days 7 ≤ end)
        × ((t : ℕ) → is_later t user.dm_restricted_until ≡ true → t < end)
        × (is_new_dm_contact_restricted later id recipient db'
            ≡ (ok (not (has_prior_contact id recipient db)), db'))
  unfolding restrict has_prior_contact update_user
  restricted_for_days later recipient soon = (
    after_restriction,
    until,
    restriction_runs,
    restricted_row,
    until_is_late,
    still_runs,
    limited_until later recipient (ground (arith, until_is_late)),
  )
