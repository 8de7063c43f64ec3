-- ===== src/Moderation/Messaging.antt =====
-- Who may write to whom.
use sync_server.Prelude.{
  ℕ, ◌≡◌, refl, sym, ap, ◌∙◌, ◌↔◌, inl, inr, Bool, true, false, not, ◌&&◌, ◌||◌, none, some, List,
  [], ◌∷◌, arith, leb, any, if◌then◌else◌, Option-cases,
}
use sync_server.Errors.{AppError, Result, ok, err}
use sync_server.Store.{Database, Context, User, row_of}
use sync_server.Moderation.Types.{UserBlock}
use sync_server.Moderation.Blocks.{
  is_block_of, is_user_blocked, is_block_active_between, ensure_no_block_between,
  ensure_no_yellow_card, is_new_dm_contact_restricted, ensure_direct_message_allowed, is_later,
  has_prior_contact, open_report_count, yellow_card_message, safety_review_message,
}

pub is_block_active_between_lem :
    (a b : ℕ) (db : Database)
    → is_block_active_between a b db ≡ is_user_blocked a b db || is_user_blocked b a db
unfolding is_block_active_between is_user_blocked
is_block_active_between_lem a b db = either db.blocks
  where
    either :
        (blocks : List UserBlock)
        → any (λ block. is_block_of a b block || is_block_of b a block) blocks
          ≡ any (is_block_of a b) blocks || any (is_block_of b a) blocks
    either [] = refl
    either (x ∷ xs) = ground (arith, either xs)

module _ (ctx : Context) (sender recipient : ℕ) (db : Database) where
  -- The sender is held to his contacts: by a moderator for now, or by two open reports of a week.
  abbrev pub is_limited : User → Bool
  is_limited user =
      is_later ctx.now user.dm_restricted_until || leb 2 (open_report_count ctx.now sender db)

  -- What has to hold for a message.
  abbrev pub MayWrite : Type 0
  MayWrite =
      (user : User) × (row_of User.id sender db.users ≡ some user)
      × (is_later ctx.now user.yellow_card_expires_at ≡ false)
      × (is_user_blocked sender recipient db ≡ false)
      × (is_user_blocked recipient sender db ≡ false)
      × (is_limited user && not (has_prior_contact sender recipient db) ≡ false)

  module _ (user : User) (there : row_of User.id sender db.users ≡ some user) where
    no_card : ensure_no_yellow_card ctx sender db ≡ (
      if is_later ctx.now user.yellow_card_expires_at
          then err (AppError.bad_request yellow_card_message)
          else ok tt,
      db,
    )
    unfolding ensure_no_yellow_card
    no_card = ground arith

    no_block : ensure_no_block_between sender recipient db ≡ (
      if is_user_blocked sender recipient db || is_user_blocked recipient sender db
          then err AppError.forbidden
          else ok tt,
      db,
    )
    unfolding ensure_no_block_between
    no_block = ground (arith, is_block_active_between_lem sender recipient db)

    restricted :
        is_new_dm_contact_restricted ctx sender recipient db
        ≡ (ok (is_limited user && not (has_prior_contact sender recipient db)), db)
    unfolding is_new_dm_contact_restricted
    restricted = ground arith

    -- The answer, from what the three checks find.
    abbrev verdict : Bool → Bool → Bool → Result (Unit {0})
    verdict card block limited =
        if card
        then err (AppError.bad_request yellow_card_message)
        else if block
        then err AppError.forbidden
        else if limited
        then err (AppError.bad_request safety_review_message)
        else ok tt

    decide :
        (card block limited : Bool)
        → ensure_no_yellow_card ctx sender db
          ≡ (if card then err (AppError.bad_request yellow_card_message) else ok tt, db)
        → ensure_no_block_between sender recipient db
          ≡ (if block then err AppError.forbidden else ok tt, db)
        → is_new_dm_contact_restricted ctx sender recipient db ≡ (ok limited, db)
        → ensure_direct_message_allowed ctx sender recipient db ≡ (verdict card block limited, db)
    unfolding ensure_direct_message_allowed
    decide true block limited c b l = ground arith
    decide false true limited c b l = ground arith
    decide false false true c b l = ground arith
    decide false false false c b l = ground arith

    decided : ensure_direct_message_allowed ctx sender recipient db ≡ (
      verdict
          (is_later ctx.now user.yellow_card_expires_at)
          (is_user_blocked sender recipient db || is_user_blocked recipient sender db)
          (is_limited user && not (has_prior_contact sender recipient db)),
      db,
    )
    decided = decide _ _ _ no_card no_block restricted

    verdict-eq-ok :
        (card blocked blocks limited : Bool)
        → verdict card (blocked || blocks) limited ≡ ok tt
        → (card ≡ false) × (blocked ≡ false) × (blocks ≡ false) × (limited ≡ false)
    verdict-eq-ok card blocked blocks limited h = ground arith

    passing_user : ensure_direct_message_allowed ctx sender recipient db ≡ (ok tt, db) → MayWrite
    passing_user passed =
        let (card, blocked, blocks, free) =
          verdict-eq-ok _ _ _ _ (ap (λ p. p.0) (sym decided ∙ passed)) in
        (user, there, card, blocked, blocks, free)

    may_pass :
        is_later ctx.now user.yellow_card_expires_at ≡ false
        → is_user_blocked sender recipient db ≡ false
        → is_user_blocked recipient sender db ≡ false
        → is_limited user && not (has_prior_contact sender recipient db) ≡ false
        → ensure_direct_message_allowed ctx sender recipient db ≡ (ok tt, db)
    may_pass card blocked blocks free =
        decided ∙ λ i. (verdict (card i) (blocked i || blocks i) (free i), db)

  no_stranger :
      row_of User.id sender db.users ≡ none
      → ensure_direct_message_allowed ctx sender recipient db ≡ (err AppError.not_found, db)
  unfolding ensure_direct_message_allowed ensure_no_yellow_card
  no_stranger missing = ground arith

  -- A direct message is allowed exactly if the sender is a user without a yellow card that still runs,
  -- neither of the two has blocked the other, and the sender is not limited to his contacts, by a
  -- moderator for now or by two open reports of the last seven days, or has a message with the
  -- recipient that is not deleted. The check changes nothing.
  pub direct_message_iff :
      (ensure_direct_message_allowed ctx sender recipient db ≡ (ok tt, db)) ↔ MayWrite
  direct_message_iff = (
    λ passed. elim (Option-cases (row_of User.id sender db.users)) [
      | inl missing ↦ absurd (ground (arith, no_stranger missing))
      | inr (user, there) ↦ passing_user user there passed
    ],
    λ (user, there, card, blocked, blocks, free). may_pass user there card blocked blocks free,
  )
