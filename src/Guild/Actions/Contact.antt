-- ===== src/Guild/Actions/Contact.antt =====
-- `resolve_contact_with_guild`: every outcome.
use sync_server.Prelude.{
  ℕ, ◌≡◌, refl, sym, ◌∙◌, ap, ◌⊎◌, inl, inr, Bool, true, false, Option, none, some, arith,
  Bool-cases, find?, ◌==◌,
}
use sync_server.Prelude.Int.{ℤ, pos, ◌+ℤ◌}
use sync_server.Errors.{error_response, AppError, Result, ok, err, panic, >>=-ok}
use sync_server.Store.{Database, Context, User, has_user}
use sync_server.Guild.Types.{GuildPolicyConfig, UserGuildStats}
use sync_server.Guild.Policy.Valid.{IsValid}
use sync_server.Guild.Ranking.Select.{level_total, limits_total}
use sync_server.Guild.Activity.{date_naive}
use sync_server.Guild.Stats.{is_counter, daily_action_count, load_guild_policy_conn}
use sync_server.Guild.Stats.Load.{loaded-IsValid}
use sync_server.Guild.Stats.Rows.{Became, Became-but}
use sync_server.Guild.Stats.Counters.{
  is_exhausted, counters_after, increment_fails, count-increment_self, increment_runs,
  count_of_counters,
}
use sync_server.Guild.Snapshot.{friend_add_limit_enforced, seconds_until_next_utc_day}
use sync_server.Guild.Actions.{
  ResolveContactWithTrustResult, allowed, limited, action_friend_add, limit_reached, friend_limit,
  limit_if, has_yellow_card, reject_carded, admit, resolve_counted, begin_action,
  resolve_contact_with_guild,
}
use sync_server.Guild.Actions.Begin.{StartsFrom, Counted, begin-Counted}
use sync_server.Guild.Actions.Send.{refuse_total}

friend_limit_total :
    (policy : GuildPolicyConfig) (row : UserGuildStats) (enforced : Bool)
    → IsValid policy
    → (limit : Option ℤ) × (limit_if enforced (friend_limit policy row) ≡ ok limit)
unfolding friend_limit limit_if
friend_limit_total policy row false v = (none, refl)
friend_limit_total policy row true v =
    let (l, is_level, _) = level_total policy row.active_days v in
    let (k, is_rank) = limits_total policy row.contribution_score v in
    (_, >>=-ok _ _ is_level (>>=-ok _ _ is_rank refl))

module _ (ctx : Context) (user_id : ℕ) where
  abbrev adds : Database → ℤ
  adds = daily_action_count user_id action_friend_add (date_naive ctx.now)

  -- The outcome of a call on `db`, for a user whose row was counted into `row'`: with a yellow card,
  -- or below the limit with a counter that is full, the call is refused and nothing at all has
  -- changed; below the limit the contact is allowed and counted; at the limit nothing is counted.
  -- Where the call is answered, the user's row is `row'`, and nothing but the audit log has changed
  -- besides.
  abbrev pub Admission :
      GuildPolicyConfig
      → Option ℤ
      → User
      → UserGuildStats
      → Database
      → Result ResolveContactWithTrustResult × Database
      → Type 0
  Admission policy limit user row' db (ok allowed, db') =
      (has_yellow_card user ctx.now ≡ false)
      × (limit_reached (friend_add_limit_enforced policy) limit (adds db) ≡ false)
      × (adds db' ≡ adds db +ℤ pos 1)
      × Became db user_id row' (record db' { counters = db.counters })
  Admission policy limit user row' db (ok (limited x), db') =
      (has_yellow_card user ctx.now ≡ false)
      × (limit_reached (friend_add_limit_enforced policy) limit (adds db) ≡ true)
      × (x.retry_after_seconds ≡ seconds_until_next_utc_day ctx.now)
      × Became db user_id row' db'
  Admission policy limit user row' db (err e, db') =
      (((has_yellow_card user ctx.now ≡ true) × (error_response e ≡ 400))
        ⊎ ((has_yellow_card user ctx.now ≡ false)
            × (limit_reached (friend_add_limit_enforced policy) limit (adds db) ≡ false)
            × (is_exhausted (adds db) ≡ true)
            × (error_response e ≡ 500)))
      × (db' ≡ db)
  Admission policy limit user row' db (panic, db') = ⊥

  module _ (policy : GuildPolicyConfig) (v : IsValid policy) (row : UserGuildStats)
      (limit : Option ℤ)
      (is_limit : limit_if (friend_add_limit_enforced policy) (friend_limit policy row) ≡ ok limit)
      (db db₁ : Database) (run : begin_action ctx user_id db ≡ (ok (policy, row), db₁))
      (b : Became db user_id row db₁) (user : User)
      (found : find? (λ u. u.id == user_id) db.users ≡ some user) where
    found₁ : find? (λ u. u.id == user_id) db₁.users ≡ some user
    found₁ = ap (find? (λ u. u.id == user_id)) b.users ∙ found

    there : has_user user_id db₁ ≡ true
    unfolding has_user
    there = rw (found₁, has_user)

    same_adds : adds db₁ ≡ adds db
    same_adds = count_of_counters user_id action_friend_add (date_naive ctx.now) db db₁ b.counters

    carded :
        has_yellow_card user ctx.now ≡ true
        → Admission policy limit user row db (resolve_contact_with_guild ctx user_id db)
    unfolding resolve_contact_with_guild resolve_counted reject_carded error_response
    carded card =
        let e : resolve_contact_with_guild ctx user_id db ≡ (
          err (
              AppError.bad_request
                "Your account has a temporary restriction and cannot add contacts at this time."),
          db,
        ) =
          ground (arith, run, found₁, card) in
        rw e (inl (card, refl), refl)

    full :
        has_yellow_card user ctx.now ≡ false
        → limit_reached (friend_add_limit_enforced policy) limit (adds db₁) ≡ true
        → Admission policy limit user row db (resolve_contact_with_guild ctx user_id db)
    unfolding resolve_contact_with_guild resolve_counted reject_carded
    full free reached =
        let (x, refused, wait) = refuse_total ctx policy row user_id db₁ v in
        let e : resolve_contact_with_guild ctx user_id db ≡ (ok (limited x), db₁) =
          ground (arith, run, found₁, free, is_limit, reached, refused) in
        rw e (free, rw same_adds at reached, wait, b)

    room :
        has_yellow_card user ctx.now ≡ false
        → limit_reached (friend_add_limit_enforced policy) limit (adds db₁) ≡ false
        → is_exhausted (adds db₁) ≡ false
        → Admission policy limit user row db (resolve_contact_with_guild ctx user_id db)
    unfolding resolve_contact_with_guild resolve_counted reject_carded admit
    room free below left =
        let counted =
          increment_runs user_id action_friend_add (date_naive ctx.now) db₁ there left in
        let db₂ : Database = record db₁ {
          counters =
              counters_after user_id action_friend_add (date_naive ctx.now) db₁
                (find? (is_counter user_id action_friend_add (date_naive ctx.now)) db₁.counters);
        } in
        let e : resolve_contact_with_guild ctx user_id db ≡ (ok allowed, db₂) =
          ground (arith, run, found₁, free, is_limit, below, counted) in
        rw e (
          free,
          rw same_adds at below,
          sym (ap (λ (r : Result (Unit {0}) × Database). adds r.1) counted)
              ∙ count-increment_self user_id action_friend_add (date_naive ctx.now) db₁ there left
              ∙ ap (λ n. n +ℤ pos 1) same_adds,
          Became-but db₁.messages b.messages b,
        )

    exhausted :
        has_yellow_card user ctx.now ≡ false
        → limit_reached (friend_add_limit_enforced policy) limit (adds db₁) ≡ false
        → is_exhausted (adds db₁) ≡ true
        → Admission policy limit user row db (resolve_contact_with_guild ctx user_id db)
    unfolding resolve_contact_with_guild resolve_counted reject_carded admit error_response
    exhausted free below spent =
        let e : resolve_contact_with_guild ctx user_id db ≡ (err AppError.database, db) = ground (
          arith,
          run,
          found₁,
          free,
          is_limit,
          below,
          increment_fails user_id action_friend_add (date_naive ctx.now) db₁ spent,
        ) in
        rw e (inr (free, rw same_adds at below, rw same_adds at spent, refl), refl)

-- Every outcome of resolving a contact for a user who is there. The activity is counted in the
-- user's row first, in the same transaction. With a yellow card that has not expired the answer is
-- a bad request and nothing has changed; below the limit, or where limits are not enforced, the
-- contact is allowed and counted once, unless the counter can count no further, which is an error
-- that changes nothing; at the limit nothing is counted and the answer says how long to wait. Where
-- the call is answered, the counted row is stored, and nothing else has changed but the audit log.
-- It never panics.
pub resolve-Admission :
    (ctx : Context) (policy : GuildPolicyConfig) (user_id : ℕ) (db : Database)
    (row : UserGuildStats) (user : User)
    → (load_guild_policy_conn ctx db).0 ≡ ok policy
    → StartsFrom policy user_id db row
    → find? (λ u. u.id == user_id) db.users ≡ some user
    → (row' : UserGuildStats) × Counted policy (date_naive ctx.now) ctx.now row row'
      × (limit : Option ℤ) × (limit_if (friend_add_limit_enforced policy) (friend_limit policy row')
          ≡ ok limit)
      × Admission ctx user_id policy limit user row' db (resolve_contact_with_guild ctx user_id db)
resolve-Admission ctx policy user_id db row user loaded start found =
    let v = loaded-IsValid ctx db policy loaded in
    let (row', db₁, run, b, counted) = begin-Counted ctx policy user_id db row loaded start in
    let (limit, is_limit) = friend_limit_total policy row' (friend_add_limit_enforced policy) v in
    (
      row',
      counted,
      limit,
      is_limit,
      elim (Bool-cases (has_yellow_card user ctx.now)) [
        | inl card ↦ carded ctx user_id policy v row' limit is_limit db db₁ run b user found card
        | inr free ↦
            elim (Bool-cases (
              limit_reached (friend_add_limit_enforced policy) limit
                (daily_action_count user_id action_friend_add (date_naive ctx.now) db₁))) [
                  | inl reached ↦
                      full ctx user_id policy v row' limit is_limit db db₁ run b user found free
                        reached
                  | inr below ↦
                      elim (Bool-cases (
                        is_exhausted (
                          daily_action_count user_id action_friend_add (date_naive ctx.now) db₁))) [
                            | inl spent ↦
                                exhausted ctx user_id policy v row' limit is_limit db db₁ run b user
                                  found free below spent
                            | inr left ↦
                                room ctx user_id policy v row' limit is_limit db db₁ run b user
                                  found free below left
                          ]
                ]
      ],
    )
