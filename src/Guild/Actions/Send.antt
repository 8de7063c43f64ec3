-- ===== src/Guild/Actions/Send.antt =====
-- `send_message_with_guild`: every outcome, and the limit over a day.
use sync_server.Prelude.{
  ℕ, ◌≡◌, refl, sym, ◌∙◌, ap, ◌⊎◌, inl, inr, String, true, false, Option, List, ◌∷◌, arith,
  Bool-cases,
}
use sync_server.Prelude.Int.{ℤ, pos, ◌+ℤ◌}
use sync_server.Errors.{AppError, Result, ok, err, panic, >>=-ok}
use sync_server.Store.{
  Database, Context, has_user, require_user_there, require_user_missing, has_user_of_users,
}
use sync_server.Guild.Types.{DailyActionCounter, GuildPolicyConfig, UserGuildStats, GuildSnapshot}
use sync_server.Guild.Policy.Valid.{IsValid}
use sync_server.Guild.Ranking.Select.{level_total, limits_total}
use sync_server.Guild.Activity.{date_naive}
use sync_server.Guild.Stats.{daily_action_count, load_guild_policy_conn}
use sync_server.Guild.Stats.Load.{loaded-IsValid}
use sync_server.Guild.Stats.Rows.{Became, Became-but}
use sync_server.Guild.Stats.Counters.{
  is_exhausted, increment_fails, count-increment_self, increment_runs, count_of_counters,
}
use sync_server.Guild.Snapshot.{outbound_message_limit_enforced, seconds_until_next_utc_day}
use sync_server.Guild.Snapshot.Bounds.{build_snapshot_total}
use sync_server.Guild.Actions.{
  Limited, SendMessageWithTrustResult, sent, limited, action_outbound_message, limit_reached,
  refuse, refusal_snapshot, insert_message_conn, has_message, require_new_message, new_message,
  deliver, message_limit, send_counted, begin_action, send_message_with_guild,
}
use sync_server.Guild.Actions.Begin.{StartsFrom, Counted, begin-Counted}

message_limit_total :
    (policy : GuildPolicyConfig) (row : UserGuildStats)
    → IsValid policy
    → (limit : Option ℤ) × (message_limit policy row ≡ ok limit)
unfolding message_limit
message_limit_total policy row v =
    let (l, is_level, _) = level_total policy row.active_days v in
    let (k, is_rank) = limits_total policy row.contribution_score v in
    (_, >>=-ok _ _ is_level (>>=-ok _ _ is_rank refl))

refusal_snapshot_total :
    (policy : GuildPolicyConfig) (row : UserGuildStats) (user_id today : ℕ) (db : Database)
    → IsValid policy
    → (s : GuildSnapshot) × (refusal_snapshot policy row user_id today db ≡ ok s)
unfolding refusal_snapshot
refusal_snapshot_total policy row user_id today db v = build_snapshot_total policy row _ _ _ _ _ v

-- A refusal changes nothing and cannot fail.
pub refuse_total :
    (ctx : Context) (policy : GuildPolicyConfig) (row : UserGuildStats) (user_id : ℕ)
    (db : Database)
    → IsValid policy
    → (x : Limited) × (refuse ctx policy row user_id db ≡ (ok x, db))
      × (x.retry_after_seconds ≡ seconds_until_next_utc_day ctx.now)
unfolding refuse
refuse_total ctx policy row user_id db v =
    let (s, built) = refusal_snapshot_total policy row user_id (date_naive ctx.now) db v in
    (record { guild = s; retry_after_seconds = seconds_until_next_utc_day ctx.now }, rw built, refl)

message_accepted :
    (id : ℕ) (db : Database) → has_message id db ≡ false → require_new_message id db ≡ (ok tt, db)
unfolding require_new_message
message_accepted id db new = rw new refl

message_refused :
    (id : ℕ) (db : Database)
    → has_message id db ≡ true
    → require_new_message id db ≡ (err AppError.database, db)
unfolding require_new_message
message_refused id db taken = rw taken refl

module _ (ctx : Context) (sender recipient : ℕ) (content : String) where
  abbrev today : ℕ
  today = date_naive ctx.now

  abbrev sent_count : Database → ℤ
  sent_count = daily_action_count sender action_outbound_message today

  -- What the database refuses.
  abbrev pub Refused : Database → Type 0
  Refused db =
      (has_message ctx.new_id db ≡ true)
      ⊎ (has_user recipient db ≡ false)
      ⊎ (is_exhausted (sent_count db) ≡ true)

  -- The outcome of a call on `db`, for a user whose row was counted into `row'` with the daily
  -- limit `limit`: a message was stored and counted while the limit was not reached; or the limit
  -- was reached, and nothing was stored or counted; or the database refused, for an unknown recipient,
  -- an identifier that is in use or a counter that is full, and nothing at all has changed. Where the
  -- call was answered, the user's row is `row'`, and nothing but the audit log has changed besides.
  abbrev pub Outcome :
      GuildPolicyConfig
      → Option ℤ
      → UserGuildStats
      → Database
      → Result SendMessageWithTrustResult × Database
      → Type 0
  Outcome policy limit row' db (ok (sent m), db') =
      (limit_reached (outbound_message_limit_enforced policy) limit (sent_count db) ≡ false)
      × (m ≡ new_message ctx sender recipient content)
      × (db'.messages ≡ m ∷ db.messages)
      × (sent_count db' ≡ sent_count db +ℤ pos 1)
      × Became db sender row' (record db' { messages = db.messages; counters = db.counters })
  Outcome policy limit row' db (ok (limited x), db') =
      (limit_reached (outbound_message_limit_enforced policy) limit (sent_count db) ≡ true)
      × (x.retry_after_seconds ≡ seconds_until_next_utc_day ctx.now)
      × Became db sender row' db'
  Outcome policy limit row' db (err e, db') = Refused db × (db' ≡ db)
  Outcome policy limit row' db (panic, db') = ⊥

  abbrev with_message : Database → Database
  with_message db = record db { messages = new_message ctx sender recipient content ∷ db.messages }

  same_with : (db : Database) → sent_count (with_message db) ≡ sent_count db
  same_with db = count_of_counters sender action_outbound_message today db (with_message db) refl

  insert_runs :
      (db : Database)
      → has_message ctx.new_id db ≡ false
      → has_user sender db ≡ true
      → has_user recipient db ≡ true
      → insert_message_conn ctx sender recipient content db
        ≡ (ok (new_message ctx sender recipient content), with_message db)
  unfolding insert_message_conn
  insert_runs db new s r = ground (
    arith,
    message_accepted ctx.new_id db new,
    require_user_there sender db s,
    require_user_there recipient db r,
  )

  deliver_runs :
      (db : Database)
      → has_message ctx.new_id db ≡ false
      → has_user sender db ≡ true
      → has_user recipient db ≡ true
      → is_exhausted (sent_count db) ≡ false
      → (counters : List DailyActionCounter) × (deliver ctx sender recipient content db ≡ (
        ok (sent (new_message ctx sender recipient content)),
        record (with_message db) { counters = counters },
      ))
        × (sent_count (record (with_message db) { counters = counters }) ≡ sent_count db +ℤ pos 1)
  unfolding deliver
  deliver_runs db new s r free =
      let db₁ = with_message db in
      let s₁ = has_user_of_users sender db db₁ refl ∙ s in
      let free₁ = ap is_exhausted (same_with db) ∙ free in
      let counted = increment_runs sender action_outbound_message today db₁ s₁ free₁ in
      (
        _,
        ground (arith, insert_runs db new s r, counted),
        sym (ap (λ (r : Result (Unit {0}) × Database). sent_count r.1) counted)
            ∙ count-increment_self sender action_outbound_message today db₁ s₁ free₁
            ∙ ap (λ n. n +ℤ pos 1) (same_with db),
      )

  deliver_fails :
      (db : Database)
      → has_user sender db ≡ true
      → Refused db
      → deliver ctx sender recipient content db
        ≡ (err AppError.database, (deliver ctx sender recipient content db).1)
  unfolding deliver insert_message_conn
  deliver_fails db s (inl taken) = ground (arith, message_refused ctx.new_id db taken)
  deliver_fails db s (inr (inl stranger)) = elim (Bool-cases (has_message ctx.new_id db)) [
    | inl taken ↦ ground (arith, message_refused ctx.new_id db taken)
    | inr new ↦ ground (
      arith,
      message_accepted ctx.new_id db new,
      require_user_there sender db s,
      require_user_missing recipient db stranger,
    )
  ]
  deliver_fails db s (inr (inr full)) = elim (Bool-cases (has_message ctx.new_id db)) [
    | inl taken ↦ ground (arith, message_refused ctx.new_id db taken)
    | inr new ↦ elim (Bool-cases (has_user recipient db)) [
      | inr stranger ↦ ground (
        arith,
        message_accepted ctx.new_id db new,
        require_user_there sender db s,
        require_user_missing recipient db stranger,
      )
      | inl r ↦ ground (
        arith,
        message_accepted ctx.new_id db new,
        require_user_there sender db s,
        require_user_there recipient db r,
        increment_fails sender action_outbound_message today (with_message db)
            (ap is_exhausted (same_with db) ∙ full),
      )
    ]
  ]

  -- Either the database refuses, or nothing stands in the way.
  Refused-cases :
      (db : Database)
      → Refused db
        ⊎ ((has_message ctx.new_id db ≡ false)
            × (has_user recipient db ≡ true)
            × (is_exhausted (sent_count db) ≡ false))
  Refused-cases db = elim (Bool-cases (has_message ctx.new_id db)) [
    | inl taken ↦ inl (inl taken)
    | inr new ↦ elim (Bool-cases (has_user recipient db)) [
      | inr stranger ↦ inl (inr (inl stranger))
      | inl r ↦ elim (Bool-cases (is_exhausted (sent_count db))) [
        | inl full ↦ inl (inr (inr full))
        | inr free ↦ inr (new, r, free)
      ]
    ]
  ]

  module _ (policy : GuildPolicyConfig) (v : IsValid policy) (row : UserGuildStats)
      (limit : Option ℤ) (is_limit : message_limit policy row ≡ ok limit) (db db₁ : Database)
      (run : begin_action ctx sender db ≡ (ok (policy, row), db₁)) (b : Became db sender row db₁)
      (s : has_user sender db ≡ true) where
    same_count : sent_count db₁ ≡ sent_count db
    same_count = count_of_counters sender action_outbound_message today db db₁ b.counters

    same_messages : has_message ctx.new_id db₁ ≡ has_message ctx.new_id db
    unfolding has_message
    same_messages = rw b.messages refl

    still-Refused : Refused db → Refused db₁
    still-Refused (inl taken) = inl (same_messages ∙ taken)
    still-Refused (inr (inl stranger)) =
        inr (inl (has_user_of_users recipient db db₁ b.users ∙ stranger))
    still-Refused (inr (inr full)) = inr (inr (ap is_exhausted same_count ∙ full))

    Outcome-full :
        limit_reached (outbound_message_limit_enforced policy) limit (sent_count db₁) ≡ true
        → Outcome policy limit row db (send_message_with_guild ctx sender recipient content db)
    unfolding send_message_with_guild send_counted
    Outcome-full full =
        let (x, refused, wait) = refuse_total ctx policy row sender db₁ v in
        let e : send_message_with_guild ctx sender recipient content db ≡ (ok (limited x), db₁) =
          ground (arith, run, is_limit, refused) in
        rw e (rw same_count at full, wait, b)

    Outcome-Refused :
        limit_reached (outbound_message_limit_enforced policy) limit (sent_count db₁) ≡ false
        → Refused db
        → Outcome policy limit row db (send_message_with_guild ctx sender recipient content db)
    unfolding send_message_with_guild send_counted
    Outcome-Refused room refused =
        let s₁ = has_user_of_users sender db db₁ b.users ∙ s in
        let e : send_message_with_guild ctx sender recipient content db
            ≡ (err AppError.database, db) =
          ground (arith, run, is_limit, deliver_fails db₁ s₁ (still-Refused refused)) in
        rw e (refused, refl)

    Outcome-sent :
        limit_reached (outbound_message_limit_enforced policy) limit (sent_count db₁) ≡ false
        → has_message ctx.new_id db ≡ false
        → has_user recipient db ≡ true
        → is_exhausted (sent_count db) ≡ false
        → Outcome policy limit row db (send_message_with_guild ctx sender recipient content db)
    unfolding send_message_with_guild send_counted
    Outcome-sent room new r free =
        let s₁ = has_user_of_users sender db db₁ b.users ∙ s in
        let r₁ = has_user_of_users recipient db db₁ b.users ∙ r in
        let (counters, done, counted) =
          deliver_runs db₁ (same_messages ∙ new) s₁ r₁ (ap is_exhausted same_count ∙ free) in
        let m = new_message ctx sender recipient content in
        let e : send_message_with_guild ctx sender recipient content db
            ≡ (ok (sent m), record (with_message db₁) { counters = counters }) =
          ground (arith, run, is_limit, done) in
        rw e (
          rw same_count at room,
          refl,
          ap (λ l. m ∷ l) b.messages,
          counted ∙ ap (λ n. n +ℤ pos 1) same_count,
          Became-but db.messages refl b,
        )

    Outcome-room :
        limit_reached (outbound_message_limit_enforced policy) limit (sent_count db₁) ≡ false
        → Outcome policy limit row db (send_message_with_guild ctx sender recipient content db)
    Outcome-room room = elim (Refused-cases db) [
      | inl refused ↦ Outcome-Refused room refused
      | inr (new, r, free) ↦ Outcome-sent room new r free
    ]

-- A call of a user that is there, under the policy that is loaded, has one of three outcomes. With
-- the limit that the policy gives the user's counted row: below the limit, or where limits are not
-- enforced, the message is stored and counted once; at the limit nothing is stored or counted and
-- the answer says how long to wait; for an unknown recipient, an identifier that is in use or a
-- counter that can count no further there is an error and nothing has changed. Where the call is
-- answered, the counted row is stored, and nothing else has changed but the audit log. It never
-- panics.
pub send-Outcome :
    (ctx : Context) (policy : GuildPolicyConfig) (sender recipient : ℕ) (content : String)
    (db : Database) (row : UserGuildStats)
    → (load_guild_policy_conn ctx db).0 ≡ ok policy
    → StartsFrom policy sender db row
    → has_user sender db ≡ true
    → (row' : UserGuildStats) × Counted policy (date_naive ctx.now) ctx.now row row'
      × (limit : Option ℤ) × (message_limit policy row' ≡ ok limit)
      × Outcome ctx sender recipient content policy limit row' db
          (send_message_with_guild ctx sender recipient content db)
send-Outcome ctx policy sender recipient content db row loaded start s =
    let v = loaded-IsValid ctx db policy loaded in
    let (row', db₁, run, b, counted) = begin-Counted ctx policy sender db row loaded start in
    let (limit, is_limit) = message_limit_total policy row' v in
    (
      row',
      counted,
      limit,
      is_limit,
      elim (Bool-cases (
          limit_reached (outbound_message_limit_enforced policy) limit
            (daily_action_count sender action_outbound_message (date_naive ctx.now) db₁))) [
              | inl full ↦
                  Outcome-full ctx sender recipient content policy v row' limit is_limit db db₁ run
                    b s full
              | inr room ↦
                  Outcome-room ctx sender recipient content policy v row' limit is_limit db db₁ run
                    b s room
            ],
    )
