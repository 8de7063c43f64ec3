-- ===== src/Guild/Actions/Attach.antt =====
-- `run_attachment_action_with_guild`: every outcome.
use sync_server.Prelude.{
  ℕ, ◌≡◌, refl, sym, ap, ◌∙◌, ◌⊎◌, inl, inr, String, Bool, true, false, Option, List, arith, ◌&&◌,
  not, Bool-cases,
}
use sync_server.Prelude.Int.{ℤ, pos, ◌+ℤ◌}
use sync_server.Prelude.Text.{clean}
use sync_server.Errors.{AppError, Result, ok, err, panic, >>=-ok}
use sync_server.Store.{
  Database, Context, Action, transaction_of_ok, has_user, has_user_of_users, transaction,
}
use sync_server.Guild.Types.{DailyActionCounter, GuildPolicyConfig, UserGuildStats, GuildSnapshot}
use sync_server.Guild.Policy.Valid.{IsValid}
use sync_server.Guild.Ranking.Select.{level_total, limits_total}
use sync_server.Guild.Activity.{date_naive}
use sync_server.Guild.Stats.{daily_action_count, load_guild_policy_conn}
use sync_server.Guild.Stats.Load.{loaded-IsValid}
use sync_server.Guild.Stats.Rows.{Became}
use sync_server.Guild.Stats.Counters.{
  is_exhausted, increment_fails, count-increment_self, increment_runs,
}
use sync_server.Guild.Snapshot.{
  attachment_send_limit_enforced, attachment_type_allowed, seconds_until_next_utc_day,
}
use sync_server.Guild.Actions.{
  Limited, AttachmentActionWithTrustResult, completed, limited, unsupported_mime,
  action_attachment_send, limit_reached, attachment_limit, attach, attach_limited, attach_counted,
  begin_action, run_attachment_action_with_guild,
}
use sync_server.Guild.Actions.Begin.{StartsFrom, Counted, begin-Counted}
use sync_server.Guild.Actions.Send.{refuse_total}

attachment_limit_total :
    (policy : GuildPolicyConfig) (row : UserGuildStats)
    → IsValid policy
    → (limit : Option ℤ) × (attachment_limit policy row ≡ ok limit)
unfolding attachment_limit
attachment_limit_total policy row v =
    let (l, is_level, _) = level_total policy row.active_days v in
    let (k, is_rank) = limits_total policy row.contribution_score v in
    (_, >>=-ok _ _ is_level (>>=-ok _ _ is_rank refl))

-- The type is refused: limits are enforced and the policy does not list it.
abbrev pub is_refused : GuildPolicyConfig → String → Bool
is_refused policy mime_type =
    attachment_send_limit_enforced policy && not (attachment_type_allowed policy (clean mime_type))

module _ {T : Type 0} (ctx : Context) (user_id : ℕ) (operation : Action T) where
  abbrev sends : Database → ℤ
  sends = daily_action_count user_id action_attachment_send (date_naive ctx.now)

  -- What became of the operation: its value, counted once; or an error, with nothing changed, where
  -- the counter is full; or its failure, with nothing changed.
  abbrev pub Completion :
      Database
      → Result T × Database
      → Result (AttachmentActionWithTrustResult T) × Database
      → Type 0
  Completion db (ok value, db₂) r =
      ((is_exhausted (sends db₂) ≡ false)
        × (db' : Database) × (r ≡ (ok (completed value), db'))
        × (sends db' ≡ sends db₂ +ℤ pos 1)
        × (record db' { counters = db₂.counters } ≡ db₂))
      ⊎ ((is_exhausted (sends db₂) ≡ true) × (r ≡ (err AppError.database, db)))
  Completion db (err e, db₂) r = r ≡ (err e, db)
  Completion db (panic, db₂) r = r ≡ (panic, db)

  -- The outcome of a call on `db` whose activity was counted in `db₁`.
  abbrev pub Attached :
      GuildPolicyConfig
      → Option ℤ
      → String
      → Database
      → Database
      → Result (AttachmentActionWithTrustResult T) × Database
      → Type 0
  Attached policy limit mime_type db db₁ r =
      ((is_refused policy mime_type ≡ true)
        × (s : GuildSnapshot) × (r ≡ (ok (unsupported_mime s), db₁)))
      ⊎ ((is_refused policy mime_type ≡ false)
          × (limit_reached (attachment_send_limit_enforced policy) limit (sends db₁) ≡ true)
          × (x : Limited) × (r ≡ (ok (limited x), db₁))
          × (x.retry_after_seconds ≡ seconds_until_next_utc_day ctx.now))
      ⊎ ((is_refused policy mime_type ≡ false)
          × (limit_reached (attachment_send_limit_enforced policy) limit (sends db₁) ≡ false)
          × Completion db (operation db₁) r)

  attach_runs :
      (db₁ db₂ : Database) (value : T)
      → operation db₁ ≡ (ok value, db₂)
      → has_user user_id db₂ ≡ true
      → is_exhausted (sends db₂) ≡ false
      → (counters : List DailyActionCounter) × (attach ctx user_id operation db₁
          ≡ (ok (completed value), record db₂ { counters = counters }))
        × (sends (record db₂ { counters = counters }) ≡ sends db₂ +ℤ pos 1)
  unfolding attach
  attach_runs db₁ db₂ value ran u free =
      let counted = increment_runs user_id action_attachment_send (date_naive ctx.now) db₂ u free in
      (
        _,
        ground (arith, ran, counted),
        sym (ap (λ (r : Result (Unit {0}) × Database). sends r.1) counted)
            ∙ count-increment_self user_id action_attachment_send (date_naive ctx.now) db₂ u free,
      )

  attach-Completion :
      (db db₁ : Database) (op : Result T × Database)
      → operation db₁ ≡ op
      → has_user user_id op.1 ≡ true
      → Completion db op (transaction (λ _. attach ctx user_id operation db₁) db)
  unfolding attach
  attach-Completion db db₁ (ok value, db₂) ran u = elim (Bool-cases (is_exhausted (sends db₂))) [
    | inl full ↦ inr (
      full,
      ground (
        arith,
        ran,
        increment_fails user_id action_attachment_send (date_naive ctx.now) db₂ full,
      ),
    )
    | inr free ↦
        let (counters, attached, counted) = attach_runs db₁ db₂ value ran u free in
        inl (
          free,
          record db₂ { counters = counters },
          transaction_of_ok (λ _. attach ctx user_id operation db₁) db _ (completed value) attached,
          counted,
          refl,
        )
  ]
  attach-Completion db db₁ (err e, db₂) ran u = ground (arith, ran)
  attach-Completion db db₁ (panic, db₂) ran u = ground (arith, ran)

  module _ (policy : GuildPolicyConfig) (v : IsValid policy) (row : UserGuildStats)
      (limit : Option ℤ) (is_limit : attachment_limit policy row ≡ ok limit) (mime_type : String)
      (db db₁ : Database) (run : begin_action ctx user_id db ≡ (ok (policy, row), db₁)) where
    refused_type :
        is_refused policy mime_type ≡ true
        → Attached policy limit mime_type db db₁
            (run_attachment_action_with_guild ctx user_id operation mime_type db)
    unfolding run_attachment_action_with_guild attach_counted
    refused_type bad =
        let (x, refused, wait) = refuse_total ctx policy row user_id db₁ v in
        inl (bad, x.guild, ground (arith, run, bad, refused))

    at_limit :
        is_refused policy mime_type ≡ false
        → limit_reached (attachment_send_limit_enforced policy) limit (sends db₁) ≡ true
        → Attached policy limit mime_type db db₁
            (run_attachment_action_with_guild ctx user_id operation mime_type db)
    unfolding run_attachment_action_with_guild attach_counted attach_limited
    at_limit good reached =
        let (x, refused, wait) = refuse_total ctx policy row user_id db₁ v in
        inr (inl (good, reached, x, ground (arith, run, good, is_limit, reached, refused), wait))

    below_limit :
        ((tables : Database) → has_user user_id (operation tables).1 ≡ has_user user_id tables)
        → has_user user_id db₁ ≡ true
        → is_refused policy mime_type ≡ false
        → limit_reached (attachment_send_limit_enforced policy) limit (sends db₁) ≡ false
        → Attached policy limit mime_type db db₁
            (run_attachment_action_with_guild ctx user_id operation mime_type db)
    unfolding run_attachment_action_with_guild attach_counted attach_limited
    below_limit keeps u good below =
        let e : run_attachment_action_with_guild ctx user_id operation mime_type db
            ≡ transaction (λ _. attach ctx user_id operation db₁) db =
          ground (arith, run, good, is_limit, below) in
        inr
          (inr (good, below, rw e (attach-Completion db db₁ (operation db₁) refl (keeps db₁ ∙ u))))

  -- Every outcome of an attachment action for a user who is there, whatever the operation that the
  -- action wraps, as long as it does not add or delete the user. The activity is counted in the
  -- user's row first. Where limits are enforced, a type that the policy does not list is refused and
  -- the operation is not run, and so is an action at the limit; else the operation is run. If it
  -- succeeds, its value is returned and the action is counted once, unless the counter can count no
  -- further, which is an error that changes nothing; if it fails or panics, so does the call, and
  -- nothing has changed.
  pub run-Attached :
      (policy : GuildPolicyConfig) (mime_type : String) (db : Database) (row : UserGuildStats)
      → ((tables : Database) → has_user user_id (operation tables).1 ≡ has_user user_id tables)
      → (load_guild_policy_conn ctx db).0 ≡ ok policy
      → StartsFrom policy user_id db row
      → has_user user_id db ≡ true
      → (row' : UserGuildStats) × Counted policy (date_naive ctx.now) ctx.now row row'
        × (limit : Option ℤ) × (attachment_limit policy row' ≡ ok limit)
        × (db₁ : Database) × Became db user_id row' db₁
        × Attached policy limit mime_type db db₁
            (run_attachment_action_with_guild ctx user_id operation mime_type db)
  run-Attached policy mime_type db row keeps loaded start u =
      let v = loaded-IsValid ctx db policy loaded in
      let (row', db₁, run, b, counted) = begin-Counted ctx policy user_id db row loaded start in
      let (limit, is_limit) = attachment_limit_total policy row' v in
      (
        row',
        counted,
        limit,
        is_limit,
        db₁,
        b,
        elim (Bool-cases (is_refused policy mime_type)) [
          | inl bad ↦ refused_type policy v row' limit is_limit mime_type db db₁ run bad
          | inr good ↦
              elim (Bool-cases
                (limit_reached (attachment_send_limit_enforced policy) limit (sends db₁))) [
                  | inl reached ↦
                      at_limit policy v row' limit is_limit mime_type db db₁ run good reached
                  | inr below ↦
                      below_limit policy v row' limit is_limit mime_type db db₁ run keeps
                        (has_user_of_users user_id db db₁ b.users ∙ u) good below
                ]
        ],
      )
