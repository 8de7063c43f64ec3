-- ===== src/Guild/Tests/Actions.antt =====
-- The theorems on the actions, on the small server.
use sync_server.Prelude.{ℕ, none, ap, ◌∙◌, ◌+◌, ◌*◌, ◌≤◌, ◌≡◌, refl, Option, arith}
use sync_server.Prelude.Int.{ℤ, pos, ◌≤ℤ◌}
use sync_server.Errors.{ok}
use sync_server.Store.{Database}
use sync_server.Guild.Types.{UserGuildStats}
use sync_server.Guild.Activity.{date_naive}
use sync_server.Guild.Stats.Rows.{Became}
use sync_server.Guild.Snapshot.{seconds_until_next_utc_day}
use sync_server.Guild.Snapshot.Bounds.{retry_reaches_next_day}
use sync_server.Guild.Actions.{begin_action, message_limit, send_message_with_guild}
use sync_server.Guild.Actions.Begin.{Counted, begin-Counted, recorded}
use sync_server.Guild.Actions.Send.{Outcome, send-Outcome}
use sync_server.Guild.Actions.Days.{Active, begin, act, one_day_a_day}
use sync_server.Store.{Action}
use sync_server.Guild.Types.{GuildSnapshot}
use sync_server.Guild.Stats.{load_guild_policy_conn}
use sync_server.Guild.Stats.Load.{load_of_settings}
use sync_server.Guild.Snapshot.{friend_add_limit_enforced, shown_level}
use sync_server.Guild.Actions.{
  limit_if, friend_limit, attachment_limit, resolve_contact_with_guild,
  run_attachment_action_with_guild, record_human_activity,
}
use sync_server.Guild.Actions.Contact.{Admission, resolve-Admission}
use sync_server.Guild.Actions.Attach.{Attached, run-Attached}
use sync_server.Guild.History.{get_guild_snapshot}
use sync_server.Guild.History.Shown.{milestone_missed}
use sync_server.Guild.Tests.{first_user}
use sync_server.Guild.Tests.{now, ctx, policy, row, db, loaded, start, has_first}

send-Outcome_example :
    (row' : UserGuildStats) × Counted policy (date_naive ctx.now) ctx.now row row'
    × (limit : Option ℤ) × (message_limit policy row' ≡ ok limit)
    × Outcome ctx 1 2 "hello" policy limit row' db (send_message_with_guild ctx 1 2 "hello" db)
send-Outcome_example = send-Outcome ctx policy 1 2 "hello" db row loaded start has_first

begin-Counted_example :
    (row' : UserGuildStats) × (db' : Database) × (begin_action ctx 1 db ≡ (ok (policy, row'), db'))
    × Became db 1 row' db'
    × Counted policy (date_naive ctx.now) ctx.now row row'
begin-Counted_example = begin-Counted ctx policy 1 db row loaded start

retry_reaches_next_day_example :
    (1 ≤ seconds_until_next_utc_day 1_728_003_600_000_000)
    × (seconds_until_next_utc_day 1_728_003_600_000_000 ≤ 86_400)
    × (date_naive (
          1_728_003_600_000_000
          + (seconds_until_next_utc_day 1_728_003_600_000_000 + 1) * 1_000_000)
        ≡ date_naive 1_728_003_600_000_000 + 1)
retry_reaches_next_day_example = retry_reaches_next_day 1_728_003_600_000_000

-- One action on the day 20,000 counts it.
one_action : Active row 20_000 20_000 (begin-Counted ctx policy 1 db row loaded start).0
one_action =
    act begin policy 20_000 now (begin-Counted ctx policy 1 db row loaded start).0 (omega arith)
      (begin-Counted ctx policy 1 db row loaded start).4

one_day_a_day_example :
    (begin-Counted ctx policy 1 db row loaded start).0.active_days ≤ℤ pos (3 + 0 + 1)
one_day_a_day_example =
    one_day_a_day row 3 20_000 refl 20_000 (begin-Counted ctx policy 1 db row loaded start).0
      (omega arith) one_action

resolve-Admission_example :
    (row' : UserGuildStats) × Counted policy (date_naive ctx.now) ctx.now row row'
    × (limit : Option ℤ) × (limit_if (friend_add_limit_enforced policy) (friend_limit policy row')
        ≡ ok limit)
    × Admission ctx 1 policy limit first_user row' db (resolve_contact_with_guild ctx 1 db)
resolve-Admission_example = resolve-Admission ctx policy 1 db row first_user loaded start refl

-- An upload that only returns a number.
abbrev upload : Action ℕ
upload db = (ok 7, db)

run-Attached_example :
    (row' : UserGuildStats) × Counted policy (date_naive ctx.now) ctx.now row row'
    × (limit : Option ℤ) × (attachment_limit policy row' ≡ ok limit)
    × (db₁ : Database) × Became db 1 row' db₁
    × Attached ctx 1 upload policy limit "image/png" db db₁
        (run_attachment_action_with_guild ctx 1 upload "image/png" db)
run-Attached_example =
    run-Attached ctx 1 upload policy "image/png" db row (λ tables. refl) loaded start has_first

-- Recording an activity leaves the settings alone.
still_loaded : (load_guild_policy_conn ctx (record_human_activity ctx 1 db).1).0 ≡ ok policy
still_loaded =
    let begun = begin-Counted ctx policy 1 db row loaded start in
    load_of_settings ctx db (record_human_activity ctx 1 db).1 policy
      (ap (λ r. r.1.settings) (recorded ctx policy 1 db begun.0 begun.1 begun.2) ∙ begun.3.settings)
      loaded

milestone_missed_example :
    (row' : UserGuildStats) × Counted policy (date_naive ctx.now) ctx.now row row'
    × (s : GuildSnapshot) × (db' : Database) × (get_guild_snapshot ctx 1
          (record_human_activity ctx 1 db).1
        ≡ (ok s, db'))
    × (s.level ≡ shown_level row'.derived_level)
    × (s.rank ≡ row'.derived_rank)
    × (s.pending_milestone_notification ≡ none)
milestone_missed_example = milestone_missed ctx ctx policy 1 db row loaded start still_loaded
