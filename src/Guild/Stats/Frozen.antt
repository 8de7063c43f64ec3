-- ===== src/Guild/Stats/Frozen.antt =====
-- `freeze_guild_progression` and `unfreeze_guild_progression`: the administrators' decisions.
use sync_server.Prelude.{
  ℕ, ◌+◌, ◌<◌, ◌≡◌, refl, sym, ap, subst, ◌∙◌, arith, ◌⊎◌, inl, inr, Bool-cases, String, true,
  false, Option, none, some, List, ◌∷◌,
}
use sync_server.Prelude.Int.{pos}
use sync_server.Errors.{AppError, Result, ok, err}
use sync_server.Store.{
  Database, Context, AdminAuditLog, has_user, has_user_of_users, require_user_there,
  require_user_missing,
}
use sync_server.Guild.Types.{UserGuildStats, Value}
use sync_server.Guild.Activity.{assess_human_activity, set_frozen, set_unfrozen, recovery_window}
use sync_server.Guild.Activity.Assess.{frozen_assessed}
use sync_server.Guild.Stats.{
  stats_of, update_stats, insert_audit, insert_system_audit_log, freeze_guild_progression,
  unfreeze_guild_progression,
}
use sync_server.Guild.Stats.Rows.{Became, update_stats-Became}

set_frozen-user_id : (r : UserGuildStats) → (set_frozen r).user_id ≡ r.user_id
unfolding set_frozen
set_frozen-user_id r = refl

set_unfrozen-user_id : (r : UserGuildStats) → (set_unfrozen r).user_id ≡ r.user_id
unfolding set_unfrozen
set_unfrozen-user_id r = refl

-- A line more in the audit log changes no row.
Became-audited :
    (db db' : Database) (user_id : ℕ) (row : UserGuildStats) (log : List AdminAuditLog)
    → Became db user_id row db'
    → Became db user_id row (record db' { audit = log })
Became-audited db db' user_id row log b = record {
  found = b.found;
  others = b.others;
  users = b.users;
  settings = b.settings;
  counters = b.counters;
  events = b.events;
  messages = b.messages;
  elsewhere = record {
    rooms = b.elsewhere.rooms;
    room_members = b.elsewhere.room_members;
    room_messages = b.elsewhere.room_messages;
    reports = b.elsewhere.reports;
    blocks = b.elsewhere.blocks;
  };
}

-- What a decision did: it succeeded, changed the user's row to `row`, and left one line in the audit
-- log that names who decided.
abbrev pub Decided :
    Option ℕ → Database → ℕ → UserGuildStats → Result (Unit {0}) × Database → Type 0
Decided actor db user_id row r =
    (r.0 ≡ ok tt)
    × Became db user_id row r.1
    × (line : AdminAuditLog) × (r.1.audit ≡ line ∷ db.audit)
    × (line.actor_user_id ≡ actor)

-- A decision by somebody who is no user: the row is changed, but the line of the audit log cannot be
-- written, and the call ends with an error.
abbrev pub Undocumented : Database → ℕ → UserGuildStats → Result (Unit {0}) × Database → Type 0
Undocumented db user_id row r =
    (r.0 ≡ err AppError.database) × Became db user_id row r.1 × (r.1.audit ≡ db.audit)

-- What a decision comes to, for whoever makes it.
abbrev pub Comes : Option ℕ → Database → ℕ → UserGuildStats → Result (Unit {0}) × Database → Type 0
Comes none db user_id row r = Decided none db user_id row r
Comes (some admin) db user_id row r =
    ((has_user admin db ≡ true) × Decided (some admin) db user_id row r)
    ⊎ ((has_user admin db ≡ false) × Undocumented db user_id row r)

module _ (ctx : Context) (admin : ℕ) (action : String) (target : Option String) (details : Value)
    (db : Database) where
  line : AdminAuditLog
  line = record {
    id = ctx.new_id;
    actor_user_id = some admin;
    action = action;
    target = target;
    details = details;
    created_at = ctx.db_now;
  }

  audit_written :
      has_user admin db ≡ true
      → insert_audit ctx (some admin) action target details db
        ≡ (ok tt, record db { audit = line ∷ db.audit })
  unfolding insert_audit line
  audit_written known = ground (arith, require_user_there admin db known)

  audit_refused :
      has_user admin db ≡ false
      → insert_audit ctx (some admin) action target details db ≡ (err AppError.database, db)
  unfolding insert_audit
  audit_refused unknown = ground (arith, require_user_missing admin db unknown)

  -- A change of the user's row and then a line.
  documented :
      (before : Database) (user_id : ℕ) (row : UserGuildStats)
      → Became before user_id row db
      → db.audit ≡ before.audit
      → Comes
          (some admin)
          before
          user_id
          row
          (insert_audit ctx (some admin) action target details db)
  unfolding line
  documented before user_id row b log = elim (Bool-cases (has_user admin before)) [
    | inl known ↦ inl (
      known,
      subst (Decided (some admin) before user_id row)
          (sym (audit_written (has_user_of_users admin before db b.users ∙ known)))
          (refl, Became-audited before db user_id row _ b, line, ap (λ l. line ∷ l) log, refl),
    )
    | inr unknown ↦ inr (
      unknown,
      subst (Undocumented before user_id row)
          (sym (audit_refused (has_user_of_users admin before db b.users ∙ unknown)))
          (refl, b, log),
    )
  ]

module _ (ctx : Context) (user_id : ℕ) (reason : String) (db : Database) (row : UserGuildStats)
    (found : stats_of user_id db ≡ some row) where
  frozen : Became db user_id (set_frozen row) (update_stats user_id set_frozen db)
  frozen = update_stats-Became user_id set_frozen set_frozen-user_id db row found

  frozen_by :
      (actor : Option ℕ)
      → Comes actor db user_id
          (set_frozen row)
          (freeze_guild_progression ctx actor user_id reason db)
  unfolding freeze_guild_progression insert_audit insert_system_audit_log
  frozen_by none = (refl, Became-audited db _ user_id (set_frozen row) _ frozen, _, refl, refl)
  frozen_by (some admin) =
      documented ctx admin _ _ _ (update_stats user_id set_frozen db) db user_id (set_frozen row)
        frozen refl

  unfrozen_by :
      (admin : ℕ)
      → Comes
          (some admin)
          db
          user_id
          (set_unfrozen row)
          (unfreeze_guild_progression ctx admin user_id reason db)
  unfolding unfreeze_guild_progression insert_audit
  unfrozen_by admin =
      documented ctx admin _ _ _ (update_stats user_id set_unfrozen db) db user_id
        (set_unfrozen row)
        (update_stats-Became user_id set_unfrozen set_unfrozen-user_id db row found) refl

frozen_waits :
    (row : UserGuildStats) (today now last : ℕ)
    → row.last_human_activity_at ≡ some last
    → now < last + recovery_window
    → (assess_human_activity (set_frozen row) today now).should_advance_active_day ≡ false
unfolding set_frozen
frozen_waits row today now last h soon = frozen_assessed (set_frozen row) today now last refl h soon

-- For a user whose row is stored: a freeze, by an administrator or by the system, and an unfreeze
-- change that row and no other, and leave a line in the audit log with who decided. If the
-- administrator is no user, the call ends with an error of the database, the row is changed all the
-- same, and there is no line. A frozen row counts no active day within a day of the last activity;
-- an unfrozen row is clear, without strikes.
pub decisions :
    (ctx : Context) (actor : Option ℕ) (admin user_id : ℕ) (reason : String) (db : Database)
    (row : UserGuildStats)
    → stats_of user_id db ≡ some row
    → Comes actor db user_id (set_frozen row) (freeze_guild_progression ctx actor user_id reason db)
      × Comes
          (some admin)
          db
          user_id
          (set_unfrozen row)
          (unfreeze_guild_progression ctx admin user_id reason db)
      × ((today now last : ℕ)
          → row.last_human_activity_at ≡ some last
          → now < last + recovery_window
          → (assess_human_activity (set_frozen row) today now).should_advance_active_day ≡ false)
      × ((set_unfrozen row).automation_review_state ≡ "clear")
      × ((set_unfrozen row).suspicious_activity_streak ≡ pos 0)
unfolding set_unfrozen
decisions ctx actor admin user_id reason db row found = (
  frozen_by ctx user_id reason db row found actor,
  unfrozen_by ctx user_id reason db row found admin,
  frozen_waits row,
  refl,
  refl,
)
