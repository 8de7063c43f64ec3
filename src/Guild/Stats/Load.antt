-- ===== src/Guild/Stats/Load.antt =====
-- The policy that the engine works with.
use sync_server.Prelude.{
  ◌≡◌, refl, ap, String, Option, none, some, List, [], ◌∷◌, arith, str_eq, str_eq_iff, find?,
  Option-cases, ◌≢◌, inl, inr,
}
use sync_server.Errors.{Result, ok}
use sync_server.Store.{Database, Context, AdminSetting, update_where}
use sync_server.Guild.Types.{GuildPolicyConfig}
use sync_server.Guild.Policy.{normalize_guild_policy}
use sync_server.Guild.Policy.Valid.{IsValid}
use sync_server.Guild.Policy.Default.{default_guild_policy}
use sync_server.Guild.Policy.Normal.{normalize-IsValid, normalize_of_IsValid, default-IsValid}
use sync_server.Guild.Stats.{
  put_setting, usable_policy, stored_policy, get_setting, set_setting, load_guild_policy_conn,
  save_guild_policy, setting_trust_policy,
}

normalized_or_default :
    (p : GuildPolicyConfig) (r : Result GuildPolicyConfig)
    → normalize_guild_policy p ≡ r
    → IsValid (elim r [ ok normalized ↦ normalized | _ ↦ default_guild_policy ])
normalized_or_default p (ok q) h = normalize-IsValid p q h
normalized_or_default p _ h = default-IsValid

stored_policy-IsValid :
    (ctx : Context) (setting : Option AdminSetting) → IsValid (stored_policy ctx setting)
unfolding stored_policy
stored_policy-IsValid ctx none = default-IsValid
stored_policy-IsValid ctx (some setting) = decoded_policy-IsValid (ctx.from_str setting.value)
  where
    decoded_policy-IsValid : (o : Option GuildPolicyConfig) → IsValid (usable_policy o)
    decoded_policy-IsValid none = default-IsValid
    decoded_policy-IsValid (some p) = normalized_or_default p (normalize_guild_policy p) refl

-- Whatever the settings table holds, loading changes nothing, gives no error, and the policy that it
-- gives is valid.
pub load-IsValid :
    (ctx : Context) (db : Database)
    → (p : GuildPolicyConfig) × (load_guild_policy_conn ctx db ≡ (ok p, db)) × IsValid p
unfolding load_guild_policy_conn
load-IsValid ctx db = (_, refl, stored_policy-IsValid ctx (get_setting setting_trust_policy db))

find_updated :
    (key value : String) (s : AdminSetting) (rows : List AdminSetting)
    → find? (λ s. str_eq s.key key) rows ≡ some s
    → find?
        (λ s. str_eq s.key key)
        (update_where (λ s. str_eq s.key key) (λ s. record s { value = value }) rows)
      ≡ some (record { key = key; value = value })
unfolding update_where
find_updated key value s [] h = cc
find_updated key value s (r ∷ rows) h =
    ground (arith, str_eq_iff r.key key, find_updated key value s rows)

-- A setting that was put is found under its key.
find-put_setting :
    (key value : String) (settings : List AdminSetting)
    → find? (λ s. str_eq s.key key) (put_setting key value settings)
      ≡ some (record { key = key; value = value })
unfolding put_setting
find-put_setting key value settings = elim (Option-cases (find? (λ s. str_eq s.key key) settings)) [
  | inl missing ↦ rw (missing, put_setting) (ground (arith, str_eq_iff key key))
  | inr (s, found) ↦ rw (found, put_setting) (find_updated key value s settings found)
]

usable_of_IsValid : (q : GuildPolicyConfig) → IsValid q → usable_policy (some q) ≡ q
unfolding usable_policy
usable_of_IsValid q v = rw (normalize_of_IsValid q v, usable_policy)

module _ (ctx : Context) (db : Database) (p q : GuildPolicyConfig)
    (h : (save_guild_policy ctx p db).0 ≡ ok q) where
  saved_normal : normalize_guild_policy p ≡ ok q
  unfolding save_guild_policy
  saved_normal = ground arith

  saved_text : ctx.to_string q ≢ none
  unfolding save_guild_policy
  saved_text = ground (arith, saved_normal)

  saved_settings :
      (t : String)
      → ctx.to_string q ≡ some t
      → (save_guild_policy ctx p db).1.settings ≡ put_setting setting_trust_policy t db.settings
  unfolding save_guild_policy set_setting
  saved_settings t e = ground (arith, saved_normal)

  -- A policy that was saved is the one that is loaded next, if the codec reads what it wrote for
  -- it.
  pub load-save :
      ((t : String) → ctx.to_string q ≡ some t → ctx.from_str t ≡ some q)
      → (load_guild_policy_conn ctx (save_guild_policy ctx p db).1).0 ≡ ok q
  unfolding load_guild_policy_conn get_setting stored_policy
  load-save codec = elim (Option-cases (ctx.to_string q)) [
    | inl e ↦ absurd (saved_text e)
    | inr (t, e) ↦ rw (
      saved_settings t e,
      find-put_setting,
      codec t e,
      usable_of_IsValid q (normalize-IsValid p q saved_normal),
    )
  ]

pub loaded-IsValid :
    (ctx : Context) (db : Database) (policy : GuildPolicyConfig)
    → (load_guild_policy_conn ctx db).0 ≡ ok policy
    → IsValid policy
loaded-IsValid ctx db policy loaded =
    let (p, load, v) = load-IsValid ctx db in let e : p ≡ policy = ground (arith, load) in rw e at v

-- Loading reads and does not write.
pub load_runs :
    (ctx : Context) (db : Database) (policy : GuildPolicyConfig)
    → (load_guild_policy_conn ctx db).0 ≡ ok policy
    → load_guild_policy_conn ctx db ≡ (ok policy, db)
unfolding load_guild_policy_conn
load_runs ctx db policy loaded = ap (λ r. (r, db)) loaded

-- A valid policy that the codec can write is saved.
pub save_of_IsValid :
    (ctx : Context) (db : Database) (q : GuildPolicyConfig) (t : String)
    → IsValid q
    → ctx.to_string q ≡ some t
    → (save_guild_policy ctx q db).0 ≡ ok q
unfolding save_guild_policy set_setting
save_of_IsValid ctx db q t v e = ground (arith, normalize_of_IsValid q v)

-- Loading reads the settings and no other table.
pub load_of_settings :
    (ctx : Context) (db db' : Database) (policy : GuildPolicyConfig)
    → db'.settings ≡ db.settings
    → (load_guild_policy_conn ctx db).0 ≡ ok policy
    → (load_guild_policy_conn ctx db').0 ≡ ok policy
unfolding load_guild_policy_conn get_setting
load_of_settings ctx db db' policy e loaded = rw e loaded
