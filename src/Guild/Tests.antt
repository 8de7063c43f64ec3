-- ===== src/Guild/Tests.antt =====
-- A small server for the tests: three users, the default policy, and one row.
mod Actions
mod Events
mod Rules
mod Awards
use sync_server.Prelude.{ℕ, ◌≡◌, refl, String, true, Option, none, some, List, [], ◌∷◌}
use sync_server.Prelude.Int.{ℤ, pos, negsuc}
use sync_server.Errors.{ok}
use sync_server.Store.{Database, Context, User, has_user}
use sync_server.Guild.Types.{GuildPolicyConfig, UserGuildStats}
use sync_server.Guild.Policy.Default.{default_guild_policy}
use sync_server.Guild.Stats.{stats_of, load_guild_policy_conn, get_setting, stored_policy}
use sync_server.Guild.Actions.Begin.{StartsFrom, known}

-- One hour into the day 20,000.
abbrev pub now : ℕ
now = 1_728_003_600_000_000

abbrev pub ctx : Context
ctx = record {
  now = now;
  db_now = now;
  new_id = 77;
  first_day = negsuc 95_745_399;
  from_str = λ t. some default_guild_policy;
  to_string = λ p. some "default";
  uuid_text = λ id. "id";
  parse_uuid = λ t. none;
}

abbrev pub policy : GuildPolicyConfig
policy = default_guild_policy

abbrev user : ℕ → String → User
user id role = record {
  id = id;
  username = "user";
  avatar_base64 = none;
  description = none;
  role = role;
  is_active = true;
  ugc_terms_accepted_at = none;
  ugc_terms_version = pos 0;
  dm_restricted_until = none;
  safety_warning_count = pos 0;
  yellow_card_expires_at = none;
}

abbrev pub first_user : User
first_user = user 1 "user"

abbrev pub row : UserGuildStats
row = record {
  user_id = 1;
  active_days = pos 3;
  contribution_score = pos 40;
  derived_level = pos 1;
  derived_rank = "F";
  last_active_day = some 19_998;
  last_human_activity_at = some 1_727_900_000_000_000;
  suspicious_activity_streak = pos 0;
  automation_review_state = "clear";
}

abbrev pub db : Database
db = record {
  users = user 1 "user" ∷ user 2 "user" ∷ user 3 "admin" ∷ [];
  settings = [];
  stats = row ∷ [];
  counters = [];
  events = [];
  messages = [];
  audit = [];
  rooms = [];
  room_members = [];
  room_messages = [];
  reports = [];
  blocks = [];
}

pub loaded : (load_guild_policy_conn ctx db).0 ≡ ok policy
unfolding load_guild_policy_conn get_setting stored_policy
loaded = refl

pub start : StartsFrom policy 1 db row
start = known refl

pub has_first : has_user 1 db ≡ true
unfolding has_user
has_first = refl

pub has_admin : has_user 3 db ≡ true
unfolding has_user
has_admin = refl
