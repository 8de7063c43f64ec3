-- ===== src/Guild/Types.antt =====
-- src/models/guild.rs: the records of the guild engine. An `i32` is a `ℤ`, a `u8` and a `Uuid` are
-- native numbers. A `DateTime<Utc>` counts microseconds since 1970 and a `NaiveDate` counts days.
-- The columns `created_at` and `updated_at` that only a database trigger and no guild code reads
-- are left out.
use sync_server.Prelude.{ℕ, String, Bool, Option, List}
use sync_server.Prelude.Int.{ℤ}

pub record LevelPolicy : Type 0 where
  pub level : ℕ
  pub min_active_days : ℤ
  pub max_active_days : Option ℤ
  pub daily_outbound_messages_limit : Option ℤ
  pub daily_friend_add_limit : Option ℤ
  pub daily_attachment_send_limit : Option ℤ

pub record RankPolicy : Type 0 where
  pub rank : String
  pub min_score : ℤ
  pub max_score : Option ℤ
  pub daily_outbound_messages_limit_multiplier_percent : Option ℤ
  pub daily_friend_add_limit_multiplier_percent : Option ℤ
  pub daily_attachment_send_limit_multiplier_percent : Option ℤ
  pub overrides_level_limits : Bool

pub record GuildEnforcementConfig : Type 0 where
  pub enabled : Bool
  pub outbound_messages_enabled : Bool
  pub friend_adds_enabled : Bool
  pub attachment_sends_enabled : Bool
  pub rank_engine_enabled : Bool

pub record GuildPolicyConfig : Type 0 where
  pub enforcement : GuildEnforcementConfig
  pub daily_counter_retention_days : ℤ
  pub score_event_retention_days : ℤ
  pub level_policies : List LevelPolicy
  pub rank_policies : List RankPolicy
  pub community_upvote_daily_cap : ℤ
  pub safe_attachment_types : List String

pub record UserGuildStats : Type 0 where
  pub user_id : ℕ
  pub active_days : ℤ
  pub contribution_score : ℤ
  pub derived_level : ℤ
  pub derived_rank : String
  pub last_active_day : Option ℕ
  pub last_human_activity_at : Option ℕ
  pub suspicious_activity_streak : ℤ
  pub automation_review_state : String

pub record DailyActionCounter : Type 0 where
  pub user_id : ℕ
  pub action_key : String
  pub day_bucket : ℕ
  pub count : ℤ

-- `serde_json::Value`, as far as the guild engine builds such values.
mutual
  pub data Value : Type 0 where
    null : Value
    number : ℤ → Value
    text : String → Value
    array : Items → Value
    object : Fields → Value

  pub data Items : Type 0 where
    nil : Items
    item : Value → Items → Items

  pub data Fields : Type 0 where
    end : Fields
    field : String → Value → Fields → Fields

pub record GuildScoreEvent : Type 0 where
  pub id : ℕ
  pub user_id : ℕ
  pub granter_user_id : Option ℕ
  pub event_type : String
  pub delta : ℤ
  pub reference_id : Option String
  pub metadata : Value
  pub created_at : ℕ

pub data MilestoneKind : Type 0 where
  level_up rank_up unlock_attachment_type : MilestoneKind

pub record GuildMilestoneNotification : Type 0 where
  pub kind : MilestoneKind
  pub badge_label : String
  pub headline_key : String
  pub detail_key : String
  pub unlocked_value : Option String
  pub new_value : String

pub record GuildSnapshot : Type 0 where
  pub active_days : ℤ
  pub level : ℕ
  pub contribution_score : ℤ
  pub rank : String
  pub next_level_active_days : Option ℤ
  pub level_progress_percent : ℕ
  pub daily_outbound_messages_enforced : Bool
  pub daily_outbound_messages_limit : Option ℤ
  pub daily_outbound_messages_sent : ℤ
  pub daily_outbound_messages_remaining : Option ℤ
  pub daily_attachment_sends_enforced : Bool
  pub daily_attachment_send_limit : Option ℤ
  pub daily_attachment_sends_sent : ℤ
  pub daily_attachment_sends_remaining : Option ℤ
  pub allowed_attachment_types : List String
  pub daily_friend_adds_enforced : Bool
  pub daily_friend_add_limit : Option ℤ
  pub daily_friend_adds_sent : ℤ
  pub daily_friend_adds_remaining : Option ℤ
  pub challenge_state : String
  pub pending_milestone_notification : Option GuildMilestoneNotification
