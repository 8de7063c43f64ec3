-- ===== src/Guild/Policy/Default.antt =====
-- The defaults of src/models/guild.rs and `default_guild_policy` of src/services/guild_service.rs.
use sync_server.Prelude.{ℕ, String, Bool, true, false, Option, none, some, List, [], ◌∷◌}
use sync_server.Prelude.Int.{ℤ, pos}
use sync_server.Guild.Types.{LevelPolicy, RankPolicy, GuildEnforcementConfig, GuildPolicyConfig}

abbrev pub default_enforcement : GuildEnforcementConfig
default_enforcement = record {
  enabled = true;
  outbound_messages_enabled = true;
  friend_adds_enabled = true;
  attachment_sends_enabled = true;
  rank_engine_enabled = true;
}

abbrev level_policy : ℕ → ℕ → Option ℤ → Option ℤ → Option ℤ → Option ℤ → LevelPolicy
level_policy level from to messages friends attachments = record {
  level = level;
  min_active_days = pos from;
  max_active_days = to;
  daily_outbound_messages_limit = messages;
  daily_friend_add_limit = friends;
  daily_attachment_send_limit = attachments;
}

abbrev rank_policy : String → ℕ → Option ℤ → Option ℤ → Bool → RankPolicy
rank_policy rank from to percent overrides = record {
  rank = rank;
  min_score = pos from;
  max_score = to;
  daily_outbound_messages_limit_multiplier_percent = percent;
  daily_friend_add_limit_multiplier_percent = percent;
  daily_attachment_send_limit_multiplier_percent = percent;
  overrides_level_limits = overrides;
}

abbrev pub default_level_policies : List LevelPolicy
default_level_policies =
    level_policy 1 0 (some (pos 6)) (some (pos 50)) (some (pos 5)) (some (pos 5))
    ∷ level_policy 2 7 (some (pos 13)) (some (pos 100)) (some (pos 10)) (some (pos 5))
    ∷ level_policy 3 14 (some (pos 29)) (some (pos 200)) (some (pos 20)) (some (pos 10))
    ∷ level_policy 4 30 (some (pos 59)) (some (pos 500)) (some (pos 30)) none
    ∷ level_policy 5 60 (some (pos 89)) (some (pos 1000)) (some (pos 30)) none
    ∷ level_policy 6 90 (some (pos 119)) none (some (pos 30)) none
    ∷ level_policy 7 120 (some (pos 179)) none (some (pos 50)) none
    ∷ level_policy 8 180 none none (some (pos 50)) none
    ∷ []

abbrev pub default_rank_policies : List RankPolicy
default_rank_policies =
    rank_policy "F" 0 (some (pos 99)) none false
    ∷ rank_policy "E" 100 (some (pos 499)) none false
    ∷ rank_policy "D" 500 (some (pos 999)) (some (pos 120)) false
    ∷ rank_policy "C" 1000 (some (pos 2499)) none false
    ∷ rank_policy "B" 2500 (some (pos 4999)) (some (pos 150)) false
    ∷ rank_policy "A" 5000 (some (pos 9999)) none true
    ∷ rank_policy "S" 10000 none none true
    ∷ []

abbrev pub default_safe_attachment_types : List String
default_safe_attachment_types =
    "application/pdf" ∷ "image/gif" ∷ "image/jpeg" ∷ "image/png" ∷ "image/webp" ∷ "text/plain"
    ∷ "video/mp4" ∷ []

abbrev pub default_guild_policy : GuildPolicyConfig
default_guild_policy = record {
  enforcement = default_enforcement;
  daily_counter_retention_days = pos 45;
  score_event_retention_days = pos 180;
  level_policies = default_level_policies;
  rank_policies = default_rank_policies;
  community_upvote_daily_cap = pos 100;
  safe_attachment_types = default_safe_attachment_types;
}
