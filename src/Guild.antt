-- ===== src/Guild.antt =====
-- src/services/guild_service.rs: the guild engine.
pub mod Types
pub mod Policy
pub mod Ranking
pub mod Activity
pub mod Stats
pub mod Snapshot
pub mod Actions
pub mod Events
pub mod History
pub mod Tests
