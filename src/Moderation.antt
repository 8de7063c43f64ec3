-- ===== src/Moderation.antt =====
-- src/services/moderation_service.rs: blocks, reports, their review, and what texts may say.
pub mod Types
pub mod Text
pub mod Blocks
pub mod Making
pub mod Reports
pub mod Review
pub mod Messaging
pub mod Blocking
pub mod Closing
pub mod Passing
pub mod Pass
pub mod Sound
pub mod Keeping
pub mod Steps
pub mod Outcome
pub mod Restricting
mod Tests
