-- ===== src/Rooms.antt =====
-- src/services/room_service.rs: group rooms, their members and their messages.
pub mod Types
pub mod Views
pub mod Members
pub mod Talk
pub mod Rows
pub mod Group
pub mod Spec
pub mod Consistent
pub mod Agree
pub mod Create
pub mod Change
pub mod Rename
pub mod Add
pub mod Remove
pub mod Emptied
pub mod Close
pub mod Runs
pub mod Access
pub mod Reading
pub mod Sending
pub mod Steps
mod Tests
