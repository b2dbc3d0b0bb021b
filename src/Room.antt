-- ===== src/Room.antt =====
-- internal/room: a room, in which two players join, play a game and leave.
pub mod Model
pub mod Handle
pub mod Run
pub mod Steps
pub mod Trace
pub mod Kept
pub mod Logged
pub mod Closing
pub mod Reported
pub mod Manager
pub mod Inbox
