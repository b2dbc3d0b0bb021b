-- ===== src/Scripts.antt =====
-- The command-line tools of the folder scripts: the replay tool, the load test and the bots.
pub mod Verify
pub mod Samples
pub mod Accounts
pub mod Players
