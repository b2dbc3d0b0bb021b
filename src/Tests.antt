-- ===== src/Tests.antt =====
-- Concrete cards, decks and games, on which the theorems of the other modules are applied.
mod Fixture
mod Decks
mod Games
mod Rooms
mod Inbox
mod Replays
mod Services
mod Sorting
mod Tools
mod Matching
mod Bots
mod Requests
mod Connections
