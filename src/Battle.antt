-- ===== src/Battle.antt =====
-- internal/battle: the rules of a game, one module for each part of the package and, below, one
-- for each group of theorems.
pub mod Model
pub mod Turns
pub mod Actions
pub mod Setup
pub mod Board
pub mod Invariant
pub mod Players
pub mod Steps
pub mod Play
pub mod Combat
pub mod Legal
pub mod Finds
pub mod Rules
pub mod Results
pub mod Agreement
pub mod Opening
pub mod Cards
pub mod Effects
pub mod Conservation
pub mod Dealing
pub mod Measure
pub mod Replay
pub mod History
pub mod View
pub mod Ending
pub mod Settings
