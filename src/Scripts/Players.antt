-- ===== src/Scripts/Players.antt =====
-- scripts/bot/loadtest.go and scripts/bot/main.go: what the players of the load test and the bots
-- count. What the server answers to a player is an argument; the counters are added to by one
-- player after another, since the sums do not depend on the order. Waiting, timeouts, the samples
-- and the polling of the peaks are not modelled here.
pub mod Load
pub mod Bots
pub mod Played
use pet.Base.{
  ℕ, zero, suc, ◌+◌, ◌/◌, String, Bool, true, false, not, List, [], ◌∷◌, Option, none, some,
  if◌then◌else◌, str_eq, ltb,
}
use pet.Bot.Client.{GameResult}

-- The answer to a login: none, one that is no JSON, or its token and its error.
pub data Reply : Type 0 where
  no_reply undecodable : Reply
  reply : String → String → Reply

unfoldable pub login : Reply → Option String
login no_reply = none
login undecodable = none
login (reply token error) = if str_eq token "" then none else some token

-- `none` is an error; the message is the type of the first one.
unfoldable pub dial : Bool → Option String → Bool
dial false message = false
dial true none = false
dial true (some kind) = str_eq kind "welcome"

-- A game of a player: the enqueuing is not written, `playOne` fails, or it returns a result.
pub data Attempt : Type 0 where
  not_enqueued not_played : Attempt
  finished : GameResult → Attempt

pub record Player : Type 0 where
  pub answer : Reply
  pub connects : Bool
  pub greeting : Option String
  pub attempts : ℕ → Attempt
