-- ===== src/Battle/Model.antt =====
-- internal/battle/model.go, action.go and error.go: the state of a game.
-- `Players [2]*Player` holds two distinct pointers, so it is two fields, and an index 0 or 1 into it
-- is a `Seat`. `HP`, `Mana`, `Atk` and `MaxHP` are 64-bit ints; `MaxMana`, `Fatigue`, `Round` and
-- `nextInstID` begin at 0 or 1 and only ever grow by 1, so they are natural numbers. The random
-- source is used by `NewState` alone and is an argument there. The text of an error is left out.
use pet.Base.{ℕ, String, ℤ, Bool, List, Option}
use pet.Deck.{Catalog}

abbrev pub start_hp : ℕ
start_hp = 20

abbrev pub hand_start : ℕ
hand_start = 3

abbrev pub max_mana_limit : ℕ  -- `MaxMana`
max_mana_limit = 10

abbrev pub board_limit : ℕ
board_limit = 5

pub data Seat : Type 0 where
  first second : Seat

-- `1 - i`
abbrev pub other : Seat → Seat
other first = second
other second = first

pub record Minion : Type 0 where
  pub inst_id : String
  pub card_id : String
  pub atk : ℤ
  pub hp : ℤ
  pub max_hp : ℤ
  pub can_attack : Bool

pub record Player : Type 0 where
  pub id : String
  pub hp : ℤ
  pub mana : ℤ
  pub max_mana : ℕ
  pub deck : List String
  pub hand : List String
  pub board : List Minion
  pub fatigue : ℕ

pub record State : Type 0 where
  pub room_id : String
  pub first_player : Player
  pub second_player : Player
  pub turn : Seat
  pub round : ℕ
  pub seed : ℤ
  pub over : Bool
  pub winner : String
  pub first_init_deck : List String
  pub second_init_deck : List String
  pub cat : Catalog
  pub next_inst_id : ℕ

-- `s.Players[i]`
abbrev pub player : State → Seat → Player
player s first = s.first_player
player s second = s.second_player

-- A write through the pointer `s.Players[i]`.
abbrev pub put : State → Seat → Player → State
put s first p = record s { first_player = p }
put s second p = record s { second_player = p }

pub record Action : Type 0 where
  pub kind : String  -- `Type`
  pub card_id : String
  pub inst_id : String
  pub target : String

pub data Code : Type 0 where
  game_over not_your_turn card_not_in_hand not_enough_mana board_full unknown_action : Code
  unknown_card not_implemented not_in_game minion_not_found cant_attack : Code
  target_not_found invalid_target : Code

-- A method that mutates the state and returns an error: `none` is nil.
abbrev pub Outcome : Type 0
Outcome = State × Option Code

-- The action types.
abbrev pub play_card_kind : String
play_card_kind = "play_card"

abbrev pub attack_kind : String
attack_kind = "attack"

abbrev pub end_turn_kind : String
end_turn_kind = "end_turn"
