-- ===== src/Room/Model.antt =====
-- internal/room/state.go, the types of room.go and report.go, and internal/battle/checksum.go.
-- `encoding/json`, `time` and `hash/fnv` are external: a `Host`. Of the callbacks, `Out` is the list of
-- the messages sent, and `OnFinish` is called with the report that `finish` returns.
use pet.Base.{
  ℕ, ◌+◌, ◌≡◌, ◌≢◌, String, ℤ, Bool, true, false, ◌||◌, List, [], ◌∷◌, ◌++◌, map, Option, none,
  if◌then◌else◌, str_eq,
}
use pet.Battle.Model.{Seat, Action, Code, Minion, Player, State}
use pet.Battle.View.{View}

-- An argument of `fmt.Fprintf`.
pub data Arg : Type 0 where
  seat : Seat → Arg
  number : ℕ → Arg
  int : ℤ → Arg
  flag : Bool → Arg
  text : String → Arg
  texts : List String → Arg

-- One call of `fmt.Fprintf`: the format and the arguments.
abbrev pub Write : Type 0
Write = String × List Arg

pub record Host : Type 1 where
  pub Raw : Type 0  -- `json.RawMessage`
  pub null : Raw  -- nil
  pub is_empty : Raw → Bool
  pub parse : Raw → Option Action  -- `json.Unmarshal` into an action
  pub Time : Type 0
  pub millis : Time → Time → ℤ  -- from the first to the second
  pub sum64 : List Write → String  -- FNV-64a of the text written, in hexadecimal
  pub null_is_empty : is_empty null ≡ true
  pub parse_empty : (r : Raw) → is_empty r ≡ true → parse r ≡ none
  pub sum64_digits : (ws : List Write) → sum64 ws ≢ ""

minion_write : Minion → Write
minion_write m = (
  ";%s,%s,%d,%d,%d,%v",
  text m.inst_id ∷ text m.card_id ∷ int m.atk ∷ int m.hp ∷ int m.max_hp ∷ flag m.can_attack ∷ [],
)

player_writes : Player → List Write
player_writes p =
    (
      "|%s,%d,%d,%d,%d,%q,%q",
      text p.id
          ∷ int p.hp
          ∷ int p.mana
          ∷ number p.max_mana
          ∷ number p.fatigue
          ∷ texts p.hand
          ∷ texts p.deck
          ∷ [],
    )
    ∷ map minion_write p.board

writes : State → List Write
writes s =
    (
      "%d|%d|%v|%s|%d",
      seat s.turn ∷ number s.round ∷ flag s.over ∷ text s.winner ∷ number s.next_inst_id ∷ [],
    )
      ∷ player_writes s.first_player
    ++ player_writes s.second_player

-- The messages of `status`, `sendView`, `sendErr` and the end of a game.
pub data Message : Type 0 where
  status : String → Message
  game_state : View → Message
  refusal : Option Code → Message  -- `none` is the code "internal"
  game_over : String → Message

-- The map that `joined` and `online` are.
abbrev pub Flags : Type 0
Flags = List (String × Bool)

unfoldable pub count_true : Flags → ℕ
count_true [] = 0
count_true ((id, v) ∷ m) = (if v then 1 else 0) + count_true m

module _ (H : Host) where
  unfoldable pub checksum : State → String
  unfolding writes player_writes minion_write
  checksum s = H.sum64 (writes s)

  pub record LogEntry : Type 0 where
    pub seq : ℕ
    pub player : String
    pub kind : String  -- `Type`
    pub raw : H.Raw  -- `Data`
    pub auto : Bool
    pub at_ms : ℤ
    pub hash : String

  pub record Cmd : Type 0 where
    pub player_id : String
    pub kind : String  -- `Type`
    pub raw : H.Raw  -- `Data`

  pub record Report : Type 0 where
    pub room_id : String
    pub first_id : String
    pub second_id : String
    pub winner : String
    pub reason : String
    pub seed : ℤ
    pub rounds : ℕ
    pub actions : List LogEntry
    pub started_at : H.Time
    pub ended_at : H.Time
    pub first_init_deck : List String
    pub second_init_deck : List String

  -- A room with its session: `has_out` and `has_on_finish` say which callbacks are set, and
  -- `grace_on` whether the grace timer runs.
  pub record Room : Type 0 where
    pub id : String
    pub first_id : String
    pub second_id : String
    pub has_out : Bool
    pub has_on_finish : Bool
    pub battle : Option State
    pub seq : ℕ
    pub log : List LogEntry
    pub started_at : H.Time
    pub joined : Flags
    pub online : Flags
    pub started : Bool
    pub grace_on : Bool
    pub sent : List (String × Message)

  -- `newSession` with `New`, and what `Create` sets: `out` and `onFinish` are given.
  unfoldable pub new_room : String → String → String → Option State → H.Time → Room
  new_room id a b battle zero_time = record {
    id = id;
    first_id = a;
    second_id = b;
    has_out = true;
    has_on_finish = true;
    battle = battle;
    seq = 0;
    log = [];
    started_at = zero_time;
    joined = [];
    online = [];
    started = false;
    grace_on = false;
    sent = [];
  }

  unfoldable pub has_player : Room → String → Bool
  has_player r id = str_eq id r.first_id || str_eq id r.second_id
