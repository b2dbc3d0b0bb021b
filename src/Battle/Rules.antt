-- ===== src/Battle/Rules.antt =====
-- The rules of the game, said without the code of internal/battle: who may make which move, and field
-- by field the state that follows.
use pet.Base.{
  ℕ, ◌+◌, ◌<◌, ◌≡◌, ◌≢◌, String, pos, ◌≤ℤ◌, ◌<ℤ◌, true, false, List, [], ◌∷◌, ◌++◌, map, some,
  length, if◌then◌else◌, ltb, sub_int,
}
use pet.Deck.{Card, get, type_minion}
use pet.Battle.Model.{
  Seat, first, second, other, Minion, Player, State, Action, player, max_mana_limit, board_limit,
  play_card_kind, attack_kind, end_turn_kind,
}
use pet.Battle.Turns.{inst_name}
use pet.Battle.Board.{living}
use pet.Battle.Finds.{FirstCard, LacksInst, FirstMinion}

-- The player with this id sits at the seat; the first seat goes before.
abbrev pub Sits : State → String → Seat → Type 0
Sits s player_id first = s.first_player.id ≡ player_id
Sits s player_id second = (s.first_player.id ≢ player_id) × (s.second_player.id ≡ player_id)

-- The game goes on, and it is the turn of the player, who sits at `i`.
pub record IsOnTurn (s : State) (player_id : String) (i : Seat) : Type 0 where
  pub not_over : s.over ≡ false
  pub sits : Sits s player_id i
  pub on_turn : s.turn ≡ i

-- The state with other players: the one at the seat, and the opponent.
abbrev pub with_players : State → Seat → Player → Player → State
with_players s first me opposite = record s { first_player = me; second_player = opposite }
with_players s second me opposite = record s { first_player = opposite; second_player = me }

-- The end of a game, by the players' health.
pub data Judged (s t : State) : Type 0 where
  goes_on : pos 0 <ℤ s.first_player.hp → pos 0 <ℤ s.second_player.hp → t ≡ s → Judged s t
  first_wins :
      pos 0 <ℤ s.first_player.hp
      → s.second_player.hp ≤ℤ pos 0
      → t ≡ record s { over = true; winner = s.first_player.id }
      → Judged s t
  second_wins :
      s.first_player.hp ≤ℤ pos 0
      → pos 0 <ℤ s.second_player.hp
      → t ≡ record s { over = true; winner = s.second_player.id }
      → Judged s t
  nobody_wins :
      s.first_player.hp ≤ℤ pos 0
      → s.second_player.hp ≤ℤ pos 0
      → t ≡ record s { over = true; winner = "" }
      → Judged s t

-- A card is played: it leaves the hand, costs its mana, and a minion that sleeps joins the board.
abbrev pub summoned : State → Card → Minion
summoned s card = record {
  inst_id = inst_name (s.next_inst_id + 1);
  card_id = card.id;
  atk = card.atk;
  hp = card.hp;
  max_hp = card.hp;
  can_attack = false;
}

abbrev pub after_play : State → Seat → Card → List String → State
after_play s i card hand =
    let me = player s i in
    with_players (record s { next_inst_id = s.next_inst_id + 1 }) i
      (record me {
        mana = sub_int me.mana card.cost;
        hand = hand;
        board = me.board ++ summoned s card ∷ [];
      })
      (player s (other i))

-- An attack on the face: the opponent loses health, and the attacker falls asleep.
abbrev pub after_hit : State → Seat → Minion → List Minion → List Minion → State
after_hit s i m before after =
    let me = player s i in
    let opposite = player s (other i) in
    with_players s i
      (record me { board = living (before ++ (record m { can_attack = false }) ∷ after) })
      (record opposite { hp = sub_int opposite.hp m.atk; board = living opposite.board })

-- A fight: both minions lose health, the attacker falls asleep, and the dead are removed.
abbrev pub after_fight :
    State → Seat → Minion → List Minion → List Minion → Minion → List Minion → List Minion → State
after_fight s i m before after d left right =
    let me = player s i in
    let opposite = player s (other i) in
    with_players s i
      (record me {
        board =
            living (before ++ (record m { hp = sub_int m.hp d.atk; can_attack = false }) ∷ after);
      })
      (record opposite { board = living (left ++ (record d { hp = sub_int d.hp m.atk }) ∷ right) })

-- The mana of a player whose turn begins.
abbrev pub next_mana : Player → ℕ
next_mana p = if ltb p.max_mana max_mana_limit then p.max_mana + 1 else p.max_mana

abbrev pub awake : Minion → Minion
awake m = record m { can_attack = true }

-- The turn passes to the opponent, who is `me` here: the mana is refilled, a card is drawn, and the
-- minions wake up.
abbrev pub after_card : State → Seat → String → List String → State
after_card s i card rest =
    let me = player s (other i) in
    with_players (record s { turn = other i; round = s.round + 1 }) i (player s i)
      (record me {
        max_mana = next_mana me;
        mana = pos (next_mana me);
        deck = rest;
        hand = me.hand ++ card ∷ [];
        board = map awake me.board;
      })

-- The same with an empty deck: each time the player loses one health more.
abbrev pub after_fatigue : State → Seat → State
after_fatigue s i =
    let me = player s (other i) in
    with_players (record s { turn = other i; round = s.round + 1 }) i (player s i)
      (record me {
        max_mana = next_mana me;
        mana = pos (next_mana me);
        fatigue = me.fatigue + 1;
        hp = sub_int me.hp (pos (me.fatigue + 1));
        board = map awake me.board;
      })

-- A minion of the player that may attack.
pub record IsReady (s : State) (i : Seat) (a : Action) (m : Minion) (before after : List Minion)
    : Type 0 where
  pub own : FirstMinion a.inst_id (player s i).board m before after
  pub is_awake : m.can_attack ≡ true
  pub armed : pos 0 <ℤ m.atk

pub data Move (s : State) (player_id : String) (a : Action) (t : State) : Type 0 where
  plays :
      (i : Seat)
      → IsOnTurn s player_id i
      → a.kind ≡ play_card_kind
      → (card : Card) (before after : List String)
      → FirstCard a.card_id (player s i).hand before after
      → get s.cat a.card_id ≡ some card
      → card.kind ≡ type_minion
      → card.cost ≤ℤ (player s i).mana
      → length (player s i).board < board_limit
      → t ≡ after_play s i card (before ++ after)
      → Move s player_id a t
  hits :
      (i : Seat)
      → IsOnTurn s player_id i
      → a.kind ≡ attack_kind
      → (m : Minion) (before after : List Minion) → IsReady s i a m before after
      → a.target ≡ "face"
      → Judged (after_hit s i m before after) t
      → Move s player_id a t
  fights :
      (i : Seat)
      → IsOnTurn s player_id i
      → a.kind ≡ attack_kind
      → (m : Minion) (before after : List Minion) → IsReady s i a m before after
      → a.target ≢ "face"
      → LacksInst a.target (player s i).board
      → (d : Minion) (left right : List Minion)
      → FirstMinion a.target (player s (other i)).board d left right
      → Judged (after_fight s i m before after d left right) t
      → Move s player_id a t
  draws :
      (i : Seat)
      → IsOnTurn s player_id i
      → a.kind ≡ end_turn_kind
      → (card : String) (rest : List String) → (player s (other i)).deck ≡ card ∷ rest
      → t ≡ after_card s i card rest
      → Move s player_id a t
  tires :
      (i : Seat)
      → IsOnTurn s player_id i
      → a.kind ≡ end_turn_kind
      → (player s (other i)).deck ≡ []
      → Judged (after_fatigue s i) t
      → Move s player_id a t
