-- ===== src/Battle/View.antt =====
-- internal/battle/view.go: what a player is shown, and what stays hidden.
use pet.Base.{ℕ, ◌≡◌, String, ℤ, Bool, true, false, List, [], length, arith, if◌then◌else◌}
use pet.Battle.Model.{Seat, first, second, other, Minion, Player, State, player, put}
use pet.Battle.Actions.{seat_eq}

-- A hand that is not shown is nil, as an empty one.
pub record PlayerView : Type 0 where
  pub id : String
  pub hp : ℤ
  pub mana : ℤ
  pub max_mana : ℕ
  pub fatigue : ℕ
  pub board : List Minion
  pub hand : List String
  pub hand_count : ℕ
  pub deck_count : ℕ

pub record View : Type 0 where
  pub seq : ℕ
  pub me : PlayerView
  pub opp : PlayerView
  pub your_turn : Bool
  pub round : ℕ
  pub over : Bool
  pub winner : String

unfoldable pub to_view : Player → Bool → PlayerView
to_view p show_hand = record {
  id = p.id;
  hp = p.hp;
  mana = p.mana;
  max_mana = p.max_mana;
  fatigue = p.fatigue;
  board = p.board;
  hand = if show_hand then p.hand else [];
  hand_count = length p.hand;
  deck_count = length p.deck;
}

-- `Seq` is left 0 here; the room fills it in.
unfoldable pub view_for : State → Seat → View
unfolding to_view
view_for s i = record {
  seq = 0;
  me = to_view (player s i) true;
  opp = to_view (player s (other i)) false;
  your_turn = seat_eq i s.turn;
  round = s.round;
  over = s.over;
  winner = s.winner;
}

pub record GodView : Type 0 where
  pub first_view : PlayerView
  pub second_view : PlayerView
  pub turn : Seat
  pub round : ℕ
  pub over : Bool
  pub winner : String

unfoldable pub god_view : State → GodView
unfolding to_view
god_view s = record {
  first_view = to_view s.first_player true;
  second_view = to_view s.second_player true;
  turn = s.turn;
  round = s.round;
  over = s.over;
  winner = s.winner;
}

-- The state with other values for all that the player `i` must not see: the order and cards of both
-- decks, the opponent's hand, the seed, the opening decks and the counter of minions.
abbrev pub conceal : State → Seat → List String → List String → List String → ℤ → ℕ → State
conceal s i my_deck their_deck their_hand seed n =
    let s' =
      put s (other i) (record (player s (other i)) { deck = their_deck; hand = their_hand }) in
    let t = put s' i (record (player s i) { deck = my_deck }) in
    record t { seed = seed; next_inst_id = n; first_init_deck = []; second_init_deck = [] }

-- `ViewFor` gives a player the same view when the opponent's hand, both decks, the seed, the
-- opening decks and the counter of minions are exchanged for others, as long as the hand and the
-- decks keep their lengths.
pub view_for-conceal :
    (s : State) (i : Seat) (my_deck their_deck their_hand : List String) (seed : ℤ) (n : ℕ)
    → length my_deck ≡ length (player s i).deck
    → length their_deck ≡ length (player s (other i)).deck
    → length their_hand ≡ length (player s (other i)).hand
    → view_for (conceal s i my_deck their_deck their_hand seed n) i ≡ view_for s i
unfolding view_for
view_for-conceal s first my_deck their_deck their_hand seed n e f g = ground arith
view_for-conceal s second my_deck their_deck their_hand seed n e f g = ground arith
