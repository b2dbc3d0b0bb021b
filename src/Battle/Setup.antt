-- ===== src/Battle/Setup.antt =====
-- `NewState` and `shuffle` of internal/battle/state.go. `math/rand` is external: a `Rand` says which
-- swaps `Shuffle` asks for, and that they are in range.
use pet.Base.{
  ℕ, ◌<◌, String, ℤ, pos, Bool, false, ◌||◌, List, [], ◌∷◌, Option, none, some, if◌then◌else◌,
  str_eq, leb, length, get_elem?, set, All,
}
use pet.Deck.{Catalog}
use pet.Battle.Model.{first, second, Player, State, start_hp, hand_start}
use pet.Battle.Turns.{draw, begin_turn}

pub record PlayerInit : Type 0 where
  pub id : String
  pub cards : List String

-- `rand.New(rand.NewSource(seed))` and `(*rand.Rand).Shuffle(n, swap)`.
pub record Rand : Type 1 where
  pub Source : Type 0
  pub new_source : ℤ → Source
  pub shuffle_swaps : Source → ℕ → List (ℕ × ℕ) × Source
  pub in_range :
      (r : Source) (n : ℕ) → All (λ (e : ℕ × ℕ). (e.0 < n) × (e.1 < n)) (shuffle_swaps r n).0

pub data SetupError : Type 0 where
  nil_catalog empty_player_id same_id : SetupError
  short_deck : String → ℕ → SetupError

pub data Setup : Type 0 where
  ready : State → Setup
  failed : SetupError → Setup

-- `d[i], d[j] = d[j], d[i]`
unfoldable pub swap : ℕ → ℕ → List String → List String
swap i j d = elim (get_elem? d i) [
  | none ↦ d
  | some x ↦ elim (get_elem? d j) [ none ↦ d | some y ↦ set (set d i y) j x ]
]

unfoldable pub swap_all : List (ℕ × ℕ) → List String → List String
swap_all [] d = d
swap_all ((i, j) ∷ swaps) d = swap_all swaps (swap i j d)

unfoldable pub seated : String → List String → Player
seated id deck = record {
  id = id;
  hp = pos start_hp;
  mana = pos 0;
  max_mana = 0;
  deck = deck;
  hand = [];
  board = [];
  fatigue = 0;
}

-- The loop that deals the opening hands: each round both players draw.
unfoldable pub deal : ℕ → State → State
deal Prim.Native.Nat.zero s = s
deal (Prim.Native.Nat.suc n) s = deal n (draw (draw s first).0 second).0

-- `len(init.Cards) <= HandStart`
unfoldable pub too_short : PlayerInit → Bool
too_short init = leb (length init.cards) hand_start

unfoldable pub open_game : State → State
unfolding deal begin_turn
open_game s = begin_turn (deal hand_start s) first

module _ (R : Rand) where
  open R use {Source, new_source, shuffle_swaps}

  unfoldable pub shuffle : Source → List String → List String × Source
  unfolding swap_all swap
  shuffle r d = let (swaps, r') = shuffle_swaps r (length d) in (swap_all swaps d, r')

  -- The state before the opening hands.
  unfoldable pub seat_players : String → Catalog → PlayerInit → PlayerInit → ℤ → State
  unfolding seated shuffle
  seat_players room_id cat a b seed =
      let (deck_a, r) = shuffle (new_source seed) a.cards in
      let (deck_b, _) = shuffle r b.cards in
      record {
        room_id = room_id;
        first_player = seated a.id deck_a;
        second_player = seated b.id deck_b;
        turn = first;
        round = 1;
        seed = seed;
        over = false;
        winner = "";
        first_init_deck = a.cards;
        second_init_deck = b.cards;
        cat = cat;
        next_inst_id = 0;
      }

  unfoldable pub new_state : String → Option Catalog → PlayerInit → PlayerInit → ℤ → Setup
  unfolding too_short seat_players open_game
  new_state room_id none a b seed = failed nil_catalog
  new_state room_id (some cat) a b seed =
      if str_eq a.id "" || str_eq b.id ""
      then failed empty_player_id
      else if str_eq a.id b.id
      then failed same_id
      else if too_short a
      then failed (short_deck a.id (length a.cards))
      else if too_short b
      then failed (short_deck b.id (length b.cards))
      else ready (open_game (seat_players room_id cat a b seed))
