-- ===== src/Battle/Players.antt =====
-- What one player's part of a move does to that player, and when a player may be put back into a
-- game. (`Draw`, `beginTurn`, `playCard` and `attack` of internal/battle.)
use pet.Base.{
  ℕ, zero, suc, ◌+◌, ◌≤◌, ◌<◌, ◌≡◌, refl, String, pos, ◌<ℤ◌, List, [], ◌∷◌, map, length, All, arith,
  sub_int_parts, sub_int-IsInt,
}
use pet.Battle.Model.{Seat, first, second, Minion, Player, State, player, put, board_limit}
use pet.Battle.Turns.{refill, tire, wake, wake_all, inst_name}
use pet.Battle.Actions.{bury}
use pet.Battle.Board.{IsAlive, count_inst, living, length-living, bury-living, All-living}
use pet.Battle.Invariant.{tri, MinionIsSound, PlayerIsSound, IsSane}

tri-add_one : (f : ℕ) → tri (f + 1) ≡ tri f + f + 1
unfolding tri
tri-add_one f = ground arith

-- A player with health left has been tired five times at most.
tri-lt : (f : ℕ) → tri f < 20 → f ≤ 5
unfolding tri
tri-lt zero h = omega arith
tri-lt (suc zero) h = omega arith
tri-lt (suc (suc zero)) h = omega arith
tri-lt (suc (suc (suc zero))) h = omega arith
tri-lt (suc (suc (suc (suc zero)))) h = omega arith
tri-lt (suc (suc (suc (suc (suc zero))))) h = omega arith
tri-lt (suc (suc (suc (suc (suc (suc f)))))) h = absurd (omega arith)

pub refill-PlayerIsSound : (p : Player) → PlayerIsSound p → PlayerIsSound (refill p)
unfolding refill
refill-PlayerIsSound p h = ground arith

pub fatigue-le : (p : Player) → PlayerIsSound p → pos 0 <ℤ p.hp → p.fatigue ≤ 5
fatigue-le p h alive = tri-lt p.fatigue (omega (arith, h.hp_cap))

pub tire-PlayerIsSound :
    (p : Player) → PlayerIsSound p → pos 0 <ℤ p.hp → p.deck ≡ [] → PlayerIsSound (tire p)
unfolding tire
tire-PlayerIsSound p h alive empty =
    let few = fatigue-le p h alive in
    let parts =
      sub_int_parts p.hp (pos (p.fatigue + 1)) h.hp_int (omega (arith, few)) (omega arith)
        (omega arith) in
    let int = sub_int-IsInt p.hp (pos (p.fatigue + 1)) h.hp_int (omega (arith, few)) in
    record {
      hp_int = int;
      hp_cap = omega (arith, tri-add_one p.fatigue, parts, h.hp_cap);
      mana_nonneg = h.mana_nonneg;
      mana_le_max = h.mana_le_max;
      max_mana_le_limit = h.max_mana_le_limit;
      tired_without_deck = λ _. empty;
      fatigue_le = omega (arith, few);
      board_le_limit = h.board_le_limit;
      minions_sound = h.minions_sound;
    }

All-wake : (ms : List Minion) → All MinionIsSound ms → All MinionIsSound (map wake ms)
unfolding wake
All-wake [] h = tt
All-wake (m ∷ ms) h = ground (arith, All-wake ms h.1)

pub wake-IsAlive : (ms : List Minion) → All IsAlive ms → All IsAlive (map wake ms)
unfolding wake
wake-IsAlive [] h = tt
wake-IsAlive (m ∷ ms) h = ground (arith, wake-IsAlive ms h.1)

length-wake : (ms : List Minion) → length (map wake ms) ≡ length ms
length-wake [] = refl
length-wake (m ∷ ms) = omega (arith, length-wake ms)

pub wake_all-PlayerIsSound : (p : Player) → PlayerIsSound p → PlayerIsSound (wake_all p)
unfolding wake_all
wake_all-PlayerIsSound p h = record {
  hp_int = h.hp_int;
  hp_cap = h.hp_cap;
  mana_nonneg = h.mana_nonneg;
  mana_le_max = h.mana_le_max;
  max_mana_le_limit = h.max_mana_le_limit;
  tired_without_deck = h.tired_without_deck;
  fatigue_le = h.fatigue_le;
  board_le_limit = omega (arith, length-wake p.board, h.board_le_limit);
  minions_sound = All-wake p.board h.minions_sound;
}

-- A player sound but for the board, with a sound board.
pub board-PlayerIsSound :
    (p : Player) (ms : List Minion)
    → PlayerIsSound p
    → length ms ≤ board_limit
    → All MinionIsSound ms
    → PlayerIsSound (record p { board = ms })
board-PlayerIsSound p ms h fits sound = ground arith

pub bury-PlayerIsSound : (p : Player) → PlayerIsSound p → PlayerIsSound (bury p)
bury-PlayerIsSound p h = rw (bury-living p) (
    board-PlayerIsSound p (living p.board) h
      (omega (arith, length-living p.board, h.board_le_limit))
      (All-living MinionIsSound p.board h.minions_sound))

-- The player who drew the top card.
pub drawn-PlayerIsSound :
    (p : Player) (card : String) (rest hand : List String)
    → PlayerIsSound p
    → p.deck ≡ card ∷ rest
    → PlayerIsSound (record p { deck = rest; hand = hand })
drawn-PlayerIsSound p card rest hand h e = ground arith

-- Putting back a sound player of the same name, none of whose minions has a new id.
pub put-IsSane :
    (s : State) (i : Seat) (p : Player)
    → IsSane s
    → PlayerIsSound p
    → p.id ≡ (player s i).id
    → ((x : String) → count_inst x p.board ≤ count_inst x (player s i).board)
    → IsSane (put s i p)
put-IsSane s first p h sound same fewer = record {
  first_sound = sound;
  second_sound = h.second_sound;
  ids_differ = rw same h.ids_differ;
  first_named = rw same h.first_named;
  second_named = h.second_named;
  inst_unique = λ x. omega (arith, fewer x, h.inst_unique x);
  inst_fresh = λ j lt. omega (arith, fewer (inst_name j), h.inst_fresh j lt);
  catalog_valid = h.catalog_valid;
}
put-IsSane s second p h sound same fewer = record {
  first_sound = h.first_sound;
  second_sound = sound;
  ids_differ = rw same h.ids_differ;
  first_named = h.first_named;
  second_named = rw same h.second_named;
  inst_unique = λ x. omega (arith, fewer x, h.inst_unique x);
  inst_fresh = λ j lt. omega (arith, fewer (inst_name j), h.inst_fresh j lt);
  catalog_valid = h.catalog_valid;
}

pub sound_at : (s : State) (i : Seat) → IsSane s → PlayerIsSound (player s i)
sound_at s first h = h.first_sound
sound_at s second h = h.second_sound
