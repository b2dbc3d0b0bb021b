-- ===== src/Battle/Invariant.antt =====
-- The invariant of a game (the rules that the fuzz test of internal/battle checks after each step).
use pet.Base.{
  ℕ, zero, suc, ◌+◌, ◌≤◌, ◌<◌, ◌≡◌, ◌≢◌, String, pos, pos_part, neg_part, ◌≤ℤ◌, IsInt, ◌||◌, [],
  if◌then◌else◌, length, All,
}
use pet.Deck.{IsValidCatalog}
use pet.Battle.Model.{Minion, Player, State, max_mana_limit, start_hp, board_limit}
use pet.Battle.Turns.{inst_name, is_dead}
use pet.Battle.Board.{IsAlive, count_inst}

-- The damage that `f` draws from an empty deck have done: 1 + 2 + ... + f.
unfoldable pub tri : ℕ → ℕ
tri zero = 0
tri (suc f) = tri f + suc f

pub record MinionIsSound (m : Minion) : Type 0 where
  pub atk_nonneg : pos 0 ≤ℤ m.atk
  pub atk_int : IsInt m.atk
  pub hp_int : IsInt m.hp
  pub hp_le_max : m.hp ≤ℤ m.max_hp

pub record PlayerIsSound (p : Player) : Type 0 where
  pub hp_int : IsInt p.hp
  pub hp_cap : pos_part p.hp + tri p.fatigue ≤ start_hp + neg_part p.hp
  pub mana_nonneg : pos 0 ≤ℤ p.mana
  pub mana_le_max : p.mana ≤ℤ pos p.max_mana
  pub max_mana_le_limit : p.max_mana ≤ max_mana_limit
  pub tired_without_deck : 0 < p.fatigue → p.deck ≡ []
  pub fatigue_le : p.fatigue ≤ 6
  pub board_le_limit : length p.board ≤ board_limit
  pub minions_sound : All MinionIsSound p.board

-- How many minions on both boards carry the id `x`.
abbrev pub inst_count : String → State → ℕ
inst_count x s = count_inst x s.first_player.board + count_inst x s.second_player.board

-- All but the verdict.
pub record IsSane (s : State) : Type 0 where
  pub first_sound : PlayerIsSound s.first_player
  pub second_sound : PlayerIsSound s.second_player
  pub ids_differ : s.first_player.id ≢ s.second_player.id
  pub first_named : s.first_player.id ≢ ""
  pub second_named : s.second_player.id ≢ ""
  pub inst_unique : (x : String) → inst_count x s ≤ 1
  pub inst_fresh : (j : ℕ) → s.next_inst_id < j → inst_count (inst_name j) s ≡ 0
  pub catalog_valid : IsValidCatalog s.cat

-- The winner by the players' health: "" for a draw, and while nobody is dead.
abbrev pub winner_by_hp : State → String
winner_by_hp s =
    if is_dead s.first_player.hp
    then (if is_dead s.second_player.hp then "" else s.second_player.id)
    else if is_dead s.second_player.hp
    then s.first_player.id
    else ""

pub record IsJudged (s : State) : Type 0 where
  pub over_iff_dead : s.over ≡ (is_dead s.first_player.hp || is_dead s.second_player.hp)
  pub winner_by : s.winner ≡ winner_by_hp s

pub record IsLive (s : State) : Type 0 where
  pub first_alive : All IsAlive s.first_player.board
  pub second_alive : All IsAlive s.second_player.board

-- The invariant between two actions.
pub record IsSound (s : State) : Type 0 where
  pub sane : IsSane s
  pub live : IsLive s
  pub judged : IsJudged s
