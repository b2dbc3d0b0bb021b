-- ===== src/Battle/Actions.antt =====
-- internal/battle/apply.go, with `Summon`, `removeDead`, `findMinion` and `indexOfString` of state.go.
-- A pointer into a board is the minion that it points to, with its position.
use pet.Base.{
  ℕ, zero, suc, ◌+◌, String, ℤ, pos, Bool, true, false, not, List, [], ◌∷◌, ◌++◌, Option, none,
  some, if◌then◌else◌, str_eq, leb, ltb_ℤ, leb_ℤ, sub_int, length, get_elem?, set, take, drop,
}
use pet.Deck.{Card, get, type_minion}
use pet.Battle.Model.{
  Seat, first, second, other, Minion, Player, State, player, put, board_limit, Action, Code,
  game_over, not_your_turn, card_not_in_hand, not_enough_mana, board_full, unknown_action,
  unknown_card, not_implemented, not_in_game, minion_not_found, cant_attack, target_not_found,
  invalid_target, Outcome, play_card_kind, attack_kind, end_turn_kind,
}
use pet.Battle.Turns.{new_inst_id, check_over, end_turn, index_of}

-- `i != s.Turn`
unfoldable pub seat_eq : Seat → Seat → Bool
seat_eq first first = true
seat_eq second second = true
seat_eq _ _ = false

-- `indexOfString`: -1 is `none`; `i` is the position of the head.
unfoldable pub index_from : ℕ → List String → String → Option ℕ
index_from i [] x = none
index_from i (v ∷ vs) x = if str_eq v x then some i else index_from (i + 1) vs x

unfoldable pub index_of_string : List String → String → Option ℕ
index_of_string xs x = index_from 0 xs x

unfoldable pub minion_from : ℕ → List Minion → String → Option (Minion × ℕ)
minion_from k [] inst_id = none
minion_from k (m ∷ ms) inst_id =
    if str_eq m.inst_id inst_id then some (m, k) else minion_from (k + 1) ms inst_id

unfoldable pub find_minion : Player → String → Option (Minion × ℕ)
find_minion p inst_id = minion_from 0 p.board inst_id

-- `for k := range p.Board` of `removeDead`: `n` rounds are left, and `j` is the next free place.
unfoldable pub compact : ℕ → ℕ → ℕ → List Minion → List Minion × ℕ
compact zero k j board = (board, j)
compact (suc n) k j board = elim (get_elem? board k) [
  | none ↦ (board, j)
  | some m ↦ elim (ltb_ℤ (pos 0) m.hp) [
    | true ↦ compact n (k + 1) (j + 1) (set board j m)
    | false ↦ compact n (k + 1) j board
  ]
]

unfoldable pub bury : Player → Player
bury p = let (board, j) = compact (length p.board) 0 0 p.board in record p { board = take j board }

unfoldable pub remove_dead : State → State
remove_dead s = record s {
  first_player = bury s.first_player;
  second_player = bury s.second_player;
}

unfoldable pub fresh_minion : Card → String → Minion
fresh_minion card inst_id = record {
  inst_id = inst_id;
  card_id = card.id;
  atk = card.atk;
  hp = card.hp;
  max_hp = card.hp;
  can_attack = false;
}

-- The last part of `Summon`, when nothing stands against it.
unfoldable pub place : State → Seat → Card → State
unfolding new_inst_id
place s i card =
    let (s', inst_id) = new_inst_id s in
    let p = player s' i in put s' i (record p { board = p.board ++ fresh_minion card inst_id ∷ [] })

-- `Summon`, without the minion that it also returns: `playCard` does not read it.
unfoldable pub summon : State → Seat → String → Outcome
unfolding place
summon s i card_id = elim (get s.cat card_id) [
  | none ↦ (s, some unknown_card)
  | some card ↦
      if not (str_eq card.kind type_minion)
      then (s, some not_implemented)
      else if leb board_limit (length (player s i).board)
      then (s, some board_full)
      else (place s i card, none)
]

-- `append(p.Hand[:hi], p.Hand[hi+1:]...)`
unfoldable pub remove_at : ℕ → List String → List String
remove_at hi hand = take hi hand ++ drop (hi + 1) hand

-- What follows a successful `Summon` in `playCard`.
unfoldable pub pay : State → Seat → ℤ → ℕ → State
unfolding remove_at
pay s i cost hi =
    let p = player s i in
    put s i (record p { mana = sub_int p.mana cost; hand = remove_at hi p.hand })

unfoldable pub after_summon : Outcome → Seat → ℤ → ℕ → Outcome
unfolding pay
after_summon (s, some code) i cost hi = (s, some code)
after_summon (s, none) i cost hi = (pay s i cost hi, none)

unfoldable pub play_card : State → Seat → Action → Outcome
unfolding summon after_summon
play_card s i a = elim (index_of_string (player s i).hand a.card_id) [
  | none ↦ (s, some card_not_in_hand)
  | some hi ↦ elim (get s.cat a.card_id) [
    | none ↦ (s, some unknown_card)
    | some card ↦
        if ltb_ℤ (player s i).mana card.cost
        then (s, some not_enough_mana)
        else after_summon (summon s i a.card_id) i card.cost hi
  ]
]

-- `def`: nil stands for the face.
pub data Target : Type 0 where
  face : Target
  minion : Minion → ℕ → Target
  refused : Code → Target

unfoldable pub choose_target : Player → Player → String → Target
unfolding find_minion
choose_target me opposite target =
    if str_eq target "face" then face else elim (find_minion me target) [
      | some (m, k) ↦ refused invalid_target
      | none ↦ elim (find_minion opposite target) [
        | none ↦ refused target_not_found
        | some (m, k) ↦ minion m k
      ]
    ]

-- The blow: the attacker stands at `k` of the board of `i`.
unfoldable pub strike : State → Seat → Minion → ℕ → Target → Outcome
strike s i attacker k (refused code) = (s, some code)
strike s i attacker k face =
    let me = player s i in
    let opposite = player s (other i) in
    let hit = put s (other i) (record opposite { hp = sub_int opposite.hp attacker.atk }) in
    (
      put hit i (record me { board = set me.board k (record attacker { can_attack = false }) }),
      none,
    )
strike s i attacker k (minion def d) =
    let me = player s i in
    let opposite = player s (other i) in
    let def' = record def { hp = sub_int def.hp attacker.atk } in
    let attacker' = record attacker { hp = sub_int attacker.hp def.atk; can_attack = false } in
    let hit = put s (other i) (record opposite { board = set opposite.board d def' }) in
    (put hit i (record me { board = set me.board k attacker' }), none)

-- `s.removeDead(); s.checkOver()`
unfoldable pub settle : Outcome → Outcome
settle (s, some code) = (s, some code)
settle (s, none) = (check_over (remove_dead s), none)

unfoldable pub attack : State → Seat → Action → Outcome
attack s i a = elim (find_minion (player s i) a.inst_id) [
  | none ↦ (s, some minion_not_found)
  | some (attacker, k) ↦
      if not attacker.can_attack
      then (s, some cant_attack)
      else if leb_ℤ attacker.atk (pos 0)
      then (s, some cant_attack)
      else settle (strike s i attacker k (choose_target (player s i) (player s (other i)) a.target))
]

-- The `switch` of `Apply`.
unfoldable pub dispatch : State → Seat → Action → Outcome
dispatch s i a =
    if str_eq a.kind play_card_kind
    then play_card s i a
    else if str_eq a.kind attack_kind
    then attack s i a
    else if str_eq a.kind end_turn_kind
    then (end_turn s i, none)
    else (s, some unknown_action)

unfoldable pub apply : State → String → Action → Outcome
unfolding seat_eq dispatch
apply s player_id a = if s.over then (s, some game_over) else elim (index_of s player_id) [
  | none ↦ (s, some not_in_game)
  | some i ↦ if not (seat_eq i s.turn) then (s, some not_your_turn) else dispatch s i a
]
