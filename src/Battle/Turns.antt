-- ===== src/Battle/Turns.antt =====
-- internal/battle/state.go and the `endTurn` of apply.go: drawing, the end of a game, turns.
use pet.Base.{
  ℕ, ◌+◌, ◌/◌, String, ℤ, pos, Bool, true, false, [], ◌∷◌, ◌++◌, map, Option, none, some,
  if◌then◌else◌, str_eq, ltb, leb_ℤ, sub_int, decimal,
}
use pet.Battle.Model.{
  Seat, first, second, other, Minion, Player, State, player, put, max_mana_limit,
}

-- `Draw`: the pair `("", false)` is `none`.
unfoldable pub draw : State → Seat → State × Option String
draw s i =
    let p = player s i in
    elim p.deck [
      | [] ↦ (s, none)
      | card ∷ rest ↦ (put s i (record p { deck = rest; hand = p.hand ++ card ∷ [] }), some card)
    ]

-- The counter goes up, and the result names the new minion.
abbrev pub inst_name : ℕ → String
inst_name n = String.◌∷◌ "m" (decimal n)

unfoldable pub new_inst_id : State → State × String
new_inst_id s = let n = s.next_inst_id + 1 in (record s { next_inst_id = n }, inst_name n)

unfoldable pub is_dead : ℤ → Bool
is_dead hp = leb_ℤ hp (pos 0)

-- The `switch` of `checkOver`.
unfoldable pub decide_over : State → Bool → Bool → State
decide_over s true true = record s { over = true; winner = "" }
decide_over s true false = record s { over = true; winner = s.second_player.id }
decide_over s false true = record s { over = true; winner = s.first_player.id }
decide_over s false false = s

unfoldable pub check_over : State → State
unfolding is_dead decide_over
check_over s =
    if s.over then s else decide_over s (is_dead s.first_player.hp) (is_dead s.second_player.hp)

-- The first two statements of `beginTurn`.
unfoldable pub refill : Player → Player
refill p =
    let m = if ltb p.max_mana max_mana_limit then p.max_mana + 1 else p.max_mana in
    record p { max_mana = m; mana = pos m }

unfoldable pub tire : Player → Player
tire p = let f = p.fatigue + 1 in record p { fatigue = f; hp = sub_int p.hp (pos f) }

unfoldable pub wake : Minion → Minion
wake m = record m { can_attack = true }

unfoldable pub wake_all : Player → Player
unfolding wake
wake_all p = record p { board = map wake p.board }

-- What `beginTurn` does about the drawn card.
unfoldable pub after_draw : Seat → State × Option String → State
unfolding tire check_over
after_draw i (s, some card) = s
after_draw i (s, none) = check_over (put s i (tire (player s i)))

unfoldable pub begin_turn : State → Seat → State
unfolding refill draw after_draw wake_all
begin_turn s i =
    let drawn = after_draw i (draw (put s i (refill (player s i))) i) in
    put drawn i (wake_all (player drawn i))

unfoldable pub end_turn : State → Seat → State
unfolding begin_turn
end_turn s i = begin_turn (record s { turn = other i; round = s.round + 1 }) (other i)

-- `indexOf`: -1 is `none`.
unfoldable pub index_of : State → String → Option Seat
index_of s player_id =
    if str_eq s.first_player.id player_id
    then some first
    else if str_eq s.second_player.id player_id
    then some second
    else none

unfoldable pub display_round : State → ℕ
display_round s = (s.round + 1) / 2
