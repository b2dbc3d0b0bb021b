-- ===== src/Battle/Results.antt =====
-- The states that internal/battle computes for a move are those of the rules.
use pet.Base.{
  ℕ, Bool, Option, some, none, ◌+◌, ◌≡◌, refl, sym, ap, ◌∙◌, inl, inr, pos, true, false, List, [],
  ◌∷◌, ◌++◌, set, length, leb_ℤ, sub_int, arith, Bool-cases, String,
}
use mathlib.Core.Path.{ap₂}
use pet.Deck.{Card}
use pet.Battle.Model.{Seat, first, second, other, Minion, Player, State, player, put}
use pet.Battle.Turns.{
  new_inst_id, is_dead, decide_over, check_over, refill, tire, wake, wake_all, draw, after_draw,
  begin_turn, end_turn,
}
use pet.Battle.Actions.{fresh_minion, place, pay, remove_at, face, minion, strike, remove_dead}
use pet.Battle.Board.{living, set-append, bury-living}
use pet.Battle.Play.{Played}
use pet.Battle.Combat.{Fought}
use pet.Battle.Finds.{FirstMinion}
use pet.Battle.Rules.{
  with_players, Judged, after_play, after_hit, after_fight, after_card, after_fatigue,
}

pub check_over-Judged : (s : State) → s.over ≡ false → Judged s (check_over s)
unfolding check_over is_dead decide_over
check_over-Judged s open_game = elim (Bool-cases (leb_ℤ s.first_player.hp (pos 0))) [
  | inl d ↦ elim (Bool-cases (leb_ℤ s.second_player.hp (pos 0))) [
    | inl e ↦
        Judged.nobody_wins (ground arith) (ground arith) (rw (open_game, d, e, check_over) refl)
    | inr e ↦
        Judged.second_wins (ground arith) (ground arith) (rw (open_game, d, e, check_over) refl)
  ]
  | inr d ↦ elim (Bool-cases (leb_ℤ s.second_player.hp (pos 0))) [
    | inl e ↦
        Judged.first_wins (ground arith) (ground arith) (rw (open_game, d, e, check_over) refl)
    | inr e ↦ Judged.goes_on (ground arith) (ground arith) (rw (open_game, d, e, check_over) refl)
  ]
]

-- The verdict is determined.
pub Judged-check_over : (s t : State) → s.over ≡ false → Judged s t → t ≡ check_over s
unfolding check_over is_dead decide_over
Judged-check_over s t o (Judged.goes_on p q e) = e ∙ ground arith
Judged-check_over s t o (Judged.first_wins p q e) = e ∙ ground arith
Judged-check_over s t o (Judged.second_wins p q e) = e ∙ ground arith
Judged-check_over s t o (Judged.nobody_wins p q e) = e ∙ ground arith

pub Played-after_play :
    (s : State) (i : Seat) (card : Card) (hi : ℕ) (hand : List String)
    → remove_at hi (player s i).hand ≡ hand
    → Played s i card hi ≡ after_play s i card hand
unfolding place pay new_inst_id fresh_minion
Played-after_play s first card hi hand e = ap (after_play s first card) e
Played-after_play s second card hi hand e = ap (after_play s second card) e

-- The dead leave both boards.
remove_dead-with_players :
    (s : State) (i : Seat) (p q : Player)
    → remove_dead (with_players s i p q)
      ≡ with_players s i (record p { board = living p.board }) (record q { board = living q.board })
unfolding remove_dead
remove_dead-with_players s first p q =
    ap₂ (λ x y. with_players s first x y) (bury-living p) (bury-living q)
remove_dead-with_players s second p q =
    ap₂ (λ x y. with_players s second x y) (bury-living p) (bury-living q)

set-FirstMinion :
    (id : String) (board before after : List Minion) (m v : Minion)
    → FirstMinion id board m before after
    → set board (length before) v ≡ before ++ v ∷ after
set-FirstMinion id board before after m v h =
    ap (λ b. set b (length before) v) h.split ∙ set-append before m v after

-- The blow, before the dead are removed.
strike-face :
    (s : State) (i : Seat) (m : Minion) (k : ℕ)
    → (strike s i m k face).0
      ≡ with_players s i
          (record (player s i) {
            board = set (player s i).board k (record m { can_attack = false });
          })
          (record (player s (other i)) { hp = sub_int (player s (other i)).hp m.atk })
unfolding strike
strike-face s first m k = refl
strike-face s second m k = refl

strike-minion :
    (s : State) (i : Seat) (m d : Minion) (k j : ℕ)
    → (strike s i m k (minion d j)).0
      ≡ with_players s i
          (record (player s i) {
            board =
                set (player s i).board k (record m { hp = sub_int m.hp d.atk; can_attack = false });
          })
          (record (player s (other i)) {
            board = set (player s (other i)).board j (record d { hp = sub_int d.hp m.atk });
          })
unfolding strike
strike-minion s first m d k j = refl
strike-minion s second m d k j = refl

pub Fought-after_hit :
    (s : State) (i : Seat) (id : String) (m : Minion) (before after : List Minion)
    → FirstMinion id (player s i).board m before after
    → Fought s i m (length before) face ≡ check_over (after_hit s i m before after)
Fought-after_hit s i id m before after h =
    let me = player s i in
    let opposite = player s (other i) in
    let v : Minion = record m { can_attack = false } in
    let hurt : Player = record opposite { hp = sub_int opposite.hp m.atk } in
    ap check_over (
      ap remove_dead (strike-face s i m (length before))
      ∙ remove_dead-with_players s i (record me { board = set me.board (length before) v }) hurt
      ∙ ap
          (λ b.
            with_players s i (record me { board = living b })
              (record hurt { board = living opposite.board }))
          (set-FirstMinion id me.board before after m v h))

pub Fought-after_fight :
    (s : State) (i : Seat) (id target : String) (m d : Minion)
    (before after left right : List Minion)
    → FirstMinion id (player s i).board m before after
    → FirstMinion target (player s (other i)).board d left right
    → Fought s i m (length before) (minion d (length left))
      ≡ check_over (after_fight s i m before after d left right)
Fought-after_fight s i id target m d before after left right h k =
    let me = player s i in
    let opposite = player s (other i) in
    let v : Minion = record m { hp = sub_int m.hp d.atk; can_attack = false } in
    let w : Minion = record d { hp = sub_int d.hp m.atk } in
    ap check_over (
      ap remove_dead (strike-minion s i m d (length before) (length left))
      ∙ remove_dead-with_players s i (record me { board = set me.board (length before) v })
          (record opposite { board = set opposite.board (length left) w })
      ∙ ap₂
          (λ b c.
            with_players s i (record me { board = living b })
              (record opposite { board = living c }))
          (set-FirstMinion id me.board before after m v h)
          (set-FirstMinion target opposite.board left right d w k))

-- The minions of the player at `j` wake up.
abbrev woken : Seat → State → State
woken j s = put s j (wake_all (player s j))

woken-decide_over :
    (s : State) (j : Seat) (d e : Bool) → woken j (decide_over s d e) ≡ decide_over (woken j s) d e
unfolding decide_over wake_all
woken-decide_over s first true true = refl
woken-decide_over s first true false = refl
woken-decide_over s first false true = refl
woken-decide_over s first false false = refl
woken-decide_over s second true true = refl
woken-decide_over s second true false = refl
woken-decide_over s second false true = refl
woken-decide_over s second false false = refl

check_over-going :
    (s : State)
    → s.over ≡ false
    → check_over s ≡ decide_over s (is_dead s.first_player.hp) (is_dead s.second_player.hp)
unfolding check_over
check_over-going s o = rw (o, check_over) refl

-- Waking the minions does not change the verdict.
woken-check_over :
    (s : State) (j : Seat) → s.over ≡ false → woken j (check_over s) ≡ check_over (woken j s)
unfolding wake_all
woken-check_over s first o =
    ap (woken first) (check_over-going s o)
    ∙ woken-decide_over s first (is_dead s.first_player.hp) (is_dead s.second_player.hp)
    ∙ sym (check_over-going (woken first s) o)
woken-check_over s second o =
    ap (woken second) (check_over-going s o)
    ∙ woken-decide_over s second (is_dead s.first_player.hp) (is_dead s.second_player.hp)
    ∙ sym (check_over-going (woken second s) o)

draw-card :
    (s : State) (j : Seat) (card : String) (rest : List String)
    → (player s j).deck ≡ card ∷ rest
    → draw s j ≡ (
      put s j (record (player s j) { deck = rest; hand = (player s j).hand ++ card ∷ [] }),
      some card,
    )
unfolding draw
draw-card s j card rest e = rw (e, draw) refl

draw-empty : (s : State) (j : Seat) → (player s j).deck ≡ [] → draw s j ≡ (s, none)
unfolding draw
draw-empty s j e = rw (e, draw) refl

-- The turn that begins, before a card is drawn.
abbrev turn_begun : State → Seat → State
turn_begun s i =
    let u : State = record s { turn = other i; round = s.round + 1 } in
    put u (other i) (refill (player u (other i)))

end_turn-draws :
    (s : State) (i : Seat) (r : State × Option String)
    → draw (turn_begun s i) (other i) ≡ r
    → end_turn s i ≡ woken (other i) (after_draw (other i) r)
unfolding end_turn begin_turn
end_turn-draws s i r e = ap (λ x. woken (other i) (after_draw (other i) x)) e

pub end_turn-after_card :
    (s : State) (i : Seat) (card : String) (rest : List String)
    → (player s (other i)).deck ≡ card ∷ rest
    → end_turn s i ≡ after_card s i card rest
unfolding refill after_draw wake_all wake
end_turn-after_card s first card rest e =
    end_turn-draws s first _ (draw-card (turn_begun s first) second card rest e)
end_turn-after_card s second card rest e =
    end_turn-draws s second _ (draw-card (turn_begun s second) first card rest e)

pub end_turn-after_fatigue :
    (s : State) (i : Seat)
    → s.over ≡ false
    → (player s (other i)).deck ≡ []
    → end_turn s i ≡ check_over (after_fatigue s i)
unfolding refill after_draw tire wake_all wake
end_turn-after_fatigue s first o e =
    let u = turn_begun s first in
    end_turn-draws s first (u, none) (draw-empty u second e)
    ∙ woken-check_over (put u second (tire (player u second))) second o
end_turn-after_fatigue s second o e =
    let u = turn_begun s second in
    end_turn-draws s second (u, none) (draw-empty u first e)
    ∙ woken-check_over (put u first (tire (player u first))) first o
