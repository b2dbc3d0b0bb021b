-- ===== src/Battle/Effects.antt =====
-- What the moves of internal/battle do to each player, player by player.
use pet.Base.{
  ℕ, ◌+◌, ◌≡◌, refl, sym, ap, ◌∙◌, inl, inr, String, List, [], ◌∷◌, ◌++◌, arith, sub_int,
}
use pet.Deck.{Card}
use pet.Battle.Model.{Seat, first, second, other, Minion, Player, State, player, put}
use pet.Battle.Turns.{
  refill, tire, wake_all, draw, check_over, after_draw, begin_turn, end_turn, inst_name,
}
use pet.Battle.Actions.{Target, strike, bury, remove_dead, pay, place, remove_at, fresh_minion}
use pet.Battle.Steps.{check_over_keeps, List-cases, draw-empty, draw-cons, player-put}
use pet.Battle.Play.{Played}
use pet.Battle.Combat.{Fought}

-- The two seats, as the one on turn and the other.
pub seat_split : (P : Seat → Type 0) (i : Seat) → P i → P (other i) → (j : Seat) → P j
seat_split P first here there first = here
seat_split P first here there second = there
seat_split P second here there first = there
seat_split P second here there second = here

pub player-put_ne :
    (s : State) (i : Seat) (p : Player) → player (put s i p) (other i) ≡ player s (other i)
player-put_ne s first p = refl
player-put_ne s second p = refl

pub player-check_over : (s : State) (i : Seat) → player (check_over s) i ≡ player s i
player-check_over s first =
    check_over_keeps (λ t. t.first_player ≡ s.first_player) s refl (λ o w. refl)
player-check_over s second =
    check_over_keeps (λ t. t.second_player ≡ s.second_player) s refl (λ o w. refl)

pub next_inst_id-check_over : (s : State) → (check_over s).next_inst_id ≡ s.next_inst_id
next_inst_id-check_over s =
    check_over_keeps (λ t. t.next_inst_id ≡ s.next_inst_id) s refl (λ o w. refl)

-- One player's draw at the beginning of a turn: a card, or fatigue from an empty deck.
abbrev pub draw_or_tire : Player → Player
draw_or_tire p = elim p.deck [
  | [] ↦ tire p
  | card ∷ rest ↦ record p { deck = rest; hand = p.hand ++ card ∷ [] }
]

draw_or_tire-empty : (p : Player) → p.deck ≡ [] → draw_or_tire p ≡ tire p
draw_or_tire-empty p e = ground arith

draw_or_tire-cons :
    (p : Player) (c : String) (r : List String)
    → p.deck ≡ c ∷ r
    → draw_or_tire p ≡ record p { deck = r; hand = p.hand ++ c ∷ [] }
draw_or_tire-cons p c r e = ground arith

-- One player's new turn.
unfoldable pub turned : Player → Player
turned p = wake_all (draw_or_tire (refill p))

after_draw-player :
    (s : State) (i : Seat) → player (after_draw i (draw s i)) i ≡ draw_or_tire (player s i)
unfolding after_draw
after_draw-player s i = elim (List-cases (player s i).deck) [
  | inl e ↦ rw (draw-empty s i e) (
      player-check_over (put s i (tire (player s i))) i
      ∙ (player-put s i (tire (player s i)) ∙ sym (draw_or_tire-empty (player s i) e)))
  | inr (c, r, e) ↦ rw (draw-cons s i e) (
      player-put s i (record (player s i) { deck = r; hand = (player s i).hand ++ c ∷ [] })
      ∙ sym (draw_or_tire-cons (player s i) c r e))
]

after_draw-other :
    (s : State) (i : Seat) → player (after_draw i (draw s i)) (other i) ≡ player s (other i)
unfolding after_draw
after_draw-other s i = elim (List-cases (player s i).deck) [
  | inl e ↦ rw (draw-empty s i e) (
      player-check_over (put s i (tire (player s i))) (other i)
      ∙ player-put_ne s i (tire (player s i)))
  | inr (c, r, e) ↦
      rw (draw-cons s i e)
        (player-put_ne s i (record (player s i) { deck = r; hand = (player s i).hand ++ c ∷ [] }))
]

-- A new turn is a turn for the one player, and leaves the other alone.
pub begin_turn-player : (s : State) (i : Seat) → player (begin_turn s i) i ≡ turned (player s i)
unfolding begin_turn turned
begin_turn-player s i =
    let s' = put s i (refill (player s i)) in
    player-put (after_draw i (draw s' i)) i (wake_all (player (after_draw i (draw s' i)) i))
    ∙ ap wake_all
        (after_draw-player s' i ∙ ap (λ p. draw_or_tire p) (player-put s i (refill (player s i))))

pub begin_turn-other :
    (s : State) (i : Seat) → player (begin_turn s i) (other i) ≡ player s (other i)
unfolding begin_turn
begin_turn-other s i =
    let s' = put s i (refill (player s i)) in
    player-put_ne (after_draw i (draw s' i)) i (wake_all (player (after_draw i (draw s' i)) i))
    ∙ (after_draw-other s' i ∙ player-put_ne s i (refill (player s i)))

pub end_turn-player :
    (s : State) (i : Seat) → player (end_turn s i) (other i) ≡ turned (player s (other i))
unfolding end_turn
end_turn-player s first = begin_turn-player (record s { turn = second; round = s.round + 1 }) second
end_turn-player s second = begin_turn-player (record s { turn = first; round = s.round + 1 }) first

pub end_turn-other : (s : State) (i : Seat) → player (end_turn s i) i ≡ player s i
unfolding end_turn
end_turn-other s first = begin_turn-other (record s { turn = second; round = s.round + 1 }) second
end_turn-other s second = begin_turn-other (record s { turn = first; round = s.round + 1 }) first

-- The player of a card, after it: less mana, the card gone from the hand, the minion on the board.
pub Played-player :
    (s : State) (i : Seat) (card : Card) (hi : ℕ)
    → player (Played s i card hi) i ≡ record (player s i) {
      mana = sub_int (player s i).mana card.cost;
      hand = remove_at hi (player s i).hand;
      board = (player s i).board ++ fresh_minion card (inst_name (s.next_inst_id + 1)) ∷ [];
    }
unfolding pay place
Played-player s first card hi = refl
Played-player s second card hi = refl

pub Played-other :
    (s : State) (i : Seat) (card : Card) (hi : ℕ)
    → player (Played s i card hi) (other i) ≡ player s (other i)
unfolding pay place
Played-other s first card hi = refl
Played-other s second card hi = refl

-- Both players after an attack: their dead are gone.
pub Fought-player :
    (s : State) (i j : Seat) (m : Minion) (k : ℕ) (t : Target)
    → player (Fought s i m k t) j ≡ bury (player (strike s i m k t).0 j)
Fought-player s i first m k t =
    player-check_over (remove_dead (strike s i m k t).0) first ∙ unfold remove_dead in refl
Fought-player s i second m k t =
    player-check_over (remove_dead (strike s i m k t).0) second ∙ unfold remove_dead in refl
