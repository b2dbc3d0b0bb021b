-- ===== src/Battle/Agreement.antt =====
-- `Apply` of internal/battle/apply.go makes the moves of the rules, and no other.
use pet.Base.{
  ◌≡◌, refl, sym, ap, subst, ◌∙◌, ◌↔◌, ◌⊎◌, ◌++◌, inl, inr, String, false, List, [], ◌∷◌, some,
  none, length, arith,
}
use text.Mathlib.TextEquality.{eq_iff}
use pet.Battle.Model.{Seat, first, second, other, Minion, State, Action, player}
use pet.Battle.Turns.{index_of, check_over}
use pet.Battle.Actions.{face, minion, refused, remove_at, apply}
use pet.Battle.Combat.{Fought}
use pet.Battle.Legal.{HasTurn, Legal, apply-Legal_iff}
use pet.Battle.Finds.{
  index_of_string-FirstCard, FirstCard-index_of_string, find_minion-FirstMinion,
  FirstMinion-find_minion, find_minion-LacksInst, LacksInst-find_minion, remove_at-FirstCard,
}
use pet.Battle.Rules.{Sits, IsOnTurn, Judged, after_hit, after_fight, after_fatigue, Move}
use pet.Battle.Results.{
  check_over-Judged, Judged-check_over, Played-after_play, Fought-after_hit, Fought-after_fight,
  end_turn-after_card, end_turn-after_fatigue,
}

List-cases : (l : List String) → (l ≡ []) ⊎ ((x : String) × (xs : List String) × (l ≡ x ∷ xs))
List-cases [] = inl refl
List-cases (x ∷ xs) = inr (x, xs, refl)

index_of-Sits :
    (s : State) (player_id : String) (i : Seat) → index_of s player_id ≡ some i → Sits s player_id i
unfolding index_of
index_of-Sits s player_id first e =
    ground (arith, eq_iff s.first_player.id player_id, eq_iff s.second_player.id player_id)
index_of-Sits s player_id second e = (
  (λ p. ground (arith, eq_iff s.first_player.id player_id)),
  ground (arith, eq_iff s.first_player.id player_id, eq_iff s.second_player.id player_id),
)

Sits-index_of :
    (s : State) (player_id : String) (i : Seat) → Sits s player_id i → index_of s player_id ≡ some i
unfolding index_of
Sits-index_of s player_id first h = ground (arith, eq_iff s.first_player.id player_id)
Sits-index_of s player_id second (other_id, h) =
    ground (arith, eq_iff s.first_player.id player_id, eq_iff s.second_player.id player_id)

HasTurn-IsOnTurn :
    (s : State) (player_id : String) (i : Seat) → HasTurn s player_id i → IsOnTurn s player_id i
HasTurn-IsOnTurn s player_id i h = record {
  not_over = h.not_over;
  sits = index_of-Sits s player_id i h.seated;
  on_turn = h.on_turn;
}

IsOnTurn-HasTurn :
    (s : State) (player_id : String) (i : Seat) → IsOnTurn s player_id i → HasTurn s player_id i
IsOnTurn-HasTurn s player_id i h = record {
  not_over = h.not_over;
  seated = Sits-index_of s player_id i h.sits;
  on_turn = h.on_turn;
}

-- A move leaves the game as much over as it was, before the verdict.
over-after_hit :
    (s : State) (i : Seat) (m : Minion) (before after : List Minion)
    → (after_hit s i m before after).over ≡ s.over
over-after_hit s first m before after = refl
over-after_hit s second m before after = refl

over-after_fight :
    (s : State) (i : Seat) (m : Minion) (before after : List Minion) (d : Minion)
    (left right : List Minion)
    → (after_fight s i m before after d left right).over ≡ s.over
over-after_fight s first m before after d left right = refl
over-after_fight s second m before after d left right = refl

over-after_fatigue : (s : State) (i : Seat) → (after_fatigue s i).over ≡ s.over
over-after_fatigue s first = refl
over-after_fatigue s second = refl

-- What the code's verdict makes of a state is the verdict of the rules.
judges : (u t : State) → u.over ≡ false → t ≡ check_over u → Judged u t
judges u t o e = subst (Judged u) (sym e) (check_over-Judged u o)

module _ (s t : State) (player_id : String) (a : Action) where
  Legal-Move : Legal s player_id a t → Move s player_id a t
  Legal-Move (Legal.plays i h k card hi can e) =
      let hand = (player s i).hand in
      let (before, after, found, at) = index_of_string-FirstCard hand a.card_id hi can.in_hand in
      Move.plays i (HasTurn-IsOnTurn s player_id i h) k card before after found can.known
        can.is_minion can.affordable can.room
        (e
          ∙ Played-after_play s i card hi (before ++ after) (
              ap (λ n. remove_at n hand) at
              ∙ remove_at-FirstCard hand before after a.card_id found))
  Legal-Move (Legal.fights i h k m n face can aim e) =
      let (before, after, found, at) = find_minion-FirstMinion (player s i) a.inst_id m n can.own in
      Move.hits i (HasTurn-IsOnTurn s player_id i h) k m before after
        (record { own = found; is_awake = can.awake; armed = can.armed }) aim
        (judges (after_hit s i m before after) t (over-after_hit s i m before after ∙ h.not_over) (
          e
          ∙ ap (λ j. Fought s i m j face) at
          ∙ Fought-after_hit s i a.inst_id m before after found))
  Legal-Move (Legal.fights i h k m n (minion d j) can (not_face, not_own, theirs) e) =
      let (before, after, found, at) = find_minion-FirstMinion (player s i) a.inst_id m n can.own in
      let (left, right, target, at') =
        find_minion-FirstMinion (player s (other i)) a.target d j theirs in
      Move.fights i (HasTurn-IsOnTurn s player_id i h) k m before after
        (record { own = found; is_awake = can.awake; armed = can.armed }) not_face
        (find_minion-LacksInst (player s i) a.target not_own) d left right target
        (judges (after_fight s i m before after d left right) t
          (over-after_fight s i m before after d left right ∙ h.not_over)
          (e
            ∙ ap (λ x. Fought s i m x (minion d j)) at
            ∙ ap (λ x. Fought s i m (length before) (minion d x)) at'
            ∙ Fought-after_fight s i a.inst_id a.target m d before after left right found target))
  Legal-Move (Legal.fights i h k m n (refused c) can aim e) = absurd aim
  Legal-Move (Legal.ends i h k e) = elim (List-cases (player s (other i)).deck) [
    | inl none_left ↦ Move.tires i (HasTurn-IsOnTurn s player_id i h) k none_left (
        judges (after_fatigue s i) t (over-after_fatigue s i ∙ h.not_over)
          (e ∙ end_turn-after_fatigue s i h.not_over none_left))
    | inr (card, rest, p) ↦
        Move.draws i (HasTurn-IsOnTurn s player_id i h) k card rest p
          (e ∙ end_turn-after_card s i card rest p)
  ]

  Move-Legal : Move s player_id a t → Legal s player_id a t
  Move-Legal (Move.plays i h k card before after found known is_minion affordable room e) =
      let hand = (player s i).hand in
      Legal.plays i (IsOnTurn-HasTurn s player_id i h) k card (length before)
        (record {
          in_hand = FirstCard-index_of_string hand before after a.card_id found;
          known = known;
          is_minion = is_minion;
          affordable = affordable;
          room = room;
        })
        (e
          ∙ sym (
              Played-after_play s i card (length before) (before ++ after)
                (remove_at-FirstCard hand before after a.card_id found)))
  Move-Legal (Move.hits i h k m before after ready aim j) =
      Legal.fights i (IsOnTurn-HasTurn s player_id i h) k m (length before) face
        (record {
          own = FirstMinion-find_minion (player s i) a.inst_id m before after ready.own;
          awake = ready.is_awake;
          armed = ready.armed;
        })
        aim
        (Judged-check_over (after_hit s i m before after) t
            (over-after_hit s i m before after ∙ h.not_over) j
          ∙ sym (Fought-after_hit s i a.inst_id m before after ready.own))
  Move-Legal (Move.fights i h k m before after ready not_face not_own d left right target j) =
      Legal.fights i (IsOnTurn-HasTurn s player_id i h) k m (length before) (minion d (length left))
        (record {
          own = FirstMinion-find_minion (player s i) a.inst_id m before after ready.own;
          awake = ready.is_awake;
          armed = ready.armed;
        })
        (
          not_face,
          LacksInst-find_minion (player s i) a.target not_own,
          FirstMinion-find_minion (player s (other i)) a.target d left right target,
        )
        (Judged-check_over (after_fight s i m before after d left right) t
            (over-after_fight s i m before after d left right ∙ h.not_over) j
          ∙ sym (
              Fought-after_fight s i a.inst_id a.target m d before after left right ready.own
                target))
  Move-Legal (Move.draws i h k card rest p e) =
      Legal.ends i (IsOnTurn-HasTurn s player_id i h) k
        (e ∙ sym (end_turn-after_card s i card rest p))
  Move-Legal (Move.tires i h k p j) = Legal.ends i (IsOnTurn-HasTurn s player_id i h) k (
      Judged-check_over (after_fatigue s i) t (over-after_fatigue s i ∙ h.not_over) j
      ∙ sym (end_turn-after_fatigue s i h.not_over p))

  -- `Apply` returns nil with the state t exactly when the sender is the player on turn of a game
  -- that is not over, the action is a move of the rules (a minion of the hand that the mana pays
  -- for on a board with room, an attack by an awake minion with some attack on the face or a
  -- minion of the opponent, or the end of the turn), and t is the state that the rules describe: a
  -- card leaves the hand, costs its mana and puts a new sleeping minion on the board; in an attack
  -- the opponent, or each of the two minions, loses health by the other's attack, the attacker
  -- sleeps and the dead leave the boards; at the end of a turn the opponent's mana is refilled, a
  -- card drawn or fatigue suffered, and the minions wake; and after an attack or fatigue the game
  -- is over if a player has no health, won by the other one if there is one.
  pub apply-Move_iff : (apply s player_id a ≡ (t, none)) ↔ Move s player_id a t
  apply-Move_iff = (
    λ e. Legal-Move ((apply-Legal_iff s t player_id a).0 e),
    λ m. (apply-Legal_iff s t player_id a).1 (Move-Legal m),
  )
