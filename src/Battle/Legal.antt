-- ===== src/Battle/Legal.antt =====
-- The moves that `Apply` of internal/battle/apply.go accepts, as a relation: each leads to the state that
-- the code computes for it.
use pet.Base.{
  ℕ, ◌≡◌, refl, sym, ap, subst, ◌∙◌, ◌⊎◌, ◌↔◌, inl, inr, String, true, false, some, none, arith,
  Bool-cases, Option-cases, str_eq,
}
use text.Mathlib.TextEquality.{eq_iff}
use pet.Deck.{Card}
use pet.Battle.Model.{
  Seat, Minion, State, Action, Code, Outcome, play_card_kind, attack_kind, end_turn_kind, game_over,
  not_in_game, not_your_turn, unknown_action,
}
use pet.Battle.Turns.{index_of, end_turn}
use pet.Battle.Actions.{Target, seat_eq, play_card, attack, dispatch, apply}
use pet.Battle.Play.{CanPlay, Played, play_card-CanPlay, play_card-cases, Played-IsSound}
use pet.Battle.Combat.{CanAttack, Aims, Fought, attack-CanAttack, attack-cases, Fought-IsSound}
use pet.Battle.Steps.{end_turn-IsSound}
use pet.Battle.Invariant.{IsSound}

-- The game goes on, and it is the turn of `player_id`, who sits at `i`.
pub record HasTurn (s : State) (player_id : String) (i : Seat) : Type 0 where
  pub not_over : s.over ≡ false
  pub seated : index_of s player_id ≡ some i
  pub on_turn : s.turn ≡ i

-- The moves, each with the state that the code computes.
pub data Legal (s : State) (player_id : String) (a : Action) (t : State) : Type 0 where
  plays :
      (i : Seat)
      → HasTurn s player_id i
      → a.kind ≡ play_card_kind
      → (card : Card) (hi : ℕ) → CanPlay s i a card hi
      → t ≡ Played s i card hi
      → Legal s player_id a t
  fights :
      (i : Seat)
      → HasTurn s player_id i
      → a.kind ≡ attack_kind
      → (attacker : Minion) (k : ℕ) (target : Target) → CanAttack s i a attacker k
      → Aims s i a target
      → t ≡ Fought s i attacker k target
      → Legal s player_id a t
  ends :
      (i : Seat)
      → HasTurn s player_id i
      → a.kind ≡ end_turn_kind
      → t ≡ end_turn s i
      → Legal s player_id a t

seat_eq-eq : (i j : Seat) → seat_eq i j ≡ true → j ≡ i
unfolding seat_eq
seat_eq-eq i j e = ground arith

apply_dispatches :
    (s : State) (player_id : String) (a : Action) (i : Seat)
    → HasTurn s player_id i
    → apply s player_id a ≡ dispatch s i a
unfolding apply
apply_dispatches s player_id a i h = ground (arith, h.not_over, h.seated, h.on_turn)

dispatch_plays :
    (s : State) (i : Seat) (a : Action) → a.kind ≡ play_card_kind → dispatch s i a ≡ play_card s i a
unfolding dispatch
dispatch_plays s i a e = ground (arith, eq_iff a.kind play_card_kind)

dispatch_fights :
    (s : State) (i : Seat) (a : Action) → a.kind ≡ attack_kind → dispatch s i a ≡ attack s i a
unfolding dispatch
dispatch_fights s i a e = ground (
  arith,
  eq_iff a.kind play_card_kind,
  eq_iff a.kind attack_kind,
  eq_iff attack_kind play_card_kind,
)

dispatch_ends :
    (s : State) (i : Seat) (a : Action)
    → a.kind ≡ end_turn_kind
    → dispatch s i a ≡ (end_turn s i, none)
unfolding dispatch
dispatch_ends s i a e = ground (
  arith,
  eq_iff a.kind play_card_kind,
  eq_iff a.kind attack_kind,
  eq_iff a.kind end_turn_kind,
  eq_iff end_turn_kind play_card_kind,
  eq_iff end_turn_kind attack_kind,
)

-- Every move is accepted, and leads to its state.
pub Legal-apply :
    (s t : State) (player_id : String) (a : Action)
    → Legal s player_id a t
    → apply s player_id a ≡ (t, none)
Legal-apply s t player_id a (Legal.plays i h k card hi can e) = rw e (
    apply_dispatches s player_id a i h
    ∙ (dispatch_plays s i a k ∙ play_card-CanPlay s i a card hi can))
Legal-apply s t player_id a (Legal.fights i h k attacker n target can aim e) = rw e (
    apply_dispatches s player_id a i h
    ∙ (dispatch_fights s i a k ∙ attack-CanAttack s i a attacker n target can aim))
Legal-apply s t player_id a (Legal.ends i h k e) =
    rw e (apply_dispatches s player_id a i h ∙ dispatch_ends s i a k)

-- What `Apply` can do: reject and change nothing, or make a move.
abbrev Applied : State → String → Action → Type 0
Applied s player_id a =
    ((c : Code) × (apply s player_id a ≡ (s, some c)))
    ⊎ ((t : State) × (apply s player_id a ≡ (t, none)) × Legal s player_id a t)

Legal-move :
    (s t : State) (player_id : String) (a : Action) → Legal s player_id a t → Applied s player_id a
Legal-move s t player_id a m = inr (t, Legal-apply s t player_id a m, m)

dispatch_other :
    (s : State) (i : Seat) (a : Action)
    → str_eq a.kind play_card_kind ≡ false
    → str_eq a.kind attack_kind ≡ false
    → str_eq a.kind end_turn_kind ≡ false
    → dispatch s i a ≡ (s, some unknown_action)
unfolding dispatch
dispatch_other s i a p q r = ground arith

turn-cases :
    (s : State) (player_id : String) (a : Action) (i : Seat)
    → HasTurn s player_id i
    → Applied s player_id a
turn-cases s player_id a i h = elim (Bool-cases (str_eq a.kind play_card_kind)) [
  | inl p ↦
      let k = (eq_iff a.kind play_card_kind).0 p in
      elim (play_card-cases s i a) [
        | inl (c, e) ↦ inl (c, apply_dispatches s player_id a i h ∙ (dispatch_plays s i a k ∙ e))
        | inr (card, hi, can) ↦
            Legal-move s (Played s i card hi) player_id a (Legal.plays i h k card hi can refl)
      ]
  | inr p ↦ elim (Bool-cases (str_eq a.kind attack_kind)) [
    | inl q ↦
        let k = (eq_iff a.kind attack_kind).0 q in
        elim (attack-cases s i a) [
          | inl (c, e) ↦ inl (c, apply_dispatches s player_id a i h ∙ (dispatch_fights s i a k ∙ e))
          | inr (m, n, t, can, aim) ↦
              Legal-move s (Fought s i m n t) player_id a (Legal.fights i h k m n t can aim refl)
        ]
    | inr q ↦ elim (Bool-cases (str_eq a.kind end_turn_kind)) [
      | inl r ↦
          Legal-move s (end_turn s i) player_id a
            (Legal.ends i h ((eq_iff a.kind end_turn_kind).0 r) refl)
      | inr r ↦
          inl (unknown_action, apply_dispatches s player_id a i h ∙ dispatch_other s i a p q r)
    ]
  ]
]

pub apply-cases : (s : State) (player_id : String) (a : Action) → Applied s player_id a
unfolding apply
apply-cases s player_id a = elim (Bool-cases s.over) [
  | inl done ↦ inl (game_over, ground arith)
  | inr going ↦ elim (Option-cases (index_of s player_id)) [
    | inl stranger ↦ inl (not_in_game, ground arith)
    | inr (i, e) ↦ elim (Bool-cases (seat_eq i s.turn)) [
      | inr waiting ↦ inl (not_your_turn, ground arith)
      | inl on ↦
          turn-cases s player_id a i
            (record { not_over = going; seated = e; on_turn = seat_eq-eq i s.turn on })
    ]
  ]
]

-- `Apply` accepts the moves that the code makes, by cases; Battle/Agreement compares them with the
-- rules of Battle/Rules.
pub apply-Legal_iff :
    (s t : State) (player_id : String) (a : Action)
    → (apply s player_id a ≡ (t, none)) ↔ Legal s player_id a t
apply-Legal_iff s t player_id a = (accepted, Legal-apply s t player_id a)
  where
    accepted : apply s player_id a ≡ (t, none) → Legal s player_id a t
    accepted e = elim (apply-cases s player_id a) [
      | inl (c, no_move) ↦ cc (ap (λ (r : Outcome). r.1) no_move, ap (λ (r : Outcome). r.1) e)
      | inr (u, e', m) ↦ subst (Legal s player_id a) (ap (λ (r : Outcome). r.0) (sym e' ∙ e)) m
    ]

-- If `Apply` returns an error, the state is as it was.
pub apply_rejected_unchanged :
    (s : State) (player_id : String) (a : Action) {c : Code}
    → (apply s player_id a).1 ≡ some c
    → (apply s player_id a).0 ≡ s
apply_rejected_unchanged s player_id a e = elim (apply-cases s player_id a) [
  | inl (c, no_move) ↦ ap (λ (r : Outcome). r.0) no_move
  | inr (u, e', m) ↦ cc (ap (λ (r : Outcome). r.1) e')
]

Legal-IsSound :
    (s t : State) (player_id : String) (a : Action) → IsSound s → Legal s player_id a t → IsSound t
Legal-IsSound s t player_id a h (Legal.plays i turn k card hi can e) =
    subst IsSound (sym e) (Played-IsSound s i a card hi h turn.not_over can)
Legal-IsSound s t player_id a h (Legal.fights i turn k m n target can aim e) =
    subst IsSound (sym e) (Fought-IsSound s i a m n target h turn.not_over can aim)
Legal-IsSound s t player_id a h (Legal.ends i turn k e) =
    subst IsSound (sym e) (end_turn-IsSound s i h turn.not_over)

-- `Apply` keeps the invariant of a game, whatever the action and whoever sends it: the players'
-- health and fatigue and the attack and the health of the minions on the boards are in the range
-- of an int, mana, maximal mana and boards are within their limits, fatigue comes only with an
-- empty deck, minions on the boards are alive and have ids of their own, and the game is over with
-- the right winner exactly when a player is dead.
pub apply-IsSound :
    (s : State) (player_id : String) (a : Action) → IsSound s → IsSound (apply s player_id a).0
apply-IsSound s player_id a h = elim (apply-cases s player_id a) [
  | inl (c, no_move) ↦ rw no_move h
  | inr (u, e, m) ↦ rw e (Legal-IsSound s u player_id a h m)
]
