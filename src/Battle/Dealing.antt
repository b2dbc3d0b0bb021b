-- ===== src/Battle/Dealing.antt =====
-- What dealing the opening hands of internal/battle/state.go keeps, and the balance of cards from
-- the opening decks on.
use pet.Base.{
  ℕ, zero, suc, ◌+◌, ◌≡◌, refl, ap, subst, ◌∙◌, inl, inr, String, ℤ, List, [], ◌∷◌, ◌++◌, some,
  arith,
}
use pet.Deck.{Catalog, IsValidCatalog}
use pet.Battle.Model.{Seat, first, second, Player, State, player, put, hand_start}
use pet.Battle.Turns.{draw, begin_turn}
use pet.Battle.Setup.{
  PlayerInit, Rand, ready, new_state, shuffle, seated, seat_players, open_game, deal,
}
use pet.Battle.Steps.{List-cases, draw-empty, draw-cons, player-put}
use pet.Battle.Cards.{count_card, count_card-append, count_card-shuffle}
use pet.Battle.Effects.{turned, seat_split, begin_turn-player, begin_turn-other, player-put_ne}
use pet.Battle.Opening.{ready_inj, CanOpen-new_state, new_state-CanOpen, open_game-IsSound}
use pet.Battle.Replay.{Step, OnStep}
use pet.Battle.History.{live}
use pet.Battle.Conservation.{held, held-turned, turned_id, played_times, held-live}

-- A player with the top card moved from the deck to the hand.
abbrev drawn : Player → String → List String → Player
drawn p c r = record p { deck = r; hand = p.hand ++ c ∷ [] }

module _ {B : Type 0} (q : Player → B)
    (q-drawn : (p : Player) (c : String) (r : List String) → p.deck ≡ c ∷ r → q (drawn p c r) ≡ q p)
    (q-turned : (p : Player) → q (turned p) ≡ q p) where
  keeps-draw : (s : State) (i j : Seat) → q (player (draw s i).0 j) ≡ q (player s j)
  keeps-draw s i j = elim (List-cases (player s i).deck) [
    | inl e ↦ rw (draw-empty s i e) refl
    | inr (c, r, e) ↦
        let p = drawn (player s i) c r in
        rw (draw-cons s i e) (
          seat_split (λ k. q (player (put s i p) k) ≡ q (player s k)) i
            (ap q (player-put s i p) ∙ q-drawn (player s i) c r e) (ap q (player-put_ne s i p)) j)
  ]

  keeps-deal : (n : ℕ) (s : State) (j : Seat) → q (player (deal n s) j) ≡ q (player s j)
  unfolding deal
  keeps-deal zero s j = refl
  keeps-deal (suc n) s j =
      keeps-deal n (draw (draw s first).0 second).0 j
      ∙ (keeps-draw (draw s first).0 second j ∙ keeps-draw s first j)

  -- What neither a draw nor a new turn changes, opening a game does not change.
  keeps-open_game : (s : State) (j : Seat) → q (player (open_game s) j) ≡ q (player s j)
  unfolding open_game
  keeps-open_game s j =
      let t = deal hand_start s in
      seat_split (λ k. q (player (begin_turn t first) k) ≡ q (player t k)) first
        (ap q (begin_turn-player t first) ∙ q-turned t.first_player)
        (ap q (begin_turn-other t first)) j
      ∙ keeps-deal hand_start s j

held-drawn :
    (x : String) (p : Player) (c : String) (r : List String)
    → p.deck ≡ c ∷ r
    → held x (drawn p c r) ≡ held x p
unfolding held count_card
held-drawn x p c r e = ground (arith, count_card-append x p.hand (c ∷ []))

held-seated : (x id : String) (deck : List String) → held x (seated id deck) ≡ count_card x deck
unfolding held seated count_card
held-seated x id deck = omega arith

-- The cards and the name that a player brings.
abbrev pub brought : PlayerInit → PlayerInit → Seat → PlayerInit
brought a b first = a
brought a b second = b

module _ (R : Rand) (room_id : String) (cat : Catalog) (a b : PlayerInit) (seed : ℤ) where
  held-seat_players :
      (x : String) (j : Seat)
      → held x (player (seat_players R room_id cat a b seed) j) ≡ count_card x (brought a b j).cards
  unfolding seat_players
  held-seat_players x first =
      held-seated x a.id (shuffle R (R.new_source seed) a.cards).0
      ∙ count_card-shuffle R (R.new_source seed) x a.cards
  held-seat_players x second =
      let r = (shuffle R (R.new_source seed) a.cards).1 in
      held-seated x b.id (shuffle R r b.cards).0 ∙ count_card-shuffle R r x b.cards

  id-seat_players :
      (j : Seat) → (player (seat_players R room_id cat a b seed) j).id ≡ (brought a b j).id
  unfolding seat_players
  id-seat_players first = refl
  id-seat_players second = refl

  -- In a game opened from a valid catalog, the cards in a player's hand and deck, with those that
  -- the player was accepted to play, are the deck that the player brought: each card as often.
  pub cards_conserved :
      {T : Type 0} (on_step : OnStep T) (acc : T) (s : State) (sts : List Step) (x : String)
      (j : Seat)
      → IsValidCatalog cat
      → new_state R room_id (some cat) a b seed ≡ ready s
      → let game = live on_step 0 s sts acc in
        held x (player game.final j) + played_times x (brought a b j).id game.accepted
        ≡ count_card x (brought a b j).cards
  cards_conserved on_step acc s sts x j valid e =
      let can = CanOpen-new_state R room_id cat a b seed e in
      let t = seat_players R room_id cat a b seed in
      let opened = ready_inj (new_state-CanOpen R room_id cat a b seed can) e in
      let cards =
        keeps-open_game (held x) (held-drawn x) (held-turned x) t j ∙ held-seat_players x j in
      let name = keeps-open_game (λ p. p.id) (λ p c r _. refl) turned_id t j ∙ id-seat_players j in
      subst
        (λ u.
          held x (player (live on_step 0 u sts acc).final j)
            + played_times x (brought a b j).id (live on_step 0 u sts acc).accepted
          ≡ count_card x (brought a b j).cards)
        opened
        (subst
          (λ n.
            held x (player (live on_step 0 (open_game t) sts acc).final j)
              + played_times x n (live on_step 0 (open_game t) sts acc).accepted
            ≡ count_card x (brought a b j).cards)
          name
          (held-live on_step x 0 (open_game t) sts acc j
              (open_game-IsSound R room_id cat a b seed can valid)
            ∙ cards))
