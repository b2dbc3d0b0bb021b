-- ===== src/Battle/Settings.antt =====
-- What the moves of internal/battle never change: the seed, the opening decks and the catalog.
use pet.Base.{ℕ, zero, suc, ◌+◌, ◌≡◌, refl, ap, ◌∙◌, inl, inr, String, ℤ, List, Option, none, some}
use pet.Deck.{Card, Catalog}
use pet.Battle.Model.{
  Seat, first, second, other, Player, State, Action, player, put, Minion, hand_start,
}
use pet.Battle.Turns.{draw, check_over, after_draw, begin_turn, end_turn, refill, tire}
use pet.Battle.Actions.{Target, face, minion, refused, strike, remove_dead, place, pay, apply}
use pet.Battle.Setup.{PlayerInit, Rand, ready, new_state, deal, open_game, seat_players}
use pet.Battle.Steps.{check_over_keeps, List-cases, draw-empty, draw-cons}
use pet.Battle.Play.{Played}
use pet.Battle.Combat.{Fought}
use pet.Battle.Legal.{Legal, apply-Legal_iff}
use pet.Battle.Opening.{CanOpen-new_state, new_state-CanOpen, ready_inj}

pub record Settings : Type 0 where
  pub room_id : String
  pub seed : ℤ
  pub first_init_deck : List String
  pub second_init_deck : List String
  pub cat : Catalog

abbrev pub settings : State → Settings
settings s = record {
  room_id = s.room_id;
  seed = s.seed;
  first_init_deck = s.first_init_deck;
  second_init_deck = s.second_init_deck;
  cat = s.cat;
}

settings-put : (s : State) (i : Seat) (p : Player) → settings (put s i p) ≡ settings s
settings-put s first p = refl
settings-put s second p = refl

settings-check_over : (s : State) → settings (check_over s) ≡ settings s
settings-check_over s = check_over_keeps (λ t. settings t ≡ settings s) s refl (λ o w. refl)

settings-draw : (s : State) (i : Seat) → settings (draw s i).0 ≡ settings s
settings-draw s i = elim (List-cases (player s i).deck) [
  | inl e ↦ ap (λ (r : State × Option String). settings r.0) (draw-empty s i e)
  | inr (card, rest, e) ↦
      ap (λ (r : State × Option String). settings r.0) (draw-cons s i e) ∙ settings-put s i _
]

settings-after_draw :
    (i : Seat) (r : State × Option String) → settings (after_draw i r) ≡ settings r.0
unfolding after_draw
settings-after_draw i (s, some card) = refl
settings-after_draw i (s, none) =
    settings-check_over (put s i (tire (player s i))) ∙ settings-put s i (tire (player s i))

settings-begin_turn : (s : State) (i : Seat) → settings (begin_turn s i) ≡ settings s
unfolding begin_turn
settings-begin_turn s i =
    let t = put s i (refill (player s i)) in
    settings-put (after_draw i (draw t i)) i _
    ∙ settings-after_draw i (draw t i)
    ∙ settings-draw t i
    ∙ settings-put s i (refill (player s i))

settings-end_turn : (s : State) (i : Seat) → settings (end_turn s i) ≡ settings s
unfolding end_turn
settings-end_turn s i =
    settings-begin_turn (record s { turn = other i; round = s.round + 1 }) (other i)

settings-Played :
    (s : State) (i : Seat) (card : Card) (hi : ℕ) → settings (Played s i card hi) ≡ settings s
unfolding pay place
settings-Played s i card hi = settings-put (place s i card) i _ ∙ settings-put _ i _

settings-strike :
    (s : State) (i : Seat) (m : Minion) (k : ℕ) (t : Target)
    → settings (strike s i m k t).0 ≡ settings s
unfolding strike
settings-strike s i m k (refused code) = refl
settings-strike s i m k face = settings-put _ i _ ∙ settings-put s (other i) _
settings-strike s i m k (minion def d) = settings-put _ i _ ∙ settings-put s (other i) _

settings-Fought :
    (s : State) (i : Seat) (m : Minion) (k : ℕ) (t : Target)
    → settings (Fought s i m k t) ≡ settings s
settings-Fought s i m k t =
    settings-check_over (remove_dead (strike s i m k t).0)
    ∙ unfold remove_dead in settings-strike s i m k t

settings-Legal :
    (s t : State) (player_id : String) (a : Action)
    → Legal s player_id a t
    → settings t ≡ settings s
settings-Legal s t player_id a (Legal.plays i turn k card hi can e) =
    ap settings e ∙ settings-Played s i card hi
settings-Legal s t player_id a (Legal.fights i turn kind m k target can aim e) =
    ap settings e ∙ settings-Fought s i m k target
settings-Legal s t player_id a (Legal.ends i turn kind e) = ap settings e ∙ settings-end_turn s i

-- An action changes neither the seed nor the opening decks nor the catalog of a game.
pub settings-apply :
    (s t : State) (player_id : String) (a : Action)
    → apply s player_id a ≡ (t, none)
    → settings t ≡ settings s
settings-apply s t player_id a e =
    settings-Legal s t player_id a ((apply-Legal_iff s t player_id a).0 e)

settings-deal : (n : ℕ) (s : State) → settings (deal n s) ≡ settings s
unfolding deal
settings-deal zero s = refl
settings-deal (suc n) s =
    settings-deal n (draw (draw s first).0 second).0
    ∙ settings-draw (draw s first).0 second
    ∙ settings-draw s first

-- A new game holds the data that it was opened with.
pub settings-new_state :
    (R : Rand) (room_id : String) (cat : Catalog) (a b : PlayerInit) (seed : ℤ) (s : State)
    → new_state R room_id (some cat) a b seed ≡ ready s
    → settings s ≡ record {
      room_id = room_id;
      seed = seed;
      first_init_deck = a.cards;
      second_init_deck = b.cards;
      cat = cat;
    }
unfolding open_game seat_players
settings-new_state R room_id cat a b seed s e =
    let t = seat_players R room_id cat a b seed in
    let opened =
      ready_inj e
        (new_state-CanOpen R room_id cat a b seed (CanOpen-new_state R room_id cat a b seed e)) in
    ap settings opened ∙ settings-begin_turn (deal hand_start t) first ∙ settings-deal hand_start t
