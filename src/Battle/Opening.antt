-- ===== src/Battle/Opening.antt =====
-- What `NewState` of internal/battle/state.go accepts, and the game that it sets up.
use pet.Base.{
  ℕ, zero, suc, ◌<◌, ◌≡◌, refl, ◌↔◌, ◌≢◌, inl, inr, String, ℤ, List, [], ◌∷◌, ◌++◌, some, arith,
  length,
}
use text.Mathlib.TextEquality.{eq_iff}
use pet.Deck.{Catalog, IsValidCatalog}
use pet.Battle.Model.{Seat, first, second, Player, State, player, hand_start}
use pet.Battle.Turns.{draw}
use pet.Battle.Setup.{
  PlayerInit, Rand, Setup, ready, seat_players, open_game, new_state, deal, seated, too_short,
}
use pet.Battle.Board.{count_inst}
use pet.Battle.Invariant.{tri, PlayerIsSound, IsSane, IsLive, IsSound}
use pet.Battle.Players.{put-IsSane, drawn-PlayerIsSound, sound_at}
use pet.Battle.Steps.{
  IsOpen, put-IsOpen, put-IsLive, IsAlive-at, up_at, begin_turn-IsSound, List-cases, draw-empty,
  draw-cons,
}

seated-PlayerIsSound : (id : String) (deck : List String) → PlayerIsSound (seated id deck)
unfolding seated tri
seated-PlayerIsSound id deck = ground arith

-- Sound, and the game goes on.
pub record IsReady (s : State) : Type 0 where
  pub sane : IsSane s
  pub live : IsLive s
  pub going : IsOpen s

draw-IsReady : (s : State) (i : Seat) → IsReady s → IsReady (draw s i).0
draw-IsReady s i h = elim (List-cases (player s i).deck) [
  | inl empty ↦ rw (draw-empty s i empty) h
  | inr (c, r, e) ↦
      let p = player s i in
      let p' : Player = record p { deck = r; hand = p.hand ++ c ∷ [] } in
      rw (draw-cons s i e) (record {
        sane =
            put-IsSane s i p' h.sane
              (drawn-PlayerIsSound p c r (p.hand ++ c ∷ []) (sound_at s i h.sane) e) refl
              (λ x. omega arith);
        live = put-IsLive s i p' h.live (IsAlive-at s i h.live);
        going = put-IsOpen s i p' h.going (up_at s i h.going);
      })
]

pub deal-IsReady : (n : ℕ) (s : State) → IsReady s → IsReady (deal n s)
unfolding deal
deal-IsReady zero s h = h
deal-IsReady (suc n) s h =
    deal-IsReady n (draw (draw s first).0 second).0
      (draw-IsReady (draw s first).0 second (draw-IsReady s first h))

pub ready_inj : {r : Setup} {s t : State} → r ≡ ready s → r ≡ ready t → s ≡ t
ready_inj d e = cc (d, e)

-- The conditions under which a game can be set up.
pub record CanOpen (a b : PlayerInit) : Type 0 where
  pub first_named : a.id ≢ ""
  pub second_named : b.id ≢ ""
  pub ids_differ : a.id ≢ b.id
  pub first_deck : hand_start < length a.cards
  pub second_deck : hand_start < length b.cards

module _ (R : Rand) (room_id : String) (cat : Catalog) (a b : PlayerInit) (seed : ℤ) where
  pub seat_players-IsReady :
      CanOpen a b → IsValidCatalog cat → IsReady (seat_players R room_id cat a b seed)
  unfolding seat_players
  seat_players-IsReady can valid = record {
    sane = record {
      first_sound = seated-PlayerIsSound a.id _;
      second_sound = seated-PlayerIsSound b.id _;
      ids_differ = unfold seated in can.ids_differ;
      first_named = unfold seated in can.first_named;
      second_named = unfold seated in can.second_named;
      inst_unique = λ x. unfold seated count_inst in omega arith;
      inst_fresh = λ j lt. unfold seated count_inst in refl;
      catalog_valid = valid;
    };
    live = unfold seated in record { first_alive = tt; second_alive = tt };
    going =
        unfold seated in
        record {
          not_over = refl;
          no_winner = refl;
          first_up = omega arith;
          second_up = omega arith;
        };
  }

  -- With the names given and different and more than a hand of cards each, `NewState` opens the game.
  pub new_state-CanOpen :
      CanOpen a b
      → new_state R room_id (some cat) a b seed
        ≡ ready (open_game (seat_players R room_id cat a b seed))
  unfolding new_state too_short
  new_state-CanOpen can = ground (
    arith,
    eq_iff a.id "",
    eq_iff b.id "",
    eq_iff a.id b.id,
    can.first_named,
    can.second_named,
    can.ids_differ,
    can.first_deck,
    can.second_deck,
  )

  pub open_game-IsSound :
      CanOpen a b → IsValidCatalog cat → IsSound (open_game (seat_players R room_id cat a b seed))
  unfolding open_game
  open_game-IsSound can valid =
      let r =
        deal-IsReady hand_start (seat_players R room_id cat a b seed)
          (seat_players-IsReady can valid) in
      begin_turn-IsSound (deal hand_start (seat_players R room_id cat a b seed)) first r.sane r.live
        r.going

  pub CanOpen-new_state :
      {s : State} → new_state R room_id (some cat) a b seed ≡ ready s → CanOpen a b
  unfolding new_state too_short
  CanOpen-new_state e = record {
    first_named = λ n. ground (arith, eq_iff a.id "");
    second_named = λ n. ground (arith, eq_iff b.id "");
    ids_differ = λ n. ground (arith, eq_iff a.id b.id);
    first_deck = ground arith;
    second_deck = ground arith;
  }

  pub new_state-IsSound :
      IsValidCatalog cat
      → ((s : State) × (new_state R room_id (some cat) a b seed ≡ ready s) × IsSound s)
        ↔ CanOpen a b
  new_state-IsSound valid = (
    λ (s, e, _). CanOpen-new_state e,
    λ can. (
      open_game (seat_players R room_id cat a b seed),
      new_state-CanOpen can,
      open_game-IsSound can valid,
    ),
  )
