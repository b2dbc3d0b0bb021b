-- ===== src/Tests/Bots.antt =====
-- Witnesses for scripts/bot: "alice" in her first turn, with a bot that picks the last candidate.
use pet.Base.{sub_int, ℕ, ◌-◌, ◌<◌, ◌≡◌, refl, some, none, arith}
use pet.Battle.Model.{State, Action, first, player, end_turn_kind}
use pet.Battle.Turns.{index_of}
use pet.Battle.Actions.{apply, play_card, index_of_string, index_from, fresh_minion}
use pet.Battle.Setup.{open_game, seat_players}
use pet.Battle.Legal.{apply-IsSound}
use pet.Battle.View.{view_for}
use pet.Deck.{get, lookup}
use pet.Bot.{
  Rng, choose_action, stop, candidates, plays_from, attacks_from, is_playable, is_seen, pick,
}
use pet.Bot.Legal.{choose_action-accepted}
use pet.Bot.Eager.{choose_action-ends}
use pet.Tests.Fixture.{opened, opened-IsSound}
use pet.Tests.Games.{play_slime, played, not_over_yet}

last_in_range : (n : ℕ) → 0 < n → n - 1 < n
last_in_range n h = omega (arith, h)

abbrev last : Rng
last = record { Source = Unit; intn = λ r n. (n - 1, r); in_range = λ r n h. last_in_range n h }

on_turn : opened.turn ≡ first
unfolding open_game seat_players
on_turn = refl

choose_action-accepted_example :
    (a : Action) × (t : State) × ((choose_action last (view_for opened first) opened.cat tt).0
      ≡ some a)
    × (apply opened (player opened first).id a ≡ (t, none))
choose_action-accepted_example =
    choose_action-accepted last opened first tt opened-IsSound not_over_yet on_turn

abbrev ended_state : State
ended_state = (apply played (player played first).id stop).0

chosen : (choose_action last (view_for played first) played.cat tt).0 ≡ some stop
unfolding choose_action apply open_game seat_players index_of play_card index_of_string index_from
    get lookup pick candidates view_for plays_from is_seen is_playable sub_int attacks_from
    fresh_minion
chosen = refl

accepted : apply played (player played first).id stop ≡ (ended_state, none)
unfolding apply open_game seat_players index_of play_card index_of_string index_from get lookup
accepted = refl

choose_action-ends_example : end_turn_kind ≡ end_turn_kind
choose_action-ends_example =
    choose_action-ends last played ended_state first tt stop stop
      (apply-IsSound opened "alice" play_slime opened-IsSound) chosen refl accepted
