-- ===== src/Tests/Games.antt =====
-- Witnesses for internal/battle: a game between "alice" and "bob" with some moves.
use pet.Base.{
  ◌+◌, ◌*◌, ◌<◌, ◌≤◌, ◌≡◌, refl, pos, true, false, List, [], ◌∷◌, none, some, length, arith,
}
use pet.Battle.Model.{
  State, Action, first, player, not_your_turn, play_card_kind, attack_kind, end_turn_kind,
}
use pet.Deck.{get, lookup}
use pet.Battle.Turns.{index_of}
use pet.Battle.Actions.{play_card, index_of_string, index_from, apply, bury}
use pet.Battle.Setup.{open_game, seat_players}
use pet.Battle.Replay.{Step, ignore, replay, replayed}
use pet.Battle.View.{view_for, conceal}
use pet.Battle.Invariant.{IsSound}
use pet.Battle.Rules.{Move}
use pet.Battle.Agreement.{apply-Move_iff}
use pet.Battle.Legal.{apply-IsSound, apply_rejected_unchanged}
use pet.Battle.Measure.{measure, turns_left, turns_in, apply-measure}
use pet.Battle.History.{live, replay-live}
use pet.Battle.Ending.{time_outs, time_outs-over, length-accepted_of_new}
use pet.Battle.Conservation.{held, played_times}
use pet.Battle.Dealing.{cards_conserved}
use pet.Battle.Cards.{count_card}
use pet.Battle.Board.{living, bury-living}
use pet.Battle.View.{view_for-conceal}
use pet.Tests.Fixture.{
  table, table-IsValidCatalog, eight, alice, bob, fixed, opened, new_state-opened, opened-IsSound,
}

abbrev pub play_slime : Action
play_slime = record { kind = play_card_kind; card_id = "slime"; inst_id = ""; target = "" }

abbrev pub pass : Action
pass = record { kind = end_turn_kind; card_id = ""; inst_id = ""; target = "" }

abbrev hit_face : Action
hit_face = record { kind = attack_kind; card_id = ""; inst_id = "m1"; target = "face" }

-- "bob" tries to move out of turn; "alice" plays a slime, which attacks in her next turn.
abbrev moves : List Step
moves =
    (record { player = "bob"; action = pass })
    ∷ (record { player = "alice"; action = play_slime })
    ∷ (record { player = "alice"; action = pass })
    ∷ (record { player = "bob"; action = pass })
    ∷ (record { player = "alice"; action = hit_face })
    ∷ []

abbrev pub played : State
played = (apply opened "alice" play_slime).0

played_accepted : apply opened "alice" play_slime ≡ (played, none)
unfolding apply open_game seat_players index_of play_card index_of_string index_from get lookup
played_accepted = refl

apply-Move_iff_example : Move opened "alice" play_slime played
apply-Move_iff_example = (apply-Move_iff opened played "alice" play_slime).0 played_accepted

apply-IsSound_example : IsSound (apply opened "alice" play_slime).0
apply-IsSound_example = apply-IsSound opened "alice" play_slime opened-IsSound

bob_waits : (apply opened "bob" pass).1 ≡ some not_your_turn
unfolding apply open_game seat_players index_of
bob_waits = refl

apply_rejected_unchanged_example : (apply opened "bob" pass).0 ≡ opened
apply_rejected_unchanged_example = apply_rejected_unchanged opened "bob" pass bob_waits

apply-measure_example : measure played < measure opened
apply-measure_example =
    apply-measure opened played "alice" play_slime opened-IsSound played_accepted

replay-live_example :
    let game = live ignore 0 opened moves tt in
    replay ignore fixed "room" (some table) alice bob (pos 7) game.accepted tt
    ≡ replayed game.final game.seen
replay-live_example =
    replay-live ignore fixed "room" (some table) alice bob (pos 7) opened moves tt new_state-opened

length-accepted_of_new_example : length (live ignore 0 opened moves tt).accepted < 7 * (8 + 8 + 12)
length-accepted_of_new_example =
    length-accepted_of_new fixed "room" table alice bob (pos 7) ignore tt opened moves
      table-IsValidCatalog new_state-opened

pub not_over_yet : opened.over ≡ false
unfolding open_game seat_players
not_over_yet = refl

turns_enough : turns_left opened ≤ 100
unfolding open_game seat_players turns_left turns_in
turns_enough = omega arith

time_outs-over_example : (time_outs 100 opened).over ≡ true
time_outs-over_example = time_outs-over 100 opened opened-IsSound turns_enough

cards_conserved_example :
    let game = live ignore 0 opened moves tt in
    held "slime" (player game.final first) + played_times "slime" "alice" game.accepted
    ≡ count_card "slime" eight
cards_conserved_example =
    cards_conserved fixed "room" table alice bob (pos 7) ignore tt opened moves "slime" first
      table-IsValidCatalog new_state-opened

bury-living_example :
    bury (player played first)
    ≡ record (player played first) { board = living (player played first).board }
bury-living_example = bury-living (player played first)

view_for-conceal_example :
    view_for
      (conceal opened first
        ("golem" ∷ "golem" ∷ "bolt" ∷ "slime" ∷ [])
        ("x" ∷ "x" ∷ "x" ∷ "x" ∷ "x" ∷ [])
        ("x" ∷ "x" ∷ "x" ∷ [])
        (pos 0)
        9)
      first
    ≡ view_for opened first
view_for-conceal_example =
    view_for-conceal opened first ("golem" ∷ "golem" ∷ "bolt" ∷ "slime" ∷ [])
      ("x" ∷ "x" ∷ "x" ∷ "x" ∷ "x" ∷ []) ("x" ∷ "x" ∷ "x" ∷ []) (pos 0) 9
      (unfold open_game seat_players in refl) (unfold open_game seat_players in refl)
      (unfold open_game seat_players in refl)
