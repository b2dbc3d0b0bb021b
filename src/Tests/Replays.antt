-- ===== src/Tests/Replays.antt =====
-- Witnesses for internal/replay: the row of a report of the room of Tests/Rooms.
use text.Mathlib.TextEquality.{eq_iff}
use pet.Base.{
  ◌≡◌, ◌≢◌, inr, none, arith, true, refl, ap, String, pos, suc, List, [], ◌∷◌, map, some, length,
}
use pet.Battle.Turns.{index_of, end_turn, display_round}
use pet.Battle.Model.{State, end_turn_kind}
use pet.Battle.Replay.{Step}
use pet.Battle.View.{god_view}
use pet.Room.Steps.{steps, entry_action}
use pet.Battle.Actions.{apply, seat_eq, dispatch}
use pet.Battle.Setup.{open_game, seat_players}
use pet.Room.Model.{LogEntry, checksum}
use pet.Replay.{Codec, BattleReport, Result, built, build, row_of, to_battle_report}
use pet.Replay.Agreement.{IsReportedEnd}
use pet.Replay.Played.{Plays}
use pet.Replay.Retold.{IsRetold, opening_frame, build-IsRetold}
use pet.Replay.Saved.{IsFaithful, restored, build-saved}
use pet.Tests.Fixture.{table, eight, fixed, alice, bob, opened, new_state-opened}
use pet.Tests.Rooms.{host, zeros, report, events, last_room, closes, reported}

-- JSON that is the value itself.
abbrev pub codec : Codec host
codec = record {
  Json = (List String × List String) × List (LogEntry host);
  marshal_decks = λ d. some (d, []);
  unmarshal_decks = λ j. some j.0;
  marshal_log = λ l. some (([], []), l);
  unmarshal_log = λ j. some j.1;
}

abbrev pub row : BattleReport host codec
row = row_of host codec "cards" report ((eight, eight), []) (([], []), report.actions)

-- A row of one action, with the checksum of the state that it leads to.
abbrev turn_ended : LogEntry host
turn_ended = record {
  seq = 1;
  player = "alice";
  kind = end_turn_kind;
  raw = none;
  auto = true;
  at_ms = pos 2;
  hash = zeros;
}

abbrev turn_step : Step
turn_step = record {
  player = "alice";
  action = record { kind = end_turn_kind; card_id = ""; inst_id = ""; target = "" };
}

abbrev bobs_turn : State
bobs_turn = (apply opened "alice" turn_step.action).0

abbrev pub told_row : BattleReport host codec
told_row = record {
  room_id = "room";
  player_a = "alice";
  player_b = "bob";
  winner = "";
  end_reason = "aborted";
  seed = pos 7;
  rounds = 1;
  init_decks_json = ((eight, eight), []);
  actions_json = (([], []), turn_ended ∷ []);
  cards_hash = "cards";
  started_at = 0;
  ended_at = 3;
}

abbrev pub told : Result host codec
told = record {
  row = told_row;
  frames =
      opening_frame host codec opened
      ∷ (record { index = 1; entry = some (turn_ended, turn_step); state = god_view bobs_turn })
      ∷ [];
}

turn_accepted : apply opened "alice" turn_step.action ≡ (bobs_turn, none)
unfolding apply open_game seat_players index_of seat_eq dispatch end_turn
turn_accepted = refl

same_checksum : turn_ended.hash ≡ checksum host bobs_turn
unfolding checksum
same_checksum = refl

turn_parsed : steps host (turn_ended ∷ []) ≡ some (turn_step ∷ [])
unfolding steps entry_action
turn_parsed = refl

not_finished : told_row.end_reason ≢ "finished"
not_finished e = ground (arith, (eq_iff told_row.end_reason "finished").1 e)

aborted_end : IsReportedEnd host codec bobs_turn told_row
unfolding apply open_game seat_players index_of seat_eq dispatch end_turn display_round
aborted_end = record {
  same_winner = refl;
  same_rounds = refl;
  over_if_finished = λ e. absurd (not_finished e);
  finished_if_over = λ e. cc e;
}

told-IsRetold : IsRetold host codec fixed (some table) "cards" told_row told
told-IsRetold = record {
  same_cards = refl;
  decks = (eight, eight);
  decks_parsed = refl;
  log = turn_ended ∷ [];
  log_parsed = refl;
  sts = turn_step ∷ [];
  steps_parsed = turn_parsed;
  opening = opened;
  opened = new_state-opened;
  shown =
      (record { index = 1; entry = some (turn_ended, turn_step); state = god_view bobs_turn }) ∷ [];
  final = bobs_turn;
  plays =
      Plays.next 0 opened bobs_turn bobs_turn turn_ended turn_step [] [] [] turn_accepted
        (inr same_checksum) (Plays.at_end 1 bobs_turn);
  same_frames = refl;
  same_row = refl;
  same_end = aborted_end;
}

build-IsRetold_example : build host codec fixed (some table) "cards" told_row ≡ built told
build-IsRetold_example =
    (build-IsRetold host codec fixed (some table) "cards" told_row told).1 told-IsRetold

map-restored : (l : List (LogEntry host)) → map (restored host codec (λ r. r)) l ≡ l
map-restored [] = refl
map-restored (e ∷ l) = ap (λ m. e ∷ m) (map-restored l)

pub codec-IsFaithful : IsFaithful host codec
codec-IsFaithful = record {
  rewritten = λ r. r;
  same_parse = λ r. refl;
  same_empty = λ r. refl;
  decks_back = λ d j e. cc;
  log_back = λ l j e. cc (map-restored l);
}

pub saved : to_battle_report host codec "cards" report ≡ some row
unfolding to_battle_report apply open_game seat_players index_of end_turn
saved = refl

build-saved_example :
    (res : Result host codec) × (build host codec fixed (some table) "cards" row ≡ built res)
    × (length res.frames ≡ suc (length report.actions))
build-saved_example =
    build-saved host codec fixed "room" table alice bob (pos 7) opened new_state-opened
      codec-IsFaithful events 0 3 last_room "aborted" "cards" report row closes reported saved
