-- ===== src/Tests/Rooms.antt =====
-- Witnesses for internal/room: "alice" and "bob" join, "alice" ends her turn, the room is aborted.
use pet.Base.{
  sub_int, ℕ, ◌≡◌, ◌≢◌, refl, String, pos, Bool, true, false, List, [], ◌∷◌, Option, none, some,
  arith,
}
use text.Mathlib.TextEquality.{eq_iff}
use pet.Battle.Model.{Minion, State, Action, attack_kind, end_turn_kind}
use pet.Battle.Turns.{index_of, end_turn, check_over, is_dead, decide_over, display_round}
use pet.Battle.Actions.{
  attack, strike, settle, find_minion, minion_from, choose_target, remove_dead, bury, compact,
  seat_eq, dispatch, apply,
}
use pet.Battle.Setup.{open_game, seat_players}
use pet.Deck.{insert}
use pet.Room.Handle.{
  join, broadcast, send, show_game, push_state, send_views, send_view, send_view_of, record_entry,
  judge, act, after_apply, handle,
}
use pet.Room.Model.{has_player, count_true, Host, Room, Report, new_room}
use pet.Room.Run.{
  closed, step, go_on, check_turn, same_turn, end_by_timer, after_auto, Event, command, turn_fired,
  cancelled, entered, room_of, run, report_of, finish, steps_from,
}
use pet.Battle.Replay.{Step, ignore, replay, replayed}
use pet.Room.Steps.{steps}
use pet.Room.Trace.{IsTraced}
use pet.Room.Logged.{run-IsTraced}
use pet.Room.Reported.{finish-replays}
use pet.Tests.Fixture.{opened, table, alice, bob, fixed, new_state-opened}

-- JSON that is an action or nothing, a clock that counts, and a checksum that is always the same.
abbrev pub is_none : Option Action → Bool
is_none none = true
is_none (some a) = false

pub parse_none : (r : Option Action) → is_none r ≡ true → r ≡ none
parse_none none e = refl
parse_none (some a) e = cc

abbrev pub zeros : String
zeros = "0000000000000000"

pub zeros_digits : zeros ≢ ""
zeros_digits e = ground (arith, (eq_iff zeros "").1 e)

abbrev pub host : Host
host = record {
  Raw = Option Action;
  null = none;
  is_empty = is_none;
  parse = λ r. r;
  Time = ℕ;
  millis = λ from to. pos to;
  sum64 = λ ws. zeros;
  null_is_empty = refl;
  parse_empty = parse_none;
  sum64_digits = λ ws. zeros_digits;
}

abbrev pub join_of : String → Event host
join_of id = command (record { player_id = id; kind = "join"; raw = none }) 1

abbrev pub events : List (Event host)
events = join_of "alice" ∷ join_of "bob" ∷ turn_fired 2 ∷ cancelled ∷ []

abbrev pub room : Room host
room = new_room host "room" "alice" "bob" (some opened) 0

abbrev pub last_room : Room host
last_room = room_of host (run host room events)

abbrev pub report : Report host
report =
    report_of host last_room
      (apply opened "alice"
        (record { kind = end_turn_kind; card_id = ""; inst_id = ""; target = "" })).0
      "aborted" 3

pub reported : finish host last_room "aborted" 3 ≡ some report
unfolding finish run entered steps_from step handle has_player new_room join broadcast send
    show_game push_state send_views send_view send_view_of go_on check_turn same_turn insert
    count_true end_by_timer after_auto record_entry judge apply index_of seat_eq dispatch open_game
    seat_players end_turn
reported = refl

pub closes : run host room events ≡ closed last_room "aborted"
unfolding finish run entered steps_from step handle has_player new_room join broadcast send
    show_game push_state send_views send_view send_view_of go_on check_turn same_turn insert
    count_true end_by_timer after_auto record_entry judge apply index_of seat_eq dispatch open_game
    seat_players end_turn
closes = refl

-- "alice" has an awake minion and "bob" one point of health.
abbrev ready_minion : Minion
ready_minion = record {
  inst_id = "a-1";
  card_id = "slime";
  atk = pos 1;
  hp = pos 2;
  max_hp = pos 2;
  can_attack = true;
}

abbrev last_blow : State
last_blow = record opened {
  first_player = record opened.first_player { board = ready_minion ∷ [] };
  second_player = record opened.second_player { hp = pos 1 };
}

abbrev decided_room : Room host
decided_room = new_room host "room" "alice" "bob" (some last_blow) 0

abbrev blow : List (Event host)
blow =
    command
      (record {
        player_id = "alice";
        kind = attack_kind;
        raw = some (record { kind = ""; card_id = ""; inst_id = "a-1"; target = "face" });
      })
      1
    ∷ []

abbrev won_room : Room host
won_room = room_of host (run host decided_room blow)

finishes : run host decided_room blow ≡ closed won_room "finished"
unfolding run entered steps_from step handle act after_apply has_player new_room broadcast send
    show_game push_state send_views send_view send_view_of go_on check_turn same_turn record_entry
    judge apply index_of seat_eq dispatch open_game seat_players attack strike settle find_minion
    minion_from choose_target remove_dead bury compact check_over is_dead decide_over sub_int
finishes = refl

run-IsTraced_example : IsTraced host opened last_room
run-IsTraced_example = run-IsTraced host opened "room" "alice" "bob" 0 events

finish-replays_example :
    (sts : List Step) × (final : State) × (steps host report.actions ≡ some sts)
    × (replay ignore fixed "room" (some table) alice bob (pos 7) sts tt ≡ replayed final tt)
    × (final.winner ≡ report.winner)
    × (display_round final ≡ report.rounds)
    × (final.over ≡ true → report.reason ≡ "finished")
finish-replays_example =
    finish-replays host fixed "room" (some table) alice bob (pos 7) opened 0 events "aborted" 3
      report new_state-opened reported
