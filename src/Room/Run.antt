-- ===== src/Room/Run.antt =====
-- internal/room/room.go: the loop of `Run`, and `finish` of report.go. What the `select` of the loop
-- receives is an `Event`; a timer that is not set, or a nil channel, is never received from, so an
-- event of such a timer changes nothing. A panic of a callback is not modelled.
use pet.Base.{
  String, Bool, true, false, not, ◌&&◌, ◌||◌, List, [], ◌∷◌, Option, none, some, if◌then◌else◌,
}
use pet.Battle.Model.{Seat, State, Outcome, player, end_turn_kind}
use pet.Battle.Turns.{display_round}
use pet.Battle.Actions.{seat_eq, apply}
use pet.Battle.Ending.{end_turn_action}
use pet.Room.Model.{Host, Cmd, Room, Report}
use pet.Room.Handle.{handle, record_entry, push_state, judge}

-- `-1` for `lastTurn` is `none`.
unfoldable pub same_turn : Option Seat → Seat → Bool
same_turn none i = false
same_turn (some j) i = seat_eq j i

module _ (H : Host) where
  pub record Loop : Type 0 where
    pub room : Room H
    pub turn_armed : Bool
    pub last_turn : Option Seat

  pub data Event : Type 0 where
    command : Cmd H → H.Time → Event
    grace_fired : Event
    turn_fired : H.Time → Event
    cancelled : Event

  pub data Status : Type 0 where
    running : Loop → Status
    closed : Room H → String → Status

  abbrev pub room_of : Status → Room H
  room_of (running l) = l.room
  room_of (closed r reason) = r

  unfoldable pub entered : Room H → Loop
  entered r = record { room = r; turn_armed = false; last_turn = none }

  unfoldable pub check_turn : Loop → Loop
  check_turn l = elim l.room.battle [
    | none ↦ l
    | some s ↦
        if l.room.started && not s.over && not (same_turn l.last_turn s.turn)
        then record l { last_turn = some s.turn; turn_armed = true }
        else l
  ]

  -- The end of a round of the loop, after what may have closed the room.
  unfoldable pub go_on : Loop → Room H × Bool → Status
  go_on l (r, true) = closed r "finished"
  go_on l (r, false) = running (check_turn (record l { room = r }))

  -- What the automatic end of a turn leaves in the log.
  unfoldable pub after_auto : Room H → String → H.Time → Outcome → Room H
  after_auto r pid now (t, some code) = record r { battle = some t }
  after_auto r pid now (t, none) =
      record_entry H (record r { battle = some t }) t pid end_turn_kind H.null true now

  -- The case of the turn timer. Without a battle the code would panic.
  unfoldable pub end_by_timer : Loop → H.Time → Status
  end_by_timer l now = elim l.room.battle [
    | none ↦ closed l.room "crashed"
    | some s ↦
        let pid = (player s s.turn).id in
        let result = apply s pid end_turn_action in
        go_on (record l { turn_armed = false })
          (judge H (push_state H (after_auto l.room pid now result)) result.0)
  ]

  unfoldable pub step : Loop → Event → Status
  step l (command cmd now) = go_on l (handle H l.room cmd now)
  step l grace_fired = if l.room.grace_on then closed l.room "abandoned" else running l
  step l (turn_fired now) = if l.turn_armed then end_by_timer l now else running l
  step l cancelled = closed l.room "aborted"

  unfoldable pub steps_from : Status → List Event → Status
  steps_from st [] = st
  steps_from (closed r reason) (e ∷ es) = closed r reason
  steps_from (running l) (e ∷ es) = steps_from (step l e) es

  unfoldable pub run : Room H → List Event → Status
  run r es = steps_from (running (entered r)) es

  -- The literal of the report in `finish`.
  abbrev pub report_of : Room H → State → String → H.Time → Report H
  report_of r s reason now = record {
    room_id = r.id;
    first_id = r.first_id;
    second_id = r.second_id;
    winner = s.winner;
    reason = if s.over then "finished" else reason;
    seed = s.seed;
    rounds = display_round s;
    actions = r.log;
    started_at = r.started_at;
    ended_at = now;
    first_init_deck = s.first_init_deck;
    second_init_deck = s.second_init_deck;
  }

  -- `finish`, with the report for `OnFinish`.
  unfoldable pub finish : Room H → String → H.Time → Option (Report H)
  finish r reason now = elim r.battle [
    | none ↦ none
    | some s ↦
        if not r.has_on_finish || not r.started then none else some (report_of r s reason now)
  ]
