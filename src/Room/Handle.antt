-- ===== src/Room/Handle.antt =====
-- internal/room/room.go: `handle` with `status`, `broadcast`, `sendView`, `pushState`, `sendErr`, and
-- `record` of report.go.
use pet.Base.{
  ◌+◌, String, Bool, true, false, not, ◌&&◌, ◌||◌, [], ◌∷◌, ◌++◌, none, some, if◌then◌else◌, str_eq,
  ◌==◌,
}
use pet.Deck.{insert}
use pet.Battle.Model.{
  Seat, first, second, Action, State, Outcome, play_card_kind, attack_kind, end_turn_kind,
}
use pet.Battle.Actions.{apply}
use pet.Battle.View.{view_for}
use pet.Room.Model.{
  Host, Message, status, game_state, refusal, game_over, count_true, checksum, LogEntry, Cmd, Room,
  has_player,
}

-- `json.Unmarshal` has set the other fields; the type is that of the command.
abbrev pub typed : Action → String → Action
typed a kind = record a { kind = kind }

module _ (H : Host) where
  -- `r.Out(pid, msg)`, if the callback is set.
  unfoldable pub send : Room H → String → Message → Room H
  send r pid m = if r.has_out then record r { sent = r.sent ++ (pid, m) ∷ [] } else r

  unfoldable pub broadcast : Room H → Message → Room H
  broadcast r m = send (send r r.first_id m) r.second_id m

  unfoldable pub send_view_of : Room H → String → State → Seat → Room H
  send_view_of r pid s i = send r pid (game_state (record (view_for s i) { seq = r.seq }))

  unfoldable pub send_view : Room H → String → Room H
  send_view r pid = elim r.battle [
    | none ↦ r
    | some s ↦
        if str_eq r.first_id pid
        then send_view_of r pid s first
        else if str_eq r.second_id pid
        then send_view_of r pid s second
        else r
  ]

  -- The loop of `pushState` over the players.
  unfoldable pub send_views : Room H → Room H
  send_views r = send_view (send_view r r.first_id) r.second_id

  unfoldable pub push_state : Room H → Room H
  push_state r = elim r.battle [
    | none ↦ r
    | some s ↦ if r.has_out then send_views (record r { seq = r.seq + 1 }) else r
  ]

  -- `record`, at the time `now`, in the state `s`.
  unfoldable pub record_entry : Room H → State → String → String → H.Raw → Bool → H.Time → Room H
  record_entry r s pid kind raw auto now =
      let e : LogEntry H = record {
        seq = r.seq + 1;
        player = pid;
        kind = kind;
        raw = raw;
        auto = auto;
        at_ms = H.millis r.started_at now;
        hash = checksum H s;
      } in
      record r { log = r.log ++ e ∷ [] }

  -- The end of the case "join": the game begins, or goes on.
  unfoldable pub show_game : Room H → String → Bool → H.Time → Room H
  show_game r pid both now = elim r.battle [
    | none ↦ r
    | some s ↦
        if not r.started && both
        then push_state (record r { started = true; started_at = now })
        else if r.started
        then send_view r pid
        else r
  ]

  -- The case "join".
  unfoldable pub join : Room H → String → H.Time → Room H
  join r pid now =
      let r' = record r {
        joined = insert pid true r.joined;
        online = insert pid true r.online;
        grace_on = false;
      } in
      let both = count_true r'.online == 2 in
      show_game (broadcast r' (status (if both then "ready" else "waiting"))) pid both now

  -- The case "leave".
  unfoldable pub leave : Room H → String → Room H
  leave r pid =
      let r' = record r { online = insert pid false r.online } in
      if count_true r'.online == 0
      then record r' { grace_on = true }
      else broadcast r' (status "waiting")

  -- What follows an accepted action: the room, and whether it closes.
  unfoldable pub judge : Room H → State → Room H × Bool
  judge r s = if s.over then (broadcast r (game_over s.winner), true) else (r, false)

  unfoldable pub after_apply : Room H → Cmd H → H.Time → Outcome → Room H × Bool
  after_apply r cmd now (t, some code) =
      (send (record r { battle = some t }) cmd.player_id (refusal (some code)), false)
  after_apply r cmd now (t, none) =
      judge
        (push_state
          (record_entry (record r { battle = some t }) t cmd.player_id cmd.kind cmd.raw false now))
        t

  -- The case "play_card", "end_turn", "attack".
  unfoldable pub act : Room H → Cmd H → H.Time → Room H × Bool
  act r cmd now = elim r.battle [
    | none ↦ (send r cmd.player_id (refusal none), false)
    | some s ↦ elim (H.parse cmd.raw) [
      | none ↦ (send r cmd.player_id (refusal none), false)
      | some a ↦ after_apply r cmd now (apply s cmd.player_id (typed a cmd.kind))
    ]
  ]

  unfoldable pub handle : Room H → Cmd H → H.Time → Room H × Bool
  handle r cmd now =
      if not (has_player H r cmd.player_id)
      then (r, false)
      else if str_eq cmd.kind "join"
      then (join r cmd.player_id now, false)
      else if str_eq cmd.kind play_card_kind
          || str_eq cmd.kind end_turn_kind
          || str_eq cmd.kind attack_kind
      then act r cmd now
      else if str_eq cmd.kind "leave"
      then (leave r cmd.player_id, false)
      else (r, false)
