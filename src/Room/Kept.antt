-- ===== src/Room/Kept.antt =====
-- What stays true of a room while the loop of `Run` of internal/room/room.go handles events: it is
-- enough to look at the game, the log and the names, and at the logging of an accepted action.
use pet.Base.{
  ◌≡◌, refl, sym, ap, subst, ◌∙◌, inl, inr, String, Bool, true, false, not, ◌||◌, List, [], ◌∷◌,
  none, some, if◌then◌else◌, str_eq, arith, Bool-cases, Option-cases,
}
use pet.Battle.Model.{
  Action, Code, State, Outcome, player, play_card_kind, attack_kind, end_turn_kind,
}
use pet.Battle.Actions.{apply}
use pet.Battle.Ending.{end_turn_action}
use pet.Battle.Legal.{apply_rejected_unchanged}
use pet.Room.Model.{Host, refusal, LogEntry, Cmd, Room, has_player}
use pet.Room.Handle.{typed, send, push_state, record_entry, judge, after_apply, act, handle}
use pet.Room.Run.{
  Loop, Event, Status, command, grace_fired, turn_fired, cancelled, running, closed, check_turn,
  go_on, after_auto, end_by_timer, step, steps_from, room_of, run, entered,
}
use pet.Room.Steps.{entry_action}
use pet.Room.Trace.{names, core, core-send, core-push_state, core-judge, core-join, core-leave}

module _ (H : Host) where
  parsed_action :
      (raw : H.Raw) (kind : String) (a : Action)
      → H.parse raw ≡ some a
      → (e : LogEntry H) → e.raw ≡ raw
      → e.kind ≡ kind
      → entry_action H e ≡ some (typed a kind)
  unfolding entry_action
  parsed_action raw kind a p e same_raw same_kind = elim (Bool-cases (H.is_empty raw)) [
    | inl empty ↦ cc (H.parse_empty raw empty, p)
    | inr full ↦ ground (arith, same_raw, same_kind, full, p)
  ]

  auto_action :
      (e : LogEntry H)
      → e.raw ≡ H.null
      → e.kind ≡ end_turn_kind
      → entry_action H e ≡ some end_turn_action
  unfolding entry_action
  auto_action e same_raw same_kind = ground (arith, same_raw, same_kind, H.null_is_empty)

  pub act-parsed :
      (r : Room H) (cmd : Cmd H) (now : H.Time) (t : State) (a : Action)
      → r.battle ≡ some t
      → H.parse cmd.raw ≡ some a
      → act H r cmd now ≡ after_apply H r cmd now (apply t cmd.player_id (typed a cmd.kind))
  unfolding act
  act-parsed r cmd now t a b p = ground (arith, b, p)

  pub act-unplayed :
      (r : Room H) (cmd : Cmd H) (now : H.Time)
      → r.battle ≡ none
      → act H r cmd now ≡ (send H r cmd.player_id (refusal none), false)
  unfolding act
  act-unplayed r cmd now b = ground (arith, b)

  pub act-unparsed :
      (r : Room H) (cmd : Cmd H) (now : H.Time)
      → H.parse cmd.raw ≡ none
      → act H r cmd now ≡ (send H r cmd.player_id (refusal none), false)
  unfolding act
  act-unparsed r cmd now p = ground (arith, p)

  room-check_turn : (l : Loop H) → (check_turn H l).room ≡ l.room
  unfolding check_turn
  room-check_turn l = ground arith

  pub end_by_timer-plays :
      (l : Loop H) (now : H.Time) (t : State)
      → l.room.battle ≡ some t
      → end_by_timer H l now ≡ (
          let pid = (player t t.turn).id in
          let result = apply t pid end_turn_action in
          go_on H
            (record l { turn_armed = false })
            (judge H (push_state H (after_auto H l.room pid now result)) result.0))
  unfolding end_by_timer
  end_by_timer-plays l now t e = ground (arith, e)

  pub end_by_timer-crashes :
      (l : Loop H) (now : H.Time)
      → l.room.battle ≡ none
      → end_by_timer H l now ≡ closed l.room "crashed"
  unfolding end_by_timer
  end_by_timer-crashes l now e = ground (arith, e)

  -- A property of rooms that depends on the core alone and that a logged action keeps.
  pub record Keeps (P : Room H → Type 0) : Type 0 where
    pub same_core : (q r : Room H) → core H q ≡ core H r → P r → P q
    pub logged :
        (r : Room H) (t u : State) (pid kind : String) (raw : H.Raw) (auto : Bool) (now : H.Time)
        (a : Action)
        → P r
        → r.battle ≡ some t
        → ((e : LogEntry H) → e.raw ≡ raw → e.kind ≡ kind → entry_action H e ≡ some a)
        → apply t pid a ≡ (u, none)
        → P (record_entry H (record r { battle = some u }) u pid kind raw auto now)

  unchanged :
      (r : Room H) (t : State)
      → r.battle ≡ some t
      → core H (record r { battle = some t }) ≡ core H r
  unchanged r t e = ap (λ b. (b, r.log, names H r)) (sym e)

  module _ (P : Room H → Type 0) (k : Keeps P) where
    judged : (r : Room H) (t : State) → P r → P (judge H (push_state H r) t).0
    judged r t h = k.same_core _ r (core-judge H (push_state H r) t ∙ core-push_state H r) h

    -- A rejected action leaves the room as it is.
    rejected :
        (r : Room H) (t u : State) (pid : String) (a : Action) (code : Code)
        → P r
        → r.battle ≡ some t
        → apply t pid a ≡ (u, some code)
        → P (record r { battle = some u })
    rejected r t u pid a code h b e =
        let same : u ≡ t =
          ap (λ (o : Outcome). o.0) (sym e)
          ∙ apply_rejected_unchanged t pid a (ap (λ (o : Outcome). o.1) e) in
        k.same_core _ r (unchanged r u (b ∙ ap some (sym same))) h

    after_apply-keeps :
        (r : Room H) (cmd : Cmd H) (now : H.Time) (t : State) (a : Action) (result : Outcome)
        → P r
        → r.battle ≡ some t
        → H.parse cmd.raw ≡ some a
        → apply t cmd.player_id (typed a cmd.kind) ≡ result
        → P (after_apply H r cmd now result).0
    unfolding after_apply
    after_apply-keeps r cmd now t a (u, some code) h b p e =
        k.same_core _ _
          (core-send H (record r { battle = some u }) cmd.player_id (refusal (some code)))
          (rejected r t u cmd.player_id (typed a cmd.kind) code h b e)
    after_apply-keeps r cmd now t a (u, none) h b p e = judged _ u (
        k.logged r t u cmd.player_id cmd.kind cmd.raw false now (typed a cmd.kind) h b
          (parsed_action cmd.raw cmd.kind a p) e)

    act-keeps : (r : Room H) (cmd : Cmd H) (now : H.Time) → P r → P (act H r cmd now).0
    act-keeps r cmd now h = elim (Option-cases r.battle) [
      | inl b ↦ subst (λ res. P res.0) (sym (act-unplayed r cmd now b)) (refused r cmd h)
      | inr (t, b) ↦ elim (Option-cases (H.parse cmd.raw)) [
        | inl p ↦ subst (λ res. P res.0) (sym (act-unparsed r cmd now p)) (refused r cmd h)
        | inr (a, p) ↦
            subst (λ res. P res.0) (sym (act-parsed r cmd now t a b p))
              (after_apply-keeps r cmd now t a (apply t cmd.player_id (typed a cmd.kind)) h b p
                refl)
      ]
    ]
      where
        refused : (r : Room H) (cmd : Cmd H) → P r → P (send H r cmd.player_id (refusal none))
        refused r cmd h = k.same_core _ r (core-send H r cmd.player_id (refusal none)) h

    keeps-if : (b : Bool) (x y : Room H × Bool) → P x.0 → P y.0 → P (if b then x else y).0
    keeps-if true x y f g = f
    keeps-if false x y f g = g

    handle-keeps : (r : Room H) (cmd : Cmd H) (now : H.Time) → P r → P (handle H r cmd now).0
    unfolding handle
    handle-keeps r cmd now h = keeps-if (not (has_player H r cmd.player_id)) _ _ h (
        keeps-if (str_eq cmd.kind "join") _ _ (k.same_core _ r (core-join H r cmd.player_id now) h)
          (keeps-if
            (str_eq cmd.kind play_card_kind
              || str_eq cmd.kind end_turn_kind
              || str_eq cmd.kind attack_kind)
            _ _ (act-keeps r cmd now h)
            (keeps-if (str_eq cmd.kind "leave") _ _
              (k.same_core _ r (core-leave H r cmd.player_id) h) h)))

    after_auto-keeps :
        (r : Room H) (t : State) (pid : String) (now : H.Time) (result : Outcome)
        → P r
        → r.battle ≡ some t
        → apply t pid end_turn_action ≡ result
        → P (after_auto H r pid now result)
    unfolding after_auto
    after_auto-keeps r t pid now (u, some code) h b e =
        rejected r t u pid end_turn_action code h b e
    after_auto-keeps r t pid now (u, none) h b e =
        k.logged r t u pid end_turn_kind H.null true now end_turn_action h b auto_action e

    go_on-keeps : (l : Loop H) (res : Room H × Bool) → P res.0 → P (room_of H (go_on H l res))
    unfolding go_on
    go_on-keeps l (r, true) f = f
    go_on-keeps l (r, false) f = subst P (sym (room-check_turn (record l { room = r }))) f

    end_by_timer-keeps :
        (l : Loop H) (now : H.Time) → P l.room → P (room_of H (end_by_timer H l now))
    end_by_timer-keeps l now h = elim (Option-cases l.room.battle) [
      | inl b ↦ subst (λ st. P (room_of H st)) (sym (end_by_timer-crashes l now b)) h
      | inr (t, b) ↦
          let pid = (player t t.turn).id in
          let result = apply t pid end_turn_action in
          subst (λ st. P (room_of H st)) (sym (end_by_timer-plays l now t b))
            (go_on-keeps (record l { turn_armed = false })
              (judge H (push_state H (after_auto H l.room pid now result)) result.0)
              (judged (after_auto H l.room pid now result) result.0
                (after_auto-keeps l.room t pid now result h b refl)))
    ]

    room_of-if :
        (b : Bool) (x y : Status H)
        → P (room_of H x)
        → P (room_of H y)
        → P (room_of H (if b then x else y))
    room_of-if true x y f g = f
    room_of-if false x y f g = g

    step-keeps : (l : Loop H) (e : Event H) → P l.room → P (room_of H (step H l e))
    unfolding step
    step-keeps l (command cmd now) h =
        go_on-keeps l (handle H l.room cmd now) (handle-keeps l.room cmd now h)
    step-keeps l grace_fired h =
        room_of-if l.room.grace_on (closed l.room "abandoned") (running l) h h
    step-keeps l (turn_fired now) h =
        room_of-if l.turn_armed (end_by_timer H l now) (running l) (end_by_timer-keeps l now h) h
    step-keeps l cancelled h = h

    steps_from-keeps :
        (st : Status H) (es : List (Event H))
        → P (room_of H st)
        → P (room_of H (steps_from H st es))
    unfolding steps_from
    steps_from-keeps (running l) [] h = h
    steps_from-keeps (closed r reason) [] h = h
    steps_from-keeps (closed r reason) (e ∷ es) h = h
    steps_from-keeps (running l) (e ∷ es) h = steps_from-keeps (step H l e) es (step-keeps l e h)

    pub run-keeps : (r : Room H) (es : List (Event H)) → P r → P (room_of H (run H r es))
    unfolding run entered
    run-keeps r es h = steps_from-keeps (running (entered H r)) es h
