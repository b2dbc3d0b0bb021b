-- ===== src/Room/Closing.antt =====
-- Why the loop of `Run` of internal/room/room.go closes a room.
use pet.Base.{
  ◌≡◌, refl, sym, ap, subst, ◌∙◌, inl, inr, String, Bool, true, false, not, ◌||◌, List, [], ◌∷◌,
  none, some, if◌then◌else◌, str_eq, Bool-cases, Option-cases,
}
use text.Mathlib.TextEquality.{eq_iff}
use pet.Battle.Model.{State, Outcome, player, play_card_kind, attack_kind, end_turn_kind}
use pet.Battle.Actions.{apply}
use pet.Battle.Ending.{end_turn_action}
use pet.Room.Model.{Host, game_over, Cmd, Room, has_player}
use pet.Room.Handle.{
  typed, broadcast, push_state, record_entry, join, leave, judge, after_apply, act, handle,
}
use pet.Room.Run.{
  Loop, Event, Status, command, grace_fired, turn_fired, cancelled, running, closed, go_on,
  after_auto, end_by_timer, step, steps_from, run, entered,
}
use pet.Room.Trace.{core, Core, core-broadcast, core-push_state}
use pet.Room.Kept.{act-parsed, act-unparsed, act-unplayed, end_by_timer-plays, end_by_timer-crashes}

module _ (H : Host) where
  -- The game of the room is over.
  abbrev pub Ended : Room H → Type 0
  Ended r = (t : State) → r.battle ≡ some t → t.over ≡ true

  -- A room that a handler closes has a game that is over.
  abbrev Judged : Room H × Bool → Type 0
  Judged (r, closes) = closes ≡ true → Ended r

  -- A room that closed as finished has a game that is over.
  abbrev Ends : Status H → Type 0
  Ends (running l) = Unit {0}
  Ends (closed r reason) = reason ≡ "finished" → Ended r

  some_inj : {t u : State} → some t ≡ some u → t ≡ u
  some_inj e = cc

  battle_of : (q r : Room H) → core H q ≡ core H r → q.battle ≡ r.battle
  battle_of q r e = ap (λ (c : Core H). c.0) e

  judge-Judged : (r : Room H) (s : State) → r.battle ≡ some s → Judged (judge H r s)
  unfolding judge
  judge-Judged r s b = elim (Bool-cases s.over) [
    | inl done ↦ rw done (λ _ t e.
        subst (λ u. u.over ≡ true)
          (some_inj (
            sym b
            ∙ sym (
                battle_of (broadcast H r (game_over s.winner)) r
                  (core-broadcast H r (game_over s.winner)))
            ∙ e))
          done)
    | inr going ↦ rw going (λ e. cc)
  ]

  pushed-Judged : (r : Room H) (s : State) → r.battle ≡ some s → Judged (judge H (push_state H r) s)
  pushed-Judged r s b =
      judge-Judged (push_state H r) s (battle_of (push_state H r) r (core-push_state H r) ∙ b)

  after_apply-Judged :
      (r : Room H) (cmd : Cmd H) (now : H.Time) (o : Outcome) → Judged (after_apply H r cmd now o)
  unfolding after_apply
  after_apply-Judged r cmd now (t, some code) = λ e. cc
  after_apply-Judged r cmd now (t, none) = pushed-Judged _ t (unfold record_entry in refl)

  act-Judged : (r : Room H) (cmd : Cmd H) (now : H.Time) → Judged (act H r cmd now)
  act-Judged r cmd now = elim (Option-cases r.battle) [
    | inl b ↦ subst Judged (sym (act-unplayed H r cmd now b)) (λ e. cc)
    | inr (t, b) ↦ elim (Option-cases (H.parse cmd.raw)) [
      | inl p ↦ subst Judged (sym (act-unparsed H r cmd now p)) (λ e. cc)
      | inr (a, p) ↦
          subst Judged (sym (act-parsed H r cmd now t a b p))
            (after_apply-Judged r cmd now (apply t cmd.player_id (typed a cmd.kind)))
    ]
  ]

  Judged-if : (b : Bool) (x y : Room H × Bool) → Judged x → Judged y → Judged (if b then x else y)
  Judged-if true x y f g = f
  Judged-if false x y f g = g

  handle-Judged : (r : Room H) (cmd : Cmd H) (now : H.Time) → Judged (handle H r cmd now)
  unfolding handle
  handle-Judged r cmd now =
      let stays : (q : Room H) → Judged (q, false) = λ q e. cc in
      Judged-if (not (has_player H r cmd.player_id)) _ _ (stays r) (
        Judged-if (str_eq cmd.kind "join") (join H r cmd.player_id now, false) _
          (stays (join H r cmd.player_id now))
          (Judged-if
            (str_eq cmd.kind play_card_kind
              || str_eq cmd.kind end_turn_kind
              || str_eq cmd.kind attack_kind)
            _ _ (act-Judged r cmd now)
            (Judged-if (str_eq cmd.kind "leave") (leave H r cmd.player_id, false) (r, false)
              (stays (leave H r cmd.player_id)) (stays r))))

  go_on-Ends : (l : Loop H) (res : Room H × Bool) → Judged res → Ends (go_on H l res)
  unfolding go_on
  go_on-Ends l (r, true) f = λ _. f refl
  go_on-Ends l (r, false) f = tt

  after_auto-plays :
      (r : Room H) (pid : String) (now : H.Time) (o : Outcome)
      → (after_auto H r pid now o).battle ≡ some o.0
  unfolding after_auto record_entry
  after_auto-plays r pid now (t, some code) = refl
  after_auto-plays r pid now (t, none) = refl

  -- The other reasons are different words.
  other_reason :
      (r : Room H) (reason : String) → str_eq reason "finished" ≡ false → Ends (closed r reason)
  other_reason r reason ne e = cc (ne, (eq_iff reason "finished").1 e)

  end_by_timer-Ends : (l : Loop H) (now : H.Time) → Ends (end_by_timer H l now)
  end_by_timer-Ends l now = elim (Option-cases l.room.battle) [
    | inl b ↦ subst Ends (sym (end_by_timer-crashes H l now b)) (other_reason l.room "crashed" refl)
    | inr (t, b) ↦
        let pid = (player t t.turn).id in
        let result = apply t pid end_turn_action in
        let r = after_auto H l.room pid now result in
        subst Ends (sym (end_by_timer-plays H l now t b)) (
          go_on-Ends (record l { turn_armed = false }) (judge H (push_state H r) result.0)
            (pushed-Judged r result.0 (after_auto-plays l.room pid now result)))
  ]

  Ends-if : (b : Bool) (x y : Status H) → Ends x → Ends y → Ends (if b then x else y)
  Ends-if true x y f g = f
  Ends-if false x y f g = g

  step-Ends : (l : Loop H) (e : Event H) → Ends (step H l e)
  unfolding step
  step-Ends l (command cmd now) =
      go_on-Ends l (handle H l.room cmd now) (handle-Judged l.room cmd now)
  step-Ends l grace_fired =
      Ends-if l.room.grace_on (closed l.room "abandoned") (running l)
        (other_reason l.room "abandoned" refl) tt
  step-Ends l (turn_fired now) =
      Ends-if l.turn_armed (end_by_timer H l now) (running l) (end_by_timer-Ends l now) tt
  step-Ends l cancelled = other_reason l.room "aborted" refl

  steps_from-Ends : (st : Status H) (es : List (Event H)) → Ends st → Ends (steps_from H st es)
  unfolding steps_from
  steps_from-Ends (running l) [] h = h
  steps_from-Ends (closed r reason) [] h = h
  steps_from-Ends (closed r reason) (e ∷ es) h = h
  steps_from-Ends (running l) (e ∷ es) h = steps_from-Ends (step H l e) es (step-Ends l e)

  -- A room that closes with the reason "finished", whatever events it received, has a game that is
  -- over, if it has a game.
  pub closed-Ended :
      (r q : Room H) (es : List (Event H)) → run H r es ≡ closed q "finished" → Ended q
  unfolding run
  closed-Ended r q es e = subst Ends e (steps_from-Ends (running (entered H r)) es tt) refl
