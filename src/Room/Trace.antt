-- ===== src/Room/Trace.antt =====
-- What the log of a room says of its game: every accepted action is in it, in order, with the
-- checksum of the state that it led to, and nothing else is.
use pet.Base.{
  ◌+◌, ◌≡◌, refl, sym, ap, subst, ◌∙◌, inl, inr, String, Bool, true, false, not, ◌&&◌, List, [],
  ◌∷◌, ◌++◌, Option, none, some, if◌then◌else◌, arith, Bool-cases, ◌==◌,
}
use pet.Battle.Model.{Action, State}
use pet.Battle.Actions.{apply}
use pet.Deck.{insert}
use pet.Room.Model.{Host, Message, status, game_over, LogEntry, Room, checksum, count_true}
use pet.Room.Handle.{
  send, broadcast, send_view_of, send_view, send_views, show_game, push_state, join, leave, judge,
}
use pet.Room.Steps.{entry_action}

module _ (H : Host) where
  -- The accepted actions that lead from `s` to the last index are those of the log.
  pub data Traced (s : State) : List (LogEntry H) → State → Type 0 where
    opened : Traced s [] s
    more :
        (log : List (LogEntry H)) (t u : State) (e : LogEntry H) (a : Action)
        → Traced s log t
        → entry_action H e ≡ some a
        → apply t e.player a ≡ (u, none)
        → e.hash ≡ checksum H u
        → Traced s (log ++ e ∷ []) u

  -- The id of a room and those of its players.
  pub record Names : Type 0 where
    pub id : String
    pub first_id : String
    pub second_id : String

  abbrev pub names : Room H → Names
  names r = record { id = r.id; first_id = r.first_id; second_id = r.second_id }

  abbrev pub Core : Type 0
  Core = Option State × List (LogEntry H) × Names

  -- The game, the log and the names of a room.
  abbrev pub core : Room H → Core
  core r = (r.battle, r.log, names r)

  -- The room plays the game that began in `s`, and has logged it.
  pub record IsTraced (s : State) (r : Room H) : Type 0 where
    pub now : State
    pub plays : r.battle ≡ some now
    pub traced : Traced s r.log now

  pub core-send : (r : Room H) (pid : String) (m : Message) → core (send H r pid m) ≡ core r
  unfolding send
  core-send r pid m = ground arith

  pub core-broadcast : (r : Room H) (m : Message) → core (broadcast H r m) ≡ core r
  unfolding broadcast
  core-broadcast r m = core-send (send H r r.first_id m) r.second_id m ∙ core-send r r.first_id m

  core-send_view : (r : Room H) (pid : String) → core (send_view H r pid) ≡ core r
  unfolding send_view send_view_of send
  core-send_view r pid = ground arith

  core-if :
      (c : Core) (b : Bool) (q r : Room H) → core q ≡ c → core r ≡ c → core (if b then q else r) ≡ c
  core-if c true q r e f = e
  core-if c false q r e f = f

  core-elim :
      (c : Core) (b : Option State) (q : Room H) (f : State → Room H)
      → core q ≡ c
      → ((s : State) → core (f s) ≡ c)
      → core (elim b [ none ↦ q | some s ↦ f s ]) ≡ c
  core-elim c none q f e g = e
  core-elim c (some s) q f e g = g s

  core-send_views : (r : Room H) → core (send_views H r) ≡ core r
  unfolding send_views
  core-send_views r =
      core-send_view (send_view H r r.first_id) r.second_id ∙ core-send_view r r.first_id

  pub core-push_state : (r : Room H) → core (push_state H r) ≡ core r
  unfolding push_state
  core-push_state r =
      let r' = record r { seq = r.seq + 1 } in
      core-elim (core r) r.battle r _ refl
        (λ s. core-if (core r) r.has_out (send_views H r') r (core-send_views r') refl)

  pub core-judge : (r : Room H) (s : State) → core (judge H r s).0 ≡ core r
  unfolding judge
  core-judge r s = elim (Bool-cases s.over) [
    | inl o ↦ rw o (core-broadcast r (game_over s.winner))
    | inr o ↦ rw o refl
  ]

  core-show_game :
      (r : Room H) (pid : String) (both : Bool) (now : H.Time)
      → core (show_game H r pid both now) ≡ core r
  unfolding show_game
  core-show_game r pid both now =
      let r' = record r { started = true; started_at = now } in
      core-elim (core r) r.battle r _ refl (λ s.
        core-if (core r) (not r.started && both) (push_state H r')
          (if r.started then send_view H r pid else r) (core-push_state r')
          (core-if (core r) r.started (send_view H r pid) r (core-send_view r pid) refl))

  pub core-join : (r : Room H) (pid : String) (now : H.Time) → core (join H r pid now) ≡ core r
  unfolding join
  core-join r pid now =
      let r' = record r {
        joined = insert pid true r.joined;
        online = insert pid true r.online;
        grace_on = false;
      } in
      let m = status (if count_true r'.online == 2 then "ready" else "waiting") in
      core-show_game (broadcast H r' m) pid (count_true r'.online == 2) now ∙ core-broadcast r' m

  pub core-leave : (r : Room H) (pid : String) → core (leave H r pid) ≡ core r
  unfolding leave
  core-leave r pid =
      let r' = record r { online = insert pid false r.online } in
      core-if (core r) (count_true r'.online == 0) (record r' { grace_on = true })
        (broadcast H r' (status "waiting")) refl (core-broadcast r' (status "waiting"))

  pub IsTraced-core : (s : State) (r q : Room H) → core q ≡ core r → IsTraced s r → IsTraced s q
  IsTraced-core s r q e h = record {
    now = h.now;
    plays = ap (λ (c : Core). c.0) e ∙ h.plays;
    traced = subst (λ log. Traced s log h.now) (sym (ap (λ (c : Core). c.1) e)) h.traced;
  }
