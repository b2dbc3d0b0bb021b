-- ===== src/Room/Logged.antt =====
-- The loop of `Run` of internal/room/room.go keeps the log of the room true to its game.
use pet.Base.{◌≡◌, refl, sym, ap, subst, ◌∙◌, String, Bool, List, some, none}
use pet.Battle.Model.{Action, State}
use pet.Battle.Actions.{apply}
use pet.Room.Model.{Host, LogEntry, Room, new_room}
use pet.Room.Handle.{record_entry}
use pet.Room.Run.{Event, room_of, run}
use pet.Room.Steps.{entry_action}
use pet.Room.Trace.{Traced, IsTraced, IsTraced-core, Names, names, Core}
use pet.Room.Kept.{Keeps, run-keeps}

module _ (H : Host) where
  some_inj : {t u : State} → some t ≡ some u → t ≡ u
  some_inj e = cc

  logged-IsTraced :
      (s : State) (r : Room H) (t u : State) (pid kind : String) (raw : H.Raw) (auto : Bool)
      (now : H.Time) (a : Action)
      → IsTraced H s r
      → r.battle ≡ some t
      → ((e : LogEntry H) → e.raw ≡ raw → e.kind ≡ kind → entry_action H e ≡ some a)
      → apply t pid a ≡ (u, none)
      → IsTraced H s (record_entry H (record r { battle = some u }) u pid kind raw auto now)
  unfolding record_entry
  logged-IsTraced s r t u pid kind raw auto now a h b act ok = record {
    now = u;
    plays = refl;
    traced =
        Traced.more r.log t u _ a (subst (Traced H s r.log) (some_inj (sym h.plays ∙ b)) h.traced)
          (act _ refl refl) ok refl;
  }

  IsTraced-Keeps : (s : State) → Keeps H (IsTraced H s)
  IsTraced-Keeps s = record {
    same_core = λ q r e h. IsTraced-core H s r q e h;
    logged = logged-IsTraced s;
  }

  names-Keeps : (n : Names H) → Keeps H (λ r. names H r ≡ n)
  names-Keeps n = record {
    same_core = λ q r e h. ap (λ (c : Core H). c.2) e ∙ h;
    logged = λ r t u pid kind raw auto now a h b act ok. unfold record_entry in h;
  }

  -- Whatever events a room that is made for a game receives, its log is then the list of the
  -- actions that the game has accepted since, in order, each with the checksum of the state that
  -- it led to, and they lead to the room's state.
  pub run-IsTraced :
      (s : State) (id a b : String) (zero_time : H.Time) (es : List (Event H))
      → IsTraced H s (room_of H (run H (new_room H id a b (some s) zero_time) es))
  run-IsTraced s id a b zero_time es =
      run-keeps H (IsTraced H s) (IsTraced-Keeps s) (new_room H id a b (some s) zero_time) es
        (record {
          now = s;
          plays = unfold new_room in refl;
          traced = unfold new_room in Traced.opened;
        })

  -- A room keeps its id and its players.
  pub names-run : (r : Room H) (es : List (Event H)) → names H (room_of H (run H r es)) ≡ names H r
  names-run r es = run-keeps H (λ q. names H q ≡ names H r) (names-Keeps (names H r)) r es refl
