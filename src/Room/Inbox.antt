-- ===== src/Room/Inbox.antt =====
-- internal/room/room.go: `Send`, `Close` and the receiving of `Run`, which share the inbox of a room.
-- The steps of the goroutines that send, of the room and of its timers come in any order.
use pet.Base.{
  ℕ, ◌+◌, ◌≤◌, ◌<◌, ◌≡◌, refl, sym, ap, ◌∙◌, Bool, true, false, List, [], ◌∷◌, ◌++◌, append_assoc,
  append-nil, length, length-append, arith,
}
use mathlib.Core.Path.{ap₂}
use pet.Room.Model.{Host, Cmd, Room}
use pet.Room.Run.{
  Event, command, grace_fired, turn_fired, cancelled, Loop, Status, running, closed, step,
  steps_from, run, entered,
}

-- The capacity of the channel `inbox`.
abbrev pub inbox_cap : ℕ
inbox_cap = 64

module _ (H : Host) where
  -- The inbox, whether the context is done, what the room has added to `inboxDropped`, and the loop.
  pub record Shared : Type 0 where
    pub inbox : List (Cmd H)
    pub done : Bool
    pub inbox_dropped : ℕ
    pub status : Status H

  abbrev pub start_room : Room H → Shared
  start_room r = record {
    inbox = [];
    done = false;
    inbox_dropped = 0;
    status = running (entered H r);
  }

  -- A step, with the commands for which `Send` returns true and the events that `Run` receives in
  -- it. The context may be done between the test of `Send` and its `select`, which then may still
  -- choose the inbox.
  pub data Serves : Shared → List (Cmd H) → List (Event H) → Shared → Type 0 where
    accept :
        (c : Cmd H) (s : Shared)
        → length s.inbox < inbox_cap
        → Serves s (c ∷ []) [] (record s { inbox = s.inbox ++ c ∷ [] })
    refuse : (c : Cmd H) (s : Shared) → s.done ≡ true → Serves s [] [] s
    discard :
        (c : Cmd H) (s : Shared)
        → inbox_cap ≤ length s.inbox
        → s.done ≡ false
        → Serves s [] [] (record s { inbox_dropped = s.inbox_dropped + 1 })
    cancel : (s : Shared) → Serves s [] [] (record s { done = true })
    take_command :
        (c : Cmd H) (rest : List (Cmd H)) (now : H.Time) (l : Loop H) (s : Shared)
        → s.status ≡ running l
        → s.inbox ≡ c ∷ rest
        → Serves s []
            (command c now ∷ [])
            (record s { inbox = rest; status = step H l (command c now) })
    wait_grace :
        (l : Loop H) (s : Shared)
        → s.status ≡ running l
        → Serves s [] (grace_fired ∷ []) (record s { status = step H l grace_fired })
    wait_turn :
        (now : H.Time) (l : Loop H) (s : Shared)
        → s.status ≡ running l
        → Serves s [] (turn_fired now ∷ []) (record s { status = step H l (turn_fired now) })
    abort :
        (l : Loop H) (s : Shared)
        → s.status ≡ running l
        → s.done ≡ true
        → Serves s [] (cancelled ∷ []) (record s { status = step H l cancelled })

  -- Steps one after another, with all commands that were accepted and all events, in order.
  pub data Lives : Shared → List (Cmd H) → List (Event H) → Shared → Type 0 where
    begin : (s : Shared) → Lives s [] [] s
    then_step :
        (s t u : Shared) (sent more : List (Cmd H)) (es more_es : List (Event H))
        → Lives s sent es t
        → Serves t more more_es u
        → Lives s (sent ++ more) (es ++ more_es) u

  -- The commands among events.
  unfoldable pub commands : List (Event H) → List (Cmd H)
  commands [] = []
  commands (command c now ∷ es) = c ∷ commands es
  commands (grace_fired ∷ es) = commands es
  commands (turn_fired now ∷ es) = commands es
  commands (cancelled ∷ es) = commands es

  -- The loop has handled the events, and no command is lost or out of order.
  pub record IsServed (r : Room H) (sent : List (Cmd H)) (es : List (Event H)) (s : Shared)
      : Type 0 where
    pub same_status : s.status ≡ run H r es
    pub in_order : sent ≡ commands es ++ s.inbox
    pub bounded : length s.inbox ≤ inbox_cap

  commands-append :
      (es more : List (Event H)) → commands (es ++ more) ≡ commands es ++ commands more
  unfolding commands
  commands-append [] more = refl
  commands-append (command c now ∷ es) more = ap (λ l. c ∷ l) (commands-append es more)
  commands-append (grace_fired ∷ es) more = commands-append es more
  commands-append (turn_fired now ∷ es) more = commands-append es more
  commands-append (cancelled ∷ es) more = commands-append es more

  steps_from-nil : (st : Status H) → steps_from H st [] ≡ st
  unfolding steps_from
  steps_from-nil (running l) = refl
  steps_from-nil (closed r reason) = refl

  steps_from-last :
      (st : Status H) (es : List (Event H)) (l : Loop H) (e : Event H)
      → running l ≡ steps_from H st es
      → step H l e ≡ steps_from H st (es ++ e ∷ [])
  unfolding steps_from
  steps_from-last (running k) [] l e q =
      let same : l ≡ k = cc q in ap (λ x. step H x e) same ∙ sym (steps_from-nil (step H k e))
  steps_from-last (closed r reason) [] l e q = cc q
  steps_from-last (closed r reason) (x ∷ es) l e q = cc q
  steps_from-last (running k) (x ∷ es) l e q = steps_from-last (step H k x) es l e q

  -- A step of `Run` that receives `e`.
  received :
      (r : Room H) (sent rest : List (Cmd H)) (es : List (Event H)) (s : Shared) (l : Loop H)
      (e : Event H)
      → IsServed r sent es s
      → s.status ≡ running l
      → s.inbox ≡ commands (e ∷ []) ++ rest
      → IsServed r (sent ++ []) (es ++ e ∷ []) (record s { inbox = rest; status = step H l e })
  unfolding run
  received r sent rest es s l e h q i = record {
    same_status = steps_from-last (running (entered H r)) es l e (sym q ∙ h.same_status);
    in_order =
        append-nil sent
        ∙ h.in_order
        ∙ ap (λ x. commands es ++ x) i
        ∙ sym (append_assoc (commands es) (commands (e ∷ [])) rest)
        ∙ ap (λ x. x ++ rest) (sym (commands-append es (e ∷ [])));
    bounded = omega (arith, h.bounded, ap length i, length-append (commands (e ∷ [])) rest);
  }

  -- Nothing that the loop or the inbox hold has changed.
  unchanged :
      (r : Room H) (sent : List (Cmd H)) (es : List (Event H)) (s t : Shared)
      → IsServed r sent es s
      → t.status ≡ s.status
      → t.inbox ≡ s.inbox
      → IsServed r (sent ++ []) (es ++ []) t
  unchanged r sent es s t h p q = record {
    same_status = p ∙ h.same_status ∙ ap (run H r) (sym (append-nil es));
    in_order =
        append-nil sent ∙ h.in_order ∙ ap₂ (λ a b. commands a ++ b) (sym (append-nil es)) (sym q);
    bounded = omega (arith, h.bounded, ap length q);
  }

  Serves-IsServed :
      (r : Room H) (sent more : List (Cmd H)) (es more_es : List (Event H)) (s t : Shared)
      → IsServed r sent es s
      → Serves s more more_es t
      → IsServed r (sent ++ more) (es ++ more_es) t
  unfolding commands
  Serves-IsServed r sent _ es _ s _ h (Serves.accept c _ room) = record {
    same_status = h.same_status ∙ ap (run H r) (sym (append-nil es));
    in_order =
        ap (λ l. l ++ c ∷ []) h.in_order
        ∙ append_assoc (commands es) s.inbox (c ∷ [])
        ∙ ap (λ l. commands l ++ (s.inbox ++ c ∷ [])) (sym (append-nil es));
    bounded = omega (arith, length-append s.inbox (c ∷ []), room);
  }
  Serves-IsServed r sent _ es _ s _ h (Serves.refuse c _ d) = unchanged r sent es s s h refl refl
  Serves-IsServed r sent _ es _ s _ h (Serves.discard c _ full d) =
      unchanged r sent es s (record s { inbox_dropped = s.inbox_dropped + 1 }) h refl refl
  Serves-IsServed r sent _ es _ s _ h (Serves.cancel _) =
      unchanged r sent es s (record s { done = true }) h refl refl
  Serves-IsServed r sent _ es _ s _ h (Serves.take_command c rest now l _ q i) =
      received r sent rest es s l (command c now) h q i
  Serves-IsServed r sent _ es _ s _ h (Serves.wait_grace l _ q) =
      received r sent s.inbox es s l grace_fired h q refl
  Serves-IsServed r sent _ es _ s _ h (Serves.wait_turn now l _ q) =
      received r sent s.inbox es s l (turn_fired now) h q refl
  Serves-IsServed r sent _ es _ s _ h (Serves.abort l _ q d) =
      received r sent s.inbox es s l cancelled h q refl

  lives_on :
      (r : Room H) (o s : Shared) (sent : List (Cmd H)) (es : List (Event H))
      → IsServed r [] [] o
      → Lives o sent es s
      → IsServed r sent es s
  lives_on r o _ _ _ h (Lives.begin _) = h
  lives_on r o _ _ _ h (Lives.then_step _ t u sent more es more_es lives next) =
      Serves-IsServed r sent more es more_es t u (lives_on r o t sent es h lives) next

  -- However the goroutines that call `Send`, the timers, the context and the loop of `Run` take
  -- turns on a new room, the loop is then as `run` leaves it for the events that it received, the
  -- commands for which `Send` has returned true are, in order, those among these events and those
  -- that wait in the inbox, and at most 64 wait.
  pub Lives-IsServed :
      (r : Room H) (s : Shared) (sent : List (Cmd H)) (es : List (Event H))
      → Lives (start_room r) sent es s
      → IsServed r sent es s
  unfolding run steps_from commands
  Lives-IsServed r s sent es lives =
      lives_on r (start_room r) s sent es
        (record { same_status = refl; in_order = refl; bounded = omega arith }) lives
