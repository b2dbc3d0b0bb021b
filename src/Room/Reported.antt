-- ===== src/Room/Reported.antt =====
-- The report that `finish` of internal/room/report.go makes of a room, against internal/battle/replay.go.
use pet.Base.{
  ◌≡◌, refl, sym, ap, ◌∙◌, inl, inr, String, ℤ, Bool, true, false, List, [], ◌∷◌, ◌++◌, Option,
  none, some, not, ◌||◌, if◌then◌else◌, arith, Option-cases,
}
use pet.Deck.{Catalog}
use pet.Battle.Model.{Action, State}
use pet.Battle.Turns.{display_round}
use pet.Battle.Setup.{PlayerInit, Rand, ready, new_state}
use pet.Battle.Replay.{Step, replayed, ignore, replay_from, replay}
use pet.Battle.History.{replay_from-append}
use pet.Room.Model.{Host, LogEntry, Room, Report, new_room}
use pet.Room.Run.{Event, room_of, run, report_of, finish}
use pet.Room.Steps.{entry_action, steps}
use pet.Room.Trace.{Traced, IsTraced}
use pet.Room.Logged.{run-IsTraced}

module _ (H : Host) where
  steps_cons :
      (e : LogEntry H) (a : Action) (log : List (LogEntry H)) (sts : List Step)
      → entry_action H e ≡ some a
      → steps H log ≡ some sts
      → steps H (e ∷ log) ≡ some ((record { player = e.player; action = a }) ∷ sts)
  unfolding steps
  steps_cons e a log sts q p = ground (arith, p, q)

  steps_uncons :
      (e : LogEntry H) (log : List (LogEntry H)) (sts : List Step)
      → steps H (e ∷ log) ≡ some sts
      → (a : Action) × (rest : List Step) × (entry_action H e ≡ some a)
        × (steps H log ≡ some rest)
        × (sts ≡ (record { player = e.player; action = a }) ∷ rest)
  unfolding steps
  steps_uncons e log sts p = elim (Option-cases (entry_action H e)) [
    | inl bad ↦ ground (arith, bad)
    | inr (a, q) ↦ elim (Option-cases (steps H log)) [
      | inl bad ↦ ground (arith, q, bad)
      | inr (rest, r) ↦ (a, rest, q, r, ground (arith, q, r))
    ]
  ]

  pub steps-append :
      (log : List (LogEntry H)) (e : LogEntry H) (a : Action) (sts : List Step)
      → steps H log ≡ some sts
      → entry_action H e ≡ some a
      → steps H (log ++ e ∷ []) ≡ some (sts ++ (record { player = e.player; action = a }) ∷ [])
  steps-append [] e a sts p q =
      let nil : sts ≡ [] = unfold steps in ground (arith, p) in
      rw nil (steps_cons e a [] [] q (unfold steps in refl))
  steps-append (d ∷ log) e a sts p q =
      let (b, rest, r, t, same) = steps_uncons d log sts p in
      rw same (steps_cons d b (log ++ e ∷ []) _ r (steps-append log e a rest t q))

  -- The steps of a log, and that they lead from `s` to `t`.
  record Leads (s t : State) (log : List (LogEntry H)) : Type 0 where
    sts : List Step
    parsed : steps H log ≡ some sts
    leads : replay_from ignore 0 s sts tt ≡ replayed t tt

  Traced-Leads : (s t : State) (log : List (LogEntry H)) → Traced H s log t → Leads s t log
  Traced-Leads s t log Traced.opened = record {
    sts = [];
    parsed = unfold steps in refl;
    leads = unfold replay_from in refl;
  }
  Traced-Leads s t log (Traced.more log' t' u e a tr q ok h) =
      let l = Traced-Leads s t' log' tr in
      record {
        sts = l.sts ++ (record { player = e.player; action = a }) ∷ [];
        parsed = steps-append log' e a l.sts l.parsed q;
        leads = replay_from-append ignore 0 s t' u l.sts _ tt tt l.leads ok;
      }

  -- What a report says of the game that began in `s`.
  pub record IsReplayed (s : State) (rep : Report H) : Type 0 where
    pub sts : List Step
    pub final : State
    pub parsed : steps H rep.actions ≡ some sts
    pub leads : replay_from ignore 0 s sts tt ≡ replayed final tt
    pub same_winner : final.winner ≡ rep.winner
    pub same_rounds : display_round final ≡ rep.rounds
    pub same_end : final.over ≡ true → rep.reason ≡ "finished"

  pub finish-report_of :
      (r : Room H) (t : State) (reason : String) (now : H.Time) (rep : Report H)
      → r.battle ≡ some t
      → finish H r reason now ≡ some rep
      → report_of H r t reason now ≡ rep
  unfolding finish
  finish-report_of r t reason now rep b e = go (r.has_on_finish) r.started (ground (arith, b))
    where
      go :
          (f g : Bool)
          → (if not f || not g then none else some (report_of H r t reason now)) ≡ some rep
          → report_of H r t reason now ≡ rep
      go true true e = cc
      go true false e = cc
      go false g e = cc

  finish-reports :
      (r : Room H) (t : State) (reason : String) (now : H.Time) (rep : Report H)
      → r.battle ≡ some t
      → finish H r reason now ≡ some rep
      → (rep.actions ≡ r.log)
        × (rep.winner ≡ t.winner)
        × (rep.rounds ≡ display_round t)
        × (t.over ≡ true → rep.reason ≡ "finished")
  finish-reports r t reason now rep b e =
      let same : rep ≡ report_of H r t reason now = sym (finish-report_of r t reason now rep b e) in
      rw same (refl, refl, refl, λ o. rw o refl)

  finish-IsReplayed :
      (s : State) (r : Room H) (reason : String) (now : H.Time) (rep : Report H)
      → IsTraced H s r
      → finish H r reason now ≡ some rep
      → IsReplayed s rep
  finish-IsReplayed s r reason now rep h e =
      let l = Traced-Leads s h.now r.log h.traced in
      let (log, winner, rounds, end) = finish-reports r h.now reason now rep h.plays e in
      record {
        sts = l.sts;
        final = h.now;
        parsed = ap (steps H) log ∙ l.parsed;
        leads = l.leads;
        same_winner = sym winner;
        same_rounds = sym rounds;
        same_end = end;
      }

  -- Whatever events a room that is made for a new game receives, if `finish` makes a report then
  -- `Steps` parses its actions and `Replay` of them, with the game's opening data, accepts every
  -- one and ends with the winner and the rounds of the report; if that game is over, the reason
  -- reported is "finished".
  pub finish-replays :
      (R : Rand) (room_id : String) (cat : Option Catalog) (a b : PlayerInit) (seed : ℤ)
      → (s : State) (zero_time : H.Time) (es : List (Event H)) (reason : String) (now : H.Time)
        (rep : Report H)
      → new_state R room_id cat a b seed ≡ ready s
      → finish H (room_of H (run H (new_room H room_id a.id b.id (some s) zero_time) es)) reason now
        ≡ some rep
      → (sts : List Step) × (final : State) × (steps H rep.actions ≡ some sts)
        × (replay ignore R room_id cat a b seed sts tt ≡ replayed final tt)
        × (final.winner ≡ rep.winner)
        × (display_round final ≡ rep.rounds)
        × (final.over ≡ true → rep.reason ≡ "finished")
  finish-replays R room_id cat a b seed s zero_time es reason now rep e f =
      let r = new_room H room_id a.id b.id (some s) zero_time in
      let traced = run-IsTraced H s room_id a.id b.id zero_time es in
      let h = finish-IsReplayed s (room_of H (run H r es)) reason now rep traced f in
      (
        h.sts,
        h.final,
        h.parsed,
        (unfold replay in rw (e, replay) h.leads),
        h.same_winner,
        h.same_rounds,
        h.same_end,
      )
