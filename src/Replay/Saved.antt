-- ===== src/Replay/Saved.antt =====
-- From a room of internal/room over `toBattleReport` of server/main.go to `Build` of
-- internal/replay/replay.go.
use pet.Base.{
  suc, ◌≡◌, refl, sym, ap, subst, ◌∙◌, inl, inr, String, ℤ, Bool, true, false, List, [], ◌∷◌, ◌++◌,
  map, append-nil, none, some, if◌then◌else◌, length, arith, Option-cases,
}
use pet.Deck.{Catalog}
use pet.Battle.Model.{State}
use pet.Battle.Setup.{PlayerInit, Rand, ready, new_state}
use pet.Battle.Replay.{Step, replayed, replay_from, replay}
use pet.Battle.History.{replay-ready}
use pet.Battle.Settings.{Settings, settings, settings-apply, settings-new_state}
use pet.Battle.View.{god_view}
use pet.Room.Model.{Host, LogEntry, Room, Report, new_room}
use pet.Room.Run.{Event, room_of, run, closed, report_of, finish}
use pet.Room.Steps.{entry_action, steps}
use pet.Room.Trace.{Traced, IsTraced, Names, names}
use pet.Room.Logged.{run-IsTraced, names-run}
use pet.Room.Closing.{closed-Ended}
use pet.Room.Reported.{finish-report_of}
use pet.Replay.{
  Codec, Frame, Result, BattleReport, row_of, to_battle_report, built, build, frame_step,
}
use pet.Replay.Framed.{Traced-IsFramed}
use pet.Replay.Agreement.{Holds, build-Holds}

module _ (H : Host) (C : Codec H) where
  -- An entry of the log with another text for the same data.
  abbrev pub restored : (H.Raw → H.Raw) → LogEntry H → LogEntry H
  restored f e = record e { raw = f e.raw }

  -- What `encoding/json` promises: the decks come back, and so does the log, in which the data may
  -- have been written differently.
  pub record IsFaithful : Type 0 where
    pub rewritten : H.Raw → H.Raw
    pub same_parse : (r : H.Raw) → H.parse (rewritten r) ≡ H.parse r
    pub same_empty : (r : H.Raw) → H.is_empty (rewritten r) ≡ H.is_empty r
    pub decks_back :
        (d : List String × List String) (j : C.Json)
        → C.marshal_decks d ≡ some j
        → C.unmarshal_decks j ≡ some d
    pub log_back :
        (l : List (LogEntry H)) (j : C.Json)
        → C.marshal_log l ≡ some j
        → C.unmarshal_log j ≡ some (map (restored rewritten) l)

  entry_action-restored :
      (f : IsFaithful) (e : LogEntry H) → entry_action H (restored f.rewritten e) ≡ entry_action H e
  unfolding entry_action
  entry_action-restored f e = rw (f.same_parse e.raw, f.same_empty e.raw) refl

  map-concat :
      (g : LogEntry H → LogEntry H) (log : List (LogEntry H)) (e : LogEntry H)
      → map g (log ++ e ∷ []) ≡ map g log ++ g e ∷ []
  map-concat g [] e = refl
  map-concat g (d ∷ log) e = ap (λ l. g d ∷ l) (map-concat g log e)

  Traced-restored :
      (f : IsFaithful) (s t : State) (log : List (LogEntry H))
      → Traced H s log t
      → Traced H s (map (restored f.rewritten) log) t
  Traced-restored f s _ _ Traced.opened = Traced.opened
  Traced-restored f s _ _ (Traced.more log t u e a tr q ok h) =
      let g = restored f.rewritten in
      subst (λ l. Traced H s l u) (sym (map-concat g log e))
        (Traced.more (map g log) t u (g e) a (Traced-restored f s t log tr)
          (entry_action-restored f e ∙ q) ok h)

  settings-Traced :
      (s t : State) (log : List (LogEntry H)) → Traced H s log t → settings t ≡ settings s
  settings-Traced s _ _ Traced.opened = refl
  settings-Traced s _ _ (Traced.more log t u e a tr q ok h) =
      settings-apply t u e.player a ok ∙ settings-Traced s t log tr

  length-map :
      (g : LogEntry H → LogEntry H) (log : List (LogEntry H)) → length (map g log) ≡ length log
  length-map g [] = refl
  length-map g (e ∷ log) = ap suc (length-map g log)

  to_battle_report-row_of :
      (cards_hash : String) (rep : Report H) (row : BattleReport H C)
      → to_battle_report H C cards_hash rep ≡ some row
      → (d : C.Json) × (j : C.Json) × (C.marshal_decks (rep.first_init_deck, rep.second_init_deck)
          ≡ some d)
        × (C.marshal_log rep.actions ≡ some j)
        × (row_of H C cards_hash rep d j ≡ row)
  unfolding to_battle_report
  to_battle_report-row_of cards_hash rep row e =
      elim (Option-cases (C.marshal_decks (rep.first_init_deck, rep.second_init_deck))) [
        | inl p ↦ ground (arith, p)
        | inr (d, p) ↦ elim (Option-cases (C.marshal_log rep.actions)) [
          | inl q ↦ ground (arith, p, q)
          | inr (j, q) ↦ (d, j, p, q, ground (arith, p, q))
        ]
      ]

  -- The reason that `finish` reports says whether the game is over.
  over_of_reason :
      (o : Bool) (reason : String)
      → (reason ≡ "finished" → o ≡ true)
      → (if o then "finished" else reason) ≡ "finished"
      → o ≡ true
  over_of_reason true reason h e = refl
  over_of_reason false reason h e = h e

  reason_of_over :
      (o : Bool) (reason : String) → o ≡ true → (if o then "finished" else reason) ≡ "finished"
  reason_of_over true reason e = refl
  reason_of_over false reason e = cc

  module _ (R : Rand) (room_id : String) (cat : Catalog) (a b : PlayerInit) (seed : ℤ) (s : State)
      (opened : new_state R room_id (some cat) a b seed ≡ ready s) where
    -- The replay of a log from the opening data that a room holds.
    replay-framed :
        (t : State) (log : List (LogEntry H)) (tr : Traced H s log t)
        → (sts : List Step) × (frames : List (Frame H C)) × (steps H log ≡ some sts)
          × (replay (frame_step H C log sts) R room_id (some cat) a b seed sts ([], none)
              ≡ replayed t (frames, none))
          × (length frames ≡ suc (length log))
    replay-framed t log tr =
        let f = Traced-IsFramed H C s t log tr in
        let first_frame : Frame H C = record { index = 0; entry = none; state = god_view s } in
        let (out, r, l) = f.framed [] [] (first_frame ∷ []) in
        let on_step = frame_step H C log f.sts in
        let opening : on_step none s ([], none) ≡ (first_frame ∷ [], none) =
          unfold frame_step in refl in
        (
          f.sts,
          out,
          f.parsed,
          replay-ready on_step R room_id (some cat) a b seed s f.sts ([], none) opened
              ∙ ap (replay_from on_step 0 s f.sts) opening
              ∙ ap (λ l. replay_from (frame_step H C l f.sts) 0 s f.sts (first_frame ∷ [], none))
                  (sym (append-nil log))
              ∙ ap
                  (λ l.
                    replay_from (frame_step H C (log ++ []) l) 0 s f.sts (first_frame ∷ [], none))
                  (sym (append-nil f.sts))
              ∙ r,
          omega (arith, l),
        )

    replay-same :
        (n : Names H) (st : Settings) (log : List (LogEntry H)) (sts : List Step)
        → n ≡ record { id = room_id; first_id = a.id; second_id = b.id }
        → st ≡ record {
          room_id = room_id;
          seed = seed;
          first_init_deck = a.cards;
          second_init_deck = b.cards;
          cat = cat;
        }
        → replay
            (frame_step H C log sts)
            R
            n.id
            (some cat)
            (record { id = n.first_id; cards = st.first_init_deck })
            (record { id = n.second_id; cards = st.second_init_deck })
            st.seed
            sts
            ([], none)
          ≡ replay (frame_step H C log sts) R room_id (some cat) a b seed sts ([], none)
    replay-same n st log sts en es =
        ap
          (λ (m : Names H).
            replay (frame_step H C log sts) R m.id (some cat)
              (record { id = m.first_id; cards = st.first_init_deck })
              (record { id = m.second_id; cards = st.second_init_deck }) st.seed sts ([], none))
          en
        ∙ ap
            (λ (u : Settings).
              replay (frame_step H C log sts) R room_id (some cat)
                (record { id = a.id; cards = u.first_init_deck })
                (record { id = b.id; cards = u.second_init_deck }) u.seed sts ([], none))
            es

    -- The row of the report of a room, when the game has come to `t`.
    built_row :
        (f : IsFaithful) (q : Room H) (t : State) (reason cards_hash : String) (now : H.Time)
        → Traced H s q.log t
        → names H q ≡ record { id = room_id; first_id = a.id; second_id = b.id }
        → settings t ≡ record {
          room_id = room_id;
          seed = seed;
          first_init_deck = a.cards;
          second_init_deck = b.cards;
          cat = cat;
        }
        → (reason ≡ "finished" → t.over ≡ true)
        → (d j : C.Json) → C.marshal_decks (t.first_init_deck, t.second_init_deck) ≡ some d
        → C.marshal_log q.log ≡ some j
        → let row = row_of H C cards_hash (report_of H q t reason now) d j in
          (res : Result H C) × (build H C R (some cat) cards_hash row ≡ built res)
          × (length res.frames ≡ suc (length q.log))
    built_row f q t reason cards_hash now tr n st ends d j p r =
        let log = map (restored f.rewritten) q.log in
        let (sts, frames, parsed, replays, l) =
          replay-framed t log (Traced-restored f s t q.log tr) in
        let row = row_of H C cards_hash (report_of H q t reason now) d j in
        let res : Result H C = record { row = row; frames = frames } in
        let holds : Holds H C R (some cat) cards_hash row res = record {
          same_cards = refl;
          decks = (t.first_init_deck, t.second_init_deck);
          decks_parsed = f.decks_back (t.first_init_deck, t.second_init_deck) d p;
          log = log;
          log_parsed = f.log_back q.log j r;
          sts = sts;
          steps_parsed = parsed;
          final = t;
          replays = replay-same (names H q) (settings t) log sts n st ∙ replays;
          same_row = refl;
          same_end = record {
            same_winner = refl;
            same_rounds = refl;
            over_if_finished = over_of_reason t.over reason ends;
            finished_if_over = reason_of_over t.over reason;
          };
        } in
        (
          res,
          (build-Holds H C R (some cat) cards_hash row res).1 holds,
          l ∙ ap suc (length-map (restored f.rewritten) q.log),
        )

    -- Whatever events a room that is made for a new game receives, if it closes, `finish` makes a
    -- report and `toBattleReport` makes a row of it, then `Build` succeeds on this row, with one
    -- frame for the opening and one for each action of the report, provided that the hash of the
    -- cards is the row's and that JSON gives back the decks and the log that were written, the
    -- log's data perhaps rewritten to a text that parses to the same.
    pub build-saved :
        (f : IsFaithful) (es : List (Event H)) (zero_time now : H.Time) (q : Room H)
        (reason cards_hash : String) (rep : Report H) (row : BattleReport H C)
        → run H (new_room H room_id a.id b.id (some s) zero_time) es ≡ closed q reason
        → finish H q reason now ≡ some rep
        → to_battle_report H C cards_hash rep ≡ some row
        → (res : Result H C) × (build H C R (some cat) cards_hash row ≡ built res)
          × (length res.frames ≡ suc (length rep.actions))
    build-saved f es zero_time now q reason cards_hash rep row ran reported saved =
        let r = new_room H room_id a.id b.id (some s) zero_time in
        let at_end : room_of H (run H r es) ≡ q = ap (room_of H) ran in
        let h = subst (IsTraced H s) at_end (run-IsTraced H s room_id a.id b.id zero_time es) in
        let n = ap (names H) (sym at_end) ∙ names-run H r es in
        let same : report_of H q h.now reason now ≡ rep =
          finish-report_of H q h.now reason now rep h.plays reported in
        let (d, j, p, m, same_row) = to_battle_report-row_of cards_hash rep row saved in
        let ends : reason ≡ "finished" → h.now.over ≡ true =
          λ e. closed-Ended H r q es (ran ∙ ap (closed q) e) h.now h.plays in
        let (res, b, l) =
          built_row f q h.now reason cards_hash now h.traced (n ∙ unfold new_room in refl)
            (settings-Traced s h.now q.log h.traced
              ∙ settings-new_state R room_id cat a b seed s opened)
            ends d j
            (ap (λ (x : Report H). C.marshal_decks (x.first_init_deck, x.second_init_deck)) same
              ∙ p)
            (ap (λ (x : Report H). C.marshal_log x.actions) same ∙ m) in
        let same_built : row_of H C cards_hash (report_of H q h.now reason now) d j ≡ row =
          ap (λ x. row_of H C cards_hash x d j) same ∙ same_row in
        (
          res,
          ap (build H C R (some cat) cards_hash) (sym same_built) ∙ b,
          l ∙ ap (λ (x : Report H). suc (length x.actions)) same,
        )
