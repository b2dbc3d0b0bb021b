-- ===== src/Replay/Retold.antt =====
-- What a row must be for `Build` of internal/replay/replay.go to succeed, and what it then returns.
use pet.Base.{
  ◌≡◌, ◌↔◌, refl, sym, ap, ◌∙◌, ◌⊎◌, inl, inr, String, ℤ, List, [], ◌∷◌, Option, none, some, length,
  arith, Option-cases,
}
use pet.Deck.{Catalog}
use pet.Battle.Model.{State}
use pet.Battle.Setup.{Setup, SetupError, PlayerInit, Rand, ready, failed, new_state}
use pet.Battle.View.{god_view}
use pet.Battle.Replay.{Step, OnStep, replayed, replay_from, replay}
use pet.Battle.History.{replay-ready}
use pet.Room.Model.{Host, LogEntry}
use pet.Room.Steps.{entry_action, steps}
use pet.Replay.{Codec, BattleReport, Result, Frame, built, frame_step, build}
use pet.Replay.Agreement.{IsReportedEnd, Holds, build-Holds}
use pet.Replay.Played.{Plays, Plays-replay_from, replay_from-Plays}

Setup-cases : (r : Setup) → ((s : State) × (r ≡ ready s)) ⊎ ((e : SetupError) × (r ≡ failed e))
Setup-cases (ready s) = inl (s, refl)
Setup-cases (failed e) = inr (e, refl)

-- A replay that succeeds was set up.
replay-opens :
    {T : Type 0} (on_step : OnStep T) (R : Rand) (room_id : String) (cat : Option Catalog)
    (a b : PlayerInit) (seed : ℤ) (sts : List Step) (acc out : T) (u : State)
    → replay on_step R room_id cat a b seed sts acc ≡ replayed u out
    → (s : State) × (new_state R room_id cat a b seed ≡ ready s)
unfolding replay
replay-opens on_step R room_id cat a b seed sts acc out u e =
    elim (Setup-cases (new_state R room_id cat a b seed)) [
      | inl opened ↦ opened
      | inr (why, p) ↦ ground (arith, p)
    ]

module _ (H : Host) (C : Codec H) where
  length-steps :
      (log : List (LogEntry H)) (sts : List Step) → steps H log ≡ some sts → length sts ≡ length log
  unfolding steps
  length-steps [] sts e = ground arith
  length-steps (d ∷ log) sts e = elim (Option-cases (entry_action H d)) [
    | inl p ↦ ground (arith, p)
    | inr (a, p) ↦ elim (Option-cases (steps H log)) [
      | inl q ↦ ground (arith, p, q)
      | inr (rest, q) ↦ ground (arith, p, q, length-steps log rest q)
    ]
  ]

  -- The first frame: the game as it is opened.
  abbrev pub opening_frame : State → Frame H C
  opening_frame s = record { index = 0; entry = none; state = god_view s }

  opening_step :
      (log : List (LogEntry H)) (sts : List Step) (s : State)
      → frame_step H C log sts none s ([], none) ≡ (opening_frame s ∷ [], none)
  unfolding frame_step
  opening_step log sts s = refl

  module _ (R : Rand) (cat : Option Catalog) (cards_hash : String) (row : BattleReport H C)
      (res : Result H C) where
    -- What the row holds, how its log plays, what the frames show, and the end that is reported.
    pub record IsRetold : Type 0 where
      pub same_cards : row.cards_hash ≡ cards_hash
      pub decks : List String × List String
      pub decks_parsed : C.unmarshal_decks row.init_decks_json ≡ some decks
      pub log : List (LogEntry H)
      pub log_parsed : C.unmarshal_log row.actions_json ≡ some log
      pub sts : List Step
      pub steps_parsed : steps H log ≡ some sts
      pub opening : State
      pub opened :
          new_state R row.room_id cat
            (record { id = row.player_a; cards = decks.0 })
            (record { id = row.player_b; cards = decks.1 })
            row.seed
          ≡ ready opening
      pub shown : List (Frame H C)
      pub final : State
      pub plays : Plays H C 0 opening log sts shown final
      pub same_frames : res.frames ≡ opening_frame opening ∷ shown
      pub same_row : res.row ≡ row
      pub same_end : IsReportedEnd H C final row

    retell : Holds H C R cat cards_hash row res → IsRetold
    retell h =
        let on_step = frame_step H C h.log h.sts in
        let a : PlayerInit = record { id = row.player_a; cards = h.decks.0 } in
        let b : PlayerInit = record { id = row.player_b; cards = h.decks.1 } in
        let (opening, opened) =
          replay-opens on_step R row.room_id cat a b row.seed h.sts ([], none) (res.frames, none)
            h.final h.replays in
        let (shown, plays, same) =
          replay_from-Plays H C 0 opening h.final h.log h.sts [] [] (opening_frame opening ∷ [])
            res.frames refl refl (length-steps h.log h.sts h.steps_parsed)
            (ap (replay_from on_step 0 opening h.sts) (sym (opening_step h.log h.sts opening))
              ∙ sym (
                  replay-ready on_step R row.room_id cat a b row.seed opening h.sts ([], none)
                    opened)
              ∙ h.replays) in
        record {
          same_cards = h.same_cards;
          decks = h.decks;
          decks_parsed = h.decks_parsed;
          log = h.log;
          log_parsed = h.log_parsed;
          sts = h.sts;
          steps_parsed = h.steps_parsed;
          opening = opening;
          opened = opened;
          shown = shown;
          final = h.final;
          plays = plays;
          same_frames = same;
          same_row = h.same_row;
          same_end = h.same_end;
        }

    holds : IsRetold → Holds H C R cat cards_hash row res
    holds h =
        let on_step = frame_step H C h.log h.sts in
        let a : PlayerInit = record { id = row.player_a; cards = h.decks.0 } in
        let b : PlayerInit = record { id = row.player_b; cards = h.decks.1 } in
        record {
          same_cards = h.same_cards;
          decks = h.decks;
          decks_parsed = h.decks_parsed;
          log = h.log;
          log_parsed = h.log_parsed;
          sts = h.sts;
          steps_parsed = h.steps_parsed;
          final = h.final;
          replays =
              replay-ready on_step R row.room_id cat a b row.seed h.opening h.sts ([], none)
                h.opened
              ∙ ap (replay_from on_step 0 h.opening h.sts) (opening_step h.log h.sts h.opening)
              ∙ Plays-replay_from H C 0 h.opening h.final h.log h.sts h.shown h.plays [] []
                  (opening_frame h.opening ∷ []) refl refl
              ∙ ap (λ x. replayed h.final (x, none)) (sym h.same_frames);
          same_row = h.same_row;
          same_end = h.same_end;
        }

    -- `Build` succeeds with a result exactly when the row has the given hash of the cards, its
    -- JSON and its actions parse, `NewState` opens the game, `Apply` accepts every action from
    -- there on, each checksum in the log, where it is not empty, is that of the state then
    -- reached, the result has the row, a frame of the opening and a frame of each state reached
    -- with its entry, and the last state has the winner and the rounds of the row and is over just
    -- if the row says that it finished.
    pub build-IsRetold : (build H C R cat cards_hash row ≡ built res) ↔ IsRetold
    build-IsRetold = (
      λ e. retell ((build-Holds H C R cat cards_hash row res).0 e),
      λ h. (build-Holds H C R cat cards_hash row res).1 (holds h),
    )
