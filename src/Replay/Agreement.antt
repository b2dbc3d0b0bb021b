-- ===== src/Replay/Agreement.antt =====
-- What a row must be for `Build` of internal/replay/replay.go to succeed.
use pet.Base.{
  ◌≡◌, ◌↔◌, refl, sym, ap, ◌∙◌, inl, inr, String, Bool, true, false, List, [], Option, none, some,
  if◌then◌else◌, str_eq, arith, Bool-cases, Option-cases,
}
use text.Mathlib.TextEquality.{eq_iff}
use pet.Deck.{Catalog}
use pet.Battle.Model.{State}
use pet.Battle.Turns.{display_round}
use pet.Battle.Setup.{Rand}
use pet.Battle.Replay.{Step, Replayed, unopened, rejected, replayed, replay}
use pet.Room.Model.{Host, LogEntry}
use pet.Room.Steps.{steps}
use pet.Replay.{
  Codec, BattleReport, Result, mismatch_setup, mismatch_step, mismatch_end, built, Progress,
  frame_step, agrees, conclude, replay_row, build,
}

module _ (H : Host) (C : Codec H) where
  -- The end of the replay is the end that the row reports.
  pub record IsReportedEnd (s : State) (row : BattleReport H C) : Type 0 where
    pub same_winner : s.winner ≡ row.winner
    pub same_rounds : display_round s ≡ row.rounds
    pub over_if_finished : row.end_reason ≡ "finished" → s.over ≡ true
    pub finished_if_over : s.over ≡ true → row.end_reason ≡ "finished"

  agrees-IsReportedEnd :
      (s : State) (row : BattleReport H C) → agrees H C s row ≡ true → IsReportedEnd s row
  unfolding agrees
  agrees-IsReportedEnd s row e = record {
    same_winner = ground (arith, eq_iff s.winner row.winner);
    same_rounds = ground arith;
    over_if_finished = λ f. ground (arith, eq_iff row.end_reason "finished");
    finished_if_over = λ o. ground (arith, eq_iff row.end_reason "finished");
  }

  IsReportedEnd-agrees :
      (s : State) (row : BattleReport H C) → IsReportedEnd s row → agrees H C s row ≡ true
  unfolding agrees
  IsReportedEnd-agrees s row h = ground (
    arith,
    eq_iff s.winner row.winner,
    eq_iff row.end_reason "finished",
    h.same_winner,
    h.same_rounds,
    h.over_if_finished,
    h.finished_if_over,
  )

  conclude-built :
      (row : BattleReport H C) (s : State) (acc : Progress H C) (res : Result H C)
      → conclude H C row s acc ≡ built res
      → (acc ≡ (res.frames, none)) × (res.row ≡ row) × (agrees H C s row ≡ true)
  unfolding conclude
  conclude-built row s (frames, some i) res e = cc
  conclude-built row s (frames, none) res e =
      let (f, r, b) = judged (agrees H C s row) e in (ap (λ x. (x, none)) f, r, b)
    where
      judged :
          (b : Bool)
          → (if b then built (record { row = row; frames = frames }) else mismatch_end s)
            ≡ built res
          → (frames ≡ res.frames) × (res.row ≡ row) × (b ≡ true)
      judged true e = (cc, cc, refl)
      judged false e = cc

  replay_row-built :
      (row : BattleReport H C) (r : Replayed (Progress H C)) (res : Result H C)
      → elim r [
        | unopened e ↦ mismatch_setup e
        | rejected i c s acc ↦ mismatch_step i c
        | replayed s acc ↦ conclude H C row s acc
      ]
        ≡ built res
      → (s : State) × (acc : Progress H C) × (r ≡ replayed s acc)
        × (conclude H C row s acc ≡ built res)
  replay_row-built row (unopened e) res h = cc
  replay_row-built row (rejected i c s acc) res h = cc
  replay_row-built row (replayed s acc) res h = (s, acc, refl, h)

  module _ (R : Rand) (cat : Option Catalog) (cards_hash : String) (row : BattleReport H C)
      (res : Result H C) where
    -- What the row holds, and that its replay ends as the row reports.
    pub record Holds : Type 0 where
      pub same_cards : row.cards_hash ≡ cards_hash
      pub decks : List String × List String
      pub decks_parsed : C.unmarshal_decks row.init_decks_json ≡ some decks
      pub log : List (LogEntry H)
      pub log_parsed : C.unmarshal_log row.actions_json ≡ some log
      pub sts : List Step
      pub steps_parsed : steps H log ≡ some sts
      pub final : State
      pub replays :
          replay
            (frame_step H C log sts)
            R
            row.room_id
            cat
            (record { id = row.player_a; cards = decks.0 })
            (record { id = row.player_b; cards = decks.1 })
            row.seed
            sts
            ([], none)
          ≡ replayed final (res.frames, none)
      pub same_row : res.row ≡ row
      pub same_end : IsReportedEnd final row

    build-unwraps :
        build H C R cat cards_hash row ≡ built res
        → (row.cards_hash ≡ cards_hash)
          × (decks : List String × List String) × (log : List (LogEntry H)) × (sts : List Step)
          × (C.unmarshal_decks row.init_decks_json ≡ some decks)
          × (C.unmarshal_log row.actions_json ≡ some log)
          × (steps H log ≡ some sts)
          × (replay_row H C R cat row decks log sts ≡ built res)
    unfolding build
    build-unwraps e = elim (Bool-cases (str_eq row.cards_hash cards_hash)) [
      | inr changed ↦ ground (arith, changed)
      | inl same ↦ elim (Option-cases (C.unmarshal_decks row.init_decks_json)) [
        | inl p ↦ ground (arith, same, p)
        | inr (decks, p) ↦ elim (Option-cases (C.unmarshal_log row.actions_json)) [
          | inl q ↦ ground (arith, same, p, q)
          | inr (log, q) ↦ elim (Option-cases (steps H log)) [
            | inl r ↦ ground (arith, same, p, q, r)
            | inr (sts, r) ↦ (
              (eq_iff row.cards_hash cards_hash).0 same,
              decks,
              log,
              sts,
              p,
              q,
              r,
              ground (arith, same, p, q, r),
            )
          ]
        ]
      ]
    ]

    replay_row-unwraps :
        (decks : List String × List String) (log : List (LogEntry H)) (sts : List Step)
        → replay_row H C R cat row decks log sts ≡ built res
        → (s : State) × (acc : Progress H C) × (replay
              (frame_step H C log sts)
              R
              row.room_id
              cat
              (record { id = row.player_a; cards = decks.0 })
              (record { id = row.player_b; cards = decks.1 })
              row.seed
              sts
              ([], none)
            ≡ replayed s acc)
          × (conclude H C row s acc ≡ built res)
    unfolding replay_row
    replay_row-unwraps decks log sts e =
        replay_row-built row
          (replay (frame_step H C log sts) R row.room_id cat
            (record { id = row.player_a; cards = decks.0 })
            (record { id = row.player_b; cards = decks.1 }) row.seed sts ([], none))
          res e

    concludes : (h : Holds) → conclude H C row h.final (res.frames, none) ≡ built res
    unfolding conclude
    concludes h =
        rw (IsReportedEnd-agrees h.final row h.same_end)
          (ap (λ r. built (record res { row = r })) (sym h.same_row))

    build-wraps :
        (h : Holds) → build H C R cat cards_hash row ≡ replay_row H C R cat row h.decks h.log h.sts
    unfolding build
    build-wraps h = ground (
      arith,
      eq_iff row.cards_hash cards_hash,
      h.same_cards,
      h.decks_parsed,
      h.log_parsed,
      h.steps_parsed,
    )

    replay_row-Holds : (h : Holds) → replay_row H C R cat row h.decks h.log h.sts ≡ built res
    unfolding replay_row
    replay_row-Holds h =
        ap
          (λ r. elim r [
            | unopened e ↦ mismatch_setup e
            | rejected i c s acc ↦ mismatch_step i c
            | replayed s acc ↦ conclude H C row s acc
          ])
          h.replays
        ∙ concludes h

    -- The tests of `Build`, one by one, with its replay as a whole.
    pub build-Holds : (build H C R cat cards_hash row ≡ built res) ↔ Holds
    build-Holds = (
      λ e.
          let (same_cards, decks, log, sts, p, q, r, f) = build-unwraps e in
          let (s, acc, g, c) = replay_row-unwraps decks log sts f in
          let (same_acc, same_row, ok) = conclude-built row s acc res c in
          record {
            same_cards = same_cards;
            decks = decks;
            decks_parsed = p;
            log = log;
            log_parsed = q;
            sts = sts;
            steps_parsed = r;
            final = s;
            replays = g ∙ ap (replayed s) same_acc;
            same_row = same_row;
            same_end = agrees-IsReportedEnd s row ok;
          },
      λ h. build-wraps h ∙ replay_row-Holds h,
    )
