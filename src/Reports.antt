-- ===== src/Reports.antt =====
-- internal/auth/reports.go: the list of a player's reports and the replay of one. The token is read
-- and the database is asked elsewhere: their answers are arguments.
use pet.Base.{
  ℕ, ◌≡◌, ◌≢◌, ◌↔◌, ◌⊎◌, refl, ap, ◌∙◌, inl, inr, String, ℤ, pos, Bool, not, ◌&&◌, List, map,
  Option, none, some, if◌then◌else◌, str_eq, ltb_ℤ, arith, Bool-cases,
}
use text.Mathlib.TextEquality.{eq_iff}
use pet.Deck.{Catalog}
use pet.Battle.Setup.{Rand}
use pet.Room.Model.{Host}
use pet.Replay.{
  Codec, BattleReport, Result, Built, cards_changed, bad_decks, bad_actions, bad_step,
  mismatch_setup, mismatch_step, mismatch_state, mismatch_end, built, build,
}

-- `PlayerFromToken`, with what `tokenErr` makes of its error.
pub data Caller : Type 0 where
  known : String → Caller
  denied : ℕ → String → Caller

pub data Verdict : Type 0 where
  win lose draw unfinished : Verdict

-- The limit of the query: `none` if it is no number.
unfoldable pub list_limit : Option ℤ → ℤ
list_limit none = pos 20
list_limit (some v) = if ltb_ℤ (pos 0) v then (if ltb_ℤ (pos 100) v then pos 100 else v) else pos 20

-- The `switch` on the end of a game.
unfoldable pub verdict : String → String → String → Verdict
verdict me end_reason winner =
    if not (str_eq end_reason "finished")
    then unfinished
    else if str_eq winner ""
    then draw
    else if str_eq winner me
    then win
    else lose

module _ (H : Host) where
  -- `store.ReportSummary`
  pub record ReportSummary : Type 0 where
    pub room_id : String
    pub player_a : String
    pub player_b : String
    pub winner : String
    pub end_reason : String
    pub rounds : ℕ
    pub started_at : H.Time
    pub ended_at : H.Time

  pub record ReportItem : Type 0 where
    pub room_id : String
    pub opponent : String
    pub outcome : Verdict  -- `Result`
    pub end_reason : String
    pub rounds : ℕ
    pub first_hand : Bool
    pub started_at : H.Time
    pub duration_ms : ℤ

  unfoldable pub report_item : String → ReportSummary → ReportItem
  report_item me x =
      let first_hand = str_eq x.player_a me in
      record {
        room_id = x.room_id;
        opponent = if first_hand then x.player_b else x.player_a;
        outcome = verdict me x.end_reason x.winner;
        end_reason = x.end_reason;
        rounds = x.rounds;
        first_hand = first_hand;
        started_at = x.started_at;
        duration_ms = H.millis x.started_at x.ended_at;
      }

  pub data ListResponse : Type 0 where
    list_error : ℕ → String → ListResponse
    listed : List ReportItem → ListResponse

  -- `ListReports`; the database answers `none` for an error.
  unfoldable pub list_reports :
      (String → ℤ → Option (List ReportSummary)) → Caller → Option ℤ → ListResponse
  list_reports db (denied code msg) limit = list_error code msg
  list_reports db (known me) limit = elim (db me (list_limit limit)) [
    | none ↦ list_error 500 "db error"
    | some rows ↦ listed (map (report_item me) rows)
  ]

  module _ (C : Codec H) where
    -- What `GetReport` returns.
    pub data Found : Type 0 where
      no_rows db_error : Found
      found : BattleReport H C → Found

    pub data ReplayResponse : Type 0 where
      replay_error : ℕ → String → ReplayResponse
      played : Result H C → ReplayResponse

    unfoldable pub answer : Built H C → ReplayResponse
    answer (built res) = played res
    answer cards_changed = replay_error 409 "cards_changed"
    answer _ = replay_error 409 "replay_mismatch"

    -- The rest of `ReplayReport`, after `GetReport`.
    unfoldable pub respond : Rand → Option Catalog → String → String → Found → ReplayResponse
    respond R cat cards_hash me no_rows = replay_error 404 "report not found"
    respond R cat cards_hash me db_error = replay_error 500 "db error"
    respond R cat cards_hash me (found row) =
        if not (str_eq row.player_a me) && not (str_eq row.player_b me)
        then replay_error 404 "report not found"
        else answer (build H C R cat cards_hash row)

    -- `ReplayReport`
    unfoldable pub replay_report :
        Rand → Option Catalog → String → (String → Found) → Caller → String → ReplayResponse
    replay_report R cat cards_hash db (denied code msg) room_id = replay_error code msg
    replay_report R cat cards_hash db (known me) room_id = respond R cat cards_hash me (db room_id)

    answer-played : (b : Built H C) (res : Result H C) → answer b ≡ played res → b ≡ built res
    unfolding answer
    answer-played (built r) res e = cc
    answer-played cards_changed res e = cc
    answer-played bad_decks res e = cc
    answer-played bad_actions res e = cc
    answer-played bad_step res e = cc
    answer-played (mismatch_setup x) res e = cc
    answer-played (mismatch_step i c) res e = cc
    answer-played (mismatch_state i) res e = cc
    answer-played (mismatch_end s) res e = cc

    module _ (R : Rand) (cat : Option Catalog) (cards_hash me : String) (res : Result H C) where
      -- The caller played the game of the report, and its replay can be built.
      pub record MayWatch (f : Found) : Type 0 where
        pub row : BattleReport H C
        pub stored : f ≡ found row
        pub took_part : (row.player_a ≡ me) ⊎ (row.player_b ≡ me)
        pub builds : build H C R cat cards_hash row ≡ built res

      respond-MayWatch : (f : Found) → respond R cat cards_hash me f ≡ played res → MayWatch f
      unfolding respond
      respond-MayWatch no_rows e = cc
      respond-MayWatch db_error e = cc
      respond-MayWatch (found row) e = elim (Bool-cases (str_eq row.player_a me)) [
        | inl a ↦ record {
          row = row;
          stored = refl;
          took_part = inl ((eq_iff row.player_a me).0 a);
          builds = answer-played _ res (ground (arith, a));
        }
        | inr not_a ↦ elim (Bool-cases (str_eq row.player_b me)) [
          | inl b ↦ record {
            row = row;
            stored = refl;
            took_part = inr ((eq_iff row.player_b me).0 b);
            builds = answer-played _ res (ground (arith, not_a, b));
          }
          | inr not_b ↦ ground (arith, not_a, not_b)
        ]
      ]

      respond-mine :
          (row : BattleReport H C)
          → (row.player_a ≡ me) ⊎ (row.player_b ≡ me)
          → respond R cat cards_hash me (found row) ≡ answer (build H C R cat cards_hash row)
      unfolding respond
      respond-mine row (inl a) = ground (arith, (eq_iff row.player_a me).1 a)
      respond-mine row (inr b) = ground (arith, (eq_iff row.player_b me).1 b)

      MayWatch-respond : (f : Found) → MayWatch f → respond R cat cards_hash me f ≡ played res
      unfolding answer
      MayWatch-respond f h =
          ap (respond R cat cards_hash me) h.stored
          ∙ respond-mine h.row h.took_part
          ∙ ap answer h.builds

      -- A known caller gets the replay of a report exactly when the report is stored, the caller
      -- is one of its two players and `Build` succeeds on it.
      pub replay_report-MayWatch :
          (db : String → Found) (room_id : String)
          → (replay_report R cat cards_hash db (known me) room_id ≡ played res)
            ↔ MayWatch (db room_id)
      unfolding replay_report
      replay_report-MayWatch db room_id =
          (respond-MayWatch (db room_id), MayWatch-respond (db room_id))

-- In the lists of two opponents with different names, for a report that names one of them or
-- nobody as the winner, one has won just if the other has lost.
pub verdict-opponents :
    (a b winner end_reason : String)
    → a ≢ ""
    → b ≢ ""
    → a ≢ b
    → (winner ≡ "") ⊎ (winner ≡ a) ⊎ (winner ≡ b)
    → (verdict a end_reason winner ≡ win) ↔ (verdict b end_reason winner ≡ lose)
unfolding verdict
verdict-opponents a b winner end_reason ha hb ne w = (
  λ e.
      ground
        (arith, eq_iff end_reason "finished", eq_iff winner "", eq_iff winner a, eq_iff winner b),
  λ e.
      ground
        (arith, eq_iff end_reason "finished", eq_iff winner "", eq_iff winner a, eq_iff winner b),
)
