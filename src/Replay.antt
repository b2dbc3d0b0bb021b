-- ===== src/Replay.antt =====
-- internal/replay/replay.go: `Build` turns a saved report into frames, with `BattleReport` of
-- internal/store/report.go and `toBattleReport` of server/main.go. JSON is external: a `Codec`.
pub mod Agreement
pub mod Framed
pub mod Played
pub mod Retold
pub mod Saved
use pet.Base.{
  ℕ, ◌+◌, ◌==◌, ◌≡◌, String, ℤ, Bool, true, false, not, ◌&&◌, ◌||◌, List, [], ◌∷◌, ◌++◌, Option,
  none, some, if◌then◌else◌, str_eq, length, get_elem?,
}
use pet.Deck.{Catalog}
use pet.Battle.Model.{Seat, Action, Code, State}
use pet.Battle.Turns.{display_round}
use pet.Battle.Setup.{PlayerInit, Rand, SetupError}
use pet.Battle.Replay.{Step, unopened, rejected, replayed, OnStep, replay}
use pet.Battle.View.{GodView, god_view}
use pet.Room.Model.{Host, LogEntry, Report, checksum}
use pet.Room.Steps.{steps}

-- `json.Marshal` and `json.Unmarshal` of the two opening decks and of the log.
pub record Codec (H : Host) : Type 1 where
  pub Json : Type 0
  pub marshal_decks : List String × List String → Option Json
  pub unmarshal_decks : Json → Option (List String × List String)
  pub marshal_log : List (LogEntry H) → Option Json
  pub unmarshal_log : Json → Option (List (LogEntry H))

module _ (H : Host) (C : Codec H) where
  pub record BattleReport : Type 0 where
    pub room_id : String
    pub player_a : String
    pub player_b : String
    pub winner : String
    pub end_reason : String
    pub seed : ℤ
    pub rounds : ℕ
    pub init_decks_json : Codec.Json C
    pub actions_json : Codec.Json C
    pub cards_hash : String
    pub started_at : H.Time
    pub ended_at : H.Time

  -- The literal of the row in `toBattleReport`.
  abbrev pub row_of : String → Report H → Codec.Json C → Codec.Json C → BattleReport
  row_of cards_hash rep d a = record {
    room_id = rep.room_id;
    player_a = rep.first_id;
    player_b = rep.second_id;
    winner = rep.winner;
    end_reason = rep.reason;
    seed = rep.seed;
    rounds = rep.rounds;
    init_decks_json = d;
    actions_json = a;
    cards_hash = cards_hash;
    started_at = rep.started_at;
    ended_at = rep.ended_at;
  }

  -- `toBattleReport`; `none` is an error. A nil log is an empty one here.
  unfoldable pub to_battle_report : String → Report H → Option BattleReport
  to_battle_report cards_hash rep =
      elim (C.marshal_decks (rep.first_init_deck, rep.second_init_deck)) [
        | none ↦ none
        | some d ↦ elim (C.marshal_log rep.actions) [
          | none ↦ none
          | some a ↦ some (row_of cards_hash rep d a)
        ]
      ]

  -- `AtMs`, `Seq`, `Player`, `Action` and `Auto` are those of the entry of the log and its step; the
  -- opening has neither.
  pub record Frame : Type 0 where
    pub index : ℕ
    pub entry : Option (LogEntry H × Step)
    pub state : GodView

  -- The fields of `Result` but the frames are copied from the row.
  pub record Result : Type 0 where
    pub row : BattleReport
    pub frames : List Frame

  pub data Built : Type 0 where
    cards_changed bad_decks bad_actions bad_step : Built
    mismatch_setup : SetupError → Built
    mismatch_step : ℕ → Code → Built
    mismatch_state : ℕ → Built
    mismatch_end : State → Built
    built : Result → Built

  -- The frames and `diverged`, in which `none` is -1.
  abbrev pub Progress : Type 0
  Progress = List Frame × Option ℕ

  -- Whether the checksum of an entry is there and differs.
  unfoldable pub differs : LogEntry H → State → Bool
  differs e s = not (str_eq e.hash "") && not (str_eq e.hash (checksum H s))

  unfoldable pub diverge : Option ℕ → ℕ → Bool → Option ℕ
  diverge none i true = some i
  diverge d i b = d

  unfoldable pub frame_step : List (LogEntry H) → List Step → OnStep Progress
  frame_step log sts none s (frames, d) =
      (frames ++ (record { index = 0; entry = none; state = god_view s }) ∷ [], d)
  frame_step log sts (some i) s (frames, d) = elim (get_elem? log i) [
    | none ↦ (frames, d)
    | some e ↦ elim (get_elem? sts i) [
      | none ↦ (frames, d)
      | some st ↦ (
        frames ++ (record { index = i + 1; entry = some (e, st); state = god_view s }) ∷ [],
        diverge d i (differs e s),
      )
    ]
  ]

  -- The last test of `Build`.
  unfoldable pub agrees : State → BattleReport → Bool
  agrees s row =
      str_eq s.winner row.winner
      && (display_round s == row.rounds)
      && (if s.over
          then str_eq row.end_reason "finished"
          else not (str_eq row.end_reason "finished"))

  -- The tests after the replay.
  unfoldable pub conclude : BattleReport → State → Progress → Built
  conclude row s (frames, some i) = mismatch_state i
  conclude row s (frames, none) =
      if agrees s row then built (record { row = row; frames = frames }) else mismatch_end s

  unfoldable pub replay_row :
      Rand
      → Option Catalog
      → BattleReport
      → List String × List String
      → List (LogEntry H)
      → List Step
      → Built
  replay_row R cat row (deck_a, deck_b) log sts =
      elim (replay (frame_step log sts) R row.room_id cat
        (record { id = row.player_a; cards = deck_a })
        (record { id = row.player_b; cards = deck_b }) row.seed sts ([], none)) [
          | unopened e ↦ mismatch_setup e
          | rejected i c s acc ↦ mismatch_step i c
          | replayed s acc ↦ conclude row s acc
        ]

  unfoldable pub build : Rand → Option Catalog → String → BattleReport → Built
  build R cat cards_hash row =
      if not (str_eq row.cards_hash cards_hash)
      then cards_changed
      else elim (C.unmarshal_decks row.init_decks_json) [
        | none ↦ bad_decks
        | some decks ↦ elim (C.unmarshal_log row.actions_json) [
          | none ↦ bad_actions
          | some log ↦ elim (steps H log) [
            | none ↦ bad_step
            | some sts ↦ replay_row R cat row decks log sts
          ]
        ]
      ]
