-- ===== src/Room/Steps.antt =====
-- `Steps` of internal/room/replay.go.
use pet.Base.{List, [], ◌∷◌, Option, none, some, if◌then◌else◌}
use pet.Battle.Model.{Action}
use pet.Battle.Replay.{Step}
use pet.Room.Model.{Host, LogEntry}
use pet.Room.Handle.{typed}

abbrev zero_action : Action
zero_action = record { kind = ""; card_id = ""; inst_id = ""; target = "" }

module _ (H : Host) where
  -- The action of one entry.
  unfoldable pub entry_action : LogEntry H → Option Action
  entry_action e =
      if H.is_empty e.raw
      then some (typed zero_action e.kind)
      else elim (H.parse e.raw) [ none ↦ none | some a ↦ some (typed a e.kind) ]

  -- `none` is the error of an entry that does not parse.
  unfoldable pub steps : List (LogEntry H) → Option (List Step)
  unfolding entry_action
  steps [] = some []
  steps (e ∷ log) = elim (entry_action e) [
    | none ↦ none
    | some a ↦ elim (steps log) [
      | none ↦ none
      | some sts ↦ some ((record { player = e.player; action = a }) ∷ sts)
    ]
  ]
