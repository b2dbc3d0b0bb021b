-- ===== src/Battle/Replay.antt =====
-- internal/battle/replay.go. The callback `onStep` acts by its effects: it takes an accumulator of any
-- type and returns it; the index -1 of the opening is `none`. A nil callback is `ignore`.
use pet.Base.{ℕ, ◌+◌, String, ℤ, List, [], ◌∷◌, Option, none, some}
use pet.Deck.{Catalog}
use pet.Battle.Model.{State, Action, Code}
use pet.Battle.Setup.{PlayerInit, Rand, SetupError, ready, failed, new_state}
use pet.Battle.Actions.{apply}

pub record Step : Type 0 where
  pub player : String
  pub action : Action

-- What `Replay` returns: no state and the error of `NewState`; the state and a `ReplayError` with the
-- position of the step; or the final state. The last two come with what the callback has made.
pub data Replayed (T : Type 0) : Type 0 where
  unopened : SetupError → Replayed T
  rejected : ℕ → Code → State → T → Replayed T
  replayed : State → T → Replayed T

abbrev pub OnStep : Type 0 → Type 0
OnStep T = Option ℕ → State → T → T

abbrev pub ignore : {T : Type 0} → OnStep T
ignore i s acc = acc

module _ {T : Type 0} (on_step : OnStep T) where
  -- The loop over the steps, from the step at position `i`.
  unfoldable pub replay_from : ℕ → State → List Step → T → Replayed T
  replay_from i s [] acc = replayed s acc
  replay_from i s (st ∷ sts) acc =
      let (t, err) = apply s st.player st.action in
      elim err [
        | some c ↦ rejected i c t acc
        | none ↦ replay_from (i + 1) t sts (on_step (some i) t acc)
      ]

  unfoldable pub replay :
      Rand → String → Option Catalog → PlayerInit → PlayerInit → ℤ → List Step → T → Replayed T
  replay R room_id cat a b seed steps acc = elim (new_state R room_id cat a b seed) [
    | failed e ↦ unopened e
    | ready s ↦ replay_from 0 s steps (on_step none s acc)
  ]
