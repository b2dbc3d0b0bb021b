-- ===== src/Battle/History.antt =====
-- A live game of internal/battle, in which players send actions and some are rejected, against the
-- replay of its accepted actions.
use pet.Base.{
  ◌++◌, Option-cases, ap, sym, ℕ, ◌+◌, ◌≤◌, ◌≡◌, refl, subst, ◌∙◌, inl, inr, String, ℤ, List, [],
  ◌∷◌, Option, none, some, arith, length,
}
use pet.Deck.{Catalog}
use pet.Battle.Model.{State, Code, Outcome}
use pet.Battle.Setup.{PlayerInit, Rand, ready, new_state}
use pet.Battle.Actions.{apply}
use pet.Battle.Invariant.{IsSound}
use pet.Battle.Legal.{apply-cases, apply-IsSound}
use pet.Battle.Measure.{measure, apply-measure}
use pet.Battle.Replay.{Step, replayed, OnStep, replay_from, replay}

-- A live game: the state after all attempts, what an observer of the accepted ones has seen, and the
-- accepted ones in order.
pub record Live (T : Type 0) : Type 0 where
  pub final : State
  pub seen : T
  pub accepted : List Step

pub accepted-IsSound :
    (s t : State) (st : Step) → IsSound s → apply s st.player st.action ≡ (t, none) → IsSound t
accepted-IsSound s t st h e =
    subst (λ (r : Outcome). IsSound r.0) e (apply-IsSound s st.player st.action h)

module _ {T : Type 0} (on_step : OnStep T) where
  unfoldable pub live : ℕ → State → List Step → T → Live T
  live i s [] acc = record { final = s; seen = acc; accepted = [] }
  live i s (st ∷ sts) acc =
      let (t, err) = apply s st.player st.action in
      elim err [
        | some c ↦ live i t sts acc
        | none ↦
            let rest = live (i + 1) t sts (on_step (some i) t acc) in
            record rest { accepted = st ∷ rest.accepted }
      ]

  pub live_rejected :
      (i : ℕ) (s : State) (st : Step) (sts : List Step) (acc : T) (c : Code)
      → apply s st.player st.action ≡ (s, some c)
      → live i s (st ∷ sts) acc ≡ live i s sts acc
  unfolding live
  live_rejected i s st sts acc c e = ground arith

  pub live_accepted :
      (i : ℕ) (s t : State) (st : Step) (sts : List Step) (acc : T)
      → apply s st.player st.action ≡ (t, none)
      → live i s (st ∷ sts) acc ≡ (
          let rest = live (i + 1) t sts (on_step (some i) t acc) in
          record rest { accepted = st ∷ rest.accepted })
  unfolding live
  live_accepted i s t st sts acc e = ground arith

  -- A step that is accepted.
  pub replay_from_accepted :
      (i : ℕ) (s t : State) (st : Step) (sts : List Step) (acc : T)
      → apply s st.player st.action ≡ (t, none)
      → replay_from on_step i s (st ∷ sts) acc
        ≡ replay_from on_step (i + 1) t sts (on_step (some i) t acc)
  unfolding replay_from
  replay_from_accepted i s t st sts acc e = ground arith

  replayed_inj : {s t : State} {a b : T} → replayed s a ≡ replayed t b → (s ≡ t) × (a ≡ b)
  replayed_inj e = (cc, cc)

  pub replay_from-nil :
      (i : ℕ) (s t : State) (acc out : T)
      → replay_from on_step i s [] acc ≡ replayed t out
      → (s ≡ t) × (acc ≡ out)
  unfolding replay_from
  replay_from-nil i s t acc out e = replayed_inj e

  -- The first step of a replay that succeeds was accepted.
  pub replay_from-accepts :
      (i : ℕ) (s t : State) (st : Step) (sts : List Step) (acc out : T)
      → replay_from on_step i s (st ∷ sts) acc ≡ replayed t out
      → (apply s st.player st.action).1 ≡ none
  unfolding replay_from
  replay_from-accepts i s t st sts acc out e = elim (Option-cases (apply s st.player st.action).1) [
    | inl ok ↦ ok
    | inr (c, bad) ↦ ground (arith, bad)
  ]

  -- A replay goes on with a step more.
  pub replay_from-append :
      (i : ℕ) (s t u : State) (xs : List Step) (st : Step) (acc out : T)
      → replay_from on_step i s xs acc ≡ replayed t out
      → apply t st.player st.action ≡ (u, none)
      → replay_from on_step i s (xs ++ st ∷ []) acc
        ≡ replayed u (on_step (some (i + length xs)) u out)
  replay_from-append i s t u [] st acc out e f =
      let (same, kept) = replay_from-nil i s t acc out e in
      replay_from_accepted i s u st [] acc (ap (λ v. apply v st.player st.action) same ∙ f)
      ∙ unfold replay_from in
        ap (replayed u)
          (ap (λ j. on_step (some j) u acc) (omega arith) ∙ ap (on_step (some (i + 0)) u) kept)
  replay_from-append i s t u (x ∷ xs) st acc out e f =
      let v = (apply s x.player x.action).0 in
      let ok : apply s x.player x.action ≡ (v, none) =
        ap (λ c. (v, c)) (replay_from-accepts i s t x xs acc out e) in
      replay_from_accepted i s v x (xs ++ st ∷ []) acc ok
      ∙ replay_from-append (i + 1) v t u xs st (on_step (some i) v acc) out
          (sym (replay_from_accepted i s v x xs acc ok) ∙ e) f
      ∙ ap (λ j. replayed u (on_step (some j) u out)) (omega arith)

  -- The accepted actions of a live game replay to its final state, through the same states.
  pub replay_from-live :
      (i : ℕ) (s : State) (sts : List Step) (acc : T)
      → replay_from on_step i s (live i s sts acc).accepted acc
        ≡ replayed (live i s sts acc).final (live i s sts acc).seen
  replay_from-live i s [] acc = unfold live replay_from in refl
  replay_from-live i s (st ∷ sts) acc = elim (apply-cases s st.player st.action) [
    | inl (c, e) ↦ rw (live_rejected i s st sts acc c e) (replay_from-live i s sts acc)
    | inr (t, e, _) ↦ rw (live_accepted i s t st sts acc e) (
        replay_from_accepted i s t st (live (i + 1) t sts (on_step (some i) t acc)).accepted acc e
        ∙ replay_from-live (i + 1) t sts (on_step (some i) t acc))
  ]

  -- A game that satisfies the invariant still does after any list of actions, accepted or not.
  pub live-IsSound :
      (i : ℕ) (s : State) (sts : List Step) (acc : T) → IsSound s → IsSound (live i s sts acc).final
  live-IsSound i s [] acc h = unfold live in h
  live-IsSound i s (st ∷ sts) acc h = elim (apply-cases s st.player st.action) [
    | inl (c, e) ↦ rw (live_rejected i s st sts acc c e) (live-IsSound i s sts acc h)
    | inr (t, e, _) ↦
        rw (live_accepted i s t st sts acc e)
          (live-IsSound (i + 1) t sts (on_step (some i) t acc) (accepted-IsSound s t st h e))
  ]

  -- However many actions are sent to a game that satisfies the invariant, those accepted and the
  -- measure of the last state are together at most the measure of the first.
  pub length-accepted :
      (i : ℕ) (s : State) (sts : List Step) (acc : T)
      → IsSound s
      → length (live i s sts acc).accepted + measure (live i s sts acc).final ≤ measure s
  length-accepted i s [] acc h = unfold live in omega arith
  length-accepted i s (st ∷ sts) acc h = elim (apply-cases s st.player st.action) [
    | inl (c, e) ↦ rw (live_rejected i s st sts acc c e) (length-accepted i s sts acc h)
    | inr (t, e, _) ↦ rw (live_accepted i s t st sts acc e) (
        omega (
          arith,
          apply-measure s t st.player st.action h e,
          length-accepted (i + 1) t sts (on_step (some i) t acc) (accepted-IsSound s t st h e),
        ))
  ]

  -- Once the game is set up, `Replay` is its loop.
  pub replay-ready :
      (R : Rand) (room_id : String) (cat : Option Catalog) (a b : PlayerInit) (seed : ℤ)
      → (s : State) (sts : List Step) (acc : T) → new_state R room_id cat a b seed ≡ ready s
      → replay on_step R room_id cat a b seed sts acc
        ≡ replay_from on_step 0 s sts (on_step none s acc)
  unfolding replay
  replay-ready R room_id cat a b seed s sts acc e = rw (e, replay) refl

  -- `Replay` with the opening data of a game and the actions that the game accepted, among all
  -- that were sent, ends in the state of the game, and its callback has seen what an observer of
  -- the game saw.
  pub replay-live :
      (R : Rand) (room_id : String) (cat : Option Catalog) (a b : PlayerInit) (seed : ℤ)
      → (s : State) (sts : List Step) (acc : T) → new_state R room_id cat a b seed ≡ ready s
      → let game = live 0 s sts (on_step none s acc) in
        replay on_step R room_id cat a b seed game.accepted acc ≡ replayed game.final game.seen
  replay-live R room_id cat a b seed s sts acc e =
      replay-ready R room_id cat a b seed s (live 0 s sts (on_step none s acc)).accepted acc e
      ∙ replay_from-live 0 s sts (on_step none s acc)
