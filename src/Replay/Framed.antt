-- ===== src/Replay/Framed.antt =====
-- The replay of a room's log makes a frame for every entry, and no checksum differs on the way.
use pet.Base.{
  ℕ, ◌+◌, ◌≡◌, refl, ap, ◌∙◌, List, [], ◌∷◌, ◌++◌, append_assoc, none, some, length, length-append,
  get_elem?, arith,
}
use text.Mathlib.TextEquality.{eq_iff}
use pet.Battle.Model.{State, Action}
use pet.Battle.Actions.{apply}
use pet.Battle.Replay.{Step, replayed, replay_from}
use pet.Battle.History.{replay_from-append}
use pet.Battle.View.{god_view}
use pet.Room.Model.{Host, LogEntry, checksum}
use pet.Room.Steps.{steps}
use pet.Room.Trace.{Traced}
use pet.Room.Reported.{steps-append}
use pet.Replay.{Codec, Frame, frame_step, differs, diverge}

pub get_elem?-middle {ℓ} :
    {A : Type ℓ} (xs ys : List A) (x : A) → get_elem? (xs ++ x ∷ ys) (length xs) ≡ some x
get_elem?-middle [] ys x = refl
get_elem?-middle (y ∷ xs) ys x = get_elem?-middle xs ys x

module _ (H : Host) (C : Codec H) where
  frame_step-agrees :
      (log : List (LogEntry H)) (sts : List Step) (n : ℕ) (u : State) (fs : List (Frame H C))
      (e : LogEntry H) (st : Step)
      → get_elem? log n ≡ some e
      → get_elem? sts n ≡ some st
      → e.hash ≡ checksum H u
      → frame_step H C log sts (some n) u (fs, none)
        ≡ (fs ++ (record { index = n + 1; entry = some (e, st); state = god_view u }) ∷ [], none)
  unfolding frame_step differs diverge
  frame_step-agrees log sts n u fs e st p q h =
      ground (arith, p, q, h, eq_iff e.hash (checksum H u))

  -- The steps of a log, and the frames that their replay makes within any longer log.
  pub record IsFramed (s t : State) (log : List (LogEntry H)) : Type 0 where
    pub sts : List Step
    pub parsed : steps H log ≡ some sts
    pub same_length : length sts ≡ length log
    pub framed :
        (rest : List (LogEntry H)) (more : List Step) (fs : List (Frame H C))
        → (out : List (Frame H C)) × (replay_from
              (frame_step H C (log ++ rest) (sts ++ more))
              0
              s
              sts
              (fs, none)
            ≡ replayed t (out, none))
          × (length out ≡ length fs + length log)

  framed_more :
      (s t u : State) (log : List (LogEntry H)) (e : LogEntry H) (a : Action) (f : IsFramed s t log)
      → apply t e.player a ≡ (u, none)
      → e.hash ≡ checksum H u
      → (rest : List (LogEntry H)) (more : List Step) (fs : List (Frame H C))
      → let st : Step = record { player = e.player; action = a } in
        (out : List (Frame H C)) × (replay_from
            (frame_step H C (log ++ e ∷ rest) (f.sts ++ st ∷ more))
            0
            s
            (f.sts ++ st ∷ [])
            (fs, none)
          ≡ replayed u (out, none))
        × (length out ≡ length fs + (length log + 1))
  framed_more s t u log e a f ok h rest more fs =
      let st : Step = record { player = e.player; action = a } in
      let (out, r, l) = f.framed (e ∷ rest) (st ∷ more) fs in
      let n = length f.sts in
      let on_step = frame_step H C (log ++ e ∷ rest) (f.sts ++ st ∷ more) in
      let here : get_elem? (log ++ e ∷ rest) n ≡ some e =
        ap (get_elem? (log ++ e ∷ rest)) f.same_length ∙ get_elem?-middle log rest e in
      let frame : Frame H C = record { index = n + 1; entry = some (e, st); state = god_view u } in
      let made : on_step (some (0 + n)) u (out, none) ≡ (out ++ frame ∷ [], none) =
        ap (λ j. on_step (some j) u (out, none)) (omega arith)
        ∙ frame_step-agrees (log ++ e ∷ rest) (f.sts ++ st ∷ more) n u out e st here
            (get_elem?-middle f.sts more st) h in
      (
        out ++ frame ∷ [],
        replay_from-append on_step 0 s t u f.sts st (fs, none) (out, none) r ok
            ∙ ap (replayed u) made,
        omega (arith, length-append out (frame ∷ []), l),
      )

  pub Traced-IsFramed :
      (s t : State) (log : List (LogEntry H)) → Traced H s log t → IsFramed s t log
  Traced-IsFramed s t log Traced.opened = record {
    sts = [];
    parsed = unfold steps in refl;
    same_length = refl;
    framed = λ rest more fs. (fs, unfold replay_from in refl, omega arith);
  }
  Traced-IsFramed s _ _ (Traced.more log' t u' e a tr q ok h) =
      let f = Traced-IsFramed s t log' tr in
      let st : Step = record { player = e.player; action = a } in
      record {
        sts = f.sts ++ st ∷ [];
        parsed = steps-append H log' e a f.sts f.parsed q;
        same_length =
            omega
              (arith, length-append f.sts (st ∷ []), length-append log' (e ∷ []), f.same_length);
        framed = λ rest more fs.
            let (out, r, l) = framed_more s t u' log' e a f ok h rest more fs in
            (
              out,
              ap
                    (λ log''.
                      replay_from (frame_step H C log'' ((f.sts ++ st ∷ []) ++ more)) 0 s
                        (f.sts ++ st ∷ []) (fs, none))
                    (append_assoc log' (e ∷ []) rest)
                  ∙ ap
                      (λ sts'.
                        replay_from (frame_step H C (log' ++ e ∷ rest) sts') 0 s (f.sts ++ st ∷ [])
                          (fs, none))
                      (append_assoc f.sts (st ∷ []) more)
                  ∙ r,
              omega (arith, l, length-append log' (e ∷ [])),
            );
      }
