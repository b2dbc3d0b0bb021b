-- ===== src/Replay/Played.antt =====
-- The replay that `Build` of internal/replay/replay.go makes of a log, said without its code: the log
-- is played action by action, and each entry makes a frame.
use pet.Base.{
  ℕ, ◌+◌, ◌≡◌, ◌⊎◌, refl, sym, ap, subst, ◌∙◌, inl, inr, true, false, List, [], ◌∷◌, ◌++◌,
  append_assoc, append-nil, Option, none, some, length, length-append, get_elem?, str_eq, arith,
  Bool-cases, Option-cases,
}
use mathlib.Core.Path.{ap₂}
use text.Mathlib.TextEquality.{eq_iff}
use pet.Battle.Model.{State}
use pet.Battle.Actions.{apply}
use pet.Battle.View.{god_view}
use pet.Battle.Replay.{Step, replayed, replay_from}
use pet.Battle.History.{replay_from_accepted, replay_from-nil, replay_from-accepts}
use pet.Room.Model.{Host, LogEntry, checksum}
use pet.Replay.{Codec, Frame, Progress, frame_step, differs, diverge}
use pet.Replay.Framed.{get_elem?-middle}

module _ (H : Host) (C : Codec H) where
  -- A log with its steps, played from a state on: `Apply` accepts every action, a checksum in the
  -- log is that of the state then reached, and each entry makes a frame of this state. The number
  -- is that of entries before.
  pub data Plays
      : ℕ → State → List (LogEntry H) → List Step → List (Frame H C) → State → Type 0 where
    at_end : (i : ℕ) (s : State) → Plays i s [] [] [] s
    next :
        (i : ℕ) (s t u : State) (e : LogEntry H) (st : Step) (log : List (LogEntry H))
        (sts : List Step) (frames : List (Frame H C))
        → apply s st.player st.action ≡ (t, none)
        → (e.hash ≡ "") ⊎ (e.hash ≡ checksum H t)
        → Plays (i + 1) t log sts frames u
        → Plays i s
            (e ∷ log)
            (st ∷ sts)
            ((record { index = i + 1; entry = some (e, st); state = god_view t }) ∷ frames)
            u

  differs-hash :
      (e : LogEntry H) (t : State)
      → differs H C e t ≡ false
      → (e.hash ≡ "") ⊎ (e.hash ≡ checksum H t)
  unfolding differs
  differs-hash e t d = elim (Bool-cases (str_eq e.hash "")) [
    | inl no_hash ↦ inl ((eq_iff e.hash "").0 no_hash)
    | inr hashed ↦ inr (ground (arith, eq_iff e.hash (checksum H t)))
  ]

  hash-differs :
      (e : LogEntry H) (t : State)
      → (e.hash ≡ "") ⊎ (e.hash ≡ checksum H t)
      → differs H C e t ≡ false
  unfolding differs
  hash-differs e t (inl h) = ground (arith, eq_iff e.hash "")
  hash-differs e t (inr h) = ground (arith, eq_iff e.hash (checksum H t))

  -- The frame that `Build` makes of an accepted entry, with what becomes of `diverged`.
  frame_step-frame :
      (log : List (LogEntry H)) (sts : List Step) (n : ℕ) (t : State) (fs : List (Frame H C))
      (d : Option ℕ) (e : LogEntry H) (st : Step)
      → get_elem? log n ≡ some e
      → get_elem? sts n ≡ some st
      → frame_step H C log sts (some n) t (fs, d) ≡ (
        fs ++ (record { index = n + 1; entry = some (e, st); state = god_view t }) ∷ [],
        diverge H C d n (differs H C e t),
      )
  unfolding frame_step
  frame_step-frame log sts n t fs d e st p q = ground (arith, p, q)

  diverge-same : (n : ℕ) → diverge H C none n false ≡ none
  unfolding diverge
  diverge-same n = refl

  diverge-differs : (n : ℕ) → diverge H C none n true ≡ some n
  unfolding diverge
  diverge-differs n = refl

  frame_step-diverged :
      (log : List (LogEntry H)) (sts : List Step) (n : ℕ) (t : State) (fs : List (Frame H C))
      (j : ℕ)
      → (frame_step H C log sts (some n) t (fs, some j)).1 ≡ some j
  unfolding frame_step diverge
  frame_step-diverged log sts n t fs j = elim (Option-cases (get_elem? log n)) [
    | inl p ↦ ground (arith, p)
    | inr (e, p) ↦ elim (Option-cases (get_elem? sts n)) [
      | inl q ↦ ground (arith, p, q)
      | inr (st, q) ↦ ground (arith, p, q)
    ]
  ]

  -- Once a checksum has differed, no replay ends without that.
  stays_diverged :
      (log : List (LogEntry H)) (all : List Step) (i : ℕ) (s t : State) (sts : List Step)
      (acc : Progress H C) (j : ℕ) (out : Progress H C)
      → acc.1 ≡ some j
      → replay_from (frame_step H C log all) i s sts acc ≡ replayed t out
      → out.1 ≡ some j
  stays_diverged log all i s t [] acc j out d e =
      ap (λ (p : Progress H C). p.1)
        (sym (replay_from-nil (frame_step H C log all) i s t acc out e).1)
      ∙ d
  stays_diverged log all i s t (st ∷ sts) (fs, d') j out d e =
      let on_step = frame_step H C log all in
      let u = (apply s st.player st.action).0 in
      let ok : apply s st.player st.action ≡ (u, none) =
        ap (λ c. (u, c)) (replay_from-accepts on_step i s t st sts (fs, d') out e) in
      let same : (on_step (some i) u (fs, d')).1 ≡ some j =
        ap (λ x. (on_step (some i) u (fs, x)).1) d ∙ frame_step-diverged log all i u fs j in
      stays_diverged log all (i + 1) u t sts (on_step (some i) u (fs, d')) j out same
        (sym (replay_from_accepted on_step i s u st sts (fs, d') ok) ∙ e)

  one_on :
      (before log : List (LogEntry H)) (done sts : List Step) (e : LogEntry H) (st : Step)
      → frame_step H C ((before ++ e ∷ []) ++ log) ((done ++ st ∷ []) ++ sts)
        ≡ frame_step H C (before ++ e ∷ log) (done ++ st ∷ sts)
  one_on before log done sts e st =
      ap₂ (frame_step H C) (append_assoc before (e ∷ []) log) (append_assoc done (st ∷ []) sts)

  none≢some : {j : ℕ} → none ≡ some j → ⊥
  none≢some e = cc e

  -- A log that plays is replayed, in the middle of a longer one.
  pub Plays-replay_from :
      (i : ℕ) (s u : State) (log : List (LogEntry H)) (sts : List Step) (frames : List (Frame H C))
      → Plays i s log sts frames u
      → (before : List (LogEntry H)) (done : List Step) (fs : List (Frame H C)) → length before ≡ i
      → length done ≡ i
      → replay_from (frame_step H C (before ++ log) (done ++ sts)) i s sts (fs, none)
        ≡ replayed u (fs ++ frames, none)
  Plays-replay_from i s _ _ _ _ (Plays.at_end _ _) before done fs p q =
      unfold replay_from in ap (λ x. replayed s (x, none)) (sym (append-nil fs))
  Plays-replay_from _ _ _ _ _ _ (Plays.next i s t u e st log sts frames ok hash rest) before done fs
        p q =
      let on_step = frame_step H C (before ++ e ∷ log) (done ++ st ∷ sts) in
      let frame : Frame H C = record { index = i + 1; entry = some (e, st); state = god_view t } in
      let more = fs ++ frame ∷ [] in
      let made : on_step (some i) t (fs, none) ≡ (more, none) =
        frame_step-frame (before ++ e ∷ log) (done ++ st ∷ sts) i t fs none e st
          (ap (get_elem? (before ++ e ∷ log)) (sym p) ∙ get_elem?-middle before log e)
          (ap (get_elem? (done ++ st ∷ sts)) (sym q) ∙ get_elem?-middle done sts st)
        ∙ ap (λ b. (more, diverge H C none i b)) (hash-differs e t hash)
        ∙ ap (λ d. (more, d)) (diverge-same i) in
      replay_from_accepted on_step i s t st sts (fs, none) ok
      ∙ ap (replay_from on_step (i + 1) t sts) made
      ∙ ap (λ f. replay_from f (i + 1) t sts (more, none)) (sym (one_on before log done sts e st))
      ∙ Plays-replay_from (i + 1) t u log sts frames rest (before ++ e ∷ []) (done ++ st ∷ []) more
          (omega (arith, length-append before (e ∷ []), p))
          (omega (arith, length-append done (st ∷ []), q))
      ∙ ap (λ x. replayed u (x, none)) (append_assoc fs (frame ∷ []) frames)

  -- A replay that ends without a difference has played the log.
  pub replay_from-Plays :
      (i : ℕ) (s u : State) (log : List (LogEntry H)) (sts : List Step) (before : List (LogEntry H))
      (done : List Step) (fs out : List (Frame H C))
      → length before ≡ i
      → length done ≡ i
      → length sts ≡ length log
      → replay_from (frame_step H C (before ++ log) (done ++ sts)) i s sts (fs, none)
        ≡ replayed u (out, none)
      → (frames : List (Frame H C)) × Plays i s log sts frames u × (out ≡ fs ++ frames)
  replay_from-Plays i s u [] [] before done fs out p q l r =
      let (same, kept) =
        replay_from-nil (frame_step H C (before ++ []) (done ++ [])) i s u (fs, none) (out, none)
          r in
      (
        [],
        subst (Plays i s [] [] []) same (Plays.at_end i s),
        ap (λ (x : Progress H C). x.0) (sym kept) ∙ sym (append-nil fs),
      )
  replay_from-Plays i s u [] (st ∷ sts) before done fs out p q l r = absurd (omega (arith, l))
  replay_from-Plays i s u (e ∷ log) [] before done fs out p q l r = absurd (omega (arith, l))
  replay_from-Plays i s u (e ∷ log) (st ∷ sts) before done fs out p q l r =
      let on_step = frame_step H C (before ++ e ∷ log) (done ++ st ∷ sts) in
      let t = (apply s st.player st.action).0 in
      let ok : apply s st.player st.action ≡ (t, none) =
        ap (λ c. (t, c)) (replay_from-accepts on_step i s u st sts (fs, none) (out, none) r) in
      let frame : Frame H C = record { index = i + 1; entry = some (e, st); state = god_view t } in
      let more = fs ++ frame ∷ [] in
      let made : on_step (some i) t (fs, none) ≡ (more, diverge H C none i (differs H C e t)) =
        frame_step-frame (before ++ e ∷ log) (done ++ st ∷ sts) i t fs none e st
          (ap (get_elem? (before ++ e ∷ log)) (sym p) ∙ get_elem?-middle before log e)
          (ap (get_elem? (done ++ st ∷ sts)) (sym q) ∙ get_elem?-middle done sts st) in
      let later : replay_from on_step (i + 1) t sts (more, diverge H C none i (differs H C e t))
          ≡ replayed u (out, none) =
        ap (replay_from on_step (i + 1) t sts) (sym made)
        ∙ sym (replay_from_accepted on_step i s t st sts (fs, none) ok)
        ∙ r in
      elim (Bool-cases (differs H C e t)) [
        | inl d ↦ absurd (
            none≢some (
              stays_diverged (before ++ e ∷ log) (done ++ st ∷ sts) (i + 1) t u sts
                (more, diverge H C none i (differs H C e t)) i (out, none)
                (ap (diverge H C none i) d ∙ diverge-differs i) later))
        | inr d ↦
            let (frames, plays, made_of) =
              replay_from-Plays (i + 1) t u log sts (before ++ e ∷ []) (done ++ st ∷ []) more out
                (omega (arith, length-append before (e ∷ []), p))
                (omega (arith, length-append done (st ∷ []), q)) (omega (arith, l))
                (ap (λ f. replay_from f (i + 1) t sts (more, none))
                    (one_on before log done sts e st)
                  ∙ ap (λ b. replay_from on_step (i + 1) t sts (more, b))
                      (sym (ap (diverge H C none i) d ∙ diverge-same i))
                  ∙ later) in
            (
              frame ∷ frames,
              Plays.next i s t u e st log sts frames ok (differs-hash e t d) plays,
              made_of ∙ append_assoc fs (frame ∷ []) frames,
            )
      ]
