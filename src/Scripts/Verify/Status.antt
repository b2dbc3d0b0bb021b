-- ===== src/Scripts/Verify/Status.antt =====
-- scripts/replay/main.go: the status of the process, and the reports that the server has saved.
use pet.Base.{
  ℕ, ◌+◌, ◌≡◌, ◌↔◌, ◌⊎◌, inl, inr, refl, ◌∙◌, subst, String, Bool, true, false, List, [], ◌∷◌, map,
  Option, some, if◌then◌else◌, length, arith, sum, sum-Perm, All,
}
use pet.Deck.{Catalog}
use pet.Battle.Setup.{Rand}
use pet.Room.Model.{Host}
use pet.Replay.{
  Codec, BattleReport, Result, Built, cards_changed, bad_decks, bad_actions, bad_step,
  mismatch_setup, mismatch_step, mismatch_state, mismatch_end, built, build,
}
use pet.Reports.{Found, no_rows, db_error, found}
use pet.Scripts.Verify.{
  Kind, ok, ok_legacy, changed, mismatch, error, Outcome, Summary, same_kind, passes, no_tally,
  tally, summary_of, verify_all, Failure, check, check_found, build_outcome, one, show_found,
  show_built, one_status,
}
use pet.Scripts.Verify.Workers.{Pool, Runs, start, Finished, Runs-Perm}
use pet.Scripts.Verify.Whole.{hit, count-tally}

-- No fault of the report: it passes, or the cards have changed since its game.
abbrev pub IsClean : Kind → Type 0
IsClean k = (k ≡ ok) ⊎ (k ≡ ok_legacy) ⊎ (k ≡ changed)

abbrev faults : Kind → ℕ
faults k = (if same_kind mismatch k then 1 else 0) + (if same_kind error k then 1 else 0)

faults-IsClean : (k : Kind) → (faults k ≡ 0) ↔ IsClean k
unfolding same_kind
faults-IsClean ok = (λ e. inl refl, λ c. refl)
faults-IsClean ok_legacy = (λ e. inr (inl refl), λ c. refl)
faults-IsClean changed = (λ e. inr (inr refl), λ c. refl)
faults-IsClean mismatch = (λ e. absurd (omega (arith, e)), λ c. ground (arith, c))
faults-IsClean error = (λ e. absurd (omega (arith, e)), λ c. ground (arith, c))

module _ (check : String → Outcome) where
  abbrev all_faults : List String → ℕ
  all_faults ids = sum (hit mismatch) (map check ids) + sum (hit error) (map check ids)

  all_faults-All :
      (ids : List String) → (all_faults ids ≡ 0) ↔ All (λ id. IsClean (check id).kind) ids
  all_faults-All [] = (λ e. tt, λ h. refl)
  all_faults-All (id ∷ ids) =
      let here = faults-IsClean (check id).kind in
      let rest = all_faults-All ids in
      (
        λ e. (here.0 (omega (arith, e)), rest.0 (omega (arith, e))),
        λ h. omega (arith, here.1 h.0, rest.1 h.1),
      )

  status-All :
      (sort : List Outcome → List Outcome) (workers n : ℕ) (ids : List String) (p : Pool check)
      → Runs check workers n (start check ids) p
      → Finished check p
      → (s : Summary) × (verify_all sort (some ids) p.received ≡ some s)
        × ((s.status ≡ 0) ↔ All (λ id. IsClean (check id).kind) ids)
  unfolding verify_all
  status-All sort workers n ids p complete done =
      let t = tally p.received no_tally in
      let perm = Runs-Perm check workers n ids p complete done in
      let m = count-tally mismatch p.received ∙ sum-Perm (hit mismatch) perm in
      let e = count-tally error p.received ∙ sum-Perm (hit error) perm in
      let clean = all_faults-All ids in
      (
        summary_of sort (length ids) t,
        refl,
        (λ s. clean.0 (ground (arith, m, e, s)), λ h. ground (arith, m, e, clean.1 h)),
      )

module _ (H : Host) (C : Codec H) where
  show_built-kind :
      (said : Failure H C → String) (id : String) (h : Bool) (b : Built H C)
      → (one_status H C (show_built H C h b) ≡ 0)
        ↔ (passes (build_outcome H C said id h b).kind ≡ true)
  unfolding one_status show_built build_outcome passes
  show_built-kind said id true (built r) = (λ e. refl, λ e. refl)
  show_built-kind said id false (built r) = (λ e. refl, λ e. refl)
  show_built-kind said id h cards_changed = (λ e. absurd (omega (arith, e)), λ e. ground (arith, e))
  show_built-kind said id h bad_decks = (λ e. absurd (omega (arith, e)), λ e. ground (arith, e))
  show_built-kind said id h bad_actions = (λ e. absurd (omega (arith, e)), λ e. ground (arith, e))
  show_built-kind said id h bad_step = (λ e. absurd (omega (arith, e)), λ e. ground (arith, e))
  show_built-kind said id h (mismatch_setup x) =
      (λ e. absurd (omega (arith, e)), λ e. ground (arith, e))
  show_built-kind said id h (mismatch_step i c) =
      (λ e. absurd (omega (arith, e)), λ e. ground (arith, e))
  show_built-kind said id h (mismatch_state i) =
      (λ e. absurd (omega (arith, e)), λ e. ground (arith, e))
  show_built-kind said id h (mismatch_end s) =
      (λ e. absurd (omega (arith, e)), λ e. ground (arith, e))

  build_outcome-IsClean :
      (said : Failure H C → String) (id : String) (h : Bool) (b : Built H C)
      → IsClean (build_outcome H C said id h b).kind
        ↔ (((r : Result H C) × (b ≡ built r)) ⊎ (b ≡ cards_changed))
  unfolding build_outcome
  build_outcome-IsClean said id true (built r) = (λ c. inl (r, refl), λ h. inl refl)
  build_outcome-IsClean said id false (built r) = (λ c. inl (r, refl), λ h. inr (inl refl))
  build_outcome-IsClean said id h cards_changed = (λ c. inr refl, λ e. inr (inr refl))
  build_outcome-IsClean said id h bad_decks = (λ c. ground (arith, c), λ e. ground (arith, e))
  build_outcome-IsClean said id h bad_actions = (λ c. ground (arith, c), λ e. ground (arith, e))
  build_outcome-IsClean said id h bad_step = (λ c. ground (arith, c), λ e. ground (arith, e))
  build_outcome-IsClean said id h (mismatch_setup x) =
      (λ c. ground (arith, c), λ e. ground (arith, e))
  build_outcome-IsClean said id h (mismatch_step i k) =
      (λ c. ground (arith, c), λ e. ground (arith, e))
  build_outcome-IsClean said id h (mismatch_state i) =
      (λ c. ground (arith, c), λ e. ground (arith, e))
  build_outcome-IsClean said id h (mismatch_end s) =
      (λ c. ground (arith, c), λ e. ground (arith, e))

  module _ (has_hash : Codec.Json C → Bool) (R : Rand) (cat : Option Catalog) (cards_hash : String)
      (said : Failure H C → String) where
    show_found-kind :
        (id : String) (f : Found H C)
        → (one_status H C (show_found H C has_hash R cat cards_hash f) ≡ 0)
          ↔ (passes (check_found H C has_hash R cat cards_hash said id f).kind ≡ true)
    unfolding show_found check_found one_status passes
    show_found-kind id no_rows = (λ e. absurd (omega (arith, e)), λ e. ground (arith, e))
    show_found-kind id db_error = (λ e. absurd (omega (arith, e)), λ e. ground (arith, e))
    show_found-kind id (found row) =
        show_built-kind said id (has_hash row.actions_json) (build H C R cat cards_hash row)

    -- For one report, the replay tool ends with the status 0 exactly when the verification of all
    -- reports counts this one as passed.
    pub one-check :
        (db : String → Found H C) (id : String)
        → (one_status H C (one H C has_hash R cat cards_hash db id) ≡ 0)
          ↔ (passes (check H C has_hash R cat cards_hash said db id).kind ≡ true)
    unfolding one check
    one-check db id = show_found-kind id (db id)

    -- The report can be read, and either it can be replayed or its cards have changed.
    abbrev pub HasNoFault : Found H C → Type 0
    HasNoFault f =
        (row : BattleReport H C) × (f ≡ found row)
        × (((r : Result H C) × (build H C R cat cards_hash row ≡ built r))
            ⊎ (build H C R cat cards_hash row ≡ cards_changed))

    check_found-HasNoFault :
        (id : String) (f : Found H C)
        → IsClean (check_found H C has_hash R cat cards_hash said id f).kind ↔ HasNoFault f
    unfolding check_found
    check_found-HasNoFault id no_rows = (λ c. ground (arith, c), λ h. cc (h.1))
    check_found-HasNoFault id db_error = (λ c. ground (arith, c), λ h. cc (h.1))
    check_found-HasNoFault id (found row) =
        let b =
          build_outcome-IsClean said id (has_hash row.actions_json)
            (build H C R cat cards_hash row) in
        (
          λ c. (row, refl, b.0 c),
          λ (r, e, h).
              let same : r ≡ row = cc e in
              b.1 (
                subst
                  (λ x.
                    ((res : Result H C) × (build H C R cat cards_hash x ≡ built res))
                    ⊎ (build H C R cat cards_hash x ≡ cards_changed))
                  same h),
        )

    check-All :
        (db : String → Found H C) (ids : List String)
        → All (λ id. IsClean (check H C has_hash R cat cards_hash said db id).kind) ids
          ↔ All (λ id. HasNoFault (db id)) ids
    unfolding check
    check-All db [] = (λ h. tt, λ h. tt)
    check-All db (id ∷ ids) =
        let here = check_found-HasNoFault id (db id) in
        let rest = check-All db ids in
        (λ h. (here.0 h.0, rest.0 h.1), λ h. (here.1 h.0, rest.1 h.1))

    -- In every complete run of the workers `verifyAll` ends with a summary, and its status is 0
    -- exactly when each report of the list can be read and is either rebuilt by `Build` or refused
    -- because the cards have changed.
    pub verify_all-status :
        (db : String → Found H C) (sort : List Outcome → List Outcome) (workers n : ℕ)
        (ids : List String) (p : Pool (check H C has_hash R cat cards_hash said db))
        → Runs
            (check H C has_hash R cat cards_hash said db)
            workers
            n
            (start (check H C has_hash R cat cards_hash said db) ids)
            p
        → Finished (check H C has_hash R cat cards_hash said db) p
        → (s : Summary) × (verify_all sort (some ids) p.received ≡ some s)
          × ((s.status ≡ 0) ↔ All (λ id. HasNoFault (db id)) ids)
    verify_all-status db sort workers n ids p complete done =
        let (s, e, clean) =
          status-All (check H C has_hash R cat cards_hash said db) sort workers n ids p complete
            done in
        let same = check-All db ids in (s, e, (λ h. same.0 (clean.0 h), λ h. clean.1 (same.1 h)))
