-- ===== src/Server/Saving.antt =====
-- server/main.go: `saveReport` on a table of reports, and what the replay tool finds there.
use pet.Base.{
  ◌≡◌, refl, sym, ◌∙◌, subst, inl, inr, String, Bool, true, false, List, [], ◌∷◌, none, some,
  if◌then◌else◌, str_eq, All, ℕ, Bool-cases, Option-cases,
}
use pet.Deck.{Catalog}
use pet.Battle.Setup.{Rand}
use pet.Room.Model.{Host, Report}
use pet.Replay.{Codec, BattleReport, to_battle_report}
use pet.Replay.Saved.{IsFaithful}
use pet.Reports.{Found, no_rows, found}
use pet.Scripts.Verify.{Outcome, Summary, verify_all, Failure, check}
use pet.Scripts.Verify.Workers.{Pool, Runs, start, Finished}
use pet.Scripts.Verify.Served.{IsPlayed, IsServed, Serves, verify_all-served}

-- The table of reports: `SaveBattleReport`, which says whether the row was inserted, and `GetReport`.
pub record ReportTable (H : Host) (C : Codec H) : Type 1 where
  pub Rows : Type 0
  pub save : BattleReport H C → Rows → Bool × Rows
  pub get_report : Rows → String → Found H C

module _ (H : Host) (C : Codec H) (T : ReportTable H C) where
  -- A report that cannot be marshalled or inserted is only logged.
  unfoldable pub save_report : String → Report H → T.Rows → T.Rows
  save_report cards_hash rep rows = elim (to_battle_report H C cards_hash rep) [
    | none ↦ rows
    | some row ↦ (T.save row rows).1
  ]

  -- The reports of the rooms, in the order in which they close.
  unfoldable pub save_reports : String → List (Report H) → T.Rows → T.Rows
  save_reports cards_hash [] rows = rows
  save_reports cards_hash (rep ∷ reps) rows =
      save_reports cards_hash reps (save_report cards_hash rep rows)

  -- An insert that succeeds adds its row under the room's id, and one that fails changes nothing.
  pub record IsTable : Type 0 where
    pub inserted :
        (row : BattleReport H C) (rows : T.Rows) (id : String)
        → (T.save row rows).0 ≡ true
        → T.get_report (T.save row rows).1 id
          ≡ (if str_eq row.room_id id then found row else T.get_report rows id)
    pub failed :
        (row : BattleReport H C) (rows : T.Rows) (id : String)
        → (T.save row rows).0 ≡ false
        → T.get_report (T.save row rows).1 id ≡ T.get_report rows id

  module _ (t : IsTable) (R : Rand) (cat : Catalog) (cards_hash : String) where
    -- Every row is that of a report of a game.
    IsArchive : T.Rows → Type 0
    IsArchive rows =
        (id : String) (row : BattleReport H C)
        → T.get_report rows id ≡ found row
        → IsServed H C R cat cards_hash row

    IsArchive-save :
        (rows : T.Rows) (row : BattleReport H C)
        → IsServed H C R cat cards_hash row
        → IsArchive rows
        → IsArchive (T.save row rows).1
    unfolding IsArchive
    IsArchive-save rows row s h id other e = elim (Bool-cases (T.save row rows).0) [
      | inr q ↦ h id other (sym (t.failed row rows id q) ∙ e)
      | inl q ↦ elim (Bool-cases (str_eq row.room_id id)) [
        | inl same ↦
            let here : T.get_report (T.save row rows).1 id ≡ found row =
              t.inserted row rows id q ∙ rw same refl in
            let rows_same : row ≡ other = cc (sym here ∙ e) in
            subst (IsServed H C R cat cards_hash) rows_same s
        | inr differs ↦
            let there : T.get_report (T.save row rows).1 id ≡ T.get_report rows id =
              t.inserted row rows id q ∙ rw differs refl in
            h id other (sym there ∙ e)
      ]
    ]

    IsArchive-save_reports :
        (reps : List (Report H)) (rows : T.Rows)
        → All (IsPlayed H C R cat cards_hash) reps
        → IsArchive rows
        → IsArchive (save_reports cards_hash reps rows)
    unfolding save_reports save_report
    IsArchive-save_reports [] rows p h = h
    IsArchive-save_reports (rep ∷ reps) rows p h =
        elim (Option-cases (to_battle_report H C cards_hash rep)) [
          | inl e ↦ rw (e, save_report) (IsArchive-save_reports reps rows p.1 h)
          | inr (row, e) ↦
              rw (e, save_report)
                (IsArchive-save_reports reps (T.save row rows).1 p.1
                  (IsArchive-save rows row (rep, p.0, e) h))
        ]

    All-Serves :
        (rows : T.Rows) (ids : List String)
        → IsArchive rows
        → All (λ id. (row : BattleReport H C) × (T.get_report rows id ≡ found row)) ids
        → All (Serves H C R cat cards_hash (T.get_report rows)) ids
    unfolding IsArchive
    All-Serves rows [] h p = tt
    All-Serves rows (id ∷ ids) h ((row, e), p) = ((row, e, h id row e), All-Serves rows ids h p)

    -- What the tool finds of a report after the server has saved some.
    abbrev pub check_saved :
        (Codec.Json C → Bool) → (Failure H C → String) → List (Report H) → T.Rows → String → Outcome
    check_saved has_hash said reps empty =
        check H C has_hash R (some cat) cards_hash said
          (T.get_report (save_reports cards_hash reps empty))

    -- If `saveReport` puts reports of rooms into an empty table, each of a room that was made for
    -- a game of one table of cards, received any events, closed and reported, and an insert either
    -- adds its row under the room's id or changes nothing, and JSON gives back what was written,
    -- then for any ids that the table has, in every complete run of the workers, in whatever order
    -- their outcomes arrive, `verifyAll` ends with the status 0.
    pub verify_all-saved :
        (f : IsFaithful H C) (has_hash : Codec.Json C → Bool) (said : Failure H C → String)
        (reps : List (Report H)) (empty : T.Rows) (sort : List Outcome → List Outcome)
        (workers n : ℕ) (ids : List String) (p : Pool (check_saved has_hash said reps empty))
        → All (IsPlayed H C R cat cards_hash) reps
        → ((id : String) → T.get_report empty id ≡ no_rows)
        → All
            (λ id.
              (row : BattleReport H C) × (T.get_report (save_reports cards_hash reps empty) id
                ≡ found row))
            ids
        → Runs
            (check_saved has_hash said reps empty)
            workers
            n
            (start (check_saved has_hash said reps empty) ids)
            p
        → Finished (check_saved has_hash said reps empty) p
        → (s : Summary) × (verify_all sort (some ids) p.received ≡ some s) × (s.status ≡ 0)
    unfolding IsArchive
    verify_all-saved f has_hash said reps empty sort workers n ids p played nothing stored run
          done =
        let rows = save_reports cards_hash reps empty in
        let archive =
          IsArchive-save_reports reps empty played (λ id row e. cc (sym (nothing id) ∙ e)) in
        verify_all-served H C R cat cards_hash f has_hash said (T.get_report rows) sort workers n
          ids p (All-Serves rows ids archive stored) run done
