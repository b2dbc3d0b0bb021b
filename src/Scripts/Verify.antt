-- ===== src/Scripts/Verify.antt =====
-- scripts/replay/main.go: the replay of one report and the verification of all. The database is a
-- function that does not change during a run; `bytes.Contains` on the JSON of a log, `sort.Slice`
-- and the comparison of names are parameters; the text of a frame is not modelled.
pub mod Workers
pub mod Whole
pub mod Printed
pub mod Status
pub mod Served
use pet.Base.{
  ℕ, suc, ◌+◌, ◌-◌, ◌==◌, String, ℤ, pos, negsuc, Bool, true, false, not, List, [], ◌∷◌, ◌++◌, map,
  Option, none, some, if◌then◌else◌, str_eq, leb, ltb, length,
}
use pet.Deck.{Catalog}
use pet.Battle.Setup.{Rand}
use pet.Room.Model.{Host}
use pet.Replay.{
  Codec, BattleReport, Result, Built, cards_changed, bad_decks, bad_actions, bad_step,
  mismatch_setup, mismatch_step, mismatch_state, mismatch_end, built, build,
}
use pet.Reports.{Found, no_rows, db_error, found}

-- The kinds of outcome; `changed` is "cards_changed".
pub data Kind : Type 0 where
  ok ok_legacy changed mismatch error : Kind

unfoldable pub same_kind : Kind → Kind → Bool
same_kind ok ok = true
same_kind ok_legacy ok_legacy = true
same_kind changed changed = true
same_kind mismatch mismatch = true
same_kind error error = true
same_kind _ _ = false

-- The number of goroutines that `verifyAll` starts.
unfoldable pub worker_count : ℤ → ℕ
worker_count (pos n) = if leb 1 n then n else 1
worker_count (negsuc n) = 1

-- `none` when the flags ask for neither or for both: the usage, and the status 2.
pub data Mode : Type 0 where
  one_report : String → Mode
  all_reports : Mode

unfoldable pub mode : String → Bool → Option Mode
mode room_id true = if str_eq room_id "" then some all_reports else none
mode room_id false = if str_eq room_id "" then none else some (one_report room_id)

-- What `check` finds of one report; `err` is the text of the error.
pub record Outcome : Type 0 where
  pub room : String
  pub kind : Kind
  pub err : Option String

-- What the loop over `out` keeps.
pub record Tally : Type 0 where
  pub count : Kind → ℕ
  pub bad : List Outcome

abbrev pub no_tally : Tally
no_tally = record { count = λ k. 0; bad = [] }

unfoldable pub passes : Kind → Bool
passes ok = true
passes ok_legacy = true
passes _ = false

unfoldable pub tally_one : Tally → Outcome → Tally
tally_one t o = record {
  count = λ k. if same_kind k o.kind then t.count k + 1 else t.count k;
  bad = if passes o.kind then t.bad else t.bad ++ o ∷ [];
}

unfoldable pub tally : List Outcome → Tally → Tally
tally [] t = t
tally (o ∷ out) t = tally out (tally_one t o)

-- A line on a bad outcome, or how many outcomes are left.
pub data Line : Type 0 where
  named : Outcome → Line
  more : ℕ → Line

-- The loop over the sorted `bad`, from its index `k`; `n` is the length of `bad`.
unfoldable pub print_bad : ℕ → ℕ → List Outcome → List Line
print_bad n k [] = []
print_bad n k (o ∷ bad) =
    let rest = print_bad n (suc k) bad in
    if same_kind o.kind changed
    then rest
    else if leb 20 k
    then more (n - k) ∷ []
    else named o ∷ rest

-- What `verifyAll` prints but the time, and its status.
pub record Summary : Type 0 where
  pub total : ℕ
  pub count : Kind → ℕ
  pub lines : List Line
  pub status : ℕ

module _ (sort : List Outcome → List Outcome) where
  abbrev pub summary_of : ℕ → Tally → Summary
  summary_of total t =
      let bad = sort t.bad in
      record {
        total = total;
        count = t.count;
        lines = print_bad (length bad) 0 bad;
        status = if ltb 0 (t.count mismatch + t.count error) then 1 else 0;
      }

  -- `verifyAll` from the room ids that it reads and the outcomes in the order in which they
  -- arrive; `none` is `log.Fatal`.
  unfoldable pub verify_all : Option (List String) → List Outcome → Option Summary
  verify_all none out = none
  verify_all (some ids) out = some (summary_of (length ids) (tally out no_tally))

module _ (H : Host) (C : Codec H) where
  -- The error of `GetReport` or that of `Build`.
  pub data Failure : Type 0 where
    unread : Found H C → Failure
    unbuilt : Built H C → Failure

  module _ (said : Failure → String) where
    abbrev refused : String → Kind → Built H C → Outcome
    refused id k b = record { room = id; kind = k; err = some (said (unbuilt b)) }

    -- The `switch` of `check`, with whether the log has checksums.
    unfoldable pub build_outcome : String → Bool → Built H C → Outcome
    build_outcome id true (built r) = record { room = id; kind = ok; err = none }
    build_outcome id false (built r) = record { room = id; kind = ok_legacy; err = none }
    build_outcome id h cards_changed = refused id changed cards_changed
    build_outcome id h bad_decks = refused id error bad_decks
    build_outcome id h bad_actions = refused id error bad_actions
    build_outcome id h bad_step = refused id error bad_step
    build_outcome id h (mismatch_setup e) = refused id mismatch (mismatch_setup e)
    build_outcome id h (mismatch_step i c) = refused id mismatch (mismatch_step i c)
    build_outcome id h (mismatch_state i) = refused id mismatch (mismatch_state i)
    build_outcome id h (mismatch_end s) = refused id mismatch (mismatch_end s)

  -- What `one` prints, and `log.Fatal`.
  pub data Shown : Type 0 where
    missing fatal : Shown
    failed : Built H C → Shown
    shown : Result H C → Bool → Shown

  unfoldable pub show_built : Bool → Built H C → Shown
  show_built h (built r) = shown r h
  show_built h b = failed b

  -- The status of the process.
  unfoldable pub one_status : Shown → ℕ
  one_status (shown r h) = 0
  one_status _ = 1

  module _ (has_hash : Codec.Json C → Bool) (R : Rand) (cat : Option Catalog)
      (cards_hash : String) where
    -- `hasChecksums`
    abbrev pub has_checksums : BattleReport H C → Bool
    has_checksums row = has_hash row.actions_json

    unfoldable pub show_found : Found H C → Shown
    show_found no_rows = missing
    show_found db_error = fatal
    show_found (found row) = show_built (has_checksums row) (build H C R cat cards_hash row)

    unfoldable pub one : (String → Found H C) → String → Shown
    one db id = show_found (db id)

    module _ (said : Failure → String) where
      -- The body of `check` after `GetReport`.
      unfoldable pub check_found : String → Found H C → Outcome
      check_found id (found row) =
          build_outcome said id (has_checksums row) (build H C R cat cards_hash row)
      check_found id f = record { room = id; kind = error; err = some (said (unread f)) }

      unfoldable pub check : (String → Found H C) → String → Outcome
      check db id = check_found id (db id)
