-- ===== src/Tests/Tools.antt =====
-- Witnesses for the folder scripts.
use pet.Base.{
  ℕ, zero, suc, ◌+◌, ◌*◌, ◌/◌, ◌≡◌, ◌↔◌, ◌⊎◌, refl, String, pos, Bool, true, false, List, [], ◌∷◌,
  ◌++◌, map, none, some, if◌then◌else◌, str_eq, length, take, drop, ltb, All, arith, IsSorting,
}
use text.Mathlib.TextEquality.{eq_iff}
use pet.Replay.{BattleReport}
use pet.Reports.{Found, found, no_rows}
use pet.Bot.Client.{GameResult}
use pet.Scripts.Verify.{
  Outcome, Summary, Failure, changed, mismatch, passes, check, one, one_status, print_bad,
  verify_all, worker_count,
}
use pet.Scripts.Verify.Workers.{Pool, Runs, Works, Finished, start, left, workers_finish}
use pet.Scripts.Verify.Whole.{verify_all-unordered}
use pet.Scripts.Verify.Status.{HasNoFault, verify_all-status, one-check}
use pet.Scripts.Verify.Served.{IsPlayed}
use pet.Server.Saving.{
  ReportTable, IsTable, save_report, save_reports, check_saved, verify_all-saved,
}
use pet.Scripts.Verify.Printed.{shown_lines, rest_line, print_bad-lines}
use pet.Scripts.Samples.{Dist, dist}
use pet.Scripts.Samples.Nearest.{Describes, dist-Describes}
use pet.Scripts.Accounts.{Statement}
use pet.Scripts.Players.{Player, finished, reply}
use pet.Scripts.Players.Load.{LoadReport, run_load, status, users_ready}
use pet.Scripts.Players.Played.{HasPlayed, run_load-HasPlayed}
use pet.Tests.Fixture.{table, fixed, alice, bob, opened, new_state-opened}
use pet.Tests.Rooms.{host, report, events, last_room, closes, reported}
use pet.Tests.Replays.{codec, row, saved, codec-IsFaithful}
use pet.Tests.Sorting.{
  text_lt, text_lt-irreflexive, text_lt-total, text_lt-asym, text_lt_trans, sort, sort-IsSorting,
}

-- Every report but "gone" is the row of Tests/Replays.
abbrev db : String → Found host codec
db id = if str_eq id "gone" then no_rows else found row

abbrev said : Failure host codec → String
said f = "error"

abbrev has_hash : codec.Json → Bool
has_hash j = true

abbrev checked : String → Outcome
checked = check host codec has_hash fixed (some table) "cards" said db

abbrev by_room : List Outcome → List Outcome
by_room =
    sort (λ (a b : Outcome). text_lt a.room b.room) (λ a b. text_lt-asym a.room b.room)
      (λ a b c. text_lt_trans a.room b.room c.room)

by_room-IsSorting : IsSorting (λ (a b : Outcome). text_lt a.room b.room) by_room
by_room-IsSorting =
    sort-IsSorting (λ (a b : Outcome). text_lt a.room b.room) (λ a b. text_lt-asym a.room b.room)
      (λ a b c. text_lt_trans a.room b.room c.room)

abbrev two_rooms : List String
two_rooms = "room" ∷ "gone" ∷ []

abbrev in_order : String → String → Pool checked
in_order a b = record { todo = []; busy = []; received = checked a ∷ checked b ∷ [] }

-- Two workers, of which the one with the second job is done first.
second_first : Runs checked 2 4 (start checked two_rooms) (in_order "gone" "room")
second_first = Runs.further _ _ _ _ (Works.take_job "room" ("gone" ∷ []) [] [] (omega arith)) (
    Runs.further _ _ _ _ (Works.take_job "gone" [] ("room" ∷ []) [] (omega arith)) (
      Runs.further _ _ _ _ (Works.hand_over "gone" [] [] ("room" ∷ []) []) (
        Runs.further _ _ _ _ (Works.hand_over "room" [] [] [] (checked "gone" ∷ []))
          (Runs.still (in_order "gone" "room")))))

verify_all-unordered_example :
    verify_all by_room (some two_rooms) (in_order "gone" "room").received
    ≡ verify_all by_room (some two_rooms) (map checked two_rooms)
verify_all-unordered_example =
    verify_all-unordered host codec has_hash fixed (some table) "cards" said db text_lt
      text_lt-irreflexive text_lt-total by_room by_room-IsSorting 2 4 two_rooms
      (in_order "gone" "room") second_first (refl, refl)

verify_all-status_example :
    (s : Summary) × (verify_all by_room (some two_rooms) (in_order "gone" "room").received ≡ some s)
    × ((s.status ≡ 0)
        ↔ All
            (λ id. HasNoFault host codec has_hash fixed (some table) "cards" said (db id))
            two_rooms)
verify_all-status_example =
    verify_all-status host codec has_hash fixed (some table) "cards" said db by_room 2 4 two_rooms
      (in_order "gone" "room") second_first (refl, refl)

one-check_example :
    (one_status host codec (one host codec has_hash fixed (some table) "cards" db "room") ≡ 0)
    ↔ (passes (checked "room").kind ≡ true)
one-check_example = one-check host codec has_hash fixed (some table) "cards" said db "room"

-- The table of reports as a list of rows, the last first.
abbrev find_row : List (BattleReport host codec) → String → Found host codec
find_row [] id = no_rows
find_row (r ∷ rows) id = if str_eq r.room_id id then found r else find_row rows id

abbrev reports : ReportTable host codec
reports = record {
  Rows = List (BattleReport host codec);
  save = λ r rows. (true, r ∷ rows);
  get_report = find_row;
}

reports-IsTable : IsTable host codec reports
reports-IsTable = record { inserted = λ r rows id e. refl; failed = λ r rows id e. cc e }

abbrev checked_saved : String → Outcome
checked_saved =
    check_saved host codec reports reports-IsTable fixed table "cards" has_hash said (report ∷ [])
      []

abbrev one_done : Pool checked_saved
one_done = record { todo = []; busy = []; received = checked_saved row.room_id ∷ [] }

one_job : Runs checked_saved 1 2 (start checked_saved (row.room_id ∷ [])) one_done
one_job =
    Runs.further _ _ _ _ (Works.take_job row.room_id [] [] [] (omega arith))
      (Runs.further _ _ _ _ (Works.hand_over row.room_id [] [] [] []) (Runs.still one_done))

report-IsPlayed : IsPlayed host codec fixed table "cards" report
report-IsPlayed = record {
  room_id = "room";
  first = alice;
  second = bob;
  seed = pos 7;
  opening = opened;
  opened = new_state-opened;
  zero_time = 0;
  events = events;
  last = last_room;
  reason = "aborted";
  ran = closes;
  now = 3;
  reported = reported;
}

row_saved :
    find_row (save_reports host codec reports "cards" (report ∷ []) []) row.room_id ≡ found row
unfolding save_reports save_report
row_saved = rw (saved, save_report, (eq_iff row.room_id row.room_id).1 refl) refl

verify_all-saved_example :
    (s : Summary) × (verify_all by_room (some (row.room_id ∷ [])) one_done.received ≡ some s)
    × (s.status ≡ 0)
verify_all-saved_example =
    verify_all-saved host codec reports reports-IsTable fixed table "cards" codec-IsFaithful
      has_hash said (report ∷ []) [] by_room 1 2 (row.room_id ∷ []) one_done (report-IsPlayed, tt)
      (λ id. refl) ((row, row_saved), tt) one_job (refl, refl)

workers_finish_example :
    ((n : ℕ) (p : Pool checked)
      → Runs checked (worker_count (pos 0)) n (start checked two_rooms) p
      → (n + left checked p ≡ 2 * length two_rooms)
        × (Finished checked p ⊎ ((q : Pool checked) × Works checked (worker_count (pos 0)) p q)))
    × ((p : Pool checked) × Runs checked
          (worker_count (pos 0))
          (2 * length two_rooms)
          (start checked two_rooms)
          p
        × Finished checked p)
workers_finish_example = workers_finish checked (pos 0) two_rooms

abbrev skipped : Outcome
skipped = record { room = "room"; kind = changed; err = some "cards changed" }

abbrev differing : Outcome
differing = record { room = "room"; kind = mismatch; err = some "mismatch" }

abbrev skipped_then : ℕ → List Outcome
skipped_then zero = differing ∷ []
skipped_then (suc n) = skipped ∷ skipped_then n

print_bad-lines_example :
    print_bad 21 0 (skipped_then 20)
    ≡ shown_lines (take 20 (skipped_then 20)) ++ rest_line 21 20 (drop 20 (skipped_then 20))
print_bad-lines_example = print_bad-lines 21 (skipped_then 20)

ltb-asym : (a b : ℕ) → ltb a b ≡ true → ltb b a ≡ false
ltb-asym a b e = ground (arith, e)

ltb_trans : (a b c : ℕ) → ltb b a ≡ false → ltb c b ≡ false → ltb c a ≡ false
ltb_trans a b c p q = ground (arith, p, q)

abbrev ascending : List ℕ → List ℕ
ascending = sort ltb ltb-asym ltb_trans

dist-Describes_example :
    (d : Dist) × (dist ascending (30 ∷ 10 ∷ 20 ∷ []) ≡ some d) × Describes (30 ∷ 10 ∷ 20 ∷ []) d
dist-Describes_example =
    dist-Describes ascending (sort-IsSorting ltb ltb-asym ltb_trans) (30 ∷ 10 ∷ 20 ∷ [])
      (omega arith)

abbrev accepts : List Statement → Statement → Bool
accepts sent s = true

abbrev won : GameResult
won = record { room_id = "room"; winner = "load0"; actions = 4; illegal = 0; limited = 1 }

abbrev loader : Player
loader = record {
  answer = reply "token" "";
  connects = true;
  greeting = some "welcome";
  attempts = λ g. finished won;
}

run_load-HasPlayed_example :
    (r : LoadReport) × (run_load true none true true true 3 (loader ∷ loader ∷ []) ≡ some r)
    × ((status (some r) ≡ 0) ↔ All (HasPlayed 3) (loader ∷ loader ∷ []))
    × (status (some r) ≡ 0 → r.games ≡ length (loader ∷ loader ∷ []) * 3 / 2)
unfolding users_ready
run_load-HasPlayed_example = run_load-HasPlayed none 3 (loader ∷ loader ∷ []) (omega arith) refl
