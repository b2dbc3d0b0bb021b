-- ===== src/Scripts/Players/Load.antt =====
-- scripts/bot/loadtest.go: the counters of `runLoad` and its report.
use pet.Base.{
  ℕ, zero, suc, ◌+◌, ◌/◌, Bool, true, false, not, List, [], ◌∷◌, Option, none, some, if◌then◌else◌,
  ltb,
}
use pet.Bot.Client.{GameResult}
use pet.Scripts.Accounts.{Ensured, ensured}
use pet.Scripts.Players.{Attempt, not_enqueued, not_played, finished, Player, login, dial}

-- The counters of `runLoad`.
pub record Counters : Type 0 where
  pub games : ℕ
  pub failed : ℕ
  pub actions : ℕ
  pub illegal : ℕ
  pub limited : ℕ

abbrev pub zeros : Counters
zeros = record { games = 0; failed = 0; actions = 0; illegal = 0; limited = 0 }

unfoldable pub count_result : Counters → GameResult → Counters
count_result c r = record {
  games = c.games + 1;
  failed = c.failed;
  actions = c.actions + r.actions;
  illegal = c.illegal + r.illegal;
  limited = c.limited + r.limited;
}

-- The loop over the games: `n` are left, `g` are done.
unfoldable pub play_games : (ℕ → Attempt) → ℕ → ℕ → Counters → Counters
play_games attempts zero g c = c
play_games attempts (suc n) g c = elim (attempts g) [
  | not_enqueued ↦ record c { failed = c.failed + 1 }
  | not_played ↦ record c { failed = c.failed + 1 }
  | finished r ↦ play_games attempts n (suc g) (count_result c r)
]

-- The two phases for one player: `tokens[i]` is empty when the login has failed.
unfoldable pub play : ℕ → Player → Counters → Counters
play games p c = elim (login p.answer) [
  | none ↦ record c { failed = c.failed + games }
  | some token ↦
      if dial p.connects p.greeting
      then play_games p.attempts games 0 c
      else record c { failed = c.failed + games }
]

unfoldable pub play_all : ℕ → List Player → Counters → Counters
play_all games [] c = c
play_all games (p ∷ ps) c = play_all games ps (play games p c)

-- The counts of `loadReport`.
pub record LoadReport : Type 0 where
  pub games : ℕ
  pub failed : ℕ
  pub actions : ℕ
  pub illegal : ℕ
  pub rate_limited : ℕ

abbrev pub report_of : Counters → LoadReport
report_of c = record {
  games = c.games / 2;
  failed = c.failed;
  actions = c.actions;
  illegal = c.illegal;
  rate_limited = c.limited;
}

-- Whether `ensureUsers` returns no error; `none` is an empty DSN.
unfoldable pub users_ready : Option Ensured → Bool
users_ready none = true
users_ready (some (ensured sent)) = true
users_ready (some _) = false

-- `runLoad`, from whether the cards load, the accounts, whether the metrics can be read before and
-- after, and whether the JSON is written; `none` is an error.
unfoldable pub run_load :
    Bool → Option Ensured → Bool → Bool → Bool → ℕ → List Player → Option LoadReport
run_load false users before after written games players = none
run_load true users before after written games players =
    if not (users_ready users)
    then none
    else if not before
    then none
    else if not after
    then none
    else if not written
    then none
    else some (report_of (play_all games players zeros))

-- The status with which `main` ends a load test.
unfoldable pub status : Option LoadReport → ℕ
status none = 1
status (some r) = if ltb 0 r.failed then 1 else 0
