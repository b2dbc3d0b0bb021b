-- ===== src/Scripts/Players/Bots.antt =====
-- scripts/bot/main.go: the counters of the bots.
use pet.Base.{ℕ, zero, suc, ◌+◌, String, List, [], ◌∷◌, none, some, if◌then◌else◌, str_eq, ltb}
use pet.Bot.Client.{GameResult}
use pet.Scripts.Players.{Attempt, not_enqueued, not_played, finished, Player, login, dial}

pub record Counters : Type 0 where
  pub wins : String → ℕ
  pub fails : ℕ
  pub illegal : ℕ

abbrev pub zeros : Counters
zeros = record { wins = λ name. 0; fails = 0; illegal = 0 }

unfoldable pub count_result : Counters → GameResult → Counters
count_result c r = record {
  wins = λ name. if str_eq name r.winner then c.wins name + 1 else c.wins name;
  fails = c.fails;
  illegal = c.illegal + r.illegal;
}

-- Enqueuing that fails is not counted.
unfoldable pub play_games : (ℕ → Attempt) → ℕ → ℕ → Counters → Counters
play_games attempts zero g c = c
play_games attempts (suc n) g c = elim (attempts g) [
  | not_enqueued ↦ c
  | not_played ↦ record c { fails = c.fails + 1 }
  | finished r ↦ play_games attempts n (suc g) (count_result c r)
]

unfoldable pub play : ℕ → Player → Counters → Counters
play games p c = elim (login p.answer) [
  | none ↦ record c { fails = c.fails + games }
  | some token ↦
      if dial p.connects p.greeting
      then play_games p.attempts games 0 c
      else record c { fails = c.fails + games }
]

unfoldable pub play_all : ℕ → List Player → Counters → Counters
play_all games [] c = c
play_all games (p ∷ ps) c = play_all games ps (play games p c)

-- The status of `main` without `-load`, when the cards load.
unfoldable pub status : ℕ → List Player → ℕ
status games players = if ltb 0 (play_all games players zeros).fails then 1 else 0
