-- ===== src/Scripts/Players/Played.antt =====
-- scripts/bot/loadtest.go: when the load test ends with the status 0.
use pet.Base.{
  ℕ, zero, suc, ◌+◌, ◌*◌, ◌/◌, ◌≤◌, ◌<◌, ◌≡◌, ◌↔◌, ◌⊎◌, refl, ◌∙◌, inl, inr, String, true, List, [],
  ◌∷◌, Option, some, length, arith, All, Bool-cases, Option-cases,
}
use pet.Bot.Client.{GameResult}
use pet.Scripts.Accounts.{Ensured}
use pet.Scripts.Players.{login, dial, Attempt, not_enqueued, not_played, finished, Player}
use pet.Scripts.Players.Load.{
  Counters, zeros, count_result, play_games, play, play_all, LoadReport, report_of, users_ready,
  run_load, status,
}

-- All of the `n` games from the number `g` are played.
abbrev pub AllPlayed : (ℕ → Attempt) → ℕ → ℕ → Type 0
AllPlayed attempts zero g = Unit
AllPlayed attempts (suc n) g =
    ((r : GameResult) × (attempts g ≡ finished r)) × AllPlayed attempts n (suc g)

-- The player logs in, is welcomed and plays all games.
pub record HasPlayed (games : ℕ) (p : Player) : Type 0 where
  pub token : String
  pub logged_in : login p.answer ≡ some token
  pub welcomed : dial p.connects p.greeting ≡ true
  pub played : AllPlayed p.attempts games 0

Attempt-cases :
    (a : Attempt) → (a ≡ not_enqueued) ⊎ (a ≡ not_played) ⊎ ((r : GameResult) × (a ≡ finished r))
Attempt-cases not_enqueued = inl refl
Attempt-cases not_played = inr (inl refl)
Attempt-cases (finished r) = inr (inr (r, refl))

-- Games that add to no failure have all been played, and are counted.
play_games-failed :
    (attempts : ℕ → Attempt) (n g : ℕ) (c : Counters)
    → (c.failed ≤ (play_games attempts n g c).failed)
      × ((play_games attempts n g c).failed ≡ c.failed → AllPlayed attempts n g)
unfolding play_games count_result
play_games-failed attempts zero g c = (omega arith, λ e. tt)
play_games-failed attempts (suc n) g c = elim (Attempt-cases (attempts g)) [
  | inl e ↦ rw (e, play_games) (omega arith, λ h. absurd (omega (arith, h)))
  | inr (inl e) ↦ rw (e, play_games) (omega arith, λ h. absurd (omega (arith, h)))
  | inr (inr (r, e)) ↦
      let rest = play_games-failed attempts n (suc g) (count_result c r) in
      rw (e, play_games) (rest.0, λ h. ((r, refl), rest.1 h))
]

AllPlayed-play_games :
    (attempts : ℕ → Attempt) (n g : ℕ) (c : Counters)
    → AllPlayed attempts n g
    → ((play_games attempts n g c).failed ≡ c.failed)
      × ((play_games attempts n g c).games ≡ c.games + n)
unfolding play_games count_result
AllPlayed-play_games attempts zero g c h = (refl, omega arith)
AllPlayed-play_games attempts (suc n) g c ((r, e), h) =
    let (a, b) = AllPlayed-play_games attempts n (suc g) (count_result c r) h in
    rw (e, play_games) (a, omega (arith, b))

play-failed :
    (games : ℕ) (p : Player) (c : Counters)
    → (c.failed ≤ (play games p c).failed)
      × (0 < games → (play games p c).failed ≡ c.failed → HasPlayed games p)
unfolding play
play-failed games p c = elim (Option-cases (login p.answer)) [
  | inl e ↦ rw (e, play) (omega arith, λ some_game h. absurd (omega (arith, some_game, h)))
  | inr (token, e) ↦ elim (Bool-cases (dial p.connects p.greeting)) [
    | inl d ↦
        let all = play_games-failed p.attempts games 0 c in
        rw (e, d, play)
          (
            all.0,
            λ some_game h. record { token = token; logged_in = e; welcomed = d; played = all.1 h },
          )
    | inr d ↦ rw (e, d, play) (omega arith, λ some_game h. absurd (omega (arith, some_game, h)))
  ]
]

HasPlayed-play :
    (games : ℕ) (p : Player) (c : Counters)
    → HasPlayed games p
    → ((play games p c).failed ≡ c.failed) × ((play games p c).games ≡ c.games + games)
unfolding play
HasPlayed-play games p c h =
    rw (h.logged_in, h.welcomed, play) (AllPlayed-play_games p.attempts games 0 c h.played)

play_all-failed :
    (games : ℕ) (ps : List Player) (c : Counters)
    → (c.failed ≤ (play_all games ps c).failed)
      × (0 < games → (play_all games ps c).failed ≡ c.failed → All (HasPlayed games) ps)
unfolding play_all
play_all-failed games [] c = (omega arith, λ some_game h. tt)
play_all-failed games (p ∷ ps) c =
    let here = play-failed games p c in
    let rest = play_all-failed games ps (play games p c) in
    (
      omega (arith, here.0, rest.0),
      λ some_game h. (
        here.1 some_game (omega (arith, here.0, rest.0, h)),
        rest.1 some_game (omega (arith, here.0, rest.0, h)),
      ),
    )

HasPlayed-play_all :
    (games : ℕ) (ps : List Player) (c : Counters)
    → All (HasPlayed games) ps
    → ((play_all games ps c).failed ≡ c.failed)
      × ((play_all games ps c).games ≡ c.games + length ps * games)
unfolding play_all
HasPlayed-play_all games [] c h = (refl, omega arith)
HasPlayed-play_all games (p ∷ ps) c h =
    let here = HasPlayed-play games p c h.0 in
    let rest = HasPlayed-play_all games ps (play games p c) h.1 in
    (rest.0 ∙ here.0, omega (arith, here.1, rest.1))

-- For at least one game, if the cards load, the accounts are ready, the metrics can be read and
-- the JSON is written, the load test returns a report; it ends with the status 0 exactly when
-- every player logs in, is welcomed and plays all games, and then the report counts half as many
-- games as the players have played.
pub run_load-HasPlayed :
    (users : Option Ensured) (games : ℕ) (players : List Player)
    → 0 < games
    → users_ready users ≡ true
    → (r : LoadReport) × (run_load true users true true true games players ≡ some r)
      × ((status (some r) ≡ 0) ↔ All (HasPlayed games) players)
      × (status (some r) ≡ 0 → r.games ≡ length players * games / 2)
unfolding run_load status
run_load-HasPlayed users games players some_game ready =
    let c = play_all games players zeros in
    let r = report_of c in
    let failed = play_all-failed games players zeros in
    let all = HasPlayed-play_all games players zeros in
    let played : status (some r) ≡ 0 → All (HasPlayed games) players =
      λ h. failed.1 some_game (ground (arith, h)) in
    (
      r,
      rw ready refl,
      (played, λ h. ground (arith, (all h).0)),
      λ h. omega (arith, (all (played h)).1),
    )
