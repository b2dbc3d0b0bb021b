-- ===== src/Auth/Tokens/Calls.antt =====
-- internal/auth/tokens.go: calls of the interface `TokenStore`, and when the two stores agree.
use pet.Base.{
  ℕ, ◌+◌, ◌≤◌, ◌≡◌, ◌≢◌, String, true, List, [], ◌∷◌, Option, none, some, if◌then◌else◌, str_eq,
  ltb,
}
use pet.Deck.{lookup}
use pet.Auth.Login.{Checked}
use pet.Auth.Tokens.{
  MemToken, MemTokens, issue_mem, lookup_mem, KeyValues, got_nil, got, token_key, issue_redis,
  lookup_redis,
}

-- A call of the interface `TokenStore`: `Issue` with the random token that it draws, or `Lookup`.
pub data Call : Type 0 where
  issue : String → String → Call
  look_up : String → Call

pub data Answer : Type 0 where
  issued : Option String → Answer
  looked : Checked → Answer

abbrev pub Timed : Type 0
Timed = ℕ × Call

-- The calls come at times that do not decrease, their tokens are among `P`, and no drawn token is
-- empty.
abbrev pub IsTimely : (String → Type 0) → ℕ → List Timed → Type 0
IsTimely P now [] = Unit
IsTimely P now ((at, issue token user) ∷ calls) =
    (now ≤ at) × P token × (token ≢ "") × IsTimely P at calls
IsTimely P now ((at, look_up token) ∷ calls) = (now ≤ at) × P token × IsTimely P at calls

unfoldable pub mem_answers : List Timed → MemTokens → List Answer
mem_answers [] t = []
mem_answers ((at, issue token user) ∷ calls) t =
    let (a, t') = issue_mem (some token) at user t in issued a ∷ mem_answers calls t'
mem_answers ((at, look_up token) ∷ calls) t =
    let (a, t') = lookup_mem at token t in looked a ∷ mem_answers calls t'

-- The user for whom an entry is still good at a time.
abbrev pub good : ℕ → Option MemToken → Option String
good n none = none
good n (some e) = if ltb n e.expires then some e.username else none

module _ (R : KeyValues) where
  -- No two tokens of `P` have one key.
  abbrev pub AreApart : (String → Type 0) → Type 0
  AreApart P = (a b : String) → P a → P b → token_key R a ≡ token_key R b → a ≡ b

  -- What Redis documents of keys that expire, while no command fails: `at` lets the time come, and
  -- `alive` is what a key holds at a time if nothing is set before it.
  pub record IsExpiring : Type 0 where
    pub at : ℕ → R.World → R.World
    pub alive : R.World → String → ℕ → Option String
    pub waits : (n : ℕ) (w : R.World) (k : String) (m : ℕ) → alive (at n w) k m ≡ alive w k m
    pub gets :
        (n : ℕ) (w : R.World) (k : String)
        → (R.get k (at n w)).0 ≡ (elim (alive w k n) [ none ↦ got_nil | some v ↦ got v ])
    pub gets_only :
        (n : ℕ) (w : R.World) (k j : String) (m : ℕ) → alive (R.get k (at n w)).1 j m ≡ alive w j m
    pub sets : (n : ℕ) (w : R.World) (k v : String) (ttl : ℕ) → (R.set k v ttl (at n w)).0 ≡ true
    pub set_alive :
        (n : ℕ) (w : R.World) (k v : String) (ttl : ℕ) (j : String) (m : ℕ)
        → n ≤ m
        → alive (R.set k v ttl (at n w)).1 j m
          ≡ (if str_eq k j then (if ltb m (n + ttl) then some v else none) else alive w j m)

  module _ (x : IsExpiring) (hour ttl : ℕ) where
    unfoldable pub redis_answers : List Timed → R.World → List Answer
    redis_answers [] w = []
    redis_answers ((at, issue token user) ∷ calls) w =
        let (a, w') = issue_redis R hour ttl (some token) user (x.at at w) in
        issued a ∷ redis_answers calls w'
    redis_answers ((at, look_up token) ∷ calls) w =
        let (a, w') = lookup_redis R token (x.at at w) in looked a ∷ redis_answers calls w'

    -- From `now` on, both stores hold the same users for the same tokens of `P`.
    abbrev pub Agree : (String → Type 0) → ℕ → MemTokens → R.World → Type 0
    Agree P now t w =
        (token : String) (m : ℕ)
        → P token
        → token ≢ ""
        → now ≤ m
        → good m (lookup token t.m) ≡ x.alive w (token_key R token) m
