-- ===== src/Auth/Tokens.antt =====
-- internal/auth/tokens.go: the two stores of login tokens. The random token, SHA-256 with its
-- hexadecimal text, and Redis are parameters; a time is a natural number.
pub mod Calls
pub mod Answers
pub mod Agreement
use pet.Base.{
  ℕ, ◌+◌, ◌*◌, ◌≡◌, ◌≢◌, String, Bool, not, List, [], ◌∷◌, Option, none, some, if◌then◌else◌,
  str_eq, ltb, arith,
}
use text.Mathlib.TextEquality.{eq_iff}
use pet.Deck.{lookup, insert}
use pet.Deck.Maps.{lookup-insert}
use pet.Room.Manager.{forget}
use pet.Auth.Login.{Checked, invalid_token, store_error, checked}

-- 24 hours, in the unit of time.
abbrev pub token_ttl : ℕ → ℕ
token_ttl hour = 24 * hour

pub record MemToken : Type 0 where
  pub username : String
  pub expires : ℕ

pub record MemTokens : Type 0 where
  pub ttl : ℕ
  pub m : List (String × MemToken)

-- The tokens of `seed`, which are issued at `now`.
unfoldable pub seeded :
    ℕ → ℕ → List (String × String) → List (String × MemToken) → List (String × MemToken)
seeded ttl now [] m = m
seeded ttl now ((token, user) ∷ seed) m =
    seeded ttl now seed (insert token (record { username = user; expires = now + ttl }) m)

unfoldable pub new_mem_tokens : ℕ → ℕ → List (String × String) → MemTokens
new_mem_tokens ttl now seed = record { ttl = ttl; m = seeded ttl now seed [] }

-- `new_token` is what `newToken` returns; `none` is an error.
unfoldable pub issue_mem : Option String → ℕ → String → MemTokens → Option String × MemTokens
issue_mem none now username t = (none, t)
issue_mem (some token) now username t = (
  some token,
  record t { m = insert token (record { username = username; expires = now + t.ttl }) t.m },
)

unfoldable pub lookup_mem : ℕ → String → MemTokens → Checked × MemTokens
lookup_mem now token t = elim (lookup token t.m) [
  | none ↦ (invalid_token, t)
  | some e ↦
      if str_eq token ""
      then (invalid_token, t)
      else if not (ltb now e.expires)
      then (invalid_token, record t { m = forget token t.m })
      else (checked e.username, t)
]

-- The answer of `Get`: `redis.Nil`, another error, or the value.
pub data Got : Type 0 where
  got_nil got_error : Got
  got : String → Got

pub record KeyValues : Type 1 where
  pub World : Type 0
  pub sha256_hex : String → String
  pub concat : String → String → String
  pub set : String → String → ℕ → World → Bool × World
  pub get : String → World → Got × World

module _ (R : KeyValues) where
  unfoldable pub token_key : String → String
  token_key token = R.concat "tok:" (R.sha256_hex token)

  -- `t.TTL`, where 0 stands for all that is not positive.
  unfoldable pub ttl_of : ℕ → ℕ → ℕ
  ttl_of hour ttl = if ltb 0 ttl then ttl else token_ttl hour

  unfoldable pub issue_redis : ℕ → ℕ → Option String → String → R.World → Option String × R.World
  unfolding token_key ttl_of
  issue_redis hour ttl none username w = (none, w)
  issue_redis hour ttl (some token) username w =
      let (ok, w') = R.set (token_key token) username (ttl_of hour ttl) w in
      (if ok then some token else none, w')

  unfoldable pub answer_of : Got × R.World → Checked × R.World
  answer_of (got_nil, w) = (invalid_token, w)
  answer_of (got_error, w) = (store_error, w)
  answer_of (got username, w) = (checked username, w)

  unfoldable pub lookup_redis : String → R.World → Checked × R.World
  unfolding answer_of token_key
  lookup_redis token w =
      if str_eq token "" then (invalid_token, w) else answer_of (R.get (token_key token) w)

-- A token that was issued names its user until it expires, and is invalid from then on.
pub lookup_mem-issue_mem :
    (token username : String) (now later : ℕ) (t : MemTokens)
    → token ≢ ""
    → (lookup_mem later token (issue_mem (some token) now username t).1).0
      ≡ (if ltb later (now + t.ttl) then checked username else invalid_token)
unfolding lookup_mem issue_mem
lookup_mem-issue_mem token username now later t named = ground (
  arith,
  lookup-insert token token (record { username = username; expires = now + t.ttl }) t.m,
  eq_iff token token,
  eq_iff token "",
  named,
)
