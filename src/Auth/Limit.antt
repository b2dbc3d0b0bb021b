-- ===== src/Auth/Limit.antt =====
-- internal/auth/ratelimit.go and loginlimit.go: token buckets. A time is a natural number, and
-- `float64` an exact one: `rate` is what flows into a bucket in one unit of time, and `token` is
-- what one request costs, so every rational rate has such units. The clock does not run backwards;
-- the zero `time.Time` is 0.
use pet.Base.{
  ℕ, ◌+◌, ◌-◌, ◌*◌, String, Bool, true, false, List, [], ◌∷◌, Option, none, some, if◌then◌else◌,
  ltb, length,
}
use pet.Deck.{lookup, insert}
pub mod Bucket
pub mod Swept
pub mod Idle

-- `time.Minute` and `ipIdle` in the unit of time, and the price of a request.
pub record Units : Type 0 where
  pub minute : ℕ
  pub ip_idle : ℕ
  pub token : ℕ

pub record Limiter : Type 0 where
  pub rate : ℕ
  pub burst : ℕ
  pub tokens : ℕ
  pub last : ℕ

unfoldable pub new_limiter : ℕ → ℕ → ℕ → Limiter
new_limiter rate burst now = record { rate = rate; burst = burst; tokens = burst; last = now }

-- The tokens of a bucket at `now`, before a request takes one.
unfoldable pub refilled : ℕ → Limiter → ℕ
refilled now l =
    let tokens = l.tokens + (now - l.last) * l.rate in
    if ltb l.burst tokens then l.burst else tokens

pub record IpLimiter : Type 0 where
  pub rate : ℕ
  pub burst : ℕ
  pub m : List (String × Limiter)
  pub last_sweep : ℕ

unfoldable pub new_ip_limiter : ℕ → ℕ → IpLimiter
new_ip_limiter rate burst = record { rate = rate; burst = burst; m = []; last_sweep = 0 }

-- The bucket of an address, a new one if there is none.
unfoldable pub bucket_of : ℕ → String → IpLimiter → Limiter
unfolding new_limiter
bucket_of now ip l = elim (lookup ip l.m) [ some b ↦ b | none ↦ new_limiter l.rate l.burst now ]

unfoldable pub size : IpLimiter → ℕ
size l = length l.m

module _ (u : Units) where
  unfoldable pub allow : ℕ → Limiter → Bool × Limiter
  allow now l =
      let tokens = refilled now l in
      if ltb tokens u.token
      then (false, record l { tokens = tokens; last = now })
      else (true, record l { tokens = tokens - u.token; last = now })

  -- The loop of `sweep`.
  unfoldable pub without_idle : ℕ → List (String × Limiter) → List (String × Limiter)
  without_idle now [] = []
  without_idle now ((ip, b) ∷ m) =
      let rest = without_idle now m in if ltb u.ip_idle (now - b.last) then rest else (ip, b) ∷ rest

  unfoldable pub sweep : ℕ → IpLimiter → IpLimiter
  sweep now l = record l { last_sweep = now; m = without_idle now l.m }

  -- `Allow` of an `IPLimiter`.
  unfoldable pub allow_ip : ℕ → String → IpLimiter → Bool × IpLimiter
  unfolding sweep bucket_of
  allow_ip now ip l =
      let l' = if ltb u.minute (now - l.last_sweep) then sweep now l else l in
      let (ok, b) = allow now (bucket_of now ip l') in (ok, record l' { m = insert ip b l'.m })

  -- The answers of a bucket to requests at the given times.
  unfoldable pub answers : List ℕ → Limiter → List Bool × Limiter
  answers [] l = ([], l)
  answers (now ∷ times) l =
      let (ok, l') = allow now l in let (oks, l'') = answers times l' in (ok ∷ oks, l'')

  -- The answers to requests at the given times from the given addresses.
  unfoldable pub answers_ip : List (ℕ × String) → IpLimiter → List Bool × IpLimiter
  answers_ip [] l = ([], l)
  answers_ip ((now, ip) ∷ calls) l =
      let (ok, l') = allow_ip now ip l in let (oks, l'') = answers_ip calls l' in (ok ∷ oks, l'')
