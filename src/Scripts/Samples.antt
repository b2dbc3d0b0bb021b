-- ===== src/Scripts/Samples.antt =====
-- scripts/bot/loadtest.go: `samples`, `percentile` and `dist`. Durations are nanoseconds; the
-- float of `percentile` is computed exactly, for a `p` that is a whole number; the order in which
-- goroutines add samples is that of the list.
pub mod Nearest
use pet.Base.{
  ℕ, suc, ◌+◌, ◌-◌, ◌*◌, ◌/◌, List, [], ◌∷◌, Option, none, some, if◌then◌else◌, leb, length,
  get_elem?,
}

-- `int(float64(n)*p/100+0.999999)`
unfoldable pub rank : ℕ → ℕ → ℕ
rank n p = (n * p * 10000 + 999999) / 1000000

-- `none` is a panic out of range. The 0 at which a subtraction stops is the `k = 0` of the code.
unfoldable pub percentile : List ℕ → ℕ → Option ℕ
percentile [] p = some 0
percentile (d ∷ ds) p =
    let n = length (d ∷ ds) in
    let k = rank n p - 1 in get_elem? (d ∷ ds) (if leb n k then n - 1 else k)

pub record Dist : Type 0 where
  pub n : ℕ
  pub p50 : ℕ
  pub p90 : ℕ
  pub p99 : ℕ
  pub max : ℕ

infixl 20 ◌>>=◌
abbrev ◌>>=◌ {ℓ κ} : {A : Type ℓ} {B : Type κ} → Option A → (A → Option B) → Option B
none >>= f = none
some a >>= f = f a

-- `d.Max`
unfoldable pub last_or_zero : List ℕ → Option ℕ
last_or_zero [] = some 0
last_or_zero (d ∷ ds) = get_elem? (d ∷ ds) (length (d ∷ ds) - 1)

-- `dist` of samples that are sorted.
unfoldable pub dist_sorted : List ℕ → Option Dist
dist_sorted ds = do
  a ← percentile ds 50
  b ← percentile ds 90
  c ← percentile ds 99
  m ← last_or_zero ds
  some (record { n = length ds; p50 = a; p90 = b; p99 = c; max = m })

unfoldable pub dist : (List ℕ → List ℕ) → List ℕ → Option Dist
dist sort ds = dist_sorted (sort ds)
