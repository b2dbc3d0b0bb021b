-- ===== src/Scripts/Accounts.antt =====
-- scripts/bot/loadtest.go: `ensureUsers`. The database answers each statement that it is sent, after
-- those before it, with whether it has been executed.
use pet.Base.{
  ℕ, zero, suc, ◌+◌, ◌≤◌, ◌≡◌, ◌⊎◌, String, Bool, true, false, List, [], ◌∷◌, ◌++◌, Option, none,
  some, if◌then◌else◌, ltb, decimal,
}
use Prim.Native.String.{◌++◌ as ◌<>◌}

pub record Statement : Type 0 where
  pub query : String
  pub args : List String

pub data Ensured : Type 0 where
  open_error hash_error out_of_fuel : Ensured
  exec_error : List Statement → Ensured
  ensured : List Statement → Ensured

module _ (prefix : String) (hash : String) where
  -- The inner loop, from `j`; `rounds` is how far `j` is from `i+batch`.
  unfoldable pub add_rows : ℕ → ℕ → ℕ → ℕ → Statement → Statement
  add_rows zero i n j s = s
  add_rows (suc rounds) i n j s =
      let q = if ltb i j then s.query <> "," else s.query in
      let more =
        add_rows rounds i n (suc j)
          (record { query = q <> "(?,?)"; args = s.args ++ (prefix <> decimal j) ∷ hash ∷ [] }) in
      if ltb j n then more else s

  abbrev pub statement : ℕ → ℕ → Statement
  statement n i =
      add_rows 500 i n i
        (record { query = "INSERT IGNORE INTO users (username, password) VALUES "; args = [] })

  -- The outer loop from `i`, with the statements that are sent so far.
  unfoldable pub insert_from :
      (List Statement → Statement → Bool) → ℕ → ℕ → ℕ → List Statement → Ensured
  insert_from exec zero n i sent = out_of_fuel
  insert_from exec (suc fuel) n i sent =
      let s = statement n i in
      let rest = insert_from exec fuel n (i + 500) (sent ++ s ∷ []) in
      if ltb i n then (if exec sent s then rest else exec_error (sent ++ s ∷ [])) else ensured sent

-- `opens` says whether the database opens, and `hash` is the answer of `HashPassword`.
unfoldable pub ensure_users :
    Bool → Option String → (List Statement → Statement → Bool) → String → ℕ → Ensured
ensure_users false hash exec prefix n = open_error
ensure_users true none exec prefix n = hash_error
ensure_users true (some hash) exec prefix n = insert_from prefix hash exec (suc n) n 0 []

-- The arguments for `c` accounts from the number `j`.
unfoldable pub accounts : String → String → ℕ → ℕ → List String
accounts prefix hash j zero = []
accounts prefix hash j (suc c) = (prefix <> decimal j) ∷ hash ∷ accounts prefix hash (suc j) c

unfoldable pub all_args : List Statement → List String
all_args [] = []
all_args (s ∷ l) = s.args ++ all_args l

-- What is sent when all before the number `m` has been.
module _ (prefix hash : String) where
  abbrev pub Covers : List Statement → ℕ → Type 0
  Covers sent m = all_args sent ≡ accounts prefix hash 0 m

  -- All accounts are sent, or the database has refused the last statement.
  abbrev pub IsSent : (List Statement → Statement → Bool) → ℕ → Ensured → Type 0
  IsSent exec n out =
      ((sent : List Statement) × (out ≡ ensured sent) × Covers sent n)
      ⊎ ((sent : List Statement) × (s : Statement) × (m : ℕ) × (out ≡ exec_error (sent ++ s ∷ []))
          × (exec sent s ≡ false)
          × (m ≤ n)
          × Covers (sent ++ s ∷ []) m)
