-- ===== src/Auth/Login.antt =====
-- internal/auth/password.go and auth.go: logins and decks. Reading and writing of JSON and headers
-- is a parameter, as are the database, the token store and bcrypt; the texts of logs are left out.
use pet.Base.{
  ℕ, String, Bool, true, false, not, ◌&&◌, ◌||◌, ◌==◌, List, Option, none, some, if◌then◌else◌,
  str_eq,
}
use pet.Deck.{Catalog, Deck, Error, validate_deck}
use pet.Auth.Limit.{Units, IpLimiter, allow_ip}
pub mod Upgrade
pub mod Decks

-- The answer of `FindUserByName`: `sql.ErrNoRows`, another error, or the user's number and password.
pub data FoundUser : Type 0 where
  no_rows : FoundUser
  db_error : FoundUser
  user : ℕ → String → FoundUser

-- The answer of a token check: `ErrInvalidToken`, another error, or the name.
pub data Checked : Type 0 where
  invalid_token : Checked
  store_error : Checked
  checked : String → Checked

-- `World` is all that these depend on. An answer `none` or `false` is an error.
pub record Site : Type 1 where
  pub World : Type 0
  pub byte_len : String → ℕ
  pub has_prefix : String → String → Bool  -- the text, the prefix
  pub trim_prefix : String → String → String
  pub same_hash : String → String → Bool  -- `CompareHashAndPassword` returns nil
  pub generate : String → World → Option String × World  -- `GenerateFromPassword`
  pub find_user : String → World → FoundUser × World
  pub update_password : ℕ → String → World → Bool × World
  pub upsert_deck : ℕ → List String → World → Bool × World
  pub issue : String → World → Option String × World
  pub lookup_token : String → World → Checked × World

pub record LoginReq : Type 0 where
  pub username : String
  pub password : String

-- `loginResp` with its status.
pub record Response : Type 0 where
  pub status : ℕ
  pub token : String
  pub player_id : String
  pub error : String

abbrev pub failure : ℕ → String → Response
failure status error = record { status = status; token = ""; player_id = ""; error = error }

-- What a handler reads of a request: `host` is what `SplitHostPort` makes of `remote_addr`, and
-- `body` what `readJSON` reads.
pub record Request {ℓ} (Body : Type ℓ) : Type ℓ where
  pub method : String
  pub remote_addr : String
  pub host : Option String
  pub authorization : String
  pub body : Option Body

unfoldable pub client_ip : {Body : Type 0} → Request Body → String
client_ip r = elim r.host [ none ↦ r.remote_addr | some host ↦ host ]

-- What `Savedecks` writes: an error, or "ok" with the owner.
pub data DeckAnswer : Type 0 where
  refused : Response → DeckAnswer
  saved : String → DeckAnswer

module _ (S : Site) where
  unfoldable pub is_bcrypt_hash : String → Bool
  is_bcrypt_hash s =
      S.byte_len s == 60
      && (S.has_prefix s "$2a$" || S.has_prefix s "$2b$" || S.has_prefix s "$2y$")

  -- `(ok, needUpgrade)`; the comparison that only takes time is left out.
  unfoldable pub check_password : String → String → Bool × Bool
  unfolding is_bcrypt_hash
  check_password stored given =
      if is_bcrypt_hash stored
      then (S.same_hash stored given, false)
      else (str_eq stored given, str_eq stored given)

  -- The state of a server that a login reads or writes.
  pub record Server : Type 0 where
    pub limiter : Option IpLimiter
    pub world : S.World

  -- The rewriting of an old password. Its failures are only logged.
  unfoldable pub upgrade : Bool → ℕ → String → S.World → S.World
  upgrade false uid password w = w
  upgrade true uid password w =
      let (hash, w') = S.generate password w in
      elim hash [ none ↦ w' | some h ↦ (S.update_password uid h w').1 ]

  unfoldable pub issue_token :
      LoginReq → Option IpLimiter → Option String × S.World → Response × Server
  issue_token req l (none, w) =
      (failure 503 "token store unavailable", record { limiter = l; world = w })
  issue_token req l (some token, w) = (
    record { status = 200; token = token; player_id = req.username; error = "" },
    record { limiter = l; world = w },
  )

  -- The handler from the answer of `FindUserByName` on.
  unfoldable pub credentials : LoginReq → Option IpLimiter → FoundUser × S.World → Response × Server
  unfolding upgrade issue_token check_password
  credentials req l (no_rows, w) =
      (failure 401 "invalid credentials", record { limiter = l; world = w })
  credentials req l (db_error, w) = (failure 500 "db error", record { limiter = l; world = w })
  credentials req l (user uid password, w) =
      let (ok, need_upgrade) = check_password password req.password in
      if not ok
      then (failure 401 "invalid credentials", record { limiter = l; world = w })
      else issue_token req l (S.issue req.username (upgrade need_upgrade uid req.password w))

  -- `nil` means no limit.
  unfoldable pub pass_limit : Units → ℕ → String → Option IpLimiter → Bool × Option IpLimiter
  pass_limit u now ip none = (true, none)
  pass_limit u now ip (some l) = let (ok, l') = allow_ip u now ip l in (ok, some l')

  unfoldable pub login : Units → ℕ → Request LoginReq → Server → Response × Server
  unfolding pass_limit credentials client_ip
  login u now r s =
      if not (str_eq r.method "POST")
      then (failure 405 "method not allowed", s)
      else (let (ok, l) = pass_limit u now (client_ip r) s.limiter in
          if not ok
          then (failure 429 "too many login attempts", record s { limiter = l })
          else elim r.body [
            | none ↦ (failure 400 "bad json", record s { limiter = l })
            | some req ↦ credentials req l (S.find_user req.username s.world)
          ])

  unfoldable pub player_from_token : String → S.World → Checked × S.World
  player_from_token authorization w =
      if not (S.has_prefix authorization "Bearer ")
      then (invalid_token, w)
      else S.lookup_token (S.trim_prefix authorization "Bearer ") w

  unfoldable pub token_err : Checked → Response
  token_err invalid_token = failure 401 "invalid token"
  token_err _ = failure 503 "token store unavailable"

  unfoldable pub stored : String → Bool × S.World → DeckAnswer × S.World
  stored owner (false, w) = (refused (failure 400 "db error"), w)
  stored owner (true, w) = (saved owner, w)

  unfoldable pub store_deck : String → List String → FoundUser × S.World → DeckAnswer × S.World
  unfolding stored
  store_deck owner cards (user uid password, w) = stored owner (S.upsert_deck uid cards w)
  store_deck owner cards (_, w) = (refused (failure 400 "user not found"), w)

  -- The handler from `ValidateDeck` on; the text of its error is left out.
  unfoldable pub validated : String → List String → Option Error → S.World → DeckAnswer × S.World
  unfolding store_deck
  validated owner cards (some e) w = (refused (failure 400 ""), w)
  validated owner cards none w = store_deck owner cards (S.find_user owner w)

  -- The handler from the token check on.
  unfoldable pub save_for :
      Catalog → Option (List String) → Checked × S.World → DeckAnswer × S.World
  unfolding validated token_err
  save_for cat none (checked owner, w) = (refused (failure 400 "bad json"), w)
  save_for cat (some cards) (checked owner, w) =
      validated owner cards (validate_deck (some cat) (record { owner = owner; cards = cards })) w
  save_for cat body (invalid_token, w) = (refused (token_err invalid_token), w)
  save_for cat body (store_error, w) = (refused (token_err store_error), w)

  unfoldable pub save_decks : Catalog → Request (List String) → S.World → DeckAnswer × S.World
  unfolding save_for player_from_token
  save_decks cat r w =
      if not (str_eq r.method "POST" || str_eq r.method "PUT")
      then (refused (failure 405 "method not allowed"), w)
      else save_for cat r.body (player_from_token r.authorization w)
