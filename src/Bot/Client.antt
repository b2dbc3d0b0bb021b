-- ===== src/Bot/Client.antt =====
-- `playOne` of scripts/bot/client.go: what a bot sends in one game. The hooks that measure times, the
-- delays and the deadline are left out.
use pet.Base.{
  ℕ, ◌+◌, ◌≡◌, ◌⊎◌, refl, subst, inl, inr, String, Bool, true, false, not, ◌||◌, List, [], ◌∷◌,
  Option, none, some, if◌then◌else◌, str_eq, leb, ltb, arith, Bool-cases,
}
use pet.Deck.{Catalog}
use pet.Battle.Model.{Action}
use pet.Battle.View.{View}
use pet.Bot.{Rng, stop, choose_action}

-- `inbound`.
pub record Inbound : Type 0 where
  pub kind : String
  pub payload : String
  pub room_id : String
  pub code : String
  pub winner : String
  pub view : View

pub data Sent : Type 0 where
  sent_join : String → Sent
  sent_action : String → Action → Sent

-- `result`.
pub record GameResult : Type 0 where
  pub room_id : String
  pub winner : String
  pub actions : ℕ
  pub illegal : ℕ
  pub limited : ℕ

module _ (R : Rng) where
  -- The variables of the loop, and what was given to the connection, the last first.
  pub record Client : Type 0 where
    pub res : GameResult
    pub last : Action
    pub last_seq : ℕ
    pub rng : R.Source
    pub sent : List Sent

  pub data PlayStatus : Type 0 where
    playing over broken : Client → PlayStatus

  abbrev pub client_of : PlayStatus → Client
  client_of (playing c) = c
  client_of (over c) = c
  client_of (broken c) = c

  -- Giving `x` to the connection, which writes it or not.
  unfoldable pub give : Bool → Sent → Client → PlayStatus
  give true x c = playing (record c { sent = x ∷ c.sent })
  give false x c = broken (record c { sent = x ∷ c.sent })

  unfoldable pub give_last : Bool → Client → PlayStatus
  unfolding give
  give_last writes c = give writes (sent_action c.res.room_id c.last) c

  unfoldable pub on_match_found : Bool → Inbound → Client → PlayStatus
  unfolding give
  on_match_found writes m c =
      give writes (sent_join m.room_id) (record c { res = record c.res { room_id = m.room_id } })

  -- A choice that is none is a panic.
  unfoldable pub act_on : Bool → ℕ → Client → Option Action × R.Source → PlayStatus
  unfolding give_last
  act_on writes seq c (none, rng) = broken (record c { last_seq = seq; rng = rng })
  act_on writes seq c (some a, rng) = give_last writes (record c {
    last_seq = seq;
    rng = rng;
    last = a;
    res = record c.res { actions = c.res.actions + 1 };
  })

  unfoldable pub on_game_state : Catalog → Bool → View → Client → PlayStatus
  unfolding act_on
  on_game_state cat writes v c =
      if leb v.seq c.last_seq || (v.over || not v.your_turn)
      then playing (record c { last_seq = if ltb c.last_seq v.seq then v.seq else c.last_seq })
      else act_on writes v.seq c (choose_action R v cat c.rng)

  unfoldable pub on_error : Bool → Inbound → Client → PlayStatus
  unfolding give_last
  on_error writes m c =
      if str_eq m.payload "rate_limited"
      then give_last writes (record c { res = record c.res { limited = c.res.limited + 1 } })
      else if not (str_eq m.code "")
      then give_last writes
          (record c { last = stop; res = record c.res { illegal = c.res.illegal + 1 } })
      else broken c

  -- One round of the loop, for a message that was read.
  unfoldable pub play_step : Catalog → Bool → Inbound → Client → PlayStatus
  unfolding on_match_found on_game_state on_error
  play_step cat writes m c =
      if str_eq m.kind "match_found"
      then on_match_found writes m c
      else if str_eq m.kind "game_state"
      then on_game_state cat writes m.view c
      else if str_eq m.kind "error"
      then on_error writes m c
      else if str_eq m.kind "game_over"
      then over (record c { res = record c.res { winner = m.winner } })
      else playing c

  -- The loop; an error of reading ends it, as does the end of the list.
  unfoldable pub play_one : Catalog → List (Bool × Inbound) → Client → PlayStatus
  play_one cat [] c = broken c
  play_one cat ((writes, m) ∷ ms) c = elim (play_step cat writes m c) [
    | playing c' ↦ play_one cat ms c'
    | over c' ↦ over c'
    | broken c' ↦ broken c'
  ]

  unfoldable pub count_actions : List Sent → ℕ
  count_actions [] = 0
  count_actions (sent_join r ∷ xs) = count_actions xs
  count_actions (sent_action r a ∷ xs) = 1 + count_actions xs

  -- Every action that was sent is counted once: as chosen, as the end of a turn after a refusal, or as
  -- sent again after a limit.
  abbrev pub IsCounted : Client → Type 0
  IsCounted c = count_actions c.sent ≡ c.res.actions + c.res.illegal + c.res.limited

  give_last-IsCounted :
      (writes : Bool) (c : Client)
      → count_actions c.sent + 1 ≡ c.res.actions + c.res.illegal + c.res.limited
      → IsCounted (client_of (give_last writes c))
  unfolding give_last give count_actions
  give_last-IsCounted true c h = omega (arith, h)
  give_last-IsCounted false c h = omega (arith, h)

  act_on-IsCounted :
      (writes : Bool) (seq : ℕ) (c : Client) (o : Option Action × R.Source)
      → IsCounted c
      → IsCounted (client_of (act_on writes seq c o))
  unfolding act_on
  act_on-IsCounted writes seq c (none, rng) h = h
  act_on-IsCounted writes seq c (some a, rng) h =
      give_last-IsCounted writes
        (record c {
          last_seq = seq;
          rng = rng;
          last = a;
          res = record c.res { actions = c.res.actions + 1 };
        })
        (omega (arith, h))

  on_match_found-IsCounted :
      (writes : Bool) (m : Inbound) (c : Client)
      → IsCounted c
      → IsCounted (client_of (on_match_found writes m c))
  unfolding on_match_found give count_actions
  on_match_found-IsCounted true m c h = h
  on_match_found-IsCounted false m c h = h

  on_game_state-IsCounted :
      (cat : Catalog) (writes : Bool) (v : View) (c : Client)
      → IsCounted c
      → IsCounted (client_of (on_game_state cat writes v c))
  unfolding on_game_state
  on_game_state-IsCounted cat writes v c h =
      elim (Bool-cases (leb v.seq c.last_seq || (v.over || not v.your_turn))) [
        | inl waits ↦ rw (waits, client_of) h
        | inr acts ↦
            rw (acts, client_of) (act_on-IsCounted writes v.seq c (choose_action R v cat c.rng) h)
      ]

  on_error-IsCounted :
      (writes : Bool) (m : Inbound) (c : Client)
      → IsCounted c
      → IsCounted (client_of (on_error writes m c))
  unfolding on_error
  on_error-IsCounted writes m c h = elim (Bool-cases (str_eq m.payload "rate_limited")) [
    | inl limit ↦
        rw (limit, client_of)
          (give_last-IsCounted writes
            (record c { res = record c.res { limited = c.res.limited + 1 } }) (omega (arith, h)))
    | inr other ↦ elim (Bool-cases (str_eq m.code "")) [
      | inl bare ↦ rw (other, bare, client_of) h
      | inr refused ↦
          rw (other, refused, client_of)
            (give_last-IsCounted writes
              (record c { last = stop; res = record c.res { illegal = c.res.illegal + 1 } })
              (omega (arith, h)))
    ]
  ]

  play_step-IsCounted :
      (cat : Catalog) (writes : Bool) (m : Inbound) (c : Client)
      → IsCounted c
      → IsCounted (client_of (play_step cat writes m c))
  unfolding play_step
  play_step-IsCounted cat writes m c h = elim (Bool-cases (str_eq m.kind "match_found")) [
    | inl k ↦ rw (k, client_of) (on_match_found-IsCounted writes m c h)
    | inr n ↦ elim (Bool-cases (str_eq m.kind "game_state")) [
      | inl k ↦ rw (n, k, client_of) (on_game_state-IsCounted cat writes m.view c h)
      | inr n2 ↦ elim (Bool-cases (str_eq m.kind "error")) [
        | inl k ↦ rw (n, n2, k, client_of) (on_error-IsCounted writes m c h)
        | inr n3 ↦ elim (Bool-cases (str_eq m.kind "game_over")) [
          | inl k ↦ rw (n, n2, n3, k, client_of) h
          | inr n4 ↦ rw (n, n2, n3, n4, client_of) h
        ]
      ]
    ]
  ]

  PlayStatus-cases :
      (o : PlayStatus)
      → ((c : Client) × (o ≡ playing c)) ⊎ ((c : Client) × ((o ≡ over c) ⊎ (o ≡ broken c)))
  PlayStatus-cases (playing c) = inl (c, refl)
  PlayStatus-cases (over c) = inr (c, inl refl)
  PlayStatus-cases (broken c) = inr (c, inr refl)

  -- In one game, whatever the server sends and whichever writes fail, the actions that the bot gave to
  -- the connection are as many as its result counts as chosen, refused and limited together.
  pub play_one-IsCounted :
      (cat : Catalog) (ms : List (Bool × Inbound)) (c : Client)
      → IsCounted c
      → IsCounted (client_of (play_one cat ms c))
  unfolding play_one
  play_one-IsCounted cat [] c h = h
  play_one-IsCounted cat ((writes, m) ∷ ms) c h =
      let next = play_step-IsCounted cat writes m c h in
      elim (PlayStatus-cases (play_step cat writes m c)) [
        | inl (c', e) ↦
            rw (e, client_of)
              (play_one-IsCounted cat ms c' (subst (λ o. IsCounted (client_of o)) e next))
        | inr (c', inl e) ↦ rw (e, client_of) (subst (λ o. IsCounted (client_of o)) e next)
        | inr (c', inr e) ↦ rw (e, client_of) (subst (λ o. IsCounted (client_of o)) e next)
      ]
