-- ===== src/Battle/Play.antt =====
-- The invariant through `Summon` and `playCard` of internal/battle.
use pet.Base.{
  ℕ, ◌+◌, ◌≤◌, ◌<◌, ◌≡◌, refl, ◌⊎◌, ◌≢◌, inl, inr, String, ℤ, pos, ◌≤ℤ◌, false, List, [], ◌∷◌, ◌++◌,
  some, none, All-append, arith, Bool-cases, Option-cases, length, length-append, sub_int,
  sub_int_parts, leb, str_eq, ltb_ℤ, decimal_inj, IsInt,
}
use text.Mathlib.TextEquality.{eq_iff}
use text.Mathlib.TextLemmas.{tail-eq_of_cons-eq}
use pet.Deck.{Card, get, type_minion, type_spell, IsValidCard, IsIntCard}
use pet.Battle.Model.{
  Seat, first, second, Player, State, Action, Code, card_not_in_hand, unknown_card, not_enough_mana,
  not_implemented, board_full, player, put, board_limit,
}
use pet.Battle.Turns.{inst_name}
use pet.Battle.Actions.{fresh_minion, place, pay, play_card, remove_at, index_of_string}
use pet.Battle.Board.{IsAlive, count_inst, count_inst-append}
use pet.Battle.Invariant.{MinionIsSound, PlayerIsSound, IsSane, IsLive, IsSound, inst_count}
use pet.Battle.Players.{put-IsSane, sound_at, board-PlayerIsSound}
use pet.Battle.Steps.{
  IsOpen, IsJudged-IsOpen, IsOpen-IsSound, put-IsLive, put-IsOpen, IsAlive-at, up_at,
}

pub inst_name_inj : (m n : ℕ) → inst_name m ≡ inst_name n → m ≡ n
inst_name_inj m n e = decimal_inj m n (tail-eq_of_cons-eq e)

-- A minion of a valid card is sound and alive.
fresh_minion_sound :
    (card : Card) (x : String)
    → IsValidCard card
    → IsIntCard card
    → card.kind ≡ type_minion
    → MinionIsSound (fresh_minion card x) × IsAlive (fresh_minion card x)
unfolding fresh_minion
fresh_minion_sound card x v ints k = ground (arith, eq_iff type_minion type_spell, v.kind_valid)

count_fresh : (x y : String) (card : Card) → x ≢ y → count_inst x (fresh_minion card y ∷ []) ≡ 0
unfolding count_inst fresh_minion
count_fresh x y card ne = ground (arith, eq_iff y x)

count_fresh_le : (x y : String) (card : Card) → count_inst x (fresh_minion card y ∷ []) ≤ 1
unfolding count_inst fresh_minion
count_fresh_le x y card = ground arith

-- The new minion on the board of a player.
placed : Player → Card → String → Player
placed p card x = record p { board = p.board ++ fresh_minion card x ∷ [] }

placed-PlayerIsSound :
    (p : Player) (card : Card) (x : String)
    → PlayerIsSound p
    → MinionIsSound (fresh_minion card x)
    → length p.board < board_limit
    → PlayerIsSound (placed p card x)
unfolding placed
placed-PlayerIsSound p card x h m fits =
    board-PlayerIsSound p (p.board ++ fresh_minion card x ∷ []) h
      (omega (arith, length-append p.board (fresh_minion card x ∷ [])))
      (All-append MinionIsSound p.board (fresh_minion card x ∷ []) h.minions_sound (m, tt))

-- The new id is on no board yet, so it stays the only one of its kind.
placed_unique :
    (s : State) (card : Card) (x : String)
    → IsSane s
    → inst_count x s + count_inst x (fresh_minion card (inst_name (s.next_inst_id + 1)) ∷ []) ≤ 1
placed_unique s card x h =
    let y = inst_name (s.next_inst_id + 1) in
    elim (Bool-cases (str_eq x y)) [
      | inl e ↦
          let none_yet : inst_count x s ≡ 0 =
            rw ((eq_iff x y).0 e) (h.inst_fresh (s.next_inst_id + 1) (omega arith)) in
          omega (arith, none_yet, count_fresh_le x y card)
      | inr ne ↦ omega (arith, h.inst_unique x, count_fresh x y card (λ e. cc ((eq_iff x y).1 e)))
    ]

placed_fresh :
    (s : State) (card : Card) (j : ℕ)
    → IsSane s
    → s.next_inst_id + 1 < j
    → inst_count (inst_name j) s
        + count_inst (inst_name j) (fresh_minion card (inst_name (s.next_inst_id + 1)) ∷ [])
      ≡ 0
placed_fresh s card j h lt =
    let ne : inst_name j ≢ inst_name (s.next_inst_id + 1) =
      λ e. absurd (omega (arith, inst_name_inj j (s.next_inst_id + 1) e)) in
    omega (
      arith,
      h.inst_fresh j (omega arith),
      count_fresh (inst_name j) (inst_name (s.next_inst_id + 1)) card ne,
    )

count-placed :
    (x y : String) (p : Player) (card : Card)
    → count_inst x (placed p card y).board
      ≡ count_inst x p.board + count_inst x (fresh_minion card y ∷ [])
unfolding placed
count-placed x y p card = count_inst-append x p.board (fresh_minion card y ∷ [])

place-put :
    (s : State) (i : Seat) (card : Card)
    → place s i card
      ≡ put
          (record s { next_inst_id = s.next_inst_id + 1 })
          i
          (placed (player s i) card (inst_name (s.next_inst_id + 1)))
unfolding place placed
place-put s first card = refl
place-put s second card = refl

place-IsSane :
    (s : State) (i : Seat) (card : Card)
    → IsSane s
    → MinionIsSound (fresh_minion card (inst_name (s.next_inst_id + 1)))
    → length (player s i).board < board_limit
    → IsSane (place s i card)
place-IsSane s first card h m fits =
    let y = inst_name (s.next_inst_id + 1) in
    rw (place-put s first card) (record {
      first_sound = placed-PlayerIsSound s.first_player card y h.first_sound m fits;
      second_sound = h.second_sound;
      ids_differ = unfold placed in h.ids_differ;
      first_named = unfold placed in h.first_named;
      second_named = h.second_named;
      inst_unique =
          λ x. omega (arith, count-placed x y s.first_player card, placed_unique s card x h);
      inst_fresh = λ j lt.
          omega
            (arith, count-placed (inst_name j) y s.first_player card, placed_fresh s card j h lt);
      catalog_valid = h.catalog_valid;
    })
place-IsSane s second card h m fits =
    let y = inst_name (s.next_inst_id + 1) in
    rw (place-put s second card) (record {
      first_sound = h.first_sound;
      second_sound = placed-PlayerIsSound s.second_player card y h.second_sound m fits;
      ids_differ = unfold placed in h.ids_differ;
      first_named = h.first_named;
      second_named = unfold placed in h.second_named;
      inst_unique =
          λ x. omega (arith, count-placed x y s.second_player card, placed_unique s card x h);
      inst_fresh = λ j lt.
          omega
            (arith, count-placed (inst_name j) y s.second_player card, placed_fresh s card j h lt);
      catalog_valid = h.catalog_valid;
    })

-- When `playCard` accepts: the card is in the hand (first at `hi`) and in the catalog, is a minion,
-- can be paid for and has room.
pub record CanPlay (s : State) (i : Seat) (a : Action) (card : Card) (hi : ℕ) : Type 0 where
  pub in_hand : index_of_string (player s i).hand a.card_id ≡ some hi
  pub known : get s.cat a.card_id ≡ some card
  pub is_minion : card.kind ≡ type_minion
  pub affordable : card.cost ≤ℤ (player s i).mana
  pub room : length (player s i).board < board_limit

-- The state after a card is played.
abbrev pub Played : State → Seat → Card → ℕ → State
Played s i card hi = pay (place s i card) i card.cost hi

pub play_card-CanPlay :
    (s : State) (i : Seat) (a : Action) (card : Card) (hi : ℕ)
    → CanPlay s i a card hi
    → play_card s i a ≡ (Played s i card hi, none)
unfolding play_card
play_card-CanPlay s i a card hi h = ground (arith, eq_iff card.kind type_minion)

pub play_card-cases :
    (s : State) (i : Seat) (a : Action)
    → ((c : Code) × (play_card s i a ≡ (s, some c)))
      ⊎ ((card : Card) × (hi : ℕ) × CanPlay s i a card hi)
unfolding play_card
play_card-cases s i a = elim (Option-cases (index_of_string (player s i).hand a.card_id)) [
  | inl absent ↦ inl (card_not_in_hand, ground arith)
  | inr (hi, at) ↦ elim (Option-cases (get s.cat a.card_id)) [
    | inl missing ↦ inl (unknown_card, ground arith)
    | inr (card, e) ↦ elim (Bool-cases (ltb_ℤ (player s i).mana card.cost)) [
      | inl dear ↦ inl (not_enough_mana, ground arith)
      | inr paid ↦ elim (Bool-cases (str_eq card.kind type_minion)) [
        | inr spell ↦ inl (not_implemented, ground arith)
        | inl minion ↦ elim (Bool-cases (leb board_limit (length (player s i).board))) [
          | inl full ↦ inl (board_full, ground arith)
          | inr free ↦ inr (
            card,
            hi,
            record {
              in_hand = at;
              known = e;
              is_minion = (eq_iff card.kind type_minion).0 minion;
              affordable = ground arith;
              room = ground arith;
            },
          )
        ]
      ]
    ]
  ]
]

bounded-IsInt : (z : ℤ) (m : ℕ) → pos 0 ≤ℤ z → z ≤ℤ pos m → m ≤ 10 → IsInt z
bounded-IsInt z m lo hi small = ground arith

paid-PlayerIsSound :
    (p : Player) (cost : ℤ) (hand : List String)
    → PlayerIsSound p
    → pos 0 ≤ℤ cost
    → IsInt cost
    → cost ≤ℤ p.mana
    → PlayerIsSound (record p { mana = sub_int p.mana cost; hand = hand })
paid-PlayerIsSound p cost hand h nonneg int enough =
    let parts =
      sub_int_parts p.mana cost
        (bounded-IsInt p.mana p.max_mana h.mana_nonneg h.mana_le_max h.max_mana_le_limit) int
        h.mana_nonneg nonneg in
    record {
      hp_int = h.hp_int;
      hp_cap = h.hp_cap;
      mana_nonneg = omega (arith, parts, enough);
      mana_le_max = omega (arith, parts, enough, nonneg, h.mana_le_max);
      max_mana_le_limit = h.max_mana_le_limit;
      tired_without_deck = h.tired_without_deck;
      fatigue_le = h.fatigue_le;
      board_le_limit = h.board_le_limit;
      minions_sound = h.minions_sound;
    }

pub mana-place :
    (s : State) (i : Seat) (card : Card) → (player (place s i card) i).mana ≡ (player s i).mana
unfolding place
mana-place s first card = refl
mana-place s second card = refl

place-IsLive :
    (s : State) (i : Seat) (card : Card)
    → IsLive s
    → IsAlive (fresh_minion card (inst_name (s.next_inst_id + 1)))
    → IsLive (place s i card)
unfolding place
place-IsLive s first card l up = record {
  first_alive =
      All-append IsAlive s.first_player.board
        (fresh_minion card (inst_name (s.next_inst_id + 1)) ∷ []) l.first_alive (up, tt);
  second_alive = l.second_alive;
}
place-IsLive s second card l up = record {
  first_alive = l.first_alive;
  second_alive =
      All-append IsAlive s.second_player.board
        (fresh_minion card (inst_name (s.next_inst_id + 1)) ∷ []) l.second_alive (up, tt);
}

place-IsOpen : (s : State) (i : Seat) (card : Card) → IsOpen s → IsOpen (place s i card)
unfolding place
place-IsOpen s first card o = record {
  not_over = o.not_over;
  no_winner = o.no_winner;
  first_up = o.first_up;
  second_up = o.second_up;
}
place-IsOpen s second card o = record {
  not_over = o.not_over;
  no_winner = o.no_winner;
  first_up = o.first_up;
  second_up = o.second_up;
}

-- A card that may be played leaves a sound state.
pub Played-IsSound :
    (s : State) (i : Seat) (a : Action) (card : Card) (hi : ℕ)
    → IsSound s
    → s.over ≡ false
    → CanPlay s i a card hi
    → IsSound (Played s i card hi)
unfolding pay
Played-IsSound s i a card hi h e can =
    let (_, valid, ints) = h.sane.catalog_valid a.card_id card (unfold get in can.known) in
    let (sound, up) =
      fresh_minion_sound card (inst_name (s.next_inst_id + 1)) valid ints can.is_minion in
    let s' = place s i card in
    let p = player s' i in
    let p' : Player = record p { mana = sub_int p.mana card.cost; hand = remove_at hi p.hand } in
    let sane = place-IsSane s i card h.sane sound can.room in
    let live = place-IsLive s i card h.live up in
    let open_still = place-IsOpen s i card (IsJudged-IsOpen s h.judged e) in
    IsOpen-IsSound (put s' i p')
      (put-IsSane s' i p' sane
        (paid-PlayerIsSound p card.cost (remove_at hi p.hand) (sound_at s' i sane) valid.cost_nonneg
          ints.cost_int (rw (mana-place s i card) can.affordable))
        refl (λ x. omega arith))
      (put-IsLive s' i p' live (IsAlive-at s' i live))
      (put-IsOpen s' i p' open_still (up_at s' i open_still))
