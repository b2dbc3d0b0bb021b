-- ===== src/Bot/Eager.antt =====
-- The bot of scripts/bot/strategy.go does not end a turn in which it can do something else.
use pet.Base.{
  ℕ, ◌+◌, ◌≡◌, ◌≢◌, refl, sym, subst, ◌∙◌, inl, inr, String, ℤ, pos, true, false, not, ◌||◌, List,
  [], ◌∷◌, ◌++◌, map, none, some, some-injective, lt→ltb, if◌then◌else◌, str_eq, ltb, leb_ℤ, length,
  All, All-append, All-get_elem?, arith, Bool-cases,
}
use text.Mathlib.TextEquality.{eq_iff}
use pet.Deck.{Card, Catalog, get, type_minion}
use pet.Battle.Model.{
  Seat, other, Minion, State, Action, player, board_limit, play_card_kind, attack_kind,
  end_turn_kind,
}
use pet.Battle.Actions.{index_from, index_of_string, minion_from, find_minion, apply}
use pet.Battle.Invariant.{IsSane, IsSound}
use pet.Battle.Play.{CanPlay}
use pet.Battle.Combat.{CanAttack}
use pet.Battle.Legal.{HasTurn, Legal, apply-Legal_iff}
use pet.Battle.Ending.{index_of-player}
use pet.Battle.View.{view_for}
use pet.Bot.{
  Rng, play_of, attack_of, is_seen, is_playable, plays_from, attacks_from, candidates, pick,
  choose_action,
}

-- The action does more than to end the turn.
abbrev Acts : Action → Type 0
Acts a = a.kind ≢ end_turn_kind

play_of-Acts : (id : String) → Acts (play_of id)
play_of-Acts id e = ground (arith, (eq_iff play_card_kind end_turn_kind).1 e)

attack_of-Acts : (m : Minion) (target : String) → Acts (attack_of m target)
attack_of-Acts m target e = ground (arith, (eq_iff attack_kind end_turn_kind).1 e)

plays_from-Acts :
    (cat : Catalog) (mana : ℤ) (seen hand : List String) → All Acts (plays_from cat mana seen hand)
unfolding plays_from
plays_from-Acts cat mana seen [] = tt
plays_from-Acts cat mana seen (id ∷ hand) = elim (Bool-cases (is_seen seen id)) [
  | inl old ↦ rw (old, All) (plays_from-Acts cat mana seen hand)
  | inr new ↦ elim (Bool-cases (is_playable (get cat id) mana)) [
    | inl ok ↦ rw (new, ok, All) (play_of-Acts id, plays_from-Acts cat mana (id ∷ seen) hand)
    | inr bad ↦ rw (new, bad, All) (plays_from-Acts cat mana (id ∷ seen) hand)
  ]
]

map-Acts :
    (m : Minion) (os : List Minion) → All Acts (map (λ (o : Minion). attack_of m o.inst_id) os)
map-Acts m [] = tt
map-Acts m (o ∷ os) = (attack_of-Acts m o.inst_id, map-Acts m os)

attacks_from-Acts : (os ms : List Minion) → All Acts (attacks_from os ms)
unfolding attacks_from
attacks_from-Acts os [] = tt
attacks_from-Acts os (m ∷ ms) = elim (Bool-cases (not m.can_attack || leb_ℤ m.atk (pos 0))) [
  | inl idle ↦ rw (idle, All) (attacks_from-Acts os ms)
  | inr ready ↦
      rw (ready, All)
        (
          attack_of-Acts m "face",
          All-append Acts (map (λ (o : Minion). attack_of m o.inst_id) os) (attacks_from os ms)
              (map-Acts m os) (attacks_from-Acts os ms),
        )
]

candidates-Acts : (s : State) (i : Seat) → All Acts (candidates (view_for s i) s.cat)
unfolding candidates view_for
candidates-Acts s i =
    let me = player s i in
    let fights = attacks_from-Acts (player s (other i)).board me.board in
    elim (Bool-cases (ltb (length me.board) board_limit)) [
      | inl room ↦ rw room (
          All-append Acts (plays_from s.cat me.mana [] me.hand)
            (attacks_from (player s (other i)).board me.board)
            (plays_from-Acts s.cat me.mana [] me.hand) fights)
      | inr full ↦ rw full fights
    ]

-- A card in the hand that can be played, and that the loop has not passed, leaves a candidate.
plays_some :
    (cat : Catalog) (mana : ℤ) (k : ℕ) (seen hand : List String) (id : String) (hi : ℕ)
    → index_from k hand id ≡ some hi
    → is_seen seen id ≡ false
    → is_playable (get cat id) mana ≡ true
    → plays_from cat mana seen hand ≢ []
unfolding plays_from index_from is_seen
plays_some cat mana k seen [] id hi at new ok e = cc
plays_some cat mana k seen (x ∷ hand) id hi at new ok e = elim (Bool-cases (str_eq x id)) [
  | inl hit ↦ ground (arith, eq_iff x id)
  | inr miss ↦ elim (Bool-cases (is_seen seen x)) [
    | inl old ↦ ground (arith, plays_some cat mana (k + 1) seen hand id hi)
    | inr unseen ↦ ground (arith, plays_some cat mana (k + 1) (x ∷ seen) hand id hi)
  ]
]

attacks_some :
    (k : ℕ) (os ms : List Minion) (id : String) (m : Minion) (j : ℕ)
    → minion_from k ms id ≡ some (m, j)
    → m.can_attack ≡ true
    → leb_ℤ m.atk (pos 0) ≡ false
    → attacks_from os ms ≢ []
unfolding attacks_from minion_from
attacks_some k os [] id m j at awake armed e = cc
attacks_some k os (n ∷ ms) id m j at awake armed e = elim (Bool-cases (str_eq n.inst_id id)) [
  | inl hit ↦ ground arith
  | inr miss ↦ ground (arith, attacks_some (k + 1) os ms id m j)
]

append_empty : (xs ys : List Action) → xs ++ ys ≡ [] → (xs ≡ []) × (ys ≡ [])
append_empty [] ys e = (refl, e)
append_empty (x ∷ xs) ys e = cc

playable_card :
    (card : Card) (mana : ℤ)
    → card.kind ≡ type_minion
    → leb_ℤ card.cost mana ≡ true
    → is_playable (some card) mana ≡ true
unfolding is_playable
playable_card card mana e l = ground (arith, eq_iff card.kind type_minion)

same_seat : (s : State) (i j : Seat) (a : Action) → IsSane s → HasTurn s (player s i).id j → j ≡ i
same_seat s i j a h turn = some-injective j i (sym turn.seated ∙ index_of-player s i h)

idle_attacks :
    (s : State) (i : Seat) (a : Action) (m : Minion) (k : ℕ)
    → attacks_from (player s (other i)).board (player s i).board ≡ []
    → CanAttack s i a m k
    → ⊥
unfolding find_minion
idle_attacks s i a m k e can =
    attacks_some 0 (player s (other i)).board (player s i).board a.inst_id m k can.own can.awake
      (ground (arith, can.armed)) e

idle_plays :
    (s : State) (i : Seat) (a : Action) (card : Card) (hi : ℕ)
    → (if ltb (length (player s i).board) board_limit
        then plays_from s.cat (player s i).mana [] (player s i).hand
        else [])
      ≡ []
    → CanPlay s i a card hi
    → ⊥
unfolding index_of_string is_seen
idle_plays s i a card hi e can =
    let ok = playable_card card (player s i).mana can.is_minion (ground (arith, can.affordable)) in
    let room = lt→ltb (length (player s i).board) board_limit can.room in
    let idle : plays_from s.cat (player s i).mana [] (player s i).hand ≡ [] =
      ground (arith, room, e) in
    plays_some s.cat (player s i).mana 0 [] (player s i).hand a.card_id hi can.in_hand refl
      (rw can.known ok) idle

-- With no candidate there is nothing else to do.
idle_ends :
    (s t : State) (i : Seat) (a : Action)
    → IsSane s
    → candidates (view_for s i) s.cat ≡ []
    → Legal s (player s i).id a t
    → a.kind ≡ end_turn_kind
unfolding candidates view_for
idle_ends s t i a h e (Legal.ends j turn k same) = k
idle_ends s t i a h e (Legal.fights j turn kind attacker k target can aim same) =
    let none_left =
      append_empty
        (if ltb (length (player s i).board) board_limit
          then plays_from s.cat (player s i).mana [] (player s i).hand
          else [])
        (attacks_from (player s (other i)).board (player s i).board) e in
    absurd (
      idle_attacks s i a attacker k none_left.1
        (subst (λ x. CanAttack s x a attacker k) (same_seat s i j a h turn) can))
idle_ends s t i a h e (Legal.plays j turn kind card hi can same) =
    let none_left =
      append_empty
        (if ltb (length (player s i).board) board_limit
          then plays_from s.cat (player s i).mana [] (player s i).hand
          else [])
        (attacks_from (player s (other i)).board (player s i).board) e in
    absurd (
      idle_plays s i a card hi none_left.0
        (subst (λ x. CanPlay s x a card hi) (same_seat s i j a h turn) can))

pick-Acts :
    (R : Rng) (cands : List Action) (rng : R.Source) (a : Action)
    → All Acts cands
    → (pick R cands rng).0 ≡ some a
    → a.kind ≡ end_turn_kind
    → cands ≡ []
unfolding pick
pick-Acts R [] rng a h e k = refl
pick-Acts R (c ∷ cands) rng a h e k =
    absurd (All-get_elem? Acts (c ∷ cands) (R.intn rng (length (c ∷ cands))).0 h e k)

-- In a game that satisfies the invariant, if `chooseAction` chooses `end_turn` from a player's
-- view and the game's card table, then `Apply` accepts nothing but `end_turn` from this player.
pub choose_action-ends :
    (R : Rng) (s t : State) (i : Seat) (rng : R.Source) (a b : Action)
    → IsSound s
    → (choose_action R (view_for s i) s.cat rng).0 ≡ some a
    → a.kind ≡ end_turn_kind
    → apply s (player s i).id b ≡ (t, none)
    → b.kind ≡ end_turn_kind
unfolding choose_action
choose_action-ends R s t i rng a b h chosen k ok =
    let idle = pick-Acts R (candidates (view_for s i) s.cat) rng a (candidates-Acts s i) chosen k in
    idle_ends s t i b h.sane idle ((apply-Legal_iff s t (player s i).id b).0 ok)
