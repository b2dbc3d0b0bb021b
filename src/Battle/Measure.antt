-- ===== src/Battle/Measure.antt =====
-- A game of internal/battle cannot go on for ever: each accepted action uses something up.
use pet.Base.{
  ℕ, zero, suc, ◌+◌, ◌-◌, ◌*◌, ◌≤◌, ◌<◌, ◌≡◌, refl, ap, inl, inr, String, ℤ, pos, ◌<ℤ◌, true, false,
  List, [], ◌∷◌, ◌++◌, some, none, map, arith, set, get_elem?, length, length-append, if◌then◌else◌,
  sub_int,
}
use pet.Deck.{Card}
use pet.Battle.Model.{Seat, first, second, other, Minion, Player, State, Action, player, put}
use pet.Battle.Turns.{refill, tire, wake, wake_all, end_turn, inst_name}
use pet.Battle.Actions.{Target, face, minion, refused, strike, bury, remove_at, fresh_minion, apply}
use pet.Battle.Board.{living, bury-living, find_minion-get_elem?}
use pet.Battle.Invariant.{PlayerIsSound, IsSound}
use pet.Battle.Players.{fatigue-le, sound_at}
use pet.Battle.Steps.{IsJudged-IsOpen, up_at, List-cases}
use pet.Battle.Cards.{index_of_string-get_elem?, length-remove_at}
use pet.Battle.Play.{CanPlay, Played}
use pet.Battle.Combat.{CanAttack, Aims, Fought}
use pet.Battle.Legal.{Legal, apply-Legal_iff}
use pet.Battle.Effects.{
  turned, end_turn-player, end_turn-other, Played-player, Played-other, Fought-player,
}

-- The minions that may still attack.
unfoldable pub awake : List Minion → ℕ
awake [] = 0
awake (m ∷ ms) = (if m.can_attack then 1 else 0) + awake ms

-- The turns that a player can begin and survive: one for each card of the deck, and six of fatigue.
unfoldable pub turns_in : Player → ℕ
turns_in p = length p.deck + (6 - p.fatigue)

unfoldable pub load : Player → ℕ
load p = 7 * turns_in p + awake p.board + length p.hand

unfoldable pub measure : State → ℕ
measure s = load s.first_player + load s.second_player

unfoldable pub turns_left : State → ℕ
turns_left s = turns_in s.first_player + turns_in s.second_player

awake-wake : (ms : List Minion) → awake (map wake ms) ≡ length ms
unfolding awake wake
awake-wake [] = refl
awake-wake (m ∷ ms) = omega (arith, awake-wake ms)

awake-living : (ms : List Minion) → awake (living ms) ≤ awake ms
unfolding awake living
awake-living [] = omega arith
awake-living (m ∷ ms) = ground (arith, awake-living ms)

awake-set :
    (ms : List Minion) (k : ℕ) (m v : Minion)
    → get_elem? ms k ≡ some m
    → v.can_attack ≡ m.can_attack
    → awake (set ms k v) ≡ awake ms
unfolding awake
awake-set [] k m v e same = refl
awake-set (n ∷ ms) zero m v e same = ground arith
awake-set (n ∷ ms) (suc k) m v e same = omega (arith, awake-set ms k m v e same)

awake-set_asleep :
    (ms : List Minion) (k : ℕ) (m v : Minion)
    → get_elem? ms k ≡ some m
    → m.can_attack ≡ true
    → v.can_attack ≡ false
    → awake (set ms k v) + 1 ≡ awake ms
unfolding awake
awake-set_asleep [] k m v e up down = cc
awake-set_asleep (n ∷ ms) zero m v e up down = ground arith
awake-set_asleep (n ∷ ms) (suc k) m v e up down = omega (arith, awake-set_asleep ms k m v e up down)

awake-append_fresh :
    (ms : List Minion) (card : Card) (x : String)
    → awake (ms ++ fresh_minion card x ∷ []) ≡ awake ms
unfolding awake fresh_minion
awake-append_fresh [] card x = refl
awake-append_fresh (m ∷ ms) card x = omega (arith, awake-append_fresh ms card x)

-- A new turn uses up one of the turns that were left.
pub turned-turns_in : (p : Player) → p.fatigue ≤ 5 → turns_in (turned p) + 1 ≡ turns_in p
unfolding turned turns_in refill tire wake_all
turned-turns_in p few = ground arith

hand-turned : (p : Player) → length (turned p).hand ≤ length p.hand + 1
unfolding turned refill tire wake_all
hand-turned p = elim (List-cases p.deck) [
  | inl e ↦ ground arith
  | inr (c, r, e) ↦ ground (arith, length-append p.hand (c ∷ []))
]

board-turned : (p : Player) → (turned p).board ≡ map wake p.board
unfolding turned refill tire wake_all
board-turned p = ground arith

pub load-turned : (p : Player) → PlayerIsSound p → pos 0 <ℤ p.hp → load (turned p) < load p
unfolding load
load-turned p h up =
    let b : awake (turned p).board ≡ length p.board = rw (board-turned p) (awake-wake p.board) in
    omega (arith, turned-turns_in p (fatigue-le p h up), hand-turned p, b, h.board_le_limit)

load-bury : (p : Player) → load (bury p) ≤ load p
unfolding load turns_in
load-bury p = rw (bury-living p) (omega (arith, awake-living p.board))

-- The measure of two players, whoever is named first.
pub measure-seats :
    (s : State) (i : Seat) → measure s ≡ load (player s i) + load (player s (other i))
unfolding measure
measure-seats s first = refl
measure-seats s second = omega arith

end_turn-measure :
    (s : State) (i : Seat) → IsSound s → s.over ≡ false → measure (end_turn s i) < measure s
end_turn-measure s i h e =
    let p = player s (other i) in
    let up = up_at s (other i) (IsJudged-IsOpen s h.judged e) in
    omega (
      arith,
      measure-seats s i,
      measure-seats (end_turn s i) i,
      ap load (end_turn-player s i),
      ap load (end_turn-other s i),
      load-turned p (sound_at s (other i) h.sane) up,
    )

load-played :
    (p : Player) (mana : ℤ) (hi : ℕ) (card : Card) (x c : String)
    → get_elem? p.hand hi ≡ some c
    → load (record p {
      mana = mana;
      hand = remove_at hi p.hand;
      board = p.board ++ fresh_minion card x ∷ [];
    })
        + 1
      ≡ load p
unfolding load turns_in
load-played p mana hi card x c e =
    omega (arith, length-remove_at p.hand hi c e, awake-append_fresh p.board card x)

Played-measure :
    (s : State) (i : Seat) (a : Action) (card : Card) (hi : ℕ)
    → CanPlay s i a card hi
    → measure (Played s i card hi) < measure s
Played-measure s i a card hi can =
    let p = player s i in
    omega (
      arith,
      measure-seats s i,
      measure-seats (Played s i card hi) i,
      ap load (Played-player s i card hi),
      ap load (Played-other s i card hi),
      load-played p (sub_int p.mana card.cost) hi card (inst_name (s.next_inst_id + 1)) a.card_id
          (index_of_string-get_elem? p.hand a.card_id hi can.in_hand),
    )

load-board :
    (p : Player) (ms : List Minion)
    → load (record p { board = ms }) + awake p.board ≡ load p + awake ms
unfolding load turns_in
load-board p ms = omega arith

load-hp : (p : Player) (hp : ℤ) → load (record p { hp = hp }) ≡ load p
unfolding load turns_in
load-hp p hp = refl

measure-put :
    (s : State) (i : Seat) (q p : Player) → measure (put (put s (other i) q) i p) ≡ load p + load q
unfolding measure
measure-put s first q p = refl
measure-put s second q p = omega arith

-- A blow puts the attacker to sleep.
strike-measure :
    (s : State) (i : Seat) (a : Action) (m : Minion) (k : ℕ) (t : Target)
    → CanAttack s i a m k
    → Aims s i a t
    → measure (strike s i m k t).0 < measure s
unfolding strike
strike-measure s i a m k (refused c) can aim = absurd aim
strike-measure s i a m k face can aim =
    let me = player s i in
    let q = player s (other i) in
    let v : Minion = record m { can_attack = false } in
    let (at, _) = find_minion-get_elem? me a.inst_id can.own in
    omega (
      arith,
      measure-seats s i,
      load-hp q (sub_int q.hp m.atk),
      measure-put s i (record q { hp = sub_int q.hp m.atk })
          (record me { board = set me.board k v }),
      load-board me (set me.board k v),
      awake-set_asleep me.board k m v at can.awake refl,
    )
strike-measure s i a m k (minion def d) can (_, _, found) =
    let me = player s i in
    let q = player s (other i) in
    let v : Minion = record m { hp = sub_int m.hp def.atk; can_attack = false } in
    let w : Minion = record def { hp = sub_int def.hp m.atk } in
    let (at, _) = find_minion-get_elem? me a.inst_id can.own in
    let (at_def, _) = find_minion-get_elem? q a.target found in
    omega (
      arith,
      measure-seats s i,
      measure-put s i (record q { board = set q.board d w })
          (record me { board = set me.board k v }),
      load-board me (set me.board k v),
      load-board q (set q.board d w),
      awake-set_asleep me.board k m v at can.awake refl,
      awake-set q.board d def w at_def refl,
    )

Fought-measure :
    (s : State) (i : Seat) (a : Action) (m : Minion) (k : ℕ) (t : Target)
    → CanAttack s i a m k
    → Aims s i a t
    → measure (Fought s i m k t) < measure s
Fought-measure s i a m k t can aim =
    let s' = (strike s i m k t).0 in
    omega (
      arith,
      strike-measure s i a m k t can aim,
      measure-seats s' first,
      measure-seats (Fought s i m k t) first,
      ap load (Fought-player s i first m k t),
      ap load (Fought-player s i second m k t),
      load-bury (player s' first),
      load-bury (player s' second),
    )

-- In a game that satisfies the invariant, every action that `Apply` accepts makes the measure of
-- the game smaller: cards, turns that are left and minions that may still attack.
pub apply-measure :
    (s t : State) (player_id : String) (a : Action)
    → IsSound s
    → apply s player_id a ≡ (t, none)
    → measure t < measure s
apply-measure s t player_id a h e = go ((apply-Legal_iff s t player_id a).0 e)
  where
    go : Legal s player_id a t → measure t < measure s
    go (Legal.plays i turn k card hi can e') = rw e' (Played-measure s i a card hi can)
    go (Legal.fights i turn k m n target can aim e') =
        rw e' (Fought-measure s i a m n target can aim)
    go (Legal.ends i turn k e') = rw e' (end_turn-measure s i h turn.not_over)
