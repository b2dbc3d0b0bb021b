-- ===== src/Battle/Ending.antt =====
-- How long a game of internal/battle can last, and that the turn timer alone ends it.
use pet.Base.{
  ℕ, zero, suc, ◌+◌, ◌*◌, ◌≤◌, ◌<◌, ◌≡◌, refl, sym, ap, subst, ◌∙◌, inl, inr, String, ℤ, true,
  false, List, [], ◌∷◌, ◌++◌, some, none, arith, length, length-append, length-set, get_elem?, set,
  Bool-cases, Option-cases,
}
use text.Mathlib.TextEquality.{eq_iff}
use pet.Deck.{Catalog, IsValidCatalog}
use pet.Battle.Model.{
  Seat, first, second, other, Player, State, Action, Outcome, player, put, end_turn_kind,
  hand_start,
}
use pet.Battle.Turns.{index_of, end_turn, draw, begin_turn}
use pet.Battle.Setup.{
  PlayerInit, Rand, ready, new_state, swap, swap_all, shuffle, seated, seat_players, open_game,
  deal,
}
use pet.Battle.Actions.{apply}
use pet.Battle.Invariant.{IsSane, IsSound}
use pet.Battle.Players.{fatigue-le, sound_at}
use pet.Battle.Steps.{IsJudged-IsOpen, up_at, List-cases, draw-empty, draw-cons}
use pet.Battle.Effects.{end_turn-player, end_turn-other, begin_turn-player, begin_turn-other}
use pet.Battle.Legal.{Legal, Legal-apply, apply-IsSound}
use pet.Battle.Measure.{
  awake, turns_in, turns_left, load, load-turned, measure, measure-seats, turned-turns_in,
}
use pet.Battle.Opening.{
  CanOpen, ready_inj, CanOpen-new_state, new_state-CanOpen, open_game-IsSound, deal-IsReady,
  seat_players-IsReady,
}
use pet.Battle.History.{live, length-accepted}
use pet.Battle.Replay.{Step, OnStep}

abbrev pub end_turn_action : Action
end_turn_action = record { kind = end_turn_kind; card_id = ""; inst_id = ""; target = "" }

-- What the room does when the turn timer fires: the player on turn ends it.
unfoldable pub time_out : State → Outcome
time_out s = apply s (player s s.turn).id end_turn_action

pub index_of-player : (s : State) (i : Seat) → IsSane s → index_of s (player s i).id ≡ some i
unfolding index_of
index_of-player s first h = ground (arith, eq_iff s.first_player.id s.first_player.id)
index_of-player s second h = ground (
  arith,
  eq_iff s.first_player.id s.second_player.id,
  eq_iff s.second_player.id s.second_player.id,
  h.ids_differ,
)

-- In a game that satisfies the invariant and is not over, the `end_turn` that the timer sends for
-- the player on turn is accepted and ends the turn.
pub time_out_accepted :
    (s : State) → IsSound s → s.over ≡ false → time_out s ≡ (end_turn s s.turn, none)
unfolding time_out
time_out_accepted s h e = Legal-apply s (end_turn s s.turn) (player s s.turn).id end_turn_action (
    Legal.ends s.turn
      (record { not_over = e; seated = index_of-player s s.turn h.sane; on_turn = refl }) refl refl)

turns_left-seats :
    (s : State) (i : Seat) → turns_left s ≡ turns_in (player s i) + turns_in (player s (other i))
unfolding turns_left
turns_left-seats s first = refl
turns_left-seats s second = omega arith

end_turn-turns_left :
    (s : State) (i : Seat)
    → IsSound s
    → s.over ≡ false
    → turns_left (end_turn s i) + 1 ≡ turns_left s
end_turn-turns_left s i h e =
    let few =
      fatigue-le (player s (other i)) (sound_at s (other i) h.sane)
        (up_at s (other i) (IsJudged-IsOpen s h.judged e)) in
    omega (
      arith,
      turns_left-seats s i,
      turns_left-seats (end_turn s i) i,
      ap turns_in (end_turn-player s i),
      ap turns_in (end_turn-other s i),
      turned-turns_in (player s (other i)) few,
    )

-- `n` turns in a row run out.
unfoldable pub time_outs : ℕ → State → State
time_outs zero s = s
time_outs (suc n) s = time_outs n (time_out s).0

over-turns_left : (s : State) → IsSound s → turns_left s ≡ 0 → s.over ≡ true
over-turns_left s h e = elim (Bool-cases s.over) [
  | inl done ↦ done
  | inr going ↦
      let few =
        fatigue-le s.first_player h.sane.first_sound
          (up_at s first (IsJudged-IsOpen s h.judged going)) in
      absurd (unfold turns_left turns_in in omega arith)
]

time_out-over : (s : State) → s.over ≡ true → (time_out s).0 ≡ s
unfolding time_out apply
time_out-over s e = ground arith

over_stays : (n : ℕ) (s : State) → s.over ≡ true → (time_outs n s).over ≡ true
unfolding time_outs
over_stays zero s e = e
over_stays (suc n) s e = ap (λ t. (time_outs n t).over) (time_out-over s e) ∙ over_stays n s e

-- In a game that satisfies the invariant, if nobody moves any more, the timer's `end_turn` ends
-- the game within the number of turns that the decks and the fatigue leave.
pub time_outs-over :
    (n : ℕ) (s : State) → IsSound s → turns_left s ≤ n → (time_outs n s).over ≡ true
unfolding time_outs
time_outs-over zero s h le = over-turns_left s h (omega arith)
time_outs-over (suc n) s h le = elim (Bool-cases s.over) [
  | inl done ↦ ap (λ t. (time_outs n t).over) (time_out-over s done) ∙ over_stays n s done
  | inr going ↦
      let e = time_out_accepted s h going in
      ap (λ (r : Outcome). (time_outs n r.0).over) e
      ∙ time_outs-over n (end_turn s s.turn)
          (subst (λ (r : Outcome). IsSound r.0) e
            (unfold time_out in apply-IsSound s (player s s.turn).id end_turn_action h))
          (omega (arith, end_turn-turns_left s s.turn h going))
]

load-drawn :
    (p : Player) (c : String) (r : List String)
    → p.deck ≡ c ∷ r
    → load (record p { deck = r; hand = p.hand ++ c ∷ [] }) ≤ load p
unfolding load turns_in
load-drawn p c r e = ground (arith, length-append p.hand (c ∷ []))

measure-put_one :
    (s : State) (i : Seat) (p : Player) → measure (put s i p) ≡ load p + load (player s (other i))
unfolding measure
measure-put_one s first p = refl
measure-put_one s second p = omega arith

measure-draw : (s : State) (i : Seat) → measure (draw s i).0 ≤ measure s
measure-draw s i = elim (List-cases (player s i).deck) [
  | inl e ↦ rw (draw-empty s i e) (omega arith)
  | inr (c, r, e) ↦
      let p = player s i in
      rw (draw-cons s i e) (
        omega (
          arith,
          load-drawn p c r e,
          measure-seats s i,
          measure-put_one s i (record p { deck = r; hand = p.hand ++ c ∷ [] }),
        ))
]

measure-deal : (n : ℕ) (s : State) → measure (deal n s) ≤ measure s
unfolding deal
measure-deal zero s = omega arith
measure-deal (suc n) s =
    let s' = (draw s first).0 in
    omega (arith, measure-draw s first, measure-draw s' second, measure-deal n (draw s' second).0)

length-swap : (i j : ℕ) (d : List String) → length (swap i j d) ≡ length d
unfolding swap
length-swap i j d = elim (Option-cases (get_elem? d i)) [
  | inl out ↦ ground arith
  | inr (x, e) ↦ elim (Option-cases (get_elem? d j)) [
    | inl out ↦ ground arith
    | inr (y, f) ↦ ground (arith, length-set d i y, length-set (set d i y) j x)
  ]
]

length-swap_all : (swaps : List (ℕ × ℕ)) (d : List String) → length (swap_all swaps d) ≡ length d
unfolding swap_all
length-swap_all [] d = refl
length-swap_all ((i, j) ∷ swaps) d = length-swap_all swaps (swap i j d) ∙ length-swap i j d

load-seated : (id : String) (deck : List String) → load (seated id deck) ≡ 7 * (length deck + 6)
unfolding load turns_in awake seated
load-seated id deck = omega arith

module _ (R : Rand) (room_id : String) (cat : Catalog) (a b : PlayerInit) (seed : ℤ) where
  measure-seat_players :
      measure (seat_players R room_id cat a b seed) ≡ 7 * (length a.cards + length b.cards + 12)
  unfolding measure seat_players shuffle
  measure-seat_players =
      let (swaps, r) = R.shuffle_swaps (R.new_source seed) (length a.cards) in
      let (swaps', _) = R.shuffle_swaps r (length b.cards) in
      omega (
        arith,
        load-seated a.id (swap_all swaps a.cards),
        load-seated b.id (swap_all swaps' b.cards),
        length-swap_all swaps a.cards,
        length-swap_all swaps' b.cards,
      )

  measure-open_game :
      CanOpen a b
      → IsValidCatalog cat
      → measure (open_game (seat_players R room_id cat a b seed))
        < 7 * (length a.cards + length b.cards + 12)
  unfolding open_game
  measure-open_game can valid =
      let s = seat_players R room_id cat a b seed in
      let t = deal hand_start s in
      let r = deal-IsReady hand_start s (seat_players-IsReady R room_id cat a b seed can valid) in
      omega (
        arith,
        measure-seat_players,
        measure-deal hand_start s,
        measure-seats t first,
        measure-seats (begin_turn t first) first,
        ap load (begin_turn-player t first),
        ap load (begin_turn-other t first),
        load-turned t.first_player r.sane.first_sound r.going.first_up,
      )

  -- However many actions are sent, a game opened from a valid catalog with decks of n and m cards
  -- accepts fewer than 7 (n + m + 12) of them.
  pub length-accepted_of_new :
      {T : Type 0} (on_step : OnStep T) (acc : T) (s : State) (sts : List Step)
      → IsValidCatalog cat
      → new_state R room_id (some cat) a b seed ≡ ready s
      → length (live on_step 0 s sts acc).accepted < 7 * (length a.cards + length b.cards + 12)
  length-accepted_of_new on_step acc s sts valid e =
      let can = CanOpen-new_state R room_id cat a b seed e in
      let g = open_game (seat_players R room_id cat a b seed) in
      let opened : s ≡ g = ready_inj e (new_state-CanOpen R room_id cat a b seed can) in
      subst
        (λ t.
          length (live on_step 0 t sts acc).accepted < 7 * (length a.cards + length b.cards + 12))
        (sym opened)
        (omega (
          arith,
          measure-open_game can valid,
          length-accepted on_step 0 g sts acc (open_game-IsSound R room_id cat a b seed can valid),
        ))
