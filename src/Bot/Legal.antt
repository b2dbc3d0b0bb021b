-- ===== src/Bot/Legal.antt =====
-- The choices of scripts/bot/strategy.go against the rules of internal/battle.
use pet.Base.{
  ◌≤◌, ◌<◌, ◌≡◌, refl, inl, inr, String, pos, true, false, List, [], ◌∷◌, map, none, some, str_eq,
  ltb, leb_ℤ, length, All, All-append, All-get_elem?, arith, Bool-cases, Option-cases,
}
use text.Mathlib.TextEquality.{eq_iff}
use pet.Deck.{get, type_minion}
use pet.Battle.Model.{Seat, other, Minion, State, Action, player, board_limit}
use pet.Battle.Actions.{Target, face, minion, index_of_string, find_minion, apply}
use pet.Battle.Board.{count_inst}
use pet.Battle.Invariant.{IsSound}
use pet.Battle.Play.{CanPlay, Played}
use pet.Battle.Combat.{CanAttack, Aims, Fought}
use pet.Battle.Legal.{HasTurn, Legal, Legal-apply}
use pet.Battle.Turns.{end_turn}
use pet.Battle.Ending.{index_of-player}
use pet.Battle.View.{view_for}
use pet.Bot.{
  Rng, play_of, attack_of, stop, is_seen, is_playable, plays_from, attacks_from, candidates, pick,
  choose_action,
}
use pet.Bot.Found.{
  get-in_range, IsAt, hand-IsAt, IsFound, found_counted, board-IsFound, absent, inst_count_sides,
}

module _ (s : State) (i : Seat) (h : IsSound s) (going : s.over ≡ false) (on : s.turn ≡ i) where
  -- `Apply` accepts the action from the player at `i`.
  abbrev pub IsAccepted : Action → Type 0
  IsAccepted a = (t : State) × (apply s (player s i).id a ≡ (t, none))

  has_turn : HasTurn s (player s i).id i
  has_turn = record { not_over = going; seated = index_of-player s i h.sane; on_turn = on }

  stop-IsAccepted : IsAccepted stop
  stop-IsAccepted = (
    end_turn s i,
    Legal-apply s (end_turn s i) (player s i).id stop (Legal.ends i has_turn refl refl),
  )

  play_of-IsAccepted :
      (id : String)
      → length (player s i).board < board_limit
      → IsAt 0 (player s i).hand id
      → is_playable (get s.cat id) (player s i).mana ≡ true
      → IsAccepted (play_of id)
  unfolding is_playable
  play_of-IsAccepted id room (hi, at) ok = elim (Option-cases (get s.cat id)) [
    | inl p ↦ ground (arith, p)
    | inr (card, p) ↦
        let t = Played s i card hi in
        let can : CanPlay s i (play_of id) card hi = record {
          in_hand = unfold index_of_string in at;
          known = p;
          is_minion = ground (arith, eq_iff card.kind type_minion);
          affordable = ground arith;
          room = room;
        } in
        (
          t,
          Legal-apply s t (player s i).id (play_of id)
              (Legal.plays i has_turn refl card hi can refl),
        )
  ]

  plays_from-IsAccepted :
      length (player s i).board < board_limit
      → (seen ids : List String) → All (IsAt 0 (player s i).hand) ids
      → All IsAccepted (plays_from s.cat (player s i).mana seen ids)
  unfolding plays_from
  plays_from-IsAccepted room seen [] at = tt
  plays_from-IsAccepted room seen (id ∷ ids) at = elim (Bool-cases (is_seen seen id)) [
    | inl old ↦ rw (old, All) (plays_from-IsAccepted room seen ids at.1)
    | inr new ↦
        let rest = plays_from-IsAccepted room (id ∷ seen) ids at.1 in
        elim (Bool-cases (is_playable (get s.cat id) (player s i).mana)) [
          | inl ok ↦ rw (new, ok, All) (play_of-IsAccepted id room at.0 ok, rest)
          | inr bad ↦ rw (new, bad, All) rest
        ]
  ]

  attack_of-IsAccepted :
      (m : Minion) (target : Target) (text : String)
      → IsFound 0 (player s i).board m
      → m.can_attack ≡ true
      → leb_ℤ m.atk (pos 0) ≡ false
      → Aims s i (attack_of m text) target
      → IsAccepted (attack_of m text)
  attack_of-IsAccepted m target text (k, at) awake armed aim =
      let t = Fought s i m k target in
      let can : CanAttack s i (attack_of m text) m k = record {
        own = unfold find_minion in at;
        awake = awake;
        armed = ground arith;
      } in
      (
        t,
        Legal-apply s t (player s i).id (attack_of m text)
            (Legal.fights i has_turn refl m k target can aim refl),
      )

  attack_of_minion-IsAccepted :
      (m : Minion)
      → IsFound 0 (player s i).board m
      → m.can_attack ≡ true
      → leb_ℤ m.atk (pos 0) ≡ false
      → (o : Minion) → IsFound 0 (player s (other i)).board o
      → IsAccepted (attack_of m o.inst_id)
  attack_of_minion-IsAccepted m at awake armed o (d, found) =
      elim (Bool-cases (str_eq o.inst_id "face")) [
        | inl named_face ↦
            attack_of-IsAccepted m face o.inst_id at awake armed
              ((eq_iff o.inst_id "face").0 named_face)
        | inr named ↦
            let not_own = absent 0 (player s i).board o.inst_id (
              omega (
                arith,
                h.sane.inst_unique o.inst_id,
                inst_count_sides s i o.inst_id,
                found_counted 0 (player s (other i)).board o.inst_id o d found,
              )) in
            attack_of-IsAccepted m (minion o d) o.inst_id at awake armed (
              (λ e. cc (named, (eq_iff o.inst_id "face").1 e)),
              (unfold find_minion in not_own),
              (unfold find_minion in found),
            )
      ]

  map-IsAccepted :
      (m : Minion)
      → IsFound 0 (player s i).board m
      → m.can_attack ≡ true
      → leb_ℤ m.atk (pos 0) ≡ false
      → (os : List Minion) → All (IsFound 0 (player s (other i)).board) os
      → All IsAccepted (map (λ (o : Minion). attack_of m o.inst_id) os)
  map-IsAccepted m at awake armed [] h = tt
  map-IsAccepted m at awake armed (o ∷ os) h =
      (attack_of_minion-IsAccepted m at awake armed o h.0, map-IsAccepted m at awake armed os h.1)

  attacks_from-IsAccepted :
      (os ms : List Minion)
      → All (IsFound 0 (player s (other i)).board) os
      → All (IsFound 0 (player s i).board) ms
      → All IsAccepted (attacks_from os ms)
  unfolding attacks_from
  attacks_from-IsAccepted os [] theirs mine = tt
  attacks_from-IsAccepted os (m ∷ ms) theirs mine =
      let rest = attacks_from-IsAccepted os ms theirs mine.1 in
      elim (Bool-cases m.can_attack) [
        | inr asleep ↦ rw asleep rest
        | inl awake ↦ elim (Bool-cases (leb_ℤ m.atk (pos 0))) [
          | inl unarmed ↦ rw (awake, unarmed) rest
          | inr armed ↦
              rw (awake, armed)
                (
                  attack_of-IsAccepted m face "face" mine.0 awake armed refl,
                  All-append IsAccepted (map (λ (o : Minion). attack_of m o.inst_id) os)
                      (attacks_from os ms) (map-IsAccepted m mine.0 awake armed os theirs) rest,
                )
        ]
      ]

  side-once : (j : Seat) (x : String) → count_inst x (player s j).board ≤ 1
  side-once j x = omega (arith, h.sane.inst_unique x, inst_count_sides s j x)

  pub candidates-IsAccepted : All IsAccepted (candidates (view_for s i) s.cat)
  unfolding candidates view_for
  candidates-IsAccepted =
      let me = player s i in
      let fights =
        attacks_from-IsAccepted (player s (other i)).board me.board
          (board-IsFound 0 (player s (other i)).board (side-once (other i)))
          (board-IsFound 0 me.board (side-once i)) in
      elim (Bool-cases (ltb (length me.board) board_limit)) [
        | inl room ↦ rw room (
            All-append IsAccepted (plays_from s.cat me.mana [] me.hand)
              (attacks_from (player s (other i)).board me.board)
              (plays_from-IsAccepted (ground arith) [] me.hand (hand-IsAt 0 me.hand)) fights)
        | inr full ↦ rw full fights
      ]

  pick-IsAccepted :
      (R : Rng) (cands : List Action) (rng : R.Source)
      → All IsAccepted cands
      → (a : Action) × ((pick R cands rng).0 ≡ some a) × IsAccepted a
  unfolding pick
  pick-IsAccepted R [] rng h = (stop, refl, stop-IsAccepted)
  pick-IsAccepted R (c ∷ cands) rng h =
      let k = (R.intn rng (length (c ∷ cands))).0 in
      let (a, e) = get-in_range (c ∷ cands) k (R.in_range rng (length (c ∷ cands)) (omega arith)) in
      (a, e, All-get_elem? IsAccepted (c ∷ cands) k h e)

-- In a game that satisfies the invariant and is not over, `chooseAction`, given the view of the
-- player on turn and the game's card table, chooses an action, and `Apply` accepts it from this
-- player.
pub choose_action-accepted :
    (R : Rng) (s : State) (i : Seat) (rng : R.Source)
    → IsSound s
    → s.over ≡ false
    → s.turn ≡ i
    → (a : Action) × (t : State) × ((choose_action R (view_for s i) s.cat rng).0 ≡ some a)
      × (apply s (player s i).id a ≡ (t, none))
unfolding choose_action
choose_action-accepted R s i rng h going on =
    let (a, e, (t, p)) =
      pick-IsAccepted s i h going on R (candidates (view_for s i) s.cat) rng
        (candidates-IsAccepted s i h going on) in
    (a, t, e, p)
