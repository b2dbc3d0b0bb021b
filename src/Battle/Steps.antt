-- ===== src/Battle/Steps.antt =====
-- The invariant through `checkOver`, `Draw`, `beginTurn` and `removeDead` of internal/battle.
use pet.Base.{
  ℕ, ◌+◌, ◌≤◌, ◌≡◌, refl, ◌∙◌, ◌⊎◌, inl, inr, String, pos, ◌<ℤ◌, Bool, true, false, List, [], ◌∷◌,
  ◌++◌, some, none, if◌then◌else◌, All, arith,
}
use pet.Battle.Model.{Seat, first, second, other, Player, State, player, put}
use pet.Battle.Turns.{
  refill, tire, wake_all, draw, check_over, decide_over, after_draw, begin_turn, end_turn, is_dead,
}
use pet.Battle.Actions.{bury, remove_dead}
use pet.Battle.Board.{
  IsAlive, count_inst, bury-living, count_inst-living, living-IsAlive, count_inst-wake,
}
use pet.Battle.Invariant.{IsSane, IsLive, IsJudged, IsSound}
use pet.Battle.Players.{
  refill-PlayerIsSound, tire-PlayerIsSound, wake_all-PlayerIsSound, wake-IsAlive,
  bury-PlayerIsSound, drawn-PlayerIsSound, put-IsSane, sound_at,
}

-- A game that goes on: nobody is dead and there is no winner.
pub record IsOpen (s : State) : Type 0 where
  pub not_over : s.over ≡ false
  pub no_winner : s.winner ≡ ""
  pub first_up : pos 0 <ℤ s.first_player.hp
  pub second_up : pos 0 <ℤ s.second_player.hp

pub IsJudged-IsOpen : (s : State) → IsJudged s → s.over ≡ false → IsOpen s
unfolding is_dead
IsJudged-IsOpen s j e = ground arith

IsOpen-IsJudged : (s : State) → IsOpen s → IsJudged s
unfolding is_dead
IsOpen-IsJudged s o = ground arith

pub up_at : (s : State) (i : Seat) → IsOpen s → pos 0 <ℤ (player s i).hp
up_at s first o = o.first_up
up_at s second o = o.second_up

pub put-IsOpen : (s : State) (i : Seat) (p : Player) → IsOpen s → pos 0 <ℤ p.hp → IsOpen (put s i p)
put-IsOpen s first p o up = ground arith
put-IsOpen s second p o up = ground arith

pub put-IsLive :
    (s : State) (i : Seat) (p : Player) → IsLive s → All IsAlive p.board → IsLive (put s i p)
put-IsLive s first p l a = record { first_alive = a; second_alive = l.second_alive }
put-IsLive s second p l a = record { first_alive = l.first_alive; second_alive = a }

pub IsAlive-at : (s : State) (i : Seat) → IsLive s → All IsAlive (player s i).board
IsAlive-at s first l = l.first_alive
IsAlive-at s second l = l.second_alive

put-IsJudged :
    (s : State) (i : Seat) (p : Player)
    → IsJudged s
    → p.id ≡ (player s i).id
    → p.hp ≡ (player s i).hp
    → IsJudged (put s i p)
put-IsJudged s first p j e h = ground arith
put-IsJudged s second p j e h = ground arith

decide_over_keeps :
    (P : State → Type 0) (s : State) (d e : Bool)
    → P s
    → ((o : Bool) (w : String) → P (record s { over = o; winner = w }))
    → P (decide_over s d e)
unfolding decide_over
decide_over_keeps P s true true h k = k true ""
decide_over_keeps P s true false h k = k true s.second_player.id
decide_over_keeps P s false true h k = k true s.first_player.id
decide_over_keeps P s false false h k = h

-- `checkOver` changes `over` and `winner` only.
pub check_over_keeps :
    (P : State → Type 0) (s : State)
    → P s
    → ((o : Bool) (w : String) → P (record s { over = o; winner = w }))
    → P (check_over s)
unfolding check_over
check_over_keeps P s h k =
    elim s.over
      as (λ b.
        P (
          if b
          then s
          else decide_over s (is_dead s.first_player.hp) (is_dead s.second_player.hp))) [
            | true ↦ h
            | false ↦
                decide_over_keeps P s (is_dead s.first_player.hp) (is_dead s.second_player.hp) h k
          ]

verdict-IsSane :
    (s : State) (o : Bool) (w : String) → IsSane s → IsSane (record s { over = o; winner = w })
verdict-IsSane s o w h = record {
  first_sound = h.first_sound;
  second_sound = h.second_sound;
  ids_differ = h.ids_differ;
  first_named = h.first_named;
  second_named = h.second_named;
  inst_unique = h.inst_unique;
  inst_fresh = h.inst_fresh;
  catalog_valid = h.catalog_valid;
}

check_over-IsJudged : (s : State) → s.over ≡ false → s.winner ≡ "" → IsJudged (check_over s)
unfolding check_over
check_over-IsJudged s o w = ground arith

-- Judging a game that had no verdict gives a sound one.
pub check_over-IsSound :
    (s : State) → IsSane s → IsLive s → s.over ≡ false → s.winner ≡ "" → IsSound (check_over s)
check_over-IsSound s h l o w = record {
  sane = check_over_keeps IsSane s h (λ o' w'. verdict-IsSane s o' w' h);
  live =
      check_over_keeps IsLive s l
        (λ o' w'. record { first_alive = l.first_alive; second_alive = l.second_alive });
  judged = check_over-IsJudged s o w;
}

pub List-cases : (l : List String) → (l ≡ []) ⊎ ((c : String) × (r : List String) × (l ≡ c ∷ r))
List-cases [] = inl refl
List-cases (c ∷ r) = inr (c, r, refl)

pub draw-empty : (s : State) (i : Seat) → (player s i).deck ≡ [] → draw s i ≡ (s, none)
unfolding draw
draw-empty s i e = rw (e, draw)

pub draw-cons :
    (s : State) (i : Seat) {c : String} {r : List String}
    → (player s i).deck ≡ c ∷ r
    → draw s i
      ≡ (put s i (record (player s i) { deck = r; hand = (player s i).hand ++ c ∷ [] }), some c)
unfolding draw
draw-cons s i e = rw (e, draw)

pub over-put : (s : State) (i : Seat) (p : Player) → (put s i p).over ≡ s.over
over-put s first p = refl
over-put s second p = refl

pub winner-put : (s : State) (i : Seat) (p : Player) → (put s i p).winner ≡ s.winner
winner-put s first p = refl
winner-put s second p = refl

pub player-put : (s : State) (i : Seat) (p : Player) → player (put s i p) i ≡ p
player-put s first p = refl
player-put s second p = refl

-- An open game with a sound player put back who is not dead and has the same living minions.
pub IsOpen-IsSound : (s : State) → IsSane s → IsLive s → IsOpen s → IsSound s
IsOpen-IsSound s h l o = record { sane = h; live = l; judged = IsOpen-IsJudged s o }

-- The player drew, or was tired and the game judged.
after_draw-IsSound :
    (s : State) (i : Seat) → IsSane s → IsLive s → IsOpen s → IsSound (after_draw i (draw s i))
unfolding after_draw
after_draw-IsSound s i h l o = elim (List-cases (player s i).deck) [
  | inl empty ↦
      let p = player s i in
      let tired = tire-PlayerIsSound p (sound_at s i h) (up_at s i o) empty in
      rw (draw-empty s i empty) (
        check_over-IsSound (put s i (tire p))
          (put-IsSane s i (tire p) h tired refl (λ x. omega arith))
          (put-IsLive s i (tire p) l (IsAlive-at s i l)) (over-put s i (tire p) ∙ o.not_over)
          (winner-put s i (tire p) ∙ o.no_winner))
  | inr (c, r, e) ↦
      let p = player s i in
      let p' : Player = record p { deck = r; hand = p.hand ++ c ∷ [] } in
      rw (draw-cons s i e) (
        IsOpen-IsSound (put s i p')
          (put-IsSane s i p' h (drawn-PlayerIsSound p c r (p.hand ++ c ∷ []) (sound_at s i h) e)
            refl (λ x. omega arith))
          (put-IsLive s i p' l (IsAlive-at s i l)) (put-IsOpen s i p' o (up_at s i o)))
]

wake_all-IsSound : (s : State) (i : Seat) → IsSound s → IsSound (put s i (wake_all (player s i)))
unfolding wake_all
wake_all-IsSound s i h =
    let p = player s i in
    record {
      sane =
          put-IsSane s i (wake_all p) h.sane (wake_all-PlayerIsSound p (sound_at s i h.sane)) refl
            (λ x. omega (arith, count_inst-wake x p.board));
      live = put-IsLive s i (wake_all p) h.live (wake-IsAlive p.board (IsAlive-at s i h.live));
      judged = put-IsJudged s i (wake_all p) h.judged refl refl;
    }

turned-IsSane :
    (s : State) (i : Seat) (n : ℕ) → IsSane s → IsSane (record s { turn = i; round = n })
turned-IsSane s i n h = record {
  first_sound = h.first_sound;
  second_sound = h.second_sound;
  ids_differ = h.ids_differ;
  first_named = h.first_named;
  second_named = h.second_named;
  inst_unique = h.inst_unique;
  inst_fresh = h.inst_fresh;
  catalog_valid = h.catalog_valid;
}

bury_id : (p : Player) → (bury p).id ≡ p.id
bury_id p = rw (bury-living p)

bury_fewer : (p : Player) (x : String) → count_inst x (bury p).board ≤ count_inst x p.board
bury_fewer p x = rw (bury-living p) (count_inst-living x p.board)

-- A new turn, with its card or its fatigue, of a game that is open, with players and minions
-- alive, leaves a game that satisfies the invariant.
pub begin_turn-IsSound :
    (s : State) (i : Seat) → IsSane s → IsLive s → IsOpen s → IsSound (begin_turn s i)
unfolding begin_turn
begin_turn-IsSound s i h l o =
    let p = refill (player s i) in
    let s' = put s i p in
    wake_all-IsSound (after_draw i (draw s' i)) i (
      after_draw-IsSound s' i
        (put-IsSane s i p h (refill-PlayerIsSound (player s i) (sound_at s i h))
          (unfold refill in refl) (λ x. unfold refill in omega arith))
        (put-IsLive s i p l (unfold refill in IsAlive-at s i l))
        (put-IsOpen s i p o (unfold refill in up_at s i o)))

pub end_turn-IsSound : (s : State) (i : Seat) → IsSound s → s.over ≡ false → IsSound (end_turn s i)
unfolding end_turn
end_turn-IsSound s i h e =
    let o = IsJudged-IsOpen s h.judged e in
    begin_turn-IsSound (record s { turn = other i; round = s.round + 1 }) (other i)
      (turned-IsSane s (other i) (s.round + 1) h.sane)
      (record { first_alive = h.live.first_alive; second_alive = h.live.second_alive })
      (record {
        not_over = o.not_over;
        no_winner = o.no_winner;
        first_up = o.first_up;
        second_up = o.second_up;
      })

-- `removeDead` of a sane state leaves living minions only.
pub remove_dead-IsSane : (s : State) → IsSane s → IsSane (remove_dead s)
unfolding remove_dead
remove_dead-IsSane s h =
    let s' = put s first (bury s.first_player) in
    put-IsSane s' second (bury s.second_player)
      (put-IsSane s first (bury s.first_player) h (bury-PlayerIsSound s.first_player h.first_sound)
        (bury_id s.first_player) (bury_fewer s.first_player))
      (bury-PlayerIsSound s.second_player h.second_sound) (bury_id s.second_player)
      (bury_fewer s.second_player)

pub remove_dead-IsLive : (s : State) → IsLive (remove_dead s)
unfolding remove_dead
remove_dead-IsLive s = record {
  first_alive = rw (bury-living s.first_player) (living-IsAlive s.first_player.board);
  second_alive = rw (bury-living s.second_player) (living-IsAlive s.second_player.board);
}
