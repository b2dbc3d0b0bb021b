-- ===== src/Battle/Combat.antt =====
-- The invariant through `attack` of internal/battle/apply.go.
use pet.Base.{
  ℕ, ◌≡◌, refl, subst, ◌∙◌, ◌⊎◌, ◌≢◌, inl, inr, ℤ, pos, ◌≤ℤ◌, ◌<ℤ◌, Bool, true, false, some, none,
  All-set, All-get_elem?, arith, Bool-cases, Option-cases, length-set, set, get_elem?, sub_int,
  sub_int_parts, sub_int-IsInt, leb_ℤ, str_eq, IsInt,
}
use text.Mathlib.TextEquality.{eq_iff}
use pet.Battle.Model.{
  Seat, first, second, other, Minion, Player, State, Action, Code, minion_not_found, cant_attack,
  target_not_found, invalid_target, player, put,
}
use pet.Battle.Turns.{check_over}
use pet.Battle.Actions.{
  find_minion, Target, face, minion, refused, choose_target, strike, settle, attack, remove_dead,
}
use pet.Battle.Board.{IsAlive, count_inst-set, find_minion-get_elem?}
use pet.Battle.Invariant.{MinionIsSound, PlayerIsSound, IsSane, IsSound}
use pet.Battle.Players.{put-IsSane, sound_at, board-PlayerIsSound}
use pet.Battle.Steps.{
  IsOpen, IsJudged-IsOpen, IsAlive-at, up_at, check_over-IsSound, remove_dead-IsSane,
  remove_dead-IsLive,
}

-- The attacker is a minion of the player's own, awake, with some attack.
pub record CanAttack (s : State) (i : Seat) (a : Action) (attacker : Minion) (k : ℕ) : Type 0 where
  pub own : find_minion (player s i) a.inst_id ≡ some (attacker, k)
  pub awake : attacker.can_attack ≡ true
  pub armed : pos 0 <ℤ attacker.atk

-- What the target text names: the face, or a minion of the opponent that is not one's own.
abbrev pub Aims : State → Seat → Action → Target → Type 0
Aims s i a face = a.target ≡ "face"
Aims s i a (minion def d) =
    (a.target ≢ "face")
    × (find_minion (player s i) a.target ≡ none)
    × (find_minion (player s (other i)) a.target ≡ some (def, d))
Aims s i a (refused c) = ⊥

-- The state after an attack: the blow, then the dead are removed and the game is judged.
abbrev pub Fought : State → Seat → Minion → ℕ → Target → State
Fought s i attacker k t = check_over (remove_dead (strike s i attacker k t).0)

attack-Aims :
    (s : State) (i : Seat) (a : Action) (attacker : Minion) (k : ℕ) (t : Target)
    → CanAttack s i a attacker k
    → Aims s i a t
    → choose_target (player s i) (player s (other i)) a.target ≡ t
unfolding choose_target
attack-Aims s i a attacker k face can aim = ground (arith, eq_iff a.target "face")
attack-Aims s i a attacker k (minion def d) can (not_face, not_own, found) =
    ground (arith, eq_iff a.target "face")
attack-Aims s i a attacker k (refused c) can aim = absurd aim

-- An attacker that may attack strikes at what the target names.
attack_strikes :
    (s : State) (i : Seat) (a : Action) (attacker : Minion) (k : ℕ) (t : Target)
    → find_minion (player s i) a.inst_id ≡ some (attacker, k)
    → attacker.can_attack ≡ true
    → leb_ℤ attacker.atk (pos 0) ≡ false
    → choose_target (player s i) (player s (other i)) a.target ≡ t
    → attack s i a ≡ settle (strike s i attacker k t)
unfolding attack
attack_strikes s i a attacker k t found awake armed e = ground arith

settle-strike :
    (s : State) (i : Seat) (a : Action) (attacker : Minion) (k : ℕ) (t : Target)
    → Aims s i a t
    → settle (strike s i attacker k t) ≡ (Fought s i attacker k t, none)
unfolding settle strike
settle-strike s i a attacker k face aim = refl
settle-strike s i a attacker k (minion def d) aim = refl
settle-strike s i a attacker k (refused c) aim = absurd aim

pub attack-CanAttack :
    (s : State) (i : Seat) (a : Action) (attacker : Minion) (k : ℕ) (t : Target)
    → CanAttack s i a attacker k
    → Aims s i a t
    → attack s i a ≡ (Fought s i attacker k t, none)
attack-CanAttack s i a attacker k t can aim =
    attack_strikes s i a attacker k t can.own can.awake (ground (arith, can.armed))
      (attack-Aims s i a attacker k t can aim)
    ∙ settle-strike s i a attacker k t aim

choose_target-cases :
    (s : State) (i : Seat) (a : Action)
    → ((c : Code) × (choose_target (player s i) (player s (other i)) a.target ≡ refused c))
      ⊎ ((t : Target) × Aims s i a t)
unfolding choose_target
choose_target-cases s i a = elim (Bool-cases (str_eq a.target "face")) [
  | inl is_face ↦ inr (face, (eq_iff a.target "face").0 is_face)
  | inr not_face ↦ elim (Option-cases (find_minion (player s i) a.target)) [
    | inr ((m, k), own) ↦ inl (invalid_target, ground arith)
    | inl not_own ↦ elim (Option-cases (find_minion (player s (other i)) a.target)) [
      | inl absent ↦ inl (target_not_found, ground arith)
      | inr ((def, d), found) ↦
          inr (minion def d, ((λ e. cc (not_face, (eq_iff a.target "face").1 e)), not_own, found))
    ]
  ]
]

pub attack-cases :
    (s : State) (i : Seat) (a : Action)
    → ((c : Code) × (attack s i a ≡ (s, some c)))
      ⊎ ((attacker : Minion) × (k : ℕ) × (t : Target) × CanAttack s i a attacker k × Aims s i a t)
unfolding attack strike settle
attack-cases s i a = elim (Option-cases (find_minion (player s i) a.inst_id)) [
  | inl absent ↦ inl (minion_not_found, ground arith)
  | inr ((m, k), found) ↦ elim (Bool-cases m.can_attack) [
    | inr asleep ↦ inl (cant_attack, ground arith)
    | inl awake ↦ elim (Bool-cases (leb_ℤ m.atk (pos 0))) [
      | inl unarmed ↦ inl (cant_attack, ground arith)
      | inr armed ↦ elim (choose_target-cases s i a) [
        | inl (c, e) ↦ inl (c, attack_strikes s i a m k (refused c) found awake armed e ∙ refl)
        | inr (t, aim) ↦
            inr (m, k, t, record { own = found; awake = awake; armed = ground arith }, aim)
      ]
    ]
  ]
]

player-put-other : (s : State) (i : Seat) (p : Player) → player (put s (other i) p) i ≡ player s i
player-put-other s first p = refl
player-put-other s second p = refl

-- A sound minion after a blow of an armed one: it may be dead.
wounded : Minion → ℤ → Bool → Minion
wounded m damage awake = record m { hp = sub_int m.hp damage; can_attack = awake }

wounded-MinionIsSound :
    (m : Minion) (damage : ℤ) (awake : Bool)
    → MinionIsSound m
    → IsAlive m
    → pos 0 ≤ℤ damage
    → IsInt damage
    → MinionIsSound (wounded m damage awake)
unfolding wounded
wounded-MinionIsSound m damage awake h up nonneg int =
    let parts = sub_int_parts m.hp damage h.hp_int int (omega (arith, up)) nonneg in
    record {
      atk_nonneg = h.atk_nonneg;
      atk_int = h.atk_int;
      hp_int = sub_int-IsInt m.hp damage h.hp_int int;
      hp_le_max = omega (arith, parts, nonneg, h.hp_le_max);
    }

-- Putting a minion back on a board under its own id.
swapped-IsSane :
    (s : State) (i : Seat) (m v : Minion) (k : ℕ)
    → IsSane s
    → get_elem? (player s i).board k ≡ some m
    → v.inst_id ≡ m.inst_id
    → MinionIsSound v
    → IsSane (put s i (record (player s i) { board = set (player s i).board k v }))
swapped-IsSane s i m v k h e same sound =
    let p = player s i in
    let ps = sound_at s i h in
    put-IsSane s i (record p { board = set p.board k v }) h
      (board-PlayerIsSound p (set p.board k v) ps
        (omega (arith, length-set p.board k v, ps.board_le_limit))
        (All-set MinionIsSound p.board k v ps.minions_sound sound))
      refl (λ x. omega (arith, count_inst-set x p.board k m v e same))

hit-PlayerIsSound :
    (p : Player) (damage : ℤ)
    → PlayerIsSound p
    → pos 0 <ℤ p.hp
    → pos 0 ≤ℤ damage
    → IsInt damage
    → PlayerIsSound (record p { hp = sub_int p.hp damage })
hit-PlayerIsSound p damage h up nonneg int =
    let parts = sub_int_parts p.hp damage h.hp_int int (omega (arith, up)) nonneg in
    record {
      hp_int = sub_int-IsInt p.hp damage h.hp_int int;
      hp_cap = omega (arith, parts, nonneg, h.hp_cap);
      mana_nonneg = h.mana_nonneg;
      mana_le_max = h.mana_le_max;
      max_mana_le_limit = h.max_mana_le_limit;
      tired_without_deck = h.tired_without_deck;
      fatigue_le = h.fatigue_le;
      board_le_limit = h.board_le_limit;
      minions_sound = h.minions_sound;
    }

-- The same for the player who is not the one just put back.
swapped_after-IsSane :
    (s : State) (i : Seat) (q : Player) (m v : Minion) (k : ℕ)
    → IsSane (put s (other i) q)
    → get_elem? (player s i).board k ≡ some m
    → v.inst_id ≡ m.inst_id
    → MinionIsSound v
    → IsSane
        (put (put s (other i) q) i (record (player s i) { board = set (player s i).board k v }))
swapped_after-IsSane s i q m v k h e same sound =
    subst (λ p. IsSane (put (put s (other i) q) i (record p { board = set p.board k v })))
      (player-put-other s i q)
      (swapped-IsSane (put s (other i) q) i m v k h (rw (player-put-other s i q) e) same sound)

-- A blow keeps all but the lives of the minions and the verdict.
strike-IsSane :
    (s : State) (i : Seat) (a : Action) (attacker : Minion) (k : ℕ) (t : Target)
    → IsSound s
    → IsOpen s
    → CanAttack s i a attacker k
    → Aims s i a t
    → IsSane (strike s i attacker k t).0
unfolding strike
strike-IsSane s i a attacker k (refused c) h o can aim = absurd aim
strike-IsSane s i a attacker k face h o can aim =
    let opposite = player s (other i) in
    let (at, _) = find_minion-get_elem? (player s i) a.inst_id can.own in
    let sound =
      All-get_elem? MinionIsSound (player s i).board k (sound_at s i h.sane).minions_sound at in
    let opposite' : Player = record opposite { hp = sub_int opposite.hp attacker.atk } in
    let hit =
      put-IsSane s (other i) opposite' h.sane
        (hit-PlayerIsSound opposite attacker.atk (sound_at s (other i) h.sane) (up_at s (other i) o)
          sound.atk_nonneg sound.atk_int)
        refl (λ x. omega arith) in
    swapped_after-IsSane s i opposite' attacker (record attacker { can_attack = false }) k hit at
      refl
      (record {
        atk_nonneg = sound.atk_nonneg;
        atk_int = sound.atk_int;
        hp_int = sound.hp_int;
        hp_le_max = sound.hp_le_max;
      })
strike-IsSane s i a attacker k (minion def d) h o can (_, _, found) =
    let me = player s i in
    let opposite = player s (other i) in
    let (at, _) = find_minion-get_elem? me a.inst_id can.own in
    let (at_def, _) = find_minion-get_elem? opposite a.target found in
    let sound = All-get_elem? MinionIsSound me.board k (sound_at s i h.sane).minions_sound at in
    let up = All-get_elem? IsAlive me.board k (IsAlive-at s i h.live) at in
    let sound_def =
      All-get_elem? MinionIsSound opposite.board d (sound_at s (other i) h.sane).minions_sound
        at_def in
    let up_def = All-get_elem? IsAlive opposite.board d (IsAlive-at s (other i) h.live) at_def in
    let hit =
      swapped-IsSane s (other i) def (wounded def attacker.atk def.can_attack) d h.sane at_def
        (unfold wounded in refl)
        (wounded-MinionIsSound def attacker.atk def.can_attack sound_def up_def sound.atk_nonneg
          sound.atk_int) in
    unfold wounded in
    swapped_after-IsSane s i
      (record opposite {
        board = set opposite.board d (record def { hp = sub_int def.hp attacker.atk });
      })
      attacker (wounded attacker def.atk false) k hit at refl
      (wounded-MinionIsSound attacker def.atk false sound up sound_def.atk_nonneg sound_def.atk_int)

strike-over :
    (s : State) (i : Seat) (attacker : Minion) (k : ℕ) (t : Target)
    → (strike s i attacker k t).0.over ≡ s.over
unfolding strike
strike-over s first attacker k face = refl
strike-over s second attacker k face = refl
strike-over s first attacker k (minion def d) = refl
strike-over s second attacker k (minion def d) = refl
strike-over s i attacker k (refused c) = refl

strike-winner :
    (s : State) (i : Seat) (attacker : Minion) (k : ℕ) (t : Target)
    → (strike s i attacker k t).0.winner ≡ s.winner
unfolding strike
strike-winner s first attacker k face = refl
strike-winner s second attacker k face = refl
strike-winner s first attacker k (minion def d) = refl
strike-winner s second attacker k (minion def d) = refl
strike-winner s i attacker k (refused c) = refl

-- An attack leaves a sound state: the dead are gone, and the game is judged.
pub Fought-IsSound :
    (s : State) (i : Seat) (a : Action) (attacker : Minion) (k : ℕ) (t : Target)
    → IsSound s
    → s.over ≡ false
    → CanAttack s i a attacker k
    → Aims s i a t
    → IsSound (Fought s i attacker k t)
Fought-IsSound s i a attacker k t h e can aim =
    let o = IsJudged-IsOpen s h.judged e in
    let s' = (strike s i attacker k t).0 in
    check_over-IsSound (remove_dead s')
      (remove_dead-IsSane s' (strike-IsSane s i a attacker k t h o can aim)) (remove_dead-IsLive s')
      (unfold remove_dead in strike-over s i attacker k t ∙ o.not_over)
      (unfold remove_dead in strike-winner s i attacker k t ∙ o.no_winner)
