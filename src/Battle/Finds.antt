-- ===== src/Battle/Finds.antt =====
-- What `indexOfString` and `findMinion` of internal/battle find: the first place of a card in a hand,
-- and of a minion on a board.
use pet.Base.{
  ℕ, zero, suc, ◌+◌, ◌≡◌, ◌≢◌, refl, sym, ap, ◌∙◌, inl, inr, String, List, [], ◌∷◌, ◌++◌, none,
  some, All, length, take, drop, arith, Bool-cases, str_eq,
}
use mathlib.Core.Path.{ap₂}
use text.Mathlib.TextEquality.{eq_iff}
use pet.Deck.Load.{Lacks}
use pet.Battle.Model.{Minion, Player}
use pet.Battle.Actions.{index_from, index_of_string, minion_from, find_minion, remove_at}

-- The list has the card first after the cards `before`.
pub record FirstCard (card_id : String) (hand before after : List String) : Type 0 where
  pub split : hand ≡ before ++ card_id ∷ after
  pub first_place : Lacks card_id before

-- None of the minions carries the id.
abbrev pub LacksInst : String → List Minion → Type 0
LacksInst id = All (λ m. m.inst_id ≢ id)

-- The minion is the first on the board that carries the id, after the minions `before`.
pub record FirstMinion (id : String) (board : List Minion) (m : Minion) (before after : List Minion)
    : Type 0 where
  pub split : board ≡ before ++ m ∷ after
  pub first_place : LacksInst id before
  pub same_id : m.inst_id ≡ id

index_from-FirstCard :
    (i : ℕ) (hand : List String) (x : String) (hi : ℕ)
    → index_from i hand x ≡ some hi
    → (before : List String) × (after : List String) × FirstCard x hand before after
      × (hi ≡ i + length before)
unfolding index_from
index_from-FirstCard i [] x hi e = cc
index_from-FirstCard i (v ∷ vs) x hi e = elim (Bool-cases (str_eq v x)) [
  | inl hit ↦ (
    [],
    vs,
    record { split = ap (λ y. y ∷ vs) ((eq_iff v x).0 hit); first_place = tt },
    ground (arith, hit),
  )
  | inr miss ↦
      let (before, after, h, at) = index_from-FirstCard (i + 1) vs x hi (ground (arith, miss)) in
      (
        v ∷ before,
        after,
        record {
          split = ap (λ l. v ∷ l) h.split;
          first_place = ((λ p. ground (arith, eq_iff v x, miss)), h.first_place);
        },
        omega (arith, at),
      )
]

FirstCard-index_from :
    (i : ℕ) (before after : List String) (x : String)
    → Lacks x before
    → index_from i (before ++ x ∷ after) x ≡ some (i + length before)
unfolding index_from
FirstCard-index_from i [] after x l = ground (arith, eq_iff x x)
FirstCard-index_from i (v ∷ before) after x l =
    let shifted : i + 1 + length before ≡ i + suc (length before) = omega arith in
    let rest = FirstCard-index_from (i + 1) before after x l.1 in
    ground (arith, eq_iff v x, l.0, rest, shifted)

pub index_of_string-FirstCard :
    (hand : List String) (x : String) (hi : ℕ)
    → index_of_string hand x ≡ some hi
    → (before : List String) × (after : List String) × FirstCard x hand before after
      × (hi ≡ length before)
unfolding index_of_string
index_of_string-FirstCard hand x hi e =
    let (before, after, h, at) = index_from-FirstCard 0 hand x hi e in
    (before, after, h, omega (arith, at))

pub FirstCard-index_of_string :
    (hand before after : List String) (x : String)
    → FirstCard x hand before after
    → index_of_string hand x ≡ some (length before)
unfolding index_of_string
FirstCard-index_of_string hand before after x h =
    ap (λ l. index_from 0 l x) h.split
    ∙ FirstCard-index_from 0 before after x h.first_place
    ∙ ap some (omega arith)

minion_from-FirstMinion :
    (k : ℕ) (ms : List Minion) (id : String) (m : Minion) (j : ℕ)
    → minion_from k ms id ≡ some (m, j)
    → (before : List Minion) × (after : List Minion) × FirstMinion id ms m before after
      × (j ≡ k + length before)
unfolding minion_from
minion_from-FirstMinion k [] id m j e = cc
minion_from-FirstMinion k (n ∷ ms) id m j e = elim (Bool-cases (str_eq n.inst_id id)) [
  | inl hit ↦
      let same : n ≡ m = ground (arith, hit) in
      (
        [],
        ms,
        record {
          split = ap (λ y. y ∷ ms) same;
          first_place = tt;
          same_id = ap (λ (y : Minion). y.inst_id) (sym same) ∙ (eq_iff n.inst_id id).0 hit;
        },
        ground (arith, hit),
      )
  | inr miss ↦
      let (before, after, h, at) =
        minion_from-FirstMinion (k + 1) ms id m j (ground (arith, miss)) in
      (
        n ∷ before,
        after,
        record {
          split = ap (λ l. n ∷ l) h.split;
          first_place = ((λ p. ground (arith, eq_iff n.inst_id id, miss)), h.first_place);
          same_id = h.same_id;
        },
        omega (arith, at),
      )
]

FirstMinion-minion_from :
    (k : ℕ) (before after : List Minion) (id : String) (m : Minion)
    → LacksInst id before
    → m.inst_id ≡ id
    → minion_from k (before ++ m ∷ after) id ≡ some (m, k + length before)
unfolding minion_from
FirstMinion-minion_from k [] after id m l same =
    let here : k ≡ k + 0 = omega arith in ground (arith, eq_iff m.inst_id id, same, here)
FirstMinion-minion_from k (n ∷ before) after id m l same =
    let shifted : k + 1 + length before ≡ k + suc (length before) = omega arith in
    let rest = FirstMinion-minion_from (k + 1) before after id m l.1 same in
    ground (arith, eq_iff n.inst_id id, l.0, rest, shifted)

minion_from-LacksInst :
    (k : ℕ) (ms : List Minion) (id : String) → minion_from k ms id ≡ none → LacksInst id ms
unfolding minion_from
minion_from-LacksInst k [] id e = tt
minion_from-LacksInst k (n ∷ ms) id e = elim (Bool-cases (str_eq n.inst_id id)) [
  | inl hit ↦ ground (arith, hit)
  | inr miss ↦ (
    (λ p. ground (arith, eq_iff n.inst_id id, miss)),
    minion_from-LacksInst (k + 1) ms id (ground (arith, miss)),
  )
]

LacksInst-minion_from :
    (k : ℕ) (ms : List Minion) (id : String) → LacksInst id ms → minion_from k ms id ≡ none
unfolding minion_from
LacksInst-minion_from k [] id l = refl
LacksInst-minion_from k (n ∷ ms) id l =
    ground (arith, eq_iff n.inst_id id, l.0, LacksInst-minion_from (k + 1) ms id l.1)

module _ (p : Player) (id : String) where
  pub find_minion-FirstMinion :
      (m : Minion) (k : ℕ)
      → find_minion p id ≡ some (m, k)
      → (before : List Minion) × (after : List Minion) × FirstMinion id p.board m before after
        × (k ≡ length before)
  unfolding find_minion
  find_minion-FirstMinion m k e =
      let (before, after, h, at) = minion_from-FirstMinion 0 p.board id m k e in
      (before, after, h, omega (arith, at))

  pub FirstMinion-find_minion :
      (m : Minion) (before after : List Minion)
      → FirstMinion id p.board m before after
      → find_minion p id ≡ some (m, length before)
  unfolding find_minion
  FirstMinion-find_minion m before after h =
      ap (λ l. minion_from 0 l id) h.split
      ∙ FirstMinion-minion_from 0 before after id m h.first_place h.same_id
      ∙ ap (λ j. some (m, j)) (omega arith)

  pub find_minion-LacksInst : find_minion p id ≡ none → LacksInst id p.board
  unfolding find_minion
  find_minion-LacksInst e = minion_from-LacksInst 0 p.board id e

  pub LacksInst-find_minion : LacksInst id p.board → find_minion p id ≡ none
  unfolding find_minion
  LacksInst-find_minion l = LacksInst-minion_from 0 p.board id l

take-before : (xs ys : List String) → take (length xs) (xs ++ ys) ≡ xs
take-before [] ys = refl
take-before (x ∷ xs) ys = ap (λ l. x ∷ l) (take-before xs ys)

drop-after :
    (n : ℕ) (xs ys : List String) (y : String) → n ≡ length xs + 1 → drop n (xs ++ y ∷ ys) ≡ ys
drop-after zero xs ys y e = absurd (omega (arith, e))
drop-after (suc n) [] ys y e = let last : n ≡ 0 = omega (arith, e) in rw last refl
drop-after (suc n) (x ∷ xs) ys y e = drop-after n xs ys y (omega (arith, e))

-- Without its card, the hand is what stood before it and after it.
pub remove_at-FirstCard :
    (hand before after : List String) (x : String)
    → FirstCard x hand before after
    → remove_at (length before) hand ≡ before ++ after
unfolding remove_at
remove_at-FirstCard hand before after x h =
    ap (λ l. take (length before) l ++ drop (length before + 1) l) h.split
    ∙ ap₂ (λ (l r : List String). l ++ r) (take-before before (x ∷ after))
        (drop-after (length before + 1) before after x refl)
