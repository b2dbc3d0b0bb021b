-- ===== src/Bot/Found.antt =====
-- That the searches of internal/battle find the cards and minions that the bot names.
use pet.Base.{
  ℕ, zero, suc, ◌+◌, ◌≤◌, ◌<◌, ◌≡◌, refl, inl, inr, String, List, [], ◌∷◌, none, some, str_eq,
  length, get_elem?, All, arith, Bool-cases, Option-cases,
}
use text.Mathlib.TextEquality.{eq_iff}
use pet.Battle.Model.{Seat, first, second, other, Minion, State, Action, player}
use pet.Battle.Actions.{index_from, minion_from}
use pet.Battle.Board.{count_inst}
use pet.Battle.Invariant.{inst_count}

pub All-map {ℓ} :
    {A : Type ℓ} (P Q : A → Type 0) → ((a : A) → P a → Q a) → (xs : List A) → All P xs → All Q xs
All-map P Q f [] h = tt
All-map P Q f (x ∷ xs) h = (f x h.0, All-map P Q f xs h.1)

pub get-in_range :
    (xs : List Action) (k : ℕ) → k < length xs → (a : Action) × (get_elem? xs k ≡ some a)
get-in_range [] k h = absurd (omega (arith, h))
get-in_range (x ∷ xs) zero h = (x, refl)
get-in_range (x ∷ xs) (suc k) h = get-in_range xs k (omega (arith, h))

-- The hand has the card at some position, counted from `k`.
abbrev pub IsAt : ℕ → List String → String → Type 0
IsAt k hand id = (hi : ℕ) × (index_from k hand id ≡ some hi)

pub IsAt-cons :
    (k : ℕ) (x : String) (hand : List String) (id : String)
    → IsAt (k + 1) hand id
    → IsAt k (x ∷ hand) id
unfolding index_from
IsAt-cons k x hand id (hi, e) = elim (Bool-cases (str_eq x id)) [
  | inl hit ↦ (k, ground arith)
  | inr miss ↦ (hi, ground arith)
]

pub hand-IsAt : (k : ℕ) (hand : List String) → All (IsAt k hand) hand
unfolding index_from
hand-IsAt k [] = tt
hand-IsAt k (x ∷ hand) = (
  (k, ground (arith, eq_iff x x)),
  All-map (IsAt (k + 1) hand) (IsAt k (x ∷ hand)) (IsAt-cons k x hand) hand
      (hand-IsAt (k + 1) hand),
)

-- The search for the id of a minion finds this minion, at a position counted from `k`.
abbrev pub IsFound : ℕ → List Minion → Minion → Type 0
IsFound k ms m = (j : ℕ) × (minion_from k ms m.inst_id ≡ some (m, j))

pub found_counted :
    (k : ℕ) (ms : List Minion) (id : String) (m : Minion) (j : ℕ)
    → minion_from k ms id ≡ some (m, j)
    → 1 ≤ count_inst id ms
unfolding minion_from count_inst
found_counted k [] id m j e = cc
found_counted k (n ∷ ms) id m j e = elim (Bool-cases (str_eq n.inst_id id)) [
  | inl hit ↦ ground arith
  | inr miss ↦ ground (arith, found_counted (k + 1) ms id m j (ground arith))
]

pub IsFound-cons :
    (k : ℕ) (n : Minion) (ms : List Minion)
    → ((x : String) → count_inst x (n ∷ ms) ≤ 1)
    → (m : Minion) → IsFound (k + 1) ms m
    → IsFound k (n ∷ ms) m
unfolding minion_from count_inst
IsFound-cons k n ms once m (j, e) = elim (Bool-cases (str_eq n.inst_id m.inst_id)) [
  | inl hit ↦ ground (arith, once m.inst_id, found_counted (k + 1) ms m.inst_id m j e)
  | inr miss ↦ (j, ground arith)
]

pub board-IsFound :
    (k : ℕ) (ms : List Minion) → ((x : String) → count_inst x ms ≤ 1) → All (IsFound k ms) ms
unfolding minion_from count_inst
board-IsFound k [] once = tt
board-IsFound k (n ∷ ms) once = (
  (k, ground (arith, eq_iff n.inst_id n.inst_id)),
  All-map (IsFound (k + 1) ms) (IsFound k (n ∷ ms)) (IsFound-cons k n ms once) ms
      (board-IsFound (k + 1) ms (λ x. omega (arith, once x))),
)

pub absent :
    (k : ℕ) (ms : List Minion) (id : String) → count_inst id ms ≡ 0 → minion_from k ms id ≡ none
absent k ms id e = elim (Option-cases (minion_from k ms id)) [
  | inl p ↦ p
  | inr ((m, j), p) ↦ absurd (omega (arith, e, found_counted k ms id m j p))
]

pub inst_count_sides :
    (s : State) (i : Seat) (x : String)
    → inst_count x s ≡ count_inst x (player s i).board + count_inst x (player s (other i)).board
inst_count_sides s first x = refl
inst_count_sides s second x = omega arith
