-- ===== src/Battle/Board.antt =====
-- `removeDead` of internal/battle/state.go keeps the living minions in order, and how the minions of
-- a board that carry a given id are counted.
use pet.Base.{
  ℕ, zero, suc, ◌+◌, ◌≤◌, ◌<ℤ◌, ◌≡◌, refl, ap, ◌∙◌, inl, inr, String, pos, true, false, List, [],
  ◌∷◌, ◌++◌, append_assoc, append-nil, some, arith, if◌then◌else◌, ltb_ℤ, str_eq, length,
  length-append, get_elem?, set, take, map, Bool-cases, All,
}
use text.Mathlib.TextEquality.{eq_iff}
use pet.Battle.Model.{Minion, Player}
use pet.Battle.Actions.{compact, bury, find_minion, minion_from}
use pet.Battle.Turns.{wake}

-- The minions with health left, in order.
unfoldable pub living : List Minion → List Minion
living [] = []
living (m ∷ ms) = if ltb_ℤ (pos 0) m.hp then m ∷ living ms else living ms

get-append :
    (xs : List Minion) (m : Minion) (ys : List Minion)
    → get_elem? (xs ++ m ∷ ys) (length xs) ≡ some m
get-append [] m ys = refl
get-append (x ∷ xs) m ys = get-append xs m ys

pub set-append :
    (xs : List Minion) (m v : Minion) (ys : List Minion)
    → set (xs ++ m ∷ ys) (length xs) v ≡ xs ++ v ∷ ys
set-append [] m v ys = refl
set-append (x ∷ xs) m v ys = ap (λ r. x ∷ r) (set-append xs m v ys)

take-append : (xs ys : List Minion) → take (length xs) (xs ++ ys) ≡ xs
take-append [] ys = refl
take-append (x ∷ xs) ys = ap (λ r. x ∷ r) (take-append xs ys)

compact_alive :
    (n k j : ℕ) (board : List Minion) (m : Minion)
    → get_elem? board k ≡ some m
    → ltb_ℤ (pos 0) m.hp ≡ true
    → compact (suc n) k j board ≡ compact n (k + 1) (j + 1) (set board j m)
unfolding compact
compact_alive n k j board m e h = ground arith

compact_dead :
    (n k j : ℕ) (board : List Minion) (m : Minion)
    → get_elem? board k ≡ some m
    → ltb_ℤ (pos 0) m.hp ≡ false
    → compact (suc n) k j board ≡ compact n (k + 1) j board
unfolding compact
compact_dead n k j board m e h = ground arith

-- What a run of the loop leaves, up to its `j`.
abbrev kept_part : List Minion × ℕ → List Minion
kept_part (board, j) = take j board

-- Writing the unread `m` to the first free place: the gap moves by one.
shift :
    (kept gap : List Minion) (m : Minion) (rest : List Minion)
    → (gap' : List Minion) × (set ((kept ++ gap) ++ m ∷ rest) (length kept) m
        ≡ ((kept ++ m ∷ []) ++ gap') ++ rest)
      × (length ((kept ++ m ∷ []) ++ gap') ≡ length (kept ++ gap) + 1)
shift kept [] m rest = (
  [],
  simp (append-nil, append_assoc) (set-append kept m m rest),
  simp (append-nil) (omega (arith, length-append kept (m ∷ []))),
)
shift kept (g ∷ gs) m rest = (
  gs ++ m ∷ [],
  simp (append_assoc) (set-append kept g m (gs ++ m ∷ rest)),
  omega (
    arith,
    length-append (kept ++ m ∷ []) (gs ++ m ∷ []),
    length-append kept (m ∷ []),
    length-append gs (m ∷ []),
    length-append kept (g ∷ gs),
  ),
)

-- In the middle of the loop `kept` stand in their final places, `gap` is free, `rest` is unread.
compact-living :
    (rest kept gap board : List Minion) (k j : ℕ)
    → board ≡ (kept ++ gap) ++ rest
    → k ≡ length (kept ++ gap)
    → j ≡ length kept
    → kept_part (compact (length rest) k j board) ≡ kept ++ living rest
unfolding living
compact-living [] kept gap board k j eb ek ej =
    unfold compact in rw (eb, ej) (simp (append-nil) (take-append kept gap))
compact-living (m ∷ rest) kept gap board k j eb ek ej =
    let at : get_elem? board k ≡ some m = rw (eb, ek) (get-append (kept ++ gap) m rest) in
    elim (Bool-cases (ltb_ℤ (pos 0) m.hp)) [
      | inl alive ↦
          let (gap', moved, longer) = shift kept gap m rest in
          ap kept_part (compact_alive (length rest) k j board m at alive)
          ∙ (compact-living rest (kept ++ m ∷ []) gap' (set board j m) (k + 1) (j + 1)
                (rw (eb, ej) moved) (omega (arith, longer))
                (omega (arith, length-append kept (m ∷ [])))
              ∙ rw alive (append_assoc kept (m ∷ []) (living rest)))
      | inr dead ↦
          ap kept_part (compact_dead (length rest) k j board m at dead)
          ∙ (compact-living rest kept (gap ++ m ∷ []) board (k + 1) j (rw eb (simp append_assoc))
                (omega (
                  arith,
                  length-append kept (gap ++ m ∷ []),
                  length-append gap (m ∷ []),
                  length-append kept gap,
                ))
                ej
              ∙ rw dead refl)
    ]

-- The in-place loop of `removeDead` leaves a player the living minions of the board, in order, and
-- nothing else of the player changes.
pub bury-living : (p : Player) → bury p ≡ record p { board = living p.board }
unfolding bury
bury-living p =
    ap (λ b. record p { board = b }) (compact-living p.board [] [] p.board 0 0 refl refl refl)

pub length-living : (ms : List Minion) → length (living ms) ≤ length ms
unfolding living
length-living [] = omega arith
length-living (m ∷ ms) = ground (arith, length-living ms)

-- How many minions of a board carry the id `x`.
unfoldable pub count_inst : String → List Minion → ℕ
count_inst x [] = 0
count_inst x (m ∷ ms) = (if str_eq m.inst_id x then 1 else 0) + count_inst x ms

pub count_inst-living : (x : String) (ms : List Minion) → count_inst x (living ms) ≤ count_inst x ms
unfolding count_inst living
count_inst-living x [] = omega arith
count_inst-living x (m ∷ ms) = ground (arith, count_inst-living x ms)

pub count_inst-append :
    (x : String) (ms ns : List Minion) → count_inst x (ms ++ ns) ≡ count_inst x ms + count_inst x ns
unfolding count_inst
count_inst-append x [] ns = omega arith
count_inst-append x (m ∷ ms) ns = omega (arith, count_inst-append x ms ns)

-- A minion that is written over with one of the same id.
pub count_inst-set :
    (x : String) (ms : List Minion) (k : ℕ) (m v : Minion)
    → get_elem? ms k ≡ some m
    → v.inst_id ≡ m.inst_id
    → count_inst x (set ms k v) ≡ count_inst x ms
unfolding count_inst
count_inst-set x [] k m v e same = refl
count_inst-set x (n ∷ ms) zero m v e same = ground arith
count_inst-set x (n ∷ ms) (suc k) m v e same = omega (arith, count_inst-set x ms k m v e same)

pub count_inst-wake : (x : String) (ms : List Minion) → count_inst x (map wake ms) ≡ count_inst x ms
unfolding count_inst wake
count_inst-wake x [] = refl
count_inst-wake x (m ∷ ms) = omega (arith, count_inst-wake x ms)

minion_from-get_elem? :
    (k : ℕ) (ms : List Minion) (id : String) (m : Minion) (j : ℕ)
    → minion_from k ms id ≡ some (m, j)
    → (o : ℕ) × (j ≡ k + o) × (get_elem? ms o ≡ some m) × (m.inst_id ≡ id)
unfolding minion_from
minion_from-get_elem? k [] id m j e = cc
minion_from-get_elem? k (n ∷ ms) id m j e = elim (Bool-cases (str_eq n.inst_id id)) [
  | inl hit ↦ (0, ground arith, ground arith, ground (arith, eq_iff n.inst_id id))
  | inr miss ↦
      let (o, at, got, same) = minion_from-get_elem? (k + 1) ms id m j (ground arith) in
      (suc o, omega arith, got, same)
]

-- `findMinion` returns a minion of the board that carries the id, at its position.
pub find_minion-get_elem? :
    (p : Player) (id : String) {m : Minion} {k : ℕ}
    → find_minion p id ≡ some (m, k)
    → (get_elem? p.board k ≡ some m) × (m.inst_id ≡ id)
unfolding find_minion
find_minion-get_elem? p id {m} {k} e =
    let (o, at, got, same) = minion_from-get_elem? 0 p.board id m k e in
    let at' : k ≡ o = omega arith in (rw at' got, same)

module _ (P : Minion → Type 0) where
  pub All-living : (ms : List Minion) → All P ms → All P (living ms)
  unfolding living
  All-living [] h = tt
  All-living (m ∷ ms) h = ground (arith, All-living ms h.1)

abbrev pub IsAlive : Minion → Type 0
IsAlive m = pos 0 <ℤ m.hp

pub living-IsAlive : (ms : List Minion) → All IsAlive (living ms)
unfolding living
living-IsAlive [] = tt
living-IsAlive (m ∷ ms) = ground (arith, living-IsAlive ms)
