-- ===== src/Battle/Cards.antt =====
-- Counting cards: shuffling, drawing and playing lose none and invent none. (`shuffle`, `Draw` and
-- `playCard` of internal/battle.)
use pet.Base.{
  ℕ, zero, suc, ◌+◌, ◌≡◌, refl, ◌∙◌, inl, inr, String, List, [], ◌∷◌, ◌++◌, some, if◌then◌else◌,
  arith, Bool-cases, Option-cases, str_eq, length, get_elem?, set, take, drop,
}
use native.Mathlib.Numerals.{add-one}
use text.Mathlib.TextEquality.{eq_iff}
use pet.Battle.Setup.{swap, swap_all, Rand, shuffle}
use pet.Battle.Actions.{index_from, index_of_string, remove_at}

-- 1 if the two ids are the same card, else 0.
abbrev pub one : String → String → ℕ
one x y = if str_eq y x then 1 else 0

-- How often the card `x` is in a pile.
unfoldable pub count_card : String → List String → ℕ
count_card x [] = 0
count_card x (y ∷ ys) = one x y + count_card x ys

pub count_card-append :
    (x : String) (ys zs : List String) → count_card x (ys ++ zs) ≡ count_card x ys + count_card x zs
unfolding count_card
count_card-append x [] zs = omega arith
count_card-append x (y ∷ ys) zs = omega (arith, count_card-append x ys zs)

count_card-set :
    (x : String) (ys : List String) (i : ℕ) (u v : String)
    → get_elem? ys i ≡ some u
    → count_card x (set ys i v) + one x u ≡ count_card x ys + one x v
unfolding count_card
count_card-set x [] i u v e = cc
count_card-set x (y ∷ ys) zero u v e = ground arith
count_card-set x (y ∷ ys) (suc i) u v e = omega (arith, count_card-set x ys i u v e)

get-set :
    (ys : List String) (i j : ℕ) (v : String)
    → get_elem? ys j ≡ some v
    → get_elem? (set ys i v) j ≡ some v
get-set [] i j v e = e
get-set (y ∷ ys) zero zero v e = refl
get-set (y ∷ ys) zero (suc j) v e = e
get-set (y ∷ ys) (suc i) zero v e = e
get-set (y ∷ ys) (suc i) (suc j) v e = get-set ys i j v e

count_card-swap :
    (x : String) (i j : ℕ) (d : List String) → count_card x (swap i j d) ≡ count_card x d
unfolding swap
count_card-swap x i j d = elim (Option-cases (get_elem? d i)) [
  | inl out ↦ rw (out, swap)
  | inr (u, ei) ↦ elim (Option-cases (get_elem? d j)) [
    | inl out ↦ ground arith
    | inr (v, ej) ↦
        let swapped : swap i j d ≡ set (set d i v) j u = ground arith in
        rw swapped (
          omega (
            arith,
            count_card-set x d i u v ei,
            count_card-set x (set d i v) j v u (get-set d i j v ej),
          ))
  ]
]

count_card-swap_all :
    (x : String) (swaps : List (ℕ × ℕ)) (d : List String)
    → count_card x (swap_all swaps d) ≡ count_card x d
unfolding swap_all
count_card-swap_all x [] d = refl
count_card-swap_all x ((i, j) ∷ swaps) d =
    count_card-swap_all x swaps (swap i j d) ∙ count_card-swap x i j d

-- A shuffled deck holds the same cards as before, each as often.
pub count_card-shuffle :
    (R : Rand) (r : Rand.Source R) (x : String) (d : List String)
    → count_card x (shuffle R r d).0 ≡ count_card x d
unfolding shuffle
count_card-shuffle R r x d = count_card-swap_all x (R.shuffle_swaps r (length d)).0 d

index_from-get_elem? :
    (k : ℕ) (ys : List String) (x : String) (n : ℕ)
    → index_from k ys x ≡ some n
    → (o : ℕ) × (n ≡ k + o) × (get_elem? ys o ≡ some x)
unfolding index_from
index_from-get_elem? k [] x n e = cc
index_from-get_elem? k (y ∷ ys) x n e = elim (Bool-cases (str_eq y x)) [
  | inl hit ↦ (0, ground arith, ground (arith, eq_iff y x))
  | inr miss ↦
      let (o, at, got) = index_from-get_elem? (k + 1) ys x n (ground arith) in
      (suc o, omega arith, got)
]

pub index_of_string-get_elem? :
    (ys : List String) (x : String) (n : ℕ)
    → index_of_string ys x ≡ some n
    → get_elem? ys n ≡ some x
unfolding index_of_string
index_of_string-get_elem? ys x n e =
    let (o, at, got) = index_from-get_elem? 0 ys x n e in
    let at' : n ≡ o = omega arith in rw at' got

count_card-cut :
    (x : String) (ys : List String) (n : ℕ) (y : String)
    → get_elem? ys n ≡ some y
    → count_card x (take n ys ++ drop (suc n) ys) + one x y ≡ count_card x ys
unfolding count_card
count_card-cut x [] n y e = cc
count_card-cut x (z ∷ ys) zero y e = ground arith
count_card-cut x (z ∷ ys) (suc n) y e = omega (arith, count_card-cut x ys n y e)

length-cut :
    (ys : List String) (n : ℕ) (y : String)
    → get_elem? ys n ≡ some y
    → length (take n ys ++ drop (suc n) ys) + 1 ≡ length ys
length-cut [] n y e = cc
length-cut (z ∷ ys) zero y e = omega arith
length-cut (z ∷ ys) (suc n) y e = omega (arith, length-cut ys n y e)

-- Taking out the card at `n` leaves the others.
pub count_card-remove_at :
    (x : String) (ys : List String) (n : ℕ) (y : String)
    → get_elem? ys n ≡ some y
    → count_card x (remove_at n ys) + one x y ≡ count_card x ys
unfolding remove_at
count_card-remove_at x ys n y e = rw add-one (count_card-cut x ys n y e)

pub length-remove_at :
    (ys : List String) (n : ℕ) (y : String)
    → get_elem? ys n ≡ some y
    → length (remove_at n ys) + 1 ≡ length ys
unfolding remove_at
length-remove_at ys n y e = simp add-one (omega (arith, length-cut ys n y e))
