-- ===== src/Deck/Validate.antt =====
-- What `ValidateDeck` of internal/deck/deck.go accepts.
use pet.Base.{
  ℕ, ◌+◌, ◌≤◌, ◌≡◌, ◌↔◌, refl, sym, ◌∙◌, String, true, List, [], ◌∷◌, none, some, if◌then◌else◌,
  str_eq, length, All, arith,
}
use text.Mathlib.TextEquality.{eq_iff}
use pet.Deck.{Catalog, Deck, has, lookup, insert, count_of, validate_ids, validate_deck}
use pet.Deck.Maps.{lookup-insert}

-- How often an id stands in a list.
unfoldable pub copies : String → List String → ℕ
copies x [] = 0
copies x (y ∷ ys) = (if str_eq y x then 1 else 0) + copies x ys

-- The rules for a deck: 8 to 12 cards, all known, none more than twice.
pub record IsLegalDeck (c : Catalog) (cards : List String) : Type 0 where
  pub size_min : 8 ≤ length cards
  pub size_max : length cards ≤ 12
  pub all_known : All (λ id. has c id ≡ true) cards
  pub at_most_twice : (x : String) → copies x cards ≤ 2

count_of-insert :
    (x id : String) (n : ℕ) (m : List (String × ℕ))
    → count_of x (insert id n m) ≡ (if str_eq id x then n else count_of x m)
unfolding count_of
count_of-insert x id n m = ground (arith, lookup-insert x id n m)

validate_ids-step :
    (c : Catalog) (m : List (String × ℕ)) (id : String) (rest : List String)
    → has c id ≡ true
    → count_of id m + 1 ≤ 2
    → validate_ids c m (id ∷ rest) ≡ validate_ids c (insert id (count_of id m + 1) m) rest
unfolding validate_ids
validate_ids-step c m id rest h few =
    ground (arith, count_of-insert id id (count_of id m + 1) m, eq_iff id id)

validate_ids-accepts :
    (c : Catalog) (m : List (String × ℕ)) (id : String) (rest : List String)
    → validate_ids c m (id ∷ rest) ≡ none
    → (has c id ≡ true) × (count_of id m + 1 ≤ 2)
unfolding validate_ids
validate_ids-accepts c m id rest e =
    ground (arith, count_of-insert id id (count_of id m + 1) m, eq_iff id id)

-- What a count becomes when `id` is counted.
counted :
    (x id : String) (m : List (String × ℕ)) (rest : List String)
    → count_of x (insert id (count_of id m + 1) m) + copies x rest
      ≡ count_of x m + copies x (id ∷ rest)
unfolding copies
counted x id m rest = ground (arith, count_of-insert x id (count_of id m + 1) m, eq_iff id x)

validate_ids_sound :
    (c : Catalog) (m : List (String × ℕ)) (cards : List String)
    → validate_ids c m cards ≡ none
    → All (λ id. has c id ≡ true) cards
      × ((x : String) → count_of x m ≤ 2 → count_of x m + copies x cards ≤ 2)
validate_ids_sound c m [] e = (tt, λ x h. unfold copies in omega arith)
validate_ids_sound c m (id ∷ rest) e =
    let (known, few) = validate_ids-accepts c m id rest e in
    let m' = insert id (count_of id m + 1) m in
    let (all, twice) =
      validate_ids_sound c m' rest (sym (validate_ids-step c m id rest known few) ∙ e) in
    (
      (known, all),
      λ x h. omega (
        arith,
        counted x id m rest,
        twice x (ground (arith, count_of-insert x id (count_of id m + 1) m, few)),
      ),
    )

validate_ids_complete :
    (c : Catalog) (m : List (String × ℕ)) (cards : List String)
    → All (λ id. has c id ≡ true) cards
    → ((x : String) → count_of x m + copies x cards ≤ 2)
    → validate_ids c m cards ≡ none
validate_ids_complete c m [] all few = unfold validate_ids in refl
validate_ids_complete c m (id ∷ rest) all few =
    let m' = insert id (count_of id m + 1) m in
    let now : count_of id m + 1 ≤ 2 = unfold copies in ground (arith, few id, eq_iff id id) in
    validate_ids-step c m id rest all.0 now
    ∙ validate_ids_complete c m' rest all.1 (λ x. omega (arith, counted x id m rest, few x))

-- `ValidateDeck` with a catalog accepts a deck exactly when it has 8 to 12 cards, all of them in
-- the catalog, and no card more than twice.
pub validate_deck-IsLegalDeck :
    (c : Catalog) (d : Deck) → (validate_deck (some c) d ≡ none) ↔ IsLegalDeck c d.cards
validate_deck-IsLegalDeck c d = (
  λ e.
      let (all, few) = validate_ids_sound c [] d.cards (unfold validate_deck in ground arith) in
      record {
        size_min = unfold validate_deck in ground arith;
        size_max = unfold validate_deck in ground arith;
        all_known = all;
        at_most_twice = λ x.
            unfold count_of lookup in omega (arith, few x (unfold count_of lookup in omega arith));
      },
  λ h.
      let e =
        validate_ids_complete c [] d.cards h.all_known
          (λ x. unfold count_of lookup in omega (arith, h.at_most_twice x)) in
      unfold validate_deck in ground (arith, e, h.size_min, h.size_max),
)
