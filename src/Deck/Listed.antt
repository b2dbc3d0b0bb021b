-- ===== src/Deck/Listed.antt =====
-- internal/deck/deck.go: the ids that a table lists are those of its cards, each once.
use pet.Base.{
  ℕ, suc, ◌+◌, ◌≤◌, ◌≡◌, refl, sym, ap, ◌∙◌, subst, inl, inr, String, true, List, [], ◌∷◌, ◌++◌,
  str_eq, All, All-append, arith, Bool-cases, Option-cases, length,
}
use text.Mathlib.TextEquality.{eq_iff}
use pet.Deck.{Card, Catalog, has, insert, validate_card, load_from, load, loaded}
use pet.Deck.Maps.{lookup-insert}
use pet.Deck.Load.{
  Distinct, Lacks, ids_of, load-IsTableOf, load-IsLoadable, load-accepts, nothing_loaded,
}
use pet.Deck.Validate.{copies}

-- Every id that the table lists is one of its cards.
abbrev pub IsListed : Catalog → Type 0
IsListed c = All (λ id. has c id ≡ true) c.order

abbrev extended : Catalog → Card → Catalog
extended c card = record { by_id = insert card.id card c.by_id; order = c.order ++ card.id ∷ [] }

has-extended :
    (c : Catalog) (card : Card) (id : String) → has c id ≡ true → has (extended c card) id ≡ true
unfolding has
has-extended c card id h = ground (arith, h, lookup-insert id card.id card c.by_id)

has-new : (c : Catalog) (card : Card) → has (extended c card) card.id ≡ true
unfolding has
has-new c card = ground (arith, lookup-insert card.id card.id card c.by_id, eq_iff card.id card.id)

All-has :
    (c : Catalog) (card : Card) (ids : List String)
    → All (λ id. has c id ≡ true) ids
    → All (λ id. has (extended c card) id ≡ true) ids
All-has c card [] h = tt
All-has c card (id ∷ ids) h = (has-extended c card id h.0, All-has c card ids h.1)

IsListed-extended : (c : Catalog) (card : Card) → IsListed c → IsListed (extended c card)
IsListed-extended c card h =
    All-append (λ id. has (extended c card) id ≡ true) c.order (card.id ∷ [])
      (All-has c card c.order h) (has-new c card, tt)

load_from-IsListed :
    (i : ℕ) (c d : Catalog) (cards : List Card)
    → load_from i c cards ≡ loaded d
    → IsListed c
    → IsListed d
unfolding load_from
load_from-IsListed i c d [] e h = let same : c ≡ d = cc e in subst IsListed same h
load_from-IsListed i c d (card ∷ cards) e h = elim (Option-cases (validate_card i card)) [
  | inr (x, v) ↦ ground (arith, e, v)
  | inl v ↦ elim (Bool-cases (has c card.id)) [
    | inl q ↦ ground (arith, e, v, q)
    | inr q ↦
        load_from-IsListed (i + 1) (extended c card) d cards (ground (arith, e, v, q))
          (IsListed-extended c card h)
  ]
]

Lacks-copies : (x : String) (l : List String) → Lacks x l → copies x l ≡ 0
unfolding copies
Lacks-copies x [] h = refl
Lacks-copies x (y ∷ l) h = ground (arith, eq_iff y x, h.0, Lacks-copies x l h.1)

pub Distinct-copies : (x : String) (l : List String) → Distinct l → copies x l ≤ 1
unfolding copies
Distinct-copies x [] h = omega arith
Distinct-copies x (y ∷ l) h = elim (Bool-cases (str_eq y x)) [
  | inl e ↦
      let none_left = Lacks-copies x l (subst (λ z. Lacks z l) ((eq_iff y x).0 e) h.0) in
      rw e (omega (arith, none_left))
  | inr e ↦ rw e (omega (arith, Distinct-copies x l h.1))
]

-- A table that `Load` makes lists ids of its cards, each once, and as many as the file has.
pub record IsDistinctTable (cards : List Card) (c : Catalog) : Type 0 where
  pub listed : IsListed c
  pub once : (x : String) → copies x c.order ≤ 1
  pub as_many : length c.order ≡ length cards

length-ids_of : (cards : List Card) → length (ids_of cards) ≡ length cards
unfolding ids_of
length-ids_of [] = refl
length-ids_of (card ∷ cards) = ap suc (length-ids_of cards)

pub load-IsDistinctTable :
    (cards : List Card) (c : Catalog) → load cards ≡ loaded c → IsDistinctTable cards c
load-IsDistinctTable cards c e =
    let table = load-IsTableOf cards c e in
    let loadable = (load-IsLoadable cards).0 (c, e, table) in
    record {
      listed = load_from-IsListed 0 nothing_loaded c cards (load-accepts cards c e).0 tt;
      once = λ x.
          subst (λ l. copies x l ≤ 1) (sym table.in_file_order)
            (Distinct-copies x (ids_of cards) loadable.ids_distinct);
      as_many = ap length table.in_file_order ∙ length-ids_of cards;
    }
