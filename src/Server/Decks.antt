-- ===== src/Server/Decks.antt =====
-- The decks that server/main.go gives to players are legal.
use pet.Base.{
  ℕ, zero, suc, ◌+◌, ◌*◌, ◌≤◌, ◌≡◌, inl, inr, String, true, List, [], ◌∷◌, ◌++◌, some,
  if◌then◌else◌, str_eq, ltb, All, All-append, arith, Bool-cases, Option-cases, length,
}
use pet.Deck.{Card, Catalog, has, ids, len, load, loaded, validate_deck}
use pet.Deck.Validate.{copies, IsLegalDeck, validate_deck-IsLegalDeck}
use pet.Deck.Listed.{IsDistinctTable, load-IsDistinctTable}
use pet.Server.{
  Stored, stored, no_deck, broken, add_copies, add_all, default_deck, load_deck_or_default,
  length-default_deck,
}

copies-append :
    (x : String) (l : List String) (id : String)
    → copies x (l ++ id ∷ []) ≡ copies x l + (if str_eq id x then 1 else 0)
unfolding copies
copies-append x [] id = omega arith
copies-append x (y ∷ l) id = omega (arith, copies-append x l id)

copies-add_copies :
    (x : String) (n : ℕ) (id : String) (out : List String)
    → copies x (add_copies n id out) ≤ copies x out + n * (if str_eq id x then 1 else 0)
unfolding add_copies
copies-add_copies x zero id out = omega arith
copies-add_copies x (suc n) id out =
    let more = copies-add_copies x n id (out ++ id ∷ []) in
    ground (arith, more, copies-append x out id)

copies-add_all :
    (x : String) (rest out : List String)
    → copies x (add_all rest out) ≤ copies x out + 2 * copies x rest
unfolding add_all copies
copies-add_all x [] out = omega arith
copies-add_all x (id ∷ rest) out =
    omega (arith, copies-add_all x rest (add_copies 2 id out), copies-add_copies x 2 id out)

module _ (P : String → Type 0) where
  All-add_copies :
      (n : ℕ) (id : String) (out : List String) → P id → All P out → All P (add_copies n id out)
  unfolding add_copies
  All-add_copies zero id out p h = h
  All-add_copies (suc n) id out p h = elim (Bool-cases (ltb (length out) 12)) [
    | inl e ↦ rw e (All-add_copies n id (out ++ id ∷ []) p (All-append P out (id ∷ []) h (p, tt)))
    | inr e ↦ rw e h
  ]

  All-add_all : (rest out : List String) → All P rest → All P out → All P (add_all rest out)
  unfolding add_all
  All-add_all [] out p h = h
  All-add_all (id ∷ rest) out p h =
      All-add_all rest (add_copies 2 id out) p.1 (All-add_copies 2 id out p.0 h)

default_deck-IsLegalDeck :
    (cards : List Card) (c : Catalog)
    → IsDistinctTable cards c
    → 4 ≤ length cards
    → IsLegalDeck c (default_deck c)
unfolding default_deck ids
default_deck-IsLegalDeck cards c t enough =
    let size = length-default_deck c in
    record {
      size_min = unfold len in omega (arith, size, enough, t.as_many);
      size_max = unfold len in omega (arith, size);
      all_known = All-add_all (λ id. has c id ≡ true) c.order [] t.listed tt;
      at_most_twice = λ x. unfold copies in omega (arith, copies-add_all x c.order [], t.once x);
    }

-- With a table that `Load` makes of at least four cards, the deck that `loadDeckOrDefault` gives a
-- player is legal for `ValidateDeck`, whatever the database has stored for the player.
pub load_deck_or_default-IsLegalDeck :
    (cards : List Card) (c : Catalog) (s : Stored) (name : String)
    → load cards ≡ loaded c
    → 4 ≤ length cards
    → IsLegalDeck c (load_deck_or_default s c name)
unfolding load_deck_or_default
load_deck_or_default-IsLegalDeck cards c s name e enough =
    go s (default_deck-IsLegalDeck cards c (load-IsDistinctTable cards c e) enough)
  where
    go :
        (s' : Stored)
        → IsLegalDeck c (default_deck c)
        → IsLegalDeck c (load_deck_or_default s' c name)
    go no_deck d = d
    go broken d = d
    go (stored l) d =
        elim (Option-cases (validate_deck (some c) (record { owner = name; cards = l }))) [
          | inl v ↦
              rw (v, load_deck_or_default)
                ((validate_deck-IsLegalDeck c (record { owner = name; cards = l })).0 v)
          | inr (x, v) ↦ rw (v, load_deck_or_default) d
        ]
