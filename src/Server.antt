-- ===== src/Server.antt =====
-- The decks that server/main.go gives to players. The database is asked elsewhere: its answer is an
-- argument.
use pet.Base.{
  ℕ, zero, suc, ◌+◌, ◌*◌, min, ◌≤◌, ◌≡◌, ◌∙◌, String, List, [], ◌∷◌, ◌++◌, none, some,
  if◌then◌else◌, ltb, length, length-append, arith,
}
pub mod Matched
pub mod Decks
pub mod Saving
use pet.Deck.{Catalog, ids, len, validate_deck}

-- `store.LoadDeck`: the cards, no row, or another error.
pub data Stored : Type 0 where
  stored : List String → Stored
  no_deck broken : Stored

-- The inner loop of `defaultDeck`: `n` rounds are left.
unfoldable pub add_copies : ℕ → String → List String → List String
add_copies zero id out = out
add_copies (suc n) id out = if ltb (length out) 12 then add_copies n id (out ++ id ∷ []) else out

unfoldable pub add_all : List String → List String → List String
add_all [] out = out
add_all (id ∷ rest) out = add_all rest (add_copies 2 id out)

unfoldable pub default_deck : Catalog → List String
default_deck c = add_all (ids c) []

unfoldable pub load_deck_or_default : Stored → Catalog → String → List String
load_deck_or_default (stored cards) c username =
    elim (validate_deck (some c) (record { owner = username; cards = cards })) [
      | none ↦ cards
      | some e ↦ default_deck c
    ]
load_deck_or_default no_deck c username = default_deck c
load_deck_or_default broken c username = default_deck c

length-add_copies :
    (id : String) (out : List String)
    → length (add_copies 2 id out)
      ≡ (if ltb (length out) 12 then min 12 (length out + 2) else length out)
unfolding add_copies
length-add_copies id out =
    ground (arith, length-append out (id ∷ []), length-append (out ++ id ∷ []) (id ∷ []))

length-add_all :
    (rest out : List String)
    → length out ≤ 12
    → length (add_all rest out) ≡ min 12 (length out + 2 * length rest)
unfolding add_all
length-add_all [] out h = omega arith
length-add_all (id ∷ rest) out h =
    length-add_all rest (add_copies 2 id out) (ground (arith, length-add_copies id out))
    ∙ ground (arith, length-add_copies id out)

-- The default deck has two cards for each card of the table, but at most 12.
pub length-default_deck : (c : Catalog) → length (default_deck c) ≡ min 12 (2 * len c)
unfolding default_deck len ids
length-default_deck c = length-add_all c.order [] (omega arith) ∙ omega arith
