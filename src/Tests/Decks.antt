-- ===== src/Tests/Decks.antt =====
-- Witnesses for internal/deck: a table of four cards and a deck of eight.
use pet.Base.{◌≡◌, ◌↔◌, none, some}
use pet.Deck.{validate_deck}
use pet.Deck.Validate.{IsLegalDeck, validate_deck-IsLegalDeck}
use pet.Tests.Fixture.{table, eight}

validate_deck-IsLegalDeck_example :
    (validate_deck (some table) (record { owner = "alice"; cards = eight }) ≡ none)
    ↔ IsLegalDeck table eight
validate_deck-IsLegalDeck_example =
    validate_deck-IsLegalDeck table (record { owner = "alice"; cards = eight })
