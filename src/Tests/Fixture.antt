-- ===== src/Tests/Fixture.antt =====
-- Four cards of a card table, two decks of them and a game between "alice" and "bob".
use pet.Base.{ℕ, zero, suc, ◌<◌, ◌≡◌, refl, String, pos, List, [], ◌∷◌, some, All, arith}
use text.Mathlib.TextEquality.{eq_iff}
use pet.Deck.{
  Card, Catalog, IsIntCard, IsValidCatalog, load, loaded, load_from, validate_card, has, lookup,
  insert, len,
}
use pet.Deck.Load.{load-IsTableOf}
use pet.Battle.Model.{State}
use pet.Battle.Setup.{PlayerInit, Rand, new_state, seat_players, open_game, ready}
use pet.Battle.Opening.{CanOpen, new_state-CanOpen, open_game-IsSound}
use pet.Battle.Invariant.{IsSound}

abbrev pub slime : Card
slime = record {
  id = "slime";
  name = "Slime";
  kind = "minion";
  cost = pos 1;
  atk = pos 1;
  hp = pos 2;
  damage = pos 0;
  heal = pos 0;
}

abbrev pub wolf : Card
wolf = record {
  id = "wolf";
  name = "Wolf";
  kind = "minion";
  cost = pos 2;
  atk = pos 3;
  hp = pos 2;
  damage = pos 0;
  heal = pos 0;
}

abbrev pub golem : Card
golem = record {
  id = "golem";
  name = "Golem";
  kind = "minion";
  cost = pos 4;
  atk = pos 3;
  hp = pos 6;
  damage = pos 0;
  heal = pos 0;
}

abbrev pub bolt : Card
bolt = record {
  id = "bolt";
  name = "Bolt";
  kind = "spell";
  cost = pos 2;
  atk = pos 0;
  hp = pos 0;
  damage = pos 3;
  heal = pos 0;
}

abbrev pub four_cards : List Card
four_cards = slime ∷ wolf ∷ golem ∷ bolt ∷ []

abbrev pub table : Catalog
table = record {
  by_id = ("slime", slime) ∷ ("wolf", wolf) ∷ ("golem", golem) ∷ ("bolt", bolt) ∷ [];
  order = "slime" ∷ "wolf" ∷ "golem" ∷ "bolt" ∷ [];
}

pub load_four : load four_cards ≡ loaded table
unfolding load load_from validate_card has lookup insert len
load_four = refl

slime_int : IsIntCard slime
slime_int = record { cost_int = omega arith; atk_int = omega arith; hp_int = omega arith }

wolf_int : IsIntCard wolf
wolf_int = record { cost_int = omega arith; atk_int = omega arith; hp_int = omega arith }

golem_int : IsIntCard golem
golem_int = record { cost_int = omega arith; atk_int = omega arith; hp_int = omega arith }

bolt_int : IsIntCard bolt
bolt_int = record { cost_int = omega arith; atk_int = omega arith; hp_int = omega arith }

pub table-IsValidCatalog : IsValidCatalog table
table-IsValidCatalog =
    (load-IsTableOf four_cards table load_four).all_filed
      (slime_int, (wolf_int, (golem_int, (bolt_int, tt))))

abbrev pub eight : List String
eight = "slime" ∷ "slime" ∷ "wolf" ∷ "wolf" ∷ "golem" ∷ "golem" ∷ "bolt" ∷ "bolt" ∷ []

abbrev pub alice : PlayerInit
alice = record { id = "alice"; cards = eight }

abbrev pub bob : PlayerInit
bob = record { id = "bob"; cards = eight }

-- A source that swaps the first card and the last.
abbrev pub ends_swapped : ℕ → List (ℕ × ℕ)
ends_swapped zero = []
ends_swapped (suc n) = (0, n) ∷ []

pub ends_in_range : (n : ℕ) → All (λ (e : ℕ × ℕ). (e.0 < n) × (e.1 < n)) (ends_swapped n)
ends_in_range zero = tt
ends_in_range (suc n) = ((omega arith, omega arith), tt)

abbrev pub fixed : Rand
fixed = record {
  Source = Unit;
  new_source = λ seed. tt;
  shuffle_swaps = λ r n. (ends_swapped n, r);
  in_range = λ r n. ends_in_range n;
}

abbrev pub opened : State
opened = open_game (seat_players fixed "room" table alice bob (pos 7))

pub alice-bob : CanOpen alice bob
alice-bob = record {
  first_named = λ e. ground (arith, (eq_iff "alice" "").1 e);
  second_named = λ e. ground (arith, (eq_iff "bob" "").1 e);
  ids_differ = λ e. ground (arith, (eq_iff "alice" "bob").1 e);
  first_deck = omega arith;
  second_deck = omega arith;
}

pub new_state-opened : new_state fixed "room" (some table) alice bob (pos 7) ≡ ready opened
new_state-opened = new_state-CanOpen fixed "room" table alice bob (pos 7) alice-bob

pub opened-IsSound : IsSound opened
opened-IsSound =
    open_game-IsSound fixed "room" table alice bob (pos 7) alice-bob table-IsValidCatalog
