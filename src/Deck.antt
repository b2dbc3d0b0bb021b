-- ===== src/Deck.antt =====
-- internal/deck/deck.go: the card table and the check of a deck. The text of an error is left out:
-- an error of this package is a value of `Error`, with the position that the text would name.
-- Reading the file and parsing YAML are external, so `load` begins at the parsed cards.
pub mod Maps
pub mod Cards
pub mod Load
pub mod Validate
pub mod Listed
use pet.Base.{
  ℕ, suc, ◌+◌, String, ℤ, pos, Bool, true, false, ◌&&◌, ◌||◌, List, [], ◌∷◌, ◌++◌, Option, none,
  some, if◌then◌else◌, str_eq, ltb, ltb_ℤ, leb_ℤ, eqb_ℤ, length, ◌<ℤ◌, ◌≤ℤ◌, IsInt, ◌≡◌, ◌≢◌, ◌⊎◌,
}

abbrev pub type_minion : String
type_minion = "minion"

abbrev pub type_spell : String
type_spell = "spell"

pub record Card : Type 0 where
  pub id : String
  pub name : String
  pub kind : String  -- `Type`
  pub cost : ℤ
  pub atk : ℤ
  pub hp : ℤ
  pub damage : ℤ
  pub heal : ℤ

pub record Deck : Type 0 where
  pub owner : String
  pub cards : List String

-- `byId` is a Go map: an association list in which `insert` overwrites.
pub record Catalog : Type 0 where
  pub by_id : List (String × Card)
  pub order : List String

pub data Error : Type 0 where
  empty_id empty_name negative_cost minion_hp minion_atk spell_effect bad_type duplicate : ℕ → Error
  no_cards nil_catalog : Error
  deck_size : ℕ → Error
  unknown_card too_many_copies : String → Error

-- The `switch` on the type.
validate_kind : ℕ → Card → Option Error
validate_kind i card =
    if str_eq card.kind type_minion
    then (if leb_ℤ card.hp (pos 0)
        then some (minion_hp i)
        else if ltb_ℤ card.atk (pos 0)
        then some (minion_atk i)
        else none)
    else if str_eq card.kind type_spell
    then (if eqb_ℤ card.damage (pos 0) && eqb_ℤ card.heal (pos 0)
        then some (spell_effect i)
        else none)
    else some (bad_type i)

-- `none` is Go's nil error.
unfoldable pub validate_card : ℕ → Card → Option Error
unfolding validate_kind
validate_card i card =
    if str_eq card.id ""
    then some (empty_id i)
    else if str_eq card.name ""
    then some (empty_name i)
    else if ltb_ℤ card.cost (pos 0)
    then some (negative_cost i)
    else validate_kind i card

unfoldable pub lookup {ℓ} : {V : Type ℓ} → String → List (String × V) → Option V
lookup k [] = none
lookup k ((j, v) ∷ m) = if str_eq j k then some v else lookup k m

unfoldable pub insert {ℓ} : {V : Type ℓ} → String → V → List (String × V) → List (String × V)
insert k v [] = (k, v) ∷ []
insert k v ((j, w) ∷ m) = if str_eq j k then (k, v) ∷ m else (j, w) ∷ insert k v m

-- `Get`; the returned pair `(card, ok)` is an Option.
unfoldable pub get : Catalog → String → Option Card
get c id = lookup id c.by_id

unfoldable pub has : Catalog → String → Bool
has c id = elim (lookup id c.by_id) [ some _ ↦ true | none ↦ false ]

unfoldable pub ids : Catalog → List String
ids c = c.order

unfoldable pub len : Catalog → ℕ
len c = length c.order

pub data LoadResult : Type 0 where
  loaded : Catalog → LoadResult
  failed : Error → LoadResult

-- The loop of `Load` over `file.Cards`, from the card at position `i`.
unfoldable pub load_from : ℕ → Catalog → List Card → LoadResult
load_from i c [] = loaded c
load_from i c (card ∷ cards) =
    let rest =
      load_from (i + 1)
        (record c { by_id = insert card.id card c.by_id; order = c.order ++ card.id ∷ [] }) cards in
    elim (validate_card i card) [
      | some e ↦ failed e
      | none ↦ if has c card.id then failed (duplicate i) else rest
    ]

unfoldable pub load : List Card → LoadResult
load cards = elim (load_from 0 (record { by_id = []; order = [] }) cards) [
  | failed e ↦ failed e
  | loaded c ↦ if ltb 0 (len c) then loaded c else failed no_cards
]

-- `count[id]`: a missing key reads as 0.
unfoldable pub count_of : String → List (String × ℕ) → ℕ
count_of id m = elim (lookup id m) [ some n ↦ n | none ↦ 0 ]

-- The loop of `ValidateDeck` over the ids, with the counts so far.
unfoldable pub validate_ids : Catalog → List (String × ℕ) → List String → Option Error
validate_ids c m [] = none
validate_ids c m (id ∷ rest) =
    let m' = insert id (count_of id m + 1) m in
    let tail = validate_ids c m' rest in
    if has c id
    then (if ltb 2 (count_of id m') then some (too_many_copies id) else tail)
    else some (unknown_card id)

unfoldable pub validate_deck : Option Catalog → Deck → Option Error
validate_deck none d = some nil_catalog
validate_deck (some c) d =
    let n = length d.cards in
    if ltb n 8 || ltb 12 n then some (deck_size n) else validate_ids c [] d.cards

-- What the card table promises of a card, written apart from the code that checks it.
abbrev pub IsValidKind : Card → Type 0
IsValidKind c =
    (c.kind ≡ type_minion) × (pos 0 <ℤ c.hp) × (pos 0 ≤ℤ c.atk)
    ⊎ (c.kind ≡ type_spell) × ((c.damage ≢ pos 0) ⊎ (c.heal ≢ pos 0))

pub record IsValidCard (c : Card) : Type 0 where
  pub named : c.id ≢ ""
  pub titled : c.name ≢ ""
  pub cost_nonneg : pos 0 ≤ℤ c.cost
  pub kind_valid : IsValidKind c

-- A card's numbers are 64-bit ints.
pub record IsIntCard (c : Card) : Type 0 where
  pub cost_int : IsInt c.cost
  pub atk_int : IsInt c.atk
  pub hp_int : IsInt c.hp

-- Every entry of a catalog is filed under its id and valid.
abbrev pub IsValidCatalog : Catalog → Type 0
IsValidCatalog c =
    (id : String) (card : Card)
    → lookup id c.by_id ≡ some card
    → (card.id ≡ id) × IsValidCard card × IsIntCard card
