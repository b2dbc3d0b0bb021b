-- ===== src/Deck/Load.antt =====
-- What `Load` of internal/deck/deck.go accepts, and the catalog that it makes.
use pet.Base.{
  ℕ, ◌+◌, ◌≡◌, ◌≢◌, ◌↔◌, inl, inr, refl, sym, subst, ◌∙◌, String, false, List, [], ◌∷◌, ◌++◌, map,
  append_assoc, append-nil, none, some, str_eq, All, arith, Bool-cases,
}
use pet.Deck.Maps.{lookup-insert}
use pet.Deck.Cards.{validate_card-IsValidCard}
use text.Mathlib.TextEquality.{eq_iff}
use pet.Deck.{
  Card, Catalog, IsValidCard, IsIntCard, IsValidCatalog, validate_card, lookup, insert, has, loaded,
  load_from, load, len,
}

-- No id is in the list twice.
abbrev pub Lacks : String → List String → Type 0
Lacks x = All (λ y. y ≢ x)

abbrev pub Distinct : List String → Type 0
Distinct [] = Unit
Distinct (x ∷ xs) = Lacks x xs × Distinct xs

unfoldable pub ids_of : List Card → List String
ids_of = map (λ c. c.id)

-- The catalog with one more card.
abbrev extended : Catalog → Card → Catalog
extended c card = record c { by_id = insert card.id card c.by_id; order = c.order ++ card.id ∷ [] }

Distinct-cons :
    (card : Card) (cards : List Card)
    → Lacks card.id (ids_of cards)
    → Distinct (ids_of cards)
    → Distinct (ids_of (card ∷ cards))
unfolding ids_of
Distinct-cons card cards l d = (l, d)

Distinct-uncons :
    (card : Card) (cards : List Card)
    → Distinct (ids_of (card ∷ cards))
    → Lacks card.id (ids_of cards) × Distinct (ids_of cards)
unfolding ids_of
Distinct-uncons card cards d = d

-- Every entry of a catalog is filed under its id and has the property `P`.
abbrev Filed : (Card → Type 0) → Catalog → Type 0
Filed P c = (id : String) (card : Card) → lookup id c.by_id ≡ some card → (card.id ≡ id) × P card

Filed-extended :
    (P : Card → Type 0) (c : Catalog) (card : Card) → P card → Filed P c → Filed P (extended c card)
Filed-extended P c card p h id found e = elim (Bool-cases (str_eq card.id id)) [
  | inl same ↦
      let e' : card ≡ found = ground (arith, lookup-insert id card.id card c.by_id) in
      (ground (arith, eq_iff card.id id), subst P e' p)
  | inr other ↦ h id found (ground (arith, lookup-insert id card.id card c.by_id))
]

-- The cards of which none is in the catalog.
abbrev New : Catalog → List Card → Type 0
New c = All (λ card. lookup card.id c.by_id ≡ none)

has-none : (c : Catalog) (id : String) → has c id ≡ false → lookup id c.by_id ≡ none
unfolding has
has-none c id e = ground arith

none-has : (c : Catalog) (id : String) → lookup id c.by_id ≡ none → has c id ≡ false
unfolding has
none-has c id e = ground arith

-- One round of the loop that finds nothing wrong.
load_from-step :
    (i : ℕ) (c : Catalog) (card : Card) (cards : List Card)
    → validate_card i card ≡ none
    → has c card.id ≡ false
    → load_from i c (card ∷ cards) ≡ load_from (i + 1) (extended c card) cards
unfolding load_from
load_from-step i c card cards v h = ground arith

-- A round of a loop that succeeds.
load_from-accepts :
    (i : ℕ) (c d : Catalog) (card : Card) (cards : List Card)
    → load_from i c (card ∷ cards) ≡ loaded d
    → (validate_card i card ≡ none) × (has c card.id ≡ false)
unfolding load_from
load_from-accepts i c d card cards e = ground arith

New-extended :
    (c : Catalog) (card : Card) (cards : List Card)
    → New (extended c card) cards
    → New c cards × Lacks card.id (ids_of cards)
unfolding ids_of
New-extended c card [] h = (tt, tt)
New-extended c card (d ∷ cards) h =
    let (new, lacks) = New-extended c card cards h.1 in
    (
      (ground (arith, lookup-insert d.id card.id card c.by_id, h.0), new),
      (
        (λ e. ground (arith, lookup-insert d.id card.id card c.by_id, eq_iff card.id d.id, h.0)),
        lacks,
      ),
    )

extended-New :
    (c : Catalog) (card : Card) (cards : List Card)
    → New c cards
    → Lacks card.id (ids_of cards)
    → New (extended c card) cards
unfolding ids_of
extended-New c card [] h l = tt
extended-New c card (d ∷ cards) h l = (
  ground (arith, lookup-insert d.id card.id card c.by_id, eq_iff card.id d.id, h.0, l.0),
  extended-New c card cards h.1 l.1,
)

-- What the loop asks of the cards still to come.
record CanLoad (c : Catalog) (cards : List Card) : Type 0 where
  valid : All IsValidCard cards
  distinct : Distinct (ids_of cards)
  new : New c cards

load_from-CanLoad :
    (i : ℕ) (c d : Catalog) (cards : List Card) → load_from i c cards ≡ loaded d → CanLoad c cards
load_from-CanLoad i c d [] e = record { valid = tt; distinct = unfold ids_of in tt; new = tt }
load_from-CanLoad i c d (card ∷ cards) e =
    let (v, h) = load_from-accepts i c d card cards e in
    let rest =
      load_from-CanLoad (i + 1) (extended c card) d cards
        (sym (load_from-step i c card cards v h) ∙ e) in
    let (new, lacks) = New-extended c card cards rest.new in
    record {
      valid = ((validate_card-IsValidCard i card).0 v, rest.valid);
      distinct = Distinct-cons card cards lacks rest.distinct;
      new = (has-none c card.id h, new);
    }

-- Every card of the list is found under its id, and it is that card.
abbrev pub Finds : Catalog → List Card → Type 0
Finds c = All (λ card. lookup card.id c.by_id ≡ some card)

-- A card is filed where the loop stands, and what has another id stays.
lookup-filed :
    (c : Catalog) (card : Card) → lookup card.id (insert card.id card c.by_id) ≡ some card
lookup-filed c card =
    ground (arith, lookup-insert card.id card.id card c.by_id, eq_iff card.id card.id)

lookup-other :
    (c : Catalog) (card : Card) (id : String)
    → card.id ≢ id
    → lookup id (insert card.id card c.by_id) ≡ lookup id c.by_id
lookup-other c card id h = ground (arith, lookup-insert id card.id card c.by_id, eq_iff card.id id)

Lacks-uncons :
    (id : String) (card : Card) (cards : List Card)
    → Lacks id (ids_of (card ∷ cards))
    → (card.id ≢ id) × Lacks id (ids_of cards)
unfolding ids_of
Lacks-uncons id card cards l = l

-- What the loop makes of cards that can be loaded.
record Made (P : Card → Type 0) (c : Catalog) (cards : List Card) (d : Catalog) : Type 0 where
  in_order : d.order ≡ c.order ++ ids_of cards
  kept : (id : String) → Lacks id (ids_of cards) → lookup id d.by_id ≡ lookup id c.by_id
  finds : Finds d cards
  filed : All P cards → Filed P c → Filed P d

CanLoad-load_from :
    (P : Card → Type 0) (i : ℕ) (c : Catalog) (cards : List Card)
    → CanLoad c cards
    → (d : Catalog) × (load_from i c cards ≡ loaded d) × Made P c cards d
CanLoad-load_from P i c [] can = (
  c,
  unfold load_from in refl,
  record {
    in_order = unfold ids_of in sym (append-nil c.order);
    kept = λ id l. refl;
    finds = tt;
    filed = λ _ f. f;
  },
)
CanLoad-load_from P i c (card ∷ cards) can =
    let v = (validate_card-IsValidCard i card).1 can.valid.0 in
    let (lacks, distinct) = Distinct-uncons card cards can.distinct in
    let (d, e, made) = CanLoad-load_from P (i + 1) (extended c card) cards (record {
      valid = can.valid.1;
      distinct = distinct;
      new = extended-New c card cards can.new.1 lacks;
    }) in
    (
      d,
      load_from-step i c card cards v (none-has c card.id can.new.0) ∙ e,
      record {
        in_order =
            made.in_order ∙ unfold ids_of in append_assoc c.order (card.id ∷ []) (ids_of cards);
        kept = λ id l.
            let (other, rest) = Lacks-uncons id card cards l in
            made.kept id rest ∙ lookup-other c card id other;
        finds = (made.kept card.id lacks ∙ lookup-filed c card, made.finds);
        filed = λ ps f. made.filed ps.1 (Filed-extended P c card ps.0 f);
      },
    )

abbrev pub nothing_loaded : Catalog
nothing_loaded = record { by_id = []; order = [] }

-- What a list of cards must be for `Load` to take it.
pub record IsLoadable (cards : List Card) : Type 0 where
  pub cards_valid : All IsValidCard cards
  pub ids_distinct : Distinct (ids_of cards)
  pub some_card : cards ≢ []

-- The catalog that a list of cards stands for.
pub record IsTableOf (cards : List Card) (c : Catalog) : Type 0 where
  pub in_file_order : c.order ≡ ids_of cards
  pub all_found : Finds c cards
  pub all_filed : All IsIntCard cards → IsValidCatalog c

New-nothing : (cards : List Card) → New nothing_loaded cards
New-nothing [] = tt
New-nothing (card ∷ cards) = (unfold lookup in refl, New-nothing cards)

Filed-nothing : (P : Card → Type 0) → Filed P nothing_loaded
Filed-nothing P id card e = unfold lookup in cc

All-both :
    (P Q : Card → Type 0) (cards : List Card)
    → All P cards
    → All Q cards
    → All (λ c. P c × Q c) cards
All-both P Q [] p q = tt
All-both P Q (card ∷ cards) p q = ((p.0, q.0), All-both P Q cards p.1 q.1)

pub load-accepts :
    (cards : List Card) (c : Catalog)
    → load cards ≡ loaded c
    → (load_from 0 nothing_loaded cards ≡ loaded c) × (cards ≢ [])
unfolding load
load-accepts [] c e = unfold load_from len in ground arith
load-accepts (card ∷ cards) c e = (ground arith, λ e. ground arith)

loaded-ne :
    (cards : List Card) (c : Catalog)
    → cards ≢ []
    → c.order ≡ ids_of cards
    → load_from 0 nothing_loaded cards ≡ loaded c
    → load cards ≡ loaded c
unfolding load ids_of len
loaded-ne [] c h o e = elim (h refl) [ ]
loaded-ne (card ∷ cards) c h o e = ground arith

All-given :
    (Q : Card → Type 0) (R : Type 0) (cards : List Card)
    → (R → All Q cards)
    → All (λ card. R → Q card) cards
All-given Q R [] h = tt
All-given Q R (card ∷ cards) h = ((λ r. (h r).0), All-given Q R cards (λ r. (h r).1))

pub load-IsLoadable :
    (cards : List Card)
    → ((c : Catalog) × (load cards ≡ loaded c) × IsTableOf cards c) ↔ IsLoadable cards
load-IsLoadable cards = (
  λ (c, e, table).
      let (e', some_card) = load-accepts cards c e in
      let can = load_from-CanLoad 0 nothing_loaded c cards e' in
      record { cards_valid = can.valid; ids_distinct = can.distinct; some_card = some_card },
  λ h.
      let can : CanLoad nothing_loaded cards = record {
        valid = h.cards_valid;
        distinct = h.ids_distinct;
        new = New-nothing cards;
      } in
      let Ints = All IsIntCard cards in
      let P : Card → Type 0 = λ card. IsValidCard card × (Ints → IsIntCard card) in
      let (c, e, made) = CanLoad-load_from P 0 nothing_loaded cards can in
      let filed =
        made.filed
          (All-both IsValidCard (λ card. Ints → IsIntCard card) cards h.cards_valid
            (All-given IsIntCard Ints cards (λ r. r)))
          (Filed-nothing P) in
      (
        c,
        loaded-ne cards c h.some_card made.in_order e,
        record {
          in_file_order = made.in_order;
          all_found = made.finds;
          all_filed = λ ints id card e. let (named, p) = filed id card e in (named, p.0, p.1 ints);
        },
      ),
)

loaded_inj : {c d : Catalog} → loaded c ≡ loaded d → c ≡ d
loaded_inj e = cc

pub load-IsTableOf : (cards : List Card) (c : Catalog) → load cards ≡ loaded c → IsTableOf cards c
load-IsTableOf cards c e =
    let (e', some_card) = load-accepts cards c e in
    let can = load_from-CanLoad 0 nothing_loaded c cards e' in
    let (d, e'', table) =
      (load-IsLoadable cards).1
        (record { cards_valid = can.valid; ids_distinct = can.distinct; some_card = some_card }) in
    subst (IsTableOf cards) (loaded_inj (sym e'' ∙ e)) table
