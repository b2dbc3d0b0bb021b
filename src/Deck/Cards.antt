-- ===== src/Deck/Cards.antt =====
-- What `validateCard` of internal/deck/deck.go accepts.
use pet.Base.{
  ℕ, ◌≡◌, ◌≢◌, ◌↔◌, inl, inr, refl, ℤ, pos, negsuc, eqb_ℤ, true, false, none, str_eq, arith,
  Bool-cases,
}
use text.Mathlib.TextEquality.{eq_iff}
use pet.Deck.{Card, type_minion, type_spell, IsValidCard, IsValidKind, validate_card, validate_kind}

eqb_ℤ-eq : (z : ℤ) → eqb_ℤ z (pos 0) ≡ true → z ≡ pos 0
eqb_ℤ-eq (pos n) e = ground arith
eqb_ℤ-eq (negsuc n) e = cc

eqb_ℤ-ne : (z : ℤ) → z ≢ pos 0 → eqb_ℤ z (pos 0) ≡ false
eqb_ℤ-ne (pos n) h = ground arith
eqb_ℤ-ne (negsuc n) h = refl

IsValidKind-validate : (i : ℕ) (card : Card) → IsValidKind card → validate_kind i card ≡ none
unfolding validate_kind
IsValidKind-validate i card (inl (k, hp, atk)) = ground (arith, eq_iff card.kind type_minion)
IsValidKind-validate i card (inr (k, inl damage)) = ground (
  arith,
  eq_iff card.kind type_minion,
  eq_iff card.kind type_spell,
  eq_iff type_spell type_minion,
  eqb_ℤ-ne card.damage damage,
)
IsValidKind-validate i card (inr (k, inr heal)) = ground (
  arith,
  eq_iff card.kind type_minion,
  eq_iff card.kind type_spell,
  eq_iff type_spell type_minion,
  eqb_ℤ-ne card.heal heal,
)

validate-IsValidKind : (i : ℕ) (card : Card) → validate_kind i card ≡ none → IsValidKind card
unfolding validate_kind
validate-IsValidKind i card e = elim (Bool-cases (str_eq card.kind type_minion)) [
  | inl m ↦ inl ((eq_iff card.kind type_minion).0 m, ground arith, ground arith)
  | inr not_minion ↦ elim (Bool-cases (str_eq card.kind type_spell)) [
    | inr other ↦ ground arith
    | inl spell ↦ elim (Bool-cases (eqb_ℤ card.damage (pos 0))) [
      | inr damage ↦ inr ((eq_iff card.kind type_spell).0 spell, inl (λ z. ground arith))
      | inl zero_damage ↦ inr ((eq_iff card.kind type_spell).0 spell, inr (λ z. ground arith))
    ]
  ]
]

-- `validateCard` accepts exactly the cards that have an id, a name and a cost that is not
-- negative, and are either a minion with positive health and no negative attack or a spell with
-- damage or healing.
pub validate_card-IsValidCard :
    (i : ℕ) (card : Card) → (validate_card i card ≡ none) ↔ IsValidCard card
validate_card-IsValidCard i card = (
  λ e. record {
    named = λ n. unfold validate_card in ground (arith, eq_iff card.id "");
    titled = λ n. unfold validate_card in ground (arith, eq_iff card.name "");
    cost_nonneg = unfold validate_card in ground arith;
    kind_valid = validate-IsValidKind i card (unfold validate_card in ground arith);
  },
  λ v.
      let k = IsValidKind-validate i card v.kind_valid in
      unfold validate_card in
      ground (arith, k, eq_iff card.id "", eq_iff card.name "", v.named, v.titled, v.cost_nonneg),
)
