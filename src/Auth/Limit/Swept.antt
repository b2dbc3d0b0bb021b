-- ===== src/Auth/Limit/Swept.antt =====
-- What is found after `sweep` of internal/auth/loginlimit.go.
use pet.Base.{
  ℕ, ◌-◌, ◌≡◌, refl, ap, subst, ◌∙◌, inl, inr, String, List, [], ◌∷◌, Option, none, some,
  if◌then◌else◌, str_eq, ltb, arith, Bool-cases,
}
use text.Mathlib.TextEquality.{eq_iff}
use pet.Deck.{lookup, insert}
use pet.Deck.Maps.{lookup-insert}
use pet.Auth.Limit.{Units, Limiter, without_idle}

-- No key is in the list twice.
abbrev pub Once : List (String × Limiter) → Type 0
Once [] = Unit
Once ((k, v) ∷ m) = (lookup k m ≡ none) × Once m

pub Once-insert :
    (k : String) (v : Limiter) (m : List (String × Limiter)) → Once m → Once (insert k v m)
unfolding insert lookup
Once-insert k v [] h = (refl, tt)
Once-insert k v ((i, w) ∷ m) h = elim (Bool-cases (str_eq i k)) [
  | inl hit ↦ rw (hit, Once) (subst (λ j. lookup j m ≡ none) ((eq_iff i k).0 hit) h.0, h.1)
  | inr miss ↦
      rw (miss, Once)
        (
          (lookup-insert i k v m ∙ ground (arith, eq_iff i k, eq_iff k i, h.0)),
          Once-insert k v m h.1,
        )
]

module _ (u : Units) where
  -- What a sweep leaves of an entry.
  abbrev pub fresh : ℕ → Option Limiter → Option Limiter
  fresh now none = none
  fresh now (some b) = if ltb u.ip_idle (now - b.last) then none else some b

  pub lookup-without_idle :
      (now : ℕ) (ip : String) (m : List (String × Limiter))
      → Once m
      → lookup ip (without_idle u now m) ≡ fresh now (lookup ip m)
  unfolding without_idle lookup
  lookup-without_idle now ip [] h = refl
  lookup-without_idle now ip ((k, b) ∷ m) h =
      let rest = lookup-without_idle now ip m h.1 in
      elim (Bool-cases (str_eq k ip)) [
        | inl hit ↦
            let gone : lookup ip m ≡ none =
              subst (λ j. lookup j m ≡ none) ((eq_iff k ip).0 hit) h.0 in
            elim (Bool-cases (ltb u.ip_idle (now - b.last))) [
              | inl idle ↦ rw (hit, idle) (rest ∙ ap (fresh now) gone)
              | inr busy ↦ ground arith
            ]
        | inr miss ↦ elim (Bool-cases (ltb u.ip_idle (now - b.last))) [
          | inl idle ↦ rw (miss, idle) rest
          | inr busy ↦ ground (arith, rest)
        ]
      ]

  pub Once-without_idle :
      (now : ℕ) (m : List (String × Limiter)) → Once m → Once (without_idle u now m)
  unfolding without_idle
  Once-without_idle now [] h = tt
  Once-without_idle now ((k, b) ∷ m) h = elim (Bool-cases (ltb u.ip_idle (now - b.last))) [
    | inl idle ↦ rw (idle, Once) (Once-without_idle now m h.1)
    | inr busy ↦
        rw (busy, Once)
          (lookup-without_idle now k m h.1 ∙ ap (fresh now) h.0, Once-without_idle now m h.1)
  ]
