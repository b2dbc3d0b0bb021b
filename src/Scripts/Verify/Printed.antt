-- ===== src/Scripts/Verify/Printed.antt =====
-- scripts/replay/main.go: the lines that `verifyAll` prints on bad outcomes.
use pet.Base.{
  ℕ, zero, suc, ◌+◌, ◌-◌, ◌≤◌, ◌≡◌, refl, ap, ◌∙◌, List, [], ◌∷◌, ◌++◌, if◌then◌else◌, take, drop,
  arith, Bool-cases, inl, inr,
}
use pet.Scripts.Verify.{Outcome, Line, named, more, changed, same_kind, print_bad}

-- The outcomes that are not skipped, a line for each.
unfoldable pub shown_lines : List Outcome → List Line
shown_lines [] = []
shown_lines (o ∷ l) =
    let rest = shown_lines l in if same_kind o.kind changed then rest else named o ∷ rest

-- The first outcome that is not skipped, counted from the index `k`, ends the list.
unfoldable pub rest_line : ℕ → ℕ → List Outcome → List Line
rest_line n k [] = []
rest_line n k (o ∷ l) =
    let rest = rest_line n (suc k) l in if same_kind o.kind changed then rest else more (n - k) ∷ []

print_bad-late : (n k : ℕ) (l : List Outcome) → 20 ≤ k → print_bad n k l ≡ rest_line n k l
unfolding print_bad rest_line
print_bad-late n k [] h = refl
print_bad-late n k (o ∷ l) h = elim (Bool-cases (same_kind o.kind changed)) [
  | inl e ↦ rw e (print_bad-late n (suc k) l (omega (arith, h)))
  | inr e ↦ ground (arith, e, h)
]

print_bad-early :
    (n k m : ℕ) (l : List Outcome)
    → k + m ≡ 20
    → print_bad n k l ≡ shown_lines (take m l) ++ rest_line n 20 (drop m l)
unfolding print_bad shown_lines rest_line
print_bad-early n k zero l h =
    print_bad-late n k l (omega (arith, h)) ∙ ap (λ j. rest_line n j l) (omega (arith, h))
print_bad-early n k (suc m) [] h = refl
print_bad-early n k (suc m) (o ∷ l) h = elim (Bool-cases (same_kind o.kind changed)) [
  | inl e ↦ rw e (print_bad-early n (suc k) m l (omega (arith, h)))
  | inr e ↦ ground (arith, e, h, print_bad-early n (suc k) m l (omega (arith, h)))
]

-- The lines on bad outcomes are one for each that is not skipped among the first 20 and, if one
-- that is not skipped comes later, a last line with the number of outcomes from there on: skipped
-- outcomes take the place of others.
pub print_bad-lines :
    (n : ℕ) (l : List Outcome)
    → print_bad n 0 l ≡ shown_lines (take 20 l) ++ rest_line n 20 (drop 20 l)
print_bad-lines n l = print_bad-early n 0 20 l (omega arith)
