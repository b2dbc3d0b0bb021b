-- ===== src/Base/Order.antt =====
-- Lists up to the order of their elements: `sort.Slice` of the Go library as a parameter with its
-- laws, the uniqueness of a sorted list and sums.
use Prim.Native.Nat.{ℕ, ◌+◌}
use native.Mathlib.Nat.{ℕ_set}
use mathlib.Core.Path.{◌≡◌, ap, ap₂, ◌∙◌}
use mathlib.Core.Bool.{Bool, false}
use mathlib.Core.Logic.{∥∥₁_elim}
use mathlib.Core.Logic.Or
use mathlib.Core.List.{
  List, [], ◌∷◌, Mem, Perm, Permᴰ, Pairwise, mem-cons, mem-cons_self, mem-cons_of_mem,
}
use mathlib.Core.List.Pairwise
use mathlib.Core.List.Perm
use native.Mathlib.Omega.{arith}

module _ {ℓ} {A : Type ℓ} where
  -- What `sort.Slice` promises for a comparison: the same elements, none before a smaller one.
  pub record IsSorting (less : A → A → Bool) (sort : List A → List A) : Type ℓ where
    pub same : (l : List A) → Perm (sort l) l
    pub ascending : (l : List A) → Pairwise (λ a b. less b a ≡ false) (sort l)

  abbrev pub sum : (A → ℕ) → List A → ℕ
  sum w [] = 0
  sum w (x ∷ xs) = w x + sum w xs

  sum-Permᴰ : (w : A → ℕ) {xs ys : List A} → Permᴰ xs ys → sum w xs ≡ sum w ys
  sum-Permᴰ w Permᴰ.nil = omega arith
  sum-Permᴰ w (Permᴰ.cons e p) = omega (arith, ap w e, sum-Permᴰ w p)
  sum-Permᴰ w (Permᴰ.swap e d) = omega (arith, ap w e, ap w d)
  sum-Permᴰ w (Permᴰ.trans p q) = sum-Permᴰ w p ∙ sum-Permᴰ w q

  pub sum-Perm : (w : A → ℕ) {xs ys : List A} → Perm xs ys → sum w xs ≡ sum w ys
  sum-Perm w p = ∥∥₁_elim p (ℕ_set _ _) (sum-Permᴰ w)

module _ {ℓ} {A : Type ℓ} (less : A → A → Bool) (irreflexive : (x : A) → less x x ≡ false) where
  abbrev Below : A → A → Type 0
  Below a b = less b a ≡ false

  Below-head : {a b : A} {l : List A} → Pairwise Below (a ∷ l) → Mem b (a ∷ l) → Below a b
  Below-head {a} {b} (Pairwise.cons h _) m =
      Or.elim (hlevel) (mem-cons.0 m) (λ e. ap (λ x. less x a) e ∙ irreflexive a) (h b)

  -- Lists with the same elements, of which none stands before a smaller one, are the same, when no
  -- two elements are neither smaller nor greater than each other.
  pub sorted_unique :
      {l r : List A}
      → ((x y : A) → Mem x l → Mem y l → Below x y → Below y x → x ≡ y)
      → Pairwise Below l
      → Pairwise Below r
      → Perm l r
      → l ≡ r
  sorted_unique {l = []} total sl sr p = Perm.nil-eq p
  sorted_unique {l = a ∷ l} {r = []} total sl sr p = Perm.eq-nil p
  sorted_unique {l = a ∷ l} {r = b ∷ r} total sl sr p =
      let in_l = (Perm.mem_iff p).1 mem-cons_self in
      let in_r = (Perm.mem_iff p).0 mem-cons_self in
      let heads = total a b mem-cons_self in_l (Below-head sl in_l) (Below-head sr in_r) in
      let tails = Perm.cons_inv (Perm.trans p (Perm.symm (Perm.cons' heads Perm.rfl))) in
      ap₂ ◌∷◌ heads (
        sorted_unique {l = l} {r = r}
          (λ x y m n. total x y (mem-cons_of_mem a m) (mem-cons_of_mem a n)) (Pairwise.of_cons sl)
          (Pairwise.of_cons sr) tails)
