-- ===== src/Tests/Sorting.antt =====
-- A comparison and a sort that stand for those of the Go library in the witnesses.
use Prim.Native.Char.{code}
use mathlib.Core.Logic.Or
use mathlib.Core.List.{Perm, Pairwise, mem-cons, Pairwise-singleton}
use mathlib.Core.List.Perm
use text.Mathlib.TextEquality.{Char-path}
use pet.Base.{
  ◌≡◌, refl, ap, ◌∙◌, inl, inr, String, Bool, true, false, List, [], ◌∷◌, if◌then◌else◌, ltb,
  IsSorting, Bool-cases, arith,
}
use mathlib.Core.Path.{ap₂}

unfoldable pub text_lt : String → String → Bool
text_lt String.[] String.[] = false
text_lt String.[] (String.◌∷◌ d t) = true
text_lt (String.◌∷◌ c s) String.[] = false
text_lt (String.◌∷◌ c s) (String.◌∷◌ d t) =
    let rest = text_lt s t in
    if ltb (code c) (code d) then true else if ltb (code d) (code c) then false else rest

pub text_lt-irreflexive : (s : String) → text_lt s s ≡ false
unfolding text_lt
text_lt-irreflexive String.[] = refl
text_lt-irreflexive (String.◌∷◌ c s) = ground (arith, text_lt-irreflexive s)

pub text_lt-total : (s t : String) → text_lt t s ≡ false → text_lt s t ≡ false → s ≡ t
unfolding text_lt
text_lt-total String.[] String.[] p q = refl
text_lt-total String.[] (String.◌∷◌ d t) p q = ground (arith, q)
text_lt-total (String.◌∷◌ c s) String.[] p q = ground (arith, p)
text_lt-total (String.◌∷◌ c s) (String.◌∷◌ d t) p q =
    let same : code c ≡ code d = ground (arith, p, q) in
    ap₂ String.◌∷◌ (Char-path c d same)
      (text_lt-total s t (ground (arith, p, same)) (ground (arith, q, same)))

pub text_lt_trans :
    (s t u : String) → text_lt t s ≡ false → text_lt u t ≡ false → text_lt u s ≡ false
unfolding text_lt
text_lt_trans String.[] t String.[] p q = ground (arith, p, q)
text_lt_trans String.[] t (String.◌∷◌ e u) p q = refl
text_lt_trans (String.◌∷◌ c s) String.[] u p q = ground (arith, p)
text_lt_trans (String.◌∷◌ c s) (String.◌∷◌ d t) String.[] p q = ground (arith, q)
text_lt_trans (String.◌∷◌ c s) (String.◌∷◌ d t) (String.◌∷◌ e u) p q =
    ground (arith, p, q, text_lt_trans s t u)

pub text_lt-asym : (s t : String) → text_lt s t ≡ true → text_lt t s ≡ false
unfolding text_lt
text_lt-asym String.[] String.[] p = ground (arith, p)
text_lt-asym String.[] (String.◌∷◌ d t) p = refl
text_lt-asym (String.◌∷◌ c s) String.[] p = ground (arith, p)
text_lt-asym (String.◌∷◌ c s) (String.◌∷◌ d t) p = ground (arith, p, text_lt-asym s t)

module _ {A : Type 0} (less : A → A → Bool) (asym : (x y : A) → less x y ≡ true → less y x ≡ false)
    (trans : (x y z : A) → less y x ≡ false → less z y ≡ false → less z x ≡ false) where
  unfoldable pub put_in : A → List A → List A
  put_in x [] = x ∷ []
  put_in x (y ∷ ys) = let rest = put_in x ys in if less y x then y ∷ rest else x ∷ y ∷ ys

  unfoldable pub sort : List A → List A
  sort [] = []
  sort (x ∷ xs) = put_in x (sort xs)

  put_in-Perm : (x : A) (l : List A) → Perm (put_in x l) (x ∷ l)
  unfolding put_in
  put_in-Perm x [] = Perm.rfl
  put_in-Perm x (y ∷ ys) = elim (Bool-cases (less y x)) [
    | inl e ↦ rw e (Perm.trans (Perm.cons y (put_in-Perm x ys)) (Perm.swap x y ys))
    | inr e ↦ rw e Perm.rfl
  ]

  put_in-Pairwise :
      (x : A) (l : List A)
      → Pairwise (λ a b. less b a ≡ false) l
      → Pairwise (λ a b. less b a ≡ false) (put_in x l)
  unfolding put_in
  put_in-Pairwise x [] s = Pairwise-singleton _ x
  put_in-Pairwise x (y ∷ ys) (Pairwise.cons h s) = elim (Bool-cases (less y x)) [
    | inl e ↦ rw e (
        Pairwise.cons
          (λ z m.
            Or.elim (hlevel) (mem-cons.0 ((Perm.mem_iff (put_in-Perm x ys)).0 m))
              (λ same. ap (λ w. less w y) same ∙ asym y x e) (h z))
          (put_in-Pairwise x ys s))
    | inr e ↦ rw e (
        Pairwise.cons
          (λ z m.
            Or.elim (hlevel) (mem-cons.0 m) (λ same. ap (λ w. less w x) same ∙ e)
              (λ n. trans x y z e (h z n)))
          (Pairwise.cons h s))
  ]

  sort-Perm : (l : List A) → Perm (sort l) l
  unfolding sort
  sort-Perm [] = Perm.rfl
  sort-Perm (x ∷ xs) = Perm.trans (put_in-Perm x (sort xs)) (Perm.cons x (sort-Perm xs))

  sort-Pairwise : (l : List A) → Pairwise (λ a b. less b a ≡ false) (sort l)
  unfolding sort
  sort-Pairwise [] = Pairwise.nil
  sort-Pairwise (x ∷ xs) = put_in-Pairwise x (sort xs) (sort-Pairwise xs)

  pub sort-IsSorting : IsSorting less sort
  sort-IsSorting = record { same = sort-Perm; ascending = sort-Pairwise }
