-- ===== src/Scripts/Samples/Nearest.antt =====
-- scripts/bot/loadtest.go: the percentiles of the samples are those of the nearest rank.
use pet.Base.{
  ℕ, zero, suc, ◌-◌, ◌*◌, ◌≤◌, ◌<◌, ◌≡◌, refl, sym, ap, ◌∙◌, false, List, [], ◌∷◌, some,
  some-injective, if◌then◌else◌, leb, ltb, length, get_elem?, sum, sum-Perm, IsSorting, arith,
}
use native.Mathlib.Nat.{mul-pos}
use mathlib.Core.List.{Perm, Pairwise, mem-cons_self}
use pet.Scripts.Samples.{rank, percentile, Dist, last_or_zero, dist_sorted, dist}

-- How many samples are at most `d`, and how many are less.
abbrev pub at_most : ℕ → List ℕ → ℕ
at_most d = sum (λ x. if leb x d then 1 else 0)

abbrev pub below : ℕ → List ℕ → ℕ
below d = sum (λ x. if ltb x d then 1 else 0)

-- At least `p` percent of the samples are at most `d`, and less than `p` percent are less.
abbrev pub IsNearest : ℕ → List ℕ → ℕ → Type 0
IsNearest p ds d = (p * length ds ≤ 100 * at_most d ds) × (100 * below d ds < p * length ds)

IsAscending : List ℕ → Type 0
IsAscending = Pairwise (λ a b. ltb b a ≡ false)

get_elem?-some : (ds : List ℕ) (k : ℕ) → k < length ds → (d : ℕ) × (get_elem? ds k ≡ some d)
get_elem?-some [] k h = absurd (omega (arith, h))
get_elem?-some (x ∷ ds) zero h = (x, refl)
get_elem?-some (x ∷ ds) (suc k) h = get_elem?-some ds k (omega (arith, h))

head_least :
    (x : ℕ) (ds : List ℕ) (k d : ℕ) → IsAscending (x ∷ ds) → get_elem? (x ∷ ds) k ≡ some d → x ≤ d
unfolding IsAscending
head_least x ds zero d s e = omega (arith, some-injective _ _ e)
head_least x [] (suc k) d s e = cc
head_least x (y ∷ ds) (suc k) d (Pairwise.cons h t) e =
    ground (arith, h y mem-cons_self, head_least y ds k d t e)

below_none : (d x : ℕ) (ds : List ℕ) → IsAscending (x ∷ ds) → d ≤ x → below d (x ∷ ds) ≡ 0
unfolding IsAscending
below_none d x [] s h = ground arith
below_none d x (y ∷ ds) (Pairwise.cons g t) h =
    ground (arith, g y mem-cons_self, below_none d y ds t (ground (arith, g y mem-cons_self)))

below-get_elem? :
    (ds : List ℕ) (k d : ℕ) → IsAscending ds → get_elem? ds k ≡ some d → below d ds ≤ k
unfolding IsAscending
below-get_elem? [] k d s e = cc
below-get_elem? (x ∷ ds) zero d s e =
    omega (arith, below_none d x ds s (omega (arith, some-injective _ _ e)))
below-get_elem? (x ∷ ds) (suc k) d (Pairwise.cons g t) e =
    ground (arith, below-get_elem? ds k d t e)

at_most-get_elem? :
    (ds : List ℕ) (k d : ℕ) → IsAscending ds → get_elem? ds k ≡ some d → k < at_most d ds
unfolding IsAscending
at_most-get_elem? [] k d s e = cc
at_most-get_elem? (x ∷ ds) zero d s e = ground (arith, some-injective _ _ e)
at_most-get_elem? (x ∷ ds) (suc k) d (Pairwise.cons g t) e =
    ground (arith, at_most-get_elem? ds k d t e, head_least x ds (suc k) d (Pairwise.cons g t) e)

rank_bounds :
    (n p m : ℕ)
    → n * p ≡ m
    → 0 < m
    → m ≤ 100 * n
    → (0 < rank n p) × (rank n p ≤ n) × (m ≤ 100 * rank n p) × (100 * (rank n p - 1) < m)
unfolding rank
rank_bounds n p m e pos top =
    rw e (omega (arith, pos, top), omega (arith, top), omega arith, omega (arith, pos))

index_bounds :
    (n p : ℕ)
    → 0 < n * p
    → n * p ≤ 100 * n
    → (if leb n (rank n p - 1) then n - 1 else rank n p - 1) ≡ rank n p - 1
index_bounds n p pos top = ground (arith, rank_bounds n p (n * p) refl pos top)

few_enough : (n p : ℕ) → p ≤ 100 → n * p ≤ 100 * n
few_enough zero p h = omega arith
few_enough (suc n) p h = omega (arith, few_enough n p h)

percentile-IsNearest :
    (d0 : ℕ) (rest : List ℕ) (p : ℕ)
    → IsAscending (d0 ∷ rest)
    → 0 < p
    → p ≤ 100
    → (d : ℕ) × (percentile (d0 ∷ rest) p ≡ some d) × IsNearest p (d0 ∷ rest) d
unfolding percentile
percentile-IsNearest d0 rest p s pos top =
    let ds = d0 ∷ rest in
    let n = length ds in
    let few : n * p ≤ 100 * n = few_enough n p top in
    let some_p : 0 < n * p = mul-pos (omega arith) pos in
    let (above, within, low, high) = rank_bounds n p (n * p) refl some_p few in
    let (d, e) = get_elem?-some ds (rank n p - 1) (omega (arith, above, within)) in
    (
      d,
      ap (get_elem? ds) (index_bounds n p some_p few) ∙ e,
      (
        omega (arith, at_most-get_elem? ds (rank n p - 1) d s e, low, above),
        omega (arith, below-get_elem? ds (rank n p - 1) d s e, high),
      ),
    )

-- A number that no sample exceeds, and that is a sample.
abbrev pub IsGreatest : List ℕ → ℕ → Type 0
IsGreatest ds d = (at_most d ds ≡ length ds) × (below d ds < length ds)

at_most-le : (ds : List ℕ) (d : ℕ) → at_most d ds ≤ length ds
at_most-le [] d = omega arith
at_most-le (x ∷ ds) d = ground (arith, at_most-le ds d)

last_or_zero-IsGreatest :
    (d0 : ℕ) (rest : List ℕ)
    → IsAscending (d0 ∷ rest)
    → (d : ℕ) × (last_or_zero (d0 ∷ rest) ≡ some d) × IsGreatest (d0 ∷ rest) d
unfolding last_or_zero
last_or_zero-IsGreatest d0 rest s =
    let ds = d0 ∷ rest in
    let (d, e) = get_elem?-some ds (length ds - 1) (omega arith) in
    (
      d,
      e,
      (
        omega (arith, at_most-get_elem? ds (length ds - 1) d s e, at_most-le ds d),
        omega (arith, below-get_elem? ds (length ds - 1) d s e),
      ),
    )

-- What `dist` says of samples.
pub record Describes (ds : List ℕ) (d : Dist) : Type 0 where
  pub counted : d.n ≡ length ds
  pub half : IsNearest 50 ds d.p50
  pub ninety : IsNearest 90 ds d.p90
  pub ninety_nine : IsNearest 99 ds d.p99
  pub greatest : IsGreatest ds d.max

length-sum : (ds : List ℕ) → sum (λ x. 1) ds ≡ length ds
length-sum [] = refl
length-sum (x ∷ ds) = omega (arith, length-sum ds)

length-Perm : {ds es : List ℕ} → Perm ds es → length ds ≡ length es
length-Perm {ds} {es} p = sym (length-sum ds) ∙ sum-Perm (λ x. 1) p ∙ length-sum es

Describes-Perm : {ds es : List ℕ} (d : Dist) → Perm ds es → Describes ds d → Describes es d
Describes-Perm {ds} {es} d p h =
    let l = length-Perm p in
    let a : (x : ℕ) → at_most x ds ≡ at_most x es =
      λ x. sum-Perm (λ y. if leb y x then 1 else 0) p in
    let b : (x : ℕ) → below x ds ≡ below x es = λ x. sum-Perm (λ y. if ltb y x then 1 else 0) p in
    let nearest : (q x : ℕ) → IsNearest q ds x → IsNearest q es x =
      λ q x i. (rw (l, a x) at i.0, rw (l, b x) at i.1) in
    record {
      counted = h.counted ∙ l;
      half = nearest 50 d.p50 h.half;
      ninety = nearest 90 d.p90 h.ninety;
      ninety_nine = nearest 99 d.p99 h.ninety_nine;
      greatest = (rw (l, a d.max) at h.greatest.0, rw (l, b d.max) at h.greatest.1);
    }

dist_sorted-Describes :
    (ds : List ℕ)
    → 0 < length ds
    → IsAscending ds
    → (d : Dist) × (dist_sorted ds ≡ some d) × Describes ds d
unfolding dist_sorted
dist_sorted-Describes [] h s = absurd (omega (arith, h))
dist_sorted-Describes (d0 ∷ rest) h s =
    let (a, ea, ha) = percentile-IsNearest d0 rest 50 s (omega arith) (omega arith) in
    let (b, eb, hb) = percentile-IsNearest d0 rest 90 s (omega arith) (omega arith) in
    let (c, ec, hc) = percentile-IsNearest d0 rest 99 s (omega arith) (omega arith) in
    let (m, em, hm) = last_or_zero-IsGreatest d0 rest s in
    (
      record { n = length (d0 ∷ rest); p50 = a; p90 = b; p99 = c; max = m },
      rw (ea, eb, ec, em) refl,
      record { counted = refl; half = ha; ninety = hb; ninety_nine = hc; greatest = hm },
    )

-- If the sort sorts, `dist` of some samples does not index out of range; it counts them, at least
-- 50, 90 and 99 percent of them are at most `P50`, `P90` and `P99` while fewer than that are less,
-- and `Max` is the greatest sample.
pub dist-Describes :
    (sort : List ℕ → List ℕ) (sorts : IsSorting ltb sort) (ds : List ℕ)
    → 0 < length ds
    → (d : Dist) × (dist sort ds ≡ some d) × Describes ds d
unfolding dist IsAscending
dist-Describes sort sorts ds h =
    let p = sorts.same ds in
    let (d, e, t) = dist_sorted-Describes (sort ds) (rw (length-Perm p) h) (sorts.ascending ds) in
    (d, e, Describes-Perm d p t)
