-- ===== src/Match/Quiet.antt =====
-- What the commands of internal/match/match.go document, and what becomes of the contents of the
-- two sorted sets when several of them follow each other.
use pet.Base.{
  ◌≡◌, sym, ap, ◌∙◌, inl, inr, String, ℤ, Bool, true, false, ◌&&◌, List, Option, none, some,
  if◌then◌else◌, str_eq, All, arith, Bool-cases, ℕ,
}
use text.Mathlib.TextEquality.{eq_iff}
use pet.Match.{Redis, absent, scored, Key, rating, time}

unfoldable pub same_key : Key → Key → Bool
same_key rating rating = true
same_key time time = true
same_key _ _ = false

abbrev pub or_else : {F : Type 0} → F → Option F → F
or_else v none = v
or_else v (some u) = u

-- The sorted sets of a server that is used by nobody else: `score` is the score of a member.
pub record IsQuiet (R : Redis) : Type 1 where
  pub score : R.World → Key → String → Option R.Float
  pub Between : R.Float → R.Float → R.Float → Type 0
  pub clock_reads :
      (w : R.World) (k : Key) (x : String) → score (R.unix_milli w).1 k x ≡ score w k x
  pub naming_reads :
      (a b : String) (w : R.World) (k : Key) (x : String)
      → score (R.new_room_id a b w).1 k x ≡ score w k x
  pub zadd_writes :
      (k : Key) (v : R.Float) (x : String) (w : R.World)
      → (w' : R.World) × (R.zadd k v x w ≡ (true, w'))
        × ((j : Key) (y : String)
            → score w' j y ≡ (if same_key k j && str_eq x y then some v else score w j y))
  pub zadd_nx_writes :
      (k : Key) (v : R.Float) (x : String) (w : R.World)
      → (w' : R.World) × (R.zadd_nx k v x w ≡ (true, w'))
        × ((j : Key) (y : String)
            → score w' j y ≡ (
                if same_key k j && str_eq x y then some (or_else v (score w j y)) else score w j y))
  pub zrem_both_writes :
      (x : String) (w : R.World)
      → (w' : R.World) × (R.zrem_both x w ≡ (true, w'))
        × ((j : Key) (y : String) → score w' j y ≡ (if str_eq x y then none else score w j y))
  pub zrem_present :
      (k : Key) (x : String) (w : R.World) (v : R.Float)
      → score w k x ≡ some v
      → (w' : R.World) × (R.zrem k x w ≡ (some 1, w'))
        × ((j : Key) (y : String)
            → score w' j y ≡ (if same_key k j && str_eq x y then none else score w j y))
  pub zrem_absent :
      (k : Key) (x : String) (w : R.World)
      → score w k x ≡ none
      → (w' : R.World) × (R.zrem k x w ≡ (some 0, w'))
        × ((j : Key) (y : String) → score w' j y ≡ score w j y)
  pub zscore_present :
      (k : Key) (x : String) (w : R.World) (v : R.Float)
      → score w k x ≡ some v
      → (w' : R.World) × (R.zscore k x w ≡ (scored v, w'))
        × ((j : Key) (y : String) → score w' j y ≡ score w j y)
  pub zscore_absent :
      (k : Key) (x : String) (w : R.World)
      → score w k x ≡ none
      → (w' : R.World) × (R.zscore k x w ≡ (absent, w'))
        × ((j : Key) (y : String) → score w' j y ≡ score w j y)
  pub zrange_lists :
      (k : Key) (from to : ℤ) (w : R.World)
      → (zs : List (String × R.Float)) × (w' : R.World) × (R.zrange_with_scores k from to w
          ≡ (some zs, w'))
        × All (λ (z : String × R.Float). score w k z.0 ≡ some z.1) zs
        × ((j : Key) (y : String) → score w' j y ≡ score w j y)
  pub zrange_by_score_lists :
      (k : Key) (low high : R.Float) (n : ℕ) (w : R.World)
      → (ids : List String) × (w' : R.World) × (R.zrange_by_score k low high n w ≡ (some ids, w'))
        × All (λ x. (v : R.Float) × (score w k x ≡ some v) × Between low high v) ids
        × ((j : Key) (y : String) → score w' j y ≡ score w j y)

module _ {F : Type 0} (id : String) (c c1 c2 : Key → String → Option F)
    (h : (j : Key) (y : String)
      → c1 j y ≡ (if same_key rating j && str_eq id y then none else c j y)) where
  -- The contents after one removal or two.
  pub out_once :
      c1 time id ≡ none
      → ((j : Key) (y : String) → c2 j y ≡ c1 j y)
      → (k : Key) (y : String) → c2 k y ≡ (if str_eq id y then none else c k y)
  unfolding same_key
  out_once gone h2 rating y = ground (arith, h rating y, h2 rating y)
  out_once gone h2 time y = elim (Bool-cases (str_eq id y)) [
    | inl hit ↦ rw hit (h2 time y ∙ (ap (c1 time) (sym ((eq_iff id y).0 hit)) ∙ gone))
    | inr miss ↦ rw miss (h2 time y ∙ h time y)
  ]

  pub out_twice :
      ((j : Key) (y : String) → c2 j y ≡ (if same_key time j && str_eq id y then none else c1 j y))
      → (k : Key) (y : String) → c2 k y ≡ (if str_eq id y then none else c k y)
  unfolding same_key
  out_twice h2 rating y = ground (arith, h rating y, h2 rating y)
  out_twice h2 time y = ground (arith, h time y, h2 time y)

abbrev pub value_at : {F : Type 0} → F → F → Key → F
value_at score t rating = score
value_at score t time = t

module _ {F : Type 0} (id : String) (c c1 c2 : Key → String → Option F) (score t : F) where
  -- The contents after two writes.
  pub written :
      ((j : Key) (y : String)
        → c1 j y ≡ (if same_key rating j && str_eq id y then some score else c j y))
      → ((j : Key) (y : String)
          → c2 j y ≡ (if same_key time j && str_eq id y then some t else c1 j y))
      → (k : Key) (y : String) → c2 k y ≡ (if str_eq id y then some (value_at score t k) else c k y)
  unfolding same_key
  written h h2 rating y = ground (arith, h rating y, h2 rating y)
  written h h2 time y = ground (arith, h time y, h2 time y)

  pub joined :
      ((j : Key) (y : String)
        → c1 j y
          ≡ (if same_key rating j && str_eq id y then some (or_else score (c j y)) else c j y))
      → ((j : Key) (y : String)
          → c2 j y ≡ (if same_key time j && str_eq id y then some (or_else t (c1 j y)) else c1 j y))
      → (k : Key) (y : String)
      → c2 k y ≡ (if str_eq id y then some (or_else (value_at score t k) (c k y)) else c k y)
  unfolding same_key
  joined h h2 rating y = ground (arith, h rating y, h2 rating y)
  joined h h2 time y = ground (arith, h time y, h2 time y)

  pub put_back :
      c rating id ≡ some score
      → c time id ≡ some t
      → ((k : Key) (y : String) → c1 k y ≡ (if str_eq id y then none else c k y))
      → ((k : Key) (y : String)
          → c2 k y ≡ (if str_eq id y then some (value_at score t k) else c1 k y))
      → (k : Key) (y : String) → c2 k y ≡ c k y
  put_back rated entered h h2 k y = elim (Bool-cases (str_eq id y)) [
    | inl hit ↦ h2 k y ∙ (rw hit (sym (was k)) ∙ ap (c k) ((eq_iff id y).0 hit))
    | inr miss ↦ ground (arith, h k y, h2 k y)
  ]
    where
      was : (k : Key) → c k id ≡ some (value_at score t k)
      was rating = rated
      was time = entered
