-- ===== src/Auth/Limit/Bucket.antt =====
-- How many requests a bucket of internal/auth/ratelimit.go allows.
use pet.Base.{
  ℕ, ◌+◌, ◌-◌, ◌*◌, ◌≤◌, ◌≡◌, refl, sym, ap, subst, ◌∙◌, inl, inr, Bool, List, [], ◌∷◌,
  if◌then◌else◌, ltb, arith, Bool-cases,
}
use native.Mathlib.Nat.{add-mul}
use pet.Auth.Limit.{Units, Limiter, new_limiter, refilled, allow, answers}

-- How many requests were allowed.
unfoldable pub count_allowed : List Bool → ℕ
count_allowed [] = 0
count_allowed (ok ∷ oks) = (if ok then 1 else 0) + count_allowed oks

-- The times do not decrease, from `t` to `last`.
unfoldable pub IsOrdered : ℕ → List ℕ → ℕ → Type 0
IsOrdered t [] last = t ≤ last
IsOrdered t (now ∷ times) last = (t ≤ now) × IsOrdered now times last

-- Time that passes in two parts.
pub flow_split :
    (t now last rate : ℕ)
    → t ≤ now
    → now ≤ last
    → (now - t) * rate + (last - now) * rate ≡ (last - t) * rate
flow_split t now last rate h k =
    let sum : now - t + (last - now) ≡ last - t = omega arith in
    sym (add-mul (now - t) (last - now) rate) ∙ ap (λ d. d * rate) sum

ordered_le : (t : ℕ) (times : List ℕ) (last : ℕ) → IsOrdered t times last → t ≤ last
unfolding IsOrdered
ordered_le t [] last h = h
ordered_le t (now ∷ times) last h = omega (arith, h.0, ordered_le now times last h.1)

pub refilled_le : (now : ℕ) (l : Limiter) → refilled now l ≤ l.tokens + (now - l.last) * l.rate
unfolding refilled
refilled_le now l = ground arith

refilled_le_burst : (now : ℕ) (l : Limiter) → refilled now l ≤ l.burst
unfolding refilled
refilled_le_burst now l = ground arith

module _ (u : Units) where
  -- What one request costs.
  abbrev pub cost : Bool → ℕ
  cost ok = (if ok then 1 else 0) * u.token

  pub allow_pays :
      (now : ℕ) (l : Limiter) → (allow u now l).1.tokens + cost (allow u now l).0 ≡ refilled now l
  unfolding allow
  allow_pays now l = elim (Bool-cases (ltb (refilled now l) u.token)) [
    | inl poor ↦ rw poor (omega arith)
    | inr rich ↦
        let enough : u.token ≤ refilled now l = ground arith in rw rich (omega (arith, enough))
  ]

  pub allow_keeps :
      (now : ℕ) (l : Limiter)
      → ((allow u now l).1.last ≡ now)
        × ((allow u now l).1.rate ≡ l.rate)
        × ((allow u now l).1.burst ≡ l.burst)
  unfolding allow
  allow_keeps now l = elim (Bool-cases (ltb (refilled now l) u.token)) [
    | inl poor ↦ rw poor (refl, refl, refl)
    | inr rich ↦ rw rich (refl, refl, refl)
  ]

  answers_le :
      (times : List ℕ) (l : Limiter) (last : ℕ)
      → IsOrdered l.last times last
      → (answers u times l).1.tokens + count_allowed (answers u times l).0 * u.token
        ≤ l.tokens + (last - l.last) * l.rate
  unfolding answers count_allowed IsOrdered
  answers_le [] l last h = omega arith
  answers_le (now ∷ times) l last h =
      let l' = (allow u now l).1 in
      let (at, rate, burst) = allow_keeps now l in
      let rest = answers_le times l' last (subst (λ t. IsOrdered t times last) (sym at) h.1) in
      let rest' : (answers u times l').1.tokens + count_allowed (answers u times l').0 * u.token
          ≤ l'.tokens + (last - now) * l.rate =
        subst
          (λ t.
            (answers u times l').1.tokens + count_allowed (answers u times l').0 * u.token
            ≤ l'.tokens + (last - t) * l.rate)
          at
          (subst
            (λ r.
              (answers u times l').1.tokens + count_allowed (answers u times l').0 * u.token
              ≤ l'.tokens + (last - l'.last) * r)
            rate rest) in
      omega (
        arith,
        rest',
        allow_pays now l,
        refilled_le now l,
        flow_split l.last now last l.rate h.0 (ordered_le now times last h.1),
      )

  -- However many requests are made to a new token bucket from a start to a last time, those that
  -- `Allow` grants cost together no more than the burst and what flows in between the two times.
  pub count_allowed-answers :
      (rate burst start last : ℕ) (times : List ℕ)
      → IsOrdered start times last
      → count_allowed (answers u times (new_limiter rate burst start)).0 * u.token
        ≤ burst + (last - start) * rate
  unfolding new_limiter
  count_allowed-answers rate burst start last times h =
      omega (arith, answers_le times (new_limiter rate burst start) last h)
