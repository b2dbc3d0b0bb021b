-- ===== src/Auth/Tokens/Answers.antt =====
-- internal/auth/tokens.go: what one call of a store answers and keeps.
use pet.Base.{
  ℕ, ◌≤◌, ◌≡◌, ◌≢◌, refl, ap, ◌∙◌, subst, inl, inr, String, Bool, true, false, Option, none, some,
  if◌then◌else◌, str_eq, ltb, arith, Bool-cases, Option-cases,
}
use text.Mathlib.TextEquality.{eq_iff}
use pet.Deck.{lookup}
use pet.Room.Manager.{forget, lookup-forget}
use pet.Auth.Login.{Checked, invalid_token, checked}
use pet.Auth.Tokens.{
  MemToken, MemTokens, issue_mem, lookup_mem, KeyValues, Got, got_nil, got_error, got, token_key,
  ttl_of, issue_redis, answer_of, lookup_redis,
}
use pet.Auth.Tokens.Calls.{good, IsExpiring}

module _ (R : KeyValues) (x : IsExpiring R) (hour ttl : ℕ) where
  pub answered : Option String → Checked
  answered none = invalid_token
  answered (some user) = checked user

  not_empty : (token : String) → token ≢ "" → str_eq token "" ≡ false
  not_empty token named = ground (arith, eq_iff token "", named)

  pub lookup_mem-good :
      (at : ℕ) (token : String) (t : MemTokens)
      → token ≢ ""
      → (lookup_mem at token t).0 ≡ answered (good at (lookup token t.m))
  unfolding lookup_mem answered
  lookup_mem-good at token t named = elim (Option-cases (lookup token t.m)) [
    | inl e ↦ rw (e, lookup_mem) refl
    | inr (v, e) ↦ elim (Bool-cases (ltb at v.expires)) [
      | inl l ↦ rw (e, not_empty token named, l, lookup_mem) refl
      | inr l ↦ rw (e, not_empty token named, l, lookup_mem) refl
    ]
  ]

  -- The part of `lookup_redis` that follows on `Get`.
  answer_of-answered :
      (p : Got × R.World) (v : Option String)
      → p.0 ≡ (elim v [ none ↦ got_nil | some u ↦ got u ])
      → ((answer_of R p).0 ≡ answered v) × ((answer_of R p).1 ≡ p.1)
  unfolding answer_of answered
  answer_of-answered (got_nil, w) none e = (refl, refl)
  answer_of-answered (got_error, w) none e = cc e
  answer_of-answered (got u, w) none e = cc e
  answer_of-answered (got_nil, w) (some v) e = cc e
  answer_of-answered (got_error, w) (some v) e = cc e
  answer_of-answered (got u, w) (some v) e = (cc e, refl)

  pub lookup_redis-alive :
      (at : ℕ) (token : String) (w : R.World)
      → token ≢ ""
      → (lookup_redis R token (x.at at w)).0 ≡ answered (x.alive w (token_key R token) at)
  unfolding lookup_redis
  lookup_redis-alive at token w named =
      rw (not_empty token named)
        (answer_of-answered (R.get (token_key R token) (x.at at w))
          (x.alive w (token_key R token) at) (x.gets at w (token_key R token))).0

  pub alive-lookup_redis :
      (at : ℕ) (token : String) (w : R.World) (j : String) (m : ℕ)
      → x.alive (lookup_redis R token (x.at at w)).1 j m ≡ x.alive w j m
  unfolding lookup_redis
  alive-lookup_redis at token w j m = elim (Bool-cases (str_eq token "")) [
    | inl e ↦ rw e (x.waits at w j m)
    | inr e ↦ rw e (
        ap (λ z. x.alive z j m)
          (answer_of-answered (R.get (token_key R token) (x.at at w))
            (x.alive w (token_key R token) at) (x.gets at w (token_key R token))).1
        ∙ x.gets_only at w (token_key R token) j m)
  ]

  good-forget :
      (at m : ℕ) (token other : String) (t : MemTokens) (v : MemToken)
      → at ≤ m
      → lookup token t.m ≡ some v
      → ltb at v.expires ≡ false
      → good m (lookup other (forget token t.m)) ≡ good m (lookup other t.m)
  good-forget at m token other t v after e l = elim (Bool-cases (str_eq token other)) [
    | inl q ↦
        let same : lookup other t.m ≡ some v =
          subst (λ k. lookup k t.m ≡ some v) ((eq_iff token other).0 q) e in
        let gone : ltb m v.expires ≡ false = ground (arith, l, after) in
        rw (lookup-forget other token t.m, q, same, gone) refl
    | inr q ↦ rw (lookup-forget other token t.m, q) refl
  ]

  pub good-lookup_mem :
      (at m : ℕ) (token other : String) (t : MemTokens)
      → at ≤ m
      → good m (lookup other (lookup_mem at token t).1.m) ≡ good m (lookup other t.m)
  unfolding lookup_mem
  good-lookup_mem at m token other t after = elim (Option-cases (lookup token t.m)) [
    | inl e ↦ rw (e, lookup_mem) refl
    | inr (v, e) ↦ elim (Bool-cases (str_eq token "")) [
      | inl q ↦ rw (e, q, lookup_mem) refl
      | inr q ↦ elim (Bool-cases (ltb at v.expires)) [
        | inl l ↦ rw (e, q, l, lookup_mem) refl
        | inr l ↦ rw (e, q, l, lookup_mem) (good-forget at m token other t v after e l)
      ]
    ]
  ]

  pub ttl-lookup_mem :
      (at : ℕ) (token : String) (t : MemTokens) → (lookup_mem at token t).1.ttl ≡ t.ttl
  unfolding lookup_mem
  ttl-lookup_mem at token t = elim (Option-cases (lookup token t.m)) [
    | inl e ↦ rw (e, lookup_mem) refl
    | inr (v, e) ↦ elim (Bool-cases (str_eq token "")) [
      | inl q ↦ rw (e, q, lookup_mem) refl
      | inr q ↦ elim (Bool-cases (ltb at v.expires)) [
        | inl l ↦ rw (e, q, l, lookup_mem) refl
        | inr l ↦ rw (e, q, l, lookup_mem) refl
      ]
    ]
  ]

  pub look_up_empty :
      (at : ℕ) (token : String) (t : MemTokens) (w : R.World)
      → str_eq token "" ≡ true
      → (lookup_mem at token t).0 ≡ (lookup_redis R token (x.at at w)).0
  unfolding lookup_mem lookup_redis
  look_up_empty at token t w q = elim (Option-cases (lookup token t.m)) [
    | inl e ↦ rw (e, q, lookup_mem, lookup_redis) refl
    | inr (v, e) ↦ rw (e, q, lookup_mem, lookup_redis) refl
  ]

  pub mem_issued :
      (at : ℕ) (token user : String) (t : MemTokens)
      → (issue_mem (some token) at user t).0 ≡ some token
  unfolding issue_mem
  mem_issued at token user t = refl

  pub mem_ttl :
      (at : ℕ) (token user : String) (t : MemTokens)
      → (issue_mem (some token) at user t).1.ttl ≡ t.ttl
  unfolding issue_mem
  mem_ttl at token user t = refl

  pub issued_redis :
      (at : ℕ) (token user : String) (w : R.World)
      → (issue_redis R hour ttl (some token) user (x.at at w)).0 ≡ some token
  unfolding issue_redis
  issued_redis at token user w =
      ap (λ (ok : Bool). if ok then some token else none)
        (x.sets at w (token_key R token) user (ttl_of R hour ttl))
