-- ===== src/Auth/Tokens/Agreement.antt =====
-- internal/auth/tokens.go: the store of tokens in Redis answers as the one in memory does.
use pet.Base.{
  ℕ, ◌+◌, ◌≤◌, ◌≡◌, ◌≢◌, refl, sym, ap, ◌∙◌, inl, inr, String, false, List, [], ◌∷◌, none, some,
  if◌then◌else◌, str_eq, ltb, arith, Bool-cases,
}
use mathlib.Core.Path.{ap₂}
use mathlib.Core.Bool.{false≢true}
use text.Mathlib.TextEquality.{eq_iff}
use pet.Deck.{lookup, insert}
use pet.Deck.Maps.{lookup-insert}
use pet.Auth.Tokens.{
  MemToken, MemTokens, issue_mem, lookup_mem, KeyValues, token_key, ttl_of, issue_redis,
  lookup_redis,
}
use pet.Auth.Tokens.Calls.{
  issue, look_up, issued, looked, Timed, IsTimely, AreApart, mem_answers, good, IsExpiring,
  redis_answers, Agree,
}
use pet.Auth.Tokens.Answers.{
  answered, lookup_mem-good, lookup_redis-alive, alive-lookup_redis, good-lookup_mem,
  ttl-lookup_mem, look_up_empty, issued_redis, mem_issued, mem_ttl,
}

module _ (R : KeyValues) (x : IsExpiring R) (hour ttl : ℕ) (P : String → Type 0)
    (apart : AreApart R P) where
  Agree-issue :
      (now at : ℕ) (token user : String) (t : MemTokens) (w : R.World)
      → t.ttl ≡ ttl_of R hour ttl
      → P token
      → now ≤ at
      → Agree R x hour ttl P now t w
      → Agree R x hour ttl P at
          (issue_mem (some token) at user t).1
          (issue_redis R hour ttl (some token) user (x.at at w)).1
  unfolding issue_mem issue_redis
  Agree-issue now at token user t w same mine later h other m its named after =
      let key = token_key R token in
      let entry : MemToken = record { username = user; expires = at + t.ttl } in
      let stays : good m (some entry)
          ≡ (if ltb m (at + ttl_of R hour ttl) then some user else none) =
        ap (λ n. if ltb m (at + n) then some user else none) same in
      let put = lookup-insert other token entry t.m in
      let set = x.set_alive at w key user (ttl_of R hour ttl) (token_key R other) m after in
      elim (Bool-cases (str_eq token other)) [
        | inl q ↦
            let k =
              (eq_iff key (token_key R other)).1 (ap (token_key R) ((eq_iff token other).0 q)) in
            let here : lookup other (insert token entry t.m) ≡ some entry = put ∙ rw q refl in
            ap (good m) here ∙ stays ∙ sym (set ∙ rw k refl)
        | inr q ↦
            let k : str_eq key (token_key R other) ≡ false =
              elim (Bool-cases (str_eq key (token_key R other))) [
                | inl e ↦ absurd (
                    false≢true (
                      sym q
                      ∙ (eq_iff token other).1
                          (apart token other mine its ((eq_iff key (token_key R other)).0 e))))
                | inr e ↦ e
              ] in
            let there : lookup other (insert token entry t.m) ≡ lookup other t.m =
              put ∙ rw q refl in
            ap (good m) there
            ∙ h other m its named (omega (arith, later, after))
            ∙ sym (set ∙ rw k refl)
      ]

  look_up_same :
      (now at : ℕ) (token : String) (t : MemTokens) (w : R.World)
      → P token
      → now ≤ at
      → Agree R x hour ttl P now t w
      → (lookup_mem at token t).0 ≡ (lookup_redis R token (x.at at w)).0
  look_up_same now at token t w mine later h = elim (Bool-cases (str_eq token "")) [
    | inl e ↦ look_up_empty R x hour ttl at token t w e
    | inr e ↦
        let named : token ≢ "" = λ p. false≢true (sym e ∙ (eq_iff token "").1 p) in
        lookup_mem-good R x hour ttl at token t named
        ∙ ap (answered R x hour ttl) (h token at mine named later)
        ∙ sym (lookup_redis-alive R x hour ttl at token w named)
  ]

  Agree-look_up :
      (now at : ℕ) (token : String) (t : MemTokens) (w : R.World)
      → now ≤ at
      → Agree R x hour ttl P now t w
      → Agree R x hour ttl P at (lookup_mem at token t).1 (lookup_redis R token (x.at at w)).1
  Agree-look_up now at token t w later h other m its named after =
      good-lookup_mem R x hour ttl at m token other t after
      ∙ h other m its named (omega (arith, later, after))
      ∙ sym (alive-lookup_redis R x hour ttl at token w (token_key R other) m)

  -- If no command to Redis fails, keys expire as Redis documents, and no two of the tokens of some
  -- set have the same key, then the store of tokens in Redis and the store in memory, when they
  -- hold the same users for the tokens of this set and have the same time to live, give the same
  -- answers to all calls of `Issue` and `Lookup` that draw or present tokens of this set, at times
  -- that do not decrease and with drawn tokens that are not empty.
  pub mem_answers-redis_answers :
      (calls : List Timed) (now : ℕ) (t : MemTokens) (w : R.World)
      → t.ttl ≡ ttl_of R hour ttl
      → IsTimely P now calls
      → Agree R x hour ttl P now t w
      → mem_answers calls t ≡ redis_answers R x hour ttl calls w
  unfolding mem_answers redis_answers
  mem_answers-redis_answers [] now t w same timely h = refl
  mem_answers-redis_answers ((at, issue token user) ∷ calls) now t w same
        (later, mine, named, timely) h =
      ap₂ (λ a l. issued a ∷ l)
        (mem_issued R x hour ttl at token user t ∙ sym (issued_redis R x hour ttl at token user w))
        (mem_answers-redis_answers calls at _ _ (mem_ttl R x hour ttl at token user t ∙ same) timely
          (Agree-issue now at token user t w same mine later h))
  mem_answers-redis_answers ((at, look_up token) ∷ calls) now t w same (later, mine, timely) h =
      ap₂ (λ a l. looked a ∷ l) (look_up_same now at token t w mine later h)
        (mem_answers-redis_answers calls at _ _ (ttl-lookup_mem R x hour ttl at token t ∙ same)
          timely (Agree-look_up now at token t w later h))
