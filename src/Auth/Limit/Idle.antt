-- ===== src/Auth/Limit/Idle.antt =====
-- That `sweep` of internal/auth/loginlimit.go forgets nothing that matters.
use pet.Base.{
  ℕ, ◌+◌, ◌-◌, ◌*◌, ◌≤◌, ◌<◌, ◌≡◌, ◌⊎◌, refl, sym, ap, subst, ◌∙◌, inl, inr, String, Bool, true,
  false, List, [], ◌∷◌, Option, none, some, if◌then◌else◌, str_eq, ltb, ltb→lt, arith, Bool-cases,
  Option-cases,
}
use native.Mathlib.Nat.{mul-le-mul_right}
use pet.Deck.{lookup, insert}
use pet.Deck.Maps.{lookup-insert}
use pet.Auth.Limit.Bucket.{allow_keeps}
use pet.Auth.Limit.{
  Units, Limiter, new_limiter, refilled, allow, IpLimiter, new_ip_limiter, sweep, bucket_of,
  allow_ip, answers_ip,
}
use pet.Auth.Limit.Swept.{Once, Once-insert, fresh, lookup-without_idle, Once-without_idle}

module _ (u : Units) where
  -- `Allow` without the sweep: what a limiter that keeps every bucket does.
  unfoldable pub allow_kept : ℕ → String → IpLimiter → Bool × IpLimiter
  allow_kept now ip l =
      let (ok, b) = allow u now (bucket_of now ip l) in (ok, record l { m = insert ip b l.m })

  unfoldable pub answers_kept : List (ℕ × String) → IpLimiter → List Bool × IpLimiter
  answers_kept [] l = ([], l)
  answers_kept ((now, ip) ∷ calls) l =
      let (ok, l') = allow_kept now ip l in
      let (oks, l'') = answers_kept calls l' in (ok ∷ oks, l'')

  -- The times of the calls do not decrease, from `t` on.
  abbrev pub InOrder : ℕ → List (ℕ × String) → Type 0
  InOrder t [] = Unit
  InOrder t ((now, ip) ∷ calls) = (t ≤ now) × InOrder now calls

  module _ (rate burst : ℕ) (refills : burst ≤ u.ip_idle * rate) where
    -- A bucket of a limiter with these settings.
    abbrev IsOurs : Limiter → Type 0
    IsOurs b = (b.rate ≡ rate) × (b.burst ≡ burst)

    -- What is found with the sweep and without it: the same, or a bucket that was swept.
    abbrev Matches : ℕ → Option Limiter → Option Limiter → Type 0
    Matches t a none = a ≡ none
    Matches t a (some b) = IsOurs b × ((a ≡ some b) ⊎ ((a ≡ none) × (b.last + u.ip_idle < t)))

    Matches-fresh :
        (t now : ℕ) (a b : Option Limiter) → t ≤ now → Matches t a b → Matches now (fresh u now a) b
    Matches-fresh t now a none h e = ap (fresh u now) e
    Matches-fresh t now a (some b) h (ours, inr (e, swept)) =
        (ours, inr (ap (fresh u now) e, omega (arith, h, swept)))
    Matches-fresh t now a (some b) h (ours, inl e) =
        elim (Bool-cases (ltb u.ip_idle (now - b.last))) [
          | inl idle ↦ (
            ours,
            inr (
              ap (fresh u now) e ∙ rw idle refl,
              ground (arith, ltb→lt u.ip_idle (now - b.last) idle),
            ),
          )
          | inr busy ↦ (ours, inl (ap (fresh u now) e ∙ rw busy refl))
        ]

    Matches-later : (t now : ℕ) (a b : Option Limiter) → t ≤ now → Matches t a b → Matches now a b
    Matches-later t now a none h e = e
    Matches-later t now a (some b) h (ours, inl e) = (ours, inl e)
    Matches-later t now a (some b) h (ours, inr (e, swept)) =
        (ours, inr (e, omega (arith, h, swept)))

    -- A bucket that is idle for so long is full.
    refilled_idle :
        (now : ℕ) (b : Limiter) → IsOurs b → b.last + u.ip_idle < now → refilled now b ≡ burst
    unfolding refilled
    refilled_idle now b (r, c) swept =
        let more : u.ip_idle * b.rate ≤ (now - b.last) * b.rate =
          mul-le-mul_right b.rate (omega (arith, swept)) in
        let enough : burst ≤ u.ip_idle * b.rate =
          subst (λ x. burst ≤ u.ip_idle * x) (sym r) refills in
        ground (arith, c, more, enough)

    -- `allow` by the tokens that there are.
    abbrev taken : ℕ → ℕ → ℕ → ℕ → Bool × Limiter
    taken now r c x =
        if ltb x u.token
        then (false, record { rate = r; burst = c; tokens = x; last = now })
        else (true, record { rate = r; burst = c; tokens = x - u.token; last = now })

    -- A bucket and a full one of the same settings at the same time.
    allow_full :
        (now : ℕ) (b : Limiter)
        → IsOurs b
        → refilled now b ≡ burst
        → allow u now b ≡ allow u now (new_limiter rate burst now)
    unfolding allow new_limiter
    allow_full now b (r, c) full =
        let full' : refilled now (new_limiter rate burst now) ≡ burst =
          unfold refilled new_limiter in ground arith in
        ap (λ x. taken now x b.burst (refilled now b)) r
        ∙ ap (λ x. taken now rate x (refilled now b)) c
        ∙ ap (taken now rate burst) (full ∙ sym full')

    record IsLike (t : ℕ) (l k : IpLimiter) : Type 0 where
      rate_l : l.rate ≡ rate
      rate_k : k.rate ≡ rate
      burst_l : l.burst ≡ burst
      burst_k : k.burst ≡ burst
      once : Once l.m
      matches : (ip : String) → Matches t (lookup ip l.m) (lookup ip k.m)

    bucket_like :
        (now : ℕ) (l k : IpLimiter) (ip : String)
        → IsLike now l k
        → allow u now (bucket_of now ip l) ≡ allow u now (bucket_of now ip k)
    unfolding bucket_of
    bucket_like now l k ip h = like (lookup ip l.m) (lookup ip k.m) (h.matches ip)
      where
        held : IpLimiter → Option Limiter → Limiter
        held i o = elim o [ some b ↦ b | none ↦ new_limiter i.rate i.burst now ]

        anew : new_limiter l.rate l.burst now ≡ new_limiter k.rate k.burst now
        anew =
            ap (λ r. new_limiter r l.burst now) (h.rate_l ∙ sym h.rate_k)
            ∙ ap (λ c. new_limiter k.rate c now) (h.burst_l ∙ sym h.burst_k)

        ours : new_limiter l.rate l.burst now ≡ new_limiter rate burst now
        ours =
            ap (λ r. new_limiter r l.burst now) h.rate_l
            ∙ ap (λ c. new_limiter rate c now) h.burst_l

        like :
            (a b : Option Limiter)
            → Matches now a b
            → allow u now (held l a) ≡ allow u now (held k b)
        like a none e = ap (λ o. allow u now (held l o)) e ∙ ap (allow u now) anew
        like a (some b) (mine, inl e) = ap (λ o. allow u now (held l o)) e
        like a (some b) (mine, inr (e, swept)) =
            ap (λ o. allow u now (held l o)) e
            ∙ ap (allow u now) ours
            ∙ sym (allow_full now b mine (refilled_idle now b mine swept))

    bucket_of-IsOurs :
        (now : ℕ) (k : IpLimiter) (ip : String)
        → k.rate ≡ rate
        → k.burst ≡ burst
        → (a : Option Limiter) → Matches now a (lookup ip k.m)
        → IsOurs (bucket_of now ip k)
    unfolding bucket_of new_limiter
    bucket_of-IsOurs now k ip r c a h = elim (Option-cases (lookup ip k.m)) [
      | inl e ↦ rw (e, bucket_of) (r, c)
      | inr (b, e) ↦ rw (e, bucket_of) (subst (Matches now a) e h).0
    ]

    swept-IsLike :
        (t now : ℕ) (l k : IpLimiter)
        → t ≤ now
        → IsLike t l k
        → IsLike now (if ltb u.minute (now - l.last_sweep) then sweep u now l else l) k
    unfolding sweep
    swept-IsLike t now l k later h = elim (Bool-cases (ltb u.minute (now - l.last_sweep))) [
      | inl due ↦ rw due (record {
        rate_l = h.rate_l;
        rate_k = h.rate_k;
        burst_l = h.burst_l;
        burst_k = h.burst_k;
        once = Once-without_idle u now l.m h.once;
        matches = λ ip.
            subst (λ a. Matches now a (lookup ip k.m))
              (sym (lookup-without_idle u now ip l.m h.once))
              (Matches-fresh t now (lookup ip l.m) (lookup ip k.m) later (h.matches ip));
      })
      | inr early ↦ rw early (record {
        rate_l = h.rate_l;
        rate_k = h.rate_k;
        burst_l = h.burst_l;
        burst_k = h.burst_k;
        once = h.once;
        matches = λ ip. Matches-later t now (lookup ip l.m) (lookup ip k.m) later (h.matches ip);
      })
    ]

    insert-IsLike :
        (now : ℕ) (ip : String) (b : Limiter) (l k : IpLimiter)
        → IsOurs b
        → IsLike now l k
        → IsLike now (record l { m = insert ip b l.m }) (record k { m = insert ip b k.m })
    insert-IsLike now ip b l k ours h = record {
      rate_l = h.rate_l;
      rate_k = h.rate_k;
      burst_l = h.burst_l;
      burst_k = h.burst_k;
      once = Once-insert ip b l.m h.once;
      matches = λ j.
          subst (λ x. Matches now x (lookup j (insert ip b k.m))) (sym (lookup-insert j ip b l.m))
            (subst (Matches now (if str_eq ip j then some b else lookup j l.m))
              (sym (lookup-insert j ip b k.m)) (at j));
    }
      where
        at :
            (j : String)
            → Matches now
                (if str_eq ip j then some b else lookup j l.m)
                (if str_eq ip j then some b else lookup j k.m)
        at j = elim (Bool-cases (str_eq ip j)) [
          | inl hit ↦
              subst
                (λ t.
                  Matches now (if t then some b else lookup j l.m)
                    (if t then some b else lookup j k.m))
                (sym hit) (ours, inl refl)
          | inr miss ↦
              subst
                (λ t.
                  Matches now (if t then some b else lookup j l.m)
                    (if t then some b else lookup j k.m))
                (sym miss) (h.matches j)
        ]

    step-IsLike :
        (t now : ℕ) (ip : String) (l k : IpLimiter)
        → t ≤ now
        → IsLike t l k
        → ((allow_ip u now ip l).0 ≡ (allow_kept now ip k).0)
          × IsLike now (allow_ip u now ip l).1 (allow_kept now ip k).1
    unfolding allow_ip allow_kept
    step-IsLike t now ip l k later h =
        let l' = if ltb u.minute (now - l.last_sweep) then sweep u now l else l in
        let h' = swept-IsLike t now l k later h in
        let same = bucket_like now l' k ip h' in
        let (at, r, c) = allow_keeps u now (bucket_of now ip k) in
        let mine =
          bucket_of-IsOurs now k ip h'.rate_k h'.burst_k (lookup ip l'.m) (h'.matches ip) in
        (
          ap (λ o. o.0) same,
          subst
              (λ (o : Bool × Limiter).
                IsLike now (record l' { m = insert ip o.1 l'.m })
                  (record k { m = insert ip (allow u now (bucket_of now ip k)).1 k.m }))
              (sym same)
              (insert-IsLike now ip (allow u now (bucket_of now ip k)).1 l' k
                (r ∙ mine.0, c ∙ mine.1) h'),
        )

    answers-IsLike :
        (t : ℕ) (calls : List (ℕ × String)) (l k : IpLimiter)
        → InOrder t calls
        → IsLike t l k
        → (answers_ip u calls l).0 ≡ (answers_kept calls k).0
    unfolding answers_ip answers_kept
    answers-IsLike t [] l k o h = refl
    answers-IsLike t ((now, ip) ∷ calls) l k o h =
        let (same, h') = step-IsLike t now ip l k o.0 h in
        let rest =
          answers-IsLike now calls (allow_ip u now ip l).1 (allow_kept now ip k).1 o.1 h' in
        ap (λ ok. ok ∷ (answers_ip u calls (allow_ip u now ip l).1).0) same
        ∙ ap (λ oks. (allow_kept now ip k).0 ∷ oks) rest

  -- If a bucket that is idle for `ipIdle` is full again, then an `IPLimiter` answers all requests,
  -- made one after another by any addresses, as one would that never sweeps: forgetting idle
  -- addresses changes no answer.
  pub answers_ip-answers_kept :
      (rate burst : ℕ) (calls : List (ℕ × String))
      → burst ≤ u.ip_idle * rate
      → InOrder 0 calls
      → (answers_ip u calls (new_ip_limiter rate burst)).0
        ≡ (answers_kept calls (new_ip_limiter rate burst)).0
  unfolding new_ip_limiter lookup
  answers_ip-answers_kept rate burst calls refills o =
      answers-IsLike rate burst refills 0 calls (new_ip_limiter rate burst)
        (new_ip_limiter rate burst) o
        (record {
          rate_l = refl;
          rate_k = refl;
          burst_l = refl;
          burst_k = refl;
          once = tt;
          matches = λ ip. refl;
        })
