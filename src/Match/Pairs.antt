-- ===== src/Match/Pairs.antt =====
-- Whom `matchOnce` of internal/match/match.go pairs, whatever Redis answers.
use pet.Base.{
  ◌≡◌, ◌⊎◌, refl, sym, ap, subst, ◌∙◌, inl, inr, String, Bool, true, false, not, ◌&&◌, List, [],
  ◌∷◌, ◌++◌, Option, none, some, if◌then◌else◌, leb_ℤ, ◌-ℤ◌, pos, str_eq, arith, Bool-cases,
}
use text.Mathlib.TextEquality.{eq_iff}
use pet.Match.{
  Redis, Scored, absent, broken, scored, rating, Pair, Manager, Round, Progress, going, failed,
  is_member, take, partner, announce, time, second_taken, first_taken, found, looked_up, started,
  visit, visits, match_once, round_of, window, restore,
}

-- No player is listed twice.
abbrev pub Apart : List String → Type 0
Apart [] = Unit
Apart (x ∷ xs) = (is_member xs x ≡ false) × Apart xs

-- The players of the pairs, the last pair first.
abbrev pub players_of : List Pair → List String
players_of [] = []
players_of (p ∷ ps) = players_of ps ++ p.a ∷ p.b ∷ []

players_of-concat :
    (ps : List Pair) (p : Pair) → players_of (ps ++ p ∷ []) ≡ p.a ∷ p.b ∷ players_of ps
players_of-concat [] p = refl
players_of-concat (q ∷ ps) p = ap (λ xs. xs ++ q.a ∷ q.b ∷ []) (players_of-concat ps p)

pub partner_free :
    (a : String) (paired ids : List String)
    → str_eq (partner a paired ids) "" ≡ false
    → (str_eq (partner a paired ids) a ≡ false) × (is_member paired (partner a paired ids) ≡ false)
unfolding partner
partner_free a paired [] e = ground (arith, eq_iff "" "")
partner_free a paired (x ∷ ids) e =
    elim (Bool-cases (not (str_eq x a) && not (is_member paired x))) [
      | inl free ↦ ground arith
      | inr bound ↦ rw bound (partner_free a paired ids (ground arith))
    ]

module _ (R : Redis) (m : Manager R) where
  Progress-cases :
      (p : Progress R) → ((r : Round R) × (p ≡ going r)) ⊎ ((r : Round R) × (p ≡ failed r))
  Progress-cases (going r) = inl (r, refl)
  Progress-cases (failed r) = inr (r, refl)

  -- Nobody is paired twice, and `OnMatch` was called for the pairs.
  pub record IsFair (r : Round R) : Type 0 where
    pub apart : Apart r.paired
    pub called : players_of r.calls ≡ (if m.listens then r.paired else [])

  elsewhere : (r : Round R) → IsFair r → (w : R.World) → IsFair (record r { world = w })
  elsewhere r h w = record { apart = h.apart; called = h.called }

  announce-IsFair :
      (a b : String) (r : Round R)
      → IsFair r
      → is_member r.paired a ≡ false
      → str_eq b a ≡ false
      → is_member r.paired b ≡ false
      → IsFair (announce R m a b r)
  unfolding announce is_member
  announce-IsFair a b r h fresh other free = record {
    apart = (ground arith, (free, h.apart));
    called = elim (Bool-cases m.listens) [
      | inl on ↦ rw on (
          players_of-concat r.calls
            (record { a = a; b = b; room_id = (R.new_room_id a b r.world).0 })
          ∙ ap (λ xs. a ∷ b ∷ xs) (ground (arith, h.called)))
      | inr off ↦ rw off (ground (arith, h.called))
    ];
  }

  second_taken-IsFair :
      (a b : String) (score t : R.Float) (r : Round R) (o : Option Bool × R.World)
      → IsFair r
      → is_member r.paired a ≡ false
      → str_eq b a ≡ false
      → is_member r.paired b ≡ false
      → IsFair (round_of R (second_taken R m a b score t r o))
  unfolding second_taken
  second_taken-IsFair a b score t r (some true, w) h fresh other free =
      announce-IsFair a b (record r { world = w }) (elsewhere r h w) fresh other free
  second_taken-IsFair a b score t r (some false, w) h fresh other free =
      elsewhere r h (restore R a score t w).1
  second_taken-IsFair a b score t r (none, w) h fresh other free =
      elsewhere r h (restore R a score t w).1

  first_taken-IsFair :
      (a b : String) (score t : R.Float) (r : Round R) (o : Option Bool × R.World)
      → IsFair r
      → is_member r.paired a ≡ false
      → str_eq b a ≡ false
      → is_member r.paired b ≡ false
      → IsFair (round_of R (first_taken R m a b score t r o))
  unfolding first_taken
  first_taken-IsFair a b score t r (some true, w) h fresh other free =
      second_taken-IsFair a b score t r (take R b w) h fresh other free
  first_taken-IsFair a b score t r (some false, w) h fresh other free = elsewhere r h w
  first_taken-IsFair a b score t r (none, w) h fresh other free = elsewhere r h w

  found-IsFair :
      (a : String) (score t : R.Float) (r : Round R) (o : Option (List String) × R.World)
      → IsFair r
      → is_member r.paired a ≡ false
      → IsFair (round_of R (found R m a score t r o))
  unfolding found
  found-IsFair a score t r (none, w) h fresh = elsewhere r h w
  found-IsFair a score t r (some ids, w) h fresh =
      elim (Bool-cases (str_eq (partner a r.paired ids) "")) [
        | inl alone ↦ rw (alone, round_of) (elsewhere r h w)
        | inr met ↦
            let (other, free) = partner_free a r.paired ids met in
            rw (met, round_of)
              (first_taken-IsFair a (partner a r.paired ids) score t (record r { world = w })
                (take R a w) (elsewhere r h w) fresh other free)
      ]

  looked_up-IsFair :
      (now : R.Float) (a : String) (t : R.Float) (r : Round R) (o : Scored R.Float × R.World)
      → IsFair r
      → is_member r.paired a ≡ false
      → IsFair (round_of R (looked_up R m now a t r o))
  unfolding looked_up
  looked_up-IsFair now a t r (absent, w) h fresh = elsewhere r h w
  looked_up-IsFair now a t r (broken, w) h fresh = elsewhere r h w
  looked_up-IsFair now a t r (scored score, w) h fresh =
      let d = window R m now t in
      found-IsFair a score t (record r { world = w })
        (R.zrange_by_score rating (R.sub score d) (R.add score d) 10 w) (elsewhere r h w) fresh

  visit-IsFair :
      (now : R.Float) (a : String) (t : R.Float) (r : Round R)
      → IsFair r
      → IsFair (round_of R (visit R m now a t r))
  unfolding visit
  visit-IsFair now a t r h = elim (Bool-cases (is_member r.paired a)) [
    | inl old ↦ rw (old, round_of) h
    | inr fresh ↦
        rw (fresh, round_of) (looked_up-IsFair now a t r (R.zscore rating a r.world) h fresh)
  ]

  visits-IsFair :
      (now : R.Float) (zs : List (String × R.Float)) (r : Round R)
      → IsFair r
      → IsFair (round_of R (visits R m now zs r))
  unfolding visits
  visits-IsFair now [] r h = h
  visits-IsFair now ((a, t) ∷ zs) r h =
      let fair = visit-IsFair now a t r h in
      elim (Progress-cases (visit R m now a t r)) [
        | inl (r', e) ↦
            rw (e, round_of) (visits-IsFair now zs r' (subst (λ p. IsFair (round_of R p)) e fair))
        | inr (r', e) ↦ rw (e, round_of) (subst (λ p. IsFair (round_of R p)) e fair)
      ]

  started-IsFair :
      (now : R.Float) (o : Option (List (String × R.Float)) × R.World)
      → IsFair (round_of R (started R m now o))
  unfolding started
  started-IsFair now (none, w) = record { apart = tt; called = ground arith }
  started-IsFair now (some zs, w) =
      visits-IsFair now zs (record { world = w; paired = []; calls = [] })
        (record { apart = tt; called = ground arith })

  pub match_once-IsFair : (w : R.World) → IsFair (round_of R (match_once R m w))
  unfolding match_once
  match_once-IsFair w =
      let batch = if leb_ℤ m.batch (pos 0) then pos 20 else m.batch in
      let (now, w1) = R.unix_milli w in
      started-IsFair now (R.zrange_with_scores time (pos 0) (batch -ℤ pos 1) w1)

  -- Whatever Redis answers, errors included, no player is in two of the pairs that `OnMatch` gets
  -- in a round of `matchOnce`, and no player is paired with himself.
  pub match_once-Apart : (w : R.World) → Apart (players_of (round_of R (match_once R m w)).calls)
  match_once-Apart w =
      let r = round_of R (match_once R m w) in
      let h = match_once-IsFair w in
      elim (Bool-cases m.listens) [
        | inl on ↦ subst Apart (sym (h.called ∙ ap (λ b. if b then r.paired else []) on)) h.apart
        | inr off ↦ subst Apart (sym (h.called ∙ ap (λ b. if b then r.paired else []) off)) tt
      ]
