-- ===== src/Match/Commands.antt =====
-- `Join`, `Leave`, `take` and `restore` of internal/match/match.go on a server that nobody else
-- uses.
use pet.Base.{
  ◌≡◌, refl, sym, ap, ◌∙◌, inl, inr, String, true, List, [], ◌∷◌, Option, none, some, if◌then◌else◌,
  str_eq, All, arith, Option-cases, ℕ,
}
use pet.Match.{Redis, Key, rating, time, take, removed, restore, join, leave}
use pet.Match.Quiet.{
  same_key, or_else, value_at, IsQuiet, out_once, out_twice, written, joined, put_back,
}

module _ (R : Redis) (q : IsQuiet R) where
  pub entered_before :
      (w w1 : R.World)
      → ((k : Key) (x : String) → q.score w1 k x ≡ q.score w k x)
      → (zs : List (String × R.Float))
      → All (λ (z : String × R.Float). q.score w1 time z.0 ≡ some z.1) zs
      → All (λ (z : String × R.Float). q.score w time z.0 ≡ some z.1) zs
  entered_before w w1 same [] h = tt
  entered_before w w1 same (z ∷ zs) h = (sym (same time z.0) ∙ h.0, entered_before w w1 same zs h.1)

  pub listed_there :
      (low high : R.Float) (w w1 : R.World)
      → ((k : Key) (x : String) → q.score w1 k x ≡ q.score w k x)
      → (ids : List String)
      → All (λ x. (v : R.Float) × (q.score w rating x ≡ some v) × q.Between low high v) ids
      → All (λ x. (v : R.Float) × (q.score w1 rating x ≡ some v) × q.Between low high v) ids
  listed_there low high w w1 same [] h = tt
  listed_there low high w w1 same (x ∷ ids) ((v, e, between), h) =
      ((v, same rating x ∙ e, between), listed_there low high w w1 same ids h)

  -- `take` of a player with a rating takes the player out of both sets.
  pub take_present :
      (id : String) (w : R.World) (v : R.Float)
      → q.score w rating id ≡ some v
      → (w' : R.World) × (take R id w ≡ (some true, w'))
        × ((k : Key) (y : String) → q.score w' k y ≡ (if str_eq id y then none else q.score w k y))
  unfolding take same_key
  take_present id w v e =
      let (w1, p, h) = q.zrem_present rating id w v e in
      elim (Option-cases (q.score w1 time id)) [
        | inl gone ↦
            let (w2, p2, h2) = q.zrem_absent time id w1 gone in
            (
              w2,
              ap (removed R id) p ∙ ap (λ (o : Option ℕ × R.World). (some true, o.1)) p2,
              out_once id (q.score w) (q.score w1) (q.score w2) h gone h2,
            )
        | inr (t, there) ↦
            let (w2, p2, h2) = q.zrem_present time id w1 t there in
            (
              w2,
              ap (removed R id) p ∙ ap (λ (o : Option ℕ × R.World). (some true, o.1)) p2,
              out_twice id (q.score w) (q.score w1) (q.score w2) h h2,
            )
      ]

  -- The rating and the waiting time are written back.
  restore_writes :
      (id : String) (score t : R.Float) (w : R.World)
      → (w' : R.World) × (restore R id score t w ≡ (true, w'))
        × ((k : Key) (y : String)
            → q.score w' k y ≡ (if str_eq id y then some (value_at score t k) else q.score w k y))
  unfolding restore
  restore_writes id score t w =
      let (w1, p, h) = q.zadd_writes rating score id w in
      let (w2, p2, h2) = q.zadd_writes time t id w1 in
      (w2, rw (p, p2) refl, written id (q.score w) (q.score w1) (q.score w2) score t h h2)

  -- If Redis does what it documents for sorted sets, no command fails and nobody else uses the
  -- sets, then `take` of a player in both sets succeeds and takes out this player alone, and
  -- `restore` with the player's rating and time of entry makes the queue as it was.
  pub restore-take :
      (id : String) (w : R.World) (score t : R.Float)
      → q.score w rating id ≡ some score
      → q.score w time id ≡ some t
      → (w1 : R.World) × (w2 : R.World) × (take R id w ≡ (some true, w1))
        × (restore R id score t w1 ≡ (true, w2))
        × ((k : Key) (y : String) → q.score w1 k y ≡ (if str_eq id y then none else q.score w k y))
        × ((k : Key) (y : String) → q.score w2 k y ≡ q.score w k y)
  restore-take id w score t rated entered =
      let (w1, p, h) = take_present id w score rated in
      let (w2, p2, h2) = restore_writes id score t w1 in
      (
        w1,
        w2,
        p,
        p2,
        h,
        put_back id (q.score w) (q.score w1) (q.score w2) score t rated entered h h2,
      )

  -- If Redis does what it documents for sorted sets, no command fails and nobody else uses the
  -- sets, then `Join` gives a player the rating and the present time where the player has no entry
  -- yet and changes nothing else, and a `Leave` after it takes out this player alone.
  pub leave-join :
      (id : String) (score : R.Float) (w : R.World)
      → (w1 : R.World) × (w2 : R.World) × (join R id score w ≡ (true, w1))
        × (leave R id w1 ≡ (true, w2))
        × ((k : Key) (y : String)
            → q.score w1 k y ≡ (
                if str_eq id y
                then some (or_else (value_at score (R.unix_milli w).0 k) (q.score w k y))
                else q.score w k y))
        × ((k : Key) (y : String) → q.score w2 k y ≡ (if str_eq id y then none else q.score w k y))
  unfolding join leave
  leave-join id score w =
      let (now, w0) = R.unix_milli w in
      let (u, p, h) = q.zadd_nx_writes rating score id w0 in
      let (w1, p1, h1) = q.zadd_nx_writes time now id u in
      let (w2, p2, h2) = q.zrem_both_writes id w1 in
      (
        w1,
        w2,
        rw (p, p1) refl,
        p2,
        (λ k y.
            joined id (q.score w0) (q.score u) (q.score w1) score now h h1 k y
            ∙ ap (λ o. if str_eq id y then some (or_else (value_at score now k) o) else o)
                (q.clock_reads w k y)),
        λ k y. ground (
          arith,
          h2 k y,
          joined id (q.score w0) (q.score u) (q.score w1) score now h h1 k y,
          q.clock_reads w k y,
        ),
      )
