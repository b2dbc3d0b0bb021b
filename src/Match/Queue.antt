-- ===== src/Match/Queue.antt =====
-- What a round of internal/match/match.go makes of the queue, when Redis does what it documents for
-- sorted sets, no command fails and nobody else uses the two sets.
use pet.Base.{
  ◌≡◌, refl, sym, ap, subst, ◌∙◌, inl, inr, String, pos, true, false, not, ◌&&◌, List, [], ◌∷◌,
  none, some, if◌then◌else◌, str_eq, leb_ℤ, ◌-ℤ◌, All, All-append, arith, Bool-cases, Option-cases,
}
use text.Mathlib.TextEquality.{eq_iff}
use pet.Match.{
  Redis, Key, rating, time, Pair, Manager, Round, Progress, going, failed, is_member, take, partner,
  window, announce, second_taken, first_taken, found, looked_up, visit, visits, started, match_once,
  round_of,
}
use pet.Match.Pairs.{players_of, partner_free, match_once-IsFair}
use pet.Match.Quiet.{IsQuiet}
use pet.Match.Commands.{entered_before, listed_there, take_present}

partner_listed :
    (P : String → Type 0) (a : String) (paired ids : List String)
    → str_eq (partner a paired ids) "" ≡ false
    → All P ids
    → P (partner a paired ids)
unfolding partner
partner_listed P a paired [] e h = ground (arith, eq_iff "" "")
partner_listed P a paired (x ∷ ids) e h =
    elim (Bool-cases (not (str_eq x a) && not (is_member paired x))) [
      | inl free ↦ rw free h.0
      | inr bound ↦ rw bound (partner_listed P a paired ids (ground arith) h.1)
    ]

module _ (R : Redis) (q : IsQuiet R) where
  module _ (m : Manager R) (now : R.Float) (w0 : R.World) where
    -- Both players of a pair waited, and the rating of the second is in the window of the first.
    pub record IsClose (p : Pair) : Type 0 where
      pub first_rating : R.Float
      pub second_rating : R.Float
      pub entered : R.Float
      pub first_rated : q.score w0 rating p.a ≡ some first_rating
      pub second_rated : q.score w0 rating p.b ≡ some second_rating
      pub first_entered : q.score w0 time p.a ≡ some entered
      pub in_window :
          q.Between
            (R.sub first_rating (window R m now entered))
            (R.add first_rating (window R m now entered))
            second_rating

    -- The queue is what it was, without those paired.
    record IsKept (r : Round R) : Type 0 where
      rest :
          (k : Key) (x : String)
          → q.score r.world k x ≡ (if is_member r.paired x then none else q.score w0 k x)
      close : All IsClose r.calls

    -- The loop goes on, and the queue is kept.
    abbrev Goes : Progress R → Type 0
    Goes p = (r : Round R) × (p ≡ going r) × IsKept r

    elsewhere :
        (r : Round R) (w : R.World)
        → IsKept r
        → ((k : Key) (x : String) → q.score w k x ≡ q.score r.world k x)
        → IsKept (record r { world = w })
    elsewhere r w h same = record { rest = λ k x. same k x ∙ h.rest k x; close = h.close }

    announce-IsKept :
        (a b : String) (r : Round R) (w1 w2 : R.World)
        → IsKept r
        → ((room_id : String) → IsClose (record { a = a; b = b; room_id = room_id }))
        → ((k : Key) (y : String)
            → q.score w1 k y ≡ (if str_eq a y then none else q.score r.world k y))
        → ((k : Key) (y : String) → q.score w2 k y ≡ (if str_eq b y then none else q.score w1 k y))
        → IsKept (announce R m a b (record r { world = w2 }))
    unfolding announce is_member
    announce-IsKept a b r w1 w2 h near out_a out_b = record {
      rest = λ k x. ground (arith, q.naming_reads a b w2 k x, out_b k x, out_a k x, h.rest k x);
      close = elim (Bool-cases m.listens) [
        | inl on ↦
            rw (on, All)
              (All-append IsClose r.calls
                (record { a = a; b = b; room_id = (R.new_room_id a b w2).0 } ∷ []) h.close
                (near (R.new_room_id a b w2).0, tt))
        | inr off ↦ rw (off, All) h.close
      ];
    }

    -- A player that the round has not paired has the scores that the player came with.
    unpaired :
        (r : Round R) (k : Key) (x : String) {v : R.Float}
        → IsKept r
        → is_member r.paired x ≡ false
        → q.score r.world k x ≡ some v
        → q.score w0 k x ≡ some v
    unpaired r k x h fresh e = ground (arith, h.rest k x)

    pair-Goes :
        (a b : String) (score t v : R.Float) (r : Round R)
        → IsKept r
        → ((room_id : String) → IsClose (record { a = a; b = b; room_id = room_id }))
        → str_eq b a ≡ false
        → q.score r.world rating a ≡ some score
        → q.score r.world rating b ≡ some v
        → Goes (first_taken R m a b score t r (take R a r.world))
    unfolding first_taken second_taken
    pair-Goes a b score t v r h near differ rated_a rated_b =
        let (w1, p, out_a) = take_present R q a r.world score rated_a in
        let there : q.score w1 rating b ≡ some v =
          ground (arith, out_a rating b, eq_iff a b, eq_iff b a) in
        let (w2, p2, out_b) = take_present R q b w1 v there in
        (
          announce R m a b (record r { world = w2 }),
          ap (first_taken R m a b score t r) p ∙ ap (second_taken R m a b score t r) p2,
          announce-IsKept a b r w1 w2 h near out_a out_b,
        )

    found-Goes :
        (a : String) (score t low high : R.Float) (r : Round R) (ids : List String) (w : R.World)
        → IsKept (record r { world = w })
        → All (λ x. (v : R.Float) × (q.score w rating x ≡ some v) × q.Between low high v) ids
        → q.score w rating a ≡ some score
        → ((b room_id : String) (v : R.Float)
            → q.score w0 rating b ≡ some v
            → q.Between low high v
            → IsClose (record { a = a; b = b; room_id = room_id }))
        → Goes (found R m a score t r (some ids, w))
    unfolding found
    found-Goes a score t low high r ids w h listed rated_a near =
        elim (Bool-cases (str_eq (partner a r.paired ids) "")) [
          | inl alone ↦ (record r { world = w }, rw alone refl, h)
          | inr met ↦
              let b = partner a r.paired ids in
              let (differ, free) = partner_free a r.paired ids met in
              let (v, rated_b, between) =
                partner_listed
                  (λ x. (v : R.Float) × (q.score w rating x ≡ some v) × q.Between low high v) a
                  r.paired ids met listed in
              rw met (
                pair-Goes a b score t v (record r { world = w }) h
                  (λ room_id.
                    near b room_id v (unpaired (record r { world = w }) rating b h free rated_b)
                      between)
                  differ rated_a rated_b)
        ]

    visit-Goes :
        (a : String) (t : R.Float) (r : Round R)
        → IsKept r
        → q.score w0 time a ≡ some t
        → Goes (visit R m now a t r)
    unfolding visit looked_up
    visit-Goes a t r h entered = elim (Bool-cases (is_member r.paired a)) [
      | inl old ↦ (r, rw old refl, h)
      | inr fresh ↦ elim (Option-cases (q.score r.world rating a)) [
        | inl gone ↦
            let (w1, p, same) = q.zscore_absent rating a r.world gone in
            (
              record r { world = w1 },
              rw fresh (ap (looked_up R m now a t r) p),
              elsewhere r w1 h same,
            )
        | inr (score, rated) ↦
            let (w1, p, same) = q.zscore_present rating a r.world score rated in
            let d = window R m now t in
            let low = R.sub score d in
            let high = R.add score d in
            let (ids, w2, p2, listed, same2) = q.zrange_by_score_lists rating low high 10 w1 in
            let r1 : Round R = record r { world = w1 } in
            let (r', p3, h3) =
              found-Goes a score t low high r1 ids w2
                (elsewhere r w2 h (λ k x. same2 k x ∙ same k x))
                (listed_there R q low high w1 w2 same2 ids listed)
                (same2 rating a ∙ (same rating a ∙ rated))
                (λ b room_id v rated_b between. record {
                  first_rating = score;
                  second_rating = v;
                  entered = t;
                  first_rated = unpaired r rating a h fresh rated;
                  second_rated = rated_b;
                  first_entered = entered;
                  in_window = between;
                }) in
            (
              r',
              rw fresh (ap (looked_up R m now a t r) p) ∙ (ap (found R m a score t r1) p2 ∙ p3),
              h3,
            )
      ]
    ]

    -- What the loop makes of the outcome of a body.
    abbrev progress_on : List (String × R.Float) → Progress R → Progress R
    progress_on zs (going r) = visits R m now zs r
    progress_on zs (failed r) = failed r

    visits-Goes :
        (zs : List (String × R.Float)) (r : Round R)
        → IsKept r
        → All (λ (z : String × R.Float). q.score w0 time z.0 ≡ some z.1) zs
        → Goes (visits R m now zs r)
    unfolding visits
    visits-Goes [] r h listed = (r, refl, h)
    visits-Goes ((a, t) ∷ zs) r h listed =
        let (r1, p, h1) = visit-Goes a t r h listed.0 in
        let (r2, p2, h2) = visits-Goes zs r1 h1 listed.1 in (r2, ap (progress_on zs) p ∙ p2, h2)

  match_once-Goes : (m : Manager R) (w : R.World) → Goes m (R.unix_milli w).0 w (match_once R m w)
  unfolding match_once started is_member
  match_once-Goes m w =
      let (now, w1) = R.unix_milli w in
      let batch = if leb_ℤ m.batch (pos 0) then pos 20 else m.batch in
      let (zs, w2, p, listed, same) = q.zrange_lists time (pos 0) (batch -ℤ pos 1) w1 in
      let start : Round R = record { world = w2; paired = []; calls = [] } in
      let kept : IsKept m now w start = record {
        rest = λ k x. same k x ∙ q.clock_reads w k x;
        close = tt;
      } in
      let (r, p2, h) =
        visits-Goes m now w zs start kept (entered_before R q w w1 (q.clock_reads w) zs listed) in
      (r, ap (started R m now) p ∙ p2, h)

  -- If Redis does what it documents for sorted sets, no command fails and nobody else uses the
  -- sets, then a round of `matchOnce` ends without an error; afterwards the queue is what it was
  -- without the players of the pairs that `OnMatch` got, and in each pair both were waiting and
  -- the rating of the second is within the window of the first.
  pub match_once-IsClose :
      (m : Manager R) (w : R.World)
      → m.listens ≡ true
      → (r : Round R) × (match_once R m w ≡ going r)
        × ((k : Key) (x : String)
            → q.score r.world k x
              ≡ (if is_member (players_of r.calls) x then none else q.score w k x))
        × All (IsClose m (R.unix_milli w).0 w) r.calls
  match_once-IsClose m w on =
      let (r, goes, h) = match_once-Goes m w in
      let called : players_of r.calls ≡ (if m.listens then r.paired else []) =
        subst
          (λ p. players_of (round_of R p).calls ≡ (if m.listens then (round_of R p).paired else []))
          goes (match_once-IsFair R m w).called in
      let paired : players_of r.calls ≡ r.paired =
        called ∙ ap (λ b. if b then r.paired else []) on in
      (
        r,
        goes,
        (λ k x.
            h.rest k x ∙ ap (λ ps. if is_member ps x then none else q.score w k x) (sym paired)),
        h.close,
      )
