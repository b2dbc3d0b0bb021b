-- ===== src/Match.antt =====
-- internal/match/match.go: the queue of players that wait for an opponent, in two sorted sets of
-- Redis, the ratings and the times of entry. What `Run` does on a tick is `match_once`; the ticker
-- itself, the context and the texts of errors are not modelled.
use pet.Base.{
  ℕ, zero, suc, String, ℤ, pos, Bool, true, false, not, ◌&&◌, ◌||◌, List, [], ◌∷◌, ◌++◌, Option,
  none, some, if◌then◌else◌, str_eq, leb_ℤ, ◌-ℤ◌,
}
pub mod Pairs
pub mod Quiet
pub mod Commands
pub mod Queue

pub data Key : Type 0 where
  rating time : Key

-- The answer of `ZScore`: `redis.Nil`, another error, or the score.
pub data Scored {ℓ} (A : Type ℓ) : Type ℓ where
  absent : Scored A
  broken : Scored A
  scored : A → Scored A

-- float64, go-redis and the clock. `World` is all that they depend on: the contents of the server
-- and what others do to it between two commands. An answer `none` or `false` is an error.
pub record Redis : Type 1 where
  pub Float : Type 0
  pub add : Float → Float → Float
  pub sub : Float → Float → Float
  pub mul : Float → Float → Float
  pub millis_to_seconds : Float → Float  -- `/ 1000`
  pub less : Float → Float → Bool
  pub World : Type 0
  pub unix_milli : World → Float × World
  pub new_room_id : String → String → World → String × World  -- `fmt.Sprintf` with `UnixNano`
  pub zadd_nx : Key → Float → String → World → Bool × World
  pub zadd : Key → Float → String → World → Bool × World
  pub zrem : Key → String → World → Option ℕ × World
  pub zrem_both : String → World → Bool × World  -- a transaction of two `ZREM`
  pub zrange_with_scores : Key → ℤ → ℤ → World → Option (List (String × Float)) × World
  pub zscore : Key → String → World → Scored Float × World
  pub zrange_by_score : Key → Float → Float → ℕ → World → Option (List String) × World

pub record Pair : Type 0 where
  pub a : String
  pub b : String
  pub room_id : String

unfoldable pub is_member : List String → String → Bool
is_member [] x = false
is_member (y ∷ ys) x = str_eq y x || is_member ys x

-- The first of the ids that is another player without a pair; "" if there is none.
unfoldable pub partner : String → List String → List String → String
partner a paired [] = ""
partner a paired (x ∷ ids) =
    if not (str_eq x a) && not (is_member paired x) then x else partner a paired ids

module _ (R : Redis) where
  -- The settings of a manager; `listens` is `OnMatch != nil`.
  pub record Manager : Type 0 where
    pub base_window : R.Float
    pub widen_per_sec : R.Float
    pub max_window : R.Float
    pub batch : ℤ
    pub listens : Bool

  unfoldable pub join : String → R.Float → R.World → Bool × R.World
  join id score w =
      let (now, w1) = R.unix_milli w in
      let (ok, w2) = R.zadd_nx rating score id w1 in
      if not ok then (false, w2) else R.zadd_nx time now id w2

  unfoldable pub restore : String → R.Float → R.Float → R.World → Bool × R.World
  restore id score enqueued_at w =
      let (ok, w1) = R.zadd rating score id w in
      if not ok then (false, w1) else R.zadd time enqueued_at id w1

  unfoldable pub leave : String → R.World → Bool × R.World
  leave id w = R.zrem_both id w

  -- What `take` makes of the answer of the first `ZRem`.
  unfoldable pub removed : String → Option ℕ × R.World → Option Bool × R.World
  removed id (none, w) = (none, w)
  removed id (some zero, w) = (some false, w)
  removed id (some (suc n), w) = (some true, (R.zrem time id w).1)

  -- `none` is an error.
  unfoldable pub take : String → R.World → Option Bool × R.World
  unfolding removed
  take id w = removed id (R.zrem rating id w)

  -- What a round has done so far: `paired`, and the calls of `OnMatch` in order.
  pub record Round : Type 0 where
    pub world : R.World
    pub paired : List String
    pub calls : List Pair

  -- Whether the loop goes on, or returns an error.
  pub data Progress : Type 0 where
    going : Round → Progress
    failed : Round → Progress

  unfoldable pub window : Manager → R.Float → R.Float → R.Float
  window m now enqueued_at =
      let waited = R.millis_to_seconds (R.sub now enqueued_at) in
      let w = R.add m.base_window (R.mul m.widen_per_sec waited) in
      if R.less m.max_window w then m.max_window else w

  -- The end of the body: both are out of the queue.
  unfoldable pub announce : Manager → String → String → Round → Round
  announce m a b r =
      let (room_id, w) = R.new_room_id a b r.world in
      record {
        world = w;
        paired = a ∷ b ∷ r.paired;
        calls =
            if m.listens
            then r.calls ++ record { a = a; b = b; room_id = room_id } ∷ []
            else r.calls;
      }

  -- The body after the second `take`.
  unfoldable pub second_taken :
      Manager → String → String → R.Float → R.Float → Round → Option Bool × R.World → Progress
  unfolding announce restore
  second_taken m a b score enqueued_at r (some true, w) =
      going (announce m a b (record r { world = w }))
  second_taken m a b score enqueued_at r (some false, w) =
      going (record r { world = (restore a score enqueued_at w).1 })
  second_taken m a b score enqueued_at r (none, w) =
      going (record r { world = (restore a score enqueued_at w).1 })

  -- The body after the first `take`.
  unfoldable pub first_taken :
      Manager → String → String → R.Float → R.Float → Round → Option Bool × R.World → Progress
  unfolding second_taken
  first_taken m a b score enqueued_at r (some true, w) =
      second_taken m a b score enqueued_at r (take b w)
  first_taken m a b score enqueued_at r (some false, w) = going (record r { world = w })
  first_taken m a b score enqueued_at r (none, w) = failed (record r { world = w })

  -- The body after `ZRangeArgs`.
  unfoldable pub found :
      Manager → String → R.Float → R.Float → Round → Option (List String) × R.World → Progress
  unfolding first_taken
  found m a score enqueued_at r (none, w) = failed (record r { world = w })
  found m a score enqueued_at r (some ids, w) =
      let b = partner a r.paired ids in
      if str_eq b ""
      then going (record r { world = w })
      else first_taken m a b score enqueued_at (record r { world = w }) (take a w)

  -- The body after `ZScore`.
  unfoldable pub looked_up :
      Manager → R.Float → String → R.Float → Round → Scored R.Float × R.World → Progress
  unfolding found
  looked_up m now a enqueued_at r (absent, w) = going (record r { world = w })
  looked_up m now a enqueued_at r (broken, w) = failed (record r { world = w })
  looked_up m now a enqueued_at r (scored score, w) =
      let d = window m now enqueued_at in
      found m a score enqueued_at (record r { world = w })
        (R.zrange_by_score rating (R.sub score d) (R.add score d) 10 w)

  -- The body of the loop, for a player that waits since `enqueued_at`.
  unfoldable pub visit : Manager → R.Float → String → R.Float → Round → Progress
  unfolding looked_up
  visit m now a enqueued_at r =
      if is_member r.paired a
      then going r
      else looked_up m now a enqueued_at r (R.zscore rating a r.world)

  unfoldable pub visits : Manager → R.Float → List (String × R.Float) → Round → Progress
  visits m now [] r = going r
  visits m now ((a, enqueued_at) ∷ zs) r = elim (visit m now a enqueued_at r) [
    | going r' ↦ visits m now zs r'
    | failed r' ↦ failed r'
  ]

  unfoldable pub started : Manager → R.Float → Option (List (String × R.Float)) × R.World → Progress
  unfolding visits
  started m now (none, w) = failed (record { world = w; paired = []; calls = [] })
  started m now (some zs, w) = visits m now zs (record { world = w; paired = []; calls = [] })

  unfoldable pub match_once : Manager → R.World → Progress
  unfolding started
  match_once m w =
      let (now, w1) = R.unix_milli w in
      let batch = if leb_ℤ m.batch (pos 0) then pos 20 else m.batch in
      started m now (R.zrange_with_scores time (pos 0) (batch -ℤ pos 1) w1)

  abbrev pub round_of : Progress → Round
  round_of (going r) = r
  round_of (failed r) = r
