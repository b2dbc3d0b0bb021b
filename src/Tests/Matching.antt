-- ===== src/Tests/Matching.antt =====
-- Witnesses for internal/match: a server that keeps the two sorted sets as association lists, with
-- natural numbers for scores.
use pet.Base.{
  ℕ, ◌+◌, ◌-◌, ◌*◌, ◌/◌, ◌≤◌, ◌≡◌, refl, sym, ap, ◌∙◌, inl, inr, String, pos, true, ◌&&◌, List, [],
  ◌∷◌, Option, none, some, if◌then◌else◌, str_eq, leb, ltb, All, arith, Bool-cases, Option-cases,
}
use text.Mathlib.TextEquality.{eq_iff}
use pet.Deck.{lookup, insert}
use pet.Deck.Maps.{lookup-insert}
use pet.Room.Manager.{forget, lookup-forget}
use pet.Match.{
  Redis, Scored, absent, scored, Key, rating, time, Manager, Round, going, round_of, is_member,
  visit, partner, window, take, restore, match_once,
}
use pet.Match.Pairs.{players_of, Apart, match_once-Apart}
use pet.Match.Quiet.{same_key, or_else, IsQuiet}
use pet.Match.Commands.{restore-take}
use pet.Match.Queue.{IsClose, match_once-IsClose}

abbrev Sets : Type 0
Sets = List (String × ℕ) × List (String × ℕ)

abbrev set_of : Key → Sets → List (String × ℕ)
set_of rating s = s.0
set_of time s = s.1

abbrev write : Key → List (String × ℕ) → Sets → Sets
write rating l s = (l, s.1)
write time l s = (s.0, l)

abbrev scored_by : Option ℕ → Scored ℕ
scored_by none = absent
scored_by (some v) = scored v

abbrev present_count : Option ℕ → ℕ
present_count none = 0
present_count (some v) = 1

-- The members of `xs` with their scores in `l`.
abbrev scores : List (String × ℕ) → List (String × ℕ) → List (String × ℕ)
scores l [] = []
scores l (x ∷ xs) = elim (lookup x.0 l) [ none ↦ scores l xs | some v ↦ (x.0, v) ∷ scores l xs ]

abbrev between : ℕ → ℕ → List (String × ℕ) → List String
between low high [] = []
between low high (x ∷ xs) =
    let rest = between low high xs in if leb low x.1 && leb x.1 high then x.0 ∷ rest else rest

abbrev redis : Redis
redis = record {
  Float = ℕ;
  add = λ a b. a + b;
  sub = λ a b. a - b;
  mul = λ a b. a * b;
  millis_to_seconds = λ a. a / 1000;
  less = ltb;
  World = Sets;
  unix_milli = λ w. (5000, w);
  new_room_id = λ a b w. (a, w);
  zadd_nx =
      λ k v x w. (true, write k (insert x (or_else v (lookup x (set_of k w))) (set_of k w)) w);
  zadd = λ k v x w. (true, write k (insert x v (set_of k w)) w);
  zrem = λ k x w. (some (present_count (lookup x (set_of k w))), write k (forget x (set_of k w)) w);
  zrem_both = λ x w. (true, (forget x w.0, forget x w.1));
  zrange_with_scores = λ k from to w. (some (scores (set_of k w) (set_of k w)), w);
  zscore = λ k x w. (scored_by (lookup x (set_of k w)), w);
  zrange_by_score =
      λ k low high n w. (some (between low high (scores (set_of k w) (set_of k w))), w);
}

insert_there :
    (k : Key) (v : ℕ) (x : String) (w : Sets) (j : Key) (y : String)
    → lookup y (set_of j (write k (insert x v (set_of k w)) w))
      ≡ (if same_key k j && str_eq x y then some v else lookup y (set_of j w))
unfolding same_key
insert_there rating v x w rating y = lookup-insert y x v w.0
insert_there rating v x w time y = refl
insert_there time v x w rating y = refl
insert_there time v x w time y = lookup-insert y x v w.1

forget_there :
    (k : Key) (x : String) (w : Sets) (j : Key) (y : String)
    → lookup y (set_of j (write k (forget x (set_of k w)) w))
      ≡ (if same_key k j && str_eq x y then none else lookup y (set_of j w))
unfolding same_key
forget_there rating x w rating y = lookup-forget y x w.0
forget_there rating x w time y = refl
forget_there time x w rating y = refl
forget_there time x w time y = lookup-forget y x w.1

nx_at :
    (x y : String) (v : ℕ) (l : List (String × ℕ))
    → lookup y (insert x (or_else v (lookup x l)) l)
      ≡ (if str_eq x y then some (or_else v (lookup y l)) else lookup y l)
nx_at x y v l = elim (Bool-cases (str_eq x y)) [
  | inl hit ↦
      lookup-insert y x (or_else v (lookup x l)) l
      ∙ rw hit (ap (λ z. some (or_else v (lookup z l))) ((eq_iff x y).0 hit))
  | inr miss ↦ lookup-insert y x (or_else v (lookup x l)) l ∙ rw miss refl
]

nx_there :
    (k : Key) (v : ℕ) (x : String) (w : Sets) (j : Key) (y : String)
    → lookup y (set_of j (write k (insert x (or_else v (lookup x (set_of k w))) (set_of k w)) w))
      ≡ (if same_key k j && str_eq x y
          then some (or_else v (lookup y (set_of j w)))
          else lookup y (set_of j w))
unfolding same_key
nx_there rating v x w rating y = nx_at x y v w.0
nx_there rating v x w time y = refl
nx_there time v x w rating y = refl
nx_there time v x w time y = nx_at x y v w.1

without :
    (x y : String) (l : List (String × ℕ)) → lookup x l ≡ none → lookup y (forget x l) ≡ lookup y l
without x y l e = elim (Bool-cases (str_eq x y)) [
  | inl hit ↦ lookup-forget y x l ∙ rw hit (sym e ∙ ap (λ z. lookup z l) ((eq_iff x y).0 hit))
  | inr miss ↦ lookup-forget y x l ∙ rw miss refl
]

forget_absent :
    (k : Key) (x : String) (w : Sets)
    → lookup x (set_of k w) ≡ none
    → (j : Key) (y : String)
    → lookup y (set_of j (write k (forget x (set_of k w)) w)) ≡ lookup y (set_of j w)
unfolding same_key
forget_absent rating x w e rating y = without x y w.0 e
forget_absent rating x w e time y = refl
forget_absent time x w e rating y = refl
forget_absent time x w e time y = without x y w.1 e

scores-found :
    (l xs : List (String × ℕ)) → All (λ (z : String × ℕ). lookup z.0 l ≡ some z.1) (scores l xs)
scores-found l [] = tt
scores-found l (x ∷ xs) = elim (Option-cases (lookup x.0 l)) [
  | inl e ↦ rw (e, All) (scores-found l xs)
  | inr (v, e) ↦ rw (e, All) (e, scores-found l xs)
]

between-found :
    (low high : ℕ) (l xs : List (String × ℕ))
    → All (λ (z : String × ℕ). lookup z.0 l ≡ some z.1) xs
    → All (λ x. (v : ℕ) × (lookup x l ≡ some v) × ((low ≤ v) × (v ≤ high))) (between low high xs)
between-found low high l [] h = tt
between-found low high l (x ∷ xs) h = elim (Bool-cases (leb low x.1 && leb x.1 high)) [
  | inr out ↦ rw (out, All) (between-found low high l xs h.1)
  | inl in_range ↦
      rw (in_range, All) ((x.1, h.0, (ground arith, ground arith)), between-found low high l xs h.1)
]

both_gone :
    (x : String) (w : Sets) (j : Key) (y : String)
    → lookup y (set_of j (forget x w.0, forget x w.1))
      ≡ (if str_eq x y then none else lookup y (set_of j w))
both_gone x w rating y = lookup-forget y x w.0
both_gone x w time y = lookup-forget y x w.1

abbrev redis-IsQuiet : IsQuiet redis
redis-IsQuiet = record {
  score = λ w k x. lookup x (set_of k w);
  Between = λ low high v. (low ≤ v) × (v ≤ high);
  clock_reads = λ w k x. refl;
  naming_reads = λ a b w k x. refl;
  zadd_writes = λ k v x w. (write k (insert x v (set_of k w)) w, refl, insert_there k v x w);
  zadd_nx_writes = λ k v x w. (
    write k (insert x (or_else v (lookup x (set_of k w))) (set_of k w)) w,
    refl,
    nx_there k v x w,
  );
  zrem_both_writes = λ x w. ((forget x w.0, forget x w.1), refl, both_gone x w);
  zrem_present = λ k x w v e. (
    write k (forget x (set_of k w)) w,
    ap (λ o. (some (present_count o), write k (forget x (set_of k w)) w)) e,
    forget_there k x w,
  );
  zrem_absent = λ k x w e. (
    write k (forget x (set_of k w)) w,
    ap (λ o. (some (present_count o), write k (forget x (set_of k w)) w)) e,
    forget_absent k x w e,
  );
  zscore_present = λ k x w v e. (w, ap (λ o. (scored_by o, w)) e, λ j y. refl);
  zscore_absent = λ k x w e. (w, ap (λ o. (scored_by o, w)) e, λ j y. refl);
  zrange_lists = λ k from to w. (
    scores (set_of k w) (set_of k w),
    w,
    refl,
    scores-found (set_of k w) (set_of k w),
    λ j y. refl,
  );
  zrange_by_score_lists = λ k low high n w. (
    between low high (scores (set_of k w) (set_of k w)),
    w,
    refl,
    between-found low high (set_of k w) (scores (set_of k w) (set_of k w))
        (scores-found (set_of k w) (set_of k w)),
    λ j y. refl,
  );
}

abbrev manager : Manager redis
manager = record {
  base_window = 50;
  widen_per_sec = 20;
  max_window = 500;
  batch = pos 0;
  listens = true;
}

-- "alice", "bob" and "carol" wait; "carol" is out of the others' windows.
abbrev waiting : Sets
waiting = (
  ("alice", 100) ∷ ("carol", 900) ∷ ("bob", 120) ∷ [],
  ("alice", 1000) ∷ ("bob", 3000) ∷ ("carol", 4000) ∷ [],
)

paired_names :
    players_of (round_of redis (match_once redis manager waiting)).calls ≡ "alice" ∷ "bob" ∷ []
unfolding match_once lookup visit is_member partner window take forget
paired_names = refl

match_once-Apart_example :
    Apart (players_of (round_of redis (match_once redis manager waiting)).calls)
match_once-Apart_example = match_once-Apart redis manager waiting

match_once-IsClose_example :
    (r : Round redis) × (match_once redis manager waiting ≡ going r)
    × ((k : Key) (x : String)
        → lookup x (set_of k r.world)
          ≡ (if is_member (players_of r.calls) x then none else lookup x (set_of k waiting)))
    × All (IsClose redis redis-IsQuiet manager 5000 waiting) r.calls
match_once-IsClose_example = match_once-IsClose redis redis-IsQuiet manager waiting refl

restore-take_example :
    (w1 : Sets) × (w2 : Sets) × (take redis "bob" waiting ≡ (some true, w1))
    × (restore redis "bob" 120 3000 w1 ≡ (true, w2))
    × ((k : Key) (y : String)
        → lookup y (set_of k w1) ≡ (if str_eq "bob" y then none else lookup y (set_of k waiting)))
    × ((k : Key) (y : String) → lookup y (set_of k w2) ≡ lookup y (set_of k waiting))
restore-take_example =
    restore-take redis redis-IsQuiet "bob" waiting 120 3000 (unfold lookup in refl)
      (unfold lookup in refl)
