-- ===== src/Scripts/Verify/Whole.antt =====
-- scripts/replay/main.go: the summary of `verifyAll`, whatever order the outcomes arrive in.
use pet.Base.{
  ℕ, ◌+◌, ◌≡◌, refl, sym, ap, ◌∙◌, subst, String, Bool, true, false, List, [], ◌∷◌, ◌++◌, map,
  append_assoc, append-nil, Option, none, some, if◌then◌else◌, length, arith, sum, sum-Perm,
  sorted_unique, IsSorting, Bool-cases, inl, inr,
}
use mathlib.Core.Path.{ap₂, fun_ext}
use mathlib.Core.Logic.{∥∥₁_elim}
use mathlib.Core.Option.{Option-elim}
use mathlib.Core.List.{Mem, Perm, filter_map, mem-filter_map, mem-map}
use mathlib.Core.List.Perm
use pet.Deck.{Catalog}
use pet.Battle.Setup.{Rand}
use pet.Room.Model.{Host}
use pet.Replay.{
  Codec, Built, cards_changed, bad_decks, bad_actions, bad_step, mismatch_setup, mismatch_step,
  mismatch_state, mismatch_end, built, build,
}
use pet.Reports.{Found, no_rows, db_error, found}
use pet.Scripts.Verify.{
  Failure, build_outcome, check_found, check, Kind, Outcome, Tally, same_kind, passes, no_tally,
  tally, tally_one, summary_of, verify_all,
}
use text.Mathlib.TextEquality.{IsScalar-prop}
use pet.Scripts.Verify.Workers.{Pool, Runs, start, Finished, Runs-Perm}

Outcome-set : IsSet Outcome
Outcome-set = hlevel IsScalar-prop

abbrev bad_one : Outcome → Option Outcome
bad_one o = if passes o.kind then none else some o

abbrev pub hit : Kind → Outcome → ℕ
hit k o = if same_kind k o.kind then 1 else 0

tally-count :
    (k : Kind) (out : List Outcome) (t : Tally)
    → (tally out t).count k ≡ t.count k + sum (hit k) out
unfolding tally tally_one
tally-count k [] t = omega arith
tally-count k (o ∷ out) t = ground (arith, tally-count k out (tally_one t o))

pub count-tally : (k : Kind) (out : List Outcome) → (tally out no_tally).count k ≡ sum (hit k) out
count-tally k out = tally-count k out no_tally ∙ omega arith

tally-bad : (out : List Outcome) (t : Tally) → (tally out t).bad ≡ t.bad ++ filter_map bad_one out
unfolding tally tally_one filter_map Option-elim
tally-bad [] t = sym (append-nil t.bad)
tally-bad (o ∷ out) t = elim (Bool-cases (passes o.kind)) [
  | inl p ↦ tally-bad out (tally_one t o) ∙ rw p refl
  | inr p ↦
      tally-bad out (tally_one t o) ∙ rw p (append_assoc t.bad (o ∷ []) (filter_map bad_one out))
]

-- The outcomes of the reports are told apart by their rooms.
module _ (check : String → Outcome) (names : (id : String) → (check id).room ≡ id) where
  mem-check : (ids : List String) (o : Outcome) → Mem o (map check ids) → check o.room ≡ o
  mem-check ids o m =
      ∥∥₁_elim (mem-map.0 m) (Outcome-set _ _)
        (λ (id, _, e). ap check (sym (ap (λ (x : Outcome). x.room) e) ∙ names id) ∙ e)

  mem-bad :
      (ids : List String) (out : List Outcome) (o : Outcome)
      → Perm out (map check ids)
      → Mem o (filter_map bad_one out)
      → check o.room ≡ o
  mem-bad ids out o p m =
      ∥∥₁_elim ((mem-filter_map bad_one out).0 m) (Outcome-set _ _)
        (λ (x, mx, e). mem-check ids o ((Perm.mem_iff p).0 (subst (λ y. Mem y out) (same x e) mx)))
    where
      same : (x : Outcome) → bad_one x ≡ some o → x ≡ o
      same x e = ground arith

  module _ (less : String → String → Bool) (irreflexive : (x : String) → less x x ≡ false)
      (total : (x y : String) → less y x ≡ false → less x y ≡ false → x ≡ y)
      (sort : List Outcome → List Outcome)
      (sorts : IsSorting (λ (a b : Outcome). less a.room b.room) sort) where
    same_sorted :
        (ids : List String) (out : List Outcome)
        → Perm out (map check ids)
        → sort (filter_map bad_one out) ≡ sort (filter_map bad_one (map check ids))
    same_sorted ids out p =
        sorted_unique (λ (a b : Outcome). less a.room b.room) (λ x. irreflexive x.room)
          (λ x y mx my h g.
            sym (mem-bad ids out x p ((Perm.mem_iff (sorts.same _)).0 mx))
            ∙ ap check (total x.room y.room h g)
            ∙ mem-bad ids out y p ((Perm.mem_iff (sorts.same _)).0 my))
          (sorts.ascending _) (sorts.ascending _)
          (Perm.trans (sorts.same _)
            (Perm.trans (Perm.filter_map bad_one p) (Perm.symm (sorts.same _))))

    same_count :
        (ids : List String) (out : List Outcome) (k : Kind)
        → Perm out (map check ids)
        → (tally out no_tally).count k ≡ (tally (map check ids) no_tally).count k
    same_count ids out k p =
        count-tally k out ∙ sum-Perm (hit k) p ∙ sym (count-tally k (map check ids))

    unordered :
        (workers n : ℕ) (ids : List String) (p : Pool check)
        → Runs check workers n (start check ids) p
        → Finished check p
        → verify_all sort (some ids) p.received ≡ verify_all sort (some ids) (map check ids)
    unfolding verify_all
    unordered workers n ids p run done =
        let perm = Runs-Perm check workers n ids p run done in
        let counts : (tally p.received no_tally).count ≡ (tally (map check ids) no_tally).count =
          fun_ext (λ k. same_count ids p.received k perm) in
        let bads : sort (tally p.received no_tally).bad
            ≡ sort (tally (map check ids) no_tally).bad =
          ap sort (tally-bad p.received no_tally)
          ∙ same_sorted ids p.received perm
          ∙ ap sort (sym (tally-bad (map check ids) no_tally)) in
        ap₂
          (λ (c : Kind → ℕ) (bad : List Outcome).
            some (summary_of (λ _. bad) (length ids) (record { count = c; bad = bad })))
          counts bads

module _ (H : Host) (C : Codec H) where
  room-build_outcome :
      (said : Failure H C → String) (id : String) (h : Bool) (b : Built H C)
      → (build_outcome H C said id h b).room ≡ id
  unfolding build_outcome
  room-build_outcome said id true (built r) = refl
  room-build_outcome said id false (built r) = refl
  room-build_outcome said id h cards_changed = refl
  room-build_outcome said id h bad_decks = refl
  room-build_outcome said id h bad_actions = refl
  room-build_outcome said id h bad_step = refl
  room-build_outcome said id h (mismatch_setup x) = refl
  room-build_outcome said id h (mismatch_step i c) = refl
  room-build_outcome said id h (mismatch_state i) = refl
  room-build_outcome said id h (mismatch_end s) = refl

  module _ (has_hash : Codec.Json C → Bool) (R : Rand) (cat : Option Catalog) (cards_hash : String)
      (said : Failure H C → String) (db : String → Found H C) where
    room-check_found :
        (id : String) (f : Found H C)
        → (check_found H C has_hash R cat cards_hash said id f).room ≡ id
    unfolding check_found
    room-check_found id no_rows = refl
    room-check_found id db_error = refl
    room-check_found id (found row) =
        room-build_outcome said id (has_hash row.actions_json) (build H C R cat cards_hash row)

    room-check : (id : String) → (check H C has_hash R cat cards_hash said db id).room ≡ id
    unfolding check
    room-check id = room-check_found id (db id)

    -- If `sort.Slice` sorts by the room and the comparison of names is a strict total order, then
    -- after every complete run of the workers `verifyAll` prints the same and ends with the same
    -- status as if the reports had been checked one after another in the order of the list.
    pub verify_all-unordered :
        (less : String → String → Bool) (irreflexive : (x : String) → less x x ≡ false)
        (total : (x y : String) → less y x ≡ false → less x y ≡ false → x ≡ y)
        (sort : List Outcome → List Outcome)
        (sorts : IsSorting (λ (a b : Outcome). less a.room b.room) sort) (workers n : ℕ)
        (ids : List String) (p : Pool (check H C has_hash R cat cards_hash said db))
        → Runs
            (check H C has_hash R cat cards_hash said db)
            workers
            n
            (start (check H C has_hash R cat cards_hash said db) ids)
            p
        → Finished (check H C has_hash R cat cards_hash said db) p
        → verify_all sort (some ids) p.received
          ≡ verify_all sort (some ids) (map (check H C has_hash R cat cards_hash said db) ids)
    verify_all-unordered less irreflexive total sort sorts workers n ids p complete done =
        unordered (check H C has_hash R cat cards_hash said db) room-check less irreflexive total
          sort sorts workers n ids p complete done
