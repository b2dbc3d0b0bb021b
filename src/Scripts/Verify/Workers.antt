-- ===== src/Scripts/Verify/Workers.antt =====
-- scripts/replay/main.go: the goroutines of `verifyAll` and their channels.
use pet.Base.{
  ℕ, zero, suc, ◌+◌, ◌*◌, ◌≤◌, ◌<◌, ◌≡◌, refl, ap, subst, ◌⊎◌, inl, inr, String, ℤ, List, [], ◌∷◌,
  ◌++◌, map, append_assoc, append-nil, length, length-append, arith, pos, negsuc,
}
use mathlib.Core.Path.{ap₂}
use mathlib.Core.List.{Perm, perm_middle}
use mathlib.Core.List.Perm
use pet.Scripts.Verify.{worker_count}

module _ {ℓ} {A : Type ℓ} (check : String → A) where
  -- The ids that are not yet sent to `jobs`, those that a worker has, and what has come out.
  pub record Pool : Type ℓ where
    pub todo : List String
    pub busy : List String
    pub received : List A

  abbrev pub start : List String → Pool
  start ids = record { todo = ids; busy = []; received = [] }

  -- A free worker takes the next job; a worker hands over the outcome of its own. A worker that has
  -- computed its outcome waits until the collector receives it, so the two are one step.
  pub data Works (workers : ℕ) : Pool → Pool → Type ℓ where
    take_job :
        (id : String) (todo busy : List String) (received : List A)
        → length busy < workers
        → Works workers
            (record { todo = id ∷ todo; busy = busy; received = received })
            (record { todo = todo; busy = id ∷ busy; received = received })
    hand_over :
        (id : String) (todo before after : List String) (received : List A)
        → Works workers
            (record { todo = todo; busy = before ++ id ∷ after; received = received })
            (record { todo = todo; busy = before ++ after; received = received ++ check id ∷ [] })

  -- `n` steps one after another.
  pub data Runs (workers : ℕ) : ℕ → Pool → Pool → Type ℓ where
    still : (p : Pool) → Runs workers 0 p p
    further :
        (n : ℕ) (p q r : Pool) → Works workers p q → Runs workers n q r → Runs workers (suc n) p r

  -- Both channels are closed: no job is left and no worker has one.
  abbrev pub Finished : Pool → Type 0
  Finished p = (p.todo ≡ []) × (p.busy ≡ [])

  -- All outcomes, those to come in the order of the lists.
  abbrev outcomes : Pool → List A
  outcomes p = map check p.todo ++ (map check p.busy ++ p.received)

  map-append : (xs ys : List String) → map check (xs ++ ys) ≡ map check xs ++ map check ys
  map-append [] ys = refl
  map-append (x ∷ xs) ys = ap (λ l. check x ∷ l) (map-append xs ys)

  Works-outcomes : (workers : ℕ) (p q : Pool) → Works workers p q → Perm (outcomes q) (outcomes p)
  Works-outcomes workers _ _ (Works.take_job id todo busy received h) =
      perm_middle {a = check id} (map check todo) (map check busy ++ received)
  Works-outcomes workers _ _ (Works.hand_over id todo before after received) =
      let mb = map check before in
      let ma = map check after in
      let there : Perm ((mb ++ ma) ++ (received ++ check id ∷ []))
          (check id ∷ ((mb ++ ma) ++ received)) =
        subst (λ l. Perm l (check id ∷ ((mb ++ ma) ++ received)))
          (append_assoc (mb ++ ma) received (check id ∷ []))
          (subst (λ l. Perm (((mb ++ ma) ++ received) ++ check id ∷ []) (check id ∷ l))
            (append-nil ((mb ++ ma) ++ received)) (perm_middle ((mb ++ ma) ++ received) [])) in
      let back : Perm ((mb ++ check id ∷ ma) ++ received) (check id ∷ ((mb ++ ma) ++ received)) =
        Perm.append_right received (perm_middle mb ma) in
      rw (map-append before after, map-append before (id ∷ after))
        (Perm.append_left (map check todo) (Perm.trans there (Perm.symm back)))

  Runs-outcomes : (workers n : ℕ) (p q : Pool) → Runs workers n p q → Perm (outcomes q) (outcomes p)
  Runs-outcomes workers _ p _ (Runs.still _) = Perm.rfl
  Runs-outcomes workers _ _ _ (Runs.further n p q r w rest) =
      Perm.trans (Runs-outcomes workers n q r rest) (Works-outcomes workers p q w)

  -- When the workers have finished, each report has been checked once, in some order.
  pub Runs-Perm :
      (workers n : ℕ) (ids : List String) (p : Pool)
      → Runs workers n (start ids) p
      → Finished p
      → Perm p.received (map check ids)
  Runs-Perm workers n ids p run (no_todo, no_busy) =
      let h = Runs-outcomes workers n (start ids) p run in
      let ends : outcomes p ≡ p.received =
        ap₂ (λ t b. map check t ++ (map check b ++ p.received)) no_todo no_busy in
      subst (λ l. Perm l (map check ids)) ends
        (subst (λ l. Perm (outcomes p) l) (append-nil (map check ids)) h)

  -- How many steps are left.
  unfoldable pub left : Pool → ℕ
  left p = 2 * length p.todo + length p.busy

  Works-left : (workers : ℕ) (p q : Pool) → Works workers p q → left p ≡ suc (left q)
  unfolding left
  Works-left workers _ _ (Works.take_job id todo busy received h) = omega arith
  Works-left workers _ _ (Works.hand_over id todo before after received) =
      omega (arith, length-append before (id ∷ after), length-append before after)

  Runs-left : (workers n : ℕ) (p q : Pool) → Runs workers n p q → left p ≡ n + left q
  Runs-left workers _ p _ (Runs.still _) = omega arith
  Runs-left workers _ _ _ (Runs.further n p q r w rest) =
      omega (arith, Works-left workers p q w, Runs-left workers n q r rest)

  -- While there are jobs, some worker can take one or hand one over.
  next :
      (workers : ℕ) (todo busy : List String) (received : List A)
      → 0 < workers
      → let p : Pool = record { todo = todo; busy = busy; received = received } in
        Finished p ⊎ ((q : Pool) × Works workers p q)
  next workers [] [] out h = inl (refl, refl)
  next workers (id ∷ todo) [] out h = inr (_, Works.take_job id todo [] out h)
  next workers todo (id ∷ busy) out h = inr (_, Works.hand_over id todo [] busy out)

  finishes :
      (workers fuel : ℕ) (p : Pool)
      → 0 < workers
      → left p ≤ fuel
      → (n : ℕ) × (q : Pool) × Runs workers n p q × Finished q
  unfolding left
  finishes workers zero p h e = elim (next workers p.todo p.busy p.received h) [
    | inl done ↦ (0, p, Runs.still p, done)
    | inr (q, w) ↦ absurd (omega (arith, e, Works-left workers p q w))
  ]
  finishes workers (suc fuel) p h e = elim (next workers p.todo p.busy p.received h) [
    | inl done ↦ (0, p, Runs.still p, done)
    | inr (q, w) ↦
        let (n, r, rest, done) =
          finishes workers fuel q h (omega (arith, e, Works-left workers p q w)) in
        (suc n, r, Runs.further n p q r w rest, done)
  ]

  -- `verifyAll` starts at least one worker.
  worker_count-pos : (z : ℤ) → 0 < worker_count z
  unfolding worker_count
  worker_count-pos (pos n) = ground arith
  worker_count-pos (negsuc n) = omega arith

  -- Whatever number of workers is asked for and whatever they have done, the steps so far and
  -- those that are left are two for each report, and either the run is complete or a step is
  -- possible; and there is a complete run.
  pub workers_finish :
      (z : ℤ) (ids : List String)
      → ((n : ℕ) (p : Pool)
          → Runs (worker_count z) n (start ids) p
          → (n + left p ≡ 2 * length ids)
            × (Finished p ⊎ ((q : Pool) × Works (worker_count z) p q)))
        × ((p : Pool) × Runs (worker_count z) (2 * length ids) (start ids) p × Finished p)
  unfolding left
  workers_finish z ids = (
    λ n p run. (
      omega (arith, Runs-left (worker_count z) n (start ids) p run),
      next (worker_count z) p.todo p.busy p.received (worker_count-pos z),
    ),
    let (n, p, run, done) =
          finishes (worker_count z) (left (start ids)) (start ids) (worker_count-pos z)
            (omega arith) in
        let e : n ≡ 2 * length ids = omega (
          arith,
          Runs-left (worker_count z) n (start ids) p run,
          ap length done.0,
          ap length done.1,
        ) in
        (p, subst (λ k. Runs (worker_count z) k (start ids) p) e run, done),
  )
