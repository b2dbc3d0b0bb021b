-- ===== src/Auth/Connections/Outgoing.antt =====
-- internal/auth/ws.go: `Send`, `close` and `writeLoop`, the way of a message to the player. What
-- `select` chooses when several cases are ready is any of them; deadlines are left out.
use pet.Base.{
  ℕ, ◌+◌, ◌≤◌, ◌<◌, ◌≡◌, refl, sym, ap, ◌∙◌, String, Bool, true, false, List, [], ◌∷◌, ◌++◌, inl,
  inr, Bool-cases, append_assoc, append-nil, if◌then◌else◌, length, length-append, arith,
}

-- The capacity of the channel `send`.
abbrev pub send_cap : ℕ
send_cap = 256

-- A connection: the messages in `send`, whether `quit` is closed, whether the client was kicked, and
-- whether `writeLoop` still runs; what was given to the socket, the counters of this client's
-- `sendDropped` and `slowKicked`, and how many calls of `Send` are in the default case of its
-- `select` before each of its four steps.
pub record Outgoing : Type 0 where
  pub send : List String
  pub quit : Bool
  pub kicked : Bool
  pub writing : Bool
  pub written : List String
  pub send_dropped : ℕ
  pub slow_kicked : ℕ
  pub dropping : ℕ
  pub swapping : ℕ
  pub counting : ℕ
  pub closing : ℕ

abbrev pub fresh : Outgoing
fresh = record {
  send = [];
  quit = false;
  kicked = false;
  writing = true;
  written = [];
  send_dropped = 0;
  slow_kicked = 0;
  dropping = 0;
  swapping = 0;
  counting = 0;
  closing = 0;
}

-- `c.kicked.CompareAndSwap(false, true)` in `Send`, and the branch that follows on it.
unfoldable pub try_kick : Outgoing → Outgoing
try_kick o = if o.kicked then o else record o { kicked = true; counting = o.counting + 1 }

-- A step, with the messages for which `Send` returns true in it.
pub data Moves : Outgoing → List String → Outgoing → Type 0 where
  accept :
      (m : String) (o : Outgoing)
      → length o.send < send_cap
      → Moves o (m ∷ []) (record o { send = o.send ++ m ∷ [] })
  refuse : (m : String) (o : Outgoing) → o.quit ≡ true → Moves o [] o
  discard :
      (m : String) (o : Outgoing)
      → send_cap ≤ length o.send
      → o.quit ≡ false
      → Moves o [] (record o { dropping = o.dropping + 1 })
  count_drop :
      (n : ℕ) (o : Outgoing)
      → o.dropping ≡ n + 1
      → Moves o []
          (record o { dropping = n; send_dropped = o.send_dropped + 1; swapping = o.swapping + 1 })
  try_swap :
      (n : ℕ) (o : Outgoing)
      → o.swapping ≡ n + 1
      → Moves o [] (try_kick (record o { swapping = n }))
  count_kick :
      (n : ℕ) (o : Outgoing)
      → o.counting ≡ n + 1
      → Moves o []
          (record o { counting = n; slow_kicked = o.slow_kicked + 1; closing = o.closing + 1 })
  close_kicked :
      (n : ℕ) (o : Outgoing)
      → o.closing ≡ n + 1
      → Moves o [] (record o { closing = n; quit = true })
  close : (o : Outgoing) → Moves o [] (record o { quit = true })
  write :
      (m : String) (rest : List String) (o : Outgoing)
      → o.writing ≡ true
      → o.send ≡ m ∷ rest
      → Moves o [] (record o { send = rest; written = o.written ++ m ∷ [] })
  write_error :
      (m : String) (rest : List String) (o : Outgoing)
      → o.writing ≡ true
      → o.send ≡ m ∷ rest
      → Moves o [] (record o { send = rest; writing = false })
  ping_error : (o : Outgoing) → o.writing ≡ true → Moves o [] (record o { writing = false })
  leave_loop :
      (o : Outgoing) → o.writing ≡ true → o.quit ≡ true → Moves o [] (record o { writing = false })

-- Steps one after another, with all messages that were accepted, in order.
pub data Travels : Outgoing → List String → Outgoing → Type 0 where
  stay : (o : Outgoing) → Travels o [] o
  one_more :
      (o p q : Outgoing) (sent more : List String)
      → Travels o sent p
      → Moves p more q
      → Travels o (sent ++ more) q

-- What was accepted is what was written, then one message at most whose writing failed, then what
-- waits in the channel.
abbrev pub IsInOrder : List String → Outgoing → Type 0
IsInOrder sent o =
    (lost : List String) × (sent ≡ o.written ++ (lost ++ o.send))
    × (length lost ≤ (if o.writing then 0 else 1))
    × (length o.send ≤ send_cap)

-- A client that is kicked is counted once, at once or when its kicker comes to it; once the kicker
-- is through, the connection is told to close. Each kick is preceded by a message that was dropped.
abbrev pub IsKickedOnce : Outgoing → Type 0
IsKickedOnce o =
    (o.slow_kicked + o.counting ≡ (if o.kicked then 1 else 0))
    × (o.kicked ≡ true → o.counting + o.closing ≡ 0 → o.quit ≡ true)
    × (o.slow_kicked + o.counting + o.swapping ≤ o.send_dropped)

pub record IsOrderly (sent : List String) (o : Outgoing) : Type 0 where
  pub in_order : IsInOrder sent o
  pub kicked_once : IsKickedOnce o

nil_of_length : {A : Type 0} (l : List A) → length l ≤ 0 → l ≡ []
nil_of_length [] h = refl
nil_of_length (x ∷ l) h = absurd (omega (arith, h))

-- While `writeLoop` runs no message has been lost.
none_lost :
    (sent : List String) (o : Outgoing)
    → IsInOrder sent o
    → o.writing ≡ true
    → sent ++ [] ≡ o.written ++ o.send
none_lost sent o (lost, e, l, b) w =
    let few : length lost ≤ 0 = ground (arith, l, w) in
    append-nil sent ∙ e ∙ ap (λ l. o.written ++ (l ++ o.send)) (nil_of_length lost few)

-- A step that accepts nothing and leaves the messages alone.
still : (sent : List String) (o : Outgoing) → IsInOrder sent o → IsInOrder (sent ++ []) o
still sent o (lost, e, l, b) = (lost, append-nil sent ∙ e, l, b)

try_kick-IsInOrder :
    (sent : List String) (o : Outgoing)
    → IsInOrder (sent ++ []) o
    → IsInOrder (sent ++ []) (try_kick o)
unfolding try_kick
try_kick-IsInOrder sent o h = elim (Bool-cases o.kicked) [
  | inl k ↦ rw (k, try_kick) h
  | inr k ↦ rw (k, try_kick) h
]

try_kick-IsKickedOnce :
    (n : ℕ) (o : Outgoing)
    → o.swapping ≡ n + 1
    → IsKickedOnce o
    → IsKickedOnce (try_kick (record o { swapping = n }))
unfolding try_kick
try_kick-IsKickedOnce n o e (once, closed, dropped) = elim (Bool-cases o.kicked) [
  | inl k ↦ rw (k, try_kick) (once ∙ rw k refl, (λ _. closed k), omega (arith, dropped, e))
  | inr k ↦
      let none_yet : o.slow_kicked + o.counting ≡ 0 = once ∙ rw k refl in
      rw (k, try_kick)
        (omega (arith, none_yet), (λ _ z. absurd (omega (arith, z))), omega (arith, dropped, e))
]

Moves-IsOrderly :
    (sent more : List String) (o p : Outgoing)
    → IsOrderly sent o
    → Moves o more p
    → IsOrderly (sent ++ more) p
Moves-IsOrderly sent _ o _ h (Moves.accept m _ room) =
    let (lost, e, l, b) = h.in_order in
    record {
      in_order = (
        lost,
        ap (λ l. l ++ m ∷ []) e
            ∙ append_assoc o.written (lost ++ o.send) (m ∷ [])
            ∙ ap (λ l. o.written ++ l) (append_assoc lost o.send (m ∷ [])),
        l,
        omega (arith, length-append o.send (m ∷ []), room),
      );
      kicked_once = h.kicked_once;
    }
Moves-IsOrderly sent _ o _ h (Moves.refuse m _ q) = record {
  in_order = still sent o h.in_order;
  kicked_once = h.kicked_once;
}
Moves-IsOrderly sent _ o _ h (Moves.discard m _ full unasked) = record {
  in_order = still sent o h.in_order;
  kicked_once = h.kicked_once;
}
Moves-IsOrderly sent _ o _ h (Moves.count_drop n _ e) =
    let (once, closed, dropped) = h.kicked_once in
    record {
      in_order = still sent o h.in_order;
      kicked_once = (once, closed, omega (arith, dropped));
    }
Moves-IsOrderly sent _ o _ h (Moves.try_swap n _ e) = record {
  in_order = try_kick-IsInOrder sent (record o { swapping = n }) (still sent o h.in_order);
  kicked_once = try_kick-IsKickedOnce n o e h.kicked_once;
}
Moves-IsOrderly sent _ o _ h (Moves.count_kick n _ e) =
    let (once, closed, dropped) = h.kicked_once in
    let moved : o.slow_kicked + 1 + n ≡ o.slow_kicked + o.counting = omega (arith, e) in
    record {
      in_order = still sent o h.in_order;
      kicked_once = (moved ∙ once, (λ _ z. absurd (omega (arith, z))), omega (arith, dropped, e));
    }
Moves-IsOrderly sent _ o _ h (Moves.close_kicked n _ e) =
    let (once, closed, dropped) = h.kicked_once in
    record { in_order = still sent o h.in_order; kicked_once = (once, (λ _ _. refl), dropped) }
Moves-IsOrderly sent _ o _ h (Moves.close _) =
    let (once, closed, dropped) = h.kicked_once in
    record { in_order = still sent o h.in_order; kicked_once = (once, (λ _ _. refl), dropped) }
Moves-IsOrderly sent _ o _ h (Moves.write m rest _ w e) = record {
  in_order = (
    [],
    none_lost sent o h.in_order w
        ∙ ap (λ l. o.written ++ l) e
        ∙ sym (append_assoc o.written (m ∷ []) rest),
    omega arith,
    omega (arith, h.in_order.3, ap length e),
  );
  kicked_once = h.kicked_once;
}
Moves-IsOrderly sent _ o _ h (Moves.write_error m rest _ w e) = record {
  in_order = (
    m ∷ [],
    none_lost sent o h.in_order w ∙ ap (λ l. o.written ++ l) e,
    omega arith,
    omega (arith, h.in_order.3, ap length e),
  );
  kicked_once = h.kicked_once;
}
Moves-IsOrderly sent _ o _ h (Moves.ping_error _ w) = record {
  in_order = ([], none_lost sent o h.in_order w, omega arith, h.in_order.3);
  kicked_once = h.kicked_once;
}
Moves-IsOrderly sent _ o _ h (Moves.leave_loop _ w q) = record {
  in_order = ([], none_lost sent o h.in_order w, omega arith, h.in_order.3);
  kicked_once = h.kicked_once;
}

fresh-IsOrderly : IsOrderly [] fresh
fresh-IsOrderly = record {
  in_order = ([], refl, omega arith, omega arith);
  kicked_once = (refl, (λ k _. k), omega arith);
}

keeps_order :
    (o q : Outgoing) (sent : List String) → IsOrderly [] o → Travels o sent q → IsOrderly sent q
keeps_order o _ _ h (Travels.stay _) = h
keeps_order o _ _ h (Travels.one_more _ p q sent more t step) =
    Moves-IsOrderly sent more p q (keeps_order o p sent h t) step

-- However calls of `Send`, `close` and the loop of `writeLoop` take turns on a new connection,
-- where a call of `Send` that drops its message counts it, tries to swap `kicked`, counts the kick
-- and closes in separate steps, the messages for which `Send` has returned true are, in order,
-- those written, at most one whose writing failed, and those that wait, of which there are at most
-- 256; kicks counted and kicks still to be counted are together one if the client is kicked and
-- none otherwise, and together no more than the messages counted as dropped; and when all that
-- kicked are through, a kicked client's connection is told to close.
pub Travels-IsOrderly :
    (sent : List String) (o : Outgoing) → Travels fresh sent o → IsOrderly sent o
Travels-IsOrderly sent o t = keeps_order fresh o sent fresh-IsOrderly t
