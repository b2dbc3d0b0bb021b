-- ===== src/Auth/Connections/Sessions.antt =====
-- What the connections of internal/auth/ws.go may do to the queue and the rooms.
use pet.Base.{
  ℕ, ◌+◌, ◌*◌, ◌-◌, ◌≤◌, ◌≡◌, ◌≢◌, refl, sym, ap, subst, ◌∙◌, inl, inr, String, Bool, true, false,
  List, [], ◌∷◌, ◌++◌, Option, none, some, if◌then◌else◌, str_eq, arith, Bool-cases,
}
use native.Mathlib.Nat.{mul-le-mul_right}
use text.Mathlib.TextEquality.{eq_iff}
use pet.Deck.{lookup}
use pet.Deck.Maps.{lookup-insert}
use pet.Room.Manager.{forget}
use pet.Auth.Limit.{Units, Limiter, new_limiter, allow}
use pet.Auth.Limit.Bucket.{flow_split, cost, allow_pays, allow_keeps, refilled_le}
use pet.Auth.Connections.{
  Conns, add_conn, is_current, ended, remove_conn, Effect, unknown_type, reply, enqueue, dequeue,
  command, leave_room, Message, RoomAnswer, no_room, not_a_player, taken, Session, is_command,
  to_room, receive, disconnect, Arrival, listen,
}

lookup-add_conn :
    (user j : String) (c : ℕ) (s : Conns)
    → lookup j (add_conn user c s).conns ≡ (if str_eq user j then some c else lookup j s.conns)
unfolding add_conn
lookup-add_conn user j c s = lookup-insert j user c s.conns

-- When a player's connection has been replaced by another one, the end of the old one neither
-- takes the player out of the queue nor sends a leave to a room, and the new one stays the
-- player's connection.
pub disconnect-add_conn :
    (user : String) (old new : ℕ) (session : Session) (s : Conns)
    → old ≢ new
    → ((disconnect user old session (add_conn user new s)).0 ≡ [])
      × (lookup user (disconnect user old session (add_conn user new s)).1.conns ≡ some new)
unfolding disconnect
disconnect-add_conn user old new session s differ =
    let t = add_conn user new s in
    let found : lookup user t.conns ≡ some new =
      lookup-add_conn user user new s ∙ ground (arith, eq_iff user user) in
    let other : is_current (some new) old ≡ false = unfold is_current in ground arith in
    let stays : remove_conn user old t ≡ (false, t) =
      unfold remove_conn in
      ap (λ b. if b then (true, record t { conns = forget user t.conns }) else (false, t))
        (ap (λ o. is_current o old) found ∙ other) in
    (
      ap (λ r. (ended old session r).0) stays,
      ap (λ r. lookup user (ended old session r).1.conns) stays ∙ found,
    )

-- How many commands reach a room.
unfoldable pub count_commands : List Effect → ℕ
count_commands [] = 0
count_commands (command r k ∷ es) = 1 + count_commands es
count_commands (_ ∷ es) = count_commands es

-- The commands that a round or more sends to rooms are paid for by the limiter, until `now`.
record IsPaid (u : Units) (now : ℕ) (before : Limiter) (commands : ℕ) (after : Limiter)
    : Type 0 where
  same_rate : after.rate ≡ before.rate
  later : before.last ≤ after.last
  until : after.last ≤ now
  pays :
      after.tokens + commands * u.token ≤ before.tokens + (after.last - before.last) * before.rate

idle-IsPaid : (u : Units) (now : ℕ) (l : Limiter) → l.last ≤ now → IsPaid u now l 0 l
idle-IsPaid u now l h = record {
  same_rate = refl;
  later = omega arith;
  until = h;
  pays = omega arith;
}

allow-IsPaid :
    (u : Units) (now n : ℕ) (l : Limiter)
    → l.last ≤ now
    → n * u.token ≤ cost u (allow u now l).0
    → IsPaid u now l n (allow u now l).1
allow-IsPaid u now n l h le =
    let (at, rate, burst) = allow_keeps u now l in
    record {
      same_rate = rate;
      later = omega (arith, at, h);
      until = omega (arith, at);
      pays =
          subst (λ t. (allow u now l).1.tokens + n * u.token ≤ l.tokens + (t - l.last) * l.rate)
            (sym at) (omega (arith, le, allow_pays u now l, refilled_le now l));
    }

to_room-IsPaid :
    (u : Units) (now : ℕ) (m : Message) (s : Session) (a : RoomAnswer)
    → s.limiter.last ≤ now
    → (allow u now s.limiter).0 ≡ true
    → let r = to_room m (record s { limiter = (allow u now s.limiter).1 }) a in
      IsPaid u now s.limiter (count_commands r.0) r.1.limiter
unfolding to_room count_commands
to_room-IsPaid u now m s no_room h ok = allow-IsPaid u now 0 s.limiter h (omega arith)
to_room-IsPaid u now m s not_a_player h ok = allow-IsPaid u now 0 s.limiter h (omega arith)
to_room-IsPaid u now m s (taken true) h ok = allow-IsPaid u now 1 s.limiter h (rw ok (omega arith))
to_room-IsPaid u now m s (taken false) h ok = allow-IsPaid u now 0 s.limiter h (omega arith)

receive-IsPaid :
    (u : Units) (now : ℕ) (user : String) (rooms : String → RoomAnswer) (joins : Bool)
    (m : Option Message) (s : Session)
    → s.limiter.last ≤ now
    → let r = receive u now user rooms joins m s in
      IsPaid u now s.limiter (count_commands r.0) r.1.limiter
unfolding receive count_commands
receive-IsPaid u now user rooms joins none s h = idle-IsPaid u now s.limiter h
receive-IsPaid u now user rooms joins (some m) s h = elim (Bool-cases (str_eq m.kind "enqueue")) [
  | inl e ↦ rw e (joined joins)
  | inr e ↦ elim (Bool-cases (is_command m.kind)) [
    | inl c ↦ elim (Bool-cases (allow u now s.limiter).0) [
      | inl ok ↦ rw (e, c, ok) (to_room-IsPaid u now m s (rooms m.room_id) h ok)
      | inr limited ↦ rw (e, c, limited) (allow-IsPaid u now 0 s.limiter h (omega arith))
    ]
    | inr c ↦ elim (Bool-cases (str_eq m.kind "dequeue")) [
      | inl d ↦ rw (e, c, d) (idle-IsPaid u now s.limiter h)
      | inr d ↦ rw (e, c, d) (idle-IsPaid u now s.limiter h)
    ]
  ]
]
  where
    joined :
        (b : Bool)
        → IsPaid u now s.limiter
            (count_commands (
              enqueue m.payload
              ∷ (if b then reply "queued" user else reply "error" "enqueue failed")
              ∷ []))
            s.limiter
    joined true = idle-IsPaid u now s.limiter h
    joined false = idle-IsPaid u now s.limiter h

trans-IsPaid :
    (u : Units) (now later c d : ℕ) (before mid after : Limiter)
    → now ≤ later
    → IsPaid u now before c mid
    → IsPaid u later mid d after
    → IsPaid u later before (c + d) after
trans-IsPaid u now later c d before mid after h p q =
    let pays' : after.tokens + d * u.token ≤ mid.tokens + (after.last - mid.last) * before.rate =
      subst (λ r. after.tokens + d * u.token ≤ mid.tokens + (after.last - mid.last) * r) p.same_rate
        q.pays in
    record {
      same_rate = q.same_rate ∙ p.same_rate;
      later = omega (arith, p.later, q.later);
      until = q.until;
      pays = omega (
        arith,
        p.pays,
        pays',
        flow_split before.last mid.last after.last before.rate p.later q.later,
      );
    }

count_commands-append :
    (es ds : List Effect) → count_commands (es ++ ds) ≡ count_commands es + count_commands ds
unfolding count_commands
count_commands-append [] ds = omega arith
count_commands-append (command r k ∷ es) ds = omega (arith, count_commands-append es ds)
count_commands-append (reply k p ∷ es) ds = count_commands-append es ds
count_commands-append (unknown_type k ∷ es) ds = count_commands-append es ds
count_commands-append (enqueue p ∷ es) ds = count_commands-append es ds
count_commands-append (dequeue ∷ es) ds = count_commands-append es ds
count_commands-append (leave_room r ∷ es) ds = count_commands-append es ds

-- The times of the messages do not decrease, from `t` to `last`.
abbrev pub ArriveBy : ℕ → List Arrival → ℕ → Type 0
ArriveBy t [] last = t ≤ last
ArriveBy t (a ∷ arrivals) last = (t ≤ a.now) × ArriveBy a.now arrivals last

arrive_le : (t : ℕ) (arrivals : List Arrival) (last : ℕ) → ArriveBy t arrivals last → t ≤ last
arrive_le t [] last o = o
arrive_le t (a ∷ arrivals) last o = omega (arith, o.0, arrive_le a.now arrivals last o.1)

listen-IsPaid :
    (u : Units) (user : String) (arrivals : List Arrival) (t last : ℕ) (s : Session)
    → s.limiter.last ≤ t
    → ArriveBy t arrivals last
    → IsPaid u last s.limiter
        (count_commands (listen u user arrivals s).0)
        (listen u user arrivals s).1.limiter
unfolding listen
listen-IsPaid u user [] t last s h o =
    unfold count_commands in idle-IsPaid u last s.limiter (omega (arith, h, o))
listen-IsPaid u user (a ∷ arrivals) t last s h o =
    let r = receive u a.now user a.rooms a.joins a.message s in
    let paid = receive-IsPaid u a.now user a.rooms a.joins a.message s (omega (arith, h, o.0)) in
    let rest = listen-IsPaid u user arrivals a.now last r.1 paid.until o.1 in
    subst (λ n. IsPaid u last s.limiter n (listen u user arrivals r.1).1.limiter)
      (sym (count_commands-append r.0 (listen u user arrivals r.1).0))
      (trans-IsPaid u a.now last (count_commands r.0)
        (count_commands (listen u user arrivals r.1).0) s.limiter r.1.limiter
        (listen u user arrivals r.1).1.limiter (arrive_le a.now arrivals last o.1) paid rest)

-- Whatever messages a connection reads, in the order of their times from a start to a last time,
-- and whatever the queue and the rooms answer, the commands that the loop of `readLoop` sends to
-- rooms cost together no more than the burst of the connection's limiter and what flows into it
-- between the two times.
pub count_commands-listen :
    (u : Units) (user : String) (rate burst start last : ℕ) (arrivals : List Arrival)
    → ArriveBy start arrivals last
    → count_commands
          (listen u user arrivals
            (record { limiter = new_limiter rate burst start; room_id = "" })).0
        * u.token
      ≤ burst + (last - start) * rate
unfolding new_limiter
count_commands-listen u user rate burst start last arrivals o =
    let p =
      listen-IsPaid u user arrivals start last
        (record { limiter = new_limiter rate burst start; room_id = "" }) (omega arith) o in
    let l =
      (listen u user arrivals
        (record { limiter = new_limiter rate burst start; room_id = "" })).1.limiter in
    omega (
      arith,
      p.pays,
      mul-le-mul_right {m = l.last - start} {n = last - start} rate (omega (arith, p.until)),
    )
