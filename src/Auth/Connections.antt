-- ===== src/Auth/Connections.antt =====
-- internal/auth/ws.go and `checkOrigin` of origin.go: who may connect, which connection a player
-- has, and what a connection does with the messages that it reads. A `*WsClient` is a number;
-- deadlines, pings and the loops that move bytes are not modelled.
use pet.Base.{
  ℕ, ◌==◌, String, Bool, true, false, not, ◌||◌, List, [], ◌∷◌, ◌++◌, Option, none, some,
  if◌then◌else◌, str_eq,
}
use pet.Deck.{lookup, insert}
use pet.Room.Manager.{forget}
use pet.Auth.Limit.{Units, Limiter, allow}
pub mod Sessions
pub mod Outgoing
pub mod Opening

-- `host_of` is what `url.Parse` finds in the header; `trim_right` and `equal_fold` are of `strings`.
pub record Urls : Type 0 where
  pub host_of : String → Option String
  pub trim_right : String → String
  pub equal_fold : String → String → Bool

unfoldable pub is_allowed : Urls → List String → String → Bool
is_allowed u [] origin = false
is_allowed u (o ∷ os) origin = u.equal_fold (u.trim_right o) origin || is_allowed u os origin

-- `allowed_origins`, the header `Origin` and the host of the request.
unfoldable pub check_origin : Urls → List String → String → String → Bool
unfolding is_allowed
check_origin u [] origin host =
    if str_eq origin ""
    then true
    else elim (u.host_of origin) [ none ↦ false | some h ↦ u.equal_fold h host ]
check_origin u (o ∷ os) origin host =
    if str_eq origin "" then true else is_allowed u (o ∷ os) origin

-- `Conns`, and the connections that were told to close.
pub record Conns : Type 0 where
  pub conns : List (String × ℕ)
  pub quit : List ℕ

-- `old.close()` for the connection that there was.
unfoldable pub close_old : Option ℕ → List ℕ → List ℕ
close_old none quit = quit
close_old (some old) quit = old ∷ quit

unfoldable pub add_conn : String → ℕ → Conns → Conns
unfolding close_old
add_conn user c s = record {
  conns = insert user c s.conns;
  quit = close_old (lookup user s.conns) s.quit;
}

-- Whether the connection of a player is `c`.
unfoldable pub is_current : Option ℕ → ℕ → Bool
is_current none c = false
is_current (some cur) c = cur == c

unfoldable pub remove_conn : String → ℕ → Conns → Bool × Conns
unfolding is_current
remove_conn user c s =
    if is_current (lookup user s.conns) c
    then (true, record s { conns = forget user s.conns })
    else (false, s)

-- What a connection asks of the rest of the server.
pub data Effect : Type 0 where
  reply : String → String → Effect  -- the type and the payload
  unknown_type : String → Effect  -- the error that names the type
  enqueue : String → Effect  -- `Join`, with the payload that may hold a score
  dequeue : Effect  -- `Leave`
  command : String → String → Effect  -- the room and the type
  leave_room : String → Effect

-- A message that was read: `none` is bad JSON, and `room_id` the one in its data.
pub record Message : Type 0 where
  pub kind : String
  pub payload : String
  pub room_id : String

-- What a connection finds of the room that a message names: none, another's, or its own, which
-- takes the command or does not.
pub data RoomAnswer : Type 0 where
  no_room not_a_player : RoomAnswer
  taken : Bool → RoomAnswer

pub record Session : Type 0 where
  pub limiter : Limiter
  pub room_id : String

unfoldable pub is_command : String → Bool
is_command kind =
    str_eq kind "join" || str_eq kind "play_card" || str_eq kind "end_turn" || str_eq kind "attack"

unfoldable pub to_room : Message → Session → RoomAnswer → List Effect × Session
to_room m s no_room = (reply "error" "room_not_found" ∷ [], s)
to_room m s not_a_player = (reply "error" "not_in_room" ∷ [], s)
to_room m s (taken true) = (command m.room_id m.kind ∷ [], record s { room_id = m.room_id })
to_room m s (taken false) =
    (reply "error" "room_busy_or_closed" ∷ [], record s { room_id = m.room_id })

-- One round of the loop: `joins` is whether `Join` succeeds, `rooms` what a room answers.
unfoldable pub receive :
    Units
    → ℕ
    → String
    → (String → RoomAnswer)
    → Bool
    → Option Message
    → Session
    → List Effect × Session
unfolding is_command to_room
receive u now user rooms joins none s = (reply "error" "bad json" ∷ [], s)
receive u now user rooms joins (some m) s =
    if str_eq m.kind "enqueue"
    then (
      enqueue m.payload
          ∷ (if joins then reply "queued" user else reply "error" "enqueue failed")
          ∷ [],
      s,
    )
    else if is_command m.kind
    then (let (ok, l) = allow u now s.limiter in
        if not ok
        then (reply "error" "rate_limited" ∷ [], record s { limiter = l })
        else to_room m (record s { limiter = l }) (rooms m.room_id))
    else if str_eq m.kind "dequeue"
    then (dequeue ∷ reply "dequeued" "" ∷ [], s)
    else (unknown_type m.kind ∷ [], s)

-- A message that comes at a time, with what the queue and the rooms answer then.
pub record Arrival : Type 0 where
  pub now : ℕ
  pub message : Option Message
  pub joins : Bool
  pub rooms : String → RoomAnswer

-- The loop, until the connection breaks.
unfoldable pub listen : Units → String → List Arrival → Session → List Effect × Session
listen u user [] s = ([], s)
listen u user (a ∷ arrivals) s =
    let (out, s') = receive u a.now user a.rooms a.joins a.message s in
    let (rest, s'') = listen u user arrivals s' in (out ++ rest, s'')

-- The end of `ServerWs`, after the loop. Closing a connection again does nothing.
unfoldable pub ended : ℕ → Session → Bool × Conns → List Effect × Conns
ended c s (false, conns) = ([], record conns { quit = c ∷ conns.quit })
ended c s (true, conns) = (
  dequeue ∷ (if str_eq s.room_id "" then [] else leave_room s.room_id ∷ []),
  record conns { quit = c ∷ conns.quit },
)

unfoldable pub disconnect : String → ℕ → Session → Conns → List Effect × Conns
unfolding ended
disconnect user c s conns = ended c s (remove_conn user c conns)
