-- ===== src/Tests/Inbox.antt =====
-- A witness for the inbox of a room of internal/room.
use pet.Base.{refl, false, [], ◌∷◌, none, arith}
use pet.Room.Model.{Cmd}
use pet.Room.Run.{command, step, entered}
use pet.Room.Inbox.{Shared, start_room, Serves, Lives, IsServed, Lives-IsServed}
use pet.Tests.Rooms.{host, room}

abbrev joins : Cmd host
joins = record { player_id = "alice"; kind = "join"; raw = none }

abbrev first_joined : Shared host
first_joined = record {
  inbox = [];
  done = false;
  inbox_dropped = 0;
  status = step host (entered host room) (command joins 1);
}

joining : Lives host (start_room host room) (joins ∷ []) (command joins 1 ∷ []) first_joined
joining =
    Lives.then_step _ _ _ (joins ∷ []) [] [] (command joins 1 ∷ [])
      (Lives.then_step _ _ _ [] (joins ∷ []) [] [] (Lives.begin (start_room host room))
        (Serves.accept joins (start_room host room) (omega arith)))
      (Serves.take_command joins [] 1 (entered host room) _ refl refl)

Lives-IsServed_example : IsServed host room (joins ∷ []) (command joins 1 ∷ []) first_joined
Lives-IsServed_example =
    Lives-IsServed host room first_joined (joins ∷ []) (command joins 1 ∷ []) joining
