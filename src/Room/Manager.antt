-- ===== src/Room/Manager.antt =====
-- internal/room/manager.go: the rooms by their ids. The lock, the goroutine of a room and the wait
-- group are not modelled; `remove` says which room it closes.
use pet.Base.{ℕ, ◌≡◌, String, List, [], ◌∷◌, Option, none, if◌then◌else◌, str_eq, length, arith}
use text.Mathlib.TextEquality.{eq_iff}
use pet.Deck.{lookup, insert}
use pet.Deck.Maps.{lookup-insert}
use pet.Battle.Model.{State}
use pet.Room.Model.{Host, Room, new_room}

-- `delete`
unfoldable pub forget {ℓ} : {V : Type ℓ} → String → List (String × V) → List (String × V)
forget k [] = []
forget k ((j, v) ∷ m) = if str_eq j k then forget k m else (j, v) ∷ forget k m

module _ (H : Host) where
  pub record Manager : Type 0 where
    pub rooms : List (String × Room H)

  unfoldable pub create : Manager → Option State → String → String → String → H.Time → Manager
  create m st id a b zero_time = record {
    rooms = insert id (new_room H id a b st zero_time) m.rooms;
  }

  unfoldable pub find_room : Manager → String → Option (Room H)
  find_room m id = lookup id m.rooms

  unfoldable pub remove : Manager → String → Manager × Option (Room H)
  remove m id = (record { rooms = forget id m.rooms }, lookup id m.rooms)

  unfoldable pub room_count : Manager → ℕ
  room_count m = length m.rooms

pub lookup-forget {ℓ} :
    {V : Type ℓ} (j k : String) (m : List (String × V))
    → lookup j (forget k m) ≡ (if str_eq k j then none else lookup j m)
unfolding lookup forget
lookup-forget j k [] = ground arith
lookup-forget j k ((i, v) ∷ m) =
    ground (arith, eq_iff k j, eq_iff i k, eq_iff i j, lookup-forget j k m)

-- After a room is created and removed, every id finds what it finds after the removal alone.
pub remove-create :
    (H : Host) (m : Manager H) (st : Option State) (id a b j : String) (zero_time : H.Time)
    → find_room H (remove H (create H m st id a b zero_time) id).0 j
      ≡ find_room H (remove H m id).0 j
unfolding find_room remove create
remove-create H m st id a b j zero_time = ground (
  arith,
  lookup-forget j id m.rooms,
  lookup-forget j id (insert id (new_room H id a b st zero_time) m.rooms),
  lookup-insert j id (new_room H id a b st zero_time) m.rooms,
)
