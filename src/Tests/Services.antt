-- ===== src/Tests/Services.antt =====
-- Witnesses for the reports of internal/auth, the rooms of internal/room/manager.go and server/main.go.
use pet.Base.{
  pos, ◌∷◌, if◌then◌else◌, str_eq, ◌≡◌, ◌≢◌, ◌↔◌, ◌*◌, min, String, [], some, length, arith,
}
use text.Mathlib.TextEquality.{eq_iff}
use pet.Deck.{len}
use pet.Battle.Model.{State}
use pet.Battle.Invariant.{IsSound}
use pet.Battle.Settings.{settings}
use pet.Room.Model.{new_room}
use pet.Match.{Pair}
use pet.Server.{Stored, stored, no_deck, load_deck_or_default}
use pet.Deck.Validate.{IsLegalDeck}
use pet.Server.Decks.{load_deck_or_default-IsLegalDeck}
use pet.Server.Matched.{match_found, on_match, on_match-IsSound}
use pet.Server.{default_deck, length-default_deck}
use pet.Reports.{known, Found, found, played, replay_report, MayWatch, replay_report-MayWatch}
use pet.Room.Manager.{Manager, find_room}
use pet.Tests.Fixture.{four_cards, load_four, table, table-IsValidCatalog, fixed, eight, alice-bob}
use pet.Tests.Rooms.{host}
use pet.Tests.Replays.{codec, told_row, told}

abbrev name_a : String
name_a = "alice"

abbrev name_b : String
name_b = "bob"

a_named : name_a ≢ ""
a_named e = ground (arith, (eq_iff name_a "").1 e)

b_named : name_b ≢ ""
b_named e = ground (arith, (eq_iff name_b "").1 e)

names_differ : name_a ≢ name_b
names_differ e = ground (arith, (eq_iff name_a name_b).1 e)

abbrev db : String → Found host codec
db room_id = found told_row

replay_report-MayWatch_example :
    (replay_report host codec fixed (some table) "cards" db (known "alice") "room" ≡ played told)
    ↔ MayWatch host codec fixed (some table) "cards" "alice" told (found told_row)
replay_report-MayWatch_example =
    replay_report-MayWatch host codec fixed (some table) "cards" "alice" told db "room"

abbrev no_rooms : Manager host
no_rooms = record { rooms = [] }

length-default_deck_example : length (default_deck table) ≡ min 12 (2 * len table)
length-default_deck_example = length-default_deck table

abbrev pair : Pair
pair = record { a = "alice"; b = "bob"; room_id = "alice-bob-1" }

-- "alice" has stored a deck, the others have none.
abbrev loads : String → Stored
loads name = if str_eq name "alice" then stored eight else no_deck

on_match-IsSound_example :
    (s : State) × IsSound s
    × (settings s ≡ record {
      room_id = "alice-bob-1";
      seed = pos 7;
      first_init_deck = load_deck_or_default (stored eight) table "alice";
      second_init_deck = load_deck_or_default no_deck table "bob";
      cat = table;
    })
    × ((id : String)
        → find_room host (on_match host fixed table loads (pos 7) 0 no_rooms pair).0 id ≡ (
            if str_eq "alice-bob-1" id
            then some (new_room host "alice-bob-1" "alice" "bob" (some s) 0)
            else find_room host no_rooms id))
    × ((on_match host fixed table loads (pos 7) 0 no_rooms pair).1
        ≡ ("alice", match_found "alice-bob-1") ∷ ("bob", match_found "alice-bob-1") ∷ [])
on_match-IsSound_example =
    on_match-IsSound host fixed table loads (pos 7) 0 no_rooms pair table-IsValidCatalog
      (unfold len in omega arith) alice-bob.first_named alice-bob.second_named alice-bob.ids_differ

load_deck_or_default-IsLegalDeck_example :
    IsLegalDeck table (load_deck_or_default no_deck table "alice")
load_deck_or_default-IsLegalDeck_example =
    load_deck_or_default-IsLegalDeck four_cards table no_deck "alice" load_four (omega arith)
