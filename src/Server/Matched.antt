-- ===== src/Server/Matched.antt =====
-- `OnMatch` of server/main.go: a pair of internal/match gets a game and a room. What the database
-- stores for a player, the seed and the zero time are arguments.
use pet.Base.{
  ◌≤◌, ◌<◌, ◌≡◌, ◌≢◌, refl, ap, ◌∙◌, inl, inr, String, ℤ, List, [], ◌∷◌, some, length,
  if◌then◌else◌, str_eq, arith, Option-cases,
}
use pet.Deck.{Catalog, len, Deck, validate_deck, IsValidCatalog}
use pet.Deck.Maps.{lookup-insert}
use pet.Deck.Validate.{validate_deck-IsLegalDeck}
use pet.Battle.Model.{State, hand_start}
use pet.Battle.Setup.{PlayerInit, Rand, Setup, ready, failed, new_state}
use pet.Battle.Invariant.{IsSound}
use pet.Battle.Opening.{CanOpen, new_state-IsSound}
use pet.Battle.Settings.{settings, settings-new_state}
use pet.Match.{Pair}
use pet.Room.Model.{Host, new_room}
use pet.Room.Manager.{Manager, create, find_room}
use pet.Server.{
  Stored, stored, no_deck, broken, default_deck, load_deck_or_default, length-default_deck,
}

-- The messages to the players: "start_failed", or "match_found" with the room.
pub data Notice : Type 0 where
  start_failed : Notice
  match_found : String → Notice

unfoldable pub notify : String → String → Notice → List (String × Notice)
notify a b n = (a, n) ∷ (b, n) ∷ []

module _ (H : Host) where
  -- What follows on `NewState`.
  unfoldable pub open_room : Manager H → Pair → Setup → H.Time → Manager H × List (String × Notice)
  unfolding notify
  open_room m p (failed e) zero_time = (m, notify p.a p.b start_failed)
  open_room m p (ready s) zero_time =
      (create H m (some s) p.room_id p.a p.b zero_time, notify p.a p.b (match_found p.room_id))

  -- `loads` is what `store.LoadDeck` answers.
  unfoldable pub on_match :
      Rand
      → Catalog
      → (String → Stored)
      → ℤ
      → H.Time
      → Manager H
      → Pair
      → Manager H × List (String × Notice)
  unfolding open_room
  on_match R cat loads seed zero_time m p =
      let first_deck = load_deck_or_default (loads p.a) cat p.a in
      let second_deck = load_deck_or_default (loads p.b) cat p.b in
      open_room m p
        (new_state R p.room_id (some cat) (record { id = p.a; cards = first_deck })
          (record { id = p.b; cards = second_deck }) seed)
        zero_time

long_enough :
    (s : Stored) (cat : Catalog) (name : String)
    → 2 ≤ len cat
    → hand_start < length (load_deck_or_default s cat name)
unfolding load_deck_or_default
long_enough no_deck cat name h = omega (arith, h, length-default_deck cat)
long_enough broken cat name h = omega (arith, h, length-default_deck cat)
long_enough (stored cards) cat name h =
    let d : Deck = record { owner = name; cards = cards } in
    elim (Option-cases (validate_deck (some cat) d)) [
      | inl valid ↦
          let same : load_deck_or_default (stored cards) cat name ≡ cards =
            rw (valid, load_deck_or_default) refl in
          omega (arith, ap length same, ((validate_deck-IsLegalDeck cat d).0 valid).size_min)
      | inr (e, stale) ↦
          let same : load_deck_or_default (stored cards) cat name ≡ default_deck cat =
            rw (stale, load_deck_or_default) refl in
          omega (arith, ap length same, h, length-default_deck cat)
    ]

-- For a valid table of at least two cards and a pair with two different names, both given,
-- `OnMatch` opens a game that satisfies the invariant, with the seed and with the decks that
-- `loadDeckOrDefault` finds for the first and the second player in this order; the room's id then
-- finds a new room of these two players with this game, every other id finds what it found, and
-- both players are told that the match is found.
pub on_match-IsSound :
    (H : Host) (R : Rand) (cat : Catalog) (loads : String → Stored) (seed : ℤ) (zero_time : H.Time)
    (m : Manager H) (p : Pair)
    → IsValidCatalog cat
    → 2 ≤ len cat
    → p.a ≢ ""
    → p.b ≢ ""
    → p.a ≢ p.b
    → let after = on_match H R cat loads seed zero_time m p in
      (s : State) × IsSound s
      × (settings s ≡ record {
        room_id = p.room_id;
        seed = seed;
        first_init_deck = load_deck_or_default (loads p.a) cat p.a;
        second_init_deck = load_deck_or_default (loads p.b) cat p.b;
        cat = cat;
      })
      × ((id : String)
          → find_room H after.0 id ≡ (
              if str_eq p.room_id id
              then some (new_room H p.room_id p.a p.b (some s) zero_time)
              else find_room H m id))
      × (after.1 ≡ (p.a, match_found p.room_id) ∷ (p.b, match_found p.room_id) ∷ [])
unfolding on_match open_room create find_room notify
on_match-IsSound H R cat loads seed zero_time m p valid two first_named second_named differ =
    let a : PlayerInit = record { id = p.a; cards = load_deck_or_default (loads p.a) cat p.a } in
    let b : PlayerInit = record { id = p.b; cards = load_deck_or_default (loads p.b) cat p.b } in
    let can : CanOpen a b = record {
      first_named = first_named;
      second_named = second_named;
      ids_differ = differ;
      first_deck = long_enough (loads p.a) cat p.a two;
      second_deck = long_enough (loads p.b) cat p.b two;
    } in
    let (s, e, sound) = (new_state-IsSound R p.room_id cat a b seed valid).1 can in
    (
      s,
      sound,
      settings-new_state R p.room_id cat a b seed s e,
      (λ id.
          ap (λ o. find_room H (open_room H m p o zero_time).0 id) e
          ∙ lookup-insert id p.room_id (new_room H p.room_id p.a p.b (some s) zero_time) m.rooms),
      ap (λ o. (open_room H m p o zero_time).1) e,
    )
