-- ===== src/Scripts/Verify/Served.antt =====
-- From the rooms of the server to scripts/replay/main.go: the verification of reports that rooms
-- have made and server/main.go has saved.
use pet.Base.{◌≡◌, inl, String, ℤ, Bool, List, [], ◌∷◌, some, All, ℕ}
use pet.Deck.{Catalog}
use pet.Battle.Model.{State}
use pet.Battle.Setup.{PlayerInit, Rand, ready, new_state}
use pet.Room.Model.{Host, Room, Report, new_room}
use pet.Room.Run.{Event, run, closed, finish}
use pet.Replay.{Codec, BattleReport, to_battle_report}
use pet.Replay.Saved.{IsFaithful, build-saved}
use pet.Reports.{Found, found}
use pet.Scripts.Verify.{Outcome, Summary, verify_all, Failure, check}
use pet.Scripts.Verify.Workers.{Pool, Runs, start, Finished}
use pet.Scripts.Verify.Status.{HasNoFault, verify_all-status}

module _ (H : Host) (C : Codec H) (R : Rand) (cat : Catalog) (cards_hash : String) where
  -- The report comes from a game of this table of cards: a room that was made for it received some
  -- events, closed and reported.
  pub record IsPlayed (report : Report H) : Type 0 where
    pub room_id : String
    pub first : PlayerInit
    pub second : PlayerInit
    pub seed : ℤ
    pub opening : State
    pub opened : new_state R room_id (some cat) first second seed ≡ ready opening
    pub zero_time : H.Time
    pub events : List (Event H)
    pub last : Room H
    pub reason : String
    pub ran :
        run H (new_room H room_id first.id second.id (some opening) zero_time) events
        ≡ closed last reason
    pub now : H.Time
    pub reported : finish H last reason now ≡ some report

  -- The row is that of a report of a game.
  abbrev pub IsServed : BattleReport H C → Type 0
  IsServed row =
      (report : Report H) × IsPlayed report × (to_battle_report H C cards_hash report ≡ some row)

  -- The database has a served row for the id.
  abbrev pub Serves : (String → Found H C) → String → Type 0
  Serves db id = (row : BattleReport H C) × (db id ≡ found row) × IsServed row

  module _ (f : IsFaithful H C) (has_hash : Codec.Json C → Bool) (said : Failure H C → String) where
    served-HasNoFault :
        (db : String → Found H C) (id : String)
        → Serves db id
        → HasNoFault H C has_hash R (some cat) cards_hash said (db id)
    served-HasNoFault db id (row, e, (report, s, saved)) =
        let (res, b, _) =
          build-saved H C R s.room_id cat s.first s.second s.seed s.opening s.opened f s.events
            s.zero_time s.now s.last s.reason cards_hash report row s.ran s.reported saved in
        (row, e, inl (res, b))

    All-HasNoFault :
        (db : String → Found H C) (ids : List String)
        → All (Serves db) ids
        → All (λ id. HasNoFault H C has_hash R (some cat) cards_hash said (db id)) ids
    All-HasNoFault db [] h = tt
    All-HasNoFault db (id ∷ ids) h = (served-HasNoFault db id h.0, All-HasNoFault db ids h.1)

    -- If every report that `verifyAll` looks up is the row that the server saved for a room of the
    -- same table of cards, whatever events the room received before it closed, and JSON gives back
    -- what was written, then in every complete run of the workers, in whatever order their
    -- outcomes arrive, `verifyAll` ends with the status 0.
    pub verify_all-served :
        (db : String → Found H C) (sort : List Outcome → List Outcome) (workers n : ℕ)
        (ids : List String) (p : Pool (check H C has_hash R (some cat) cards_hash said db))
        → All (Serves db) ids
        → Runs
            (check H C has_hash R (some cat) cards_hash said db)
            workers
            n
            (start (check H C has_hash R (some cat) cards_hash said db) ids)
            p
        → Finished (check H C has_hash R (some cat) cards_hash said db) p
        → (s : Summary) × (verify_all sort (some ids) p.received ≡ some s) × (s.status ≡ 0)
    verify_all-served db sort workers n ids p h complete done =
        let (s, e, clean) =
          verify_all-status H C has_hash R (some cat) cards_hash said db sort workers n ids p
            complete done in
        (s, e, clean.1 (All-HasNoFault db ids h))
