-- ===== src/Lib.antt =====
-- A model of the card game server "pet", and proofs of what its core promises.
--
-- The program. Two players meet in a room (internal/room); the room owns a game (internal/battle)
-- that is played with the cards of a table (internal/deck). The room is one goroutine, which handles
-- the commands of the players and two timers one after the other, applies actions to the game, logs
-- what the game accepts and makes a report at the end. A report holds the opening data and the log,
-- from which the game can be replayed. Around this stand matching, authentication, storage, the
-- server's wiring, a bot and a tool for replays.
--
-- The files.
--   Base       numbers, lists, 64-bit ints with their wrap-around (`sub_int`), decimal text
--   Deck       internal/deck/deck.go: `validate_card`, `load`, `validate_deck` are `validateCard`,
--              `Load`, `ValidateDeck`. Its child modules hold proofs.
--   Battle     internal/battle. Battle/Model is model.go, action.go and error.go; Battle/Setup is
--              `NewState`; Battle/Turns is drawing, turns and the end of a game; Battle/Actions is
--              `Apply` with `playCard`, `attack`, `Summon`, `removeDead`; Battle/View is view.go;
--              Battle/Replay is replay.go. The other modules hold proofs: Invariant states the
--              invariant, Players, Steps, Board, Play and Combat keep it, Legal says what `Apply`
--              accepts and computes, Rules states the rules without the code, Finds, Results and
--              Agreement compare the two, Opening is about new games, Cards, Effects, Conservation and Dealing about
--              where cards go, Measure and Ending about the end of games, History about replays,
--              Settings about what a game never changes.
--   Room       internal/room. Room/Model is the room, its log and its report, and the checksum of
--              internal/battle/checksum.go; Room/Handle is `handle`; Room/Run is the loop of `Run`
--              and `finish`; Room/Steps is `Steps`. Trace, Logged and Reported hold proofs,
--              and so do Kept (what every event keeps) and Closing.
--              Room/Manager is manager.go, and Room/Inbox the inbox with `Send`, `Close` and the timers as
--              steps in any order.
--   Auth       internal/auth. Auth/Limit is ratelimit.go and loginlimit.go, Auth/Login is password.go and
--              the handlers `Login` and `Savedecks` of auth.go, Auth/Tokens is tokens.go,
--              Auth/Connections the connections of ws.go and `checkOrigin`, with
--              `Send` and `writeLoop` in Outgoing and the beginning of `ServerWs` in Opening. Their other
--              child modules hold proofs.
--   Replay     internal/replay/replay.go, with internal/store/report.go and `toBattleReport` of
--              server/main.go. Replay/Agreement, Framed, Played, Retold and Saved hold proofs.
--   Match      internal/match/match.go: `join`, `leave`, `take`, `restore`, and `match_once` for
--              `matchOnce`. Match/Quiet states what Redis documents; Pairs, Commands and Queue hold proofs.
--   Bot        scripts/bot/strategy.go; Bot/Client is `playOne` of client.go. Bot/Found, Legal and Eager hold proofs.
--   Reports    internal/auth/reports.go
--   Server     the decks that server/main.go gives to players; Server/Matched is its `OnMatch`;
--              Server/Saving is `saveReport` with what the replay tool then finds; Server/Decks holds proofs.
--   Scripts    the tools of scripts. Verify is replay/main.go: `check`, `one` and `verify_all` for
--              `verifyAll`; Verify/Workers is its goroutines and channels as steps; Whole, Status, Served
--              and Printed hold proofs. Samples is `percentile` and `dist` of bot/loadtest.go and Accounts
--              its `ensureUsers`; Players is `login` and `dial` of bot/main.go, with the counters of
--              `runLoad` in Players/Load and those of the bots in Players/Bots.
--   Tests      a table of four cards, decks, games and a room.
--
-- The state of a game is passed explicitly: a method that mutates `*State` and returns an error is a
-- function to a state and an optional code. The two players are two fields, and an index into
-- `Players` is a `Seat`. A pointer to a minion is the minion with its position on the board. The
-- `int` fields on which the code subtracts wrap around at 64 bits; counters that start at 0 or 1 and
-- grow by 1 are natural numbers. The float64 tokens of a limiter are exact numbers in units that make
-- every rational rate whole. What `select` receives in the loop of a room is an `Event`.
--
-- Bounds. Every loop of the code runs over a list or a fixed range and is structural recursion here,
-- so no fuel is used but in `compact`, whose fuel is the length of the board, as the code's range is,
-- and in `insert_from`, whose fuel is one more than the number of accounts and shown to be enough.
-- The printing of a decimal number recurses on accessibility.
--
-- Parameters. `Rand` is math/rand: which swaps `Shuffle` makes, all in range. `Host` is
-- encoding/json (an empty text does not parse), time and hash/fnv (the sum is not the empty text).
-- `Codec` is encoding/json for saved reports. `Redis` is go-redis, float64 and the clock for
-- matching, whose world may change between commands; `IsQuiet` is the documented behaviour of
-- sorted sets that nobody else uses. `Site` is the database, the token store, bcrypt and what reads
-- requests; `IsRegular` is what these document. `KeyValues` is go-redis for tokens and SHA-256,
-- `IsExpiring` what Redis documents of keys, `Urls` what checks an origin. `Rng` is math/rand's
-- `Intn`. The answers of the database and of the token check are arguments. `IsSorting` is what
-- sort.Slice documents, and `ReportTable` with `IsTable` what the table of reports does on inserts
-- and look-ups. The replay tool's database does not change during a run. The float of `percentile`
-- is computed exactly.
--
-- Not modelled: the text of errors, reading and parsing of YAML, the panics of callbacks; locks,
-- and the goroutine that removes a room; the deadlines of connections, the SQL of store, the wiring
-- of the server, the flags and the printing of the tools, and what the load test polls.
pub mod Base
pub mod Deck
pub mod Battle
pub mod Room
pub mod Match
pub mod Bot
pub mod Auth
pub mod Replay
pub mod Reports
pub mod Server
pub mod Scripts
mod Tests
