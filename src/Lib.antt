-- ===== src/Lib.antt =====
-- GamifyKit: a gamification service in Go. Users gain points in metrics and are awarded badges;
-- rules derive level-ups from the points; every change is published as an event.
--
-- The parts, and where they are modelled:
--
-- Core       core/: AddSafe (Core.Arith), NormalizeUserID (Core.UserName), ValidateBadgeID
--            (Core.BadgeName), DefaultLevel (Core.Level), UserState.Clone (Core.Clone), the events
--            and LevelUpRule with the rule engine of engine/service.go (Core.Rules).
-- Engine     engine/: EventBus (Engine.Bus), with its four workers (Engine.Bus.Workers); the
--            interface Storage and the contract it stands for (Engine.Storage), with histories of its
--            calls (Engine.Storage.History); GamifyService
--            (Engine.Service). A call of the service checks its input, calls the storage,
--            publishes on the bus, and runs the rules on the state that the storage shows.
-- Stores     The backends: adapters/memory/storage.go, the fallback of gamify/gamify.go, and
--            adapters/jsonfile/storage.go. The first two share the lemmas of Stores.Table. The
--            operations of adapters/sqlx/storage.go (Stores.Sql) run on any database
--            (Stores.Database), those of adapters/redis/storage.go on any server (Stores.Redis).
-- Builder    gamify/gamify.go: the options, and New, which puts a service together and hands its
--            events to the hub.
-- Realtime   realtime/hub.go: the channels of the websocket clients.
-- Analytics  analytics/: the trackers of hooks.go with their readings and the report of the top
--            metrics; the aggregates of days, weeks and months (Analytics.Aggregation); the
--            publisher with its subscribers, the dashboard among them (Analytics.Streaming); the
--            exporters (Analytics.Export); and the service that joins them (Analytics.Service).
-- Http       api/httpapi/httpapi.go: the users API and the health check on the service
--            (Http.Users; Http.Users.Asking says what a request asks for), and the layers for CORS,
--            API keys and the rate limit.
-- Leaderboard  leaderboard/: the entries and their order (Leaderboard.Entry), the skip list over a
--            heap of nodes (Leaderboard.SkipList), and sequences of calls on it (Leaderboard.Calls).
-- Config     config/: the configuration with its defaults, validation, profiles, secrets.
-- Prelude    What these share: lists, int64 over the integers, Go maps, strings.
-- Tests      Concrete parameters, and the theorems at concrete inputs.
--
-- How the model stands to the code: a Go struct is a record, a method is a function that takes and
-- returns the state behind its receiver, an error is a value of `Error` or `none` for nil. int64 is
-- an integer with the wrap-around written out (`add64`). A string is the list of its code points.
-- A map is an association list with one entry for each key; where Go leaves the order of a loop
-- over a map open, the bus has a choice of it (Engine.Bus.MapOrder), and elsewhere the model has
-- that of the list. A mutex makes the call that holds it one step.
-- Within one call every reading of the clock is the same `now`.
--
-- Parameters, with the laws that the code relies on: float64 (Core.Level.Floats, exact on squares
-- up to 94906265 ^ 2, which is below 2 ^ 53; Http.RateLimit.Rates, exact on the integers up to
-- 2 ^ 53), the Unicode case table (Core.UserName.CaseTable), JSON and the file system
-- (Stores.JsonFile.Json, with a list that says which writes fail), the database (Stores.Database,
-- with Stores.Sql.Answers.Answers), the Redis server (Stores.Redis.Server, Stores.Redis.Cache.Caches),
-- the calendar of package time (Analytics.Metrics.Calendar, Analytics.Aggregation.Dates), HTTP for
-- the exporters (Analytics.Export.Network, Analytics.Export.Retention.Delivers), the order of a
-- range over the handlers (Engine.Bus.MapOrder), the draws of crypto/rand
-- (Leaderboard.SkipList.Draws), and the websocket handler and net.SplitHostPort (Http.Mux).
--
-- Fuel: Config.Checks.decimal_on prints n in n rounds, and each round takes a digit off;
-- Analytics.Ranking.sort_rounds has a round for each entry, and each round places one.
-- Leaderboard.SkipList.walk has a round for each node that was ever allocated, the head included,
-- which is more than a level has.
--
-- Not modelled: the opening of the SQL and Redis backends, with the migrations and the text of the
-- Lua script, the environment loader of config/env.go, which is reflection, the tickers of
-- analytics/, the Go client, the webhook, the websocket adapter, and the programs under cmd/.
pub mod Prelude
pub mod Core
pub mod Engine
pub mod Stores
pub mod Realtime
pub mod Config
pub mod Analytics
pub mod Http
pub mod Builder
pub mod Leaderboard
mod Tests
