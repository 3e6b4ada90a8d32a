-- ===== src/Lib.antt =====
-- The IICPC benchmarking platform: contestants submit trading engines, which the platform runs in
-- containers, loads with orders from a fleet of bots, and scores. This library models the Go code
-- of the platform.
--
-- A submission enters by the judge API (cmd/judge_api/main.go, JudgeApi.antt): its identifiers
-- (JudgeApi/Ids.antt, `isValidID`), the handler `createSubmission` (JudgeApi/Submissions.antt), the
-- channel and the counters between the handlers and `judgeWorker` (JudgeApi/Queue.antt, a step
-- relation with one atomic operation a step; JudgeApi/Queue/Settled.antt when nothing enters any
-- more), the cross-origin headers (JudgeApi/Cors.antt) and the other handlers
-- (JudgeApi/Handlers.antt). Handlers and engine keep contestants, submissions and results in the
-- registry (internal/registry/registry.go, Registry.antt), which is written over an interface of
-- the Redis commands with their laws (Redis.antt); Registry/Runs.antt composes it with the engine's
-- writes. The judge engine (internal/judge/judge.go) runs it: Judge/Engine.antt is `Run`, `fail`
-- and `saveResult`, as a function from what the outside answers to the result, the error and the
-- list of what the run did; Judge/Ready.antt is `waitForGRPC` and `validateEngine`;
-- Judge/Metrics.antt is `drainRingBuffer` and `percentiles`. The container
-- (internal/sandbox/docker.go) is in Sandbox: Sandbox/Size.antt is `ParseBytes`,
-- Sandbox/Container.antt is `RunSandbox`, `EnsureInternalNetwork` and `StopAndRemove`, as requests
-- to the Docker daemon, and Sandbox/Archive.antt is `tarDir`. SandboxManager.antt is the commands
-- of cmd/sandbox_manager/main.go over it, with `BuildImage`.
--
-- The bots (internal/botfleet/botfleet.go, BotFleet.antt) build orders, send them and turn
-- responses into metrics; a run of a bot is a sequence of events, in the order in which its two
-- goroutines take the mutex. BotFleet/Unary.antt is `runBotUnary` and `runBot` where `StreamOrders`
-- fails, BotFleet/Fleet.antt the defaults and the loop of `Run`, BotFleet/Consumer.antt
-- `consumeMetrics` of cmd/bot_fleet/main.go, over the loop of Telemetry/Fed.antt, which empties the
-- ring buffer while the bots push to it. BotFleet/Shared.antt has the bots of a fleet at once,
-- their events interleaved, with the ring buffer that they share, and the messages that they
-- publish (`publishMetric`), in no given order; Judge/Engine/Played.antt is the run of the judge
-- with such a fleet, and Judge/Engine/Setup.antt `DefaultConfig` and `New`. Kafka.antt is
-- `NewProducer` and the message of `Publish` of internal/kafka/producer.go. Matcher.antt is the
-- reference engine (cmd/mock_matcher_go/main.go), Trading.antt has the messages
-- (proto/iicpc/trading/trading.proto). Metrics pass through the ring buffer
-- (internal/telemetry/ringbuffer.go, Telemetry/RingBuffer.antt, run by one goroutine at a time;
-- Telemetry/RingBuffer/Race.antt, with every interleaving of many producers and one consumer, one
-- atomic access a step) to the statistics (internal/telemetry/stats.go, Telemetry/Stats.antt), to
-- the judge, and to the ingester's aggregator (internal/ingest/aggregator.go, Ingest.antt).
-- Ingest/Cell.antt is the aggregator as one contestant sees it. The ingester
-- (cmd/telemetry_ingester/main.go, Ingester.antt: the collector loop and `flush`, a run of it a
-- list of what its `select` chooses, each with whether the context is done by then, which
-- Ingester/Ends.antt is about; Ingester/Worker.antt: the workers that fetch, a run of one a list of
-- what `FetchMessage` returns) passes the aggregator's windows to Redis and the records to the time
-- series store (internal/store/timescale.go, Store.antt: `InsertBatch` and `QueryHistory`;
-- Store/RunStats.antt: `QueryRunStats`), from which the leaderboard API
-- (cmd/leaderboard_api/main.go, LeaderboardApi: Handlers.antt and Parameters.antt; Stream.antt is
-- `/stream`, with a reader of such streams in EventReader.antt, and Proxy.antt `/proxy/judge/`)
-- answers. Some files compose these parts: Ingester/Delivered.antt goes from the bots by Kafka and
-- the workers to the records of the store, and LeaderboardApi/Applied.antt and Shown.antt from the
-- effects of `flush`, by the sorted sets of Redis (Redis/Ranks.antt), to what a client of the
-- leaderboard reads; LeaderboardApi/RunShown.antt goes from the bots by the rows of the store to
-- the statistics of their run. Config.antt has the parsers of lists and defaults (`BrokersFromCSV`
-- of internal/kafka/producer.go, `splitCSV` and `envOr` of cmd/telemetry_ingester/main.go,
-- `buildOriginSet` of cmd/judge_api/main.go and cmd/leaderboard_api/main.go).
--
-- Base.antt has what the modules share: lists, Go maps as association lists, strings as byte lists,
-- sorting, decimal numerals and `strconv`. Tests.antt has the theorems at concrete inputs.
--
-- `strings.TrimSpace` and `strings.ToLower` are those of ASCII texts.
--
-- A uint64 is a natural number, its sums and differences taken modulo 2^64; an int64 is the word of
-- its two's complement. Floating point is an interface (Float.antt), and so is the histogram of the
-- package hdrhistogram-go (`Histogram` in Ingest.antt): the definitions take them as parameters.
-- Clocks, random numbers, contexts and the answers of Docker, gRPC, TimescaleDB and Kafka are
-- arguments, and the aggregate functions of PostgreSQL an interface; so is what fails of a round
-- trip to Redis. The encoding of JSON is an interface, and a theorem that needs it to read back
-- what it wrote says so.
--
-- Two loops run on a bound. `drain_loop` takes one round more than the buffer has elements, since
-- each round but the last takes an element; it is proved that this is enough. `fed_loop` runs
-- through the list of what comes between its rounds, and then on that bound. `wait_loop` goes over
-- a list of attempts, and the deadline ends it after a number of attempts that is proved.
--
-- Not modelled: the routing of net/http with its recovery from panics, the texts of JSON, the SQL
-- of `QueryHistory`, the parsing of flags and logging, which are calls of services and packages
-- with no state of their own; and the Python engine and the frontend, which are not part of the Go
-- code.
pub mod Base
pub mod Float
pub mod Telemetry
pub mod Judge
pub mod Config
pub mod Trading
pub mod Matcher
pub mod BotFleet
pub mod Ingest
pub mod Store
pub mod Ingester
pub mod Sandbox
pub mod JudgeApi
pub mod LeaderboardApi
pub mod Redis
pub mod Kafka
pub mod SandboxManager
pub mod Registry
pub mod Tests
