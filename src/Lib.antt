-- ===== src/Lib.antt =====
-- Nimbus: a notification service. Clients post notifications over HTTP; each becomes a row of
-- PostgreSQL; a worker claims due rows, sends them over the row's channel through senders that circuit
-- breakers protect, and retries or moves what fails to a dead letter queue.
--
-- The program's parts, and where they are modelled:
--   internal/circuitbreaker/circuitbreaker.go     Breaker: the struct is the record CircuitBreaker, each
--     method a function on it with the time that it reads. Breaker/Phase is the machine that the comments
--     promise, written apart from the code; its wait counts from the opening, while the code's counts from
--     the last failure that was reported.
--   internal/circuitbreaker/protected_sender.go   Sender/Protected
--   internal/worker/senders.go, ses_sender.go,
--     sns_sender.go, webhook_sender.go            Sender, Sender/Channel, Sender/Webhook: Send takes and
--     returns the world, which holds the breakers (shared objects, by address) and what is outside.
--   internal/ai/enrichment.go                     Sender/Enrich
--   cmd/gateway/main.go                           Sender/Wiring for the senders, Gateway, Gateway/Connections
--     and Gateway/Endpoints for the rest of `run`: what it builds from the configuration and the services
--     that it finds, its routes and its endpoints
--   cmd/migrator/main.go                          Migrator
--   internal/config/config.go                     Settings, Settings/Texts
--   internal/db/models.go, migrations/            Db: the two tables are lists of rows in heap order
--   internal/db/repository.go                     Db/Repository, Db/Claim, Db/DeadLetter: a statement is a
--     function on the tables, and a query that sorts has a sorter of its own
--   internal/worker/worker.go                     Worker: the loop of Start is a fold over ticks
--   internal/redis/idempotency.go                 Redis/Idempotency, over the interface Redis.Server
--   internal/redis/ratelimit.go,
--     internal/api/middleware.go                  Redis/RateLimit, over the interface SortedSets, and
--     Api/Middleware
--   internal/api/handler.go, and Enqueue of
--     internal/sqs/producer.go                    Api, Api/Create, Api/Handlers
--   the rest of internal/sqs/producer.go          Queue
--   internal/sns/publisher.go                     Topic
--   internal/ai/client.go, compose.go, handler.go Ai, Ai/Compose, Ai/Compose/Rounds: a round is a call of
--     the model and the tools that it names, on what the request carries from call to call
--   internal/rag/                                 Rag, a module for each file; Rag/Indexing for what the
--     pipeline stores
--   internal/grpc/server.go, interceptor.go       Rpc, Rpc/Delivery
--
-- How they interact: Api/Create calls the key store, the repository and the queue in the code's order;
-- Rpc and the tools of Ai/Compose call the same repository; Rpc takes its tokens from Settings; Worker
-- calls the repository and a Sender; Sender/Protected reads and writes the breakers of the world;
-- Api/Middleware stands in front of a handler, on the store of Redis/RateLimit. A call that may fail
-- gets what it meets as an argument: `done`, `refused`, or `lost`, where the statement took effect and
-- its answer did not arrive; a transaction gets the fate of each step.
-- So a theorem for all of these arguments is one for all failures, and an interleaving of clients is a
-- list of their commands, each with its time.
--
-- Numbers: times and durations are nanoseconds; a UUID is the number that its bytes spell. The
-- breaker's counters are the bit patterns of their 64-bit words and wrap around; a configuration is
-- bounded by the range of its Go types (FitsInt64). The column `attempt` holds less than 2 ^ 31, and
-- nothing negative, since the program writes nothing negative there. The
-- loops run over lists; fuel is given only to the trimming of a token in Rpc and to `replace_in`, as
-- many steps as the text has bytes, of which each takes one away, to `decimal`, twenty digits, which
-- hold every number of 64 bits, and to `rounds`, which are the code's five.
--
-- What is not the program's is a parameter: Sender.Providers (SES, SNS, HTTP, the language model, the
-- decoders of payloads), Redis.Server (with the documented behaviour of its commands as laws, met by
-- Redis/Memory), Redis.RateLimit.SortedSets (the same for sorted sets and for doubles, met by
-- Redis/RateLimit/Memory), Ai.Model and Ai.Compose.Tooling (the network behind the model, and JSON),
-- Rag.Guard.Regex, Rag.Floats, Rag.Store.Engine (how the database orders vectors and texts), Queue.Sqs,
-- Topic.Sns, Migrator.Disk (the files, and what a script does), Api.Formats (texts of UUIDs, the hash),
-- the field `is_json` of Db.Database (the texts that a column of type JSONB takes), and Db.Sorter for
-- ORDER BY, which leaves the order of ties open.
--
-- Not modelled: logs and metrics; the constructors that open connections; the libraries that route
-- requests and match regular expressions; goroutines and signals, beyond how `run` ends.
-- JSONB's normal form of a payload is not told apart from its text.
pub mod Ai
pub mod Api
pub mod Breaker
pub mod Db
pub mod Gateway
pub mod Migrator
pub mod Prelude
pub mod Queue
pub mod Rag
pub mod Redis
pub mod Rpc
pub mod Sender
pub mod Settings
pub mod Topic
pub mod Worker
