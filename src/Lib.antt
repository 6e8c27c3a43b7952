-- ===== src/Lib.antt =====
-- NotificationSystem: an API that accepts notifications, a queue, and workers that deliver them.
--
-- The program is two processes. The API server (cmd/server) checks a request, stores a row in
-- `notifications` and writes a message to Kafka. The worker process (cmd/worker) runs one worker for
-- each of the channels ios, android, sms and email; a worker reads messages, stores a row in
-- `delivery_logs`, calls the provider with retries and updates the row. Both share PostgreSQL.
--
-- Code that acts on the outside is a function `W → Outcome A × W` (Effect.antt), where `W` is
-- everything outside the process, a parameter of each definition, and an outcome is a value or a
-- panic. The outside services are records of functions on `W`, and what is relied on of them is a
-- record of laws:
--   PostgreSQL through pgx: Store/Connection.antt and Store/Laws.antt; Redis through go-redis:
--   Redis.antt, RateLimit/Window.antt (Answers) and Cache/Coherence.antt (CacheLaws); Kafka through
--   kafka-go: `Broker` in Kafka.antt; all of them behind the handlers: Api/Handler/Laws.antt, and
--   behind a worker: Worker/Laws.antt; the clock, identifiers and metrics: Runtime.antt; the registry
--   of metrics: Metrics/Registry.antt; the context of a wait: `Context` in Retry.antt; texts of times:
--   `TimeFormat` in Json.antt; what the two processes open and close: `Platform` in Server.antt and WorkerProcess.antt, with the laws in
--   Server/Laws.antt, Worker/Draining.antt and WorkerProcess/Stopping.antt.
-- Tests/Memory.antt and Tests/Machine.antt have services in memory, and a child module of each
-- shows that they satisfy these laws. The laws say what one call does to the tables. Elsewhere an
-- operation runs without another writer between its calls; in RateLimit/Interleaving,
-- Api/Handler/Interleaving, Worker/Interleaving and System the steps of several lie between each other.
--
-- The files and the code that they model:
--   Base, Failure, Effect: numbers, lists and texts; Go's error values (errors.Is, fmt.Errorf with
--     %w, their texts); the order of effects.
--   Domain, Domain/Codec: internal/domain, and encoding/json on `Notification` (Json.antt).
--   Domain/Repository: internal/domain/repository.go, the interfaces that the handlers and the workers
--     take. What they rely on of them is in Store/Contracts, with the proof that the store has it.
--   Retry: internal/retry/retry.go (DefaultConfig, Do).
--   Config: internal/config/config.go (Load, getEnv, getEnvRequired, getInt, getDuration).
--   Kafka: internal/kafka (NewProducer, Publish, NewConsumer, ReadOne).
--   RateLimit: internal/ratelimit/limiter.go (Allow). RateLimit/Interleaving has its two commands to
--     Redis as the steps of several calls at once.
--   Store: internal/store/postgres.go (Save, FindByID, UpdateStatus, Insert, UpdateDeliveryStatus,
--     ExistsSent, FindUserByID, FindPreferences, migrate); Store/Tables is the schema and what each
--     SQL statement does to the tables.
--   Cache: internal/store/cache.go (UserCache.FindByID, UserCache.FindPreferences); Cache/Codec is
--     encoding/json on `User` and `UserPreferences`.
--   Api, Api/Request, Api/Handler: internal/api/handler.go (sendNotification,
--     getNotificationStatus, healthCheck, isChannelEnabled, writeJSON, writeError), one definition
--     to a step of the handler. Api/Handler/Interleaving has the steps of a valid request as a
--     relation: the check of the limit, each access to the cache or to PostgreSQL, and the publishing,
--     with what each reply leads to written out.
--   Api/Middleware: internal/api/middleware.go (responseWriter, RequestID, Logger, Recoverer,
--     contextWithRequestID, requestIDFromContext) and router.go (NewRouter). The method and the path of
--     a request may be bytes that are not UTF-8 (`RawText`), on which WithLabelValues panics.
--   Values, Logging: the values of a context, and pkg/logger/logger.go (New, WithContext,
--     FromContext) over them. A context is the list of its values; one for a wait is in Retry.
--   Sender: internal/sender/sender.go (the five senders, mask).
--   Worker: internal/worker/worker.go (New, process, Run), one definition to a step.
--     Worker/Interleaving has the same steps as a relation, with what each reply leads to written out
--     and those of other workers in between. Worker/Ending is about the errors that end Run.
--   Metrics: pkg/metrics/metrics.go, the ten metrics and their registration, which happens before the
--     main function of either process. Metrics/Registry says what client_golang takes.
--   Store/Opening: internal/store/postgres.go (New).
--   Server: cmd/server/main.go (run, main), one definition to each call after which it may return;
--     a deferred call runs after a return and after a panic (`defer` in Effect.antt).
--   WorkerProcess: cmd/worker/main.go (run, main). The goroutines are a list of workers that take
--     turns, one round of `Run` to a turn, in the order of a list of indices; the turns before the
--     signal and those after it are two such lists.
--   Journey, History: no file of their own; the API and the workers together, as one request and the
--     round that reads its message (in Journey/Arrival with the delivery), and as a sequence of
--     requests and rounds.
--   System: no file of its own; any number of requests and deliveries as threads, of which one makes
--     a step at a time. A thread starts where a valid request comes in or a read replies with a
--     notification, and there is no bound on how many are at work. System/Good, System/Frames and
--     System/Reached say what holds of all of them, System/Twice what two deliveries of one
--     notification may do and System/Once what they cannot. A process that is killed is threads
--     that make no further step.
--
-- Numbers: a duration is a 64-bit word, and the delay of a retry wraps as in Go (Retry.antt). The
-- loop of `Do` is a recursion on the attempts that are left, which start at MaxAttempts, so it needs
-- no further fuel. The endless loop of Run has fuel for a number of rounds and tells whether it has
-- returned; Worker/Running.antt says with how many rounds it has. Counts and limits are natural
-- numbers.
--
-- Not modelled: what log/slog writes, which changes no state that the program reads; the deadlines
-- of the contexts of cmd/server, whose effect is an error of the call that has them; how chi
-- matches a route; the other spellings of a UUID, since the texts that the UUID columns hold or
-- are compared with are taken to be in canonical form; the Close methods, which only pass the call
-- on; the interface UserRepository, which nothing uses. Of a JSON value the text is not modelled:
-- bytes stand for the value that they parse to.
pub mod Base
pub mod Failure
pub mod Effect
pub mod Domain
pub mod Json
pub mod Retry
pub mod Config
pub mod Kafka
pub mod Logging
pub mod Redis
pub mod Metrics
pub mod RateLimit
pub mod Store
pub mod Cache
pub mod Api
pub mod Sender
pub mod Runtime
pub mod Values
pub mod Worker
pub mod History
pub mod Journey
pub mod System
pub mod Server
pub mod WorkerProcess
pub mod Tests
