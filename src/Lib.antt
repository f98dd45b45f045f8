-- ===== src/Lib.antt =====
-- The Go programs of this repository that keep state others rely on: a rate limiter, a set of
-- microservices, a shop over a database, a task API, a token service, an inventory server, a live
-- dashboard, two small APIs, and the lessons whose programs have state or contracts of their own.
--
-- Common holds the shared types and lemmas: Boolean tests, lists, signed integers with the wrap-around
-- of an `int64` and an `int32`, Go maps as association lists, what is used of Go's strings package, and
-- how a commit can end.
--
-- RateLimit is system-design/fixed-window-counter, one module for each package of its internal
-- directory: Limiter is internal/limiter (WindowStart, Decide, RetryAfterSeconds), Store is
-- internal/store (the SQL upsert as one step on a table), Breaker and Service are internal/service
-- (breaker.go and service.go), Middleware is internal/middleware, Config is internal/config. A request
-- goes through Middleware.rate_limit to Service.check, which asks the breaker and calls the store by
-- `increment`; the state that requests share is the breaker and the table.
--
-- Microservices is 63_microservices/internal: Platform is platform/resilience.go (Retry is
-- RetryPolicy.Do, Breaker is Breaker.Do), Users is userservice, Orders is orderservice, Gateway is
-- gateway/gateway.go. `Orders.create_order` composes them as the code does: validation and the
-- idempotency map (`start`), the call of the user service through breaker and retry (`check_credit`),
-- and the storing of the order (`settle`).
--
-- GoCrud is go-crud/internal: Products is product, Orders is order, Users is user, Handlers is the
-- handler.go of each, and Lists their lists; the tables and their checks are those of
-- go-crud/migrations. The transaction of an order's creation is modelled statement by statement, each
-- of which the database may refuse.
--
-- Capstone is 47_capstone/internal: Store is store/store.go, a table of tasks by id, with the
-- transaction of Update, and what becomes of a statement or a commit that ends in an error; Api is api/handlers.go with the helpers of
-- api/server.go and the key check of api/middleware.go, which call the store's operations; Config is
-- config/config.go.
--
-- Auth is 60_jwt_auth/main.go: Tokens is the TokenService with its two maps, Api the users, the
-- middleware and the handlers. What is relied on of the jwt library is `Signed.IsJwt`; random texts are
-- arguments.
--
-- Inventory is 62_grpc: server.go's calls on the shared store, a stream being the list of what it
-- receives, and Interceptors for interceptors.go. Reserve joins any number of streams over one store.
--
-- Dashboard is server-dashboard/backend/internal: Hub is hub (Run of hub.go, ServeWS and the pumps of
-- client.go, as steps of goroutines that share the channels), Registry is registry and api, which
-- feed it.
--
-- Migrations is the runner of migrations that 47_capstone/internal/store/store.go and
-- go-crud/internal/database/postgres.go have alike, Bookmarks is bookmarks-api/main.go, and TinyCrud is
-- tiny-crud/main.go.
--
-- Repository is 37_migrations_and_repository: Sql and Memory are the two repositories of store.go,
-- Contract what a caller may rely on of either, and Demo the caller of main.go. TaskServer is
-- 43_testing_http/api.go: the handlers over any `Store`, and MemStore with the failures that tests
-- inject. HttpStack is the middleware of 39_middleware/main.go and of
-- 47_capstone/internal/api/middleware.go: a handler's effect on the response is a list of actions, and
-- each middleware a function of handlers.
--
-- Wallet is 59_testify/wallet.go over any ledger, and FakeLedger the ledger of wallet_test.go, whose
-- pointers name accounts on a heap; Settings is
-- 41_config_and_env/main.go; Books is listBooks and transferPages of 36_database_sql/main.go; Perf is
-- 44_benchmarks_and_profiling/perf.go, a module for each job. Concurrency has two programs as step
-- relations: Queue is 52_sync_cond/main.go, and Pool is
-- 31_demo_examples/demo3_worker_pool/main.go.
--
-- Time is in nanoseconds, as natural numbers, and in milliseconds in the capstone. What happens outside
-- is an argument: clocks, random draws, contexts that end, replies that the network loses, statements
-- and commits that fail, the parsers of strconv and time, floating-point values. Retry loops recurse on
-- the attempts that are left, which their policies bound, and WatchStock on its limit of events; nothing
-- else is given fuel. A section under a mutex, a statement of the limiter's store, and a transaction of
-- the shop or of the capstone are each one step.
--
-- Not modelled: logging, the texts of errors beyond their sentinels, process wiring, code generated for
-- grpc, the joined items of an order, the routers of the gateway and the capstone and the gateway's
-- middleware, that an answer of the inventory shares the stored product, the dashboard's simulator and
-- front end, concurrent uses of the maps of Repository and the order of two writers of one response after
-- its deadline, the demos of
-- 64_resilience and 65_asynq, which configure libraries, and the other numbered lessons, which
-- demonstrate one feature of the language or the standard library each.
pub mod Common
pub mod RateLimit
pub mod Microservices
pub mod GoCrud
pub mod Capstone
pub mod Auth
pub mod Inventory
pub mod Dashboard
pub mod Migrations
pub mod Bookmarks
pub mod TinyCrud
pub mod Repository
pub mod TaskServer
pub mod HttpStack
pub mod Wallet
pub mod Settings
pub mod Books
pub mod Concurrency
pub mod Perf
