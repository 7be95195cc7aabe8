-- ===== src/Lib.antt =====
-- golang-base is a Go back end: an HTTP API for accounts, roles and permissions over PostgreSQL,
-- with a Redis cache in front of the permission checks. This library models the parts that decide
-- who may do what, the storage of files, the migrations and seeders, and the packages that these
-- use, and states what they do.
--
-- The parts and the files.
-- Base: lists, byte strings (a Go string is the list of its bytes), association lists for Go maps,
-- sorting, the int of the 64-bit platforms, path/filepath (Paths), strings.TrimSpace (Space), and
-- the decimal numbers of fmt and strconv (Decimal).
-- Config: config/config.go, the configuration and its fallbacks.
-- App: internal/app/app.go, the settings of the server and its error handler.
-- Domain: internal/domain. Domain.antt has the records, Domain/Errors.antt the error values and
-- the result of a function that returns `(T, error)`, Domain/Permissions.antt the permission
-- registry.
-- Infra: the interfaces of what the program calls: the SQL statements (Database), the Redis client
-- (Redis), encoding/json on the cached rows (Codec). A World is a database state and, if the
-- client is set, a Redis state. Infra/Laws.antt states the documented behaviour that theorems
-- assume: what an upsert and a delete do to the rows that a select returns, which tables a
-- statement leaves alone, what GET returns after SET and DEL, that unmarshalling undoes
-- marshalling.
-- Pkg: internal/pkg. Pkg/Db.antt is db/db.go, with the messages in Pkg/Db/Messages.antt;
-- Pkg/Jwt.antt is jwt/jwt.go, over an interface of the jwt library; Pkg/Pagination.antt is
-- response/pagination.go; Pkg/Response.antt is response/response.go, Pkg/Validator.antt
-- validator/validator.go; Pkg/Event.antt is event/event.go; Pkg/Storage.antt is storage/local.go,
-- factory.go and disabled.go, Pkg/Storage/Cloud.antt s3.go and gcs.go, Pkg/Storage/Kept.antt what a
-- backend promises the storage module, which Pkg/Storage/Made.antt shows of the factory's backends;
-- Pkg/Cache.antt is cache/cache.go, Pkg/Crypto.antt
-- crypto/token.go, Pkg/Socketio.antt socketio/auth.go; Pkg/Ocr.antt is ocr/response_parse.go and
-- Pkg/Ocr/Client.antt ocr/client.go; Pkg/Export.antt is export/struct.go and Pkg/Export/Format.antt
-- export/format.go and file.go; Pkg/Logger.antt is logger/logger.go.
-- Auth: internal/modules/auth. Repository is repository.go, one function for each method; Dto is
-- dto.go; Module is module.go; Service is service.go, the reading of permissions in Service.antt,
-- the changes of permissions in Service/Grants.antt, accounts and sessions in
-- Service/Accounts.antt, the permission matrix in Service/Matrix.antt; Handler is handler.go, one
-- function for each handler, from the bound request to the response and the World after it; Routes
-- is RegisterRoutes in the same file: a request to a route goes through what stands before its
-- handler. Routes/Invariant.antt has the steps that the World can take.
-- Middleware: internal/middleware. Permission is permission.go, Authentication is auth.go,
-- RequestId is requestid.go, Metrics is metrics.go and the status of request_logger.go.
-- Storage: internal/modules/storage, the service and its handlers over a backend.
-- User: internal/modules/user, its repository, service and handlers.
-- Seed: cmd/seed/seeders, the registry of seeders, its runs and the two seeders.
-- Migrate: cmd/migrate/main.go, the run, the rollback and the list of SQL migrations;
-- Migrate/Create.antt makes the files of a new one.
-- Tests: a database of lists, a Redis of an association list, a codec, a jwt library, a bcrypt, a
-- host of migrations, disks, buckets and a system of log files that satisfy the laws, sample states,
-- and the theorems applied at them.
--
-- How they interact. A service method reads and writes the World through the repository; a write's
-- state stays after an error, since nothing runs in a transaction. The middleware reads the same
-- rows through Redis; the service deletes the cached rows that it changes. A cache is coherent if
-- what it holds under a key is what the tables hold.
--
-- A request that deletes a user removes rows by a cascade of the database, which the interface of
-- the statements does not show; the invariant of the cache leaves it out, and also the requests
-- that end with status 500, after which cached rows may be stale. The identifiers of users are UUIDs,
-- which PostgreSQL reads in several spellings, while the keys of the cache are texts: the laws of the
-- statements have a relation `same_id` for two spellings of one UUID, and what is said of the cache
-- after a change of a user's permissions asks that no rows are cached under another spelling.
--
-- The clock is an argument: one instant stands for all readings of time.Now during a call, and an
-- instant is a natural number, a count of nanoseconds, since the program compares instants and
-- adds durations to them. A Go map is an association list, whose order stands for the order of one
-- iteration. Fresh identifiers are an argument, and so are bcrypt, the jwt library and the
-- driver's IntegrityViolation. strings.ToLower on names of files and types is an argument, too.
-- Almost every loop is a recursion on a list. Two are counted: the search for a .env file, which
-- makes at most five rounds, as in the source, and the printing of a number, of at most twenty
-- digits, which is enough for the numbers below 2^64.
--
-- Numbers: the limits and offsets of the API are 64-bit ints, whose wrap-around is written out
-- where the offset of a page is computed; counts and identifiers of rows are natural numbers.
--
-- Not modelled: the binding of requests and the writing of JSON (fiber), the rendering to Excel and
-- PDF, mail, queues, tracing, the registry of metrics, the logger in a context and the attributes of
-- its records, the socket.io server, the command lines and the start-up code: they call libraries.
-- Requests follow each other, and do not interleave. A cached row whose time is over is a step in
-- which Redis loses keys.
pub mod Base
pub mod Domain
pub mod Config
pub mod Infra
pub mod Pkg
pub mod Auth
pub mod Middleware
pub mod Migrate
pub mod Storage
pub mod User
pub mod Seed
pub mod App
pub mod Tests
