-- ===== src/Lib.antt =====
-- The Tesseract API: a service for albums of pictures, with users, sessions and an administrator,
-- over PostgreSQL and Redis.
--
-- Parts. A handler (internal/domain/*/handler.go, internal/platform/auth/handler.go) reads a request,
-- calls a service, and writes an answer; a service checks rights and translates errors; a repository
-- reads the cache, runs the statements of internal/platform/database/sqlc, and leaves cache writes to
-- goroutines. Each is a definition here, composed as the code composes them.
--
--   Exec            Go functions with a state and an error: `return`, early returns, `if err != nil`.
--   Response        the errors of internal/platform/response, their causes, statuses and texts.
--   Store           the state: tables, cache, goroutines not yet run, the clock, and the outcomes of
--                   the coming calls to PostgreSQL and Redis. `query` is one statement, `transaction`
--                   a transaction with its commit or rollback, `spawn` a goroutine.
--                   Store/Keeps has the rules by which an action keeps an invariant of the tables.
--   Platform        what comes from packages outside of the repository: hashes, random texts, PASETO.
--   Cache           internal/platform/cache and the Lua scripts on mappers.
--   Tokens          internal/domain/tokens: Queries (tokens.sql.go), Repository, Manager (service.go,
--                   model.go).
--   Users           internal/domain/users: Queries (users.sql.go), Repository, Service, Handler.
--   Albums          internal/domain/albums: Queries and Writes (albums.sql.go), Access
--                   (shared/types/access.go), Repository, Lists (the pages of repository.go), Service,
--                   Model, Handler.
--   Admin           internal/domain/admin.
--   Auth            internal/platform/auth: Service, Handler.
--   Cursor          internal/platform/cursor.
--   Http            internal/platform/request, internal/platform/cookies, and the answers of
--                   internal/platform/response.
--   Urls, Validation internal/platform/utils and the rules of internal/platform/validator.
--   Translations    internal/platform/i18n and the texts of internal/platform/response/response.go.
--   RateLimit       internal/platform/ratelimit: the script, the rules (Rules), the window (Window).
--   Middleware      cmd/api/middleware.go: the checks before a handler, the headers (Headers), the key
--                   of the rate limiter (Limit), the recorder and the ETag (Recorder).
--   Routes          cmd/api/routes.go: the table of routes with the middleware around each. Mount puts
--                   them behind the middleware of main.go.
--   Api             the handlers that the routes name, on one world, from a request whose body is a
--                   text.
--   Worker          internal/worker: the loop of the cleanup worker, on the signals that it receives.
--   History         events besides requests: calls of services, goroutines of users and albums,
--                   evictions and failures.
--   Tests           small worlds to evaluate on.
--
-- Correspondence. A function keeps its Go name in the spelling of this library. An UUID is a number,
-- `uuid.Nil` is zero; a time is a number of microseconds, PostgreSQL's resolution. A statement is a
-- function from the clock and the tables to a result and the tables, with the unique indexes and
-- foreign keys of internal/platform/database/migrations checked in it. A call of PostgreSQL or Redis
-- may fail by the next outcome of the world, and then changes nothing. A cached value is an entity or
-- the text of an id. `int` and `int32` are signed numbers with their wrap-around.
--
-- Bounds. No definition runs on fuel but the walk over pages, which is asked for as many pages as it
-- needs by a hypothesis. The pages take a length below 2^31 - 1, which `limit + 1` in 32 bits needs.
--
-- Texts of headers are taken as ASCII where the code changes their case. What the JSON decoder makes of
-- a body is an argument for each type that a handler reads.
--
-- Not modelled: how chi finds the route of a request and its own middleware (CORS, timeout, the
-- real address; of the recovery, the answer to a panic in a page of albums is modelled); the start and the end of the server, the pools and the reading of the
-- configuration in main.go and internal/platform/config; the playground of
-- cmd/api/routes_playground.go; the content of translations.json, which is an argument; the rules of
-- the third-party validator, whose verdict on a request is an argument; logging; the order of
-- goroutines within one call, and calls that share one result by `singleflight`. The cache's time to
-- live is an eviction at any moment.
mod Prelude
pub mod Response
pub mod Translations
pub mod Routes
pub mod Api
pub mod Exec
pub mod Store
pub mod Platform
pub mod Cache
pub mod Tokens
pub mod Urls
pub mod Validation
pub mod Users
pub mod Http
pub mod Auth
pub mod Cursor
pub mod Albums
pub mod Admin
pub mod Middleware
pub mod RateLimit
pub mod History
pub mod Worker
mod Tests
