-- ===== src/Lib.antt =====
-- Verification library of golang-rest-api-template, a REST service for books with users, access
-- tokens and rotated refresh tokens.
--
-- The program and its model, by paths from the root of the repository:
--
--   pkg/models, pkg/httperr, pkg/httpresp     Models, Http
--   pkg/repository, pkg/repository/dbsqlc     Repository: Persistence (the interfaces), Tables (each
--                                             SQL statement as a function on the tables), Driver (pgx),
--                                             Books, Users, RefreshTokens, ListQuery
--   pkg/service/user_service.go               Service.Users
--   pkg/service/book_service.go               Service.Books, Service.CacheKey
--   pkg/auth                                  Auth: Roles, Tokens, Keys, Passwords, Denylist
--   pkg/events/event.go, noop.go, metrics.go  Service.Events
--   pkg/events/kafka, pkg/events/driver       Kafka
--   pkg/cache                                 Cache, Cache.Options
--   pkg/database                              Database (pgxpool), Database.Mongo
--   pkg/tracing                               Tracing
--   pkg/middleware                            Middleware: ApiKey, JwtAuth, Rbac, RateLimit, MaxBody,
--                                             RequestId, Timeout, AccessLog, Metrics, Spans
--   pkg/api                                   Api: Query, Books, Users, Probes, Router
--   cmd/server/main.go                        Server
--   examples/kafka-consumer/main.go           Consumer
--   the errors of pkg/repository, pkg/service Errors
--
-- A request passes the engine's middleware, the guards of its route and its handler (Api.Router); the
-- handler calls a service, the service a store, and the store the driver. A committed mutation of a
-- book bumps the generation in the cache and publishes an event, which the producer makes a message
-- of (Kafka) and the example consumer reads (Consumer). `main` opens what the router is built from,
-- serves, and closes it (Server). A Go method with receiver and error is a function into
-- `Io W Error A`: it takes a world `W` and returns a value or an error, and the world as it left it,
-- also on an error (Result). Names are those of the source in lower case: `UserService.Refresh` is
-- `Service.Users.refresh_tokens`, `SQLCRefreshTokenStore` is `Repository.RefreshTokens.refresh_store`.
-- A long method is split at its early returns; the helpers stand above it. Base has the shared names,
-- texts and numbers; Platform is what the code takes from outside. Child modules hold the lemmas;
-- Examples has concrete worlds and the runs in them.
--
-- Conventions. A string is its list of bytes, and folding and trimming treat ASCII. A time is a
-- number of nanoseconds, an absent one `none`. `uint` and `int` are 64 bits wide; values above the
-- largest BIGINT are clamped as in `toInt64`, and the columns hold no negative number. A method that
-- writes through a pointer returns the record. Postgres runs each statement at once; a transaction
-- works on the tables as they were at its begin and replaces them at its commit, and an abandoned
-- one leaves them alone, the sequence too. Any call of the driver may fail, and a failed statement or
-- commit outside the caller's sight may have taken effect. Interleavings are sequences of the
-- store's calls, of page reads and committed mutations (Service.Books.Fresh), or of offers and moves
-- of the worker (Middleware.AccessLog.Fifo). Calls that `singleflight` coalesces are one call of the
-- loader. A loop on a reader or a channel is recursion on the list of what it is given.
--
-- Parameters: pgx and pgxpool (Repository.Driver, Database), the MongoDB driver (Database.Mongo), the
-- server's answer to the text of a list query, Redis (Cache), the writer of kafka-go with JSON coding
-- and fresh ids (Kafka), the OpenTelemetry SDK and tracer (Tracing, Middleware.Spans), zap and the
-- log collection (Middleware.AccessLog), the clock, the random source, the environment, bcrypt,
-- SHA-256, base64, the JWT library (Platform), gin's binding and routing, and the third-party
-- middleware (Api.Router). The hypotheses on them are `DriverLaws` (what is put is there, and asking
-- for a fault writes nothing), `Frame`, `CacheFrame` and `PublisherFrame` (they do not write to the
-- database), `KeyFrame` (the random source and the clock leave the signing key alone), `Accepts` (the
-- JWT library accepts what it has signed, once issued and until it expires), `ReadsBack` (a key of
-- the cache that was set has its value), `CacheMap` (the cache is a map with an atomic `INCR`) and
-- `LeavesCache` (a call does not write to it), `PoolLaws` (which calls of pgxpool open and close a
-- pool), `RuntimeLaws` and `SeriesLaws` (a variable reads back what is put, and the SDK or the clock
-- does not write it), and `AroundLaws` (a third-party middleware that lets a request go on keeps its
-- headers), `ReadsHeader` (decoding reads back the metadata of an envelope) and `Counts` (`INCR`
-- succeeds on a generation).
--
-- Not modelled: the cost of bcrypt, whose comparison is a pure function; the Swagger pages, and that
-- the probes and the metrics are served beside `/api/v1` without a key; CORS, security headers and
-- XSS filtering, which configure third-party middleware; the logger and recovery of `gin.Default`;
-- the Prometheus registry and its text format, the `Close` of the Kafka producer and the HTTP server
-- itself, which are calls of libraries; the wiring of the generated queries; the generated
-- documentation and mocks; and the test support. The only definition on fuel is the printing of
-- numbers (`digits_fuel`), whose fuel is the number itself; every loop is recursion on a list, or on
-- the number of attempts that are left.
pub mod Base
pub mod Result
pub mod Errors
pub mod Models
pub mod Repository
pub mod Platform
pub mod Cache
pub mod Auth
pub mod Service
pub mod Http
pub mod Middleware
pub mod Api
pub mod Database
pub mod Kafka
pub mod Consumer
pub mod Tracing
pub mod Server
pub mod Examples
