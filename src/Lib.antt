-- ===== src/Lib.antt =====
-- Verification of the BlaBlaCar-like service (C++, userver).
--
-- The service answers nine routes under /v1. A request passes the authentication middleware, which
-- looks up its bearer token in MongoDB, and reaches its handler. The handlers call the storages
-- (PostgreSQL for users and routes, MongoDB for tokens and trips), the cache in Redis (users and
-- routes, cache-aside), the rate limiter (a Lua script in Redis, for logins) and the publisher of
-- events (RabbitMQ). A consumer of the same process reads the events back and logs them.
--
-- Which file models which part, with paths from the root of the repository:
--   Models             src/models.hpp: the structs of users, routes and trips
--   RoutePoints        src/storage_mongo.cpp: TrimCopy, SplitRoutePoints, and the raw text that
--                      ParseMongoTripDocument rebuilds
--   PgStorage          src/storage_pg.cpp: StoragePgComponent, its statements (Queries) and its
--                      reading of rows (Rows)
--   MongoStorage       src/storage_mongo.cpp: StorageMongoComponent and its documents (Documents); its
--                      JoinTrip in many calls at once (Concurrent)
--   MemoryStorage      src/storage.cpp: StorageComponent, which the build does not compile; its methods,
--                      and their blocks under locks in any order (Interleavings)
--   RedisCache         src/redis_cache.cpp: Get, Set, Invalidate
--   RateLimiter        src/rate_limiter.cpp and .hpp: Check and kRateLimitScript
--   AuthMiddleware     src/auth_middleware.cpp: HandleRequest, and Create of the factory
--   Events             src/events.cpp: Publish and the four events (Events), ToIso8601Utc (Format),
--                      Process of the consumer (Consumer), DeclareEventTopology; Delivery is about an
--                      event on its way from the one to the other, and about event_catalog.md
--   Handlers           src/handlers/api_handlers.cpp: SafeHandle, SetRateLimitHeaders (Handlers), the
--                      handlers of users (Users), routes (Routes) and trips (Trips), and their
--                      registration (Registered); Histories is about invariants of the cache over
--                      many requests, Profiles and Listings about those of users and of routes
--   Server             configs/static_config.yaml: the method, the path and the middlewares of each
--                      handler, and requests that are served one after another
--   Startup            src/main.cpp and the constructors of the components: the list of components,
--                      what each constructor and its base class find and do, the middlewares of
--                      configs/static_config.yaml included, and the orders in which they run
-- Prelude holds texts, lists, tests and integers; Http the request, the response and std::to_string;
-- Examples a concrete set of services on which the theorems are applied.
--
-- A text is a list of bytes. The code of the program is written in the monad App: it reads and
-- changes a World and gives a value or an exception. The exceptions are kept apart only as far as
-- SafeHandle does: JSON errors, std::invalid_argument, any other std::exception. A World is the state
-- of the services, the clock and the response that is being made.
--
-- PostgreSQL, MongoDB, Redis, RabbitMQ, the clock, the generator of ids, and the codecs of JSON and
-- BSON are not in the repository. Services names their calls, with an arbitrary state and an
-- arbitrary outcome, errors included; a theorem that relies on what one of them documents takes a
-- record of laws: Counters for the commands of a Redis that answers, TokenStore for the collection
-- auth_tokens and TripStore and TripArchive for the collection trips of a MongoDB that answers,
-- ReadsFields for BSON, PrintsAndParses for JSON, Stores for the table users and for Redis as a cache,
-- RouteStores for the table routes and that cache. What the client makes of a reply of Redis that is no
-- array, or of an item that is no integer, is left open.
-- A Lua script is a function over the commands of Redis, which the server runs as one step.
--
-- Every loop over the rows of a result, the points of a route or the delimiters is recursion on the
-- list. The two loops of SplitRoutePoints over positions run on fuel, one more than the size of the
-- text, which is enough because every round moves the position forward.
--
-- Not modelled: the log, except the lines that the consumer writes; the deadline of a publish; of
-- configs/static_config.yaml the ports, the thread pools and the connections; the framework and its own
-- components, which Startup takes as names that are constructed before the program's (its own HTTP
-- handlers come later, for they find the program's middleware, and nothing of the program finds them).
-- Requests are handled one after another, except in Concurrent and Interleavings. A distance is a
-- number: the only one that the program makes is 0.0, and it is only stored. A 64-bit integer of the
-- rate limiter is an integer: the one operation on it, limit - current for a header, stays within 64
-- bits for a limit and a counter that are not negative.
pub mod Prelude
pub mod Models
pub mod RoutePoints
pub mod Http
pub mod Services
pub mod App
pub mod MemoryStorage
pub mod PgStorage
pub mod MongoStorage
pub mod RedisCache
pub mod RateLimiter
pub mod AuthMiddleware
pub mod Events
pub mod Handlers
pub mod Server
pub mod Startup
pub mod Examples
