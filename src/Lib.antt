-- ===== src/Lib.antt =====
-- ZenGate AI, an API gateway in Go. This library models the packages under internal/ and proves what
-- holds of them.
--
-- How the gateway works. cmd/gateway/main.go wires a chain of middlewares around a router. A request
-- passes recovery, request id, logging, CORS, authentication, rate limiting and metrics, and ends in
-- an administrative handler or in the reverse proxy. The rate limiter takes its policies from a
-- mirror of etcd, and background agents read the metrics and ask a language model to change policies
-- or the proxy's target.
--
-- Which file models what, with the Go names in snake case:
--   Policy, ControlPlane         internal/controlplane/client.go: policies, the mirror; the watch
--                                loop with restarts and shutdown is ControlPlane/Watch
--   ControlPlane/Handler         internal/controlplane/handler.go: list, save and delete; its children
--                                Registry and Commands are what it promises, up to order
--   RateLimit/TokenBucket        internal/ratelimit/limiter.go, TokenBucketLimiter
--   RateLimit/SlidingWindow      internal/ratelimit/limiter.go, RedisSlidingWindowLimiter, and the
--                                script internal/ratelimit/scripts/sliding_window.lua
--   RateLimit/Middleware         internal/ratelimit/middleware.go
--   RateLimit/FixedWindow        pkg/ratelimiter/limiter.go and its script
--   Auth                         internal/auth: blacklist, JWT validator and middleware
--   Metrics, Metrics/Render      internal/metrics/handler.go: counters and the printed page
--   Metrics/Shared               the same, as steps of goroutines on maps that share their cells
--   Proxy                        internal/proxy/middleware.go: the chain and its middlewares; the
--                                loop of `Chain` by its index is Proxy/Loop, the ids of
--                                requests, also by goroutines, are Proxy/RequestIds
--   Proxy/Forwarding             internal/proxy/handler.go, and the watcher in cmd/gateway/main.go
--   Ai/Brain, Ai/Queries         internal/ai/brain.go: the models, and the requests to them
--   Ai/Translator, Ai/Healer     internal/ai/translator.go and internal/ai/healer.go
--   Ai/Analyzer                  internal/ai/analyzer.go
--   Ai/Agents, Ai/Mock           the prompts, the whole of each query, and the agents without a key
--   Brain                        internal/brain: the two versions of its client
--   Health                       internal/health/handler.go
--   Config                       internal/config/config.go
--   Gateway                      cmd/gateway/main.go: the chain it builds; Boot and Startup are its
--                                start, Router its routes, SelfHealing its follower of the target,
--                                Shutdown its end, with the loops of the agents, and Traffic many
--                                requests through the chain; the others follow a request or a
--                                policy through the parts
--   Http                         what the handlers use of net/http
--   Base                         lists, dictionaries, texts, decimals, integers
--
-- How it is modelled. A handler is a function of a request, a response writer and a state; it
-- returns the writer and the state, or panics with both. A middleware is a function on handlers for
-- any state, and reaches its own part of the state through a record Part. The writer keeps the
-- status that was sent first, the body, and the captures of the wrappers around it. Code outside
-- the repository is a parameter: etcd, Redis, the JWT library, JSON, url.Parse, the reverse proxy of
-- net/http/httputil and the HTTP client. Where a theorem needs what such code documents, the laws
-- are a record that is instantiated in the test modules.
--
-- Bounds. Counters wrap as int64 and uint64 do. Times are nanoseconds, in the script milliseconds.
-- Tokens of the local limiter are counted in units of 10^-9, and float64 rounding is left out there;
-- the agents work over any type with the operations of float64. Policy limits and windows
-- are integers. Only the printing of a number runs on fuel, one more than the number, which is
-- proved to be enough; every other loop is over a list or an index.
--
-- What is not modelled: locks, apart from the one of the metrics handler at the shutdown; goroutines,
-- apart from those that record metrics or make request ids, which are interleaved step by step,
-- those of the agents at the shutdown, and the orders of events that are lists or steps here; the
-- HTTP server and time-outs; the log, apart from what the middlewares of the packages proxy and auth
-- write to the logger that they are given, so that what package ratelimit writes to the default
-- logger is left out; internal/brain/config.go, which is one call of a library;
-- internal/auth/context.go, which does not compile; the Python agents, tests and deployment files.
pub mod Base
pub mod Policy
pub mod Http
pub mod ControlPlane
pub mod Fixtures
pub mod Metrics
pub mod RateLimit
pub mod Auth
pub mod Proxy
pub mod Ai
pub mod Config
pub mod Gateway
pub mod Brain
pub mod Health
