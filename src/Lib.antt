-- ===== src/Lib.antt =====
-- Models of epoll-gateway, an HTTP gateway over epoll, and what holds of them.
--
-- A worker reads bytes from a client and feeds them to the parser; a complete request is resolved
-- to a route, its API key is checked, a rate limiter decides on it, and the upstream manager picks
-- a server and asks its circuit; the connection pool hands out a connection to the server, and an
-- exchange sends the request there and frames the response, which the handler queues for the
-- client; a composite route runs an exchange for each dependency and joins what they give. Static
-- files come from two caches. A budget shared by all workers limits the client connections.
--
-- - Http: src/common/http_parser.cpp and include/common/http_parser.h. `Http/Parser/Loop.antt` has
--   `parse`, a loop over the bytes whose round is `step`; RequestLine, Headers and Bodies have the
--   cases of its switch. Errors, Segments, Framing, Invariant, Requests and Digits are proofs, and
--   RoundTrip is the way from a client's message through `parse`.
-- - Config: the structs of include/server/config.h with their defaults, and `Config::validate`; what
--   it means for the upstream manager is in `Upstream/Accepted.antt`.
-- - Logging: include/server/logging_utils.h.
-- - Upstream: src/server/upstream_manager.cpp. Circuit is one circuit, Manager the circuit table and
--   `pick_server`, Health `check_health` and the snapshots; Breaker, Picking and Probing are proofs.
-- - Pool: src/server/connection_pool.cpp and the pool identity of src/server/http_client.cpp.
-- - Limits: src/server/rate_limiter.cpp, include/server/rate_limiter_manager.h and
--   include/server/connection_budget.h.
-- - Client: `UpstreamExchange` of src/server/http_client.cpp. Headers and Request are the request on
--   the upstream hop, Chunks the scanner of a chunked body, Framing `try_frame` and `finish_ok`,
--   Io the calls of src/common/mysocket.cpp, State the fields of the exchange with the opening of a
--   connection and `fail`, and Run the loop of `run` and `advance`, a `round` for each turn. The
--   others are proofs: Scanning, Chunked and Wire of the scanner, Forwarding of the headers,
--   Progress and Ends of the loop's end, Safe, SafeTurns and Replay of the replay.
-- - Handler: src/server/http_handler.cpp. Headers, Trace and Reading are the way of a request through
--   the gates of `handle_read`; Responses is `finalize_response`; Writing the plaintext send queue of
--   `handle_write`; Finishing and Composite are what follows an exchange; Polling is how long the
--   event loop sleeps, and Files src/server/content_type.cpp. Identity, Gates, Carried, Chunking,
--   Draining, Outcomes, Children and Joining are proofs.
-- - Routing: include/server/route_utils.h and `resolve_route` of src/server/http_handler.cpp.
-- - Auth: include/server/api_key_manager.h.
-- - Threads: src/server/pool.cpp and include/server/pool.h. Workers has the calls and the worker's
--   turn, System the steps of all threads and what holds of them.
-- - Cache: src/common/file_cache.cpp and src/common/fd_cache.cpp.
-- - Metrics: the counters of src/server/metrics.cpp; Histogram and Tags are proofs.
-- - Base: lists, byte strings, tables and signed numbers over the native numbers. Tests: runs at
--   concrete inputs.
--
-- An operation takes the state of its component and returns the new one; operations under a mutex
-- are single steps, and the connection budget, which has none, is a step relation with the atomic
-- operations of all threads in any order. Time is an argument of each operation. A `size_t` sum
-- that may pass 2^64 wraps as written. The token bucket's `double` is its exact value. A hash map
-- is a table walked in the table's order. `matchRoute` recurs on fuel, one more than the pattern
-- is long, and each round takes a segment off it; the loop that evicts from the descriptor cache
-- recurs on fuel, one more than the entries; both are proved never to run out. All other loops are
-- structural.
--
-- The answers of sockets, OpenSSL, the clock and the connection's probe are the input of each turn of
-- an exchange's loop, and any answers are allowed; a turn that would go round again without an
-- answer leaves the loop unfinished. The scanner of a chunked body recurs on fuel, a round for each
-- chunk, and a scan that has not ended on it has an outcome of its own. The writes of a send queue
-- are a list of what `writev` answers, and the events of a composite request a list in any order.
-- The thread pool is a step relation: its workers take their turns in any order.
--
-- Not modelled: sockets, epoll, TLS, the logger and the admin server, which are system and library
-- calls; gzip, which is a parameter of `finalize_response`; the text of the metrics; the JSON
-- loader of the configuration and the rest of a composite answer's JSON; `forward_request`, the
-- blocking form of an exchange; static files, `sendfile` and the TLS send loop of the HTTP handler;
-- `is_safe_static_path`, which stands on `std::filesystem`. The TCP probe of `check_health`,
-- `inet_pton` and the generated trace ids are parameters.
pub mod Base
pub mod Http
pub mod Handler
pub mod Config
pub mod Upstream
pub mod Pool
pub mod Limits
pub mod Auth
pub mod Cache
pub mod Logging
pub mod Client
pub mod Threads
pub mod Metrics
pub mod Routing
pub mod Tests
