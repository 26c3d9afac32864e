-- ===== src/Lib.antt =====
-- Lite2API, a gateway that offers one interface to many upstream model accounts. A request is
-- authenticated by a client key, its requirements are read from its body, the scheduler selects an
-- account and takes a lease of it, and what happened is reported to the account's circuit breaker
-- and to the statistics. Administrators change accounts, routes and keys at run time.
--
-- Parts and files:
--   * Common: Boolean tests, lists over native numbers, integers, Go maps as association lists, the
--     functions of package strings, sorting.
--   * Config (internal/config): Types has the structs, Resolve and Operations the lookups, Capabilities
--     is InferCodexCapabilities, Evidence is capability_evidence.go. Server has the settings of the
--     server, Validate is Config.Validate as a list of parts whose first error counts, with the
--     parts for accounts and routes in Accounts and Routes.
--   * Requirements (internal/gateway/request_requirements.go): operation checks, requirementsCompatible,
--     resolveRequestedReasoning.
--   * Runtime (internal/gateway/runtime.go): Capacity is the counter of leases with its
--     compare-and-swap loop as single accesses of interleaved goroutines; Breaker is breakerRuntime;
--     State is the heap of counters and health histories that several configuration generations
--     share; Health has the methods of AccountRuntime; Order, Targets and Select are trySelect; Wait is
--     SelectForRequest; Reload is NewSchedulerWithPrevious and the end of a selection.
--   * Continuation (internal/gateway/continuation.go): ValidateContinuation.
--   * ClientKeys (internal/gateway/clientkeys.go): Validate is buildClientKeyMeta, Access is
--     Authenticate, acquireRPM and Complete, Manage is Create, Update and Delete.
--   * AdminAuth (internal/gateway/adminauth.go): sessions and failed logins; Access is authenticate.
--   * Stats (internal/gateway/stats.go): Truncate and Records are the text budgets, Routes is the
--     latest observation of every route. Ring is the buffer of the recent requests, Trend the
--     buckets of one minute, Recent has Record and Snapshot.
--   * Completion: the inspection of a streamed response. Feed (internal/gateway/response_completion.go)
--     divides the bytes into events; Chat, Responses and Messages
--     (internal/gateway/completion_stream_contract.go) are the contracts of the three protocols as
--     functions from a decoded event and a state to a state or an error; Contract and Calls are what
--     they share.
--   * Gateway (internal/gateway/gateway.go): Budget is the memory that bodies may take, Failover the
--     loop of attempts of ServeGateway, with a Run as the record of what it has done so far.
--
-- How state corresponds: pointers are indices into the heap or into the store's list; a Go map is an
-- association list whose order stands for one order of iteration; an atomic operation is one step,
-- and where no interleaving is modelled a locked section is one function from state to state. Times
-- are read once and passed in. Go's int is an integer without wrap-around where the source bounds it;
-- the packed rate word, the hash and the session generation wrap at their widths. No definition
-- needs fuel: every loop goes over a list, the compare-and-swap loops are steps of a schedule, and a
-- request that waits goes over the rounds in which it is woken.
--
-- Left open, as arguments: SHA-256, hexadecimal and RFC 3339 parsing, the environment, random
-- tokens, float64 in the load order, whether a file could be written, the parsing of URLs, networks
-- and file paths, the decoding of JSON (events arrive decoded, field by field) and the tests on the
-- JSON of tool arguments. The loop of attempts takes what the scheduler, the rewriting of the body and
-- the upstream answer in every round; the second call that doUpstreamWithOAuthRecovery may make on
-- the same account is part of one answer. Not modelled: HTTP handling, the copying of streams, the
-- inspection of bodies that are not streamed, adapters, request logs, the web interface.
pub mod Common
pub mod Config
pub mod Requirements
pub mod Stats
pub mod Runtime
pub mod ClientKeys
pub mod AdminAuth
pub mod Continuation
pub mod Completion
pub mod Gateway
