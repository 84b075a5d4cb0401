-- ===== src/Lib.antt =====
-- The reverse proxy's core: which server set a request gets, whether its header may be applied, and
-- which backend process serves it.
--
-- A request carries a token, which is verified (internal/auth), and, at choice, an x-mcp-config
-- header. The endpoint (internal/frontend) lets the requests of its own revision pass, and the
-- gateway that answers one is made of its subject's own backends. The header policy
-- (internal/policy) decides whether the header may be applied, the configuration (internal/config)
-- layers it over the deployment's servers, the policy judges the result, and the process pool
-- (internal/pool) keeps one backend for each subject and resolved server, within two limits. A
-- connection to a backend speaks one of two protocol eras, which the era policy (internal/backend)
-- settles, and many backends appear to the client as one (internal/aggregate).
--
-- Files, with the code that each models:
--   * Prelude and below: numbers, tests, lists, Go maps as association lists, sorting, Go's `int`.
--   * Auth/Claims: internal/auth/auth.go, `Subject`, `Subject.Key`, `Claims.HasScope`.
--   * Config/Types: the records of internal/config/config.go and header.go.
--   * Config/Env: `Env.Keys` of secret.go and `maps.Copy` on environments.
--   * Config/Validate: `validateServers` of config.go; Config/Validate/Laws: what it accepts.
--   * Config/Resolve: `apply` and `Resolve` of header.go; Merge and Laws below it.
--   * Policy: internal/policy/policy.go, `New`, `Scopes`, `CheckHeader`, `CheckResolved`; Decide,
--     Bounds and Advertised below it.
--   * Pool/Types, Pool/Entries, Pool/Ops: internal/pool/pool.go; Pool/Listeners: the subscription
--     part of internal/pool/backend.go; Pool/Counts and Pool/Eviction: lemmas on the entries;
--     Pool/Steps: histories of operations; Invariant, History, Outcomes, Evictions and Refusals
--     below Pool/Ops.
--   * Examples: the theorems at concrete inputs, and tests.
--   * Frontend/Request: internal/frontend/policy.go, `Resolve` and `refuse`, and `ParseHeader` of
--     internal/config/header.go; Served and Asked below it.
--   * Backend/Interpose: internal/backend/interpose.go; Traces, Probe and Outcome below it run its
--     steps in any order; Wires has its goroutines and channels, and Ordered, Answered, Among and
--     Refined below Wires say what they carry. Backend/Normalize: internal/backend/normalize.go.
--   * Aggregate/Name, Aggregate/Uri, Aggregate/Listen: name.go, uri.go and listen.go of
--     internal/aggregate; Route, RoundTrip, Cuts, Template and Stream below
--     them.
--   * Backend/Session and Backend/Connect: internal/backend/sdk.go, the requests of `sdkConnection` and
--     `Connect`; Conforming and Listed below Backend/Session.
--   * Backend/Types: the records and the interface of internal/backend/backend.go.
--   * Aggregate/Surface and Aggregate/Gateway: surface.go and gateway.go of internal/aggregate; Claims,
--     Assembled and Described, and Routed, Resources and Gathered below them.
--   * Auth/Words, Auth/Verify, Auth/Require, Auth/Metadata: what internal/auth uses of the strings
--     package, verify.go, middleware.go and metadata.go; Genuine below Auth/Verify.
--     Auth/Challenge: the answers of middleware.go that send a client to get a token.
--   * Config/Document and Config/File: the configuration file in internal/config/config.go, from its
--     text to its limits; Accepted and Parsed below Config/File. Config/Fingerprint:
--     internal/config/fingerprint.go; Distinguishes below it.
--   * Pool/Lifecycle: the process and the session of a backend in internal/pool/backend.go;
--     Invariant, Requests and Sessions below it. Pool/Handles: `For`, `acquire` and the methods of
--     `Handle` in internal/pool/pool.go; Shared below it. Pool/Stop: internal/pool/stop.go;
--     Escalates below it. Pool/Process: internal/pool/process.go; Environment below it.
--   * Frontend/Gate, Frontend/Tenant, Frontend/Answers: gate.go, tenant.go, and aggregate.go with
--     shape.go, of internal/frontend; Passed below the first; below the
--     second Isolated, and Pooled, where the sources are the pool's handles.
--   * Cmd/Flags: flags.go, and `loadKeys` and `parsePublicKey` of gateway.go, in
--     cmd/mcp-reverse-proxy; Keys below it. Cmd/Gateway: `build` of gateway.go with the handler that it
--     makes, and what that handler calls: `Load` of config.go and `Handler` of metadata.go; Admits
--     and Promises below it, and Serve, which is `serve` of gateway.go.
--
-- Conventions. A Go string is the list of its bytes. A Go map is an association list whose order
-- stands for the iteration order; Pool/Steps lets the order of the pool's map change at any time. A
-- nil error is `none`, and an error is a constructor with the values its text names; the texts are
-- left out. Operations of the pool hold its mutex, so each is one step, and the reading of the clock
-- is an argument. Times and lengths are unbounded numbers; the pool's counters wrap at 2^64; limits
-- are signed. An entry of the pool is an object with an address, so that a request can release it
-- after the pool has let go of it. `inflight` is a natural number: a release lowers it, and stops at
-- 0, where Go's `int` would go below; the code releases each entry once for each acquisition.
--
-- Loops are recursions over the list that the code ranges over, but for the loop of
-- `WrapURITemplate`: it runs on fuel, one more than the template has bytes, and a round takes two
-- bytes or more, or is the last; and for the loops of `strings.TrimSpace` and `strings.Fields`, on
-- the length of the text, of which each round takes a byte at least. The digits of a position in a
-- configuration file run on one unit more than the position, which has fewer digits.
--
-- The decoders of YAML, JSON, PEM and URLs, the JWT parser, the MAC, the file system, the mux, the
-- protocol SDK with its client session, its handshake and its encoder, and the behaviour of processes
-- and backends are parameters. A theorem that relies on what one of them does has that as a
-- hypothesis: ParsesWrapped of the URL parser, Documented of the JWT parser, that a MAC is made of
-- bytes, and that the protocol's code for invalid parameters is not the one that it retired.
--
-- Not modelled: the HTTP server, which takes steps as it pleases within its documentation, the
-- operating-system calls, the end of a connection, the goroutines that wait for a child and drain its
-- standard error, the way of a change from a backend to the streams (`publish` of
-- internal/pool/backend.go, `Listen` of internal/aggregate/listen.go, internal/frontend/listen.go),
-- the registration of handlers with the SDK (internal/frontend/sdk.go), logging, and the texts of
-- errors. The test fixtures (internal/testfixtures) are support code of the tests.
pub mod Aggregate
pub mod Auth
pub mod Backend
pub mod Cmd
pub mod Config
pub mod Examples
pub mod Frontend
pub mod Policy
pub mod Pool
pub mod Prelude
