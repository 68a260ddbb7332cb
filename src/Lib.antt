-- ===== src/Lib.antt =====
-- Verification of WarpDeck's server, crates/warpdeck-server: a manager of many Cloudflare WARP
-- instances behind one SOCKS5 and HTTP proxy gateway.
--
-- The program. Each instance is a `warp-svc` process with a D-Bus daemon of its own. The instance manager
-- (runtime/manager.rs) starts, stops, restarts and deletes instances: a start polls the control
-- plane (readiness.rs), runs the registration and connect flow (flow.rs) and verifies the data plane;
-- a stop follows the order of stop.rs. What is known of an instance is its entry in the runtime
-- registry (registry.rs). The health monitor (health_monitor.rs, health.rs) assesses running instances
-- in rounds and moves them between Healthy, Degraded and Failed; a crash watcher marks them Failed.
-- The gateway (gateway/) accepts SOCKS5 and HTTP clients, checks the allowlist, the credentials and
-- the limits, and forwards a session to a Healthy instance that the round-robin pool picks. The
-- reconciler drives the manager from the desired state in the database; the API edits that state.
--
-- Files and code, all paths below crates/warpdeck-server/src:
--   Runtime/Instance       runtime/instance.rs and the ports of config.rs
--   Runtime/Backoff        runtime/backoff.rs
--   Runtime/Message        the texts of errors and events, a constructor for each format string
--   Runtime/Registry       runtime/registry.rs: `RuntimeRegistry`, its operations by their names
--   Runtime/Health         runtime/health.rs, `DataPlaneReport` of runtime/probe/mod.rs
--   Runtime/Events         runtime/events.rs: the bus is the list of the events published so far
--   Runtime/Monitor        runtime/health_monitor.rs, `collect_health_layers` and `apply_health_verdict`
--   Runtime/Credentials    runtime/credentials.rs
--   Runtime/Mdm            runtime/mdm.rs: the text of `mdm.xml`
--   Runtime/Trace          runtime/probe/trace.rs
--   Runtime/Probe          runtime/probe/socks5.rs: the client of the data plane's probe
--   Runtime/Host           the traits `WarpControl`, `Clock`, `ProcessSpawner`, `PortProber`,
--                          `DataPlaneProber`, `CredentialResolver` and the file calls, as one record:
--                          a call maps the world to an answer and the next world. Host/Logged is a
--                          host that writes the calls down; the rules about calls are stated on it.
--   Runtime/Readiness      runtime/readiness.rs
--   Runtime/Flow           runtime/flow.rs: `run` and its stages
--   Runtime/Stop           runtime/stop.rs: `GracefulStop::stop`
--   Runtime/Manager        runtime/manager.rs: Manager/Run is `do_start` stage by stage, Manager/Lifecycle
--                          `do_stop` and start, stop, restart, delete, `stop_all`; `handle_crash` is
--                          what a crash watcher does with its event
--   Gateway/Pool           gateway/pool.rs and the clones that the accept loops make of it
--   Gateway/Net            net.rs and `client_allowed` of gateway/mod.rs
--   Gateway/Auth           `ct_eq` and `verify_credentials` of gateway/mod.rs
--   Gateway/Socks5         gateway/socks5.rs: addresses, the request to an upstream, and in
--                          Socks5/Session `handle_conn` stage by stage
--   Gateway/Supervision    gateway/mod.rs: `run_with_ready` in two steps a pass, `apply_config`, `status`, `stop`
--   Gateway/Limits         gateway/limits.rs: the token bucket and the permits
--   Gateway/Http           gateway/http.rs: its parsers, Http/Base64 the token's encoder, Http/Session
--                          `handle_conn`, Http/Dial `dial_socks5` by the bytes on the wire
--   Access/RateLimit       auth/rate_limit.rs
--   Access/Session         auth/session.rs and auth/repos.rs: the tables `sessions` and `users`
--   Access/Guard           api/middleware.rs: `auth_guard`
--   Access/Login           api/auth.rs: `login`, `logout`; Access/Setup is api/setup.rs
--   Logs/Tail              runtime/logs.rs: `read_tail`, the pages of a log file
--   Logs/Follow            runtime/log_tail.rs: `tail_watcher_loop` pass by pass; Follow/Lines has the
--                          splitting into lines, Follow/Appended one pass over a file that has grown
--   Desired                db/repo.rs over the tables of migrations/: `WarpInstanceSpec`, the statements
--                          and transactions on `warp_instances`; Desired/Config is the row of
--                          `proxy_config`
--   Desired/Profiles       db/profiles.rs, with the edit of api/accounts.rs and its transaction in
--                          db/uow.rs
--   Reconcile              reconciler/mod.rs: `reconcile_instance`, `record_failure`, `reconcile_once`;
--                          Reconcile/Proxy is `sync_proxy`. The runtime is the interface `WarpRuntime`,
--                          which Reconcile/Managed fills with the instance manager, and the gateway is
--                          `ProxyApplier`, which `builtin` fills with Gateway/Supervision.
--   Prelude                shared names, lists, maps, fixed-width numbers, functions on texts
--   the modules named Tests hold tests, and the theorems at concrete inputs
--
-- How it is modelled. Locks are not: an operation that holds a lock is one function, and what other
-- tasks do between two critical sections is an argument (`meanwhile`). A task that waits is a call of
-- `Host.sleep`. Durations are nanoseconds, texts are code points or bytes, `u32` counters saturate
-- as in the source, `as u8` wraps. A join of a watcher task is taken not to fail.
--
-- Bounds and fuel. The two polling loops of flow.rs take fuel. They poll every 2 seconds up to 60
-- and 90 seconds; 47 rounds are enough on a clock that does not turn back (`IsClock`). The
-- blocks of a log file are read with one round for each of its bytes and one more, where each round but the
-- last moves on. All other loops recur on a counter or a list of the source.
--
-- Parameters. What `warp-cli`, the processes, the file system and the clock answer is a `Host`. In the
-- gateway the standard library's parsers of addresses, the decoding of UTF-8, the white space of Unicode,
-- the limits' answer and the dial of an upstream are parameters; for the reconciler they are the
-- parser and the printer of times and the secret store's answer; for the logins those of times, the
-- check of a password and the random texts; for the log files the decoding with the redaction. SQLite
-- answers every statement, but for the list that a round begins with.
--
-- Not modelled: the restart of a gateway loop that panics, the crash watcher's polling and the
-- transactions of db/uow.rs with secrets in them, which are planned; and process spawning, the driver of
-- SQLite, cryptography, the names of the log sources and their bus, the web API's routing, the web
-- console and the build tasks, which are input and output or calls of libraries. The arithmetic of
-- the token bucket's floating-point numbers is a parameter.
pub mod Prelude
pub mod Runtime
pub mod Gateway
pub mod Access
pub mod Desired
pub mod Reconcile
pub mod Logs
