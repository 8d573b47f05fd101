-- ===== src/Lib.antt =====
-- rpc-plus-plus: a JSON-RPC proxy in front of several upstreams, and what is proved of it.
--
-- A request comes in over HTTP and goes through the pipeline (src/proxy): its body is classified by
-- its first character, an idempotent read may share the call of an identical one in flight, a
-- decider (src/decider) chooses a chain of upstreams, and the chain is walked, raced with hedges, or
-- used for a single call. Each call of an upstream (src/upstream) is reported to the observer
-- (src/observer), whose counters the deciders read back through a window of snapshots.
--
-- Files, and the code that they are about:
-- - Prelude and below: numbers with Boolean tests, lists, options, results, texts, decimal digits,
--   association lists with Boolean keys and tables of them after a log, a stable sort and its laws,
--   and floating point as a parameter. Not about a file of the program.
-- - Jsonrpc: src/jsonrpc/mod.rs. `Shape` is `shape`, `Method` the lists of methods and
--   `method_label`, `Fault` is `rpc_fault_in` and
--   `FaultText` about it, `Dedup` is `dedup_key`, `Request` holds `request_id`,
--   `readdress` and `rpc_error_body`; `Libs` states what is used of memchr, serde_json and xxh3.
-- - Upstream: src/upstream. `Call` holds the types of src/upstream/call.rs, `Build` is
--   `Upstream::new` and `build_all`, `Read` is `Upstream::call`.
-- - Observer: src/observer. `Snapshot` is snapshot.rs, `Metrics` is `MetricsObserver` with one
--   function for each method of the trait, over those of `Record`; `Views` is its sorted readings.
--   `Histogram`, `Exposition` and `Collector` are prometheus.rs. `Tally`, `Growth`, `Score` and
--   `Ledger` are about what the counters hold of one upstream; `Logs`, `Tables`, `Outcomes`, `Moves`,
--   `Asked` and `Seen` what each table holds after a log of calls, and `Ordered` is about the order of
--   the readings. `Scrape` says what is to be scraped after such a log, `Scraped` and `Collected`
--   compare the collector with it, and `Described` compares it with its descriptors.
-- - Decider: src/decider. `Contract` is the trait, `RoundRobin`, `LeastLatency` and `Window` are the
--   files of these names, `LatencyRefresh` is least_latency/refresher.rs, `LatencyOrder` and
--   `LatencyRanking` about it;
--   `LeastErrors` is prefer_least_errors, `ErrorOrder` and `ErrorRanking` about it; `Spawn` is how both rankings start,
--   `Task` the loop of `run` in both refresher.rs beside what happens around it, over one interface
--   that both implement, and `Life` and `Spawned` are about it.
-- - Proxy: src/proxy. `Reply`, `Attempt` and `Hedge` are the files of these names, `Walk` is
--   `Core::walk` and `Core::send_once`, `SingleFlight` is singleflight/mod.rs and evict.rs,
--   `Pipeline` and `Coalesce` the rest of mod.rs. `WalkLaws`, `WalkEffects`, `HedgeLaws`,
--   `HedgeTurns`, `HedgeResult`, `HedgeSource`, `HedgeEnd`, `SingleFlightLaws`, `SingleFlightSteps`, `Flights` and
--   `Once` hold proofs. `Told` and `Request` are the observer's calls in one race and one request,
--   in their order; `Counts`, `TurnTold`, `RaceTold`, `RaceTallied` count them, `Traces` and
--   `RaceTraced` say which upstreams they name, and `RaceTells`, `WalkTold` and `Served` compare them
--   with what came of the race, the walk and the request. `Answers` puts the decider, the race and the replies together.
-- - Config: src/config.rs. `Settings` holds the structs, `Expand` is `expand_str` and `expand_env`,
--   `Validate` the validation, `Checked` is about it, and `Load` is `get_settings`.
-- - Http: src/http. `Cors` is cors.rs, `Routes` is mod.rs, healthz.rs and metrics.rs.
-- - App: src/app.rs. `Wiring` is `build_decider`, `Application::new` and `build`; `Deciders` is about
--   the chosen decider, `Started` about the application that is built.
-- - Tests: the theorems at concrete inputs, with concrete functions for the crates.
--
-- Modelling. State is passed explicitly. Counters wrap at 2^64 as the atomics do; durations are
-- nanoseconds. An index out of range, an `expect`,
-- a `Duration` that overflows and an interval of zero are outcomes of their own (`none`, `panics`),
-- so that a theorem can say that they do not happen. What the network answers is an argument: the
-- attempts of a walk are a function of their number and upstream, and a race is driven by a list of
-- events that name the call that completes or say that the timer fires. A future runs only once it
-- is polled: a call of a race that is dropped before that has started nothing and reports nothing.
-- The numbers of the flights wrap at 2^64. The flights of
-- `SingleFlight` are a step relation, since their handles are dropped at any time.
--
-- Fuel. A race needs no fuel of its own: it consumes its events, and twice its limit and one more of
-- them are enough. `digits` of Prelude.Decimal has one more than its number, which is enough for
-- all digits. `expand_str` has one more than the length of its text, which is enough as well.
--
-- Not modelled: log lines and spans, the HTTP server and its middleware, the construction of the
-- HTTP client, timers as wall-clock time, the Prometheus registry and its text encoder, what the
-- config crate does with a file, the serving until a signal (`run_until_stopped` and src/main.rs),
-- and src/telemetry.rs. Of concurrency, only the order of the operations is modelled.
pub mod Prelude
pub mod Jsonrpc
pub mod Upstream
pub mod Observer
pub mod Decider
pub mod Proxy
pub mod Tests
pub mod Config
pub mod Http
pub mod App
