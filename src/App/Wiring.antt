-- ===== src/App/Wiring.antt =====
-- src/app.rs: the decider of the settings, and the application built out of its parts. What the other
-- crates do at the start (the HTTP client, the registry, the socket) is an argument.
use rpc_plus_plus.Prelude.Results.{Result, ok, ◌>>=◌, map_err}
use rpc_plus_plus.Prelude.Text.{Text, codes}
use rpc_plus_plus.Prelude.Decimal.{show_nat}
use rpc_plus_plus.Upstream.Call.{Duration, from_secs}
use rpc_plus_plus.Upstream.Build.{Upstream, BuildAllError, build_all}
use rpc_plus_plus.Observer.Metrics.{MetricsObserver}
use rpc_plus_plus.Observer.Metrics as Observer
use rpc_plus_plus.Observer.Collector as Exporter
use rpc_plus_plus.Observer.Collector.{Descs, Collector}
use rpc_plus_plus.Decider.Contract.{Decider}
use rpc_plus_plus.Decider.RoundRobin.{RoundRobin}
use rpc_plus_plus.Decider.RoundRobin
use rpc_plus_plus.Decider.LeastLatency.{LeastLatency}
use rpc_plus_plus.Decider.LeastLatency
use rpc_plus_plus.Decider.LatencyRefresh.{LatencyRefresher}
use rpc_plus_plus.Decider.LeastErrors.{PreferLeastErrors, RankingRefresher}
use rpc_plus_plus.Decider.LeastErrors
use rpc_plus_plus.Decider.Spawn
use rpc_plus_plus.Decider.Spawn.{
  spawn_least_latency, spawn_prefer_least_errors, refresh_default, window_default,
  min_window_samples,
}
use rpc_plus_plus.Proxy.Pipeline
use rpc_plus_plus.Proxy.Pipeline.{Pipeline, Dispatch, sequential, hedged}
use rpc_plus_plus.Config.Settings.{DeciderKind, ApplicationSettings, Settings}
use rpc_plus_plus.Config.Validate.{Http}
use rpc_plus_plus.Http.Cors.{layer}
use rpc_plus_plus.Http.Routes.{Route, build_router}
use rpc_plus_plus.Prelude.{
  ℕ, true, Option, none, some, List, [], ◌∷◌, ◌++◌, map, if◌then◌else◌, length,
}

-- `Arc<dyn Decider>`, with the implementations that `build_decider` chooses from.
pub data AnyDecider : Type 0 where
  round_robin : RoundRobin → AnyDecider
  prefer_least_errors : PreferLeastErrors → AnyDecider
  least_latency : LeastLatency → AnyDecider

unfoldable pub decide : AnyDecider → ℕ → Option (List Upstream × AnyDecider)
decide (round_robin d) max =
    let (chain, d') = RoundRobin.decide d max in some (chain, round_robin d')
decide (prefer_least_errors d) max =
    let (chain, d') = LeastErrors.decide d max in some (chain, prefer_least_errors d')
decide (least_latency d) max = elim (LeastLatency.decide d max) [
  | none ↦ none
  | some (chain, d') ↦ some (chain, least_latency d')
]

-- The upstreams of a decider, in its order.
abbrev pub pool_of : AnyDecider → List Upstream
pool_of (round_robin d) = d.upstreams
pool_of (prefer_least_errors d) = d.ranking
pool_of (least_latency d) = d.ranking

abbrev pub any_decider : Decider
unfolding decide
any_decider = record {
  State = AnyDecider;
  decide = decide;
  upstream_len = λ d. length (pool_of d);
  ready = λ d. true;
}

-- A task that refreshes a decider until the shutdown.
pub data Task : Type 0 where
  refresh_by_errors : RankingRefresher → Task
  refresh_by_latency : LatencyRefresher → Task

pub data DeciderError : Type 0 where
  no_round_robin : RoundRobin.BuildError → DeciderError
  not_spawned : Spawn.BuildError → DeciderError

-- The decider with the tasks, to which it may add its own.
unfoldable pub build_decider :
    DeciderKind
    → List Upstream
    → MetricsObserver
    → List Task
    → Duration
    → Result (AnyDecider × List Task) DeciderError
build_decider DeciderKind.round_robin upstreams observer tasks rpc_timeout = do
  d ← map_err no_round_robin (RoundRobin.new upstreams)
  ok (round_robin d, tasks)
build_decider DeciderKind.prefer_least_errors upstreams observer tasks rpc_timeout = do
  spawned ←
      map_err not_spawned
        (spawn_prefer_least_errors observer upstreams refresh_default window_default)
  ok (prefer_least_errors spawned.0, refresh_by_errors spawned.1 ∷ tasks)
build_decider DeciderKind.least_latency upstreams observer tasks rpc_timeout = do
  spawned ← map_err not_spawned (
      spawn_least_latency observer upstreams rpc_timeout refresh_default window_default
        min_window_samples)
  ok (least_latency spawned.0, refresh_by_latency spawned.1 ∷ tasks)

-- The other crates at the start: the client that is built, whether the registry takes the collector,
-- and the socket that is bound, with its port.
pub record Outside (p : Descs) : Type 0 where
  pub client : Result (Unit {0}) Text
  pub register : Collector p → Result (Unit {0}) Text
  pub bind : Text → Result ℕ Text
  pub local_port : ℕ → Result ℕ Text

module _ (p : Descs) where
  pub data StartError : Type 0 where
    no_client : Text → StartError
    no_upstreams : BuildAllError → StartError
    no_decider : DeciderError → StartError
    no_collector : p.Error → StartError
    not_registered : Text → StartError
    no_pipeline : Pipeline.BuildError → StartError
    no_cors : Text → StartError
    not_bound : Text → StartError
    no_address : Text → StartError

  pub record Application : Type 0 where
    pub pipeline : Pipeline AnyDecider
    pub collector : Collector p
    pub routes : List Route
    pub listener : ℕ
    pub port : ℕ
    pub tasks : List Task

  abbrev pub address : ApplicationSettings → Text
  unfolding show_nat
  address settings = settings.host ++ (codes ":" ++ show_nat settings.port)

  -- `Application::new`.
  unfoldable pub new :
      Http
      → Outside p
      → ApplicationSettings
      → MetricsObserver
      → AnyDecider
      → List Task
      → Result Application StartError
  unfolding Exporter.new Pipeline.new layer build_router
  new http outside settings observer decider tasks = do
    collector ← map_err no_collector (Exporter.new p observer)
    registered ← map_err not_registered (outside.register collector)
    pipeline ← map_err no_pipeline (
        Pipeline.new decider observer (some settings.proxy.max_attempt)
          (some (from_secs settings.proxy.retry_after_in_secs))
          (some (if settings.proxy.hedge.enabled then hedged else sequential))
          (some settings.proxy.dedup.enabled))
    cors ← map_err no_cors (layer http settings.cors)
    listener ← map_err not_bound (outside.bind (address settings))
    port ← map_err no_address (outside.local_port listener)
    ok (record {
      pipeline = pipeline;
      collector = collector;
      routes = build_router cors;
      listener = listener;
      port = port;
      tasks = tasks;
    })

  -- `build`.
  unfoldable pub build : Http → Outside p → Settings → Result Application StartError
  unfolding build_all Observer.new build_decider new
  build http outside settings = do
    client ← map_err no_client outside.client
    upstreams ← map_err no_upstreams (build_all settings.application.proxy settings.upstreams)
    let observer = Observer.new (map (λ (u : Upstream). u.id) upstreams)
    decided ← map_err no_decider (
        build_decider settings.decider upstreams observer []
          (from_secs settings.application.proxy.rpc_timeout_in_secs))
    new http outside settings.application observer decided.0 decided.1
