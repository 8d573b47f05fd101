-- ===== src/App/Started.antt =====
-- `build` of src/app.rs: validated settings start, and what they start.
use rpc_plus_plus.Prelude.Results.{ok}
use rpc_plus_plus.Upstream.Call.{from_secs}
use rpc_plus_plus.Upstream.Build.{Upstream, ProxySettings, UpstreamSettings, described, build_all}
use rpc_plus_plus.Observer.Metrics.{MetricsObserver}
use rpc_plus_plus.Observer.Metrics as Observer
use rpc_plus_plus.Observer.Collector as Exporter
use rpc_plus_plus.Observer.Collector.{Descs, Collector}
use rpc_plus_plus.Proxy.SingleFlight.{fresh}
use rpc_plus_plus.Proxy.Pipeline
use rpc_plus_plus.Proxy.Pipeline.{Pipeline, Core, sequential, hedged}
use rpc_plus_plus.Config.Settings.{Settings}
use rpc_plus_plus.Config.Validate.{Http, validate_settings}
use rpc_plus_plus.Config.Checked.{validate_settings-builds, validate_settings-parts}
use rpc_plus_plus.Http.Cors.{layer, asked_layer, layer-validate_cors}
use rpc_plus_plus.Http.Routes.{build_router}
use rpc_plus_plus.App.Wiring.{AnyDecider, Outside, Application, address, new, build}
use rpc_plus_plus.App.Deciders.{first_decider, first_tasks, build_decider-first}
use rpc_plus_plus.Prelude.{
  ℕ, ◌<◌, ◌≡◌, refl, false, none, some, List, [], ◌∷◌, ◌++◌, map, arith, ◌==◌, if◌then◌else◌,
  is_empty,
}

-- The upstreams that the settings describe, and an observer of them.
abbrev pub upstreams_of : Settings → List Upstream
upstreams_of s = map (described s.application.proxy) s.upstreams

abbrev pub observer_of : Settings → MetricsObserver
observer_of s = Observer.new (map (λ (u : Upstream). u.id) (upstreams_of s))

-- The pipeline that the settings ask for.
abbrev pub pipeline_of : Settings → Pipeline AnyDecider
pipeline_of s =
    let proxy = s.application.proxy in
    record {
      core = record {
        decider = first_decider s.decider (upstreams_of s);
        observer = observer_of s;
        max_attempt = proxy.max_attempt;
        retry_after = from_secs proxy.retry_after_in_secs;
        dispatch = if proxy.hedge.enabled then hedged else sequential;
      };
      flights = if proxy.dedup.enabled then some fresh else none;
    }

is_empty-map :
    (proxy : ProxySettings) (items : List UpstreamSettings)
    → is_empty items ≡ false
    → is_empty (map (described proxy) items) ≡ false
is_empty-map proxy [] h = absurd (ground arith)
is_empty-map proxy (item ∷ items) h = refl

module _ (p : Descs) (outside : Outside p) (s : Settings) where
  -- What the other crates did at the start.
  pub record IsUp (c : Collector p) (listener port : ℕ) : Type 0 where
    pub client : outside.client ≡ ok tt
    pub collector : Exporter.new p (observer_of s) ≡ ok c
    pub registered : outside.register c ≡ ok tt
    pub bound : outside.bind (address p s.application) ≡ ok listener
    pub known : outside.local_port listener ≡ ok port

  -- The application that the settings ask for.
  abbrev pub application_of : Collector p → ℕ → ℕ → Application p
  application_of c listener port = record {
    pipeline = pipeline_of s;
    collector = c;
    routes = build_router (asked_layer s.application.cors);
    listener = listener;
    port = port;
    tasks =
        first_tasks s.decider (observer_of s) (from_secs s.application.proxy.rpc_timeout_in_secs)
        ++ [];
  }

  new-application_of :
      (http : Http) (c : Collector p) (listener port : ℕ)
      → layer http s.application.cors ≡ ok (asked_layer s.application.cors)
      → 0 < s.application.proxy.max_attempt
      → IsUp c listener port
      → new p http outside s.application
          (observer_of s)
          (first_decider s.decider (upstreams_of s))
          (first_tasks s.decider (observer_of s) (from_secs s.application.proxy.rpc_timeout_in_secs)
            ++ [])
        ≡ ok (application_of c listener port)
  unfolding new Pipeline.new
  new-application_of http c listener port cors some_attempt up =
      let positive : (s.application.proxy.max_attempt == 0) ≡ false = ground arith in
      rw (up.collector, up.registered, positive, cors, up.bound, up.known, new, Pipeline.new) refl

  -- Settings that pass the validation start, given a timeout, a cap on bodies and a number of
  -- attempts that are not 0, and other crates that do their part: the application serves with the
  -- decider of the settings over exactly their upstreams in order, hedges and shares calls exactly
  -- where the settings say so, reports to an observer of these upstreams, which is also the
  -- one that is collected, puts the cross-origin
  -- layer that they ask for on the rpc route, and runs the task that the decider needs.
  pub build-application_of :
      (http : Http) (c : Collector p) (listener port : ℕ)
      → validate_settings http s ≡ ok tt
      → 0 < s.application.proxy.rpc_timeout_in_secs
      → 0 < s.application.proxy.max_response_bytes
      → 0 < s.application.proxy.max_attempt
      → IsUp c listener port
      → build p http outside s ≡ ok (application_of c listener port)
  unfolding build
  build-application_of http c listener port valid timeout bytes attempts up =
      let (some_there, valid_cors) = validate_settings-parts http s valid in
      let built : build_all s.application.proxy s.upstreams ≡ ok (upstreams_of s) =
        (validate_settings-builds http s valid).1 timeout bytes in
      let decided =
        build_decider-first s.decider (upstreams_of s) []
          (from_secs s.application.proxy.rpc_timeout_in_secs)
          (is_empty-map s.application.proxy s.upstreams some_there) in
      rw (up.client, built, decided, build)
        (new-application_of http c listener port
          (layer-validate_cors http s.application.cors valid_cors) attempts up)
