-- ===== src/Decider/Spawned.antt =====
-- The ranking deciders with their tasks from their start (`spawn` of src/decider/least_latency/mod.rs
-- and src/decider/prefer_least_errors/mod.rs).
use mathlib.Core.List.{Perm}
use mathlib.Core.List.Perm
use rpc_plus_plus.Prelude.Float.{Float}
use rpc_plus_plus.Prelude.Results.{ok, >>=-eq-ok, ok_inj}
use rpc_plus_plus.Prelude.Sort.{sort_by, sort_by-perm}
use rpc_plus_plus.Prelude.Words.{◌+u64◌}
use rpc_plus_plus.Upstream.Call.{Duration}
use rpc_plus_plus.Upstream.Build.{Upstream}
use rpc_plus_plus.Observer.Metrics.{MetricsObserver, snapshot_map}
use rpc_plus_plus.Decider.Window.{Snapshots, advance, new-Holds, kept, duration_bound}
use rpc_plus_plus.Decider.LeastLatency
use rpc_plus_plus.Decider.LeastLatency.{LeastLatency, order_of-perm}
use rpc_plus_plus.Decider.LatencyRefresh
use rpc_plus_plus.Decider.LatencyRefresh.{LatencyRefresher}
use rpc_plus_plus.Decider.LeastErrors
use rpc_plus_plus.Decider.LeastErrors.{PreferLeastErrors, RankingRefresher}
use rpc_plus_plus.Decider.Spawn.{checks, spawn_least_latency, spawn_prefer_least_errors}
use rpc_plus_plus.Decider.Window
use rpc_plus_plus.Decider.Task.{Refreshing, by_latency, by_errors, Moment, Live, live, run}
use rpc_plus_plus.Decider.Life.{IsRefreshing, Serves, live-Serves}
use rpc_plus_plus.Prelude.{
  ◌<◌, ◌*◌, none, some, arith, false, ◌==◌, if◌then◌else◌, ◌∙◌, ℕ, ◌≡◌, refl, ap, subst, Bool, true,
  List, [], ◌∷◌, map, take,
}

pair_upstreams :
    {K : Type 0} (key : Upstream → K) (us : List Upstream)
    → map (λ (s : Upstream × K). s.0) (map (λ u. (u, key u)) us) ≡ us
pair_upstreams key [] = refl
pair_upstreams key (u ∷ us) = ap (◌∷◌ u) (pair_upstreams key us)

-- The upstreams sorted by keys.
sorted-perm :
    {K : Type 0} (le : Upstream × K → Upstream × K → Bool) (key : Upstream → K) (us : List Upstream)
    → Perm (map (λ (s : Upstream × K). s.0) (sort_by le (map (λ u. (u, key u)) us))) us
sorted-perm le key us =
    subst (Perm (map (λ s. s.0) (sort_by le (map (λ u. (u, key u)) us)))) (pair_upstreams key us)
      (Perm.map _ (sort_by-perm le (map (λ u. (u, key u)) us)))

-- The task starts, and serves.
abbrev pub RunsAndServes :
    (k : Refreshing) → List Upstream → List Moment → Live k → List Snapshots → Type 0
RunsAndServes k us ms l history =
    (serves : Serves k us ms l history) × (run k ms l ≡ some (serves.chains, serves.end))

runs :
    (k : Refreshing) (us : List Upstream) (ms : List Moment) (l : Live k) (history : List Snapshots)
    → 0 < k.interval l.refresher
    → Serves k us ms l history
    → RunsAndServes k us ms l history
unfolding run
runs k us ms l history positive serves =
    let ticking : (k.interval l.refresher == 0) ≡ false = ground arith in
    (serves, ap (λ b. if b then none else live k ms l) ticking ∙ serves.lives)

module _ (f : Float) (margin : f.F64) where
  by_latency-IsRefreshing : IsRefreshing (by_latency f margin)
  unfolding by_latency LeastLatency.decide LatencyRefresh.refresh LatencyRefresh.rank
  by_latency-IsRefreshing = record {
    decided = λ d max.
        let (order, e, p) = order_of-perm d.requests d.ranking in
        (
          take max order,
          record d { requests = d.requests +u64 1 },
          rw (e, LeastLatency.decide),
          (order, p, refl),
          Perm.refl _,
        );
    stored = λ us d. refl;
    refreshed = λ r current baseline us e spans. (
      map (λ s. s.0) (LatencyRefresh.rank f margin r current baseline us),
      record r { window = advance current r.window },
      rw (e, spans.0.1, spans.1.1, LatencyRefresh.refresh) refl,
      sorted-perm (LatencyRefresh.pair_le f margin)
          (λ u. LatencyRefresh.key_of f margin r current baseline us u) us,
      refl,
    );
  }

  by_errors-IsRefreshing : IsRefreshing (by_errors f margin)
  unfolding by_errors LeastErrors.decide LeastErrors.refresh LeastErrors.rank
  by_errors-IsRefreshing = record {
    decided = λ d max. (take max d.ranking, d, refl, (d.ranking, Perm.refl _, refl), Perm.refl _);
    stored = λ us d. refl;
    refreshed = λ r current baseline us e spans. (
      map (λ s. s.0) (LeastErrors.rank f margin r current baseline us),
      record r { window = advance current r.window },
      rw (e, spans.0.1, spans.1.1, LeastErrors.refresh) refl,
      sorted-perm (LeastErrors.pair_le f margin)
          (λ u. LeastErrors.key_of f margin r current baseline us u) us,
      refl,
    );
  }

  -- A decider with its task and the observer of both, at their start.
  abbrev pub started_by_latency :
      MetricsObserver → LeastLatency × LatencyRefresher → Live (by_latency f margin)
  unfolding by_latency
  started_by_latency o (d, r) = record {
    observer = o;
    decider = d;
    refresher = r;
    is_running = true;
  }

  abbrev pub started_by_errors :
      MetricsObserver → PreferLeastErrors × RankingRefresher → Live (by_errors f margin)
  unfolding by_errors
  started_by_errors o (d, r) = record {
    observer = o;
    decider = d;
    refresher = r;
    is_running = true;
  }

  -- A latency decider that was spawned serves from then on, whatever decisions, refreshes, calls of
  -- the observer and shutdown come, and in whatever order: nothing panics, each decision is a chain
  -- of exactly the given upstreams, the ranking stays an arrangement of them, the observer holds what
  -- it was told, and the window holds the last snapshots that the refreshes took before the shutdown.
  -- The interval must not be zero, and the window be no longer than a `Duration` holds.
  pub spawn_least_latency-Serves :
      (o : MetricsObserver) (us : List Upstream) (penalty refresh : Duration) (window samples : ℕ)
      (started : LeastLatency × LatencyRefresher) (ms : List Moment)
      → 0 < refresh
      → refresh * kept window < duration_bound
      → spawn_least_latency o us penalty refresh window samples ≡ ok started
      → RunsAndServes
          (by_latency f margin)
          us
          ms
          (started_by_latency o started)
          (snapshot_map o ∷ [])
  unfolding spawn_least_latency by_latency Window.new
  spawn_least_latency-Serves o us penalty refresh window samples started ms positive fits h =
      let (passed, e, g) = >>=-eq-ok (checks o us window) _ h in
      subst
        (λ x.
          RunsAndServes (by_latency f margin) us ms (started_by_latency o x) (snapshot_map o ∷ []))
        (ok_inj g)
        (runs (by_latency f margin) us ms _ (snapshot_map o ∷ []) positive (
          live-Serves (by_latency f margin) by_latency-IsRefreshing us ms _ (snapshot_map o ∷ [])
            (Perm.refl us) (new-Holds (snapshot_map o) window refresh) fits))

  -- A decider by errors that was spawned serves in the same way.
  pub spawn_prefer_least_errors-Serves :
      (o : MetricsObserver) (us : List Upstream) (refresh : Duration) (window : ℕ)
      (started : PreferLeastErrors × RankingRefresher) (ms : List Moment)
      → 0 < refresh
      → refresh * kept window < duration_bound
      → spawn_prefer_least_errors o us refresh window ≡ ok started
      → RunsAndServes (by_errors f margin) us ms (started_by_errors o started) (snapshot_map o ∷ [])
  unfolding spawn_prefer_least_errors by_errors Window.new
  spawn_prefer_least_errors-Serves o us refresh window started ms positive fits h =
      let (passed, e, g) = >>=-eq-ok (checks o us window) _ h in
      subst
        (λ x.
          RunsAndServes (by_errors f margin) us ms (started_by_errors o x) (snapshot_map o ∷ []))
        (ok_inj g)
        (runs (by_errors f margin) us ms _ (snapshot_map o ∷ []) positive (
          live-Serves (by_errors f margin) by_errors-IsRefreshing us ms _ (snapshot_map o ∷ [])
            (Perm.refl us) (new-Holds (snapshot_map o) window refresh) fits))
