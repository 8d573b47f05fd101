-- ===== src/Decider/Task.antt =====
-- The background task of a ranking decider (`run` of src/decider/least_latency/refresher.rs and of
-- src/decider/prefer_least_errors/refresher.rs), beside the decisions and the observer's calls that
-- it runs among.
use rpc_plus_plus.Prelude.Float.{Float}
use rpc_plus_plus.Prelude.Options.{◌>>=◌}
use rpc_plus_plus.Upstream.Call.{Duration}
use rpc_plus_plus.Upstream.Build.{Upstream}
use rpc_plus_plus.Observer.Metrics.{MetricsObserver, Observed, observe, snapshot_map}
use rpc_plus_plus.Decider.Window.{Window, Snapshots}
use rpc_plus_plus.Decider.LeastLatency.{least_latency, LeastLatency}
use rpc_plus_plus.Decider.LeastLatency
use rpc_plus_plus.Decider.LatencyRefresh.{LatencyRefresher}
use rpc_plus_plus.Decider.LatencyRefresh
use rpc_plus_plus.Decider.LeastErrors.{prefer_least_errors, PreferLeastErrors, RankingRefresher}
use rpc_plus_plus.Decider.LeastErrors
use rpc_plus_plus.Prelude.{
  none, ◌==◌, ℕ, Bool, false, Option, some, List, [], ◌∷◌, ◌++◌, if◌then◌else◌,
}

-- A decider over a ranking, with the refresher that replaces it.
pub record Refreshing : Type 1 where
  pub State : Type 0
  pub decide : State → ℕ → Option (List Upstream × State)
  pub ranking : State → List Upstream
  pub store : List Upstream → State → State
  pub Refresher : Type 0
  pub window : Refresher → Window
  pub interval : Refresher → Duration
  pub refresh : Refresher → Snapshots → List Upstream → Option (List Upstream × Refresher)

unfoldable pub by_latency : (f : Float) → f.F64 → Refreshing
unfolding LeastLatency.decide LatencyRefresh.refresh
by_latency f margin = record {
  State = LeastLatency;
  decide = LeastLatency.decide;
  ranking = λ d. d.ranking;
  store = λ us d. record d { ranking = us };
  Refresher = LatencyRefresher;
  window = λ r. r.window;
  interval = λ r. r.interval;
  refresh = LatencyRefresh.refresh f margin;
}

unfoldable pub by_errors : (f : Float) → f.F64 → Refreshing
unfolding LeastErrors.decide LeastErrors.refresh
by_errors f margin = record {
  State = PreferLeastErrors;
  decide = λ d max. some (LeastErrors.decide d max);
  ranking = λ d. d.ranking;
  store = λ us d. record d { ranking = us };
  Refresher = RankingRefresher;
  window = λ r. r.window;
  interval = λ r. r.interval;
  refresh = LeastErrors.refresh f margin;
}

-- What happens around a decider: a call of the observer, a decision, a tick of the timer, or the
-- shutdown.
pub data Moment : Type 0 where
  tells : Observed → Moment
  decides : ℕ → Moment
  ticks : Moment
  cancels : Moment

module _ (k : Refreshing) where
  pub record Live : Type 0 where
    pub observer : MetricsObserver
    pub decider : k.State
    pub refresher : k.Refresher
    pub is_running : Bool

  -- `self.refresh()`: it reads the observer and the ranking, and stores the new one.
  unfoldable pub on_tick : Live → Option Live
  on_tick l = k.refresh l.refresher (snapshot_map l.observer) (k.ranking l.decider) >>= λ done.
      some (record l { decider = k.store done.0 l.decider; refresher = done.1 })

  -- One moment, with the chain that was decided; the loop has returned once it is cancelled.
  unfoldable pub moment : Moment → Live → Option (List (List Upstream) × Live)
  unfolding on_tick observe
  moment (tells e) l = some ([], record l { observer = observe l.observer e })
  moment (decides max) l =
      k.decide l.decider max >>= λ decided. some (decided.0 ∷ [], record l { decider = decided.1 })
  moment ticks l = if l.is_running then (on_tick l >>= λ l'. some ([], l')) else some ([], l)
  moment cancels l = some ([], record l { is_running = false })

  -- The loop.
  unfoldable pub live : List Moment → Live → Option (List (List Upstream) × Live)
  unfolding moment
  live [] l = some ([], l)
  live (m ∷ ms) l =
      moment m l >>= λ here. (live ms here.1 >>= λ later. some (here.0 ++ later.0, later.1))

  -- `run`: `tokio::time::interval` panics on an interval of zero.
  unfoldable pub run : List Moment → Live → Option (List (List Upstream) × Live)
  unfolding live
  run ms l = if k.interval l.refresher == 0 then none else live ms l
