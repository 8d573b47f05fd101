-- ===== src/Observer/Collector.antt =====
-- The collector of src/observer/prometheus.rs: its descriptors, and the families that a scrape of
-- the observer collects. `Desc` is the prometheus crate's.
use rpc_plus_plus.Prelude.Results.{Result, ok, ◌>>=◌}
use rpc_plus_plus.Prelude.Words.{◌+u64◌}
use rpc_plus_plus.Prelude.Float.{Float}
use rpc_plus_plus.Prelude.Text.{Text, codes}
use rpc_plus_plus.Observer.Snapshot.{HedgeStats, RequestStats}
use rpc_plus_plus.Observer.Metrics.{MetricsObserver}
use rpc_plus_plus.Observer.Views.{snapshots, hedge_snapshots, coalesced, failovers, requests}
use rpc_plus_plus.Observer.Exposition.{
  counter_type, histogram_type, success, failed, label, outcomes, Metric, MetricFamily, family,
  duration_histogram_metric, histogram_metric, attempts_histogram_metric, pair_counter_metric,
  request_counter_metric, upstream_counter_metric, unlabelled_counter_metric, counter_metric,
}
use rpc_plus_plus.Prelude.{ℕ, Bool, List, [], ◌∷◌, ◌++◌, map, ltb, if◌then◌else◌, is_empty}

abbrev pub attempts_name : Text
attempts_name = codes "rpc_attempts_total"

abbrev pub attempts_help : Text
attempts_help = codes "Total upstream call attempts by outcome"

abbrev pub attempts_duration_name : Text
attempts_duration_name = codes "rpc_attempt_duration_seconds"

abbrev pub attempts_duration_help : Text
attempts_duration_help = codes "Rpc attempt duration in seconds"

abbrev pub hedges_name : Text
hedges_name = codes "rpc_hedges_total"

abbrev pub hedges_help : Text
hedges_help =
    codes
      "Hedge calls started because this upstream passed its hedge_after, by the upstream hedged to"

abbrev pub hedge_wins_name : Text
hedge_wins_name = codes "rpc_hedge_wins_total"

abbrev pub hedge_wins_help : Text
hedge_wins_help =
    codes "Hedge calls that overtook this upstream and answered first, by the upstream hedged to"

abbrev pub failovers_name : Text
failovers_name = codes "rpc_failovers_total"

abbrev pub failovers_help : Text
failovers_help = codes "Times the chain moved past this upstream after a retryable failure"

abbrev pub coalesced_name : Text
coalesced_name = codes "rpc_requests_coalesced_total"

abbrev pub coalesced_help : Text
coalesced_help = codes "Requests answered by another request's flight"

abbrev pub requests_name : Text
requests_name = codes "rpc_requests_total"

abbrev pub requests_help : Text
requests_help = codes "Requests that ran their own upstream chain, by method and outcome"

abbrev pub request_attempts_name : Text
request_attempts_name = codes "rpc_request_attempts"

abbrev pub request_attempts_help : Text
request_attempts_help =
    codes "Upstream attempts per request, hedges included; above 1 means failover or a hedge"

abbrev pub request_duration_name : Text
request_duration_name = codes "rpc_request_duration_seconds"

abbrev pub request_duration_help : Text
request_duration_help =
    codes "Time from receiving a request to its answer, failovers and hedges included, by method"

-- `Desc::new` of the prometheus crate, with no constant labels.
pub record Descs : Type 1 where
  pub Desc : Type 0
  pub Error : Type 0
  pub make : Text → Text → List Text → Result Desc Error

module _ (p : Descs) where
  pub record Collector : Type 0 where
    pub observer : MetricsObserver
    pub attempts_desc : p.Desc
    pub attempts_duration_desc : p.Desc
    pub hedges_desc : p.Desc
    pub hedge_wins_desc : p.Desc
    pub failovers_desc : p.Desc
    pub coalesced_desc : p.Desc
    pub requests_desc : p.Desc
    pub request_attempts_desc : p.Desc
    pub request_duration_desc : p.Desc

  unfoldable pub pair_desc : Text → Text → Result p.Desc p.Error
  pair_desc name help = p.make name help (codes "upstream" ∷ codes "to" ∷ [])

  unfoldable pub new : MetricsObserver → Result Collector p.Error
  unfolding pair_desc
  new observer = do
    attempts_desc ← p.make attempts_name attempts_help (codes "outcome" ∷ codes "upstream" ∷ [])
    attempts_duration_desc ←
        p.make attempts_duration_name attempts_duration_help (codes "upstream" ∷ [])
    hedges_desc ← pair_desc hedges_name hedges_help
    hedge_wins_desc ← pair_desc hedge_wins_name hedge_wins_help
    failovers_desc ← p.make failovers_name failovers_help (codes "upstream" ∷ [])
    coalesced_desc ← p.make coalesced_name coalesced_help []
    requests_desc ← p.make requests_name requests_help (codes "method" ∷ codes "outcome" ∷ [])
    request_attempts_desc ← p.make request_attempts_name request_attempts_help (codes "method" ∷ [])
    request_duration_desc ← p.make request_duration_name request_duration_help (codes "method" ∷ [])
    ok (record {
      observer = observer;
      attempts_desc = attempts_desc;
      attempts_duration_desc = attempts_duration_desc;
      hedges_desc = hedges_desc;
      hedge_wins_desc = hedge_wins_desc;
      failovers_desc = failovers_desc;
      coalesced_desc = coalesced_desc;
      requests_desc = requests_desc;
      request_attempts_desc = request_attempts_desc;
      request_duration_desc = request_duration_desc;
    })

  unfoldable pub desc : Collector → List p.Desc
  desc c =
      c.attempts_desc ∷ c.attempts_duration_desc ∷ c.hedges_desc ∷ c.hedge_wins_desc
      ∷ c.failovers_desc ∷ c.coalesced_desc ∷ c.requests_desc ∷ c.request_attempts_desc
      ∷ c.request_duration_desc ∷ []

-- `Iterator::flat_map`.
abbrev pub flat_map {ℓ κ} : {A : Type ℓ} {B : Type κ} → (A → List B) → List A → List B
flat_map f [] = []
flat_map f (a ∷ more) = f a ++ flat_map f more

-- `Iterator::filter`.
abbrev pub keep {ℓ} : {A : Type ℓ} → (A → Bool) → List A → List A
keep p [] = []
keep p (a ∷ more) = if p a then a ∷ keep p more else keep p more

-- The requests of a method that were counted, one at least.
abbrev pub was_asked : Text × RequestStats → Bool
was_asked r = ltb 0 (r.1.answered +u64 r.1.failed)

module _ (f : Float) where
  unfoldable pub attempt_metrics : MetricsObserver → List (Metric f)
  unfolding outcomes counter_metric
  attempt_metrics o =
      flat_map (λ s. map (λ out. counter_metric f s.0.label out.0 out.1) (outcomes s.1))
        (snapshots o)

  unfoldable pub duration_metrics : MetricsObserver → List (Metric f)
  unfolding histogram_metric
  duration_metrics o = map (λ s. histogram_metric f s.0.label s.1) (snapshots o)

  unfoldable pub per_pair : MetricsObserver → (HedgeStats → ℕ) → List (Metric f)
  unfolding pair_counter_metric
  per_pair o count =
      map (λ h. pair_counter_metric f h.0.overtaken.label h.0.to.label (count h.1))
        (hedge_snapshots o)

  unfoldable pub failover_metrics : MetricsObserver → List (Metric f)
  unfolding upstream_counter_metric
  failover_metrics o = map (λ u. upstream_counter_metric f u.0.label u.1) (failovers o)

  unfoldable pub request_metrics : List (Text × RequestStats) → List (Metric f)
  unfolding request_counter_metric
  request_metrics requests =
      flat_map
        (λ r.
          request_counter_metric f r.0 success r.1.answered
          ∷ request_counter_metric f r.0 failed r.1.failed
          ∷ [])
        requests

  unfoldable pub request_attempt_metrics : List (Text × RequestStats) → List (Metric f)
  unfolding attempts_histogram_metric
  request_attempt_metrics requests = map (λ r. attempts_histogram_metric f r.0 r.1) requests

  unfoldable pub request_duration_metrics : List (Text × RequestStats) → List (Metric f)
  unfolding duration_histogram_metric label
  request_duration_metrics requests =
      map
        (λ r.
          duration_histogram_metric f (label (codes "method") r.0) r.1.duration_buckets
            (r.1.answered +u64 r.1.failed) r.1.duration_micros_total)
        requests

  unfoldable pub collect : MetricsObserver → List (MetricFamily f)
  unfolding attempt_metrics duration_metrics per_pair failover_metrics request_metrics
      request_attempt_metrics request_duration_metrics family unlabelled_counter_metric
  collect o =
      if is_empty (snapshots o)
      then []
      else (let requests = keep was_asked (requests o) in
          family f attempts_name attempts_help counter_type (attempt_metrics o)
          ∷ family f attempts_duration_name attempts_duration_help histogram_type
              (duration_metrics o)
          ∷ family f hedges_name hedges_help counter_type (per_pair o (λ hedge. hedge.started))
          ∷ family f hedge_wins_name hedge_wins_help counter_type (per_pair o (λ hedge. hedge.won))
          ∷ family f failovers_name failovers_help counter_type (failover_metrics o)
          ∷ family f coalesced_name coalesced_help counter_type
              (unlabelled_counter_metric f (coalesced o) ∷ [])
          ∷ family f requests_name requests_help counter_type (request_metrics requests)
          ∷ family f request_attempts_name request_attempts_help histogram_type
              (request_attempt_metrics requests)
          ∷ family f request_duration_name request_duration_help histogram_type
              (request_duration_metrics requests)
          ∷ [])
