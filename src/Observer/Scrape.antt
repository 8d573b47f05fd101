-- ===== src/Observer/Scrape.antt =====
-- What a scrape says (src/observer/prometheus.rs), told by the calls that the observer was given
-- rather than by its counters: the specification of `collect`.
use rpc_plus_plus.Prelude.Words.{u64}
use rpc_plus_plus.Prelude.Float.{Float}
use rpc_plus_plus.Prelude.Text.{Text, codes, text_leb}
use rpc_plus_plus.Prelude.Sort.{sort_by}
use rpc_plus_plus.Jsonrpc.Method.{method_labels}
use rpc_plus_plus.Upstream.Build.{UpstreamId}
use rpc_plus_plus.Observer.Snapshot.{bucket_bounds_micros, attempt_bounds}
use rpc_plus_plus.Observer.Tally.{micros_seen}
use rpc_plus_plus.Observer.Ledger.{calls_of}
use rpc_plus_plus.Observer.Histogram.{count_le}
use rpc_plus_plus.Observer.Metrics.{Pair, Observed}
use rpc_plus_plus.Observer.Views.{id_le, pair_le}
use rpc_plus_plus.Observer.Logs.{coalesced_count}
use rpc_plus_plus.Observer.Tables.{tracked, tracked_pairs}
use rpc_plus_plus.Observer.Outcomes.{outcome_labels, count_labelled}
use rpc_plus_plus.Observer.Moves.{failovers_from, hedges_of, hedge_wins_of}
use rpc_plus_plus.Observer.Asked.{Asked, asked_of, sum_of, answered_bit, failed_bit, micros_asked}
use rpc_plus_plus.Observer.Exposition.{
  counter_type, histogram_type, success, failed, LabelPair, label, Metric, MetricFamily, family,
  seconds, pair_counter_metric, request_counter_metric, upstream_counter_metric,
  unlabelled_counter_metric, counter_metric,
}
use rpc_plus_plus.Observer.Collector.{
  attempts_name, attempts_help, attempts_duration_name, attempts_duration_help, hedges_name,
  hedges_help, hedge_wins_name, hedge_wins_help, failovers_name, failovers_help, coalesced_name,
  coalesced_help, requests_name, requests_help, request_attempts_name, request_attempts_help,
  request_duration_name, request_duration_help, flat_map, keep,
}
use rpc_plus_plus.Prelude.{ℕ, ◌+◌, none, some, List, [], ◌∷◌, map, ltb, length}

abbrev pub sum_all : List ℕ → ℕ
sum_all [] = 0
sum_all (x ∷ xs) = x + sum_all xs

-- The upstreams, the pairs of them and the methods that were asked for, in the order of their
-- labels.
abbrev pub upstreams_in_order : List UpstreamId → List UpstreamId
upstreams_in_order ids = sort_by id_le (tracked ids)

abbrev pub pairs_in_order : List UpstreamId → List Pair
pairs_in_order ids = sort_by pair_le (tracked_pairs ids)

abbrev pub asked_for : Text → List Observed → List Asked
asked_for m es = asked_of method_labels m es

abbrev pub methods_in_order : List Observed → List Text
methods_in_order es =
    keep (λ m. ltb 0 (u64 (length (asked_for m es)))) (sort_by text_leb method_labels)

module _ (f : Float) where
  -- The histogram of the values: how many there are, their sum, and how many do not exceed each
  -- bound.
  abbrev pub histogram_of : (ℕ → f.F64) → LabelPair → List ℕ → List ℕ → Metric f
  histogram_of scale l bounds xs = record {
    label = l ∷ [];
    counter = none;
    histogram = some (record {
      sample_count = some (u64 (length xs));
      sample_sum = some (scale (u64 (sum_all xs)));
      bucket =
          map
            (λ b. record {
              upper_bound = some (scale b);
              cumulative_count = some (u64 (count_le b xs));
            })
            bounds;
    });
  }

  module _ (es : List Observed) where
    abbrev pub attempts_of_upstream : UpstreamId → List (Metric f)
    attempts_of_upstream u =
        map (λ l. counter_metric f u.label l (u64 (count_labelled l (calls_of u es))))
          outcome_labels

    abbrev pub durations_of_upstream : UpstreamId → Metric f
    durations_of_upstream u =
        histogram_of (seconds f) (label (codes "upstream") u.label) bucket_bounds_micros
          (map micros_seen (calls_of u es))

    abbrev pub hedges_of_pair : Pair → Metric f
    hedges_of_pair p = pair_counter_metric f p.overtaken.label p.to.label (u64 (hedges_of p es))

    abbrev pub hedge_wins_of_pair : Pair → Metric f
    hedge_wins_of_pair p =
        pair_counter_metric f p.overtaken.label p.to.label (u64 (hedge_wins_of p es))

    abbrev pub failovers_of_upstream : UpstreamId → Metric f
    failovers_of_upstream u = upstream_counter_metric f u.label (u64 (failovers_from u es))

    abbrev pub requests_of_method : Text → List (Metric f)
    requests_of_method m =
        request_counter_metric f m success (u64 (sum_of answered_bit (asked_for m es)))
        ∷ request_counter_metric f m failed (u64 (sum_of failed_bit (asked_for m es)))
        ∷ []

    abbrev pub attempts_of_method : Text → Metric f
    attempts_of_method m =
        histogram_of f.of_u64 (label (codes "method") m) attempt_bounds
          (map (λ q. q.attempts) (asked_for m es))

    abbrev pub durations_of_method : Text → Metric f
    durations_of_method m =
        histogram_of (seconds f) (label (codes "method") m) bucket_bounds_micros
          (map micros_asked (asked_for m es))

    abbrev pub scrape : List UpstreamId → List (MetricFamily f)
    scrape ids =
        family f attempts_name attempts_help counter_type
          (flat_map attempts_of_upstream (upstreams_in_order ids))
        ∷ family f attempts_duration_name attempts_duration_help histogram_type
            (map durations_of_upstream (upstreams_in_order ids))
        ∷ family f hedges_name hedges_help counter_type (map hedges_of_pair (pairs_in_order ids))
        ∷ family f hedge_wins_name hedge_wins_help counter_type
            (map hedge_wins_of_pair (pairs_in_order ids))
        ∷ family f failovers_name failovers_help counter_type
            (map failovers_of_upstream (upstreams_in_order ids))
        ∷ family f coalesced_name coalesced_help counter_type
            (unlabelled_counter_metric f (u64 (coalesced_count es)) ∷ [])
        ∷ family f requests_name requests_help counter_type
            (flat_map requests_of_method (methods_in_order es))
        ∷ family f request_attempts_name request_attempts_help histogram_type
            (map attempts_of_method (methods_in_order es))
        ∷ family f request_duration_name request_duration_help histogram_type
            (map durations_of_method (methods_in_order es))
        ∷ []
