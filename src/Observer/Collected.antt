-- ===== src/Observer/Collected.antt =====
-- `collect` of src/observer/prometheus.rs says exactly what the calls of the observer were.
use mathlib.Core.Path.{fun_ext}
use rpc_plus_plus.Prelude.Words.{u64}
use rpc_plus_plus.Prelude.Float.{Float}
use rpc_plus_plus.Prelude.Text.{Text, text_leb}
use rpc_plus_plus.Prelude.Sort.{insert_by, sort_by}
use rpc_plus_plus.Prelude.Assoc.{insert, keys}
use rpc_plus_plus.Jsonrpc.Method.{method_labels}
use rpc_plus_plus.Upstream.Build.{UpstreamId, id_equality}
use rpc_plus_plus.Observer.Snapshot.{
  UpstreamStats, no_stats, Snapshot, snapshot_of, HedgeStats, RequestStats,
}
use rpc_plus_plus.Observer.Tally.{see_all}
use rpc_plus_plus.Observer.Ledger.{calls_of}
use rpc_plus_plus.Observer.Metrics.{Pair, MetricsObserver, insert_all, new, Observed, observe_all}
use rpc_plus_plus.Observer.Views.{id_le, snapshots, requests}
use rpc_plus_plus.Observer.Tables.{tracked}
use rpc_plus_plus.Observer.Outcomes.{outcome_labels, count_labelled, outcomes-see_all}
use rpc_plus_plus.Observer.Moves.{hedges_of, hedge_wins_of}
use rpc_plus_plus.Observer.Asked.{summary}
use rpc_plus_plus.Observer.Seen.{
  map-map, snapshots_seen, hedge_snapshots_seen, failovers_seen, requests_seen, coalesced_seen,
}
use rpc_plus_plus.Observer.Exposition.{
  counter_type, histogram_type, success, failed, outcomes, Metric, family, request_counter_metric,
  histogram_metric, pair_counter_metric, upstream_counter_metric, counter_metric,
  unlabelled_counter_metric,
}
use rpc_plus_plus.Observer.Collector.{
  attempts_name, attempts_help, attempts_duration_name, attempts_duration_help, hedges_name,
  hedges_help, hedge_wins_name, hedge_wins_help, failovers_name, failovers_help, coalesced_name,
  coalesced_help, requests_name, requests_help, request_attempts_name, request_attempts_help,
  request_duration_name, request_duration_help, flat_map, keep, was_asked, attempt_metrics,
  duration_metrics, per_pair, failover_metrics, request_metrics, request_attempt_metrics,
  request_duration_metrics, collect,
}
use rpc_plus_plus.Observer.Scrape.{
  upstreams_in_order, pairs_in_order, asked_for, methods_in_order, attempts_of_upstream,
  durations_of_upstream, failovers_of_upstream, requests_of_method, attempts_of_method,
  durations_of_method, scrape,
}
use rpc_plus_plus.Observer.Scraped.{
  flat_map-map, keep-map, answered-failed, histogram_metric-durations,
  attempts_histogram_metric-summary, duration_histogram_metric-summary,
}
use rpc_plus_plus.Prelude.{
  ℕ, ◌≡◌, refl, ap, ◌∙◌, inl, inr, Bool, false, List, [], ◌∷◌, map, ltb, if◌then◌else◌, Bool-cases,
  is_empty,
}

-- The upstream with the counters of its calls.
abbrev seen_of : List Observed → UpstreamId → UpstreamId × Snapshot
seen_of es u = (u, snapshot_of (see_all no_stats (calls_of u es)))

module _ (f : Float) (ids : List UpstreamId) (es : List Observed) where
  abbrev o : MetricsObserver
  o = observe_all (new ids) es

  counters_of : UpstreamId × Snapshot → List (Metric f)
  counters_of s = map (λ out. counter_metric f s.0.label out.0 out.1) (outcomes s.1)

  attempt_metrics_seen :
      attempt_metrics f o ≡ flat_map (attempts_of_upstream f es) (upstreams_in_order ids)
  unfolding attempt_metrics counters_of
  attempt_metrics_seen =
      ap (flat_map counters_of) (snapshots_seen ids es)
      ∙ (flat_map-map counters_of (seen_of es) (upstreams_in_order ids)
          ∙ ap (λ g. flat_map g (upstreams_in_order ids))
              (fun_ext (λ u.
                ap (map (λ (out : Text × ℕ). counter_metric f u.label out.0 out.1))
                  (outcomes-see_all (calls_of u es))
                ∙ map-map (λ (out : Text × ℕ). counter_metric f u.label out.0 out.1)
                    (λ l. (l, u64 (count_labelled l (calls_of u es)))) outcome_labels)))

  duration_metrics_seen :
      duration_metrics f o ≡ map (durations_of_upstream f es) (upstreams_in_order ids)
  unfolding duration_metrics
  duration_metrics_seen =
      let one : UpstreamId × Snapshot → Metric f = λ s. histogram_metric f s.0.label s.1 in
      ap (map one) (snapshots_seen ids es)
      ∙ (map-map one (seen_of es) (upstreams_in_order ids)
          ∙ ap (λ g. map g (upstreams_in_order ids)) (fun_ext (histogram_metric-durations f es)))

  per_pair_seen :
      (count : HedgeStats → ℕ)
      → per_pair f o count
        ≡ map
            (λ p.
              pair_counter_metric f p.overtaken.label p.to.label
                (count (record { started = u64 (hedges_of p es); won = u64 (hedge_wins_of p es) })))
            (pairs_in_order ids)
  unfolding per_pair
  per_pair_seen count =
      let one : Pair × HedgeStats → Metric f =
        λ h. pair_counter_metric f h.0.overtaken.label h.0.to.label (count h.1) in
      ap (map one) (hedge_snapshots_seen ids es) ∙ map-map one _ (pairs_in_order ids)

  failover_metrics_seen :
      failover_metrics f o ≡ map (failovers_of_upstream f es) (upstreams_in_order ids)
  unfolding failover_metrics
  failover_metrics_seen =
      let one : UpstreamId × ℕ → Metric f = λ u. upstream_counter_metric f u.0.label u.1 in
      ap (map one) (failovers_seen ids es) ∙ map-map one _ (upstreams_in_order ids)

  -- The methods that `collect` keeps.
  requests_kept :
      keep was_asked (requests o) ≡ map (λ m. (m, summary (asked_for m es))) (methods_in_order es)
  requests_kept =
      ap (keep was_asked) (requests_seen ids es)
      ∙ (keep-map was_asked (λ m. (m, summary (asked_for m es))) (sort_by text_leb method_labels)
          ∙ ap
              (λ p.
                map (λ m. (m, summary (asked_for m es))) (keep p (sort_by text_leb method_labels)))
              (fun_ext (λ m. ap (ltb 0) (answered-failed (asked_for m es)))))

  abbrev asked : List (Text × RequestStats)
  asked = map (λ m. (m, summary (asked_for m es))) (methods_in_order es)

  request_metrics_seen :
      request_metrics f asked ≡ flat_map (requests_of_method f es) (methods_in_order es)
  unfolding request_metrics
  request_metrics_seen =
      let both : Text × RequestStats → List (Metric f) = λ r.
        request_counter_metric f r.0 success r.1.answered
        ∷ request_counter_metric f r.0 failed r.1.failed
        ∷ [] in
      flat_map-map both (λ m. (m, summary (asked_for m es))) (methods_in_order es)

  request_attempt_metrics_seen :
      request_attempt_metrics f asked ≡ map (attempts_of_method f es) (methods_in_order es)
  unfolding request_attempt_metrics
  request_attempt_metrics_seen =
      map-map _ _ (methods_in_order es)
      ∙ ap (λ g. map g (methods_in_order es))
          (fun_ext (λ m. attempts_histogram_metric-summary f m (asked_for m es)))

  request_duration_metrics_seen :
      request_duration_metrics f asked ≡ map (durations_of_method f es) (methods_in_order es)
  unfolding request_duration_metrics
  request_duration_metrics_seen =
      map-map _ _ (methods_in_order es)
      ∙ ap (λ g. map g (methods_in_order es))
          (fun_ext (λ m. duration_histogram_metric-summary f m (asked_for m es)))

  families_collected : is_empty (snapshots o) ≡ false → collect f o ≡ scrape f es ids
  unfolding collect
  families_collected some_there =
      let kept = requests_kept in
      rw (some_there, collect)
        (λ i.
          family f attempts_name attempts_help counter_type (attempt_metrics_seen i)
          ∷ family f attempts_duration_name attempts_duration_help histogram_type
              (duration_metrics_seen i)
          ∷ family f hedges_name hedges_help counter_type (per_pair_seen (λ h. h.started) i)
          ∷ family f hedge_wins_name hedge_wins_help counter_type (per_pair_seen (λ h. h.won) i)
          ∷ family f failovers_name failovers_help counter_type (failover_metrics_seen i)
          ∷ family f coalesced_name coalesced_help counter_type
              (unlabelled_counter_metric f (coalesced_seen ids es i) ∷ [])
          ∷ family f requests_name requests_help counter_type
              ((ap (request_metrics f) kept ∙ request_metrics_seen) i)
          ∷ family f request_attempts_name request_attempts_help histogram_type
              ((ap (request_attempt_metrics f) kept ∙ request_attempt_metrics_seen) i)
          ∷ family f request_duration_name request_duration_help histogram_type
              ((ap (request_duration_metrics f) kept ∙ request_duration_metrics_seen) i)
          ∷ [])

insert_all-ne-nil :
    (us : List UpstreamId) (e : UpstreamId × UpstreamStats) (m : List (UpstreamId × UpstreamStats))
    → is_empty (keys (insert_all us (e ∷ m))) ≡ false
unfolding insert_all insert
insert_all-ne-nil [] e m = refl
insert_all-ne-nil (u ∷ us) (j, w) m = elim (Bool-cases (id_equality.beq j u)) [
  | inl y ↦ rw y (insert_all-ne-nil us (u, no_stats) m)
  | inr n ↦ rw n (insert_all-ne-nil us (j, w) (insert u no_stats m))
]

is_empty-insert_by {ℓ} :
    {A : Type ℓ} (le : A → A → Bool) (x : A) (ys : List A) → is_empty (insert_by le x ys) ≡ false
unfolding insert_by
is_empty-insert_by le x [] = refl
is_empty-insert_by le x (y ∷ ys) = elim (Bool-cases (le x y)) [
  | inl e ↦ rw e refl
  | inr e ↦ rw e refl
]

is_empty-sort_by {ℓ} :
    {A : Type ℓ} (le : A → A → Bool) (xs : List A) → is_empty (sort_by le xs) ≡ is_empty xs
unfolding sort_by
is_empty-sort_by le [] = refl
is_empty-sort_by le (x ∷ xs) = is_empty-insert_by le x (sort_by le xs)

is_empty-map {ℓ κ} :
    {A : Type ℓ} {B : Type κ} (g : A → B) (xs : List A) → is_empty (map g xs) ≡ is_empty xs
is_empty-map g [] = refl
is_empty-map g (x ∷ xs) = refl

tracked-is_empty : (ids : List UpstreamId) → is_empty (tracked ids) ≡ is_empty ids
unfolding insert_all insert
tracked-is_empty [] = refl
tracked-is_empty (u ∷ us) = insert_all-ne-nil us (u, no_stats) []

-- A scrape of an observer says exactly what its calls were, whatever they were, in the order of the
-- labels: for each upstream how many of its calls ended in each outcome, and how many took no
-- longer than each bound; for each pair how many hedges were started and how many won; how often
-- the chain moved past each upstream; how many requests shared a reply; and for each method that
-- was asked for how many requests were answered and failed, with their attempts and durations. All
-- counts are 64-bit. An observer without upstreams collects nothing.
pub collect-scrape :
    (f : Float) (ids : List UpstreamId) (es : List Observed)
    → collect f (observe_all (new ids) es) ≡ (if is_empty ids then [] else scrape f es ids)
collect-scrape f ids es =
    let none_there : is_empty (snapshots (observe_all (new ids) es)) ≡ is_empty ids =
      ap is_empty (snapshots_seen ids es)
      ∙ (is_empty-map (seen_of es) (upstreams_in_order ids)
          ∙ (is_empty-sort_by id_le (tracked ids) ∙ tracked-is_empty ids)) in
    elim (Bool-cases (is_empty ids)) [
      | inl y ↦ rw y (unfold collect in rw (none_there ∙ y, collect) refl)
      | inr n ↦ rw n (families_collected f ids es (none_there ∙ n))
    ]
