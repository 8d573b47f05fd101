-- ===== src/Observer/Described.antt =====
-- The collector of src/observer/prometheus.rs keeps what its descriptors promise: the names, the helps
-- and the labels of the families that it collects, and the kind of their metrics.
use rpc_plus_plus.Prelude.Results.{ok, >>=-eq-ok, ok_inj}
use rpc_plus_plus.Prelude.Float.{Float}
use rpc_plus_plus.Prelude.Text.{Text, codes}
use rpc_plus_plus.Prelude.Words.{◌+u64◌}
use rpc_plus_plus.Upstream.Build.{UpstreamId}
use rpc_plus_plus.Observer.Snapshot.{Snapshot, HedgeStats, RequestStats}
use rpc_plus_plus.Observer.Metrics.{Pair, MetricsObserver}
use rpc_plus_plus.Observer.Views.{snapshots, hedge_snapshots, failovers, requests, coalesced}
use rpc_plus_plus.Observer.Exposition.{
  MetricType, counter_type, histogram_type, success, failed, label, outcomes, Metric, MetricFamily,
  duration_histogram_metric, histogram_metric, attempts_histogram_metric, pair_counter_metric,
  request_counter_metric, upstream_counter_metric, counter_metric,
}
use rpc_plus_plus.Observer.Collector
use rpc_plus_plus.Observer.Collector.{
  Descs, Collector, pair_desc, desc, flat_map, keep, was_asked, attempt_metrics, duration_metrics,
  per_pair, failover_metrics, request_metrics, request_attempt_metrics, request_duration_metrics,
  collect, attempts_name, attempts_help, attempts_duration_name, attempts_duration_help,
  hedges_name, hedges_help, hedge_wins_name, hedge_wins_help, failovers_name, failovers_help,
  coalesced_name, coalesced_help, requests_name, requests_help, request_attempts_name,
  request_attempts_help, request_duration_name, request_duration_help,
}
use rpc_plus_plus.Prelude.{
  ℕ, ◌≡◌, refl, sym, ap, subst, false, none, some, List, [], ◌∷◌, map, is_empty, All, All-append,
}

All-map {ℓ κ ι} :
    {A : Type ℓ} {B : Type κ} (P : B → Type ι) (g : A → B) (xs : List A)
    → ((a : A) → P (g a))
    → All P (map g xs)
All-map P g [] h = tt
All-map P g (x ∷ xs) h = (h x, All-map P g xs h)

All-flat_map {ℓ κ ι} :
    {A : Type ℓ} {B : Type κ} (P : B → Type ι) (g : A → List B) (xs : List A)
    → ((a : A) → All P (g a))
    → All P (flat_map g xs)
All-flat_map P g [] h = tt
All-flat_map P g (x ∷ xs) h = All-append P (g x) (flat_map g xs) (h x) (All-flat_map P g xs h)

-- A descriptor: the name, the help and the names of the labels.
pub record Description : Type 0 where
  pub name : Text
  pub help : Text
  pub variable_labels : List Text

-- The descriptions of the families, in their order.
abbrev descriptions : List Description
descriptions =
    record {
      name = attempts_name;
      help = attempts_help;
      variable_labels = codes "outcome" ∷ codes "upstream" ∷ [];
    }
    ∷ record {
      name = attempts_duration_name;
      help = attempts_duration_help;
      variable_labels = codes "upstream" ∷ [];
    }
    ∷ record {
      name = hedges_name;
      help = hedges_help;
      variable_labels = codes "upstream" ∷ codes "to" ∷ [];
    }
    ∷ record {
      name = hedge_wins_name;
      help = hedge_wins_help;
      variable_labels = codes "upstream" ∷ codes "to" ∷ [];
    }
    ∷ record {
      name = failovers_name;
      help = failovers_help;
      variable_labels = codes "upstream" ∷ [];
    }
    ∷ record { name = coalesced_name; help = coalesced_help; variable_labels = [] }
    ∷ record {
      name = requests_name;
      help = requests_help;
      variable_labels = codes "method" ∷ codes "outcome" ∷ [];
    }
    ∷ record {
      name = request_attempts_name;
      help = request_attempts_help;
      variable_labels = codes "method" ∷ [];
    }
    ∷ record {
      name = request_duration_name;
      help = request_duration_help;
      variable_labels = codes "method" ∷ [];
    }
    ∷ []

module _ (f : Float) where
  -- A metric of the kind.
  abbrev pub IsOfKind : MetricType → Metric f → Type 0
  IsOfKind counter_type m = (v : f.F64) × (m.counter ≡ some v) × (m.histogram ≡ none)
  IsOfKind histogram_type m = (h : _) × (m.histogram ≡ some h) × (m.counter ≡ none)

  -- A metric that carries the labels, in their order, and is of the kind.
  abbrev pub Carries : List Text → MetricType → Metric f → Type 0
  Carries labels kind m = (map (λ l. l.name) m.label ≡ map some labels) × IsOfKind kind m

  abbrev pub FamilyKeeps : Description → MetricFamily f → Type 0
  FamilyKeeps d fam =
      (fam.name ≡ some d.name)
      × (fam.help ≡ some d.help)
      × ((kind : MetricType) × (fam.field_type ≡ some kind)
          × All (Carries d.variable_labels kind) fam.metric)

  -- Family by family, in the order of the descriptors.
  abbrev pub Keeps : List Description → List (MetricFamily f) → Type 0
  Keeps [] [] = Unit {0}
  Keeps [] (_ ∷ _) = ⊥
  Keeps (_ ∷ _) [] = ⊥
  Keeps (d ∷ ds) (fam ∷ fams) = FamilyKeeps d fam × Keeps ds fams

  attempt_metrics-Carries :
      (o : MetricsObserver)
      → All (Carries (codes "outcome" ∷ codes "upstream" ∷ []) counter_type) (attempt_metrics f o)
  unfolding attempt_metrics
  attempt_metrics-Carries o =
      All-flat_map (Carries (codes "outcome" ∷ codes "upstream" ∷ []) counter_type)
        (λ (s : UpstreamId × Snapshot).
          map (λ (out : Text × ℕ). counter_metric f s.0.label out.0 out.1) (outcomes s.1))
        (snapshots o)
        (λ s.
          All-map (Carries (codes "outcome" ∷ codes "upstream" ∷ []) counter_type)
            (λ (out : Text × ℕ). counter_metric f s.0.label out.0 out.1) (outcomes s.1)
            (λ out. (refl, (f.of_u64 out.1, refl, refl))))

  duration_metrics-Carries :
      (o : MetricsObserver)
      → All (Carries (codes "upstream" ∷ []) histogram_type) (duration_metrics f o)
  unfolding duration_metrics
  duration_metrics-Carries o =
      All-map (Carries (codes "upstream" ∷ []) histogram_type)
        (λ (s : UpstreamId × Snapshot). histogram_metric f s.0.label s.1) (snapshots o)
        (λ s. (refl, (_, refl, refl)))

  per_pair-Carries :
      (o : MetricsObserver) (count : HedgeStats → ℕ)
      → All (Carries (codes "upstream" ∷ codes "to" ∷ []) counter_type) (per_pair f o count)
  unfolding per_pair
  per_pair-Carries o count =
      All-map (Carries (codes "upstream" ∷ codes "to" ∷ []) counter_type)
        (λ (h : Pair × HedgeStats).
          pair_counter_metric f h.0.overtaken.label h.0.to.label (count h.1))
        (hedge_snapshots o) (λ h. (refl, (f.of_u64 (count h.1), refl, refl)))

  failover_metrics-Carries :
      (o : MetricsObserver)
      → All (Carries (codes "upstream" ∷ []) counter_type) (failover_metrics f o)
  unfolding failover_metrics
  failover_metrics-Carries o =
      All-map (Carries (codes "upstream" ∷ []) counter_type)
        (λ (u : UpstreamId × ℕ). upstream_counter_metric f u.0.label u.1) (failovers o)
        (λ u. (refl, (f.of_u64 u.1, refl, refl)))

  request_metrics-Carries :
      (rs : List (Text × RequestStats))
      → All (Carries (codes "method" ∷ codes "outcome" ∷ []) counter_type) (request_metrics f rs)
  unfolding request_metrics
  request_metrics-Carries rs =
      All-flat_map (Carries (codes "method" ∷ codes "outcome" ∷ []) counter_type)
        (λ (r : Text × RequestStats).
          request_counter_metric f r.0 success r.1.answered
          ∷ request_counter_metric f r.0 failed r.1.failed
          ∷ [])
        rs
        (λ r. (
          (refl, (f.of_u64 r.1.answered, refl, refl)),
          ((refl, (f.of_u64 r.1.failed, refl, refl)), tt),
        ))

  request_attempt_metrics-Carries :
      (rs : List (Text × RequestStats))
      → All (Carries (codes "method" ∷ []) histogram_type) (request_attempt_metrics f rs)
  unfolding request_attempt_metrics
  request_attempt_metrics-Carries rs =
      All-map (Carries (codes "method" ∷ []) histogram_type)
        (λ (r : Text × RequestStats). attempts_histogram_metric f r.0 r.1) rs
        (λ r. (refl, (_, refl, refl)))

  request_duration_metrics-Carries :
      (rs : List (Text × RequestStats))
      → All (Carries (codes "method" ∷ []) histogram_type) (request_duration_metrics f rs)
  unfolding request_duration_metrics
  request_duration_metrics-Carries rs =
      All-map (Carries (codes "method" ∷ []) histogram_type)
        (λ (r : Text × RequestStats).
          duration_histogram_metric f (label (codes "method") r.0) r.1.duration_buckets
            (r.1.answered +u64 r.1.failed) r.1.duration_micros_total)
        rs (λ r. (refl, (_, refl, refl)))

  collect-Keeps :
      (o : MetricsObserver) → is_empty (snapshots o) ≡ false → Keeps descriptions (collect f o)
  unfolding collect
  collect-Keeps o some_there =
      let asked = keep was_asked (requests o) in
      rw (some_there, collect)
        (
          (refl, refl, (counter_type, refl, attempt_metrics-Carries o)),
          (
            (refl, refl, (histogram_type, refl, duration_metrics-Carries o)),
            (
              (refl, refl, (counter_type, refl, per_pair-Carries o (λ h. h.started))),
              (
                (refl, refl, (counter_type, refl, per_pair-Carries o (λ h. h.won))),
                (
                  (refl, refl, (counter_type, refl, failover_metrics-Carries o)),
                  (
                    (
                      refl,
                      refl,
                      (counter_type, refl, ((refl, (f.of_u64 (coalesced o), refl, refl)), tt)),
                    ),
                    (
                      (refl, refl, (counter_type, refl, request_metrics-Carries asked)),
                      (
                        (refl, refl, (histogram_type, refl, request_attempt_metrics-Carries asked)),
                        (
                          (
                            refl,
                            refl,
                            (histogram_type, refl, request_duration_metrics-Carries asked),
                          ),
                          tt,
                        ),
                      ),
                    ),
                  ),
                ),
              ),
            ),
          ),
        )

-- `Desc::new` keeps what it is given: what a descriptor says, with that as a law.
pub record IsDescribing (p : Descs) : Type 0 where
  pub describe : p.Desc → Description
  pub made :
      (name help : Text) (labels : List Text) (d : p.Desc)
      → p.make name help labels ≡ ok d
      → describe d ≡ record { name = name; help = help; variable_labels = labels }

module _ (p : Descs) (law : IsDescribing p) where
  new-descriptions :
      (o : MetricsObserver) (c : Collector p)
      → Collector.new p o ≡ ok c
      → (c.observer ≡ o) × (map law.describe (desc p c) ≡ descriptions)
  unfolding Collector.new desc
  new-descriptions o c h0 =
      let (d1, e1, h1) = >>=-eq-ok (p.make _ _ _) _ h0 in
      let (d2, e2, h2) = >>=-eq-ok (p.make _ _ _) _ h1 in
      let (d3, e3, h3) = >>=-eq-ok (p.make _ _ _) _ h2 in
      let (d4, e4, h4) = >>=-eq-ok (p.make _ _ _) _ h3 in
      let (d5, e5, h5) = >>=-eq-ok (p.make _ _ _) _ h4 in
      let (d6, e6, h6) = >>=-eq-ok (p.make _ _ _) _ h5 in
      let (d7, e7, h7) = >>=-eq-ok (p.make _ _ _) _ h6 in
      let (d8, e8, h8) = >>=-eq-ok (p.make _ _ _) _ h7 in
      let (d9, e9, h9) = >>=-eq-ok (p.make _ _ _) _ h8 in
      let built = ok_inj h9 in
      (
        ap (λ x. x.observer) (sym built),
        subst (λ x. map law.describe (desc p x) ≡ descriptions) built
            (λ i.
              law.made _ _ _ d1 e1 i
              ∷ law.made _ _ _ d2 e2 i
              ∷ law.made _ _ _ d3 e3 i
              ∷ law.made _ _ _ d4 e4 i
              ∷ law.made _ _ _ d5 e5 i
              ∷ law.made _ _ _ d6 e6 i
              ∷ law.made _ _ _ d7 e7 i
              ∷ law.made _ _ _ d8 e8 i
              ∷ law.made _ _ _ d9 e9 i
              ∷ []),
      )

  -- What a collector that was built collects agrees with its descriptors, family by family and in
  -- their order: the name and the help, every metric with exactly the declared labels in their
  -- order, and a counter or a histogram as the family says. A descriptor must keep what it is made
  -- of, and the observer have an upstream.
  pub collect-desc :
      (f : Float) (o : MetricsObserver) (c : Collector p)
      → Collector.new p o ≡ ok c
      → is_empty (snapshots o) ≡ false
      → Keeps f (map law.describe (desc p c)) (collect f c.observer)
  collect-desc f o c built some_there =
      let (same, described) = new-descriptions o c built in
      subst (λ x. Keeps f x (collect f c.observer)) (sym described)
        (subst (λ x. Keeps f descriptions (collect f x)) (sym same) (collect-Keeps f o some_there))
