-- ===== src/Observer/Exposition.antt =====
-- src/observer/prometheus.rs: what a scrape collects. The message types of the prometheus crate are
-- records with the fields that the source sets, `none` being the default.
use rpc_plus_plus.Prelude.Words.{◌+u64◌}
use rpc_plus_plus.Prelude.Float.{Float}
use rpc_plus_plus.Prelude.Text.{Text, codes}
use rpc_plus_plus.Observer.Snapshot.{Snapshot, RequestStats, bucket_bounds_micros, attempt_bounds}
use rpc_plus_plus.Observer.Histogram.{cumulative}
use rpc_plus_plus.Prelude.{ℕ, Option, none, some, List, [], ◌∷◌, map}

pub record LabelPair : Type 0 where
  pub name : Option Text
  pub value : Option Text

pub data MetricType : Type 0 where
  counter_type : MetricType
  histogram_type : MetricType

abbrev pub success : Text
success = codes "success"

abbrev pub failed : Text
failed = codes "failed"

abbrev pub abandoned : Text
abandoned = codes "abandoned"

-- `CallError::UNREACHABLE` and the other labels of src/upstream/call.rs.
abbrev pub unreachable : Text
unreachable = codes "unreachable"

abbrev pub read_failed : Text
read_failed = codes "read_failed"

abbrev pub error_status : Text
error_status = codes "error_status"

abbrev pub rpc_error : Text
rpc_error = codes "rpc_error"

abbrev pub rpc_caller_fault : Text
rpc_caller_fault = codes "rpc_caller_fault"

abbrev pub micros_per_second : ℕ
micros_per_second = 1000000

unfoldable pub label : Text → Text → LabelPair
label name value = record { name = some name; value = some value }

unfoldable pub outcomes : Snapshot → List (Text × ℕ)
outcomes s =
    (success, s.success)
    ∷ (unreachable, s.unreachable)
    ∷ (read_failed, s.read_failed)
    ∷ (error_status, s.error_status)
    ∷ (rpc_error, s.rpc_error)
    ∷ (rpc_caller_fault, s.rpc_caller_fault)
    ∷ (abandoned, s.abandoned)
    ∷ []

-- `Iterator::sum` of `u64` values.
unfoldable pub sum : List ℕ → ℕ → ℕ
sum [] acc = acc
sum (n ∷ ns) acc = sum ns (acc +u64 n)

unfoldable pub attempts : Snapshot → ℕ
unfolding outcomes sum
attempts s = sum (map (λ o. o.1) (outcomes s)) 0

-- `Iterator::zip`.
unfoldable pub zip : List ℕ → List ℕ → List (ℕ × ℕ)
zip [] _ = []
zip (a ∷ more) [] = []
zip (a ∷ more) (b ∷ bs) = (a, b) ∷ zip more bs

module _ (f : Float) where
  pub record Bucket : Type 0 where
    pub upper_bound : Option f.F64
    pub cumulative_count : Option ℕ

  pub record Histogram : Type 0 where
    pub sample_count : Option ℕ
    pub sample_sum : Option f.F64
    pub bucket : List Bucket

  pub record Metric : Type 0 where
    pub label : List LabelPair
    pub counter : Option f.F64
    pub histogram : Option Histogram

  pub record MetricFamily : Type 0 where
    pub name : Option Text
    pub help : Option Text
    pub field_type : Option MetricType
    pub metric : List Metric

  unfoldable pub family : Text → Text → MetricType → List Metric → MetricFamily
  family name help kind metrics = record {
    name = some name;
    help = some help;
    field_type = some kind;
    metric = metrics;
  }

  -- `as f64 / MICROS_PER_SECOND`.
  abbrev pub seconds : ℕ → f.F64
  seconds micros = f.div (f.of_u64 micros) (f.of_u64 micros_per_second)

  unfoldable pub duration_histogram_metric : LabelPair → List ℕ → ℕ → ℕ → Metric
  unfolding zip cumulative
  duration_histogram_metric label buckets count total_micros = record {
    label = label ∷ [];
    counter = none;
    histogram = some (record {
      sample_count = some count;
      sample_sum = some (seconds total_micros);
      bucket =
          map (λ b. record { upper_bound = some (seconds b.0); cumulative_count = some b.1 })
            (zip bucket_bounds_micros (cumulative buckets));
    });
  }

  unfoldable pub histogram_metric : Text → Snapshot → Metric
  unfolding duration_histogram_metric attempts label
  histogram_metric upstream s =
      duration_histogram_metric (label (codes "upstream") upstream) s.buckets (attempts s)
        s.duration_micros_total

  unfoldable pub attempts_histogram_metric : Text → RequestStats → Metric
  unfolding zip cumulative label
  attempts_histogram_metric method requests = record {
    label = label (codes "method") method ∷ [];
    counter = none;
    histogram = some (record {
      sample_count = some (requests.answered +u64 requests.failed);
      sample_sum = some (f.of_u64 requests.attempts_total);
      bucket =
          map (λ b. record { upper_bound = some (f.of_u64 b.0); cumulative_count = some b.1 })
            (zip attempt_bounds (cumulative requests.attempt_buckets));
    });
  }

  unfoldable pub pair_counter_metric : Text → Text → ℕ → Metric
  unfolding label
  pair_counter_metric upstream to value = record {
    label = label (codes "upstream") upstream ∷ label (codes "to") to ∷ [];
    counter = some (f.of_u64 value);
    histogram = none;
  }

  unfoldable pub request_counter_metric : Text → Text → ℕ → Metric
  unfolding label
  request_counter_metric method outcome value = record {
    label = label (codes "method") method ∷ label (codes "outcome") outcome ∷ [];
    counter = some (f.of_u64 value);
    histogram = none;
  }

  unfoldable pub upstream_counter_metric : Text → ℕ → Metric
  unfolding label
  upstream_counter_metric upstream value = record {
    label = label (codes "upstream") upstream ∷ [];
    counter = some (f.of_u64 value);
    histogram = none;
  }

  unfoldable pub unlabelled_counter_metric : ℕ → Metric
  unlabelled_counter_metric value = record {
    label = [];
    counter = some (f.of_u64 value);
    histogram = none;
  }

  unfoldable pub counter_metric : Text → Text → ℕ → Metric
  unfolding label
  counter_metric upstream outcome value = record {
    label = label (codes "outcome") outcome ∷ label (codes "upstream") upstream ∷ [];
    counter = some (f.of_u64 value);
    histogram = none;
  }
