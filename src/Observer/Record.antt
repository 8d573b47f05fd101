-- ===== src/Observer/Record.antt =====
-- The counting half of src/observer/mod.rs: `record_duration`, and what each method of `Observer`
-- does to the counters of one upstream, pair or method.
use rpc_plus_plus.Prelude.Results.{Result, ok, err}
use rpc_plus_plus.Prelude.Words.{u64, ◌+u64◌}
use rpc_plus_plus.Upstream.Call.{
  Duration, as_micros, CallError, unreachable, read_failed, rpc_error, error_status, CallRecord,
  is_retryable,
}
use rpc_plus_plus.Observer.Snapshot.{
  UpstreamStats, RequestStats, bucket_bounds_micros, attempt_bounds,
}
use rpc_plus_plus.Prelude.{ℕ, zero, suc, Bool, true, false, List, [], ◌∷◌, ltb, if◌then◌else◌}

-- `slice::partition_point(|&b| b < x)` on ascending bounds: how many lie below `x`.
unfoldable pub partition_point : ℕ → List ℕ → ℕ
partition_point x [] = 0
partition_point x (b ∷ bs) = let later = partition_point x bs in if ltb b x then suc later else 0

-- `if let Some(bucket) = buckets.get(i) { bucket.fetch_add(1) }`.
unfoldable pub bump : ℕ → List ℕ → List ℕ
bump i [] = []
bump zero (c ∷ cs) = (c +u64 1) ∷ cs
bump (suc i) (c ∷ cs) = c ∷ bump i cs

-- The buckets and the total after one duration, in microseconds.
unfoldable pub count_in : List ℕ → ℕ → List ℕ → List ℕ
unfolding partition_point bump
count_in bounds x buckets = bump (partition_point x bounds) buckets

abbrev pub micros_of : Duration → ℕ
micros_of d = u64 (as_micros d)

unfoldable pub record_duration : List ℕ → ℕ → Duration → List ℕ × ℕ × ℕ
unfolding count_in
record_duration buckets total_micros duration =
    let duration_micros = micros_of duration in
    (
      count_in bucket_bounds_micros duration_micros buckets,
      total_micros +u64 duration_micros,
      duration_micros,
    )

-- The counter of the outcome, one up.
unfoldable pub count_outcome : UpstreamStats → Result ℕ CallError → UpstreamStats
count_outcome s (ok status) = record s { success = s.success +u64 1 }
count_outcome s (err (error_status status)) = record s { error_status = s.error_status +u64 1 }
count_outcome s (err (read_failed status e)) = record s { read_failed = s.read_failed +u64 1 }
count_outcome s (err (unreachable e)) = record s { unreachable = s.unreachable +u64 1 }
count_outcome s (err (rpc_error status code false body)) = record s {
  rpc_caller_fault = s.rpc_caller_fault +u64 1;
}
count_outcome s (err (rpc_error status code true body)) = record s {
  rpc_error = s.rpc_error +u64 1;
}

-- `if let Err(err) = &record.outcome && err.is_retryable() { … }`.
unfoldable pub count_retryable : UpstreamStats → Result ℕ CallError → ℕ → UpstreamStats
count_retryable s (ok status) micros = s
count_retryable s (err e) micros =
    if is_retryable e
    then record s {
      retryable_failures = s.retryable_failures +u64 1;
      retryable_failures_micros_total = s.retryable_failures_micros_total +u64 micros;
    }
    else s

-- `record`, on the counters of its upstream.
unfoldable pub record_call : CallRecord → UpstreamStats → UpstreamStats
unfolding record_duration count_outcome count_retryable
record_call r s =
    let s' = count_outcome s r.outcome in
    let (buckets, total, micros) = record_duration s'.buckets s'.duration_micros_total r.duration in
    count_retryable (record s' { buckets = buckets; duration_micros_total = total }) r.outcome
      micros

-- `record_abandoned`, on the counters of its upstream.
unfoldable pub abandon : Duration → UpstreamStats → UpstreamStats
unfolding record_duration
abandon elapsed s =
    let (buckets, total, micros) = record_duration s.buckets s.duration_micros_total elapsed in
    record s { abandoned = s.abandoned +u64 1; buckets = buckets; duration_micros_total = total }

-- `record_request`, on the counters of its method.
unfoldable pub count_request : Bool → ℕ → Duration → RequestStats → RequestStats
unfolding record_duration count_in
count_request was_answered attempts elapsed s =
    let s' =
      (if was_answered
        then record s { answered = s.answered +u64 1 }
        else record s { failed = s.failed +u64 1 }) in
    let (buckets, total, _micros) =
      record_duration s'.duration_buckets s'.duration_micros_total elapsed in
    record s' {
      attempts_total = s'.attempts_total +u64 attempts;
      attempt_buckets = count_in attempt_bounds attempts s'.attempt_buckets;
      duration_buckets = buckets;
      duration_micros_total = total;
    }
