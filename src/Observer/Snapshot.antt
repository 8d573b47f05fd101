-- ===== src/Observer/Snapshot.antt =====
-- src/observer/snapshot.rs: the counters of one upstream, of one pair and of one method, their
-- snapshots, and the difference of two snapshots. An atomic counter is its value.
use rpc_plus_plus.Prelude.Words.{u64, ◌+u64◌, saturating_add, saturating_mul, saturating_sub}
use rpc_plus_plus.Upstream.Call.{Duration, as_micros, from_micros}
use rpc_plus_plus.Upstream.Build.{default_rpc_timeout_in_secs}
use rpc_plus_plus.Prelude.{
  ℕ, ◌*◌, ◌/◌, Option, none, some, List, [], ◌∷◌, ◌==◌, if◌then◌else◌, replicate,
}

abbrev pub micros_per_sec : ℕ
micros_per_sec = 1000000

abbrev pub bucket_bounds_micros : List ℕ
bucket_bounds_micros =
    5000
    ∷ 10000
    ∷ 25000
    ∷ 50000
    ∷ 100000
    ∷ 250000
    ∷ 500000
    ∷ micros_per_sec
    ∷ (default_rpc_timeout_in_secs * micros_per_sec)
    ∷ (5 * micros_per_sec)
    ∷ []

abbrev pub zeros : ℕ → List ℕ
zeros n = replicate n 0

pub record UpstreamStats : Type 0 where
  pub success : ℕ
  pub unreachable : ℕ
  pub read_failed : ℕ
  pub error_status : ℕ
  pub rpc_error : ℕ
  pub rpc_caller_fault : ℕ
  pub abandoned : ℕ
  pub retryable_failures : ℕ
  pub buckets : List ℕ
  pub duration_micros_total : ℕ
  pub retryable_failures_micros_total : ℕ

abbrev pub no_stats : UpstreamStats
no_stats = record {
  success = 0;
  unreachable = 0;
  read_failed = 0;
  error_status = 0;
  rpc_error = 0;
  rpc_caller_fault = 0;
  abandoned = 0;
  retryable_failures = 0;
  buckets = zeros 10;
  duration_micros_total = 0;
  retryable_failures_micros_total = 0;
}

pub record Snapshot : Type 0 where
  pub success : ℕ
  pub unreachable : ℕ
  pub read_failed : ℕ
  pub error_status : ℕ
  pub rpc_error : ℕ
  pub rpc_caller_fault : ℕ
  pub abandoned : ℕ
  pub retryable_failures : ℕ
  pub buckets : List ℕ
  pub duration_micros_total : ℕ
  pub retryable_failures_micros_total : ℕ

-- `UpstreamStats::snapshot`, with no other thread between its loads.
unfoldable pub snapshot_of : UpstreamStats → Snapshot
snapshot_of s = record {
  success = s.success;
  unreachable = s.unreachable;
  read_failed = s.read_failed;
  error_status = s.error_status;
  rpc_error = s.rpc_error;
  rpc_caller_fault = s.rpc_caller_fault;
  abandoned = s.abandoned;
  retryable_failures = s.retryable_failures;
  buckets = s.buckets;
  duration_micros_total = s.duration_micros_total;
  retryable_failures_micros_total = s.retryable_failures_micros_total;
}

-- `HedgeStats` and `HedgeSnapshot`.
pub record HedgeStats : Type 0 where
  pub started : ℕ
  pub won : ℕ

abbrev pub attempt_bounds : List ℕ
attempt_bounds = 1 ∷ 2 ∷ 3 ∷ 5 ∷ 10 ∷ []

-- `RequestStats` and `RequestSnapshot`.
pub record RequestStats : Type 0 where
  pub answered : ℕ
  pub failed : ℕ
  pub attempt_buckets : List ℕ
  pub attempts_total : ℕ
  pub duration_buckets : List ℕ
  pub duration_micros_total : ℕ

abbrev pub no_requests : RequestStats
no_requests = record {
  answered = 0;
  failed = 0;
  attempt_buckets = zeros 5;
  attempts_total = 0;
  duration_buckets = zeros 10;
  duration_micros_total = 0;
}

pub record Diff : Type 0 where
  pub success : ℕ
  pub unreachable : ℕ
  pub read_failed : ℕ
  pub error_status : ℕ
  pub rpc_error : ℕ
  pub rpc_caller_fault : ℕ
  pub abandoned : ℕ
  pub retryable_failures : ℕ
  pub duration_micros : ℕ
  pub retryable_failures_micros : ℕ

-- `Snapshot::diff`; `saturating_sub` is `-` on ℕ.
unfoldable pub diff : Snapshot → Snapshot → Diff
diff current base = record {
  success = saturating_sub current.success base.success;
  unreachable = saturating_sub current.unreachable base.unreachable;
  read_failed = saturating_sub current.read_failed base.read_failed;
  error_status = saturating_sub current.error_status base.error_status;
  rpc_error = saturating_sub current.rpc_error base.rpc_error;
  rpc_caller_fault = saturating_sub current.rpc_caller_fault base.rpc_caller_fault;
  abandoned = saturating_sub current.abandoned base.abandoned;
  retryable_failures = saturating_sub current.retryable_failures base.retryable_failures;
  duration_micros = saturating_sub current.duration_micros_total base.duration_micros_total;
  retryable_failures_micros =
      saturating_sub current.retryable_failures_micros_total base.retryable_failures_micros_total;
}

-- `Diff::error`, `Diff::success`, `Diff::answered`, `Diff::calls`.
unfoldable pub errors : Diff → ℕ
errors d = d.error_status +u64 d.read_failed +u64 d.unreachable +u64 d.rpc_error

unfoldable pub successes : Diff → ℕ
successes d = d.success +u64 d.rpc_caller_fault

unfoldable pub answered : Diff → ℕ
unfolding errors successes
answered d = errors d +u64 successes d

unfoldable pub calls : Diff → ℕ
unfolding answered
calls d = answered d +u64 d.abandoned

-- `Diff::latency_score`.
unfoldable pub latency_score : Diff → Duration → Option Duration
unfolding calls
latency_score d penalty =
    if calls d == 0
    then none
    else some (
        from_micros (
          saturating_add (saturating_sub d.duration_micros d.retryable_failures_micros)
            (saturating_mul d.retryable_failures (u64 (as_micros penalty)))
          / calls d))
