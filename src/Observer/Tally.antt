-- ===== src/Observer/Tally.antt =====
-- What the counters of one upstream hold after any calls, and what `latency_score` makes of them.
use rpc_plus_plus.Prelude.Results.{Result, ok, err}
use rpc_plus_plus.Prelude.Words.{u64, ◌+u64◌}
use rpc_plus_plus.Upstream.Call.{
  Duration, CallError, unreachable, read_failed, rpc_error, error_status, CallRecord, is_retryable,
}
use rpc_plus_plus.Observer.Snapshot.{UpstreamStats, bucket_bounds_micros}
use rpc_plus_plus.Observer.Record.{
  count_in, count_outcome, count_retryable, record_call, abandon, micros_of,
}
use rpc_plus_plus.Prelude.{
  ℕ, ◌+◌, ◌≡◌, refl, ap, ◌∙◌, inl, inr, Bool, true, false, List, [], ◌∷◌, arith, if◌then◌else◌,
  Bool-cases,
}

-- One call of an upstream, as the observer sees it.
pub data Seen : Type 0 where
  finished : CallRecord → Seen
  dropped : Duration → Seen

unfoldable pub see : UpstreamStats → Seen → UpstreamStats
unfolding record_call abandon
see s (finished r) = record_call r s
see s (dropped elapsed) = abandon elapsed s

unfoldable pub see_all : UpstreamStats → List Seen → UpstreamStats
unfolding see
see_all s [] = s
see_all s (c ∷ cs) = see_all (see s c) cs

abbrev pub micros_seen : Seen → ℕ
micros_seen (finished r) = micros_of r.duration
micros_seen (dropped elapsed) = micros_of elapsed

-- Whether the call failed in a way that a retry may cure.
abbrev pub failure_of : Result ℕ CallError → Bool
failure_of (ok status) = false
failure_of (err e) = is_retryable e

abbrev pub is_failure : Seen → Bool
is_failure (finished r) = failure_of r.outcome
is_failure (dropped elapsed) = false

abbrev pub bit : Bool → ℕ
bit true = 1
bit false = 0

abbrev pub total : (Seen → ℕ) → List Seen → ℕ
total f [] = 0
total f (c ∷ cs) = f c + total f cs

abbrev pub failed_micros : Seen → ℕ
failed_micros c = if is_failure c then micros_seen c else 0

-- All outcomes together: the `count` of the exposed histogram.
abbrev pub outcome_sum : UpstreamStats → ℕ
outcome_sum s =
    s.success + s.unreachable + s.read_failed + s.error_status + s.rpc_error + s.rpc_caller_fault
    + s.abandoned

count_outcome-outcome_sum :
    (s : UpstreamStats) (o : Result ℕ CallError)
    → u64 (outcome_sum (count_outcome s o)) ≡ u64 (outcome_sum s + 1)
unfolding count_outcome
count_outcome-outcome_sum s (ok status) = omega arith
count_outcome-outcome_sum s (err (unreachable e)) = omega arith
count_outcome-outcome_sum s (err (read_failed status e)) = omega arith
count_outcome-outcome_sum s (err (rpc_error status code true body)) = omega arith
count_outcome-outcome_sum s (err (rpc_error status code false body)) = omega arith
count_outcome-outcome_sum s (err (error_status status)) = omega arith

count_retryable-outcome_sum :
    (s : UpstreamStats) (o : Result ℕ CallError) (micros : ℕ)
    → outcome_sum (count_retryable s o micros) ≡ outcome_sum s
unfolding count_retryable
count_retryable-outcome_sum s (ok status) micros = refl
count_retryable-outcome_sum s (err e) micros = elim (Bool-cases (is_retryable e)) [
  | inl yes_it_is ↦ rw yes_it_is
  | inr not_so ↦ rw not_so
]

-- Each outcome is counted once, whatever it is.
pub see-outcome_sum :
    (s : UpstreamStats) (c : Seen) → u64 (outcome_sum (see s c)) ≡ u64 (outcome_sum s + 1)
unfolding see
see-outcome_sum s (dropped elapsed) = omega arith
see-outcome_sum s (finished r) =
    ap u64 (count_retryable-outcome_sum _ r.outcome (micros_of r.duration))
    ∙ count_outcome-outcome_sum s r.outcome

-- What `count_outcome` and `count_retryable` leave alone.
record SameTimes (s s' : UpstreamStats) : Type 0 where
  buckets : s'.buckets ≡ s.buckets
  duration : s'.duration_micros_total ≡ s.duration_micros_total

count_outcome-SameTimes :
    (s : UpstreamStats) (o : Result ℕ CallError) → SameTimes s (count_outcome s o)
unfolding count_outcome
count_outcome-SameTimes s (ok status) = record { buckets = refl; duration = refl }
count_outcome-SameTimes s (err (unreachable e)) = record { buckets = refl; duration = refl }
count_outcome-SameTimes s (err (read_failed status e)) = record { buckets = refl; duration = refl }
count_outcome-SameTimes s (err (rpc_error status code true body)) = record {
  buckets = refl;
  duration = refl;
}
count_outcome-SameTimes s (err (rpc_error status code false body)) = record {
  buckets = refl;
  duration = refl;
}
count_outcome-SameTimes s (err (error_status status)) = record { buckets = refl; duration = refl }

count_retryable-SameTimes :
    (s : UpstreamStats) (o : Result ℕ CallError) (micros : ℕ)
    → SameTimes s (count_retryable s o micros)
unfolding count_retryable
count_retryable-SameTimes s (ok status) micros = record { buckets = refl; duration = refl }
count_retryable-SameTimes s (err e) micros = elim (Bool-cases (is_retryable e)) [
  | inl yes_it_is ↦ rw yes_it_is (record { buckets = refl; duration = refl })
  | inr not_so ↦ rw not_so (record { buckets = refl; duration = refl })
]

pub see-duration :
    (s : UpstreamStats) (c : Seen)
    → (see s c).duration_micros_total ≡ s.duration_micros_total +u64 micros_seen c
unfolding see
see-duration s (dropped elapsed) = refl
see-duration s (finished r) =
    (count_retryable-SameTimes _ r.outcome (micros_of r.duration)).duration
    ∙ ap (λ n. n +u64 micros_of r.duration) (count_outcome-SameTimes s r.outcome).duration

pub see-buckets :
    (s : UpstreamStats) (c : Seen)
    → (see s c).buckets ≡ count_in bucket_bounds_micros (micros_seen c) s.buckets
unfolding see
see-buckets s (dropped elapsed) = refl
see-buckets s (finished r) =
    (count_retryable-SameTimes _ r.outcome (micros_of r.duration)).buckets
    ∙ ap (count_in bucket_bounds_micros (micros_of r.duration))
        (count_outcome-SameTimes s r.outcome).buckets
