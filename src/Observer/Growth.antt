-- ===== src/Observer/Growth.antt =====
-- The growth of the counters of one upstream (src/observer/snapshot.rs), while none overflows.
use rpc_plus_plus.Prelude.Results.{Result, ok, err}
use rpc_plus_plus.Prelude.Words.{u64, ◌+u64◌, u64_max}
use rpc_plus_plus.Upstream.Call.{
  Duration, as_micros, CallError, unreachable, read_failed, rpc_error, error_status, is_retryable,
}
use rpc_plus_plus.Observer.Snapshot.{UpstreamStats, bucket_bounds_micros}
use rpc_plus_plus.Observer.Record.{count_in, count_outcome, count_retryable, micros_of}
use rpc_plus_plus.Observer.Tally.{
  Seen, finished, dropped, see, see_all, micros_seen, failure_of, is_failure, bit, total,
  failed_micros, outcome_sum,
}
use rpc_plus_plus.Prelude.{
  ℕ, ◌+◌, ◌*◌, ◌≤◌, ◌≡◌, refl, inl, inr, Bool, true, false, List, [], ◌∷◌, ◌++◌, arith,
  if◌then◌else◌, Bool-cases,
}

-- From `s` to `s'` there were `n` outcomes, `d` microseconds, `f` retryable failures and `m`
-- microseconds in those; no counter fell.
pub record Adds (s s' : UpstreamStats) (n d f m : ℕ) : Type 0 where
  pub success_grows : s.success ≤ s'.success
  pub unreachable_grows : s.unreachable ≤ s'.unreachable
  pub read_failed_grows : s.read_failed ≤ s'.read_failed
  pub error_status_grows : s.error_status ≤ s'.error_status
  pub rpc_error_grows : s.rpc_error ≤ s'.rpc_error
  pub rpc_caller_fault_grows : s.rpc_caller_fault ≤ s'.rpc_caller_fault
  pub abandoned_grows : s.abandoned ≤ s'.abandoned
  pub outcomes : outcome_sum s' ≡ outcome_sum s + n
  pub duration : s'.duration_micros_total ≡ s.duration_micros_total + d
  pub failures : s'.retryable_failures ≡ s.retryable_failures + f
  pub failed : s'.retryable_failures_micros_total ≡ s.retryable_failures_micros_total + m

pub Adds-trans :
    {s t u : UpstreamStats} {n d f m n' d' f' m' : ℕ}
    → Adds s t n d f m
    → Adds t u n' d' f' m'
    → Adds s u (n + n') (d + d') (f + f') (m + m')
Adds-trans a b = omega arith

Adds-refl : (s : UpstreamStats) → Adds s s 0 0 0 0
Adds-refl s = omega arith

count_outcome-Adds :
    (s : UpstreamStats) (o : Result ℕ CallError)
    → outcome_sum s + 1 ≤ u64_max
    → Adds s (count_outcome s o) 1 0 0 0
unfolding count_outcome
count_outcome-Adds s (ok status) h = omega arith
count_outcome-Adds s (err (unreachable e)) h = omega arith
count_outcome-Adds s (err (read_failed status e)) h = omega arith
count_outcome-Adds s (err (rpc_error status code true body)) h = omega arith
count_outcome-Adds s (err (rpc_error status code false body)) h = omega arith
count_outcome-Adds s (err (error_status status)) h = omega arith

count_retryable-Adds :
    (s : UpstreamStats) (o : Result ℕ CallError) (micros : ℕ)
    → s.retryable_failures + 1 ≤ u64_max
    → s.retryable_failures_micros_total + micros ≤ u64_max
    → Adds s
        (count_retryable s o micros)
        0
        0
        (bit (failure_of o))
        (if failure_of o then micros else 0)
unfolding count_retryable
count_retryable-Adds s (ok status) micros h k = Adds-refl s
count_retryable-Adds s (err e) micros h k = elim (Bool-cases (is_retryable e)) [
  | inl fails ↦ rw fails (omega arith)
  | inr final ↦ rw final (Adds-refl s)
]

-- No counter reaches its limit with the call `c`.
record Fits (s : UpstreamStats) (c : Seen) : Type 0 where
  outcomes : outcome_sum s + 1 ≤ u64_max
  duration : s.duration_micros_total + micros_seen c ≤ u64_max
  failures : s.retryable_failures + 1 ≤ u64_max
  failed : s.retryable_failures_micros_total + micros_seen c ≤ u64_max

see-Adds :
    (s : UpstreamStats) (c : Seen)
    → Fits s c
    → Adds s (see s c) 1 (micros_seen c) (bit (is_failure c)) (failed_micros c)
unfolding see
see-Adds s (dropped elapsed) h = omega arith
see-Adds s (finished r) h =
    let m = micros_of r.duration in
    let s1 = count_outcome s r.outcome in
    let a = count_outcome-Adds s r.outcome h.outcomes in
    let s2 = record s1 {
      buckets = count_in bucket_bounds_micros m s1.buckets;
      duration_micros_total = s1.duration_micros_total +u64 m;
    } in
    let b : Adds s1 s2 0 m 0 0 = omega arith in
    let c = count_retryable-Adds s2 r.outcome m (omega arith) (omega arith) in
    let abc = Adds-trans (Adds-trans a b) c in omega (arith, abc)

pub bit-le : (b : Bool) → bit b ≤ 1
bit-le true = omega arith
bit-le false = omega arith

pub failed_micros-le : (c : Seen) → failed_micros c ≤ micros_seen c
failed_micros-le c = elim (Bool-cases (is_failure c)) [
  | inl e ↦ rw e (omega arith)
  | inr e ↦ rw e (omega arith)
]

abbrev pub count : List Seen → ℕ
count = total (λ c. 1)

-- No counter reaches its limit with the calls.
pub record AllFit (s : UpstreamStats) (cs : List Seen) : Type 0 where
  pub outcomes : outcome_sum s + count cs ≤ u64_max
  pub duration : s.duration_micros_total + total micros_seen cs ≤ u64_max
  pub failures : s.retryable_failures + count cs ≤ u64_max
  pub failed : s.retryable_failures_micros_total + total micros_seen cs ≤ u64_max

pub see_all-Adds :
    (s : UpstreamStats) (cs : List Seen)
    → AllFit s cs
    → Adds s
        (see_all s cs)
        (count cs)
        (total micros_seen cs)
        (total (λ c. bit (is_failure c)) cs)
        (total failed_micros cs)
unfolding see_all
see_all-Adds s [] h = Adds-refl s
see_all-Adds s (c ∷ cs) h =
    let first = see-Adds s c (omega arith) in
    let fits : AllFit (see s c) cs =
      omega (arith, bit-le (is_failure c), failed_micros-le c, first) in
    Adds-trans first (see_all-Adds (see s c) cs fits)

pub see_all-append :
    (s : UpstreamStats) (cs ds : List Seen) → see_all s (cs ++ ds) ≡ see_all (see_all s cs) ds
unfolding see_all
see_all-append s [] ds = refl
see_all-append s (c ∷ cs) ds = see_all-append (see s c) cs ds

pub total-append : (f : Seen → ℕ) (cs ds : List Seen) → total f (cs ++ ds) ≡ total f cs + total f ds
total-append f [] ds = omega arith
total-append f (c ∷ cs) ds = omega (arith, total-append f cs ds)

pub total-le :
    (f g : Seen → ℕ) (cs : List Seen) → ((c : Seen) → f c ≤ g c) → total f cs ≤ total g cs
total-le f g [] h = omega arith
total-le f g (c ∷ cs) h = omega (arith, h c, total-le f g cs h)

-- What a call costs: the penalty if it failed retryably, its own time if not.
abbrev pub cost : Duration → Seen → ℕ
cost penalty c = if is_failure c then u64 (as_micros penalty) else micros_seen c

pub total-cost :
    (p : Duration) (cs : List Seen)
    → total (cost p) cs + total failed_micros cs
      ≡ total micros_seen cs + total (λ c. bit (is_failure c)) cs * u64 (as_micros p)
total-cost p [] = omega arith
total-cost p (c ∷ cs) = elim (Bool-cases (is_failure c)) [
  | inl e ↦ rw e (omega (arith, total-cost p cs))
  | inr e ↦ rw e (omega (arith, total-cost p cs))
]
