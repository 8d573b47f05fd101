-- ===== src/Observer/Score.antt =====
-- What `Diff::latency_score` of src/observer/snapshot.rs makes of the calls in a window.
use rpc_plus_plus.Prelude.Words.{u64, u64_max, saturating_add, saturating_mul, saturating_sub}
use rpc_plus_plus.Upstream.Call.{Duration, as_micros, from_micros}
use rpc_plus_plus.Observer.Snapshot.{
  UpstreamStats, no_stats, snapshot_of, Diff, diff, calls, latency_score,
}
use rpc_plus_plus.Observer.Tally.{
  Seen, see_all, micros_seen, is_failure, bit, total, failed_micros, outcome_sum,
}
use rpc_plus_plus.Prelude.{ℕ, ◌-◌, ◌/◌, ◌≤◌, ◌<◌, ◌≡◌, some, List, ◌++◌, arith}
use rpc_plus_plus.Observer.Growth.{
  Adds, AllFit, see_all-Adds, see_all-append, total-append, total-le, bit-le, failed_micros-le,
  total-cost, count, cost,
}

calls-diff :
    (s t : UpstreamStats) (n d f m : ℕ)
    → Adds s t n d f m
    → outcome_sum t ≤ u64_max
    → calls (diff (snapshot_of t) (snapshot_of s)) ≡ n
unfolding calls diff snapshot_of
calls-diff s t n d f m a h = omega arith

latency_score-of :
    (d : Diff) (p : Duration) (n x : ℕ)
    → calls d ≡ n
    → 0 < n
    → saturating_add
        (saturating_sub d.duration_micros d.retryable_failures_micros)
        (saturating_mul d.retryable_failures (u64 (as_micros p)))
      ≡ x
    → latency_score d p ≡ some (from_micros (x / n))
unfolding latency_score
latency_score-of d p n x e h g = ground arith

window-cost :
    (s t : UpstreamStats) (p : Duration) (n : ℕ) (cs : List Seen)
    → Adds s t n
        (total micros_seen cs)
        (total (λ c. bit (is_failure c)) cs)
        (total failed_micros cs)
    → total (cost p) cs ≤ u64_max
    → let d = diff (snapshot_of t) (snapshot_of s) in
      saturating_add
        (saturating_sub d.duration_micros d.retryable_failures_micros)
        (saturating_mul d.retryable_failures (u64 (as_micros p)))
      ≡ total (cost p) cs
unfolding diff snapshot_of
window-cost s t p n cs a h =
    let failures : t.retryable_failures - s.retryable_failures
        ≡ total (λ c. bit (is_failure c)) cs =
      omega arith in
    rw failures
      (omega (arith, total-cost p cs, total-le failed_micros micros_seen cs failed_micros-le))

-- The score of a window is the mean cost of the calls in it, whatever came before: an upstream is
-- charged the penalty for each retryable failure and its own time for each other call, an abandoned
-- one included. Nothing may overflow 64 bits, and the window must hold a call.
pub latency_score-mean :
    (penalty : Duration) (past recent : List Seen)
    → count (past ++ recent) ≤ u64_max
    → total micros_seen (past ++ recent) ≤ u64_max
    → total (cost penalty) recent ≤ u64_max
    → 0 < count recent
    → let base = see_all no_stats past in
      let current = see_all no_stats (past ++ recent) in
      latency_score (diff (snapshot_of current) (snapshot_of base)) penalty
      ≡ some (from_micros (total (cost penalty) recent / count recent))
latency_score-mean penalty past recent h k l pos = rw (see_all-append no_stats past recent) (
    let base = see_all no_stats past in
    let earlier =
      see_all-Adds no_stats past
        (omega (arith, total-append (λ c. 1) past recent, total-append micros_seen past recent)) in
    let fits : AllFit base recent = omega (
      arith,
      earlier,
      total-append (λ c. 1) past recent,
      total-append micros_seen past recent,
      total-le (λ c. bit (is_failure c)) (λ c. 1) past (λ c. bit-le (is_failure c)),
      total-le failed_micros micros_seen past failed_micros-le,
    ) in
    let later = see_all-Adds base recent fits in
    latency_score-of _ penalty (count recent) (total (cost penalty) recent)
      (calls-diff base (see_all base recent) _ _ _ _ later (omega (arith, later, fits))) pos
      (window-cost base (see_all base recent) penalty (count recent) recent later l))
