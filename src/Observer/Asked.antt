-- ===== src/Observer/Asked.antt =====
-- The counters of one method in src/observer/mod.rs, told by the requests that ran a chain of their
-- own.
use rpc_plus_plus.Prelude.Words.{u64, ◌+u64◌}
use rpc_plus_plus.Prelude.Text.{Text, text_eq}
use rpc_plus_plus.Prelude.Assoc.{text_equality}
use rpc_plus_plus.Prelude.AssocLog.{act}
use rpc_plus_plus.Upstream.Call.{Duration}
use rpc_plus_plus.Observer.Snapshot.{
  RequestStats, no_requests, bucket_bounds_micros, attempt_bounds, zeros,
}
use rpc_plus_plus.Observer.Record.{count_request, micros_of}
use rpc_plus_plus.Observer.Histogram.{count_all}
use rpc_plus_plus.Observer.Metrics.{
  Observed, attempted, abandoned, hedged, hedge_won, failed_over, requested,
}
use rpc_plus_plus.Observer.Logs.{request_log, counted_as}
use rpc_plus_plus.Prelude.{
  ℕ, ◌+◌, ◌≡◌, ◌∙◌, inl, inr, Bool, true, false, List, [], ◌∷◌, map, arith, if◌then◌else◌,
  Bool-cases,
}

pub record Asked : Type 0 where
  pub was_answered : Bool
  pub attempts : ℕ
  pub elapsed : Duration

-- The requests that are counted under the label, an unknown method under `other`.
abbrev pub asked_of : List Text → Text → List Observed → List Asked
asked_of known m [] = []
asked_of known m (requested method was_answered attempts elapsed ∷ es) =
    let rest = asked_of known m es in
    if text_eq (counted_as known method) m
    then record { was_answered = was_answered; attempts = attempts; elapsed = elapsed } ∷ rest
    else rest
asked_of known m (_ ∷ es) = asked_of known m es

abbrev pub sum_of : (Asked → ℕ) → List Asked → ℕ
sum_of g [] = 0
sum_of g (q ∷ qs) = g q + sum_of g qs

abbrev pub answered_bit : Asked → ℕ
answered_bit q = if q.was_answered then 1 else 0

abbrev pub failed_bit : Asked → ℕ
failed_bit q = if q.was_answered then 0 else 1

abbrev pub micros_asked : Asked → ℕ
micros_asked q = micros_of q.elapsed

abbrev summary_from : RequestStats → List Asked → RequestStats
summary_from s qs = record {
  answered = s.answered +u64 sum_of answered_bit qs;
  failed = s.failed +u64 sum_of failed_bit qs;
  attempt_buckets = count_all attempt_bounds s.attempt_buckets (map (λ q. q.attempts) qs);
  attempts_total = s.attempts_total +u64 sum_of (λ q. q.attempts) qs;
  duration_buckets = count_all bucket_bounds_micros s.duration_buckets (map micros_asked qs);
  duration_micros_total = s.duration_micros_total +u64 sum_of micros_asked qs;
}

-- What a method's counters say of its requests: how many were answered and how many not, the
-- attempts and the durations with their histograms.
abbrev pub summary : List Asked → RequestStats
summary qs = record {
  answered = u64 (sum_of answered_bit qs);
  failed = u64 (sum_of failed_bit qs);
  attempt_buckets = count_all attempt_bounds (zeros 5) (map (λ q. q.attempts) qs);
  attempts_total = u64 (sum_of (λ q. q.attempts) qs);
  duration_buckets = count_all bucket_bounds_micros (zeros 10) (map micros_asked qs);
  duration_micros_total = u64 (sum_of micros_asked qs);
}

-- The counters of a method are 64-bit words.
record AreWords (s : RequestStats) : Type 0 where
  answered : u64 s.answered ≡ s.answered
  failed : u64 s.failed ≡ s.failed
  attempts : u64 s.attempts_total ≡ s.attempts_total
  duration : u64 s.duration_micros_total ≡ s.duration_micros_total

count_request-AreWords :
    (w : Bool) (a : ℕ) (d : Duration) (s : RequestStats)
    → AreWords s
    → AreWords (count_request w a d s)
unfolding count_request
count_request-AreWords true a d s h = omega arith
count_request-AreWords false a d s h = omega arith

ask : Asked → RequestStats → RequestStats
ask q s = count_request q.was_answered q.attempts q.elapsed s

summary_from-cons :
    (q : Asked) (qs : List Asked) (s : RequestStats)
    → summary_from (ask q s) qs ≡ summary_from s (q ∷ qs)
unfolding ask count_request count_all
summary_from-cons q qs s = elim (Bool-cases q.was_answered) [
  | inl y ↦ rw y (ground arith)
  | inr n ↦ rw n (ground arith)
]

summary_from-nil : (s : RequestStats) → AreWords s → s ≡ summary_from s []
unfolding count_all
summary_from-nil s h = ground arith

act-request_log_from :
    (known : List Text) (m : Text) (es : List Observed) (s : RequestStats)
    → AreWords s
    → act m (request_log known es) s ≡ summary_from s (asked_of known m es)
act-request_log_from known m [] s h = summary_from-nil s h
act-request_log_from known m (attempted u r ∷ es) s h = act-request_log_from known m es s h
act-request_log_from known m (abandoned u d ∷ es) s h = act-request_log_from known m es s h
act-request_log_from known m (hedged a b ∷ es) s h = act-request_log_from known m es s h
act-request_log_from known m (hedge_won a b ∷ es) s h = act-request_log_from known m es s h
act-request_log_from known m (Observed.coalesced ∷ es) s h = act-request_log_from known m es s h
act-request_log_from known m (failed_over a ∷ es) s h = act-request_log_from known m es s h
act-request_log_from known m (requested method w a d ∷ es) s h =
    elim (Bool-cases (text_eq (counted_as known method) m)) [
      | inl y ↦
          rw (y, act)
            (act-request_log_from known m es (count_request w a d s)
                (count_request-AreWords w a d s h)
              ∙ unfold ask in
                summary_from-cons (record { was_answered = w; attempts = a; elapsed = d })
                  (asked_of known m es) s)
      | inr n ↦ rw (n, act) (act-request_log_from known m es s h)
    ]

pub act-request_log :
    (known : List Text) (m : Text) (es : List Observed)
    → act m (request_log known es) no_requests ≡ summary (asked_of known m es)
act-request_log known m es =
    act-request_log_from known m es no_requests (omega arith) ∙ ground arith
