-- ===== src/Observer/Outcomes.antt =====
-- The outcomes that src/observer/prometheus.rs exposes for an upstream, told by the calls that the
-- observer has seen of it.
use rpc_plus_plus.Prelude.Results.{Result, ok, err}
use rpc_plus_plus.Prelude.Words.{u64, ◌+u64◌}
use rpc_plus_plus.Prelude.Text.{Text, text_eq}
use rpc_plus_plus.Upstream.Call.{CallError, is_retryable}
use rpc_plus_plus.Observer.Snapshot.{UpstreamStats, no_stats, snapshot_of, bucket_bounds_micros}
use rpc_plus_plus.Observer.Record.{count_outcome, count_retryable, record_call, abandon, micros_of}
use rpc_plus_plus.Observer.Tally.{
  Seen, finished, dropped, see, see_all, micros_seen, total, see-duration, see-buckets,
}
use rpc_plus_plus.Observer.Histogram.{count_all}
use rpc_plus_plus.Observer.Exposition.{
  success, abandoned, unreachable, read_failed, error_status, rpc_error, rpc_caller_fault, outcomes,
  attempts, sum,
}
use rpc_plus_plus.Prelude.{
  ℕ, ◌+◌, ◌≡◌, refl, sym, ap, ap₂, ◌∙◌, inl, inr, true, false, List, [], ◌∷◌, map, arith,
  if◌then◌else◌, Bool-cases, length, All,
}

abbrev pub outcome_labels : List Text
outcome_labels =
    success ∷ unreachable ∷ read_failed ∷ error_status ∷ rpc_error ∷ rpc_caller_fault ∷ abandoned
    ∷ []

abbrev pub error_label : CallError → Text
error_label (CallError.unreachable e) = unreachable
error_label (CallError.read_failed s e) = read_failed
error_label (CallError.rpc_error s c true b) = rpc_error
error_label (CallError.rpc_error s c false b) = rpc_caller_fault
error_label (CallError.error_status s) = error_status

abbrev result_label : Result ℕ CallError → Text
result_label (ok status) = success
result_label (err e) = error_label e

-- The outcome of a call: how it ended, or that it was abandoned.
abbrev pub outcome_label : Seen → Text
outcome_label (finished r) = result_label r.outcome
outcome_label (dropped elapsed) = abandoned

-- How many of the calls had the outcome.
abbrev pub count_labelled : Text → List Seen → ℕ
count_labelled l [] = 0
count_labelled l (c ∷ cs) = (if text_eq (outcome_label c) l then 1 else 0) + count_labelled l cs

abbrev bump_label : Text → Text × ℕ → Text × ℕ
bump_label l o = (o.0, if text_eq l o.0 then o.1 +u64 1 else o.1)

count_retryable-outcomes :
    (s : UpstreamStats) (r : Result ℕ CallError) (micros : ℕ)
    → outcomes (snapshot_of (count_retryable s r micros)) ≡ outcomes (snapshot_of s)
unfolding count_retryable outcomes snapshot_of
count_retryable-outcomes s (ok status) micros = refl
count_retryable-outcomes s (err e) micros = elim (Bool-cases (is_retryable e)) [
  | inl y ↦ rw y refl
  | inr n ↦ rw n refl
]

count_outcome-outcomes :
    (s : UpstreamStats) (r : Result ℕ CallError)
    → outcomes (snapshot_of (count_outcome s r))
      ≡ map (bump_label (result_label r)) (outcomes (snapshot_of s))
unfolding count_outcome outcomes snapshot_of text_eq
count_outcome-outcomes s (ok status) = refl
count_outcome-outcomes s (err (CallError.unreachable e)) = refl
count_outcome-outcomes s (err (CallError.read_failed status e)) = refl
count_outcome-outcomes s (err (CallError.rpc_error status c true b)) = refl
count_outcome-outcomes s (err (CallError.rpc_error status c false b)) = refl
count_outcome-outcomes s (err (CallError.error_status status)) = refl

see-outcomes :
    (s : UpstreamStats) (c : Seen)
    → outcomes (snapshot_of (see s c))
      ≡ map (bump_label (outcome_label c)) (outcomes (snapshot_of s))
unfolding see record_call abandon outcomes snapshot_of text_eq
see-outcomes s (dropped elapsed) = refl
see-outcomes s (finished r) =
    count_retryable-outcomes _ r.outcome (micros_of r.duration) ∙ count_outcome-outcomes s r.outcome

abbrev total_of : (Text → ℕ) → List Text → ℕ
total_of g [] = 0
total_of g (l ∷ ls) = g l + total_of g ls

-- A counter after the calls.
abbrev counted : List Seen → Text × ℕ → Text × ℕ
counted cs o = (o.0, o.1 +u64 count_labelled o.0 cs)

abbrev AreWords : List (Text × ℕ) → Type 0
AreWords os = All (λ o. u64 o.1 ≡ o.1) os

counted-nil : (os : List (Text × ℕ)) → AreWords os → map (counted []) os ≡ os
counted-nil [] w = refl
counted-nil ((l, n) ∷ os) w =
    let same : n +u64 0 ≡ n = omega (arith, w.0) in
    ap₂ (λ m rest. (l, m) ∷ rest) same (counted-nil os w.1)

bump_label-AreWords :
    (l : Text) (os : List (Text × ℕ)) → AreWords os → AreWords (map (bump_label l) os)
bump_label-AreWords l [] w = tt
bump_label-AreWords l ((m, n) ∷ os) w = elim (Bool-cases (text_eq l m)) [
  | inl y ↦ rw y (omega arith, bump_label-AreWords l os w.1)
  | inr no_match ↦ rw no_match (w.0, bump_label-AreWords l os w.1)
]

counted-cons :
    (c : Seen) (cs : List Seen) (os : List (Text × ℕ))
    → map (counted cs) (map (bump_label (outcome_label c)) os) ≡ map (counted (c ∷ cs)) os
counted-cons c cs [] = refl
counted-cons c cs ((l, n) ∷ os) = elim (Bool-cases (text_eq (outcome_label c) l)) [
  | inl y ↦
      let shift : (n +u64 1) +u64 count_labelled l cs ≡ n +u64 (1 + count_labelled l cs) =
        omega arith in
      rw y (ap₂ (λ m rest. (l, m) ∷ rest) shift (counted-cons c cs os))
  | inr no_match ↦
      let shift : n +u64 count_labelled l cs ≡ n +u64 (0 + count_labelled l cs) = omega arith in
      rw no_match (ap₂ (λ m rest. (l, m) ∷ rest) shift (counted-cons c cs os))
]

see_all-outcomes :
    (s : UpstreamStats) (cs : List Seen)
    → AreWords (outcomes (snapshot_of s))
    → outcomes (snapshot_of (see_all s cs)) ≡ map (counted cs) (outcomes (snapshot_of s))
unfolding see_all
see_all-outcomes s [] w = sym (counted-nil (outcomes (snapshot_of s)) w)
see_all-outcomes s (c ∷ cs) w =
    see_all-outcomes (see s c) cs
      (rw (see-outcomes s c) (bump_label-AreWords (outcome_label c) (outcomes (snapshot_of s)) w))
    ∙ (ap (map (counted cs)) (see-outcomes s c) ∙ counted-cons c cs (outcomes (snapshot_of s)))

counted_zeros :
    (cs : List Seen) (ls : List Text)
    → map (counted cs) (map (λ l. (l, 0)) ls) ≡ map (λ l. (l, u64 (count_labelled l cs))) ls
counted_zeros cs [] = refl
counted_zeros cs (l ∷ ls) =
    let plain : 0 +u64 count_labelled l cs ≡ u64 (count_labelled l cs) = omega arith in
    ap₂ (λ n rest. (l, n) ∷ rest) plain (counted_zeros cs ls)

-- From a fresh upstream, each outcome's counter is the number of the calls that ended so, as a
-- 64-bit count.
pub outcomes-see_all :
    (cs : List Seen)
    → outcomes (snapshot_of (see_all no_stats cs))
      ≡ map (λ l. (l, u64 (count_labelled l cs))) outcome_labels
unfolding outcomes snapshot_of
outcomes-see_all cs =
    see_all-outcomes no_stats cs (refl, (refl, (refl, (refl, (refl, (refl, (refl, tt)))))))
    ∙ counted_zeros cs outcome_labels

-- Whether it is the outcome, as a number.
abbrev is_outcome : Text → Text → ℕ
is_outcome label l = if text_eq label l then 1 else 0

error_label-one : (e : CallError) → total_of (is_outcome (error_label e)) outcome_labels ≡ 1
unfolding text_eq
error_label-one (CallError.unreachable e) = refl
error_label-one (CallError.read_failed s e) = refl
error_label-one (CallError.rpc_error s c true b) = refl
error_label-one (CallError.rpc_error s c false b) = refl
error_label-one (CallError.error_status s) = refl

result_label-one :
    (o : Result ℕ CallError) → total_of (is_outcome (result_label o)) outcome_labels ≡ 1
unfolding text_eq
result_label-one (ok status) = refl
result_label-one (err e) = error_label-one e

outcome_label-one : (c : Seen) → total_of (is_outcome (outcome_label c)) outcome_labels ≡ 1
unfolding text_eq
outcome_label-one (finished r) = result_label-one r.outcome
outcome_label-one (dropped elapsed) = refl

one_each : (cs : List Seen) → total_of (λ l. count_labelled l cs) outcome_labels ≡ length cs
one_each [] = refl
one_each (c ∷ cs) = omega (arith, outcome_label-one c, one_each cs)

sum-u64 :
    (g : Text → ℕ) (ls : List Text) (acc : ℕ)
    → sum (map (λ (o : Text × ℕ). o.1) (map (λ l. (l, u64 (g l))) ls)) (u64 acc)
      ≡ u64 (acc + total_of g ls)
unfolding sum
sum-u64 g [] acc = omega arith
sum-u64 g (l ∷ ls) acc =
    let step : u64 acc +u64 u64 (g l) ≡ u64 (acc + g l) = omega arith in
    let regroup : u64 (acc + g l + total_of g ls) ≡ u64 (acc + (g l + total_of g ls)) =
      omega arith in
    ap (sum (map (λ (o : Text × ℕ). o.1) (map (λ l. (l, u64 (g l))) ls))) step
    ∙ (sum-u64 g ls (acc + g l) ∙ regroup)

-- The count of the exposed histogram of an upstream is the number of its calls, as a 64-bit count:
-- each call has exactly one outcome.
pub attempts-see_all :
    (cs : List Seen) → attempts (snapshot_of (see_all no_stats cs)) ≡ u64 (length cs)
unfolding attempts
attempts-see_all cs =
    ap (λ os. sum (map (λ (o : Text × ℕ). o.1) os) 0) (outcomes-see_all cs)
    ∙ (sum-u64 (λ l. count_labelled l cs) outcome_labels 0 ∙ omega (arith, one_each cs))

pub see_all-duration :
    (s : UpstreamStats) (cs : List Seen)
    → u64 s.duration_micros_total ≡ s.duration_micros_total
    → (see_all s cs).duration_micros_total ≡ s.duration_micros_total +u64 total micros_seen cs
unfolding see_all
see_all-duration s [] w = omega arith
see_all-duration s (c ∷ cs) w =
    let first = see-duration s c in
    see_all-duration (see s c) cs (omega (arith, first)) ∙ omega (arith, first)

pub see_all-buckets :
    (s : UpstreamStats) (cs : List Seen)
    → (see_all s cs).buckets ≡ count_all bucket_bounds_micros s.buckets (map micros_seen cs)
unfolding see_all count_all
see_all-buckets s [] = refl
see_all-buckets s (c ∷ cs) =
    see_all-buckets (see s c) cs
    ∙ ap (λ b. count_all bucket_bounds_micros b (map micros_seen cs)) (see-buckets s c)
