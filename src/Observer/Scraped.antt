-- ===== src/Observer/Scraped.antt =====
-- The histograms of src/observer/prometheus.rs, and what they say of the calls.
use rpc_plus_plus.Prelude.Words.{u64, ◌+u64◌}
use rpc_plus_plus.Prelude.Float.{Float}
use rpc_plus_plus.Prelude.Text.{Text, codes}
use rpc_plus_plus.Upstream.Build.{UpstreamId, id_equality}
use rpc_plus_plus.Observer.Snapshot.{
  no_stats, snapshot_of, bucket_bounds_micros, attempt_bounds, zeros,
}
use rpc_plus_plus.Observer.Tally.{Seen, see_all, micros_seen, total}
use rpc_plus_plus.Observer.Ledger.{calls_of}
use rpc_plus_plus.Observer.Histogram.{
  IsAscending, cumulative, count_le, count_all, cumulative-count_all,
}
use rpc_plus_plus.Observer.Metrics.{Observed}
use rpc_plus_plus.Observer.Outcomes.{attempts-see_all, see_all-duration, see_all-buckets}
use rpc_plus_plus.Observer.Asked.{Asked, summary, sum_of, answered_bit, failed_bit, micros_asked}
use rpc_plus_plus.Observer.Seen.{map-map}
use rpc_plus_plus.Observer.Exposition.{
  LabelPair, label, attempts, zip, Bucket, Metric, seconds, duration_histogram_metric,
  histogram_metric, attempts_histogram_metric,
}
use rpc_plus_plus.Observer.Collector.{flat_map, keep}
use rpc_plus_plus.Observer.Scrape.{sum_all, histogram_of, durations_of_upstream}
use rpc_plus_plus.Prelude.{
  ℕ, suc, ◌+◌, ◌≡◌, refl, sym, ap, ap₂, ◌∙◌, inl, inr, Bool, none, some, List, [], ◌∷◌, ◌++◌, map,
  arith, Bool-cases, length,
}

pub flat_map-map {ℓ κ ι} :
    {A : Type ℓ} {B : Type κ} {C : Type ι} (g : B → List C) (f : A → B) (xs : List A)
    → flat_map g (map f xs) ≡ flat_map (λ x. g (f x)) xs
flat_map-map g f [] = refl
flat_map-map g f (x ∷ xs) = ap (λ r. g (f x) ++ r) (flat_map-map g f xs)

pub keep-map {ℓ κ} :
    {A : Type ℓ} {B : Type κ} (p : B → Bool) (f : A → B) (xs : List A)
    → keep p (map f xs) ≡ map f (keep (λ x. p (f x)) xs)
keep-map p f [] = refl
keep-map p f (x ∷ xs) = elim (Bool-cases (p (f x))) [
  | inl y ↦ rw y (ap (◌∷◌ (f x)) (keep-map p f xs))
  | inr n ↦ rw n (keep-map p f xs)
]

zip-map : (g : ℕ → ℕ) (bs : List ℕ) → zip bs (map g bs) ≡ map (λ b. (b, g b)) bs
unfolding zip
zip-map g [] = refl
zip-map g (b ∷ bs) = ap (◌∷◌ (b, g b)) (zip-map g bs)

total-sum_all : (cs : List Seen) → total micros_seen cs ≡ sum_all (map micros_seen cs)
total-sum_all [] = refl
total-sum_all (c ∷ cs) = omega (arith, total-sum_all cs)

sum_of-sum_all : (g : Asked → ℕ) (qs : List Asked) → sum_of g qs ≡ sum_all (map g qs)
sum_of-sum_all g [] = refl
sum_of-sum_all g (q ∷ qs) = omega (arith, sum_of-sum_all g qs)

length-map {ℓ κ} :
    {A : Type ℓ} {B : Type κ} (g : A → B) (xs : List A) → length (map g xs) ≡ length xs
length-map g [] = refl
length-map g (x ∷ xs) = ap suc (length-map g xs)

-- Each request was answered or failed.
pub answered-failed :
    (qs : List Asked)
    → u64 (sum_of answered_bit qs) +u64 u64 (sum_of failed_bit qs) ≡ u64 (length qs)
answered-failed qs = omega (arith, each qs)
  where
    each : (qs : List Asked) → sum_of answered_bit qs + sum_of failed_bit qs ≡ length qs
    each [] = refl
    each (q ∷ qs) = ground (arith, each qs)

bucket_bounds-IsAscending : IsAscending bucket_bounds_micros
bucket_bounds-IsAscending = omega arith

attempt_bounds-IsAscending : IsAscending attempt_bounds
attempt_bounds-IsAscending = omega arith

zip-cumulative :
    (bounds xs : List ℕ)
    → IsAscending bounds
    → zip bounds (cumulative (count_all bounds (zeros (length bounds)) xs))
      ≡ map (λ b. (b, u64 (count_le b xs))) bounds
zip-cumulative bounds xs a =
    ap (zip bounds) (cumulative-count_all bounds xs a) ∙ zip-map (λ b. u64 (count_le b xs)) bounds

module _ (f : Float) where
  -- The exposed buckets, each a bound with its count.
  abbrev bucket_of : (ℕ → f.F64) → ℕ × ℕ → Bucket f
  bucket_of scale b = record { upper_bound = some (scale b.0); cumulative_count = some b.1 }

  buckets_exposed :
      (scale : ℕ → f.F64) (bounds xs : List ℕ)
      → IsAscending bounds
      → map
          (bucket_of scale)
          (zip bounds (cumulative (count_all bounds (zeros (length bounds)) xs)))
        ≡ map (λ b. bucket_of scale (b, u64 (count_le b xs))) bounds
  buckets_exposed scale bounds xs a =
      ap (map (bucket_of scale)) (zip-cumulative bounds xs a)
      ∙ map-map (bucket_of scale) (λ b. (b, u64 (count_le b xs))) bounds

  -- A histogram metric with these buckets.
  abbrev with_buckets : LabelPair → ℕ → f.F64 → List (Bucket f) → Metric f
  with_buckets l count sum buckets = record {
    label = l ∷ [];
    counter = none;
    histogram =
        some (record { sample_count = some count; sample_sum = some sum; bucket = buckets });
  }

  duration_histogram_metric-histogram_of :
      (l : LabelPair) (xs : List ℕ)
      → duration_histogram_metric f l
          (count_all bucket_bounds_micros (zeros 10) xs)
          (u64 (length xs))
          (u64 (sum_all xs))
        ≡ histogram_of f (seconds f) l bucket_bounds_micros xs
  unfolding duration_histogram_metric
  duration_histogram_metric-histogram_of l xs =
      ap (with_buckets l (u64 (length xs)) (seconds f (u64 (sum_all xs))))
        (buckets_exposed (seconds f) bucket_bounds_micros xs bucket_bounds-IsAscending)

  pub histogram_metric-durations :
      (es : List Observed) (u : UpstreamId)
      → histogram_metric f u.label (snapshot_of (see_all no_stats (calls_of u es)))
        ≡ durations_of_upstream f es u
  unfolding histogram_metric snapshot_of
  histogram_metric-durations es u =
      let cs = calls_of u es in
      let micros = map micros_seen cs in
      let l = label (codes "upstream") u.label in
      let counts : attempts (snapshot_of (see_all no_stats cs)) ≡ u64 (length micros) =
        attempts-see_all cs ∙ ap u64 (sym (length-map micros_seen cs)) in
      let time : (see_all no_stats cs).duration_micros_total ≡ u64 (sum_all micros) =
        see_all-duration no_stats cs refl ∙ omega (arith, total-sum_all cs) in
      ap
        (λ b.
          duration_histogram_metric f l b (attempts (snapshot_of (see_all no_stats cs)))
            (see_all no_stats cs).duration_micros_total)
        (see_all-buckets no_stats cs)
      ∙ (ap₂ (duration_histogram_metric f l (count_all bucket_bounds_micros (zeros 10) micros))
            counts time
          ∙ duration_histogram_metric-histogram_of l micros)

  pub attempts_histogram_metric-summary :
      (m : Text) (qs : List Asked)
      → attempts_histogram_metric f m (summary qs)
        ≡ histogram_of f f.of_u64
            (label (codes "method") m)
            attempt_bounds
            (map (λ q. q.attempts) qs)
  unfolding attempts_histogram_metric
  attempts_histogram_metric-summary m qs =
      let tries = map (λ (q : Asked). q.attempts) qs in
      let buckets =
        map (bucket_of f.of_u64)
          (zip attempt_bounds (cumulative (count_all attempt_bounds (zeros 5) tries))) in
      let counts : u64 (sum_of answered_bit qs) +u64 u64 (sum_of failed_bit qs)
          ≡ u64 (length tries) =
        answered-failed qs ∙ ap u64 (sym (length-map (λ (q : Asked). q.attempts) qs)) in
      let sums : f.of_u64 (u64 (sum_of (λ q. q.attempts) qs)) ≡ f.of_u64 (u64 (sum_all tries)) =
        ap (λ n. f.of_u64 (u64 n)) (sum_of-sum_all (λ q. q.attempts) qs) in
      ap₂ (λ c s. with_buckets (label (codes "method") m) c s buckets) counts sums
      ∙ ap
          (with_buckets (label (codes "method") m) (u64 (length tries))
            (f.of_u64 (u64 (sum_all tries))))
          (buckets_exposed f.of_u64 attempt_bounds tries attempt_bounds-IsAscending)

  pub duration_histogram_metric-summary :
      (m : Text) (qs : List Asked)
      → duration_histogram_metric f
          (label (codes "method") m)
          (summary qs).duration_buckets
          ((summary qs).answered +u64 (summary qs).failed)
          (summary qs).duration_micros_total
        ≡ histogram_of f
            (seconds f)
            (label (codes "method") m)
            bucket_bounds_micros
            (map micros_asked qs)
  duration_histogram_metric-summary m qs =
      let micros = map micros_asked qs in
      let counts : u64 (sum_of answered_bit qs) +u64 u64 (sum_of failed_bit qs)
          ≡ u64 (length micros) =
        answered-failed qs ∙ ap u64 (sym (length-map micros_asked qs)) in
      ap₂
        (duration_histogram_metric f (label (codes "method") m)
          (count_all bucket_bounds_micros (zeros 10) micros))
        counts (ap u64 (sum_of-sum_all micros_asked qs))
      ∙ duration_histogram_metric-histogram_of (label (codes "method") m) micros
