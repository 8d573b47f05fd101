-- ===== src/Decider/Spawn.antt =====
-- `LeastLatency::new` and `PreferLeastErrors::new` of src/decider, which start with a full ranking and a
-- seeded window.
use rpc_plus_plus.Prelude.Results.{Result, ok, err, ◌>>=◌, ◌>>◌, guard, >>=-eq-ok, ok_inj}
use rpc_plus_plus.Upstream.Call.{Duration, from_secs}
use rpc_plus_plus.Upstream.Build.{Upstream, UpstreamId}
use rpc_plus_plus.Observer.Snapshot.{Snapshot}
use rpc_plus_plus.Observer.Metrics.{MetricsObserver, snapshot, snapshot_map}
use rpc_plus_plus.Decider.Window
use rpc_plus_plus.Decider.Window.{Window, oldest}
use rpc_plus_plus.Decider.LeastLatency.{LeastLatency}
use rpc_plus_plus.Decider.LatencyRefresh.{LatencyRefresher}
use rpc_plus_plus.Decider.LeastErrors.{PreferLeastErrors, RankingRefresher}
use rpc_plus_plus.Prelude.{
  ℕ, zero, suc, ◌<◌, ◌≡◌, refl, sym, ap, subst, ◌∙◌, inl, inr, false, not, none, some, List, [],
  ◌∷◌, arith, ◌==◌, Option-cases, length, is_empty, All,
}

pub data BuildError : Type 0 where
  empty_upstreams : BuildError
  unknown_upstream : UpstreamId → BuildError
  zero_window : BuildError

abbrev pub refresh_default : Duration
refresh_default = from_secs 15

abbrev pub window_default : ℕ
window_default = 4

abbrev pub min_window_samples : ℕ
min_window_samples = 20

-- The loop over the upstreams: each must be known to the observer.
unfoldable pub check_tracked : MetricsObserver → List Upstream → Result (Unit {0}) BuildError
check_tracked o [] = ok tt
check_tracked o (u ∷ us) = elim (snapshot o u.id) [
  | none ↦ err (unknown_upstream u.id)
  | some s ↦ check_tracked o us
]

unfoldable pub checks : MetricsObserver → List Upstream → ℕ → Result (Unit {0}) BuildError
unfolding check_tracked
checks o upstreams window = do
  guard (not (is_empty upstreams)) empty_upstreams
  guard (not (window == 0)) zero_window
  check_tracked o upstreams

unfoldable pub spawn_least_latency :
    MetricsObserver
    → List Upstream
    → Duration
    → Duration
    → ℕ
    → ℕ
    → Result (LeastLatency × LatencyRefresher) BuildError
spawn_least_latency o upstreams penalty refresh window min_samples =
    checks o upstreams window >>= λ passed. ok (
      record { ranking = upstreams; requests = 0 },
      record {
        window = Window.new (snapshot_map o) window refresh;
        interval = refresh;
        min_samples = min_samples;
        penalty = penalty;
      },
    )

unfoldable pub spawn_prefer_least_errors :
    MetricsObserver
    → List Upstream
    → Duration
    → ℕ
    → Result (PreferLeastErrors × RankingRefresher) BuildError
spawn_prefer_least_errors o upstreams refresh window = checks o upstreams window >>= λ passed. ok (
  record { ranking = upstreams },
  record {
    window = Window.new (snapshot_map o) window refresh;
    interval = refresh;
    min_samples = min_window_samples;
  },
)

abbrev pub Tracked : MetricsObserver → Upstream → Type 0
Tracked o u = (s : Snapshot) × (snapshot o u.id ≡ some s)

check_tracked-Tracked :
    (o : MetricsObserver) (us : List Upstream) → check_tracked o us ≡ ok tt → All (Tracked o) us
unfolding check_tracked
check_tracked-Tracked o [] h = tt
check_tracked-Tracked o (u ∷ us) h = elim (Option-cases (snapshot o u.id)) [
  | inl unknown ↦ absurd (ground arith)
  | inr (s, e) ↦ ((s, e), check_tracked-Tracked o us (sym (rw (e, check_tracked) refl) ∙ h))
]

checks-ok :
    (o : MetricsObserver) (us : List Upstream) (window : ℕ)
    → checks o us window ≡ ok tt
    → (0 < length us) × (0 < window) × All (Tracked o) us
unfolding checks
checks-ok o [] window h = absurd (ground arith)
checks-ok o (u ∷ us) zero h = absurd (ground arith)
checks-ok o (u ∷ us) (suc n) h =
    let positive : (suc n == 0) ≡ false = ground arith in
    (omega arith, omega arith, check_tracked-Tracked o (u ∷ us) (rw positive at h))

-- A latency decider that was spawned ranks all its upstreams, in the order given, of which there is
-- one or more and each is known to the observer; and its window holds the observer's snapshots, so
-- that no refresh panics.
pub spawn_least_latency-ready :
    (o : MetricsObserver) (us : List Upstream) (penalty refresh : Duration) (window min_samples : ℕ)
    (d : LeastLatency) (r : LatencyRefresher)
    → spawn_least_latency o us penalty refresh window min_samples ≡ ok (d, r)
    → (d.ranking ≡ us)
      × (0 < length us)
      × All (Tracked o) us
      × (oldest r.window ≡ some (snapshot_map o))
      × (0 < r.window.ticks)
unfolding spawn_least_latency Window.new oldest
spawn_least_latency-ready o us penalty refresh window min_samples d r h =
    let (passed, e, g) = >>=-eq-ok (checks o us window) _ h in
    let (some_there, positive, tracked) = checks-ok o us window e in
    (
      ap (λ x. x.ranking) (sym (ap (λ x. x.0) (ok_inj g))),
      some_there,
      tracked,
      subst (λ x. oldest x.window ≡ some (snapshot_map o)) (ap (λ x. x.1) (ok_inj g)) refl,
      subst (λ x. 0 < x.window.ticks) (ap (λ x. x.1) (ok_inj g)) positive,
    )
