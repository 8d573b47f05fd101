-- ===== src/App/Deciders.antt =====
-- `build_decider` of src/app.rs: the chosen decider keeps the contract, and it is always built for an
-- observer of its upstreams.
use mathlib.Core.List.{Perm, append_assoc}
use mathlib.Core.List.Perm
use rpc_plus_plus.Prelude.Words.{◌+u64◌}
use rpc_plus_plus.Prelude.Results.{ok}
use rpc_plus_plus.Prelude.Assoc.{lookup, insert, lookup-insert}
use rpc_plus_plus.Prelude.AssocKeys.{has}
use rpc_plus_plus.Upstream.Call.{Duration}
use rpc_plus_plus.Upstream.Build.{UpstreamId, id_equality, Upstream}
use rpc_plus_plus.Observer.Snapshot.{UpstreamStats, no_stats}
use rpc_plus_plus.Observer.Metrics.{MetricsObserver, insert_all, snapshot, snapshot_map}
use rpc_plus_plus.Observer.Metrics as Observer
use rpc_plus_plus.Decider.Contract.{IsDecider, IsChain}
use rpc_plus_plus.Decider.Window
use rpc_plus_plus.Decider.RoundRobin.{RoundRobin, round_robin-IsDecider}
use rpc_plus_plus.Decider.RoundRobin
use rpc_plus_plus.Decider.LeastLatency.{LeastLatency, least_latency-IsDecider}
use rpc_plus_plus.Decider.LeastLatency
use rpc_plus_plus.Decider.LeastErrors
use rpc_plus_plus.Decider.Spawn.{
  check_tracked, checks, spawn_least_latency, spawn_prefer_least_errors, refresh_default,
  window_default, min_window_samples,
}
use rpc_plus_plus.Config.Settings.{DeciderKind}
use rpc_plus_plus.App.Wiring.{
  AnyDecider, round_robin, prefer_least_errors, least_latency, decide, pool_of, any_decider, Task,
  refresh_by_errors, refresh_by_latency, build_decider,
}
use rpc_plus_plus.Prelude.{
  ℕ, ◌≡◌, refl, sym, subst, ◌∙◌, inl, inr, true, false, some, List, [], ◌∷◌, ◌++◌, map, arith,
  Bool-cases, take, is_empty, All,
}

insert_all-keeps :
    (u : UpstreamId) (us : List UpstreamId) (m : List (UpstreamId × UpstreamStats))
    → lookup u m ≡ some no_stats
    → lookup u (insert_all us m) ≡ some no_stats
unfolding insert_all
insert_all-keeps u [] m h = h
insert_all-keeps u (v ∷ us) m h =
    insert_all-keeps u us (insert v no_stats m) (ground (arith, lookup-insert v u no_stats m))

insert_all-there :
    (u : UpstreamId) (us : List UpstreamId) (m : List (UpstreamId × UpstreamStats))
    → has u us ≡ true
    → lookup u (insert_all us m) ≡ some no_stats
unfolding insert_all has
insert_all-there u [] m h = absurd (ground arith)
insert_all-there u (v ∷ us) m h = elim (Bool-cases (id_equality.beq v u)) [
  | inl y ↦ insert_all-keeps u us (insert v no_stats m) (lookup-insert v u no_stats m ∙ rw y refl)
  | inr n ↦ insert_all-there u us (insert v no_stats m) (rw n at h)
]

-- Every upstream that the observer was built with is known to it.
check_tracked-new :
    (ids : List UpstreamId) (vs : List Upstream)
    → All (λ (v : Upstream). has v.id ids ≡ true) vs
    → check_tracked (Observer.new ids) vs ≡ ok tt
unfolding check_tracked snapshot Observer.new
check_tracked-new ids [] h = refl
check_tracked-new ids (v ∷ vs) h =
    rw (insert_all-there v.id ids [] h.0, check_tracked, snapshot, Observer.new)
      (check_tracked-new ids vs h.1)

has-append : (u : UpstreamId) (front back : List UpstreamId) → has u (front ++ u ∷ back) ≡ true
unfolding has
has-append u [] back = ground (arith, id_equality.beq_iff u u)
has-append u (v ∷ front) back = ground (arith, has-append u front back)

all_there :
    (front : List UpstreamId) (vs : List Upstream)
    → All (λ (v : Upstream). has v.id (front ++ map (λ (u : Upstream). u.id) vs) ≡ true) vs
all_there front [] = tt
all_there front (v ∷ vs) = (
  has-append v.id front (map (λ (u : Upstream). u.id) vs),
  subst (λ ids. All (λ (w : Upstream). has w.id ids ≡ true) vs)
      (append_assoc front (v.id ∷ []) (map (λ (u : Upstream). u.id) vs))
      (all_there (front ++ v.id ∷ []) vs),
)

module _ (us : List Upstream) (some_there : is_empty us ≡ false) where
  abbrev observer : MetricsObserver
  observer = Observer.new (map (λ (u : Upstream). u.id) us)

  checks-new : checks observer us window_default ≡ ok tt
  unfolding checks
  checks-new =
      rw (some_there, check_tracked-new (map (λ (u : Upstream). u.id) us) us (all_there [] us)) refl

-- The decider of the settings at its start: all the upstreams, in the order of the settings.
abbrev pub first_decider : DeciderKind → List Upstream → AnyDecider
first_decider DeciderKind.round_robin us = round_robin (record { upstreams = us; next = 0 })
first_decider DeciderKind.prefer_least_errors us = prefer_least_errors (record { ranking = us })
first_decider DeciderKind.least_latency us = least_latency (record { ranking = us; requests = 0 })

-- The window that a refresher starts with.
abbrev pub first_window : MetricsObserver → Window.Window
first_window o = Window.new (snapshot_map o) window_default refresh_default

-- The tasks that a decider of the kind needs.
abbrev pub first_tasks : DeciderKind → MetricsObserver → Duration → List Task
first_tasks DeciderKind.round_robin o rpc_timeout = []
first_tasks DeciderKind.prefer_least_errors o rpc_timeout =
    refresh_by_errors (record {
      window = first_window o;
      interval = refresh_default;
      min_samples = min_window_samples;
    })
    ∷ []
first_tasks DeciderKind.least_latency o rpc_timeout =
    refresh_by_latency (record {
      window = first_window o;
      interval = refresh_default;
      min_samples = min_window_samples;
      penalty = rpc_timeout;
    })
    ∷ []

-- Whatever the kind, a decider is built for one upstream or more and the observer of these: over
-- all the upstreams, in their order, with the task that its kind needs.
pub build_decider-first :
    (kind : DeciderKind) (us : List Upstream) (tasks : List Task) (rpc_timeout : Duration)
    → is_empty us ≡ false
    → let o = Observer.new (map (λ (u : Upstream). u.id) us) in
      build_decider kind us o tasks rpc_timeout
      ≡ ok (first_decider kind us, first_tasks kind o rpc_timeout ++ tasks)
unfolding build_decider RoundRobin.new spawn_prefer_least_errors Window.new spawn_least_latency
    snapshot_map
build_decider-first DeciderKind.round_robin us tasks rpc_timeout h = rw (h, RoundRobin.new) refl
build_decider-first DeciderKind.prefer_least_errors us tasks rpc_timeout h =
    rw (checks-new us h, spawn_prefer_least_errors) refl
build_decider-first DeciderKind.least_latency us tasks rpc_timeout h =
    rw (checks-new us h, spawn_least_latency) refl

-- Whichever decider the settings choose, it keeps the contract of a decider.
pub any_decider-IsDecider : IsDecider any_decider
unfolding decide LeastErrors.decide LeastLatency.decide
any_decider-IsDecider = record { pool = pool_of; decides = decides; counts = λ s. refl }
  where
    decides :
        (s : AnyDecider) (max : ℕ)
        → (chain : List Upstream) × (s' : AnyDecider) × (decide s max ≡ some (chain, s'))
          × IsChain max (pool_of s) chain
          × Perm (pool_of s') (pool_of s)
    decides (round_robin d) max = (
      (RoundRobin.decide d max).0,
      round_robin (RoundRobin.decide d max).1,
      refl,
      RoundRobin.decide-IsChain d max,
      subst (λ us. Perm us d.upstreams) (sym (RoundRobin.decide-upstreams d max)) (Perm.refl _),
    )
    decides (prefer_least_errors d) max = (
      take max d.ranking,
      prefer_least_errors d,
      refl,
      (d.ranking, Perm.refl _, refl),
      Perm.refl _,
    )
    decides (least_latency d) max =
        let (order, e, p) = LeastLatency.order_of-perm d.requests d.ranking in
        (
          take max order,
          least_latency (record d { requests = d.requests +u64 1 }),
          rw (e, decide, LeastLatency.decide) refl,
          (order, p, refl),
          Perm.refl _,
        )
