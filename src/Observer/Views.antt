-- ===== src/Observer/Views.antt =====
-- The sorted views of `MetricsObserver` in src/observer/mod.rs, which the collector exposes. The
-- keys of a view differ, so that `sort_unstable_by` has one result.
use rpc_plus_plus.Prelude.Text.{Text, text_eq, text_leb}
use rpc_plus_plus.Prelude.Sort.{sort_by}
use rpc_plus_plus.Upstream.Build.{UpstreamId}
use rpc_plus_plus.Observer.Snapshot.{Snapshot, snapshot_of, HedgeStats, RequestStats}
use rpc_plus_plus.Observer.Metrics.{Pair, MetricsObserver}
use rpc_plus_plus.Prelude.{ℕ, Bool, List, map, if◌then◌else◌}

-- `a.as_str().cmp(b.as_str())` is not `Greater`.
abbrev pub id_le : UpstreamId → UpstreamId → Bool
id_le a b = text_leb a.label b.label

-- The same for a pair of labels.
abbrev pub pair_le : Pair → Pair → Bool
pair_le p q =
    if text_eq p.overtaken.label q.overtaken.label
    then text_leb p.to.label q.to.label
    else text_leb p.overtaken.label q.overtaken.label

abbrev pub by_key {ℓ κ} : {K : Type ℓ} {V : Type κ} → (K → K → Bool) → K × V → K × V → Bool
by_key le a b = le a.0 b.0

unfoldable pub snapshots : MetricsObserver → List (UpstreamId × Snapshot)
unfolding snapshot_of sort_by
snapshots o = sort_by (by_key id_le) (map (λ e. (e.0, snapshot_of e.1)) o.stats)

unfoldable pub hedge_snapshots : MetricsObserver → List (Pair × HedgeStats)
unfolding sort_by
hedge_snapshots o = sort_by (by_key pair_le) o.hedges

unfoldable pub coalesced : MetricsObserver → ℕ
coalesced o = o.coalesced

unfoldable pub failovers : MetricsObserver → List (UpstreamId × ℕ)
unfolding sort_by
failovers o = sort_by (by_key id_le) o.failovers

unfoldable pub requests : MetricsObserver → List (Text × RequestStats)
unfolding sort_by
requests o = sort_by (by_key text_leb) o.requests
