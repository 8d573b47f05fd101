-- ===== src/Observer/Metrics.antt =====
-- `MetricsObserver` of src/observer/mod.rs: the state, its construction, and one function for each
-- method of the trait `Observer`. A call of the trait is a value of `Observed`.
use rpc_plus_plus.Prelude.Words.{◌+u64◌}
use rpc_plus_plus.Prelude.Options.{is_some}
use rpc_plus_plus.Prelude.Text.{Text}
use rpc_plus_plus.Prelude.Assoc.{Eq, text_equality, lookup, insert, update, keys}
use rpc_plus_plus.Jsonrpc.Method.{other_method, method_labels}
use rpc_plus_plus.Upstream.Call.{Duration, CallRecord}
use rpc_plus_plus.Upstream.Build.{UpstreamId, id_equality}
use rpc_plus_plus.Observer.Snapshot.{
  UpstreamStats, no_stats, Snapshot, snapshot_of, HedgeStats, RequestStats, no_requests,
}
use rpc_plus_plus.Observer.Record.{record_call, abandon, count_request}
use rpc_plus_plus.Prelude.{
  ℕ, ◌≡◌, ◌↔◌, Bool, true, ◌&&◌, Option, none, some, List, [], ◌∷◌, map, arith, if◌then◌else◌,
}

-- The key of a hedge: who was overtaken, and the upstream hedged to.
pub record Pair : Type 0 where
  pub overtaken : UpstreamId
  pub to : UpstreamId

unfoldable pub pair_beq : Pair → Pair → Bool
pair_beq a b = id_equality.beq a.overtaken b.overtaken && id_equality.beq a.to b.to

pub pair_beq_iff : (a b : Pair) → (pair_beq a b ≡ true) ↔ (a ≡ b)
unfolding pair_beq
pair_beq_iff a b = (
  λ h. ground (arith, id_equality.beq_iff a.overtaken b.overtaken, id_equality.beq_iff a.to b.to),
  λ e. ground (arith, id_equality.beq_iff a.overtaken b.overtaken, id_equality.beq_iff a.to b.to),
)

instance abbrev pub pair_equality : Eq Pair
pair_equality = record { beq = pair_beq; beq_iff = pair_beq_iff }

pub record MetricsObserver : Type 0 where
  pub stats : List (UpstreamId × UpstreamStats)
  pub hedges : List (Pair × HedgeStats)
  pub coalesced : ℕ
  pub failovers : List (UpstreamId × ℕ)
  pub requests : List (Text × RequestStats)

unfoldable pub insert_all :
    List UpstreamId → List (UpstreamId × UpstreamStats) → List (UpstreamId × UpstreamStats)
insert_all [] m = m
insert_all (u ∷ us) m = insert_all us (insert u no_stats m)

-- The inner loop of `new`: the pairs of one overtaken upstream, but not with itself.
unfoldable pub pairs_of :
    UpstreamId → List UpstreamId → List (Pair × HedgeStats) → List (Pair × HedgeStats)
pairs_of o [] m = m
pairs_of o (t ∷ ts) m = pairs_of o ts (
    if id_equality.beq t o
    then m
    else insert (record { overtaken = o; to = t }) (record { started = 0; won = 0 }) m)

unfoldable pub pairs :
    List UpstreamId → List UpstreamId → List (Pair × HedgeStats) → List (Pair × HedgeStats)
unfolding pairs_of
pairs [] ts m = m
pairs (o ∷ os) ts m = pairs os ts (pairs_of o ts m)

unfoldable pub new : List UpstreamId → MetricsObserver
unfolding insert_all pairs
new upstreams =
    let stats = insert_all upstreams [] in
    record {
      stats = stats;
      hedges = pairs (keys stats) (keys stats) [];
      coalesced = 0;
      failovers = map (λ u. (u, 0)) (keys stats);
      requests = map (λ m. (m, no_requests)) method_labels;
    }

-- `snapshot` and `hedge_snapshot`.
unfoldable pub snapshot : MetricsObserver → UpstreamId → Option Snapshot
snapshot o u = elim (lookup u o.stats) [ none ↦ none | some s ↦ some (snapshot_of s) ]

unfoldable pub hedge_snapshot : MetricsObserver → UpstreamId → UpstreamId → Option HedgeStats
hedge_snapshot o overtaken to = lookup (record { overtaken = overtaken; to = to }) o.hedges

-- `snapshot_map`.
unfoldable pub snapshot_map : MetricsObserver → List (UpstreamId × Snapshot)
snapshot_map o = map (λ e. (e.0, snapshot_of e.1)) o.stats

unfoldable pub record_hedge : UpstreamId → UpstreamId → MetricsObserver → MetricsObserver
record_hedge overtaken to o = record o {
  hedges =
      update (record { overtaken = overtaken; to = to })
        (λ h. record h { started = h.started +u64 1 }) o.hedges;
}

unfoldable pub record_hedge_win : UpstreamId → UpstreamId → MetricsObserver → MetricsObserver
record_hedge_win overtaken to o = record o {
  hedges =
      update (record { overtaken = overtaken; to = to }) (λ h. record h { won = h.won +u64 1 })
        o.hedges;
}

unfoldable pub record_coalesced : MetricsObserver → MetricsObserver
record_coalesced o = record o { coalesced = o.coalesced +u64 1 }

unfoldable pub record_failover : UpstreamId → MetricsObserver → MetricsObserver
record_failover from o = record o { failovers = update from (λ n. n +u64 1) o.failovers }

-- An unknown method is counted under `other`.
unfoldable pub record_request : Text → Bool → ℕ → Duration → MetricsObserver → MetricsObserver
record_request method was_answered attempts elapsed o = record o {
  requests =
      update (if is_some (lookup method o.requests) then method else other_method)
        (count_request was_answered attempts elapsed) o.requests;
}

unfoldable pub record_attempt : UpstreamId → CallRecord → MetricsObserver → MetricsObserver
record_attempt u r o = record o { stats = update u (record_call r) o.stats }

unfoldable pub record_abandoned : UpstreamId → Duration → MetricsObserver → MetricsObserver
record_abandoned u elapsed o = record o { stats = update u (abandon elapsed) o.stats }

-- The calls of the trait.
pub data Observed : Type 0 where
  attempted : UpstreamId → CallRecord → Observed
  abandoned : UpstreamId → Duration → Observed
  hedged : UpstreamId → UpstreamId → Observed
  hedge_won : UpstreamId → UpstreamId → Observed
  coalesced : Observed
  failed_over : UpstreamId → Observed
  requested : Text → Bool → ℕ → Duration → Observed

unfoldable pub observe : MetricsObserver → Observed → MetricsObserver
unfolding record_attempt record_abandoned record_hedge record_hedge_win record_coalesced
    record_failover record_request
observe o (attempted u r) = record_attempt u r o
observe o (abandoned u elapsed) = record_abandoned u elapsed o
observe o (hedged overtaken to) = record_hedge overtaken to o
observe o (hedge_won overtaken to) = record_hedge_win overtaken to o
observe o coalesced = record_coalesced o
observe o (failed_over from) = record_failover from o
observe o (requested method was_answered attempts elapsed) =
    record_request method was_answered attempts elapsed o

unfoldable pub observe_all : MetricsObserver → List Observed → MetricsObserver
unfolding observe
observe_all o [] = o
observe_all o (e ∷ es) = observe_all (observe o e) es
