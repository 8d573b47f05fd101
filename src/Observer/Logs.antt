-- ===== src/Observer/Logs.antt =====
-- The tables of `MetricsObserver` (src/observer/mod.rs) after any calls of its trait, from an observer
-- that was just built: each is its keys, each with what its own calls made of a fresh entry.
use rpc_plus_plus.Prelude.Options.{is_some}
use rpc_plus_plus.Prelude.Words.{u64, ◌+u64◌}
use rpc_plus_plus.Prelude.Text.{Text}
use rpc_plus_plus.Prelude.Assoc.{text_equality, lookup, update, keys, keys-update}
use rpc_plus_plus.Prelude.AssocKeys.{has, is_some-has}
use rpc_plus_plus.Prelude.AssocLog.{apply}
use rpc_plus_plus.Jsonrpc.Method.{other_method}
use rpc_plus_plus.Upstream.Build.{UpstreamId, id_equality}
use rpc_plus_plus.Observer.Snapshot.{UpstreamStats, HedgeStats, RequestStats}
use rpc_plus_plus.Observer.Record.{record_call, abandon, count_request}
use rpc_plus_plus.Observer.Metrics.{
  Pair, pair_equality, MetricsObserver, Observed, attempted, abandoned, hedged, hedge_won,
  failed_over, requested, observe, observe_all,
}
use rpc_plus_plus.Prelude.{ℕ, suc, ◌≡◌, refl, ap, ◌∙◌, List, [], ◌∷◌, arith, if◌then◌else◌}

abbrev pub Log {ℓ κ} : Type ℓ → Type κ → Type (ℓ ⊔ κ)
Log K V = List (K × (V → V))

-- The updates that the calls make, table by table.
abbrev pub stats_log : List Observed → Log UpstreamId UpstreamStats
stats_log [] = []
stats_log (attempted u r ∷ es) = (u, record_call r) ∷ stats_log es
stats_log (abandoned u elapsed ∷ es) = (u, abandon elapsed) ∷ stats_log es
stats_log (_ ∷ es) = stats_log es

abbrev pub hedge_log : List Observed → Log Pair HedgeStats
hedge_log [] = []
hedge_log (hedged overtaken to ∷ es) =
    (record { overtaken = overtaken; to = to }, λ h. record h { started = h.started +u64 1 })
    ∷ hedge_log es
hedge_log (hedge_won overtaken to ∷ es) =
    (record { overtaken = overtaken; to = to }, λ h. record h { won = h.won +u64 1 }) ∷ hedge_log es
hedge_log (_ ∷ es) = hedge_log es

abbrev pub failover_log : List Observed → Log UpstreamId ℕ
failover_log [] = []
failover_log (failed_over from ∷ es) = (from, λ n. n +u64 1) ∷ failover_log es
failover_log (_ ∷ es) = failover_log es

-- The label that a request is counted under, of those that are known.
abbrev pub counted_as : List Text → Text → Text
counted_as known method = if has method known then method else other_method

abbrev pub request_log : List Text → List Observed → Log Text RequestStats
request_log known [] = []
request_log known (requested method was_answered attempts elapsed ∷ es) =
    (counted_as known method, count_request was_answered attempts elapsed) ∷ request_log known es
request_log known (_ ∷ es) = request_log known es

abbrev pub coalesced_count : List Observed → ℕ
coalesced_count [] = 0
coalesced_count (Observed.coalesced ∷ es) = suc (coalesced_count es)
coalesced_count (_ ∷ es) = coalesced_count es

-- `coalesced` wraps as the counter does.
pub observe_all-coalesced :
    (o : MetricsObserver) (es : List Observed)
    → u64 o.coalesced ≡ o.coalesced
    → (observe_all o es).coalesced ≡ o.coalesced +u64 coalesced_count es
unfolding observe_all
observe_all-coalesced o [] e = omega arith
observe_all-coalesced o (attempted u r ∷ es) e =
    observe_all-coalesced (observe o (attempted u r)) es e
observe_all-coalesced o (abandoned u d ∷ es) e =
    observe_all-coalesced (observe o (abandoned u d)) es e
observe_all-coalesced o (hedged a b ∷ es) e = observe_all-coalesced (observe o (hedged a b)) es e
observe_all-coalesced o (hedge_won a b ∷ es) e =
    observe_all-coalesced (observe o (hedge_won a b)) es e
observe_all-coalesced o (Observed.coalesced ∷ es) e =
    observe_all-coalesced (observe o Observed.coalesced) es (omega arith) ∙ omega arith
observe_all-coalesced o (failed_over a ∷ es) e =
    observe_all-coalesced (observe o (failed_over a)) es e
observe_all-coalesced o (requested m w a d ∷ es) e =
    observe_all-coalesced (observe o (requested m w a d)) es e

pub observe_all-stats :
    (o : MetricsObserver) (es : List Observed)
    → (observe_all o es).stats ≡ apply (stats_log es) o.stats
unfolding observe_all apply
observe_all-stats o [] = refl
observe_all-stats o (attempted u r ∷ es) = observe_all-stats (observe o (attempted u r)) es
observe_all-stats o (abandoned u d ∷ es) = observe_all-stats (observe o (abandoned u d)) es
observe_all-stats o (hedged a b ∷ es) = observe_all-stats (observe o (hedged a b)) es
observe_all-stats o (hedge_won a b ∷ es) = observe_all-stats (observe o (hedge_won a b)) es
observe_all-stats o (Observed.coalesced ∷ es) = observe_all-stats (observe o Observed.coalesced) es
observe_all-stats o (failed_over a ∷ es) = observe_all-stats (observe o (failed_over a)) es
observe_all-stats o (requested m w a d ∷ es) = observe_all-stats (observe o (requested m w a d)) es

pub observe_all-hedges :
    (o : MetricsObserver) (es : List Observed)
    → (observe_all o es).hedges ≡ apply (hedge_log es) o.hedges
unfolding observe_all apply
observe_all-hedges o [] = refl
observe_all-hedges o (attempted u r ∷ es) = observe_all-hedges (observe o (attempted u r)) es
observe_all-hedges o (abandoned u d ∷ es) = observe_all-hedges (observe o (abandoned u d)) es
observe_all-hedges o (hedged a b ∷ es) = observe_all-hedges (observe o (hedged a b)) es
observe_all-hedges o (hedge_won a b ∷ es) = observe_all-hedges (observe o (hedge_won a b)) es
observe_all-hedges o (Observed.coalesced ∷ es) =
    observe_all-hedges (observe o Observed.coalesced) es
observe_all-hedges o (failed_over a ∷ es) = observe_all-hedges (observe o (failed_over a)) es
observe_all-hedges o (requested m w a d ∷ es) =
    observe_all-hedges (observe o (requested m w a d)) es

pub observe_all-failovers :
    (o : MetricsObserver) (es : List Observed)
    → (observe_all o es).failovers ≡ apply (failover_log es) o.failovers
unfolding observe_all apply
observe_all-failovers o [] = refl
observe_all-failovers o (attempted u r ∷ es) = observe_all-failovers (observe o (attempted u r)) es
observe_all-failovers o (abandoned u d ∷ es) = observe_all-failovers (observe o (abandoned u d)) es
observe_all-failovers o (hedged a b ∷ es) = observe_all-failovers (observe o (hedged a b)) es
observe_all-failovers o (hedge_won a b ∷ es) = observe_all-failovers (observe o (hedge_won a b)) es
observe_all-failovers o (Observed.coalesced ∷ es) =
    observe_all-failovers (observe o Observed.coalesced) es
observe_all-failovers o (failed_over a ∷ es) = observe_all-failovers (observe o (failed_over a)) es
observe_all-failovers o (requested m w a d ∷ es) =
    observe_all-failovers (observe o (requested m w a d)) es

pub observe_all-requests :
    (known : List Text) (o : MetricsObserver) (es : List Observed)
    → keys o.requests ≡ known
    → (observe_all o es).requests ≡ apply (request_log known es) o.requests
unfolding observe_all apply
observe_all-requests known o [] e = refl
observe_all-requests known o (attempted u r ∷ es) e =
    observe_all-requests known (observe o (attempted u r)) es e
observe_all-requests known o (abandoned u d ∷ es) e =
    observe_all-requests known (observe o (abandoned u d)) es e
observe_all-requests known o (hedged a b ∷ es) e =
    observe_all-requests known (observe o (hedged a b)) es e
observe_all-requests known o (hedge_won a b ∷ es) e =
    observe_all-requests known (observe o (hedge_won a b)) es e
observe_all-requests known o (Observed.coalesced ∷ es) e =
    observe_all-requests known (observe o Observed.coalesced) es e
observe_all-requests known o (failed_over a ∷ es) e =
    observe_all-requests known (observe o (failed_over a)) es e
observe_all-requests known o (requested m w a d ∷ es) e =
    let known_here : is_some (lookup m o.requests) ≡ has m known =
      is_some-has m o.requests ∙ ap (has m) e in
    let kept : keys (observe o (requested m w a d)).requests ≡ known =
      keys-update _ _ o.requests ∙ e in
    observe_all-requests known (observe o (requested m w a d)) es kept
    ∙ ap
        (λ b.
          apply (request_log known es)
            (update (if b then m else other_method) (count_request w a d) o.requests))
        known_here
