-- ===== src/Observer/Seen.antt =====
-- The sorted views of src/observer/mod.rs after any calls of the trait: sorted keys, each with what the
-- calls made of its counters.
use mathlib.Core.Path.{fun_ext}
use rpc_plus_plus.Prelude.Text.{text_leb}
use rpc_plus_plus.Prelude.Words.{u64}
use rpc_plus_plus.Prelude.Sort.{sort_by, map-sort_by}
use rpc_plus_plus.Prelude.AssocLog.{act}
use rpc_plus_plus.Jsonrpc.Method.{method_labels}
use rpc_plus_plus.Upstream.Build.{UpstreamId, id_equality}
use rpc_plus_plus.Observer.Snapshot.{UpstreamStats, no_stats, snapshot_of}
use rpc_plus_plus.Observer.Tally.{see_all}
use rpc_plus_plus.Observer.Ledger.{calls_of}
use rpc_plus_plus.Observer.Metrics.{new, Observed, observe_all}
use rpc_plus_plus.Observer.Views.{
  id_le, pair_le, by_key, snapshots, hedge_snapshots, coalesced, failovers, requests,
}
use rpc_plus_plus.Observer.Logs.{stats_log, coalesced_count, observe_all-coalesced}
use rpc_plus_plus.Observer.Tables.{
  tracked, tracked_pairs, stats_table, hedges_table, failovers_table, requests_table,
}
use rpc_plus_plus.Observer.Moves.{
  act-stats_log, failovers_from, act-failover_log, hedges_of, hedge_wins_of, act-hedge_log,
}
use rpc_plus_plus.Observer.Asked.{asked_of, summary, act-request_log}
use rpc_plus_plus.Prelude.{◌≡◌, refl, ap, ◌∙◌, Bool, List, [], ◌∷◌, map, arith}

pub map-map {ℓ κ ι} :
    {A : Type ℓ} {B : Type κ} {C : Type ι} (g : B → C) (f : A → B) (xs : List A)
    → map g (map f xs) ≡ map (λ x. g (f x)) xs
map-map g f [] = refl
map-map g f (x ∷ xs) = ap (◌∷◌ (g (f x))) (map-map g f xs)

-- Entries that a key determines, sorted by the key.
sorted_entries :
    {K V : Type 0} (le : K → K → Bool) (value value' : K → V) (ks : List K)
    → ((k : K) → value k ≡ value' k)
    → sort_by (by_key le) (map (λ k. (k, value k)) ks) ≡ map (λ k. (k, value' k)) (sort_by le ks)
sorted_entries le value value' ks same =
    map-sort_by le (by_key le) (λ k. (k, value k)) (λ a b. refl) ks
    ∙ ap (λ g. map (λ k. (k, g k)) (sort_by le ks)) (fun_ext same)

module _ (ids : List UpstreamId) (es : List Observed) where
  pub snapshots_seen :
      snapshots (observe_all (new ids) es)
      ≡ map (λ u. (u, snapshot_of (see_all no_stats (calls_of u es)))) (sort_by id_le (tracked ids))
  unfolding snapshots
  snapshots_seen =
      ap (λ t. sort_by (by_key id_le) (map (λ e. (e.0, snapshot_of e.1)) t)) (stats_table ids es)
      ∙ (ap (sort_by (by_key id_le)) (
            map-map (λ (e : UpstreamId × UpstreamStats). (e.0, snapshot_of e.1))
              (λ u. (u, act u (stats_log es) no_stats)) (tracked ids))
          ∙ sorted_entries id_le _ (λ u. snapshot_of (see_all no_stats (calls_of u es)))
              (tracked ids) (λ u. ap snapshot_of (act-stats_log u es no_stats)))

  pub hedge_snapshots_seen :
      hedge_snapshots (observe_all (new ids) es)
      ≡ map
          (λ p. (p, record { started = u64 (hedges_of p es); won = u64 (hedge_wins_of p es) }))
          (sort_by pair_le (tracked_pairs ids))
  unfolding hedge_snapshots
  hedge_snapshots_seen =
      ap (sort_by (by_key pair_le)) (hedges_table ids es)
      ∙ sorted_entries pair_le _
          (λ p. record { started = u64 (hedges_of p es); won = u64 (hedge_wins_of p es) })
          (tracked_pairs ids) (λ p. act-hedge_log p es)

  pub failovers_seen :
      failovers (observe_all (new ids) es)
      ≡ map (λ u. (u, u64 (failovers_from u es))) (sort_by id_le (tracked ids))
  unfolding failovers
  failovers_seen =
      ap (sort_by (by_key id_le)) (failovers_table ids es)
      ∙ sorted_entries id_le _ (λ u. u64 (failovers_from u es)) (tracked ids)
          (λ u. act-failover_log u es)

  pub requests_seen :
      requests (observe_all (new ids) es)
      ≡ map (λ m. (m, summary (asked_of method_labels m es))) (sort_by text_leb method_labels)
  unfolding requests
  requests_seen =
      ap (sort_by (by_key text_leb)) (requests_table ids es)
      ∙ sorted_entries text_leb _ (λ m. summary (asked_of method_labels m es)) method_labels
          (λ m. act-request_log method_labels m es)

  pub coalesced_seen : coalesced (observe_all (new ids) es) ≡ u64 (coalesced_count es)
  unfolding coalesced new
  coalesced_seen = observe_all-coalesced (new ids) es refl ∙ omega arith
