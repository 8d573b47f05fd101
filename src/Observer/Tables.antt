-- ===== src/Observer/Tables.antt =====
-- `MetricsObserver::new` of src/observer/mod.rs: the keys of its tables, which differ, and their fresh
-- entries; and the tables after any calls.
use rpc_plus_plus.Prelude.Text.{text_eq}
use rpc_plus_plus.Prelude.Assoc.{Eq, text_equality, lookup, insert, keys}
use rpc_plus_plus.Prelude.AssocKeys.{
  IsDistinct, distinct, distinct→IsDistinct, insert-IsDistinct, lookup-insert_all,
}
use rpc_plus_plus.Prelude.AssocLog.{apply, act, apply-table}
use rpc_plus_plus.Jsonrpc.Method.{method_labels}
use rpc_plus_plus.Upstream.Build.{UpstreamId, id_equality}
use rpc_plus_plus.Observer.Snapshot.{UpstreamStats, no_stats, HedgeStats, no_requests}
use rpc_plus_plus.Observer.Metrics.{
  Pair, pair_equality, insert_all, pairs_of, pairs, new, Observed, observe_all,
}
use rpc_plus_plus.Observer.Logs.{
  stats_log, hedge_log, failover_log, request_log, observe_all-stats, observe_all-hedges,
  observe_all-failovers, observe_all-requests,
}
use rpc_plus_plus.Prelude.{
  ◌≡◌, refl, ap, ◌∙◌, inl, inr, some, List, [], ◌∷◌, map, arith, Bool-cases,
}

abbrev no_hedges : HedgeStats
no_hedges = record { started = 0; won = 0 }

-- The keys that differ, and entries that are all `v`.
record IsFresh {K V : Type 0} ⦃e : Eq K⦄ (v : V) (m : List (K × V)) : Type 0 where
  distinct : IsDistinct (keys m)
  alike : (k : K) (w : V) → lookup k m ≡ some w → w ≡ v

insert-IsFresh :
    {K V : Type 0} ⦃e : Eq K⦄ (k : K) (v : V) (m : List (K × V))
    → IsFresh v m
    → IsFresh v (insert k v m)
insert-IsFresh k v m f = record {
  distinct = insert-IsDistinct k v m f.distinct;
  alike = lookup-insert_all (λ w. w ≡ v) k v m refl f.alike;
}

nil-IsFresh : {K V : Type 0} ⦃e : Eq K⦄ (v : V) → IsFresh {K = K} v []
unfolding lookup
nil-IsFresh v = record { distinct = tt; alike = λ k w h. absurd (ground arith) }

insert_all-IsFresh :
    (us : List UpstreamId) (m : List (UpstreamId × UpstreamStats))
    → IsFresh no_stats m
    → IsFresh no_stats (insert_all us m)
unfolding insert_all
insert_all-IsFresh [] m f = f
insert_all-IsFresh (u ∷ us) m f =
    insert_all-IsFresh us (insert u no_stats m) (insert-IsFresh u no_stats m f)

pairs_of-IsFresh :
    (o : UpstreamId) (ts : List UpstreamId) (m : List (Pair × HedgeStats))
    → IsFresh no_hedges m
    → IsFresh no_hedges (pairs_of o ts m)
unfolding pairs_of
pairs_of-IsFresh o [] m f = f
pairs_of-IsFresh o (t ∷ ts) m f = elim (Bool-cases (id_equality.beq t o)) [
  | inl y ↦ rw y (pairs_of-IsFresh o ts m f)
  | inr n ↦ rw n (
      pairs_of-IsFresh o ts (insert (record { overtaken = o; to = t }) no_hedges m)
        (insert-IsFresh (record { overtaken = o; to = t }) no_hedges m f))
]

pairs-IsFresh :
    (os ts : List UpstreamId) (m : List (Pair × HedgeStats))
    → IsFresh no_hedges m
    → IsFresh no_hedges (pairs os ts m)
unfolding pairs
pairs-IsFresh [] ts m f = f
pairs-IsFresh (o ∷ os) ts m f = pairs-IsFresh os ts (pairs_of o ts m) (pairs_of-IsFresh o ts m f)

-- A table made from its keys.
keys-map : {K V : Type 0} ⦃e : Eq K⦄ (v : V) (ks : List K) → keys (map (λ k. (k, v)) ks) ≡ ks
keys-map v [] = refl
keys-map v (k ∷ ks) = ap (◌∷◌ k) (keys-map v ks)

lookup-map_same :
    {K V : Type 0} ⦃e : Eq K⦄ (v : V) (ks : List K) (k : K) (w : V)
    → lookup k (map (λ k. (k, v)) ks) ≡ some w
    → w ≡ v
unfolding lookup
lookup-map_same v [] k w h = absurd (ground arith)
lookup-map_same ⦃e⦄ v (j ∷ js) k w h = elim (Bool-cases (e.beq j k)) [
  | inl y ↦ ground arith
  | inr n ↦ lookup-map_same v js k w (rw n at h)
]

map-IsFresh :
    {K V : Type 0} ⦃e : Eq K⦄ (v : V) (ks : List K)
    → IsDistinct ks
    → IsFresh v (map (λ k. (k, v)) ks)
map-IsFresh v ks d = record { distinct = rw (keys-map v ks) d; alike = lookup-map_same v ks }

method_labels-IsDistinct : IsDistinct method_labels
unfolding method_labels distinct text_eq
method_labels-IsDistinct = distinct→IsDistinct method_labels refl

-- The upstreams of an observer that was built with these, and the pairs of them.
abbrev pub tracked : List UpstreamId → List UpstreamId
tracked ids = keys (insert_all ids [])

abbrev pub tracked_pairs : List UpstreamId → List Pair
tracked_pairs ids = keys (pairs (tracked ids) (tracked ids) [])

table :
    {K V : Type 0} ⦃e : Eq K⦄ (v : V) (m : List (K × V)) (log : List (K × (V → V)))
    → IsFresh v m
    → apply log m ≡ map (λ k. (k, act k log v)) (keys m)
table v m log f = apply-table v log m f.distinct f.alike

module _ (ids : List UpstreamId) (es : List Observed) where
  pub stats_table :
      (observe_all (new ids) es).stats ≡ map (λ u. (u, act u (stats_log es) no_stats)) (tracked ids)
  unfolding new
  stats_table =
      observe_all-stats (new ids) es
      ∙ table no_stats (insert_all ids []) (stats_log es)
          (insert_all-IsFresh ids [] (nil-IsFresh no_stats))

  pub hedges_table :
      (observe_all (new ids) es).hedges
      ≡ map (λ p. (p, act p (hedge_log es) no_hedges)) (tracked_pairs ids)
  unfolding new
  hedges_table =
      observe_all-hedges (new ids) es
      ∙ table no_hedges (pairs (tracked ids) (tracked ids) []) (hedge_log es)
          (pairs-IsFresh (tracked ids) (tracked ids) [] (nil-IsFresh no_hedges))

  pub failovers_table :
      (observe_all (new ids) es).failovers ≡ map (λ u. (u, act u (failover_log es) 0)) (tracked ids)
  unfolding new
  failovers_table =
      observe_all-failovers (new ids) es
      ∙ (table 0 (map (λ u. (u, 0)) (tracked ids)) (failover_log es) (
            map-IsFresh 0 (tracked ids) (insert_all-IsFresh ids [] (nil-IsFresh no_stats)).distinct)
          ∙ ap (map (λ u. (u, act u (failover_log es) 0))) (keys-map 0 (tracked ids)))

  pub requests_table :
      (observe_all (new ids) es).requests
      ≡ map (λ m. (m, act m (request_log method_labels es) no_requests)) method_labels
  unfolding new
  requests_table =
      observe_all-requests method_labels (new ids) es (keys-map no_requests method_labels)
      ∙ (table no_requests (map (λ m. (m, no_requests)) method_labels)
            (request_log method_labels es)
            (map-IsFresh no_requests method_labels method_labels-IsDistinct)
          ∙ ap (map (λ m. (m, act m (request_log method_labels es) no_requests)))
              (keys-map no_requests method_labels))
