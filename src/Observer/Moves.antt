-- ===== src/Observer/Moves.antt =====
-- The counters of pairs, failovers and methods in src/observer/mod.rs, told by the calls that the
-- observer has seen.
use rpc_plus_plus.Prelude.Words.{u64, ◌+u64◌}
use rpc_plus_plus.Prelude.Assoc.{text_equality}
use rpc_plus_plus.Prelude.AssocLog.{act}
use rpc_plus_plus.Upstream.Build.{UpstreamId, id_equality}
use rpc_plus_plus.Observer.Snapshot.{UpstreamStats, HedgeStats}
use rpc_plus_plus.Observer.Record.{record_call, abandon}
use rpc_plus_plus.Observer.Tally.{see, see_all}
use rpc_plus_plus.Observer.Ledger.{calls_of}
use rpc_plus_plus.Observer.Metrics.{
  Pair, pair_equality, Observed, attempted, abandoned, hedged, hedge_won, failed_over, requested,
}
use rpc_plus_plus.Observer.Logs.{stats_log, hedge_log, failover_log}
use rpc_plus_plus.Prelude.{
  ℕ, ◌+◌, ◌≡◌, refl, ◌∙◌, inl, inr, List, [], ◌∷◌, arith, if◌then◌else◌, Bool-cases,
}

pub act-stats_log :
    (u : UpstreamId) (es : List Observed) (s : UpstreamStats)
    → act u (stats_log es) s ≡ see_all s (calls_of u es)
unfolding see_all see
act-stats_log u [] s = refl
act-stats_log u (attempted v r ∷ es) s = elim (Bool-cases (id_equality.beq v u)) [
  | inl y ↦ rw (y, act) (act-stats_log u es (record_call r s))
  | inr n ↦ rw (n, act) (act-stats_log u es s)
]
act-stats_log u (abandoned v elapsed ∷ es) s = elim (Bool-cases (id_equality.beq v u)) [
  | inl y ↦ rw (y, act) (act-stats_log u es (abandon elapsed s))
  | inr n ↦ rw (n, act) (act-stats_log u es s)
]
act-stats_log u (hedged a b ∷ es) s = act-stats_log u es s
act-stats_log u (hedge_won a b ∷ es) s = act-stats_log u es s
act-stats_log u (Observed.coalesced ∷ es) s = act-stats_log u es s
act-stats_log u (failed_over a ∷ es) s = act-stats_log u es s
act-stats_log u (requested m w a d ∷ es) s = act-stats_log u es s

-- How often the chain moved past the upstream.
abbrev pub failovers_from : UpstreamId → List Observed → ℕ
failovers_from u [] = 0
failovers_from u (failed_over v ∷ es) = (if id_equality.beq v u then 1 else 0) + failovers_from u es
failovers_from u (_ ∷ es) = failovers_from u es

act-failover_log_from :
    (u : UpstreamId) (es : List Observed) (n : ℕ)
    → u64 n ≡ n
    → act u (failover_log es) n ≡ n +u64 failovers_from u es
act-failover_log_from u [] n w = omega arith
act-failover_log_from u (attempted v r ∷ es) n w = act-failover_log_from u es n w
act-failover_log_from u (abandoned v elapsed ∷ es) n w = act-failover_log_from u es n w
act-failover_log_from u (hedged a b ∷ es) n w = act-failover_log_from u es n w
act-failover_log_from u (hedge_won a b ∷ es) n w = act-failover_log_from u es n w
act-failover_log_from u (Observed.coalesced ∷ es) n w = act-failover_log_from u es n w
act-failover_log_from u (failed_over v ∷ es) n w = elim (Bool-cases (id_equality.beq v u)) [
  | inl y ↦ rw (y, act) (omega (arith, act-failover_log_from u es (n +u64 1) (omega arith)))
  | inr other ↦ rw (other, act) (omega (arith, act-failover_log_from u es n w))
]
act-failover_log_from u (requested m v a d ∷ es) n w = act-failover_log_from u es n w

pub act-failover_log :
    (u : UpstreamId) (es : List Observed) → act u (failover_log es) 0 ≡ u64 (failovers_from u es)
act-failover_log u es = omega (arith, act-failover_log_from u es 0 refl)

-- How often a hedge of the pair was started, and how often it won.
abbrev pub hedges_of : Pair → List Observed → ℕ
hedges_of p [] = 0
hedges_of p (hedged a b ∷ es) =
    (if pair_equality.beq (record { overtaken = a; to = b }) p then 1 else 0) + hedges_of p es
hedges_of p (_ ∷ es) = hedges_of p es

abbrev pub hedge_wins_of : Pair → List Observed → ℕ
hedge_wins_of p [] = 0
hedge_wins_of p (hedge_won a b ∷ es) =
    (if pair_equality.beq (record { overtaken = a; to = b }) p then 1 else 0) + hedge_wins_of p es
hedge_wins_of p (_ ∷ es) = hedge_wins_of p es

abbrev IsWord : ℕ → Type 0
IsWord n = u64 n ≡ n

act-hedge_log_from :
    (p : Pair) (es : List Observed) (h : HedgeStats)
    → IsWord h.started
    → IsWord h.won
    → act p (hedge_log es) h
      ≡ record { started = h.started +u64 hedges_of p es; won = h.won +u64 hedge_wins_of p es }
act-hedge_log_from p [] h s w = ground arith
act-hedge_log_from p (attempted v r ∷ es) h s w = act-hedge_log_from p es h s w
act-hedge_log_from p (abandoned v elapsed ∷ es) h s w = act-hedge_log_from p es h s w
act-hedge_log_from p (hedged a b ∷ es) h s w =
    elim (Bool-cases (pair_equality.beq (record { overtaken = a; to = b }) p)) [
      | inl y ↦
          let ih =
            act-hedge_log_from p es (record h { started = h.started +u64 1 }) (omega arith) w in
          rw y (ground (arith, ih))
      | inr n ↦ rw n (ground (arith, act-hedge_log_from p es h s w))
    ]
act-hedge_log_from p (hedge_won a b ∷ es) h s w =
    elim (Bool-cases (pair_equality.beq (record { overtaken = a; to = b }) p)) [
      | inl y ↦
          let ih = act-hedge_log_from p es (record h { won = h.won +u64 1 }) s (omega arith) in
          rw y (ground (arith, ih))
      | inr n ↦ rw n (ground (arith, act-hedge_log_from p es h s w))
    ]
act-hedge_log_from p (Observed.coalesced ∷ es) h s w = act-hedge_log_from p es h s w
act-hedge_log_from p (failed_over a ∷ es) h s w = act-hedge_log_from p es h s w
act-hedge_log_from p (requested m v a d ∷ es) h s w = act-hedge_log_from p es h s w

pub act-hedge_log :
    (p : Pair) (es : List Observed)
    → act p (hedge_log es) (record { started = 0; won = 0 })
      ≡ record { started = u64 (hedges_of p es); won = u64 (hedge_wins_of p es) }
act-hedge_log p es =
    act-hedge_log_from p es (record { started = 0; won = 0 }) refl refl ∙ ground arith
