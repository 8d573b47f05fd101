-- ===== src/Proxy/Counts.antt =====
-- How often each kind of event occurs in what a request tells the observer (src/proxy/mod.rs,
-- src/proxy/hedge.rs).
use rpc_plus_plus.Observer.Metrics.{
  Observed, attempted, abandoned, hedged, hedge_won, failed_over, requested,
}
use rpc_plus_plus.Prelude.{ℕ, suc, ◌+◌, ◌≡◌, List, [], ◌∷◌, ◌++◌, arith}

-- How many reports of calls, hedges, hedges won and failovers there are.
abbrev pub reports_in : List Observed → ℕ
reports_in [] = 0
reports_in (attempted u r ∷ es) = suc (reports_in es)
reports_in (abandoned u d ∷ es) = suc (reports_in es)
reports_in (_ ∷ es) = reports_in es

abbrev pub hedges_told : List Observed → ℕ
hedges_told [] = 0
hedges_told (hedged a b ∷ es) = suc (hedges_told es)
hedges_told (_ ∷ es) = hedges_told es

abbrev pub wins_told : List Observed → ℕ
wins_told [] = 0
wins_told (hedge_won a b ∷ es) = suc (wins_told es)
wins_told (_ ∷ es) = wins_told es

abbrev pub failovers_told : List Observed → ℕ
failovers_told [] = 0
failovers_told (failed_over a ∷ es) = suc (failovers_told es)
failovers_told (_ ∷ es) = failovers_told es

abbrev pub requests_told : List Observed → ℕ
requests_told [] = 0
requests_told (requested m w a d ∷ es) = suc (requests_told es)
requests_told (_ ∷ es) = requests_told es

-- All five counts.
pub record Counts : Type 0 where
  pub reports : ℕ
  pub hedges : ℕ
  pub wins : ℕ
  pub failovers : ℕ
  pub requests : ℕ

unfoldable pub counts : List Observed → Counts
counts es = record {
  reports = reports_in es;
  hedges = hedges_told es;
  wins = wins_told es;
  failovers = failovers_told es;
  requests = requests_told es;
}

abbrev pub plus : Counts → Counts → Counts
plus a b = record {
  reports = a.reports + b.reports;
  hedges = a.hedges + b.hedges;
  wins = a.wins + b.wins;
  failovers = a.failovers + b.failovers;
  requests = a.requests + b.requests;
}

pub counts-append : (es fs : List Observed) → counts (es ++ fs) ≡ plus (counts es) (counts fs)
unfolding counts
counts-append [] fs = ground arith
counts-append (attempted u r ∷ es) fs = ground (arith, counts-append es fs)
counts-append (abandoned u d ∷ es) fs = ground (arith, counts-append es fs)
counts-append (hedged a b ∷ es) fs = ground (arith, counts-append es fs)
counts-append (hedge_won a b ∷ es) fs = ground (arith, counts-append es fs)
counts-append (Observed.coalesced ∷ es) fs = ground (arith, counts-append es fs)
counts-append (failed_over a ∷ es) fs = ground (arith, counts-append es fs)
counts-append (requested m w a d ∷ es) fs = ground (arith, counts-append es fs)

-- The attempts that the records of requests state.
abbrev pub attempts_recorded : List Observed → ℕ
attempts_recorded [] = 0
attempts_recorded (requested m w attempts d ∷ es) = attempts + attempts_recorded es
attempts_recorded (_ ∷ es) = attempts_recorded es
