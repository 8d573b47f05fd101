-- ===== src/Proxy/Traces.antt =====
-- Which upstreams the events name that a request tells the observer (src/proxy/mod.rs,
-- src/proxy/hedge.rs): a failover, the upstream whose call has just been reported; a hedge, an
-- upstream and the one behind it in the order.
use rpc_plus_plus.Upstream.Build.{Upstream, UpstreamId}
use rpc_plus_plus.Observer.Metrics.{
  Observed, attempted, abandoned, hedged, hedge_won, failed_over, requested,
}
use rpc_plus_plus.Prelude.{ℕ, suc, ◌≡◌, arith, Option, none, some, List, [], ◌∷◌, ◌++◌, get_elem?}

-- `b` is right behind `a` in the order.
abbrev pub IsNext : List Upstream → UpstreamId → UpstreamId → Type 0
IsNext chain a b =
    (j : ℕ) × (u : Upstream) × (v : Upstream) × (get_elem? chain j ≡ some u)
    × (get_elem? chain (suc j) ≡ some v)
    × (u.id ≡ a)
    × (v.id ≡ b)

-- The events that follow `prev`, the upstream whose finished call was reported right before, if
-- there was one: a failover is from that upstream; a hedge, told as it starts or as it wins, is of
-- an upstream right behind the one that it overtakes.
abbrev pub Traces : List Upstream → Option UpstreamId → List Observed → Type 0
Traces chain prev [] = Unit
Traces chain prev (attempted u r ∷ es) = Traces chain (some u) es
Traces chain prev (failed_over a ∷ es) = (prev ≡ some a) × Traces chain none es
Traces chain prev (hedged a b ∷ es) = IsNext chain a b × Traces chain none es
Traces chain prev (hedge_won a b ∷ es) = IsNext chain a b × Traces chain none es
Traces chain prev (abandoned u d ∷ es) = Traces chain none es
Traces chain prev (Observed.coalesced ∷ es) = Traces chain none es
Traces chain prev (requested m w a d ∷ es) = Traces chain none es

pub Traces-weaken :
    (chain : List Upstream) (prev : Option UpstreamId) (es : List Observed)
    → Traces chain none es
    → Traces chain prev es
Traces-weaken chain prev [] h = tt
Traces-weaken chain prev (attempted u r ∷ es) h = h
Traces-weaken chain prev (failed_over a ∷ es) (e, h) = absurd (ground arith)
Traces-weaken chain prev (hedged a b ∷ es) h = h
Traces-weaken chain prev (hedge_won a b ∷ es) h = h
Traces-weaken chain prev (abandoned u d ∷ es) h = h
Traces-weaken chain prev (Observed.coalesced ∷ es) h = h
Traces-weaken chain prev (requested m w a d ∷ es) h = h

pub Traces-append :
    (chain : List Upstream) (prev : Option UpstreamId) (es fs : List Observed)
    → Traces chain prev es
    → Traces chain none fs
    → Traces chain prev (es ++ fs)
Traces-append chain prev [] fs h k = Traces-weaken chain prev fs k
Traces-append chain prev (attempted u r ∷ es) fs h k = Traces-append chain (some u) es fs h k
Traces-append chain prev (failed_over a ∷ es) fs (e, h) k = (e, Traces-append chain none es fs h k)
Traces-append chain prev (hedged a b ∷ es) fs (e, h) k = (e, Traces-append chain none es fs h k)
Traces-append chain prev (hedge_won a b ∷ es) fs (e, h) k = (e, Traces-append chain none es fs h k)
Traces-append chain prev (abandoned u d ∷ es) fs h k = Traces-append chain none es fs h k
Traces-append chain prev (Observed.coalesced ∷ es) fs h k = Traces-append chain none es fs h k
Traces-append chain prev (requested m w a d ∷ es) fs h k = Traces-append chain none es fs h k
