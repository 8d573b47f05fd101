-- ===== src/Observer/Ledger.antt =====
-- What `MetricsObserver` holds after any calls of its trait: each upstream's counters have seen its
-- own calls, in their order, and nothing else.
use mathlib.Core.Option
use rpc_plus_plus.Prelude.Assoc.{lookup, update, lookup-update}
use rpc_plus_plus.Upstream.Build.{UpstreamId, id_equality}
use rpc_plus_plus.Observer.Snapshot.{UpstreamStats}
use rpc_plus_plus.Observer.Tally.{Seen, finished, dropped, see, see_all}
use rpc_plus_plus.Observer.Metrics.{
  pair_equality, MetricsObserver, Observed, attempted, abandoned, hedged, hedge_won, coalesced,
  failed_over, requested, observe, observe_all,
}
use rpc_plus_plus.Prelude.{
  ◌≡◌, refl, sym, ◌∙◌, inl, inr, Option, none, some, List, [], ◌∷◌, if◌then◌else◌, Bool-cases,
}

-- The calls of one upstream among those of the trait.
abbrev pub calls_of : UpstreamId → List Observed → List Seen
calls_of u [] = []
calls_of u (attempted v r ∷ es) =
    let rest = calls_of u es in if id_equality.beq v u then finished r ∷ rest else rest
calls_of u (abandoned v elapsed ∷ es) =
    let rest = calls_of u es in if id_equality.beq v u then dropped elapsed ∷ rest else rest
calls_of u (_ ∷ es) = calls_of u es

map-map {ℓ} :
    {A : Type ℓ} (f g : A → A) (o : Option A)
    → Option.map f (Option.map g o) ≡ Option.map (λ a. f (g a)) o
map-map f g none = refl
map-map f g (some a) = refl

map_id {ℓ} : {A : Type ℓ} (o : Option A) → Option.map (λ a. a) o ≡ o
map_id none = refl
map_id (some a) = refl

lookup-update-see :
    (u v : UpstreamId) (c : Seen) (cs : List Seen) (m : List (UpstreamId × UpstreamStats))
    → Option.map (λ s. see_all s cs) (lookup u (update v (λ s. see s c) m))
      ≡ Option.map (λ s. see_all s (if id_equality.beq v u then c ∷ cs else cs)) (lookup u m)
unfolding see_all
lookup-update-see u v c cs m =
    rw (lookup-update v u (λ s. see s c) m) (elim (Bool-cases (id_equality.beq v u)) [
      | inl same ↦ rw same (map-map (λ s. see_all s cs) (λ s. see s c) (lookup u m))
      | inr other ↦ rw other
    ])

-- The counters of an upstream that the observer was built with are those of its own calls, in
-- their order; an upstream that it was not built with stays unknown.
pub lookup-observe_all :
    (o : MetricsObserver) (u : UpstreamId) (es : List Observed)
    → lookup u (observe_all o es).stats
      ≡ Option.map (λ s. see_all s (calls_of u es)) (lookup u o.stats)
unfolding observe_all see_all
lookup-observe_all o u [] = sym (map_id (lookup u o.stats))
lookup-observe_all o u (attempted v r ∷ es) =
    lookup-observe_all (observe o (attempted v r)) u es
    ∙ lookup-update-see u v (finished r) (calls_of u es) o.stats
lookup-observe_all o u (abandoned v elapsed ∷ es) =
    lookup-observe_all (observe o (abandoned v elapsed)) u es
    ∙ lookup-update-see u v (dropped elapsed) (calls_of u es) o.stats
lookup-observe_all o u (hedged a b ∷ es) = lookup-observe_all (observe o (hedged a b)) u es
lookup-observe_all o u (hedge_won a b ∷ es) = lookup-observe_all (observe o (hedge_won a b)) u es
lookup-observe_all o u (coalesced ∷ es) = lookup-observe_all (observe o coalesced) u es
lookup-observe_all o u (failed_over a ∷ es) = lookup-observe_all (observe o (failed_over a)) u es
lookup-observe_all o u (requested m w a d ∷ es) =
    lookup-observe_all (observe o (requested m w a d)) u es
