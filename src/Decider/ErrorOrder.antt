-- ===== src/Decider/ErrorOrder.antt =====
-- What a refresh by error rate promises (src/decider/prefer_least_errors/refresher.rs).
use Prim.Native.Nat.{Ordering}
use mathlib.Core.List.{Perm}
use mathlib.Core.List.Perm
use rpc_plus_plus.Prelude.Float.{Float, is_le, IsTotallyOrdered}
use rpc_plus_plus.Prelude.Sort.{
  sort_by, sort_by-perm, sort_by-IsSortedBy, IsPreorder, IsSortedBy, All-sort_by,
}
use rpc_plus_plus.Upstream.Build.{Upstream}
use rpc_plus_plus.Decider.Contract.{IsDecider}
use rpc_plus_plus.Decider.Window.{Snapshots, advance, oldest, HasSpans}
use rpc_plus_plus.Decider.LatencyRefresh.{cmp_bool, then_with}
use rpc_plus_plus.Decider.LeastErrors.{
  decide, prefer_least_errors, RankingRefresher, ErrorKey, cmp, key_of, pair_le, rank, refresh,
}
use rpc_plus_plus.Prelude.{
  ◌≡◌, refl, ap, subst, Bool, true, false, some, List, [], ◌∷◌, map, arith, take, All,
}

-- Preferring the least errors keeps the contract: a decision is a head of the ranking.
pub prefer_least_errors-IsDecider : IsDecider prefer_least_errors
unfolding decide
prefer_least_errors-IsDecider = record {
  pool = λ d. d.ranking;
  decides = λ d max. (take max d.ranking, d, refl, (d.ranking, Perm.refl _, refl), Perm.refl _);
  counts = λ d. refl;
}

lexicographic_total :
    (a b : Bool) (o p : Ordering)
    → (is_le o ≡ false → is_le p ≡ true)
    → is_le (then_with (cmp_bool a b) o) ≡ false
    → is_le (then_with (cmp_bool b a) p) ≡ true
lexicographic_total true true o p h g = h g
lexicographic_total true false o p h g = refl
lexicographic_total false true o p h g = ground arith
lexicographic_total false false o p h g = h g

lexicographic_trans :
    (a b c : Bool) (o p q : Ordering)
    → (is_le o ≡ true → is_le p ≡ true → is_le q ≡ true)
    → is_le (then_with (cmp_bool a b) o) ≡ true
    → is_le (then_with (cmp_bool b c) p) ≡ true
    → is_le (then_with (cmp_bool a c) q) ≡ true
lexicographic_trans true true true o p q h g k = h g k
lexicographic_trans true true false o p q h g k = ground arith
lexicographic_trans true false c o p q h g k = ground arith
lexicographic_trans false true true o p q h g k = refl
lexicographic_trans false true false o p q h g k = ground arith
lexicographic_trans false false true o p q h g k = refl
lexicographic_trans false false false o p q h g k = h g k

module _ (f : Float) (law : IsTotallyOrdered f) (margin : f.F64) where
  pair_le-IsPreorder : IsPreorder (pair_le f margin)
  unfolding cmp
  pair_le-IsPreorder = record {
    total = λ a b.
        lexicographic_total a.1.is_unscored b.1.is_unscored _ _
          (law.total a.1.error_rate b.1.error_rate);
    trans = λ a b c.
        lexicographic_trans a.1.is_unscored b.1.is_unscored c.1.is_unscored _ _ _
          (law.trans a.1.error_rate b.1.error_rate c.1.error_rate);
  }

  module _ (r : RankingRefresher) (current baseline : Snapshots) (ranking : List Upstream) where
    abbrev entries : List Upstream → List (Upstream × ErrorKey f margin)
    entries us = map (λ u. (u, key_of f margin r current baseline ranking u)) us

    upstreams-entries : (us : List Upstream) → map (λ s. s.0) (entries us) ≡ us
    upstreams-entries [] = refl
    upstreams-entries (u ∷ us) = ap (◌∷◌ u) (upstreams-entries us)

    keys-entries :
        (us : List Upstream)
        → All (λ s. s.1 ≡ key_of f margin r current baseline ranking s.0) (entries us)
    keys-entries [] = tt
    keys-entries (u ∷ us) = (refl, keys-entries us)

  -- A refresh by error rate only reorders the upstreams, by keys that ascend, and moves the window on
  -- by the current snapshots.
  pub refresh-ranks :
      (r : RankingRefresher) (current baseline : Snapshots) (ranking : List Upstream)
      → oldest r.window ≡ some baseline
      → HasSpans r.window
      → (ranked : List (Upstream × ErrorKey f margin)) × (refresh f margin r current ranking
          ≡ some (map (λ s. s.0) ranked, record r { window = advance current r.window }))
        × Perm (map (λ s. s.0) ranked) ranking
        × IsSortedBy (pair_le f margin) ranked
        × All (λ s. s.1 ≡ key_of f margin r current baseline ranking s.0) ranked
  unfolding refresh rank
  refresh-ranks r current baseline ranking e spans =
      let us = entries r current baseline ranking ranking in
      (
        rank f margin r current baseline ranking,
        rw (e, spans.0.1, spans.1.1, refresh) refl,
        subst (Perm (map (λ s. s.0) (sort_by (pair_le f margin) us)))
            (upstreams-entries r current baseline ranking ranking)
            (Perm.map _ (sort_by-perm (pair_le f margin) us)),
        sort_by-IsSortedBy (pair_le f margin) us pair_le-IsPreorder,
        All-sort_by (pair_le f margin) (λ s. s.1 ≡ key_of f margin r current baseline ranking s.0)
            us (keys-entries r current baseline ranking ranking),
      )
