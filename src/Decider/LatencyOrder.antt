-- ===== src/Decider/LatencyOrder.antt =====
-- What a refresh by latency promises (src/decider/least_latency/refresher.rs).
use mathlib.Core.List.{Perm}
use mathlib.Core.List.Perm
use rpc_plus_plus.Prelude.Float.{Float}
use rpc_plus_plus.Prelude.Sort.{
  sort_by, sort_by-perm, sort_by-IsSortedBy, IsPreorder, IsSortedBy, All-sort_by,
}
use rpc_plus_plus.Upstream.Call.{Duration}
use rpc_plus_plus.Upstream.Build.{Upstream}
use rpc_plus_plus.Decider.Window.{Snapshots, advance, oldest, HasSpans}
use rpc_plus_plus.Decider.LatencyRefresh.{
  SortKey, key_le, LatencyRefresher, discounted, key_of, pair_le, rank, refresh,
}
use rpc_plus_plus.Prelude.{
  ◌<◌, ◌≡◌, refl, ap, subst, ◌⊎◌, Bool, true, false, Option, none, some, List, [], ◌∷◌, map, arith,
  if◌then◌else◌, All,
}

key_le_total : (a b : SortKey) → key_le a b ≡ false → key_le b a ≡ true
unfolding key_le
key_le_total a b h = ground arith

key_le_trans : (a b c : SortKey) → key_le a b ≡ true → key_le b c ≡ true → key_le a c ≡ true
unfolding key_le
key_le_trans a b c h k = ground arith

module _ (f : Float) (margin : f.F64) where
  pair_le-IsPreorder : IsPreorder (pair_le f margin)
  pair_le-IsPreorder = record {
    total = λ a b. key_le_total a.1 b.1;
    trans = λ a b c. key_le_trans a.1 b.1 c.1;
  }

  -- Why one key is strictly before another: its upstream is scored, and the other one is not or has
  -- the higher score, the discount of an incumbent taken.
  abbrev pub IsFaster : Bool → Option Duration → Bool → Option Duration → Type 0
  IsFaster j t i s =
      (y : Duration) × (t ≡ some y)
      × ((s ≡ none)
          ⊎ ((x : Duration) × (s ≡ some x)
              × ((if j then discounted f margin y else y)
                  < (if i then discounted f margin x else x))))

  module _ (r : LatencyRefresher) (current baseline : Snapshots) (ranking : List Upstream) where
    abbrev entries : List Upstream → List (Upstream × SortKey)
    entries us = map (λ u. (u, key_of f margin r current baseline ranking u)) us

    upstreams-entries : (us : List Upstream) → map (λ s. s.0) (entries us) ≡ us
    upstreams-entries [] = refl
    upstreams-entries (u ∷ us) = ap (◌∷◌ u) (upstreams-entries us)

    keys-entries :
        (us : List Upstream)
        → All (λ s. s.1 ≡ key_of f margin r current baseline ranking s.0) (entries us)
    keys-entries [] = tt
    keys-entries (u ∷ us) = (refl, keys-entries us)

    rank-perm : Perm (map (λ s. s.0) (rank f margin r current baseline ranking)) ranking
    unfolding rank
    rank-perm =
        subst (Perm (map (λ s. s.0) (sort_by (pair_le f margin) (entries ranking))))
          (upstreams-entries ranking)
          (Perm.map _ (sort_by-perm (pair_le f margin) (entries ranking)))

  -- A refresh keeps the upstreams and only changes their order, by keys that ascend, and moves the
  -- window on by the current snapshots.
  pub refresh-IsSortedBy :
      (r : LatencyRefresher) (current baseline : Snapshots) (ranking : List Upstream)
      → oldest r.window ≡ some baseline
      → HasSpans r.window
      → (ranked : List (Upstream × SortKey)) × (refresh f margin r current ranking
          ≡ some (map (λ s. s.0) ranked, record r { window = advance current r.window }))
        × Perm (map (λ s. s.0) ranked) ranking
        × IsSortedBy (pair_le f margin) ranked
        × All (λ s. s.1 ≡ key_of f margin r current baseline ranking s.0) ranked
  unfolding refresh
  refresh-IsSortedBy r current baseline ranking e spans = (
    rank f margin r current baseline ranking,
    rw (e, spans.0.1, spans.1.1, refresh),
    rank-perm r current baseline ranking,
    (unfold rank in
        sort_by-IsSortedBy (pair_le f margin) (entries r current baseline ranking ranking)
          pair_le-IsPreorder),
    (unfold rank in
        All-sort_by (pair_le f margin) (λ s. s.1 ≡ key_of f margin r current baseline ranking s.0)
          (entries r current baseline ranking ranking)
          (keys-entries r current baseline ranking ranking)),
  )
