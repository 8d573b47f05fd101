-- ===== src/Decider/LatencyRanking.antt =====
-- The order that a refresh by latency leaves (src/decider/least_latency/refresher.rs), in terms of
-- the scores.
use mathlib.Core.List.{Perm}
use mathlib.Core.Path.{subst₂}
use rpc_plus_plus.Prelude.Float.{Float}
use rpc_plus_plus.Prelude.Sort.{IsSortedBy}
use rpc_plus_plus.Upstream.Call.{Duration}
use rpc_plus_plus.Upstream.Build.{Upstream, id_equality}
use rpc_plus_plus.Decider.Window.{Snapshots, advance, oldest, HasSpans}
use rpc_plus_plus.Decider.LatencyRefresh.{
  LatencyRefresher, SortKey, key_le, key_of_score, key_of, score_of, pair_le, is_incumbent,
  window_of, refresh,
}
use rpc_plus_plus.Decider.LatencyOrder.{refresh-IsSortedBy}
use rpc_plus_plus.Decider.ErrorRanking.{InOrder, leads}
use rpc_plus_plus.Prelude.{
  ◌≤◌, ◌≡◌, refl, Bool, true, false, Option, none, some, List, [], ◌∷◌, map, arith, All,
  if◌then◌else◌,
}

module _ (f : Float) (margin : f.F64) where
  -- The score, cut by the margin for the upstream that leads.
  abbrev pub cut : Bool → Duration → Duration
  cut is_led score = if is_led then f.mul_f64 score (f.sub (f.of_u64 1) margin) else score

  -- If the second has a score, so has the first, and its own is not the higher one.
  abbrev pub IsScoredBefore : Bool → Option Duration → Bool → Option Duration → Type 0
  IsScoredBefore i s j t =
      (y : Duration) → t ≡ some y → (x : Duration) × (s ≡ some x) × (cut i x ≤ cut j y)

  abbrev pub IsFasterThan :
      LatencyRefresher → Snapshots → Snapshots → List Upstream → Upstream → Upstream → Type 0
  IsFasterThan r current baseline ranking u v =
      IsScoredBefore (leads f margin ranking u) (score_of r (window_of current baseline u.id))
        (leads f margin ranking v) (score_of r (window_of current baseline v.id))

  is_incumbent-leads :
      (ranking : List Upstream) (u : Upstream)
      → is_incumbent f margin ranking u.id ≡ leads f margin ranking u
  unfolding is_incumbent
  is_incumbent-leads [] u = refl
  is_incumbent-leads (v ∷ vs) u = refl

  key_le-IsScoredBefore :
      (i j : Bool) (s t : Option Duration)
      → key_le (key_of_score f margin i s) (key_of_score f margin j t) ≡ true
      → IsScoredBefore i s j t
  unfolding key_le key_of_score
  key_le-IsScoredBefore i j s none h y e = absurd (ground arith)
  key_le-IsScoredBefore i true none (some w) h y e = absurd (ground arith)
  key_le-IsScoredBefore i false none (some w) h y e = absurd (ground arith)
  key_le-IsScoredBefore true true (some x) (some w) h y e = (x, refl, ground arith)
  key_le-IsScoredBefore true false (some x) (some w) h y e = (x, refl, ground arith)
  key_le-IsScoredBefore false true (some x) (some w) h y e = (x, refl, ground arith)
  key_le-IsScoredBefore false false (some x) (some w) h y e = (x, refl, ground arith)

  module _ (r : LatencyRefresher) (current baseline : Snapshots) (ranking : List Upstream) where
    abbrev IsKeyed : Upstream × SortKey → Type 0
    IsKeyed s = s.1 ≡ key_of f margin r current baseline ranking s.0

    before :
        (s t : Upstream × SortKey)
        → IsKeyed s
        → IsKeyed t
        → pair_le f margin s t ≡ true
        → IsFasterThan r current baseline ranking s.0 t.0
    unfolding key_of
    before s t p q h =
        subst₂
          (λ i j.
            IsScoredBefore i (score_of r (window_of current baseline s.0.id)) j
              (score_of r (window_of current baseline t.0.id)))
          (is_incumbent-leads ranking s.0) (is_incumbent-leads ranking t.0)
          (key_le-IsScoredBefore _ _ _ _ (subst₂ (λ a b. key_le a b ≡ true) p q h))

    all_before :
        (s : Upstream × SortKey) (ts : List (Upstream × SortKey))
        → IsKeyed s
        → All IsKeyed ts
        → All (λ t. pair_le f margin s t ≡ true) ts
        → All (IsFasterThan r current baseline ranking s.0) (map (λ t. t.0) ts)
    all_before s [] p q h = tt
    all_before s (t ∷ ts) p (k, q) (h, hs) = (before s t p k h, all_before s ts p q hs)

    sorted-InOrder :
        (ranked : List (Upstream × SortKey))
        → All IsKeyed ranked
        → IsSortedBy (pair_le f margin) ranked
        → InOrder (IsFasterThan r current baseline ranking) (map (λ t. t.0) ranked)
    sorted-InOrder [] k h = tt
    sorted-InOrder (s ∷ ts) (p, k) (h, hs) = (all_before s ts p k h, sorted-InOrder ts k hs)

  -- A refresh by latency, where the window holds a snapshot and its spans are in range, only
  -- reorders the upstreams and moves the window on by the current snapshots. In the new order, an
  -- upstream with a score comes behind none without one, and behind none with a higher score, the
  -- score of the upstream that led before taken less the margin.
  pub refresh-InOrder_by_score :
      (r : LatencyRefresher) (current baseline : Snapshots) (ranking : List Upstream)
      → oldest r.window ≡ some baseline
      → HasSpans r.window
      → (ranked : List Upstream) × (refresh f margin r current ranking
          ≡ some (ranked, record r { window = advance current r.window }))
        × Perm ranked ranking
        × InOrder (IsFasterThan r current baseline ranking) ranked
  refresh-InOrder_by_score r current baseline ranking e spans =
      let (ranked, same, perm, sorted, keyed) =
        refresh-IsSortedBy f margin r current baseline ranking e spans in
      (
        map (λ s. s.0) ranked,
        same,
        perm,
        sorted-InOrder r current baseline ranking ranked keyed sorted,
      )
