-- ===== src/Decider/ErrorRanking.antt =====
-- The order that a refresh by error rate leaves
-- (src/decider/prefer_least_errors/refresher.rs), in terms of the calls in the window.
use mathlib.Core.List.{Perm}
use mathlib.Core.Path.{subst₂}
use rpc_plus_plus.Prelude.Float.{Float, is_le, IsTotallyOrdered}
use rpc_plus_plus.Prelude.Sort.{IsSortedBy}
use rpc_plus_plus.Upstream.Build.{Upstream}
use rpc_plus_plus.Upstream.Build.{id_equality}
use rpc_plus_plus.Observer.Snapshot.{Diff, errors, answered}
use rpc_plus_plus.Decider.Window.{Snapshots, advance, oldest, HasSpans}
use rpc_plus_plus.Decider.LatencyRefresh.{window_of, is_incumbent}
use rpc_plus_plus.Decider.LeastErrors.{
  RankingRefresher, ErrorKey, cmp, error_rate, key_of_window, key_of, pair_le, refresh,
}
use rpc_plus_plus.Decider.ErrorOrder.{refresh-ranks}
use rpc_plus_plus.Prelude.{
  ℕ, ◌≤◌, ◌≡◌, refl, Bool, true, false, Option, none, some, List, [], ◌∷◌, map, arith, ◌==◌,
  if◌then◌else◌, All,
}

-- Every one is before all those that follow.
abbrev pub InOrder {ℓ} : {A : Type 0} → (A → A → Type ℓ) → List A → Type ℓ
InOrder R [] = Unit
InOrder R (x ∷ xs) = All (R x) xs × InOrder R xs

module _ (f : Float) (margin : f.F64) where
  -- The share of the answered calls that were errors; none where no call was answered.
  abbrev pub share : Diff → f.F64
  share d =
      if answered d == 0 then f.of_u64 0 else f.div (f.of_u64 (errors d)) (f.of_u64 (answered d))

  -- That share, less the margin for the upstream that leads.
  abbrev pub rated : Bool → Diff → f.F64
  rated leads d = if leads then f.mul (share d) (f.sub (f.of_u64 1) margin) else share d

  abbrev pub leads : List Upstream → Upstream → Bool
  leads [] u = false
  leads (v ∷ vs) u = id_equality.beq v.id u.id

  -- Of two windows: if the second has enough answered calls, so has the first, and its rate is not
  -- the higher one.
  abbrev pub IsRatedBefore : ℕ → Bool → Option Diff → Bool → Option Diff → Type 0
  IsRatedBefore enough i v j w =
      (y : Diff)
      → w ≡ some y
      → enough ≤ answered y
      → (x : Diff) × (v ≡ some x)
        × (enough ≤ answered x)
        × (is_le (f.total_cmp (rated i x) (rated j y)) ≡ true)

  -- The windows of two upstreams.
  abbrev pub IsBefore :
      RankingRefresher → Snapshots → Snapshots → List Upstream → Upstream → Upstream → Type 0
  IsBefore r current baseline ranking u v =
      IsRatedBefore r.min_samples (leads ranking u) (window_of current baseline u.id)
        (leads ranking v) (window_of current baseline v.id)

  is_incumbent-leads :
      (ranking : List Upstream) (u : Upstream)
      → is_incumbent f margin ranking u.id ≡ leads ranking u
  unfolding is_incumbent
  is_incumbent-leads [] u = refl
  is_incumbent-leads (v ∷ vs) u = refl

  cmp-IsRatedBefore :
      (r : RankingRefresher) (i j : Bool) (v w : Option Diff)
      → is_le (cmp f margin (key_of_window f margin r i v) (key_of_window f margin r j w)) ≡ true
      → IsRatedBefore r.min_samples i v j w
  unfolding cmp key_of_window error_rate
  cmp-IsRatedBefore r i j v none h y e enough = absurd (ground arith)
  cmp-IsRatedBefore r i j none (some w) h y e enough = absurd (ground arith)
  cmp-IsRatedBefore r true true (some x) (some w) h y e enough =
      (x, refl, ground arith, ground arith)
  cmp-IsRatedBefore r true false (some x) (some w) h y e enough =
      (x, refl, ground arith, ground arith)
  cmp-IsRatedBefore r false true (some x) (some w) h y e enough =
      (x, refl, ground arith, ground arith)
  cmp-IsRatedBefore r false false (some x) (some w) h y e enough =
      (x, refl, ground arith, ground arith)

  module _ (r : RankingRefresher) (current baseline : Snapshots) (ranking : List Upstream) where
    abbrev IsKeyed : Upstream × ErrorKey f margin → Type 0
    IsKeyed s = s.1 ≡ key_of f margin r current baseline ranking s.0

    before :
        (s t : Upstream × ErrorKey f margin)
        → IsKeyed s
        → IsKeyed t
        → pair_le f margin s t ≡ true
        → IsBefore r current baseline ranking s.0 t.0
    unfolding key_of
    before s t p q h =
        subst₂
          (λ i j.
            IsRatedBefore r.min_samples i (window_of current baseline s.0.id) j
              (window_of current baseline t.0.id))
          (is_incumbent-leads ranking s.0) (is_incumbent-leads ranking t.0)
          (cmp-IsRatedBefore r _ _ _ _ (subst₂ (λ a b. is_le (cmp f margin a b) ≡ true) p q h))

    all_before :
        (s : Upstream × ErrorKey f margin) (ts : List (Upstream × ErrorKey f margin))
        → IsKeyed s
        → All IsKeyed ts
        → All (λ t. pair_le f margin s t ≡ true) ts
        → All (IsBefore r current baseline ranking s.0) (map (λ t. t.0) ts)
    all_before s [] p q h = tt
    all_before s (t ∷ ts) p (k, q) (h, hs) = (before s t p k h, all_before s ts p q hs)

    sorted-InOrder :
        (ranked : List (Upstream × ErrorKey f margin))
        → All IsKeyed ranked
        → IsSortedBy (pair_le f margin) ranked
        → InOrder (IsBefore r current baseline ranking) (map (λ t. t.0) ranked)
    sorted-InOrder [] k h = tt
    sorted-InOrder (s ∷ ts) (p, k) (h, hs) = (all_before s ts p k h, sorted-InOrder ts k hs)

  -- A refresh by error rate, where the window holds a snapshot and its spans are in range, only
  -- reorders the upstreams and moves the window on by the current snapshots. In the new order, an
  -- upstream with enough answered calls in the window comes behind none without enough, and behind
  -- none with a higher share of errors, the share of the upstream that led before taken less the
  -- margin.
  pub refresh-InOrder :
      IsTotallyOrdered f
      → (r : RankingRefresher) (current baseline : Snapshots) (ranking : List Upstream)
      → oldest r.window ≡ some baseline
      → HasSpans r.window
      → (ranked : List Upstream) × (refresh f margin r current ranking
          ≡ some (ranked, record r { window = advance current r.window }))
        × Perm ranked ranking
        × InOrder (IsBefore r current baseline ranking) ranked
  refresh-InOrder law r current baseline ranking e spans =
      let (ranked, same, perm, sorted, keyed) =
        refresh-ranks f law margin r current baseline ranking e spans in
      (
        map (λ s. s.0) ranked,
        same,
        perm,
        sorted-InOrder r current baseline ranking ranked keyed sorted,
      )
