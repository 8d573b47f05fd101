-- ===== src/Decider/LatencyRefresh.antt =====
-- src/decider/least_latency/refresher.rs: the ranking rebuilt by mean latency over the window.
use Prim.Native.Nat.{compare, Ordering}
use rpc_plus_plus.Prelude.Float.{Float, is_le}
use rpc_plus_plus.Prelude.Options.{◌>>=◌}
use rpc_plus_plus.Prelude.Sort.{sort_by}
use rpc_plus_plus.Prelude.Assoc.{lookup}
use rpc_plus_plus.Upstream.Call.{Duration}
use rpc_plus_plus.Upstream.Build.{Upstream, UpstreamId, id_equality}
use rpc_plus_plus.Observer.Snapshot.{Diff, diff, calls, latency_score}
use rpc_plus_plus.Decider.Window.{Window, Snapshots, advance, oldest, span, wanted_span}
use rpc_plus_plus.Prelude.{
  ℕ, Bool, true, false, Option, none, some, List, [], ◌∷◌, map, ltb, if◌then◌else◌,
}

pub record SortKey : Type 0 where
  pub is_unscored : Bool
  pub score : Duration

abbrev pub scored : Duration → SortKey
scored d = record { is_unscored = false; score = d }

abbrev pub unscored : SortKey
unscored = record { is_unscored = true; score = 0 }

-- `bool::cmp`: `false` before `true`.
abbrev pub cmp_bool : Bool → Bool → Ordering
cmp_bool false false = Ordering.eq
cmp_bool false true = Ordering.lt
cmp_bool true false = Ordering.gt
cmp_bool true true = Ordering.eq

-- `Ordering::then_with`.
abbrev pub then_with : Ordering → Ordering → Ordering
then_with Ordering.lt o = Ordering.lt
then_with Ordering.eq o = o
then_with Ordering.gt o = Ordering.gt

unfoldable pub cmp : SortKey → SortKey → Ordering
cmp a b = then_with (cmp_bool a.is_unscored b.is_unscored) (compare a.score b.score)

unfoldable pub key_le : SortKey → SortKey → Bool
unfolding cmp
key_le a b = is_le (cmp a b)

pub record LatencyRefresher : Type 0 where
  pub window : Window
  pub interval : Duration
  pub min_samples : ℕ
  pub penalty : Duration

-- The difference of the two snapshots of an upstream, if both are there.
unfoldable pub window_of : Snapshots → Snapshots → UpstreamId → Option Diff
window_of current baseline id = elim (lookup id current) [
  | none ↦ none
  | some now ↦ elim (lookup id baseline) [ none ↦ none | some before ↦ some (diff now before) ]
]

-- The `score` of `refresh`: none for an upstream with too few calls in the window.
unfoldable pub score_of : LatencyRefresher → Option Diff → Option Duration
score_of r none = none
score_of r (some w) = if ltb (calls w) r.min_samples then none else latency_score w r.penalty

module _ (f : Float) (margin : f.F64) where
  -- `score.mul_f64(1.0 - self.margin)`.
  abbrev pub discounted : Duration → Duration
  discounted score = f.mul_f64 score (f.sub (f.of_u64 1) margin)

  unfoldable pub key_of_score : Bool → Option Duration → SortKey
  key_of_score is_incumbent none = unscored
  key_of_score is_incumbent (some score) =
      if is_incumbent then scored (discounted score) else scored score

  -- `incumbent == Some(id)`.
  unfoldable pub is_incumbent : List Upstream → UpstreamId → Bool
  is_incumbent [] id = false
  is_incumbent (u ∷ us) id = id_equality.beq u.id id

  unfoldable pub key_of :
      LatencyRefresher → Snapshots → Snapshots → List Upstream → Upstream → SortKey
  unfolding key_of_score is_incumbent
  key_of r current baseline ranking u =
      key_of_score (is_incumbent ranking u.id) (score_of r (window_of current baseline u.id))

  -- The pairs of the vector `scored`, compared by their keys.
  abbrev pub pair_le : Upstream × SortKey → Upstream × SortKey → Bool
  pair_le a b = key_le a.1 b.1

  unfoldable pub rank :
      LatencyRefresher → Snapshots → Snapshots → List Upstream → List (Upstream × SortKey)
  rank r current baseline ranking =
      sort_by pair_le (map (λ u. (u, key_of r current baseline ranking u)) ranking)

  -- `refresh`: the new ranking, and the refresher with the window moved on; `none` is the
  -- panic of `oldest`, or of a span that overflows.
  unfoldable pub refresh :
      LatencyRefresher → Snapshots → List Upstream → Option (List Upstream × LatencyRefresher)
  refresh r current ranking = elim (oldest r.window) [
    | none ↦ none
    | some baseline ↦ span r.window >>= λ window_span.
        (wanted_span r.window >>= λ want. some (
          map (λ s. s.0) (rank r current baseline ranking),
          record r { window = advance current r.window },
        ))
  ]
