-- ===== src/Decider/LeastErrors.antt =====
-- src/decider/prefer_least_errors: the ranking by error rate over the window, and its decisions.
use Prim.Native.Nat.{Ordering}
use rpc_plus_plus.Prelude.Float.{Float, is_le}
use rpc_plus_plus.Prelude.Options.{◌>>=◌}
use rpc_plus_plus.Prelude.Sort.{sort_by}
use rpc_plus_plus.Upstream.Call.{Duration}
use rpc_plus_plus.Upstream.Build.{Upstream}
use rpc_plus_plus.Observer.Snapshot.{Diff, errors, answered}
use rpc_plus_plus.Decider.Contract.{Decider, always_ready}
use rpc_plus_plus.Decider.Window.{Window, Snapshots, advance, oldest, span, wanted_span}
use rpc_plus_plus.Decider.LatencyRefresh.{cmp_bool, then_with, window_of, is_incumbent}
use rpc_plus_plus.Prelude.{
  ℕ, Bool, true, false, Option, none, some, List, map, ltb, ◌==◌, if◌then◌else◌, length, take,
}

pub record PreferLeastErrors : Type 0 where
  pub ranking : List Upstream

-- A decision leaves the ranking as it is.
unfoldable pub decide : PreferLeastErrors → ℕ → List Upstream × PreferLeastErrors
decide d max = (take max d.ranking, d)

abbrev pub prefer_least_errors : Decider
prefer_least_errors = record {
  State = PreferLeastErrors;
  decide = λ d max. some (decide d max);
  upstream_len = λ d. length d.ranking;
  ready = always_ready;
}

pub record RankingRefresher : Type 0 where
  pub window : Window
  pub interval : Duration
  pub min_samples : ℕ

module _ (f : Float) (margin : f.F64) where
  pub record ErrorKey : Type 0 where
    pub is_unscored : Bool
    pub error_rate : f.F64

  abbrev pub scored : f.F64 → ErrorKey
  scored rate = record { is_unscored = false; error_rate = rate }

  abbrev pub unscored : ErrorKey
  unscored = record { is_unscored = true; error_rate = f.of_u64 0 }

  unfoldable pub cmp : ErrorKey → ErrorKey → Ordering
  cmp a b = then_with (cmp_bool a.is_unscored b.is_unscored) (f.total_cmp a.error_rate b.error_rate)

  -- `Diff::error_rate`.
  unfoldable pub error_rate : Diff → f.F64
  error_rate d =
      if answered d == 0 then f.of_u64 0 else f.div (f.of_u64 (errors d)) (f.of_u64 (answered d))

  unfoldable pub key_of_window : RankingRefresher → Bool → Option Diff → ErrorKey
  unfolding error_rate
  key_of_window r leads none = unscored
  key_of_window r leads (some w) =
      if ltb (answered w) r.min_samples
      then unscored
      else if leads
      then scored (f.mul (error_rate w) (f.sub (f.of_u64 1) margin))
      else scored (error_rate w)

  unfoldable pub key_of :
      RankingRefresher → Snapshots → Snapshots → List Upstream → Upstream → ErrorKey
  unfolding key_of_window
  key_of r current baseline ranking u =
      key_of_window r (is_incumbent f margin ranking u.id) (window_of current baseline u.id)

  abbrev pub pair_le : Upstream × ErrorKey → Upstream × ErrorKey → Bool
  pair_le a b = is_le (cmp a.1 b.1)

  unfoldable pub rank :
      RankingRefresher → Snapshots → Snapshots → List Upstream → List (Upstream × ErrorKey)
  rank r current baseline ranking =
      sort_by pair_le (map (λ u. (u, key_of r current baseline ranking u)) ranking)

  -- `refresh`; `none` is the panic of `oldest`, or of a span that
  -- overflows.
  unfoldable pub refresh :
      RankingRefresher → Snapshots → List Upstream → Option (List Upstream × RankingRefresher)
  refresh r current ranking = elim (oldest r.window) [
    | none ↦ none
    | some baseline ↦ span r.window >>= λ window_span.
        (wanted_span r.window >>= λ want. some (
          map (λ s. s.0) (rank r current baseline ranking),
          record r { window = advance current r.window },
        ))
  ]
