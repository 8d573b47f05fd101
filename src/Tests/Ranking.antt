-- ===== src/Tests/Ranking.antt =====
-- The theorems on rankings by error rate and on the start of deciders (src/decider), at concrete pools.
use mathlib.Core.List.{Perm}
use rpc_plus_plus.Prelude.Text.{text_eq}
use rpc_plus_plus.Prelude.Assoc.{lookup, insert}
use rpc_plus_plus.Prelude.Float.{IsTotallyOrdered}
use rpc_plus_plus.Upstream.Build.{Upstream, id_beq}
use rpc_plus_plus.Observer.Metrics.{MetricsObserver, snapshot, snapshot_map}
use rpc_plus_plus.Observer.Metrics
use rpc_plus_plus.Decider.Window
use rpc_plus_plus.Decider.Window.{Snapshots, oldest, advance}
use rpc_plus_plus.Decider.LeastLatency.{LeastLatency}
use rpc_plus_plus.Decider.LatencyRefresh.{LatencyRefresher}
use rpc_plus_plus.Decider.LeastErrors.{RankingRefresher, refresh}
use rpc_plus_plus.Decider.ErrorRanking.{InOrder, IsBefore, refresh-InOrder}
use rpc_plus_plus.Decider.Spawn.{checks, check_tracked, spawn_least_latency}
use rpc_plus_plus.Prelude.Results.{ok}
use rpc_plus_plus.Observer.Metrics.{attempted}
use rpc_plus_plus.Decider.Task.{Moment, tells, decides, ticks, cancels, by_latency}
use rpc_plus_plus.Decider.Spawned.{RunsAndServes}
use rpc_plus_plus.Decider.Spawned.{started_by_latency, spawn_least_latency-Serves}
use rpc_plus_plus.Tests.Fixtures.{whole, alpha, beta}
use rpc_plus_plus.Decider.Window.{span, wanted_span, times_u32}
use rpc_plus_plus.Prelude.{◌≡◌, refl, some, List, [], ◌∷◌, arith}

whole-IsTotallyOrdered : IsTotallyOrdered whole
whole-IsTotallyOrdered = record { total = λ a b h. ground arith; trans = λ a b c h k. ground arith }

abbrev observer0 : MetricsObserver
observer0 = Metrics.new (alpha.id ∷ beta.id ∷ [])

abbrev seen : Snapshots
seen = snapshot_map observer0

abbrev ranker : RankingRefresher
ranker = record {
  window = record { baselines = seen ∷ []; ticks = 2; tick = 5 };
  interval = 5;
  min_samples = 1;
}

refresh-InOrder_example :
    (ranked : List Upstream) × (refresh whole 0 ranker seen (alpha ∷ beta ∷ [])
      ≡ some (ranked, record ranker { window = advance seen ranker.window }))
    × Perm ranked (alpha ∷ beta ∷ [])
    × InOrder (IsBefore whole 0 ranker seen seen (alpha ∷ beta ∷ [])) ranked
unfolding oldest span wanted_span times_u32
refresh-InOrder_example =
    refresh-InOrder whole 0 whole-IsTotallyOrdered ranker seen seen (alpha ∷ beta ∷ []) refl
      ((5, refl), (10, refl))

abbrev decider0 : LeastLatency
decider0 = record { ranking = alpha ∷ beta ∷ []; requests = 0 }

abbrev refresher0 : LatencyRefresher
refresher0 = record {
  window = Window.new seen 4 15;
  interval = 15;
  min_samples = 20;
  penalty = 3000000000;
}

-- A decision, a call, a refresh, the shutdown, and a decision behind it.
abbrev moments0 : List Moment
moments0 =
    decides 2
    ∷ tells (attempted alpha.id (record { duration = 7; outcome = ok 200 }))
    ∷ ticks
    ∷ cancels
    ∷ decides 1
    ∷ []

spawn_least_latency-Serves_example :
    RunsAndServes
      (by_latency whole 0)
      (alpha ∷ beta ∷ [])
      moments0
      (started_by_latency whole 0 observer0 (decider0, refresher0))
      (snapshot_map observer0 ∷ [])
unfolding spawn_least_latency check_tracked snapshot lookup insert id_beq text_eq Metrics.new checks
spawn_least_latency-Serves_example =
    spawn_least_latency-Serves whole 0 observer0 (alpha ∷ beta ∷ []) 3000000000 15 4 20
      (decider0, refresher0) moments0 (omega arith) (omega arith) refl
