-- ===== src/Tests/Deciding.antt =====
-- The theorems on deciders (src/decider), at concrete pools and windows.
use mathlib.Core.List.{Perm}
use rpc_plus_plus.Prelude.Words.{u64}
use rpc_plus_plus.Upstream.Build.{Upstream}
use rpc_plus_plus.Observer.Metrics.{snapshot_map}
use rpc_plus_plus.Observer.Metrics
use rpc_plus_plus.Decider.RoundRobin
use rpc_plus_plus.Decider.RoundRobin.{RoundRobin, after, decide-turn}
use rpc_plus_plus.Decider.LeastLatency
use rpc_plus_plus.Decider.LeastLatency.{LeastLatency, leader, decide-leader, leader_turns}
use rpc_plus_plus.Decider.Window
use rpc_plus_plus.Decider.Window.{
  Window, Snapshots, oldest, advance, advance_all, kept, oldest-advance_all,
}
use rpc_plus_plus.Decider.LatencyRefresh.{LatencyRefresher, refresh}
use rpc_plus_plus.Decider.ErrorRanking.{InOrder}
use rpc_plus_plus.Decider.LatencyRanking.{IsFasterThan, refresh-InOrder_by_score}
use rpc_plus_plus.Tests.Fixtures.{whole, alpha, beta, pool0}
use rpc_plus_plus.Decider.Window.{span, wanted_span, times_u32}
use rpc_plus_plus.Prelude.{
  ℕ, suc, ◌+◌, ◌-◌, ◌*◌, ◌%◌, ◌<◌, ◌≡◌, refl, some, List, [], ◌∷◌, ◌++◌, arith, length, get_elem?,
  take, drop,
}

abbrev turns : RoundRobin
turns = record { upstreams = pool0; next = 5 }

decide-turn_example :
    get_elem? (RoundRobin.decide (after 2 (suc 1) turns) (suc 1)).0 0
    ≡ get_elem? pool0 ((5 + 2) % length pool0)
decide-turn_example = decide-turn 2 1 turns (omega arith) (omega arith)

abbrev ranked : LeastLatency
ranked = record { ranking = pool0; requests = 40 }

decide-leader_example :
    (u : Upstream) × (d' : LeastLatency) × (get_elem? pool0 (leader 40 3) ≡ some u)
    × (LeastLatency.decide ranked (suc 1)
        ≡ some (u ∷ take 1 (take (leader 40 3) pool0 ++ drop (suc (leader 40 3)) pool0), d'))
    × (d'.requests ≡ u64 (40 + 1))
    × (d'.ranking ≡ pool0)
decide-leader_example = decide-leader ranked 1 (omega arith)

leader_turns_example :
    (leader (3 * 20) 4 ≡ 3 % (4 - 1) + 1) × ((r : ℕ) → 0 < r → r < 20 → leader (3 * 20 + r) 4 ≡ 0)
leader_turns_example = leader_turns 4 3 (omega arith)

abbrev seen0 : Snapshots
seen0 = snapshot_map (Metrics.new (alpha.id ∷ beta.id ∷ []))

oldest-advance_all_example :
    ((advance_all ([] ∷ [] ∷ []) (Window.new seen0 2 5)).baselines
      ≡ drop (length (seen0 ∷ [] ∷ [] ∷ []) - kept 2) (seen0 ∷ [] ∷ [] ∷ []))
    × (oldest (advance_all ([] ∷ [] ∷ []) (Window.new seen0 2 5))
        ≡ get_elem? (seen0 ∷ [] ∷ [] ∷ []) (length (seen0 ∷ [] ∷ [] ∷ []) - kept 2))
    × (s : Snapshots) × (oldest (advance_all ([] ∷ [] ∷ []) (Window.new seen0 2 5)) ≡ some s)
oldest-advance_all_example = oldest-advance_all seen0 ([] ∷ [] ∷ []) 2 5

abbrev refresher0 : LatencyRefresher
refresher0 = record {
  window = record { baselines = seen0 ∷ []; ticks = 2; tick = 5 };
  interval = 5;
  min_samples = 1;
  penalty = 3000000000;
}

refresh-InOrder_by_score_example :
    (ranked : List Upstream) × (refresh whole 0 refresher0 seen0 pool0
      ≡ some (ranked, record refresher0 { window = advance seen0 refresher0.window }))
    × Perm ranked pool0
    × InOrder (IsFasterThan whole 0 refresher0 seen0 seen0 pool0) ranked
unfolding oldest span wanted_span times_u32
refresh-InOrder_by_score_example =
    refresh-InOrder_by_score whole 0 refresher0 seen0 seen0 pool0 refl ((5, refl), (10, refl))
