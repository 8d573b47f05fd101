-- ===== src/Proxy/Walk.antt =====
-- `Core::walk` and `Core::send_once` of src/proxy/mod.rs: the chain one upstream after another, or
-- its first upstream alone. How the network answers the attempt `n` on an upstream is an argument.
use rpc_plus_plus.Prelude.Results.{Result, ok, err, map_ok, map_err}
use rpc_plus_plus.Upstream.Call.{Duration, CallError, is_retryable}
use rpc_plus_plus.Upstream.Build.{UpstreamId, Upstream}
use rpc_plus_plus.Observer.Snapshot.{HedgeStats}
use rpc_plus_plus.Observer.Metrics.{Observed, failed_over}
use rpc_plus_plus.Proxy.Reply.{
  Reply, call, no_upstream, failure_of, Finished, Effect, observed, slept,
}
use rpc_plus_plus.Prelude.{
  ℕ, true, false, Option, none, some, List, [], ◌∷◌, ◌++◌, map, leb, length,
}

-- `try_once` on attempt `n`, run to its end: what the observer is told, and the result.
abbrev pub Attempts : Type 0
Attempts = ℕ → Upstream → List Observed × Result Reply CallError

abbrev pub observations : List Observed → List Effect
observations es = map observed es

abbrev pub last? : List UpstreamId → Option UpstreamId
last? [] = none
last? (x ∷ []) = some x
last? (x ∷ y ∷ xs) = last? (y ∷ xs)

-- Before any attempt but the first: the failover is recorded, then the walk sleeps.
unfoldable pub move_on : Duration → Option UpstreamId → List Effect
move_on retry_after none = []
move_on retry_after (some from) = observed (failed_over from) ∷ slept retry_after ∷ []

unfoldable pub give_up : Option CallError → List UpstreamId → Finished × List Effect
unfolding failure_of
give_up last_failure tried =
    (record { result = err (failure_of last_failure); tried = tried; hedge = none }, [])

abbrev pub after {ℓ} : {A : Type ℓ} → List Effect → A × List Effect → A × List Effect
after es (a, fs) = (a, es ++ fs)

-- The loop, with `tried` and `last_failure` as they stand before the next upstream.
unfoldable pub walk_from :
    ℕ
    → Duration
    → Attempts
    → List UpstreamId
    → Option CallError
    → List Upstream
    → Finished × List Effect
unfolding move_on give_up
walk_from max_attempt retry_after try tried last_failure [] = give_up last_failure tried
walk_from max_attempt retry_after try tried last_failure (u ∷ us) =
    elim (leb max_attempt (length tried)) [
      | true ↦ give_up last_failure tried
      | false ↦
          let tried' = tried ++ (u.id ∷ []) in
          let (told, result) = try (length tried') u in
          after (move_on retry_after (last? tried) ++ observations told) (elim result [
            | ok reply ↦ (
              record {
                result = ok (record { reply = reply; upstream = u.id });
                tried = tried';
                hedge = none;
              },
              [],
            )
            | err failure ↦ elim (is_retryable failure) [
              | true ↦ walk_from max_attempt retry_after try tried' (some failure) us
              | false ↦ give_up (some failure) tried'
            ]
          ])
    ]

unfoldable pub walk : ℕ → Duration → Attempts → List Upstream → Finished × List Effect
unfolding walk_from
walk max_attempt retry_after try chain = walk_from max_attempt retry_after try [] none chain

abbrev pub no_hedge : HedgeStats
no_hedge = record { started = 0; won = 0 }

unfoldable pub send_once : Attempts → List Upstream → Finished × List Effect
send_once try [] = (record { result = err no_upstream; tried = []; hedge = some no_hedge }, [])
send_once try (u ∷ us) =
    let (told, result) = try 1 u in
    (
      record {
        result = map_err call (map_ok (λ reply. record { reply = reply; upstream = u.id }) result);
        tried = u.id ∷ [];
        hedge = some no_hedge;
      },
      observations told,
    )
