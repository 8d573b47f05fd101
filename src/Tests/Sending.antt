-- ===== src/Tests/Sending.antt =====
-- The theorems on walks and races (src/proxy), at concrete chains.
use rpc_plus_plus.Prelude.Results.{ok, err}
use rpc_plus_plus.Prelude.Text.{codes, text_eq}
use rpc_plus_plus.Prelude.Options.{some_inj}
use rpc_plus_plus.Proxy.Hedge
use rpc_plus_plus.Jsonrpc.Libs.{Libs}
use rpc_plus_plus.Jsonrpc.Method.{method_label, is_idempotent_read, idempotent_reads}
use rpc_plus_plus.Prelude.Text.{mem_text}
use rpc_plus_plus.Proxy.Reply.{Reply, Finished}
use rpc_plus_plus.Proxy.Walk.{Attempts, walk}
use rpc_plus_plus.Proxy.WalkLaws.{Walked, outcomes, walk-Walked}
use rpc_plus_plus.Proxy.WalkEffects.{told_by, walk-told_by}
use rpc_plus_plus.Proxy.Hedge.{
  Event, completes, times_out, Raced, Turn, returns, launch, limit_of, race, begin, run, turn,
  on_result,
}
use rpc_plus_plus.Proxy.HedgeLaws.{IsTurn}
use rpc_plus_plus.Proxy.Pipeline.{start}
use rpc_plus_plus.Proxy.HedgeSource.{Sourced, race-concludes}
use rpc_plus_plus.Proxy.HedgeEnd.{race-returns}
use rpc_plus_plus.Proxy.Pipeline.{Dispatch, Core, World, send}
use rpc_plus_plus.Proxy.Once.{AsksHead, send-once, send-bounded}
use rpc_plus_plus.Tests.Fixtures.{serde0, libs0, alpha, beta, pool0, busy, reply0}
use rpc_plus_plus.Upstream.Build.{Upstream}
use rpc_plus_plus.Upstream.Read.{Exchange}
use rpc_plus_plus.Observer.Metrics
use rpc_plus_plus.Observer.Metrics.{Observed, MetricsObserver, requested}
use rpc_plus_plus.Proxy.Attempt.{attempts_of}
use rpc_plus_plus.Proxy.Told.{Reports}
use rpc_plus_plus.Proxy.Traces.{Traces}
use rpc_plus_plus.Proxy.Request.{told_send, told_request}
use rpc_plus_plus.Proxy.Answers.{LetsEnd, start-answers}
use rpc_plus_plus.App.Wiring.{round_robin, any_decider, decide}
use rpc_plus_plus.App.Deciders.{any_decider-IsDecider}
use mathlib.Core.List.{Perm}
use rpc_plus_plus.Prelude.{
  Bool, ℕ, ◌≤◌, ◌≡◌, refl, subst, false, none, some, List, [], ◌∷◌, arith, ◌==◌, if◌then◌else◌,
  length, take, map,
}

-- The first attempt fails, the others succeed.
abbrev try0 : Attempts
try0 n u = ([], if n == 1 then err busy else ok reply0)

walk-Walked_example :
    Walked [] none (outcomes try0 0 (take 2 pool0)) (take 2 pool0) (walk 2 1000 try0 pool0).0
walk-Walked_example = walk-Walked 2 1000 try0 pool0

walk-told_by_example :
    (walk 2 1000 try0 pool0).1
    ≡ told_by 1000 try0 0 none (take (length (walk 2 1000 try0 pool0).0.tried) pool0)
walk-told_by_example = walk-told_by 2 1000 try0 pool0

abbrev overtaken : List Event
overtaken = times_out ∷ completes 1 (ok reply0) ∷ []

race-concludes_example :
    IsTurn pool0 (limit_of pool0 2) (race pool0 2 overtaken)
    × Sourced pool0 (limit_of pool0 2) overtaken (race pool0 2 overtaken)
race-concludes_example = race-concludes pool0 2 overtaken

abbrev straight : List Event
straight = completes 0 (ok reply0) ∷ times_out ∷ times_out ∷ []

race-returns_example : (x : Raced) × (race pool0 1 straight ≡ returns x)
unfolding limit_of begin launch turn on_result
race-returns_example = race-returns pool0 1 straight (omega arith) (refl, tt)

abbrev observer0 : MetricsObserver
observer0 = Metrics.new (map (λ (u : Upstream). u.id) pool0)

abbrev core0 : Core Unit
core0 = record {
  decider = tt;
  observer = observer0;
  max_attempt = 2;
  retry_after = 1000;
  dispatch = Dispatch.hedged;
}

abbrev world0 : World
world0 = record { try = try0; events = overtaken; elapsed = 5 }

abbrev sending : Libs
sending = record libs0 {
  serde = record serde0 { method_envelope = λ t. some (codes "eth_sendRawTransaction") };
}

abbrev raced0 : Raced
raced0 = record {
  result = ok (record { index = 1; cause = Hedge.hedge alpha; answer = reply0 });
  started = 2;
  hedge = record { started = 1; won = 1 };
}

send-bounded_example :
    (fin : Finished) × (send core0 world0 (codes "eth_call") pool0 ≡ some fin)
    × (length fin.tried ≤ 2)
unfolding race
send-bounded_example = send-bounded core0 world0 (codes "eth_call") pool0 raced0 (omega arith) refl

abbrev reports0 : Reports
reports0 = record { finished = λ s. record { duration = 9; outcome = ok 200 }; ran = λ s. some 4 }

send-once_example :
    (fin : Finished) × (send core0 world0 (method_label sending.serde (codes "{}")) pool0
      ≡ some fin)
    × AsksHead try0 pool0 fin
        (told_send core0 world0 reports0 (method_label sending.serde (codes "{}")) pool0)
unfolding is_idempotent_read mem_text idempotent_reads text_eq
send-once_example =
    send-once sending core0 world0 reports0 (codes "{}") pool0 refl
      (λ method e. subst (λ m. is_idempotent_read m ≡ false) (some_inj e) refl)

-- No upstream can be reached.
abbrev net0 : ℕ → Upstream → Exchange
net0 n u = record { sent = err (codes "refused"); elapsed = 2 }

abbrev world1 : World
world1 = record { try = attempts_of libs0 net0; events = overtaken; elapsed = 5 }

abbrev finished0 : Finished
finished0 = record {
  result = ok (record { reply = reply0; upstream = beta.id });
  tried = alpha.id ∷ beta.id ∷ [];
  hedge = some (record { started = 1; won = 1 });
}

abbrev told0 : List Observed
told0 = told_request core0 world1 reports0 (codes "eth_call") pool0 finished0

abbrev core1 : Core any_decider.State
unfolding decide
core1 = record {
  decider = round_robin (record { upstreams = pool0; next = 1 });
  observer = observer0;
  max_attempt = 1;
  retry_after = 1000;
  dispatch = Dispatch.hedged;
}

abbrev world2 : World
world2 = record { try = try0; events = straight; elapsed = 5 }

single : (u : Upstream) (us : List Upstream) → limit_of (u ∷ us) 1 ≡ 1
unfolding limit_of
single u us = ground arith

-- With one attempt, the answer to the first call ends the race over any chain.
straight-LetsEnd : (chain : List Upstream) → LetsEnd 1 straight chain
unfolding limit_of begin launch turn on_result
straight-LetsEnd [] = (omega (arith, none_there), (refl, tt))
  where
    none_there : limit_of [] 1 ≡ 0
    none_there = refl
straight-LetsEnd (u ∷ us) = (ground (arith, single u us), rw (single u us) (refl, tt))

start-answers_example :
    (reply : Reply) × (was_answered : Bool) × (n : ℕ) × (core' : Core any_decider.State) × (start
        any_decider libs0 core1 world2
        (codes "{}")
      ≡ some ((reply, requested (method_label libs0.serde (codes "{}")) was_answered n 5), core'))
    × (n ≤ 1)
    × Perm (any_decider-IsDecider.pool core'.decider) (any_decider-IsDecider.pool core1.decider)
unfolding core1
start-answers_example =
    start-answers any_decider any_decider-IsDecider libs0 core1 world2 (codes "{}") (omega arith)
      (λ chain is_chain. straight-LetsEnd chain)
