-- ===== src/Proxy/Answers.antt =====
-- Every request is answered (src/proxy/mod.rs): the decision, the calls and the reply together.
use mathlib.Core.List.{Perm}
use rpc_plus_plus.Prelude.Results.{is_ok}
use rpc_plus_plus.Prelude.Text.{Text}
use rpc_plus_plus.Jsonrpc.Libs.{Libs}
use rpc_plus_plus.Jsonrpc.Method.{method_label}
use rpc_plus_plus.Upstream.Build.{Upstream}
use rpc_plus_plus.Observer.Metrics.{requested}
use rpc_plus_plus.Decider.Contract.{Decider, IsDecider, IsChain}
use rpc_plus_plus.Proxy.Reply.{Reply}
use rpc_plus_plus.Proxy.Hedge.{Event, limit_of, begin}
use rpc_plus_plus.Proxy.HedgeEnd.{AllEnabled, race-returns}
use rpc_plus_plus.Proxy.Pipeline.{Core, World, finish, run, start}
use rpc_plus_plus.Proxy.Once.{send-bounded}
use rpc_plus_plus.Prelude.{ℕ, suc, ◌*◌, ◌≤◌, ◌<◌, ◌≡◌, refl, Bool, some, List, length}

-- The environment lets a race over the chain end: each event finds its arm enabled, and there are
-- enough of them.
abbrev pub LetsEnd : ℕ → List Event → List Upstream → Type 0
LetsEnd max events chain =
    (suc (2 * limit_of chain max) ≤ length events)
    × AllEnabled chain (limit_of chain max) events (begin chain (limit_of chain max))

-- Every request is answered, whatever the decider chooses, provided that it keeps the contract and
-- that calls complete or time out: there is a reply, one record of the request under its method's
-- label with at most `max_attempt` attempts, and the decider goes on over the same upstreams.
pub start-answers :
    (d : Decider) (law : IsDecider d) (libs : Libs) (core : Core d.State) (w : World) (body : Text)
    → 0 < core.max_attempt
    → ((chain : List Upstream)
        → IsChain core.max_attempt (law.pool core.decider) chain
        → LetsEnd core.max_attempt w.events chain)
    → (reply : Reply) × (was_answered : Bool) × (n : ℕ) × (core' : Core d.State) × (start d libs
          core w body
        ≡ some ((reply, requested (method_label libs.serde body) was_answered n w.elapsed), core'))
      × (n ≤ core.max_attempt)
      × Perm (law.pool core'.decider) (law.pool core.decider)
unfolding start run
start-answers d law libs core w body positive ends =
    let (chain, s', decided, is_chain, same) = law.decides core.decider core.max_attempt in
    let (long, enabled) = ends chain is_chain in
    let (raced, returned) = race-returns chain core.max_attempt w.events long enabled in
    let (fin, sent, few) =
      send-bounded core w (method_label libs.serde body) chain raced positive returned in
    (
      finish libs.serde fin,
      is_ok fin.result,
      length fin.tried,
      record core { decider = s' },
      rw (decided, start, sent, run) refl,
      few,
      same,
    )
