-- ===== src/Proxy/Pipeline.antt =====
-- `Pipeline` of src/proxy/mod.rs: from the body of a request to the response.
use rpc_plus_plus.Prelude.Results.{Result, ok, err, is_ok}
use rpc_plus_plus.Prelude.Options.{◌>>=◌}
use rpc_plus_plus.Prelude.Text.{Text, codes}
use rpc_plus_plus.Prelude.Int.{ℤ, neg}
use rpc_plus_plus.Prelude.Decimal.{show_nat, show_int}
use rpc_plus_plus.Jsonrpc.Libs.{Libs, Serde}
use rpc_plus_plus.Jsonrpc.Method.{is_write_method, method_label}
use rpc_plus_plus.Upstream.Call.{
  Duration, CallError, unreachable, read_failed, error_status, from_secs,
}
use rpc_plus_plus.Upstream.Build.{Upstream}
use rpc_plus_plus.Observer.Metrics.{MetricsObserver, Observed, hedge_won, failed_over, requested}
use rpc_plus_plus.Decider.Contract.{Decider}
use rpc_plus_plus.Proxy.Reply.{Reply, rpc_error, Answered, Failure, no_upstream, call, Finished}
use rpc_plus_plus.Proxy.Walk.{Attempts, walk, send_once}
use rpc_plus_plus.Proxy.Hedge
use rpc_plus_plus.Proxy.Hedge.{Start, Won, Raced, Turn, goes_on, returns, panics, Event, race}
use rpc_plus_plus.Proxy.SingleFlight.{SingleFlight, fresh}
use rpc_plus_plus.Prelude.{
  ℕ, Bool, false, Option, none, some, List, [], ◌∷◌, ◌++◌, map, ◌==◌, if◌then◌else◌, length,
  get_elem?, take,
}

pub data Dispatch : Type 0 where
  sequential : Dispatch
  hedged : Dispatch

pub data BuildError : Type 0 where
  zero_max_attempt : BuildError

pub record Core (D : Type 0) : Type 0 where
  pub decider : D
  pub observer : MetricsObserver
  pub max_attempt : ℕ
  pub retry_after : Duration
  pub dispatch : Dispatch

pub record Pipeline (D : Type 0) : Type 0 where
  pub core : Core D
  pub flights : Option SingleFlight

abbrev pub default_max_attempt : ℕ
default_max_attempt = 3

abbrev pub default_retry_after : Duration
default_retry_after = from_secs 1

abbrev pub get_default {ℓ} : {A : Type ℓ} → A → Option A → A
get_default d none = d
get_default d (some a) = a

-- The builder, an argument that was not given being `none`.
unfoldable pub new :
    {D : Type 0}
    → D
    → MetricsObserver
    → Option ℕ
    → Option Duration
    → Option Dispatch
    → Option Bool
    → Result (Pipeline D) BuildError
new decider observer max_attempt retry_after dispatch dedup =
    let max = get_default default_max_attempt max_attempt in
    if max == 0
    then err zero_max_attempt
    else ok (record {
      core = record {
        decider = decider;
        observer = observer;
        max_attempt = max;
        retry_after = get_default default_retry_after retry_after;
        dispatch = get_default sequential dispatch;
      };
      flights = if get_default false dedup then some fresh else none;
    })

-- What is outside of the process in one request: how the attempts of a walk end, the events of a
-- race, and how long it took.
pub record World : Type 0 where
  pub try : Attempts
  pub events : List Event
  pub elapsed : Duration

-- `to_string` of a failure.
unfoldable pub to_string : Failure → Text
unfolding show_nat show_int
to_string no_upstream = codes "no upstream available"
to_string (call (unreachable e)) = e
to_string (call (read_failed s e)) = e
to_string (call (CallError.rpc_error s code r b)) =
    codes "upstream returned rpc error code " ++ show_int code
to_string (call (error_status s)) = codes "upstream returned error status " ++ show_nat s

abbrev pub internal_error : ℤ
internal_error = neg 32603

-- A failure's reply: the body of an RPC error as the upstream sent it, else the proxy's own error.
unfoldable pub reply_to : Serde → Failure → Reply
unfolding rpc_error to_string
reply_to serde (call (CallError.rpc_error s code r body)) = record { http_status = s; body = body }
reply_to serde no_upstream = rpc_error serde internal_error (to_string no_upstream)
reply_to serde (call (unreachable e)) =
    rpc_error serde internal_error (to_string (call (unreachable e)))
reply_to serde (call (read_failed s e)) =
    rpc_error serde internal_error (to_string (call (read_failed s e)))
reply_to serde (call (error_status s)) =
    rpc_error serde internal_error (to_string (call (error_status s)))

unfoldable pub finish : Serde → Finished → Reply
unfolding reply_to
finish serde fin = elim fin.result [
  | ok answered ↦ answered.reply
  | err failure ↦ reply_to serde failure
]

-- What `Core::race` tells the observer before it makes a call, and of a hedge that won.
unfoldable pub told_start : Upstream → Start → List Observed
told_start u s = elim s.cause [
  | Hedge.first ↦ []
  | Hedge.hedge overtaken ↦ Observed.hedged overtaken.id u.id ∷ []
  | Hedge.failover from ↦ failed_over from.id ∷ []
]

unfoldable pub told_win : List Upstream → Won → List Observed
told_win chain w = elim w.cause [
  | Hedge.first ↦ []
  | Hedge.hedge overtaken ↦ (elim (get_elem? chain w.index) [
    | none ↦ []
    | some u ↦ hedge_won overtaken.id u.id ∷ []
  ])
  | Hedge.failover from ↦ []
]

-- `chain[index].id()` of the winner; none where the index is out of range.
unfoldable pub answered_by : List Upstream → Result Won Failure → Option (Result Answered Failure)
answered_by chain (err e) = some (err e)
answered_by chain (ok w) = do
  u ← get_elem? chain w.index
  some (ok (record { reply = w.answer; upstream = u.id }))

-- `Core::race` once the race has returned.
unfoldable pub race_finished : List Upstream → Raced → Option Finished
unfolding answered_by
race_finished chain raced = do
  result ← answered_by chain raced.result
  some (record {
    result = result;
    tried = map (λ u. u.id) (take raced.started chain);
    hedge = some raced.hedge;
  })

abbrev pub when_returned : List Upstream → Turn → Option Finished
when_returned chain (returns raced) = race_finished chain raced
when_returned chain (goes_on r) = none
when_returned chain panics = none

-- The three ways to send a request. `none` if the events do not finish the race, or it panics.
unfoldable pub send : {D : Type 0} → Core D → World → Text → List Upstream → Option Finished
send core w method chain = elim core.dispatch [
  | sequential ↦ some (walk core.max_attempt core.retry_after w.try chain).0
  | hedged ↦
      if is_write_method method
      then some (send_once w.try chain).0
      else when_returned chain (race chain core.max_attempt w.events)
]

-- `run`: the reply, and the request's own record.
unfoldable pub run :
    {D : Type 0} → Libs → Core D → World → Text → List Upstream → Option (Reply × Observed)
unfolding send finish
run libs core w body chain =
    let method = method_label libs.serde body in
    do
      fin ← send core w method chain
      some (finish libs.serde fin, requested method (is_ok fin.result) (length fin.tried) w.elapsed)

-- `Core::start`: the decider chooses the chain, and goes on in its next state.
unfoldable pub start :
    (d : Decider) → Libs → Core d.State → World → Text → Option ((Reply × Observed) × Core d.State)
unfolding run
start d libs core w body = do
  decided ← d.decide core.decider core.max_attempt
  answer ← run libs core w body decided.0
  some (answer, record core { decider = decided.1 })

unfoldable pub is_ready : (d : Decider) → Pipeline d.State → Bool
is_ready d p = d.ready p.core.decider
