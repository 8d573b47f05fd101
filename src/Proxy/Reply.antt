-- ===== src/Proxy/Reply.antt =====
-- src/proxy/reply.rs, and the results that src/proxy/mod.rs passes around.
use rpc_plus_plus.Prelude.Results.{Result}
use rpc_plus_plus.Prelude.Text.{Text}
use rpc_plus_plus.Prelude.Int.{ℤ}
use rpc_plus_plus.Jsonrpc.Libs.{Serde}
use rpc_plus_plus.Jsonrpc.Request.{rpc_error_body}
use rpc_plus_plus.Upstream.Call.{StatusCode, status_ok, Duration, CallError}
use rpc_plus_plus.Upstream.Build.{UpstreamId}
use rpc_plus_plus.Observer.Snapshot.{HedgeStats}
use rpc_plus_plus.Observer.Metrics.{Observed}
use rpc_plus_plus.Prelude.{Option, none, some, List}

pub record Reply : Type 0 where
  pub http_status : StatusCode
  pub body : Text

unfoldable pub rpc_error : Serde → ℤ → Text → Reply
rpc_error serde code msg = record { http_status = status_ok; body = rpc_error_body serde code msg }

pub record Answered : Type 0 where
  pub reply : Reply
  pub upstream : UpstreamId

pub data Failure : Type 0 where
  no_upstream : Failure
  call : CallError → Failure

-- `last_failure.map_or(Failure::NoUpstream, Failure::Call)`.
unfoldable pub failure_of : Option CallError → Failure
failure_of none = no_upstream
failure_of (some e) = call e

pub record Finished : Type 0 where
  pub result : Result Answered Failure
  pub tried : List UpstreamId
  pub hedge : Option HedgeStats

-- What a request does besides answering: calls of the observer, and sleeps.
pub data Effect : Type 0 where
  observed : Observed → Effect
  slept : Duration → Effect
