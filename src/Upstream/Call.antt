-- ===== src/Upstream/Call.antt =====
-- src/upstream/call.rs: what one call of an upstream yields, and which failures a retry may cure.
use rpc_plus_plus.Prelude.Results.{Result, map_ok}
use rpc_plus_plus.Prelude.Text.{Text}
use rpc_plus_plus.Prelude.Int.{ℤ}
use rpc_plus_plus.Prelude.{ℕ, ◌*◌, ◌/◌, Bool, true, ◌&&◌, ◌||◌, Option, none, some, leb, ◌==◌}

-- `StatusCode`: the number of an HTTP status.
abbrev pub StatusCode : Type 0
StatusCode = ℕ

abbrev pub status_ok : StatusCode
status_ok = 200

abbrev pub too_many_requests : StatusCode
too_many_requests = 429

-- `StatusCode::is_server_error`: within 500-599.
abbrev pub is_server_error : StatusCode → Bool
is_server_error s = leb 500 s && leb s 599

-- A `Duration`, in nanoseconds.
abbrev pub Duration : Type 0
Duration = ℕ

abbrev pub as_micros : Duration → ℕ
as_micros d = d / 1000

abbrev pub from_micros : ℕ → Duration
from_micros n = n * 1000

abbrev pub from_millis : ℕ → Duration
from_millis n = n * 1000000

abbrev pub from_secs : ℕ → Duration
from_secs n = n * 1000000000

pub data CallError : Type 0 where
  unreachable : Text → CallError
  read_failed : StatusCode → Text → CallError
  rpc_error : StatusCode → ℤ → Bool → Text → CallError
  error_status : StatusCode → CallError

pub record CallOutcome : Type 0 where
  pub http_status : StatusCode
  pub response_body : Text

pub record CallResult : Type 0 where
  pub duration : Duration
  pub result : Result CallOutcome CallError

pub record CallRecord : Type 0 where
  pub duration : Duration
  pub outcome : Result StatusCode CallError

-- `CallResult::record`.
unfoldable pub record_of : CallResult → CallRecord
record_of c = record { duration = c.duration; outcome = map_ok (λ o. o.http_status) c.result }

unfoldable pub http_status : CallError → Option StatusCode
http_status (unreachable e) = none
http_status (read_failed s e) = some s
http_status (rpc_error s c r b) = some s
http_status (error_status s) = some s

unfoldable pub is_retryable : CallError → Bool
is_retryable (unreachable e) = true
is_retryable (read_failed s e) = true
is_retryable (error_status s) = (s == too_many_requests) || is_server_error s
is_retryable (rpc_error s c r b) = r
