-- ===== src/Proxy/Attempt.antt =====
-- src/proxy/attempt.rs: one call of one upstream, and the guard that reports it exactly once.
use rpc_plus_plus.Prelude.Results.{Result, ok, err}
use rpc_plus_plus.Jsonrpc.Libs.{Libs}
use rpc_plus_plus.Upstream.Call.{CallError, CallOutcome, CallRecord, record_of}
use rpc_plus_plus.Upstream.Build.{UpstreamId, Upstream}
use rpc_plus_plus.Upstream.Read.{Exchange}
use rpc_plus_plus.Upstream.Read
use rpc_plus_plus.Observer.Metrics.{Observed, attempted, abandoned}
use rpc_plus_plus.Proxy.Reply.{Reply}
use rpc_plus_plus.Prelude.{
  ℕ, ◌+◌, ◌-◌, ◌≡◌, refl, Bool, true, false, Option, none, some, List, [], ◌∷◌, if◌then◌else◌,
}

-- The guard; `started` is an instant of the clock.
pub record Attempt : Type 0 where
  pub upstream : UpstreamId
  pub started : ℕ
  pub armed : Bool

unfoldable pub start : UpstreamId → ℕ → Attempt
start id now = record { upstream = id; started = now; armed = true }

-- `Drop`: what the observer is told at the instant `now`.
unfoldable pub drop_attempt : ℕ → Attempt → List Observed
drop_attempt now a = if a.armed then abandoned a.upstream (now - a.started) ∷ [] else []

-- `finish` disarms the guard, reports, and drops it.
unfoldable pub finish : CallRecord → ℕ → Attempt → List Observed
unfolding drop_attempt
finish r now a = attempted a.upstream r ∷ drop_attempt now (record a { armed = false })

unfoldable pub reply_of : Result CallOutcome CallError → Result Reply CallError
reply_of (ok o) = ok (record { http_status = o.http_status; body = o.response_body })
reply_of (err e) = err e

-- How the environment lets a call end: with an exchange, or dropped at an instant.
pub data Fate : Type 0 where
  completes : Exchange → Fate
  cut_off : ℕ → Fate

-- `try_once` from the instant `now`: what the observer is told, and the result unless it was dropped.
unfoldable pub try_once :
    Libs → Upstream → ℕ → Fate → List Observed × Option (Result Reply CallError)
unfolding start finish reply_of
try_once libs upstream now (completes x) =
    let in_flight = start upstream.id now in
    let call = Read.call libs upstream x in
    (finish (record_of call) (now + x.elapsed) in_flight, some (reply_of call.result))
try_once libs upstream now (cut_off later) = (drop_attempt later (start upstream.id now), none)

-- Each attempt is reported exactly once, under its own upstream: with its record if it ran to its
-- end, or as abandoned with the time that it ran if it was dropped before.
pub try_once-reports :
    (libs : Libs) (u : Upstream) (now : ℕ) (fate : Fate)
    → (try_once libs u now fate).0 ≡ (elim fate [
      | completes x ↦ attempted u.id (record_of (Read.call libs u x)) ∷ []
      | cut_off later ↦ abandoned u.id (later - now) ∷ []
    ])
unfolding try_once
try_once-reports libs u now (completes x) = refl
try_once-reports libs u now (cut_off later) = refl

-- Attempts that run to their end, on a network that says how each call goes.
unfoldable pub attempts_of :
    Libs → (ℕ → Upstream → Exchange) → ℕ → Upstream → List Observed × Result Reply CallError
unfolding try_once reply_of
attempts_of libs net n u =
    ((try_once libs u 0 (completes (net n u))).0, reply_of (Read.call libs u (net n u)).result)
