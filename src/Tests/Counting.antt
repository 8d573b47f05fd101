-- ===== src/Tests/Counting.antt =====
-- The theorems on upstreams and on the observer (src/upstream, src/observer), at concrete inputs.
use rpc_plus_plus.Prelude.Results.{Result, ok, err}
use rpc_plus_plus.Prelude.Text.{Text, codes, find}
use rpc_plus_plus.Jsonrpc.Fault.{rpc_fault_in}
use rpc_plus_plus.Upstream.Call.{CallOutcome, CallRecord, from_micros}
use rpc_plus_plus.Upstream.Build.{
  UpstreamSettings, ProxySettings, build_all, described, first_fault, build_all-first_fault,
  id_equality,
}
use rpc_plus_plus.Upstream.Read.{
  Stream, done, chunk, Response, too_large, read_body, Carries, read_body-Carries, call_inner,
  call_inner-ok,
}
use rpc_plus_plus.Observer.Snapshot.{no_stats, snapshot_of, diff, latency_score}
use rpc_plus_plus.Observer.Tally.{Seen, dropped, see_all, total}
use rpc_plus_plus.Observer.Growth.{count, cost}
use rpc_plus_plus.Observer.Score.{latency_score-mean}
use rpc_plus_plus.Tests.Fixtures.{libs0, alpha, busy}
use rpc_plus_plus.Prelude.{
  ℕ, ◌/◌, ◌≤◌, ◌≡◌, refl, true, none, some, List, [], ◌∷◌, ◌++◌, map, arith, ltb, if◌then◌else◌,
  length,
}

abbrev proxy0 : ProxySettings
proxy0 = record {
  max_attempt = 3;
  retry_after_in_secs = 1;
  rpc_timeout_in_secs = 3;
  max_response_bytes = 100;
  hedge = record { enabled = true; after_in_millis = 250 };
  dedup = record { enabled = true };
}

abbrev settings0 : List UpstreamSettings
settings0 =
    record { label = codes "a"; url = codes "u"; hedge_after_in_millis = none }
    ∷ record { label = codes "b"; url = codes "v"; hedge_after_in_millis = some 0 }
    ∷ []

build_all-first_fault_example : build_all proxy0 settings0 ≡ (elim (first_fault proxy0 settings0) [
  | none ↦ ok (map (described proxy0) settings0)
  | some e ↦ err e
])
build_all-first_fault_example = build_all-first_fault proxy0 settings0

abbrev two_chunks : Stream
two_chunks = chunk (codes "ab") (chunk (codes "c") done)

read_body-Carries_example :
    read_body 200 2 [] two_chunks
    ≡ (if ltb 2 (length (codes "abc")) then err (too_large 2 200) else ok (codes "abc"))
read_body-Carries_example =
    read_body-Carries 200 2 two_chunks (codes "abc") (codes "c", refl, ([], refl, refl))

abbrev response0 : Response
response0 = record { status = 200; content_length = some 3; body = two_chunks }

abbrev sent0 : Result Response Text
sent0 = ok response0

abbrev outcome0 : CallOutcome
outcome0 = record { http_status = 200; response_body = codes "abc" }

call_inner-ok_example :
    (res : Response) × (sent0 ≡ ok res)
    × (res.status ≡ 200)
    × (outcome0.http_status ≡ 200)
    × Carries res.body outcome0.response_body
    × (length outcome0.response_body ≤ alpha.max_response_bytes)
    × (rpc_fault_in libs0 outcome0.response_body ≡ none)
unfolding call_inner rpc_fault_in find
call_inner-ok_example = call_inner-ok libs0 alpha sent0 outcome0 refl

abbrev bounds0 : List ℕ
bounds0 = 5 ∷ 10 ∷ []

abbrev failed_call : CallRecord
failed_call = record { duration = 2000; outcome = err busy }

abbrev past0 : List Seen
past0 = dropped 1000 ∷ []

abbrev recent0 : List Seen
recent0 = dropped 3000 ∷ dropped 5000 ∷ []

latency_score-mean_example :
    latency_score
      (diff
        (snapshot_of (see_all no_stats (past0 ++ recent0)))
        (snapshot_of (see_all no_stats past0)))
      9000
    ≡ some (from_micros (total (cost 9000) recent0 / count recent0))
latency_score-mean_example =
    latency_score-mean 9000 past0 recent0 (omega arith) (omega arith) (omega arith) (omega arith)
