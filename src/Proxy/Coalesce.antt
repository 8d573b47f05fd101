-- ===== src/Proxy/Coalesce.antt =====
-- `Pipeline::proxy_inner` and `Pipeline::coalesce` of src/proxy/mod.rs: how a request is received,
-- and how it shares the call of an identical one.
use rpc_plus_plus.Prelude.Text.{Text}
use rpc_plus_plus.Prelude.Options.{◌>>=◌}
use rpc_plus_plus.Jsonrpc.Libs.{Libs, RawValue}
use rpc_plus_plus.Jsonrpc.Shape.{shape, single, batch, malformed}
use rpc_plus_plus.Jsonrpc.Dedup.{DedupKey, dedup_key}
use rpc_plus_plus.Jsonrpc.Request.{request_id, readdress}
use rpc_plus_plus.Upstream.Call.{StatusCode}
use rpc_plus_plus.Observer.Metrics.{Observed, coalesced}
use rpc_plus_plus.Proxy.Reply.{Reply}
use rpc_plus_plus.Proxy.SingleFlight.{SingleFlight, FlightId, RequestId, leader, follower, join}
use rpc_plus_plus.Prelude.{Option, none, some, List, [], ◌∷◌}

abbrev pub bad_request : StatusCode
bad_request = 400

-- A status alone, or a reply with its JSON body.
pub data Response : Type 0 where
  status : StatusCode → Response
  replied : Reply → Response

-- What a request comes to, and what the observer is told beyond the request's own call.
abbrev pub Came : Type 0
Came = Reply × List Observed

-- The key and the id of a request that may be coalesced.
unfoldable pub key_and_id : Libs → Text → Option (DedupKey × RawValue)
key_and_id libs body = do key ← dedup_key libs.serde body; id ← request_id libs body; some (key, id)

-- A follower's reply from its leader's; `alone` is what an own call comes to.
unfoldable pub follow_reply : Libs → RawValue → Reply → Reply → Came
follow_reply libs id alone reply = elim (readdress libs.serde reply.body id) [
  | none ↦ (alone, [])
  | some body ↦ (record reply { body = body }, coalesced ∷ [])
]

-- `coalesce`: `awaited` is what each flight comes to, `alone` what a call of the request's own does.
unfoldable pub coalesce :
    Libs → RequestId → Text → (FlightId → Reply) → Reply → SingleFlight → Came × SingleFlight
unfolding key_and_id follow_reply
coalesce libs me body awaited alone s = elim (key_and_id libs body) [
  | none ↦ ((alone, []), s)
  | some keyed ↦
      let (granted, s') = join keyed.0 me s in
      elim granted.1 [
        | leader ↦ ((awaited granted.0, []), s')
        | follower other ↦ (follow_reply libs keyed.1 alone (awaited granted.0), s')
      ]
]

abbrev pub answer_single :
    Libs
    → RequestId
    → Text
    → (FlightId → Reply)
    → Reply
    → Option SingleFlight
    → Came × Option SingleFlight
answer_single libs me body awaited alone none = ((alone, []), none)
answer_single libs me body awaited alone (some s) =
    let (came, s') = coalesce libs me body awaited alone s in (came, some s')

-- `proxy_inner`.
unfoldable pub proxy_inner :
    Libs
    → RequestId
    → Text
    → (FlightId → Reply)
    → Reply
    → Option SingleFlight
    → Response × List Observed × Option SingleFlight
unfolding coalesce
proxy_inner libs me body awaited alone flights = elim (shape libs.memchr body) [
  | batch ↦ (status bad_request, [], flights)
  | single ↦
      let ((reply, told), flights') = answer_single libs me body awaited alone flights in
      (replied reply, told, flights')
  | malformed ↦ (status bad_request, [], flights)
]
