-- ===== src/Tests/Sharing.antt =====
-- The theorems on shared flights and on requests as a whole (src/proxy), at concrete inputs.
use rpc_plus_plus.Prelude.Text.{Text, codes}
use rpc_plus_plus.Prelude.Assoc
use rpc_plus_plus.Proxy.SingleFlight
use rpc_plus_plus.Prelude.Assoc.{lookup, update}
use rpc_plus_plus.Prelude.Words.{u64_mod}
use rpc_plus_plus.Jsonrpc.Dedup
use rpc_plus_plus.Jsonrpc.Dedup.{DedupKey}
use rpc_plus_plus.Jsonrpc.Request
use rpc_plus_plus.Jsonrpc.Request.{RawMap}
use rpc_plus_plus.Proxy.SingleFlight.{
  id_equality, key_equality, FlightId, Flight, SingleFlight, fresh, join, Reaches, here, next,
  joins, completes, conclude,
}
use rpc_plus_plus.Proxy.SingleFlightLaws.{IsSound}
use rpc_plus_plus.Proxy.Flights.{
  Granted, Reaches-IsSound, Reaches-one_flight, Reaches-no_leak, join-Granted,
}
use rpc_plus_plus.Prelude.{◌≡◌, refl, true, false, none, some, [], ◌∷◌, arith, ◌<◌, ◌≤◌, length}

abbrev key0 : DedupKey
key0 = record { hash = 0 }

-- Request 1 leads a flight.
abbrev flying : SingleFlight
flying = (join key0 1 fresh).1

abbrev flying-reached : Reaches fresh flying
flying-reached = next fresh fresh flying (here fresh) (joins key0 1 fresh)

abbrev flight0 : Flight
flight0 = record { key = key0; leader = 1; handles = 1; live = true }

flying-fewer : length flying.flights < u64_mod
unfolding join lookup
flying-fewer = omega arith

flying-few : length flying.flights ≤ u64_mod
flying-few = omega (arith, flying-fewer)

Reaches-IsSound_example : IsSound flying
Reaches-IsSound_example = Reaches-IsSound flying flying-reached flying-few

abbrev led : FlightId
led = 0

Reaches-one_flight_example : led ≡ led
unfolding join lookup
Reaches-one_flight_example =
    Reaches-one_flight flying flying-reached flying-few led led flight0 flight0 refl refl
      (omega arith) refl refl (omega arith) refl

-- The flight has completed.
abbrev landed : SingleFlight
landed = conclude 0 flight0 flying

abbrev landed-reached : Reaches fresh landed
unfolding join lookup
landed-reached =
    next fresh flying landed flying-reached (completes 0 flight0 flying refl refl (omega arith))

landed-few : length landed.flights ≤ u64_mod
unfolding join lookup conclude update Assoc.insert SingleFlight.key_beq
landed-few = omega arith

landed-over : (id : FlightId) (f : Flight) → lookup id landed.flights ≡ some f → f.live ≡ false
unfolding join lookup conclude update
landed-over id f h = ground arith

Reaches-no_leak_example : lookup key0 landed.inflight ≡ none
Reaches-no_leak_example = Reaches-no_leak landed landed-reached landed-few landed-over key0

join-Granted_example : Granted key0 flying (join key0 2 flying).0
join-Granted_example = join-Granted key0 2 flying flying-reached flying-fewer

abbrev proxied : Text
proxied = codes "{}"

abbrev map0 : RawMap
map0 = (codes "id", codes "1") ∷ (codes "result", codes "0x10") ∷ []
