-- ===== src/Proxy/Served.antt =====
-- One request tells the observer exactly what it did (src/proxy/mod.rs), however it is sent.
use rpc_plus_plus.Prelude.Text.{Text}
use rpc_plus_plus.Proxy.Traces.{Traces}
use rpc_plus_plus.Upstream.Build.{Upstream}
use rpc_plus_plus.Observer.Metrics.{Observed}
use rpc_plus_plus.Proxy.Reply.{Finished}
use rpc_plus_plus.Proxy.Told.{Reports}
use rpc_plus_plus.Proxy.Counts.{Counts, counts}
use rpc_plus_plus.Proxy.TurnTold.{Reported}
use rpc_plus_plus.Proxy.WalkTold.{sent_counts}
use rpc_plus_plus.Prelude.{◌≡◌, none, List, length}

-- What was told agrees with how the request was finished.
abbrev Agrees : Reports → List Upstream → Finished → List Observed → Type 0
Agrees rep chain fin es =
    (counts es ≡ record (sent_counts fin) { reports = (counts es).reports })
    × Reported rep (counts es).reports (length fin.tried)
    × Traces chain none es

abbrev one_request : Counts
one_request = record { reports = 0; hedges = 0; wins = 0; failovers = 0; requests = 1 }
