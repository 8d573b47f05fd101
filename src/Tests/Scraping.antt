-- ===== src/Tests/Scraping.antt =====
-- The theorems on the scrape (src/observer/prometheus.rs), at a concrete observer.
use rpc_plus_plus.Prelude.Results.{ok, err, ok_inj}
use rpc_plus_plus.Prelude.Text.{text_eq, text_leb}
use rpc_plus_plus.Prelude.Sort.{sort_by}
use rpc_plus_plus.Prelude.Assoc.{insert}
use rpc_plus_plus.Upstream.Build.{UpstreamId}
use rpc_plus_plus.Upstream.Build
use rpc_plus_plus.Observer.Metrics.{
  MetricsObserver, new, Observed, attempted, failed_over, requested, observe_all,
}
use rpc_plus_plus.Observer.Views.{snapshots}
use rpc_plus_plus.Observer.Collector as Exporter
use rpc_plus_plus.Observer.Metrics
use rpc_plus_plus.Observer.Collector.{
  Descs, Collector, desc, pair_desc, collect, attempts_name, attempts_help, attempts_duration_name,
  attempts_duration_help, hedges_name, hedges_help, hedge_wins_name, hedge_wins_help,
  failovers_name, failovers_help, coalesced_name, coalesced_help, requests_name, requests_help,
  request_attempts_name, request_attempts_help, request_duration_name, request_duration_help,
}
use rpc_plus_plus.Observer.Scrape.{scrape}
use rpc_plus_plus.Observer.Collected.{collect-scrape}
use rpc_plus_plus.Observer.Described.{Description, IsDescribing, Keeps, collect-desc}
use rpc_plus_plus.Tests.Fixtures.{whole, alpha, beta, busy}
use rpc_plus_plus.Prelude.Text.{codes}
use rpc_plus_plus.Jsonrpc.Method.{method_labels}
use rpc_plus_plus.Observer.Views.{id_le, pair_le, hedge_snapshots, failovers, requests}
use rpc_plus_plus.Observer.Tables.{tracked, tracked_pairs}
use rpc_plus_plus.Observer.Ordered.{IsInOrder, views-IsInOrder}
use rpc_plus_plus.Prelude.{◌≡◌, refl, sym, true, List, [], ◌∷◌, map, if◌then◌else◌, is_empty}

abbrev ids0 : List UpstreamId
ids0 = beta.id ∷ alpha.id ∷ []

-- A request that fails over from one upstream to the other.
abbrev calls0 : List Observed
calls0 =
    attempted alpha.id (record { duration = 2000; outcome = err busy })
    ∷ failed_over alpha.id
    ∷ attempted beta.id (record { duration = 3000; outcome = ok 200 })
    ∷ requested (codes "eth_call") true 2 5000
    ∷ []

collect-scrape_example :
    collect whole (observe_all (new ids0) calls0)
    ≡ (if is_empty ids0 then [] else scrape whole calls0 ids0)
collect-scrape_example = collect-scrape whole ids0 calls0

-- Descriptors that are what they are made of.
abbrev pub descs0 : Descs
descs0 = record {
  Desc = Description;
  Error = Unit {0};
  make = λ name help labels. ok (record { name = name; help = help; variable_labels = labels });
}

abbrev describing : IsDescribing descs0
describing = record { describe = λ d. d; made = λ name help labels d e. sym (ok_inj e) }

abbrev observer0 : MetricsObserver
observer0 = new ids0

abbrev pub collector_of : MetricsObserver → Collector descs0
collector_of o = record {
  observer = o;
  attempts_desc = record {
    name = attempts_name;
    help = attempts_help;
    variable_labels = codes "outcome" ∷ codes "upstream" ∷ [];
  };
  attempts_duration_desc = record {
    name = attempts_duration_name;
    help = attempts_duration_help;
    variable_labels = codes "upstream" ∷ [];
  };
  hedges_desc = record {
    name = hedges_name;
    help = hedges_help;
    variable_labels = codes "upstream" ∷ codes "to" ∷ [];
  };
  hedge_wins_desc = record {
    name = hedge_wins_name;
    help = hedge_wins_help;
    variable_labels = codes "upstream" ∷ codes "to" ∷ [];
  };
  failovers_desc = record {
    name = failovers_name;
    help = failovers_help;
    variable_labels = codes "upstream" ∷ [];
  };
  coalesced_desc = record { name = coalesced_name; help = coalesced_help; variable_labels = [] };
  requests_desc = record {
    name = requests_name;
    help = requests_help;
    variable_labels = codes "method" ∷ codes "outcome" ∷ [];
  };
  request_attempts_desc = record {
    name = request_attempts_name;
    help = request_attempts_help;
    variable_labels = codes "method" ∷ [];
  };
  request_duration_desc = record {
    name = request_duration_name;
    help = request_duration_help;
    variable_labels = codes "method" ∷ [];
  };
}

collect-desc_example :
    Keeps whole (map (λ d. d) (desc descs0 (collector_of observer0))) (collect whole observer0)
unfolding Exporter.new snapshots Metrics.new insert text_eq text_leb sort_by Build.id_beq
collect-desc_example =
    collect-desc descs0 describing whole observer0 (collector_of observer0) refl refl

views-IsInOrder_example :
    IsInOrder id_le (tracked ids0) (snapshots (observe_all (new ids0) calls0))
    × IsInOrder pair_le (tracked_pairs ids0) (hedge_snapshots (observe_all (new ids0) calls0))
    × IsInOrder id_le (tracked ids0) (failovers (observe_all (new ids0) calls0))
    × IsInOrder text_leb method_labels (requests (observe_all (new ids0) calls0))
views-IsInOrder_example = views-IsInOrder ids0 calls0
