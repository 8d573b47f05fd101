-- ===== src/Tests/Wiring.antt =====
-- The theorems on the wiring (src/app.rs), at concrete settings.
use rpc_plus_plus.Prelude.Results.{ok}
use rpc_plus_plus.Prelude.Text.{find, contains, text_eq, mem_text, trim}
use rpc_plus_plus.Prelude.Assoc.{lookup, insert}
use rpc_plus_plus.Observer.Collector as Exporter
use rpc_plus_plus.Observer.Collector.{Collector}
use rpc_plus_plus.Config.Validate.{validate_settings}
use rpc_plus_plus.App.Wiring.{Outside, build}
use rpc_plus_plus.App.Started.{observer_of, IsUp, application_of, build-application_of}
use rpc_plus_plus.Tests.Scraping.{descs0, collector_of}
use rpc_plus_plus.Tests.Settings.{any_http, two}
use rpc_plus_plus.Prelude.{◌≡◌, refl, arith}

abbrev outside0 : Outside descs0
outside0 = record {
  client = ok tt;
  register = λ c. ok tt;
  bind = λ at. ok 7;
  local_port = λ listener. ok 8080;
}

is_up : IsUp descs0 outside0 two (collector_of (observer_of two)) 7 8080
unfolding Exporter.new
is_up = record { client = refl; collector = refl; registered = refl; bound = refl; known = refl }

build-application_of_example :
    build descs0 any_http outside0 two
    ≡ ok (application_of descs0 outside0 two (collector_of (observer_of two)) 7 8080)
unfolding validate_settings find text_eq mem_text trim lookup insert contains
build-application_of_example =
    build-application_of descs0 outside0 two any_http (collector_of (observer_of two)) 7 8080 refl
      (omega arith) (omega arith) (omega arith) is_up
