-- ===== src/Tests/Settings.antt =====
-- The theorems on settings (src/config.rs), at concrete settings.
use rpc_plus_plus.Prelude.Results.{ok}
use rpc_plus_plus.Prelude.Text.{Text, codes, find, contains, text_eq, mem_text, trim}
use rpc_plus_plus.Prelude.Assoc.{lookup, insert}
use rpc_plus_plus.Upstream.Build.{build_all, described}
use rpc_plus_plus.Config.Settings.{Settings, least_latency}
use rpc_plus_plus.Config.Expand.{Environment, opening, expand_from, expand_str, expand_str-ends}
use rpc_plus_plus.Config.Validate.{Http, validate_settings}
use rpc_plus_plus.Config.Checked.{IsDistinct, validate_settings-builds}
use rpc_plus_plus.Config.Load.{
  Read, defaults, source_of, IsLoaded, get_settings, get_settings-IsLoaded,
}
use rpc_plus_plus.Prelude.{
  ◌<◌, ◌≡◌, refl, true, false, none, some, [], ◌∷◌, map, arith, if◌then◌else◌,
}

abbrev home : Environment
home name = if text_eq name (codes "HOST") then some (codes "example.org") else none

abbrev templated : Text
templated = codes "https://${HOST}/rpc"

expand_str-ends_example :
    (expand_from 100 home [] templated ≡ expand_str home templated)
    × (contains opening templated ≡ false → expand_str home templated ≡ ok templated)
expand_str-ends_example = expand_str-ends home templated 100 (omega arith)

-- The placeholder gives way to the value.
expands : expand_str home templated ≡ ok (codes "https://example.org/rpc")
unfolding expand_str find text_eq trim
expands = refl

abbrev pub any_http : Http
any_http = record { is_header_value = λ t. true; parse_uri = λ t. none }

abbrev pub two : Settings
two = record {
  application = record {
    port = 8080;
    host = codes "127.0.0.1";
    proxy = record {
      max_attempt = 3;
      retry_after_in_secs = 1;
      rpc_timeout_in_secs = 3;
      max_response_bytes = 100;
      hedge = record { enabled = false; after_in_millis = 250 };
      dedup = record { enabled = false };
    };
    cors = record { allowed_origins = [] };
  };
  upstreams =
      record { label = codes "a"; url = codes "u"; hedge_after_in_millis = none }
      ∷ record { label = codes "b"; url = codes "v"; hedge_after_in_millis = some 5 }
      ∷ [];
  legacy_rpc_timeout_in_secs = none;
  decider = least_latency;
}

validate_settings-builds_example :
    IsDistinct (map (λ r. r.label) two.upstreams)
    × (0 < two.application.proxy.rpc_timeout_in_secs
        → 0 < two.application.proxy.max_response_bytes
        → build_all two.application.proxy two.upstreams
          ≡ ok (map (described two.application.proxy) two.upstreams))
unfolding validate_settings find text_eq mem_text trim lookup insert contains
validate_settings-builds_example = validate_settings-builds any_http two refl

-- What a file with a placeholder and the deprecated key says.
abbrev written : Settings
written = record two {
  application = record two.application { host = templated };
  legacy_rpc_timeout_in_secs = some 7;
}

abbrev loaded : Settings
loaded = record written {
  application = record two.application {
    host = codes "https://example.org/rpc";
    proxy = record two.application.proxy { rpc_timeout_in_secs = 7 };
  };
}

abbrev file : Read
file values source = ok written

get_settings-IsLoaded_example :
    (raw : Settings) × (file defaults (source_of home) ≡ ok raw)
    × IsLoaded home raw loaded
    × (validate_settings any_http loaded ≡ ok tt)
unfolding get_settings find text_eq mem_text trim lookup insert contains expand_str
get_settings-IsLoaded_example = get_settings-IsLoaded any_http file home loaded refl
