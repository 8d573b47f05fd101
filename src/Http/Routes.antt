-- ===== src/Http/Routes.antt =====
-- src/http: the routes and their handlers. axum's routing, and the encoder of the prometheus crate,
-- are not modelled: a router is the list of its routes.
use rpc_plus_plus.Prelude.Results.{Result, ok, err}
use rpc_plus_plus.Prelude.Text.{Text, codes}
use rpc_plus_plus.Upstream.Call.{StatusCode, status_ok}
use rpc_plus_plus.Decider.Contract.{Decider}
use rpc_plus_plus.Proxy.Pipeline.{Pipeline, is_ready}
use rpc_plus_plus.Http.Cors.{HttpMethod, get, post, CorsLayer}
use rpc_plus_plus.Prelude.{Option, none, some, List, [], ◌∷◌, if◌then◌else◌}

pub data Handler : Type 0 where
  healthz : Handler
  livez : Handler
  rpc : Handler
  metrics : Handler

pub record Route : Type 0 where
  pub path : Text
  pub method : HttpMethod
  pub handler : Handler
  pub cors : Option CorsLayer

-- `build_router`: the layer stands on the rpc route alone.
unfoldable pub build_router : Option CorsLayer → List Route
build_router cors =
    record { path = codes "/healthz"; method = get; handler = healthz; cors = none }
    ∷ record { path = codes "/livez"; method = get; handler = livez; cors = none }
    ∷ record { path = codes "/rpc"; method = post; handler = rpc; cors = cors }
    ∷ record { path = codes "/metrics"; method = get; handler = metrics; cors = none }
    ∷ []

pub record Answer : Type 0 where
  pub status : StatusCode
  pub content_type : Option Text
  pub body : Text

abbrev pub service_unavailable : StatusCode
service_unavailable = 503

abbrev pub internal_server_error : StatusCode
internal_server_error = 500

abbrev pub plain_text : Text
plain_text = codes "text/plain; charset=utf-8"

unfoldable pub get_healthz : (d : Decider) → Pipeline d.State → Answer
unfolding is_ready
get_healthz d pipeline =
    if is_ready d pipeline
    then record { status = status_ok; content_type = some plain_text; body = codes "OK" }
    else record {
      status = service_unavailable;
      content_type = some plain_text;
      body = codes "NOT READY";
    }

unfoldable pub get_livez : Answer
get_livez = record { status = status_ok; content_type = some plain_text; body = codes "OK" }

-- `encoded` is what the encoder makes of the gathered families, `format_type` its content type.
unfoldable pub get_metrics : Text → Result Text Text → Answer
get_metrics format_type (ok body) = record {
  status = status_ok;
  content_type = some format_type;
  body = body;
}
get_metrics format_type (err e) = record {
  status = internal_server_error;
  content_type = none;
  body = [];
}
