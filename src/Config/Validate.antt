-- ===== src/Config/Validate.antt =====
-- The validation of settings in src/config.rs. What the `http` crate makes of an origin is a
-- parameter.
use rpc_plus_plus.Prelude.Results.{Result, ok, err, ◌>>=◌, ◌>>◌, guard, map_err, ok_or}
use rpc_plus_plus.Prelude.Text.{Text, codes, text_eq, mem_text, contains, trim}
use rpc_plus_plus.Prelude.Assoc.{text_equality, lookup, insert}
use rpc_plus_plus.Prelude.Decimal.{show_nat}
use rpc_plus_plus.Upstream.Build.{UpstreamSettings}
use rpc_plus_plus.Config.Settings.{
  Settings, CorsSettings, SettingsError, residual_placeholder, empty_upstreams, empty_label,
  empty_url, duplicate_label, duplicate_url, zero_hedge_after, zero_upstream_hedge_after,
  invalid_cors_origin, duplicate_cors_origin, wildcard_cors_origin_mixed,
}
use rpc_plus_plus.Config.Expand.{opening}
use rpc_plus_plus.Prelude.{
  ℕ, suc, ◌+◌, Bool, false, not, ◌&&◌, ◌||◌, Option, none, some, List, [], ◌∷◌, ◌++◌, map, leb,
  ◌==◌, if◌then◌else◌, length, is_empty, any,
}

pub record Authority : Type 0 where
  pub host : Text
  pub port_u16 : Option ℕ

pub record Uri : Type 0 where
  pub scheme_str : Option Text
  pub authority : Option Authority

-- `HeaderValue::from_str(…).is_ok()` and `parse::<Uri>()`.
pub record Http : Type 0 where
  pub is_header_value : Text → Bool
  pub parse_uri : Text → Option Uri

abbrev pub wildcard_origin : Text
wildcard_origin = codes "*"

abbrev to_lower : ℕ → ℕ
to_lower c = if leb 65 c && leb c 90 then c + 32 else c

abbrev ends_with_slash : Text → Bool
ends_with_slash [] = false
ends_with_slash (c ∷ []) = c == 47
ends_with_slash (c ∷ d ∷ s) = ends_with_slash (d ∷ s)

abbrev is_port : ℕ → Option ℕ → Bool
is_port n none = false
is_port n (some p) = p == n

abbrev must_be_origin : Text
must_be_origin = codes "must be scheme://host[:port]"

unfoldable pub scheme_of : Uri → Result Text Text
scheme_of uri = elim uri.scheme_str [
  | none ↦ err must_be_origin
  | some scheme ↦
      if text_eq scheme (codes "http") || text_eq scheme (codes "https")
      then ok scheme
      else err (codes "must use http or https")
]

unfoldable pub canonical : Text → Authority → Text
canonical scheme a = elim a.port_u16 [
  | none ↦ scheme ++ (codes "://" ++ a.host)
  | some port ↦ scheme ++ (codes "://" ++ (a.host ++ (codes ":" ++ show_nat port)))
]

-- `validate_origin`; the error is the reason.
unfoldable pub validate_origin : Http → Text → Result (Unit {0}) Text
unfolding scheme_of canonical
validate_origin http origin = do
  guard (text_eq (trim origin) origin) (codes "has surrounding whitespace")
  guard (http.is_header_value origin) (codes "is not a valid header value")
  uri ← ok_or (http.parse_uri origin) must_be_origin
  scheme ← scheme_of uri
  authority ← ok_or uri.authority must_be_origin
  guard (not (is_empty authority.host)) must_be_origin
  guard (not (ends_with_slash origin)) (codes "must not end with a slash")
  guard (text_eq origin (map to_lower origin)) (codes "must be lowercase")
  guard
      (not (
        (text_eq scheme (codes "https") && is_port 443 authority.port_u16)
        || (text_eq scheme (codes "http") && is_port 80 authority.port_u16)))
      (codes "must omit the default port")
  guard (text_eq origin (canonical scheme authority)) (codes "must be exactly scheme://host[:port]")

-- The loop of `validate_cors`, with the origins seen before.
unfoldable pub validate_origins : Http → List Text → List Text → Result (Unit {0}) SettingsError
unfolding validate_origin
validate_origins http seen [] = ok tt
validate_origins http seen (origin ∷ origins) = do
  map_err (invalid_cors_origin origin) (validate_origin http origin)
  guard (not (mem_text origin seen)) (duplicate_cors_origin origin)
  validate_origins http (origin ∷ seen) origins

unfoldable pub validate_cors : Http → CorsSettings → Result (Unit {0}) SettingsError
unfolding validate_origins
validate_cors http cors =
    if any (λ origin. text_eq origin wildcard_origin) cors.allowed_origins
    then (if length cors.allowed_origins == 1 then ok tt else err wildcard_cors_origin_mixed)
    else validate_origins http [] cors.allowed_origins

-- `urls.insert(url, label)` fails where the url was there.
unfoldable pub check_url : Text → Text → List (Text × Text) → Result (Unit {0}) SettingsError
check_url url label urls = elim (lookup url urls) [
  | none ↦ ok tt
  | some first ↦ err (duplicate_url first label)
]

abbrev pub is_zero : Option ℕ → Bool
is_zero none = false
is_zero (some n) = n == 0

-- The loop of `validate_settings`: at `index`, with the labels and urls seen before.
unfoldable pub validate_upstreams :
    ℕ → List Text → List (Text × Text) → List UpstreamSettings → Result (Unit {0}) SettingsError
unfolding check_url
validate_upstreams index labels urls [] = ok tt
validate_upstreams index labels urls (rpc ∷ rpcs) = do
  guard (not (is_empty (trim rpc.label))) (empty_label index)
  guard (not (is_empty (trim rpc.url))) (empty_url rpc.label)
  guard (not (contains opening rpc.label || contains opening rpc.url))
      (residual_placeholder rpc.label)
  guard (not (mem_text rpc.label labels)) (duplicate_label rpc.label)
  check_url rpc.url rpc.label urls
  guard (not (is_zero rpc.hedge_after_in_millis)) (zero_upstream_hedge_after rpc.label)
  validate_upstreams (suc index) (rpc.label ∷ labels) (insert rpc.url rpc.label urls) rpcs

unfoldable pub validate_settings : Http → Settings → Result (Unit {0}) SettingsError
unfolding validate_upstreams validate_cors
validate_settings http s = do
  guard (not (is_empty s.upstreams)) empty_upstreams
  guard (not (s.application.proxy.hedge.after_in_millis == 0)) zero_hedge_after
  validate_cors http s.application.cors
  validate_upstreams 0 [] [] s.upstreams
