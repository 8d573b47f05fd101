-- ===== src/Http/Cors.antt =====
-- src/http/cors.rs: the cross-origin layer of the rpc route. The types of the http and tower-http
-- crates are records of what the source sets; a header value is its text.
use rpc_plus_plus.Prelude.Results.{Result, ok, ◌>>=◌, ◌>>◌, guard, map_err, >>=-eq-ok, map_err-ok}
use rpc_plus_plus.Prelude.Text.{Text, codes, text_eq, mem_text, trim}
use rpc_plus_plus.Upstream.Call.{Duration, from_secs}
use rpc_plus_plus.Config.Settings.{CorsSettings, invalid_cors_origin, duplicate_cors_origin}
use rpc_plus_plus.Config.Validate.{
  Http, wildcard_origin, validate_origin, validate_origins, validate_cors,
}
use rpc_plus_plus.Prelude.{
  ◌≡◌, refl, inl, inr, Bool, true, false, not, Option, none, some, List, [], ◌∷◌, arith,
  if◌then◌else◌, Bool-cases, is_empty, any,
}

pub data HttpMethod : Type 0 where
  get : HttpMethod
  post : HttpMethod

pub data AllowOrigin : Type 0 where
  every : AllowOrigin
  listed : List Text → AllowOrigin

pub record CorsLayer : Type 0 where
  pub allow_origin : AllowOrigin
  pub allow_methods : List HttpMethod
  pub allow_headers : List Text
  pub max_age : Duration

abbrev pub max_age : Duration
max_age = from_secs 3600

-- `origins.iter().map(HeaderValue::from_str).collect()`; the error is the origin.
unfoldable pub header_values : Http → List Text → Result (List Text) Text
header_values http [] = ok []
header_values http (origin ∷ origins) = do
  guard (http.is_header_value origin) origin
  values ← header_values http origins
  ok (origin ∷ values)

unfoldable pub allow_origin_of : Http → List Text → Result AllowOrigin Text
unfolding header_values
allow_origin_of http origins =
    if any (λ origin. text_eq origin wildcard_origin) origins
    then ok every
    else (header_values http origins >>= λ values. ok (listed values))

unfoldable pub layer : Http → CorsSettings → Result (Option CorsLayer) Text
unfolding allow_origin_of
layer http settings =
    if is_empty settings.allowed_origins
    then ok none
    else (allow_origin_of http settings.allowed_origins >>= λ allow_origin. ok (
        some (record {
          allow_origin = allow_origin;
          allow_methods = post ∷ [];
          allow_headers = codes "content-type" ∷ [];
          max_age = max_age;
        })))

validate_origin-is_header_value :
    (http : Http) (origin : Text)
    → validate_origin http origin ≡ ok tt
    → http.is_header_value origin ≡ true
unfolding validate_origin
validate_origin-is_header_value http origin h =
    let (p, e, h1) =
      >>=-eq-ok (guard (text_eq (trim origin) origin) (codes "has surrounding whitespace")) _ h in
    guard-true (http.is_header_value origin) _ _ h1
  where
    guard-true :
        {A E : Type 0} (b : Bool) (e : E) (k : Result A E) {a : A}
        → (guard b e >> k) ≡ ok a
        → b ≡ true
    guard-true true e k h = refl
    guard-true false e k h = ground arith

validate_origins-header_values :
    (http : Http) (seen origins : List Text)
    → validate_origins http seen origins ≡ ok tt
    → header_values http origins ≡ ok origins
unfolding validate_origins header_values
validate_origins-header_values http seen [] h = refl
validate_origins-header_values http seen (origin ∷ origins) h =
    let (p, e, h1) =
      >>=-eq-ok (map_err (invalid_cors_origin origin) (validate_origin http origin)) _ h in
    let (q, e2, h2) =
      >>=-eq-ok (guard (not (mem_text origin seen)) (duplicate_cors_origin origin)) _ h1 in
    let good =
      validate_origin-is_header_value http origin (map_err-ok (invalid_cors_origin origin) _ e) in
    rw (good, validate_origins-header_values http (origin ∷ seen) origins h2) refl

-- What settings ask of the layer: none without origins, every origin for the wildcard, and else
-- exactly the origins of the settings.
abbrev pub asked_layer : CorsSettings → Option CorsLayer
asked_layer settings =
    if is_empty settings.allowed_origins
    then none
    else some (record {
      allow_origin =
          if any (λ origin. text_eq origin wildcard_origin) settings.allowed_origins
          then every
          else listed settings.allowed_origins;
      allow_methods = post ∷ [];
      allow_headers = codes "content-type" ∷ [];
      max_age = max_age;
    })

-- With validated origins the layer is always built, and it is the one that the settings ask for:
-- none without origins, any origin for the wildcard, else exactly their origins; POST and the
-- content type alone are allowed.
pub layer-validate_cors :
    (http : Http) (settings : CorsSettings)
    → validate_cors http settings ≡ ok tt
    → layer http settings ≡ ok (asked_layer settings)
unfolding layer validate_cors
layer-validate_cors http settings h = elim (Bool-cases (is_empty settings.allowed_origins)) [
  | inl y ↦ rw (y, layer) refl
  | inr n ↦
      elim (Bool-cases (any (λ origin. text_eq origin wildcard_origin) settings.allowed_origins)) [
        | inl wild ↦ rw (n, wild, layer) refl
        | inr tame ↦
            let values =
              validate_origins-header_values http [] settings.allowed_origins
                (rw (tame, validate_cors) at h) in
            rw (n, tame, values, layer) refl
      ]
]
