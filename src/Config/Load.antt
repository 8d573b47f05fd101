-- ===== src/Config/Load.antt =====
-- `get_settings` and `settings_from` of src/config.rs. What the config crate reads and deserialises is an
-- argument: a function of the defaults and of the source.
use rpc_plus_plus.Prelude.Results.{Result, ok, ◌>>=◌, map_err, >>=-eq-ok, map_err-ok, ok_inj}
use rpc_plus_plus.Prelude.Text.{Text, codes}
use rpc_plus_plus.Upstream.Build.{UpstreamSettings, ProxySettings}
use rpc_plus_plus.Config.Settings.{Settings, SettingsError, apply_legacy_keys}
use rpc_plus_plus.Config.Expand.{
  Environment, expand_str, expand_upstreams, expand_origins, expand_env,
}
use rpc_plus_plus.Config.Validate.{Http, validate_settings}
use rpc_plus_plus.Prelude.{
  ℕ, ◌*◌, ◌≡◌, refl, sym, ap, subst, ◌∙◌, inl, inr, Bool, false, none, some, List, [], ◌∷◌,
  Option-cases,
}

-- A value for a key.
pub data Value : Type 0 where
  text : Text → Value
  number : ℕ → Value
  flag : Bool → Value
  texts : List Text → Value

pub data Source : Type 0 where
  at_path : Text → Source
  with_name : Text → Source

abbrev pub default_config_file : Text
default_config_file = codes "settings.yaml"

abbrev pub config_path_env : Text
config_path_env = codes "RPC_CONFIG_PATH"

abbrev pub defaults : List (Text × Value)
defaults =
    (codes "application.host", text (codes "127.0.0.1"))
    ∷ (codes "application.proxy.max_attempt", number 3)
    ∷ (codes "application.proxy.retry_after_in_secs", number 1)
    ∷ (codes "application.proxy.rpc_timeout_in_secs", number 3)
    ∷ (codes "application.proxy.max_response_bytes", number (10 * 1024 * 1024))
    ∷ (codes "application.proxy.hedge.enabled", flag false)
    ∷ (codes "application.proxy.hedge.after_in_millis", number 250)
    ∷ (codes "application.proxy.dedup.enabled", flag false)
    ∷ (codes "application.cors.allowed_origins", texts [])
    ∷ (codes "decider", text (codes "ROUND_ROBIN"))
    ∷ []

-- The config crate: the settings that it builds, or its error.
abbrev pub Read : Type 0
Read = List (Text × Value) → Source → Result Settings Text

pub data LoadError : Type 0 where
  not_read : Text → LoadError
  invalid : SettingsError → LoadError

unfoldable pub settings_from : Http → Read → Source → Environment → Result Settings LoadError
unfolding apply_legacy_keys expand_env validate_settings
settings_from http read source get = do
  raw ← map_err not_read (read defaults source)
  settings ← map_err invalid (expand_env get (apply_legacy_keys raw))
  valid ← map_err invalid (validate_settings http settings)
  ok settings

-- The source that the environment names, else the file beside the program.
unfoldable pub source_of : Environment → Source
source_of get = elim (get config_path_env) [
  | some path ↦ at_path path
  | none ↦ with_name default_config_file
]

unfoldable pub get_settings : Http → Read → Environment → Result Settings LoadError
unfolding settings_from source_of
get_settings http read get = settings_from http read (source_of get) get

-- The upstreams of the file with their placeholders expanded, one by one.
abbrev pub Expands : Environment → List UpstreamSettings → List UpstreamSettings → Type 0
Expands get [] [] = Unit {0}
Expands get [] (_ ∷ _) = ⊥
Expands get (_ ∷ _) [] = ⊥
Expands get (r ∷ rs) (u ∷ us) =
    ((expand_str get r.label ≡ ok u.label)
      × (expand_str get r.url ≡ ok u.url)
      × (u.hedge_after_in_millis ≡ r.hedge_after_in_millis))
    × Expands get rs us

expand_upstreams-Expands :
    (get : Environment) (rs us : List UpstreamSettings)
    → expand_upstreams get rs ≡ ok us
    → Expands get rs us
unfolding expand_upstreams
expand_upstreams-Expands get [] us h = subst (Expands get []) (ok_inj h) tt
expand_upstreams-Expands get (r ∷ rs) us h =
    let (label, e, h1) = >>=-eq-ok (expand_str get r.label) _ h in
    let (url, e1, h2) = >>=-eq-ok (expand_str get r.url) _ h1 in
    let (rest, e2, h3) = >>=-eq-ok (expand_upstreams get rs) _ h2 in
    subst (Expands get (r ∷ rs)) (ok_inj h3)
      ((e, e1, refl), expand_upstreams-Expands get rs rest e2)

-- The proxy's settings, with the deprecated key in its place.
abbrev pub proxy_of : Settings → ProxySettings
proxy_of raw = elim raw.legacy_rpc_timeout_in_secs [
  | none ↦ raw.application.proxy
  | some secs ↦ record raw.application.proxy { rpc_timeout_in_secs = secs }
]

-- What the environment makes of the settings that were read.
pub record IsLoaded (get : Environment) (raw s : Settings) : Type 0 where
  pub host : expand_str get raw.application.host ≡ ok s.application.host
  pub upstreams : Expands get raw.upstreams s.upstreams
  pub origins :
      expand_origins get raw.application.cors.allowed_origins
      ≡ ok s.application.cors.allowed_origins
  pub proxy : s.application.proxy ≡ proxy_of raw
  pub port : s.application.port ≡ raw.application.port
  pub decider : s.decider ≡ raw.decider

with_proxy : Settings → Settings
with_proxy raw = record raw { application = record raw.application { proxy = proxy_of raw } }

apply_legacy_keys_lem : (raw : Settings) → apply_legacy_keys raw ≡ with_proxy raw
unfolding apply_legacy_keys with_proxy
apply_legacy_keys_lem raw = elim (Option-cases raw.legacy_rpc_timeout_in_secs) [
  | inl e ↦ rw e refl
  | inr (secs, e) ↦ rw e refl
]

expand_env-IsLoaded :
    (get : Environment) (raw s : Settings)
    → expand_env get (apply_legacy_keys raw) ≡ ok s
    → IsLoaded get raw s
unfolding expand_env with_proxy
expand_env-IsLoaded get raw s h =
    let h0 : expand_env get (with_proxy raw) ≡ ok s =
      sym (ap (expand_env get) (apply_legacy_keys_lem raw)) ∙ h in
    let (host, e, h1) = >>=-eq-ok (expand_str get raw.application.host) _ h0 in
    let (upstreams, e1, h2) = >>=-eq-ok (expand_upstreams get raw.upstreams) _ h1 in
    let (origins, e2, h3) =
      >>=-eq-ok (expand_origins get raw.application.cors.allowed_origins) _ h2 in
    let same = ok_inj h3 in
    subst (IsLoaded get raw) same (record {
      host = e;
      upstreams = expand_upstreams-Expands get raw.upstreams upstreams e1;
      origins = e2;
      proxy = refl;
      port = refl;
      decider = refl;
    })

-- Settings that are loaded are what the config crate reads from the source that the environment
-- names, with the defaults behind it: the deprecated key has moved to its place, the host, the labels,
-- the urls and the origins are expanded, nothing else has changed, and the validation has passed.
pub get_settings-IsLoaded :
    (http : Http) (read : Read) (get : Environment) (s : Settings)
    → get_settings http read get ≡ ok s
    → (raw : Settings) × (read defaults (source_of get) ≡ ok raw)
      × IsLoaded get raw s
      × (validate_settings http s ≡ ok tt)
unfolding get_settings settings_from
get_settings-IsLoaded http read get s h =
    let (raw, e, h1) = >>=-eq-ok (map_err not_read (read defaults (source_of get))) _ h in
    let (t, e1, h2) = >>=-eq-ok (map_err invalid (expand_env get (apply_legacy_keys raw))) _ h1 in
    let (v, e2, h3) = >>=-eq-ok (map_err invalid (validate_settings http t)) _ h2 in
    let same = ok_inj h3 in
    (
      raw,
      map_err-ok not_read _ e,
      expand_env-IsLoaded get raw s (map_err-ok invalid _ e1 ∙ ap (λ (x : Settings). ok x) same),
      subst (λ x. validate_settings http x ≡ ok tt) same (map_err-ok invalid _ e2),
    )
