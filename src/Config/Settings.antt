-- ===== src/Config/Settings.antt =====
-- The settings of src/config.rs, their errors, and the deprecated key.
use rpc_plus_plus.Prelude.Text.{Text, codes}
use rpc_plus_plus.Upstream.Build.{ProxySettings, UpstreamSettings}
use rpc_plus_plus.Prelude.{ℕ, Option, none, some, List}

pub data DeciderKind : Type 0 where
  round_robin : DeciderKind
  prefer_least_errors : DeciderKind
  least_latency : DeciderKind

unfoldable pub as_str : DeciderKind → Text
as_str round_robin = codes "ROUND_ROBIN"
as_str prefer_least_errors = codes "PREFER_LEAST_ERRORS"
as_str least_latency = codes "LEAST_LATENCY"

pub record CorsSettings : Type 0 where
  pub allowed_origins : List Text

pub record ApplicationSettings : Type 0 where
  pub port : ℕ
  pub host : Text
  pub proxy : ProxySettings
  pub cors : CorsSettings

pub record Settings : Type 0 where
  pub application : ApplicationSettings
  pub upstreams : List UpstreamSettings
  pub legacy_rpc_timeout_in_secs : Option ℕ
  pub decider : DeciderKind

pub data SettingsError : Type 0 where
  unset_env_var : Text → SettingsError
  residual_placeholder : (label : Text) → SettingsError
  empty_upstreams : SettingsError
  empty_label : (index : ℕ) → SettingsError
  empty_url : (label : Text) → SettingsError
  duplicate_label : Text → SettingsError
  duplicate_url : (first : Text) (second : Text) → SettingsError
  zero_hedge_after : SettingsError
  zero_upstream_hedge_after : (label : Text) → SettingsError
  invalid_cors_origin : (origin : Text) (reason : Text) → SettingsError
  duplicate_cors_origin : Text → SettingsError
  wildcard_cors_origin_mixed : SettingsError

unfoldable pub apply_legacy_keys : Settings → Settings
apply_legacy_keys s = elim s.legacy_rpc_timeout_in_secs [
  | none ↦ s
  | some rpc_timeout_in_secs ↦
      let proxy = record s.application.proxy { rpc_timeout_in_secs = rpc_timeout_in_secs } in
      record s { application = record s.application { proxy = proxy } }
]
