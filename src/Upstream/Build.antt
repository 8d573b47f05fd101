-- ===== src/Upstream/Build.antt =====
-- The builder of src/upstream/mod.rs: `Upstream::new` and `build_all`.
use rpc_plus_plus.Prelude.Results.{Result, ok, err, ◌>>=◌, ◌>>◌, guard, map_err}
use rpc_plus_plus.Prelude.Options.{get_or}
use rpc_plus_plus.Prelude.Text.{Text, trim, text_eq, text_eq_iff}
use rpc_plus_plus.Prelude.Assoc.{Eq}
use rpc_plus_plus.Upstream.Call.{Duration, from_secs, from_millis}
use rpc_plus_plus.Prelude.{
  ℕ, ◌*◌, ◌≡◌, refl, ap, ◌↔◌, Bool, true, not, Option, none, some, List, [], ◌∷◌, map, arith, ◌==◌,
  if◌then◌else◌, is_empty,
}

abbrev pub default_rpc_timeout_in_secs : ℕ
default_rpc_timeout_in_secs = 3

abbrev pub default_hedge_after_in_millis : ℕ
default_hedge_after_in_millis = 250

abbrev pub default_max_response_bytes : ℕ
default_max_response_bytes = 10 * 1024 * 1024

pub record UpstreamId : Type 0 where
  pub label : Text

-- The HTTP client is the same for all and is left out.
pub record Upstream : Type 0 where
  pub url : Text
  pub id : UpstreamId
  pub timeout : Duration
  pub hedge_after : Duration
  pub max_response_bytes : ℕ

-- (`HttpClient` is raised by `build_http_client` alone.)
pub data BuildError : Type 0 where
  empty_label empty_url zero_timeout zero_hedge_after zero_max_response_bytes : BuildError

pub record BuildAllError : Type 0 where
  pub label : Text
  pub source : BuildError

unfoldable pub new : Text → Text → ℕ → ℕ → ℕ → Result Upstream BuildError
new label url rpc_timeout_in_secs hedge_after_in_millis max_response_bytes = do
  guard (not (is_empty (trim label))) empty_label
  guard (not (is_empty (trim url))) empty_url
  guard (not (rpc_timeout_in_secs == 0)) zero_timeout
  guard (not (hedge_after_in_millis == 0)) zero_hedge_after
  guard (not (max_response_bytes == 0)) zero_max_response_bytes
  ok (record {
    url = url;
    id = record { label = label };
    timeout = from_secs rpc_timeout_in_secs;
    hedge_after = from_millis hedge_after_in_millis;
    max_response_bytes = max_response_bytes;
  })

-- `UpstreamSettings` and `ProxySettings` of src/config.rs, as far as the builder reads them.
pub record UpstreamSettings : Type 0 where
  pub label : Text
  pub url : Text
  pub hedge_after_in_millis : Option ℕ

pub record HedgeSettings : Type 0 where
  pub enabled : Bool
  pub after_in_millis : ℕ

pub record DedupSettings : Type 0 where
  pub enabled : Bool

pub record ProxySettings : Type 0 where
  pub max_attempt : ℕ
  pub retry_after_in_secs : ℕ
  pub rpc_timeout_in_secs : ℕ
  pub max_response_bytes : ℕ
  pub hedge : HedgeSettings
  pub dedup : DedupSettings

unfoldable pub build_one : ProxySettings → UpstreamSettings → Result Upstream BuildAllError
unfolding new
build_one proxy item =
    map_err (λ source. record { label = item.label; source = source })
      (new item.label item.url proxy.rpc_timeout_in_secs
        (get_or item.hedge_after_in_millis proxy.hedge.after_in_millis) proxy.max_response_bytes)

-- `.map(…).collect()` into a `Result`: the first error, or all.
unfoldable pub build_all :
    ProxySettings → List UpstreamSettings → Result (List Upstream) BuildAllError
build_all proxy [] = ok []
build_all proxy (item ∷ items) = do
  upstream ← build_one proxy item
  upstreams ← build_all proxy items
  ok (upstream ∷ upstreams)

abbrev pub IsBlank : Text → Type 0
IsBlank s = is_empty (trim s) ≡ true

-- What the builder asks of one entry, in the order in which it asks.
unfoldable pub fault : ProxySettings → UpstreamSettings → Option BuildError
fault proxy item =
    if is_empty (trim item.label)
    then some empty_label
    else if is_empty (trim item.url)
    then some empty_url
    else if proxy.rpc_timeout_in_secs == 0
    then some zero_timeout
    else if get_or item.hedge_after_in_millis proxy.hedge.after_in_millis == 0
    then some zero_hedge_after
    else if proxy.max_response_bytes == 0
    then some zero_max_response_bytes
    else none

-- The upstream that an entry without a fault describes: an override of the hedge threshold wins
-- over the global one.
abbrev pub described : ProxySettings → UpstreamSettings → Upstream
described proxy item = record {
  url = item.url;
  id = record { label = item.label };
  timeout = from_secs proxy.rpc_timeout_in_secs;
  hedge_after = from_millis (get_or item.hedge_after_in_millis proxy.hedge.after_in_millis);
  max_response_bytes = proxy.max_response_bytes;
}

build_one-fault :
    (proxy : ProxySettings) (item : UpstreamSettings)
    → build_one proxy item ≡ (elim (fault proxy item) [
      | none ↦ ok (described proxy item)
      | some e ↦ err (record { label = item.label; source = e })
    ])
unfolding build_one fault
build_one-fault proxy item = ground arith

-- The first entry with a fault, and its fault.
abbrev pub first_fault : ProxySettings → List UpstreamSettings → Option BuildAllError
first_fault proxy [] = none
first_fault proxy (item ∷ items) =
    let later = first_fault proxy items in
    elim (fault proxy item) [
      | none ↦ later
      | some e ↦ some (record { label = item.label; source = e })
    ]

-- The build fails with the first fault in the order of the settings, under its label; without one
-- it yields exactly the upstreams that the settings describe, in their order.
pub build_all-first_fault :
    (proxy : ProxySettings) (items : List UpstreamSettings)
    → build_all proxy items ≡ (elim (first_fault proxy items) [
      | none ↦ ok (map (described proxy) items)
      | some e ↦ err e
    ])
unfolding build_all
build_all-first_fault proxy [] = refl
build_all-first_fault proxy (item ∷ items) =
    rw (build_one-fault proxy item) (rw (build_all-first_fault proxy items) (ground arith))

-- `UpstreamId` compares by its label.
unfoldable pub id_beq : UpstreamId → UpstreamId → Bool
id_beq a b = text_eq a.label b.label

pub id_beq_iff : (a b : UpstreamId) → (id_beq a b ≡ true) ↔ (a ≡ b)
unfolding id_beq
id_beq_iff a b = (
  λ h. ap (λ t. record { label = t }) ((text_eq_iff a.label b.label).0 h),
  λ e. (text_eq_iff a.label b.label).1 (ap (λ (i : UpstreamId). i.label) e),
)

instance abbrev pub id_equality : Eq UpstreamId
id_equality = record { beq = id_beq; beq_iff = id_beq_iff }
