-- ===== src/Config/Checked.antt =====
-- What settings that pass the validation of src/config.rs promise to the builder of the upstreams.
use rpc_plus_plus.Prelude.Results.{Result, ok, ◌>>=◌, guard, >>=-eq-ok}
use rpc_plus_plus.Prelude.Options.{get_or}
use rpc_plus_plus.Prelude.Text.{Text, text_eq, text_eq_iff, mem_text, contains, trim}
use rpc_plus_plus.Prelude.Assoc.{text_equality, insert}
use rpc_plus_plus.Upstream.Build.{
  UpstreamSettings, ProxySettings, build_all, described, fault, first_fault, build_all-first_fault,
}
use rpc_plus_plus.Config.Settings.{
  Settings, empty_label, empty_url, residual_placeholder, duplicate_label,
  zero_upstream_hedge_after, empty_upstreams, zero_hedge_after,
}
use rpc_plus_plus.Config.Expand.{opening}
use rpc_plus_plus.Config.Validate.{
  Http, check_url, is_zero, validate_upstreams, validate_cors, validate_settings,
}
use rpc_plus_plus.Prelude.{
  ℕ, suc, ◌<◌, ◌≡◌, refl, subst, ◌∙◌, inl, inr, Bool, true, false, not, ◌||◌, Option, none, some,
  List, [], ◌∷◌, map, arith, ◌==◌, Bool-cases, is_empty,
}

guard-eq-ok :
    {E A : Type 0} (b : Bool) (e : E) (f : Unit {0} → Result A E) {a : A}
    → (guard b e >>= f) ≡ ok a
    → (b ≡ true) × (f tt ≡ ok a)
guard-eq-ok true e f h = (refl, h)
guard-eq-ok false e f h = ground arith

not-true : (b : Bool) → not b ≡ true → b ≡ false
not-true true h = ground arith
not-true false h = refl

-- What one entry passed, with the labels seen before it.
record Passed (labels : List Text) (rpc : UpstreamSettings) : Type 0 where
  label : is_empty (trim rpc.label) ≡ false
  url : is_empty (trim rpc.url) ≡ false
  fresh : mem_text rpc.label labels ≡ false
  hedge : is_zero rpc.hedge_after_in_millis ≡ false

abbrev AllPassed : List Text → List UpstreamSettings → Type 0
AllPassed labels [] = Unit
AllPassed labels (rpc ∷ rpcs) = Passed labels rpc × AllPassed (rpc.label ∷ labels) rpcs

validate_upstreams-AllPassed :
    (i : ℕ) (labels : List Text) (urls : List (Text × Text)) (rpcs : List UpstreamSettings)
    → validate_upstreams i labels urls rpcs ≡ ok tt
    → AllPassed labels rpcs
unfolding validate_upstreams
validate_upstreams-AllPassed i labels urls [] h = tt
validate_upstreams-AllPassed i labels urls (rpc ∷ rpcs) h =
    let (ea, h1) = guard-eq-ok (not (is_empty (trim rpc.label))) (empty_label i) _ h in
    let (eb, h2) = guard-eq-ok (not (is_empty (trim rpc.url))) (empty_url rpc.label) _ h1 in
    let (ec, h3) =
      guard-eq-ok (not (contains opening rpc.label || contains opening rpc.url))
        (residual_placeholder rpc.label) _ h2 in
    let (ed, h4) = guard-eq-ok (not (mem_text rpc.label labels)) (duplicate_label rpc.label) _ h3 in
    let (e, ee, h5) = >>=-eq-ok (check_url rpc.url rpc.label urls) _ h4 in
    let (ef, h6) =
      guard-eq-ok (not (is_zero rpc.hedge_after_in_millis)) (zero_upstream_hedge_after rpc.label) _
        h5 in
    (
      record {
        label = not-true (is_empty (trim rpc.label)) ea;
        url = not-true (is_empty (trim rpc.url)) eb;
        fresh = not-true (mem_text rpc.label labels) ed;
        hedge = not-true (is_zero rpc.hedge_after_in_millis) ef;
      },
      validate_upstreams-AllPassed (suc i) (rpc.label ∷ labels) (insert rpc.url rpc.label urls) rpcs
          h6,
    )

hedge_set : (o : Option ℕ) (d : ℕ) → is_zero o ≡ false → 0 < d → (get_or o d == 0) ≡ false
hedge_set none d h p = ground arith
hedge_set (some n) d h p = h

Passed-fault :
    (proxy : ProxySettings) (labels : List Text) (rpc : UpstreamSettings)
    → Passed labels rpc
    → 0 < proxy.hedge.after_in_millis
    → 0 < proxy.rpc_timeout_in_secs
    → 0 < proxy.max_response_bytes
    → fault proxy rpc ≡ none
unfolding fault
Passed-fault proxy labels rpc p h t m =
    let timeout : (proxy.rpc_timeout_in_secs == 0) ≡ false = ground arith in
    let bytes : (proxy.max_response_bytes == 0) ≡ false = ground arith in
    rw
      (
        p.label,
        p.url,
        timeout,
        hedge_set rpc.hedge_after_in_millis proxy.hedge.after_in_millis p.hedge h,
        bytes,
      )
      refl

AllPassed-first_fault :
    (proxy : ProxySettings) (labels : List Text) (rpcs : List UpstreamSettings)
    → AllPassed labels rpcs
    → 0 < proxy.hedge.after_in_millis
    → 0 < proxy.rpc_timeout_in_secs
    → 0 < proxy.max_response_bytes
    → first_fault proxy rpcs ≡ none
AllPassed-first_fault proxy labels [] a h t m = refl
AllPassed-first_fault proxy labels (rpc ∷ rpcs) (p, a) h t m =
    rw
      (
        Passed-fault proxy labels rpc p h t m,
        AllPassed-first_fault proxy (rpc.label ∷ labels) rpcs a h t m,
        first_fault,
      )
      refl

-- No text stands twice.
abbrev pub IsDistinct : List Text → Type 0
IsDistinct [] = Unit {0}
IsDistinct (l ∷ ls) = (mem_text l ls ≡ false) × IsDistinct ls

AllPassed-mem :
    (l : Text) (labels : List Text) (rpcs : List UpstreamSettings)
    → mem_text l labels ≡ true
    → AllPassed labels rpcs
    → mem_text l (map (λ r. r.label) rpcs) ≡ false
unfolding mem_text
AllPassed-mem l labels [] h a = refl
AllPassed-mem l labels (rpc ∷ rpcs) h (p, a) = elim (Bool-cases (text_eq l rpc.label)) [
  | inl same ↦
      let again : mem_text rpc.label labels ≡ true =
        subst (λ x. mem_text x labels ≡ true) ((text_eq_iff l rpc.label).0 same) h in
      ground (arith, p.fresh)
  | inr other ↦ rw other (AllPassed-mem l (rpc.label ∷ labels) rpcs (rw other h) a)
]

AllPassed-IsDistinct :
    (labels : List Text) (rpcs : List UpstreamSettings)
    → AllPassed labels rpcs
    → IsDistinct (map (λ r. r.label) rpcs)
AllPassed-IsDistinct labels [] a = tt
AllPassed-IsDistinct labels (rpc ∷ rpcs) (p, a) =
    let seen : mem_text rpc.label (rpc.label ∷ labels) ≡ true =
      unfold mem_text in rw ((text_eq_iff rpc.label rpc.label).1 refl) refl in
    (
      AllPassed-mem rpc.label (rpc.label ∷ labels) rpcs seen a,
      AllPassed-IsDistinct (rpc.label ∷ labels) rpcs a,
    )

-- Settings that pass the validation have labels that are all distinct; and given a timeout and a
-- cap on the bodies that are not 0, which the validation does not ask for, the upstreams build.
pub validate_settings-builds :
    (http : Http) (s : Settings)
    → validate_settings http s ≡ ok tt
    → IsDistinct (map (λ r. r.label) s.upstreams)
      × (0 < s.application.proxy.rpc_timeout_in_secs
          → 0 < s.application.proxy.max_response_bytes
          → build_all s.application.proxy s.upstreams
            ≡ ok (map (described s.application.proxy) s.upstreams))
unfolding validate_settings
validate_settings-builds http s h =
    let (ea, h1) = guard-eq-ok (not (is_empty s.upstreams)) empty_upstreams _ h in
    let (eb, h2) =
      guard-eq-ok (not (s.application.proxy.hedge.after_in_millis == 0)) zero_hedge_after _ h1 in
    let (c, ec, h3) = >>=-eq-ok (validate_cors http s.application.cors) _ h2 in
    let passed = validate_upstreams-AllPassed 0 [] [] s.upstreams h3 in
    let hedge = not-true (s.application.proxy.hedge.after_in_millis == 0) eb in
    (
      AllPassed-IsDistinct [] s.upstreams passed,
      λ t m.
          build_all-first_fault s.application.proxy s.upstreams
          ∙ rw (AllPassed-first_fault s.application.proxy [] s.upstreams passed (ground arith) t m)
              refl,
    )

-- What the wiring needs of validated settings: an upstream, and origins that are valid.
pub validate_settings-parts :
    (http : Http) (s : Settings)
    → validate_settings http s ≡ ok tt
    → (is_empty s.upstreams ≡ false) × (validate_cors http s.application.cors ≡ ok tt)
unfolding validate_settings
validate_settings-parts http s h =
    let (ea, h1) = guard-eq-ok (not (is_empty s.upstreams)) empty_upstreams _ h in
    let (eb, h2) =
      guard-eq-ok (not (s.application.proxy.hedge.after_in_millis == 0)) zero_hedge_after _ h1 in
    let (c, ec, h3) = >>=-eq-ok (validate_cors http s.application.cors) _ h2 in
    (not-true (is_empty s.upstreams) ea, ec)
