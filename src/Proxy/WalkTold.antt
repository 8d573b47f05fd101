-- ===== src/Proxy/WalkTold.antt =====
-- What a walk and one attempt tell the observer agrees with how the request was finished
-- (src/proxy/mod.rs, src/proxy/attempt.rs).
use rpc_plus_plus.Prelude.Results.{Result, Result-cases}
use rpc_plus_plus.Jsonrpc.Libs.{Libs}
use rpc_plus_plus.Upstream.Read.{Exchange}
use rpc_plus_plus.Proxy.Attempt.{attempts_of}
use rpc_plus_plus.Upstream.Call.{Duration, CallError, CallRecord, is_retryable}
use rpc_plus_plus.Proxy.Traces.{Traces}
use rpc_plus_plus.Upstream.Build.{Upstream, UpstreamId}
use rpc_plus_plus.Observer.Snapshot.{HedgeStats}
use rpc_plus_plus.Observer.Metrics.{attempted}
use rpc_plus_plus.Proxy.Reply.{Reply, Finished, Effect, observed, slept}
use rpc_plus_plus.Proxy.Walk.{Attempts, observations, give_up, walk_from, walk}
use rpc_plus_plus.Proxy.WalkEffects.{moved, told_by, walk-told_by}
use rpc_plus_plus.Proxy.WalkLaws.{Walked, answered, refused, exhausted, walk-Walked}
use rpc_plus_plus.Proxy.Counts.{Counts, counts, plus, counts-append}
use rpc_plus_plus.Proxy.TurnTold.{reports_only}
use rpc_plus_plus.Proxy.Request.{observed_in-observations, observed_in}
use rpc_plus_plus.Prelude.{
  ℕ, suc, ◌+◌, ◌-◌, ◌≤◌, ◌≡◌, refl, sym, ap, ap₂, subst, ◌∙◌, inl, inr, Option, none, some, List,
  [], ◌∷◌, ◌++◌, map, arith, leb, if◌then◌else◌, Bool-cases, length, take, is_empty, length-take,
}

-- Every attempt reports its own call once, and tells nothing else.
abbrev pub ReportsOnce : Attempts → Type 0
ReportsOnce try = (n : ℕ) (u : Upstream) → (r : CallRecord) × ((try n u).0 ≡ attempted u.id r ∷ [])

-- The attempts of `try_once` do so.
pub attempts_of-ReportsOnce :
    (libs : Libs) (net : ℕ → Upstream → Exchange) → ReportsOnce (attempts_of libs net)
unfolding attempts_of
attempts_of-ReportsOnce libs net n u = (_, refl)

observed_in-append :
    (es fs : List Effect) → observed_in (es ++ fs) ≡ observed_in es ++ observed_in fs
unfolding observed_in
observed_in-append [] fs = refl
observed_in-append (observed e ∷ es) fs = ap (◌∷◌ e) (observed_in-append es fs)
observed_in-append (slept d ∷ es) fs = observed_in-append es fs

moves : ℕ → Counts
moves n = record { reports = 0; hedges = 0; wins = 0; failovers = n; requests = 0 }

abbrev one_if : Option UpstreamId → ℕ
one_if none = 0
one_if (some u) = 1

counts-moved :
    (d : Duration) (from : Option UpstreamId)
    → counts (observed_in (moved d from)) ≡ moves (one_if from)
unfolding observed_in counts moves
counts-moved d none = refl
counts-moved d (some u) = refl

abbrev walked_count : ℕ → List Upstream → Counts
walked_count k us = record {
  reports = length us;
  hedges = 0;
  wins = 0;
  failovers = length us - 1 + (if is_empty us then 0 else k);
  requests = 0;
}

walk_grows :
    (u : Upstream) (us : List Upstream) (k : ℕ)
    → plus (plus (moves k) (reports_only 1)) (walked_count 1 us) ≡ walked_count k (u ∷ us)
unfolding moves
walk_grows u [] k = ground arith
walk_grows u (v ∷ us) k = ground arith

told_by-step :
    (d : Duration) (try : Attempts) (n : ℕ) (from : Option UpstreamId) (u : Upstream)
    (us : List Upstream) (r : CallRecord)
    → (try (suc n) u).0 ≡ attempted u.id r ∷ []
    → observed_in (told_by d try n from (u ∷ us))
      ≡ (observed_in (moved d from) ++ (attempted u.id r ∷ []))
        ++ observed_in (told_by d try (suc n) (some u.id) us)
told_by-step d try n from u us r one =
    observed_in-append (moved d from ++ observations (try (suc n) u).0)
      (told_by d try (suc n) (some u.id) us)
    ∙ ap (λ l. l ++ observed_in (told_by d try (suc n) (some u.id) us))
        (observed_in-append (moved d from) (observations (try (suc n) u).0)
          ∙ ap (λ l. observed_in (moved d from) ++ l)
              (observed_in-observations (try (suc n) u).0 ∙ one))

-- The attempts on the upstreams, with a failover before each but the first of all.
counts-told_by :
    (d : Duration) (try : Attempts) (n : ℕ) (from : Option UpstreamId) (us : List Upstream)
    → ReportsOnce try
    → counts (observed_in (told_by d try n from us)) ≡ walked_count (one_if from) us
counts-told_by d try n from [] once = unfold counts observed_in in refl
counts-told_by d try n from (u ∷ us) once =
    let (r, one) = once (suc n) u in
    let later = observed_in (told_by d try (suc n) (some u.id) us) in
    let report : counts (attempted u.id r ∷ []) ≡ reports_only 1 = unfold counts in refl in
    ap counts (told_by-step d try n from u us r one)
    ∙ (counts-append (observed_in (moved d from) ++ (attempted u.id r ∷ [])) later
        ∙ (ap (λ c. plus c (counts later))
              (counts-append (observed_in (moved d from)) (attempted u.id r ∷ [])
                ∙ ap₂ plus (counts-moved d from) report)
            ∙ (ap (plus (plus (moves (one_if from)) (reports_only 1)))
                  (counts-told_by d try (suc n) (some u.id) us once)
                ∙ walk_grows u us (one_if from))))

-- Each failover is from the upstream that was tried right before.
told_by-Traces :
    (chain : List Upstream) (d : Duration) (try : Attempts) (n : ℕ) (from : Option UpstreamId)
    (us : List Upstream)
    → ReportsOnce try
    → Traces chain from (observed_in (told_by d try n from us))
unfolding observed_in
told_by-Traces chain d try n from [] once = tt
told_by-Traces chain d try n none (u ∷ us) once =
    let (r, one) = once (suc n) u in
    subst (Traces chain none) (sym (told_by-step d try n none u us r one))
      (told_by-Traces chain d try (suc n) (some u.id) us once)
told_by-Traces chain d try n (some a) (u ∷ us) once =
    let (r, one) = once (suc n) u in
    subst (Traces chain (some a)) (sym (told_by-step d try n (some a) u us r one))
      (refl, told_by-Traces chain d try (suc n) (some u.id) us once)

pub length-ids : (us : List Upstream) → length (map (λ u. u.id) us) ≡ length us
length-ids [] = refl
length-ids (u ∷ us) = ap suc (length-ids us)

tried_of :
    (k max : ℕ) (chain : List Upstream)
    → length (map (λ (u : Upstream). u.id) (take k (take max chain))) ≤ length chain
tried_of k max chain = omega (
  arith,
  length-ids (take k (take max chain)),
  length-take k (take max chain),
  length-take max chain,
)

-- A walk has tried no more upstreams than there are.
walked-within :
    (max : ℕ) (outs : List (Result Reply CallError)) (chain : List Upstream) (fin : Finished)
    → Walked [] none outs (take max chain) fin
    → length fin.tried ≤ length chain
walked-within max outs chain fin (answered fs r u rest a o g x t) =
    omega (arith, ap length t, tried_of (suc (length fs)) max chain)
walked-within max outs chain fin (refused fs e rest a o n x t) =
    omega (arith, ap length t, tried_of (suc (length fs)) max chain)
walked-within max outs chain fin (exhausted fs a o x t) =
    omega (arith, ap length t, length-ids (take max chain), length-take max chain)

-- The hedges of a request; none where it was not hedged.
abbrev pub hedges_of : Option HedgeStats → HedgeStats
hedges_of none = record { started = 0; won = 0 }
hedges_of (some h) = h

-- What a request that was finished so has told, without its own record.
abbrev pub sent_counts : Finished → Counts
sent_counts fin = record {
  reports = length fin.tried;
  hedges = (hedges_of fin.hedge).started;
  wins = (hedges_of fin.hedge).won;
  failovers = length fin.tried - 1 - (hedges_of fin.hedge).started;
  requests = 0;
}

walk_from-hedge :
    (max : ℕ) (d : Duration) (try : Attempts) (tried : List UpstreamId) (last : Option CallError)
    (us : List Upstream)
    → (walk_from max d try tried last us).0.hedge ≡ none
unfolding walk_from give_up
walk_from-hedge max d try tried last [] = refl
walk_from-hedge max d try tried last (u ∷ us) = elim (Bool-cases (leb max (length tried))) [
  | inl full ↦ rw (full, walk_from) refl
  | inr room ↦ elim (Result-cases (try (length (tried ++ (u.id ∷ []))) u).1) [
    | inl (r, e) ↦ rw (room, e, walk_from) refl
    | inr (f, e) ↦ elim (Bool-cases (is_retryable f)) [
      | inl again ↦
          rw (room, e, again, walk_from)
            (walk_from-hedge max d try (tried ++ (u.id ∷ [])) (some f) us)
      | inr final ↦ rw (room, e, final, walk_from) refl
    ]
  ]
]

-- By walking.
pub walk-sent_counts :
    (max : ℕ) (d : Duration) (try : Attempts) (chain : List Upstream)
    → ReportsOnce try
    → counts (observed_in (walk max d try chain).1) ≡ sent_counts (walk max d try chain).0
walk-sent_counts max d try chain once =
    let fin = (walk max d try chain).0 in
    let within = walked-within max _ chain fin (walk-Walked max d try chain) in
    let heads = take (length fin.tried) chain in
    let taken : length heads ≡ length fin.tried =
      omega (arith, length-take (length fin.tried) chain) in
    let unhedged : fin.hedge ≡ none = unfold walk in walk_from-hedge max d try [] none chain in
    ap (λ es. counts (observed_in es)) (walk-told_by max d try chain)
    ∙ (counts-told_by d try 0 none heads once ∙ rw (unhedged, taken) (ground arith))

pub walk-Traces :
    (max : ℕ) (d : Duration) (try : Attempts) (chain : List Upstream)
    → ReportsOnce try
    → Traces chain none (observed_in (walk max d try chain).1)
walk-Traces max d try chain once =
    let heads = take (length (walk max d try chain).0.tried) chain in
    subst (λ es. Traces chain none (observed_in es)) (sym (walk-told_by max d try chain))
      (told_by-Traces chain d try 0 none heads once)
