-- ===== src/Proxy/WalkEffects.antt =====
-- What the observer is told, and when `Core::walk` of src/proxy/mod.rs sleeps.
use rpc_plus_plus.Prelude.Results.{ok, Result-cases}
use rpc_plus_plus.Upstream.Call.{Duration, CallError, is_retryable}
use rpc_plus_plus.Upstream.Build.{UpstreamId, Upstream}
use rpc_plus_plus.Observer.Metrics.{failed_over}
use rpc_plus_plus.Proxy.Reply.{Finished, Effect, observed, slept}
use rpc_plus_plus.Proxy.Walk.{
  Attempts, observations, last?, move_on, give_up, after, walk_from, walk,
}
use rpc_plus_plus.Prelude.{
  map, ℕ, suc, ◌+◌, ◌≡◌, refl, inl, inr, Option, none, some, List, [], ◌∷◌, ◌++◌, arith, leb,
  Bool-cases, length, take, length-append,
}

-- Between two attempts: the failover is recorded, then the walk sleeps.
abbrev pub moved : Duration → Option UpstreamId → List Effect
moved d none = []
moved d (some from) = observed (failed_over from) ∷ slept d ∷ []

move_on-moved : (d : Duration) (from : Option UpstreamId) → move_on d from ≡ moved d from
unfolding move_on
move_on-moved d none = refl
move_on-moved d (some from) = refl

-- What attempts on the upstreams tell, with that before each but the first.
abbrev pub told_by : Duration → Attempts → ℕ → Option UpstreamId → List Upstream → List Effect
told_by d try n from [] = []
told_by d try n from (u ∷ us) =
    (moved d from ++ map observed (try (suc n) u).0) ++ told_by d try (suc n) (some u.id) us

last?-append : (xs : List UpstreamId) (x : UpstreamId) → last? (xs ++ (x ∷ [])) ≡ some x
last?-append [] x = refl
last?-append (y ∷ []) x = refl
last?-append (y ∷ z ∷ xs) x = last?-append (z ∷ xs) x

-- How far a walk gets, and its effects until there.
abbrev Goes :
    Duration → Attempts → List UpstreamId → List Upstream → Finished × List Effect → Type 0
Goes d try tried us (fin, es) =
    (k : ℕ) × (length fin.tried ≡ length tried + k)
    × (es ≡ told_by d try (length tried) (last? tried) (take k us))

stays :
    (d : Duration) (try : Attempts) (last : Option CallError) (tried : List UpstreamId)
    (us : List Upstream)
    → Goes d try tried us (give_up last tried)
unfolding give_up
stays d try last tried us = (0, omega arith, refl)

step-Goes :
    (d : Duration) (try : Attempts) (tried : List UpstreamId) (u : Upstream) (us : List Upstream)
    (rest : Finished × List Effect)
    → Goes d try (tried ++ (u.id ∷ [])) us rest
    → Goes d try tried (u ∷ us) (
        after
          (move_on d (last? tried) ++ observations (try (length (tried ++ (u.id ∷ []))) u).0)
          rest)
step-Goes d try tried u us (fin, es) (k, far, told) =
    let longer : length (tried ++ (u.id ∷ [])) ≡ suc (length tried) =
      omega (arith, length-append tried (u.id ∷ [])) in
    (
      suc k,
      omega arith,
      rw (told, last?-append tried u.id, longer, move_on-moved d (last? tried)) refl,
    )

walk_from-Goes :
    (max : ℕ) (d : Duration) (try : Attempts) (tried : List UpstreamId) (last : Option CallError)
    (us : List Upstream)
    → Goes d try tried us (walk_from max d try tried last us)
unfolding walk_from
walk_from-Goes max d try tried last [] = stays d try last tried []
walk_from-Goes max d try tried last (u ∷ us) = elim (Bool-cases (leb max (length tried))) [
  | inl full ↦ rw (full, walk_from) (stays d try last tried (u ∷ us))
  | inr room ↦
      let tried' : List UpstreamId = tried ++ (u.id ∷ []) in
      elim (Result-cases (try (length tried') u).1) [
        | inl (r, eq) ↦
            let fin : Finished = record {
              result = ok (record { reply = r; upstream = u.id });
              tried = tried';
              hedge = none;
            } in
            rw (room, eq, walk_from) (step-Goes d try tried u us (fin, []) (0, omega arith, refl))
        | inr (e, eq) ↦ elim (Bool-cases (is_retryable e)) [
          | inl y ↦
              rw (room, eq, y, walk_from)
                (step-Goes d try tried u us (walk_from max d try tried' (some e) us)
                  (walk_from-Goes max d try tried' (some e) us))
          | inr n ↦
              rw (room, eq, n, walk_from)
                (step-Goes d try tried u us (give_up (some e) tried')
                  (stays d try (some e) tried' us))
        ]
      ]
]

-- A walk tells the observer exactly what the attempts on the upstreams that it has tried tell, in
-- order; before each attempt but the first it records the failover from the upstream before, and
-- then sleeps for `retry_after`.
pub walk-told_by :
    (max : ℕ) (d : Duration) (try : Attempts) (chain : List Upstream)
    → (walk max d try chain).1
      ≡ told_by d try 0 none (take (length (walk max d try chain).0.tried) chain)
unfolding walk
walk-told_by max d try chain =
    let (k, far, told) = walk_from-Goes max d try [] none chain in
    let same : length (walk_from max d try [] none chain).0.tried ≡ k = omega arith in rw same told
