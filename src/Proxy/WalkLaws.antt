-- ===== src/Proxy/WalkLaws.antt =====
-- What `Core::walk` (src/proxy/mod.rs) answers, whom it has tried, and what the observer is told.
use mathlib.Core.List.{append-nil, append_assoc}
use rpc_plus_plus.Prelude.Results.{Result, ok, err, Result-cases}
use rpc_plus_plus.Upstream.Call.{Duration, CallError, is_retryable}
use rpc_plus_plus.Upstream.Build.{UpstreamId, Upstream}
use rpc_plus_plus.Proxy.Reply.{Reply, call, failure_of, Finished}
use rpc_plus_plus.Proxy.Walk.{Attempts, give_up, walk_from, walk}
use rpc_plus_plus.Prelude.{
  ℕ, zero, suc, ◌-◌, ◌≡◌, refl, sym, ap, subst, ◌∙◌, inl, inr, true, false, Option, none, some,
  List, [], ◌∷◌, ◌++◌, map, arith, leb, leb→le, leb-false, tests, Bool-cases, length, get_elem?,
  take, All, length-append,
}

-- The results of the attempts on a chain, the first of them numbered `n + 1`.
abbrev pub outcomes : Attempts → ℕ → List Upstream → List (Result Reply CallError)
outcomes try n [] = []
outcomes try n (u ∷ us) = (try (suc n) u).1 ∷ outcomes try (suc n) us

abbrev pub AllRetryable : List CallError → Type 0
AllRetryable es = All (λ e. is_retryable e ≡ true) es

abbrev pub ids : List Upstream → List UpstreamId
ids us = map (λ u. u.id) us

abbrev pub last_of : Option CallError → List CallError → Option CallError
last_of last [] = last
last_of last (e ∷ es) = last_of (some e) es

-- How a walk over the upstreams `us` ends, by the results of the attempts on them: after retryable
-- failures `fs` with an answer, with a failure that no retry cures, or with `us` exhausted. `tried`
-- and `last` are what came before.
pub data Walked (tried : List UpstreamId) (last : Option CallError)
    (outs : List (Result Reply CallError)) (us : List Upstream) (fin : Finished) : Type 0 where
  answered :
      (fs : List CallError) (r : Reply) (u : Upstream) (rest : List (Result Reply CallError))
      → AllRetryable fs
      → outs ≡ map err fs ++ (ok r ∷ rest)
      → get_elem? us (length fs) ≡ some u
      → fin.result ≡ ok (record { reply = r; upstream = u.id })
      → fin.tried ≡ tried ++ ids (take (suc (length fs)) us)
      → Walked tried last outs us fin
  refused :
      (fs : List CallError) (e : CallError) (rest : List (Result Reply CallError))
      → AllRetryable fs
      → outs ≡ map err fs ++ (err e ∷ rest)
      → is_retryable e ≡ false
      → fin.result ≡ err (call e)
      → fin.tried ≡ tried ++ ids (take (suc (length fs)) us)
      → Walked tried last outs us fin
  exhausted :
      (fs : List CallError)
      → AllRetryable fs
      → outs ≡ map err fs
      → fin.result ≡ err (failure_of (last_of last fs))
      → fin.tried ≡ tried ++ ids us
      → Walked tried last outs us fin

Walked-cons :
    (tried : List UpstreamId) (last : Option CallError) (outs : List (Result Reply CallError))
    (u : Upstream) (us : List Upstream) (fin : Finished) (e : CallError)
    → is_retryable e ≡ true
    → Walked (tried ++ (u.id ∷ [])) (some e) outs us fin
    → Walked tried last (err e ∷ outs) (u ∷ us) fin
Walked-cons tried last outs u us fin e h (answered fs r v rest a o g x t) =
    answered (e ∷ fs) r v rest (h, a) (ap (◌∷◌ (err e)) o) g x
      (t ∙ append_assoc tried (u.id ∷ []) _)
Walked-cons tried last outs u us fin e h (refused fs f rest a o n x t) =
    refused (e ∷ fs) f rest (h, a) (ap (◌∷◌ (err e)) o) n x (t ∙ append_assoc tried (u.id ∷ []) _)
Walked-cons tried last outs u us fin e h (exhausted fs a o x t) =
    exhausted (e ∷ fs) (h, a) (ap (◌∷◌ (err e)) o) x (t ∙ append_assoc tried (u.id ∷ []) _)

take-nil {ℓ} : {A : Type ℓ} (n : ℕ) → take {A = A} n [] ≡ []
take-nil zero = refl
take-nil (suc n) = refl

-- One step of the walk, by how the attempt on the next upstream ends.
walk_from-step :
    (max : ℕ) (d : Duration) (try : Attempts) (tried : List UpstreamId) (last : Option CallError)
    (u : Upstream) (us : List Upstream)
    → leb max (length tried) ≡ false
    → (walk_from max d try tried last (u ∷ us)).0
      ≡ (elim (try (length (tried ++ (u.id ∷ []))) u).1 [
        | ok r ↦ record {
          result = ok (record { reply = r; upstream = u.id });
          tried = tried ++ (u.id ∷ []);
          hedge = none;
        }
        | err e ↦ elim (is_retryable e) [
          | true ↦ (walk_from max d try (tried ++ (u.id ∷ [])) (some e) us).0
          | false ↦ (give_up (some e) (tried ++ (u.id ∷ []))).0
        ]
      ])
unfolding walk_from
walk_from-step max d try tried last u us room =
    rw (room, walk_from)
      (elim (Result-cases (try (length (tried ++ (u.id ∷ []))) u).1) [
        | inl (r, eq) ↦ rw eq refl
        | inr (e, eq) ↦
            rw eq (elim (Bool-cases (is_retryable e)) [ inl y ↦ rw y refl | inr n ↦ rw n refl ])
      ])

walk_from-full :
    (max : ℕ) (d : Duration) (try : Attempts) (tried : List UpstreamId) (last : Option CallError)
    (u : Upstream) (us : List Upstream)
    → leb max (length tried) ≡ true
    → (walk_from max d try tried last (u ∷ us)).0 ≡ (give_up last tried).0
unfolding walk_from
walk_from-full max d try tried last u us full = rw (full, walk_from) refl

walk_from-nil :
    (max : ℕ) (d : Duration) (try : Attempts) (tried : List UpstreamId) (last : Option CallError)
    → (walk_from max d try tried last []).0 ≡ (give_up last tried).0
unfolding walk_from
walk_from-nil max d try tried last = refl

walk_from-Walked :
    (max : ℕ) (d : Duration) (try : Attempts) (tried : List UpstreamId) (last : Option CallError)
    (us : List Upstream) (n : ℕ)
    → length tried ≡ n
    → Walked tried last
        (outcomes try n (take (max - n) us))
        (take (max - n) us)
        (walk_from max d try tried last us).0
walk_from-Walked max d try tried last [] n h =
    rw (take-nil {A = Upstream} (max - n), walk_from-nil max d try tried last)
      (exhausted [] tt refl (unfold give_up in refl) (unfold give_up in sym (append-nil tried)))
walk_from-Walked max d try tried last (u ∷ us) n h =
    let longer : length (tried ++ (u.id ∷ [])) ≡ suc n =
      omega (arith, length-append tried (u.id ∷ [])) in
    elim (Bool-cases (leb max (length tried))) [
      | inl full ↦
          let none_left : max - n ≡ 0 = omega (tests, leb→le _ _ full) in
          rw (none_left, walk_from-full max d try tried last u us full)
            (exhausted [] tt refl (unfold give_up in refl)
              (unfold give_up in sym (append-nil tried)))
      | inr room ↦
          let one_left : max - n ≡ suc (max - suc n) = omega (tests, leb-false _ _ room) in
          rw (one_left, walk_from-step max d try tried last u us room, longer)
            (elim (Result-cases (try (suc n) u).1) [
              | inl (r, eq) ↦ rw eq (answered [] r u _ tt refl refl refl refl)
              | inr (e, eq) ↦ rw eq (elim (Bool-cases (is_retryable e)) [
                | inl y ↦ rw y (
                    Walked-cons tried last _ u _ _ e y (
                      walk_from-Walked max d try (tried ++ (u.id ∷ [])) (some e) us (suc n) longer))
                | inr final ↦
                    rw final (
                      refused [] e _ tt refl final (unfold give_up in refl)
                        (unfold give_up in refl))
              ])
            ])
    ]

-- A walk tries the chain in order, at most `max_attempt` of it, and stops at the first answer or
-- the first failure that is not retryable; the result is that answer or failure, and where every
-- attempt failed with a retryable failure, the last one (no upstream, if there was no attempt).
-- Those it has tried are exactly the upstreams up to there.
pub walk-Walked :
    (max : ℕ) (d : Duration) (try : Attempts) (chain : List Upstream)
    → Walked [] none (outcomes try 0 (take max chain)) (take max chain) (walk max d try chain).0
unfolding walk
walk-Walked max d try chain =
    let whole : max - 0 ≡ max = omega arith in
    subst
      (λ k.
        Walked [] none (outcomes try 0 (take k chain)) (take k chain)
          (walk_from max d try [] none chain).0)
      whole (walk_from-Walked max d try [] none chain 0 refl)
