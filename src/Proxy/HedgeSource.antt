-- ===== src/Proxy/HedgeSource.antt =====
-- Where the result of a race (src/proxy/hedge.rs) comes from: the event that ended it, or the last
-- failure before.
use mathlib.Core.List.{append_assoc}
use rpc_plus_plus.Prelude.Results.{Result, ok, err}
use rpc_plus_plus.Prelude.Options.{some_inj}
use rpc_plus_plus.Upstream.Call.{CallError, is_retryable}
use rpc_plus_plus.Upstream.Build.{Upstream}
use rpc_plus_plus.Proxy.Reply.{Reply, Failure, call, no_upstream, failure_of}
use rpc_plus_plus.Proxy.Hedge.{
  Cause, hedge, failover, Start, Won, Race, Turn, goes_on, returns, panics, Event, completes,
  times_out, remove_at, limit_of, launch, newest, begin, on_failure, on_result, on_timer, select,
  is_drained, turn, run, race,
}
use rpc_plus_plus.Proxy.HedgeLaws.{IsTurn}
use rpc_plus_plus.Proxy.HedgeResult.{race-IsTurn}
use rpc_plus_plus.Prelude.{
  ℕ, ◌≡◌, refl, sym, ap, subst, ◌∙◌, inl, inr, ◌⊎◌, none, some, Option, List, [], ◌∷◌, ◌++◌, arith,
  ltb, Bool-cases, Option-cases, get_elem?,
}

-- What the turn of an event is made of: its answer is the event's, of the call in flight that the
-- event names; a failure is the event's, or the last one before.
abbrev Made : Event → Race → Turn → Type 0
Made ev r (goes_on r') =
    (r'.last_failure ≡ r.last_failure)
    ⊎ ((k : ℕ) × (e : CallError) × (s : Start) × (ev ≡ completes k (err e))
        × (r'.last_failure ≡ some e)
        × (get_elem? r.inflight k ≡ some s))
Made ev r (returns x) = elim x.result [
  | ok w ↦
      (k : ℕ) × (ev ≡ completes k (ok w.answer))
      × (get_elem? r.inflight k ≡ some (record { index = w.index; cause = w.cause }))
  | err no_upstream ↦ Unit
  | err (call e) ↦
      (r.last_failure ≡ some e)
      ⊎ ((k : ℕ) × (s : Start) × (ev ≡ completes k (err e)) × (get_elem? r.inflight k ≡ some s))
]
Made ev r panics = Unit

launch-Made :
    (chain : List Upstream) (c : Cause) (ev : Event) (r r' : Race)
    → Made ev r (goes_on r')
    → Made ev r (launch chain c r')
unfolding launch
launch-Made chain c ev r r' h = elim (Option-cases (get_elem? chain r'.next)) [
  | inl out ↦ rw (out, launch) tt
  | inr (u, at) ↦ rw (at, launch) h
]

failure-Made :
    (chain : List Upstream) (limit k : ℕ) (s : Start) (e : CallError) (r : Race)
    → get_elem? r.inflight k ≡ some s
    → Made
        (completes k (err e))
        r
        (on_failure chain limit s e (record r { inflight = remove_at k r.inflight }))
unfolding on_failure
failure-Made chain limit k s e r flying =
    let r' : Race = record r { inflight = remove_at k r.inflight; last_failure = some e } in
    let kept : Made (completes k (err e)) r (goes_on r') = inr (k, e, s, refl, refl, flying) in
    elim (Bool-cases (ltb r.next limit)) [
      | inl room ↦ elim (Option-cases (get_elem? chain s.index)) [
        | inl out ↦ rw (room, out, on_failure) tt
        | inr (from, at) ↦
            rw (room, at, on_failure)
              (launch-Made chain (failover from) (completes k (err e)) r r' kept)
      ]
      | inr full ↦ rw (full, on_failure) kept
    ]

result-Made :
    (chain : List Upstream) (limit k : ℕ) (s : Start) (result : Result Reply CallError) (r : Race)
    → get_elem? r.inflight k ≡ some s
    → Made
        (completes k result)
        r
        (on_result chain limit s result (record r { inflight = remove_at k r.inflight }))
unfolding on_result
result-Made chain limit k s (ok answer) r at = (k, refl, at)
result-Made chain limit k s (err e) r at = elim (Bool-cases (is_retryable e)) [
  | inl again ↦ rw (again, on_result) (failure-Made chain limit k s e r at)
  | inr final ↦ rw (final, on_result) (inr (k, s, refl, at))
]

select-Made :
    (chain : List Upstream) (limit : ℕ) (u : Upstream) (ev : Event) (r : Race)
    → Made ev r (select chain limit u ev r)
unfolding select
select-Made chain limit u (completes k result) r = elim (Option-cases (get_elem? r.inflight k)) [
  | inl missing ↦ rw (missing, select) (inl refl)
  | inr (s, at) ↦ rw (at, select) (result-Made chain limit k s result r at)
]
select-Made chain limit u times_out r = elim (Bool-cases (ltb r.next limit)) [
  | inl room ↦
      rw (room, select) (unfold on_timer in launch-Made chain (hedge u) times_out r _ (inl refl))
  | inr full ↦ rw (full, select) (inl refl)
]

drained-Made :
    (ev : Event) (r : Race) (o : Option CallError)
    → r.last_failure ≡ o
    → Made ev r
        (returns (record { result = err (failure_of o); started = r.next; hedge = r.hedge }))
unfolding failure_of
drained-Made ev r none h = tt
drained-Made ev r (some e) h = inl h

turn-Made :
    (chain : List Upstream) (limit : ℕ) (ev : Event) (r : Race) → Made ev r (turn chain limit ev r)
unfolding turn
turn-Made chain limit ev r = elim (Bool-cases (is_drained limit r)) [
  | inl done ↦ rw (done, turn) (drained-Made ev r r.last_failure refl)
  | inr flying ↦ elim (Option-cases (newest chain r.next)) [
    | inl out ↦ rw (flying, out, turn) tt
    | inr (u, at) ↦ rw (flying, at, turn) (select-Made chain limit u ev r)
  ]
]

-- The events up to here have led from the start to this turn.
module _ (chain : List Upstream) (limit : ℕ) where
  -- A failure with which a call in flight has completed.
  abbrev pub Brought : List Event → CallError → Type 0
  Brought evs e =
      (before : List Event) × (k : ℕ) × (later : List Event) × (r : Race) × (s : Start) × (evs
        ≡ before ++ (completes k (err e) ∷ later))
      × (run chain limit before (begin chain limit) ≡ goes_on r)
      × (get_elem? r.inflight k ≡ some s)

  -- An answer is the one with which a call in flight has completed, of that call's index and cause; a
  -- failure is one with which a call in flight has completed.
  abbrev pub Sourced : List Event → Turn → Type 0
  Sourced evs (goes_on r) = (e : CallError) → r.last_failure ≡ some e → Brought evs e
  Sourced evs (returns x) = elim x.result [
    | ok w ↦
        (before : List Event) × (k : ℕ) × (later : List Event) × (r : Race) × (evs
          ≡ before ++ (completes k (ok w.answer) ∷ later))
        × (run chain limit before (begin chain limit) ≡ goes_on r)
        × (get_elem? r.inflight k ≡ some (record { index = w.index; cause = w.cause }))
    | err no_upstream ↦ Unit
    | err (call e) ↦ Brought evs e
  ]
  Sourced evs panics = Unit

  longer :
      (before : List Event) (ev : Event) (rest later : List Event)
      → (before ++ (ev ∷ rest)) ++ later ≡ before ++ (ev ∷ (rest ++ later))
  longer before ev rest later = append_assoc before (ev ∷ rest) later

  Brought-append :
      (evs later : List Event) (e : CallError) → Brought evs e → Brought (evs ++ later) e
  Brought-append evs later e (before, k, rest, r, s, at, ran, flying) = (
    before,
    k,
    rest ++ later,
    r,
    s,
    ap (λ l. l ++ later) at ∙ longer before _ rest later,
    ran,
    flying,
  )

  Sourced-append : (evs later : List Event) (t : Turn) → Sourced evs t → Sourced (evs ++ later) t
  Sourced-append evs later (goes_on r) h = λ e last. Brought-append evs later e (h e last)
  Sourced-append evs later (returns x) h = of_result x.result h
    where
      of_result :
          (o : Result Won Failure)
          → Sourced evs (returns (record x { result = o }))
          → Sourced (evs ++ later) (returns (record x { result = o }))
      of_result (ok w) (before, k, rest, r, at, ran, flying) = (
        before,
        k,
        rest ++ later,
        r,
        ap (λ l. l ++ later) at ∙ longer before _ rest later,
        ran,
        flying,
      )
      of_result (err no_upstream) h = tt
      of_result (err (call e)) h = Brought-append evs later e h
  Sourced-append evs later panics h = tt

  step-Sourced :
      (evs : List Event) (ev : Event) (r : Race) (t : Turn)
      → run chain limit evs (begin chain limit) ≡ goes_on r
      → Sourced evs (goes_on r)
      → Made ev r t
      → Sourced (evs ++ (ev ∷ [])) t
  step-Sourced evs ev r (goes_on r') ran far (inl same) =
      λ e last. Brought-append evs (ev ∷ []) e (far e (sym same ∙ last))
  step-Sourced evs ev r (goes_on r') ran far (inr (k, e, s, is, last, flying)) = λ e' last'.
      subst (Brought (evs ++ (ev ∷ []))) (some_inj (sym last ∙ last'))
        (evs, k, [], r, s, ap (λ x. evs ++ (x ∷ [])) is, ran, flying)
  step-Sourced evs ev r (returns x) ran far h = of_result x.result h
    where
      of_result :
          (o : Result Won Failure)
          → Made ev r (returns (record x { result = o }))
          → Sourced (evs ++ (ev ∷ [])) (returns (record x { result = o }))
      of_result (ok w) (k, is, flying) = (evs, k, [], r, ap (λ x. evs ++ (x ∷ [])) is, ran, flying)
      of_result (err no_upstream) h = tt
      of_result (err (call e)) (inl last) = Brought-append evs (ev ∷ []) e (far e last)
      of_result (err (call e)) (inr (k, s, is, flying)) =
          (evs, k, [], r, s, ap (λ x. evs ++ (x ∷ [])) is, ran, flying)
  step-Sourced evs ev r panics ran far h = tt

  run-append :
      (evs later : List Event) (t : Turn)
      → run chain limit (evs ++ later) t ≡ run chain limit later (run chain limit evs t)
  unfolding run
  run-append [] later t = refl
  run-append (ev ∷ evs) later (goes_on r) = run-append evs later (turn chain limit ev r)
  run-append (ev ∷ evs) [] (returns x) = refl
  run-append (ev ∷ evs) (l ∷ later) (returns x) = refl
  run-append (ev ∷ evs) [] panics = refl
  run-append (ev ∷ evs) (l ∷ later) panics = refl

  run-Sourced :
      (before evs : List Event) (t : Turn)
      → run chain limit before (begin chain limit) ≡ t
      → Sourced before t
      → Sourced (before ++ evs) (run chain limit evs t)
  unfolding run
  run-Sourced before [] t ran far = Sourced-append before [] t far
  run-Sourced before (ev ∷ evs) (goes_on r) ran far =
      let next = turn chain limit ev r in
      let further : run chain limit (before ++ (ev ∷ [])) (begin chain limit) ≡ next =
        run-append before (ev ∷ []) (begin chain limit) ∙ ap (run chain limit (ev ∷ [])) ran in
      subst (λ l. Sourced l (run chain limit evs next)) (append_assoc before (ev ∷ []) evs)
        (run-Sourced (before ++ (ev ∷ [])) evs next further
          (step-Sourced before ev r next ran far (turn-Made chain limit ev r)))
  run-Sourced before (ev ∷ evs) (returns x) ran far =
      Sourced-append before (ev ∷ evs) (returns x) far
  run-Sourced before (ev ∷ evs) panics ran far = tt

  begin-Sourced : Sourced [] (begin chain limit)
  unfolding begin launch
  begin-Sourced = elim (Bool-cases (ltb 0 limit)) [
    | inl room ↦ elim (Option-cases (get_elem? chain 0)) [
      | inl out ↦ rw (room, out, begin, launch) tt
      | inr (u, at) ↦ rw (room, at, begin, launch) (λ e h. absurd (ground arith))
    ]
    | inr nothing ↦ rw (nothing, begin) (λ e h. absurd (ground arith))
  ]

-- Whatever the environment does, a race never panics. While it goes on, the calls that it has made
-- are of the first upstreams of the chain, at most `max_attempt` of them, each called once and in
-- order, a hedge to overtake the call before it; and while it may make another call, one is in
-- flight. What it returns is the answer with which a call in flight completed, with that call's index
-- and cause, counted as a hedge won exactly if the timer started that call; or a failure with which
-- a call in flight completed, which is retryable only if all the calls allowed were started; or no upstream,
-- only where no call is allowed. At most all its calls but one were hedges.
pub race-concludes :
    (chain : List Upstream) (max_attempt : ℕ) (evs : List Event)
    → IsTurn chain (limit_of chain max_attempt) (race chain max_attempt evs)
      × Sourced chain (limit_of chain max_attempt) evs (race chain max_attempt evs)
race-concludes chain max_attempt evs =
    let limit = limit_of chain max_attempt in
    (
      race-IsTurn chain max_attempt evs,
      unfold race in
          run-Sourced chain limit [] evs (begin chain limit) (unfold run in refl)
            (begin-Sourced chain limit),
    )
