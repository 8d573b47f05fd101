-- ===== src/Proxy/RaceTraced.antt =====
-- Each turn of a race tells the observer of the right upstreams (src/proxy/mod.rs,
-- src/proxy/hedge.rs).
use rpc_plus_plus.Prelude.Results.{Result, ok, err}
use rpc_plus_plus.Upstream.Call.{CallError, is_retryable}
use rpc_plus_plus.Upstream.Build.{Upstream, UpstreamId}
use rpc_plus_plus.Observer.Metrics.{Observed}
use rpc_plus_plus.Proxy.Reply.{Reply}
use rpc_plus_plus.Proxy.Hedge.{
  Cause, first, hedge, failover, Start, Race, Turn, goes_on, returns, panics, Event, completes,
  times_out, remove_at, idle, begin, newest, launch, on_failure, on_result, on_timer, select,
  is_drained, turn,
}
use rpc_plus_plus.Proxy.Pipeline.{told_start}
use rpc_plus_plus.Proxy.Told.{
  Reports, of_call, told_launch, told_end, told_drop, told_drops, told_launches, told_next,
  told_event, told_turn, told_run,
}
use rpc_plus_plus.Proxy.RaceTallied.{told_event-some, select-some}
use rpc_plus_plus.Proxy.Traces.{Traces, Traces-weaken, Traces-append}
use rpc_plus_plus.Prelude.{
  ℕ, zero, suc, ◌-◌, ◌≡◌, refl, sym, ap, subst, ◌∙◌, inl, inr, Option, none, some, List, [], ◌∷◌,
  ◌++◌, arith, ltb, Bool-cases, Option-cases, length, get_elem?, take,
}

module _ (chain : List Upstream) (rep : Reports) where
  drops-Traces : (ss : List Start) → Traces chain none (told_drops chain rep ss)
  unfolding told_drops told_drop
  drops-Traces [] = tt
  drops-Traces (s ∷ ss) =
      Traces-append chain none (told_drop chain rep s) (told_drops chain rep ss) one
        (drops-Traces ss)
    where
      one : Traces chain none (told_drop chain rep s)
      one = elim (Option-cases (rep.ran s)) [
        | inl e ↦ rw (e, told_drop) tt
        | inr (d, e) ↦ elim (Option-cases (get_elem? chain s.index)) [
          | inl out ↦ rw (e, out, told_drop, of_call) tt
          | inr (u, at) ↦ rw (e, at, told_drop, of_call) tt
        ]
      ]

  -- A report, and what follows it.
  end-Traces :
      (s : Start) (rest : List Observed)
      → ((u : Upstream) → get_elem? chain s.index ≡ some u → Traces chain (some u.id) rest)
      → (get_elem? chain s.index ≡ none → Traces chain none rest)
      → Traces chain none (told_end chain rep s ++ rest)
  unfolding told_end
  end-Traces s rest there out = elim (Option-cases (get_elem? chain s.index)) [
    | inl e ↦ rw (e, told_end, of_call) (out e)
    | inr (u, e) ↦ rw (e, told_end, of_call) (there u e)
  ]

  still-Traces :
      (prev : Option UpstreamId) (inflight : List Start) (before r : Race)
      → before.called ≡ r.called
      → Traces chain prev (told_next chain rep inflight before (goes_on r))
  unfolding told_next told_launches
  still-Traces prev inflight before r same =
      let n : length r.called - length before.called ≡ 0 = omega (arith, ap length same) in
      rw (n, told_next, told_launches) tt

  -- A call that is made tells its cause.
  launch-Traces :
      (prev : Option UpstreamId) (inflight : List Start) (before r : Race) (c : Cause)
      → before.called ≡ r.called
      → ((v : Upstream)
          → get_elem? chain r.next ≡ some v
          → Traces chain prev (told_start v (record { index = r.next; cause = c })))
      → Traces chain prev (told_next chain rep inflight before (launch chain c r))
  unfolding launch
  launch-Traces prev inflight before r c same told = elim (Option-cases (get_elem? chain r.next)) [
    | inl out ↦ rw (out, launch) (unfold told_next in tt)
    | inr (v, at) ↦
        let start : Start = record { index = r.next; cause = c } in
        let n : suc (length r.called) - length before.called ≡ 1 = omega (arith, ap length same) in
        let one : told_next chain rep inflight before (launch chain c r)
            ≡ told_start v start ++ [] =
          rw (at, launch)
            (unfold told_next in
              ap (λ k. told_launches chain (take k (start ∷ r.called))) n
              ∙ unfold told_launches told_launch in rw (at, of_call) refl) in
        subst (Traces chain prev) (sym one)
          (Traces-append chain prev (told_start v start) [] (told v at) tt)
  ]

  -- A failure, right after its own report.
  failure-Traces :
      (limit : ℕ) (s : Start) (e : CallError) (inflight : List Start) (before r : Race)
      (u : Upstream)
      → before.called ≡ r.called
      → get_elem? chain s.index ≡ some u
      → Traces chain
          (some u.id)
          (told_next chain rep inflight before (on_failure chain limit s e r))
  unfolding on_failure
  failure-Traces limit s e inflight before r u same at = elim (Bool-cases (ltb r.next limit)) [
    | inl room ↦
        rw (room, at, on_failure)
          (launch-Traces (some u.id) inflight before (record r { last_failure = some e })
            (failover u) same (λ v there. unfold told_start in (refl, tt)))
    | inr full ↦
        rw (full, on_failure)
          (still-Traces (some u.id) inflight before (record r { last_failure = some e }) same)
  ]

  failure_out :
      (limit : ℕ) (s : Start) (e : CallError) (inflight : List Start) (before r : Race)
      → before.called ≡ r.called
      → get_elem? chain s.index ≡ none
      → Traces chain none (told_next chain rep inflight before (on_failure chain limit s e r))
  unfolding on_failure
  failure_out limit s e inflight before r same out = elim (Bool-cases (ltb r.next limit)) [
    | inl room ↦ rw (room, out, on_failure) (unfold told_next in tt)
    | inr full ↦
        rw (full, on_failure)
          (still-Traces none inflight before (record r { last_failure = some e }) same)
  ]

  result-Traces :
      (limit : ℕ) (s : Start) (result : Result Reply CallError) (inflight : List Start)
      (before r : Race)
      → before.called ≡ r.called
      → Traces chain none (
          told_end chain rep s
          ++ told_next chain rep inflight before (on_result chain limit s result r))
  unfolding on_result told_next
  result-Traces limit s (ok answer) inflight before r same =
      end-Traces s _
        (λ u at.
          Traces-weaken chain (some u.id) (told_drops chain rep inflight) (drops-Traces inflight))
        (λ out. drops-Traces inflight)
  result-Traces limit s (err e) inflight before r same = elim (Bool-cases (is_retryable e)) [
    | inl again ↦
        rw (again, on_result)
          (end-Traces s _ (λ u at. failure-Traces limit s e inflight before r u same at)
            (λ out. failure_out limit s e inflight before r same out))
    | inr final ↦
        rw (final, on_result)
          (end-Traces s _
            (λ u at.
              Traces-weaken chain (some u.id) (told_drops chain rep inflight)
                (drops-Traces inflight))
            (λ out. drops-Traces inflight))
  ]

  newest_below :
      (n : ℕ) (u : Upstream)
      → newest chain n ≡ some u
      → (j : ℕ) × (n ≡ suc j) × (get_elem? chain j ≡ some u)
  unfolding newest
  newest_below zero u h = absurd (ground arith)
  newest_below (suc j) u h = (j, refl, h)

  -- The event and the turn that it makes, by equations.
  by_turn :
      (r : Race) (ev : Event) (t T : Turn) (es : List Observed)
      → t ≡ T
      → told_event chain rep T ev r ≡ es
      → Traces chain none es
      → Traces chain none (told_event chain rep t ev r)
  by_turn r ev t T es same told h =
      subst (λ x. Traces chain none (told_event chain rep x ev r)) (sym same)
        (subst (Traces chain none) (sym told) h)

  select-Traces :
      (limit : ℕ) (u : Upstream) (ev : Event) (r : Race)
      → newest chain r.next ≡ some u
      → Traces chain none (told_event chain rep (select chain limit u ev r) ev r)
  select-Traces limit u times_out r new = elim (Bool-cases (ltb r.next limit)) [
    | inl room ↦
        let (j, next, at) = newest_below r.next u new in
        by_turn r times_out _ (on_timer chain u r)
          (told_next chain rep r.inflight r (on_timer chain u r))
          (unfold select in rw (room, select) refl) (unfold told_event in refl)
          (unfold on_timer in
            launch-Traces none r.inflight r _ (hedge u) refl (λ v there.
              unfold told_start in
              ((j, u, v, at, ap (get_elem? chain) (sym next) ∙ there, refl, refl), tt)))
    | inr full ↦
        by_turn r times_out _ (goes_on r) (told_next chain rep r.inflight r (goes_on r))
          (unfold select in rw (full, select) refl) (unfold told_event in refl)
          (still-Traces none r.inflight r r refl)
  ]
  select-Traces limit u (completes k result) r new = elim (Option-cases (get_elem? r.inflight k)) [
    | inl missing ↦
        by_turn r (completes k result) _ _ [] refl
          (unfold told_event in rw (missing, told_event) refl) tt
    | inr (s, found) ↦
        by_turn r (completes k result) _ _ _ (select-some chain limit u k result r s found)
          (told_event-some chain rep _ k result r s found)
          (result-Traces limit s result (remove_at k r.inflight) r _ refl)
  ]

  -- An event of a turn that panics.
  panic-Traces : (ev : Event) (r : Race) → Traces chain none (told_event chain rep panics ev r)
  unfolding told_event told_next
  panic-Traces times_out r = tt
  panic-Traces (completes k result) r = elim (Option-cases (get_elem? r.inflight k)) [
    | inl missing ↦ rw (missing, told_event) tt
    | inr (s, found) ↦ rw (found, told_event) (end-Traces s [] (λ u at. tt) (λ out. tt))
  ]

  turn-Traces :
      (limit : ℕ) (ev : Event) (r : Race) → Traces chain none (told_turn chain limit rep ev r)
  unfolding told_turn turn
  turn-Traces limit ev r = elim (Bool-cases (is_drained limit r)) [
    | inl done ↦ rw (done, told_turn) tt
    | inr flying ↦ elim (Option-cases (newest chain r.next)) [
      | inl out ↦
          let stops : turn chain limit ev r ≡ panics = rw (flying, out, turn) refl in
          rw (stops, flying, told_turn) (panic-Traces ev r)
      | inr (u, new) ↦
          let chosen : turn chain limit ev r ≡ select chain limit u ev r =
            rw (flying, new, turn) refl in
          rw (chosen, flying, told_turn) (select-Traces limit u ev r new)
    ]
  ]

  pub run-Traces :
      (limit : ℕ) (evs : List Event) (t : Turn) → Traces chain none (told_run chain limit rep evs t)
  unfolding told_run
  run-Traces limit [] t = tt
  run-Traces limit (ev ∷ evs) (returns x) = tt
  run-Traces limit (ev ∷ evs) panics = tt
  run-Traces limit (ev ∷ evs) (goes_on r) =
      Traces-append chain none (told_turn chain limit rep ev r) _ (turn-Traces limit ev r)
        (run-Traces limit evs (turn chain limit ev r))

  pub begin-Traces :
      (limit : ℕ) → Traces chain none (told_next chain rep [] idle (begin chain limit))
  unfolding begin
  begin-Traces limit = elim (Bool-cases (ltb 0 limit)) [
    | inl room ↦
        rw (room, begin)
          (launch-Traces none [] idle idle first refl (λ v at. unfold told_start in tt))
    | inr nothing ↦ rw (nothing, begin) (still-Traces none [] idle idle refl)
  ]
