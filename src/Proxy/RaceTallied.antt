-- ===== src/Proxy/RaceTallied.antt =====
-- A whole race told the observer what it did (src/proxy/mod.rs, src/proxy/hedge.rs).
use rpc_plus_plus.Prelude.Results.{Result, ok, err}
use rpc_plus_plus.Upstream.Call.{CallError, is_retryable}
use rpc_plus_plus.Upstream.Build.{Upstream}
use rpc_plus_plus.Observer.Metrics.{Observed}
use rpc_plus_plus.Proxy.Reply.{Reply, Failure, call, no_upstream}
use rpc_plus_plus.Proxy.Hedge.{
  Cause, first, hedge, failover, Start, Won, Raced, Race, Turn, goes_on, returns, panics, Event,
  completes, times_out, remove_at, idle, hedge_bit, limit_of, begin, on_result, on_timer, select,
  is_drained, turn, run, race,
}
use rpc_plus_plus.Proxy.HedgeLaws.{IsRace, IsTurn, IsRaced, Concludes}
use rpc_plus_plus.Proxy.HedgeTurns.{begin-IsTurn, newest-exists}
use rpc_plus_plus.Proxy.HedgeResult.{is_drained-true, is_drained-false, turn-IsTurn, race-IsTurn}
use rpc_plus_plus.Proxy.Pipeline.{told_win}
use rpc_plus_plus.Proxy.Told.{
  Reports, told_end, told_next, told_event, told_turn, told_run, told_return, told_race,
}
use rpc_plus_plus.Proxy.Counts.{Counts, counts, plus, counts-append}
use rpc_plus_plus.Proxy.TurnTold.{reports_only, Reported, launch-told, told_next-still}
use rpc_plus_plus.Proxy.RaceTold.{Tally, still, returned, timer-Tally, failure-Tally}
use rpc_plus_plus.Prelude.{
  ℕ, ◌-◌, ◌≤◌, ◌≡◌, refl, sym, ap, subst, ◌∙◌, inl, inr, some, List, [], ◌∷◌, ◌++◌, arith, ltb,
  tests, Bool-cases, Option-cases, length, get_elem?, get_elem?-some,
}

plus-nothing :
    (rep : Reports) (n : Counts) (t : Turn) → Tally rep n t → Tally rep (plus n (counts [])) t
unfolding counts
plus-nothing rep n (goes_on r) h = omega arith
plus-nothing rep n (returns x) ((few, exact), a, b, c, d) =
    ((omega arith, λ p. omega (arith, exact p)), omega arith, omega arith, omega arith, omega arith)
plus-nothing rep n panics h = h

plus_assoc : (a b c : Counts) → plus (plus a b) c ≡ plus a (plus b c)
plus_assoc a b c = ground arith

pub told_event-some :
    (chain : List Upstream) (rep : Reports) (t : Turn) (k : ℕ) (result : Result Reply CallError)
    (r : Race) (s : Start)
    → get_elem? r.inflight k ≡ some s
    → told_event chain rep t (completes k result) r
      ≡ told_end chain rep s ++ told_next chain rep (remove_at k r.inflight) r t
unfolding told_event
told_event-some chain rep t k result r s found = rw (found, told_event) refl

pub select-some :
    (chain : List Upstream) (limit : ℕ) (u : Upstream) (k : ℕ) (result : Result Reply CallError)
    (r : Race) (s : Start)
    → get_elem? r.inflight k ≡ some s
    → select chain limit u (completes k result) r
      ≡ on_result chain limit s result (record r { inflight = remove_at k r.inflight })
unfolding select
select-some chain limit u k result r s found = rw (found, select) refl

module _ (chain : List Upstream) (limit : ℕ) (rep : Reports) where
  -- The turn and what it tells, by equations of both.
  by_event :
      (n : Counts) (r : Race) (ev : Event) (t T : Turn) (es : List Observed)
      → t ≡ T
      → told_event chain rep T ev r ≡ es
      → Tally rep (plus n (counts es)) T
      → Tally rep (plus n (counts (told_event chain rep t ev r))) t
  by_event n r ev t T es same told far =
      subst (λ x. Tally rep (plus n (counts (told_event chain rep x ev r))) x) (sym same)
        (subst (λ l. Tally rep (plus n (counts l)) T) (sym told) far)

  result-Tally :
      (n : Counts) (r : Race) (k : ℕ) (s : Start) (result : Result Reply CallError)
      → IsRace chain limit r
      → Tally rep n (goes_on r)
      → get_elem? r.inflight k ≡ some s
      → let t = on_result chain limit s result (record r { inflight = remove_at k r.inflight }) in
        Tally rep
          (plus n
            (counts (told_end chain rep s ++ told_next chain rep (remove_at k r.inflight) r t)))
          t
  unfolding on_result
  result-Tally n r k s (ok answer) p far found =
      unfold told_next in
      returned chain limit rep n r p far k s
        (record {
          result = ok (record { index = s.index; cause = s.cause; answer = answer });
          started = r.next;
          hedge = record { started = r.hedge.started; won = hedge_bit s.cause };
        })
        found refl refl
  result-Tally n r k s (err e) p far found = elim (Bool-cases (is_retryable e)) [
    | inl again ↦ rw (again, on_result) (failure-Tally chain limit rep n r p far k s e found)
    | inr final ↦
        rw (final, on_result)
          (unfold told_next in
            returned chain limit rep n r p far k s
              (record { result = err (call e); started = r.next; hedge = r.hedge }) found refl refl)
  ]

  select-Tally :
      (n : Counts) (r : Race) (u : Upstream) (ev : Event)
      → IsRace chain limit r
      → Tally rep n (goes_on r)
      → let t = select chain limit u ev r in
        Tally rep (plus n (counts (told_event chain rep t ev r))) t
  select-Tally n r u times_out p far = elim (Bool-cases (ltb r.next limit)) [
    | inl room ↦
        by_event n r times_out _ (on_timer chain u r)
          (told_next chain rep r.inflight r (on_timer chain u r))
          (unfold select in rw (room, select) refl) (unfold told_event in refl)
          (timer-Tally chain limit rep n r p far u (omega (tests, room)))
    | inr full ↦
        by_event n r times_out _ (goes_on r) (told_next chain rep r.inflight r (goes_on r))
          (unfold select in rw (full, select) refl) (unfold told_event in refl)
          (rw (told_next-still chain rep r.inflight r r refl) (
            still chain limit rep n r p far r refl refl refl (reports_only 0) (omega arith) refl
              refl refl refl))
  ]
  select-Tally n r u (completes k result) p far = elim (Option-cases (get_elem? r.inflight k)) [
    | inl missing ↦
        by_event n r (completes k result) _ (goes_on r) []
          (unfold select in rw (missing, select) refl)
          (unfold told_event in rw (missing, told_event) refl) (plus-nothing rep n (goes_on r) far)
    | inr (s, found) ↦
        by_event n r (completes k result) _ _ _ (select-some chain limit u k result r s found)
          (told_event-some chain rep _ k result r s found) (result-Tally n r k s result p far found)
  ]

  turn-Tally :
      (n : Counts) (r : Race) (ev : Event)
      → IsRace chain limit r
      → Tally rep n (goes_on r)
      → Tally rep (plus n (counts (told_turn chain limit rep ev r))) (turn chain limit ev r)
  unfolding turn told_turn
  turn-Tally n r ev p far = elim (Bool-cases (is_drained limit r)) [
    | inl done ↦
        let (landed, used) = is_drained-true limit r done in
        rw (done, turn, told_turn) (unfold counts in omega arith)
    | inr flying ↦
        let (busy, begun) = is_drained-false chain limit r p flying in
        let (u, at) = newest-exists chain r.next begun (omega (arith, p.bounded, p.within)) in
        let chosen : turn chain limit ev r ≡ select chain limit u ev r =
          rw (flying, at, turn) refl in
        rw (chosen, flying, told_turn) (select-Tally n r u ev p far)
  ]

  run-Tally :
      (evs : List Event) (n : Counts) (t : Turn)
      → IsTurn chain limit t
      → Tally rep n t
      → Tally rep (plus n (counts (told_run chain limit rep evs t))) (run chain limit evs t)
  unfolding run told_run
  run-Tally [] n t p far = plus-nothing rep n t far
  run-Tally (ev ∷ evs) n (goes_on r) p far =
      let told = told_turn chain limit rep ev r in
      let rest = told_run chain limit rep evs (turn chain limit ev r) in
      let next =
        run-Tally evs (plus n (counts told)) (turn chain limit ev r)
          (turn-IsTurn chain limit ev r p) (turn-Tally n r ev p far) in
      unfold told_run run in
      subst (λ c. Tally rep c (run chain limit evs (turn chain limit ev r)))
        (plus_assoc n (counts told) (counts rest) ∙ ap (plus n) (sym (counts-append told rest)))
        next
  run-Tally (ev ∷ evs) n (returns x) p far = plus-nothing rep n (returns x) far
  run-Tally (ev ∷ evs) n panics p far = elim p [ ]

  begin-Tally :
      limit ≤ length chain
      → Tally rep (counts (told_next chain rep [] idle (begin chain limit))) (begin chain limit)
  unfolding begin
  begin-Tally within = elim (Bool-cases (ltb 0 limit)) [
    | inl room ↦
        let (goes, told) =
          launch-told chain rep [] idle idle first refl (omega (tests, room, within)) in
        rw (room, begin, told, goes) (omega arith)
    | inr nothing ↦ rw (nothing, begin, told_next-still chain rep [] idle idle refl) (omega arith)
  ]

-- What a race that returned has told, by what it returned.
abbrev pub told_of : Raced → Counts
told_of x = record {
  reports = x.started;
  hedges = x.hedge.started;
  wins = x.hedge.won;
  failovers = x.started - 1 - x.hedge.started;
  requests = 0;
}

won_by : (c : Cause) → Counts
won_by c = record { reports = 0; hedges = 0; wins = hedge_bit c; failovers = 0; requests = 0 }

counts-told_win :
    (chain : List Upstream) (w : Won) (u : Upstream)
    → get_elem? chain w.index ≡ some u
    → counts (told_win chain w) ≡ won_by w.cause
unfolding told_win won_by counts
counts-told_win chain w u at = of_cause w.cause refl
  where
    of_cause : (c : Cause) → w.cause ≡ c → counts (told_win chain w) ≡ won_by c
    of_cause first e = rw (e, told_win) refl
    of_cause (hedge o) e = rw (e, told_win, at) refl
    of_cause (failover o) e = rw (e, told_win) refl

counts-told_return :
    (chain : List Upstream) (limit : ℕ) (x : Raced)
    → limit ≤ length chain
    → IsRaced chain limit x
    → counts (told_return chain (returns x))
      ≡ record { reports = 0; hedges = 0; wins = x.hedge.won; failovers = 0; requests = 0 }
counts-told_return chain limit x within p = of_result x.result refl
  where
    of_result :
        (o : Result Won Failure)
        → x.result ≡ o
        → counts (told_return chain (returns x))
          ≡ record { reports = 0; hedges = 0; wins = x.hedge.won; failovers = 0; requests = 0 }
    of_result (ok w) e =
        let (below, fits, bit) = subst (Concludes chain limit x) e p.concludes in
        let (u, at) = get_elem?-some chain w.index (omega (arith, below, p.bounded)) in
        rw (e, told_return) (counts-told_win chain w u at ∙ rw bit (unfold won_by in refl))
    of_result (err no_upstream) e =
        let (none_allowed, none_started, unwon) = subst (Concludes chain limit x) e p.concludes in
        rw (e, told_return, unwon) (unfold counts in refl)
    of_result (err (call f)) e =
        let (unwon, used) = subst (Concludes chain limit x) e p.concludes in
        rw (e, told_return, unwon) (unfold counts in refl)

-- What a race that returned told the observer adds up.
pub race-told_race :
    (chain : List Upstream) (max_attempt : ℕ) (rep : Reports) (evs : List Event) (x : Raced)
    → race chain max_attempt evs ≡ returns x
    → let n = counts (told_race chain max_attempt rep evs) in
      (n ≡ record (told_of x) { reports = n.reports }) × Reported rep n.reports x.started
unfolding told_race
race-told_race chain max_attempt rep evs x ends =
    let limit = limit_of chain max_attempt in
    let within : limit ≤ length chain = unfold limit_of in omega arith in
    let early = told_next chain rep [] idle (begin chain limit) in
    let during = told_run chain limit rep evs (begin chain limit) in
    let ran : run chain limit evs (begin chain limit) ≡ returns x = unfold race in ends in
    let raced = subst (IsTurn chain limit) ends (race-IsTurn chain max_attempt evs) in
    let far : Tally rep (plus (counts early) (counts during)) (returns x) =
      subst (Tally rep (plus (counts early) (counts during))) ran (
        run-Tally chain limit rep evs (counts early) (begin chain limit)
          (begin-IsTurn chain limit within) (begin-Tally chain limit rep within)) in
    let (reported, hedges, moves, wins, requests) = far in
    let last = counts-told_return chain limit x within raced in
    let whole : counts (early ++ (during ++ told_return chain (race chain max_attempt evs)))
        ≡ record (told_of x) { reports = (plus (counts early) (counts during)).reports } =
      counts-append early (during ++ told_return chain (race chain max_attempt evs))
      ∙ (ap (plus (counts early)) (
            counts-append during (told_return chain (race chain max_attempt evs))
            ∙ ap (λ t. plus (counts during) (counts (told_return chain t))) ends)
          ∙ ground (arith, last, hedges, moves, wins, requests)) in
    (
      whole ∙ ap (λ m. record (told_of x) { reports = m }) (ap (λ c. c.reports) (sym whole)),
      subst (λ m. Reported rep m x.started) (ap (λ c. c.reports) (sym whole)) reported,
    )
