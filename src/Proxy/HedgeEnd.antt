-- ===== src/Proxy/HedgeEnd.antt =====
-- The race of src/proxy/hedge.rs ends, after a number of events that its limit bounds.
use rpc_plus_plus.Prelude.Results.{Result, ok, err}
use rpc_plus_plus.Upstream.Call.{CallError, is_retryable}
use rpc_plus_plus.Upstream.Build.{Upstream}
use rpc_plus_plus.Proxy.Reply.{Reply}
use rpc_plus_plus.Proxy.Hedge.{
  Cause, hedge, failover, Start, Raced, Race, Turn, goes_on, returns, panics, Event, completes,
  times_out, remove_at, limit_of, launch, begin, on_failure, on_result, on_timer, is_drained,
  select, turn, is_enabled, run, race,
}
use rpc_plus_plus.Proxy.HedgeLaws.{IsRace, IsTurn, length-remove_at}
use rpc_plus_plus.Proxy.HedgeTurns.{begin-IsTurn, newest-exists}
use rpc_plus_plus.Proxy.HedgeResult.{turn-IsTurn, is_drained-false}
use rpc_plus_plus.Prelude.{
  ℕ, suc, ◌+◌, ◌-◌, ◌*◌, ◌≤◌, ◌<◌, ◌≡◌, refl, inl, inr, Bool, true, false, ◌||◌, some, List, [],
  ◌∷◌, arith, ltb, ltb→lt, tests, Bool-cases, Option-cases, length, get_elem?, length-append,
  get_elem?-some,
}

-- Two for each call that may still start, one for each in flight, one for the return.
abbrev pub measure : ℕ → Turn → ℕ
measure limit (goes_on r) = suc (2 * (limit - r.next) + length r.inflight)
measure limit (returns x) = 0
measure limit panics = 0

-- Each event finds its arm enabled, unless the race returns at the top of the loop.
abbrev pub AllEnabled : List Upstream → ℕ → List Event → Turn → Type 0
AllEnabled chain limit [] t = Unit
AllEnabled chain limit (ev ∷ evs) (goes_on r) =
    ((is_drained limit r || is_enabled limit r ev) ≡ true)
    × AllEnabled chain limit evs (turn chain limit ev r)
AllEnabled chain limit (ev ∷ evs) (returns x) = Unit
AllEnabled chain limit (ev ∷ evs) panics = Unit

launch-measure :
    (chain : List Upstream) (limit : ℕ) (c : Cause) (r : Race)
    → r.next < limit
    → measure limit (launch chain c r) ≤ 2 * (limit - r.next) + length r.inflight
unfolding launch
launch-measure chain limit c r h = elim (Option-cases (get_elem? chain r.next)) [
  | inl e ↦ rw (e, launch) (omega arith)
  | inr (u, e) ↦
      let s : Start = record { index = r.next; cause = c } in
      rw (e, launch) (omega (arith, length-append r.inflight (s ∷ [])))
]

on_failure-measure :
    (chain : List Upstream) (limit : ℕ) (s : Start) (e : CallError) (r : Race)
    → measure limit (on_failure chain limit s e r) ≤ suc (2 * (limit - r.next) + length r.inflight)
unfolding on_failure
on_failure-measure chain limit s e r = elim (Bool-cases (ltb r.next limit)) [
  | inl y ↦ elim (Option-cases (get_elem? chain s.index)) [
    | inl g ↦ rw (y, g, on_failure) (omega arith)
    | inr (u, g) ↦
        let r' : Race = record r { last_failure = some e } in
        rw (y, g, on_failure)
          (omega (arith, launch-measure chain limit (failover u) r' (ltb→lt _ _ y)))
  ]
  | inr n ↦ rw (n, on_failure) (omega arith)
]

on_result-measure :
    (chain : List Upstream) (limit : ℕ) (s : Start) (res : Result Reply CallError) (r : Race)
    → measure limit (on_result chain limit s res r) ≤ suc (2 * (limit - r.next) + length r.inflight)
unfolding on_result
on_result-measure chain limit s (ok a) r = omega arith
on_result-measure chain limit s (err e) r = elim (Bool-cases (is_retryable e)) [
  | inl y ↦ rw y (on_failure-measure chain limit s e r)
  | inr n ↦ rw n (omega arith)
]

select-measure :
    (chain : List Upstream) (limit : ℕ) (u : Upstream) (ev : Event) (r : Race)
    → is_enabled limit r ev ≡ true
    → measure limit (select chain limit u ev r) ≤ 2 * (limit - r.next) + length r.inflight
unfolding select on_timer
select-measure chain limit u (completes k res) r h =
    let (s, g) = get_elem?-some r.inflight k (ltb→lt _ _ h) in
    let r' : Race = record r { inflight = remove_at k r.inflight } in
    rw (g, select)
      (omega (arith, on_result-measure chain limit s res r', length-remove_at r.inflight k s g))
select-measure chain limit u times_out r h =
    let r' : Race = record r {
      hedge = record { started = suc r.hedge.started; won = r.hedge.won };
    } in
    rw (h, select) (launch-measure chain limit (hedge u) r' (ltb→lt _ _ h))

or-false : (a b : Bool) → a ≡ false → (a || b) ≡ true → b ≡ true
or-false a b h k = ground arith

-- A turn whose event is enabled brings the race nearer to its end.
pub turn-measure :
    (chain : List Upstream) (limit : ℕ) (ev : Event) (r : Race)
    → IsRace chain limit r
    → (is_drained limit r || is_enabled limit r ev) ≡ true
    → measure limit (turn chain limit ev r) < measure limit (goes_on r)
unfolding turn
turn-measure chain limit ev r p h = elim (Bool-cases (is_drained limit r)) [
  | inl y ↦ rw y (omega arith)
  | inr n ↦
      let enabled = or-false (is_drained limit r) (is_enabled limit r ev) n h in
      let (flying, begun) = is_drained-false chain limit r p n in
      let (u, e) = newest-exists chain r.next begun (omega (arith, p.bounded, p.within)) in
      rw (n, e) (omega (arith, select-measure chain limit u ev r enabled))
]

run-returns :
    (chain : List Upstream) (limit : ℕ) (evs : List Event) (t : Turn)
    → IsTurn chain limit t
    → measure limit t ≤ length evs
    → AllEnabled chain limit evs t
    → (x : Raced) × (run chain limit evs t ≡ returns x)
unfolding run
run-returns chain limit [] (goes_on r) p h a = ground arith
run-returns chain limit [] (returns x) p h a = (x, refl)
run-returns chain limit [] panics p h a = elim p [ ]
run-returns chain limit (ev ∷ evs) (goes_on r) p h (e, a) =
    let nearer = turn-measure chain limit ev r p e in
    run-returns chain limit evs (turn chain limit ev r) (turn-IsTurn chain limit ev r p)
      (omega arith) a
run-returns chain limit (ev ∷ evs) (returns x) p h a = (x, refl)
run-returns chain limit (ev ∷ evs) panics p h a = elim p [ ]

begin-measure :
    (chain : List Upstream) (limit : ℕ) → measure limit (begin chain limit) ≤ suc (2 * limit)
unfolding begin launch
begin-measure chain limit = elim (Bool-cases (ltb 0 limit)) [
  | inl y ↦ elim (Option-cases (get_elem? chain 0)) [
    | inl g ↦ rw (y, g, begin, launch) (omega arith)
    | inr (u, g) ↦ rw (y, g, begin, launch) (omega (tests, y))
  ]
  | inr n ↦ rw (n, begin) (omega arith)
]

-- A race ends: once `2 * limit + 1` events found their arms enabled, it has returned a result. Here
-- `limit` is the number of calls that it may start, and the calls complete and the timers fire in
-- whatever order.
pub race-returns :
    (chain : List Upstream) (max_attempt : ℕ) (evs : List Event)
    → suc (2 * limit_of chain max_attempt) ≤ length evs
    → AllEnabled chain (limit_of chain max_attempt) evs (begin chain (limit_of chain max_attempt))
    → (x : Raced) × (race chain max_attempt evs ≡ returns x)
unfolding race
race-returns chain max_attempt evs h a =
    let limit = limit_of chain max_attempt in
    let small = begin-measure chain limit in
    run-returns chain limit evs (begin chain limit)
      (begin-IsTurn chain limit (unfold limit_of in omega arith)) (omega arith) a
