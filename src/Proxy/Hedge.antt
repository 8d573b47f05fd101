-- ===== src/Proxy/Hedge.antt =====
-- src/proxy/hedge.rs: the race over a chain, one turn of its loop at a time. Which call completes
-- and when a timer fires is for the environment: an event names it.
use rpc_plus_plus.Prelude.Results.{Result, ok, err}
use rpc_plus_plus.Upstream.Call.{CallError, is_retryable}
use rpc_plus_plus.Upstream.Build.{Upstream}
use rpc_plus_plus.Observer.Snapshot.{HedgeStats}
use rpc_plus_plus.Proxy.Reply.{Reply, Failure, call, failure_of}
use rpc_plus_plus.Prelude.{
  ℕ, zero, suc, min, Bool, true, false, not, ◌&&◌, Option, none, some, List, [], ◌∷◌, ◌++◌, ltb,
  if◌then◌else◌, length, get_elem?, is_empty,
}

pub data Cause : Type 0 where
  first : Cause
  hedge : (overtaken : Upstream) → Cause
  failover : (from : Upstream) → Cause

pub record Start : Type 0 where
  pub index : ℕ
  pub cause : Cause

pub record Won : Type 0 where
  pub index : ℕ
  pub cause : Cause
  pub answer : Reply

pub record Raced : Type 0 where
  pub result : Result Won Failure
  pub started : ℕ
  pub hedge : HedgeStats

-- The variables of the loop; `called` is the calls that `call` was made for, the newest first, and
-- `inflight` those of them that have not completed.
pub record Race : Type 0 where
  pub inflight : List Start
  pub called : List Start
  pub next : ℕ
  pub hedge : HedgeStats
  pub last_failure : Option CallError

-- An index out of the chain's range panics.
pub data Turn : Type 0 where
  goes_on : Race → Turn
  returns : Raced → Turn
  panics : Turn

-- The in-flight call at a position completes, or the hedge timer fires.
pub data Event : Type 0 where
  completes : (position : ℕ) → Result Reply CallError → Event
  times_out : Event

abbrev pub is_hedge : Cause → Bool
is_hedge first = false
is_hedge (hedge overtaken) = true
is_hedge (failover from) = false

abbrev pub hedge_bit : Cause → ℕ
hedge_bit cause = if is_hedge cause then 1 else 0

unfoldable pub remove_at {ℓ} : {A : Type ℓ} → ℕ → List A → List A
remove_at n [] = []
remove_at zero (x ∷ xs) = xs
remove_at (suc n) (x ∷ xs) = x ∷ remove_at n xs

unfoldable pub limit_of : List Upstream → ℕ → ℕ
limit_of chain max_attempt = min (length chain) max_attempt

-- `launch` at `next`, and the count of it; `chain[index]` must exist.
unfoldable pub launch : List Upstream → Cause → Race → Turn
launch chain cause r = elim (get_elem? chain r.next) [
  | none ↦ panics
  | some u ↦
      let start : Start = record { index = r.next; cause = cause } in
      goes_on (record r {
        inflight = r.inflight ++ (start ∷ []);
        called = start ∷ r.called;
        next = suc r.next;
      })
]

abbrev pub idle : Race
idle = record {
  inflight = [];
  called = [];
  next = 0;
  hedge = record { started = 0; won = 0 };
  last_failure = none;
}

-- Before the loop.
unfoldable pub begin : List Upstream → ℕ → Turn
unfolding launch
begin chain limit = if ltb 0 limit then launch chain first idle else goes_on idle

-- `chain[next - 1]`; at `next = 0` the index is out of range.
unfoldable pub newest : List Upstream → ℕ → Option Upstream
newest chain zero = none
newest chain (suc n) = get_elem? chain n

unfoldable pub on_failure : List Upstream → ℕ → Start → CallError → Race → Turn
unfolding launch
on_failure chain limit s e r =
    let r' = record r { last_failure = some e } in
    if ltb r.next limit
    then (elim (get_elem? chain s.index) [
      | none ↦ panics
      | some from ↦ launch chain (failover from) r'
    ])
    else goes_on r'

-- The arm of a completed call, which is out of `inflight` already.
unfoldable pub on_result : List Upstream → ℕ → Start → Result Reply CallError → Race → Turn
unfolding on_failure
on_result chain limit s (ok answer) r = returns (record {
  result = ok (record { index = s.index; cause = s.cause; answer = answer });
  started = r.next;
  hedge = record { started = r.hedge.started; won = hedge_bit s.cause };
})
on_result chain limit s (err e) r =
    if is_retryable e
    then on_failure chain limit s e r
    else returns (record { result = err (call e); started = r.next; hedge = r.hedge })

-- The arm of the timer.
unfoldable pub on_timer : List Upstream → Upstream → Race → Turn
unfolding launch
on_timer chain overtaken r =
    launch chain (hedge overtaken)
      (record r { hedge = record { started = suc r.hedge.started; won = r.hedge.won } })

unfoldable pub is_drained : ℕ → Race → Bool
is_drained limit r = is_empty r.inflight && not (ltb r.next limit)

-- The `select!`: an arm that is not enabled leaves the race as it is.
unfoldable pub select : List Upstream → ℕ → Upstream → Event → Race → Turn
unfolding on_result on_timer
select chain limit u (completes k result) r = elim (get_elem? r.inflight k) [
  | none ↦ goes_on r
  | some s ↦ on_result chain limit s result (record r { inflight = remove_at k r.inflight })
]
select chain limit u times_out r = if ltb r.next limit then on_timer chain u r else goes_on r

-- One turn of the loop: the return at its top, the look at the newest call's upstream, an event.
unfoldable pub turn : List Upstream → ℕ → Event → Race → Turn
unfolding is_drained newest select failure_of
turn chain limit ev r =
    if is_drained limit r
    then returns
        (record { result = err (failure_of r.last_failure); started = r.next; hedge = r.hedge })
    else (elim (newest chain r.next) [ none ↦ panics | some u ↦ select chain limit u ev r ])

-- Whether an event's arm is enabled.
abbrev pub is_enabled : ℕ → Race → Event → Bool
is_enabled limit r (completes k result) = ltb k (length r.inflight)
is_enabled limit r times_out = ltb r.next limit

-- A race from a turn on, with the events that the environment gives it.
unfoldable pub run : List Upstream → ℕ → List Event → Turn → Turn
unfolding turn
run chain limit [] t = t
run chain limit (ev ∷ evs) (returns raced) = returns raced
run chain limit (ev ∷ evs) panics = panics
run chain limit (ev ∷ evs) (goes_on r) = run chain limit evs (turn chain limit ev r)

unfoldable pub race : List Upstream → ℕ → List Event → Turn
unfolding limit_of begin run
race chain max_attempt evs =
    let limit = limit_of chain max_attempt in run chain limit evs (begin chain limit)
