-- ===== src/Proxy/HedgeResult.antt =====
-- The race of src/proxy/hedge.rs as a whole: it never panics, what it returns, and that it ends.
use rpc_plus_plus.Prelude.Results.{Result, ok, err}
use rpc_plus_plus.Upstream.Call.{CallError, is_retryable}
use rpc_plus_plus.Upstream.Build.{Upstream}
use rpc_plus_plus.Proxy.Reply.{Reply, failure_of}
use rpc_plus_plus.Proxy.Hedge.{
  Start, Race, Turn, goes_on, returns, panics, Event, completes, times_out, remove_at, limit_of,
  newest, on_result, is_drained, select, turn, run, race,
}
use rpc_plus_plus.Proxy.HedgeLaws.{
  Called, IsRace, IsRaced, IsTurn, All-get_elem?, Called-fits, hedges_in-bound,
}
use rpc_plus_plus.Proxy.HedgeTurns.{begin-IsTurn, newest-exists, on_timer-IsTurn, on_failure-IsTurn}
use rpc_plus_plus.Prelude.{
  ℕ, ◌≤◌, ◌<◌, ◌≡◌, refl, inl, inr, true, false, Option, none, some, List, [], ◌∷◌, arith, ltb,
  ltb→lt, ltb-false, tests, Bool-cases, Option-cases, length, get_elem?, is_empty, get_elem?-some,
}

on_result-IsTurn :
    (chain : List Upstream) (limit : ℕ) (k : ℕ) (s : Start) (res : Result Reply CallError)
    (r : Race)
    → IsRace chain limit r
    → get_elem? r.inflight k ≡ some s
    → IsTurn chain limit
        (on_result chain limit s res (record r { inflight = remove_at k r.inflight }))
unfolding on_result
on_result-IsTurn chain limit k s (ok a) r p g =
    let called = All-get_elem? (Called r.called) r.inflight k s p.flying g in
    let (below, fits) = Called-fits chain r.called s p.numbered called in
    let most = hedges_in-bound chain r.called p.numbered in
    record {
      bounded = p.bounded;
      hedged = omega (arith, p.hedged, most, p.counted);
      concludes = (omega (arith, below, p.counted), fits, refl);
    }
on_result-IsTurn chain limit k s (err e) r p g =
    let most = hedges_in-bound chain r.called p.numbered in
    elim (Bool-cases (is_retryable e)) [
      | inl y ↦ rw y (on_failure-IsTurn chain limit k s e r p g y)
      | inr n ↦ rw n record {
        bounded = p.bounded;
        hedged = omega (arith, p.hedged, most, p.counted);
        concludes = (p.unwon, λ y. ground arith);
      }
    ]

select-IsTurn :
    (chain : List Upstream) (limit : ℕ) (u : Upstream) (ev : Event) (r : Race)
    → IsRace chain limit r
    → newest chain r.next ≡ some u
    → IsTurn chain limit (select chain limit u ev r)
unfolding select
select-IsTurn chain limit u (completes k res) r p e = elim (Option-cases (get_elem? r.inflight k)) [
  | inl g ↦ rw (g, select) p
  | inr (s, g) ↦ rw (g, select) (on_result-IsTurn chain limit k s res r p g)
]
select-IsTurn chain limit u times_out r p e = elim (Bool-cases (ltb r.next limit)) [
  | inl y ↦ rw (y, select) (on_timer-IsTurn chain limit u r p e (ltb→lt _ _ y))
  | inr n ↦ rw (n, select) p
]

-- The return at the top of the loop.
drained-IsRaced :
    (chain : List Upstream) (limit : ℕ) (r : Race)
    → IsRace chain limit r
    → length r.inflight ≡ 0
    → limit ≤ r.next
    → (o : Option CallError) → r.last_failure ≡ o
    → IsRaced chain limit
        (record { result = err (failure_of o); started = r.next; hedge = r.hedge })
unfolding failure_of
drained-IsRaced chain limit r p none_left full none e =
    let most = hedges_in-bound chain r.called p.numbered in
    let zero_next : r.next ≡ 0 = omega (arith, none_left, p.failed e) in
    record {
      bounded = p.bounded;
      hedged = omega (arith, p.hedged, most, p.counted);
      concludes = (omega (arith, full, zero_next), zero_next, p.unwon);
    }
drained-IsRaced chain limit r p none_left full (some f) e =
    let most = hedges_in-bound chain r.called p.numbered in
    record {
      bounded = p.bounded;
      hedged = omega (arith, p.hedged, most, p.counted);
      concludes = (p.unwon, λ y. omega (arith, full, p.bounded));
    }

is_empty-length {ℓ} : {A : Type ℓ} (xs : List A) → is_empty xs ≡ true → length xs ≡ 0
is_empty-length [] h = refl
is_empty-length (x ∷ xs) h = ground arith

is_empty-false {ℓ} : {A : Type ℓ} (xs : List A) → is_empty xs ≡ false → 0 < length xs
is_empty-false [] h = ground arith
is_empty-false (x ∷ xs) h = omega arith

pub is_drained-true :
    (limit : ℕ) (r : Race) → is_drained limit r ≡ true → (length r.inflight ≡ 0) × (limit ≤ r.next)
unfolding is_drained
is_drained-true limit r h = elim (Bool-cases (is_empty r.inflight)) [
  | inl y ↦ elim (Bool-cases (ltb r.next limit)) [
    | inl z ↦ ground arith
    | inr z ↦ (is_empty-length r.inflight y, ltb-false _ _ z)
  ]
  | inr n ↦ ground arith
]

pub is_drained-false :
    (chain : List Upstream) (limit : ℕ) (r : Race)
    → IsRace chain limit r
    → is_drained limit r ≡ false
    → (0 < length r.inflight) × (0 < r.next)
unfolding is_drained
is_drained-false chain limit r p h = elim (Bool-cases (ltb r.next limit)) [
  | inl y ↦ (p.busy (ltb→lt _ _ y), p.begun (omega (tests, y)))
  | inr n ↦ elim (Bool-cases (is_empty r.inflight)) [
    | inl y ↦ ground arith
    | inr some_left ↦
        let flying = is_empty-false r.inflight some_left in
        let (s, g) = get_elem?-some r.inflight 0 flying in
        let called = All-get_elem? (Called r.called) r.inflight 0 s p.flying g in
        (flying, omega (arith, (Called-fits chain r.called s p.numbered called).0, p.counted))
  ]
]

pub turn-IsTurn :
    (chain : List Upstream) (limit : ℕ) (ev : Event) (r : Race)
    → IsRace chain limit r
    → IsTurn chain limit (turn chain limit ev r)
unfolding turn
turn-IsTurn chain limit ev r p = elim (Bool-cases (is_drained limit r)) [
  | inl y ↦
      let (none_left, full) = is_drained-true limit r y in
      rw y (drained-IsRaced chain limit r p none_left full r.last_failure refl)
  | inr n ↦
      let (flying, begun) = is_drained-false chain limit r p n in
      let (u, e) = newest-exists chain r.next begun (omega (arith, p.bounded, p.within)) in
      rw (n, e) (select-IsTurn chain limit u ev r p e)
]

run-IsTurn :
    (chain : List Upstream) (limit : ℕ) (evs : List Event) (t : Turn)
    → IsTurn chain limit t
    → IsTurn chain limit (run chain limit evs t)
unfolding run
run-IsTurn chain limit [] t p = p
run-IsTurn chain limit (ev ∷ evs) (goes_on r) p =
    run-IsTurn chain limit evs _ (turn-IsTurn chain limit ev r p)
run-IsTurn chain limit (ev ∷ evs) (returns x) p = p
run-IsTurn chain limit (ev ∷ evs) panics p = p

-- Whatever the environment does, a race never panics. While it goes on, the calls that it has made
-- are of the first upstreams of the chain, at most `max_attempt` of them, each called once and in
-- order, a hedge to overtake the call before it; and while it may make another call, one is in
-- flight. What it returns is the answer of a call that was started, counted as a hedge won exactly
-- if the timer started that call; or a failure, which is retryable only if all the calls allowed
-- were started; or no upstream, only where no call is allowed. At most all its calls but one were hedges.
pub race-IsTurn :
    (chain : List Upstream) (max_attempt : ℕ) (evs : List Event)
    → IsTurn chain (limit_of chain max_attempt) (race chain max_attempt evs)
unfolding race
race-IsTurn chain max_attempt evs =
    run-IsTurn chain (limit_of chain max_attempt) evs _
      (begin-IsTurn chain (limit_of chain max_attempt) (unfold limit_of in omega arith))
