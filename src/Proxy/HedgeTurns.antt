-- ===== src/Proxy/HedgeTurns.antt =====
-- Every turn of the race of src/proxy/hedge.rs keeps its invariant, and the race ends.
use rpc_plus_plus.Upstream.Call.{CallError, is_retryable}
use rpc_plus_plus.Upstream.Build.{Upstream}
use rpc_plus_plus.Proxy.Hedge.{
  Cause, first, hedge, failover, Start, Race, hedge_bit, remove_at, launch, idle, begin, newest,
  on_failure, on_timer,
}
use rpc_plus_plus.Proxy.HedgeLaws.{
  CauseFits, Numbered, Called, hedges_in, IsTransient, IsRace, IsTurn, All-remove_at, All-get_elem?,
  All-Called-cons, Called-fits,
}
use rpc_plus_plus.Prelude.{
  ℕ, zero, suc, ◌+◌, ◌≤◌, ◌<◌, ◌≡◌, refl, sym, inl, inr, true, none, some, List, [], ◌∷◌, arith,
  ltb, ltb→lt, ltb-false, Bool-cases, length, get_elem?, All, length-append, get_elem?-some,
  All-append,
}

-- A race that may launch its next call, by the cause `c`.
record IsReady (chain : List Upstream) (limit : ℕ) (c : Cause) (r : Race) : Type 0 where
  room : r.next < limit
  within : limit ≤ length chain
  fits : CauseFits chain r.next c
  counted : length r.called ≡ r.next
  numbered : Numbered chain r.called
  hedged : hedge_bit c + hedges_in r.called ≡ r.hedge.started
  unwon : r.hedge.won ≡ 0
  flying : All (Called r.called) r.inflight
  failed : r.last_failure ≡ none → length r.inflight ≡ r.next
  transient : IsTransient r.last_failure

launch-IsTurn :
    (chain : List Upstream) (limit : ℕ) (c : Cause) (r : Race)
    → IsReady chain limit c r
    → IsTurn chain limit (launch chain c r)
unfolding launch
launch-IsTurn chain limit c r p =
    let (u, e) = get_elem?-some chain r.next (omega (arith, p.room, p.within)) in
    let s : Start = record { index = r.next; cause = c } in
    rw (e, launch)
      record {
        bounded = omega (arith, p.room);
        within = p.within;
        begun = λ h. omega arith;
        counted = omega (arith, p.counted);
        numbered = (sym p.counted, p.fits, p.numbered);
        hedged = p.hedged;
        unwon = p.unwon;
        flying =
            All-append (Called (s ∷ r.called)) r.inflight (s ∷ [])
              (All-Called-cons s r.called r.inflight p.flying) ((0, refl), tt);
        busy = λ h. omega (arith, length-append r.inflight (s ∷ []));
        failed = λ h. omega (arith, length-append r.inflight (s ∷ []), p.failed h);
        transient = p.transient;
      }

pub begin-IsTurn :
    (chain : List Upstream) (limit : ℕ)
    → limit ≤ length chain
    → IsTurn chain limit (begin chain limit)
unfolding begin
begin-IsTurn chain limit w = elim (Bool-cases (ltb 0 limit)) [
  | inl y ↦
      rw (y, begin)
        (launch-IsTurn chain limit first idle (record {
          room = ltb→lt _ _ y;
          within = w;
          fits = refl;
          counted = refl;
          numbered = tt;
          hedged = omega arith;
          unwon = refl;
          flying = tt;
          failed = λ h. refl;
          transient = tt;
        }))
  | inr n ↦
      rw (n, begin)
        record {
          bounded = omega arith;
          within = w;
          begun = λ h. omega (arith, ltb-false _ _ n);
          counted = refl;
          numbered = tt;
          hedged = refl;
          unwon = refl;
          flying = tt;
          busy = λ h. omega (arith, ltb-false _ _ n);
          failed = λ h. refl;
          transient = tt;
        }
]

newest-some :
    (chain : List Upstream) (n : ℕ) (u : Upstream)
    → newest chain n ≡ some u
    → (j : ℕ) × (n ≡ suc j) × (get_elem? chain j ≡ some u)
unfolding newest
newest-some chain zero u h = ground arith
newest-some chain (suc n) u h = (n, refl, h)

pub newest-exists :
    (chain : List Upstream) (n : ℕ)
    → 0 < n
    → n ≤ length chain
    → (u : Upstream) × (newest chain n ≡ some u)
unfolding newest
newest-exists chain zero h w = ground arith
newest-exists chain (suc n) h w = get_elem?-some chain n (omega arith)

pub on_timer-IsTurn :
    (chain : List Upstream) (limit : ℕ) (u : Upstream) (r : Race)
    → IsRace chain limit r
    → newest chain r.next ≡ some u
    → r.next < limit
    → IsTurn chain limit (on_timer chain u r)
unfolding on_timer
on_timer-IsTurn chain limit u r p e h =
    launch-IsTurn chain limit (hedge u)
      (record r { hedge = record { started = suc r.hedge.started; won = r.hedge.won } })
      (record {
        room = h;
        within = p.within;
        fits = newest-some chain r.next u e;
        counted = p.counted;
        numbered = p.numbered;
        hedged = omega (arith, p.hedged);
        unwon = p.unwon;
        flying = p.flying;
        failed = p.failed;
        transient = p.transient;
      })

-- A failed call is replaced by the next upstream, if there is room for it.
pub on_failure-IsTurn :
    (chain : List Upstream) (limit : ℕ) (k : ℕ) (s : Start) (e : CallError) (r : Race)
    → IsRace chain limit r
    → get_elem? r.inflight k ≡ some s
    → is_retryable e ≡ true
    → IsTurn chain limit
        (on_failure chain limit s e (record r { inflight = remove_at k r.inflight }))
unfolding on_failure
on_failure-IsTurn chain limit k s e r p g t =
    let called = All-get_elem? (Called r.called) r.inflight k s p.flying g in
    let (below, fits) = Called-fits chain r.called s p.numbered called in
    let (from, f) = get_elem?-some chain s.index (omega (arith, p.counted, p.bounded, p.within)) in
    let r' : Race = record r { inflight = remove_at k r.inflight; last_failure = some e } in
    elim (Bool-cases (ltb r.next limit)) [
      | inl y ↦
          rw (y, f, on_failure)
            (launch-IsTurn chain limit (failover from) r' (record {
              room = ltb→lt _ _ y;
              within = p.within;
              fits = (s.index, omega (arith, p.counted), f);
              counted = p.counted;
              numbered = p.numbered;
              hedged = omega (arith, p.hedged);
              unwon = p.unwon;
              flying = All-remove_at (Called r.called) r.inflight k p.flying;
              failed = λ h. ground arith;
              transient = t;
            }))
      | inr n ↦
          rw (n, on_failure)
            record {
              bounded = p.bounded;
              within = p.within;
              begun = p.begun;
              counted = p.counted;
              numbered = p.numbered;
              hedged = p.hedged;
              unwon = p.unwon;
              flying = All-remove_at (Called r.called) r.inflight k p.flying;
              busy = λ h. omega (arith, ltb-false _ _ n);
              failed = λ h. ground arith;
              transient = t;
            }
    ]
