-- ===== src/Proxy/RaceTells.antt =====
-- What a whole race tells the observer (src/proxy/mod.rs, src/proxy/hedge.rs).
use rpc_plus_plus.Prelude.Results.{Result, ok, err}
use rpc_plus_plus.Upstream.Build.{Upstream}
use rpc_plus_plus.Proxy.Reply.{Failure}
use rpc_plus_plus.Proxy.Hedge.{
  Cause, first, hedge, failover, Won, Turn, goes_on, returns, panics, Event, idle, limit_of, begin,
  race,
}
use rpc_plus_plus.Proxy.HedgeLaws.{IsTurn, Concludes, CauseFits}
use rpc_plus_plus.Proxy.HedgeResult.{race-IsTurn}
use rpc_plus_plus.Proxy.Pipeline.{told_win}
use rpc_plus_plus.Proxy.Told.{Reports, told_next, told_run, told_return, told_race}
use rpc_plus_plus.Proxy.RaceTraced.{begin-Traces, run-Traces}
use rpc_plus_plus.Proxy.Traces.{Traces, Traces-append}
use rpc_plus_plus.Prelude.{
  ℕ, ◌≡◌, refl, sym, ap, subst, ◌∙◌, inl, inr, none, List, [], ◌++◌, Option-cases, get_elem?,
}

win-Traces :
    (chain : List Upstream) (w : Won)
    → CauseFits chain w.index w.cause
    → Traces chain none (told_win chain w)
unfolding told_win
win-Traces chain w fits = of_cause w.cause refl fits
  where
    of_cause :
        (c : Cause) → w.cause ≡ c → CauseFits chain w.index c → Traces chain none (told_win chain w)
    of_cause first e f = rw (e, told_win) tt
    of_cause (failover o) e f = rw (e, told_win) tt
    of_cause (hedge o) e (j, next, at) = elim (Option-cases (get_elem? chain w.index)) [
      | inl out ↦ rw (e, out, told_win) tt
      | inr (u, there) ↦
          rw (e, there, told_win)
            ((j, o, u, at, ap (get_elem? chain) (sym next) ∙ there, refl, refl), tt)
    ]

return-Traces :
    (chain : List Upstream) (limit : ℕ) (t : Turn)
    → IsTurn chain limit t
    → Traces chain none (told_return chain t)
return-Traces chain limit (goes_on r) p = tt
return-Traces chain limit panics p = tt
return-Traces chain limit (returns x) p = of_result x.result refl
  where
    of_result :
        (o : Result Won Failure) → x.result ≡ o → Traces chain none (told_return chain (returns x))
    of_result (ok w) e =
        let (below, fits, bit) = subst (Concludes chain limit x) e p.concludes in
        rw (e, told_return) (win-Traces chain w fits)
    of_result (err f) e = rw (e, told_return) tt

-- Whatever the events, and whether or not it has returned, what a race tells names the right
-- upstreams.
pub race-Traces :
    (chain : List Upstream) (max_attempt : ℕ) (rep : Reports) (evs : List Event)
    → Traces chain none (told_race chain max_attempt rep evs)
unfolding told_race
race-Traces chain max_attempt rep evs =
    let limit = limit_of chain max_attempt in
    let during = told_run chain limit rep evs (begin chain limit) in
    let last = told_return chain (race chain max_attempt evs) in
    Traces-append chain none (told_next chain rep [] idle (begin chain limit)) (during ++ last)
      (begin-Traces chain rep limit)
      (Traces-append chain none during last (run-Traces chain rep limit evs (begin chain limit)) (
        return-Traces chain limit (race chain max_attempt evs) (race-IsTurn chain max_attempt evs)))
