-- ===== src/Proxy/Told.antt =====
-- What `Core::race` of src/proxy/mod.rs tells the observer, turn by turn: a hedge or a failover as a
-- call is made, the call's own report as it completes, and, as the race returns, that the calls
-- still in flight were abandoned.
use rpc_plus_plus.Prelude.Results.{ok, err}
use rpc_plus_plus.Upstream.Call.{Duration, CallRecord}
use rpc_plus_plus.Upstream.Build.{Upstream}
use rpc_plus_plus.Observer.Metrics.{Observed, attempted, abandoned}
use rpc_plus_plus.Proxy.Hedge.{
  Start, Race, Turn, goes_on, returns, panics, Event, completes, times_out, remove_at, idle,
  limit_of, begin, is_drained, turn, race,
}
use rpc_plus_plus.Proxy.Pipeline.{told_start, told_win}
use rpc_plus_plus.Prelude.{
  Option, ℕ, ◌-◌, none, some, List, [], ◌∷◌, ◌++◌, if◌then◌else◌, length, get_elem?, take,
}

-- What the network makes of a call: its record if it completes, and how long it had run if it is
-- dropped. A call that is dropped before its first poll has not started, and has no guard to report it.
pub record Reports : Type 0 where
  pub finished : Start → CallRecord
  pub ran : Start → Option Duration

abbrev pub of_call : List Upstream → Start → (Upstream → List Observed) → List Observed
of_call chain s tell = elim (get_elem? chain s.index) [ none ↦ [] | some u ↦ tell u ]

unfoldable pub told_launch : List Upstream → Start → List Observed
unfolding told_start
told_launch chain s = of_call chain s (λ u. told_start u s)

unfoldable pub told_end : List Upstream → Reports → Start → List Observed
told_end chain reports s = of_call chain s (λ u. attempted u.id (reports.finished s) ∷ [])

unfoldable pub told_drop : List Upstream → Reports → Start → List Observed
told_drop chain reports s = elim (reports.ran s) [
  | none ↦ []
  | some ran ↦ of_call chain s (λ u. abandoned u.id ran ∷ [])
]

unfoldable pub told_drops : List Upstream → Reports → List Start → List Observed
unfolding told_drop
told_drops chain reports [] = []
told_drops chain reports (s ∷ ss) = told_drop chain reports s ++ told_drops chain reports ss

-- The calls that a turn has made.
abbrev pub newly : Race → Race → List Start
newly r r' = take (length r'.called - length r.called) r'.called

unfoldable pub told_launches : List Upstream → List Start → List Observed
unfolding told_launch
told_launches chain [] = []
told_launches chain (s ∷ ss) = told_launch chain s ++ told_launches chain ss

-- What the rest of a turn tells, `inflight` being the calls that it leaves in flight if it returns.
unfoldable pub told_next : List Upstream → Reports → List Start → Race → Turn → List Observed
unfolding told_launches told_drops
told_next chain reports inflight r (goes_on r') = told_launches chain (newly r r')
told_next chain reports inflight r (returns x) = told_drops chain reports inflight
told_next chain reports inflight r panics = []

-- What an event tells, `t` being the turn that it makes.
unfoldable pub told_event : List Upstream → Reports → Turn → Event → Race → List Observed
unfolding told_end told_next
told_event chain reports t (completes k result) r = elim (get_elem? r.inflight k) [
  | none ↦ []
  | some s ↦ told_end chain reports s ++ told_next chain reports (remove_at k r.inflight) r t
]
told_event chain reports t times_out r = told_next chain reports r.inflight r t

unfoldable pub told_turn : List Upstream → ℕ → Reports → Event → Race → List Observed
unfolding told_event
told_turn chain limit reports ev r =
    if is_drained limit r then [] else told_event chain reports (turn chain limit ev r) ev r

unfoldable pub told_run : List Upstream → ℕ → Reports → List Event → Turn → List Observed
unfolding told_turn
told_run chain limit reports [] t = []
told_run chain limit reports (ev ∷ evs) (returns x) = []
told_run chain limit reports (ev ∷ evs) panics = []
told_run chain limit reports (ev ∷ evs) (goes_on r) =
    told_turn chain limit reports ev r ++ told_run chain limit reports evs (turn chain limit ev r)

abbrev pub told_return : List Upstream → Turn → List Observed
told_return chain (returns x) = elim x.result [ ok w ↦ told_win chain w | err e ↦ [] ]
told_return chain (goes_on r) = []
told_return chain panics = []

-- `Core::race`: the calls, then the hedge that won.
unfoldable pub told_race : List Upstream → ℕ → Reports → List Event → List Observed
unfolding told_run told_next told_win
told_race chain max_attempt reports evs =
    let limit = limit_of chain max_attempt in
    told_next chain reports [] idle (begin chain limit)
    ++ (told_run chain limit reports evs (begin chain limit)
        ++ told_return chain (race chain max_attempt evs))
