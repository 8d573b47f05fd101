-- ===== src/Proxy/Request.antt =====
-- The calls of the observer in one request (src/proxy/mod.rs): `run`, with what each way of sending
-- tells, and the request's own record at its end.
use rpc_plus_plus.Prelude.Results.{is_ok}
use rpc_plus_plus.Prelude.Text.{Text}
use rpc_plus_plus.Jsonrpc.Method.{is_write_method}
use rpc_plus_plus.Upstream.Build.{Upstream}
use rpc_plus_plus.Observer.Metrics.{Observed, requested}
use rpc_plus_plus.Proxy.Reply.{Finished, Effect, observed, slept}
use rpc_plus_plus.Proxy.Walk.{observations, walk, send_once}
use rpc_plus_plus.Proxy.Pipeline.{sequential, hedged, Core, World}
use rpc_plus_plus.Proxy.Told.{Reports, told_race}
use rpc_plus_plus.Prelude.{◌≡◌, refl, ap, List, [], ◌∷◌, ◌++◌, if◌then◌else◌, length}

-- The observer's calls among the effects of a walk.
unfoldable pub observed_in : List Effect → List Observed
observed_in [] = []
observed_in (observed e ∷ es) = e ∷ observed_in es
observed_in (slept d ∷ es) = observed_in es

unfoldable pub told_send :
    {D : Type 0} → Core D → World → Reports → Text → List Upstream → List Observed
unfolding observed_in told_race
told_send core w reports method chain = elim core.dispatch [
  | sequential ↦ observed_in (walk core.max_attempt core.retry_after w.try chain).1
  | hedged ↦
      if is_write_method method
      then observed_in (send_once w.try chain).1
      else told_race chain core.max_attempt reports w.events
]

-- `fin` is how the request was finished.
unfoldable pub told_request :
    {D : Type 0} → Core D → World → Reports → Text → List Upstream → Finished → List Observed
unfolding told_send
told_request core w reports method chain fin =
    told_send core w reports method chain
    ++ requested method (is_ok fin.result) (length fin.tried) w.elapsed ∷ []

pub observed_in-observations : (es : List Observed) → observed_in (observations es) ≡ es
unfolding observed_in
observed_in-observations [] = refl
observed_in-observations (e ∷ es) = ap (◌∷◌ e) (observed_in-observations es)
