-- ===== src/Proxy/Once.antt =====
-- How often a request may reach an upstream, and that it is always answered (src/proxy/mod.rs).
use rpc_plus_plus.Prelude.Results.{map_ok, map_err, Result, ok, err, Result-cases}
use rpc_plus_plus.Prelude.Text.{Text}
use rpc_plus_plus.Jsonrpc.Libs.{Libs}
use rpc_plus_plus.Jsonrpc.Method.{
  is_write_method, method_label, is_idempotent_read, is_write_method-method_label,
}
use rpc_plus_plus.Upstream.Call.{CallError}
use rpc_plus_plus.Upstream.Build.{Upstream}
use rpc_plus_plus.Proxy.Reply.{no_upstream, call, Reply, Answered, Failure, Finished}
use rpc_plus_plus.Proxy.Walk.{Attempts, walk, send_once}
use rpc_plus_plus.Proxy.Hedge.{Raced, returns, race, limit_of}
use rpc_plus_plus.Proxy.HedgeLaws.{IsRaced, IsTurn, Concludes}
use rpc_plus_plus.Proxy.WalkLaws.{Walked, answered, refused, exhausted, walk-Walked}
use rpc_plus_plus.Proxy.HedgeResult.{race-IsTurn}
use rpc_plus_plus.Proxy.Pipeline.{
  Dispatch, sequential, Core, World, answered_by, race_finished, send,
}
use rpc_plus_plus.Observer.Metrics.{Observed}
use rpc_plus_plus.Proxy.Told.{Reports}
use rpc_plus_plus.Proxy.Request.{told_send, observed_in, observed_in-observations}
use rpc_plus_plus.Prelude.{
  sym, ℕ, suc, ◌≤◌, ◌<◌, ◌≡◌, refl, ap, subst, ◌∙◌, inl, inr, true, false, none, some, List, [],
  ◌∷◌, map, arith, Bool-cases, Option-cases, length, take, length-take, get_elem?-some,
}

-- One attempt on the head of the chain, and no hedge: what is told is what it tells, and the result
-- is its own.
abbrev pub AsksHead : Attempts → List Upstream → Finished → List Observed → Type 0
AsksHead try [] fin told =
    (fin.result ≡ err no_upstream)
    × (fin.tried ≡ [])
    × (told ≡ [])
    × (fin.hedge ≡ some (record { started = 0; won = 0 }))
AsksHead try (u ∷ us) fin told =
    (fin.result ≡ (elim (try 1 u).1 [
      | ok reply ↦ ok (record { reply = reply; upstream = u.id })
      | err e ↦ err (call e)
    ]))
    × (fin.tried ≡ u.id ∷ [])
    × (told ≡ (try 1 u).0)
    × (fin.hedge ≡ some (record { started = 0; won = 0 }))

send_once-AsksHead :
    (try : Attempts) (chain : List Upstream)
    → AsksHead try chain (send_once try chain).0 (observed_in (send_once try chain).1)
unfolding send_once
send_once-AsksHead try [] = (refl, refl, unfold observed_in in refl, refl)
send_once-AsksHead try (u ∷ us) =
    (of_result (try 1 u).1, refl, observed_in-observations (try 1 u).0, refl)
  where
    of_result :
        (r : Result Reply CallError)
        → ◌≡◌ {A = Result Answered Failure}
            (map_err call (map_ok (λ reply. record { reply = reply; upstream = u.id }) r))
            (elim r [
              | ok reply ↦ ok (record { reply = reply; upstream = u.id })
              | err e ↦ err (call e)
            ])
    of_result (ok reply) = refl
    of_result (err e) = refl

-- Where requests are hedged, a call that is no known idempotent read is neither hedged nor sent
-- again: it is one attempt on the head of the chain, which alone is tried and told, and its result
-- is that attempt's.
pub send-once :
    {D : Type 0} (libs : Libs) (core : Core D) (w : World) (rep : Reports) (body : Text)
    (chain : List Upstream)
    → core.dispatch ≡ Dispatch.hedged
    → ((method : Text)
        → libs.serde.method_envelope body ≡ some method
        → is_idempotent_read method ≡ false)
    → (fin : Finished) × (send core w (method_label libs.serde body) chain ≡ some fin)
      × AsksHead w.try chain fin (told_send core w rep (method_label libs.serde body) chain)
unfolding send told_send
send-once libs core w rep body chain h unsafe =
    let write : is_write_method (method_label libs.serde body) ≡ true =
      is_write_method-method_label libs.serde body
      ∙ (elim (Option-cases (libs.serde.method_envelope body)) [
        | inl unread ↦ rw unread refl
        | inr (method, read) ↦ rw (read, unsafe method read) refl
      ]) in
    let alone : told_send core w rep (method_label libs.serde body) chain
        ≡ observed_in (send_once w.try chain).1 =
      rw (h, write, told_send) refl in
    (
      (send_once w.try chain).0,
      rw (h, write, send) refl,
      subst (AsksHead w.try chain (send_once w.try chain).0) (sym alone)
          (send_once-AsksHead w.try chain),
    )

length-ids : (us : List Upstream) → length (map (λ u. u.id) us) ≡ length us
length-ids [] = refl
length-ids (u ∷ us) = ap suc (length-ids us)

abbrev make_finished : Result Answered Failure → List Upstream → Raced → Finished
make_finished result chain raced = record {
  result = result;
  tried = map (λ u. u.id) (take raced.started chain);
  hedge = some raced.hedge;
}

-- `chain[index]` of a race's winner is there, and it has tried a head of the chain.
race_finished-total :
    (chain : List Upstream) (limit : ℕ) (raced : Raced)
    → limit ≤ length chain
    → IsRaced chain limit raced
    → (fin : Finished) × (race_finished chain raced ≡ some fin) × (length fin.tried ≡ raced.started)
unfolding race_finished answered_by
race_finished-total chain limit raced w p =
    let tried : length (map (λ u. u.id) (take raced.started chain)) ≡ raced.started =
      omega (
        arith,
        length-ids (take raced.started chain),
        length-take raced.started chain,
        p.bounded,
      ) in
    elim (Result-cases raced.result) [
      | inl (won, e) ↦
          let (below, fits, bit) = subst (Concludes chain limit raced) e p.concludes in
          let (u, at) = get_elem?-some chain won.index (omega (arith, below, p.bounded)) in
          let answered : answered_by chain (ok won)
              ≡ some (ok (record { reply = won.answer; upstream = u.id })) =
            unfold answered_by in rw at refl in
          (
            make_finished (ok (record { reply = won.answer; upstream = u.id })) chain raced,
            rw (e, answered) refl,
            tried,
          )
      | inr (f, e) ↦ (make_finished (err f) chain raced, rw e refl, tried)
    ]

walked-length :
    (max : ℕ) (outs : List (Result Reply CallError)) (chain : List Upstream) (fin : Finished)
    → Walked [] none outs (take max chain) fin
    → length fin.tried ≤ max
walked-length max outs chain fin (answered fs r u rest a o g x t) =
    let heads = take (suc (length fs)) (take max chain) in
    omega (
      arith,
      ap length t,
      length-ids heads,
      length-take (suc (length fs)) (take max chain),
      length-take max chain,
    )
walked-length max outs chain fin (refused fs e rest a o n x t) =
    let heads = take (suc (length fs)) (take max chain) in
    omega (
      arith,
      ap length t,
      length-ids heads,
      length-take (suc (length fs)) (take max chain),
      length-take max chain,
    )
walked-length max outs chain fin (exhausted fs a o x t) =
    omega (arith, ap length t, length-ids (take max chain), length-take max chain)

send_once-length :
    (try : Attempts) (chain : List Upstream) → length (send_once try chain).0.tried ≤ 1
unfolding send_once
send_once-length try [] = omega arith
send_once-length try (u ∷ us) = omega arith

limit_bounds :
    (chain : List Upstream) (max : ℕ)
    → (limit_of chain max ≤ length chain) × (limit_of chain max ≤ max)
unfolding limit_of
limit_bounds chain max = (omega arith, omega arith)

-- However a request is sent, it comes to a result, provided the events end the race; and it has
-- tried at most `max_attempt` upstreams, calls that hedge included.
pub send-bounded :
    {D : Type 0} (core : Core D) (w : World) (method : Text) (chain : List Upstream) (raced : Raced)
    → 0 < core.max_attempt
    → race chain core.max_attempt w.events ≡ returns raced
    → (fin : Finished) × (send core w method chain ≡ some fin)
      × (length fin.tried ≤ core.max_attempt)
unfolding send
send-bounded core w method chain raced positive ends = go core.dispatch refl
  where
    go :
        (d : Dispatch)
        → core.dispatch ≡ d
        → (fin : Finished) × (send core w method chain ≡ some fin)
          × (length fin.tried ≤ core.max_attempt)
    go sequential e =
        let walked = walk-Walked core.max_attempt core.retry_after w.try chain in
        (
          (walk core.max_attempt core.retry_after w.try chain).0,
          rw (e, send) refl,
          walked-length core.max_attempt _ chain _ walked,
        )
    go Dispatch.hedged e = elim (Bool-cases (is_write_method method)) [
      | inl y ↦ (
        (send_once w.try chain).0,
        rw (e, y, send) refl,
        omega (arith, send_once-length w.try chain),
      )
      | inr n ↦
          let raced_well =
            subst (IsTurn chain (limit_of chain core.max_attempt)) ends
              (race-IsTurn chain core.max_attempt w.events) in
          let (within, below) = limit_bounds chain core.max_attempt in
          let (fin, eq, far) =
            race_finished-total chain (limit_of chain core.max_attempt) raced within raced_well in
          (fin, (rw (e, n, ends, send) refl) ∙ eq, omega (arith, far, raced_well.bounded, below))
    ]
