-- ===== src/Upstream/Read.antt =====
-- `Upstream::call` of src/upstream/mod.rs: send, read the body under its cap, and classify. The
-- network is an argument: what `send` and each `chunk` give.
use mathlib.Core.List.{append-nil, append_assoc}
use native.Mathlib.Nat.{zero-add}
use rpc_plus_plus.Prelude.Results.{Result, ok, err, ◌>>=◌, ◌>>◌, guard, >>=-eq-ok}
use rpc_plus_plus.Prelude.Text.{Text, codes}
use rpc_plus_plus.Prelude.Decimal.{show_nat}
use rpc_plus_plus.Jsonrpc.Libs.{Libs}
use rpc_plus_plus.Jsonrpc.Fault.{rpc_fault_in}
use rpc_plus_plus.Upstream.Call.{
  StatusCode, status_ok, Duration, CallError, unreachable, read_failed, rpc_error, error_status,
  CallOutcome, CallResult,
}
use rpc_plus_plus.Upstream.Build.{Upstream}
use rpc_plus_plus.Prelude.{
  ℕ, ◌+◌, ◌≤◌, ◌≡◌, refl, sym, ap, subst, ◌∙◌, inl, inr, Bool, false, not, Option, none, some, [],
  ◌++◌, arith, ltb, ◌==◌, if◌then◌else◌, Bool-cases, length, length-append,
}

-- What the transport hands over: chunks of the body, then its end or an error (as a text that
-- `error_chain` made of it).
pub data Stream : Type 0 where
  done : Stream
  broken : Text → Stream
  chunk : Text → Stream → Stream

pub record Response : Type 0 where
  pub status : StatusCode
  pub content_length : Option ℕ
  pub body : Stream

-- One exchange: the outcome of `send`, and the time that the call took.
pub record Exchange : Type 0 where
  pub sent : Result Response Text
  pub elapsed : Duration

-- The closure `too_large`.
abbrev pub too_large : ℕ → StatusCode → CallError
too_large max http_status =
    read_failed http_status
      (codes "response exceeds max_response_bytes (" ++ show_nat max ++ codes ")")

-- The `while` loop over `res.chunk()`.
unfoldable pub read_body : StatusCode → ℕ → Text → Stream → Result Text CallError
read_body http_status max body done = ok body
read_body http_status max body (broken error) = err (read_failed http_status error)
read_body http_status max body (chunk c rest) =
    let more = read_body http_status max (body ++ c) rest in
    if ltb max (length body + length c) then err (too_large max http_status) else more

-- `res.content_length().is_some_and(|len| len > max)`.
unfoldable pub announces_more_than : ℕ → Option ℕ → Bool
announces_more_than max none = false
announces_more_than max (some len) = ltb max len

-- What follows the loop.
unfoldable pub classify : Libs → StatusCode → Text → Result CallOutcome CallError
classify libs http_status body =
    if not (http_status == status_ok)
    then err (error_status http_status)
    else elim (rpc_fault_in libs body) [
      | some fault ↦ err (rpc_error http_status fault.code fault.retryable body)
      | none ↦ ok (record { http_status = http_status; response_body = body })
    ]

unfoldable pub read_response : Libs → ℕ → Response → Result CallOutcome CallError
unfolding read_body announces_more_than classify
read_response libs max res = do
  guard (not (announces_more_than max res.content_length)) (too_large max res.status)
  body ← read_body res.status max [] res.body
  classify libs res.status body

unfoldable pub call_inner : Libs → Upstream → Result Response Text → Result CallOutcome CallError
unfolding read_response
call_inner libs upstream (err error) = err (unreachable error)
call_inner libs upstream (ok res) = read_response libs upstream.max_response_bytes res

unfoldable pub call : Libs → Upstream → Exchange → CallResult
unfolding call_inner
call libs upstream x = record { duration = x.elapsed; result = call_inner libs upstream x.sent }

-- A stream that ends, by all that it carries.
abbrev pub Carries : Stream → Text → Type 0
Carries done t = t ≡ []
Carries (broken e) t = ⊥
Carries (chunk c rest) t = (u : Text) × (t ≡ c ++ u) × Carries rest u

read_body-le :
    (s : StatusCode) (max : ℕ) (acc : Text) (r : Stream) (body : Text)
    → length acc ≤ max
    → read_body s max acc r ≡ ok body
    → (length body ≤ max) × (t : Text) × (body ≡ acc ++ t) × Carries r t
unfolding read_body
read_body-le s max acc done body h e = (ground arith, [], ground (arith, append-nil acc), refl)
read_body-le s max acc (broken m) body h e = cc
read_body-le s max acc (chunk c r) body h e = elim (Bool-cases (ltb max (length acc + length c))) [
  | inl big ↦
      cc (ap (λ b. if b then err (too_large max s) else read_body s max (acc ++ c) r) (sym big) ∙ e)
  | inr small ↦
      let e' : read_body s max (acc ++ c) r ≡ ok body =
        ap (λ b. if b then err (too_large max s) else read_body s max (acc ++ c) r) (sym small)
        ∙ e in
      let fits : length (acc ++ c) ≤ max = ground (arith, length-append acc c) in
      let (le, t, eq, carries) = read_body-le s max (acc ++ c) r body fits e' in
      (le, c ++ t, eq ∙ append_assoc acc c t, (t, refl, carries))
]

read_body-Carries_from :
    (s : StatusCode) (max : ℕ) (acc : Text) (r : Stream) (t : Text)
    → length acc ≤ max
    → Carries r t
    → read_body s max acc r
      ≡ (if ltb max (length acc + length t) then err (too_large max s) else ok (acc ++ t))
unfolding read_body
read_body-Carries_from s max acc done t h e = rw e (ground (arith, append-nil acc))
read_body-Carries_from s max acc (broken m) t h e = absurd e
read_body-Carries_from s max acc (chunk c r) t h (u, e, carries) =
    rw e (elim (Bool-cases (ltb max (length acc + length c))) [
      | inl big ↦ rw big (ground (arith, length-append c u))
      | inr small ↦ rw small (
          rw
            (read_body-Carries_from s max (acc ++ c) r u (ground (arith, length-append acc c))
              carries)
            (rw (append_assoc acc c u) (ground (arith, length-append c u, length-append acc c))))
    ])

-- A body that arrives whole is read whole if it fits the cap and refused as too large if it does
-- not, however it was cut into chunks.
pub read_body-Carries :
    (s : StatusCode) (max : ℕ) (r : Stream) (t : Text)
    → Carries r t
    → read_body s max [] r ≡ (if ltb max (length t) then err (too_large max s) else ok t)
read_body-Carries s max r t carries =
    rw (read_body-Carries_from s max [] r t (omega arith) carries) (rw zero-add)

classify-ok :
    (libs : Libs) (s : StatusCode) (body : Text) (o : CallOutcome)
    → classify libs s body ≡ ok o
    → (s ≡ status_ok)
      × (rpc_fault_in libs body ≡ none)
      × (o ≡ record { http_status = s; response_body = body })
unfolding classify
classify-ok libs s body o e = ground arith

-- A call succeeds only with status 200, with a body that is all that the stream carried, within
-- the cap, and without a JSON-RPC error in it.
pub call_inner-ok :
    (libs : Libs) (upstream : Upstream) (sent : Result Response Text) (o : CallOutcome)
    → call_inner libs upstream sent ≡ ok o
    → (res : Response) × (sent ≡ ok res)
      × (res.status ≡ 200)
      × (o.http_status ≡ 200)
      × Carries res.body o.response_body
      × (length o.response_body ≤ upstream.max_response_bytes)
      × (rpc_fault_in libs o.response_body ≡ none)
unfolding call_inner
call_inner-ok libs upstream (err m) o e = cc
call_inner-ok libs upstream (ok res) o e =
    let (_, _, e1) =
      >>=-eq-ok
        (guard (not (announces_more_than max res.content_length)) (too_large max res.status)) _ e in
    let (body, eb, ec) = >>=-eq-ok (read_body res.status max [] res.body) _ e1 in
    let (le, t, et, carries) = read_body-le res.status max [] res.body body (omega arith) eb in
    let (es, en, eo) = classify-ok libs res.status body o ec in
    let er : o.response_body ≡ body = ap (λ (x : CallOutcome). x.response_body) eo in
    (
      res,
      refl,
      es,
      ap (λ (x : CallOutcome). x.http_status) eo ∙ es,
      subst (Carries res.body) (sym (er ∙ et)) carries,
      rw er le,
      rw er en,
    )
  where
    max : ℕ
    max = upstream.max_response_bytes
