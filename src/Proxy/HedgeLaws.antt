-- ===== src/Proxy/HedgeLaws.antt =====
-- The invariant of the race of src/proxy/hedge.rs, and what it returns.
use rpc_plus_plus.Prelude.Options.{get_or}
use rpc_plus_plus.Prelude.Results.{Result, ok, err}
use rpc_plus_plus.Upstream.Call.{CallError, is_retryable}
use rpc_plus_plus.Upstream.Build.{Upstream}
use rpc_plus_plus.Proxy.Reply.{Failure, call, no_upstream}
use rpc_plus_plus.Proxy.Hedge.{
  Cause, first, hedge, failover, Start, Won, Raced, Race, Turn, goes_on, returns, panics, hedge_bit,
  remove_at,
}
use rpc_plus_plus.Prelude.{
  ℕ, zero, suc, ◌+◌, ◌-◌, ◌≤◌, ◌<◌, ◌≡◌, refl, ap, subst, true, Option, none, some, List, [], ◌∷◌,
  arith, length, get_elem?, All,
}

-- A hedge overtakes the upstream started right before it; a failover comes from an earlier one.
abbrev pub CauseFits : List Upstream → ℕ → Cause → Type 0
CauseFits chain i first = i ≡ 0
CauseFits chain i (hedge u) = (j : ℕ) × (i ≡ suc j) × (get_elem? chain j ≡ some u)
CauseFits chain i (failover u) = (j : ℕ) × (j < i) × (get_elem? chain j ≡ some u)

-- The calls made so far, the newest first, are those of the indices below their number.
abbrev pub Numbered : List Upstream → List Start → Type 0
Numbered chain [] = Unit
Numbered chain (s ∷ ss) =
    (s.index ≡ length ss) × CauseFits chain s.index s.cause × Numbered chain ss

abbrev pub Called : List Start → Start → Type 0
Called ss s = (k : ℕ) × (get_elem? ss k ≡ some s)

abbrev pub hedges_in : List Start → ℕ
hedges_in [] = 0
hedges_in (s ∷ ss) = hedge_bit s.cause + hedges_in ss

abbrev pub IsTransient : Option CallError → Type 0
IsTransient none = Unit
IsTransient (some e) = is_retryable e ≡ true

pub record IsRace (chain : List Upstream) (limit : ℕ) (r : Race) : Type 0 where
  pub bounded : r.next ≤ limit
  pub within : limit ≤ length chain
  pub begun : 0 < limit → 0 < r.next
  pub counted : length r.called ≡ r.next
  pub numbered : Numbered chain r.called
  pub hedged : hedges_in r.called ≡ r.hedge.started
  pub unwon : r.hedge.won ≡ 0
  pub flying : All (Called r.called) r.inflight
  pub busy : r.next < limit → 0 < length r.inflight
  pub failed : r.last_failure ≡ none → length r.inflight ≡ r.next
  pub transient : IsTransient r.last_failure

-- What a result says: the winner is a call that was started, and counts as a hedge won exactly if
-- the timer started it; a retryable failure ends the race only after `limit` calls; there is no
-- upstream only if no call was allowed.
abbrev pub Concludes : List Upstream → ℕ → Raced → Result Won Failure → Type 0
Concludes chain limit x (ok w) =
    (w.index < x.started) × CauseFits chain w.index w.cause × (x.hedge.won ≡ hedge_bit w.cause)
Concludes chain limit x (err no_upstream) = (limit ≡ 0) × (x.started ≡ 0) × (x.hedge.won ≡ 0)
Concludes chain limit x (err (call e)) =
    (x.hedge.won ≡ 0) × (is_retryable e ≡ true → x.started ≡ limit)

pub record IsRaced (chain : List Upstream) (limit : ℕ) (x : Raced) : Type 0 where
  pub bounded : x.started ≤ limit
  pub hedged : x.hedge.started ≤ x.started - 1
  pub concludes : Concludes chain limit x x.result

abbrev pub IsTurn : List Upstream → ℕ → Turn → Type 0
IsTurn chain limit (goes_on r) = IsRace chain limit r
IsTurn chain limit (returns x) = IsRaced chain limit x
IsTurn chain limit panics = ⊥

pub length-remove_at {ℓ} :
    {A : Type ℓ} (xs : List A) (k : ℕ) (x : A)
    → get_elem? xs k ≡ some x
    → suc (length (remove_at k xs)) ≡ length xs
unfolding remove_at
length-remove_at [] k x h = ground arith
length-remove_at (y ∷ xs) zero x h = refl
length-remove_at (y ∷ xs) (suc k) x h = ap suc (length-remove_at xs k x h)

pub All-remove_at {ℓ κ} :
    {A : Type ℓ} (P : A → Type κ) (xs : List A) (k : ℕ) → All P xs → All P (remove_at k xs)
unfolding remove_at
All-remove_at P [] k a = tt
All-remove_at P (y ∷ xs) zero (p, a) = a
All-remove_at P (y ∷ xs) (suc k) (p, a) = (p, All-remove_at P xs k a)

pub All-get_elem? {ℓ κ} :
    {A : Type ℓ} (P : A → Type κ) (xs : List A) (k : ℕ) (x : A)
    → All P xs
    → get_elem? xs k ≡ some x
    → P x
All-get_elem? P [] k x a h = ground arith
All-get_elem? P (y ∷ xs) zero x (p, a) h = subst P (ap (λ o. get_or o y) h) p
All-get_elem? P (y ∷ xs) (suc k) x (p, a) h = All-get_elem? P xs k x a h

pub All-Called-cons :
    (s : Start) (ss xs : List Start) → All (Called ss) xs → All (Called (s ∷ ss)) xs
All-Called-cons s ss [] a = tt
All-Called-cons s ss (x ∷ xs) ((k, h), a) = ((suc k, h), All-Called-cons s ss xs a)

-- A call that was made is of an index below the number of calls, and its cause fits.
pub Called-fits :
    (chain : List Upstream) (ss : List Start) (s : Start)
    → Numbered chain ss
    → Called ss s
    → (s.index < length ss) × CauseFits chain s.index s.cause
Called-fits chain [] s n (k, h) = ground arith
Called-fits chain (x ∷ ss) s (i, c, n) (zero, h) =
    subst (λ y. (y.index < length (x ∷ ss)) × CauseFits chain y.index y.cause)
      (ap (λ o. get_or o x) h) (omega arith, c)
Called-fits chain (x ∷ ss) s (i, c, n) (suc k, h) =
    let (below, fits) = Called-fits chain ss s n (k, h) in (omega arith, fits)

hedge_bit-le : (c : Cause) → hedge_bit c ≤ 1
hedge_bit-le first = omega arith
hedge_bit-le (hedge u) = omega arith
hedge_bit-le (failover u) = omega arith

oldest_bit :
    (chain : List Upstream) (i : ℕ) (c : Cause) → i ≡ 0 → CauseFits chain i c → hedge_bit c ≡ 0
oldest_bit chain i first h f = refl
oldest_bit chain i (hedge u) h (j, e, g) = omega arith
oldest_bit chain i (failover u) h f = refl

-- The first call is no hedge.
pub hedges_in-bound :
    (chain : List Upstream) (ss : List Start) → Numbered chain ss → hedges_in ss ≤ length ss - 1
hedges_in-bound chain [] n = omega arith
hedges_in-bound chain (s ∷ []) (i, c, n) = omega (arith, oldest_bit chain s.index s.cause i c)
hedges_in-bound chain (s ∷ t ∷ ss) (i, c, n) =
    omega (arith, hedges_in-bound chain (t ∷ ss) n, hedge_bit-le s.cause)
