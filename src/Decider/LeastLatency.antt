-- ===== src/Decider/LeastLatency.antt =====
-- `decide` of src/decider/least_latency/mod.rs: the fastest upstream leads, except that every
-- twentieth request probes one of the others in turn.
use mathlib.Core.List.{Perm}
use mathlib.Core.List.Perm
use native.Mathlib.Nat.{mod-lt}
use rpc_plus_plus.Prelude.Words.{u64, ◌+u64◌}
use rpc_plus_plus.Upstream.Build.{Upstream}
use rpc_plus_plus.Decider.Contract.{Decider, IsDecider, always_ready}
use rpc_plus_plus.Prelude.{
  ℕ, zero, suc, ◌+◌, ◌-◌, ◌*◌, ◌/◌, ◌%◌, ◌<◌, ◌≡◌, refl, inl, inr, Bool, not, ◌||◌, Option, none,
  some, List, [], ◌∷◌, ◌++◌, arith, ◌==◌, if◌then◌else◌, Bool-cases, length, get_elem?, take, drop,
  get_elem?-some,
}

abbrev pub probe_every : ℕ
probe_every = 20

pub record LeastLatency : Type 0 where
  pub ranking : List Upstream
  pub requests : ℕ

-- `is_multiple_of`.
abbrev pub is_multiple_of : ℕ → ℕ → Bool
is_multiple_of n k = n % k == 0

-- `once(&us[i]).chain(&us[..i]).chain(&us[i + 1..])`; an index out of range panics.
unfoldable pub moved_first : ℕ → List Upstream → Option (List Upstream)
moved_first i us = elim (get_elem? us i) [
  | none ↦ none
  | some u ↦ some (u ∷ (take i us ++ drop (suc i) us))
]

unfoldable pub order_of : ℕ → List Upstream → Option (List Upstream)
unfolding moved_first
order_of request us =
    let challengers = length us - 1 in
    if (challengers == 0) || not (is_multiple_of request probe_every)
    then some us
    else moved_first (request / probe_every % challengers + 1) us

unfoldable pub decide : LeastLatency → ℕ → Option (List Upstream × LeastLatency)
unfolding order_of
decide d max = elim (order_of d.requests d.ranking) [
  | none ↦ none
  | some order ↦ some (take max order, record d { requests = d.requests +u64 1 })
]

abbrev pub least_latency : Decider
unfolding decide
least_latency = record {
  State = LeastLatency;
  decide = decide;
  upstream_len = λ d. length d.ranking;
  ready = always_ready;
}

split_at :
    (us : List Upstream) (i : ℕ) (u : Upstream)
    → get_elem? us i ≡ some u
    → Perm (u ∷ (take i us ++ drop (suc i) us)) us
split_at [] i u e = cc
split_at (v ∷ us) zero u e = Perm.cons' (ground arith) Perm.rfl
split_at (v ∷ us) (suc i) u e = Perm.trans (Perm.swap v u _) (Perm.cons v (split_at us i u e))

-- Which upstream leads at a request: the fastest, or at a probe the challenger whose turn it is.
abbrev pub leader : ℕ → ℕ → ℕ
leader request n =
    if (n - 1 == 0) || not (is_multiple_of request probe_every)
    then 0
    else request / probe_every % (n - 1) + 1

leader-lt : (request n : ℕ) → 0 < n → leader request n < n
leader-lt request n h =
    elim (Bool-cases ((n - 1 == 0) || not (is_multiple_of request probe_every))) [
      | inl e ↦ rw e h
      | inr e ↦ rw e (grind (arith, mod-lt))
    ]

moved_first-some :
    (i : ℕ) (us : List Upstream)
    → i < length us
    → (u : Upstream) × (get_elem? us i ≡ some u)
      × (moved_first i us ≡ some (u ∷ (take i us ++ drop (suc i) us)))
unfolding moved_first
moved_first-some i us h = let (u, e) = get_elem?-some us i h in (u, e, rw (e, moved_first))

order_of-leader :
    (request : ℕ) (us : List Upstream)
    → 0 < length us
    → let i = leader request (length us) in
      (u : Upstream) × (get_elem? us i ≡ some u)
      × (order_of request us ≡ some (u ∷ (take i us ++ drop (suc i) us)))
unfolding order_of
order_of-leader request [] h = elim h [ ]
order_of-leader request (v ∷ us) h =
    elim (Bool-cases ((length (v ∷ us) - 1 == 0) || not (is_multiple_of request probe_every))) [
      | inl e ↦ rw e (v, refl, refl)
      | inr e ↦ rw e (moved_first-some _ (v ∷ us) (rw e at (leader-lt request (length (v ∷ us)) h)))
    ]

pub order_of-perm :
    (request : ℕ) (us : List Upstream)
    → (order : List Upstream) × (order_of request us ≡ some order) × Perm order us
order_of-perm request [] = ([], unfold order_of in refl, Perm.refl [])
order_of-perm request (v ∷ us) =
    let (u, at, e) = order_of-leader request (v ∷ us) (omega arith) in
    (_, e, split_at (v ∷ us) _ u at)

-- No decision panics, and each keeps the contract: the chain is the head of an arrangement of the
-- ranking, and the ranking stays as it is.
pub least_latency-IsDecider : IsDecider least_latency
unfolding decide
least_latency-IsDecider = record {
  pool = λ d. d.ranking;
  decides = λ d max.
      let (order, e, p) = order_of-perm d.requests d.ranking in
      (
        take max order,
        record d { requests = d.requests +u64 1 },
        rw (e, decide),
        (order, p, refl),
        Perm.refl _,
      );
  counts = λ d. refl;
}

-- With room for one upstream or more, the fastest upstream leads every request but each twentieth;
-- at the probe number `q` the challengers take turns, and behind the leader the others keep their
-- order. The ranking must not be empty.
pub decide-leader :
    (d : LeastLatency) (max : ℕ)
    → 0 < length d.ranking
    → let i = leader d.requests (length d.ranking) in
      (u : Upstream) × (d' : LeastLatency) × (get_elem? d.ranking i ≡ some u)
      × (decide d (suc max) ≡ some (u ∷ take max (take i d.ranking ++ drop (suc i) d.ranking), d'))
      × (d'.requests ≡ u64 (d.requests + 1))
      × (d'.ranking ≡ d.ranking)
unfolding decide
decide-leader d max h =
    let (u, at, e) = order_of-leader d.requests d.ranking h in
    (u, record d { requests = d.requests +u64 1 }, at, rw (e, decide), refl, refl)

-- The probe number `q` is led by the challenger of rank `q % (n - 1) + 1`, so that the `n - 1`
-- challengers lead in turn; the nineteen requests behind a probe are led by rank 0.
pub leader_turns :
    (n q : ℕ)
    → 1 < n
    → (leader (q * 20) n ≡ q % (n - 1) + 1) × ((r : ℕ) → 0 < r → r < 20 → leader (q * 20 + r) n ≡ 0)
leader_turns n q h = (ground arith, λ r lo hi. ground arith)
