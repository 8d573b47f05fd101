-- ===== src/Decider/RoundRobin.antt =====
-- src/decider/round_robin.rs: each upstream leads in turn.
use mathlib.Core.List.{Perm, perm_append_comm}
use mathlib.Core.List.Perm
use rpc_plus_plus.Prelude.Results.{Result, ok, err}
use native.Mathlib.Nat.{mod-lt}
use rpc_plus_plus.Prelude.Words.{◌+u64◌, u64_mod}
use rpc_plus_plus.Upstream.Build.{Upstream}
use rpc_plus_plus.Decider.Contract.{Decider, IsDecider, IsChain, always_ready}
use rpc_plus_plus.Prelude.{
  ℕ, zero, suc, ◌+◌, ◌%◌, ◌<◌, ◌≡◌, refl, sym, ap, subst, ◌∙◌, inl, inr, true, ◌||◌, some, List, [],
  ◌∷◌, ◌++◌, arith, ◌==◌, if◌then◌else◌, Bool-cases, length, get_elem?, take, drop, is_empty,
  get_elem?-take, take-append-drop,
}

pub record RoundRobin : Type 0 where
  pub upstreams : List Upstream
  pub next : ℕ

pub data BuildError : Type 0 where
  empty_upstreams : BuildError

unfoldable pub new : List Upstream → Result RoundRobin BuildError
new upstreams =
    if is_empty upstreams
    then err empty_upstreams
    else ok (record { upstreams = upstreams; next = 0 })

-- `split_at(start)`, then the tail before the head.
unfoldable pub rotate : ℕ → List Upstream → List Upstream
rotate start us = drop start us ++ take start us

unfoldable pub decide : RoundRobin → ℕ → List Upstream × RoundRobin
unfolding rotate
decide d max = if is_empty d.upstreams || (max == 0) then ([], d) else (
  take max (rotate (d.next % length d.upstreams) d.upstreams),
  record d { next = d.next +u64 1 },
)

abbrev pub round_robin : Decider
unfolding decide
round_robin = record {
  State = RoundRobin;
  decide = λ d max. some (decide d max);
  upstream_len = λ d. length d.upstreams;
  ready = always_ready;
}

rotate-perm : (start : ℕ) (us : List Upstream) → Perm (rotate start us) us
unfolding rotate
rotate-perm start us =
    subst (Perm (drop start us ++ take start us)) (take-append-drop start us)
      (perm_append_comm (drop start us) (take start us))

take_nothing :
    (max : ℕ) (us : List Upstream) → (is_empty us || (max == 0)) ≡ true → take max us ≡ []
take_nothing zero us h = refl
take_nothing (suc max) [] h = refl
take_nothing (suc max) (u ∷ us) h = absurd (ground arith)

pub decide-IsChain : (d : RoundRobin) (max : ℕ) → IsChain max d.upstreams (decide d max).0
unfolding decide
decide-IsChain d max = elim (Bool-cases (is_empty d.upstreams || (max == 0))) [
  | inl e ↦ rw e (d.upstreams, Perm.refl _, sym (take_nothing max d.upstreams e))
  | inr e ↦ rw e (rotate (d.next % length d.upstreams) d.upstreams, rotate-perm _ d.upstreams, refl)
]

pub decide-upstreams : (d : RoundRobin) (max : ℕ) → (decide d max).1.upstreams ≡ d.upstreams
unfolding decide
decide-upstreams d max = ground arith

-- Round robin keeps the contract: every decision is the head of an arrangement of its upstreams,
-- and the upstreams stay as they are.
pub round_robin-IsDecider : IsDecider round_robin
unfolding decide
round_robin-IsDecider = record {
  pool = λ d. d.upstreams;
  decides = λ d max. (
    (decide d max).0,
    (decide d max).1,
    refl,
    decide-IsChain d max,
    rw (decide-upstreams d max) (Perm.refl _),
  );
  counts = λ d. refl;
}

-- The decider after `k` decisions.
unfoldable pub after : ℕ → ℕ → RoundRobin → RoundRobin
after zero max d = d
after (suc k) max d = after k max (decide d max).1

get_elem?-drop :
    (start : ℕ) (us vs : List Upstream)
    → start < length us
    → get_elem? (drop start us ++ vs) 0 ≡ get_elem? us start
get_elem?-drop start [] vs h = elim h [ ]
get_elem?-drop zero (u ∷ us) vs h = refl
get_elem?-drop (suc start) (u ∷ us) vs h = get_elem?-drop start us vs (omega arith)

get_elem?-rotate :
    (start : ℕ) (us : List Upstream)
    → start < length us
    → get_elem? (rotate start us) 0 ≡ get_elem? us start
unfolding rotate
get_elem?-rotate start us h = get_elem?-drop start us (take start us) h

decide-next :
    (d : RoundRobin) (max : ℕ)
    → 0 < length d.upstreams
    → decide d (suc max) ≡ (
      take (suc max) (rotate (d.next % length d.upstreams) d.upstreams),
      record d { next = d.next +u64 1 },
    )
unfolding decide
decide-next d max h = ground arith

-- The upstreams lead in turn: after `k` decisions, each with room for one upstream or more, the
-- next chain starts with the upstream at `(next + k) % n`. The counter must not wrap on the way.
pub decide-turn :
    (k max : ℕ) (d : RoundRobin)
    → 0 < length d.upstreams
    → d.next + k < u64_mod
    → get_elem? (decide (after k (suc max) d) (suc max)).0 0
      ≡ get_elem? d.upstreams ((d.next + k) % length d.upstreams)
unfolding after
decide-turn zero max d h b = rw (decide-next d max h) (
    get_elem?-take (suc max) _ 0 (omega arith)
    ∙ get_elem?-rotate (d.next % length d.upstreams) d.upstreams (mod-lt d.next h)
    ∙ ap (λ i. get_elem? d.upstreams (i % length d.upstreams)) (omega arith))
decide-turn (suc k) max d h b =
    let moved : (decide d (suc max)).1 ≡ record d { next = d.next + 1 } =
      rw (decide-next d max h) (ground arith) in
    rw moved (
      decide-turn k max (record d { next = d.next + 1 }) h (omega arith)
      ∙ ap (λ i. get_elem? d.upstreams (i % length d.upstreams)) (omega arith))
