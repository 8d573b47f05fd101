-- ===== src/Proxy/TurnTold.antt =====
-- One turn of a race tells the observer what it does (src/proxy/mod.rs, src/proxy/hedge.rs).
use rpc_plus_plus.Upstream.Call.{Duration}
use rpc_plus_plus.Upstream.Build.{Upstream}
use rpc_plus_plus.Observer.Metrics.{Observed, attempted, abandoned}
use rpc_plus_plus.Proxy.Hedge.{Cause, first, hedge, failover, Start, Race, goes_on, launch}
use rpc_plus_plus.Proxy.Pipeline.{told_start}
use rpc_plus_plus.Proxy.Told.{
  Reports, of_call, told_launch, told_end, told_drop, told_drops, newly, told_launches, told_next,
}
use rpc_plus_plus.Proxy.Counts.{Counts, counts, plus, counts-append}
use rpc_plus_plus.Prelude.{
  ◌≤◌, ◌+◌, Option-cases, inl, inr, ℕ, suc, ◌-◌, ◌<◌, ◌≡◌, refl, ap, ◌∙◌, some, List, [], ◌∷◌, ◌++◌,
  arith, length, get_elem?, take, All, get_elem?-some,
}

-- The call is of an upstream of the chain.
abbrev pub IsAt : List Upstream → Start → Type 0
IsAt chain s = (u : Upstream) × (get_elem? chain s.index ≡ some u)

abbrev pub reports_only : ℕ → Counts
reports_only n = record { reports = n; hedges = 0; wins = 0; failovers = 0; requests = 0 }

of_call-at :
    (chain : List Upstream) (s : Start) (tell : Upstream → List Observed) (u : Upstream)
    → get_elem? chain s.index ≡ some u
    → of_call chain s tell ≡ tell u
of_call-at chain s tell u at = rw (at, of_call) refl

pub counts-told_end :
    (chain : List Upstream) (rep : Reports) (s : Start)
    → IsAt chain s
    → counts (told_end chain rep s) ≡ reports_only 1
unfolding told_end
counts-told_end chain rep s (u, at) =
    ap counts (of_call-at chain s (λ v. attempted v.id (rep.finished s) ∷ []) u at)
    ∙ unfold counts in refl

-- Every call was polled before it could be dropped.
abbrev pub AllPolled : Reports → Type 0
AllPolled rep = (s : Start) → (d : Duration) × (rep.ran s ≡ some d)

-- At most one report for each of `n` calls, and exactly one if all of them were polled.
abbrev pub Reported : Reports → ℕ → ℕ → Type 0
Reported rep m n = (m ≤ n) × (AllPolled rep → m ≡ n)

counts-told_drop :
    (chain : List Upstream) (rep : Reports) (s : Start)
    → IsAt chain s
    → (m : ℕ) × (counts (told_drop chain rep s) ≡ reports_only m) × Reported rep m 1
unfolding told_drop
counts-told_drop chain rep s (u, at) = elim (Option-cases (rep.ran s)) [
  | inl unpolled ↦ (
    0,
    rw (unpolled, told_drop) (unfold counts in refl),
    (omega arith, λ polled. let (d, e) = polled s in absurd (ground arith)),
  )
  | inr (d, polled) ↦ (
    1,
    rw (polled, told_drop)
        (ap counts (of_call-at chain s (λ v. abandoned v.id d ∷ []) u at) ∙ unfold counts in refl),
    (omega arith, λ p. refl),
  )
]

pub counts-told_drops :
    (chain : List Upstream) (rep : Reports) (ss : List Start)
    → All (IsAt chain) ss
    → (m : ℕ) × (counts (told_drops chain rep ss) ≡ reports_only m) × Reported rep m (length ss)
unfolding told_drops
counts-told_drops chain rep [] a = (0, unfold counts in refl, (omega arith, λ p. refl))
counts-told_drops chain rep (s ∷ ss) (at, a) =
    let (m, one, (few, exact)) = counts-told_drop chain rep s at in
    let (n, rest, (few_more, all_exact)) = counts-told_drops chain rep ss a in
    (
      m + n,
      counts-append (told_drop chain rep s) (told_drops chain rep ss) ∙ rw (one, rest) refl,
      (omega arith, λ p. omega (arith, exact p, all_exact p)),
    )

-- How a cause counts.
abbrev pub caused : Cause → Counts
caused first = reports_only 0
caused (hedge u) = record { reports = 0; hedges = 1; wins = 0; failovers = 0; requests = 0 }
caused (failover u) = record { reports = 0; hedges = 0; wins = 0; failovers = 1; requests = 0 }

counts-told_start :
    (u : Upstream) (i : ℕ) (c : Cause)
    → counts (told_start u (record { index = i; cause = c })) ≡ caused c
unfolding told_start counts
counts-told_start u i first = refl
counts-told_start u i (hedge o) = refl
counts-told_start u i (failover from) = refl

plus-nothing : (n : Counts) → plus n (counts []) ≡ n
unfolding counts
plus-nothing n = ground arith

-- A call that is made tells its cause.
abbrev pub launched : Cause → Race → Race
launched c r =
    let start : Start = record { index = r.next; cause = c } in
    record r { inflight = r.inflight ++ (start ∷ []); called = start ∷ r.called; next = suc r.next }

pub launch-told :
    (chain : List Upstream) (rep : Reports) (inflight : List Start) (before r : Race) (c : Cause)
    → before.called ≡ r.called
    → r.next < length chain
    → (launch chain c r ≡ goes_on (launched c r))
      × (counts (told_next chain rep inflight before (launch chain c r)) ≡ caused c)
unfolding launch
launch-told chain rep inflight before r c same below =
    let (u, at) = get_elem?-some chain r.next below in
    let made : launch chain c r ≡ goes_on (launched c r) = rw (at, launch) refl in
    let start : Start = record { index = r.next; cause = c } in
    let one : newly before (launched c r) ≡ start ∷ [] =
      let n : suc (length r.called) - length before.called ≡ 1 = omega (arith, ap length same) in
      ap (λ k. take k (start ∷ r.called)) n in
    let told : told_launches chain (start ∷ []) ≡ told_start u start ++ [] =
      unfold told_launches told_launch in
      ap (λ es. es ++ []) (of_call-at chain start (λ v. told_start v start) u at) in
    let counted : counts (told_launches chain (start ∷ [])) ≡ caused c =
      ap counts told
      ∙ (counts-append (told_start u start) []
          ∙ (ap (λ n. plus n (counts [])) (counts-told_start u r.next c)
              ∙ plus-nothing (caused c))) in
    (
      made,
      ap (λ t. counts (told_next chain rep inflight before t)) made
          ∙ unfold told_next in (ap (λ ss. counts (told_launches chain ss)) one ∙ counted),
    )

-- A turn that makes no call tells nothing of one.
pub told_next-still :
    (chain : List Upstream) (rep : Reports) (inflight : List Start) (before r : Race)
    → before.called ≡ r.called
    → counts (told_next chain rep inflight before (goes_on r)) ≡ reports_only 0
unfolding told_next
told_next-still chain rep inflight before r same =
    let n : length r.called - length before.called ≡ 0 = omega (arith, ap length same) in
    ap (λ k. counts (told_launches chain (take k r.called))) n ∙ unfold told_launches counts in refl
