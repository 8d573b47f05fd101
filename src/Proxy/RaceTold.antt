-- ===== src/Proxy/RaceTold.antt =====
-- What a race has told the observer, as it goes on and once it returns (src/proxy/mod.rs,
-- src/proxy/hedge.rs).
use rpc_plus_plus.Upstream.Call.{CallError}
use rpc_plus_plus.Upstream.Build.{Upstream}
use rpc_plus_plus.Proxy.Hedge.{
  Cause, hedge, failover, Start, Raced, Race, Turn, goes_on, returns, panics, remove_at, launch,
  on_failure, on_timer,
}
use rpc_plus_plus.Proxy.HedgeLaws.{
  IsRace, Called, Called-fits, length-remove_at, All-remove_at, All-get_elem?,
}
use rpc_plus_plus.Proxy.Told.{Reports, told_end, told_drops, told_next}
use rpc_plus_plus.Proxy.Counts.{Counts, counts, plus, counts-append}
use rpc_plus_plus.Proxy.TurnTold.{
  Reported, IsAt, reports_only, caused, launched, counts-told_end, counts-told_drops, launch-told,
  told_next-still,
}
use rpc_plus_plus.Prelude.{
  ℕ, suc, ◌+◌, ◌-◌, ◌<◌, ◌≡◌, refl, inl, inr, some, List, [], ◌∷◌, ◌++◌, arith, ltb, tests,
  Bool-cases, length, get_elem?, All, length-append, get_elem?-some,
}

-- So far every call was reported or is in flight; the hedges are the race's, every other call but
-- the first is a failover. Once it has returned, every call that was polled has been reported.
abbrev pub Tally : Reports → Counts → Turn → Type 0
Tally rep n (goes_on r) =
    (n.reports + length r.inflight ≡ r.next)
    × (n.hedges ≡ r.hedge.started)
    × (n.failovers + n.hedges ≡ r.next - 1)
    × (n.wins ≡ 0)
    × (n.requests ≡ 0)
Tally rep n (returns x) =
    Reported rep n.reports x.started
    × (n.hedges ≡ x.hedge.started)
    × (n.failovers + n.hedges ≡ x.started - 1)
    × (n.wins ≡ 0)
    × (n.requests ≡ 0)
Tally rep n panics = ⊥

-- Calls in flight are of upstreams of the chain.
pub inflight-IsAt :
    (chain : List Upstream) (limit : ℕ) (r : Race)
    → IsRace chain limit r
    → All (IsAt chain) r.inflight
inflight-IsAt chain limit r p = go r.inflight p.flying
  where
    go : (ss : List Start) → All (Called r.called) ss → All (IsAt chain) ss
    go [] a = tt
    go (s ∷ ss) (c, a) =
        let (below, fits) = Called-fits chain r.called s p.numbered c in
        (
          get_elem?-some chain s.index (omega (arith, below, p.counted, p.bounded, p.within)),
          go ss a,
        )

module _ (chain : List Upstream) (limit : ℕ) (rep : Reports) (n : Counts) (r : Race)
    (p : IsRace chain limit r) (far : Tally rep n (goes_on r)) where
  -- A turn that changes neither calls nor hedges.
  pub still :
      (r' : Race)
      → r.called ≡ r'.called
      → r'.next ≡ r.next
      → r'.hedge.started ≡ r.hedge.started
      → (told : Counts) → n.reports + told.reports + length r'.inflight ≡ r.next
      → told.hedges ≡ 0
      → told.wins ≡ 0
      → told.failovers ≡ 0
      → told.requests ≡ 0
      → Tally rep (plus n told) (goes_on r')
  still r' c x h told a b d e g = omega arith

  -- The rest of a turn that returns: what is left in flight was abandoned.
  pub returned :
      (k : ℕ) (s : Start) (x : Raced)
      → get_elem? r.inflight k ≡ some s
      → x.started ≡ r.next
      → x.hedge.started ≡ r.hedge.started
      → Tally rep
          (plus n (counts (told_end chain rep s ++ told_drops chain rep (remove_at k r.inflight))))
          (returns x)
  returned k s x found e h =
      let at = inflight-IsAt chain limit r p in
      let one = counts-told_end chain rep s (All-get_elem? (IsAt chain) r.inflight k s at found) in
      let (m, rest, (few, exact)) =
        counts-told_drops chain rep (remove_at k r.inflight)
          (All-remove_at (IsAt chain) r.inflight k at) in
      let fewer = length-remove_at r.inflight k s found in
      rw
        (
          counts-append (told_end chain rep s) (told_drops chain rep (remove_at k r.inflight)),
          one,
          rest,
        )
        (
          (omega (arith, fewer), λ p. omega (arith, fewer, exact p)),
          omega arith,
          omega arith,
          omega arith,
          omega arith,
        )

  -- A turn that makes a call.
  made :
      (c : Cause) (r' : Race) (told : Counts)
      → r'.next ≡ r.next
      → 0 < r.next
      → r'.hedge.started ≡ r.hedge.started + (caused c).hedges
      → n.reports + told.reports + length r'.inflight ≡ r.next
      → told.hedges ≡ (caused c).hedges
      → told.failovers ≡ (caused c).failovers
      → (caused c).hedges + (caused c).failovers ≡ 1
      → told.wins ≡ 0
      → told.requests ≡ 0
      → Tally rep (plus n told) (goes_on (launched c r'))
  made c r' told x positive h a b d one e g =
      omega (arith, length-append r'.inflight (record { index = r'.next; cause = c } ∷ []))

  pub timer-Tally :
      (u : Upstream)
      → r.next < limit
      → Tally rep
          (plus n (counts (told_next chain rep r.inflight r (on_timer chain u r))))
          (on_timer chain u r)
  unfolding on_timer
  timer-Tally u room =
      let r' : Race = record r {
        hedge = record { started = suc r.hedge.started; won = r.hedge.won };
      } in
      let (goes, told) =
        launch-told chain rep r.inflight r r' (hedge u) refl (omega (arith, p.within)) in
      rw (told, goes)
        (made (hedge u) r' (caused (hedge u)) refl (omega (arith, p.begun (omega arith)))
          (omega arith) (omega arith) refl refl refl refl refl)

  pub failure-Tally :
      (k : ℕ) (s : Start) (e : CallError)
      → get_elem? r.inflight k ≡ some s
      → let r' = record r { inflight = remove_at k r.inflight } in
        let t = on_failure chain limit s e r' in
        Tally rep
          (plus n
            (counts (told_end chain rep s ++ told_next chain rep (remove_at k r.inflight) r t)))
          t
  unfolding on_failure
  failure-Tally k s e found =
      let at = inflight-IsAt chain limit r p in
      let (from, there) = All-get_elem? (IsAt chain) r.inflight k s at found in
      let one = counts-told_end chain rep s (from, there) in
      let r' : Race = record r { inflight = remove_at k r.inflight; last_failure = some e } in
      let fewer = length-remove_at r.inflight k s found in
      elim (Bool-cases (ltb r.next limit)) [
        | inl room ↦
            let (goes, told) =
              launch-told chain rep (remove_at k r.inflight) r r' (failover from) refl
                (omega (tests, room, p.within)) in
            rw
              (
                room,
                there,
                on_failure,
                counts-append (told_end chain rep s) (
                    told_next chain rep (remove_at k r.inflight) r
                      (launch chain (failover from) r')),
                one,
                told,
                goes,
              )
              (made (failover from) r' (plus (reports_only 1) (caused (failover from))) refl
                (omega (tests, room, p.begun)) (omega arith) (omega (arith, fewer)) refl refl refl
                refl refl)
        | inr full ↦
            let quiet = told_next-still chain rep (remove_at k r.inflight) r r' refl in
            rw
              (
                full,
                on_failure,
                counts-append (told_end chain rep s)
                    (told_next chain rep (remove_at k r.inflight) r (goes_on r')),
                one,
                quiet,
              )
              (still r' refl refl refl (plus (reports_only 1) (reports_only 0))
                (omega (arith, fewer)) refl refl refl refl)
      ]
