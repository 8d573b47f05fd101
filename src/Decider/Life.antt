-- ===== src/Decider/Life.antt =====
-- What a ranking decider and its task (src/decider/least_latency, src/decider/prefer_least_errors) do
-- together, in whatever order decisions, refreshes and observed calls come.
use mathlib.Core.List.{Perm, append_assoc, append-nil}
use mathlib.Core.List.Perm
use rpc_plus_plus.Prelude.Options.{◌>>=◌}
use rpc_plus_plus.Upstream.Build.{Upstream}
use rpc_plus_plus.Observer.Metrics.{MetricsObserver, Observed, observe, observe_all, snapshot_map}
use rpc_plus_plus.Decider.Contract.{IsChain}
use rpc_plus_plus.Decider.Window.{
  Window, Snapshots, advance, oldest, Holds, advance-Holds, Fits, HasSpans, Holds-spans, kept,
  kept_lem, get_elem?-drop,
}
use rpc_plus_plus.Decider.Task.{
  Refreshing, Moment, tells, decides, ticks, cancels, Live, on_tick, moment, live,
}
use rpc_plus_plus.Prelude.{
  ℕ, ◌-◌, ◌≡◌, refl, sym, ap, subst, ◌∙◌, inl, inr, Bool, true, false, some, List, [], ◌∷◌, ◌++◌,
  arith, if◌then◌else◌, Bool-cases, length, get_elem?, get_elem?-some,
}

-- What a refreshing decider must keep: decisions are chains of the ranking and only reorder it, a
-- ranking that is stored is there, and a refresh over a window that is not empty reorders the ranking
-- and moves the window on.
pub record IsRefreshing (k : Refreshing) : Type 0 where
  pub decided :
      (d : k.State) (max : ℕ)
      → (chain : List Upstream) × (d' : k.State) × (k.decide d max ≡ some (chain, d'))
        × IsChain max (k.ranking d) chain
        × Perm (k.ranking d') (k.ranking d)
  pub stored : (us : List Upstream) (d : k.State) → k.ranking (k.store us d) ≡ us
  pub refreshed :
      (r : k.Refresher) (current baseline : Snapshots) (us : List Upstream)
      → oldest (k.window r) ≡ some baseline
      → HasSpans (k.window r)
      → (us' : List Upstream) × (r' : k.Refresher) × (k.refresh r current us ≡ some (us', r'))
        × Perm us' us
        × (k.window r' ≡ advance current (k.window r))

-- The observer's calls among the moments.
abbrev pub told_in : List Moment → List Observed
told_in [] = []
told_in (tells e ∷ ms) = e ∷ told_in ms
told_in (decides n ∷ ms) = told_in ms
told_in (ticks ∷ ms) = told_in ms
told_in (cancels ∷ ms) = told_in ms

-- The snapshots that the refreshes take: what the observer holds at each tick before the shutdown.
abbrev pub taken_in : Bool → MetricsObserver → List Moment → List Snapshots
taken_in running o [] = []
taken_in running o (tells e ∷ ms) = taken_in running (observe o e) ms
taken_in running o (decides n ∷ ms) = taken_in running o ms
taken_in running o (ticks ∷ ms) =
    (if running then snapshot_map o ∷ [] else []) ++ taken_in running o ms
taken_in running o (cancels ∷ ms) = taken_in false o ms

-- One chain of the pool for each decision, in their order.
abbrev pub AreChains : List Upstream → List Moment → List (List Upstream) → Type 0
AreChains us [] [] = Unit {0}
AreChains us [] (c ∷ cs) = ⊥
AreChains us (tells e ∷ ms) cs = AreChains us ms cs
AreChains us (ticks ∷ ms) cs = AreChains us ms cs
AreChains us (cancels ∷ ms) cs = AreChains us ms cs
AreChains us (decides n ∷ ms) [] = ⊥
AreChains us (decides n ∷ ms) (c ∷ cs) = IsChain n us c × AreChains us ms cs

IsChain-perm :
    (max : ℕ) (us vs chain : List Upstream)
    → IsChain max us chain
    → Perm us vs
    → IsChain max vs chain
IsChain-perm max us vs chain (order, p, e) q = (order, Perm.trans p q, e)

advance-Fits : (c : Snapshots) (w : Window) → Fits w → Fits (advance c w)
unfolding advance
advance-Fits c w h = h

oldest-Holds :
    (w : Window) (history : List Snapshots)
    → Holds w history
    → (s : Snapshots) × (oldest w ≡ some s)
unfolding oldest
oldest-Holds w history (pos, e) =
    let (s, at) =
      get_elem?-some history (length history - kept w.ticks) (omega (arith, kept_lem w.ticks)) in
    (s, ap (λ l. get_elem? l 0) e ∙ (get_elem?-drop _ history ∙ at))

module _ (k : Refreshing) where
  then_live :
      (m : Moment) (ms : List Moment) (l l' l'' : Live k) (cs chains : List (List Upstream))
      → moment k m l ≡ some (cs, l')
      → live k ms l' ≡ some (chains, l'')
      → live k (m ∷ ms) l ≡ some (cs ++ chains, l'')
  unfolding live
  then_live m ms l l' l'' cs chains here later = rw (here, later, live) refl

  moment-running :
      (l : Live k) (us : List Upstream) (r : k.Refresher)
      → l.is_running ≡ true
      → k.refresh l.refresher (snapshot_map l.observer) (k.ranking l.decider) ≡ some (us, r)
      → moment k ticks l ≡ some ([], record l { decider = k.store us l.decider; refresher = r })
  unfolding moment on_tick
  moment-running l us r on e = rw (e, moment) (rw on refl)

  taken-running :
      (running : Bool) (o : MetricsObserver) (ms : List Moment) (history : List Snapshots)
      → running ≡ true
      → (history ++ (snapshot_map o ∷ [])) ++ taken_in running o ms
        ≡ history ++ taken_in running o (ticks ∷ ms)
  taken-running running o ms history on =
      append_assoc history (snapshot_map o ∷ []) (taken_in running o ms) ∙ rw on refl

  moment-stopped : (l : Live k) → l.is_running ≡ false → moment k ticks l ≡ some ([], l)
  unfolding moment
  moment-stopped l off =
      ap (λ b. if b then (on_tick k l >>= λ l'. some ([], l')) else some ([], l)) off

  taken-stopped :
      (running : Bool) (o : MetricsObserver) (ms : List Moment)
      → running ≡ false
      → taken_in running o ms ≡ taken_in running o (ticks ∷ ms)
  taken-stopped running o ms off = rw off refl

module _ (k : Refreshing) (us : List Upstream) where
  -- Where the moments lead: the chains, the order of the upstreams, the observer and the window.
  pub record Serves (ms : List Moment) (l : Live k) (history : List Snapshots) : Type 0 where
    pub chains : List (List Upstream)
    pub end : Live k
    pub lives : live k ms l ≡ some (chains, end)
    pub are_chains : AreChains us ms chains
    pub same : Perm (k.ranking end.decider) us
    pub observes : end.observer ≡ observe_all l.observer (told_in ms)
    pub holds : Holds (k.window end.refresher) (history ++ taken_in l.is_running l.observer ms)

  -- One moment before those that are served.
  prepend :
      (m : Moment) (ms : List Moment) (l l' : Live k) (before history : List Snapshots)
      (cs : List (List Upstream))
      → moment k m l ≡ some (cs, l')
      → (rest : Serves ms l' history) → AreChains us (m ∷ ms) (cs ++ rest.chains)
      → observe_all l'.observer (told_in ms) ≡ observe_all l.observer (told_in (m ∷ ms))
      → history ++ taken_in l'.is_running l'.observer ms
        ≡ before ++ taken_in l.is_running l.observer (m ∷ ms)
      → Serves (m ∷ ms) l before
  prepend m ms l l' before history cs here rest chains observes taken = record {
    chains = cs ++ rest.chains;
    end = rest.end;
    lives = then_live k m ms l l' rest.end cs rest.chains here rest.lives;
    are_chains = chains;
    same = rest.same;
    observes = rest.observes ∙ observes;
    holds = subst (Holds (k.window rest.end.refresher)) taken rest.holds;
  }

module _ (k : Refreshing) (law : IsRefreshing k) (us : List Upstream) where
  -- From any state with the upstreams in some order and snapshots in the window.
  abbrev AlwaysServes : List Moment → Type 0
  AlwaysServes ms =
      (l : Live k) (history : List Snapshots)
      → Perm (k.ranking l.decider) us
      → Holds (k.window l.refresher) history
      → Fits (k.window l.refresher)
      → Serves k us ms l history

  tick-Serves :
      (ms : List Moment)
      → AlwaysServes ms
      → (l : Live k) (history : List Snapshots) → l.is_running ≡ true
      → Perm (k.ranking l.decider) us
      → Holds (k.window l.refresher) history
      → Fits (k.window l.refresher)
      → Serves k us (ticks ∷ ms) l history
  tick-Serves ms later l history on same holds fits =
      let current = snapshot_map l.observer in
      let (baseline, front) = oldest-Holds (k.window l.refresher) history holds in
      let (us', r', e, reordered, moved) =
        law.refreshed l.refresher current baseline (k.ranking l.decider) front
          (Holds-spans (k.window l.refresher) history holds fits) in
      let l' = record l { decider = k.store us' l.decider; refresher = r' } in
      let rest =
        later l' (history ++ (current ∷ []))
          (subst (λ x. Perm x us) (sym (law.stored us' l.decider)) (Perm.trans reordered same))
          (subst (λ x. Holds x (history ++ (current ∷ []))) (sym moved)
            (advance-Holds current (k.window l.refresher) history holds))
          (subst Fits (sym moved) (advance-Fits current (k.window l.refresher) fits)) in
      prepend k us ticks ms l l' history (history ++ (current ∷ [])) []
        (moment-running k l us' r' on e) rest rest.are_chains refl
        (taken-running k l.is_running l.observer ms history on)

  -- Whatever happens, and in whatever order, nothing panics.
  pub live-Serves : (ms : List Moment) → AlwaysServes ms
  unfolding live moment observe_all
  live-Serves [] l history same holds fits = record {
    chains = [];
    end = l;
    lives = refl;
    are_chains = tt;
    same = same;
    observes = refl;
    holds = rw (append-nil history) holds;
  }
  live-Serves (tells e ∷ ms) l history same holds fits =
      let l' = record l { observer = observe l.observer e } in
      let rest = live-Serves ms l' history same holds fits in
      prepend k us (tells e) ms l l' history history [] refl rest rest.are_chains refl refl
  live-Serves (decides max ∷ ms) l history same holds fits =
      let (chain, d', e, is_chain, reordered) = law.decided l.decider max in
      let l' = record l { decider = d' } in
      let rest = live-Serves ms l' history (Perm.trans reordered same) holds fits in
      prepend k us (decides max) ms l l' history history (chain ∷ []) (rw (e, moment) refl) rest
        (IsChain-perm max (k.ranking l.decider) us chain is_chain same, rest.are_chains) refl refl
  live-Serves (ticks ∷ ms) l history same holds fits = elim (Bool-cases l.is_running) [
    | inl on ↦ tick-Serves ms (live-Serves ms) l history on same holds fits
    | inr off ↦
        let rest = live-Serves ms l history same holds fits in
        prepend k us ticks ms l l history history [] (moment-stopped k l off) rest rest.are_chains
          refl (ap (λ x. history ++ x) (taken-stopped k l.is_running l.observer ms off))
  ]
  live-Serves (cancels ∷ ms) l history same holds fits =
      let l' = record l { is_running = false } in
      let rest = live-Serves ms l' history same holds fits in
      prepend k us cancels ms l l' history history [] refl rest rest.are_chains refl refl
