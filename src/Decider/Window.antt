-- ===== src/Decider/Window.antt =====
-- src/decider/window.rs: the last snapshots, from which a refresh takes its baseline.
use mathlib.Core.List.{append_assoc, append-nil}
use Prim.Native.Nat.{max}
use rpc_plus_plus.Upstream.Call.{Duration}
use rpc_plus_plus.Upstream.Build.{UpstreamId}
use rpc_plus_plus.Observer.Snapshot.{Snapshot}
use rpc_plus_plus.Prelude.{
  ◌%◌, ◌*◌, lt→ltb, Option, none, ℕ, zero, suc, ◌-◌, ◌*◌, ◌%◌, ◌≤◌, ◌<◌, ◌≡◌, refl, sym, ap, subst,
  ◌∙◌, inl, inr, Bool, Option, some, List, [], ◌∷◌, ◌++◌, arith, ltb, leb, if◌then◌else◌, ltb→lt,
  ltb-false, tests, Bool-cases, length, get_elem?, drop, length-append, length-drop, get_elem?-some,
}

abbrev pub Snapshots : Type 0
Snapshots = List (UpstreamId × Snapshot)

pub record Window : Type 0 where
  pub baselines : List Snapshots
  pub ticks : ℕ
  pub tick : Duration

unfoldable pub new : Snapshots → ℕ → Duration → Window
new seed ticks tick = record { baselines = seed ∷ []; ticks = ticks; tick = tick }

-- `front().expect(…)`: `none` would be the panic.
unfoldable pub oldest : Window → Option Snapshots
oldest w = get_elem? w.baselines 0

unfoldable pub ticks_held : Window → ℕ
ticks_held w = length w.baselines

-- A `Duration` is below 2^64 seconds.
abbrev pub duration_bound : ℕ
duration_bound = 18446744073709551616000000000

-- `Duration * (n as u32)`; `none` is its panic on overflow.
unfoldable pub times_u32 : Duration → ℕ → Option Duration
times_u32 d n =
    let product = d * (n % 4294967296) in if ltb product duration_bound then some product else none

unfoldable pub span : Window → Option Duration
unfolding ticks_held times_u32
span w = times_u32 w.tick (ticks_held w)

unfoldable pub wanted_span : Window → Option Duration
unfolding times_u32
wanted_span w = times_u32 w.tick w.ticks

unfoldable pub is_full : Window → Bool
unfolding ticks_held
is_full w = leb w.ticks (ticks_held w)

-- `push_back`, then `pop_front` if that made one too many.
unfoldable pub advance : Snapshots → Window → Window
advance current w =
    let pushed = w.baselines ++ (current ∷ []) in
    record w { baselines = if ltb w.ticks (length pushed) then drop 1 pushed else pushed }

unfoldable pub advance_all : List Snapshots → Window → Window
unfolding advance
advance_all [] w = w
advance_all (c ∷ cs) w = advance_all cs (advance c w)

-- How many snapshots a window keeps: `ticks`, but never none.
abbrev pub kept : ℕ → ℕ
kept zero = 1
kept (suc n) = suc n

-- The window over a history, oldest first: its last `kept ticks` snapshots.
abbrev pub Holds : Window → List Snapshots → Type 0
Holds w history =
    (0 < length history) × (w.baselines ≡ drop (length history - kept w.ticks) history)

-- As many ticks as the window keeps are a `Duration`.
abbrev pub Fits : Window → Type 0
Fits w = w.tick * kept w.ticks < duration_bound

mul_le : (a b c : ℕ) → b ≤ c → a * b ≤ a * c
mul_le zero b c h = omega arith
mul_le (suc a) b c h = omega (arith, mul_le a b c h)

times_u32-some :
    (d n k : ℕ) → n ≤ k → d * k < duration_bound → (p : Duration) × (times_u32 d n ≡ some p)
unfolding times_u32
times_u32-some d n k few h =
    let small : d * (n % 4294967296) ≤ d * k = mul_le d (n % 4294967296) k (omega arith) in
    let fits : d * (n % 4294967296) < duration_bound = omega (arith, small) in
    (d * (n % 4294967296), rw (lt→ltb (d * (n % 4294967296)) duration_bound fits) refl)

drop-append {ℓ} :
    {A : Type ℓ} (n : ℕ) (xs ys : List A) → n ≤ length xs → drop n (xs ++ ys) ≡ drop n xs ++ ys
drop-append zero xs ys h = refl
drop-append (suc n) [] ys h = elim h [ ]
drop-append (suc n) (x ∷ xs) ys h = drop-append n xs ys (omega arith)

drop-drop {ℓ} : {A : Type ℓ} (n : ℕ) (xs : List A) → drop 1 (drop n xs) ≡ drop (suc n) xs
drop-drop zero xs = refl
drop-drop (suc n) [] = refl
drop-drop (suc n) (x ∷ xs) = drop-drop n xs

pub kept_lem : (n : ℕ) → kept n ≡ max 1 n
kept_lem zero = omega arith
kept_lem (suc n) = omega arith

trimmed :
    (ticks : ℕ) (history : List Snapshots) (c : Snapshots)
    → 0 < length history
    → let pushed = drop (length history - kept ticks) (history ++ (c ∷ [])) in
      (if ltb ticks (length pushed) then drop 1 pushed else pushed)
      ≡ drop (length (history ++ (c ∷ [])) - kept ticks) (history ++ (c ∷ []))
trimmed ticks history c pos =
    rw (drop-drop (length history - kept ticks) all)
      (elim (Bool-cases (ltb ticks (length pushed))) [
        | inl over ↦
            let n : suc (length history - kept ticks) ≡ length all - kept ticks = omega (
              tests,
              ltb→lt _ _ over,
              kept_lem ticks,
              length-append history (c ∷ []),
              length-drop (length history - kept ticks) all,
            ) in
            rw over (ap (λ n. drop n all) n)
        | inr room ↦
            let n : length history - kept ticks ≡ length all - kept ticks = omega (
              tests,
              ltb-false _ _ room,
              kept_lem ticks,
              length-append history (c ∷ []),
              length-drop (length history - kept ticks) all,
            ) in
            rw room (ap (λ n. drop n all) n)
      ])
  where
    all : List Snapshots
    all = history ++ (c ∷ [])

    pushed : List Snapshots
    pushed = drop (length history - kept ticks) all

pub advance-Holds :
    (c : Snapshots) (w : Window) (history : List Snapshots)
    → Holds w history
    → Holds (advance c w) (history ++ (c ∷ []))
unfolding advance
advance-Holds c w history (pos, e) =
    let appended : w.baselines ++ (c ∷ [])
        ≡ drop (length history - kept w.ticks) (history ++ (c ∷ [])) =
      rw e (sym (drop-append (length history - kept w.ticks) history (c ∷ []) (omega arith))) in
    (omega (arith, length-append history (c ∷ [])), rw appended (trimmed w.ticks history c pos))

advance_all-Holds :
    (cs : List Snapshots) (w : Window) (history : List Snapshots)
    → Holds w history
    → Holds (advance_all cs w) (history ++ cs)
unfolding advance_all
advance_all-Holds [] w history h = rw (append-nil history) h
advance_all-Holds (c ∷ cs) w history h =
    subst (Holds (advance_all cs (advance c w))) (append_assoc history (c ∷ []) cs)
      (advance_all-Holds cs (advance c w) (history ++ (c ∷ [])) (advance-Holds c w history h))

advance_all-ticks : (cs : List Snapshots) (w : Window) → (advance_all cs w).ticks ≡ w.ticks
unfolding advance_all
advance_all-ticks [] w = refl
advance_all-ticks (c ∷ cs) w = advance_all-ticks cs (advance c w)

pub get_elem?-drop {ℓ} :
    {A : Type ℓ} (n : ℕ) (xs : List A) → get_elem? (drop n xs) 0 ≡ get_elem? xs n
get_elem?-drop zero xs = refl
get_elem?-drop (suc n) [] = refl
get_elem?-drop (suc n) (x ∷ xs) = get_elem?-drop n xs

pub new-Holds :
    (seed : Snapshots) (ticks : ℕ) (tick : Duration) → Holds (new seed ticks tick) (seed ∷ [])
unfolding new
new-Holds seed ticks tick =
    let n : 1 - kept ticks ≡ 0 = omega (arith, kept_lem ticks) in
    (omega arith, sym (ap (λ n. drop n (seed ∷ [])) n))

-- Neither span of the window overflows.
abbrev pub HasSpans : Window → Type 0
HasSpans w =
    ((held : Duration) × (span w ≡ some held))
    × ((wanted : Duration) × (wanted_span w ≡ some wanted))

-- While the window holds a history, both spans that a refresh logs are there.
pub Holds-spans : (w : Window) (history : List Snapshots) → Holds w history → Fits w → HasSpans w
unfolding span wanted_span
Holds-spans w history (pos, e) fits =
    let few : length w.baselines ≤ kept w.ticks =
      omega (
        arith,
        ap length e,
        length-drop (length history - kept w.ticks) history,
        kept_lem w.ticks,
      ) in
    (
      times_u32-some w.tick (length w.baselines) (kept w.ticks) few fits,
      times_u32-some w.tick w.ticks (kept w.ticks) (omega (arith, kept_lem w.ticks)) fits,
    )

-- After any refreshes the window holds exactly the last `ticks` of the snapshots that it was given,
-- the seed included and oldest first (one snapshot if `ticks` is 0), so that `oldest` never panics
-- and is the snapshot of `ticks` refreshes ago, or the seed while the window is not full.
pub oldest-advance_all :
    (seed : Snapshots) (cs : List Snapshots) (ticks : ℕ) (tick : Duration)
    → let w = advance_all cs (new seed ticks tick) in
      let n = length (seed ∷ cs) in
      (w.baselines ≡ drop (n - kept ticks) (seed ∷ cs))
      × (oldest w ≡ get_elem? (seed ∷ cs) (n - kept ticks))
      × (s : Snapshots) × (oldest w ≡ some s)
unfolding oldest new
oldest-advance_all seed cs ticks tick =
    let (pos, e) =
      advance_all-Holds cs (new seed ticks tick) (seed ∷ []) (new-Holds seed ticks tick) in
    let kept_same : (advance_all cs (new seed ticks tick)).ticks ≡ ticks =
      advance_all-ticks cs (new seed ticks tick) in
    let baselines : (advance_all cs (new seed ticks tick)).baselines
        ≡ drop (length (seed ∷ cs) - kept ticks) (seed ∷ cs) =
      rw kept_same at e in
    let front : oldest (advance_all cs (new seed ticks tick))
        ≡ get_elem? (seed ∷ cs) (length (seed ∷ cs) - kept ticks) =
      ap (λ l. get_elem? l 0) baselines ∙ get_elem?-drop _ (seed ∷ cs) in
    let (s, at) =
      get_elem?-some (seed ∷ cs) (length (seed ∷ cs) - kept ticks)
        (omega (arith, kept_lem ticks)) in
    (baselines, front, s, front ∙ at)
