-- ===== src/Prelude/Results.antt =====
-- `Result` and its monad, for the fallible code.
use mathlib.Core.Path.{◌≡◌, refl, ap}
use mathlib.Core.Option.{Option, none, some}
use mathlib.Core.Logic.{◌⊎◌, inl, inr}
use mathlib.Core.Bool.{Bool, true, false}
use native.Mathlib.Omega.{arith}

pub data Result {ℓ κ} (A : Type ℓ) (E : Type κ) : Type (ℓ ⊔ κ) where
  ok : A → Result A E
  err : E → Result A E

module _ {ℓ κ} {A : Type ℓ} {E : Type κ} where
  infixl 5 ◌>>=◌ ◌>>◌
  abbrev pub ◌>>=◌ {μ} : {B : Type μ} → Result A E → (A → Result B E) → Result B E
  ok a >>= f = f a
  err e >>= f = err e

  -- The `?` operator on `Result<(), E>`, then the rest.
  abbrev pub ◌>>◌ {μ} : {B : Type μ} → Result A E → Result B E → Result B E
  m >> k = m >>= λ _. k

  abbrev pub map_ok {μ} : {B : Type μ} → (A → B) → Result A E → Result B E
  map_ok f (ok a) = ok (f a)
  map_ok f (err e) = err e

  abbrev pub map_err {μ} : {F : Type μ} → (E → F) → Result A E → Result A F
  map_err f (ok a) = ok a
  map_err f (err e) = err (f e)

  abbrev pub ok_or : Option A → E → Result A E
  ok_or none e = err e
  ok_or (some a) e = ok a

  abbrev pub is_ok : Result A E → Bool
  is_ok (ok a) = true
  is_ok (err e) = false

  abbrev pub to_option : Result A E → Option A
  to_option (ok a) = some a
  to_option (err e) = none

  pub Result-cases : (r : Result A E) → ((a : A) × (r ≡ ok a)) ⊎ ((e : E) × (r ≡ err e))
  Result-cases (ok a) = inl (a, refl)
  Result-cases (err e) = inr (e, refl)

  -- What succeeded in two stages succeeded in each.
  pub >>=-eq-ok {μ} :
      {B : Type μ} (first : Result A E) (then : A → Result B E) {out : B}
      → (first >>= then) ≡ ok out
      → (mid : A) × (first ≡ ok mid) × (then mid ≡ ok out)
  >>=-eq-ok (err failure) then both = ground arith
  >>=-eq-ok (ok mid) then both = (mid, refl, both)

-- `guard t e` fails with `e` unless the test holds.
abbrev pub guard {κ} : {E : Type κ} → Bool → E → Result (Unit {0}) E
guard true e = ok tt
guard false e = err e

pub ok_inj {ℓ κ} : {A : Type ℓ} {E : Type κ} {a b : A} → ◌≡◌ {A = Result A E} (ok a) (ok b) → a ≡ b
ok_inj {a = a} h = ap (λ r. elim r [ ok c ↦ c | err e ↦ a ]) h

-- What succeeded with its error renamed succeeded before.
pub map_err-ok {ℓ κ μ} :
    {A : Type ℓ} {E : Type κ} {F : Type μ} (g : E → F) (r : Result A E) {a : A}
    → map_err g r ≡ ok a
    → r ≡ ok a
map_err-ok g (ok b) h = ap (λ x. ok x) (ok_inj h)
map_err-ok g (err e) h = absurd (ground arith)
