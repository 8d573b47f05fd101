-- ===== src/Prelude/Decimal.antt =====
-- `Display` of the integers: decimal digits.
use Prim.Native.Nat.{ℕ, zero, suc, ◌+◌, ◌-◌, ◌*◌, ◌/◌, ◌%◌, ◌≤◌, ◌<◌}
use mathlib.Core.Path.{◌≡◌, refl, ◌∙◌}
use mathlib.Core.Logic.{inl, inr}
use mathlib.Core.List.{[], ◌∷◌, ◌++◌}
use native.Mathlib.Omega.{arith}
use rpc_plus_plus.Prelude.Tests.{ltb, if◌then◌else◌, Bool-cases, ltb-false}
use rpc_plus_plus.Prelude.Int.{ℤ, pos, negsuc}
use rpc_plus_plus.Prelude.Text.{Text}

-- The digits on fuel; `show_nat` gives more than there are digits.
unfoldable pub digits : ℕ → ℕ → Text
digits zero n = []
digits (suc k) n =
    let rest = digits k (n / 10) in if ltb n 10 then (48 + n) ∷ [] else rest ++ ((48 + n % 10) ∷ [])

unfoldable pub show_nat : ℕ → Text
unfolding digits
show_nat n = digits (suc n) n

unfoldable pub show_int : ℤ → Text
unfolding show_nat
show_int (pos n) = show_nat n
show_int (negsuc n) = 45 ∷ show_nat (suc n)

abbrev pub value_from : ℕ → Text → ℕ
value_from acc [] = acc
value_from acc (c ∷ s) = value_from (acc * 10 + (c - 48)) s

value_from-append :
    (acc : ℕ) (s : Text) (c : ℕ) → value_from acc (s ++ (c ∷ [])) ≡ value_from acc s * 10 + (c - 48)
value_from-append acc [] c = refl
value_from-append acc (d ∷ s) c = value_from-append (acc * 10 + (d - 48)) s c

-- The fuel is enough: the digits read back as the number.
pub digits-value : (k n : ℕ) → n < k → value_from 0 (digits k n) ≡ n
unfolding digits
digits-value zero n h = omega arith
digits-value (suc k) n h = elim (Bool-cases (ltb n 10)) [
  | inl y ↦ rw y (omega arith)
  | inr m ↦
      let large : 10 ≤ n = ltb-false _ _ m in
      let rest : value_from 0 (digits k (n / 10)) ≡ n / 10 =
        digits-value k (n / 10) (omega arith) in
      rw m (value_from-append 0 (digits k (n / 10)) (48 + n % 10) ∙ omega arith)
]

pub show_nat-value : (n : ℕ) → value_from 0 (show_nat n) ≡ n
unfolding show_nat
show_nat-value n = digits-value (suc n) n (omega arith)
