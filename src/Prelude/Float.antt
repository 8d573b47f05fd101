-- ===== src/Prelude/Float.antt =====
-- `f64` and its operations, as a parameter: floating point is not computed with here.
use Prim.Native.Nat.{ℕ, Ordering}
use mathlib.Core.Path.{◌≡◌}
use mathlib.Core.Bool.{Bool, true, false}

pub record Float : Type 1 where
  pub F64 : Type 0
  pub of_u64 : ℕ → F64
  pub sub : F64 → F64 → F64
  pub mul : F64 → F64 → F64
  pub div : F64 → F64 → F64
  pub total_cmp : F64 → F64 → Ordering
  -- `Duration::mul_f64`, on nanoseconds.
  pub mul_f64 : ℕ → F64 → ℕ

-- Not `Greater`: what a sort asks of a comparison.
abbrev pub is_le : Ordering → Bool
is_le Ordering.lt = true
is_le Ordering.eq = true
is_le Ordering.gt = false

-- `f64::total_cmp` is a total order.
pub record IsTotallyOrdered (f : Float) : Type 0 where
  pub total : (a b : f.F64) → is_le (f.total_cmp a b) ≡ false → is_le (f.total_cmp b a) ≡ true
  pub trans :
      (a b c : f.F64)
      → is_le (f.total_cmp a b) ≡ true
      → is_le (f.total_cmp b c) ≡ true
      → is_le (f.total_cmp a c) ≡ true
