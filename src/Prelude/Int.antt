-- ===== src/Prelude/Int.antt =====
-- Signed integers over the native numbers: the JSON-RPC error codes are `i64`.
use Prim.Native.Nat.{ℕ}
use mathlib.Core.Bool.{Bool, false}
use rpc_plus_plus.Prelude.Tests.{◌==◌}

-- `negsuc n` is -(n + 1).
pub data ℤ : Type 0 where
  pos : ℕ → ℤ
  negsuc : ℕ → ℤ

-- The negation of a literal.
abbrev pub neg : ℕ → ℤ
neg ℕ.zero = pos 0
neg (ℕ.suc n) = negsuc n

infix 50 ◌==ℤ◌
abbrev pub ◌==ℤ◌ : ℤ → ℤ → Bool
pos a ==ℤ pos b = a == b
negsuc a ==ℤ negsuc b = a == b
_ ==ℤ _ = false
