-- ===== src/Jsonrpc/Shape.antt =====
-- `shape` of src/jsonrpc/mod.rs: one request, a batch, or neither, by the first bracket.
use mathlib.Core.Option
use rpc_plus_plus.Prelude.Text.{Text, position, is_ascii_whitespace}
use rpc_plus_plus.Jsonrpc.Libs.{Memchr, IsMemchr}
use rpc_plus_plus.Prelude.{
  ℕ, zero, suc, ◌≡◌, refl, inl, inr, ◌||◌, Option, none, some, [], ◌∷◌, arith, ◌==◌, if◌then◌else◌,
  Bool-cases, take, all,
}

pub data Shape : Type 0 where
  batch single malformed : Shape

-- `body[i]` at the index that `memchr2` found, which is in range.
abbrev at : Text → ℕ → ℕ
at [] i = 0
at (c ∷ s) zero = c
at (c ∷ s) (suc i) = at s i

-- The `match` on what the search found.
shape_at : Option ℕ → Text → Shape
shape_at o body = elim o [
  | none ↦ malformed
  | some i ↦
      if all is_ascii_whitespace (take i body)
      then (if at body i == b'[' then batch else single)
      else malformed
]

unfoldable pub shape : Memchr → Text → Shape
unfolding shape_at
shape m body = shape_at (m.memchr2 b'{' b'[' body) body

-- The description that the search implements: look at the first character that is no whitespace.
abbrev pub skip_whitespace : Text → Text
skip_whitespace [] = []
skip_whitespace (c ∷ s) =
    let rest = skip_whitespace s in if is_ascii_whitespace c then rest else c ∷ s

abbrev pub shape_of_first : Text → Shape
shape_of_first [] = malformed
shape_of_first (c ∷ s) = if c == b'[' then batch else if c == b'{' then single else malformed

shape_at-suc :
    (o : Option ℕ) (c : ℕ) (s : Text)
    → shape_at (Option.map suc o) (c ∷ s)
      ≡ (if is_ascii_whitespace c then shape_at o s else malformed)
unfolding shape_at
shape_at-suc none c s = ground arith
shape_at-suc (some i) c s = ground arith

shape_at-position :
    (s : Text)
    → shape_at (position (λ c. (c == b'{') || (c == b'[')) s) s ≡ shape_of_first (skip_whitespace s)
unfolding position
shape_at-position [] = unfold shape_at in refl
shape_at-position (c ∷ s) = elim (Bool-cases ((c == b'{') || (c == b'['))) [
  | inl hit ↦ rw (hit) (unfold shape_at in ground arith)
  | inr miss ↦ rw (miss) (rw (shape_at-suc _ c s) (rw (shape_at-position s) (ground arith)))
]

-- The search for the first bracket classifies a body as the first character that is no ASCII
-- whitespace does: `[` is a batch, `{` a single request, anything else or nothing is malformed.
pub shape-skip_whitespace :
    (m : Memchr) → IsMemchr m → (body : Text) → shape m body ≡ shape_of_first (skip_whitespace body)
unfolding shape
shape-skip_whitespace m law body = rw (law.memchr2_first b'{' b'[' body) (shape_at-position body)
