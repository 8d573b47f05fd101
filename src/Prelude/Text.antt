-- ===== src/Prelude/Text.antt =====
-- Text and bytes. A `str` is the list of its code points, a `Bytes` the list of its bytes; the two
-- agree on ASCII. Equality is decided by recursion.
use Prim.Native.Nat.{ℕ, suc, compare, Ordering}
use Prim.Native.Char.{code}
use Prim.Native.String.{String}
use mathlib.Core.Path.{◌≡◌, refl}
use mathlib.Core.Logic.{◌↔◌, inl, inr}
use mathlib.Core.Bool.{Bool, true, false, ◌&&◌, ◌||◌}
use mathlib.Core.List.{List, [], ◌∷◌}
use mathlib.Core.Option
use mathlib.Core.Option.{Option, none, some}
use native.Mathlib.Omega.{arith}
use rpc_plus_plus.Prelude.Tests.{leb, ◌==◌, if◌then◌else◌, Bool-cases}
use rpc_plus_plus.Prelude.Lists.{is_empty}
use rpc_plus_plus.Prelude.Options.{is_some}

abbrev pub Text : Type 0
Text = List ℕ

abbrev pub codes : String → Text
codes String.[] = []
codes (String.◌∷◌ c s) = code c ∷ codes s

unfoldable pub text_eq : Text → Text → Bool
text_eq [] [] = true
text_eq (a ∷ s) (b ∷ t) = (a == b) && text_eq s t
text_eq _ _ = false

pub text_eq→eq : (s t : Text) → text_eq s t ≡ true → s ≡ t
unfolding text_eq
text_eq→eq [] [] h = refl
text_eq→eq [] (b ∷ t) h = cc
text_eq→eq (a ∷ s) [] h = cc
text_eq→eq (a ∷ s) (b ∷ t) h = ground (arith, text_eq→eq s t)

pub text_eq_self : (s : Text) → text_eq s s ≡ true
unfolding text_eq
text_eq_self [] = refl
text_eq_self (a ∷ s) = ground (arith, text_eq_self s)

pub text_eq_iff : (s t : Text) → (text_eq s t ≡ true) ↔ (s ≡ t)
text_eq_iff s t = (text_eq→eq s t, λ e. ground (arith, text_eq_self s))

pub Text-discrete : Discrete Text
Text-discrete s t = elim (Bool-cases (text_eq s t)) [
  | inl e ↦ yes (text_eq→eq s t e)
  | inr e ↦ no (λ p. ground (arith, text_eq_self s))
]

unfoldable pub mem_text : Text → List Text → Bool
unfolding text_eq
mem_text s [] = false
mem_text s (t ∷ ts) = text_eq s t || mem_text s ts

-- `str` compares by bytes, which on UTF-8 is the order of the code points.
unfoldable pub text_leb : Text → Text → Bool
text_leb [] _ = true
text_leb (a ∷ s) [] = false
text_leb (a ∷ s) (b ∷ t) = elim (compare a b) [
  | Ordering.lt ↦ true
  | Ordering.eq ↦ text_leb s t
  | Ordering.gt ↦ false
]

-- `str::starts_with`, `str::find` and `str::contains` with a text for a pattern.
unfoldable pub starts_with : Text → Text → Bool
starts_with [] _ = true
starts_with (a ∷ s) [] = false
starts_with (a ∷ s) (b ∷ t) = (a == b) && starts_with s t

unfoldable pub find : Text → Text → Option ℕ
unfolding starts_with
find needle [] = if is_empty needle then some 0 else none
find needle (c ∷ s) =
    let later = Option.map suc (find needle s) in
    if starts_with needle (c ∷ s) then some 0 else later

unfoldable pub contains : Text → Text → Bool
unfolding find
contains needle s = is_some (find needle s)

-- `Iterator::position`: the first index whose element passes.
unfoldable pub position : (ℕ → Bool) → Text → Option ℕ
position p [] = none
position p (c ∷ s) = let later = Option.map suc (position p s) in if p c then some 0 else later

-- `u8::is_ascii_whitespace`: space, tab, line feed, form feed, carriage return.
abbrev pub is_ascii_whitespace : ℕ → Bool
is_ascii_whitespace c = (c == 32) || (c == 9) || (c == 10) || (c == 12) || (c == 13)

-- `char::is_whitespace`: the code points with the property White_Space.
unfoldable pub is_whitespace : ℕ → Bool
is_whitespace c =
    (leb 9 c && leb c 13)
    || (c == 32)
    || (c == 0x85)
    || (c == 0xa0)
    || (c == 0x1680)
    || (leb 0x2000 c && leb c 0x200a)
    || (c == 0x2028)
    || (c == 0x2029)
    || (c == 0x202f)
    || (c == 0x205f)
    || (c == 0x3000)

unfoldable pub trim_start : Text → Text
unfolding is_whitespace
trim_start [] = []
trim_start (c ∷ s) = let rest = trim_start s in if is_whitespace c then rest else c ∷ s

-- Drops the whitespace at the end.
unfoldable pub trim_end : Text → Text
unfolding is_whitespace
trim_end [] = []
trim_end (c ∷ s) = elim (trim_end s) [
  | [] ↦ if is_whitespace c then [] else c ∷ []
  | d ∷ t ↦ c ∷ d ∷ t
]

unfoldable pub trim : Text → Text
unfolding trim_start trim_end
trim s = trim_end (trim_start s)
